-- ===== src/DebugModule/Access/Pending.antt =====
-- The request 0, which the DMI protocol calls a "nop": here the request that stands in the container
-- is carried out again.
use riscv_openocd_jtag_mock.Prelude.{
  ℕ, ◌+◌, ◌^◌, ◌<◌, ◌≡◌, sym, ◌∙◌, ap, arith, length, done, ◌>>=◌,
}
use riscv_openocd_jtag_mock.Cpu.{Environment}
use riscv_openocd_jtag_mock.Dmi.{get_dmi_address, get_dmi_data, get_dmi_op, pack_dmi}
use riscv_openocd_jtag_mock.DebugModule.State.{DebugModule}
use riscv_openocd_jtag_mock.DebugModule.Command.{data_at, write_command, access_command}
use riscv_openocd_jtag_mock.DebugModule.Command.Arguments.{
  command_type, size_field, write_field, increment_field,
}
use riscv_openocd_jtag_mock.DebugModule.Command.Memory.{memory, memory_read_lem}
use riscv_openocd_jtag_mock.DebugModule.Access.{access_register_at, dmi_request, update_dmi}
use riscv_openocd_jtag_mock.DebugModule.Access.Requests.{requested, update_dmi-pack_dmi}

module _ {Cpu : Type 0} (env : Environment Cpu) where
  same_request : (s : DebugModule Cpu) → dmi_request s.dmi_container_register s ≡ s
  unfolding dmi_request
  same_request s = ground arith

  -- A nop is the pending request over again.
  nop-pending :
      (r : ℕ) (s : DebugModule Cpu)
      → s.dmi_container_register ≡ r
      → update_dmi env 0 s ≡ update_dmi env r s
  unfolding update_dmi dmi_request
  nop-pending r s e =
      ap
        (λ (t : DebugModule Cpu).
          access_register_at env (get_dmi_address t.dmi_container_register)
            (get_dmi_data t.dmi_container_register) (get_dmi_op t.dmi_container_register) t)
        (sym (same_request s))
      ∙ ap (λ r. update_dmi env r s) e

  pub command_request :
      (w : ℕ) (s : DebugModule Cpu)
      → w < 2 ^ 32
      → update_dmi env (pack_dmi 0x17 w 2) s ≡ write_command env w (requested 0x17 w 2 s)
  unfolding access_register_at access_command
  command_request w s small =
      update_dmi-pack_dmi env 0x17 w 2 s (omega arith) small (omega arith) (omega arith)

  -- A command stays in the container, so a nop behind it carries it out a second time. After a read
  -- of a memory word with the increment and one nop, `data1` has moved by two words, and `data0`
  -- holds the second of them: the word that was asked for is lost.
  pub nop_repeats_command :
      (w : ℕ) (s : DebugModule Cpu)
      → w < 2 ^ 32
      → command_type w ≡ 2
      → write_field w ≡ 0
      → size_field w ≡ 2
      → increment_field w ≡ 1
      → length s.abstract_data ≡ 12
      → data_at s 1 + 8 < 2 ^ 64
      → (t : DebugModule Cpu) × ((update_dmi env (pack_dmi 0x17 w 2) s >>= update_dmi env 0)
          ≡ done t)
        × (data_at t 0 ≡ memory env s.cpu (data_at s 1 + 4))
        × (data_at t 1 ≡ data_at s 1 + 8)
  nop_repeats_command w s small type read size incr twelve room =
      let r = pack_dmi 0x17 w 2 in
      let a = data_at s 1 in
      let (t, runs, first) = memory_read_lem env w (requested 0x17 w 2 s) type read size twelve in
      let (u, runs_again, second) =
        memory_read_lem env w (requested 0x17 w 2 t) type read size first.twelve in
      let next : data_at t 1 ≡ a + 4 = first.next ∙ rw incr (omega arith) in
      (
        u,
        rw (command_request w s small)
            (rw runs (nop-pending r t first.same_request ∙ command_request w t small ∙ runs_again)),
        second.word ∙ first.same_memory (data_at t 1) ∙ ap (memory env s.cpu) next,
        second.next ∙ rw incr (omega (arith, next)),
      )
