-- ===== src/Server/Session/Word.antt =====
-- How a debugger reads a word of memory: four requests, and the answer to the third one.
use riscv_openocd_jtag_mock.Prelude.{
  ℕ, ◌^◌, ◌<◌, ◌≡◌, refl, ap, ◌∙◌, arith, List, [], ◌∷◌, set, get_or-set_self, length-set, done,
}
use riscv_openocd_jtag_mock.Cpu.{Environment}
use riscv_openocd_jtag_mock.Dmi.{pack_dmi}
use riscv_openocd_jtag_mock.DebugModule.{DebugModule}
use riscv_openocd_jtag_mock.DebugModule.Command.{data_at}
use riscv_openocd_jtag_mock.DebugModule.Command.Memory.{memory, memory_read_lem}
use riscv_openocd_jtag_mock.DebugModule.Access.{update_dmi}
use riscv_openocd_jtag_mock.DebugModule.Access.Requests.{requested}
use riscv_openocd_jtag_mock.DebugModule.Access.Storage.{write_data, read_data}
use riscv_openocd_jtag_mock.DebugModule.Access.Pending.{command_request}
use riscv_openocd_jtag_mock.DebugModule.Invariant.{IsModule}
use riscv_openocd_jtag_mock.Server.Session.Requests.{exchange}

-- "Access memory" with a size of 32 bits.
abbrev pub read_word : ℕ
read_word = 0x02200000

-- The address to `data1`, the command, and two reads of `data0`: the second one for the answer to
-- the first.
abbrev pub word_requests : ℕ → List ℕ
word_requests a =
    pack_dmi 0x05 a 2 ∷ pack_dmi 0x17 read_word 2 ∷ pack_dmi 0x04 0 1 ∷ pack_dmi 0x04 0 1 ∷ []

module _ {Cpu : Type 0} (env : Environment Cpu) where
  exchange_four :
      (r1 r2 r3 r4 : ℕ) (m m1 m2 m3 m4 : DebugModule Cpu)
      → update_dmi env r1 m ≡ done m1
      → update_dmi env r2 m1 ≡ done m2
      → update_dmi env r3 m2 ≡ done m3
      → update_dmi env r4 m3 ≡ done m4
      → exchange env (r1 ∷ r2 ∷ r3 ∷ r4 ∷ []) m
        ≡ done (
          m4,
          m.dmi_container_register ∷ m1.dmi_container_register ∷ m2.dmi_container_register
              ∷ m3.dmi_container_register ∷ [],
        )
  unfolding exchange
  exchange_four r1 r2 r3 r4 m m1 m2 m3 m4 e1 e2 e3 e4 = rw e1 (rw e2 (rw e3 (rw e4)))

  -- The last answer is the word at the address, and the memory and the registers of the processor are
  -- as they were.
  pub exchange-word_requests :
      (a : ℕ) (m : DebugModule Cpu)
      → a < 2 ^ 32
      → IsModule m
      → (last : DebugModule Cpu) × (exchange env (word_requests a) m
          ≡ done (
            last,
            m.dmi_container_register
                ∷ pack_dmi 0x05 a 2
                ∷ pack_dmi 0x17 read_word 2
                ∷ pack_dmi 0x04 (memory env m.cpu a) 0
                ∷ [],
          ))
        × ((b : ℕ) → memory env last.cpu b ≡ memory env m.cpu b)
        × ((i : ℕ) → env.reg last.cpu i ≡ env.reg m.cpu i)
        × (env.pc last.cpu ≡ env.pc m.cpu)
  exchange-word_requests a m small h =
      let m1 = record (requested 0x05 a 2 m) { abstract_data = set m.abstract_data 1 a } in
      let (m2, runs, word) =
        memory_read_lem env read_word (requested 0x17 read_word 2 m1) refl refl refl
          (length-set m.abstract_data 1 a ∙ h.twelve) in
      let m3 = requested 0x04 (data_at m2 0) 0 m2 in
      let m4 = requested 0x04 (data_at m3 0) 0 m3 in
      let at : data_at m1 1 ≡ a = get_or-set_self m.abstract_data 1 a 0 (omega (arith, h.twelve)) in
      let found : data_at m2 0 ≡ memory env m.cpu a = word.word ∙ ap (memory env m.cpu) at in
      (
        m4,
        exchange_four (pack_dmi 0x05 a 2) (pack_dmi 0x17 read_word 2) (pack_dmi 0x04 0 1)
              (pack_dmi 0x04 0 1) m m1 m2 m3 m4 (write_data env 1 a m (omega arith) small)
              (command_request env read_word m1 (omega arith) ∙ runs)
              (read_data env 0 m2 (omega arith)) (read_data env 0 m3 (omega arith))
            ∙ λ i. done (
              m4,
              m.dmi_container_register
                  ∷ pack_dmi 0x05 a 2
                  ∷ word.same_request i
                  ∷ pack_dmi 0x04 (found i) 0
                  ∷ [],
            ),
        word.same_memory,
        word.same_registers,
        word.same_pc,
      )
