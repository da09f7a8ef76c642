-- ===== src/DebugModule/Access/Totality.antt =====
-- How a request to the debug module ends.
use riscv_openocd_jtag_mock.Prelude.{
  ℕ, ◌≡◌, ◌≢◌, ◌↔◌, subst, arith, Outcome, done, undefined, aborted, waiting,
}
use riscv_openocd_jtag_mock.Cpu.{Environment, Segment}
use riscv_openocd_jtag_mock.Dmi.{get_dmi_address, get_dmi_data, get_dmi_op}
use riscv_openocd_jtag_mock.DebugModule.State.{DebugModule}
use riscv_openocd_jtag_mock.DebugModule.Command.{access_command}
use riscv_openocd_jtag_mock.DebugModule.Command.Safety.{
  IsUndefined, Ends, write_command-Ends, write_command_undefined,
}
use riscv_openocd_jtag_mock.DebugModule.Access.Fresh.{with_fresh, IsKnown, update_dmi-fresh}
use riscv_openocd_jtag_mock.DebugModule.Access.{access_register_at, dmi_request, update_dmi}

-- A write of `command` that asks for an access to memory in bytes, with the increment.
pub record IsUndefinedRequest (r : ℕ) : Type 0 where
  pub to_command : get_dmi_address r ≡ 0x17
  pub writes : get_dmi_op r ≡ 2
  pub command : IsUndefined (get_dmi_data r)

Ends-map : {A P Q : Type 0} → (m : Outcome A) → (P → Q) → Ends P m → Ends Q m
Ends-map (done a) f h = tt
Ends-map undefined f h = f h
Ends-map aborted f h = h
Ends-map waiting f h = h

module _ {Cpu : Type 0} (env : Environment Cpu) where
  access_register_at-Ends :
      (a d o : ℕ) (s : DebugModule Cpu)
      → Ends ((a ≡ 0x17) × (o ≡ 2) × IsUndefined d) (access_register_at env a d o s)
  unfolding access_register_at access_command
  access_register_at-Ends a d o s = ground (arith, write_command-Ends env d s)

  access_register_at_undefined :
      (d : ℕ) (s : DebugModule Cpu) → IsUndefined d → access_register_at env 0x17 d 2 s ≡ undefined
  unfolding access_register_at access_command
  access_register_at_undefined d s h = write_command_undefined env d s h

  pub update_dmi-Ends :
      (w : ℕ) (s : DebugModule Cpu)
      → Ends (IsUndefinedRequest (dmi_request w s).dmi_container_register) (update_dmi env w s)
  unfolding update_dmi
  update_dmi-Ends w s =
      let t = dmi_request w s in
      let r = t.dmi_container_register in
      Ends-map (access_register_at env (get_dmi_address r) (get_dmi_data r) (get_dmi_op r) t)
        (λ (a, o, d). record { to_command = a; writes = o; command = d })
        (access_register_at-Ends (get_dmi_address r) (get_dmi_data r) (get_dmi_op r) t)

  -- A request that does not read a word from a segment that is not there never aborts and never waits,
  -- given a processor whose step returns. Its behaviour is undefined exactly when the request that
  -- stands in the container is a write of `command` for an access to memory with size 0 and the
  -- increment: in every other case it returns. And what it does is the same whatever a new array
  -- contains.
  pub update_dmi_total :
      (f : ℕ → Segment) (w : ℕ) (s : DebugModule Cpu)
      → IsKnown env (dmi_request w s)
      → (update_dmi env w s ≢ aborted)
        × (update_dmi env w s ≢ waiting)
        × ((update_dmi env w s ≡ undefined)
            ↔ IsUndefinedRequest (dmi_request w s).dmi_container_register)
        × (update_dmi (with_fresh env f) w s ≡ update_dmi env w s)
  unfolding update_dmi
  update_dmi_total f w s known =
      let t = dmi_request w s in
      let r = t.dmi_container_register in
      let ends = update_dmi-Ends w s in
      (
        ground (arith, ends),
        ground (arith, ends),
        (
          λ e. subst (Ends (IsUndefinedRequest r)) e ends,
          λ bad.
              rw (bad.to_command, bad.writes)
                (access_register_at_undefined (get_dmi_data r) t bad.command),
        ),
        update_dmi-fresh env f w s known,
      )
