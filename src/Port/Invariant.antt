-- ===== src/Port/Invariant.antt =====
-- What holds of the target between any two changes of the pins.
use riscv_openocd_jtag_mock.Prelude.{
  ℕ, ◌/◌, ◌^◌, ◌<◌, ◌≡◌, arith, Outcome, Keeps, Keeps->>=, done, ◌>>=◌,
}
use riscv_openocd_jtag_mock.Word.{bit_and-mod, low_or_add}
use riscv_openocd_jtag_mock.Tap.{
  TsmState, test_logic_reset, capture_dr, shift_dr, update_dr, capture_ir, shift_ir, update_ir,
  tap_step,
}
use riscv_openocd_jtag_mock.Cpu.{Environment}
use riscv_openocd_jtag_mock.Dmi.{init_dmi}
use riscv_openocd_jtag_mock.Dmi.Codec.{pack_dmi-lt}
use riscv_openocd_jtag_mock.DebugModule.{DebugModule}
use riscv_openocd_jtag_mock.DebugModule.Access.{update_dmi}
use riscv_openocd_jtag_mock.DebugModule.Invariant.{IsModule, update_dmi-Keeps}
use riscv_openocd_jtag_mock.Dtmcs.{init_dtmcs}
use riscv_openocd_jtag_mock.Target.{Target, ScanChain, initial_target}
use riscv_openocd_jtag_mock.Port.{
  enter_capture_dr, enter_update_dr, state_entered, transition, reset, shift_data,
  shift_instruction, falling_edge, set_pins,
}

-- The registers between `tdi` and `tdo` fit their widths: 5 bits for an instruction, 32 for
-- `idcode` and `dtmcs`, 41 for `dmi`. The container of `dtmcs` is never written.
pub record IsScanChain (c : ScanChain) : Type 0 where
  pub instruction_fits : c.instruction_container_register < 2 ^ 5
  pub shifted_instruction_fits : c.instruction_shift_register < 2 ^ 5
  pub id_code_fits : c.id_code_container_register < 2 ^ 32
  pub shifted_id_code_fits : c.id_code_shift_register < 2 ^ 32
  pub dtmcs_kept : c.dtmcs_container_register ≡ init_dtmcs
  pub shifted_dtmcs_fits : c.dtmcs_shift_register < 2 ^ 32
  pub shifted_dmi_fits : c.dmi_shift_register < 2 ^ 41
  pub counter_fits : c.shift_amount < 2 ^ 8

pub record IsTarget {Cpu : Type 0} (s : Target Cpu) : Type 0 where
  pub tdi_bit : s.pins.tdi < 2
  pub scan_fits : IsScanChain s.scan
  pub module_fits : IsModule s.dm

module _ {Cpu : Type 0} (env : Environment Cpu) where
  enter_capture_dr-IsTarget : (s : Target Cpu) → IsTarget s → IsTarget (enter_capture_dr env s)
  unfolding enter_capture_dr init_dtmcs
  enter_capture_dr-IsTarget s h = ground arith

  shift_data-IsTarget : (s : Target Cpu) → IsTarget s → IsTarget (shift_data s)
  unfolding shift_data
  shift_data-IsTarget s h =
      let c = s.scan in
      let i = c.id_code_shift_register in
      let t = c.dtmcs_shift_register in
      let d = c.dmi_shift_register in
      ground (
        arith,
        bit_and-mod 1 i,
        low_or_add 31 s.pins.tdi (i / 2),
        bit_and-mod 1 t,
        low_or_add 31 s.pins.tdi (t / 2),
        bit_and-mod 1 d,
        low_or_add 40 s.pins.tdi (d / 2),
      )

  shift_instruction-IsTarget : (s : Target Cpu) → IsTarget s → IsTarget (shift_instruction s)
  unfolding shift_instruction
  shift_instruction-IsTarget s h =
      let i = s.scan.instruction_shift_register in
      ground (arith, bit_and-mod 1 i, low_or_add 4 s.pins.tdi (i / 2))

  put_module-Keeps :
      (s : Target Cpu)
      → IsTarget s
      → (m : Outcome (DebugModule Cpu)) → Keeps IsModule m
      → Keeps IsTarget (m >>= λ dm. done (record s { dm = dm }))
  put_module-Keeps s h m k =
      Keeps->>= IsModule IsTarget m (λ dm. done (record s { dm = dm })) k
        λ dm fits. record { tdi_bit = h.tdi_bit; scan_fits = h.scan_fits; module_fits = fits }

  falling_edge-IsTarget : (q : TsmState) (s : Target Cpu) → IsTarget s → IsTarget (falling_edge q s)
  unfolding falling_edge
  falling_edge-IsTarget shift_dr s h = shift_data-IsTarget s h
  falling_edge-IsTarget shift_ir s h = shift_instruction-IsTarget s h
  falling_edge-IsTarget _ s h = h

  enter_update_dr-Keeps : (s : Target Cpu) → IsTarget s → Keeps IsTarget (enter_update_dr env s)
  unfolding enter_update_dr
  enter_update_dr-Keeps s h =
      let w = s.scan.dmi_shift_register in
      ground (
        arith,
        put_module-Keeps s h (update_dmi env w s.dm)
            (update_dmi-Keeps env w s.dm h.scan_fits.shifted_dmi_fits h.module_fits),
      )

  state_entered-Keeps :
      (q : TsmState) (s : Target Cpu) → IsTarget s → Keeps IsTarget (state_entered env q s)
  unfolding state_entered
  state_entered-Keeps test_logic_reset s h = ground arith
  state_entered-Keeps capture_dr s h = enter_capture_dr-IsTarget s h
  state_entered-Keeps capture_ir s h = ground arith
  state_entered-Keeps update_dr s h = enter_update_dr-Keeps s h
  state_entered-Keeps update_ir s h = ground arith
  state_entered-Keeps _ s h = h

  transition-Keeps :
      (input clk : ℕ) (s : Target Cpu) → IsTarget s → Keeps IsTarget (transition env input clk s)
  unfolding transition
  transition-Keeps input clk s h =
      let q = tap_step s.tsm_current_state input clk in
      state_entered-Keeps q (record s { tsm_current_state = q })
        (record { tdi_bit = h.tdi_bit; scan_fits = h.scan_fits; module_fits = h.module_fits })

  -- Between any two changes of the pins the registers of the target fit their widths, and the debug
  -- module is well formed: a change of the pins keeps this, if it returns, and so does a reset.
  pub set_pins-Keeps :
      (tck tms tdi : ℕ) (s : Target Cpu)
      → tdi < 2
      → IsTarget s
      → Keeps IsTarget (set_pins env tck tms tdi s) × Keeps IsTarget (reset env tck tms s)
  unfolding set_pins reset
  set_pins-Keeps tck tms tdi s bit h =
      let t = record s { pins = record s.pins { tck = tck; tms = tms; tdi = tdi } } in
      let k : IsTarget t = record {
        tdi_bit = bit;
        scan_fits = h.scan_fits;
        module_fits = h.module_fits;
      } in
      (
        ground (arith, falling_edge-IsTarget t.tsm_current_state t k, transition-Keeps tms tck t k),
        state_entered-Keeps test_logic_reset (record s { tsm_current_state = test_logic_reset })
            (record { tdi_bit = h.tdi_bit; scan_fits = h.scan_fits; module_fits = h.module_fits }),
      )

module _ {Cpu : Type 0} where
  -- The constructor starts there, whatever state the machine is in.
  pub initial_target-IsTarget :
      (q : TsmState) (tdo fd : ℕ) (cpu : Cpu) → IsTarget (initial_target q tdo fd cpu)
  unfolding initial_target init_dmi
  initial_target-IsTarget q tdo fd cpu = ground (arith, pack_dmi-lt 0x10 0x1 0)
