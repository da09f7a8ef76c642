-- ===== src/Port/Instruction/Cycle.antt =====
-- Clock cycles in Shift-IR.
use riscv_openocd_jtag_mock.Prelude.{
  ℕ, ◌+◌, ◌*◌, ◌/◌, ◌%◌, ◌^◌, ◌<◌, ◌≡◌, arith, List, [], ◌∷◌, done,
}
use riscv_openocd_jtag_mock.Word.{bit_and-mod, low_or_add}
use riscv_openocd_jtag_mock.Tap.{shift_ir, exit1_ir, next_state, tap_step}
use riscv_openocd_jtag_mock.Cpu.{Environment}
use riscv_openocd_jtag_mock.Target.{Target, Pins}
use riscv_openocd_jtag_mock.Port.{
  set_pins, transition, falling_edge, shift_instruction, state_entered,
}
use riscv_openocd_jtag_mock.Port.Bits.{AreBits, shift_in, shift_out}
use riscv_openocd_jtag_mock.Port.Shift.{clock_cycle}
use riscv_openocd_jtag_mock.Port.Scan.{scan_bits}

module _ {Cpu : Type 0} (env : Environment Cpu) where
  -- The target after one cycle with the bit `b` on `tdi`.
  abbrev cycled : ℕ → ℕ → Target Cpu → Target Cpu
  cycled tms b s = record s {
    pins = record s.pins {
      tck = 1;
      tms = tms;
      tdi = b;
      tdo = s.scan.instruction_shift_register % 2;
    };
    tsm_current_state = next_state shift_ir tms;
    scan = record s.scan {
      instruction_shift_register = s.scan.instruction_shift_register / 2 + b * 2 ^ 4;
    };
  }

  abbrev pub shifting : Target Cpu → Target Cpu
  shifting s = record s { tsm_current_state = shift_ir }

  -- The target between the two edges.
  abbrev half_cycled : ℕ → ℕ → Target Cpu → Target Cpu
  half_cycled tms b s = record (cycled tms b s) {
    pins = record s.pins {
      tck = 0;
      tms = tms;
      tdi = b;
      tdo = s.scan.instruction_shift_register % 2;
    };
    tsm_current_state = shift_ir;
  }

  falling_shift :
      (tms b : ℕ) (s : Target Cpu)
      → s.scan.instruction_shift_register < 2 ^ 5
      → b < 2
      → set_pins env 0 tms b (shifting s) ≡ done (half_cycled tms b s)
  unfolding set_pins falling_edge shift_instruction
  falling_shift tms b s fits bit =
      let w = s.scan.instruction_shift_register in
      ground (arith, bit_and-mod 1 w, low_or_add 4 b (w / 2))

  rising_shift :
      (tms b : ℕ) (s : Target Cpu)
      → set_pins env 1 tms b (half_cycled tms b s) ≡ done (cycled tms b s)
  unfolding set_pins transition tap_step state_entered next_state
  rising_shift tms b s = ground arith

  clock_cycle_lem :
      (tms b : ℕ) (s : Target Cpu)
      → s.scan.instruction_shift_register < 2 ^ 5
      → b < 2
      → clock_cycle env tms b (shifting s)
        ≡ done (cycled tms b s, s.scan.instruction_shift_register % 2)
  unfolding clock_cycle
  clock_cycle_lem tms b s fits bit = rw (falling_shift tms b s fits bit) (rw (rising_shift tms b s))

  -- The target at the end of the scan of the bits, but for the pins.
  abbrev pub scanned : Pins → List ℕ → Target Cpu → Target Cpu
  scanned p bs s = record s {
    pins = p;
    tsm_current_state = exit1_ir;
    scan = record s.scan {
      instruction_shift_register = shift_in (2 ^ 4) bs s.scan.instruction_shift_register;
    };
  }

  pub scan_bits_lem :
      (b : ℕ) (bs : List ℕ) (s : Target Cpu)
      → s.scan.instruction_shift_register < 2 ^ 5
      → AreBits (b ∷ bs)
      → (p : Pins) × (scan_bits env b bs (shifting s)
          ≡ done
              (scanned p (b ∷ bs) s, shift_out (2 ^ 4) (b ∷ bs) s.scan.instruction_shift_register))
  unfolding scan_bits next_state
  scan_bits_lem b [] s fits bits = ((cycled 1 b s).pins, rw (clock_cycle_lem 1 b s fits bits.0))
  scan_bits_lem b (c ∷ bs) s fits bits =
      let t = cycled 0 b s in
      let (p, rest) = scan_bits_lem c bs t (omega (arith, bits.0)) bits.1 in
      (p, rw (clock_cycle_lem 0 b s fits bits.0) (rw rest))
