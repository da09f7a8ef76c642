-- ===== src/Port/Shift.antt =====
-- One clock cycle in the Shift-DR state: the falling edge shifts, the rising edge moves on.
use riscv_openocd_jtag_mock.Prelude.{
  ℕ, suc, ◌+◌, ◌*◌, ◌/◌, ◌%◌, ◌^◌, ◌<◌, ◌≤◌, ◌≡◌, arith, Outcome, done, ◌>>=◌,
}
use riscv_openocd_jtag_mock.Word.{bit_and-mod, low_or_add}
use riscv_openocd_jtag_mock.Tap.{shift_dr, next_state, tap_step}
use riscv_openocd_jtag_mock.Cpu.{Environment}
use riscv_openocd_jtag_mock.Target.{Target, ScanChain}
use riscv_openocd_jtag_mock.Port.{set_pins, transition, falling_edge, shift_data, state_entered}

-- The data registers that can be shifted.
pub data DataRegister : Type 0 where
  idcode dtmcs dmi : DataRegister

-- The value of the instruction register that selects one, its number of bits, and what its highest
-- bit is worth.
abbrev pub code_of : DataRegister → ℕ
code_of idcode = 0x01
code_of dtmcs = 0x10
code_of dmi = 0x11

abbrev pub width_of : DataRegister → ℕ
width_of idcode = 32
width_of dtmcs = 32
width_of dmi = 41

abbrev pub top_of : DataRegister → ℕ
top_of idcode = 2 ^ 31
top_of dtmcs = 2 ^ 31
top_of dmi = 2 ^ 40

abbrev pub shift_register : DataRegister → ScanChain → ℕ
shift_register idcode c = c.id_code_shift_register
shift_register dtmcs c = c.dtmcs_shift_register
shift_register dmi c = c.dmi_shift_register

-- The scan chain with one shift register and the counter written.
abbrev pub put_register : DataRegister → ℕ → ℕ → ScanChain → ScanChain
put_register idcode w n c = record c { id_code_shift_register = w; shift_amount = n }
put_register dtmcs w n c = record c { dtmcs_shift_register = w; shift_amount = n }
put_register dmi w n c = record c { dmi_shift_register = w; shift_amount = n }

-- The target after one cycle with the bit `b` on `tdi`.
abbrev pub cycled : {Cpu : Type 0} → DataRegister → ℕ → ℕ → Target Cpu → Target Cpu
cycled r tms b s = record s {
  pins = record s.pins { tck = 1; tms = tms; tdi = b; tdo = shift_register r s.scan % 2 };
  tsm_current_state = next_state shift_dr tms;
  scan =
      put_register r (shift_register r s.scan / 2 + b * top_of r) (s.scan.shift_amount + 1) s.scan;
}

-- What a client does for one bit: `tck` low, reading `tdo`, and `tck` high.
unfoldable pub clock_cycle :
    {Cpu : Type 0} → Environment Cpu → ℕ → ℕ → Target Cpu → Outcome (Target Cpu × ℕ)
clock_cycle env tms b s = do
  t ← set_pins env 0 tms b s
  u ← set_pins env 1 tms b t
  done (u, t.pins.tdo)

-- Shift-DR with register `r` selected, after the first falling edge, with `n` cycles of the counter
-- to spare.
pub record IsShifting {Cpu : Type 0} (r : DataRegister) (n : ℕ) (s : Target Cpu) : Type 0 where
  pub in_state : s.tsm_current_state ≡ shift_dr
  pub selected : s.scan.instruction_container_register ≡ code_of r
  pub started : 1 ≤ s.scan.shift_amount
  pub counting : s.scan.shift_amount + n < 256
  pub fits : shift_register r s.scan < 2 * top_of r

module _ {Cpu : Type 0} (env : Environment Cpu) where
  -- The target between the two edges.
  abbrev half_cycled : DataRegister → ℕ → ℕ → Target Cpu → Target Cpu
  half_cycled r tms b s = record (cycled r tms b s) {
    pins = record s.pins { tck = 0; tms = tms; tdi = b; tdo = shift_register r s.scan % 2 };
    tsm_current_state = shift_dr;
  }

  falling_shift :
      (r : DataRegister) (tms b : ℕ) (s : Target Cpu)
      → IsShifting r 1 s
      → b < 2
      → set_pins env 0 tms b s ≡ done (half_cycled r tms b s)
  unfolding set_pins falling_edge shift_data
  falling_shift idcode tms b s h bit =
      let w = s.scan.id_code_shift_register in
      ground (arith, bit_and-mod 1 w, low_or_add 31 b (w / 2))
  falling_shift dtmcs tms b s h bit =
      let w = s.scan.dtmcs_shift_register in
      ground (arith, bit_and-mod 1 w, low_or_add 31 b (w / 2))
  falling_shift dmi tms b s h bit =
      let w = s.scan.dmi_shift_register in ground (arith, bit_and-mod 1 w, low_or_add 40 b (w / 2))

  rising_shift :
      (r : DataRegister) (tms b : ℕ) (s : Target Cpu)
      → set_pins env 1 tms b (half_cycled r tms b s) ≡ done (cycled r tms b s)
  unfolding set_pins transition tap_step state_entered
  rising_shift idcode tms b s = ground arith
  rising_shift dtmcs tms b s = ground arith
  rising_shift dmi tms b s = ground arith

  pub clock_cycle_lem :
      (r : DataRegister) (tms b : ℕ) (s : Target Cpu)
      → IsShifting r 1 s
      → b < 2
      → clock_cycle env tms b s ≡ done (cycled r tms b s, shift_register r s.scan % 2)
  unfolding clock_cycle
  clock_cycle_lem r tms b s h bit = rw (falling_shift r tms b s h bit) (rw (rising_shift r tms b s))

  pub cycled-IsShifting :
      (r : DataRegister) (n b : ℕ) (s : Target Cpu)
      → IsShifting r (suc n) s
      → b < 2
      → IsShifting r n (cycled r 0 b s)
  unfolding next_state
  cycled-IsShifting idcode n b s h bit = ground arith
  cycled-IsShifting dtmcs n b s h bit = ground arith
  cycled-IsShifting dmi n b s h bit = ground arith
