-- ===== src/Port/Counter.antt =====
-- The 8-bit counter `shift_amount`, and what a client loses that stays in Shift-DR for too long.
use riscv_openocd_jtag_mock.Prelude.{
  ℕ, ◌+◌, ◌*◌, ◌/◌, ◌%◌, ◌^◌, ◌<◌, ◌≡◌, refl, ap, ◌∙◌, arith, done, ◌>>=◌,
}
use riscv_openocd_jtag_mock.Word.{bit_and-mod, low_or_add}
use riscv_openocd_jtag_mock.Tap.{shift_dr, next_state, tap_step}
use riscv_openocd_jtag_mock.Cpu.{Environment}
use riscv_openocd_jtag_mock.Target.{Target}
use riscv_openocd_jtag_mock.Port.{set_pins, transition, falling_edge, shift_data, state_entered}
use riscv_openocd_jtag_mock.Port.Shift.{clock_cycle}

module _ {Cpu : Type 0} (env : Environment Cpu) where
  -- The target with `dmi` in Shift-DR.
  abbrev shifting : ℕ → Target Cpu → Target Cpu
  shifting n s = record s {
    tsm_current_state = shift_dr;
    scan = record s.scan { instruction_container_register = 0x11; shift_amount = n };
  }

  -- The edge at 255 shifts and wraps the counter.
  last_cycle :
      (b : ℕ) (s : Target Cpu)
      → s.scan.dmi_shift_register < 2 ^ 41
      → b < 2
      → clock_cycle env 0 b (shifting 255 s)
        ≡ done (
          record (shifting 0 s) {
            pins = record s.pins { tck = 1; tms = 0; tdi = b; tdo = s.scan.dmi_shift_register % 2 };
            scan = record (shifting 0 s).scan {
              dmi_shift_register = s.scan.dmi_shift_register / 2 + b * 2 ^ 40;
            };
          },
          s.scan.dmi_shift_register % 2,
        )
  unfolding clock_cycle set_pins transition tap_step next_state falling_edge shift_data
      state_entered
  last_cycle b s fits bit =
      let w = s.scan.dmi_shift_register in ground (arith, bit_and-mod 1 w, low_or_add 40 b (w / 2))

  -- The edge behind it only counts.
  lost_cycle :
      (b : ℕ) (s : Target Cpu)
      → clock_cycle env 0 b (shifting 0 s)
        ≡ done (
          record (shifting 1 s) { pins = record s.pins { tck = 1; tms = 0; tdi = b; tdo = 0 } },
          0,
        )
  unfolding clock_cycle set_pins transition tap_step next_state falling_edge shift_data
      state_entered
  lost_cycle b s = refl

  -- Once the counter has come to 255, a bit is lost: of two clock cycles in Shift-DR with `dmi`
  -- selected, both of which return, the first shifts its bit in, and the second shifts nothing in
  -- and reads 0, whatever its bit and the register are.
  pub counter_wraps :
      (b c : ℕ) (s : Target Cpu)
      → s.tsm_current_state ≡ shift_dr
      → s.scan.instruction_container_register ≡ 0x11
      → s.scan.shift_amount ≡ 255
      → s.scan.dmi_shift_register < 2 ^ 41
      → b < 2
      → (t : Target Cpu) × ((clock_cycle env 0 b s >>= λ (u, out). clock_cycle env 0 c u)
          ≡ done (t, 0))
        × (t.scan.dmi_shift_register ≡ s.scan.dmi_shift_register / 2 + b * 2 ^ 40)
        × (t.scan.shift_amount ≡ 1)
  counter_wraps b c s st ir full fits bit =
      let at : s ≡ shifting 255 s = λ i. record s {
        tsm_current_state = st i;
        scan = record s.scan { instruction_container_register = ir i; shift_amount = full i };
      } in
      let w = s.scan.dmi_shift_register / 2 + b * 2 ^ 40 in
      let u = record s {
        pins = record s.pins { tck = 1; tms = 0; tdi = b; tdo = s.scan.dmi_shift_register % 2 };
        scan = record s.scan { dmi_shift_register = w };
      } in
      (
        record (shifting 1 u) { pins = record u.pins { tck = 1; tms = 0; tdi = c; tdo = 0 } },
        ap (λ v. clock_cycle env 0 b v >>= λ (x, out). clock_cycle env 0 c x) at
            ∙ rw (last_cycle b s fits bit) (lost_cycle c u),
        refl,
        refl,
      )
