-- ===== src/Port/Bypass.antt =====
-- A scan with an instruction that selects none of the three data registers, such as BYPASS.
use riscv_openocd_jtag_mock.Prelude.{
  ℕ, suc, ◌/◌, ◌%◌, ◌≡◌, ◌≢◌, refl, sym, ap, ◌∙◌, arith, List, [], ◌∷◌, length, replicate, done,
}
use riscv_openocd_jtag_mock.Tap.{
  TsmState, run_test_idle, select_dr_scan, capture_dr, shift_dr, exit1_dr, tap_step, next_state,
}
use riscv_openocd_jtag_mock.Cpu.{Environment}
use riscv_openocd_jtag_mock.Target.{Target, Pins}
use riscv_openocd_jtag_mock.Port.{
  set_pins, transition, falling_edge, shift_data, state_entered, enter_capture_dr, enter_update_dr,
}
use riscv_openocd_jtag_mock.Port.Bits.{word_of, bits_of, length-bits_of}
use riscv_openocd_jtag_mock.Port.Client.{tms_cycle, begin_scan, end_scan, data_scan}
use riscv_openocd_jtag_mock.Port.Shift.{clock_cycle}
use riscv_openocd_jtag_mock.Port.Scan.{scan_bits}

-- An instruction that the code does not know.
pub record IsUnserved (ir : ℕ) : Type 0 where
  pub no_idcode : ir ≢ 0x01
  pub no_dtmcs : ir ≢ 0x10
  pub no_dmi : ir ≢ 0x11

module _ {Cpu : Type 0} (env : Environment Cpu) (s : Target Cpu)
    (unserved : IsUnserved s.scan.instruction_container_register) where
  -- The target in another state, with other pins.
  abbrev moved : TsmState → Pins → Target Cpu
  moved q p = record s { pins = p; tsm_current_state = q }

  cycle_lem :
      (tms b : ℕ) (p : Pins)
      → clock_cycle env tms b (moved shift_dr p)
        ≡ done (moved (next_state shift_dr tms) (record p { tck = 1; tms = tms; tdi = b }), p.tdo)
  unfolding clock_cycle set_pins transition tap_step falling_edge shift_data state_entered
      next_state
  cycle_lem tms b p = ground (arith, unserved)

  scan_bits_lem :
      (b : ℕ) (bs : List ℕ) (p : Pins)
      → (q : Pins) × (q.tdo ≡ p.tdo)
        × (scan_bits env b bs (moved shift_dr p)
            ≡ done (moved exit1_dr q, replicate (length (b ∷ bs)) p.tdo))
  unfolding scan_bits next_state
  scan_bits_lem b [] p = (record p { tck = 1; tms = 1; tdi = b }, refl, rw (cycle_lem 1 b p))
  scan_bits_lem b (c ∷ bs) p =
      let (q, same, rest) = scan_bits_lem c bs (record p { tck = 1; tms = 0; tdi = b }) in
      (q, same, rw (cycle_lem 0 b p) (rw rest))

  abbrev tms_pins : ℕ → ℕ → Pins → Pins
  tms_pins tck tms p = record p { tck = tck; tms = tms; tdi = 0 }

  move_cycles :
      (p : Pins)
      → (tms_cycle env 1 (moved run_test_idle p) ≡ done (moved select_dr_scan (tms_pins 1 1 p)))
        × (tms_cycle env 0 (moved select_dr_scan p) ≡ done (moved capture_dr (tms_pins 1 0 p)))
        × (tms_cycle env 0 (moved capture_dr p) ≡ done (moved shift_dr (tms_pins 1 0 p)))
  unfolding tms_cycle set_pins transition tap_step state_entered enter_capture_dr falling_edge
      next_state
  move_cycles p = (refl, ground (arith, unserved), refl)

  falling_lem :
      (p : Pins) → set_pins env 0 0 0 (moved shift_dr p) ≡ done (moved shift_dr (tms_pins 0 0 p))
  unfolding set_pins falling_edge shift_data
  falling_lem p = ground (arith, unserved)

  begin_scan_lem :
      s.tsm_current_state ≡ run_test_idle
      → begin_scan env s ≡ done (moved shift_dr (tms_pins 0 0 s.pins))
  unfolding begin_scan
  begin_scan_lem st =
      let (first, second, third) = move_cycles s.pins in
      ap (λ (q : TsmState). begin_scan env (record s { tsm_current_state = q })) st
      ∙ rw first (
          rw (move_cycles (tms_pins 1 1 s.pins)).1
            (rw (move_cycles (tms_pins 1 0 s.pins)).2 (falling_lem (tms_pins 1 0 s.pins))))

  end_scan_lem :
      (p : Pins)
      → end_scan env (moved exit1_dr p)
        ≡ done (moved run_test_idle (record p { tck = 1; tms = 0; tdi = 0 }))
  unfolding end_scan set_pins transition tap_step state_entered enter_update_dr falling_edge
  end_scan_lem p = ground (arith, unserved)

  -- With an instruction other than those of `idcode`, `dtmcs` and `dmi`, so also with BYPASS, a scan
  -- of `n + 1` bits from Run-Test/Idle always returns there and has no effect but on the pins, and
  -- the client reads the value that `tdo` already had, for every bit: there is no register, not even
  -- the one bit of BYPASS, between `tdi` and `tdo`.
  pub bypass_scan_lem :
      (n w : ℕ)
      → s.tsm_current_state ≡ run_test_idle
      → (p : Pins) × (p.tdo ≡ s.pins.tdo)
        × (data_scan env n w s
            ≡ done (record s { pins = p }, word_of (replicate (suc n) s.pins.tdo)))
  unfolding data_scan
  bypass_scan_lem n w st =
      let (q, same, scans) = scan_bits_lem (w % 2) (bits_of n (w / 2)) (tms_pins 0 0 s.pins) in
      (
        tms_pins 1 0 q,
        same,
        rw (begin_scan_lem st) (
            rw scans (
              rw (end_scan_lem q) (λ i. done (
                record s { pins = tms_pins 1 0 q; tsm_current_state = sym st i },
                word_of (replicate (suc (length-bits_of n (w / 2) i)) s.pins.tdo),
              )))),
      )
