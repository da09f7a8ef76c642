-- ===== src/Port/Scan.antt =====
-- A scan of a data register: one clock cycle for each bit, the last of them leaving Shift-DR.
use riscv_openocd_jtag_mock.Prelude.{
  ℕ, suc, ◌+◌, ◌*◌, ◌/◌, ◌%◌, ◌^◌, ◌≡◌, refl, ap, ◌∙◌, arith, List, [], ◌∷◌, length, Outcome, done,
  ◌>>=◌,
}
use riscv_openocd_jtag_mock.Tap.{exit1_dr, next_state}
use riscv_openocd_jtag_mock.Cpu.{Environment}
use riscv_openocd_jtag_mock.Target.{Target, ScanChain, Pins}
use riscv_openocd_jtag_mock.Port.Bits.{
  word_of, bits_of, AreBits, shift_in, shift_out, shift_in_all, shift_out_lem,
}
use riscv_openocd_jtag_mock.Port.Shift.{
  DataRegister, idcode, dtmcs, dmi, width_of, top_of, shift_register, put_register, cycled,
  clock_cycle, IsShifting, clock_cycle_lem, cycled-IsShifting,
}

-- What a client does to scan the bits `b ∷ bs`; it gets back what it read from `tdo`.
unfoldable pub scan_bits :
    {Cpu : Type 0} → Environment Cpu → ℕ → List ℕ → Target Cpu → Outcome (Target Cpu × List ℕ)
scan_bits env b [] s = clock_cycle env 1 b s >>= λ (t, o). done (t, o ∷ [])
scan_bits env b (c ∷ bs) s = do
  (t, o) ← clock_cycle env 0 b s
  (u, os) ← scan_bits env c bs t
  done (u, o ∷ os)

-- The pins at the end of a scan.
unfoldable pub scan_pins : DataRegister → ℕ → List ℕ → ScanChain → Pins → Pins
scan_pins r b [] c p = record p { tck = 1; tms = 1; tdi = b; tdo = shift_register r c % 2 }
scan_pins r b (d ∷ bs) c p =
    scan_pins r d bs (put_register r (shift_register r c / 2 + b * top_of r) (c.shift_amount + 1) c)
      (record p { tck = 1; tms = 0; tdi = b; tdo = shift_register r c % 2 })

-- The target at the end of a scan: only the pins, the state, the selected shift register and the
-- counter have changed.
abbrev pub scanned : {Cpu : Type 0} → DataRegister → ℕ → List ℕ → Target Cpu → Target Cpu
scanned r b bs s = record s {
  pins = scan_pins r b bs s.scan s.pins;
  tsm_current_state = exit1_dr;
  scan =
      put_register r (shift_in (top_of r) (b ∷ bs) (shift_register r s.scan))
        (s.scan.shift_amount + length (b ∷ bs)) s.scan;
}

module _ {Cpu : Type 0} (env : Environment Cpu) where
  scanned_last : (r : DataRegister) (b : ℕ) (s : Target Cpu) → cycled r 1 b s ≡ scanned r b [] s
  unfolding scan_pins next_state
  scanned_last idcode b s = refl
  scanned_last dtmcs b s = refl
  scanned_last dmi b s = refl

  scanned_next :
      (r : DataRegister) (b c : ℕ) (bs : List ℕ) (s : Target Cpu)
      → scanned r c bs (cycled r 0 b s) ≡ scanned r b (c ∷ bs) s
  unfolding scan_pins next_state
  scanned_next idcode b c bs s = ground arith
  scanned_next dtmcs b c bs s = ground arith
  scanned_next dmi b c bs s = ground arith

  shift_register-cycled :
      (r : DataRegister) (b : ℕ) (s : Target Cpu)
      → shift_register r (cycled r 0 b s).scan ≡ shift_register r s.scan / 2 + b * top_of r
  shift_register-cycled idcode b s = refl
  shift_register-cycled dtmcs b s = refl
  shift_register-cycled dmi b s = refl

  IsShifting-one :
      (r : DataRegister) (n : ℕ) (s : Target Cpu) → IsShifting r (suc n) s → IsShifting r 1 s
  IsShifting-one r n s h = record {
    in_state = h.in_state;
    selected = h.selected;
    started = h.started;
    counting = omega arith;
    fits = h.fits;
  }

  pub scan_bits_lem :
      (r : DataRegister) (b : ℕ) (bs : List ℕ) (s : Target Cpu)
      → IsShifting r (length (b ∷ bs)) s
      → AreBits (b ∷ bs)
      → scan_bits env b bs s
        ≡ done (scanned r b bs s, shift_out (top_of r) (b ∷ bs) (shift_register r s.scan))
  unfolding scan_bits
  scan_bits_lem r b [] s h bits =
      rw (clock_cycle_lem env r 1 b s h bits.0) (rw (scanned_last r b s))
  scan_bits_lem r b (c ∷ bs) s h bits =
      let t = cycled r 0 b s in
      let next = cycled-IsShifting env r (length (c ∷ bs)) b s h bits.0 in
      rw (clock_cycle_lem env r 0 b s (IsShifting-one r _ s h) bits.0) (
        rw (scan_bits_lem r c bs t next bits.1)
          (rw (scanned_next r b c bs s, shift_register-cycled r b s)))

  top-width : (r : DataRegister) → top_of r * 2 ≡ 2 ^ width_of r
  top-width idcode = refl
  top-width dtmcs = refl
  top-width dmi = refl

  -- A scan of as many bits as the register has: the register holds the number that the client sent,
  -- the client has read the number that was there, and the rest is as it was.
  pub full_scan :
      (r : DataRegister) (b : ℕ) (bs : List ℕ) (s : Target Cpu)
      → IsShifting r (width_of r) s
      → AreBits (b ∷ bs)
      → length (b ∷ bs) ≡ width_of r
      → scan_bits env b bs s
        ≡ done (
          record (scanned r b bs s) {
            scan = put_register r (word_of (b ∷ bs)) (s.scan.shift_amount + width_of r) s.scan;
          },
          bits_of (width_of r) (shift_register r s.scan),
        )
  full_scan r b bs s h bits size = scan_bits_lem r b bs s (rw (← size) at h) bits ∙ λ i. done (
    record (scanned r b bs s) {
      scan = put_register r (filled i) (s.scan.shift_amount + size i) s.scan;
    },
    emptied i,
  )
    where
      w : ℕ
      w = shift_register r s.scan

      full : top_of r * 2 ≡ 2 ^ length (b ∷ bs)
      full = rw size (top-width r)

      filled : shift_in (top_of r) (b ∷ bs) w ≡ word_of (b ∷ bs)
      filled = shift_in_all (b ∷ bs) (top_of r) w full (omega (arith, full, h.fits))

      emptied : shift_out (top_of r) (b ∷ bs) w ≡ bits_of (width_of r) w
      emptied =
          shift_out_lem (b ∷ bs) 0 (top_of r) w (omega (arith, full)) ∙ ap (λ n. bits_of n w) size
