-- ===== src/Server/Session/Scan.antt =====
-- The bytes with which OpenOCD's bit-bang driver scans `dmi`, and what the server makes of them.
use mathlib.Core.List.{append_assoc}
use riscv_openocd_jtag_mock.Prelude.{
  ℕ, zero, suc, ◌+◌, ◌*◌, ◌/◌, ◌%◌, ◌^◌, ◌<◌, ◌≡◌, refl, ap, ◌∙◌, arith, ◌==◌, if◌then◌else◌, List,
  [], ◌∷◌, ◌++◌, map, >>=-assoc, done, ◌>>=◌,
}
use riscv_openocd_jtag_mock.Tap.{run_test_idle}
use riscv_openocd_jtag_mock.Cpu.{Environment}
use riscv_openocd_jtag_mock.DebugModule.Access.{update_dmi}
use riscv_openocd_jtag_mock.Target.{Target, Pins}
use riscv_openocd_jtag_mock.Port.Bits.{bits_of, AreBits, AreBits-bits_of}
use riscv_openocd_jtag_mock.Port.Client.{begin_scan, end_scan}
use riscv_openocd_jtag_mock.Port.Shift.{clock_cycle}
use riscv_openocd_jtag_mock.Port.Scan.{scan_bits}
use riscv_openocd_jtag_mock.Port.Transaction.{
  capturing, requested, begin_scan_lem, scan_request, end_scan_lem,
}
use riscv_openocd_jtag_mock.Server.{run_command, tdo_letter}
use riscv_openocd_jtag_mock.Server.Session.{session}
use riscv_openocd_jtag_mock.Server.Session.Play.{AreGoing, play, play-append, session-append}

-- The command that sets the pins.
abbrev pub pins_byte : ℕ → ℕ → ℕ → ℕ
pins_byte tck tms tdi = b'0' + (4 * tck + 2 * tms + tdi)

-- The answer to `R` for a bit on `tdo`.
abbrev pub letter : ℕ → ℕ
letter bit = if bit == 0 then b'0' else b'1'

-- The answers to a scan of `dmi`.
unfoldable pub letters : ℕ → List ℕ
letters answer = map letter (bits_of 41 answer)

-- A cycle outside the shift states, and one of a scan, which looks at `tdo` between its edges.
abbrev pub tms_bytes : ℕ → List ℕ
tms_bytes tms = pins_byte 0 tms 0 ∷ pins_byte 1 tms 0 ∷ []

abbrev cycle_bytes : ℕ → ℕ → List ℕ
cycle_bytes tms tdi = pins_byte 0 tms tdi ∷ b'R' ∷ pins_byte 1 tms tdi ∷ []

unfoldable pub scan_bytes : ℕ → List ℕ → List ℕ
scan_bytes b [] = cycle_bytes 1 b
scan_bytes b (c ∷ bs) = cycle_bytes 0 b ++ scan_bytes c bs

abbrev begin_bytes : List ℕ
begin_bytes = tms_bytes 1 ++ tms_bytes 0 ++ tms_bytes 0 ++ pins_byte 0 0 0 ∷ []

abbrev pub end_bytes : List ℕ
end_bytes = tms_bytes 1 ++ tms_bytes 0

-- The whole scan of a word of 41 bits, from Run-Test/Idle and back.
unfoldable pub dmi_bytes : ℕ → List ℕ
dmi_bytes w = begin_bytes ++ (scan_bytes (w % 2) (bits_of 40 (w / 2)) ++ end_bytes)

module _ {Cpu : Type 0} (env : Environment Cpu) where
  play_begin :
      (s : Target Cpu) (out : List ℕ)
      → play env begin_bytes s out ≡ (begin_scan env s >>= λ t. done (t, out))
  unfolding play run_command begin_scan
  play_begin s out = simp >>=-assoc

  pub play_end :
      (s : Target Cpu) (out : List ℕ)
      → play env end_bytes s out ≡ (end_scan env s >>= λ t. done (t, out))
  unfolding play run_command end_scan
  play_end s out = simp >>=-assoc

  play_cycle :
      (tms b : ℕ) (s : Target Cpu) (out : List ℕ)
      → tms < 2
      → b < 2
      → play env (cycle_bytes tms b) s out
        ≡ (clock_cycle env tms b s >>= λ (t, bit). done (t, out ++ letter bit ∷ []))
  unfolding play run_command clock_cycle tdo_letter
  play_cycle zero zero s out h k = simp >>=-assoc
  play_cycle zero (suc zero) s out h k = simp >>=-assoc
  play_cycle (suc zero) zero s out h k = simp >>=-assoc
  play_cycle (suc zero) (suc zero) s out h k = simp >>=-assoc
  play_cycle (suc (suc n)) b s out h k = absurd (omega arith)
  play_cycle zero (suc (suc n)) s out h k = absurd (omega arith)
  play_cycle (suc zero) (suc (suc n)) s out h k = absurd (omega arith)

  pub play_scan :
      (b : ℕ) (bs : List ℕ) (s : Target Cpu) (out : List ℕ)
      → AreBits (b ∷ bs)
      → play env (scan_bytes b bs) s out
        ≡ (scan_bits env b bs s >>= λ (t, bits). done (t, out ++ map letter bits))
  unfolding scan_bytes scan_bits
  play_scan b [] s out h = play_cycle 1 b s out (omega arith) h.0 ∙ simp >>=-assoc
  play_scan b (c ∷ bs) s out h =
      play-append env (cycle_bytes 0 b) (scan_bytes c bs) s out
      ∙ rw (play_cycle 0 b s out (omega arith) h.0)
          (simp (>>=-assoc, λ (t : Target Cpu) (o : List ℕ). play_scan c bs t o h.1, append_assoc))

  pub AreGoing-append : (xs ys : List ℕ) → AreGoing xs → AreGoing ys → AreGoing (xs ++ ys)
  AreGoing-append [] ys h k = k
  AreGoing-append (x ∷ xs) ys h k = (h.0, AreGoing-append xs ys h.1 k)

  pub AreGoing-scan_bytes : (b : ℕ) (bs : List ℕ) → AreBits (b ∷ bs) → AreGoing (scan_bytes b bs)
  unfolding scan_bytes
  AreGoing-scan_bytes b [] h = omega arith
  AreGoing-scan_bytes b (c ∷ bs) h =
      AreGoing-append (cycle_bytes 0 b) (scan_bytes c bs) (omega arith)
        (AreGoing-scan_bytes c bs h.1)

  AreGoing-dmi_bytes : (w : ℕ) → AreGoing (dmi_bytes w)
  unfolding dmi_bytes
  AreGoing-dmi_bytes w =
      let bits = AreBits-bits_of 41 w in
      AreGoing-append begin_bytes (scan_bytes (w % 2) (bits_of 40 (w / 2)) ++ end_bytes)
        (omega arith)
        (AreGoing-append (scan_bytes (w % 2) (bits_of 40 (w / 2))) end_bytes
          (AreGoing-scan_bytes (w % 2) (bits_of 40 (w / 2)) bits) (omega arith))

  -- The target at the end of the scan, but for the pins and the debug module.
  abbrev pub scanned : ℕ → Pins → Target Cpu → Target Cpu
  scanned w p s = record s {
    pins = p;
    tsm_current_state = run_test_idle;
    scan = record s.scan { dmi_shift_register = w; shift_amount = 42 };
  }

  play_request :
      (w : ℕ) (s : Target Cpu) (out : List ℕ)
      → s.scan.instruction_container_register ≡ 0x11
      → w < 2 ^ 41
      → s.dm.dmi_container_register < 2 ^ 41
      → play env (scan_bytes (w % 2) (bits_of 40 (w / 2))) (capturing env s) out
        ≡ done (requested env w s, out ++ letters s.dm.dmi_container_register)
  unfolding letters
  play_request w s out ir small held =
      play_scan (w % 2) (bits_of 40 (w / 2)) (capturing env s) out (AreBits-bits_of 41 w)
      ∙ rw (scan_request env w s ir small held)

  abbrev done_pins : ℕ → Target Cpu → Pins
  done_pins w s = record (requested env w s).pins { tck = 1; tms = 0; tdi = 0 }

  play_ending :
      (w : ℕ) (s : Target Cpu) (out : List ℕ)
      → s.scan.instruction_container_register ≡ 0x11
      → play env end_bytes (requested env w s) out ≡ (
          update_dmi env w s.dm >>= λ m.
          done (record (scanned w (done_pins w s) s) { dm = m }, out))
  play_ending w s out ir =
      play_end (requested env w s) out
      ∙ rw (end_scan_lem env (requested env w s) refl ir) (simp >>=-assoc)

  play_dmi :
      (w : ℕ) (s : Target Cpu) (out : List ℕ)
      → s.tsm_current_state ≡ run_test_idle
      → s.scan.instruction_container_register ≡ 0x11
      → w < 2 ^ 41
      → s.dm.dmi_container_register < 2 ^ 41
      → play env (dmi_bytes w) s out ≡ (
          update_dmi env w s.dm >>= λ m. done (
            record (scanned w (done_pins w s) s) { dm = m },
            out ++ letters s.dm.dmi_container_register,
          ))
  unfolding dmi_bytes
  play_dmi w s out st ir small held =
      let bits = scan_bytes (w % 2) (bits_of 40 (w / 2)) in
      let out' = out ++ letters s.dm.dmi_container_register in
      play-append env begin_bytes (bits ++ end_bytes) s out
      ∙ ap (λ m. m >>= λ x. play env (bits ++ end_bytes) x.0 x.1)
          (play_begin s out ∙ ap (λ m. m >>= λ t. done (t, out)) (begin_scan_lem env s st ir))
      ∙ play-append env bits end_bytes (capturing env s) out
      ∙ ap (λ m. m >>= λ x. play env end_bytes x.0 x.1) (play_request w s out ir small held)
      ∙ play_ending w s out' ir

  -- With `dmi` selected and in Run-Test/Idle, a client that sends the bytes of a scan of `dmi` makes
  -- one request to the debug module, gets the 41 bits of the answer to the request before, lowest
  -- bit first, and its session goes on in Run-Test/Idle with what the request has left, if the
  -- request returns; else the session ends as the request does. Nothing else has changed but the
  -- pins, the shift register and its counter.
  pub session-dmi_bytes :
      (w : ℕ) (rest : List ℕ) (s : Target Cpu) (out : List ℕ)
      → s.tsm_current_state ≡ run_test_idle
      → s.scan.instruction_container_register ≡ 0x11
      → w < 2 ^ 41
      → s.dm.dmi_container_register < 2 ^ 41
      → s.quit ≡ 0
      → (p : Pins) × (session env (dmi_bytes w ++ rest) s out ≡ (
          update_dmi env w s.dm >>= λ m.
          session env rest
            (record (scanned w p s) { dm = m })
            (out ++ letters s.dm.dmi_container_register)))
  session-dmi_bytes w rest s out st ir small held running = (
    done_pins w s,
    session-append env (dmi_bytes w) rest s out (AreGoing-dmi_bytes w) running
        ∙ ap (λ m. m >>= λ x. session env rest x.0 x.1) (play_dmi w s out st ir small held)
        ∙ simp >>=-assoc,
  )
