-- ===== src/Server/Session/Connect.antt =====
-- A whole session from the reset of the port on: how OpenOCD connects, selects `dmi` and works with
-- the debug module.
use riscv_openocd_jtag_mock.Prelude.{
  ℕ, zero, suc, ◌/◌, ◌%◌, ◌^◌, ◌<◌, ◌≡◌, ◌≢◌, refl, sym, ap, subst, ◌∙◌, arith, true, List, [], ◌∷◌,
  ◌++◌, map, replicate, Outcome, >>=-Returns, >>=-assoc, done, ◌>>=◌,
}
use riscv_openocd_jtag_mock.Tap.{TsmState, test_logic_reset, run_test_idle, tap_step, next_state}
use riscv_openocd_jtag_mock.Tap.Columns.{in_dr_column}
use riscv_openocd_jtag_mock.Cpu.{Environment}
use riscv_openocd_jtag_mock.DebugModule.{DebugModule}
use riscv_openocd_jtag_mock.DebugModule.Invariant.{IsModule}
use riscv_openocd_jtag_mock.Target.{Target, Pins}
use riscv_openocd_jtag_mock.Port.{set_pins, transition, state_entered, falling_edge}
use riscv_openocd_jtag_mock.Port.Bits.{bits_of, AreBits-bits_of}
use riscv_openocd_jtag_mock.Port.Client.{tms_cycle}
use riscv_openocd_jtag_mock.Port.Reset.{tms_cycles, IsReset, five_cycles-IsReset}
use riscv_openocd_jtag_mock.Port.Instruction.Cycle.{shifting}
use riscv_openocd_jtag_mock.Port.Instruction.{
  begin_instruction_scan, end_instruction_scan, captured, begin_scan_lem, scan_instruction,
  end_scan_lem,
}
use riscv_openocd_jtag_mock.Server.{run_command}
use riscv_openocd_jtag_mock.Server.Session.{session}
use riscv_openocd_jtag_mock.Server.Session.Play.{AreGoing, play, play-append, session-append}
use riscv_openocd_jtag_mock.Server.Session.Scan.{
  pins_byte, letter, tms_bytes, end_bytes, scan_bytes, play_scan, AreGoing-append,
  AreGoing-scan_bytes,
}
use riscv_openocd_jtag_mock.Server.Session.Requests.{
  AreRequests, request_bytes, answer_letters, exchange, outcome_of, session-request_bytes,
}

unfoldable pub reset_bytes : ℕ → List ℕ
reset_bytes zero = []
reset_bytes (suc n) = tms_bytes 1 ++ reset_bytes n

abbrev begin_bytes : List ℕ
begin_bytes = tms_bytes 1 ++ tms_bytes 1 ++ tms_bytes 0 ++ tms_bytes 0 ++ pins_byte 0 0 0 ∷ []

-- The scan of an instruction, from Run-Test/Idle and back.
unfoldable pub instruction_bytes : ℕ → List ℕ
instruction_bytes w = begin_bytes ++ (scan_bytes (w % 2) (bits_of 4 (w / 2)) ++ end_bytes)

-- Reset, Run-Test/Idle and the instruction of `dmi`.
unfoldable pub connect_bytes : List ℕ
connect_bytes = reset_bytes 5 ++ (tms_bytes 0 ++ instruction_bytes 0x11)

module _ {Cpu : Type 0} (env : Environment Cpu) where
  play_tms :
      (s : Target Cpu) (out : List ℕ)
      → (play env (tms_bytes 0) s out ≡ (tms_cycle env 0 s >>= λ t. done (t, out)))
        × (play env (tms_bytes 1) s out ≡ (tms_cycle env 1 s >>= λ t. done (t, out)))
  unfolding play run_command tms_cycle
  play_tms s out = (simp >>=-assoc, simp >>=-assoc)

  play_reset :
      (n : ℕ) (s : Target Cpu) (out : List ℕ)
      → play env (reset_bytes n) s out ≡ (tms_cycles env n s >>= λ t. done (t, out))
  unfolding play reset_bytes tms_cycles
  play_reset zero s out = refl
  play_reset (suc n) s out =
      play-append env (tms_bytes 1) (reset_bytes n) s out
      ∙ rw (play_tms s out).1 (simp (>>=-assoc, λ (t : Target Cpu) (o : List ℕ). play_reset n t o))

  play_begin :
      (s : Target Cpu) (out : List ℕ)
      → play env begin_bytes s out ≡ (begin_instruction_scan env s >>= λ t. done (t, out))
  unfolding play run_command begin_instruction_scan
  play_begin s out = simp >>=-assoc

  play_end :
      (s : Target Cpu) (out : List ℕ)
      → play env end_bytes s out ≡ (end_instruction_scan env s >>= λ t. done (t, out))
  unfolding play run_command end_instruction_scan
  play_end s out = simp >>=-assoc

  -- The target with an instruction selected.
  abbrev selecting : ℕ → Pins → Target Cpu → Target Cpu
  selecting w p s = record s {
    pins = p;
    tsm_current_state = run_test_idle;
    scan = record s.scan { instruction_container_register = w; instruction_shift_register = w };
  }

  play_instruction :
      (w : ℕ) (s : Target Cpu) (out : List ℕ)
      → s.tsm_current_state ≡ run_test_idle
      → w < 2 ^ 5
      → s.scan.instruction_container_register < 2 ^ 5
      → (p : Pins) × (play env (instruction_bytes w) s out
          ≡ done (
            selecting w p s,
            out ++ map letter (bits_of 5 (s.scan.instruction_container_register / 2)),
          ))
  unfolding instruction_bytes
  play_instruction w s out st small fits =
      let bits = scan_bytes (w % 2) (bits_of 4 (w / 2)) in
      let (p, scans) = scan_instruction env w s small fits in
      (
        record p { tck = 1; tms = 0; tdi = 0 },
        play-append env begin_bytes (bits ++ end_bytes) s out
            ∙ rw (play_begin s out) (
                rw (begin_scan_lem env s st fits) (
                  play-append env bits end_bytes (shifting env (captured env s)) out
                  ∙ rw
                      (play_scan env (w % 2) (bits_of 4 (w / 2)) (shifting env (captured env s)) out
                        (AreBits-bits_of 5 w))
                      (rw scans (play_end _ _ ∙ rw (end_scan_lem env p w s))))),
      )

  idle_cycle :
      (s : Target Cpu)
      → s.tsm_current_state ≡ test_logic_reset
      → tms_cycle env 0 s
        ≡ done (record s {
          pins = record s.pins { tck = 1; tms = 0; tdi = 0 };
          tsm_current_state = run_test_idle;
        })
  unfolding tms_cycle set_pins transition tap_step next_state falling_edge state_entered
  idle_cycle s st = ap (λ (q : TsmState). tms_cycle env 0 (record s { tsm_current_state = q })) st

  play_select :
      (t : Target Cpu) (out : List ℕ)
      → t.tsm_current_state ≡ test_logic_reset
      → t.scan.instruction_container_register ≡ 0x01
      → (p : Pins) × (play env (tms_bytes 0 ++ instruction_bytes 0x11) t out
          ≡ done (selecting 0x11 p t, out ++ replicate 5 b'0'))
  play_select t out st ir =
      let u = record t {
        pins = record t.pins { tck = 1; tms = 0; tdi = 0 };
        tsm_current_state = run_test_idle;
      } in
      let (p, plays) = play_instruction 0x11 u out refl (omega arith) (omega (arith, ir)) in
      (
        p,
        play-append env (tms_bytes 0) (instruction_bytes 0x11) t out
            ∙ rw (play_tms t out).0 (
                rw (idle_cycle t st) (
                  plays
                  ∙ ap (λ (n : ℕ). done (selecting 0x11 p t, out ++ map letter (bits_of 5 (n / 2))))
                      ir)),
      )

  AreGoing-connect_bytes : AreGoing connect_bytes
  unfolding connect_bytes instruction_bytes reset_bytes
  AreGoing-connect_bytes =
      AreGoing-append env (reset_bytes 5) (tms_bytes 0 ++ instruction_bytes 0x11) (omega arith) (
        AreGoing-append env (tms_bytes 0 ++ begin_bytes) (scan_bytes 1 (bits_of 4 8) ++ end_bytes)
          (omega arith)
          (AreGoing-append env (scan_bytes 1 (bits_of 4 8)) end_bytes
            (AreGoing-scan_bytes env 1 (bits_of 4 8) (AreBits-bits_of 5 0x11)) (omega arith)))

  -- What a whole session answers.
  abbrev whole : List ℕ → List ℕ → DebugModule Cpu → Outcome (DebugModule Cpu × List ℕ)
  whole ws out m =
      exchange env ws m >>= λ (last, answered). done (last, out ++ answer_letters answered)

  session-connected :
      (ws rest : List ℕ) (t : Target Cpu) (out : List ℕ)
      → t.tsm_current_state ≡ test_logic_reset
      → t.scan.instruction_container_register ≡ 0x01
      → t.quit ≡ 0
      → IsModule t.dm
      → AreRequests ws
      → (play env (tms_bytes 0 ++ instruction_bytes 0x11) t out
          >>= (λ x. session env (request_bytes ws ++ b'Q' ∷ rest) x.0 x.1)
          >>= outcome_of env)
        ≡ whole ws (out ++ replicate 5 b'0') t.dm
  session-connected ws rest t out st ir running fits small =
      let (p, plays) = play_select t out st ir in
      rw plays (
        session-request_bytes env ws rest (selecting 0x11 p t) (out ++ replicate 5 b'0')
          (record { idle = refl; selected = refl; running = running; well_formed = fits }) small)

  -- A whole session with the debug module, from any state of the port in which no request is under
  -- way: a client that resets the port, selects `dmi`, sends a scan for each of its requests of 41
  -- bits and then `Q` has them carried out in order by the debug module as it stands, if that is
  -- well formed. It reads five 0 for the instruction, and then the answers to the requests; the
  -- session ends as the last request does, or else as the first one that does not return.
  pub session-connect_bytes :
      (ws rest : List ℕ) (s : Target Cpu) (out : List ℕ)
      → (in_dr_column s.tsm_current_state ≡ true → s.scan.instruction_container_register ≢ 0x11)
      → s.quit ≡ 0
      → IsModule s.dm
      → AreRequests ws
      → (session env (connect_bytes ++ (request_bytes ws ++ b'Q' ∷ rest)) s out >>= outcome_of env)
        ≡ (exchange env ws s.dm >>= λ (m, answered).
            done (m, (out ++ replicate 5 b'0') ++ answer_letters answered))
  unfolding connect_bytes
  session-connect_bytes ws rest s out quiet running fits small =
      let tail = request_bytes ws ++ b'Q' ∷ rest in
      let going = λ (x : Target Cpu × List ℕ). session env tail x.0 x.1 in
      let select = tms_bytes 0 ++ instruction_bytes 0x11 in
      ap (λ m. m >>= outcome_of env)
        (session-append env connect_bytes tail s out AreGoing-connect_bytes running
          ∙ ap (λ m. m >>= going)
              (play-append env (reset_bytes 5) select s out
                ∙ ap (λ m. m >>= λ x. play env select x.0 x.1) (play_reset 5 s out)))
      ∙ simp >>=-assoc (
          >>=-Returns (IsReset env s) (tms_cycles env 5 s)
            (λ t. play env select t out >>= (λ x. going x >>= outcome_of env))
            (whole ws (out ++ replicate 5 b'0') s.dm) (five_cycles-IsReset env s quiet)
            (λ t r.
              sym (>>=-assoc (play env select t out) going (outcome_of env))
              ∙ session-connected ws rest t out r.state r.instruction (r.same_quit ∙ running)
                  (subst IsModule (sym r.same_module) fits) small
              ∙ ap (λ m. whole ws (out ++ replicate 5 b'0') m) r.same_module))
