-- ===== src/Server/Session/Requests.antt =====
-- A whole exchange with the debug module through the server: one scan of `dmi` for each request.
use mathlib.Core.List.{append_assoc, append-nil}
use riscv_openocd_jtag_mock.Prelude.{
  ℕ, ◌^◌, ◌<◌, ◌≡◌, refl, sym, ap, ◌∙◌, List, [], ◌∷◌, ◌++◌, Outcome, >>=-assoc, >>=-ext, done,
  ◌>>=◌,
}
use riscv_openocd_jtag_mock.Tap.{run_test_idle}
use riscv_openocd_jtag_mock.Cpu.{Environment}
use riscv_openocd_jtag_mock.DebugModule.{DebugModule}
use riscv_openocd_jtag_mock.DebugModule.Access.{update_dmi}
use riscv_openocd_jtag_mock.DebugModule.Invariant.{IsModule, update_dmi-Keeps}
use riscv_openocd_jtag_mock.Target.{Target}
use riscv_openocd_jtag_mock.Server.{run_command}
use riscv_openocd_jtag_mock.Server.Session.{session}
use riscv_openocd_jtag_mock.Server.Session.Scan.{dmi_bytes, letters, scanned, session-dmi_bytes}

-- Requests of 41 bits.
abbrev pub AreRequests : List ℕ → Type 0
AreRequests [] = Unit {0}
AreRequests (w ∷ ws) = (w < 2 ^ 41) × AreRequests ws

unfoldable pub request_bytes : List ℕ → List ℕ
request_bytes [] = []
request_bytes (w ∷ ws) = dmi_bytes w ++ request_bytes ws

unfoldable pub answer_letters : List ℕ → List ℕ
answer_letters [] = []
answer_letters (a ∷ more) = letters a ++ answer_letters more

module _ {Cpu : Type 0} (env : Environment Cpu) where
  -- The requests one after another, each with the answer that stood there before it.
  unfoldable pub exchange : List ℕ → DebugModule Cpu → Outcome (DebugModule Cpu × List ℕ)
  exchange [] m = done (m, [])
  exchange (w ∷ ws) m = do
    n ← update_dmi env w m
    (last, answers) ← exchange ws n
    done (last, m.dmi_container_register ∷ answers)

  -- In Run-Test/Idle with `dmi` selected, and going on.
  pub record IsReady (s : Target Cpu) : Type 0 where
    pub idle : s.tsm_current_state ≡ run_test_idle
    pub selected : s.scan.instruction_container_register ≡ 0x11
    pub running : s.quit ≡ 0
    pub well_formed : IsModule s.dm

  -- What matters of a session's end.
  abbrev pub outcome_of : Target Cpu × List ℕ → Outcome (DebugModule Cpu × List ℕ)
  outcome_of x = done (x.0.dm, x.1)

  abbrev answered : List ℕ → DebugModule Cpu × List ℕ → Outcome (DebugModule Cpu × List ℕ)
  answered out x = done (x.0, out ++ answer_letters x.1)

  quits :
      (rest : List ℕ) (s : Target Cpu) (out : List ℕ)
      → s.quit ≡ 0
      → (session env (b'Q' ∷ rest) s out >>= outcome_of) ≡ done (s.dm, out)
  unfolding session run_command
  quits rest s out running = refl

  nothing_asked :
      (m : DebugModule Cpu) (out : List ℕ) → done (m, out) ≡ (exchange [] m >>= answered out)
  unfolding exchange answer_letters
  nothing_asked m out = rw append-nil

  exchange-answered :
      (w : ℕ) (ws : List ℕ) (m : DebugModule Cpu) (out : List ℕ)
      → (exchange (w ∷ ws) m >>= answered out) ≡ (
          update_dmi env w m >>= λ n.
          exchange ws n >>= answered (out ++ letters m.dmi_container_register))
  unfolding exchange answer_letters
  exchange-answered w ws m out =
      let own = letters m.dmi_container_register in
      simp >>=-assoc (λ i. update_dmi env w m >>= λ n.
      exchange ws n >>= λ x. done (x.0, sym (append_assoc out own (answer_letters x.1)) i))

  -- A client that has selected `dmi` and sends a scan for each of its requests, and then `Q`, has
  -- them carried out in order, and gets their answers: the session ends as the last request does,
  -- with the debug module that the requests leave, or else as the first one that does not return.
  -- The condition is that the target is well formed and in Run-Test/Idle, and each request has 41
  -- bits.
  pub session-request_bytes :
      (ws rest : List ℕ) (s : Target Cpu) (out : List ℕ)
      → IsReady s
      → AreRequests ws
      → (session env (request_bytes ws ++ b'Q' ∷ rest) s out >>= outcome_of)
        ≡ (exchange ws s.dm >>= λ (m, answers). done (m, out ++ answer_letters answers))
  unfolding request_bytes
  session-request_bytes [] rest s out h k = quits rest s out h.running ∙ nothing_asked s.dm out
  session-request_bytes (w ∷ ws) rest s out h k =
      let tail = request_bytes ws ++ b'Q' ∷ rest in
      let (p, scans) =
        session-dmi_bytes env w tail s out h.idle h.selected k.0 h.well_formed.container_fits
          h.running in
      ap (λ bs. session env bs s out >>= outcome_of)
        (append_assoc (dmi_bytes w) (request_bytes ws) (b'Q' ∷ rest))
      ∙ ap (λ m. m >>= outcome_of) scans
      ∙ >>=-assoc (update_dmi env w s.dm)
          (λ m.
            session env tail (record (scanned env w p s) { dm = m })
              (out ++ letters s.dm.dmi_container_register))
          outcome_of
      ∙ >>=-ext IsModule (update_dmi env w s.dm)
          (λ m.
            session env tail (record (scanned env w p s) { dm = m })
              (out ++ letters s.dm.dmi_container_register)
            >>= outcome_of)
          (λ m. exchange ws m >>= answered (out ++ letters s.dm.dmi_container_register))
          (update_dmi-Keeps env w s.dm k.0 h.well_formed)
          (λ m fits.
            session-request_bytes ws rest (record (scanned env w p s) { dm = m })
              (out ++ letters s.dm.dmi_container_register)
              (record {
                idle = refl;
                selected = h.selected;
                running = h.running;
                well_formed = fits;
              })
              k.1)
      ∙ sym (exchange-answered w ws s.dm out)
