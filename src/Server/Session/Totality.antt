-- ===== src/Server/Session/Totality.antt =====
-- Every client that says `Q` is served to the end.
use riscv_openocd_jtag_mock.Prelude.{
  ℕ, ◌<◌, ◌≡◌, refl, arith, List, [], ◌∷◌, ◌++◌, length, Outcome, done, undefined, aborted, waiting,
  ◌>>=◌,
}
use riscv_openocd_jtag_mock.Tap.{TsmState, test_logic_reset, update_dr, tap_step}
use riscv_openocd_jtag_mock.Cpu.{Environment}
use riscv_openocd_jtag_mock.DebugModule.{DebugModule}
use riscv_openocd_jtag_mock.DebugModule.Command.Safety.{Ends as IsEnd}
use riscv_openocd_jtag_mock.DebugModule.Access.{update_dmi}
use riscv_openocd_jtag_mock.DebugModule.Access.Totality.{update_dmi-Ends}
use riscv_openocd_jtag_mock.Target.{Target}
use riscv_openocd_jtag_mock.Port.{set_pins, reset, transition, state_entered, enter_update_dr}
use riscv_openocd_jtag_mock.Server.{Wire, run_command, serve}
use riscv_openocd_jtag_mock.Server.Polling.{bytes_of}
use riscv_openocd_jtag_mock.Server.Session.{session}
use riscv_openocd_jtag_mock.Server.Session.Play.{AreGoing, answers, play, session_ends}
use riscv_openocd_jtag_mock.Server.Session.Refinement.{IsServed, serve_refines_session}

-- A call that returns with `P`, or else is undefined.
abbrev pub Completes : {A : Type 0} → (A → Type 0) → Outcome A → Type 0
Completes P (done a) = P a
Completes P undefined = Unit {0}
Completes P aborted = ⊥
Completes P waiting = ⊥

Completes->>= :
    {A B : Type 0} (P : A → Type 0) (Q : B → Type 0) (m : Outcome A) (f : A → Outcome B)
    → Completes P m
    → ((a : A) → P a → Completes Q (f a))
    → Completes Q (m >>= f)
Completes->>= P Q (done a) f h k = k a h
Completes->>= P Q undefined f h k = tt
Completes->>= P Q aborted f h k = absurd h
Completes->>= P Q waiting f h k = absurd h

Completes-Ends :
    {A : Type 0} (Bad : Type 0) (m : Outcome A) → IsEnd Bad m → Completes (λ a. Unit {0}) m
Completes-Ends Bad (done a) h = tt
Completes-Ends Bad undefined h = tt
Completes-Ends Bad aborted h = h
Completes-Ends Bad waiting h = h

-- A call completes if what is seen of it does.
Completes-seen :
    {A B : Type 0} (P : B → Type 0) (f : A → B) (m : Outcome A)
    → Completes P (m >>= λ a. done (f a))
    → Completes (λ a. P (f a)) m
Completes-seen P f (done a) h = h
Completes-seen P f undefined h = h
Completes-seen P f aborted h = h
Completes-seen P f waiting h = h

module _ {Cpu : Type 0} (env : Environment Cpu) where
  abbrev Ends : {A : Type 0} → Outcome A → Type 0
  Ends m = Completes (λ a. Unit {0}) m

  state_entered-Ends : (q : TsmState) (s : Target Cpu) → Ends (state_entered env q s)
  unfolding state_entered enter_update_dr
  state_entered-Ends update_dr s =
      let w = s.scan.dmi_shift_register in
      let put =
        Completes->>= (λ (m : DebugModule Cpu). Unit {0}) (λ (t : Target Cpu). Unit {0})
          (update_dmi env w s.dm) (λ m. done (record s { dm = m }))
          (Completes-Ends _ (update_dmi env w s.dm) (update_dmi-Ends env w s.dm)) (λ m h. tt) in
      ground (arith, put)
  state_entered-Ends _ s = tt

  set_pins-Ends : (tck tms tdi : ℕ) (s : Target Cpu) → Ends (set_pins env tck tms tdi s)
  unfolding set_pins transition
  set_pins-Ends tck tms tdi s =
      let t = record s { pins = record s.pins { tck = tck; tms = tms; tdi = tdi } } in
      let q = tap_step t.tsm_current_state tms tck in
      ground (arith, state_entered-Ends q (record t { tsm_current_state = q }))

  run_command-Ends : (command : ℕ) (s : Target Cpu) → Ends (run_command env command s)
  unfolding run_command reset
  run_command-Ends command s = ground (
    arith,
    set_pins-Ends 0 0 0 s,
    set_pins-Ends 0 0 1 s,
    set_pins-Ends 0 1 0 s,
    set_pins-Ends 0 1 1 s,
    set_pins-Ends 1 0 0 s,
    set_pins-Ends 1 0 1 s,
    set_pins-Ends 1 1 0 s,
    set_pins-Ends 1 1 1 s,
    state_entered-Ends test_logic_reset (record s { tsm_current_state = test_logic_reset }),
  )

  play-Ends : (cs : List ℕ) (s : Target Cpu) (out : List ℕ) → Ends (play env cs s out)
  unfolding play
  play-Ends [] s out = tt
  play-Ends (c ∷ cs) s out =
      Completes->>= (λ (t : Target Cpu). Unit {0}) (λ (x : Target Cpu × List ℕ). Unit {0})
        (run_command env c s) (λ t. play env cs t (answers env c t out)) (run_command-Ends c s)
        (λ t h. play-Ends cs t (answers env c t out))

  -- The session is over and the connection closed.
  abbrev pub IsOver : Target Cpu → Type 0
  IsOver t = (t.quit ≡ 1) × (t.client_fd ≡ 0)

  session-Completes :
      (cs rest : List ℕ) (s : Target Cpu) (out : List ℕ)
      → AreGoing cs
      → s.quit ≡ 0
      → Completes (λ x. IsOver x.0) (session env (cs ++ b'Q' ∷ rest) s out)
  session-Completes cs rest s out going running =
      rw (session_ends env cs rest s out going running).0 (
        Completes->>= (λ (x : Target Cpu × List ℕ). Unit {0}) (λ x. IsOver x.0) (play env cs s out)
          (λ (t, answered). done (record t { quit = 1; client_fd = 0 }, answered))
          (play-Ends cs s out) (λ x h. (refl, refl)))

  -- Whatever a client sends before its first `Q`, the loop ends: it neither aborts nor goes on
  -- waiting. If its behaviour is not undefined it returns, and the session is then over and the
  -- connection closed. The conditions are that the client is connected and its wire works, and that
  -- the loop runs for more ticks than there are reads.
  pub serve-Completes :
      (fuel : ℕ) (cs rest : List ℕ) (s : Target Cpu) (w : Wire)
      → IsServed env s w
      → bytes_of w.reads ≡ cs ++ b'Q' ∷ rest
      → AreGoing cs
      → length w.reads < fuel
      → Completes (λ (t, v). (t.quit ≡ 1) × (t.client_fd ≡ 0)) (serve env fuel s w)
  serve-Completes fuel cs rest s w h sends going enough =
      Completes-seen (λ (x : Target Cpu × List ℕ). IsOver x.0) (λ x. (x.0, x.1.output))
        (serve env fuel s w)
        (rw (serve_refines_session env fuel s w h enough)
          (rw sends (session-Completes cs rest s w.output going h.running)))
