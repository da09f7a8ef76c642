-- ===== src/Server/Session/Play.antt =====
-- A part of a session: commands that do not end it.
use riscv_openocd_jtag_mock.Prelude.{
  ℕ, ◌≡◌, ◌≢◌, refl, sym, ◌∙◌, arith, ◌==◌, if◌then◌else◌, List, [], ◌∷◌, ◌++◌, Outcome, >>=-assoc,
  >>=-ext, done, waiting, ◌>>=◌,
}
use riscv_openocd_jtag_mock.Cpu.{Environment}
use riscv_openocd_jtag_mock.Target.{Target}
use riscv_openocd_jtag_mock.Server.{run_command, tdo_letter}
use riscv_openocd_jtag_mock.Server.Session.{session, run_command-running}

-- No command ends the session.
abbrev pub AreGoing : List ℕ → Type 0
AreGoing [] = Unit {0}
AreGoing (c ∷ cs) = (c ≢ b'Q') × AreGoing cs

module _ {Cpu : Type 0} (env : Environment Cpu) where
  -- The answers with that to a command behind them.
  abbrev pub answers : ℕ → Target Cpu → List ℕ → List ℕ
  answers c t out = if c == b'R' then out ++ (tdo_letter env t ∷ []) else out

  -- The commands, and nothing behind them.
  unfoldable pub play : List ℕ → Target Cpu → List ℕ → Outcome (Target Cpu × List ℕ)
  play [] s out = done (s, out)
  play (c ∷ cs) s out = run_command env c s >>= λ t. play cs t (answers c t out)

  pub play-append :
      (xs ys : List ℕ) (s : Target Cpu) (out : List ℕ)
      → play (xs ++ ys) s out ≡ (play xs s out >>= λ x. play ys x.0 x.1)
  unfolding play
  play-append [] ys s out = refl
  play-append (c ∷ xs) ys s out =
      (λ i. run_command env c s >>= λ t. play-append xs ys t (answers c t out) i)
      ∙ sym (
          >>=-assoc (run_command env c s) (λ t. play xs t (answers c t out)) (λ x. play ys x.0 x.1))

  session-going :
      (c : ℕ) (cs : List ℕ) (s : Target Cpu) (out : List ℕ)
      → c ≢ b'Q'
      → s.quit ≡ 0
      → session env (c ∷ cs) s out
        ≡ (run_command env c s >>= λ t. session env cs t (answers c t out))
  unfolding session
  session-going c cs s out other running =
      >>=-ext (λ t. t.quit ≡ s.quit) (run_command env c s)
        (λ t.
          let rest = session env cs t (answers c t out) in
          if t.quit == 0 then rest else done (record t { client_fd = 0 }, answers c t out))
        (λ t. session env cs t (answers c t out)) (run_command-running env c s other)
        (λ t same. ground arith)

  -- A session that does not end with its first commands goes on behind them.
  pub session-append :
      (xs ys : List ℕ) (s : Target Cpu) (out : List ℕ)
      → AreGoing xs
      → s.quit ≡ 0
      → session env (xs ++ ys) s out ≡ (play xs s out >>= λ x. session env ys x.0 x.1)
  unfolding play
  session-append [] ys s out going running = refl
  session-append (c ∷ xs) ys s out going running =
      session-going c (xs ++ ys) s out going.0 running
      ∙ >>=-ext (λ t. t.quit ≡ s.quit) (run_command env c s)
          (λ t. session env (xs ++ ys) t (answers c t out))
          (λ t. play xs t (answers c t out) >>= λ x. session env ys x.0 x.1)
          (run_command-running env c s going.0)
          (λ t same. session-append xs ys t (answers c t out) going.1 (same ∙ running))
      ∙ sym (
          >>=-assoc (run_command env c s) (λ t. play xs t (answers c t out))
            (λ x. session env ys x.0 x.1))

  quits :
      (cs : List ℕ) (s : Target Cpu) (out : List ℕ)
      → session env (b'Q' ∷ cs) s out ≡ done (record s { quit = 1; client_fd = 0 }, out)
  unfolding session run_command
  quits cs s out = refl

  waits : (s : Target Cpu) (out : List ℕ) → session env [] s out ≡ waiting
  unfolding session
  waits s out = refl

  -- A session ends with its first `Q` and not before: the commands before it are carried out, those
  -- behind it are not, and the connection is closed. A session without a `Q` never returns.
  pub session_ends :
      (cs rest : List ℕ) (s : Target Cpu) (out : List ℕ)
      → AreGoing cs
      → s.quit ≡ 0
      → (session env (cs ++ b'Q' ∷ rest) s out ≡ (
          play cs s out >>= λ (t, answered). done (record t { quit = 1; client_fd = 0 }, answered)))
        × (session env (cs ++ []) s out ≡ (play cs s out >>= λ x. waiting))
  session_ends cs rest s out going running = (
    session-append cs (b'Q' ∷ rest) s out going running
        ∙ (λ i. play cs s out >>= λ x. quits rest x.0 x.1 i),
    session-append cs [] s out going running ∙ (λ i. play cs s out >>= λ x. waits x.0 x.1 i),
  )
