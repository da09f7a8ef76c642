-- ===== src/Server/Session/Refinement.antt =====
-- The loop of the server carries out the session of its client.
use riscv_openocd_jtag_mock.Prelude.{
  ℕ, zero, suc, ◌<◌, ◌≡◌, ◌≢◌, ◌⊎◌, inl, inr, refl, sym, ap, ◌∙◌, arith, ==_of_ne, Bool-cases,
  subst, ◌==◌, if◌then◌else◌, List, [], ◌∷◌, length, Outcome, >>=-assoc, >>=-ext, done, waiting,
  ◌>>=◌,
}
use riscv_openocd_jtag_mock.Cpu.{Environment}
use riscv_openocd_jtag_mock.Target.{Target}
use riscv_openocd_jtag_mock.Server.{
  Received, Sent, Wire, run_command, send_answer, hang_up, execute_command, tick, serve, read_byte,
}
use riscv_openocd_jtag_mock.Server.Polling.{
  bytes_of, AreRead, Delivers, FirstRead, read_byte-cases, write_byte-Delivers,
}
use riscv_openocd_jtag_mock.Server.Session.Play.{answers}
use riscv_openocd_jtag_mock.Server.Session.{asked, Connected, session, run_command-Connected}

module _ {Cpu : Type 0} (env : Environment Cpu) where
  -- What the client sees of a run.
  abbrev pub seen : Target Cpu × Wire → Outcome (Target Cpu × List ℕ)
  seen x = done (x.0, x.1.output)

  -- A client is connected, and its wire works.
  pub record IsServed (s : Target Cpu) (w : Wire) : Type 0 where
    pub running : s.quit ≡ 0
    pub connected : 0 < s.client_fd
    pub read : AreRead w.reads
    pub delivers : Delivers w.writes (asked (bytes_of w.reads))

  -- The rest of a tick, behind the call of the command, and the ticks after it.
  abbrev after : ℕ → ℕ → Target Cpu → Wire → Outcome (Target Cpu × List ℕ)
  after fuel c t w = send_answer env c t w >>= λ w'. serve env fuel (hang_up env t) w' >>= seen

  abbrev finish : Target Cpu → Wire → Outcome (Target Cpu × Wire)
  finish t w' = done (hang_up env t, w')

  abbrev ticks : ℕ → Target Cpu × Wire → Outcome (Target Cpu × Wire)
  ticks fuel x = serve env fuel x.0 x.1

  tick_lem :
      (s : Target Cpu) (w : Wire) (f : FirstRead w.reads)
      → 0 < s.client_fd
      → tick env s w ≡ (
          run_command env f.first s >>= λ t.
          send_answer env f.first t (record w { reads = f.rest }) >>= finish t)
  unfolding tick execute_command
  tick_lem s w f connected = ground arith

  after_lem :
      (fuel c : ℕ) (t : Target Cpu) (w : Wire)
      → (send_answer env c t w >>= finish t >>= ticks fuel >>= seen) ≡ after fuel c t w
  after_lem fuel c t w =
      ap (λ m. m >>= seen) (>>=-assoc (send_answer env c t w) (finish t) (ticks fuel))
      ∙ >>=-assoc (send_answer env c t w) (λ w'. serve env fuel (hang_up env t) w') seen

  serve_step :
      (fuel : ℕ) (s : Target Cpu) (w : Wire) (f : FirstRead w.reads)
      → s.quit ≡ 0
      → 0 < s.client_fd
      → (serve env (suc fuel) s w >>= seen)
        ≡ (run_command env f.first s >>= λ t. after fuel f.first t (record w { reads = f.rest }))
  unfolding serve
  serve_step fuel s w f running connected =
      let w1 = record w { reads = f.rest } in
      let first : Target Cpu → Outcome (Target Cpu × Wire) =
        λ t. send_answer env f.first t w1 >>= finish t in
      let rc = run_command env f.first s in
      let start : serve env (suc fuel) s w ≡ (tick env s w >>= ticks fuel) = ground arith in
      ap (λ m. m >>= seen)
        (start
          ∙ ap (λ m. m >>= ticks fuel) (tick_lem s w f connected)
          ∙ >>=-assoc rc first (ticks fuel))
      ∙ >>=-assoc rc (λ t. first t >>= ticks fuel) seen
      ∙ λ i. rc >>= λ t. after_lem fuel f.first t w1 i

  serve_waits :
      (fuel : ℕ) (s : Target Cpu) (w : Wire)
      → s.quit ≡ 0
      → 0 < s.client_fd
      → read_byte w.reads ≡ waiting
      → serve env (suc fuel) s w ≡ waiting
  unfolding serve tick execute_command
  serve_waits fuel s w running connected e = ground arith

  send_answer_lem :
      (c : ℕ) (cs : List ℕ) (t : Target Cpu) (w : Wire)
      → Delivers w.writes (asked (c ∷ cs))
      → (rest : List Sent) × (send_answer env c t w
          ≡ done (record w { writes = rest; output = answers env c t w.output }))
        × Delivers rest (asked cs)
  unfolding send_answer
  send_answer_lem c cs t w h = elim (Bool-cases (c == b'R')) [
    | inl e ↦
        let (rest, sent, more) =
          write_byte-Delivers w.writes (asked cs)
            (subst (λ b. Delivers w.writes (if b then suc (asked cs) else asked cs)) e h) in
        (rest, rw (e, sent), more)
    | inr e ↦ (
      w.writes,
      rw e,
      subst (λ b. Delivers w.writes (if b then suc (asked cs) else asked cs)) e h,
    )
  ]

  ended :
      (fuel : ℕ) (t : Target Cpu) (w : Wire)
      → t.quit ≢ 0
      → (serve env (suc fuel) (hang_up env t) w >>= seen)
        ≡ done (record t { client_fd = 0 }, w.output)
  unfolding serve hang_up
  ended fuel t w h = ground arith

  going : (t : Target Cpu) → t.quit ≡ 0 → hang_up env t ≡ t
  unfolding hang_up
  going t h = ground arith

  quits : (t : Target Cpu) → (t.quit ≡ 0) ⊎ (t.quit ≢ 0)
  quits t = ground arith

  -- One command of the session, and the rest of it.
  behind : ℕ → List ℕ → Target Cpu → List ℕ → Outcome (Target Cpu × List ℕ)
  behind c cs t out =
      let rest = session env cs t (answers env c t out) in
      if t.quit == 0 then rest else done (record t { client_fd = 0 }, answers env c t out)

  after-behind :
      (fuel c : ℕ) (cs : List ℕ) (t : Target Cpu) (w : Wire)
      → ((v : Wire)
          → v.reads ≡ w.reads
          → Delivers v.writes (asked cs)
          → t.quit ≡ 0
          → (serve env (suc fuel) t v >>= seen) ≡ session env cs t v.output)
      → Delivers w.writes (asked (c ∷ cs))
      → after (suc fuel) c t w ≡ behind c cs t w.output
  unfolding behind
  after-behind fuel c cs t w ih h =
      let (rest, sent, more) = send_answer_lem c cs t w h in
      let v = record w { writes = rest; output = answers env c t w.output } in
      let step : after (suc fuel) c t w ≡ (serve env (suc fuel) (hang_up env t) v >>= seen) =
        ap (λ m. m >>= λ w'. serve env (suc fuel) (hang_up env t) w' >>= seen) sent in
      elim (quits t) [
        | inl e ↦
            step ∙ ap (λ u. serve env (suc fuel) u v >>= seen) (going t e) ∙ ih v refl more e ∙ rw e
        | inr e ↦ step ∙ ended fuel t v e ∙ rw (==_of_ne t.quit 0 e)
      ]

  session-behind :
      (c : ℕ) (cs : List ℕ) (s : Target Cpu) (out : List ℕ)
      → session env (c ∷ cs) s out ≡ (run_command env c s >>= λ t. behind c cs t out)
  unfolding session behind
  session-behind c cs s out = refl

  session_waits : (s : Target Cpu) (out : List ℕ) → session env [] s out ≡ waiting
  unfolding session
  session_waits s out = refl

  both_wait :
      (fuel : ℕ) (s : Target Cpu) (w : Wire)
      → IsServed s w
      → read_byte w.reads ≡ waiting
      → bytes_of w.reads ≡ []
      → (serve env (suc fuel) s w >>= seen) ≡ session env (bytes_of w.reads) s w.output
  both_wait fuel s w h e b =
      ap (λ m. m >>= seen) (serve_waits fuel s w h.running h.connected e)
      ∙ rw b (sym (session_waits s w.output))

  still-IsServed :
      (s t : Target Cpu) (v : Wire) (rest : List Received)
      → 0 < s.client_fd
      → Connected s t
      → AreRead rest
      → v.reads ≡ rest
      → Delivers v.writes (asked (bytes_of rest))
      → t.quit ≡ 0
      → IsServed t v
  still-IsServed s t v rest connected k good same delivers running = record {
    running = running;
    connected = omega (arith, k.client);
    read = subst AreRead (sym same) good;
    delivers = subst (λ xs. Delivers v.writes (asked (bytes_of xs))) (sym same) delivers;
  }

  -- With a client connected, the server does what the session of the client's commands says, however
  -- the reads and the writes are split by empty polls: it ends as the session ends, in the same
  -- state and with the same answers. The conditions are that no call on the socket fails, that the
  -- socket takes every answer that is asked for, and that the loop runs for more ticks than there
  -- are reads.
  pub serve_refines_session :
      (fuel : ℕ) (s : Target Cpu) (w : Wire)
      → IsServed s w
      → length w.reads < fuel
      → (serve env fuel s w >>= seen) ≡ session env (bytes_of w.reads) s w.output
  serve_refines_session zero s w h enough = absurd (omega arith)
  serve_refines_session (suc zero) s w h enough = elim (read_byte-cases w.reads h.read) [
    | inl (e, b) ↦ both_wait zero s w h e b
    | inr f ↦ absurd (omega (arith, f.shorter))
  ]
  serve_refines_session (suc (suc fuel)) s w h enough = elim (read_byte-cases w.reads h.read) [
    | inl (e, b) ↦ both_wait (suc fuel) s w h e b
    | inr f ↦
        let c = f.first in
        let cs = bytes_of f.rest in
        let w1 = record w { reads = f.rest } in
        let h' : Delivers w.writes (asked (c ∷ cs)) =
          subst (λ bs. Delivers w.writes (asked bs)) f.bytes h.delivers in
        serve_step (suc fuel) s w f h.running h.connected
        ∙ >>=-ext (Connected s) (run_command env c s) (λ t. after (suc fuel) c t w1)
            (λ t. behind c cs t w.output) (run_command-Connected env c s)
            (λ t k.
              after-behind fuel c cs t w1
                (λ v same delivers running.
                  serve_refines_session (suc fuel) t v
                    (still-IsServed s t v f.rest h.connected k f.rest_read same delivers running)
                    (omega (arith, f.shorter, ap (λ xs. length xs) same))
                  ∙ ap (λ xs. session env (bytes_of xs) t v.output) same)
                h')
        ∙ sym (session-behind c cs s w.output)
        ∙ ap (λ bs. session env bs s w.output) (sym f.bytes)
  ]
