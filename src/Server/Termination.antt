-- ===== src/Server/Termination.antt =====
-- How long the main loop runs.
use riscv_openocd_jtag_mock.Prelude.{
  ℕ, zero, suc, ◌+◌, ◌<◌, ◌≡◌, refl, ap, ◌∙◌, arith, ◌==◌, if◌then◌else◌, length, replicate,
  Outcome, done, waiting, ◌>>=◌, >>=-ext, Keeps, Keeps->>=, Keeps-of, step-Keeps, sym, List,
}
use riscv_openocd_jtag_mock.Cpu.{Environment}
use riscv_openocd_jtag_mock.Target.{Target}
use riscv_openocd_jtag_mock.Server.{
  Wire, Received, closed, read_byte, accept_client, run_command, send_answer, hang_up,
  execute_command, tick, serve,
}
use riscv_openocd_jtag_mock.Server.Polling.{read_byte-shorter, accept_client-shorter}

-- The events that the loop can still wait for.
abbrev pub events : Wire → ℕ
events w = length w.accepts + length w.reads

module _ {Cpu : Type 0} (env : Environment Cpu) where
  -- A tick uses up an event, if it returns.
  abbrev Shorter : Wire → Target Cpu × Wire → Type 0
  Shorter w x = events x.1 < events w

  send_answer-events :
      (c : ℕ) (s : Target Cpu) (w : Wire) → Keeps (λ v. events v ≡ events w) (send_answer env c s w)
  unfolding send_answer
  send_answer-events c s w = ground arith

  abbrev answered : Wire → ℕ → List Received → Target Cpu → Outcome (Target Cpu × Wire)
  answered w c rest t =
      send_answer env c t (record w { reads = rest }) >>= λ v. done (hang_up env t, v)

  execute_command-Shorter :
      (s : Target Cpu) (w : Wire) → Keeps (Shorter w) (execute_command env s w)
  unfolding execute_command
  execute_command-Shorter s w =
      Keeps->>= (λ x. length x.1 < length w.reads) (Shorter w) (read_byte w.reads)
        (λ x. run_command env x.0 s >>= answered w x.0 x.1)
        (Keeps-of (λ x. length x.1 < length w.reads) (read_byte w.reads)
          (λ x e. read_byte-shorter w.reads x.1 x.0 e))
        (λ x used. step-Keeps (Shorter w) (run_command env x.0 s) (answered w x.0 x.1) (λ t.
          let w1 = record w { reads = x.1 } in
          Keeps->>= (λ v. events v ≡ events w1) (Shorter w) (send_answer env x.0 t w1)
            (λ v. done (hang_up env t, v)) (send_answer-events x.0 t w1)
            (λ v e. omega (arith, e, used))))

  tick-Shorter : (s : Target Cpu) (w : Wire) → Keeps (Shorter w) (tick env s w)
  unfolding tick
  tick-Shorter s w =
      let accepted : Keeps (Shorter w) (
          accept_client w.accepts >>= λ x.
          done (record s { client_fd = x.0 }, record w { accepts = x.1 })) =
        Keeps->>= (λ x. length x.1 < length w.accepts) (Shorter w) (accept_client w.accepts)
          (λ x. done (record s { client_fd = x.0 }, record w { accepts = x.1 }))
          (Keeps-of (λ x. length x.1 < length w.accepts) (accept_client w.accepts)
            (λ x e. accept_client-shorter w.accepts x.1 x.0 e))
          (λ x used. omega (arith, used)) in
      ground (arith, execute_command-Shorter s w, accepted)

  serve-suc :
      (fuel : ℕ) (s : Target Cpu) (w : Wire)
      → serve env (suc fuel) s w
        ≡ (if s.quit == 0 then (tick env s w >>= λ x. serve env fuel x.0 x.1) else done (s, w))
  unfolding serve
  serve-suc fuel s w = refl

  -- The number of ticks given does not matter once it passes the number of events to come: a loop
  -- that has not ended by then is waiting for the client.
  pub serve_fuel :
      (fuel extra : ℕ) (s : Target Cpu) (w : Wire)
      → events w < fuel
      → serve env (fuel + extra) s w ≡ serve env fuel s w
  serve_fuel zero extra s w h = absurd (omega arith)
  serve_fuel (suc fuel) extra s w h =
      let more : suc fuel + extra ≡ suc (fuel + extra) = omega arith in
      let ticks =
        >>=-ext (Shorter w) (tick env s w) (λ x. serve env (fuel + extra) x.0 x.1)
          (λ x. serve env fuel x.0 x.1) (tick-Shorter s w)
          (λ x used. serve_fuel fuel extra x.0 x.1 (omega (arith, used))) in
      ap (λ n. serve env n s w) more
      ∙ serve-suc (fuel + extra) s w
      ∙ ap (λ m. if s.quit == 0 then m else done (s, w)) ticks
      ∙ sym (serve-suc fuel s w)

  read_byte_hangs : (n : ℕ) → read_byte (replicate n closed) ≡ waiting
  unfolding read_byte
  read_byte_hangs zero = refl
  read_byte_hangs (suc n) = read_byte_hangs n

  -- A client that goes away without `Q` is never noticed: `read()` then reports the end of the
  -- connection for ever, and for any number of ticks the loop does not end.
  pub serve_hangs :
      (fuel n : ℕ) (s : Target Cpu) (w : Wire)
      → s.quit ≡ 0
      → 0 < s.client_fd
      → w.reads ≡ replicate n closed
      → serve env fuel s w ≡ waiting
  unfolding serve tick execute_command
  serve_hangs zero n s w running connected gone = refl
  serve_hangs (suc fuel) n s w running connected gone =
      ground (arith, read_byte_hangs n, ap read_byte gone)
