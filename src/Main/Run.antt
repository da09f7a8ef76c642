-- ===== src/Main/Run.antt =====
-- The program from its start: the first client and what it finds.
use riscv_openocd_jtag_mock.Prelude.{
  ℕ, suc, ◌<◌, ◌≡◌, refl, sym, ap, ◌∙◌, subst, arith, true, Option, none, some, List, [], ◌∷◌, ◌++◌,
  length, replicate, Outcome, >>=-assoc, done, ◌>>=◌,
}
use riscv_openocd_jtag_mock.Tap.{TsmState}
use riscv_openocd_jtag_mock.Cpu.{Environment}
use riscv_openocd_jtag_mock.DebugModule.{DebugModule}
use riscv_openocd_jtag_mock.DebugModule.Invariant.{IsModule}
use riscv_openocd_jtag_mock.Target.{
  Target, Setup, construct, opened, initial_target, initial_module,
}
use riscv_openocd_jtag_mock.Port.Invariant.{initial_target-IsTarget}
use riscv_openocd_jtag_mock.Server.{Accepted, Wire, accept_client, tick, serve}
use riscv_openocd_jtag_mock.Server.Polling.{bytes_of, AreRead, Delivers}
use riscv_openocd_jtag_mock.Server.Session.{asked, session}
use riscv_openocd_jtag_mock.Server.Session.Refinement.{seen, serve_refines_session}
use riscv_openocd_jtag_mock.Server.Session.Requests.{
  AreRequests, request_bytes, answer_letters, exchange, outcome_of,
}
use riscv_openocd_jtag_mock.Server.Session.Connect.{connect_bytes, session-connect_bytes}
use riscv_openocd_jtag_mock.Main.{Image, Startup, loaded_cpu, main}

-- Every call of the constructor succeeds.
pub record IsSetUp (setup : Setup) : Type 0 where
  pub fd : ℕ
  pub has_socket : setup.socket ≡ some fd
  pub has_option : setup.setsockopt_ok ≡ true
  pub is_bound : setup.bind_ok ≡ true
  pub listens : setup.listen_ok ≡ true
  pub is_named : setup.getsockname_ok ≡ true

-- A client comes, and sends the bytes over a wire that works.
pub record IsClient (bytes : List ℕ) (w : Wire) : Type 0 where
  pub fd : ℕ
  pub more : List Accepted
  pub comes : accept_client w.accepts ≡ done (fd, more)
  pub positive : 0 < fd
  pub sends : bytes_of w.reads ≡ bytes
  pub read : AreRead w.reads
  pub delivers : Delivers w.writes (asked bytes)
  pub fresh : w.output ≡ []

module _ {Cpu : Type 0} (env : Environment Cpu) where
  constructs :
      (setup : Setup) (state : TsmState) (tdo : ℕ) (cpu : Cpu) (h : IsSetUp setup)
      → construct setup state tdo cpu ≡ done (initial_target state tdo h.fd cpu)
  unfolding construct opened
  constructs setup state tdo cpu h =
      rw (h.has_socket, h.has_option, h.is_bound, h.listens, h.is_named)

  -- The first tick accepts the client.
  accepts :
      (fuel : ℕ) (s : Target Cpu) (w : Wire) (bytes : List ℕ) (h : IsClient bytes w)
      → s.quit ≡ 0
      → s.client_fd ≡ 0
      → serve env (suc fuel) s w
        ≡ serve env fuel (record s { client_fd = h.fd }) (record w { accepts = h.more })
  unfolding serve tick
  accepts fuel s w bytes h running alone = rw (running, alone) (rw h.comes)

  -- What the program leaves.
  abbrev pub left_by : Option (Target Cpu × Wire) → Outcome (Option (DebugModule Cpu × List ℕ))
  left_by none = done none
  left_by (some x) = done (some (x.0.dm, x.1.output))

  abbrev found : DebugModule Cpu × List ℕ → Outcome (Option (DebugModule Cpu × List ℕ))
  found x = done (some x)

  seen_by :
      (m : Outcome (Target Cpu × Wire))
      → (m >>= (λ x. done (some x)) >>= left_by) ≡ (m >>= seen env >>= outcome_of env >>= found)
  seen_by m = simp >>=-assoc

  -- The whole program, from its start: with a hex file that loads and a server that can be set up, a
  -- client comes, resets the port, selects `dmi`, sends a scan for each of its requests of 41 bits
  -- and then `Q`. The program then returns 0, if all its requests return, with the debug module as
  -- the requests leave it from its initial state, and the client has been sent five 0 for the
  -- instruction and the answers to its requests, in order; else it ends as the first request does
  -- that does not return. This holds whatever the state machine and `tdo` start with. The
  -- conditions are that no call on the socket fails, that it takes every answer, and that the loop
  -- runs for two ticks more than there are reads.
  pub main-connect_bytes :
      (startup : Startup env) (image : Image) (setup : Setup) (state : TsmState) (tdo fuel : ℕ)
      (w : Wire) (ws rest : List ℕ)
      → IsSetUp setup
      → IsClient (connect_bytes ++ (request_bytes ws ++ b'Q' ∷ rest)) w
      → AreRequests ws
      → length w.reads < fuel
      → (main env startup (some image) setup state tdo (suc fuel) w >>= left_by) ≡ (
          exchange env ws (initial_module (loaded_cpu env startup image)) >>= λ (m, answered).
          done (some (m, replicate 5 b'0' ++ answer_letters answered)))
  unfolding main initial_target
  main-connect_bytes startup image setup state tdo fuel w ws rest up h small enough =
      let cpu = loaded_cpu env startup image in
      let bytes = connect_bytes ++ (request_bytes ws ++ b'Q' ∷ rest) in
      let s = initial_target state tdo up.fd cpu in
      let t = record s { client_fd = h.fd } in
      let v = record w { accepts = h.more } in
      let fits : IsModule (initial_module cpu) =
        (initial_target-IsTarget state tdo up.fd cpu).module_fits in
      let served : (serve env (suc fuel) s w >>= seen env) ≡ session env bytes t [] =
        ap (λ m. m >>= seen env) (accepts fuel s w bytes h refl refl)
        ∙ serve_refines_session env fuel t v
            (record {
              running = refl;
              connected = h.positive;
              read = h.read;
              delivers = subst (λ bs. Delivers w.writes (asked bs)) (sym h.sends) h.delivers;
            })
            enough
        ∙ (λ i. session env (h.sends i) t (h.fresh i)) in
      rw (constructs setup state tdo cpu up) (
        seen_by (serve env (suc fuel) s w)
        ∙ ap (λ m. m >>= outcome_of env >>= found) served
        ∙ ap (λ m. m >>= found)
            (session-connect_bytes env ws rest t [] (λ e. omega arith) refl fits small)
        ∙ simp >>=-assoc)
