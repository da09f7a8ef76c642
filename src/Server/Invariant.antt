-- ===== src/Server/Invariant.antt =====
-- What holds of the target while the server runs, whatever the client sends.
use riscv_openocd_jtag_mock.Prelude.{
  ℕ, ◌≡◌, subst, arith, Outcome, Keeps, Keeps->>=, step-Keeps, always-Keeps, done, aborted, ◌>>=◌,
  if◌then◌else◌,
}
use riscv_openocd_jtag_mock.Tap.{TsmState}
use riscv_openocd_jtag_mock.Cpu.{Environment}
use riscv_openocd_jtag_mock.Target.{Target, Setup, construct, initial_target, opened}
use riscv_openocd_jtag_mock.Port.Invariant.{IsTarget, set_pins-Keeps, initial_target-IsTarget}
use riscv_openocd_jtag_mock.Server.{
  Wire, run_command, send_answer, hang_up, execute_command, tick, accept_client, read_byte,
}

module _ {Cpu : Type 0} (env : Environment Cpu) where
  run_command-Keeps :
      (command : ℕ) (s : Target Cpu) → IsTarget s → Keeps IsTarget (run_command env command s)
  unfolding run_command
  run_command-Keeps command s h = ground (
    arith,
    h,
    (set_pins-Keeps env 0 0 0 s (omega arith) h).0,
    (set_pins-Keeps env 0 0 1 s (omega arith) h).0,
    (set_pins-Keeps env 0 1 0 s (omega arith) h).0,
    (set_pins-Keeps env 0 1 1 s (omega arith) h).0,
    (set_pins-Keeps env 1 0 0 s (omega arith) h).0,
    (set_pins-Keeps env 1 0 1 s (omega arith) h).0,
    (set_pins-Keeps env 1 1 0 s (omega arith) h).0,
    (set_pins-Keeps env 1 1 1 s (omega arith) h).0,
    (set_pins-Keeps env 0 0 0 s (omega arith) h).1,
  )

  hang_up-IsTarget : (s : Target Cpu) → IsTarget s → IsTarget (hang_up env s)
  unfolding hang_up
  hang_up-IsTarget s h = ground arith

  abbrev pub Served : Target Cpu × Wire → Type 0
  Served x = IsTarget x.0

  answered-Keeps :
      (command : ℕ) (s : Target Cpu) (w : Wire)
      → IsTarget s
      → Keeps Served (send_answer env command s w >>= λ w'. done (hang_up env s, w'))
  answered-Keeps command s w h =
      always-Keeps Served (λ w'. (hang_up env s, w')) (send_answer env command s w)
        (λ w'. hang_up-IsTarget s h)

  execute_command-Keeps :
      (s : Target Cpu) (w : Wire) → IsTarget s → Keeps Served (execute_command env s w)
  unfolding execute_command
  execute_command-Keeps s w h =
      step-Keeps Served (read_byte w.reads)
        (λ x. run_command env x.0 s >>= λ t.
          send_answer env x.0 t (record w { reads = x.1 }) >>= λ w'. done (hang_up env t, w'))
        (λ x.
          Keeps->>= IsTarget Served (run_command env x.0 s)
            (λ t.
              send_answer env x.0 t (record w { reads = x.1 }) >>= λ w'. done (hang_up env t, w'))
            (run_command-Keeps x.0 s h) (λ t k. answered-Keeps x.0 t (record w { reads = x.1 }) k))

  accepted-Keeps :
      (s : Target Cpu) (w : Wire)
      → IsTarget s
      → Keeps Served (
          accept_client w.accepts >>= λ (fd, rest).
          done (record s { client_fd = fd }, record w { accepts = rest }))
  accepted-Keeps s w h =
      always-Keeps Served (λ x. (record s { client_fd = x.0 }, record w { accepts = x.1 }))
        (accept_client w.accepts)
        (λ x. record { tdi_bit = h.tdi_bit; scan_fits = h.scan_fits; module_fits = h.module_fits })

  tick-Keeps : (s : Target Cpu) (w : Wire) → IsTarget s → Keeps Served (tick env s w)
  unfolding tick
  tick-Keeps s w h = ground (arith, execute_command-Keeps s w h, accepted-Keeps s w h)

-- The states in which a tick of the main loop begins, if the server is given the processor `cpu`,
-- for any results of the calls on sockets, and any values of the members that have none at first. The
-- wire may change between two ticks: the client works on.
pub data Reachable {Cpu : Type 0} (env : Environment Cpu) (cpu : Cpu) : Target Cpu → Type 0 where
  started :
      {s : Target Cpu} (setup : Setup) (q : TsmState) (tdo : ℕ)
      → construct setup q tdo cpu ≡ done s
      → Reachable env cpu s
  ticked :
      {s t : Target Cpu} (w v : Wire)
      → Reachable env cpu s
      → s.quit ≡ 0
      → tick env s w ≡ done (t, v)
      → Reachable env cpu t

Keeps-done : {A : Type 0} (P : A → Type 0) (m : Outcome A) (a : A) → m ≡ done a → Keeps P m → P a
Keeps-done P m a e k = subst (Keeps P) e k

construct-Keeps :
    {Cpu : Type 0} (setup : Setup) (q : TsmState) (tdo : ℕ) (cpu : Cpu)
    → Keeps IsTarget (construct setup q tdo cpu)
unfolding construct
construct-Keeps setup q tdo cpu =
    step-Keeps IsTarget (opened setup.socket)
      (λ fd.
        if setup.setsockopt_ok
        then (if setup.bind_ok
            then (if setup.listen_ok
                then (if setup.getsockname_ok then done (initial_target q tdo fd cpu) else aborted)
                else aborted)
            else aborted)
        else aborted)
      (λ fd. let h = initial_target-IsTarget q tdo fd cpu in ground (arith, h))

-- Every state that the server reaches is well formed, whatever the client sends and whatever state
-- and `tdo` it starts with: each register between `tdi` and `tdo` fits its width and `tdi` is a bit,
-- the answer in the container fits the scan of 41 bits, the container of `dtmcs` keeps its initial
-- value, there are twelve data registers, and `cmderr` is 0 or 2.
pub Reachable-IsTarget :
    {Cpu : Type 0} (env : Environment Cpu) (cpu : Cpu) (s : Target Cpu)
    → Reachable env cpu s
    → IsTarget s
Reachable-IsTarget env cpu s (started setup q tdo e) =
    Keeps-done IsTarget (construct setup q tdo cpu) s e (construct-Keeps setup q tdo cpu)
Reachable-IsTarget env cpu s (ticked {s = before} w v r running e) =
    Keeps-done (Served env) (tick env before w) (s, v) e
      (tick-Keeps env before w (Reachable-IsTarget env cpu before r))
