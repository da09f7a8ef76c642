-- ===== src/Server/Processor.antt =====
-- What holds of the debug module and its processor while the server runs: the properties that each
-- request keeps.
use riscv_openocd_jtag_mock.Prelude.{
  ℕ, ◌≡◌, ◌⊎◌, inl, inr, ◌∙◌, sym, refl, subst, arith, Bool, true, false, Keeps, Keeps-map,
  Keeps->>=, step-Keeps, always-Keeps, done, ◌>>=◌, if◌then◌else◌,
}
use riscv_openocd_jtag_mock.Tap.{
  TsmState, test_logic_reset, capture_dr, shift_dr, shift_ir, update_dr, tap_step,
}
use riscv_openocd_jtag_mock.Cpu.{Environment}
use riscv_openocd_jtag_mock.DebugModule.{DebugModule}
use riscv_openocd_jtag_mock.DebugModule.Access.{dmi_request, update_dmi}
use riscv_openocd_jtag_mock.DebugModule.Access.Frame.{is_step, Stepped, update_dmi-frame}
use riscv_openocd_jtag_mock.DebugModule.Command.Memory.{memory}
use riscv_openocd_jtag_mock.DebugModule.Command.Frame.{Framed}
use riscv_openocd_jtag_mock.Target.{
  Target, Setup, construct, initial_target, initial_module, opened,
}
use riscv_openocd_jtag_mock.Port.{
  set_pins, reset, transition, state_entered, enter_capture_dr, enter_update_dr, falling_edge,
  shift_data, shift_instruction,
}
use riscv_openocd_jtag_mock.Server.{
  Wire, run_command, send_answer, hang_up, execute_command, tick, accept_client, read_byte,
}
use riscv_openocd_jtag_mock.Server.Invariant.{Reachable, started, ticked}

module _ {Cpu : Type 0} (env : Environment Cpu) (P : DebugModule Cpu → Type 0)
    (kept : (w : ℕ) (m : DebugModule Cpu) → P m → Keeps P (update_dmi env w m)) where
  enter_update_dr-dm : (s : Target Cpu) → P s.dm → Keeps (λ t. P t.dm) (enter_update_dr env s)
  unfolding enter_update_dr
  enter_update_dr-dm s h =
      let put : Keeps (λ (t : Target Cpu). P t.dm)
          (update_dmi env s.scan.dmi_shift_register s.dm >>= λ dm. done (record s { dm = dm })) =
        Keeps->>= P (λ (t : Target Cpu). P t.dm) (update_dmi env s.scan.dmi_shift_register s.dm)
          (λ dm. done (record s { dm = dm })) (kept s.scan.dmi_shift_register s.dm h) (λ m k. k) in
      ground (arith, put, h)

  state_entered-dm :
      (q : TsmState) (s : Target Cpu) → P s.dm → Keeps (λ t. P t.dm) (state_entered env q s)
  unfolding state_entered enter_capture_dr
  state_entered-dm update_dr s h = enter_update_dr-dm s h
  state_entered-dm capture_dr s h = ground (arith, h)
  state_entered-dm _ s h = h

  falling_edge-dm : (q : TsmState) (s : Target Cpu) → (falling_edge q s).dm ≡ s.dm
  unfolding falling_edge shift_data shift_instruction
  falling_edge-dm shift_dr s = ground arith
  falling_edge-dm shift_ir s = refl
  falling_edge-dm _ s = refl

  set_pins-dm :
      (tck tms tdi : ℕ) (s : Target Cpu) → P s.dm → Keeps (λ t. P t.dm) (set_pins env tck tms tdi s)
  unfolding set_pins transition
  set_pins-dm tck tms tdi s h =
      let t = record s { pins = record s.pins { tck = tck; tms = tms; tdi = tdi } } in
      let q = tap_step t.tsm_current_state tms tck in
      let fallen = subst P (sym (falling_edge-dm t.tsm_current_state t)) h in
      ground (arith, fallen, state_entered-dm q (record t { tsm_current_state = q }) h)

  run_command-dm :
      (command : ℕ) (s : Target Cpu) → P s.dm → Keeps (λ t. P t.dm) (run_command env command s)
  unfolding run_command reset
  run_command-dm command s h = ground (
    arith,
    h,
    set_pins-dm 0 0 0 s h,
    set_pins-dm 0 0 1 s h,
    set_pins-dm 0 1 0 s h,
    set_pins-dm 0 1 1 s h,
    set_pins-dm 1 0 0 s h,
    set_pins-dm 1 0 1 s h,
    set_pins-dm 1 1 0 s h,
    set_pins-dm 1 1 1 s h,
    state_entered-dm test_logic_reset (record s { tsm_current_state = test_logic_reset }) h,
  )

  hang_up-dm : (s : Target Cpu) → P s.dm → P (hang_up env s).dm
  unfolding hang_up
  hang_up-dm s h = ground (arith, h)

  abbrev Holds : Target Cpu × Wire → Type 0
  Holds x = P x.0.dm

  execute_command-dm : (s : Target Cpu) (w : Wire) → P s.dm → Keeps Holds (execute_command env s w)
  unfolding execute_command
  execute_command-dm s w h =
      step-Keeps Holds (read_byte w.reads)
        (λ x. run_command env x.0 s >>= λ t.
          send_answer env x.0 t (record w { reads = x.1 }) >>= λ w'. done (hang_up env t, w'))
        (λ x.
          Keeps->>= (λ t. P t.dm) Holds (run_command env x.0 s)
            (λ t.
              send_answer env x.0 t (record w { reads = x.1 }) >>= λ w'. done (hang_up env t, w'))
            (run_command-dm x.0 s h)
            (λ t k.
              always-Keeps Holds (λ w'. (hang_up env t, w'))
                (send_answer env x.0 t (record w { reads = x.1 })) (λ w'. hang_up-dm t k)))

  tick-dm : (s : Target Cpu) (w : Wire) → P s.dm → Keeps Holds (tick env s w)
  unfolding tick
  tick-dm s w h =
      let accepted =
        always-Keeps Holds (λ x. (record s { client_fd = x.0 }, record w { accepts = x.1 }))
          (accept_client w.accepts) (λ x. h) in
      ground (arith, execute_command-dm s w h, accepted)

  construct-dm :
      (setup : Setup) (q : TsmState) (tdo : ℕ) (cpu : Cpu) (s : Target Cpu)
      → construct setup q tdo cpu ≡ done s
      → s.dm ≡ initial_module cpu
  unfolding construct opened initial_target
  construct-dm setup q tdo cpu s e = ground arith

  -- A property of the debug module that holds at first and that each request keeps, if it returns,
  -- holds in every state that the server reaches.
  pub Reachable-module :
      (cpu : Cpu) → P (initial_module cpu) → (s : Target Cpu) → Reachable env cpu s → P s.dm
  Reachable-module cpu first s (started setup q tdo e) =
      subst P (sym (construct-dm setup q tdo cpu s e)) first
  Reachable-module cpu first s (ticked {s = before} w v r running e) =
      subst (Keeps Holds) e (tick-dm before w (Reachable-module cpu first before r))

module _ {Cpu : Type 0} (env : Environment Cpu) (cpu : Cpu) where
  -- The processor shows what it showed at the start.
  pub record IsUnmoved (c : Cpu) : Type 0 where
    pub same_memory : (a : ℕ) → memory env c a ≡ memory env cpu a
    pub same_registers : (i : ℕ) → env.reg c i ≡ env.reg cpu i
    pub same_pc : env.pc c ≡ env.pc cpu

  -- `dpc` is the program counter, or still its first value.
  abbrev Tells : DebugModule Cpu → Type 0
  Tells m = ((m.dpc ≡ 0x40000000) × IsUnmoved m.cpu) ⊎ (m.dpc ≡ env.pc m.cpu)

  Framed-Tells : (m n : DebugModule Cpu) → Framed env m n → Tells m → Tells n
  Framed-Tells m n f (inl (e, u)) = inl (
    f.same_dpc ∙ e,
    record {
      same_memory = λ a. f.same_memory a ∙ u.same_memory a;
      same_registers = λ i. f.same_registers i ∙ u.same_registers i;
      same_pc = f.same_pc ∙ u.same_pc;
    },
  )
  Framed-Tells m n f (inr e) = inr (f.same_dpc ∙ e ∙ sym f.same_pc)

  update_dmi-Tells : (w : ℕ) (m : DebugModule Cpu) → Tells m → Keeps Tells (update_dmi env w m)
  update_dmi-Tells w m h =
      let step = is_step (dmi_request w m).dmi_container_register in
      Keeps-map (λ n. if step then Stepped env m n else Framed env m n) Tells (update_dmi env w m)
        (λ n k. told step n k) (update_dmi-frame env w m)
    where
      told :
          (step : Bool) (n : DebugModule Cpu)
          → (if step then Stepped env m n else Framed env m n)
          → Tells n
      told true n k = inr k.follows
      told false n k = Framed-Tells m n k h

  -- In every state that the server reaches, `dpc` is the program counter of the processor, or the
  -- processor has not moved: then `dpc` is 0x40000000, its first value, wherever the program was
  -- loaded, and the memory, the registers and the program counter are those of the processor that
  -- the server was given.
  pub Reachable-dpc :
      (s : Target Cpu)
      → Reachable env cpu s
      → ((s.dm.dpc ≡ 0x40000000) × IsUnmoved s.dm.cpu) ⊎ (s.dm.dpc ≡ env.pc s.dm.cpu)
  unfolding initial_module
  Reachable-dpc s r =
      let still : IsUnmoved cpu = record {
        same_memory = λ a. refl;
        same_registers = λ i. refl;
        same_pc = refl;
      } in
      Reachable-module env Tells update_dmi-Tells cpu (inl (refl, still)) s r
