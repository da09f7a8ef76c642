-- ===== src/DebugModule/Access/Frame.antt =====
-- What a debugger can change of the processor.
use riscv_openocd_jtag_mock.Prelude.{
  ℕ, ◌≡◌, ◌∙◌, refl, ap, arith, Bool, true, false, ◌&&◌, ◌==◌, if◌then◌else◌, ◌≢◌, Keeps, Keeps-map,
}
use riscv_openocd_jtag_mock.Cpu.{Environment}
use riscv_openocd_jtag_mock.Dmi.{get_dmi_address, get_dmi_data, get_dmi_op}
use riscv_openocd_jtag_mock.DebugModule.State.{DebugModule}
use riscv_openocd_jtag_mock.DebugModule.Control.{
  parse_control, answer_control, single_step, write_control, access_control,
}
use riscv_openocd_jtag_mock.DebugModule.Status.{access_status, access_hartinfo}
use riscv_openocd_jtag_mock.DebugModule.Registers.{access_data, access_abstractcs}
use riscv_openocd_jtag_mock.DebugModule.Access.{access_register_at, dmi_request, update_dmi}
use riscv_openocd_jtag_mock.DebugModule.Access.Selection.{resumes, resumereq-parse}
use riscv_openocd_jtag_mock.DebugModule.Command.Frame.{
  Framed, Same, Framed-of, Framed-trans, access_command-Framed,
}

-- A write of `dmcontrol` with `resumereq`.
abbrev pub is_step : ℕ → Bool
is_step r = get_dmi_address r == 0x10 && get_dmi_op r == 2 && resumes (get_dmi_data r) == 1

module _ {Cpu : Type 0} (env : Environment Cpu) where
  -- One instruction has been run, and `dpc` follows.
  pub record Stepped (s t : DebugModule Cpu) : Type 0 where
    pub stepped : t.cpu ≡ env.cpu_step s.cpu
    pub follows : t.dpc ≡ env.pc t.cpu

  access_data-Same : (a d o : ℕ) (s : DebugModule Cpu) → Same env s (access_data a d o s)
  unfolding access_data
  access_data-Same a d o s = ground arith

  answer_control-Same : (a : ℕ) (s : DebugModule Cpu) → Same env s (answer_control env a s)
  unfolding answer_control
  answer_control-Same a s = (refl, refl)

  access_status-Same : (a : ℕ) (s : DebugModule Cpu) → Same env s (access_status a s)
  unfolding access_status
  access_status-Same a s = ground arith

  access_hartinfo-Same : (a o : ℕ) (s : DebugModule Cpu) → Same env s (access_hartinfo a o s)
  unfolding access_hartinfo
  access_hartinfo-Same a o s = ground arith

  access_abstractcs-Same : (a o : ℕ) (s : DebugModule Cpu) → Same env s (access_abstractcs a o s)
  unfolding access_abstractcs
  access_abstractcs-Same a o s = ground arith

  write_control-cpu :
      (a d : ℕ) (s : DebugModule Cpu)
      → let t = single_step env (record s { control = parse_control d }) in
        ((write_control env a d s).cpu ≡ t.cpu) × ((write_control env a d s).dpc ≡ t.dpc)
  unfolding write_control answer_control
  write_control-cpu a d s = ground arith

  single_step-cpu :
      (d : ℕ) (s : DebugModule Cpu)
      → let t = single_step env (record s { control = parse_control d }) in
        (t.cpu ≡ (if resumes d == 1 then env.cpu_step s.cpu else s.cpu))
        × (t.dpc ≡ (if resumes d == 1 then env.pc (env.cpu_step s.cpu) else s.dpc))
  unfolding single_step
  single_step-cpu d s = rw (resumereq-parse d) (ground arith)

  dmi_request-Same : (w : ℕ) (s : DebugModule Cpu) → Same env s (dmi_request w s)
  unfolding dmi_request
  dmi_request-Same w s = ground arith

  -- Taking the request in changes nothing of that.
  from_request :
      (step : Bool) (s t u : DebugModule Cpu)
      → Same env s t
      → (if step then Stepped t u else Framed env t u)
      → (if step then Stepped s u else Framed env s u)
  from_request true s t u h k = record {
    stepped = k.stepped ∙ ap env.cpu_step h.0;
    follows = k.follows;
  }
  from_request false s t u h k = Framed-trans env s t u (Framed-of env s t h) k

  access_control-Effect :
      (a d o : ℕ) (s : DebugModule Cpu)
      → let t = access_control env a d o s in
        if o == 2 && resumes d == 1 then Stepped s t else Framed env s t
  unfolding access_control
  access_control-Effect a d o s =
      let t = write_control env a d s in
      let moved = write_control-cpu a d s in
      let by = single_step-cpu d s in
      let same = Framed-of env s (answer_control env a s) (answer_control-Same a s) in
      let idle = Framed-of env s s (refl, refl) in
      let still : resumes d ≢ 1 → Framed env s t =
        λ h. Framed-of env s t (ground (arith, moved, by)) in
      let steps : resumes d ≡ 1 → Stepped s t =
        λ h. record { stepped = ground (arith, moved, by); follows = ground (arith, moved, by) } in
      ground (arith, same, idle, still, steps)

  access_register_at-Effect :
      (a d o : ℕ) (s : DebugModule Cpu)
      → Keeps
          (λ t. if a == 0x10 && o == 2 && resumes d == 1 then Stepped s t else Framed env s t)
          (access_register_at env a d o s)
  unfolding access_register_at
  access_register_at-Effect a d o s = ground (
    arith,
    Framed-of env s (access_data a d o s) (access_data-Same a d o s),
    access_control-Effect a d o s,
    Framed-of env s (access_status a s) (access_status-Same a s),
    Framed-of env s (access_hartinfo a o s) (access_hartinfo-Same a o s),
    Framed-of env s (access_abstractcs a o s) (access_abstractcs-Same a o s),
    access_command-Framed env d o s,
    Framed-of env s s (refl, refl),
  )

  -- A request to the debug module, if it returns, does one of two things to the processor. A write of
  -- `dmcontrol` with `resumereq` runs one instruction, and `dpc` is then the program counter. Every
  -- other request leaves the memory, the registers and the program counter of the processor and
  -- `dpc` as they were, also a command that writes a register or the memory. Which request that is,
  -- is told by the word that stands in the container.
  pub update_dmi-frame :
      (w : ℕ) (s : DebugModule Cpu)
      → Keeps
          (λ t.
            if is_step (dmi_request w s).dmi_container_register
            then Stepped s t
            else Framed env s t)
          (update_dmi env w s)
  unfolding update_dmi
  update_dmi-frame w s =
      let t = dmi_request w s in
      let r = t.dmi_container_register in
      let d = get_dmi_data r in
      let step = is_step r in
      Keeps-map (λ u. if step then Stepped t u else Framed env t u)
        (λ u. if step then Stepped s u else Framed env s u) (update_dmi env w s)
        (λ u h. from_request step s t u (dmi_request-Same w s) h)
        (access_register_at-Effect (get_dmi_address r) d (get_dmi_op r) t)
