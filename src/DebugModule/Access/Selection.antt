-- ===== src/DebugModule/Access/Selection.antt =====
-- `dmcontrol` as the debugger sees it.
use riscv_openocd_jtag_mock.Prelude.{
  ℕ, ◌+◌, ◌*◌, ◌/◌, ◌%◌, ◌^◌, ◌<◌, ◌≡◌, refl, sym, ◌∙◌, ap, arith, ◌==◌, if◌then◌else◌, done, ◌>>=◌,
}
use riscv_openocd_jtag_mock.Cpu.{Environment}
use riscv_openocd_jtag_mock.Dmi.{pack_dmi}
use riscv_openocd_jtag_mock.DebugModule.State.{DmControl, DebugModule}
use riscv_openocd_jtag_mock.DebugModule.Control.{
  debug_module_control, parse_control, answer_control, write_control, access_control,
}
use riscv_openocd_jtag_mock.DebugModule.Control.Fields.{
  IsControl, control_digits, parse_control-IsControl, parse_control-digits,
  debug_module_control-digits, digits_of_word,
}
use riscv_openocd_jtag_mock.DebugModule.Access.{access_register_at, update_dmi}
use riscv_openocd_jtag_mock.DebugModule.Access.Requests.{requested, update_dmi-pack_dmi}

-- What a write of `w` leaves to be read: with `hasel`, bit 26, the hart selection in bits 6 to 25 is
-- cleared and bit 0, `dmactive`, is set.
abbrev pub readback : ℕ → ℕ
readback w = if w / 2 ^ 26 % 2 == 0 then w else w / 2 ^ 26 * 2 ^ 26 + w % 2 ^ 6 / 2 * 2 + 1

-- Bit 30.
abbrev pub resumes : ℕ → ℕ
resumes w = w / 2 ^ 30 % 2

cleared : DmControl → DmControl
cleared c = record c { dmactive = 1; hartsello = 0; hartselhi = 0 }

control_digits-parse : (w : ℕ) → w < 2 ^ 32 → control_digits (parse_control w) ≡ w
control_digits-parse w h = omega (arith, digits_of_word w)

cleared-word :
    (w : ℕ)
    → w < 2 ^ 32
    → debug_module_control (cleared (parse_control w)) ≡ w / 2 ^ 26 * 2 ^ 26 + w % 2 ^ 6 / 2 * 2 + 1
unfolding cleared
cleared-word w h =
    let c = parse_control w in
    let fits : IsControl (cleared c) = omega (arith, parse_control-IsControl w) in
    debug_module_control-digits (cleared c) fits
    ∙ omega (arith, control_digits-parse w h, parse_control-IsControl w)

kept-word : (w : ℕ) → w < 2 ^ 32 → debug_module_control (parse_control w) ≡ w
kept-word w h =
    debug_module_control-digits (parse_control w) (parse_control-IsControl w)
    ∙ control_digits-parse w h

active_kept :
    (c : DmControl)
    → c.dmactive ≡ 1
    → debug_module_control (record c { dmactive = 1 }) ≡ debug_module_control c
active_kept c e = λ i. debug_module_control (record c { dmactive = sym e i })

pub resumereq-parse : (w : ℕ) → (parse_control w).resumereq ≡ resumes w
resumereq-parse w = ap (λ c. c.resumereq) (parse_control-digits w)

hasel-parse : (w : ℕ) → (parse_control w).hasel ≡ w / 2 ^ 26 % 2
hasel-parse w = ap (λ c. c.hasel) (parse_control-digits w)

module _ {Cpu : Type 0} (env : Environment Cpu) where
  -- What a write does to the variables, the processor and `dpc`, whatever its branch.
  pub record Written (w : ℕ) (s t : DebugModule Cpu) : Type 0 where
    pub reads_back : debug_module_control t.control ≡ readback w
    pub steps : t.cpu ≡ (if resumes w == 1 then env.cpu_step s.cpu else s.cpu)
    pub follows : t.dpc ≡ (if resumes w == 1 then env.pc (env.cpu_step s.cpu) else s.dpc)
    pub keeps_data : t.abstract_data ≡ s.abstract_data
    pub keeps_abstractcs : t.abstractcs ≡ s.abstractcs

  pub write_control-Written :
      (a w : ℕ) (s : DebugModule Cpu) → w < 2 ^ 32 → Written w s (write_control env a w s)
  unfolding write_control cleared
  write_control-Written a w s h =
      let c = parse_control w in
      ground (
        arith,
        kept-word w h,
        cleared-word w h,
        active_kept c,
        resumereq-parse w,
        hasel-parse w,
        parse_control-IsControl w,
      )

  access_control_at :
      (d o : ℕ) (s : DebugModule Cpu)
      → access_register_at env 0x10 d o s ≡ done (access_control env 0x10 d o s)
  unfolding access_register_at
  access_control_at d o s = refl

  pub write_control_request :
      (w : ℕ) (s : DebugModule Cpu)
      → w < 2 ^ 32
      → update_dmi env (pack_dmi 0x10 w 2) s
        ≡ done (write_control env 0x10 w (requested 0x10 w 2 s))
  unfolding access_control
  write_control_request w s h =
      update_dmi-pack_dmi env 0x10 w 2 s (omega arith) h (omega arith) (omega arith)
      ∙ access_control_at w 2 (requested 0x10 w 2 s)

  pub read_control_request :
      (s : DebugModule Cpu)
      → update_dmi env (pack_dmi 0x10 0 1) s
        ≡ done (requested 0x10 (debug_module_control s.control) 0 s)
  unfolding access_control answer_control
  read_control_request s =
      update_dmi-pack_dmi env 0x10 0 1 s (omega arith) (omega arith) (omega arith) (omega arith)
      ∙ access_control_at 0 1 (requested 0x10 0 1 s)

  -- A write of `dmcontrol` and then a read of it: both return. The read answers the word written,
  -- but that with `hasel` the selection of harts is 0 and `dmactive` 1. The processor has run one instruction if
  -- `resumereq` was set, and `dpc` then is its program counter; otherwise neither has changed. The
  -- data registers are untouched.
  pub control_write_read :
      (w : ℕ) (s : DebugModule Cpu)
      → w < 2 ^ 32
      → (t : DebugModule Cpu) × ((update_dmi env (pack_dmi 0x10 w 2) s
            >>= update_dmi env (pack_dmi 0x10 0 1))
          ≡ done t)
        × (t.dmi_container_register ≡ pack_dmi 0x10 (readback w) 0)
        × (t.cpu ≡ (if resumes w == 1 then env.cpu_step s.cpu else s.cpu))
        × (t.dpc ≡ (if resumes w == 1 then env.pc (env.cpu_step s.cpu) else s.dpc))
        × (t.abstract_data ≡ s.abstract_data)
        × (t.abstractcs ≡ s.abstractcs)
  control_write_read w s h =
      let t = write_control env 0x10 w (requested 0x10 w 2 s) in
      let f = write_control-Written 0x10 w (requested 0x10 w 2 s) h in
      (
        requested 0x10 (debug_module_control t.control) 0 t,
        rw (write_control_request w s h) (read_control_request t),
        ap (λ x. pack_dmi 0x10 x 0) f.reads_back,
        f.steps,
        f.follows,
        f.keeps_data,
        f.keeps_abstractcs,
      )
