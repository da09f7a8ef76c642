-- ===== src/DebugModule/Access/Execution.antt =====
-- Abstract commands as the debugger sees them: it writes `command`, then reads `data0` and
-- `abstractcs`.
use riscv_openocd_jtag_mock.Prelude.{
  ℕ, ◌*◌, ◌^◌, ◌<◌, ◌≡◌, refl, ◌∙◌, ap, arith, ◌==◌, if◌then◌else◌, done, ◌>>=◌, length,
  get_or-set_self,
}
use riscv_openocd_jtag_mock.Cpu.{Environment}
use riscv_openocd_jtag_mock.Dmi.{pack_dmi}
use riscv_openocd_jtag_mock.DebugModule.State.{DebugModule}
use riscv_openocd_jtag_mock.DebugModule.Control.{write_control}
use riscv_openocd_jtag_mock.DebugModule.Registers.{abstractcs_word, access_abstractcs}
use riscv_openocd_jtag_mock.DebugModule.Command.{data_at, write_command, access_command}
use riscv_openocd_jtag_mock.DebugModule.Command.Arguments.{command_type, size_field, write_field}
use riscv_openocd_jtag_mock.DebugModule.Command.Registers.{
  register_number, register_value, register_read, error_of, write_command_register,
}
use riscv_openocd_jtag_mock.DebugModule.Access.{access_register_at, update_dmi}
use riscv_openocd_jtag_mock.DebugModule.Access.Requests.{requested, update_dmi-pack_dmi}
use riscv_openocd_jtag_mock.DebugModule.Access.Storage.{read_data}
use riscv_openocd_jtag_mock.DebugModule.Access.Selection.{
  resumes, write_control-Written, write_control_request,
}
use riscv_openocd_jtag_mock.DebugModule.Invariant.{IsModule}

module _ {Cpu : Type 0} (env : Environment Cpu) where
  write_command_at :
      (w : ℕ) (s : DebugModule Cpu) → access_register_at env 0x17 w 2 s ≡ write_command env w s
  unfolding access_register_at access_command
  write_command_at w s = refl

  access_abstractcs_at :
      (d o : ℕ) (s : DebugModule Cpu)
      → access_register_at env 0x16 d o s ≡ done (access_abstractcs 0x16 o s)
  unfolding access_register_at
  access_abstractcs_at d o s = refl

  -- The module after the request to write an "access register" command.
  abbrev pub commanded : ℕ → DebugModule Cpu → DebugModule Cpu
  commanded w s =
      register_read env (register_number w) (write_field w) (size_field w) (requested 0x17 w 2 s)

  pub command_request :
      (w : ℕ) (s : DebugModule Cpu)
      → w < 2 ^ 32
      → command_type w ≡ 0
      → update_dmi env (pack_dmi 0x17 w 2) s ≡ done (commanded w s)
  command_request w s small type =
      update_dmi-pack_dmi env 0x17 w 2 s (omega arith) small (omega arith) (omega arith)
      ∙ write_command_at w (requested 0x17 w 2 s)
      ∙ write_command_register env w (requested 0x17 w 2 s) type

  -- What a debugger finds in `data0` behind the command.
  abbrev pub register_answer : ℕ → DebugModule Cpu → ℕ
  register_answer w s =
      if write_field w == 0 then register_value env (register_number w) s else data_at s 0

  pub commanded-data :
      (w : ℕ) (s : DebugModule Cpu)
      → length s.abstract_data ≡ 12
      → data_at (commanded w s) 0 ≡ register_answer w s
  commanded-data w s twelve =
      ground (arith, get_or-set_self s.abstract_data 0 (register_value env (register_number w) s) 0)

  -- An "access register" command and then a read of `data0`: both return. For a register read the
  -- answer holds the low 32 bits of the register that the command names: a register of the
  -- processor for 0x1000 to 0x101f, the constant `misa`, or `dpc`. For another register, and for a
  -- register write, the answer is what `data0` held before. This holds for every size, also for those
  -- that are refused in `cmderr`. The processor, `dpc` and `dmcontrol` stay as they were.
  pub register_command_read :
      (w : ℕ) (s : DebugModule Cpu)
      → w < 2 ^ 32
      → command_type w ≡ 0
      → length s.abstract_data ≡ 12
      → (t : DebugModule Cpu) × ((update_dmi env (pack_dmi 0x17 w 2) s
            >>= update_dmi env (pack_dmi 0x04 0 1))
          ≡ done t)
        × (t.dmi_container_register ≡ pack_dmi 0x04 (register_answer w s) 0)
        × (t.cpu ≡ s.cpu)
        × (t.dpc ≡ s.dpc)
        × (t.control ≡ s.control)
  register_command_read w s small type twelve = (
    requested 0x04 (data_at (commanded w s) 0) 0 (commanded w s),
    rw (command_request w s small type) (read_data env 0 (commanded w s) (omega arith)),
    ap (λ x. pack_dmi 0x04 x 0) (commanded-data w s twelve),
    refl,
    refl,
    refl,
  )

  read_abstractcs :
      (s : DebugModule Cpu)
      → update_dmi env (pack_dmi 0x16 0 1) s
        ≡ done (requested 0x16 (abstractcs_word s.abstractcs) 0 s)
  unfolding access_abstractcs
  read_abstractcs s =
      update_dmi-pack_dmi env 0x16 0 1 s (omega arith) (omega arith) (omega arith) (omega arith)
      ∙ access_abstractcs_at 0 1 (requested 0x16 0 1 s)

  -- Of the word of `abstractcs` only `cmderr`, bits 8 to 10, can be set.
  error_word :
      (size : ℕ) (s : DebugModule Cpu)
      → IsModule s
      → abstractcs_word (record s.abstractcs { cmderr = error_of size }) ≡ error_of size * 2 ^ 8
  unfolding abstractcs_word
  error_word size s h = rw (h.no_progbuf, h.not_busy, h.not_relaxed, h.no_datacount) (ground arith)

  -- An "access register" command and then a read of `abstractcs`: both return. The answer is the
  -- error code of this command alone, in bits 8 to 10: 2 ("not supported") for the sizes 3 and 4, of
  -- 64 and 128 bits, and 0 for each other size, whatever the error code was before. The other fields
  -- read as 0, also the number of data registers.
  pub register_command_error :
      (w : ℕ) (s : DebugModule Cpu)
      → w < 2 ^ 32
      → command_type w ≡ 0
      → IsModule s
      → (t : DebugModule Cpu) × ((update_dmi env (pack_dmi 0x17 w 2) s
            >>= update_dmi env (pack_dmi 0x16 0 1))
          ≡ done t)
        × (t.dmi_container_register ≡ pack_dmi 0x16 (error_of (size_field w) * 2 ^ 8) 0)
  register_command_error w s small type h = (
    requested 0x16 (abstractcs_word (commanded w s).abstractcs) 0 (commanded w s),
    rw (command_request w s small type) (read_abstractcs (commanded w s)),
    ap (λ x. pack_dmi 0x16 x 0) (error_word (size_field w) s h),
  )

  -- A single step and then a look at `dpc`, as a debugger does them: a write of `dmcontrol` with
  -- `resumereq`, a command that reads register 0x7b1, and a read of `data0`. All three return, the
  -- processor has run one instruction, and the answer is its program counter behind it.
  pub single_step_observed :
      (v w : ℕ) (s : DebugModule Cpu)
      → v < 2 ^ 32
      → w < 2 ^ 32
      → resumes v ≡ 1
      → command_type w ≡ 0
      → write_field w ≡ 0
      → register_number w ≡ 0x7b1
      → length s.abstract_data ≡ 12
      → (t : DebugModule Cpu) × ((update_dmi env (pack_dmi 0x10 v 2) s
            >>= update_dmi env (pack_dmi 0x17 w 2)
            >>= update_dmi env (pack_dmi 0x04 0 1))
          ≡ done t)
        × (t.dmi_container_register ≡ pack_dmi 0x04 (env.pc (env.cpu_step s.cpu)) 0)
        × (t.cpu ≡ env.cpu_step s.cpu)
  single_step_observed v w s hv hw step type read number twelve =
      let u = write_control env 0x10 v (requested 0x10 v 2 s) in
      let f = write_control-Written env 0x10 v (requested 0x10 v 2 s) hv in
      let long : length u.abstract_data ≡ 12 = ap (λ xs. length xs) f.keeps_data ∙ twelve in
      let (t, runs, answer, same, _, _) = register_command_read w u hw type long in
      (
        t,
        rw (write_control_request env v s hv) runs,
        answer ∙ rw (read, number) (ap (λ x. pack_dmi 0x04 x 0) (f.follows ∙ rw step)),
        same ∙ f.steps ∙ rw step,
      )
