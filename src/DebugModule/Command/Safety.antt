-- ===== src/DebugModule/Command/Safety.antt =====
-- Which commands C++ leaves undefined: all others return.
use riscv_openocd_jtag_mock.Prelude.{
  ℕ, ◌≡◌, arith, Outcome, done, undefined, aborted, waiting, ◌>>=◌,
}
use riscv_openocd_jtag_mock.Cpu.{Environment}
use riscv_openocd_jtag_mock.DebugModule.State.{DebugModule}
use riscv_openocd_jtag_mock.DebugModule.Command.{
  access_arguments, increment, next_dmi_data, access_memory, read_arguments, write_command,
  put_cmderr, put_data,
}
use riscv_openocd_jtag_mock.DebugModule.Command.Arguments.{
  command_type, size_field, increment_field, increment_field-mod,
}
use riscv_openocd_jtag_mock.DebugModule.Command.Memory.{read_memory_lem}

-- An access to memory in bytes, with the increment.
pub record IsUndefined (w : ℕ) : Type 0 where
  pub memory_type : command_type w ≡ 2
  pub byte_size : size_field w ≡ 0
  pub increments : increment_field w ≡ 1

-- A call that returns, or that is undefined where `Bad` holds.
abbrev pub Ends : {A : Type 0} → Type 0 → Outcome A → Type 0
Ends Bad (done t) = Unit {0}
Ends Bad undefined = Bad
Ends Bad aborted = ⊥
Ends Bad waiting = ⊥

module _ {Cpu : Type 0} (env : Environment Cpu) where
  access_arguments-Ends : (w : ℕ) (s : DebugModule Cpu) → Ends ⊥ (access_arguments env w s)
  unfolding access_arguments
  access_arguments-Ends w s =
      ground (arith, read_memory_lem env (read_arguments env (size_field w) s))

  abbrev ByteStep : ℕ → Type 0
  ByteStep w = (size_field w ≡ 0) × (increment_field w ≡ 1)

  next_dmi_data-Ends : (w a : ℕ) → Ends (ByteStep w) (next_dmi_data env w a)
  unfolding next_dmi_data increment
  next_dmi_data-Ends w a = ground (arith, increment_field-mod w)

  access_memory-Ends : (w : ℕ) (s : DebugModule Cpu) → Ends (ByteStep w) (access_memory env w s)
  unfolding access_memory
  access_memory-Ends w s = join (access_arguments env w s) (access_arguments-Ends w s)
    where
      finish :
          (t : DebugModule Cpu) (r : Outcome ℕ)
          → Ends (ByteStep w) r
          → Ends (ByteStep w) (r >>= λ v. done (put_data t 1 v))
      finish t (done v) h = tt
      finish t undefined h = h
      finish t aborted h = h
      finish t waiting h = h

      join :
          (r : Outcome (DebugModule Cpu))
          → Ends ⊥ r
          → Ends (ByteStep w) (r >>= λ t. next_dmi_data env w t.arg1 >>= λ v. done (put_data t 1 v))
      join (done t) h = finish t (next_dmi_data env w t.arg1) (next_dmi_data-Ends w t.arg1)
      join undefined h = absurd h
      join aborted h = absurd h
      join waiting h = absurd h

  pub write_command-Ends :
      (w : ℕ) (s : DebugModule Cpu) → Ends (IsUndefined w) (write_command env w s)
  unfolding write_command
  write_command-Ends w s = ground (arith, access_memory-Ends w (put_cmderr s 0))

  -- The converse: such a command is undefined, in every state.
  pub write_command_undefined :
      (w : ℕ) (s : DebugModule Cpu) → IsUndefined w → write_command env w s ≡ undefined
  unfolding write_command access_memory next_dmi_data increment
  write_command_undefined w s h =
      rw (h.memory_type, h.increments, h.byte_size)
        (ground (arith, access_arguments-Ends w (put_cmderr s 0)))
