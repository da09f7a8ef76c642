-- ===== src/DebugModule/Access/Answer.antt =====
-- What stands in the container behind a request: the answer, or still the request.
use riscv_openocd_jtag_mock.Prelude.{
  ℕ, ◌≡◌, ◌^◌, ◌<◌, ◌≤◌, ◌-◌, arith, Bool, false, ◌&&◌, ◌||◌, ◌==◌, leb, if◌then◌else◌, get_or,
  Keeps, Keeps-map, Keeps->>=, always-Keeps, done, ◌>>=◌,
}
use riscv_openocd_jtag_mock.Word.{shr, ◌&&&◌}
use riscv_openocd_jtag_mock.Cpu.{Environment}
use riscv_openocd_jtag_mock.Dmi.{pack_dmi}
use riscv_openocd_jtag_mock.DebugModule.State.{DebugModule}
use riscv_openocd_jtag_mock.DebugModule.Control.{
  parse_control, debug_module_control, answer_control, single_step, write_control, access_control,
}
use riscv_openocd_jtag_mock.DebugModule.Status.{debug_module_status, access_status, access_hartinfo}
use riscv_openocd_jtag_mock.DebugModule.Registers.{abstractcs_word, access_data, access_abstractcs}
use riscv_openocd_jtag_mock.DebugModule.Command.{
  put_data, put_cmderr, check_aarsize, read_command, access_register, write_arguments,
  read_arguments, read_memory, access_arguments, next_dmi_data, access_memory, write_command,
  access_command,
}
use riscv_openocd_jtag_mock.DebugModule.Command.Arguments.{size_field}
use riscv_openocd_jtag_mock.DebugModule.Command.Memory.{read_memory_lem}
use riscv_openocd_jtag_mock.DebugModule.Access.{access_register_at, update_dmi}
use riscv_openocd_jtag_mock.DebugModule.Access.Requests.{requested, update_dmi-pack_dmi}

-- The requests that are answered: every one to `dmstatus`, reads of the data registers, `dmcontrol`,
-- `hartinfo` and `abstractcs`, and writes of `dmcontrol` with `hasel` or `dmactive`.
abbrev pub is_answered : ℕ → ℕ → ℕ → Bool
is_answered a d o =
    let c = parse_control d in
    a == 0x11
    || (o == 1 && ((leb 0x04 a && leb a 0x0f) || a == 0x10 || a == 0x12 || a == 0x16))
    || (o == 2 && a == 0x10 && (c.hasel == 1 || (c.hasel == 0 && c.dmactive == 1)))

module _ {Cpu : Type 0} (env : Environment Cpu) where
  abbrev Pending : DebugModule Cpu → DebugModule Cpu → Type 0
  Pending s t = t.dmi_container_register ≡ s.dmi_container_register

  access_register-Pending : (c : ℕ) (s : DebugModule Cpu) → Pending s (access_register env c s)
  unfolding access_register check_aarsize
  access_register-Pending c s = ground arith

  read_command-Pending : (d : ℕ) (s : DebugModule Cpu) → Pending s (read_command env d s)
  unfolding read_command
  read_command-Pending d s = ground arith

  read_memory-Pending :
      (n : ℕ) (s : DebugModule Cpu) → Keeps (Pending s) (read_memory env (read_arguments env n s))
  unfolding read_arguments
  read_memory-Pending n s = rw (read_memory_lem env (read_arguments env n s)) (ground arith)

  access_arguments-Pending :
      (d : ℕ) (s : DebugModule Cpu) → Keeps (Pending s) (access_arguments env d s)
  unfolding access_arguments write_arguments
  access_arguments-Pending d s = ground (arith, read_memory-Pending (size_field d) s)

  access_memory-Pending : (d : ℕ) (s : DebugModule Cpu) → Keeps (Pending s) (access_memory env d s)
  unfolding access_memory
  access_memory-Pending d s =
      Keeps->>= (Pending s) (Pending s) (access_arguments env d s)
        (λ t. next_dmi_data env d t.arg1 >>= λ v. done (put_data t 1 v))
        (access_arguments-Pending d s)
        (λ t k. always-Keeps (Pending s) (put_data t 1) (next_dmi_data env d t.arg1) (λ v. k))

  access_command-Pending :
      (d o : ℕ) (s : DebugModule Cpu) → Keeps (Pending s) (access_command env d o s)
  unfolding access_command write_command
  access_command-Pending d o s = ground (
    arith,
    read_command-Pending d s,
    access_register-Pending (shr d 0 &&& 0xFFFFFF) (put_cmderr s 0),
    access_memory-Pending d (put_cmderr s 0),
  )

  -- The word of an answer.
  abbrev pub Answered : ℕ → ℕ → ℕ → DebugModule Cpu → DebugModule Cpu → Type 0
  Answered a d o s t =
      (v : ℕ) × (t.dmi_container_register
        ≡ (if is_answered a d o then pack_dmi a v 0 else s.dmi_container_register))

  access_data-Answered :
      (a d o : ℕ) (s : DebugModule Cpu) → 4 ≤ a → a ≤ 15 → Answered a d o s (access_data a d o s)
  unfolding access_data
  access_data-Answered a d o s low high = (get_or s.abstract_data (a - 4) 0, ground arith)

  access_control-Answered :
      (a d o : ℕ) (s : DebugModule Cpu) → a ≡ 0x10 → Answered a d o s (access_control env a d o s)
  unfolding access_control write_control answer_control single_step
  access_control-Answered a d o s h =
      (debug_module_control (access_control env a d o s).control, ground arith)

  fixed_answers :
      (a d o : ℕ) (s : DebugModule Cpu)
      → (a ≡ 0x11 → Answered a d o s (access_status a s))
        × (a ≡ 0x12 → Answered a d o s (access_hartinfo a o s))
        × (a ≡ 0x16 → Answered a d o s (access_abstractcs a o s))
  unfolding access_status access_hartinfo access_abstractcs
  fixed_answers a d o s = (
    λ h. (debug_module_status, ground arith),
    λ h. (0, ground arith),
    λ h. (abstractcs_word s.abstractcs, ground arith),
  )

  access_command-Answered :
      (a d o : ℕ) (s : DebugModule Cpu)
      → a ≡ 0x17
      → Keeps (Answered a d o s) (access_command env d o s)
  access_command-Answered a d o s e =
      Keeps-map (Pending s) (Answered a d o s) (access_command env d o s) (λ t h. (0, ground arith))
        (access_command-Pending d o s)

  pub access_register_at-Answered :
      (a d o : ℕ) (s : DebugModule Cpu) → Keeps (Answered a d o s) (access_register_at env a d o s)
  unfolding access_register_at
  access_register_at-Answered a d o s =
      let fixed = fixed_answers a d o s in
      let unserved : is_answered a d o ≡ false → Answered a d o s s = λ e. (0, rw e) in
      ground (
        arith,
        access_data-Answered a d o s,
        access_control-Answered a d o s,
        fixed,
        access_command-Answered a d o s,
        unserved,
      )

  -- A request that is answered leaves a word at its address with the operation 0, which OpenOCD
  -- takes for a success. One that is not answered leaves itself in the container, with its own
  -- operation: that is so for every write of a data register, for all of `command`, for an address
  -- that the debug module does not have, and for the operation 3. The request is any with an
  -- address of 7 bits, a word of 32 bits and an operation that is not 0, and the condition is that
  -- it returns.
  pub answer_stands :
      (a d o : ℕ) (s : DebugModule Cpu)
      → a < 128
      → d < 2 ^ 32
      → o < 4
      → 0 < o
      → Keeps
          (λ t.
            (v : ℕ) × (t.dmi_container_register
              ≡ (if is_answered a d o then pack_dmi a v 0 else pack_dmi a d o)))
          (update_dmi env (pack_dmi a d o) s)
  answer_stands a d o s ha hd ho pos =
      rw (update_dmi-pack_dmi env a d o s ha hd ho pos)
        (access_register_at-Answered a d o (requested a d o s))
