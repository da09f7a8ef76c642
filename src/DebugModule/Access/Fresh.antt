-- ===== src/DebugModule/Access/Fresh.antt =====
-- Where the content of a new array shows. C++ gives the elements of `new uint32_t[16384]` no value, and
-- to read one is undefined: the model takes the field `fresh` of `Environment` for it, and here are the
-- requests for which that does not matter.
use riscv_openocd_jtag_mock.Prelude.{ℕ, ◌≡◌, ap, refl, ◌∙◌, arith, Bool, true, ◌&&◌, ◌==◌, some}
use riscv_openocd_jtag_mock.Word.{shr, ◌&&&◌}
use riscv_openocd_jtag_mock.Cpu.{Environment, Segment, find_segment}
use riscv_openocd_jtag_mock.Dmi.{get_dmi_address, get_dmi_data, get_dmi_op}
use riscv_openocd_jtag_mock.DebugModule.State.{DebugModule}
use riscv_openocd_jtag_mock.DebugModule.Control.{single_step, write_control, access_control}
use riscv_openocd_jtag_mock.DebugModule.Command.{
  put_cmderr, segment_address_of, read_arguments, write_arguments, read_command, access_register,
  ensure_segment, segment_at, read_memory, access_arguments, next_dmi_data, access_memory,
  write_command, access_command,
}
use riscv_openocd_jtag_mock.DebugModule.Command.Arguments.{command_type, size_field, write_field}
use riscv_openocd_jtag_mock.DebugModule.Access.{access_register_at, dmi_request, update_dmi}

-- A write of `command` for a read of memory.
abbrev pub is_memory_read : ℕ → Bool
is_memory_read r =
    let d = get_dmi_data r in
    get_dmi_address r == 0x17 && (get_dmi_op r == 2 && (command_type d == 2 && write_field d == 0))

module _ {Cpu : Type 0} (env : Environment Cpu) where
  -- The same, with other contents of new arrays.
  abbrev pub with_fresh : (ℕ → Segment) → Environment Cpu
  with_fresh f = record env { fresh = f }

  -- The segment of the address is there.
  abbrev pub IsFound : ℕ → DebugModule Cpu → Type 0
  IsFound a s =
      (words : Segment) × (find_segment (segment_address_of a) (env.segments s.cpu) ≡ some words)

  -- The request that stands in the container does not read from a new array.
  abbrev pub IsKnown : DebugModule Cpu → Type 0
  IsKnown s =
      let r = s.dmi_container_register in
      is_memory_read r ≡ true → IsFound (read_arguments env (size_field (get_dmi_data r)) s).arg1 s

  module _ (f : ℕ → Segment) where
    read_memory-fresh :
        (s : DebugModule Cpu) → IsFound s.arg1 s → read_memory (with_fresh f) s ≡ read_memory env s
    unfolding read_memory ensure_segment segment_at
    read_memory-fresh s (words, e) = ground (arith, e)

    read_arguments-cpu : (n : ℕ) (s : DebugModule Cpu) → (read_arguments env n s).cpu ≡ s.cpu
    unfolding read_arguments
    read_arguments-cpu n s = ground arith

    read_arguments-fresh :
        (n : ℕ) (s : DebugModule Cpu) → read_arguments (with_fresh f) n s ≡ read_arguments env n s
    unfolding read_arguments
    read_arguments-fresh n s = refl

    access_arguments-fresh :
        (d : ℕ) (s : DebugModule Cpu)
        → (write_field d ≡ 0 → IsFound (read_arguments env (size_field d) s).arg1 s)
        → access_arguments (with_fresh f) d s ≡ access_arguments env d s
    unfolding access_arguments write_arguments
    access_arguments-fresh d s known =
        let t = read_arguments env (size_field d) s in
        let read : write_field d ≡ 0
            → read_memory (with_fresh f) (read_arguments (with_fresh f) (size_field d) s)
              ≡ read_memory env t =
          λ h.
            let (words, e) = known h in
            ap (read_memory (with_fresh f)) (read_arguments-fresh (size_field d) s)
            ∙ read_memory-fresh t (words, rw (read_arguments-cpu (size_field d) s) e) in
        ground (arith, read)

    access_memory-fresh :
        (d : ℕ) (s : DebugModule Cpu)
        → (write_field d ≡ 0 → IsFound (read_arguments env (size_field d) s).arg1 s)
        → access_memory (with_fresh f) d s ≡ access_memory env d s
    unfolding access_memory next_dmi_data
    access_memory-fresh d s known = rw (access_arguments-fresh d s known)

    access_control-fresh :
        (a d o : ℕ) (s : DebugModule Cpu)
        → access_control (with_fresh f) a d o s ≡ access_control env a d o s
    unfolding access_control write_control single_step
    access_control-fresh a d o s = refl

    read_command-fresh :
        (d : ℕ) (s : DebugModule Cpu) → read_command (with_fresh f) d s ≡ read_command env d s
    unfolding read_command
    read_command-fresh d s = refl

    access_register-fresh :
        (d : ℕ) (s : DebugModule Cpu) → access_register (with_fresh f) d s ≡ access_register env d s
    unfolding access_register
    access_register-fresh d s = refl

    read_arguments-put_cmderr :
        (n e : ℕ) (s : DebugModule Cpu)
        → (read_arguments env n (put_cmderr s e)).arg1 ≡ (read_arguments env n s).arg1
    unfolding read_arguments
    read_arguments-put_cmderr n e s = ground arith

    write_command-fresh :
        (d : ℕ) (s : DebugModule Cpu)
        → (command_type d ≡ 2
            → write_field d ≡ 0
            → IsFound (read_arguments env (size_field d) s).arg1 s)
        → write_command (with_fresh f) d s ≡ write_command env d s
    unfolding write_command
    write_command-fresh d s known =
        let memory : command_type d ≡ 2
            → access_memory (with_fresh f) d (put_cmderr s 0)
              ≡ access_memory env d (put_cmderr s 0) =
          λ h.
            access_memory-fresh d (put_cmderr s 0)
              (λ r. rw (read_arguments-put_cmderr (size_field d) 0 s) (known h r)) in
        ground (arith, memory, access_register-fresh (shr d 0 &&& 0xFFFFFF) (put_cmderr s 0))

    access_register_at-fresh :
        (a d o : ℕ) (s : DebugModule Cpu)
        → (a ≡ 0x17
            → o ≡ 2
            → command_type d ≡ 2
            → write_field d ≡ 0
            → IsFound (read_arguments env (size_field d) s).arg1 s)
        → access_register_at (with_fresh f) a d o s ≡ access_register_at env a d o s
    unfolding access_register_at access_command
    access_register_at-fresh a d o s known =
        let command : a ≡ 0x17 → o ≡ 2 → write_command (with_fresh f) d s ≡ write_command env d s =
          λ h k. write_command-fresh d s (known h k) in
        ground (arith, command, read_command-fresh d s, access_control-fresh a d o s)

    pub update_dmi-fresh :
        (w : ℕ) (s : DebugModule Cpu)
        → IsKnown (dmi_request w s)
        → update_dmi (with_fresh f) w s ≡ update_dmi env w s
    unfolding update_dmi
    update_dmi-fresh w s known =
        let t = dmi_request w s in
        let r = t.dmi_container_register in
        access_register_at-fresh (get_dmi_address r) (get_dmi_data r) (get_dmi_op r) t
          (λ a o c n. known (rw (a, o, c, n) refl))
