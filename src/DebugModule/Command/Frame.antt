-- ===== src/DebugModule/Command/Frame.antt =====
-- What an abstract command leaves of the processor.
use riscv_openocd_jtag_mock.Prelude.{
  ℕ, ◌≡◌, ◌∙◌, refl, ap, arith, Outcome, undefined, aborted, waiting, Keeps, Keeps->>=,
  always-Keeps, done, ◌>>=◌,
}
use riscv_openocd_jtag_mock.Word.{shr, ◌&&&◌}
use riscv_openocd_jtag_mock.Cpu.{Environment}
use riscv_openocd_jtag_mock.DebugModule.State.{DebugModule}
use riscv_openocd_jtag_mock.DebugModule.Command.{
  put_data, put_cmderr, check_aarsize, read_command, access_register, write_arguments,
  read_arguments, read_memory, access_arguments, next_dmi_data, access_memory, write_command,
  access_command, segment_address_of, word_index_of,
}
use riscv_openocd_jtag_mock.DebugModule.Command.Arguments.{size_field}
use riscv_openocd_jtag_mock.DebugModule.Command.Memory.{
  memory, read_memory_lem, segment_of-ensure_segment, ensure_segment-keeps,
}

module _ {Cpu : Type 0} (env : Environment Cpu) where
  -- The processor, as far as a debugger and `cpu_step()` can see it, and `dpc` are as before.
  pub record Framed (s t : DebugModule Cpu) : Type 0 where
    pub same_memory : (a : ℕ) → memory env t.cpu a ≡ memory env s.cpu a
    pub same_registers : (i : ℕ) → env.reg t.cpu i ≡ env.reg s.cpu i
    pub same_pc : env.pc t.cpu ≡ env.pc s.cpu
    pub same_dpc : t.dpc ≡ s.dpc

  abbrev pub Same : DebugModule Cpu → DebugModule Cpu → Type 0
  Same s t = (t.cpu ≡ s.cpu) × (t.dpc ≡ s.dpc)

  pub Framed-of : (s t : DebugModule Cpu) → Same s t → Framed s t
  Framed-of s t h = record {
    same_memory = λ a. ap (λ c. memory env c a) h.0;
    same_registers = λ i. ap (λ c. env.reg c i) h.0;
    same_pc = ap env.pc h.0;
    same_dpc = h.1;
  }

  pub Framed-trans : (s t u : DebugModule Cpu) → Framed s t → Framed t u → Framed s u
  Framed-trans s t u h k = record {
    same_memory = λ a. k.same_memory a ∙ h.same_memory a;
    same_registers = λ i. k.same_registers i ∙ h.same_registers i;
    same_pc = k.same_pc ∙ h.same_pc;
    same_dpc = k.same_dpc ∙ h.same_dpc;
  }

  access_register-Same : (c : ℕ) (s : DebugModule Cpu) → Same s (access_register env c s)
  unfolding access_register check_aarsize
  access_register-Same c s = ground arith

  read_command-Same : (d : ℕ) (s : DebugModule Cpu) → Same s (read_command env d s)
  unfolding read_command
  read_command-Same d s = ground arith

  read_arguments-Same : (n : ℕ) (s : DebugModule Cpu) → Same s (read_arguments env n s)
  unfolding read_arguments
  read_arguments-Same n s = ground arith

  write_arguments-Same : (n : ℕ) (s : DebugModule Cpu) → Same s (write_arguments env n s)
  unfolding write_arguments
  write_arguments-Same n s = ground arith

  read_memory-Framed : (s : DebugModule Cpu) → Keeps (Framed s) (read_memory env s)
  read_memory-Framed s =
      let base = segment_address_of s.arg1 in
      rw (read_memory_lem env s) (record {
        same_memory = λ a.
            ap (λ f. f (word_index_of a))
              (segment_of-ensure_segment env base (segment_address_of a) s.cpu);
        same_registers = λ i. (ensure_segment-keeps env base i s.cpu).1;
        same_pc = (ensure_segment-keeps env base 0 s.cpu).0;
        same_dpc = refl;
      })

  -- What holds behind a call whose argument was already framed.
  Framed-Keeps :
      (s t : DebugModule Cpu) (m : Outcome (DebugModule Cpu))
      → Framed s t
      → Keeps (Framed t) m
      → Keeps (Framed s) m
  Framed-Keeps s t (done u) h k = Framed-trans s t u h k
  Framed-Keeps s t undefined h k = tt
  Framed-Keeps s t aborted h k = tt
  Framed-Keeps s t waiting h k = tt

  access_arguments-Framed :
      (d : ℕ) (s : DebugModule Cpu) → Keeps (Framed s) (access_arguments env d s)
  unfolding access_arguments
  access_arguments-Framed d s =
      let n = size_field d in
      let t = read_arguments env n s in
      let u = write_arguments env n s in
      ground (
        arith,
        Framed-Keeps s t (read_memory env t) (Framed-of s t (read_arguments-Same n s))
            (read_memory-Framed t),
        Framed-of s u (write_arguments-Same n s),
      )

  access_memory-Framed : (d : ℕ) (s : DebugModule Cpu) → Keeps (Framed s) (access_memory env d s)
  unfolding access_memory
  access_memory-Framed d s =
      Keeps->>= (Framed s) (Framed s) (access_arguments env d s)
        (λ t. next_dmi_data env d t.arg1 >>= λ v. done (put_data t 1 v))
        (access_arguments-Framed d s)
        (λ t k.
          always-Keeps (Framed s) (put_data t 1) (next_dmi_data env d t.arg1)
            (λ v. Framed-trans s t (put_data t 1 v) k (Framed-of t (put_data t 1 v) (refl, refl))))

  write_command-Framed : (d : ℕ) (s : DebugModule Cpu) → Keeps (Framed s) (write_command env d s)
  unfolding write_command
  write_command-Framed d s =
      let t = put_cmderr s 0 in
      let c = shr d 0 &&& 0xFFFFFF in
      let k = Framed-of s t (refl, refl) in
      ground (
        arith,
        k,
        Framed-of s (access_register env c t) (access_register-Same c t),
        Framed-Keeps s t (access_memory env d t) k (access_memory-Framed d t),
      )

  pub access_command-Framed :
      (d o : ℕ) (s : DebugModule Cpu) → Keeps (Framed s) (access_command env d o s)
  unfolding access_command
  access_command-Framed d o s = ground (
    arith,
    write_command-Framed d s,
    Framed-of s (read_command env d s) (read_command-Same d s),
    Framed-of s s (refl, refl),
  )
