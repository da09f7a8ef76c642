-- ===== src/DebugModule/Command/Memory.antt =====
-- The abstract command "access memory", type 2.
use riscv_openocd_jtag_mock.Prelude.{
  ℕ, ◌+◌, ◌*◌, ◌%◌, ◌^◌, ◌<◌, ◌≡◌, refl, ◌∙◌, ap, arith, ◌==◌, if◌then◌else◌, length, set,
  length-set, get_or-set_self, get_or-set_ne, none, some, done,
}
use riscv_openocd_jtag_mock.Word.{u64, bit_and-mod}
use riscv_openocd_jtag_mock.Cpu.{
  Environment, Segment, find_segment, insert_segment, find_segment-insert_segment,
}
use riscv_openocd_jtag_mock.DebugModule.State.{DebugModule}
use riscv_openocd_jtag_mock.DebugModule.Command.{
  data_at, put_data, ensure_segment, segment_at, segment_address_of, word_index_of, read_memory,
  read_arguments, access_arguments, increment, next_dmi_data, access_memory, write_command,
}
use riscv_openocd_jtag_mock.DebugModule.Command.Arguments.{
  segment_base, command_type, size_field, increment_field, write_field,
}

-- The base address and the index of the word are those of the address, and the index lies within the
-- 16384 words of a segment.
pub memory_index_bounds :
    (a : ℕ)
    → (word_index_of a < 16384) × (segment_address_of a + 4 * word_index_of a + a % 4 ≡ a % 2 ^ 32)
memory_index_bounds a = omega (arith, segment_base a, bit_and-mod 16 a)

module _ {Cpu : Type 0} (env : Environment Cpu) where
  -- The words of the segment at `base`: those that are there, or those of a fresh array.
  unfoldable pub segment_of : ℕ → Cpu → Segment
  segment_of base cpu = elim (find_segment base (env.segments cpu)) [
    | none ↦ env.fresh base
    | some w ↦ w
  ]

  -- The memory of the processor.
  abbrev pub memory : Cpu → ℕ → ℕ
  memory cpu a = segment_of (segment_address_of a) cpu (word_index_of a)

  segment_at-ensure_segment :
      (base : ℕ) (cpu : Cpu)
      → segment_at env base (ensure_segment env base cpu) ≡ done (segment_of base cpu)
  unfolding segment_at ensure_segment segment_of
  segment_at-ensure_segment base cpu =
      let m = env.segments cpu in
      ground (
        arith,
        env.segments_put cpu (insert_segment base (env.fresh base) m),
        find_segment-insert_segment base base (env.fresh base) m,
      )

  -- Looking at a segment brings it into being, and the memory stays what it was.
  pub segment_of-ensure_segment :
      (base other : ℕ) (cpu : Cpu)
      → segment_of other (ensure_segment env base cpu) ≡ segment_of other cpu
  unfolding ensure_segment segment_of
  segment_of-ensure_segment base other cpu =
      let m = env.segments cpu in
      ground (
        arith,
        env.segments_put cpu (insert_segment base (env.fresh base) m),
        find_segment-insert_segment base other (env.fresh base) m,
      )

  pub ensure_segment-keeps :
      (base i : ℕ) (cpu : Cpu)
      → (env.pc (ensure_segment env base cpu) ≡ env.pc cpu)
        × (env.reg (ensure_segment env base cpu) i ≡ env.reg cpu i)
  unfolding ensure_segment
  ensure_segment-keeps base i cpu =
      let m = insert_segment base (env.fresh base) (env.segments cpu) in
      ground (arith, env.pc_put cpu m, env.reg_put cpu m i)

  pub read_memory_lem :
      (s : DebugModule Cpu)
      → read_memory env s
        ≡ done (
            put_data
              (record s { cpu = ensure_segment env (segment_address_of s.arg1) s.cpu })
              0
              (memory s.cpu s.arg1))
  unfolding read_memory
  read_memory_lem s = rw (segment_at-ensure_segment (segment_address_of s.arg1) s.cpu)

  -- What a read of a 32-bit word from the address in `data1` leaves.
  pub record WordRead (w : ℕ) (s t : DebugModule Cpu) : Type 0 where
    pub word : data_at t 0 ≡ memory s.cpu (data_at s 1)
    pub next : data_at t 1 ≡ (if increment_field w == 0 then w else u64 (data_at s 1 + 4))
    pub same_memory : (a : ℕ) → memory t.cpu a ≡ memory s.cpu a
    pub same_pc : env.pc t.cpu ≡ env.pc s.cpu
    pub same_registers : (i : ℕ) → env.reg t.cpu i ≡ env.reg s.cpu i
    pub same_request : t.dmi_container_register ≡ s.dmi_container_register
    pub no_error : t.abstractcs.cmderr ≡ 0
    pub twelve : length t.abstract_data ≡ 12

  abbrev pub word_read : ℕ → DebugModule Cpu → DebugModule Cpu
  word_read w s =
      let a = data_at s 1 in
      let t = record s {
        arg1 = a;
        abstractcs = record s.abstractcs { cmderr = 0 };
        cpu = ensure_segment env (segment_address_of a) s.cpu;
      } in
      put_data (put_data t 0 (memory s.cpu a)) 1 (if increment_field w == 0 then w else u64 (a + 4))

  pub write_command_read :
      (w : ℕ) (s : DebugModule Cpu)
      → command_type w ≡ 2
      → write_field w ≡ 0
      → size_field w ≡ 2
      → write_command env w s ≡ done (word_read w s)
  unfolding write_command access_memory access_arguments next_dmi_data increment read_arguments
  write_command_read w s type read size =
      let t = record s { arg1 = data_at s 1; abstractcs = record s.abstractcs { cmderr = 0 } } in
      rw (type, read, size, read_memory_lem t) (ground arith)

  pub word_read-WordRead :
      (w : ℕ) (s : DebugModule Cpu) → length s.abstract_data ≡ 12 → WordRead w s (word_read w s)
  word_read-WordRead w s twelve =
      let a = data_at s 1 in
      let m = memory s.cpu a in
      let v = if increment_field w == 0 then w else u64 (a + 4) in
      let xs = s.abstract_data in
      let long : length (set xs 0 m) ≡ 12 = length-set xs 0 m ∙ twelve in
      record {
        word =
            get_or-set_ne (set xs 0 m) 1 0 v 0 (λ e. cc) ∙ get_or-set_self xs 0 m 0 (omega arith);
        next = get_or-set_self (set xs 0 m) 1 v 0 (omega arith);
        same_memory = λ b.
            ap (λ f. f (word_index_of b))
              (segment_of-ensure_segment (segment_address_of a) (segment_address_of b) s.cpu);
        same_pc = (ensure_segment-keeps (segment_address_of a) 0 s.cpu).0;
        same_registers = λ i. (ensure_segment-keeps (segment_address_of a) i s.cpu).1;
        same_request = refl;
        no_error = refl;
        twelve = length-set (set xs 0 m) 1 v ∙ long;
      }

  -- A read of memory as a debugger asks for it, by a command word with a size of 32 bits: it always
  -- returns. `data0` holds the word at the address in `data1`; `data1` holds the next address if the
  -- command asks for the increment, and else the command word; no error is flagged, and the memory,
  -- the registers and the program counter of the processor and the request that stands in the
  -- container are what they were.
  pub memory_read_lem :
      (w : ℕ) (s : DebugModule Cpu)
      → command_type w ≡ 2
      → write_field w ≡ 0
      → size_field w ≡ 2
      → length s.abstract_data ≡ 12
      → (t : DebugModule Cpu) × (write_command env w s ≡ done t) × WordRead w s t
  memory_read_lem w s type read size twelve =
      (word_read w s, write_command_read w s type read size, word_read-WordRead w s twelve)
