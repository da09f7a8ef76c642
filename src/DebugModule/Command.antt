-- ===== src/DebugModule/Command.antt =====
-- `command`, register 0x17: the abstract commands "access register" and "access memory".
pub mod Arguments
pub mod Memory
pub mod Block
pub mod Safety
pub mod Registers
pub mod Frame
use riscv_openocd_jtag_mock.Prelude.{
  ℕ, ◌+◌, ◌-◌, ◌*◌, ◌/◌, ◌^◌, ◌&&◌, ◌==◌, leb, if◌then◌else◌, get_or, set, Option, none, some,
  Outcome, done, undefined, aborted, ◌>>=◌,
}
use riscv_openocd_jtag_mock.Word.{u32, u64, shl64, shr, ◌&&&◌, ◌|||◌}
use riscv_openocd_jtag_mock.Cpu.{Environment, Segments, Segment, find_segment, insert_segment}
use riscv_openocd_jtag_mock.DebugModule.State.{DebugModule}

-- The value that stands for `misa`.
abbrev pub misa : ℕ
misa = 0b01000000000000000000000100101000

-- `abstract_data[i]`.
abbrev pub data_at : {Cpu : Type 0} → DebugModule Cpu → ℕ → ℕ
data_at s i = get_or s.abstract_data i 0

abbrev pub put_data : {Cpu : Type 0} → DebugModule Cpu → ℕ → ℕ → DebugModule Cpu
put_data s i v = record s { abstract_data = set s.abstract_data i v }

abbrev pub put_cmderr : {Cpu : Type 0} → DebugModule Cpu → ℕ → DebugModule Cpu
put_cmderr s e = record s { abstractcs = record s.abstractcs { cmderr = e } }

-- Sizes 3 and 4 (64 and 128 bits) are refused in `cmderr`, and the command goes on.
unfoldable pub check_aarsize : {Cpu : Type 0} → ℕ → DebugModule Cpu → DebugModule Cpu
check_aarsize aarsize s =
    if aarsize == 2
    then s
    else (if aarsize == 3
        then put_cmderr s 0x02
        else (if aarsize == 4 then put_cmderr s 0x02 else s))

-- A pair of 32-bit halves, `a << 32 | b` on `uint64_t`.
unfoldable join_halves : ℕ → ℕ → ℕ
join_halves a b = shl64 a 32 ||| b

-- `2 << (aamsize - 1)`: for size 0 the `uint32_t` subtraction wraps, and a shift of an `int` by
-- 2^32 - 1 is undefined.
unfoldable pub increment : ℕ → Outcome ℕ
increment aamsize = if aamsize == 0 then undefined else done (2 * 2 ^ (aamsize - 1))

-- Where a memory word is: the key of its segment, and its index there.
abbrev pub segment_address_of : ℕ → ℕ
segment_address_of arg1 = u32 (arg1 &&& 0xFFFF0000)

abbrev pub word_index_of : ℕ → ℕ
word_index_of arg1 = u32 (arg1 &&& 0x0000FFFF) / 4

module _ {Cpu : Type 0} (env : Environment Cpu) where
  -- A command word that is read back, not written.
  unfoldable pub read_command : ℕ → DebugModule Cpu → DebugModule Cpu
  read_command dmi_data s =
      let regno = (shr (shr dmi_data 0 &&& 0xFFFFFF) 0) &&& 0xFFFF in
      if regno == 0x301 then put_data s 0 misa else s

  -- `dcsr`, which is only printed, and `dpc`.
  abbrev pub access_debug_register : ℕ → ℕ → DebugModule Cpu → DebugModule Cpu
  access_debug_register regno write t =
      if regno == 0x07b0
      then t
      else (if regno == 0x07b1 then (if write == 0 then put_data t 0 t.dpc else t) else t)

  -- The registers outside the register file.
  abbrev pub access_csr : ℕ → ℕ → DebugModule Cpu → DebugModule Cpu
  access_csr regno write t =
      if regno == 0x300
      then t
      else (if regno == 0x301
          then (if write == 0 then put_data t 0 misa else t)
          else access_debug_register regno write t)

  -- Writes to registers are only printed.
  unfoldable pub access_register : ℕ → DebugModule Cpu → DebugModule Cpu
  access_register control s =
      let regno = shr control 0 &&& 0xFFFF in
      let write = shr control 16 &&& 0x01 in
      let aarsize = shr control 20 &&& 0b111 in
      let t = check_aarsize aarsize s in
      let regno_without_offset = u32 (regno + 2 ^ 32 - 0x1000) in
      if leb 0 regno_without_offset && leb regno_without_offset 31
      then (if write == 0 then put_data t 0 (env.reg t.cpu regno_without_offset) else t)
      else access_csr regno write t

  -- The address and the value of a memory write are taken over and printed.
  unfoldable pub write_arguments : ℕ → DebugModule Cpu → DebugModule Cpu
  unfolding join_halves
  write_arguments aamsize s =
      if aamsize == 2
      then record s { arg0 = data_at s 0; arg1 = data_at s 1 }
      else (if aamsize == 3
          then record s {
            arg0 = join_halves (data_at s 0) (data_at s 1);
            arg1 = join_halves (data_at s 2) (data_at s 3);
          }
          else s)

  unfoldable pub read_arguments : ℕ → DebugModule Cpu → DebugModule Cpu
  unfolding join_halves
  read_arguments aamsize s =
      if aamsize == 2
      then record s { arg1 = data_at s 1 }
      else (if aamsize == 3 then record s { arg1 = join_halves (data_at s 2) (data_at s 3) } else s)

  -- `segments->find`, and `insert` of a fresh array if there is none.
  unfoldable pub ensure_segment : ℕ → Cpu → Cpu
  ensure_segment segment_address cpu = elim (find_segment segment_address (env.segments cpu)) [
    | none ↦
        env.with_segments cpu
          (insert_segment segment_address (env.fresh segment_address) (env.segments cpu))
    | some w ↦ cpu
  ]

  -- `segments->at`: a missing key throws, and nothing catches it.
  unfoldable pub segment_at : ℕ → Cpu → Outcome Segment
  segment_at segment_address cpu = elim (find_segment segment_address (env.segments cpu)) [
    | none ↦ aborted
    | some w ↦ done w
  ]

  unfoldable pub read_memory : DebugModule Cpu → Outcome (DebugModule Cpu)
  read_memory s = do
    let cpu' = ensure_segment (segment_address_of s.arg1) s.cpu
    w ← segment_at (segment_address_of s.arg1) cpu'
    done (put_data (record s { cpu = cpu' }) 0 (w (word_index_of s.arg1)))

  unfoldable pub access_arguments : ℕ → DebugModule Cpu → Outcome (DebugModule Cpu)
  access_arguments dmi_data s =
      let aamsize = shr dmi_data 20 &&& 0b111 in
      if (shr dmi_data 16 &&& 0b1) == 0
      then read_memory (read_arguments aamsize s)
      else done (write_arguments aamsize s)

  -- What goes to `data1` at the end: the next address, or else the command word itself.
  unfoldable pub next_dmi_data : ℕ → ℕ → Outcome ℕ
  unfolding increment
  next_dmi_data dmi_data arg1 =
      if (shr dmi_data 19 &&& 0b1) == 0
      then done dmi_data
      else (increment (shr dmi_data 20 &&& 0b111) >>= λ n. done (u64 (arg1 + n)))

  unfoldable pub access_memory : ℕ → DebugModule Cpu → Outcome (DebugModule Cpu)
  access_memory dmi_data s = do
    t ← access_arguments dmi_data s
    v ← next_dmi_data dmi_data t.arg1
    done (put_data t 1 v)

  -- Command types: 0 access register, 1 quick access (not implemented), 2 access memory.
  unfoldable pub write_command : ℕ → DebugModule Cpu → Outcome (DebugModule Cpu)
  write_command dmi_data s =
      let cmdtype = shr dmi_data 24 &&& 0xFF in
      let control = shr dmi_data 0 &&& 0xFFFFFF in
      let t = put_cmderr s 0x00 in
      if cmdtype == 0x00
      then done (access_register control t)
      else (if cmdtype == 0x01
          then done t
          else (if cmdtype == 0x02 then access_memory dmi_data t else done t))

  unfoldable pub access_command : ℕ → ℕ → DebugModule Cpu → Outcome (DebugModule Cpu)
  access_command dmi_data dmi_op s =
      if dmi_op == 0x01
      then done (read_command dmi_data s)
      else (if dmi_op == 0x02 then write_command dmi_data s else done s)
