-- ===== src/DebugModule/Command/Registers.antt =====
-- The abstract command "access register" (remote_bitbang.cpp, 1058 to 1340) by register number.
use riscv_openocd_jtag_mock.Prelude.{
  ℕ, ◌-◌, ◌/◌, ◌%◌, ◌^◌, ◌<◌, ◌≡◌, ◌&&◌, ◌||◌, ap, arith, ◌==◌, leb, if◌then◌else◌, set, done,
}
use riscv_openocd_jtag_mock.Word.{bit_and-mod, shr, ◌&&&◌}
use riscv_openocd_jtag_mock.Cpu.{Environment}
use riscv_openocd_jtag_mock.DebugModule.State.{DebugModule}
use riscv_openocd_jtag_mock.DebugModule.Command.{
  misa, data_at, put_cmderr, check_aarsize, access_register, write_command,
}
use riscv_openocd_jtag_mock.DebugModule.Command.Arguments.{
  command_type, size_field, write_field, size_field-mod, write_field-mod,
}

-- The number of the register, and whether its size is refused: 64 or 128 bits.
abbrev pub register_number : ℕ → ℕ
register_number w = w % 2 ^ 16

abbrev pub error_of : ℕ → ℕ
error_of size = if size == 3 then 2 else (if size == 4 then 2 else 0)

module _ {Cpu : Type 0} (env : Environment Cpu) where
  -- What a read of a register finds; for a register that is not there, what `data0` held.
  abbrev pub register_value : ℕ → DebugModule Cpu → ℕ
  register_value regno s =
      if leb 0x1000 regno && leb regno 0x101f
      then env.reg s.cpu (regno - 0x1000)
      else (if regno == 0x301 then misa else (if regno == 0x7b1 then s.dpc else data_at s 0))

  -- The module after the command.
  abbrev pub register_read : ℕ → ℕ → ℕ → DebugModule Cpu → DebugModule Cpu
  register_read regno write size s = record s {
    abstractcs = record s.abstractcs { cmderr = error_of size };
    abstract_data =
        if write == 0
          && (leb 0x1000 regno && leb regno 0x101f || (regno == 0x301 || regno == 0x7b1))
        then set s.abstract_data 0 (register_value regno s)
        else s.abstract_data;
  }

  check_aarsize_lem :
      (size : ℕ) (s : DebugModule Cpu)
      → check_aarsize size (put_cmderr s 0) ≡ put_cmderr s (error_of size)
  unfolding check_aarsize
  check_aarsize_lem size s = ground arith

  access_register_lem :
      (c regno write size : ℕ) (s : DebugModule Cpu)
      → (shr c 0 &&& 0xFFFF) ≡ regno
      → (shr c 16 &&& 0x01) ≡ write
      → (shr c 20 &&& 0b111) ≡ size
      → regno < 2 ^ 16
      → access_register env c (put_cmderr s 0) ≡ register_read regno write size s
  unfolding access_register
  access_register_lem c regno write size s e f g small =
      rw (e, f, g) (rw (check_aarsize_lem size s) (ground arith))

  pub write_command_register :
      (w : ℕ) (s : DebugModule Cpu)
      → command_type w ≡ 0
      → write_command env w s
        ≡ done (register_read (register_number w) (write_field w) (size_field w) s)
  unfolding write_command
  write_command_register w s type =
      let c = shr w 0 &&& 0xFFFFFF in
      let masked : c ≡ w % 2 ^ 24 = omega (arith, bit_and-mod 24 (w / 1)) in
      rw type (
        ap done (
          access_register_lem c (register_number w) (write_field w) (size_field w) s
            (omega (arith, masked, bit_and-mod 16 (c / 1)))
            (omega (arith, masked, bit_and-mod 1 (c / 2 ^ 16), write_field-mod w))
            (omega (arith, masked, bit_and-mod 3 (c / 2 ^ 20), size_field-mod w)) (omega arith)))
