-- ===== src/Hex/Load.antt =====
-- The loader keeps to the format, byte by byte, on the records that Hex/Format singles out.
use riscv_openocd_jtag_mock.Prelude.{ℕ, ◌*◌, ◌/◌, ◌%◌, ◌^◌, ◌==◌, if◌then◌else◌}
use riscv_openocd_jtag_mock.Hex.Records.{Contents}
use riscv_openocd_jtag_mock.Hex.Format.{Program}

-- A byte of a word of 32 bits, the highest first.
abbrev pub byte_of : ℕ → ℕ → ℕ
byte_of w n =
    if n == 0
    then w / 2 ^ 24 % 2 ^ 8
    else (if n == 1 then w / 2 ^ 16 % 2 ^ 8 else (if n == 2 then w / 2 ^ 8 % 2 ^ 8 else w % 2 ^ 8))

-- The words of the segments as bytes: the segment is the upper half of an address, the index is the rest
-- without its two lowest bits, and these count the bytes of the word from the highest on.
abbrev pub program_of : Contents → Program
program_of c = record {
  base = c.segment;
  start = c.entry;
  byte = λ b. byte_of (c.word (b / 2 ^ 16 * 2 ^ 16) (b % 2 ^ 16 / 4)) (b % 4);
}
