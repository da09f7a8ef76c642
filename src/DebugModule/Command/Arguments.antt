-- ===== src/DebugModule/Command/Arguments.antt =====
-- The fields of a command word as arithmetic.
use riscv_openocd_jtag_mock.Prelude.{ℕ, ◌*◌, ◌/◌, ◌%◌, ◌^◌, ◌≡◌, ◌∙◌, ap, bit_and}
use riscv_openocd_jtag_mock.Word.{bit_and-mod, bit_and-high, shr, ◌&&&◌}

abbrev pub command_type : ℕ → ℕ
command_type w = shr w 24 &&& 0xFF

abbrev pub size_field : ℕ → ℕ
size_field w = shr w 20 &&& 0b111

abbrev pub increment_field : ℕ → ℕ
increment_field w = shr w 19 &&& 0b1

abbrev pub write_field : ℕ → ℕ
write_field w = shr w 16 &&& 0b1

pub size_field-mod : (w : ℕ) → size_field w ≡ w / 2 ^ 20 % 8
size_field-mod w = bit_and-mod 3 (w / 2 ^ 20)

pub increment_field-mod : (w : ℕ) → increment_field w ≡ w / 2 ^ 19 % 2
increment_field-mod w = bit_and-mod 1 (w / 2 ^ 19)

pub write_field-mod : (w : ℕ) → write_field w ≡ w / 2 ^ 16 % 2
write_field-mod w = bit_and-mod 1 (w / 2 ^ 16)

-- The base address of a segment of 64 KiB.
pub segment_base : (a : ℕ) → bit_and a 0xFFFF0000 ≡ a / 2 ^ 16 % 2 ^ 16 * 2 ^ 16
segment_base a = bit_and-high 16 a 0xFFFF ∙ ap (λ (t : ℕ). t * 2 ^ 16) (bit_and-mod 16 (a / 2 ^ 16))
