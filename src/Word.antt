-- ===== src/Word.antt =====
-- The unsigned machine words of the C++ code: casts, shifts, `&` and `|`.
mod Digits
mod Fields
pub use Fields.*
use riscv_openocd_jtag_mock.Prelude.{ℕ, ◌*◌, ◌/◌, ◌%◌, ◌^◌, bit_and, bit_or}

abbrev pub u8 : ℕ → ℕ
u8 n = n % 2 ^ 8

abbrev pub u32 : ℕ → ℕ
u32 n = n % 2 ^ 32

abbrev pub u64 : ℕ → ℕ
u64 n = n % 2 ^ 64

-- `x << k` on a `uint32_t` and on a `uint64_t`: what passes the top is lost.
abbrev pub shl32 : ℕ → ℕ → ℕ
shl32 x k = u32 (x * 2 ^ k)

abbrev pub shl64 : ℕ → ℕ → ℕ
shl64 x k = u64 (x * 2 ^ k)

abbrev pub shr : ℕ → ℕ → ℕ
shr x k = x / 2 ^ k

infixl 45 ◌&&&◌
abbrev pub ◌&&&◌ : ℕ → ℕ → ℕ
a &&& b = bit_and a b

infixl 40 ◌|||◌
abbrev pub ◌|||◌ : ℕ → ℕ → ℕ
a ||| b = bit_or a b
