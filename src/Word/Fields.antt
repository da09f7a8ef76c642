-- ===== src/Word/Fields.antt =====
-- `|` of words that share no bit is their sum, and `&` with a mask of low ones is a remainder.
use native.Mathlib.Nat.{pow-suc, one-le-pow, div-add-mod, div-div-eq-div-mul}
use riscv_openocd_jtag_mock.Prelude.{
  ℕ, zero, suc, ◌+◌, ◌-◌, ◌*◌, ◌/◌, ◌%◌, ◌^◌, ◌≤◌, ◌<◌, bit_and, bit_or, ◌≡◌, refl, ap, ◌∙◌, arith,
}
use riscv_openocd_jtag_mock.Word.Digits.{bit_or-low_digit, bit_and-low_digit}

bit_or-zero_below : (n a : ℕ) → a ≤ n → bit_or a 0 ≡ a
bit_or-zero_below n zero h = refl
bit_or-zero_below zero (suc a) h = absurd (omega arith)
bit_or-zero_below (suc n) (suc a) h =
    omega (arith, bit_or-low_digit (suc a) 0, bit_or-zero_below n (suc a / 2) (omega arith))

bit_or-zero : (a : ℕ) → bit_or a 0 ≡ a
bit_or-zero a = bit_or-zero_below a a (omega arith)

bit_and-zero_below : (n a : ℕ) → a ≤ n → bit_and a 0 ≡ 0
bit_and-zero_below n zero h = refl
bit_and-zero_below zero (suc a) h = absurd (omega arith)
bit_and-zero_below (suc n) (suc a) h =
    omega (arith, bit_and-low_digit (suc a) 0, bit_and-zero_below n (suc a / 2) (omega arith))

bit_and-zero : (a : ℕ) → bit_and a 0 ≡ 0
bit_and-zero a = bit_and-zero_below a a (omega arith)

double_pow : (q k : ℕ) → q * 2 ^ suc k ≡ 2 * (q * 2 ^ k)
double_pow q k = omega (arith, ap (λ (t : ℕ). q * t) (pow-suc 2 k))

-- `(q << k) | r` where `r` fits below bit `k`.
pub bit_or-add : (k q r : ℕ) → r < 2 ^ k → bit_or (q * 2 ^ k) r ≡ q * 2 ^ k + r
bit_or-add zero q r h = ground (arith, bit_or-zero q)
bit_or-add (suc k) q r h = ground (
  arith,
  bit_or-low_digit (q * 2 ^ suc k) r,
  double_pow q k,
  pow-suc 2 k,
  bit_or-add k q (r / 2) (omega (arith, pow-suc 2 k)),
)

and_low_ones : (k q r : ℕ) → r < 2 ^ k → bit_and (q * 2 ^ k + r) (2 ^ k - 1) ≡ r
and_low_ones zero q r h = rw bit_and-zero (omega arith)
and_low_ones (suc k) q r h = ground (
  arith,
  bit_and-low_digit (q * 2 ^ suc k + r) (2 ^ suc k - 1),
  double_pow q k,
  pow-suc 2 k,
  one-le-pow k 2,
  and_low_ones k q (r / 2) (omega (arith, pow-suc 2 k)),
)

-- `a & (2^k - 1)` is `a % 2^k`.
pub bit_and-mod : (k a : ℕ) → bit_and a (2 ^ k - 1) ≡ a % 2 ^ k
bit_and-mod k a = ground (arith, one-le-pow k 2, and_low_ones k (a / 2 ^ k) (a % 2 ^ k))

-- The same for a word that is known to be clear below bit `k`.
pub or_add : (k a r : ℕ) → a % 2 ^ k ≡ 0 → r < 2 ^ k → bit_or a r ≡ a + r
or_add k a r clear small =
    let e : a ≡ a / 2 ^ k * 2 ^ k = omega (arith, div-add-mod a (2 ^ k)) in
    rw e (bit_or-add k (a / 2 ^ k) r small)

-- A mask that is clear below bit `k` keeps nothing there.
pub bit_and-high : (k a m : ℕ) → bit_and a (m * 2 ^ k) ≡ bit_and (a / 2 ^ k) m * 2 ^ k
bit_and-high zero a m =
    let e : m * 1 ≡ m = omega arith in let f : a / 1 ≡ a = omega arith in rw (e, f) (omega arith)
bit_and-high (suc k) a m = ground (
  arith,
  bit_and-low_digit a (m * 2 ^ suc k),
  double_pow m k,
  double_pow (bit_and (a / 2 / 2 ^ k) m) k,
  bit_and-high k (a / 2) m,
  div-div-eq-div-mul a 2 (2 ^ k),
  pow-suc 2 k,
)

bit_or_comm_below : (n a b : ℕ) → a ≤ n → b ≤ n → bit_or a b ≡ bit_or b a
bit_or_comm_below zero zero zero p q = refl
bit_or_comm_below zero zero (suc b) p q = absurd (omega arith)
bit_or_comm_below zero (suc a) b p q = absurd (omega arith)
bit_or_comm_below (suc n) a b p q = omega (
  arith,
  bit_or-low_digit a b,
  bit_or-low_digit b a,
  bit_or_comm_below n (a / 2) (b / 2) (omega arith) (omega arith),
)

bit_or_comm : (a b : ℕ) → bit_or a b ≡ bit_or b a
bit_or_comm a b = bit_or_comm_below (a + b) a b (omega arith) (omega arith)

-- `r | (b << k)` where `r` fits below bit `k`.
pub low_or_add : (k b r : ℕ) → r < 2 ^ k → bit_or r (b * 2 ^ k) ≡ r + b * 2 ^ k
low_or_add k b r h = bit_or_comm r (b * 2 ^ k) ∙ bit_or-add k b r h ∙ omega arith
