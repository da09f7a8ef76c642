-- ===== src/Port/Bits.antt =====
-- A shift register as a number: bits enter at the top and leave at the bottom.
use native.Mathlib.Nat.{pow-suc, add-mul-div_right, div-div-eq-div-mul, one-le-pow, div-eq_of_lt}
use riscv_openocd_jtag_mock.Prelude.{
  ℕ, zero, suc, ◌+◌, ◌*◌, ◌/◌, ◌%◌, ◌^◌, ◌<◌, ◌≡◌, refl, ap, ◌∙◌, arith, List, [], ◌∷◌, length,
}

-- The number that a sequence of bits stands for, lowest bit first.
abbrev pub word_of : List ℕ → ℕ
word_of [] = 0
word_of (b ∷ bs) = b + 2 * word_of bs

-- The lowest bits of a number.
abbrev pub bits_of : ℕ → ℕ → List ℕ
bits_of zero w = []
bits_of (suc n) w = w % 2 ∷ bits_of n (w / 2)

abbrev pub AreBits : List ℕ → Type 0
AreBits [] = Unit {0}
AreBits (b ∷ bs) = (b < 2) × AreBits bs

-- Shifting a sequence into a register whose highest bit is worth `top`: what is left in it, and
-- what came out.
abbrev pub shift_in : ℕ → List ℕ → ℕ → ℕ
shift_in top [] w = w
shift_in top (b ∷ bs) w = shift_in top bs (w / 2 + b * top)

abbrev pub shift_out : ℕ → List ℕ → ℕ → List ℕ
shift_out top [] w = []
shift_out top (b ∷ bs) w = w % 2 ∷ shift_out top bs (w / 2 + b * top)

pub word_of-bits_of : (n w : ℕ) → w < 2 ^ n → word_of (bits_of n w) ≡ w
word_of-bits_of zero w h = omega arith
word_of-bits_of (suc n) w h = omega (arith, word_of-bits_of n (w / 2) (omega (arith, pow-suc 2 n)))

pub AreBits-bits_of : (n w : ℕ) → AreBits (bits_of n w)
AreBits-bits_of zero w = tt
AreBits-bits_of (suc n) w = (omega arith, AreBits-bits_of n (w / 2))

pub length-bits_of : (n w : ℕ) → length (bits_of n w) ≡ n
length-bits_of zero w = refl
length-bits_of (suc n) w = ap suc (length-bits_of n (w / 2))

bits_of-add : (n v c : ℕ) → bits_of n (v + c * 2 ^ n) ≡ bits_of n v
bits_of-add zero v c = refl
bits_of-add (suc n) v c =
    let twice : c * 2 ^ suc n ≡ 2 * (c * 2 ^ n) =
      omega (arith, ap (λ (t : ℕ). c * t) (pow-suc 2 n)) in
    let low : (v + c * 2 ^ suc n) % 2 ≡ v % 2 = omega arith in
    let high : (v + c * 2 ^ suc n) / 2 ≡ v / 2 + c * 2 ^ n = omega arith in
    rw (low, high) (ap (λ t. v % 2 ∷ t) (bits_of-add n (v / 2) c))

module _ (b : ℕ) (bs : List ℕ) (j top : ℕ) (h : top * 2 ≡ 2 ^ j * 2 ^ length (b ∷ bs)) where
  top_split : top ≡ 2 ^ j * 2 ^ length bs
  top_split = omega (arith, ap (λ (t : ℕ). 2 ^ j * t) (pow-suc 2 (length bs)))

  top_twice : top * 2 ≡ 2 ^ suc j * 2 ^ length bs
  top_twice = omega (arith, top_split, ap (λ (t : ℕ). t * 2 ^ length bs) (pow-suc 2 j))

  -- A bit that enters stands above the bits that are still to come.
  entering : (v : ℕ) → v + b * top ≡ v + b * 2 ^ j * 2 ^ length bs
  entering v = omega (arith, ap (λ (t : ℕ). b * t) top_split)

-- `length bs` bits go into a register of `j` bits more.
shift_in_lem :
    (bs : List ℕ) (j top w : ℕ)
    → top * 2 ≡ 2 ^ j * 2 ^ length bs
    → shift_in top bs w ≡ w / 2 ^ length bs + word_of bs * 2 ^ j
shift_in_lem [] j top w h = omega arith
shift_in_lem (b ∷ bs) j top w h = omega (
  arith,
  shift_in_lem bs (suc j) top (w / 2 + b * top) (top_twice b bs j top h),
  ap (λ (t : ℕ). t / 2 ^ length bs) (entering b bs j top h (w / 2)),
  add-mul-div_right (w / 2) (b * 2 ^ j) (one-le-pow (length bs) 2 (omega arith)),
  div-div-eq-div-mul w 2 (2 ^ length bs),
  ap (λ (t : ℕ). w / t) (pow-suc' (length bs)),
  ap (λ (t : ℕ). word_of bs * t) (pow-suc 2 j),
)
  where
    pow-suc' : (n : ℕ) → 2 ^ suc n ≡ 2 * 2 ^ n
    pow-suc' n = omega (arith, pow-suc 2 n)

pub shift_out_lem :
    (bs : List ℕ) (j top w : ℕ)
    → top * 2 ≡ 2 ^ j * 2 ^ length bs
    → shift_out top bs w ≡ bits_of (length bs) w
shift_out_lem [] j top w h = refl
shift_out_lem (b ∷ bs) j top w h =
    ap (λ t. w % 2 ∷ t)
      (shift_out_lem bs (suc j) top (w / 2 + b * top) (top_twice b bs j top h)
        ∙ ap (bits_of (length bs)) (entering b bs j top h (w / 2))
        ∙ bits_of-add (length bs) (w / 2) (b * 2 ^ j))

-- A register that is filled completely holds the number that was shifted in, and its own number has
-- come out.
pub shift_in_all :
    (bs : List ℕ) (top w : ℕ)
    → top * 2 ≡ 2 ^ length bs
    → w < 2 ^ length bs
    → shift_in top bs w ≡ word_of bs
shift_in_all bs top w h fits =
    omega (arith, shift_in_lem bs 0 top w (omega arith), div-eq_of_lt fits)
