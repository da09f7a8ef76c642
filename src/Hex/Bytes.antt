-- ===== src/Hex/Bytes.antt =====
-- The text of a line and its bytes.
use mathlib.Core.List.{append-nil}
use riscv_openocd_jtag_mock.Prelude.{
  ℕ, suc, ◌-◌, ◌/◌, ◌%◌, ◌^◌, ◌<◌, ◌≡◌, refl, sym, ap, ◌∙◌, arith, List, [], ◌∷◌, ◌++◌, length,
  length-append, done,
}
use riscv_openocd_jtag_mock.Word.{u8}
use riscv_openocd_jtag_mock.Hex.{Library, hex_digit, at, slice, hext_to_bytes}

abbrev pub AreBytes : List ℕ → Type 0
AreBytes [] = Unit {0}
AreBytes (b ∷ bs) = (b < 2 ^ 8) × AreBytes bs

pub AreBytes-append : (xs ys : List ℕ) → AreBytes xs → AreBytes ys → AreBytes (xs ++ ys)
AreBytes-append [] ys h k = k
AreBytes-append (x ∷ xs) ys h k = (h.0, AreBytes-append xs ys h.1 k)

-- Each byte as two hexadecimal digits.
unfoldable pub hex_of : List ℕ → List ℕ
hex_of [] = []
hex_of (b ∷ bs) = hex_digit (b / 16) ∷ hex_digit (b % 16) ∷ hex_of bs

module _ (lib : Library) where
  pair_lem :
      (b : ℕ) → b < 2 ^ 8 → u8 (lib.strtol (hex_digit (b / 16) ∷ hex_digit (b % 16) ∷ [])) ≡ b
  pair_lem b h = rw (lib.two_digits (b / 16) (b % 16) (omega arith) (omega arith)) (omega arith)

  hext_to_bytes-append :
      (bs rest : List ℕ)
      → AreBytes bs
      → hext_to_bytes lib (hex_of bs ++ rest) ≡ bs ++ hext_to_bytes lib rest
  unfolding hext_to_bytes hex_of
  hext_to_bytes-append [] rest h = refl
  hext_to_bytes-append (b ∷ bs) rest h = rw (pair_lem b h.0, hext_to_bytes-append bs rest h.1)

  -- Bytes that are written as hexadecimal digits are read back, and a carriage return behind them
  -- is read as one more byte, 0.
  pub hext_to_bytes-roundtrip :
      (bs : List ℕ)
      → AreBytes bs
      → (hext_to_bytes lib (hex_of bs) ≡ bs)
        × (hext_to_bytes lib (hex_of bs ++ b'\r' ∷ []) ≡ bs ++ 0 ∷ [])
  unfolding hext_to_bytes
  hext_to_bytes-roundtrip bs h = (
    ap (hext_to_bytes lib) (sym (append-nil (hex_of bs)))
        ∙ hext_to_bytes-append bs [] h
        ∙ append-nil bs,
    hext_to_bytes-append bs (b'\r' ∷ []) h ∙ rw lib.no_digits,
  )

slice-zero : (xs rest : List ℕ) → slice 0 (length xs) (xs ++ rest) ≡ xs
unfolding slice
slice-zero [] [] = refl
slice-zero [] (x ∷ rest) = refl
slice-zero (x ∷ xs) rest = ap (λ t. x ∷ t) (slice-zero xs rest)

-- The data of a record stand behind four bytes and before two.
pub slice-payload :
    (a b c d : ℕ) (xs : List ℕ) (y z : ℕ)
    → let bytes = a ∷ b ∷ c ∷ d ∷ (xs ++ y ∷ z ∷ []) in slice 4 (length bytes - 2) bytes ≡ xs
unfolding slice
slice-payload a b c d xs y z =
    let rest = y ∷ z ∷ [] in
    let e : suc (suc (suc (suc (length (xs ++ rest))))) - 2 - 1 - 1 - 1 - 1 ≡ length xs =
      omega (arith, length-append xs rest) in
    ap (λ n. slice 0 n (xs ++ rest)) e ∙ slice-zero xs rest

-- A position that is there.
pub at-append : (xs : List ℕ) (y : ℕ) (zs : List ℕ) → at (xs ++ y ∷ zs) (length xs) ≡ done y
unfolding at
at-append [] y zs = refl
at-append (x ∷ xs) y zs = at-append xs y zs
