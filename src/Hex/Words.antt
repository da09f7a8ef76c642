-- ===== src/Hex/Words.antt =====
-- The loop over the data of a record: it stores words, highest byte first.
use riscv_openocd_jtag_mock.Prelude.{
  ℕ, ◌+◌, ◌*◌, ◌/◌, ◌%◌, ◌^◌, ◌<◌, ◌≤◌, ◌≡◌, refl, ◌∙◌, arith, List, [], ◌∷◌, length, done,
}
use riscv_openocd_jtag_mock.Word.{shl32, ◌|||◌, bit_or-add}
use riscv_openocd_jtag_mock.Cpu.{Segment, Segments}
use riscv_openocd_jtag_mock.Hex.{store_bytes}
use riscv_openocd_jtag_mock.Hex.Bytes.{AreBytes}
use riscv_openocd_jtag_mock.Hex.Store.{
  IsReserved, content, put_word_lem, AreStored, next_word, store_last,
}

-- The bytes of a word, as they stand in a record.
abbrev pub bytes_of_word : ℕ → List ℕ
bytes_of_word w = w / 2 ^ 24 ∷ w / 2 ^ 16 % 2 ^ 8 ∷ w / 2 ^ 8 % 2 ^ 8 ∷ w % 2 ^ 8 ∷ []

-- One more byte of a word.
shift_byte : (w b : ℕ) → w < 2 ^ 24 → b < 2 ^ 8 → (shl32 w 8 ||| b) ≡ w * 2 ^ 8 + b
shift_byte w b h k =
    let e : w * 2 ^ 8 % 2 ^ 32 ≡ w * 2 ^ 8 = omega arith in rw e (bit_or-add 8 w b k)

one_byte : (x : ℕ) → x < 2 ^ 8 → (shl32 0 8 ||| x) ≡ x
one_byte x h = rw (shift_byte 0 x (omega arith) h) (omega arith)

two_bytes : (x y : ℕ) → x < 2 ^ 8 → y < 2 ^ 8 → (shl32 (shl32 0 8 ||| x) 8 ||| y) ≡ x * 2 ^ 8 + y
two_bytes x y h k = rw (one_byte x h) (shift_byte x y (omega arith) k)

three_bytes :
    (x y z : ℕ)
    → x < 2 ^ 8
    → y < 2 ^ 8
    → z < 2 ^ 8
    → (shl32 (shl32 (shl32 0 8 ||| x) 8 ||| y) 8 ||| z) ≡ (x * 2 ^ 8 + y) * 2 ^ 8 + z
three_bytes x y z h k p = rw (two_bytes x y h k) (shift_byte (x * 2 ^ 8 + y) z (omega arith) p)

four_bytes :
    (x y z t : ℕ)
    → x < 2 ^ 8
    → y < 2 ^ 8
    → z < 2 ^ 8
    → t < 2 ^ 8
    → (shl32 (shl32 (shl32 (shl32 0 8 ||| x) 8 ||| y) 8 ||| z) 8 ||| t)
      ≡ ((x * 2 ^ 8 + y) * 2 ^ 8 + z) * 2 ^ 8 + t
four_bytes x y z t h k p q =
    rw (three_bytes x y z h k p) (shift_byte ((x * 2 ^ 8 + y) * 2 ^ 8 + z) t (omega arith) q)

pub join_bytes :
    (w : ℕ)
    → w < 2 ^ 32
    → (shl32
          (shl32 (shl32 (shl32 0 8 ||| (w / 2 ^ 24)) 8 ||| (w / 2 ^ 16 % 2 ^ 8)) 8
            ||| (w / 2 ^ 8 % 2 ^ 8))
          8
        ||| (w % 2 ^ 8))
      ≡ w
join_bytes w h =
    four_bytes (w / 2 ^ 24) (w / 2 ^ 16 % 2 ^ 8) (w / 2 ^ 8 % 2 ^ 8) (w % 2 ^ 8) (omega arith)
      (omega arith) (omega arith) (omega arith)
    ∙ omega arith

-- The words that bytes make, four bytes each, highest first; fewer at the end make a smaller number.
unfoldable pub words_of : List ℕ → List ℕ
words_of [] = []
words_of (a ∷ []) = a ∷ []
words_of (a ∷ b ∷ []) = (a * 2 ^ 8 + b) ∷ []
words_of (a ∷ b ∷ c ∷ []) = ((a * 2 ^ 8 + b) * 2 ^ 8 + c) ∷ []
words_of (a ∷ b ∷ c ∷ d ∷ bs) = (((a * 2 ^ 8 + b) * 2 ^ 8 + c) * 2 ^ 8 + d) ∷ words_of bs

module _ (fresh : ℕ → Segment) where
  pub store_words :
      (key a : ℕ) (bs : List ℕ) (m : Segments)
      → IsReserved key m
      → AreBytes bs
      → a + 4 * length (words_of bs) ≤ 2 ^ 16
      → (m' : Segments) × (store_bytes key 0 0 a bs m ≡ done m')
        × AreStored fresh key (a / 4) (words_of bs) m m'
  unfolding words_of store_bytes
  store_words key a [] m found fits room =
      (m, refl, record { reserved = found; contents = λ k j. ground arith })
  store_words key a (x ∷ []) m found fits room =
      store_last fresh key (a / 4) (shl32 0 8 ||| x) x m found (omega (arith, room))
        (one_byte x fits.0)
  store_words key a (x ∷ y ∷ []) m found fits room =
      store_last fresh key (a / 4) (shl32 (shl32 0 8 ||| x) 8 ||| y) (x * 2 ^ 8 + y) m found
        (omega (arith, room)) (two_bytes x y fits.0 fits.1.0)
  store_words key a (x ∷ y ∷ z ∷ []) m found fits room =
      store_last fresh key (a / 4) (shl32 (shl32 (shl32 0 8 ||| x) 8 ||| y) 8 ||| z)
        ((x * 2 ^ 8 + y) * 2 ^ 8 + z) m found (omega (arith, room))
        (three_bytes x y z fits.0 fits.1.0 fits.1.1.0)
  store_words key a (x ∷ y ∷ z ∷ t ∷ bs) m found fits room =
      let next = (a + 4) % 2 ^ 16 in
      let w = ((x * 2 ^ 8 + y) * 2 ^ 8 + z) * 2 ^ 8 + t in
      let ws = words_of bs in
      let (n, puts, p) = put_word_lem fresh key (a / 4) w m found (omega (arith, room)) in
      let (m', stores, q) =
        store_words key next bs n p.reserved fits.1.1.1.1 (omega (arith, room)) in
      (
        m',
        rw (four_bytes x y z t fits.0 fits.1.0 fits.1.1.0 fits.1.1.1.0, puts) stores,
        record {
          reserved = q.reserved;
          contents = λ k j.
              q.contents k j
              ∙ rw (p.contents k j) (
                  next_word fresh (a / 4) (next / 4) w k key j ws (content fresh m k j)
                    (omega (arith, room)));
        },
      )
