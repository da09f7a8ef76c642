-- ===== src/Hex/Store.antt =====
-- The segments of the loader, as words by segment and index.
use riscv_openocd_jtag_mock.Prelude.{
  ℕ, zero, suc, ◌+◌, ◌-◌, ◌<◌, ◌≡◌, ◌⊎◌, inl, inr, refl, sym, ap, ◌∙◌, arith, ◌&&◌, ◌==◌, ltb, leb,
  Bool-cases, if◌then◌else◌, List, [], ◌∷◌, length, get_or, none, some, done,
}
use riscv_openocd_jtag_mock.Cpu.{Segment, Segments, find_segment, insert_segment}
use riscv_openocd_jtag_mock.Hex.{put_word, reserve}

-- The word at an index of a segment: one that is not there has the content of a fresh array.
unfoldable pub content : (ℕ → Segment) → Segments → ℕ → ℕ → ℕ
content fresh m key index =
    let segment : Segment = elim (find_segment key m) [ none ↦ fresh key | some s ↦ s ] in
    segment index

abbrev pub IsReserved : ℕ → Segments → Type 0
IsReserved key m = (s : Segment) × (find_segment key m ≡ some s)

find_segment-cases : (key : ℕ) (m : Segments) → (find_segment key m ≡ none) ⊎ IsReserved key m
unfolding find_segment
find_segment-cases key [] = inl refl
find_segment-cases key ((k, s) ∷ m) = elim (Bool-cases (k == key)) [
  | inl same ↦ inr (s, rw same)
  | inr other ↦ rw other (find_segment-cases key m)
]

module _ (fresh : ℕ → Segment) where
  -- What a store leaves.
  pub record IsPut (key index w : ℕ) (m m' : Segments) : Type 0 where
    pub reserved : IsReserved key m'
    pub contents :
        (k j : ℕ)
        → content fresh m' k j ≡ (if k == key && j == index then w else content fresh m k j)

  pub put_word_lem :
      (key index w : ℕ) (m : Segments)
      → IsReserved key m
      → index < 16384
      → (m' : Segments) × (put_word key index w m ≡ done m') × IsPut key index w m m'
  unfolding put_word find_segment content
  put_word_lem key index w [] (s, e) h = absurd (ground arith)
  put_word_lem key index w ((k, s) ∷ m) found h = elim (Bool-cases (k == key)) [
    | inl same ↦
        let t : Segment = λ i. if i == index then w else s i in
        (
          (k, t) ∷ m,
          ground (arith, same),
          record { reserved = (t, ground (arith, same)); contents = λ l j. ground (arith, same) },
        )
    | inr other ↦
        let (m', puts, p) =
          put_word_lem key index w m (found.0, ground (arith, other, found.1)) h in
        (
          (k, s) ∷ m',
          rw other (rw puts),
          record {
            reserved = (p.reserved.0, rw other p.reserved.1);
            contents = λ l j. ground (arith, other, p.contents l j);
          },
        )
  ]

  -- The words from `index` on are `ws`, and all others are as before.
  pub record AreStored (key index : ℕ) (ws : List ℕ) (m m' : Segments) : Type 0 where
    pub reserved : IsReserved key m'
    pub contents :
        (k j : ℕ)
        → content fresh m' k j ≡ (
            if k == key && (leb index j && ltb j (index + length ws))
            then get_or ws (j - index) 0
            else content fresh m k j)

  get_or-behind : (w : ℕ) (ws : List ℕ) (d : ℕ) → 0 < d → get_or (w ∷ ws) d 0 ≡ get_or ws (d - 1) 0
  get_or-behind w ws zero h = absurd (omega arith)
  get_or-behind w ws (suc d) h =
      let e : suc d - 1 ≡ d = omega arith in ap (λ n. get_or ws n 0) (sym e)

  -- A word, and those behind it.
  pub next_word :
      (index next w k key j : ℕ) (ws : List ℕ) (old : ℕ)
      → (length ws ≡ 0) ⊎ (next ≡ index + 1)
      → (if k == key && (leb next j && ltb j (next + length ws))
          then get_or ws (j - next) 0
          else (if k == key && j == index then w else old))
        ≡ (if k == key && (leb index j && ltb j (index + length (w ∷ ws)))
            then get_or (w ∷ ws) (j - index) 0
            else old)
  next_word index next w k key j ws old h =
      let d = j - index in
      let behind : 0 < d → get_or (w ∷ ws) d 0 ≡ get_or ws (d - 1) 0 = get_or-behind w ws d in
      let front : j ≡ index → get_or (w ∷ ws) d 0 ≡ w =
        λ e. let z : d ≡ 0 = omega (arith, e) in ap (λ n. get_or (w ∷ ws) n 0) z in
      let same : next ≡ index + 1 → get_or ws (j - next) 0 ≡ get_or ws (d - 1) 0 =
        λ e. let z : j - next ≡ d - 1 = omega (arith, e) in ap (λ n. get_or ws n 0) z in
      ground (arith, h, behind, front, same)

  last_word :
      (index w k key j old : ℕ)
      → (if k == key && j == index then w else old) ≡ (
          if k == key && (leb index j && ltb j (index + 1))
          then get_or (w ∷ []) (j - index) 0
          else old)
  last_word index w k key j old =
      let front : j ≡ index → get_or (w ∷ []) (j - index) 0 ≡ w =
        λ e. let z : j - index ≡ 0 = omega (arith, e) in ap (λ n. get_or (w ∷ []) n 0) z in
      ground (arith, front)

  -- One store of what is left at the end.
  pub store_last :
      (key index v w : ℕ) (m : Segments)
      → IsReserved key m
      → index < 16384
      → v ≡ w
      → (m' : Segments) × (put_word key index v m ≡ done m') × AreStored key index (w ∷ []) m m'
  store_last key index v w m found h e =
      let (m', puts, p) = put_word_lem key index w m found h in
      (
        m',
        rw e puts,
        record {
          reserved = p.reserved;
          contents = λ k j. p.contents k j ∙ last_word index w k key j (content fresh m k j);
        },
      )

  pub reserve_lem :
      (key : ℕ) (m : Segments)
      → IsReserved key (reserve fresh key m)
        × ((k j : ℕ) → content fresh (reserve fresh key m) k j ≡ content fresh m k j)
  unfolding reserve content find_segment insert_segment
  reserve_lem key m = elim (find_segment-cases key m) [
    | inl none_there ↦ ((fresh key, ground (arith, none_there)), λ k j. ground (arith, none_there))
    | inr (s, there) ↦ ((s, ground (arith, there)), λ k j. ground (arith, there))
  ]
