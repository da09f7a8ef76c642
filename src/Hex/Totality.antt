-- ===== src/Hex/Totality.antt =====
-- How loading a hex file can end.
use riscv_openocd_jtag_mock.Prelude.{
  ℕ, zero, suc, ◌+◌, ◌-◌, ◌*◌, ◌/◌, ◌%◌, ◌^◌, ◌<◌, ◌≡◌, inl, inr, refl, arith, Bool, true, false,
  ◌&&◌, ◌||◌, ◌==◌, ltb, Bool-cases, List, [], ◌∷◌, length, get_or, none, some, Outcome, done,
  aborted, Returns, Returns->>=, Returns-map, >>=-Returns,
}
use riscv_openocd_jtag_mock.Word.{shl32, ◌|||◌, bit_or-add}
use riscv_openocd_jtag_mock.Cpu.{Segments}
use riscv_openocd_jtag_mock.Hex.{
  Library, IHexLoader, at, slice, put_word, process_data, process_address, process_record,
  process_bytes, process_hex_line, process_lines, load_ihex_file, store_bytes, reserve,
  hext_to_bytes,
}
use riscv_openocd_jtag_mock.Hex.Bytes.{AreBytes}
use riscv_openocd_jtag_mock.Hex.Store.{IsReserved, put_word_lem, reserve_lem}

-- Four bytes stand before the data, and the two of an address record behind them.
abbrev pub is_short : List ℕ → Bool
is_short bytes =
    let type = get_or bytes 3 0 in
    ltb (length bytes) 4 || (ltb (length bytes) 6 && (type == 2 || type == 4))

at_lem : (bs : List ℕ) (i : ℕ) → i < length bs → (b : ℕ) × (at bs i ≡ done b)
unfolding at
at_lem [] i h = absurd (omega arith)
at_lem (b ∷ bs) zero h = (b, refl)
at_lem (b ∷ bs) (suc i) h = at_lem bs i (omega arith)

module _ (lib : Library) where
  -- A line is malformed if it is empty, or has the colon and too few bytes.
  abbrev pub is_malformed : List ℕ → Bool
  is_malformed [] = true
  is_malformed (c ∷ line) = c == b':' && is_short (hext_to_bytes lib line)

  abbrev pub any_malformed : List (List ℕ) → Bool
  any_malformed [] = false
  any_malformed (line ∷ lines) = is_malformed line || any_malformed lines

  hext_to_bytes-AreBytes : (cs : List ℕ) → AreBytes (hext_to_bytes lib cs)
  unfolding hext_to_bytes
  hext_to_bytes-AreBytes [] = tt
  hext_to_bytes-AreBytes (c ∷ []) = (omega arith, tt)
  hext_to_bytes-AreBytes (c ∷ d ∷ cs) = (omega arith, hext_to_bytes-AreBytes cs)

  put_word-Returns :
      (key index w : ℕ) (m : Segments)
      → IsReserved key m
      → index < 16384
      → Returns (IsReserved key) (put_word key index w m)
  put_word-Returns key index w m found h =
      let (m', puts, p) = put_word_lem lib.fresh key index w m found h in rw puts p.reserved

  store_bytes-Returns :
      (key word_read word a : ℕ) (bs : List ℕ) (m : Segments)
      → IsReserved key m
      → a < 2 ^ 16
      → Returns (IsReserved key) (store_bytes key word_read word a bs m)
  unfolding store_bytes
  store_bytes-Returns key word_read word a [] m found h = elim (Bool-cases (word_read == 0)) [
    | inl none_left ↦ rw none_left found
    | inr some_left ↦ rw some_left (put_word-Returns key (a / 4) word m found (omega arith))
  ]
  store_bytes-Returns key word_read word a (b ∷ bs) m found h =
      let word' = shl32 word 8 ||| b in
      elim (Bool-cases (word_read + 1 == 4)) [
        | inl full ↦ rw full (
            Returns->>= (IsReserved key) (IsReserved key) (put_word key (a / 4) word' m)
              (λ m'. store_bytes key 0 0 ((a + 4) % 2 ^ 16) bs m')
              (put_word-Returns key (a / 4) word' m found (omega arith))
              (λ m' found'.
                store_bytes-Returns key 0 0 ((a + 4) % 2 ^ 16) bs m' found' (omega arith)))
        | inr part ↦ rw part (store_bytes-Returns key (word_read + 1) word' a bs m found h)
      ]

  process_data-Returns :
      (a : ℕ) (payload : List ℕ) (l : IHexLoader)
      → a < 2 ^ 16
      → Returns (λ l'. Unit {0}) (process_data lib a payload l)
  unfolding process_data
  process_data-Returns a payload l h =
      let key = l.current_address in
      let m = reserve lib.fresh key l.segments in
      Returns->>= (IsReserved key) (λ l'. Unit {0}) (store_bytes key 0 0 a payload m)
        (λ m'. done (record l { segments = m' }))
        (store_bytes-Returns key 0 0 a payload m (reserve_lem lib.fresh key l.segments).0 h)
        (λ m' r. tt)

  process_address_lem :
      (bytes : List ℕ) (l : IHexLoader)
      → (ltb (length bytes) 6 ≡ true → process_address lib bytes l ≡ aborted)
        × (ltb (length bytes) 6 ≡ false → Returns (λ l'. Unit {0}) (process_address lib bytes l))
  unfolding process_address at
  process_address_lem [] l = (λ h. refl, λ h. absurd (ground arith))
  process_address_lem (a ∷ []) l = (λ h. refl, λ h. absurd (ground arith))
  process_address_lem (a ∷ b ∷ []) l = (λ h. refl, λ h. absurd (ground arith))
  process_address_lem (a ∷ b ∷ c ∷ []) l = (λ h. refl, λ h. absurd (ground arith))
  process_address_lem (a ∷ b ∷ c ∷ d ∷ []) l = (λ h. refl, λ h. absurd (ground arith))
  process_address_lem (a ∷ b ∷ c ∷ d ∷ e ∷ []) l = (λ h. refl, λ h. absurd (ground arith))
  process_address_lem (a ∷ b ∷ c ∷ d ∷ e ∷ f ∷ rest) l = (λ h. absurd (ground arith), λ h. tt)

  process_record_lem :
      (type address : ℕ) (bytes : List ℕ) (l : IHexLoader)
      → address < 2 ^ 16
      → let narrow = ltb (length bytes) 6 && (type == 2 || type == 4) in
        (narrow ≡ true → process_record lib type address bytes l ≡ aborted)
        × (narrow ≡ false → Returns (λ l'. Unit {0}) (process_record lib type address bytes l))
  unfolding process_record
  process_record_lem type address bytes l within =
      let payload = slice 4 (length bytes - 2) bytes in
      elim (Bool-cases (type == 0)) [
        | inl words ↦ (
          λ h. absurd (ground (arith, words, h)),
          λ h. rw words (process_data-Returns address payload l within),
        )
        | inr other ↦ elim (Bool-cases (type == 2 || type == 4)) [
          | inl upper ↦
              let (aborts, returns) = process_address_lem bytes l in
              (
                λ h. rw (other, upper) (aborts (ground (arith, upper, h))),
                λ h. rw (other, upper) (returns (ground (arith, upper, h))),
              )
          | inr no_upper ↦ (
            λ h. absurd (ground (arith, no_upper, h)),
            λ h.
                rw (other, no_upper)
                  (elim (Bool-cases (type == 3 || type == 5)) [
                    | inl starts ↦ rw starts tt
                    | inr unknown ↦ rw unknown tt
                  ]),
          )
        ]
      ]

  address_lem : (high low : ℕ) → high < 2 ^ 8 → low < 2 ^ 8 → (shl32 high 8 ||| low) < 2 ^ 16
  address_lem high low h k =
      let e : high * 2 ^ 8 % 2 ^ 32 ≡ high * 2 ^ 8 = omega arith in
      rw (e, bit_or-add 8 high low k) (omega arith)

  process_bytes_lem :
      (bytes : List ℕ) (l : IHexLoader)
      → AreBytes bytes
      → (is_short bytes ≡ true → process_bytes lib bytes l ≡ aborted)
        × (is_short bytes ≡ false → Returns (λ x. x.0 ≡ 0) (process_bytes lib bytes l))
  unfolding process_bytes at
  process_bytes_lem [] l fits = (λ h. refl, λ h. absurd (ground arith))
  process_bytes_lem (n ∷ []) l fits = (λ h. refl, λ h. absurd (ground arith))
  process_bytes_lem (n ∷ high ∷ []) l fits = (λ h. refl, λ h. absurd (ground arith))
  process_bytes_lem (n ∷ high ∷ low ∷ []) l fits = (λ h. refl, λ h. absurd (ground arith))
  process_bytes_lem (n ∷ high ∷ low ∷ type ∷ rest) l fits =
      let bytes = n ∷ high ∷ low ∷ type ∷ rest in
      let (sum, there) = at_lem bytes (length bytes - 2) (omega arith) in
      let (aborts, returns) =
        process_record_lem type (shl32 high 8 ||| low) bytes l
          (address_lem high low (omega (arith, fits)) (omega (arith, fits))) in
      (
        λ h. rw there (rw (aborts (ground (arith, h)))),
        λ h. rw there (
            Returns->>= (λ l'. Unit {0}) (λ x. x.0 ≡ 0)
              (process_record lib type (shl32 high 8 ||| low) bytes l) (λ l'. done (0, l'))
              (returns (ground (arith, h))) (λ l' r. refl)),
      )

  -- A malformed line aborts, and any other returns.
  process_hex_line_lem :
      (line : List ℕ) (l : IHexLoader)
      → (is_malformed line ≡ true → process_hex_line lib line l ≡ aborted)
        × (is_malformed line ≡ false → Returns (λ x. Unit {0}) (process_hex_line lib line l))
  unfolding process_hex_line
  process_hex_line_lem [] l = (λ h. refl, λ h. absurd (ground arith))
  process_hex_line_lem (c ∷ line) l =
      let bytes = hext_to_bytes lib line in
      let (aborts, returns) = process_bytes_lem bytes l (hext_to_bytes-AreBytes line) in
      elim (Bool-cases (c == b':')) [
        | inl colon ↦ (
          λ h. rw colon (aborts (ground (arith, colon, h))),
          λ h. rw colon (
              Returns-map (λ x. x.0 ≡ 0) (λ x. Unit {0}) (process_bytes lib bytes l) (λ x e. tt)
                (returns (ground (arith, colon, h)))),
        )
        | inr no_colon ↦ (λ h. absurd (ground (arith, no_colon, h)), λ h. rw no_colon tt)
      ]

  process_lines_lem :
      (lines : List (List ℕ)) (l : IHexLoader)
      → (any_malformed lines ≡ true → process_lines lib lines l ≡ aborted)
        × (any_malformed lines ≡ false → Returns (λ l'. Unit {0}) (process_lines lib lines l))
  unfolding process_lines
  process_lines_lem [] l = (λ h. absurd (ground arith), λ h. tt)
  process_lines_lem (line ∷ lines) l =
      let rest : IHexLoader → Outcome IHexLoader = λ l'. process_lines lib lines l' in
      let (aborts, returns) = process_hex_line_lem line l in
      let P : ℕ × IHexLoader → Type 0 = λ x. Unit {0} in
      elim (Bool-cases (is_malformed line)) [
        | inl bad ↦ (λ h. rw (aborts bad), λ h. absurd (ground (arith, bad, h)))
        | inr good ↦ (
          λ h.
              >>=-Returns P (process_hex_line lib line l) (λ x. rest x.1) aborted (returns good)
                (λ x e. (process_lines_lem lines x.1).0 (ground (arith, good, h))),
          λ h.
              Returns->>= P (λ l'. Unit {0}) (process_hex_line lib line l) (λ x. rest x.1)
                (returns good) (λ x e. (process_lines_lem lines x.1).1 (ground (arith, good, h))),
        )
      ]

  -- Loading a hex file, whatever is in it, has one of three ends. If the file does not exist, it
  -- returns -1, as 255, and changes nothing. If a line is malformed, the program aborts, since
  -- nothing catches the exception of `at()`. If no line is, loading returns 0: so no word is ever
  -- written outside its segment.
  pub load_ihex_file_total :
      (lines : List (List ℕ)) (l : IHexLoader)
      → (load_ihex_file lib none l ≡ done (255, l))
        × (any_malformed lines ≡ true → load_ihex_file lib (some lines) l ≡ aborted)
        × (any_malformed lines ≡ false → Returns (λ x. x.0 ≡ 0) (load_ihex_file lib (some lines) l))
  unfolding load_ihex_file
  load_ihex_file_total lines l =
      let (aborts, returns) = process_lines_lem lines l in
      (
        refl,
        λ h. rw (aborts h),
        λ h.
            Returns->>= (λ l'. Unit {0}) (λ x. x.0 ≡ 0) (process_lines lib lines l)
              (λ l'. done (0, l')) (returns h) (λ l' e. refl),
      )
