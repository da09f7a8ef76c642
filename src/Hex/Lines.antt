-- ===== src/Hex/Lines.antt =====
-- The loader at work on the line of one record.
use mathlib.Core.List.{append_assoc}
use riscv_openocd_jtag_mock.Prelude.{
  ℕ, ◌-◌, ◌*◌, ◌/◌, ◌%◌, ◌^◌, ◌<◌, ◌≡◌, ◌⊎◌, inl, inr, refl, ap, ◌∙◌, arith, List, [], ◌∷◌, ◌++◌,
  length, length-append, done, ◌>>=◌,
}
use riscv_openocd_jtag_mock.Word.{shl32, ◌|||◌, bit_or-add}
use riscv_openocd_jtag_mock.Hex.{
  Library, IHexLoader, at, slice, process_data, process_address, process_record, process_bytes,
  process_hex_line, start_word, reserve,
}
use riscv_openocd_jtag_mock.Hex.Bytes.{
  AreBytes, AreBytes-append, hext_to_bytes-roundtrip, slice-payload, at-append,
}
use riscv_openocd_jtag_mock.Hex.Store.{content, reserve_lem}
use riscv_openocd_jtag_mock.Hex.Words.{bytes_of_word, join_bytes, store_words}
use riscv_openocd_jtag_mock.Hex.Records.{payload, IsHexRecord, text, Contents, meaning}

module _ (lib : Library) where
  -- What the members of the loader say.
  unfoldable pub view : IHexLoader → Contents
  view l = record {
    segment = l.current_address;
    entry = l.start_address;
    word = content lib.fresh l.segments;
  }

  pub process_bytes-record :
      (n high low type : ℕ) (rest : List ℕ) (sum : ℕ) (l : IHexLoader)
      → let bytes = n ∷ high ∷ low ∷ type ∷ rest in
        at bytes (length bytes - 2) ≡ done sum
        → process_bytes lib bytes l
          ≡ (process_record lib type (shl32 high 8 ||| low) bytes l >>= λ l'. done (0, l'))
  unfolding process_bytes at
  process_bytes-record n high low type rest sum l h = rw h

  -- A line whose bytes are those of a record and a checksum, whatever it is.
  pub process_hex_line-text :
      (n high low type : ℕ) (bs : List ℕ) (sum : ℕ) (l : IHexLoader)
      → AreBytes (n ∷ high ∷ low ∷ type ∷ bs)
      → sum < 2 ^ 8
      → process_hex_line lib (text (n ∷ high ∷ low ∷ type ∷ bs) sum) l ≡ (
          process_record lib type
            (shl32 high 8 ||| low)
            (n ∷ high ∷ low ∷ type ∷ (bs ++ sum ∷ 0 ∷ []))
            l
          >>= λ l'. done (0, l'))
  unfolding process_hex_line
  process_hex_line-text n high low type bs sum l fits small =
      let all = n ∷ high ∷ low ∷ type ∷ bs in
      let end = sum ∷ 0 ∷ [] in
      let read =
        (hext_to_bytes-roundtrip lib (all ++ sum ∷ [])
          (AreBytes-append all (sum ∷ []) fits (small, tt))).1 in
      let e : length (all ++ end) - 2 ≡ length all = omega (arith, length-append bs end) in
      let there = ap (at (all ++ end)) e ∙ at-append all sum (0 ∷ []) in
      ap (λ b. process_bytes lib b l) (read ∙ append_assoc all (sum ∷ []) (0 ∷ []))
      ∙ process_bytes-record n high low type (bs ++ end) sum l there

  pub half_lem : (a : ℕ) → a < 2 ^ 16 → (shl32 (a / 2 ^ 8) 8 ||| (a % 2 ^ 8)) ≡ a
  half_lem a h =
      let e : a / 2 ^ 8 * 2 ^ 8 % 2 ^ 32 ≡ a / 2 ^ 8 * 2 ^ 8 = omega arith in
      rw (e, bit_or-add 8 (a / 2 ^ 8) (a % 2 ^ 8) (omega arith)) (omega arith)

  upper_lem : (h : ℕ) → h < 2 ^ 16 → (shl32 (h / 2 ^ 8) 24 ||| shl32 (h % 2 ^ 8) 16) ≡ h * 2 ^ 16
  upper_lem h small =
      let e : h / 2 ^ 8 * 2 ^ 24 % 2 ^ 32 ≡ h / 2 ^ 8 * 2 ^ 24 = omega arith in
      rw (e, bit_or-add 24 (h / 2 ^ 8) (shl32 (h % 2 ^ 8) 16) (omega arith)) (omega arith)

  pub process_payload :
      (a : ℕ) (bs : List ℕ) (l : IHexLoader)
      → IsHexRecord (payload a bs)
      → (l' : IHexLoader) × (process_data lib a bs l ≡ done l')
        × (view l' ≡ meaning (payload a bs) (view l))
  unfolding process_data view meaning
  process_payload a bs l (fits, within, room, count) =
      let key = l.current_address in
      let (found, same) = reserve_lem lib.fresh key l.segments in
      let (m, stores, p) =
        store_words lib.fresh key a bs (reserve lib.fresh key l.segments) found fits room in
      let each : (k j : ℕ) → content lib.fresh m k j ≡ (meaning (payload a bs) (view l)).word k j =
        λ k j. p.contents k j ∙ rw (same k j) in
      (
        record l { segments = m },
        rw stores,
        λ i. record {
          segment = l.current_address;
          entry = l.start_address;
          word = λ k j. each k j i;
        },
      )

  pub record-payload :
      (n high low : ℕ) (bs : List ℕ) (y z : ℕ) (l : IHexLoader) (address : ℕ)
      → process_record lib 0 address (n ∷ high ∷ low ∷ 0 ∷ (bs ++ y ∷ z ∷ [])) l
        ≡ process_data lib address bs l
  unfolding process_record
  record-payload n high low bs y z l address =
      ap (λ p. process_data lib address p l) (slice-payload n high low 0 bs y z)

  -- A data line.
  pub whole_line :
      (n a : ℕ) (bs : List ℕ) (sum : ℕ) (l : IHexLoader)
      → n < 2 ^ 8
      → a < 2 ^ 16
      → AreBytes bs
      → sum < 2 ^ 8
      → process_hex_line lib (text (n ∷ a / 2 ^ 8 ∷ a % 2 ^ 8 ∷ 0 ∷ bs) sum) l
        ≡ (process_data lib a bs l >>= λ l'. done (0, l'))
  whole_line n a bs sum l count within fits small =
      process_hex_line-text n (a / 2 ^ 8) (a % 2 ^ 8) 0 bs sum l
        (count, (omega arith, (omega arith, (omega arith, fits)))) small
      ∙ rw (half_lem a within, record-payload n (a / 2 ^ 8) (a % 2 ^ 8) bs sum 0 l a)

  -- An address line, of either type.
  pub address_line :
      (type h sum : ℕ) (l : IHexLoader)
      → (type ≡ 2) ⊎ (type ≡ 4)
      → h < 2 ^ 16
      → sum < 2 ^ 8
      → (l' : IHexLoader) × (process_hex_line lib
            (text (2 ∷ 0 ∷ 0 ∷ type ∷ h / 2 ^ 8 ∷ h % 2 ^ 8 ∷ []) sum)
            l
          ≡ done (0, l'))
        × (view l' ≡ record (view l) { segment = h * 2 ^ 16 })
  unfolding process_record process_address view at
  address_line type h sum l upper small smaller =
      let up = upper_lem h small in
      let l' = record l { current_address = shl32 (h / 2 ^ 8) 24 ||| shl32 (h % 2 ^ 8) 16 } in
      let read =
        process_hex_line-text 2 0 0 type (h / 2 ^ 8 ∷ h % 2 ^ 8 ∷ []) sum l
          (
            omega arith,
            (omega arith, (omega arith, (omega (arith, upper), (omega arith, (omega arith, tt))))),
          )
          smaller in
      (
        l',
        read ∙ ground (arith, upper),
        λ i. record {
          segment = up i;
          entry = l.start_address;
          word = content lib.fresh l.segments;
        },
      )

  pub start_line :
      (type w sum : ℕ) (l : IHexLoader)
      → (type ≡ 3) ⊎ (type ≡ 5)
      → w < 2 ^ 32
      → sum < 2 ^ 8
      → (l' : IHexLoader) × (process_hex_line lib (text (4 ∷ 0 ∷ 0 ∷ type ∷ bytes_of_word w) sum) l
          ≡ done (0, l'))
        × (view l' ≡ record (view l) { entry = w })
  unfolding process_record view slice start_word
  start_line type w sum l starts small smaller =
      let read =
        process_hex_line-text 4 0 0 type (bytes_of_word w) sum l
          (
            omega arith,
            (
              omega arith,
              (
                omega arith,
                (
                  omega (arith, starts),
                  (omega arith, (omega arith, (omega arith, (omega arith, tt)))),
                ),
              ),
            ),
          )
          smaller in
      (
        record l { start_address = w },
        read ∙ elim starts [
          | inl e ↦ rw e (ap (λ v. done (0, record l { start_address = v })) (join_bytes w small))
          | inr e ↦ rw e (ap (λ v. done (0, record l { start_address = v })) (join_bytes w small))
        ],
        refl,
      )
