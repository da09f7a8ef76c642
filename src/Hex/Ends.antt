-- ===== src/Hex/Ends.antt =====
-- Lines that end without a carriage return.
use mathlib.Core.List.{append_assoc}
use riscv_openocd_jtag_mock.Prelude.{
  ℕ, ◌-◌, ◌/◌, ◌%◌, ◌^◌, ◌<◌, ◌≡◌, sym, ap, ◌∙◌, arith, List, [], ◌∷◌, ◌++◌, length, length-append,
  done, ◌>>=◌,
}
use riscv_openocd_jtag_mock.Word.{shl32, ◌|||◌}
use riscv_openocd_jtag_mock.Hex.{
  Library, IHexLoader, at, process_data, process_record, process_bytes, process_hex_line,
}
use riscv_openocd_jtag_mock.Hex.Bytes.{
  AreBytes, AreBytes-append, hex_of, hext_to_bytes-roundtrip, at-append,
}
use riscv_openocd_jtag_mock.Hex.Records.{HexRecord, payload, bytes_of_record, checksum, line_of}
use riscv_openocd_jtag_mock.Hex.Lines.{process_bytes-record, half_lem, record-payload, whole_line}

-- A line of a file whose lines end with a line feed alone.
abbrev pub line_without_return : HexRecord → List ℕ
line_without_return r = let bs = bytes_of_record r in b':' ∷ hex_of (bs ++ checksum bs ∷ [])

module _ (lib : Library) where
  -- The last byte in front of the checksum is taken for the checksum.
  process_hex_line-without_return :
      (n high low type : ℕ) (bs : List ℕ) (last sum : ℕ) (l : IHexLoader)
      → AreBytes (n ∷ high ∷ low ∷ type ∷ bs)
      → last < 2 ^ 8
      → sum < 2 ^ 8
      → process_hex_line lib (b':' ∷ hex_of (n ∷ high ∷ low ∷ type ∷ (bs ++ last ∷ sum ∷ []))) l ≡ (
          process_record lib type
            (shl32 high 8 ||| low)
            (n ∷ high ∷ low ∷ type ∷ (bs ++ last ∷ sum ∷ []))
            l
          >>= λ l'. done (0, l'))
  unfolding process_hex_line
  process_hex_line-without_return n high low type bs last sum l fits small smaller =
      let all = n ∷ high ∷ low ∷ type ∷ bs in
      let end = last ∷ sum ∷ [] in
      let read =
        (hext_to_bytes-roundtrip lib (all ++ end)
          (AreBytes-append all end fits (small, (smaller, tt)))).0 in
      let e : length (all ++ end) - 2 ≡ length all = omega (arith, length-append bs end) in
      let there = ap (at (all ++ end)) e ∙ at-append all last (sum ∷ []) in
      ap (λ b. process_bytes lib b l) read
      ∙ process_bytes-record lib n high low type (bs ++ end) last l there

  short_line :
      (n a : ℕ) (bs : List ℕ) (last sum : ℕ) (l : IHexLoader)
      → n < 2 ^ 8
      → a < 2 ^ 16
      → AreBytes bs
      → last < 2 ^ 8
      → sum < 2 ^ 8
      → process_hex_line lib
          (b':' ∷ hex_of (n ∷ a / 2 ^ 8 ∷ a % 2 ^ 8 ∷ 0 ∷ (bs ++ last ∷ sum ∷ [])))
          l
        ≡ (process_data lib a bs l >>= λ l'. done (0, l'))
  short_line n a bs last sum l count within fits small smaller =
      process_hex_line-without_return n (a / 2 ^ 8) (a % 2 ^ 8) 0 bs last sum l
        (count, (omega arith, (omega arith, (omega arith, fits)))) small smaller
      ∙ rw (half_lem lib a within, record-payload lib n (a / 2 ^ 8) (a % 2 ^ 8) bs last sum l a)

  -- A data record in a file without carriage returns loses its last byte: the line does what the
  -- line with the carriage return does that has all bytes of the record but the last. The conditions
  -- are that the bytes have 8 bits, that one byte counts them, and that the address has 16 bits.
  pub line_without_return_lem :
      (a : ℕ) (bs : List ℕ) (last : ℕ) (l : IHexLoader)
      → AreBytes bs
      → last < 2 ^ 8
      → a < 2 ^ 16
      → length (bs ++ last ∷ []) < 2 ^ 8
      → process_hex_line lib (line_without_return (payload a (bs ++ last ∷ []))) l
        ≡ process_hex_line lib (line_of (payload a bs)) l
  line_without_return_lem a bs last l fits small within count =
      let n = length (bs ++ last ∷ []) in
      let sum = checksum (bytes_of_record (payload a (bs ++ last ∷ []))) in
      let parts = append_assoc bs (last ∷ []) (sum ∷ []) in
      let fewer : length bs < 2 ^ 8 = omega (arith, count, length-append bs (last ∷ [])) in
      ap (λ t. process_hex_line lib (b':' ∷ hex_of (n ∷ a / 2 ^ 8 ∷ a % 2 ^ 8 ∷ 0 ∷ t)) l) parts
      ∙ short_line n a bs last sum l count within fits small (omega arith)
      ∙ sym (
          whole_line lib (length bs) a bs (checksum (bytes_of_record (payload a bs))) l fewer within
            fits (omega arith))
