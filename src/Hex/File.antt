-- ===== src/Hex/File.antt =====
-- The loader at work on files that write records: what it stores, word by word.
use riscv_openocd_jtag_mock.Prelude.{
  ◌≡◌, inl, inr, refl, ap, ◌∙◌, arith, List, [], ◌∷◌, map, length, some, done,
}
use riscv_openocd_jtag_mock.Hex.{
  Library, IHexLoader, slice, process_record, process_hex_line, process_lines, load_ihex_file,
}
use riscv_openocd_jtag_mock.Hex.Records.{
  HexRecord, payload, extended_segment_address, extended_linear_address, start_segment_address,
  start_linear_address, end_of_file, IsHexRecord, AreHexRecords, bytes_of_record, checksum, line_of,
  meaning, meanings,
}
use riscv_openocd_jtag_mock.Hex.Lines.{
  view, whole_line, address_line, start_line, process_payload, process_hex_line-text,
}

module _ (lib : Library) where
  process_hex_line-line_of :
      (r : HexRecord) (l : IHexLoader)
      → IsHexRecord r
      → (l' : IHexLoader) × (process_hex_line lib (line_of r) l ≡ done (0, l'))
        × (view lib l' ≡ meaning r (view lib l))
  unfolding process_record meaning slice
  process_hex_line-line_of (payload a bs) l h =
      let (l', processed, means) = process_payload lib a bs l h in
      (
        l',
        whole_line lib (length bs) a bs (checksum (bytes_of_record (payload a bs))) l h.3 h.1 h.0
              (omega arith)
            ∙ rw processed,
        means,
      )
  process_hex_line-line_of (extended_segment_address h) l small =
      address_line lib 2 h (checksum (bytes_of_record (extended_segment_address h))) l (inl refl)
        small (omega arith)
  process_hex_line-line_of (extended_linear_address h) l small =
      address_line lib 4 h (checksum (bytes_of_record (extended_linear_address h))) l (inr refl)
        small (omega arith)
  process_hex_line-line_of (start_segment_address w) l small =
      start_line lib 3 w (checksum (bytes_of_record (start_segment_address w))) l (inl refl) small
        (omega arith)
  process_hex_line-line_of (start_linear_address w) l small =
      start_line lib 5 w (checksum (bytes_of_record (start_linear_address w))) l (inr refl) small
        (omega arith)
  process_hex_line-line_of end_of_file l small = (
    l,
    process_hex_line-text lib 0 0 0 1 [] (checksum (bytes_of_record end_of_file)) l
        (omega arith, (omega arith, (omega arith, (omega arith, tt)))) (omega arith),
    refl,
  )

  process_lines-map :
      (rs : List HexRecord) (l : IHexLoader)
      → AreHexRecords rs
      → (l' : IHexLoader) × (process_lines lib (map line_of rs) l ≡ done l')
        × (view lib l' ≡ meanings rs (view lib l))
  unfolding process_lines meanings
  process_lines-map [] l h = (l, refl, refl)
  process_lines-map (r ∷ rs) l h =
      let (l', reads, means) = process_hex_line-line_of r l h.0 in
      let (last, rest, meant) = process_lines-map rs l' h.1 in
      (last, rw reads rest, meant ∙ ap (meanings rs) means)

  -- A file of records is loaded as `meanings` stores them, whatever the loader held before: loading
  -- returns 0. The conditions are that the numbers of the records fit their bytes, and that the words
  -- do not pass the end of a segment.
  pub load_ihex_file_words :
      (rs : List HexRecord) (l : IHexLoader)
      → AreHexRecords rs
      → (l' : IHexLoader) × (load_ihex_file lib (some (map line_of rs)) l ≡ done (0, l'))
        × (view lib l' ≡ meanings rs (view lib l))
  unfolding load_ihex_file
  load_ihex_file_words rs l h =
      let (l', reads, means) = process_lines-map rs l h in (l', rw reads, means)
