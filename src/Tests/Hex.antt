-- ===== src/Tests/Hex.antt =====
-- The hex loader on records of loop_example/example.hex.
use riscv_openocd_jtag_mock.Prelude.{
  ℕ, ◌+◌, ◌-◌, ◌*◌, ◌<◌, ◌≡◌, ◌==◌, refl, arith, true, false, ltb, if◌then◌else◌, List, [], ◌∷◌,
  none, some, done, aborted, Returns,
}
use riscv_openocd_jtag_mock.Hex.{
  Library, hex_digit, new_loader, hext_to_bytes, process_hex_line, load_ihex_file,
}
use riscv_openocd_jtag_mock.Hex.Bytes.{hex_of}
use riscv_openocd_jtag_mock.Hex.Records.{
  HexRecord, payload, extended_linear_address, start_linear_address, end_of_file, line_of, total,
}
use riscv_openocd_jtag_mock.Hex.Format.{says, said}
use riscv_openocd_jtag_mock.Hex.Load.{program_of}
use riscv_openocd_jtag_mock.Hex.Lines.{view}
use riscv_openocd_jtag_mock.Hex.Totality.{any_malformed, load_ihex_file_total}
use riscv_openocd_jtag_mock.Hex.Ends.{line_without_return, line_without_return_lem}

abbrev digit_value : ℕ → ℕ
digit_value c = if ltb c b'A' then c - b'0' else c - b'A' + 10

-- `strtol` on at most two upper-case digits, or a carriage return.
abbrev read_digits : List ℕ → ℕ
read_digits [] = 0
read_digits (c ∷ []) = if c == b'\r' then 0 else digit_value c
read_digits (c ∷ d ∷ rest) = 16 * digit_value c + digit_value d

digit_lem : (d : ℕ) → d < 16 → digit_value (hex_digit d) ≡ d
digit_lem d h = ground arith

abbrev sample_library : Library
sample_library = record {
  strtol = read_digits;
  fresh = λ k j. 7 * j;
  two_digits = λ h l p q. rw (digit_lem h p, digit_lem l q);
  no_digits = refl;
}

abbrev instructions : List ℕ
instructions = 0x13 ∷ 0x01 ∷ 0x01 ∷ 0xFE ∷ 0x23 ∷ 0x2E ∷ 0x81 ∷ 0x00 ∷ []

-- Records of the example file: the first two instructions, and the start.
abbrev sample_file : List HexRecord
sample_file =
    extended_linear_address 0x4000
    ∷ payload 0 instructions
    ∷ start_linear_address 0x40000000
    ∷ end_of_file
    ∷ []

-- What the format says of them.
sample_file-said :
    let p = said sample_file (program_of (view sample_library new_loader)) in
    (p.start ≡ 0x40000000)
    × (p.byte 0x40000000 ≡ 0x13)
    × (p.byte 0x40000003 ≡ 0xFE)
    × (p.byte 0x40000006 ≡ 0x81)
unfolding said says
sample_file-said = (refl, refl, refl, refl)

-- A line as it stands in the example file.
second_line :
    line_of (payload 0x0194 (0x31 ∷ 0x00 ∷ []))
    ≡ b':' ∷ b'0' ∷ b'2' ∷ b'0' ∷ b'1' ∷ b'9' ∷ b'4' ∷ b'0' ∷ b'0' ∷ b'3' ∷ b'1' ∷ b'0' ∷ b'0'
      ∷ b'3' ∷ b'8' ∷ b'\r' ∷ []
unfolding hex_of total
second_line = refl

-- A file of an address record that is cut off, behind a line that is no record.
abbrev cut_file : List (List ℕ)
cut_file = (b'#' ∷ []) ∷ (b':' ∷ hex_of (2 ∷ 0 ∷ 0 ∷ 4 ∷ 0x40 ∷ [])) ∷ []

load_ihex_file_total_example :
    (load_ihex_file sample_library none new_loader ≡ done (255, new_loader))
    × (any_malformed sample_library cut_file ≡ true
        → load_ihex_file sample_library (some cut_file) new_loader ≡ aborted)
    × (any_malformed sample_library cut_file ≡ false
        → Returns (λ x. x.0 ≡ 0) (load_ihex_file sample_library (some cut_file) new_loader))
load_ihex_file_total_example = load_ihex_file_total sample_library cut_file new_loader

cut_file-malformed : any_malformed sample_library cut_file ≡ true
unfolding hext_to_bytes hex_of
cut_file-malformed = refl

line_without_return_lem_example :
    process_hex_line sample_library
      (line_without_return (payload 0x0194 (0x31 ∷ 0x00 ∷ [])))
      new_loader
    ≡ process_hex_line sample_library (line_of (payload 0x0194 (0x31 ∷ []))) new_loader
line_without_return_lem_example =
    line_without_return_lem sample_library 0x0194 (0x31 ∷ []) 0x00 new_loader (omega arith, tt)
      (omega arith) (omega arith) (omega arith)
