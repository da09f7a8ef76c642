-- ===== src/Hex/Records.antt =====
-- The records of a hex file, how they are written, and what the loader makes of them. What the format
-- says of them stands in Hex/Format.
use riscv_openocd_jtag_mock.Prelude.{
  ℕ, ◌+◌, ◌-◌, ◌*◌, ◌/◌, ◌%◌, ◌^◌, ◌<◌, ◌≤◌, ◌&&◌, ◌==◌, leb, ltb, if◌then◌else◌, List, [], ◌∷◌,
  ◌++◌, length, get_or,
}
use riscv_openocd_jtag_mock.Hex.Bytes.{AreBytes, hex_of}
use riscv_openocd_jtag_mock.Hex.Words.{bytes_of_word, words_of}

-- Bytes from an address on behind the base of the addresses to come, that base over 16 or over 2^16, the
-- address to start at as CS:IP or as a plain one, and the end.
pub data HexRecord : Type 0 where
  payload : ℕ → List ℕ → HexRecord
  extended_segment_address : ℕ → HexRecord
  extended_linear_address : ℕ → HexRecord
  start_segment_address : ℕ → HexRecord
  start_linear_address : ℕ → HexRecord
  end_of_file : HexRecord

-- What can be written: bytes that one byte counts and that, in words, do not pass the end of the
-- segment, and numbers of two bytes and of four.
abbrev pub IsHexRecord : HexRecord → Type 0
IsHexRecord (payload a bs) =
    AreBytes bs × (a < 2 ^ 16) × (a + 4 * length (words_of bs) ≤ 2 ^ 16) × (length bs < 2 ^ 8)
IsHexRecord (extended_segment_address h) = h < 2 ^ 16
IsHexRecord (extended_linear_address h) = h < 2 ^ 16
IsHexRecord (start_segment_address w) = w < 2 ^ 32
IsHexRecord (start_linear_address w) = w < 2 ^ 32
IsHexRecord end_of_file = Unit {0}

abbrev pub AreHexRecords : List HexRecord → Type 0
AreHexRecords [] = Unit {0}
AreHexRecords (r ∷ rs) = IsHexRecord r × AreHexRecords rs

-- The length, the address, the type and the data.
abbrev pub bytes_of_record : HexRecord → List ℕ
bytes_of_record (payload a bs) = length bs ∷ a / 2 ^ 8 ∷ a % 2 ^ 8 ∷ 0 ∷ bs
bytes_of_record (extended_segment_address h) = 2 ∷ 0 ∷ 0 ∷ 2 ∷ h / 2 ^ 8 ∷ h % 2 ^ 8 ∷ []
bytes_of_record (extended_linear_address h) = 2 ∷ 0 ∷ 0 ∷ 4 ∷ h / 2 ^ 8 ∷ h % 2 ^ 8 ∷ []
bytes_of_record (start_segment_address w) = 4 ∷ 0 ∷ 0 ∷ 3 ∷ bytes_of_word w
bytes_of_record (start_linear_address w) = 4 ∷ 0 ∷ 0 ∷ 5 ∷ bytes_of_word w
bytes_of_record end_of_file = 0 ∷ 0 ∷ 0 ∷ 1 ∷ []

-- The byte that makes the sum of a line's bytes a multiple of 256.
unfoldable pub total : List ℕ → ℕ
total [] = 0
total (b ∷ bs) = b + total bs

abbrev pub checksum : List ℕ → ℕ
checksum bs = (2 ^ 8 - total bs % 2 ^ 8) % 2 ^ 8

-- A line, with the carriage return that `getline()` leaves at its end.
abbrev pub text : List ℕ → ℕ → List ℕ
text bs sum = b':' ∷ hex_of (bs ++ sum ∷ []) ++ b'\r' ∷ []

abbrev pub line_of : HexRecord → List ℕ
line_of r = let bs = bytes_of_record r in text bs (checksum bs)

-- What the loader has stored: the base that the last address record gave, the address to start at, and
-- the words by the segment and the index within it.
pub record Contents : Type 0 where
  pub segment : ℕ
  pub entry : ℕ
  pub word : ℕ → ℕ → ℕ

-- What the loader makes of a record: bytes are put together to words, and the words replace those that
-- stand there, from the word on in which the address lies; both address records, and both starts, are
-- taken alike.
unfoldable pub meaning : HexRecord → Contents → Contents
meaning (payload a bs) c =
    let ws = words_of bs in
    record c {
      word = λ k j.
          if k == c.segment && (leb (a / 4) j && ltb j (a / 4 + length ws))
          then get_or ws (j - a / 4) 0
          else c.word k j;
    }
meaning (extended_segment_address h) c = record c { segment = h * 2 ^ 16 }
meaning (extended_linear_address h) c = record c { segment = h * 2 ^ 16 }
meaning (start_segment_address w) c = record c { entry = w }
meaning (start_linear_address w) c = record c { entry = w }
meaning end_of_file c = c

unfoldable pub meanings : List HexRecord → Contents → Contents
meanings [] c = c
meanings (r ∷ rs) c = meanings rs (meaning r c)
