-- ===== src/Hex/Format.antt =====
-- What the Intel HEX format says of a file, byte by byte, with no regard to the loader.
use riscv_openocd_jtag_mock.Prelude.{
  ℕ, ◌+◌, ◌-◌, ◌*◌, ◌/◌, ◌%◌, ◌^◌, ◌<◌, ◌≤◌, ◌≡◌, ◌&&◌, leb, ltb, if◌then◌else◌, List, [], ◌∷◌,
  length, get_or,
}
use riscv_openocd_jtag_mock.Hex.Bytes.{AreBytes}
use riscv_openocd_jtag_mock.Hex.Records.{
  HexRecord, payload, extended_segment_address, extended_linear_address, start_segment_address,
  start_linear_address, end_of_file,
}

-- A program in memory: what is added to the addresses of the records to come, the address to start at,
-- and the byte at each address.
pub record Program : Type 0 where
  pub base : ℕ
  pub start : ℕ
  pub byte : ℕ → ℕ

-- The bytes of a record stand from its address on, behind the base. An extended segment address is the
-- base over 16, an extended linear one the base over 2^16; a start is a segment CS in the upper half and
-- an offset IP in the lower, or a plain address.
unfoldable pub says : HexRecord → Program → Program
says (payload a bs) p = record p {
  byte = λ b.
      if leb (p.base + a) b && ltb b (p.base + a + length bs)
      then get_or bs (b - (p.base + a)) 0
      else p.byte b;
}
says (extended_segment_address h) p = record p { base = h * 16 }
says (extended_linear_address h) p = record p { base = h * 2 ^ 16 }
says (start_segment_address w) p = record p { start = w / 2 ^ 16 * 16 + w % 2 ^ 16 }
says (start_linear_address w) p = record p { start = w }
says end_of_file p = p

-- The records one after the other, until the one that ends the file.
unfoldable pub said : List HexRecord → Program → Program
said [] p = p
said (end_of_file ∷ rs) p = p
said (r ∷ rs) p = said rs (says r p)

-- The records on which the loader keeps to the format: whole words at addresses of words, which do not
-- pass the end of a segment of 2^16 bytes; a segment only where it is 0.
abbrev pub IsSupported : HexRecord → Type 0
IsSupported (payload a bs) =
    AreBytes bs
    × (a % 4 ≡ 0)
    × (length bs % 4 ≡ 0)
    × (a < 2 ^ 16)
    × (a + length bs ≤ 2 ^ 16)
    × (length bs < 2 ^ 8)
IsSupported (extended_segment_address h) = h ≡ 0
IsSupported (extended_linear_address h) = h < 2 ^ 16
IsSupported (start_segment_address w) = w < 2 ^ 16
IsSupported (start_linear_address w) = w < 2 ^ 32
IsSupported end_of_file = Unit {0}

-- A file of such records, with nothing behind the end.
abbrev pub AreSupported : List HexRecord → Type 0
AreSupported [] = Unit {0}
AreSupported (end_of_file ∷ rs) = rs ≡ []
AreSupported (r ∷ rs) = IsSupported r × AreSupported rs
