-- ===== src/Hex.antt =====
-- The Intel-HEX loader of ihex_loader.h and ihex_loader.cpp. Both files stand there as comments, line
-- by line, in favour of the loader in the submodule riscv_assembler: this is the code within.
pub mod Bytes
pub mod Store
pub mod Words
pub mod Records
pub mod Lines
pub mod File
pub mod Format
pub mod Load
pub mod Totality
pub mod Ends
use Prim.Native.String.{String}
use riscv_openocd_jtag_mock.Prelude.{
  ℕ, zero, suc, ◌+◌, ◌-◌, ◌*◌, ◌/◌, ◌%◌, ◌^◌, ◌<◌, ◌≡◌, Bool, ◌||◌, ◌==◌, ltb, if◌then◌else◌, List,
  [], ◌∷◌, length, Option, none, some, Outcome, done, undefined, aborted, ◌>>=◌,
}
use riscv_openocd_jtag_mock.Word.{u8, u32, shl32, ◌|||◌}
use riscv_openocd_jtag_mock.Cpu.{Segment, Segments, find_segment, insert_segment}
use riscv_openocd_jtag_mock.Names.Switch.{switch}

-- The members of `IHexLoader`.
pub record IHexLoader : Type 0 where
  pub current_address : ℕ
  pub start_address : ℕ
  pub segments : Segments

unfoldable pub new_loader : IHexLoader
new_loader = record { current_address = 0x00; start_address = 0x00; segments = [] }

-- `strtol` with base 16, on one character or two: its result as a word of 64 bits. Two hexadecimal
-- digits are read as a number, and a carriage return is skipped as white space, so that there is no
-- number and the result is 0. And what `new uint32_t[16384]` contains, for each segment.
abbrev pub hex_digit : ℕ → ℕ
hex_digit d = if ltb d 10 then b'0' + d else b'A' + (d - 10)

pub record Library : Type 0 where
  pub strtol : List ℕ → ℕ
  pub fresh : ℕ → Segment
  pub two_digits :
      (h l : ℕ) → h < 16 → l < 16 → strtol (hex_digit h ∷ hex_digit l ∷ []) ≡ 16 * h + l
  pub no_digits : strtol (b'\r' ∷ []) ≡ 0

-- `byte_array.at(i)`, and `line.at(0)`: nothing catches the exception.
unfoldable pub at : List ℕ → ℕ → Outcome ℕ
at [] i = aborted
at (b ∷ bs) zero = done b
at (b ∷ bs) (suc i) = at bs i

-- The bytes from `begin` on, before `end`.
unfoldable pub slice : ℕ → ℕ → List ℕ → List ℕ
slice begin end [] = []
slice zero zero (b ∷ bs) = []
slice zero (suc end) (b ∷ bs) = b ∷ slice zero end bs
slice (suc begin) end (b ∷ bs) = slice begin (end - 1) bs

-- `segments.at(key)[index] = word`, on the 16384 words of a segment.
unfoldable pub put_word : ℕ → ℕ → ℕ → Segments → Outcome Segments
put_word key index word [] = aborted
put_word key index word ((k, s) ∷ m) =
    if k == key
    then (if ltb index 16384
        then done ((k, λ i. if i == index then word else s i) ∷ m)
        else undefined)
    else (put_word key index word m >>= λ m'. done ((k, s) ∷ m'))

-- The loop over the data bytes: `word_read`, `word` and `address` are its variables.
unfoldable pub store_bytes : ℕ → ℕ → ℕ → ℕ → List ℕ → Segments → Outcome Segments
store_bytes key word_read word address [] m =
    if word_read == 0 then done m else put_word key (address / 4) word m
store_bytes key word_read word address (b ∷ bs) m =
    let word' = shl32 word 8 ||| b in
    let next = put_word key (address / 4) word' m >>= λ m'.
    store_bytes key 0 0 ((address + 4) % 2 ^ 16) bs m' in
    let more = store_bytes key (word_read + 1) word' address bs m in
    if word_read + 1 == 4 then next else more

-- The loop over the bytes of a start address: it takes the first four.
unfoldable pub start_word : ℕ → ℕ → List ℕ → ℕ → ℕ
start_word word_read word [] start = start
start_word word_read word (b ∷ bs) start =
    let word' = shl32 word 8 ||| b in
    start_word (word_read + 1) word' bs (if word_read + 1 == 4 then word' else start)

-- The first data record for an address reserves memory.
unfoldable pub reserve : (ℕ → Segment) → ℕ → Segments → Segments
reserve fresh key m = elim (find_segment key m) [
  | none ↦ insert_segment key (fresh key) m
  | some s ↦ m
]

-- `print_ihex_type()`: what it prints.
abbrev pub ihex_type_cases : List (ℕ × String)
ihex_type_cases =
    (0x00, "DATA")
    ∷ (0x01, "END_OF_FILE")
    ∷ (0x02, "EXTENDED_SEGMENT_ADDRESS")
    ∷ (0x03, "START_SEGMENT_ADDRESS")
    ∷ (0x04, "EXTENDED_LINEAR_ADDRESS")
    ∷ (0x05, "START_LINEAR_ADDRESS")
    ∷ []

unfoldable pub print_ihex_type : ℕ → String
print_ihex_type ihex_type = switch ihex_type ihex_type_cases

module _ (lib : Library) where
  -- `hext_to_bytes()`: the characters in pairs, and a last one alone.
  unfoldable pub hext_to_bytes : List ℕ → List ℕ
  hext_to_bytes [] = []
  hext_to_bytes (c ∷ []) = u8 (lib.strtol (c ∷ [])) ∷ []
  hext_to_bytes (c ∷ d ∷ rest) = u8 (lib.strtol (c ∷ d ∷ [])) ∷ hext_to_bytes rest

  -- `case DATA`.
  unfoldable pub process_data : ℕ → List ℕ → IHexLoader → Outcome IHexLoader
  unfolding reserve
  process_data address payload l = do
    m ←
        store_bytes l.current_address 0 0 address payload
          (reserve lib.fresh l.current_address l.segments)
    done (record l { segments = m })

  -- Both address records.
  unfoldable pub process_address : List ℕ → IHexLoader → Outcome IHexLoader
  process_address bytes l = do
    high ← at bytes 4
    low ← at bytes 5
    done (record l { current_address = shl32 high 24 ||| shl32 low 16 })

  -- The `switch` on the type of the record.
  unfoldable pub process_record : ℕ → ℕ → List ℕ → IHexLoader → Outcome IHexLoader
  unfolding process_data process_address slice
  process_record type address bytes l =
      let payload = slice 4 (length bytes - 2) bytes in
      if type == 0x00
      then process_data address payload l
      else (if type == 0x02 || type == 0x04
          then process_address bytes l
          else (if type == 0x03 || type == 0x05
              then done (record l { start_address = start_word 0 0 payload l.start_address })
              else done l))

  -- The bytes behind the colon. The length and the checksum are read, and only printed.
  unfoldable pub process_bytes : List ℕ → IHexLoader → Outcome (ℕ × IHexLoader)
  unfolding process_record at
  process_bytes bytes l = do
    length' ← at bytes 0
    high ← at bytes 1
    low ← at bytes 2
    type ← at bytes 3
    checksum ← at bytes (length bytes - 2)
    l' ← process_record type (shl32 high 8 ||| low) bytes l
    done (0, l')

  -- `process_hex_line()`; -1 as a `uint8_t` is 255.
  unfoldable pub process_hex_line : List ℕ → IHexLoader → Outcome (ℕ × IHexLoader)
  unfolding process_bytes hext_to_bytes
  process_hex_line [] l = aborted
  process_hex_line (c ∷ line) l =
      if c == b':' then process_bytes (hext_to_bytes line) l else done (255, l)

  -- The loop of `load_ihex_file()`: what a line returns is ignored.
  unfoldable pub process_lines : List (List ℕ) → IHexLoader → Outcome IHexLoader
  process_lines [] l = done l
  process_lines (line ∷ lines) l =
      process_hex_line line l >>= λ (result, l'). process_lines lines l'

  -- `load_ihex_file()`, given the lines of the file if it exists.
  unfoldable pub load_ihex_file : Option (List (List ℕ)) → IHexLoader → Outcome (ℕ × IHexLoader)
  unfolding process_lines
  load_ihex_file none l = done (255, l)
  load_ihex_file (some lines) l = process_lines lines l >>= λ l'. done (0, l')
