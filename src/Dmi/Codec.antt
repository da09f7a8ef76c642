-- ===== src/Dmi/Codec.antt =====
-- `dmi` as a sum of its fields, and the round trips between the word and its fields.
use riscv_openocd_jtag_mock.Prelude.{ℕ, ◌+◌, ◌*◌, ◌/◌, ◌%◌, ◌^◌, ◌<◌, bit_or, ◌≡◌, arith}
use riscv_openocd_jtag_mock.Word.{bit_and-mod, or_add}
use riscv_openocd_jtag_mock.Dmi.{get_dmi_address, get_dmi_data, get_dmi_op, printed_dmi, pack_dmi}

get_dmi_address-mod : (w : ℕ) → get_dmi_address w ≡ w / 2 ^ 34 % 128
unfolding get_dmi_address
get_dmi_address-mod w = bit_and-mod 7 (w / 2 ^ 34)

get_dmi_data-mod : (w : ℕ) → get_dmi_data w ≡ w / 4 % 2 ^ 32
unfolding get_dmi_data
get_dmi_data-mod w = bit_and-mod 32 (w / 4)

get_dmi_op-mod : (w : ℕ) → get_dmi_op w ≡ w % 4
unfolding get_dmi_op
get_dmi_op-mod w = omega (arith, bit_and-mod 2 (w / 1))

pub pack_dmi-sum : (a d o : ℕ) → pack_dmi a d o ≡ a % 128 * 2 ^ 34 + d % 2 ^ 32 * 4 + o % 4
unfolding pack_dmi
pack_dmi-sum a d o =
    let high : ℕ = a % 128 * 2 ^ 34 % 2 ^ 64 in
    let mid : ℕ = d % 2 ^ 32 * 4 % 2 ^ 64 in
    let low : ℕ = o % 4 * 1 % 2 ^ 64 in
    let e : bit_or high mid ≡ high + mid = or_add 34 high mid (omega arith) (omega arith) in
    let f : bit_or (high + mid) low ≡ high + mid + low =
      or_add 2 (high + mid) low (omega arith) (omega arith) in
    rw (bit_and-mod 7 a, bit_and-mod 32 d, bit_and-mod 2 o) (rw (e, f) (omega arith))

pub pack_dmi-lt : (a d o : ℕ) → pack_dmi a d o < 2 ^ 41
pack_dmi-lt a d o = omega (arith, pack_dmi-sum a d o)

pub get_dmi_address-pack_dmi : (a d o : ℕ) → get_dmi_address (pack_dmi a d o) ≡ a % 128
get_dmi_address-pack_dmi a d o =
    omega (arith, get_dmi_address-mod (pack_dmi a d o), pack_dmi-sum a d o)

pub get_dmi_data-pack_dmi : (a d o : ℕ) → get_dmi_data (pack_dmi a d o) ≡ d % 2 ^ 32
get_dmi_data-pack_dmi a d o = omega (arith, get_dmi_data-mod (pack_dmi a d o), pack_dmi-sum a d o)

pub get_dmi_op-pack_dmi : (a d o : ℕ) → get_dmi_op (pack_dmi a d o) ≡ o % 4
get_dmi_op-pack_dmi a d o = omega (arith, get_dmi_op-mod (pack_dmi a d o), pack_dmi-sum a d o)

printed_dmi-pack_dmi :
    (a d o : ℕ) → printed_dmi (pack_dmi a d o) ≡ (a % 2 ^ 7, d % 2 ^ 32, o % 2 ^ 2)
unfolding printed_dmi get_dmi_address get_dmi_data get_dmi_op
printed_dmi-pack_dmi a d o = λ i.
    (get_dmi_address-pack_dmi a d o i, get_dmi_data-pack_dmi a d o i, get_dmi_op-pack_dmi a d o i)

-- A word of 41 bits and its three fields determine each other: packing the fields that are read
-- from the word gives the word back, and the fields read from a packed word are the ones packed,
-- cut to their 7, 32 and 2 bits. What is printed of a packed word is these three.
pub pack_dmi-roundtrip :
    (w a d o : ℕ)
    → w < 2 ^ 41
    → (pack_dmi (get_dmi_address w) (get_dmi_data w) (get_dmi_op w) ≡ w)
      × (get_dmi_address (pack_dmi a d o) ≡ a % 2 ^ 7)
      × (get_dmi_data (pack_dmi a d o) ≡ d % 2 ^ 32)
      × (get_dmi_op (pack_dmi a d o) ≡ o % 2 ^ 2)
      × (printed_dmi (pack_dmi a d o) ≡ (a % 2 ^ 7, d % 2 ^ 32, o % 2 ^ 2))
pack_dmi-roundtrip w a d o h = (
  omega (
    arith,
    pack_dmi-sum (get_dmi_address w) (get_dmi_data w) (get_dmi_op w),
    get_dmi_address-mod w,
    get_dmi_data-mod w,
    get_dmi_op-mod w,
  ),
  get_dmi_address-pack_dmi a d o,
  get_dmi_data-pack_dmi a d o,
  get_dmi_op-pack_dmi a d o,
  printed_dmi-pack_dmi a d o,
)
