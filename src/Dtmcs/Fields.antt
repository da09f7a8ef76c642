-- ===== src/Dtmcs/Fields.antt =====
-- The word of `dtmcs`, and what is printed of it.
use riscv_openocd_jtag_mock.Prelude.{ℕ, ◌+◌, ◌*◌, ◌/◌, ◌%◌, ◌^◌, ◌≡◌, bit_or, ◌∙◌, arith}
use riscv_openocd_jtag_mock.Word.{bit_and-mod, or_add}
use riscv_openocd_jtag_mock.Dtmcs.{Dtmcs, pack_dtmcs, printed_dtmcs}

pack_dtmcs-sum :
    (d : Dtmcs)
    → pack_dtmcs d
      ≡ d.errinfo % 8 * 2 ^ 18
        + d.dtmhardreset % 2 * 2 ^ 17
        + d.dmireset % 2 * 2 ^ 16
        + d.idle % 8 * 2 ^ 12
        + d.dmistat % 4 * 2 ^ 10
        + d.abits % 64 * 2 ^ 4
        + d.version % 16
unfolding pack_dtmcs
pack_dtmcs-sum d =
    let e : ℕ = d.errinfo % 8 * 2 ^ 18 % 2 ^ 32 in
    let h : ℕ = d.dtmhardreset % 2 * 2 ^ 17 % 2 ^ 32 in
    let r : ℕ = d.dmireset % 2 * 2 ^ 16 % 2 ^ 32 in
    let i : ℕ = d.idle % 8 * 2 ^ 12 % 2 ^ 32 in
    let s : ℕ = d.dmistat % 4 * 2 ^ 10 % 2 ^ 32 in
    let a : ℕ = d.abits % 64 * 2 ^ 4 % 2 ^ 32 in
    let v : ℕ = d.version % 16 * 2 ^ 0 % 2 ^ 32 in
    let f1 : bit_or e h ≡ e + h = or_add 18 e h (omega arith) (omega arith) in
    let f2 : bit_or (e + h) r ≡ e + h + r = or_add 17 (e + h) r (omega arith) (omega arith) in
    let f3 : bit_or (e + h + r) i ≡ e + h + r + i =
      or_add 16 (e + h + r) i (omega arith) (omega arith) in
    let f4 : bit_or (e + h + r + i) s ≡ e + h + r + i + s =
      or_add 12 (e + h + r + i) s (omega arith) (omega arith) in
    let f5 : bit_or (e + h + r + i + s) a ≡ e + h + r + i + s + a =
      or_add 10 (e + h + r + i + s) a (omega arith) (omega arith) in
    let f6 : bit_or (e + h + r + i + s + a) v ≡ e + h + r + i + s + a + v =
      or_add 4 (e + h + r + i + s + a) v (omega arith) (omega arith) in
    rw
      (
        bit_and-mod 3 d.errinfo,
        bit_and-mod 1 d.dtmhardreset,
        bit_and-mod 1 d.dmireset,
        bit_and-mod 3 d.idle,
        bit_and-mod 2 d.dmistat,
        bit_and-mod 6 d.abits,
        bit_and-mod 4 d.version,
      )
      (rw (f1, f2, f3, f4, f5, f6) (omega arith))

abbrev digits_of : ℕ → Dtmcs
digits_of w = record {
  errinfo = w / 2 ^ 18 % 8;
  dtmhardreset = w / 2 ^ 17 % 2;
  dmireset = w / 2 ^ 16 % 2;
  idle = w / 2 ^ 12 % 8;
  dmistat = w / 2 ^ 10 % 4;
  abits = w / 2 ^ 4 % 64;
  version = w % 16;
}

printed_dtmcs-digits : (w : ℕ) → printed_dtmcs w ≡ digits_of w
unfolding printed_dtmcs
printed_dtmcs-digits w = ground (
  arith,
  bit_and-mod 3 (w / 2 ^ 18),
  bit_and-mod 1 (w / 2 ^ 17),
  bit_and-mod 1 (w / 2 ^ 16),
  bit_and-mod 3 (w / 2 ^ 12),
  bit_and-mod 2 (w / 2 ^ 10),
  bit_and-mod 6 (w / 2 ^ 4),
  bit_and-mod 4 (w / 1),
)

-- Each field cut to the bits that it has.
abbrev pub cut : Dtmcs → Dtmcs
cut d = record {
  errinfo = d.errinfo % 8;
  dtmhardreset = d.dtmhardreset % 2;
  dmireset = d.dmireset % 2;
  idle = d.idle % 8;
  dmistat = d.dmistat % 4;
  abits = d.abits % 64;
  version = d.version % 16;
}

-- What is printed of `dtmcs` is what it was built from, each field cut to its bits; and the word that
-- is built from what is printed of a word has the bits 0 to 14 and 16 to 20 of that word and no other.
pub printed_dtmcs-roundtrip :
    (d : Dtmcs) (w : ℕ)
    → (printed_dtmcs (pack_dtmcs d) ≡ cut d)
      × (pack_dtmcs (printed_dtmcs w) ≡ w / 2 ^ 16 % 2 ^ 5 * 2 ^ 16 + w % 2 ^ 15)
printed_dtmcs-roundtrip d w = (
  printed_dtmcs-digits (pack_dtmcs d) ∙ ground (arith, pack_dtmcs-sum d),
  rw (printed_dtmcs-digits w) (omega (arith, pack_dtmcs-sum (digits_of w))),
)
