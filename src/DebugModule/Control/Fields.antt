-- ===== src/DebugModule/Control/Fields.antt =====
-- `dmcontrol` as a sum of its fields: the 32 bits and the 14 variables determine each other.
use native.Mathlib.Nat.{mod-eq_of_lt, one-le-pow}
use riscv_openocd_jtag_mock.Prelude.{
  ℕ, ◌+◌, ◌*◌, ◌/◌, ◌%◌, ◌^◌, ◌<◌, bit_or, ◌≡◌, refl, ap, ◌∙◌, arith,
}
use riscv_openocd_jtag_mock.Word.{bit_and-mod, bit_or-add, shl32}
use riscv_openocd_jtag_mock.DebugModule.State.{DmControl}
use riscv_openocd_jtag_mock.DebugModule.Control.{debug_module_control, parse_control}

-- Each variable fits the bits that the specification gives it.
pub record IsControl (c : DmControl) : Type 0 where
  pub haltreq_fits : c.haltreq < 2
  pub resumereq_fits : c.resumereq < 2
  pub hartreset_fits : c.hartreset < 2
  pub ackhavereset_fits : c.ackhavereset < 2
  pub ackunavail_fits : c.ackunavail < 2
  pub hasel_fits : c.hasel < 2
  pub hartsello_fits : c.hartsello < 1024
  pub hartselhi_fits : c.hartselhi < 1024
  pub setkeepalive_fits : c.setkeepalive < 2
  pub clrkeepalive_fits : c.clrkeepalive < 2
  pub setresethaltreq_fits : c.setresethaltreq < 2
  pub clrresethaltreq_fits : c.clrresethaltreq < 2
  pub ndmreset_fits : c.ndmreset < 2
  pub dmactive_fits : c.dmactive < 2

-- One step of the chain: a field of `b` values at bit `k` joins what stands from bit `j` up.
or_field :
    (k j b p x : ℕ)
    → 2 ^ j ≡ b * 2 ^ k
    → x < b
    → x * 2 ^ k < 2 ^ 32
    → bit_or (p * 2 ^ j) (shl32 x k) ≡ (p * b + x) * 2 ^ k
or_field k j b p x e small fits = rw (mod-eq_of_lt fits) (
    bit_or-add j p (x * 2 ^ k) (grind (arith, one-le-pow k 2))
    ∙ omega (arith, ap (λ (t : ℕ). p * t) e))

-- The variables as the digits of one number.
abbrev pub control_digits : DmControl → ℕ
control_digits c =
    let p1 = c.haltreq * 2 + c.resumereq in
    let p2 = p1 * 2 + c.hartreset in
    let p3 = p2 * 2 + c.ackhavereset in
    let p4 = p3 * 2 + c.ackunavail in
    let p5 = p4 * 2 + c.hasel in
    let p6 = p5 * 1024 + c.hartsello in
    let p7 = p6 * 1024 + c.hartselhi in
    let p8 = p7 * 2 + c.setkeepalive in
    let p9 = p8 * 2 + c.clrkeepalive in
    let p10 = p9 * 2 + c.setresethaltreq in
    let p11 = p10 * 2 + c.clrresethaltreq in let p12 = p11 * 2 + c.ndmreset in p12 * 2 + c.dmactive

pub debug_module_control-digits :
    (c : DmControl) → IsControl c → debug_module_control c ≡ control_digits c
unfolding debug_module_control
debug_module_control-digits c h =
    let p1 = c.haltreq * 2 + c.resumereq in
    let p2 = p1 * 2 + c.hartreset in
    let p3 = p2 * 2 + c.ackhavereset in
    let p4 = p3 * 2 + c.ackunavail in
    let p5 = p4 * 2 + c.hasel in
    let p6 = p5 * 1024 + c.hartsello in
    let p7 = p6 * 1024 + c.hartselhi in
    let p8 = p7 * 2 + c.setkeepalive in
    let p9 = p8 * 2 + c.clrkeepalive in
    let p10 = p9 * 2 + c.setresethaltreq in
    let p11 = p10 * 2 + c.clrresethaltreq in
    let p12 = p11 * 2 + c.ndmreset in
    let top : shl32 c.haltreq 31 ≡ c.haltreq * 2 ^ 31 = omega arith in
    rw
      (
        top,
        or_field 30 31 2 c.haltreq c.resumereq refl (omega arith) (omega arith),
        or_field 29 30 2 p1 c.hartreset refl (omega arith) (omega arith),
        or_field 28 29 2 p2 c.ackhavereset refl (omega arith) (omega arith),
        or_field 27 28 2 p3 c.ackunavail refl (omega arith) (omega arith),
        or_field 26 27 2 p4 c.hasel refl (omega arith) (omega arith),
        or_field 16 26 1024 p5 c.hartsello refl (omega arith) (omega arith),
        or_field 6 16 1024 p6 c.hartselhi refl (omega arith) (omega arith),
        or_field 5 6 2 p7 c.setkeepalive refl (omega arith) (omega arith),
        or_field 4 5 2 p8 c.clrkeepalive refl (omega arith) (omega arith),
        or_field 3 4 2 p9 c.setresethaltreq refl (omega arith) (omega arith),
        or_field 2 3 2 p10 c.clrresethaltreq refl (omega arith) (omega arith),
        or_field 1 2 2 p11 c.ndmreset refl (omega arith) (omega arith),
        or_field 0 1 2 p12 c.dmactive refl (omega arith) (omega arith),
      )
      (omega arith)

pub parse_control-digits :
    (w : ℕ)
    → parse_control w ≡ record {
      haltreq = w / 2 ^ 31 % 2;
      resumereq = w / 2 ^ 30 % 2;
      hartreset = w / 2 ^ 29 % 2;
      ackhavereset = w / 2 ^ 28 % 2;
      ackunavail = w / 2 ^ 27 % 2;
      hasel = w / 2 ^ 26 % 2;
      hartsello = w / 2 ^ 16 % 1024;
      hartselhi = w / 2 ^ 6 % 1024;
      setkeepalive = w / 32 % 2;
      clrkeepalive = w / 16 % 2;
      setresethaltreq = w / 8 % 2;
      clrresethaltreq = w / 4 % 2;
      ndmreset = w / 2 % 2;
      dmactive = w % 2;
    }
unfolding parse_control
parse_control-digits w =
    let e : w / 1 ≡ w = omega arith in simp (bit_and-mod 1, bit_and-mod 10) (rw e refl)

pub parse_control-IsControl : (w : ℕ) → IsControl (parse_control w)
parse_control-IsControl w = rw (parse_control-digits w) (omega arith)

pub digits_of_word : (w : ℕ) → control_digits (parse_control w) ≡ w % 2 ^ 32
digits_of_word w =
    let e1 : w / 2 ^ 31 % 2 ^ 1 * 2 + w / 2 ^ 30 % 2 ≡ w / 2 ^ 30 % 2 ^ 2 = omega arith in
    let e2 : w / 2 ^ 30 % 2 ^ 2 * 2 + w / 2 ^ 29 % 2 ≡ w / 2 ^ 29 % 2 ^ 3 = omega arith in
    let e3 : w / 2 ^ 29 % 2 ^ 3 * 2 + w / 2 ^ 28 % 2 ≡ w / 2 ^ 28 % 2 ^ 4 = omega arith in
    let e4 : w / 2 ^ 28 % 2 ^ 4 * 2 + w / 2 ^ 27 % 2 ≡ w / 2 ^ 27 % 2 ^ 5 = omega arith in
    let e5 : w / 2 ^ 27 % 2 ^ 5 * 2 + w / 2 ^ 26 % 2 ≡ w / 2 ^ 26 % 2 ^ 6 = omega arith in
    let e6 : w / 2 ^ 26 % 2 ^ 6 * 1024 + w / 2 ^ 16 % 1024 ≡ w / 2 ^ 16 % 2 ^ 16 = omega arith in
    let e7 : w / 2 ^ 16 % 2 ^ 16 * 1024 + w / 2 ^ 6 % 1024 ≡ w / 2 ^ 6 % 2 ^ 26 = omega arith in
    let e8 : w / 2 ^ 6 % 2 ^ 26 * 2 + w / 32 % 2 ≡ w / 32 % 2 ^ 27 = omega arith in
    let e9 : w / 32 % 2 ^ 27 * 2 + w / 16 % 2 ≡ w / 16 % 2 ^ 28 = omega arith in
    let e10 : w / 16 % 2 ^ 28 * 2 + w / 8 % 2 ≡ w / 8 % 2 ^ 29 = omega arith in
    let e11 : w / 8 % 2 ^ 29 * 2 + w / 4 % 2 ≡ w / 4 % 2 ^ 30 = omega arith in
    let e12 : w / 4 % 2 ^ 30 * 2 + w / 2 % 2 ≡ w / 2 % 2 ^ 31 = omega arith in
    let e13 : w / 2 % 2 ^ 31 * 2 + w % 2 ≡ w % 2 ^ 32 = omega arith in
    rw (parse_control-digits w) (rw (e1, e2, e3, e4, e5, e6, e7, e8, e9, e10, e11, e12, e13))

digits_inverse : (c : DmControl) → IsControl c → parse_control (control_digits c) ≡ c
digits_inverse c h = rw (parse_control-digits (control_digits c)) (ground arith)

-- Writing and reading back: the word built from the variables that were parsed from a word is that
-- word's low 32 bits, and variables that fit their fields are parsed back from the word built from
-- them.
pub parse_control-roundtrip :
    (w : ℕ) (c : DmControl)
    → IsControl c
    → (debug_module_control (parse_control w) ≡ w % 2 ^ 32)
      × (parse_control (debug_module_control c) ≡ c)
parse_control-roundtrip w c h = (
  debug_module_control-digits (parse_control w) (parse_control-IsControl w) ∙ digits_of_word w,
  ap parse_control (debug_module_control-digits c h) ∙ digits_inverse c h,
)
