-- ===== src/Names/Distinct.antt =====
-- The log tells registers apart: no two cases of a switch have the same text.
use Prim.Native.String.{String}
use text.Mathlib.TextEquality.{eq_iff}
use text.Mathlib.Text.{◌==◌ as str_eq}
use riscv_openocd_jtag_mock.Prelude.{
  ℕ, ◌+◌, ◌<◌, ◌≡◌, ◌⊎◌, ◌≢◌, ◌↔◌, inl, refl, ap, ◌%◌, arith, Bool, true, false, not, ◌&&◌, ◌||◌,
  List, [], ◌∷◌,
}
use riscv_openocd_jtag_mock.Names.{operation_cases, operation_as_string}
use riscv_openocd_jtag_mock.Hex.{ihex_type_cases, print_ihex_type}
use riscv_openocd_jtag_mock.Names.Switch.{switch}
use riscv_openocd_jtag_mock.Names.DebugModule.{dm_register_cases, dm_register_as_string}
use riscv_openocd_jtag_mock.Names.Riscv.{
  riscv_register_cases, without_offset, riscv_register_as_string,
}

has_text : String → List (ℕ × String) → Bool
has_text t [] = false
has_text t ((label, text) ∷ rest) = str_eq text t || has_text t rest

-- Each text is new, and is not the default.
are_distinct : List (ℕ × String) → Bool
unfolding has_text
are_distinct [] = true
are_distinct ((label, text) ∷ rest) =
    not (str_eq text "UNKNOWN") && (not (has_text text rest) && are_distinct rest)

has_text-switch :
    (n : ℕ) (cases : List (ℕ × String))
    → (switch n cases ≡ "UNKNOWN") ⊎ (has_text (switch n cases) cases ≡ true)
unfolding switch has_text
has_text-switch n [] = inl refl
has_text-switch n ((label, text) ∷ rest) = ground (arith, has_text-switch n rest, eq_iff text text)

-- A text that is not the default stands in one case only.
switch_injective :
    (n m : ℕ) (cases : List (ℕ × String))
    → are_distinct cases ≡ true
    → switch n cases ≡ switch m cases
    → (switch n cases ≡ "UNKNOWN") ⊎ (n ≡ m)
unfolding switch are_distinct
switch_injective n m [] h e = inl refl
switch_injective n m ((label, text) ∷ rest) h e = ground (
  arith,
  switch_injective n m rest,
  has_text-switch n rest,
  has_text-switch m rest,
  eq_iff text "UNKNOWN",
)

dm_register_cases_lem : are_distinct dm_register_cases ≡ true
unfolding are_distinct
dm_register_cases_lem = refl

riscv_register_cases_lem : are_distinct riscv_register_cases ≡ true
unfolding are_distinct
riscv_register_cases_lem = refl

operation_cases_lem : are_distinct operation_cases ≡ true
unfolding are_distinct
operation_cases_lem = refl

ihex_type_cases_lem : are_distinct ihex_type_cases ≡ true
unfolding are_distinct
ihex_type_cases_lem = refl

switch_exact :
    (n m : ℕ) (cases : List (ℕ × String))
    → are_distinct cases ≡ true
    → switch n cases ≢ "UNKNOWN"
    → (switch n cases ≡ switch m cases) ↔ (n ≡ m)
switch_exact n m cases distinct named =
    (λ e. ground (arith, switch_injective n m cases distinct e), ap (λ k. switch k cases))

with_offset : (k : ℕ) → k < 0x1000 → without_offset (k + 0x1000) ≡ without_offset k
unfolding without_offset
with_offset k h = ground arith

-- The log tells registers apart by their names, but for the default "UNKNOWN". Two addresses of the
-- debug module have the same name exactly if they are equal; two indices of registers of the
-- processor have it exactly if they are equal once 0x1000 is taken from each that is not below
-- 0x1000. And an index below 0x1000, such as `k % 0x1000`, has the same name with the offset and
-- without it. The condition is that the first of the two names is not the default.
pub register_names_distinct :
    (a b r s k : ℕ)
    → dm_register_as_string a ≢ "UNKNOWN"
    → riscv_register_as_string r ≢ "UNKNOWN"
    → ((dm_register_as_string a ≡ dm_register_as_string b) ↔ (a ≡ b))
      × ((riscv_register_as_string r ≡ riscv_register_as_string s)
          ↔ (without_offset r ≡ without_offset s))
      × (riscv_register_as_string (k % 0x1000 + 0x1000) ≡ riscv_register_as_string (k % 0x1000))
unfolding dm_register_as_string riscv_register_as_string
register_names_distinct a b r s k named known = (
  switch_exact a b dm_register_cases dm_register_cases_lem named,
  switch_exact (without_offset r) (without_offset s) riscv_register_cases riscv_register_cases_lem
      known,
  ap (λ n. switch n riscv_register_cases) (with_offset (k % 0x1000) (omega arith)),
)

-- So do the names of the operations of a request and of the types of a hex record: two operations,
-- and two types, have the same name exactly if they are equal, where the first has a name that is
-- not the default.
pub type_names_distinct :
    (o p t u : ℕ)
    → operation_as_string o ≢ "UNKNOWN"
    → print_ihex_type t ≢ "UNKNOWN"
    → ((operation_as_string o ≡ operation_as_string p) ↔ (o ≡ p))
      × ((print_ihex_type t ≡ print_ihex_type u) ↔ (t ≡ u))
unfolding operation_as_string print_ihex_type
type_names_distinct o p t u named known = (
  switch_exact o p operation_cases operation_cases_lem named,
  switch_exact t u ihex_type_cases ihex_type_cases_lem known,
)
