-- ===== src/Names/Switch.antt =====
-- A `switch` that returns a text for each case, and "UNKNOWN" by default.
use Prim.Native.String.{String}
use riscv_openocd_jtag_mock.Prelude.{ℕ, ◌==◌, if◌then◌else◌, List, [], ◌∷◌}

unfoldable pub switch : ℕ → List (ℕ × String) → String
switch n [] = "UNKNOWN"
switch n ((label, text) ∷ rest) = if n == label then text else switch n rest
