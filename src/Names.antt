-- ===== src/Names.antt =====
-- The texts that remote_bitbang.cpp writes into its log: names of operations and of registers.
pub mod Switch
pub mod DebugModule
pub mod Riscv
pub mod Distinct
use Prim.Native.String.{String}
use riscv_openocd_jtag_mock.Prelude.{ℕ, List, [], ◌∷◌}
use riscv_openocd_jtag_mock.Names.Switch.{switch}

abbrev pub operation_cases : List (ℕ × String)
operation_cases = (0, "NOP") ∷ (1, "READ") ∷ (2, "WRITE") ∷ []

unfoldable pub operation_as_string : ℕ → String
operation_as_string dmi_op = switch dmi_op operation_cases
