-- ===== src/Tests/Names.antt =====
-- The names of registers.
use riscv_openocd_jtag_mock.Prelude.{ℕ, ◌+◌, ◌%◌, ◌≡◌, ◌↔◌, arith}
use riscv_openocd_jtag_mock.Names.DebugModule.{dm_register_as_string}
use riscv_openocd_jtag_mock.Names.Riscv.{without_offset, riscv_register_as_string}
use riscv_openocd_jtag_mock.Names.Switch.{switch}
use riscv_openocd_jtag_mock.Names.Distinct.{register_names_distinct}
use text.Mathlib.TextEquality.{eq_iff}

register_names_distinct_example :
    ((dm_register_as_string 0x17 ≡ dm_register_as_string 0x18) ↔ (◌≡◌ {A = ℕ} 0x17 0x18))
    × ((riscv_register_as_string 0x1008 ≡ riscv_register_as_string 0x2008)
        ↔ (without_offset 0x1008 ≡ without_offset 0x2008))
    × (riscv_register_as_string (8 % 0x1000 + 0x1000) ≡ riscv_register_as_string (8 % 0x1000))
unfolding dm_register_as_string riscv_register_as_string switch without_offset
register_names_distinct_example =
    register_names_distinct 0x17 0x18 0x1008 0x2008 8
      (ground (arith, eq_iff "Abstract Command (command)" "UNKNOWN"))
      (ground (arith, eq_iff "s0/fp" "UNKNOWN"))
