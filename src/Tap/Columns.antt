-- ===== src/Tap/Columns.antt =====
-- The two scan columns of the TAP diagram: one for the data registers, one for the instruction
-- register.
use riscv_openocd_jtag_mock.Prelude.{ℕ, ◌≡◌, ◌⊎◌, arith, Bool, true, false}
use riscv_openocd_jtag_mock.Tap.{
  TsmState, test_logic_reset, run_test_idle, select_dr_scan, select_ir_scan, capture_dr, capture_ir,
  shift_dr, shift_ir, exit1_dr, exit1_ir, pause_dr, pause_ir, exit2_dr, exit2_ir, update_dr,
  update_ir, next_state,
}

-- Inside a column, from Capture to Update.
abbrev pub in_dr_column : TsmState → Bool
in_dr_column capture_dr = true
in_dr_column shift_dr = true
in_dr_column exit1_dr = true
in_dr_column pause_dr = true
in_dr_column exit2_dr = true
in_dr_column update_dr = true
in_dr_column _ = false

-- The state beside it in the other column.
abbrev pub mirror : TsmState → TsmState
mirror capture_dr = capture_ir
mirror shift_dr = shift_ir
mirror exit1_dr = exit1_ir
mirror pause_dr = pause_ir
mirror exit2_dr = exit2_ir
mirror update_dr = update_ir
mirror capture_ir = capture_dr
mirror shift_ir = shift_dr
mirror exit1_ir = exit1_dr
mirror pause_ir = pause_dr
mirror exit2_ir = exit2_dr
mirror update_ir = update_dr
mirror s = s

abbrev pub in_column : TsmState → Bool
in_column test_logic_reset = false
in_column run_test_idle = false
in_column select_dr_scan = false
in_column select_ir_scan = false
in_column _ = true

-- The columns are mirror images: a rising edge inside one does what it does inside the other. And
-- a column is left only from its Update state, for Run-Test/Idle or Select-DR-Scan.
pub columns_mirror :
    (s : TsmState) (tms : ℕ)
    → in_column s ≡ true
    → (next_state (mirror s) tms ≡ mirror (next_state s tms))
      × (((in_column (next_state s tms) ≡ true)
            × (in_dr_column (next_state s tms) ≡ in_dr_column s))
          ⊎ (((s ≡ update_dr) ⊎ (s ≡ update_ir))
              × ((next_state s tms ≡ run_test_idle) ⊎ (next_state s tms ≡ select_dr_scan))))
unfolding next_state
columns_mirror shift_dr tms h = ground arith
columns_mirror _ tms h = ground arith
