-- ===== src/Tap.antt =====
-- tap_state_machine_callback.h, tap_state_machine.h and tap_state_machine.cpp: the states of the
-- JTAG test access port and the `switch` of `transition()`. The calls of the callback
-- `state_entered()` are made in `Port`, which has the state that the callback changes.
pub mod Diagram
pub mod Columns
use riscv_openocd_jtag_mock.Prelude.{ℕ, Bool, true, false, not, ◌==◌, if◌then◌else◌, List, [], ◌∷◌}

pub data TsmState : Type 0 where
  test_logic_reset run_test_idle : TsmState
  select_dr_scan select_ir_scan : TsmState
  capture_dr capture_ir : TsmState
  shift_dr shift_ir : TsmState
  exit1_dr exit1_ir : TsmState
  pause_dr pause_ir : TsmState
  exit2_dr exit2_ir : TsmState
  update_dr update_ir : TsmState

-- `input ? a : b` for a `uint8_t input`.
abbrev pub select : ℕ → TsmState → TsmState → TsmState
select input a b = if input == 0 then b else a

-- The `switch` on the current state. Its `default` is for values that are no enumerator.
unfoldable pub next_state : TsmState → ℕ → TsmState
next_state test_logic_reset input = select input test_logic_reset run_test_idle
next_state run_test_idle input = select input select_dr_scan run_test_idle
next_state select_dr_scan input = select input select_ir_scan capture_dr
next_state select_ir_scan input = select input test_logic_reset capture_ir
next_state capture_dr input = select input exit1_dr shift_dr
next_state capture_ir input = select input exit1_ir shift_ir
next_state shift_dr input = select input exit1_dr shift_dr
next_state shift_ir input = select input exit1_ir shift_ir
next_state exit1_dr input = select input update_dr pause_dr
next_state exit1_ir input = select input update_ir pause_ir
next_state pause_dr input = select input exit2_dr pause_dr
next_state pause_ir input = select input exit2_ir pause_ir
next_state exit2_dr input = select input update_dr shift_dr
next_state exit2_ir input = select input update_ir shift_ir
next_state update_dr input = select input select_dr_scan run_test_idle
next_state update_ir input = select input select_dr_scan run_test_idle

-- On the falling edge the machine remains in its state.
unfoldable pub tap_step : TsmState → ℕ → ℕ → TsmState
unfolding next_state
tap_step s input rising_edge_clk = if rising_edge_clk == 0 then s else next_state s input

-- The rising edges of a sequence of `tms` values.
unfoldable pub tap_walk : TsmState → List ℕ → TsmState
unfolding next_state
tap_walk s [] = s
tap_walk s (tms ∷ rest) = tap_walk (next_state s tms) rest
