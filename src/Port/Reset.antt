-- ===== src/Port/Reset.antt =====
-- How a debugger resets the target with `tms` alone, as OpenOCD does when it connects.
use riscv_openocd_jtag_mock.Prelude.{
  ℕ, zero, suc, ◌≡◌, ◌≢◌, refl, ◌∙◌, arith, true, Outcome, done, ◌>>=◌, Returns, Returns->>=,
  Returns-map, replicate, ap,
}
use riscv_openocd_jtag_mock.Tap.{
  TsmState, test_logic_reset, capture_dr, shift_dr, exit1_dr, pause_dr, exit2_dr, update_dr,
  next_state, tap_step, tap_walk,
}
use riscv_openocd_jtag_mock.Tap.Diagram.{five_ones_reset}
use riscv_openocd_jtag_mock.Tap.Columns.{in_dr_column}
use riscv_openocd_jtag_mock.Cpu.{Environment}
use riscv_openocd_jtag_mock.Target.{Target}
use riscv_openocd_jtag_mock.Port.{
  enter_update_dr, state_entered, transition, shift_data, shift_instruction, falling_edge, set_pins,
}
use riscv_openocd_jtag_mock.Port.Client.{tms_cycle}

-- No request to the debug module is under way.
abbrev IsQuiet : {Cpu : Type 0} → Target Cpu → Type 0
IsQuiet s = in_dr_column s.tsm_current_state ≡ true → s.scan.instruction_container_register ≢ 0x11

-- What one cycle with a set `tms` does then.
record Advanced {Cpu : Type 0} (s t : Target Cpu) : Type 0 where
  quiet : IsQuiet t
  moved : t.tsm_current_state ≡ next_state s.tsm_current_state 1
  in_reset : t.tsm_current_state ≡ test_logic_reset → t.scan.instruction_container_register ≡ 0x01
  same_module : t.dm ≡ s.dm
  same_quit : t.quit ≡ s.quit

module _ {Cpu : Type 0} (env : Environment Cpu) where
  advance_from :
      (q : TsmState) (s : Target Cpu)
      → IsQuiet (record s { tsm_current_state = q })
      → Returns
          (Advanced (record s { tsm_current_state = q }))
          (tms_cycle env 1 (record s { tsm_current_state = q }))
  unfolding tms_cycle set_pins transition tap_step next_state falling_edge shift_data
      shift_instruction state_entered enter_update_dr
  advance_from capture_dr s h = ground (arith, h refl)
  advance_from shift_dr s h = ground (arith, h refl)
  advance_from exit1_dr s h = ground (arith, h refl)
  advance_from pause_dr s h = ground (arith, h refl)
  advance_from exit2_dr s h = ground (arith, h refl)
  advance_from update_dr s h = ground arith
  advance_from _ s h = ground arith

  advance : (s : Target Cpu) → IsQuiet s → Returns (Advanced s) (tms_cycle env 1 s)
  advance s h = advance_from s.tsm_current_state s h

  -- What the cycles of the reset end with.
  pub record IsReset (s t : Target Cpu) : Type 0 where
    pub state : t.tsm_current_state ≡ test_logic_reset
    pub instruction : t.scan.instruction_container_register ≡ 0x01
    pub same_module : t.dm ≡ s.dm
    pub same_quit : t.quit ≡ s.quit

  unfoldable pub tms_cycles : ℕ → Target Cpu → Outcome (Target Cpu)
  tms_cycles zero s = done s
  tms_cycles (suc n) s = tms_cycle env 1 s >>= tms_cycles n

  -- What `n` cycles with a set `tms` do.
  record Walked (n : ℕ) (s t : Target Cpu) : Type 0 where
    walked : t.tsm_current_state ≡ tap_walk s.tsm_current_state (replicate n 1)
    in_reset : t.tsm_current_state ≡ test_logic_reset → t.scan.instruction_container_register ≡ 0x01
    same_module : t.dm ≡ s.dm
    same_quit : t.quit ≡ s.quit

  tms_cycles-Walked :
      (n : ℕ) (s : Target Cpu) → IsQuiet s → Returns (Walked (suc n) s) (tms_cycles (suc n) s)
  unfolding tms_cycles tap_walk
  tms_cycles-Walked zero s h =
      Returns->>= (Advanced s) (Walked 1 s) (tms_cycle env 1 s) (tms_cycles 0) (advance s h) λ t a.
        record {
          walked = a.moved;
          in_reset = a.in_reset;
          same_module = a.same_module;
          same_quit = a.same_quit;
        }
  tms_cycles-Walked (suc n) s h =
      Returns->>= (Advanced s) (Walked (suc (suc n)) s) (tms_cycle env 1 s) (tms_cycles (suc n))
        (advance s h)
        λ t a.
          Returns-map (Walked (suc n) t) (Walked (suc (suc n)) s) (tms_cycles (suc n) t)
            (λ u w. record {
              walked = w.walked ∙ ap (λ q. tap_walk q (replicate (suc n) 1)) a.moved;
              in_reset = w.in_reset;
              same_module = w.same_module ∙ a.same_module;
              same_quit = w.same_quit ∙ a.same_quit;
            })
            (tms_cycles-Walked n t a.quiet)

  -- Five clock cycles with `tms` set reset the target, from any state of the state machine, if no
  -- request to the debug module is under way: they return, in Test-Logic-Reset and with the
  -- instruction register at IDCODE, and the debug module and `quit` are as they were.
  pub five_cycles-IsReset :
      (s : Target Cpu)
      → (in_dr_column s.tsm_current_state ≡ true → s.scan.instruction_container_register ≢ 0x11)
      → Returns (IsReset s) (tms_cycles 5 s)
  five_cycles-IsReset s h =
      Returns-map (Walked 5 s) (IsReset s) (tms_cycles 5 s)
        (λ t w.
          let in_reset =
            w.walked ∙ five_ones_reset s.tsm_current_state 1 1 1 1 1 one one one one one in
          record {
            state = in_reset;
            instruction = w.in_reset in_reset;
            same_module = w.same_module;
            same_quit = w.same_quit;
          })
        (tms_cycles-Walked 4 s h)
    where
      one : ◌≢◌ {A = ℕ} 1 0
      one = omega arith
