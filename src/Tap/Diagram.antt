-- ===== src/Tap/Diagram.antt =====
-- The state diagram of the TAP, as drawn in tap_state_machine.h.
use riscv_openocd_jtag_mock.Prelude.{ℕ, ◌≡◌, ◌≢◌, arith, [], ◌∷◌}
use riscv_openocd_jtag_mock.Tap.{TsmState, test_logic_reset, shift_dr, tap_walk}

-- Five rising edges with a set `tms` lead to Test-Logic-Reset, whatever the state was: a client
-- needs no reset line, and the machine needs no initial state.
pub five_ones_reset :
    (s : TsmState) (a b c d e : ℕ)
    → a ≢ 0
    → b ≢ 0
    → c ≢ 0
    → d ≢ 0
    → e ≢ 0
    → tap_walk s (a ∷ b ∷ c ∷ d ∷ e ∷ []) ≡ test_logic_reset
unfolding tap_walk
five_ones_reset shift_dr a b c d e p q r t u = ground arith
five_ones_reset _ a b c d e p q r t u = ground arith
