-- ===== src/Server/Session.antt =====
-- The server as its client sees it: a sequence of commands, and a sequence of answers.
pub mod Refinement
pub mod Play
pub mod Scan
pub mod Requests
pub mod Connect
pub mod Word
pub mod Steps
pub mod Definedness
pub mod Totality
pub mod Block
pub mod Queries
use riscv_openocd_jtag_mock.Prelude.{
  ℕ, zero, suc, ◌<◌, ◌≡◌, ◌≢◌, ◌⊎◌, inl, inr, refl, sym, ap, ◌∙◌, arith, ==_of_ne, Bool-cases,
  subst, ◌==◌, if◌then◌else◌, List, [], ◌∷◌, ◌++◌, length, Outcome, Keeps, >>=-assoc, >>=-ext, done,
  waiting, ◌>>=◌,
}
use riscv_openocd_jtag_mock.Tap.{
  TsmState, test_logic_reset, capture_dr, shift_dr, shift_ir, update_dr, tap_step,
}
use riscv_openocd_jtag_mock.Cpu.{Environment}
use riscv_openocd_jtag_mock.Target.{Target}
use riscv_openocd_jtag_mock.Port.{
  enter_capture_dr, enter_update_dr, state_entered, transition, reset, shift_data,
  shift_instruction, falling_edge, set_pins,
}
use riscv_openocd_jtag_mock.Server.{
  Received, Sent, Wire, run_command, tdo_letter, send_answer, hang_up, execute_command, tick, serve,
  read_byte,
}
use riscv_openocd_jtag_mock.Server.Polling.{
  bytes_of, AreRead, Delivers, FirstRead, read_byte-cases, write_byte-Delivers,
}

-- The number of answers that a sequence of commands asks for.
abbrev pub asked : List ℕ → ℕ
asked [] = 0
asked (c ∷ cs) = if c == b'R' then suc (asked cs) else asked cs

-- A pair of descriptors that no command touches.
pub record Connected {Cpu : Type 0} (s t : Target Cpu) : Type 0 where
  pub client : t.client_fd ≡ s.client_fd
  pub socket : t.socket_fd ≡ s.socket_fd

-- And a change of the pins does not end the session.
record Kept {Cpu : Type 0} (s t : Target Cpu) : Type 0 where
  client : t.client_fd ≡ s.client_fd
  socket : t.socket_fd ≡ s.socket_fd
  quit : t.quit ≡ s.quit

module _ {Cpu : Type 0} (env : Environment Cpu) where
  -- What the server promises: the commands are carried out in order, `R` is answered by the value
  -- of `tdo`, and `Q` ends the session. Without `Q` the server waits for more.
  unfoldable pub session : List ℕ → Target Cpu → List ℕ → Outcome (Target Cpu × List ℕ)
  unfolding tdo_letter
  session [] s out = waiting
  session (c ∷ cs) s out = run_command env c s >>= λ t.
      let out' = if c == b'R' then out ++ (tdo_letter env t ∷ []) else out in
      let rest = session cs t out' in
      if t.quit == 0 then rest else done (record t { client_fd = 0 }, out')

  falling_edge-Kept : (q : TsmState) (s : Target Cpu) → Kept s (falling_edge q s)
  unfolding falling_edge shift_data shift_instruction
  falling_edge-Kept shift_dr s = ground arith
  falling_edge-Kept shift_ir s = ground arith
  falling_edge-Kept _ s = ground arith

  state_entered-Kept : (q : TsmState) (s : Target Cpu) → Keeps (Kept s) (state_entered env q s)
  unfolding state_entered enter_capture_dr enter_update_dr
  state_entered-Kept update_dr s = ground arith
  state_entered-Kept capture_dr s = ground arith
  state_entered-Kept _ s = ground arith

  set_pins-Kept : (tck tms tdi : ℕ) (s : Target Cpu) → Keeps (Kept s) (set_pins env tck tms tdi s)
  unfolding set_pins transition
  set_pins-Kept tck tms tdi s =
      let t = record s { pins = record s.pins { tck = tck; tms = tms; tdi = tdi } } in
      let q = tap_step s.tsm_current_state tms tck in
      ground (
        arith,
        falling_edge-Kept t.tsm_current_state t,
        state_entered-Kept q (record t { tsm_current_state = q }),
      )

  pub run_command-Connected :
      (command : ℕ) (s : Target Cpu) → Keeps (Connected s) (run_command env command s)
  unfolding run_command reset
  run_command-Connected command s = ground (
    arith,
    set_pins-Kept 0 0 0 s,
    set_pins-Kept 0 0 1 s,
    set_pins-Kept 0 1 0 s,
    set_pins-Kept 0 1 1 s,
    set_pins-Kept 1 0 0 s,
    set_pins-Kept 1 0 1 s,
    set_pins-Kept 1 1 0 s,
    set_pins-Kept 1 1 1 s,
    state_entered-Kept test_logic_reset (record s { tsm_current_state = test_logic_reset }),
  )

  pub run_command-running :
      (command : ℕ) (s : Target Cpu)
      → command ≢ b'Q'
      → Keeps (λ t. t.quit ≡ s.quit) (run_command env command s)
  unfolding run_command reset
  run_command-running command s other = ground (
    arith,
    set_pins-Kept 0 0 0 s,
    set_pins-Kept 0 0 1 s,
    set_pins-Kept 0 1 0 s,
    set_pins-Kept 0 1 1 s,
    set_pins-Kept 1 0 0 s,
    set_pins-Kept 1 0 1 s,
    set_pins-Kept 1 1 0 s,
    set_pins-Kept 1 1 1 s,
    state_entered-Kept test_logic_reset (record s { tsm_current_state = test_logic_reset }),
  )
