-- ===== src/Port.antt =====
-- `state_entered()`, `transition()`, `reset()` and `set_pins()` of remote_bitbang.cpp and
-- tap_state_machine.cpp: what a change of the JTAG pins does to the target.
pub mod Bits
pub mod Shift
pub mod Scan
pub mod Client
pub mod Transaction
pub mod Identity
pub mod Invariant
pub mod Reset
pub mod Instruction
pub mod Counter
pub mod Bypass
use riscv_openocd_jtag_mock.Prelude.{
  ℕ, ◌+◌, ◌==◌, leb, if◌then◌else◌, List, [], ◌∷◌, Outcome, done, ◌>>=◌,
}
use riscv_openocd_jtag_mock.Word.{u8, u32, shl64, shr, ◌&&&◌, ◌|||◌}
use riscv_openocd_jtag_mock.Tap.{
  TsmState, test_logic_reset, capture_dr, capture_ir, shift_dr, shift_ir, update_dr, update_ir,
  tap_step,
}
use riscv_openocd_jtag_mock.Cpu.{Environment}
use riscv_openocd_jtag_mock.Dmi.{abits_length}
use riscv_openocd_jtag_mock.DebugModule.Access.{update_dmi}
use riscv_openocd_jtag_mock.Target.{Target, ScanChain, Pins}

-- The enumerators of `RiscV_DTM_Registers` that the code switches on.
abbrev jtag_idcode : ℕ
jtag_idcode = 0x01

abbrev dtm_control_and_status : ℕ
dtm_control_and_status = 0x10

abbrev debug_module_interface_access : ℕ
debug_module_interface_access = 0x11

module _ {Cpu : Type 0} (env : Environment Cpu) where
  -- `case CAPTURE_DR`: the container goes to the shift register.
  unfoldable pub enter_capture_dr : Target Cpu → Target Cpu
  enter_capture_dr s =
      let c = s.scan in
      let ir = c.instruction_container_register in
      if ir == jtag_idcode
      then record s {
        scan = record c { id_code_shift_register = c.id_code_container_register; shift_amount = 0 };
      }
      else (if ir == dtm_control_and_status
          then record s {
            scan = record c { dtmcs_shift_register = c.dtmcs_container_register; shift_amount = 0 };
          }
          else (if ir == debug_module_interface_access
              then record s {
                scan = record c {
                  dmi_shift_register = s.dm.dmi_container_register;
                  shift_amount = 0;
                };
              }
              else s))

  -- `case UPDATE_DR`: the shift register is stored, or for `dmi` the request is carried out. The
  -- line that would store `dtmcs` is commented out in the source.
  unfoldable pub enter_update_dr : Target Cpu → Outcome (Target Cpu)
  enter_update_dr s =
      let c = s.scan in
      let ir = c.instruction_container_register in
      if ir == jtag_idcode
      then done
          (record s { scan = record c { id_code_container_register = c.id_code_shift_register } })
      else (if ir == dtm_control_and_status
          then done s
          else (if ir == debug_module_interface_access
              then (update_dmi env c.dmi_shift_register s.dm >>= λ dm. done (record s { dm = dm }))
              else done s))

  -- `case UPDATE_IR`: the shift register selects the instruction.
  abbrev pub enter_update_ir : Target Cpu → Target Cpu
  enter_update_ir s = record s {
    scan = record s.scan { instruction_container_register = s.scan.instruction_shift_register };
  }

  -- The callback: what happens as the machine enters a state.
  unfoldable pub state_entered : TsmState → Target Cpu → Outcome (Target Cpu)
  state_entered test_logic_reset s =
      done (record s { scan = record s.scan { instruction_container_register = jtag_idcode } })
  state_entered capture_dr s = done (enter_capture_dr s)
  state_entered capture_ir s = done (record s {
    scan = record s.scan { instruction_shift_register = s.scan.instruction_container_register };
  })
  state_entered update_dr s = enter_update_dr s
  state_entered update_ir s = done (enter_update_ir s)
  state_entered _ s = done s

  -- `transition()`, with the call of the callback at its end.
  unfoldable pub transition : ℕ → ℕ → Target Cpu → Outcome (Target Cpu)
  transition input rising_edge_clk s =
      let next = tap_step s.tsm_current_state input rising_edge_clk in
      state_entered next (record s { tsm_current_state = next })

  abbrev pub tsm_force_into_state : TsmState → Target Cpu → Outcome (Target Cpu)
  tsm_force_into_state new_state s =
      state_entered new_state (record s { tsm_current_state = new_state })

  -- `reset()`, by `tsm_reset()`. The arguments are not used.
  unfoldable pub reset : ℕ → ℕ → Target Cpu → Outcome (Target Cpu)
  reset trst srst s = tsm_force_into_state test_logic_reset s

module _ {Cpu : Type 0} where
  abbrev put_tdo : ℕ → Target Cpu → Target Cpu
  put_tdo v s = record s { pins = record s.pins { tdo = v } }

  -- `case SHIFT_DR` of the falling edge. The first edge after a capture shifts nothing.
  unfoldable pub shift_data : Target Cpu → Target Cpu
  shift_data s =
      let c = s.scan in
      let ir = c.instruction_container_register in
      let tdi = s.pins.tdi in
      let counted = u8 (c.shift_amount + 1) in
      if ir == jtag_idcode
      then (if leb 1 c.shift_amount
          then put_tdo (c.id_code_shift_register &&& 0x01) (record s {
            scan = record c {
              id_code_shift_register = u32 (shr c.id_code_shift_register 1 ||| shl64 tdi 31);
              shift_amount = counted;
            };
          })
          else record s { scan = record c { shift_amount = counted } })
      else (if ir == dtm_control_and_status
          then (if leb 1 c.shift_amount
              then put_tdo (c.dtmcs_shift_register &&& 0x01) (record s {
                scan = record c {
                  dtmcs_shift_register = u32 (shr c.dtmcs_shift_register 1 ||| shl64 tdi 31);
                  shift_amount = counted;
                };
              })
              else record s { scan = record c { shift_amount = counted } })
          else (if ir == debug_module_interface_access
              then (if leb 1 c.shift_amount
                  then put_tdo (u8 (c.dmi_shift_register &&& 0x01)) (record s {
                    scan = record c {
                      dmi_shift_register =
                          shr c.dmi_shift_register 1 ||| shl64 tdi (abits_length + 33);
                      shift_amount = counted;
                    };
                  })
                  else put_tdo 0 (record s { scan = record c { shift_amount = counted } }))
              else s))

  -- `case SHIFT_IR` of the falling edge.
  unfoldable pub shift_instruction : Target Cpu → Target Cpu
  shift_instruction s =
      let c = s.scan in
      put_tdo (c.instruction_shift_register &&& 0x01) (record s {
        scan = record c {
          instruction_shift_register =
              u8 (shr c.instruction_shift_register 1 ||| shl64 s.pins.tdi 4);
        };
      })

  -- The `switch` of the falling edge.
  unfoldable pub falling_edge : TsmState → Target Cpu → Target Cpu
  falling_edge shift_dr s = shift_data s
  falling_edge shift_ir s = shift_instruction s
  falling_edge _ s = s

module _ {Cpu : Type 0} (env : Environment Cpu) where
  -- `set_pins()`: the clock value is tested, not its change.
  unfoldable pub set_pins : ℕ → ℕ → ℕ → Target Cpu → Outcome (Target Cpu)
  set_pins tck tms tdi s =
      let t = record s { pins = record s.pins { tck = tck; tms = tms; tdi = tdi } } in
      if tck == 0 then done (falling_edge t.tsm_current_state t) else transition env tms tck t
