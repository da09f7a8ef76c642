-- ===== src/Target/State.antt =====
-- The members of `remote_bitbang_t`.
use riscv_openocd_jtag_mock.Prelude.{ℕ}
use riscv_openocd_jtag_mock.Tap.{TsmState}
use riscv_openocd_jtag_mock.DebugModule.{DebugModule}

-- The JTAG signals. `tdi` is a `uint64_t`, the others are bytes.
pub record Pins : Type 0 where
  pub tck : ℕ
  pub tms : ℕ
  pub tdi : ℕ
  pub trstn : ℕ
  pub tdo : ℕ

-- The registers between `tdi` and `tdo`, each with the container that it is loaded from, but for
-- `dmi_container_register`, which the debug module works on.
pub record ScanChain : Type 0 where
  pub instruction_container_register : ℕ
  pub instruction_shift_register : ℕ
  pub id_code_container_register : ℕ
  pub id_code_shift_register : ℕ
  pub dtmcs_container_register : ℕ
  pub dtmcs_shift_register : ℕ
  pub dmi_shift_register : ℕ
  pub shift_amount : ℕ

pub record Target (Cpu : Type 0) : Type 0 where
  pub pins : Pins
  pub tsm_current_state : TsmState
  pub scan : ScanChain
  pub dm : DebugModule Cpu
  pub err : ℕ
  pub quit : ℕ
  pub socket_fd : ℕ
  pub client_fd : ℕ
