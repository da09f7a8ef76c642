-- ===== src/DebugModule/Access.antt =====
-- The dispatch on the address of a request (remote_bitbang.cpp, 501 to 1461).
pub mod Requests
pub mod Storage
pub mod Selection
pub mod Fresh
pub mod Totality
pub mod Pending
pub mod Execution
pub mod Frame
pub mod Answer
use riscv_openocd_jtag_mock.Prelude.{ℕ, ◌&&◌, ◌==◌, leb, if◌then◌else◌, Outcome, done}
use riscv_openocd_jtag_mock.Cpu.{Environment}
use riscv_openocd_jtag_mock.Dmi.{get_dmi_address, get_dmi_data, get_dmi_op}
use riscv_openocd_jtag_mock.DebugModule.State.{DebugModule}
use riscv_openocd_jtag_mock.DebugModule.Control.{access_control}
use riscv_openocd_jtag_mock.DebugModule.Status.{access_status, access_hartinfo}
use riscv_openocd_jtag_mock.DebugModule.Registers.{access_data, access_abstractcs}
use riscv_openocd_jtag_mock.DebugModule.Command.{access_command}

-- A request that is not 0 replaces the one that stands in `dmi_container_register`.
unfoldable pub dmi_request : {Cpu : Type 0} → ℕ → DebugModule Cpu → DebugModule Cpu
dmi_request dmi_shift_register s =
    if dmi_shift_register == 0x00
    then s
    else record s { dmi_container_register = dmi_shift_register }

module _ {Cpu : Type 0} (env : Environment Cpu) where
  unfoldable pub access_register_at : ℕ → ℕ → ℕ → DebugModule Cpu → Outcome (DebugModule Cpu)
  access_register_at address dmi_data dmi_op s =
      if leb 0x04 address && leb address 0x0f
      then done (access_data address dmi_data dmi_op s)
      else (if address == 0x10
          then done (access_control env address dmi_data dmi_op s)
          else (if address == 0x11
              then done (access_status address s)
              else (if address == 0x12
                  then done (access_hartinfo address dmi_op s)
                  else (if address == 0x16
                      then done (access_abstractcs address dmi_op s)
                      else (if address == 0x17
                          then access_command env dmi_data dmi_op s
                          else done s)))))

  -- The request that stands in the container is carried out.
  unfoldable pub update_dmi : ℕ → DebugModule Cpu → Outcome (DebugModule Cpu)
  update_dmi dmi_shift_register s =
      let t = dmi_request dmi_shift_register s in
      access_register_at (get_dmi_address t.dmi_container_register)
        (get_dmi_data t.dmi_container_register) (get_dmi_op t.dmi_container_register) t
