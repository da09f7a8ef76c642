-- ===== src/DebugModule/Status.antt =====
-- `dmstatus`, register 0x11, and `hartinfo`, register 0x12: constants.
use riscv_openocd_jtag_mock.Prelude.{ℕ, ◌==◌, if◌then◌else◌}
use riscv_openocd_jtag_mock.Word.{shl32, ◌|||◌}
use riscv_openocd_jtag_mock.Dmi.{pack_dmi}
use riscv_openocd_jtag_mock.DebugModule.State.{DebugModule}

unfoldable pub debug_module_status : ℕ
debug_module_status =
    let ndmresetpending : ℕ = 0x00 in
    let stickyunavail : ℕ = 0x00 in
    let impebreak : ℕ = 0x00 in
    let allhavereset : ℕ = 0x00 in
    let anyhavereset : ℕ = 0x00 in
    let allresumeack : ℕ = 0x01 in
    let anyresumeack : ℕ = 0x00 in
    let allnonexistent : ℕ = 0x00 in
    let anynonexistent : ℕ = 0x00 in
    let allunavail : ℕ = 0x00 in
    let anyunavail : ℕ = 0x00 in
    let allrunning : ℕ = 0x00 in
    let anyrunning : ℕ = 0x00 in
    let allhalted : ℕ = 0x01 in
    let anyhalted : ℕ = 0x00 in
    let authenticated : ℕ = 0x01 in
    let authbusy : ℕ = 0x00 in
    let hasresethaltreq : ℕ = 0x00 in
    let confstrptrvalid : ℕ = 0x00 in
    let version : ℕ = 0x03 in
    shl32 ndmresetpending 24
    ||| shl32 stickyunavail 23
    ||| shl32 impebreak 22
    ||| shl32 allhavereset 19
    ||| shl32 anyhavereset 18
    ||| shl32 allresumeack 17
    ||| shl32 anyresumeack 16
    ||| shl32 allnonexistent 15
    ||| shl32 anynonexistent 14
    ||| shl32 allunavail 13
    ||| shl32 anyunavail 12
    ||| shl32 allrunning 11
    ||| shl32 anyrunning 10
    ||| shl32 allhalted 9
    ||| shl32 anyhalted 8
    ||| shl32 authenticated 7
    ||| shl32 authbusy 6
    ||| shl32 hasresethaltreq 5
    ||| shl32 confstrptrvalid 4
    ||| shl32 version 0

module _ {Cpu : Type 0} where
  -- Answered whatever the operation is.
  unfoldable pub access_status : ℕ → DebugModule Cpu → DebugModule Cpu
  access_status address s = record s {
    dmi_container_register = pack_dmi address debug_module_status 0x00;
  }

  -- The test of the second branch is an assignment to a local variable that nothing reads.
  unfoldable pub access_hartinfo : ℕ → ℕ → DebugModule Cpu → DebugModule Cpu
  access_hartinfo address dmi_op s =
      if dmi_op == 0x01 then record s { dmi_container_register = pack_dmi address 0x00 0x00 } else s
