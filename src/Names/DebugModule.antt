-- ===== src/Names/DebugModule.antt =====
-- `dm_register_as_string()` of remote_bitbang.cpp: the registers of the debug module.
use Prim.Native.String.{String}
use riscv_openocd_jtag_mock.Prelude.{ℕ, List, [], ◌∷◌}
use riscv_openocd_jtag_mock.Names.Switch.{switch}

-- The cases of the switch, in order.
abbrev pub dm_register_cases : List (ℕ × String)
dm_register_cases =
    (0x04, "Abstract Data 0 (data0)")
    ∷ (0x05, "Abstract Data 1 (data1)")
    ∷ (0x06, "Abstract Data 2 (data2)")
    ∷ (0x07, "Abstract Data 3 (data3)")
    ∷ (0x08, "Abstract Data 4 (data4)")
    ∷ (0x09, "Abstract Data 5 (data5)")
    ∷ (0x0a, "Abstract Data 6 (data6)")
    ∷ (0x0b, "Abstract Data 7 (data7)")
    ∷ (0x0c, "Abstract Data 8 (data8)")
    ∷ (0x0d, "Abstract Data 9 (data9)")
    ∷ (0x0e, "Abstract Data 10 (data10)")
    ∷ (0x0f, "Abstract Data 11 (data11)")
    ∷ (0x10, "Debug Module Control (dmcontrol)")
    ∷ (0x11, "Debug Module Status (dmstatus)")
    ∷ (0x12, "Hart Info (hartinfo)")
    ∷ (0x13, "Halt Summary 1 (haltsum1)")
    ∷ (0x14, "Hart Array Window Select (hawindowsel)")
    ∷ (0x15, "Hart Array Window (hawindow)")
    ∷ (0x16, "Abstract Control and Status (abstractcs)")
    ∷ (0x17, "Abstract Command (command)")
    ∷ (0x18, "Abstract Command Autoexec (abstractauto)")
    ∷ (0x19, "Configuration Structure Pointer 0 (confstrptr0)")
    ∷ (0x1a, "Configuration Structure Pointer 1 (confstrptr1)")
    ∷ (0x1b, "Configuration Structure Pointer 2 (confstrptr2)")
    ∷ (0x1c, "Configuration Structure Pointer 3 (confstrptr3)")
    ∷ (0x1d, "Next Debug Module (nextdm)")
    ∷ (0x1f, "Custom Features (custom)")
    ∷ (0x20, "Program Buffer 0 (progbuf0)")
    ∷ (0x21, "Program Buffer 1 (progbuf1)")
    ∷ (0x22, "Program Buffer 2 (progbuf2)")
    ∷ (0x23, "Program Buffer 3 (progbuf3)")
    ∷ (0x24, "Program Buffer 4 (progbuf4)")
    ∷ (0x25, "Program Buffer 5 (progbuf5)")
    ∷ (0x26, "Program Buffer 6 (progbuf6)")
    ∷ (0x27, "Program Buffer 7 (progbuf7)")
    ∷ (0x28, "Program Buffer 8 (progbuf8)")
    ∷ (0x29, "Program Buffer 9 (progbuf9)")
    ∷ (0x2a, "Program Buffer 10 (progbuf10)")
    ∷ (0x2b, "Program Buffer 11 (progbuf11)")
    ∷ (0x2c, "Program Buffer 12 (progbuf12)")
    ∷ (0x2d, "Program Buffer 13 (progbuf13)")
    ∷ (0x2e, "Program Buffer 14 (progbuf14)")
    ∷ (0x2f, "Program Buffer 15 (progbuf15)")
    ∷ (0x30, "Authentication Data (authdata)")
    ∷ (0x32, "Debug Module Control and Status 2 (dmcs2)")
    ∷ (0x34, "Halt Summary 2 (haltsum2)")
    ∷ (0x35, "Halt Summary 3 (haltsum3)")
    ∷ (0x37, "System Bus Address 127:96 (sbaddress3)")
    ∷ (0x38, "System Bus Access Control and Status (sbcs)")
    ∷ (0x39, "System Bus Address 31:0 (sbaddress0)")
    ∷ (0x3a, "System Bus Address 63:32 (sbaddress1)")
    ∷ (0x3b, "System Bus Address 95:64 (sbaddress2)")
    ∷ (0x3c, "System Bus Data 31:0 (sbdata0)")
    ∷ (0x3d, "System Bus Data 63:32 (sbdata1)")
    ∷ (0x3e, "System Bus Data 95:64 (sbdata2)")
    ∷ (0x3f, "System Bus Data 127:96 (sbdata3)")
    ∷ (0x40, "Halt Summary 0 (haltsum0)")
    ∷ (0x70, "Custom Feature 0 (custom0)")
    ∷ (0x71, "Custom Feature 1 (custom1)")
    ∷ (0x72, "Custom Feature 2 (custom2)")
    ∷ (0x73, "Custom Feature 3 (custom3)")
    ∷ (0x74, "Custom Feature 4 (custom4)")
    ∷ (0x75, "Custom Feature 5 (custom5)")
    ∷ (0x76, "Custom Feature 6 (custom6)")
    ∷ (0x77, "Custom Feature 7 (custom7)")
    ∷ (0x78, "Custom Feature 8 (custom8)")
    ∷ (0x79, "Custom Feature 9 (custom9)")
    ∷ (0x7a, "Custom Feature 10 (custom10)")
    ∷ (0x7b, "Custom Feature 11 (custom11)")
    ∷ (0x7c, "Custom Feature 12 (custom12)")
    ∷ (0x7d, "Custom Feature 13 (custom13)")
    ∷ (0x7e, "Custom Feature 14 (custom14)")
    ∷ (0x7f, "Custom Feature 15 (custom15)")
    ∷ []

unfoldable pub dm_register_as_string : ℕ → String
dm_register_as_string address = switch address dm_register_cases
