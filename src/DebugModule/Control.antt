-- ===== src/DebugModule/Control.antt =====
-- `dmcontrol`, register 0x10: reading and writing it, single stepping and the selection of harts.
use riscv_openocd_jtag_mock.Prelude.{ℕ, ◌&&◌, ◌==◌, if◌then◌else◌}
use riscv_openocd_jtag_mock.Word.{shl32, shr, ◌&&&◌, ◌|||◌}
use riscv_openocd_jtag_mock.Cpu.{Environment}
use riscv_openocd_jtag_mock.Dmi.{pack_dmi}
use riscv_openocd_jtag_mock.DebugModule.State.{DmControl, DebugModule}
pub mod Fields

-- The response word, built from the variables.
unfoldable pub debug_module_control : DmControl → ℕ
debug_module_control c =
    shl32 c.haltreq 31
    ||| shl32 c.resumereq 30
    ||| shl32 c.hartreset 29
    ||| shl32 c.ackhavereset 28
    ||| shl32 c.ackunavail 27
    ||| shl32 c.hasel 26
    ||| shl32 c.hartsello 16
    ||| shl32 c.hartselhi 6
    ||| shl32 c.setkeepalive 5
    ||| shl32 c.clrkeepalive 4
    ||| shl32 c.setresethaltreq 3
    ||| shl32 c.clrresethaltreq 2
    ||| shl32 c.ndmreset 1
    ||| shl32 c.dmactive 0

-- The variables, parsed from the word that is written.
unfoldable pub parse_control : ℕ → DmControl
parse_control w = record {
  haltreq = shr w 31 &&& 0b1;
  resumereq = shr w 30 &&& 0b1;
  hartreset = shr w 29 &&& 0b1;
  ackhavereset = shr w 28 &&& 0b1;
  ackunavail = shr w 27 &&& 0b1;
  hasel = shr w 26 &&& 0b1;
  hartsello = shr w 16 &&& 0b1111111111;
  hartselhi = shr w 6 &&& 0b1111111111;
  setkeepalive = shr w 5 &&& 0b1;
  clrkeepalive = shr w 4 &&& 0b1;
  setresethaltreq = shr w 3 &&& 0b1;
  clrresethaltreq = shr w 2 &&& 0b1;
  ndmreset = shr w 1 &&& 0b1;
  dmactive = shr w 0 &&& 0b1;
}

module _ {Cpu : Type 0} (env : Environment Cpu) where
  -- The answer that a read and most writes leave in `dmi_container_register`.
  unfoldable pub answer_control : ℕ → DebugModule Cpu → DebugModule Cpu
  answer_control address s = record s {
    dmi_container_register = pack_dmi address (debug_module_control s.control) 0x00;
  }

  -- `resumereq` runs one instruction.
  unfoldable pub single_step : DebugModule Cpu → DebugModule Cpu
  single_step s =
      if s.control.resumereq == 1
      then record s { cpu = env.cpu_step s.cpu; dpc = env.pc (env.cpu_step s.cpu) }
      else s

  -- A write with `hasel` clears the selection of harts: there is a single one.
  unfoldable pub write_control : ℕ → ℕ → DebugModule Cpu → DebugModule Cpu
  unfolding answer_control single_step
  write_control address dmi_data s =
      let c = parse_control dmi_data in
      let t = single_step (record s { control = c }) in
      if c.hasel == 0 && c.dmactive == 1
      then answer_control address (record t { control = record c { dmactive = 1 } })
      else (if c.hasel == 1
          then answer_control address
              (record t { control = record c { dmactive = 1; hartsello = 0; hartselhi = 0 } })
          else t)

  unfoldable pub access_control : ℕ → ℕ → ℕ → DebugModule Cpu → DebugModule Cpu
  unfolding write_control
  access_control address dmi_data dmi_op s =
      if dmi_op == 0x01
      then answer_control address s
      else (if dmi_op == 0x02 then write_control address dmi_data s else s)
