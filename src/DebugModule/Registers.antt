-- ===== src/DebugModule/Registers.antt =====
-- The abstract data registers `data0` to `data11`, 0x04 to 0x0f, and `abstractcs`, register 0x16.
use riscv_openocd_jtag_mock.Prelude.{ℕ, ◌-◌, ◌==◌, if◌then◌else◌, get_or, set}
use riscv_openocd_jtag_mock.Word.{shl32, ◌&&&◌, ◌|||◌}
use riscv_openocd_jtag_mock.Dmi.{pack_dmi}
use riscv_openocd_jtag_mock.DebugModule.State.{AbstractCs, DebugModule}

-- The word that a read of `abstractcs` reports.
unfoldable pub abstractcs_word : AbstractCs → ℕ
abstractcs_word c =
    shl32 c.progbufsize 24
    ||| shl32 c.busy 12
    ||| shl32 c.relaxedpriv 11
    ||| shl32 c.cmderr 8
    ||| shl32 c.datacount 0

-- The word that a write stores.
unfoldable pub abstractcs_masked : AbstractCs → ℕ
abstractcs_masked c =
    shl32 (c.progbufsize &&& 0b11111) 24
    ||| shl32 (c.busy &&& 0b1) 12
    ||| shl32 (c.relaxedpriv &&& 0b1) 11
    ||| shl32 (c.cmderr &&& 0b111) 8
    ||| shl32 (c.datacount &&& 0b1111) 0

module _ {Cpu : Type 0} where
  -- Called with an address from 0x04 to 0x0f only, so the index is below 12.
  unfoldable pub access_data : ℕ → ℕ → ℕ → DebugModule Cpu → DebugModule Cpu
  access_data address dmi_data dmi_op s =
      let idx = address - 0x04 in
      if dmi_op == 0x01
      then record s {
        dmi_container_register = pack_dmi address (get_or s.abstract_data idx 0) 0x00;
      }
      else (if dmi_op == 0x02
          then record s { abstract_data = set s.abstract_data idx dmi_data }
          else s)

  -- A read fills a local variable that hides the member `abstractcs_container_register`.
  unfoldable pub access_abstractcs : ℕ → ℕ → DebugModule Cpu → DebugModule Cpu
  access_abstractcs address dmi_op s =
      if dmi_op == 0x01
      then record s {
        dmi_container_register = pack_dmi address (abstractcs_word s.abstractcs) 0x00;
      }
      else (if dmi_op == 0x02
          then record s { abstractcs_container_register = abstractcs_masked s.abstractcs }
          else s)
