-- ===== src/Dtmcs.antt =====
-- `dtmcs`, the register of the DTM for control and status (remote_bitbang.cpp: `init_dtmcs()`, which
-- builds the word, and `print_dtmcs()`, which takes it apart).
pub mod Fields
use riscv_openocd_jtag_mock.Prelude.{ℕ}
use riscv_openocd_jtag_mock.Word.{shl32, shr, ◌&&&◌, ◌|||◌}
use riscv_openocd_jtag_mock.Dmi.{abits_length}

pub record Dtmcs : Type 0 where
  pub errinfo : ℕ
  pub dtmhardreset : ℕ
  pub dmireset : ℕ
  pub idle : ℕ
  pub dmistat : ℕ
  pub abits : ℕ
  pub version : ℕ

-- The expression of `init_dtmcs()`.
unfoldable pub pack_dtmcs : Dtmcs → ℕ
pack_dtmcs d =
    shl32 (d.errinfo &&& 0b111) 0x12
    ||| shl32 (d.dtmhardreset &&& 0b1) 0x11
    ||| shl32 (d.dmireset &&& 0b1) 0x10
    ||| shl32 (d.idle &&& 0b111) 0x0C
    ||| shl32 (d.dmistat &&& 0b11) 0x0A
    ||| shl32 (d.abits &&& 0b111111) 0x04
    ||| shl32 (d.version &&& 0b1111) 0x00

unfoldable pub init_dtmcs : ℕ
unfolding pack_dtmcs
init_dtmcs = pack_dtmcs (record {
  errinfo = 0x00;
  dtmhardreset = 0x00;
  dmireset = 0x00;
  idle = 0x00;
  dmistat = 0x00;
  abits = abits_length;
  version = 0x01;
})

-- What `print_dtmcs()` prints.
unfoldable pub printed_dtmcs : ℕ → Dtmcs
printed_dtmcs dtmcs = record {
  errinfo = shr dtmcs 0x12 &&& 0b111;
  dtmhardreset = shr dtmcs 0x11 &&& 0b1;
  dmireset = shr dtmcs 0x10 &&& 0b1;
  idle = shr dtmcs 0x0C &&& 0b111;
  dmistat = shr dtmcs 0x0A &&& 0b11;
  abits = shr dtmcs 0x04 &&& 0b111111;
  version = shr dtmcs 0x00 &&& 0b1111;
}
