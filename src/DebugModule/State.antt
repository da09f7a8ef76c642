-- ===== src/DebugModule/State.antt =====
-- The registers of the debug module (remote_bitbang.h).
use riscv_openocd_jtag_mock.Prelude.{ℕ, List}

-- The variables of `dmcontrol`, register 0x10.
pub record DmControl : Type 0 where
  pub haltreq : ℕ
  pub resumereq : ℕ
  pub hartreset : ℕ
  pub ackhavereset : ℕ
  pub ackunavail : ℕ
  pub hasel : ℕ
  pub hartsello : ℕ
  pub hartselhi : ℕ
  pub setkeepalive : ℕ
  pub clrkeepalive : ℕ
  pub setresethaltreq : ℕ
  pub clrresethaltreq : ℕ
  pub ndmreset : ℕ
  pub dmactive : ℕ

-- The variables of `abstractcs`, register 0x16.
pub record AbstractCs : Type 0 where
  pub progbufsize : ℕ
  pub busy : ℕ
  pub relaxedpriv : ℕ
  pub cmderr : ℕ
  pub datacount : ℕ

-- `dmi_container_register` is where a request stands and where its answer is put. `abstract_data`
-- has 12 elements of type `uint64_t`.
pub record DebugModule (Cpu : Type 0) : Type 0 where
  pub dmi_container_register : ℕ
  pub abstractcs_container_register : ℕ
  pub control : DmControl
  pub abstractcs : AbstractCs
  pub abstract_data : List ℕ
  pub arg0 : ℕ
  pub arg1 : ℕ
  pub arg2 : ℕ
  pub dpc : ℕ
  pub cpu : Cpu
