-- ===== src/DebugModule/Access/Requests.antt =====
-- A request packed from its fields is the one that is carried out.
use riscv_openocd_jtag_mock.Prelude.{ℕ, ◌^◌, ◌<◌, ◌≡◌, ◌≢◌, arith, ==_of_ne}
use riscv_openocd_jtag_mock.Cpu.{Environment}
use riscv_openocd_jtag_mock.Dmi.{get_dmi_address, get_dmi_data, get_dmi_op, pack_dmi}
use riscv_openocd_jtag_mock.Dmi.Codec.{
  pack_dmi-sum, get_dmi_address-pack_dmi, get_dmi_data-pack_dmi, get_dmi_op-pack_dmi,
}
use riscv_openocd_jtag_mock.DebugModule.State.{DebugModule}
use riscv_openocd_jtag_mock.DebugModule.Access.{access_register_at, dmi_request, update_dmi}

-- The module with a request, or an answer, in place.
abbrev pub requested : {Cpu : Type 0} → ℕ → ℕ → ℕ → DebugModule Cpu → DebugModule Cpu
requested a d o s = record s { dmi_container_register = pack_dmi a d o }

module _ {Cpu : Type 0} (env : Environment Cpu) where
  pub update_dmi-pack_dmi :
      (a d o : ℕ) (s : DebugModule Cpu)
      → a < 128
      → d < 2 ^ 32
      → o < 4
      → 0 < o
      → update_dmi env (pack_dmi a d o) s ≡ access_register_at env a d o (requested a d o s)
  unfolding update_dmi dmi_request
  update_dmi-pack_dmi a d o s ha hd ho pos =
      let some_bit : pack_dmi a d o ≢ 0 = omega (arith, pack_dmi-sum a d o) in
      let address : get_dmi_address (pack_dmi a d o) ≡ a =
        omega (arith, get_dmi_address-pack_dmi a d o) in
      let word : get_dmi_data (pack_dmi a d o) ≡ d = omega (arith, get_dmi_data-pack_dmi a d o) in
      let op : get_dmi_op (pack_dmi a d o) ≡ o = omega (arith, get_dmi_op-pack_dmi a d o) in
      rw (==_of_ne _ 0 some_bit) (rw (address, word, op))
