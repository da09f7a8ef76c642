-- ===== src/Dmi.antt =====
-- The 41 bits of the debug module interface register `dmi`: an address, a data word and an
-- operation (remote_bitbang.cpp: `init_dmi`, `get_dmi_address`, `get_dmi_data`, `get_dmi_op`).
pub mod Codec
use riscv_openocd_jtag_mock.Prelude.{ℕ, ◌/◌, ◌^◌}
use riscv_openocd_jtag_mock.Word.{shl64, shr, ◌&&&◌, ◌|||◌}

abbrev pub abits_length : ℕ
abits_length = 7

abbrev abits_mask : ℕ
abits_mask = 0b1111111

unfoldable pub get_dmi_address : ℕ → ℕ
get_dmi_address dmi = shr dmi 34 &&& abits_mask

unfoldable pub get_dmi_data : ℕ → ℕ
get_dmi_data dmi = shr dmi 2 &&& 0xFFFFFFFF

unfoldable pub get_dmi_op : ℕ → ℕ
get_dmi_op dmi = shr dmi 0 &&& 0b11

-- What `print_dmi()` prints: the address, the data and the operation.
unfoldable pub printed_dmi : ℕ → ℕ × ℕ × ℕ
printed_dmi dmi = (shr dmi 34 &&& abits_mask, shr dmi 2 &&& 0xFFFFFFFF, shr dmi 0 &&& 0b11)

-- The expression that the code writes at each place where it fills `dmi_container_register`.
unfoldable pub pack_dmi : ℕ → ℕ → ℕ → ℕ
pack_dmi address data_word op =
    shl64 (address &&& abits_mask) 34
    ||| shl64 (data_word &&& 0xFFFFFFFF) 2
    ||| shl64 (op &&& 0b11) 0

unfoldable pub init_dmi : ℕ
unfolding pack_dmi
init_dmi = pack_dmi 0x10 0x00000001 0x00
