-- ===== src/Tests/DebugModule.antt =====
-- Requests to the debug module.
use riscv_openocd_jtag_mock.Prelude.{
  [], ◌∷◌, ℕ, ◌+◌, ◌*◌, ◌%◌, ◌^◌, ◌<◌, ◌≡◌, ◌≢◌, ◌↔◌, refl, arith, done, undefined, aborted,
  waiting, ◌>>=◌, Keeps, set,
}
use riscv_openocd_jtag_mock.Dmi.{get_dmi_address, get_dmi_data, get_dmi_op, printed_dmi, pack_dmi}
use riscv_openocd_jtag_mock.Dmi.Codec.{pack_dmi-roundtrip}
use riscv_openocd_jtag_mock.DebugModule.{DebugModule}
use riscv_openocd_jtag_mock.DebugModule.Control.{debug_module_control, parse_control}
use riscv_openocd_jtag_mock.DebugModule.Control.Fields.{parse_control-roundtrip}
use riscv_openocd_jtag_mock.DebugModule.Command.{
  data_at, segment_address_of, word_index_of, write_command,
}
use riscv_openocd_jtag_mock.DebugModule.Command.Memory.{
  memory, memory_index_bounds, WordRead, memory_read_lem,
}
use riscv_openocd_jtag_mock.DebugModule.Access.{dmi_request, update_dmi}
use riscv_openocd_jtag_mock.DebugModule.Access.Fresh.{with_fresh, IsKnown}
use riscv_openocd_jtag_mock.DebugModule.Command.{read_arguments}
use riscv_openocd_jtag_mock.Cpu.{Segment, find_segment}
use riscv_openocd_jtag_mock.DebugModule.Access.Totality.{IsUndefinedRequest, update_dmi_total}
use riscv_openocd_jtag_mock.DebugModule.Access.Storage.{data_write_read}
use riscv_openocd_jtag_mock.DebugModule.Access.Selection.{readback, control_write_read}
use riscv_openocd_jtag_mock.DebugModule.Access.Execution.{
  register_command_read, register_command_error,
}
use riscv_openocd_jtag_mock.DebugModule.Access.Pending.{nop_repeats_command}
use riscv_openocd_jtag_mock.DebugModule.Access.Frame.{update_dmi-frame}
use riscv_openocd_jtag_mock.DebugModule.Command.Frame.{Framed}
use riscv_openocd_jtag_mock.DebugModule.Access.Answer.{answer_stands}
use riscv_openocd_jtag_mock.DebugModule.Invariant.{IsModule}
use riscv_openocd_jtag_mock.Tests.Sample.{
  Machine, sample_environment, sample_machine, sample_module,
}

sample_module-IsModule : IsModule sample_module
sample_module-IsModule = ground arith

pack_dmi-roundtrip_example :
    (pack_dmi (get_dmi_address 0x123456789A) (get_dmi_data 0x123456789A) (get_dmi_op 0x123456789A)
      ≡ 0x123456789A)
    × (get_dmi_address (pack_dmi 0x97 5 6) ≡ 0x17)
    × (get_dmi_data (pack_dmi 0x97 5 6) ≡ 5)
    × (get_dmi_op (pack_dmi 0x97 5 6) ≡ 2)
    × (printed_dmi (pack_dmi 0x97 5 6) ≡ (0x17, 5, 2))
pack_dmi-roundtrip_example = pack_dmi-roundtrip 0x123456789A 0x97 5 6 (omega arith)

parse_control-roundtrip_example :
    (debug_module_control (parse_control 0x84000001) ≡ 0x84000001)
    × (parse_control (debug_module_control sample_module.control) ≡ sample_module.control)
parse_control-roundtrip_example =
    parse_control-roundtrip 0x84000001 sample_module.control (ground arith)

memory_index_bounds_example :
    (word_index_of 0x40012346 < 16384)
    × (segment_address_of 0x40012346 + 4 * word_index_of 0x40012346 + 0x40012346 % 4
        ≡ 0x40012346 % 2 ^ 32)
memory_index_bounds_example = memory_index_bounds 0x40012346

data_write_read_example :
    (update_dmi sample_environment (pack_dmi 5 99 2) sample_module
      >>= update_dmi sample_environment (pack_dmi 5 0 1))
    ≡ done (record sample_module {
      dmi_container_register = pack_dmi 5 99 0;
      abstract_data = set sample_module.abstract_data 1 99;
    })
data_write_read_example =
    data_write_read sample_environment 1 1 99 sample_module (omega arith) (omega arith)
      (omega arith) refl

-- A module with a segment at 0, and a read of the byte at 0, with the increment.
abbrev stocked : DebugModule Machine
stocked = record sample_module { cpu = record sample_machine { store = (0, λ i. i + 1) ∷ [] } }

abbrev byte_read : ℕ
byte_read = pack_dmi 0x17 0x02080000 2

other_array : ℕ → Segment
other_array k j = 99

byte_read-IsKnown : IsKnown sample_environment (dmi_request byte_read stocked)
unfolding find_segment dmi_request read_arguments pack_dmi get_dmi_data
byte_read-IsKnown h = (λ i. i + 1, refl)

update_dmi_total_example :
    (update_dmi sample_environment byte_read stocked ≢ aborted)
    × (update_dmi sample_environment byte_read stocked ≢ waiting)
    × ((update_dmi sample_environment byte_read stocked ≡ undefined)
        ↔ IsUndefinedRequest (dmi_request byte_read stocked).dmi_container_register)
    × (update_dmi (with_fresh sample_environment other_array) byte_read stocked
        ≡ update_dmi sample_environment byte_read stocked)
update_dmi_total_example =
    update_dmi_total sample_environment other_array byte_read stocked byte_read-IsKnown

control_write_read_example :
    (t : DebugModule Machine) × ((update_dmi sample_environment
          (pack_dmi 0x10 0x47FFFFC1 2)
          sample_module
        >>= update_dmi sample_environment (pack_dmi 0x10 0 1))
      ≡ done t)
    × (t.dmi_container_register ≡ pack_dmi 0x10 (readback 0x47FFFFC1) 0)
    × (t.cpu ≡ record sample_machine { counter = 0x40000004 })
    × (t.dpc ≡ 0x40000004)
    × (t.abstract_data ≡ sample_module.abstract_data)
    × (t.abstractcs ≡ sample_module.abstractcs)
control_write_read_example =
    control_write_read sample_environment 0x47FFFFC1 sample_module (omega arith)

register_command_read_example :
    (t : DebugModule Machine) × ((update_dmi sample_environment
          (pack_dmi 0x17 0x00221005 2)
          sample_module
        >>= update_dmi sample_environment (pack_dmi 0x04 0 1))
      ≡ done t)
    × (t.dmi_container_register ≡ pack_dmi 0x04 105 0)
    × (t.cpu ≡ sample_machine)
    × (t.dpc ≡ 0x40000000)
    × (t.control ≡ sample_module.control)
register_command_read_example =
    register_command_read sample_environment 0x00221005 sample_module (omega arith) refl refl

register_command_error_example :
    (t : DebugModule Machine) × ((update_dmi sample_environment
          (pack_dmi 0x17 0x00321005 2)
          sample_module
        >>= update_dmi sample_environment (pack_dmi 0x16 0 1))
      ≡ done t)
    × (t.dmi_container_register ≡ pack_dmi 0x16 0x200 0)
register_command_error_example =
    register_command_error sample_environment 0x00321005 sample_module (omega arith) refl
      sample_module-IsModule

memory_read_lem_example :
    (t : DebugModule Machine) × (write_command sample_environment 0x02280000 sample_module ≡ done t)
    × WordRead sample_environment 0x02280000 sample_module t
memory_read_lem_example =
    memory_read_lem sample_environment 0x02280000 sample_module refl refl refl refl

nop_repeats_command_example :
    (t : DebugModule Machine) × ((update_dmi sample_environment
          (pack_dmi 0x17 0x02280000 2)
          sample_module
        >>= update_dmi sample_environment 0)
      ≡ done t)
    × (data_at t 0 ≡ memory sample_environment sample_machine 68)
    × (data_at t 1 ≡ 72)
nop_repeats_command_example =
    nop_repeats_command sample_environment 0x02280000 sample_module (omega arith) refl refl refl
      refl refl (omega arith)

update_dmi-frame_example :
    Keeps
      (Framed sample_environment sample_module)
      (update_dmi sample_environment (pack_dmi 0x17 0x00231005 2) sample_module)
unfolding dmi_request get_dmi_address pack_dmi
update_dmi-frame_example =
    update_dmi-frame sample_environment (pack_dmi 0x17 0x00231005 2) sample_module

answer_stands_example :
    Keeps
      (λ (t : DebugModule Machine). (v : ℕ) × (t.dmi_container_register ≡ pack_dmi 0x05 99 2))
      (update_dmi sample_environment (pack_dmi 0x05 99 2) sample_module)
answer_stands_example =
    answer_stands sample_environment 0x05 99 2 sample_module (omega arith) (omega arith)
      (omega arith) (omega arith)
