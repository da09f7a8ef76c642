-- ===== src/Tests/Target.antt =====
-- The state machine and the pins.
use riscv_openocd_jtag_mock.Prelude.{
  ◌+◌, ◌/◌, ◌^◌, ◌≡◌, ◌⊎◌, refl, arith, true, ◌∷◌, replicate, done, ◌>>=◌, Returns,
}
use riscv_openocd_jtag_mock.Tap.{
  run_test_idle, select_dr_scan, shift_dr, update_dr, update_ir, next_state,
}
use riscv_openocd_jtag_mock.Tap.Columns.{in_dr_column, mirror, in_column, columns_mirror}
use riscv_openocd_jtag_mock.Dtmcs.{init_dtmcs, pack_dtmcs, printed_dtmcs}
use riscv_openocd_jtag_mock.Dtmcs.Fields.{cut, printed_dtmcs-roundtrip}
use riscv_openocd_jtag_mock.Target.{Target, Pins}
use riscv_openocd_jtag_mock.Port.Bits.{word_of, bits_of}
use riscv_openocd_jtag_mock.Port.Client.{data_scan}
use riscv_openocd_jtag_mock.Port.Shift.{clock_cycle, dmi, put_register}
use riscv_openocd_jtag_mock.Port.Scan.{scan_bits, scanned, full_scan}
use riscv_openocd_jtag_mock.Port.Transaction.{dmi_bus, dmi_scan_refines_bus}
use riscv_openocd_jtag_mock.Port.Identity.{identity, word_scan_lem}
use riscv_openocd_jtag_mock.Port.Invariant.{IsTarget}
use riscv_openocd_jtag_mock.Port.Instruction.{instruction_scan, instruction_scan_lem}
use riscv_openocd_jtag_mock.Port.Bypass.{bypass_scan_lem}
use riscv_openocd_jtag_mock.Port.Counter.{counter_wraps}
use riscv_openocd_jtag_mock.Port.Reset.{tms_cycles, IsReset, five_cycles-IsReset}
use riscv_openocd_jtag_mock.Tests.Sample.{Machine, sample_environment, sample_module, sample_target}

columns_mirror_example :
    (next_state (mirror shift_dr) 1 ≡ mirror (next_state shift_dr 1))
    × (((in_column (next_state shift_dr 1) ≡ true)
          × (in_dr_column (next_state shift_dr 1) ≡ in_dr_column shift_dr))
        ⊎ (((shift_dr ≡ update_dr) ⊎ (shift_dr ≡ update_ir))
            × ((next_state shift_dr 1 ≡ run_test_idle) ⊎ (next_state shift_dr 1 ≡ select_dr_scan))))
columns_mirror_example = columns_mirror shift_dr 1 refl

dmi_scan_refines_bus_example :
    (p : Pins) × (data_scan sample_environment 40 0x4040000006 sample_target ≡ (
      dmi_bus sample_environment 0x4040000006 sample_module >>= λ (m, answer). done (
        record sample_target {
          pins = p;
          scan = record sample_target.scan { dmi_shift_register = 0x4040000006; shift_amount = 42 };
          dm = m;
        },
        answer,
      )))
dmi_scan_refines_bus_example =
    dmi_scan_refines_bus sample_environment 0x4040000006 sample_target refl refl (omega arith)
      (omega arith)

-- In Shift-DR, with a request in the shift register.
abbrev shifting_target : Target Machine
shifting_target = record sample_target {
  tsm_current_state = shift_dr;
  scan = record sample_target.scan { dmi_shift_register = 0x4000000004; shift_amount = 1 };
}

full_scan_example :
    scan_bits sample_environment 1 (replicate 40 0) shifting_target
    ≡ done (
      record (scanned dmi 1 (replicate 40 0) shifting_target) {
        scan = put_register dmi (word_of (1 ∷ replicate 40 0)) 42 shifting_target.scan;
      },
      bits_of 41 0x4000000004,
    )
full_scan_example =
    full_scan sample_environment dmi 1 (replicate 40 0) shifting_target
      (record {
        in_state = refl;
        selected = refl;
        started = omega arith;
        counting = omega arith;
        fits = omega arith;
      })
      (ground arith) refl

abbrev identity_target : Target Machine
identity_target = record sample_target {
  scan = record sample_target.scan { instruction_container_register = 0x01 };
}

word_scan_lem_example :
    (p : Pins) × (data_scan sample_environment 31 0xFFFFFFFF identity_target
      ≡ done (
        record identity_target {
          pins = p;
          scan = record identity_target.scan {
            id_code_container_register = 0xFFFFFFFF;
            id_code_shift_register = 0xFFFFFFFF;
            shift_amount = 33;
          };
        },
        0x20000913,
      ))
word_scan_lem_example =
    word_scan_lem sample_environment identity 0xFFFFFFFF identity_target refl refl (omega arith)
      (omega arith)

sample_target-IsTarget : IsTarget sample_target
unfolding init_dtmcs
sample_target-IsTarget = ground arith

five_cycles-IsReset_example :
    Returns
      (IsReset sample_environment sample_target)
      (tms_cycles sample_environment 5 sample_target)
five_cycles-IsReset_example =
    five_cycles-IsReset sample_environment sample_target (λ e. ground arith)

printed_dtmcs-roundtrip_example :
    (printed_dtmcs (pack_dtmcs (printed_dtmcs 0x71)) ≡ cut (printed_dtmcs 0x71))
    × (pack_dtmcs (printed_dtmcs 0x208071) ≡ 0x71)
printed_dtmcs-roundtrip_example = printed_dtmcs-roundtrip (printed_dtmcs 0x71) 0x208071

instruction_scan_lem_example :
    (p : Pins) × (instruction_scan sample_environment 0x10 sample_target
      ≡ done (
        record sample_target {
          pins = p;
          scan = record sample_target.scan {
            instruction_container_register = 0x10;
            instruction_shift_register = 0x10;
          };
        },
        8,
      ))
instruction_scan_lem_example =
    instruction_scan_lem sample_environment 0x10 sample_target refl (omega arith) (omega arith)

-- In Shift-DR, with the counter at its end.
abbrev counted_target : Target Machine
counted_target = record shifting_target {
  scan = record shifting_target.scan { shift_amount = 255 };
}

counter_wraps_example :
    (t : Target Machine) × ((clock_cycle sample_environment 0 1 counted_target >>= λ (u, out).
    clock_cycle sample_environment 0 1 u)
      ≡ done (t, 0))
    × (t.scan.dmi_shift_register ≡ 0x4000000004 / 2 + 2 ^ 40)
    × (t.scan.shift_amount ≡ 1)
counter_wraps_example =
    counter_wraps sample_environment 1 1 counted_target refl refl refl (omega arith) (omega arith)

-- With BYPASS, all ones.
abbrev bypassed_target : Target Machine
bypassed_target = record sample_target {
  scan = record sample_target.scan { instruction_container_register = 0x1F };
}

bypass_scan_lem_example :
    (p : Pins) × (p.tdo ≡ 0)
    × (data_scan sample_environment 7 0xA5 bypassed_target
        ≡ done (record bypassed_target { pins = p }, 0))
bypass_scan_lem_example =
    bypass_scan_lem sample_environment bypassed_target
      (record { no_idcode = omega arith; no_dtmcs = omega arith; no_dmi = omega arith }) 7 0xA5 refl
