-- ===== src/Port/Instruction.antt =====
-- The scan of the instruction register, from Run-Test/Idle and back: how a debugger selects the data
-- register of its next scan.
pub mod Cycle
use riscv_openocd_jtag_mock.Prelude.{
  ℕ, ◌+◌, ◌*◌, ◌/◌, ◌%◌, ◌^◌, ◌<◌, ◌≡◌, refl, ap, ◌∙◌, arith, List, [], ◌∷◌, Outcome, done, ◌>>=◌,
}
use riscv_openocd_jtag_mock.Word.{u8, shr, shl64, ◌&&&◌, ◌|||◌, bit_and-mod, low_or_add}
use riscv_openocd_jtag_mock.Tap.{TsmState, run_test_idle, shift_ir, exit1_ir, next_state, tap_step}
use riscv_openocd_jtag_mock.Cpu.{Environment}
use riscv_openocd_jtag_mock.Target.{Target, Pins}
use riscv_openocd_jtag_mock.Port.{
  set_pins, transition, falling_edge, shift_instruction, state_entered,
}
use riscv_openocd_jtag_mock.Port.Bits.{
  word_of, bits_of, AreBits, shift_in, shift_out, shift_in_all, shift_out_lem, word_of-bits_of,
  AreBits-bits_of,
}
use riscv_openocd_jtag_mock.Port.Client.{tms_cycle}
use riscv_openocd_jtag_mock.Port.Shift.{clock_cycle}
use riscv_openocd_jtag_mock.Port.Scan.{scan_bits}
use riscv_openocd_jtag_mock.Port.Instruction.Cycle.{shifting, scan_bits_lem}

module _ {Cpu : Type 0} (env : Environment Cpu) where
  -- Select-DR-Scan, Select-IR-Scan, Capture-IR, Shift-IR, and the falling edge that ends the move.
  unfoldable pub begin_instruction_scan : Target Cpu → Outcome (Target Cpu)
  unfolding tms_cycle
  begin_instruction_scan s = do
    t ← tms_cycle env 1 s
    u ← tms_cycle env 1 t
    v ← tms_cycle env 0 u
    x ← tms_cycle env 0 v
    set_pins env 0 0 0 x

  -- Update-IR and Run-Test/Idle.
  unfoldable pub end_instruction_scan : Target Cpu → Outcome (Target Cpu)
  unfolding tms_cycle
  end_instruction_scan s = tms_cycle env 1 s >>= tms_cycle env 0

  -- The whole scan of an instruction of 5 bits.
  unfoldable pub instruction_scan : ℕ → Target Cpu → Outcome (Target Cpu × ℕ)
  instruction_scan w s = do
    t ← begin_instruction_scan s
    (u, out) ← scan_bits env (w % 2) (bits_of 4 (w / 2)) t
    x ← end_instruction_scan u
    done (x, word_of out)

  -- Behind the move to Shift-IR: its falling edge has shifted once.
  abbrev pub captured : Target Cpu → Target Cpu
  captured s = record s {
    pins = record s.pins {
      tck = 0;
      tms = 0;
      tdi = 0;
      tdo = s.scan.instruction_container_register % 2;
    };
    scan = record s.scan { instruction_shift_register = s.scan.instruction_container_register / 2 };
  }

  pub begin_scan_lem :
      (s : Target Cpu)
      → s.tsm_current_state ≡ run_test_idle
      → s.scan.instruction_container_register < 2 ^ 5
      → begin_instruction_scan s ≡ done (shifting env (captured s))
  unfolding begin_instruction_scan set_pins transition tap_step state_entered falling_edge
      shift_instruction
  begin_scan_lem s st fits =
      let r = s.scan.instruction_container_register in
      let low : (r &&& 1) ≡ r % 2 = bit_and-mod 1 r in
      let high : u8 (shr r 1 ||| shl64 0 4) ≡ r / 2 = ground (arith, low_or_add 4 0 (r / 2)) in
      ap (λ (q : TsmState). begin_instruction_scan (record s { tsm_current_state = q })) st ∙ λ i.
      done (record s {
        pins = record s.pins { tck = 0; tms = 0; tdi = 0; tdo = low i };
        tsm_current_state = shift_ir;
        scan = record s.scan { instruction_shift_register = high i };
      })

  pub end_scan_lem :
      (p : Pins) (w : ℕ) (s : Target Cpu)
      → end_instruction_scan (record s {
        pins = p;
        tsm_current_state = exit1_ir;
        scan = record s.scan { instruction_shift_register = w };
      })
        ≡ done (record s {
          pins = record p { tck = 1; tms = 0; tdi = 0 };
          tsm_current_state = run_test_idle;
          scan = record s.scan {
            instruction_container_register = w;
            instruction_shift_register = w;
          };
        })
  unfolding end_instruction_scan set_pins transition tap_step state_entered falling_edge
  end_scan_lem p w s = refl

  -- The scan of all 5 bits: the instruction less its lowest bit comes out.
  pub scan_instruction :
      (w : ℕ) (s : Target Cpu)
      → w < 2 ^ 5
      → s.scan.instruction_container_register < 2 ^ 5
      → (p : Pins) × (scan_bits env (w % 2) (bits_of 4 (w / 2)) (shifting env (captured s))
          ≡ done (
            record s {
              pins = p;
              tsm_current_state = exit1_ir;
              scan = record s.scan { instruction_shift_register = w };
            },
            bits_of 5 (s.scan.instruction_container_register / 2),
          ))
  scan_instruction w s small fits =
      let r = s.scan.instruction_container_register in
      let bits = bits_of 5 w in
      let (p, scans) =
        scan_bits_lem env (w % 2) (bits_of 4 (w / 2)) (captured s) (omega arith)
          (AreBits-bits_of 5 w) in
      let filled : shift_in (2 ^ 4) bits (r / 2) ≡ w =
        shift_in_all bits (2 ^ 4) (r / 2) refl (omega arith) ∙ word_of-bits_of 5 w small in
      let emptied : shift_out (2 ^ 4) bits (r / 2) ≡ bits_of 5 (r / 2) =
        shift_out_lem bits 0 (2 ^ 4) (r / 2) refl in
      (
        p,
        scans ∙ λ i. done (
          record s {
            pins = p;
            tsm_current_state = exit1_ir;
            scan = record s.scan { instruction_shift_register = filled i };
          },
          emptied i,
        ),
      )

  -- The scan of an instruction of 5 bits: it returns to Run-Test/Idle with the instruction selected,
  -- and changes nothing else but the pins. What is read back is the instruction before, less its
  -- lowest bit: the falling edge that ends the move to Shift-IR has already shifted that bit out.
  pub instruction_scan_lem :
      (w : ℕ) (s : Target Cpu)
      → s.tsm_current_state ≡ run_test_idle
      → w < 2 ^ 5
      → s.scan.instruction_container_register < 2 ^ 5
      → (p : Pins) × (instruction_scan w s
          ≡ done (
            record s {
              pins = p;
              tsm_current_state = run_test_idle;
              scan = record s.scan {
                instruction_container_register = w;
                instruction_shift_register = w;
              };
            },
            s.scan.instruction_container_register / 2,
          ))
  unfolding instruction_scan
  instruction_scan_lem w s st small fits =
      let r = s.scan.instruction_container_register in
      let (p, scans) = scan_instruction w s small fits in
      (
        record p { tck = 1; tms = 0; tdi = 0 },
        rw (begin_scan_lem s st fits) (
            rw scans (
              rw (end_scan_lem p w s) (λ i. done (
                record s {
                  pins = record p { tck = 1; tms = 0; tdi = 0 };
                  tsm_current_state = run_test_idle;
                  scan = record s.scan {
                    instruction_container_register = w;
                    instruction_shift_register = w;
                  };
                },
                word_of-bits_of 5 (r / 2) (omega arith) i,
              )))),
      )
