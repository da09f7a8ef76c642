-- ===== src/Port/Identity.antt =====
-- Scans of the two other data registers, from Run-Test/Idle and back: `idcode` and `dtmcs`.
use riscv_openocd_jtag_mock.Prelude.{ℕ, ◌/◌, ◌%◌, ◌^◌, ◌<◌, ◌≡◌, refl, ◌∙◌, arith, done}
use riscv_openocd_jtag_mock.Tap.{run_test_idle, shift_dr, exit1_dr, tap_step}
use riscv_openocd_jtag_mock.Cpu.{Environment}
use riscv_openocd_jtag_mock.Target.{Target, ScanChain, Pins}
use riscv_openocd_jtag_mock.Port.{
  set_pins, transition, falling_edge, shift_data, state_entered, enter_capture_dr, enter_update_dr,
}
use riscv_openocd_jtag_mock.Port.Bits.{bits_of, word_of-bits_of, AreBits-bits_of, length-bits_of}
use riscv_openocd_jtag_mock.Port.Client.{located, begin_scan, end_scan, data_scan}
use riscv_openocd_jtag_mock.Port.Shift.{
  DataRegister, idcode, dtmcs, code_of, put_register, IsShifting,
}
use riscv_openocd_jtag_mock.Port.Scan.{scan_bits, scanned, full_scan}

-- The two registers of 32 bits, and their containers.
pub data WordRegister : Type 0 where
  identity status : WordRegister

abbrev pub register_of : WordRegister → DataRegister
register_of identity = idcode
register_of status = dtmcs

abbrev pub container : WordRegister → ScanChain → ℕ
container identity c = c.id_code_container_register
container status c = c.dtmcs_container_register

-- What Update-DR stores of the word `w` that was shifted in.
abbrev pub stored : WordRegister → ℕ → ScanChain → ScanChain
stored identity w c = record c { id_code_container_register = w }
stored status w c = c

module _ {Cpu : Type 0} (env : Environment Cpu) where
  abbrev capturing : WordRegister → Target Cpu → Target Cpu
  capturing r s = record s {
    pins = record s.pins { tck = 0; tms = 0; tdi = 0 };
    tsm_current_state = shift_dr;
    scan = put_register (register_of r) (container r s.scan) 1 s.scan;
  }

  begin_scan_lem :
      (r : WordRegister) (s : Target Cpu)
      → s.tsm_current_state ≡ run_test_idle
      → s.scan.instruction_container_register ≡ code_of (register_of r)
      → begin_scan env s ≡ done (capturing r s)
  unfolding begin_scan set_pins transition tap_step state_entered enter_capture_dr falling_edge
      shift_data
  begin_scan_lem r s st ir =
      rw (located run_test_idle (code_of (register_of r)) s st ir) (begin r s)
    where
      begin :
          (r : WordRegister) (s : Target Cpu)
          → let t = record s {
            tsm_current_state = run_test_idle;
            scan = record s.scan { instruction_container_register = code_of (register_of r) };
          } in
            begin_scan env t ≡ done (capturing r t)
      begin identity s = refl
      begin status s = refl

  end_scan_lem :
      (r : WordRegister) (w : ℕ) (p : Pins) (s : Target Cpu)
      → s.scan.instruction_container_register ≡ code_of (register_of r)
      → end_scan env (record s {
        pins = p;
        tsm_current_state = exit1_dr;
        scan = put_register (register_of r) w 33 s.scan;
      })
        ≡ done (record s {
          pins = record p { tck = 1; tms = 0; tdi = 0 };
          tsm_current_state = run_test_idle;
          scan = stored r w (put_register (register_of r) w 33 s.scan);
        })
  unfolding end_scan set_pins transition tap_step state_entered enter_update_dr falling_edge
  end_scan_lem identity w p s ir = ground arith
  end_scan_lem status w p s ir = ground arith

  -- The target in Exit1-DR, with the word in the shift register.
  abbrev sent : WordRegister → ℕ → Target Cpu → Target Cpu
  sent r w s = record (scanned (register_of r) (w % 2) (bits_of 31 (w / 2)) (capturing r s)) {
    scan = put_register (register_of r) w 33 s.scan;
  }

  capturing-IsShifting :
      (r : WordRegister) (s : Target Cpu)
      → s.scan.instruction_container_register ≡ code_of (register_of r)
      → container r s.scan < 2 ^ 32
      → IsShifting (register_of r) 32 (capturing r s)
  capturing-IsShifting identity s ir held = record {
    in_state = refl;
    selected = ir;
    started = omega arith;
    counting = omega arith;
    fits = held;
  }
  capturing-IsShifting status s ir held = record {
    in_state = refl;
    selected = ir;
    started = omega arith;
    counting = omega arith;
    fits = held;
  }

  scan_word :
      (r : WordRegister) (w : ℕ) (s : Target Cpu)
      → s.scan.instruction_container_register ≡ code_of (register_of r)
      → w < 2 ^ 32
      → container r s.scan < 2 ^ 32
      → scan_bits env (w % 2) (bits_of 31 (w / 2)) (capturing r s)
        ≡ done (sent r w s, bits_of 32 (container r s.scan))
  scan_word identity w s ir small held =
      full_scan env idcode (w % 2) (bits_of 31 (w / 2)) (capturing identity s)
        (capturing-IsShifting identity s ir held) (AreBits-bits_of 32 w) (length-bits_of 32 w)
      ∙ λ i. done (
        record (sent identity w s) {
          scan = put_register idcode (word_of-bits_of 32 w small i) 33 s.scan;
        },
        bits_of 32 (container identity s.scan),
      )
  scan_word status w s ir small held =
      full_scan env dtmcs (w % 2) (bits_of 31 (w / 2)) (capturing status s)
        (capturing-IsShifting status s ir held) (AreBits-bits_of 32 w) (length-bits_of 32 w)
      ∙ λ i. done (
        record (sent status w s) {
          scan = put_register dtmcs (word_of-bits_of 32 w small i) 33 s.scan;
        },
        bits_of 32 (container status s.scan),
      )

  -- A scan of 32 bits with `idcode` or `dtmcs` selected always returns. The client reads the word in
  -- the container; the word that it sends replaces `idcode`, while `dtmcs` keeps its word; and apart
  -- from the pins, the shift register and its counter nothing else changes.
  pub word_scan_lem :
      (r : WordRegister) (w : ℕ) (s : Target Cpu)
      → s.tsm_current_state ≡ run_test_idle
      → s.scan.instruction_container_register ≡ code_of (register_of r)
      → w < 2 ^ 32
      → container r s.scan < 2 ^ 32
      → (p : Pins) × (data_scan env 31 w s
          ≡ done (
            record s {
              pins = p;
              tsm_current_state = run_test_idle;
              scan = stored r w (put_register (register_of r) w 33 s.scan);
            },
            container r s.scan,
          ))
  unfolding data_scan
  word_scan_lem r w s st ir small held = (
    record (sent r w s).pins { tck = 1; tms = 0; tdi = 0 },
    rw (begin_scan_lem r s st ir) (
        rw (scan_word r w s ir small held) (
          rw (
            end_scan_lem r w (sent r w s).pins s ir,
            word_of-bits_of 32 (container r s.scan) held,
          ))),
  )
