-- ===== src/Port/Transaction.antt =====
-- A whole scan of `dmi`, from Run-Test/Idle and back: the wire protocol carries out one request of
-- the debug module and brings back the answer to the one before.
use riscv_openocd_jtag_mock.Prelude.{
  ℕ, ◌/◌, ◌%◌, ◌^◌, ◌<◌, ◌≡◌, refl, ◌∙◌, arith, Outcome, done, undefined, aborted, waiting, ◌>>=◌,
}
use riscv_openocd_jtag_mock.Tap.{run_test_idle, shift_dr, exit1_dr, update_dr, tap_step}
use riscv_openocd_jtag_mock.Cpu.{Environment}
use riscv_openocd_jtag_mock.DebugModule.{DebugModule}
use riscv_openocd_jtag_mock.DebugModule.Access.{update_dmi}
use riscv_openocd_jtag_mock.Target.{Target, Pins}
use riscv_openocd_jtag_mock.Port.{
  set_pins, transition, falling_edge, shift_data, state_entered, enter_capture_dr, enter_update_dr,
}
use riscv_openocd_jtag_mock.Port.Bits.{bits_of, word_of-bits_of, AreBits-bits_of, length-bits_of}
use riscv_openocd_jtag_mock.Port.Client.{located, tms_cycle, begin_scan, end_scan, data_scan}
use riscv_openocd_jtag_mock.Port.Shift.{dmi, IsShifting}
use riscv_openocd_jtag_mock.Port.Scan.{scan_bits, scanned, full_scan}

module _ {Cpu : Type 0} (env : Environment Cpu) where
  -- What the debugger is promised: a request in, the answer that stood there out.
  unfoldable pub dmi_bus : ℕ → DebugModule Cpu → Outcome (DebugModule Cpu × ℕ)
  dmi_bus w m = update_dmi env w m >>= λ m'. done (m', m.dmi_container_register)

  abbrev pub capturing : Target Cpu → Target Cpu
  capturing s = record s {
    pins = record s.pins { tck = 0; tms = 0; tdi = 0; tdo = 0 };
    tsm_current_state = shift_dr;
    scan = record s.scan { dmi_shift_register = s.dm.dmi_container_register; shift_amount = 1 };
  }

  pub begin_scan_lem :
      (s : Target Cpu)
      → s.tsm_current_state ≡ run_test_idle
      → s.scan.instruction_container_register ≡ 0x11
      → begin_scan env s ≡ done (capturing s)
  unfolding begin_scan set_pins transition tap_step state_entered enter_capture_dr falling_edge
      shift_data
  begin_scan_lem s st ir = rw (located run_test_idle 0x11 s st ir) (begin s)
    where
      begin :
          (s : Target Cpu)
          → let t = record s {
            tsm_current_state = run_test_idle;
            scan = record s.scan { instruction_container_register = 0x11 };
          } in
            begin_scan env t ≡ done (capturing t)
      begin s = refl

  -- The way from Update-DR to Run-Test/Idle, once the request has returned.
  idle_again :
      (t : Target Cpu) (m : Outcome (DebugModule Cpu))
      → (m
          >>= (λ dm. done (record t { tsm_current_state = update_dr; dm = dm }))
          >>= tms_cycle env 0)
        ≡ (m >>= λ dm. done (record t {
          pins = record t.pins { tck = 1; tms = 0; tdi = 0 };
          tsm_current_state = run_test_idle;
          dm = dm;
        }))
  unfolding tms_cycle set_pins transition tap_step state_entered falling_edge
  idle_again t (done dm) = refl
  idle_again t undefined = refl
  idle_again t aborted = refl
  idle_again t waiting = refl

  pub end_scan_lem :
      (s : Target Cpu)
      → s.tsm_current_state ≡ exit1_dr
      → s.scan.instruction_container_register ≡ 0x11
      → end_scan env s ≡ (
          update_dmi env s.scan.dmi_shift_register s.dm >>= λ m. done (record s {
            pins = record s.pins { tck = 1; tms = 0; tdi = 0 };
            tsm_current_state = run_test_idle;
            dm = m;
          }))
  unfolding end_scan set_pins transition tap_step state_entered enter_update_dr falling_edge
  end_scan_lem s st ir = rw (located exit1_dr 0x11 s st ir) (ending s)
    where
      ending :
          (s : Target Cpu)
          → let t = record s {
            tsm_current_state = exit1_dr;
            scan = record s.scan { instruction_container_register = 0x11 };
          } in
            end_scan env t ≡ (
              update_dmi env t.scan.dmi_shift_register t.dm >>= λ m. done (record t {
                pins = record t.pins { tck = 1; tms = 0; tdi = 0 };
                tsm_current_state = run_test_idle;
                dm = m;
              }))
      ending s =
          let t = record s {
            pins = record s.pins { tck = 1; tms = 1; tdi = 0 };
            scan = record s.scan { instruction_container_register = 0x11 };
          } in
          idle_again t (update_dmi env s.scan.dmi_shift_register s.dm)

  -- The target in Exit1-DR, with the request in the shift register.
  abbrev pub requested : ℕ → Target Cpu → Target Cpu
  requested w s =
      let t = capturing s in
      record (scanned dmi (w % 2) (bits_of 40 (w / 2)) t) {
        scan = record t.scan { dmi_shift_register = w; shift_amount = 42 };
      }

  pub scan_request :
      (w : ℕ) (s : Target Cpu)
      → s.scan.instruction_container_register ≡ 0x11
      → w < 2 ^ 41
      → s.dm.dmi_container_register < 2 ^ 41
      → scan_bits env (w % 2) (bits_of 40 (w / 2)) (capturing s)
        ≡ done (requested w s, bits_of 41 s.dm.dmi_container_register)
  scan_request w s ir small held =
      full_scan env dmi (w % 2) (bits_of 40 (w / 2)) (capturing s) shifting (AreBits-bits_of 41 w)
        (length-bits_of 41 w)
      ∙ λ i. done (
        record (requested w s) {
          scan = record (capturing s).scan {
            dmi_shift_register = word_of-bits_of 41 w small i;
            shift_amount = 42;
          };
        },
        bits_of 41 s.dm.dmi_container_register,
      )
    where
      shifting : IsShifting dmi 41 (capturing s)
      shifting = record {
        in_state = refl;
        selected = ir;
        started = omega arith;
        counting = omega arith;
        fits = held;
      }

  -- A scan of 41 bits is one transaction of the debug module's bus. With `dmi` selected and in
  -- Run-Test/Idle, clocking a word through the pins carries out that word as a request, ends as the
  -- request ends, reads back the word that stood in the container before, and changes nothing else
  -- but the pins, the shift register and its counter.
  pub dmi_scan_refines_bus :
      (w : ℕ) (s : Target Cpu)
      → s.tsm_current_state ≡ run_test_idle
      → s.scan.instruction_container_register ≡ 0x11
      → w < 2 ^ 41
      → s.dm.dmi_container_register < 2 ^ 41
      → (p : Pins) × (data_scan env 40 w s ≡ (
          dmi_bus w s.dm >>= λ (m, answer). done (
            record s {
              pins = p;
              tsm_current_state = run_test_idle;
              scan = record s.scan { dmi_shift_register = w; shift_amount = 42 };
              dm = m;
            },
            answer,
          )))
  unfolding data_scan dmi_bus
  dmi_scan_refines_bus w s st ir small held = (
    record (scanned dmi (w % 2) (bits_of 40 (w / 2)) (capturing s)).pins {
      tck = 1;
      tms = 0;
      tdi = 0;
    },
    rw (begin_scan_lem s st ir) (
        rw (scan_request w s ir small held) (
          rw
            (
              end_scan_lem (requested w s) refl ir,
              word_of-bits_of 41 s.dm.dmi_container_register held,
            )
            (ground arith))),
  )
