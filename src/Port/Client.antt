-- ===== src/Port/Client.antt =====
-- What a debugger does with the pins, as OpenOCD's bit-bang driver does it: the state moves and the
-- scans, from Run-Test/Idle and back.
use riscv_openocd_jtag_mock.Prelude.{ℕ, ◌/◌, ◌%◌, ◌≡◌, Outcome, done, ◌>>=◌}
use riscv_openocd_jtag_mock.Tap.{TsmState}
use riscv_openocd_jtag_mock.Cpu.{Environment}
use riscv_openocd_jtag_mock.Target.{Target}
use riscv_openocd_jtag_mock.Port.{set_pins}
use riscv_openocd_jtag_mock.Port.Bits.{word_of, bits_of}
use riscv_openocd_jtag_mock.Port.Scan.{scan_bits}

-- A target, with what is known of its state and its instruction register written into it.
pub located :
    {Cpu : Type 0} (q : TsmState) (k : ℕ) (s : Target Cpu)
    → s.tsm_current_state ≡ q
    → s.scan.instruction_container_register ≡ k
    → s ≡ record s {
      tsm_current_state = q;
      scan = record s.scan { instruction_container_register = k };
    }
located q k s st ir = λ i. record s {
  tsm_current_state = st i;
  scan = record s.scan { instruction_container_register = ir i };
}

module _ {Cpu : Type 0} (env : Environment Cpu) where
  -- A clock cycle outside the shift states.
  unfoldable pub tms_cycle : ℕ → Target Cpu → Outcome (Target Cpu)
  tms_cycle tms s = set_pins env 0 tms 0 s >>= set_pins env 1 tms 0

  -- Select-DR-Scan, Capture-DR, Shift-DR, and the falling edge that ends the client's state move.
  unfoldable pub begin_scan : Target Cpu → Outcome (Target Cpu)
  unfolding tms_cycle
  begin_scan s = do t ← tms_cycle 1 s; u ← tms_cycle 0 t; v ← tms_cycle 0 u; set_pins env 0 0 0 v

  -- Update-DR and Run-Test/Idle.
  unfoldable pub end_scan : Target Cpu → Outcome (Target Cpu)
  unfolding tms_cycle
  end_scan s = tms_cycle 1 s >>= tms_cycle 0

  -- The whole scan of a word of `n + 1` bits.
  unfoldable pub data_scan : ℕ → ℕ → Target Cpu → Outcome (Target Cpu × ℕ)
  data_scan n w s = do
    t ← begin_scan s
    (u, out) ← scan_bits env (w % 2) (bits_of n (w / 2)) t
    x ← end_scan u
    done (x, word_of out)
