-- ===== src/Tests/Sample.antt =====
-- A processor, a debug module and a target to try things on.
use riscv_openocd_jtag_mock.Prelude.{ℕ, ◌+◌, ◌*◌, refl, replicate, []}
use riscv_openocd_jtag_mock.Tap.{run_test_idle}
use riscv_openocd_jtag_mock.Cpu.{Environment, Segments}
use riscv_openocd_jtag_mock.DebugModule.{DebugModule}
use riscv_openocd_jtag_mock.Dtmcs.{init_dtmcs}
use riscv_openocd_jtag_mock.Target.{Target}

-- A program counter, registers and memory.
pub record Machine : Type 0 where
  pub counter : ℕ
  pub bank : ℕ → ℕ
  pub store : Segments

abbrev pub sample_environment : Environment Machine
sample_environment = record {
  cpu_step = λ c. record c { counter = c.counter + 4 };
  pc = λ c. c.counter;
  reg = λ c i. c.bank i;
  segments = λ c. c.store;
  with_segments = λ c m. record c { store = m };
  fresh = λ k i. 7 * i;
  segments_put = λ c m. refl;
  pc_put = λ c m. refl;
  reg_put = λ c m i. refl;
}

abbrev pub sample_machine : Machine
sample_machine = record { counter = 0x40000000; bank = λ i. i + 100; store = [] }

abbrev pub sample_module : DebugModule Machine
sample_module = record {
  dmi_container_register = 0x4000000004;
  abstractcs_container_register = 0;
  control = record {
    haltreq = 0;
    resumereq = 0;
    hartreset = 0;
    ackhavereset = 0;
    ackunavail = 0;
    hasel = 0;
    hartsello = 0;
    hartselhi = 0;
    setkeepalive = 0;
    clrkeepalive = 0;
    setresethaltreq = 0;
    clrresethaltreq = 0;
    ndmreset = 0;
    dmactive = 1;
  };
  abstractcs = record { progbufsize = 0; busy = 0; relaxedpriv = 0; cmderr = 2; datacount = 0 };
  abstract_data = replicate 12 64;
  arg0 = 0;
  arg1 = 0;
  arg2 = 0;
  dpc = 0x40000000;
  cpu = sample_machine;
}

-- In Run-Test/Idle with `dmi` selected and a client connected.
abbrev pub sample_target : Target Machine
sample_target = record {
  pins = record { tck = 1; tms = 0; tdi = 0; trstn = 1; tdo = 0 };
  tsm_current_state = run_test_idle;
  scan = record {
    instruction_container_register = 0x11;
    instruction_shift_register = 0;
    id_code_container_register = 0x20000913;
    id_code_shift_register = 0;
    dtmcs_container_register = init_dtmcs;
    dtmcs_shift_register = 0;
    dmi_shift_register = 0;
    shift_amount = 0;
  };
  dm = sample_module;
  err = 0;
  quit = 0;
  socket_fd = 3;
  client_fd = 4;
}
