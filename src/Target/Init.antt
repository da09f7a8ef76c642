-- ===== src/Target/Init.antt =====
-- The constructor of `remote_bitbang_t` and the initial values of its members.
use riscv_openocd_jtag_mock.Prelude.{
  ℕ, Bool, Option, none, some, if◌then◌else◌, replicate, Outcome, done, aborted, ◌>>=◌,
}
use riscv_openocd_jtag_mock.Tap.{TsmState}
use riscv_openocd_jtag_mock.Dmi.{init_dmi}
use riscv_openocd_jtag_mock.Dtmcs.{init_dtmcs}
use riscv_openocd_jtag_mock.DebugModule.{DebugModule}
use riscv_openocd_jtag_mock.Target.State.{Target}

-- The results of the socket calls of the constructor; a failed call is the -1 of the source.
pub record Setup : Type 0 where
  pub socket : Option ℕ
  pub setsockopt_ok : Bool
  pub bind_ok : Bool
  pub listen_ok : Bool
  pub getsockname_ok : Bool

-- The file descriptor, or `abort()`.
unfoldable pub opened : Option ℕ → Outcome ℕ
opened none = aborted
opened (some fd) = done fd

module _ {Cpu : Type 0} where
  unfoldable pub initial_module : Cpu → DebugModule Cpu
  initial_module cpu = record {
    dmi_container_register = init_dmi;
    abstractcs_container_register = 0;
    control = record {
      haltreq = 0x00;
      resumereq = 0x00;
      hartreset = 0x00;
      ackhavereset = 0x00;
      ackunavail = 0x00;
      hasel = 0x00;
      hartsello = 0x00;
      hartselhi = 0x00;
      setkeepalive = 0x00;
      clrkeepalive = 0x00;
      setresethaltreq = 0x00;
      clrresethaltreq = 0x00;
      ndmreset = 0x00;
      dmactive = 0x00;
    };
    abstractcs = record {
      progbufsize = 0x00;
      busy = 0x00;
      relaxedpriv = 0x00;
      cmderr = 0x00;
      datacount = 0x00;
    };
    abstract_data = replicate 12 0;
    arg0 = 0x00;
    arg1 = 0x00;
    arg2 = 0x00;
    dpc = 0x40000000;
    cpu = cpu;
  }

  -- `tsm_current_state` and `tdo` have no initial value in the source, so they are arguments.
  unfoldable pub initial_target : TsmState → ℕ → ℕ → Cpu → Target Cpu
  unfolding initial_module
  initial_target state tdo socket_fd cpu = record {
    pins = record { tck = 1; tms = 1; tdi = 1; trstn = 1; tdo = tdo };
    tsm_current_state = state;
    scan = record {
      instruction_container_register = 0x01;
      instruction_shift_register = 0;
      id_code_container_register = 0x20000913;
      id_code_shift_register = 0;
      dtmcs_container_register = init_dtmcs;
      dtmcs_shift_register = 0;
      dmi_shift_register = 0;
      shift_amount = 0;
    };
    dm = initial_module cpu;
    err = 0;
    quit = 0;
    socket_fd = socket_fd;
    client_fd = 0;
  }

  -- `abort()` unless the call succeeded.
  abbrev require : Bool → Outcome (Target Cpu) → Outcome (Target Cpu)
  require ok next = if ok then next else aborted

  unfoldable pub construct : Setup → TsmState → ℕ → Cpu → Outcome (Target Cpu)
  unfolding initial_target opened
  construct setup state tdo cpu = do
    fd ← opened setup.socket
    require setup.setsockopt_ok (
        require setup.bind_ok (
          require setup.listen_ok
            (require setup.getsockname_ok (done (initial_target state tdo fd cpu)))))
