-- ===== src/Tests/Server.antt =====
-- The loop of the server, and the states that it reaches.
use riscv_openocd_jtag_mock.Prelude.{
  ◌≡◌, ◌⊎◌, refl, arith, true, [], ◌∷◌, replicate, waiting, ◌>>=◌, some,
}
use riscv_openocd_jtag_mock.Tap.{run_test_idle}
use riscv_openocd_jtag_mock.Target.{Target, Setup, construct, initial_target}
use riscv_openocd_jtag_mock.Port.Invariant.{IsTarget}
use riscv_openocd_jtag_mock.Server.{
  Wire, client, byte, closed, no_data, written, not_written, serve, tick, accept_client,
}
use riscv_openocd_jtag_mock.Server.Session.{session}
use riscv_openocd_jtag_mock.Server.Session.Refinement.{seen, serve_refines_session}
use riscv_openocd_jtag_mock.Server.Session.Totality.{Completes, serve-Completes}
use riscv_openocd_jtag_mock.Server.Termination.{serve_hangs}
use riscv_openocd_jtag_mock.Server.Invariant.{Reachable, started, ticked, Reachable-IsTarget}
use riscv_openocd_jtag_mock.Tests.Sample.{
  Machine, sample_environment, sample_machine, sample_target,
}
use riscv_openocd_jtag_mock.Server.Processor.{IsUnmoved, Reachable-dpc}

-- Clock up with `tms` set, an empty poll, the question for `tdo`, and the end.
abbrev sample_wire : Wire
sample_wire = record {
  accepts = client 4 ∷ [];
  reads = byte b'6' ∷ no_data ∷ byte b'R' ∷ byte b'Q' ∷ [];
  writes = not_written ∷ written ∷ [];
  output = [];
}

serve_refines_session_example :
    (serve sample_environment 5 sample_target sample_wire >>= seen sample_environment)
    ≡ session sample_environment (b'6' ∷ b'R' ∷ b'Q' ∷ []) sample_target []
serve_refines_session_example =
    serve_refines_session sample_environment 5 sample_target sample_wire
      (record { running = refl; connected = omega arith; read = tt; delivers = tt }) (omega arith)

serve-Completes_example :
    Completes
      (λ (t, v). (t.quit ≡ 1) × (t.client_fd ≡ 0))
      (serve sample_environment 5 sample_target sample_wire)
serve-Completes_example =
    serve-Completes sample_environment 5 (b'6' ∷ b'R' ∷ []) [] sample_target sample_wire
      (record { running = refl; connected = omega arith; read = tt; delivers = tt }) refl
      (omega arith) (omega arith)

serve_hangs_example :
    serve sample_environment 9 sample_target (record sample_wire { reads = replicate 3 closed })
    ≡ waiting
serve_hangs_example =
    serve_hangs sample_environment 9 3 sample_target
      (record sample_wire { reads = replicate 3 closed }) refl (omega arith) refl

abbrev sample_setup : Setup
sample_setup = record {
  socket = some 3;
  setsockopt_ok = true;
  bind_ok = true;
  listen_ok = true;
  getsockname_ok = true;
}

abbrev accepted_target : Target Machine
accepted_target = record (initial_target run_test_idle 0 3 sample_machine) { client_fd = 4 }

accepted_target-Reachable : Reachable sample_environment sample_machine accepted_target
unfolding construct tick accept_client
accepted_target-Reachable =
    ticked sample_wire (record sample_wire { accepts = [] })
      (started sample_setup run_test_idle 0 refl) refl refl

Reachable-IsTarget_example : IsTarget accepted_target
Reachable-IsTarget_example =
    Reachable-IsTarget sample_environment sample_machine accepted_target accepted_target-Reachable

Reachable-dpc_example :
    ((accepted_target.dm.dpc ≡ 0x40000000)
      × IsUnmoved sample_environment sample_machine accepted_target.dm.cpu)
    ⊎ (accepted_target.dm.dpc ≡ accepted_target.dm.cpu.counter)
Reachable-dpc_example =
    Reachable-dpc sample_environment sample_machine accepted_target accepted_target-Reachable
