-- ===== src/Tests/Session.antt =====
-- Sessions of a client.
use riscv_openocd_jtag_mock.Prelude.{◌≡◌, refl, arith, [], ◌∷◌, ◌++◌, replicate, done, ◌>>=◌}
use riscv_openocd_jtag_mock.Target.{Target}
use riscv_openocd_jtag_mock.Tap.{pause_ir}
use riscv_openocd_jtag_mock.Server.Session.Connect.{connect_bytes, session-connect_bytes}
use riscv_openocd_jtag_mock.Server.Session.{session}
use riscv_openocd_jtag_mock.Server.Session.Requests.{
  request_bytes, answer_letters, exchange, outcome_of,
}
use riscv_openocd_jtag_mock.Tests.Sample.{Machine, sample_environment, sample_module, sample_target}

-- In the middle of a scan of the instruction register, with `dmi` selected.
abbrev lost_target : Target Machine
lost_target = record sample_target { tsm_current_state = pause_ir }

session-connect_bytes_example :
    (session sample_environment
        (connect_bytes ++ (request_bytes (0x4040000006 ∷ 0x4400000001 ∷ []) ++ b'Q' ∷ []))
        lost_target
        []
      >>= outcome_of sample_environment)
    ≡ (exchange sample_environment (0x4040000006 ∷ 0x4400000001 ∷ []) sample_module
        >>= λ (m, answers). done (m, replicate 5 b'0' ++ answer_letters answers))
session-connect_bytes_example =
    session-connect_bytes sample_environment (0x4040000006 ∷ 0x4400000001 ∷ []) [] lost_target []
      (ground arith) refl (ground arith) (omega arith)
