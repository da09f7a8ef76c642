-- ===== src/Main/Steps.antt =====
-- A debugger that steps through the program, from the start of the server to its end.
use riscv_openocd_jtag_mock.Prelude.{
  ℕ, zero, suc, ◌<◌, ◌≡◌, ◌∙◌, List, ◌∷◌, ◌++◌, length, replicate, some, done, ◌>>=◌,
}
use riscv_openocd_jtag_mock.Tap.{TsmState}
use riscv_openocd_jtag_mock.Cpu.{Environment}
use riscv_openocd_jtag_mock.Dmi.{pack_dmi}
use riscv_openocd_jtag_mock.Dmi.Codec.{pack_dmi-lt}
use riscv_openocd_jtag_mock.DebugModule.{DebugModule}
use riscv_openocd_jtag_mock.DebugModule.Invariant.{IsModule}
use riscv_openocd_jtag_mock.Target.{Setup, initial_module, initial_target}
use riscv_openocd_jtag_mock.Port.Invariant.{initial_target-IsTarget}
use riscv_openocd_jtag_mock.Server.{Wire}
use riscv_openocd_jtag_mock.Server.Session.Requests.{AreRequests, request_bytes, answer_letters}
use riscv_openocd_jtag_mock.Server.Session.Connect.{connect_bytes}
use riscv_openocd_jtag_mock.Server.Session.Steps.{
  step_request, dpc_requests, last_of, run, place, exchange-steps,
}
use riscv_openocd_jtag_mock.Main.{Image, Startup, loaded_cpu, main}
use riscv_openocd_jtag_mock.Main.Run.{IsSetUp, IsClient, left_by, main-connect_bytes}

abbrev pub step_requests : ℕ → List ℕ
step_requests n = replicate n step_request ++ dpc_requests

AreRequests-step_requests : (n : ℕ) → AreRequests (step_requests n)
AreRequests-step_requests zero =
    (pack_dmi-lt 0x17 0x002207b1 2, (pack_dmi-lt 0x04 0 1, (pack_dmi-lt 0x04 0 1, tt)))
AreRequests-step_requests (suc n) = (pack_dmi-lt 0x10 0x40000001 2, AreRequests-step_requests n)

module _ {Cpu : Type 0} (env : Environment Cpu) where
  -- A debugger connects to the program, asks for `n` steps and then for `dpc`, and ends with `Q`. Then
  -- the program returns 0, the processor has run `n` instructions from the start of the program, and
  -- the last answer is its program counter behind them, or for `n = 0` the word 0x40000000. The
  -- conditions are that the file loads, the server can be set up, the client's wire works, and the
  -- loop runs for two ticks more than there are reads.
  pub main_steps :
      (startup : Startup env) (image : Image) (setup : Setup) (state : TsmState) (tdo fuel : ℕ)
      (w : Wire) (n : ℕ) (rest : List ℕ)
      → IsSetUp setup
      → IsClient (connect_bytes ++ (request_bytes (step_requests n) ++ b'Q' ∷ rest)) w
      → length w.reads < fuel
      → (last : DebugModule Cpu) × (answers : List ℕ) × ((main env startup
              (some image)
              setup
              state
              tdo
              (suc fuel)
              w
            >>= left_by env)
          ≡ done (some (last, replicate 5 b'0' ++ answer_letters answers)))
        × (last_of answers
            ≡ pack_dmi 0x04 (place env n (initial_module (loaded_cpu env startup image))) 0)
        × (last.cpu ≡ run env n (loaded_cpu env startup image))
  unfolding initial_module initial_target
  main_steps startup image setup state tdo fuel w n rest up h enough =
      let cpu = loaded_cpu env startup image in
      let fits : IsModule (initial_module cpu) =
        (initial_target-IsTarget state tdo up.fd cpu).module_fits in
      let (last, answers, exchanged, told, ran) =
        exchange-steps env n (initial_module cpu) fits.twelve in
      (
        last,
        answers,
        main-connect_bytes env startup image setup state tdo fuel w (step_requests n) rest up h
              (AreRequests-step_requests n) enough
            ∙ rw exchanged,
        told,
        ran,
      )
