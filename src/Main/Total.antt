-- ===== src/Main/Total.antt =====
-- Which clients the program serves to the end.
use riscv_openocd_jtag_mock.Prelude.{
  ℕ, suc, ◌<◌, ◌≡◌, refl, sym, Option, ◌∙◌, ap, true, false, List, ◌∷◌, ◌++◌, length, replicate,
  some, Outcome, done, undefined, aborted, waiting, ◌>>=◌, Returns,
}
use riscv_openocd_jtag_mock.Tap.{TsmState}
use riscv_openocd_jtag_mock.Cpu.{Environment, Segment}
use riscv_openocd_jtag_mock.DebugModule.Access.Fresh.{with_fresh}
use riscv_openocd_jtag_mock.Dmi.{init_dmi}
use riscv_openocd_jtag_mock.DebugModule.{DebugModule}
use riscv_openocd_jtag_mock.Target.{Setup, initial_module}
use riscv_openocd_jtag_mock.Server.{Wire}
use riscv_openocd_jtag_mock.Server.Session.Requests.{
  AreRequests, request_bytes, answer_letters, exchange,
}
use riscv_openocd_jtag_mock.Server.Session.Connect.{connect_bytes}
use riscv_openocd_jtag_mock.Server.Session.Definedness.{
  any_memory_read, any_undefined, answer_ordinary, exchange_total,
}
use riscv_openocd_jtag_mock.Main.{Image, Startup, loaded_cpu, main}
use riscv_openocd_jtag_mock.Main.Run.{IsSetUp, IsClient, left_by, main-connect_bytes}

returned :
    {A : Type 0} (P : A → Type 0) (m : Outcome A) → Returns P m → (a : A) × (m ≡ done a) × P a
returned P (done a) h = (a, refl, h)
returned P undefined h = absurd h
returned P aborted h = absurd h
returned P waiting h = absurd h

module _ {Cpu : Type 0} (env : Environment Cpu) (f : ℕ → Segment) where
  -- The same start, with other contents of new arrays.
  abbrev pub startup_with : Startup env → Startup (with_fresh env f)
  startup_with startup = record {
    cpu_init = startup.cpu_init;
    with_pc = startup.with_pc;
    pc_written = startup.pc_written;
  }

  loaded_cpu-startup_with :
      (startup : Startup env) (image : Image)
      → loaded_cpu (with_fresh env f) (startup_with startup) image ≡ loaded_cpu env startup image
  unfolding loaded_cpu
  loaded_cpu-startup_with startup image = refl

  -- The program serves a client that resets the port, selects `dmi`, sends a scan for each of its
  -- requests of 41 bits and then `Q`, where no request is a memory read command: if none of the
  -- requests is a write of `command` for an access to memory with size 0 and the increment, it returns
  -- 0 and has sent as many answers as there are requests, and if one is, its behaviour is undefined.
  -- And it does the same whatever a new array contains. The conditions are that the file loads, the
  -- server can be set up, the client's wire works, a step of the processor returns, and the loop runs
  -- for two ticks more than there are reads.
  pub main_total :
      (startup : Startup env) (image : Image) (setup : Setup) (state : TsmState) (tdo fuel : ℕ)
      (w : Wire) (ws rest : List ℕ)
      → IsSetUp setup
      → IsClient (connect_bytes ++ (request_bytes ws ++ b'Q' ∷ rest)) w
      → AreRequests ws
      → length w.reads < fuel
      → any_memory_read ws ≡ false
      → let run = main env startup (some image) setup state tdo (suc fuel) w >>= left_by env in
        (any_undefined ws ≡ false
          → (last : DebugModule Cpu) × (answers : List ℕ) × (run
              ≡ done (some (last, replicate 5 b'0' ++ answer_letters answers)))
            × (length answers ≡ length ws))
        × (any_undefined ws ≡ true → run ≡ undefined)
        × ((main (with_fresh env f) (startup_with startup) (some image) setup state tdo (suc fuel) w
              >>= left_by (with_fresh env f))
            ≡ run)
  unfolding initial_module init_dmi
  main_total startup image setup state tdo fuel w ws rest up h small enough unread =
      let m = initial_module (loaded_cpu env startup image) in
      let told : DebugModule Cpu × List ℕ → Option (DebugModule Cpu × List ℕ) =
        λ x. some (x.0, replicate 5 b'0' ++ answer_letters x.1) in
      let runs =
        main-connect_bytes env startup image setup state tdo fuel w ws rest up h small enough in
      let other_runs =
        main-connect_bytes (with_fresh env f) (startup_with startup) image setup state tdo fuel w ws
          rest up h small enough in
      let (undoes, answers, same) =
        exchange_total env f ws m unread (answer_ordinary 0x10 0x00000001) in
      (
        λ good.
            let ((last, answered), exchanged, each) =
              returned (λ x. length x.1 ≡ length ws) (exchange env ws m) (answers good) in
            (last, answered, runs ∙ ap (λ o. o >>= λ x. done (told x)) exchanged, each),
        λ bad. runs ∙ rw (undoes bad),
        other_runs
            ∙ ap (λ c. exchange (with_fresh env f) ws (initial_module c) >>= λ x. done (told x))
                (loaded_cpu-startup_with startup image)
            ∙ ap (λ o. o >>= λ x. done (told x)) same
            ∙ sym runs,
      )
