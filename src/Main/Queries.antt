-- ===== src/Main/Queries.antt =====
-- A debugger that asks the program any queries.
use riscv_openocd_jtag_mock.Prelude.{
  ℕ, suc, ◌+◌, ◌<◌, ◌≡◌, refl, ap, ◌∙◌, List, [], ◌∷◌, ◌++◌, map, length, replicate, some, done,
  ◌>>=◌,
}
use riscv_openocd_jtag_mock.Tap.{TsmState}
use riscv_openocd_jtag_mock.Cpu.{Environment}
use riscv_openocd_jtag_mock.Dmi.{init_dmi}
use riscv_openocd_jtag_mock.Dmi.Codec.{pack_dmi-lt}
use riscv_openocd_jtag_mock.DebugModule.{DebugModule}
use riscv_openocd_jtag_mock.DebugModule.Control.{debug_module_control}
use riscv_openocd_jtag_mock.Target.{Setup, initial_module, initial_target}
use riscv_openocd_jtag_mock.Server.{Wire}
use riscv_openocd_jtag_mock.Server.Session.Requests.{AreRequests, request_bytes, answer_letters}
use riscv_openocd_jtag_mock.Server.Session.Connect.{connect_bytes}
use riscv_openocd_jtag_mock.Server.Session.Queries.{
  Query, put, get, copy_word, copy_register, control, status, AreQueries, copy_command, request_of,
  View, all_carried_out, all_told,
}
use riscv_openocd_jtag_mock.Server.Session.Queries.Refinement.{view_of, exchange_refines_queries}
use riscv_openocd_jtag_mock.Main.{Image, Startup, loaded_cpu, main}
use riscv_openocd_jtag_mock.Main.Run.{IsSetUp, IsClient, left_by, main-connect_bytes}
use riscv_openocd_jtag_mock.Main.Word.{word_in, memory-loaded_cpu}

AreRequests-request_of : (qs : List Query) → AreRequests (map request_of qs)
AreRequests-request_of [] = tt
AreRequests-request_of (put i v ∷ qs) = (pack_dmi-lt (4 + i) v 2, AreRequests-request_of qs)
AreRequests-request_of (get i ∷ qs) = (pack_dmi-lt (4 + i) 0 1, AreRequests-request_of qs)
AreRequests-request_of (copy_word next ∷ qs) =
    (pack_dmi-lt 0x17 (copy_command next) 2, AreRequests-request_of qs)
AreRequests-request_of (copy_register r ∷ qs) =
    (pack_dmi-lt 0x17 (0x00220000 + r) 2, AreRequests-request_of qs)
AreRequests-request_of (control ∷ qs) = (pack_dmi-lt 0x10 0 1, AreRequests-request_of qs)
AreRequests-request_of (status ∷ qs) = (pack_dmi-lt 0x11 0 1, AreRequests-request_of qs)

module _ {Cpu : Type 0} (env : Environment Cpu) where
  -- What there is to see at the start: the memory of the hex file, and the registers of the processor
  -- that is about to run it.
  unfoldable pub first_view : Startup env → Image → View
  first_view startup image = record {
    words = replicate 12 0;
    memory = word_in env image.segments;
    register = env.reg (loaded_cpu env startup image);
    dpc = 0x40000000;
    control_word = 0;
    pc = image.start_address;
  }

  view_of-initial_module :
      (startup : Startup env) (image : Image)
      → view_of env (initial_module (loaded_cpu env startup image)) ≡ first_view startup image
  unfolding view_of first_view initial_module loaded_cpu debug_module_control
  view_of-initial_module startup image =
      let before = startup.with_pc startup.cpu_init image.start_address in
      let starts : env.pc (loaded_cpu env startup image) ≡ image.start_address =
        env.pc_put before image.segments
        ∙ startup.pc_written startup.cpu_init image.start_address in
      λ i. record {
        words = replicate 12 0;
        memory = λ b. memory-loaded_cpu env startup image b i;
        register = env.reg (loaded_cpu env startup image);
        dpc = 0x40000000;
        control_word = 0;
        pc = starts i;
      }

  -- A debugger connects to the program, sends any sequence of queries, a scan for each, and ends with
  -- `Q`. Then the program returns 0, the answers are those that the queries mean, from the memory of
  -- the loaded hex file and the registers of the processor on, and so is what is seen of the debug
  -- module afterwards. The conditions are that the queries name data registers that are there, words
  -- of 32 bits and registers of 16 bits, that the file loads, the server can be set up, the client's
  -- wire works, and the loop runs for two ticks more than there are reads.
  pub main_refines_queries :
      (startup : Startup env) (image : Image) (setup : Setup) (state : TsmState) (tdo fuel : ℕ)
      (w : Wire) (qs : List Query) (rest : List ℕ)
      → IsSetUp setup
      → IsClient (connect_bytes ++ (request_bytes (map request_of qs) ++ b'Q' ∷ rest)) w
      → AreQueries qs
      → length w.reads < fuel
      → (last : DebugModule Cpu) × ((main env startup (some image) setup state tdo (suc fuel) w
            >>= left_by env)
          ≡ done (
              some (
                last,
                replicate 5 b'0'
                    ++ answer_letters (all_told init_dmi qs (first_view startup image)),
              )))
        × (view_of env last ≡ all_carried_out qs (first_view startup image))
  unfolding initial_module initial_target
  main_refines_queries startup image setup state tdo fuel w qs rest up h valid enough =
      let cpu = loaded_cpu env startup image in
      let first = view_of-initial_module startup image in
      let (last, exchanged, sees) =
        exchange_refines_queries env qs (initial_module cpu) valid refl in
      (
        last,
        main-connect_bytes env startup image setup state tdo fuel w (map request_of qs) rest up h
              (AreRequests-request_of qs) enough
            ∙ rw exchanged (λ i.
              done
                (some (last, replicate 5 b'0' ++ answer_letters (all_told init_dmi qs (first i))))),
        sees ∙ ap (all_carried_out qs) first,
      )
