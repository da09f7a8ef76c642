-- ===== src/Main/Block.antt =====
-- A debugger that reads a block of the program's memory.
use riscv_openocd_jtag_mock.Prelude.{
  ℕ, zero, suc, ◌+◌, ◌*◌, ◌^◌, ◌<◌, ◌≡◌, refl, ◌∙◌, List, [], ◌∷◌, ◌++◌, length, replicate, some,
  done, ◌>>=◌,
}
use riscv_openocd_jtag_mock.Tap.{TsmState}
use riscv_openocd_jtag_mock.Cpu.{Environment, Segments}
use riscv_openocd_jtag_mock.Dmi.{pack_dmi, init_dmi}
use riscv_openocd_jtag_mock.Dmi.Codec.{pack_dmi-lt}
use riscv_openocd_jtag_mock.DebugModule.{DebugModule}
use riscv_openocd_jtag_mock.DebugModule.Command.Block.{words_from}
use riscv_openocd_jtag_mock.DebugModule.Command.Memory.{memory}
use riscv_openocd_jtag_mock.DebugModule.Invariant.{IsModule}
use riscv_openocd_jtag_mock.Target.{Setup, initial_module, initial_target}
use riscv_openocd_jtag_mock.Port.Invariant.{initial_target-IsTarget}
use riscv_openocd_jtag_mock.Server.{Wire}
use riscv_openocd_jtag_mock.Server.Session.Requests.{AreRequests, request_bytes, answer_letters}
use riscv_openocd_jtag_mock.Server.Session.Connect.{connect_bytes}
use riscv_openocd_jtag_mock.Server.Session.Block.{
  read_next, next_requests, block_requests, block_answers, exchange-block_requests,
}
use riscv_openocd_jtag_mock.Main.{Image, Startup, loaded_cpu, main}
use riscv_openocd_jtag_mock.Main.Run.{IsSetUp, IsClient, left_by, main-connect_bytes}
use riscv_openocd_jtag_mock.Main.Word.{word_in, memory-loaded_cpu}

AreRequests-next_requests : (n : ℕ) → AreRequests (next_requests n)
AreRequests-next_requests zero = (pack_dmi-lt 0x04 0 1, tt)
AreRequests-next_requests (suc n) =
    (pack_dmi-lt 0x17 read_next 2, (pack_dmi-lt 0x04 0 1, AreRequests-next_requests n))

module _ {Cpu : Type 0} (env : Environment Cpu) where
  abbrev pub words_in : Segments → ℕ → ℕ → List ℕ
  words_in segments zero a = []
  words_in segments (suc n) a = word_in env segments a ∷ words_in segments n (a + 4)

  words_from-loaded_cpu :
      (startup : Startup env) (image : Image) (n a : ℕ)
      → words_from env (loaded_cpu env startup image) n a ≡ words_in image.segments n a
  words_from-loaded_cpu startup image zero a = refl
  words_from-loaded_cpu startup image (suc n) a =
      λ i. memory-loaded_cpu env startup image a i ∷ words_from-loaded_cpu startup image n (a + 4) i

  -- A debugger connects to the program and reads `n` words from an address of 32 bits on: it sends
  -- the address once, then for each word a command with the increment and a read of `data0`, one more
  -- read, and `Q`. Then the program returns 0, the answers are the consecutive words of the loaded
  -- hex file, each marked as a success and behind the echo of its command, and the memory of the
  -- processor is that of the file. The conditions are that the file loads, the server can be set up,
  -- the client's wire works, and the loop runs for two ticks more than there are reads.
  pub main_reads_block :
      (startup : Startup env) (image : Image) (setup : Setup) (state : TsmState) (tdo fuel : ℕ)
      (w : Wire) (a n : ℕ) (rest : List ℕ)
      → IsSetUp setup
      → IsClient (connect_bytes ++ (request_bytes (block_requests a n) ++ b'Q' ∷ rest)) w
      → a < 2 ^ 32
      → a + 4 * n < 2 ^ 64
      → length w.reads < fuel
      → (last : DebugModule Cpu) × ((main env startup (some image) setup state tdo (suc fuel) w
            >>= left_by env)
          ≡ done (
              some (
                last,
                replicate 5 b'0'
                    ++ answer_letters (
                        init_dmi ∷ block_answers (pack_dmi 0x05 a 2) (words_in image.segments n a)),
              )))
        × ((b : ℕ) → memory env last.cpu b ≡ word_in env image.segments b)
  unfolding initial_module initial_target
  main_reads_block startup image setup state tdo fuel w a n rest up h small room enough =
      let cpu = loaded_cpu env startup image in
      let fits : IsModule (initial_module cpu) =
        (initial_target-IsTarget state tdo up.fd cpu).module_fits in
      let (last, exchanged, reading) =
        exchange-block_requests env a n (initial_module cpu) small room fits in
      (
        last,
        main-connect_bytes env startup image setup state tdo fuel w (block_requests a n) rest up h
              (pack_dmi-lt 0x05 a 2, AreRequests-next_requests n) enough
            ∙ rw exchanged (λ i. done (
                some (
                  last,
                  replicate 5 b'0'
                      ++ answer_letters (
                          init_dmi
                          ∷ block_answers (pack_dmi 0x05 a 2)
                              (words_from-loaded_cpu startup image n a i)),
                ))),
        λ b. reading.same_memory b ∙ memory-loaded_cpu env startup image b,
      )
