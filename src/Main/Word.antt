-- ===== src/Main/Word.antt =====
-- A debugger that reads the program's memory, from the start of the server to its end.
use riscv_openocd_jtag_mock.Prelude.{
  ℕ, suc, ◌^◌, ◌<◌, ◌≡◌, refl, ap, ◌∙◌, List, [], ◌∷◌, ◌++◌, length, replicate, none, some, done,
  ◌>>=◌,
}
use riscv_openocd_jtag_mock.Tap.{TsmState}
use riscv_openocd_jtag_mock.Cpu.{Environment, Segment, Segments, find_segment}
use riscv_openocd_jtag_mock.Dmi.{pack_dmi, init_dmi}
use riscv_openocd_jtag_mock.Dmi.Codec.{pack_dmi-lt}
use riscv_openocd_jtag_mock.DebugModule.{DebugModule}
use riscv_openocd_jtag_mock.DebugModule.Command.{segment_address_of, word_index_of}
use riscv_openocd_jtag_mock.DebugModule.Command.Memory.{segment_of, memory}
use riscv_openocd_jtag_mock.DebugModule.Invariant.{IsModule}
use riscv_openocd_jtag_mock.Target.{Setup, initial_module, initial_target}
use riscv_openocd_jtag_mock.Port.Invariant.{initial_target-IsTarget}
use riscv_openocd_jtag_mock.Server.{Wire}
use riscv_openocd_jtag_mock.Server.Session.Requests.{AreRequests, request_bytes, answer_letters}
use riscv_openocd_jtag_mock.Server.Session.Connect.{connect_bytes}
use riscv_openocd_jtag_mock.Server.Session.Word.{read_word, word_requests, exchange-word_requests}
use riscv_openocd_jtag_mock.Main.{Image, Startup, loaded_cpu, main}
use riscv_openocd_jtag_mock.Main.Run.{IsSetUp, IsClient, left_by, main-connect_bytes}

AreRequests-word_requests : (a : ℕ) → AreRequests (word_requests a)
AreRequests-word_requests a = (
  pack_dmi-lt 0x05 a 2,
  (pack_dmi-lt 0x17 read_word 2, (pack_dmi-lt 0x04 0 1, (pack_dmi-lt 0x04 0 1, tt))),
)

module _ {Cpu : Type 0} (env : Environment Cpu) where
  -- The word that stands at an address, in a segment that is there or else in a fresh one.
  unfoldable pub word_in : Segments → ℕ → ℕ
  word_in segments a =
      let segment : Segment = elim (find_segment (segment_address_of a) segments) [
        | none ↦ env.fresh (segment_address_of a)
        | some w ↦ w
      ] in
      segment (word_index_of a)

  memory-word_in : (cpu : Cpu) (a : ℕ) → memory env cpu a ≡ word_in (env.segments cpu) a
  unfolding word_in segment_of
  memory-word_in cpu a = refl

  pub memory-loaded_cpu :
      (startup : Startup env) (image : Image) (a : ℕ)
      → memory env (loaded_cpu env startup image) a ≡ word_in image.segments a
  unfolding loaded_cpu
  memory-loaded_cpu startup image a =
      let cpu = startup.with_pc startup.cpu_init image.start_address in
      memory-word_in (env.with_segments cpu image.segments) a
      ∙ ap (λ m. word_in m a) (env.segments_put cpu image.segments)

  -- A debugger connects to the program and reads the word at an address of 32 bits: it asks for the
  -- address, the command and `data0` twice, and ends with `Q`. Then the program returns 0, the last
  -- answer is the word that the loaded hex file has there, marked as a success, and the memory of
  -- the processor is that of the file, its program counter the start address. The conditions are
  -- that the file loads, the server can be set up, the client's wire works, and the loop runs for
  -- two ticks more than there are reads.
  pub main_reads_word :
      (startup : Startup env) (image : Image) (setup : Setup) (state : TsmState) (tdo fuel : ℕ)
      (w : Wire) (a : ℕ) (rest : List ℕ)
      → IsSetUp setup
      → IsClient (connect_bytes ++ (request_bytes (word_requests a) ++ b'Q' ∷ rest)) w
      → a < 2 ^ 32
      → length w.reads < fuel
      → (last : DebugModule Cpu) × ((main env startup (some image) setup state tdo (suc fuel) w
            >>= left_by env)
          ≡ done (
              some (
                last,
                replicate 5 b'0'
                    ++ answer_letters (
                        init_dmi
                        ∷ pack_dmi 0x05 a 2
                        ∷ pack_dmi 0x17 read_word 2
                        ∷ pack_dmi 0x04 (word_in image.segments a) 0
                        ∷ []),
              )))
        × ((b : ℕ) → memory env last.cpu b ≡ word_in image.segments b)
        × (env.pc last.cpu ≡ image.start_address)
  unfolding initial_module loaded_cpu initial_target
  main_reads_word startup image setup state tdo fuel w a rest up h small enough =
      let cpu = loaded_cpu env startup image in
      let fits : IsModule (initial_module cpu) =
        (initial_target-IsTarget state tdo up.fd cpu).module_fits in
      let (last, exchanged, same_memory, same_registers, same_pc) =
        exchange-word_requests env a (initial_module cpu) small fits in
      let before = startup.with_pc startup.cpu_init image.start_address in
      (
        last,
        main-connect_bytes env startup image setup state tdo fuel w (word_requests a) rest up h
              (AreRequests-word_requests a) enough
            ∙ rw exchanged (λ i. done (
                some (
                  last,
                  replicate 5 b'0'
                      ++ answer_letters (
                          init_dmi
                          ∷ pack_dmi 0x05 a 2
                          ∷ pack_dmi 0x17 read_word 2
                          ∷ pack_dmi 0x04 (memory-loaded_cpu startup image a i) 0
                          ∷ []),
                ))),
        λ b. same_memory b ∙ memory-loaded_cpu startup image b,
        same_pc
            ∙ env.pc_put before image.segments
            ∙ startup.pc_written startup.cpu_init image.start_address,
      )
