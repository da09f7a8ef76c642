-- ===== src/Tests/Clients.antt =====
-- More clients of the program: of a block of memory, of requests that read none, and of queries.
use riscv_openocd_jtag_mock.Prelude.{
  ℕ, suc, ◌≡◌, refl, arith, true, some, List, [], ◌∷◌, ◌++◌, map, length, replicate, done, ◌>>=◌,
  false, undefined,
}
use riscv_openocd_jtag_mock.Tap.{pause_ir}
use riscv_openocd_jtag_mock.Cpu.{find_segment, Segment}
use riscv_openocd_jtag_mock.Dmi.{init_dmi, pack_dmi, get_dmi_address, get_dmi_data, get_dmi_op}
use riscv_openocd_jtag_mock.DebugModule.{DebugModule}
use riscv_openocd_jtag_mock.DebugModule.Command.Memory.{memory}
use riscv_openocd_jtag_mock.Server.Session.Requests.{request_bytes, answer_letters}
use riscv_openocd_jtag_mock.Server.Session.Connect.{connect_bytes}
use riscv_openocd_jtag_mock.Main.{loaded_cpu, main}
use riscv_openocd_jtag_mock.Main.Run.{left_by}
use riscv_openocd_jtag_mock.Main.Word.{word_in}
use riscv_openocd_jtag_mock.Main.Total.{startup_with, main_total}
use riscv_openocd_jtag_mock.Server.Session.Definedness.{any_memory_read, any_undefined}
use riscv_openocd_jtag_mock.DebugModule.Access.Fresh.{with_fresh}
use riscv_openocd_jtag_mock.Dmi.Codec.{pack_dmi-lt}
use riscv_openocd_jtag_mock.Main.Block.{main_reads_block}
use riscv_openocd_jtag_mock.Server.Session.Block.{block_requests, block_answers}
use riscv_openocd_jtag_mock.Main.Queries.{first_view, main_refines_queries}
use riscv_openocd_jtag_mock.Server.Session.Queries.{
  Query, put, get, copy_word, copy_register, control, status, request_of, carried_out,
  all_carried_out, all_told,
}
use riscv_openocd_jtag_mock.Server.Session.Queries.Refinement.{view_of}
use riscv_openocd_jtag_mock.Tests.Sample.{Machine, sample_environment}
use riscv_openocd_jtag_mock.Tests.Main.{
  sample_startup, sample_image, good_setup, good_setup-IsSetUp, wire_of, wire_of-IsClient,
}

-- A client that reads two words from 8 on.
abbrev reading_block : List ℕ
reading_block = connect_bytes ++ (request_bytes (block_requests 8 2) ++ b'Q' ∷ [])

main_reads_block_example :
    (last : DebugModule Machine) × ((main sample_environment sample_startup
          (some sample_image)
          good_setup
          pause_ir
          1
          (suc (suc (length (wire_of reading_block).reads)))
          (wire_of reading_block)
        >>= left_by sample_environment)
      ≡ done (
          some (
            last,
            replicate 5 b'0'
                ++ answer_letters (init_dmi ∷ block_answers (pack_dmi 0x05 8 2) (2 ∷ 3 ∷ [])),
          )))
    × ((b : ℕ)
        → memory sample_environment last.cpu b ≡ word_in sample_environment sample_image.segments b)
unfolding word_in find_segment
main_reads_block_example =
    main_reads_block sample_environment sample_startup sample_image good_setup pause_ir 1
      (suc (length (wire_of reading_block).reads)) (wire_of reading_block) 8 2 [] good_setup-IsSetUp
      (wire_of-IsClient reading_block) (omega arith) (omega arith) (omega arith)

-- A client that asks for `dmcontrol`, writes an address and has `dpc` copied, commands a memory write, and
-- has that done again.
abbrev asking : List ℕ
asking =
    pack_dmi 0x10 0 1
    ∷ pack_dmi 0x05 8 2
    ∷ pack_dmi 0x17 0x002207b1 2
    ∷ pack_dmi 0x17 0x02290000 2
    ∷ 0
    ∷ []

abbrev asking_bytes : List ℕ
asking_bytes = connect_bytes ++ (request_bytes asking ++ b'Q' ∷ [])

asking-read : any_memory_read asking ≡ false
unfolding get_dmi_address get_dmi_data get_dmi_op pack_dmi
asking-read = refl

other_array : ℕ → Segment
other_array k j = 99

main_total_example :
    let run =
      main sample_environment sample_startup
        (some sample_image)
        good_setup
        pause_ir
        1
        (suc (suc (length (wire_of asking_bytes).reads)))
        (wire_of asking_bytes)
      >>= left_by sample_environment in
    (any_undefined asking ≡ false
      → (last : DebugModule Machine) × (answers : List ℕ) × (run
          ≡ done (some (last, replicate 5 b'0' ++ answer_letters answers)))
        × (length answers ≡ 5))
    × (any_undefined asking ≡ true → run ≡ undefined)
    × ((main
            (with_fresh sample_environment other_array)
            (startup_with sample_environment other_array sample_startup)
            (some sample_image)
            good_setup
            pause_ir
            1
            (suc (suc (length (wire_of asking_bytes).reads)))
            (wire_of asking_bytes)
          >>= left_by (with_fresh sample_environment other_array))
        ≡ run)
main_total_example =
    main_total sample_environment other_array sample_startup sample_image good_setup pause_ir 1
      (suc (length (wire_of asking_bytes).reads)) (wire_of asking_bytes) asking []
      good_setup-IsSetUp (wire_of-IsClient asking_bytes)
      (
        pack_dmi-lt 0x10 0 1,
        (
          pack_dmi-lt 0x05 8 2,
          (pack_dmi-lt 0x17 0x002207b1 2, (pack_dmi-lt 0x17 0x02290000 2, (omega arith, tt))),
        ),
      )
      (omega arith) asking-read

-- It sends no request that is undefined, and one such request is recognised, and a memory read.
asking_defined :
    (any_undefined asking ≡ false)
    × (any_undefined (pack_dmi 0x17 0x02080000 2 ∷ []) ≡ true)
    × (any_memory_read (pack_dmi 0x17 0x02280000 2 ∷ []) ≡ true)
unfolding get_dmi_address get_dmi_data get_dmi_op pack_dmi
asking_defined = (refl, refl, refl)

-- A client that writes an address, has the word there copied and reads it, and then the register 5 and
-- `dpc`.
abbrev queries : List Query
queries =
    put 1 8
    ∷ copy_word true
    ∷ get 0
    ∷ get 1
    ∷ copy_register 0x1005
    ∷ get 0
    ∷ copy_register 0x7b1
    ∷ get 0
    ∷ control
    ∷ status
    ∷ []

abbrev querying : List ℕ
querying = connect_bytes ++ (request_bytes (map request_of queries) ++ b'Q' ∷ [])

main_refines_queries_example :
    (last : DebugModule Machine) × ((main sample_environment sample_startup
          (some sample_image)
          good_setup
          pause_ir
          1
          (suc (suc (length (wire_of querying).reads)))
          (wire_of querying)
        >>= left_by sample_environment)
      ≡ done (
          some (
            last,
            replicate 5 b'0'
                ++ answer_letters (
                    all_told init_dmi queries
                      (first_view sample_environment sample_startup sample_image)),
          )))
    × (view_of sample_environment last
        ≡ all_carried_out queries (first_view sample_environment sample_startup sample_image))
main_refines_queries_example =
    main_refines_queries sample_environment sample_startup sample_image good_setup pause_ir 1
      (suc (length (wire_of querying).reads)) (wire_of querying) queries [] good_setup-IsSetUp
      (wire_of-IsClient querying)
      (
        (omega arith, omega arith),
        (
          tt,
          (
            omega arith,
            (
              omega arith,
              (omega arith, (omega arith, (omega arith, (omega arith, (tt, (tt, tt)))))),
            ),
          ),
        ),
      )
      (omega arith)

-- What it is told: the echo of each command, and behind it the word or the register.
queries-told :
    all_told init_dmi queries (first_view sample_environment sample_startup sample_image)
    ≡ init_dmi
      ∷ pack_dmi 0x05 8 2
      ∷ pack_dmi 0x17 0x02280000 2
      ∷ pack_dmi 0x04 2 0
      ∷ pack_dmi 0x05 12 0
      ∷ pack_dmi 0x17 0x00221005 2
      ∷ pack_dmi 0x04 105 0
      ∷ pack_dmi 0x17 0x002207b1 2
      ∷ pack_dmi 0x04 0x40000000 0
      ∷ pack_dmi 0x10 0 0
      ∷ []
unfolding all_told carried_out first_view word_in find_segment loaded_cpu
queries-told = refl
