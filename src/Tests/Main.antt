-- ===== src/Tests/Main.antt =====
-- The program from its start, with a client that sends its bytes one by one.
use riscv_openocd_jtag_mock.Prelude.{
  ℕ, zero, suc, ◌≡◌, refl, ap, arith, true, false, some, List, [], ◌∷◌, ◌++◌, map, length,
  replicate, done, ◌>>=◌,
}
use riscv_openocd_jtag_mock.Tap.{pause_ir}
use riscv_openocd_jtag_mock.Dmi.{pack_dmi}
use riscv_openocd_jtag_mock.DebugModule.{DebugModule}
use riscv_openocd_jtag_mock.Target.{Setup, initial_module}
use riscv_openocd_jtag_mock.Server.{Wire, client, nobody, byte, written, accept_client}
use riscv_openocd_jtag_mock.Server.Polling.{bytes_of, AreRead, Delivers}
use riscv_openocd_jtag_mock.Server.Session.{asked}
use riscv_openocd_jtag_mock.Server.Session.Requests.{request_bytes, answer_letters, exchange}
use riscv_openocd_jtag_mock.Server.Session.Connect.{connect_bytes}
use riscv_openocd_jtag_mock.Main.{Image, Startup, loaded_cpu, main}
use riscv_openocd_jtag_mock.Main.Run.{IsSetUp, IsClient, left_by, main-connect_bytes}
use riscv_openocd_jtag_mock.Main.Steps.{step_requests, main_steps}
use riscv_openocd_jtag_mock.Server.Session.Steps.{last_of, run}
use riscv_openocd_jtag_mock.Tests.Sample.{Machine, sample_environment, sample_machine}

abbrev pub sample_startup : Startup sample_environment
sample_startup = record {
  cpu_init = record sample_machine { counter = 0 };
  with_pc = λ c a. record c { counter = a };
  pc_written = λ c a. refl;
}

-- One segment, with its index in each word.
abbrev pub sample_image : Image
sample_image = record { start_address = 0x20; segments = (0, λ i. i) ∷ [] }

abbrev pub good_setup : Setup
good_setup = record {
  socket = some 3;
  setsockopt_ok = true;
  bind_ok = true;
  listen_ok = true;
  getsockname_ok = true;
}

pub good_setup-IsSetUp : IsSetUp good_setup
good_setup-IsSetUp = record {
  fd = 3;
  has_socket = refl;
  has_option = refl;
  is_bound = refl;
  listens = refl;
  is_named = refl;
}

abbrev bad_setup : Setup
bad_setup = record good_setup { bind_ok = false }

bad_setup-IsSetUp : ¬ IsSetUp bad_setup
bad_setup-IsSetUp h = ground (arith, h.is_bound)

abbrev pub wire_of : List ℕ → Wire
wire_of bytes = record {
  accepts = nobody ∷ client 4 ∷ [];
  reads = map byte bytes;
  writes = replicate (asked bytes) written;
  output = [];
}

bytes_of-map : (bytes : List ℕ) → bytes_of (map byte bytes) ≡ bytes
bytes_of-map [] = refl
bytes_of-map (b ∷ bytes) = ap (λ bs. b ∷ bs) (bytes_of-map bytes)

AreRead-map : (bytes : List ℕ) → AreRead (map byte bytes)
AreRead-map [] = tt
AreRead-map (b ∷ bytes) = AreRead-map bytes

Delivers-replicate : (n : ℕ) → Delivers (replicate n written) n
Delivers-replicate zero = tt
Delivers-replicate (suc n) = Delivers-replicate n

pub wire_of-IsClient : (bytes : List ℕ) → IsClient bytes (wire_of bytes)
unfolding accept_client
wire_of-IsClient bytes = record {
  fd = 4;
  more = [];
  comes = refl;
  positive = omega arith;
  sends = bytes_of-map bytes;
  read = AreRead-map bytes;
  delivers = Delivers-replicate (asked bytes);
  fresh = refl;
}

-- A client with one request, to `dmcontrol`.
abbrev one_request : List ℕ
one_request = connect_bytes ++ (request_bytes (0x4040000006 ∷ []) ++ b'Q' ∷ [])

main-connect_bytes_example :
    (main sample_environment sample_startup
        (some sample_image)
        good_setup
        pause_ir
        1
        (suc (suc (length (wire_of one_request).reads)))
        (wire_of one_request)
      >>= left_by sample_environment)
    ≡ (exchange sample_environment
          (0x4040000006 ∷ [])
          (initial_module (loaded_cpu sample_environment sample_startup sample_image))
        >>= λ (m, answered). done (some (m, replicate 5 b'0' ++ answer_letters answered)))
main-connect_bytes_example =
    main-connect_bytes sample_environment sample_startup sample_image good_setup pause_ir 1
      (suc (length (wire_of one_request).reads)) (wire_of one_request) (0x4040000006 ∷ []) []
      good_setup-IsSetUp (wire_of-IsClient one_request) (omega arith) (omega arith)

-- A client that runs two instructions.
abbrev stepping : List ℕ
stepping = connect_bytes ++ (request_bytes (step_requests 2) ++ b'Q' ∷ [])

main_steps_example :
    (last : DebugModule Machine) × (answers : List ℕ) × ((main sample_environment sample_startup
          (some sample_image)
          good_setup
          pause_ir
          1
          (suc (suc (length (wire_of stepping).reads)))
          (wire_of stepping)
        >>= left_by sample_environment)
      ≡ done (some (last, replicate 5 b'0' ++ answer_letters answers)))
    × (last_of answers ≡ pack_dmi 0x04 0x28 0)
    × (last.cpu
        ≡ run sample_environment 2 (loaded_cpu sample_environment sample_startup sample_image))
unfolding run loaded_cpu initial_module
main_steps_example =
    main_steps sample_environment sample_startup sample_image good_setup pause_ir 1
      (suc (length (wire_of stepping).reads)) (wire_of stepping) 2 [] good_setup-IsSetUp
      (wire_of-IsClient stepping) (omega arith)
