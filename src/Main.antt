-- ===== src/Main.antt =====
-- `main()` of remote_bitbang_main.cpp. The hex loader and the processor come from the git submodule
-- riscv_assembler: what they do is an argument.
pub mod Run
pub mod Word
pub mod Steps
pub mod Total
pub mod Block
pub mod Queries
use riscv_openocd_jtag_mock.Prelude.{ℕ, ◌≡◌, Option, none, some, Outcome, done, ◌>>=◌}
use riscv_openocd_jtag_mock.Tap.{TsmState}
use riscv_openocd_jtag_mock.Cpu.{Environment, Segments}
use riscv_openocd_jtag_mock.Target.{Target, Setup, construct}
use riscv_openocd_jtag_mock.Server.{Wire, serve}

-- What `load_ihex_file()` leaves in the loader if it returns 0.
pub record Image : Type 0 where
  pub start_address : ℕ
  pub segments : Segments

module _ {Cpu : Type 0} (env : Environment Cpu) where
  -- `cpu_init()`, and `pc` of `cpu_t` as a field that can be written: it gives back what was put
  -- there.
  pub record Startup : Type 0 where
    pub cpu_init : Cpu
    pub with_pc : Cpu → ℕ → Cpu
    pub pc_written : (c : Cpu) (a : ℕ) → env.pc (with_pc c a) ≡ a

  -- The processor that the server is given.
  unfoldable pub loaded_cpu : Startup → Image → Cpu
  loaded_cpu startup image =
      let cpu = startup.with_pc startup.cpu_init image.start_address in
      env.with_segments cpu image.segments

  -- `none` is `return -1`; `some` is `return 0`, with what the loop leaves. The first argument
  -- behind `startup` is the result of `load_ihex_file()`; the state and `tdo` have no initial value
  -- in the source; `fuel` is the number of ticks.
  unfoldable pub main :
      Startup
      → Option Image
      → Setup
      → TsmState
      → ℕ
      → ℕ
      → Wire
      → Outcome (Option (Target Cpu × Wire))
  main startup none setup state tdo fuel w = done none
  main startup (some image) setup state tdo fuel w = do
    s ← construct setup state tdo (loaded_cpu startup image)
    x ← serve env fuel s w
    done (some x)
