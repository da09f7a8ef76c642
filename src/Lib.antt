-- ===== src/Lib.antt =====
-- riscv_openocd_jtag_mock: a JTAG target for OpenOCD, made of software. A debugger connects by TCP
-- and speaks OpenOCD's remote bit-bang protocol, one byte per change of the JTAG pins. The pins
-- drive the TAP state machine; the TAP shifts the instruction register and the data registers; the
-- data register `dmi` carries requests to a RISC-V debug module, which steps a simulated processor
-- and reads its registers and its memory.
--
-- The parts, from the bottom up, and what they correspond to:
--   * Prelude and Word: what the other modules share, and the operators of C++ on machine words.
--   * Tap (tap_state_machine_callback.h, tap_state_machine.cpp): `TsmState` is `tsm_state`, `next_state`
--     the switch of `transition()`, `tap_step` that with the test for the falling edge; `transition()`
--     with its callback, and `tsm_force_into_state()`, are in Port. Tap/Diagram
--     and Tap/Columns are about the diagram.
--   * Cpu: what the code uses of `cpu_t` and `cpu_step()`, which the git submodule riscv_assembler
--     defines. It is a parameter of all that follows, the record `Environment`.
--   * Dmi (remote_bitbang.cpp): the 41 bits of a request or an answer: `pack_dmi`, `get_dmi_address()`,
--     `get_dmi_data()`, `get_dmi_op()`, `init_dmi()`. Dmi/Codec has their arithmetic.
--   * DebugModule (remote_bitbang.cpp, `state_entered()`, the UPDATE_DR branch for `dmi`): the state in
--     DebugModule/State; one module per register: Control (`dmcontrol`), Status (`dmstatus`, `hartinfo`),
--     Registers (`data0` to `data11`, `abstractcs`), Command (`command`); `update_dmi` in
--     DebugModule/Access is the whole branch. Its child modules follow requests: Storage, Selection and
--     Execution from a write to what is read behind it, Answer what stands in the container, Frame what
--     changes of the processor, Pending the request 0, Fresh what the content of a new array matters for, and Totality how a
--     request can end.
--   * Target (remote_bitbang.h and the constructor): the members of `remote_bitbang_t` as the record
--     `Target`, and their initial values.
--   * Port (remote_bitbang.cpp, `set_pins()` and `state_entered()`): what a change of the pins does.
--     Port/Client has what a debugger does with the pins; Port/Shift, Port/Scan, Port/Transaction,
--     Port/Identity and Port/Instruction follow its scans, Port/Reset its reset,
--     Port/Counter the counter of the shifts, and Port/Bypass the scans of no register.
--   * Server (remote_bitbang.cpp, `accept()`, `execute_command()`, `tick()`; remote_bitbang_main.cpp, the
--     loop of `main()`): what the calls on sockets return is given as lists, in order.
--     Server/Session has what its client sees of it as a function of the bytes sent: Play and Scan
--     follow the bytes of a scan of `dmi`, Requests, Word, Block and Steps those of a sequence of
--     requests, Queries what a debugger sees of a processor that does not run, as a model without
--     words of `dmi`, and Connect a session from the reset of the port on; Totality and Definedness
--     are about how a session can end, and Server/Processor about what a request keeps.
--   * Dtmcs (remote_bitbang.cpp, `init_dtmcs()`, `print_dtmcs()`): the word of `dtmcs` and its fields.
--   * Names (remote_bitbang.cpp): `operation_as_string()`, `dm_register_as_string()` and
--     `riscv_register_as_string()`, as texts.
--   * Hex (ihex_loader.h and ihex_loader.cpp): `IHexLoader`, `hext_to_bytes()`, `process_hex_line()`,
--     `load_ihex_file()` and `print_ihex_type()`. Both files hold their code within line comments: the
--     loader in use is one of the submodule. Hex/Bytes, Hex/Words and Hex/Store are about the
--     digits of a line, the words of a record and where they are stored; Hex/Records has the records of a
--     file and what the loader makes of each, Hex/Lines and Hex/File follow it word by word;
--     Hex/Format is the format itself, in bytes, and Hex/Load compares the two;
--     Hex/Totality how loading can end, and Hex/Ends what a line without a carriage return does.
--   * Main (remote_bitbang_main.cpp): `main()`, with the result of the hex loader and the processor as
--     arguments. Main/Run, Main/Word, Main/Block, Main/Queries and Main/Steps follow a client from the
--     start of the program to its end, and Main/Total clients that read no memory.
--   * Tests: concrete targets and the theorems at work on them.
--
-- How a C++ call ends is an `Outcome`: it returns, its behaviour is undefined, it calls `abort()`,
-- or it waits for a client beyond the events given. Integers are natural numbers with the source's
-- masks and its wrap-around written out: on 8 bits for the shift counter and the instruction
-- register, on 32 and 64 bits for the shifts of the registers. The fields of `dmcontrol` and
-- `abstractcs` and the data registers hold what the masks of the source leave.
--
-- Recursion is on lists of socket events but for `serve`, the loop of `main()`, which runs on fuel: a
-- tick uses up at least one event, so more ticks than events are enough.
--
-- Not modelled: the text that `print_dtmcs()`, `print_dmi()`, `debug_output()` and the other calls of
-- `fprintf` and `std::cout` put into the log, and the sleeps; the hex loader in use and the processor,
-- which the submodule riscv_assembler provides: what `main()` takes from them is the record `Image` and
-- the record `Startup`. `strtol()` is a field of the record `Library`, with what the loader relies on:
-- two hexadecimal digits are read as a number, and a carriage return alone as 0. `new uint32_t[16384]`
-- yields an array whose elements have no value: to read one before it is written is undefined in C++.
-- The field `fresh` of `Environment`, and that of `Library`, stands for them, so that such a read is
-- some word in the model; DebugModule/Access/Fresh says for which requests that does not matter, and
-- DebugModule/Access/Totality and Main/Total are about those alone. `cpu_step()` of the submodule is a function
-- of the model, so that it is taken to return. The
-- members of the class without an initial value, `tsm_current_state` and `tdo`, are arguments of
-- `initial_target`.
mod Prelude
pub mod Word
pub mod Tap
pub mod Cpu
pub mod Dmi
pub mod Dtmcs
pub mod DebugModule
pub mod Target
pub mod Port
pub mod Server
pub mod Names
pub mod Hex
pub mod Main
mod Tests
