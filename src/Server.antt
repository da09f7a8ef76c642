-- ===== src/Server.antt =====
-- `execute_command()`, `accept()` and `tick()` of remote_bitbang.cpp and the loop of
-- remote_bitbang_main.cpp. What the sockets do is given as lists of results of the calls, in order.
pub mod Polling
pub mod Termination
pub mod Session
pub mod Invariant
pub mod Processor
use riscv_openocd_jtag_mock.Prelude.{
  ℕ, zero, suc, ◌==◌, ltb, if◌then◌else◌, List, [], ◌∷◌, ◌++◌, Outcome, done, aborted, waiting,
  ◌>>=◌,
}
use riscv_openocd_jtag_mock.Cpu.{Environment}
use riscv_openocd_jtag_mock.Target.{Target}
use riscv_openocd_jtag_mock.Port.{set_pins, reset}

-- `accept()`: a descriptor, or -1 with `EAGAIN` or another `errno`.
pub data Accepted : Type 0 where
  client : ℕ → Accepted
  nobody : Accepted
  accept_failed : Accepted

-- `read()` of one byte: the byte, 0 for a closed connection, or -1.
pub data Received : Type 0 where
  byte : ℕ → Received
  closed : Received
  no_data : Received
  read_failed : Received

-- `write()` of one byte: it was written or not, or -1.
pub data Sent : Type 0 where
  written : Sent
  not_written : Sent
  write_failed : Sent

-- What the sockets will do, and what the client has been sent.
pub record Wire : Type 0 where
  pub accepts : List Accepted
  pub reads : List Received
  pub writes : List Sent
  pub output : List ℕ

-- The loop of `remote_bitbang_t::accept()`, which sleeps and tries again.
unfoldable pub accept_client : List Accepted → Outcome (ℕ × List Accepted)
accept_client [] = waiting
accept_client (client fd ∷ rest) = done (fd, rest)
accept_client (nobody ∷ rest) = accept_client rest
accept_client (accept_failed ∷ rest) = aborted

-- The loop that reads one command.
unfoldable pub read_byte : List Received → Outcome (ℕ × List Received)
read_byte [] = waiting
read_byte (byte b ∷ rest) = done (b, rest)
read_byte (closed ∷ rest) = read_byte rest
read_byte (no_data ∷ rest) = read_byte rest
read_byte (read_failed ∷ rest) = aborted

-- The loop that writes the answer.
unfoldable pub write_byte : List Sent → Outcome (List Sent)
write_byte [] = waiting
write_byte (written ∷ rest) = done rest
write_byte (not_written ∷ rest) = write_byte rest
write_byte (write_failed ∷ rest) = aborted

module _ {Cpu : Type 0} (env : Environment Cpu) where
  -- The `switch` on the command, but for `R`.
  unfoldable pub run_command : ℕ → Target Cpu → Outcome (Target Cpu)
  run_command command s =
      if command == b'r'
      then reset env 0 0 s
      else (if command == b'0'
          then set_pins env 0 0 0 s
          else (if command == b'1'
              then set_pins env 0 0 1 s
              else (if command == b'2'
                  then set_pins env 0 1 0 s
                  else (if command == b'3'
                      then set_pins env 0 1 1 s
                      else (if command == b'4'
                          then set_pins env 1 0 0 s
                          else (if command == b'5'
                              then set_pins env 1 0 1 s
                              else (if command == b'6'
                                  then set_pins env 1 1 0 s
                                  else (if command == b'7'
                                      then set_pins env 1 1 1 s
                                      else (if command == b'Q'
                                          then done (record s { quit = 1 })
                                          else done s)))))))))

  -- The answer to `R`.
  unfoldable pub tdo_letter : Target Cpu → ℕ
  tdo_letter s = if s.pins.tdo == 0 then b'0' else b'1'

  -- `R` is answered; nothing else is.
  unfoldable pub send_answer : ℕ → Target Cpu → Wire → Outcome Wire
  unfolding tdo_letter
  send_answer command s w =
      if command == b'R'
      then (write_byte w.writes >>= λ rest.
          done (record w { writes = rest; output = w.output ++ (tdo_letter s ∷ []) }))
      else done w

  -- After `Q` the connection is closed.
  unfoldable pub hang_up : Target Cpu → Target Cpu
  hang_up s = if s.quit == 0 then s else record s { client_fd = 0 }

  unfoldable pub execute_command : Target Cpu → Wire → Outcome (Target Cpu × Wire)
  unfolding send_answer hang_up
  execute_command s w = do
    (command, rest) ← read_byte w.reads
    t ← run_command command s
    w' ← send_answer command t (record w { reads = rest })
    done (hang_up t, w')

  -- `tick()`; the pins that it copies out are `pins` of the result.
  unfoldable pub tick : Target Cpu → Wire → Outcome (Target Cpu × Wire)
  tick s w =
      if ltb 0 s.client_fd
      then execute_command s w
      else (accept_client w.accepts >>= λ (fd, rest).
          done (record s { client_fd = fd }, record w { accepts = rest }))

  -- `while (!done()) tick()`, on fuel; `waiting` also stands for fuel that has run out.
  unfoldable pub serve : ℕ → Target Cpu → Wire → Outcome (Target Cpu × Wire)
  serve zero s w = waiting
  serve (suc fuel) s w =
      let rest = tick s w >>= λ (t, v). serve fuel t v in if s.quit == 0 then rest else done (s, w)
