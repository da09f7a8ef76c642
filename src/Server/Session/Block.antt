-- ===== src/Server/Session/Block.antt =====
-- How a debugger reads a block of memory: the address once, and a command with the increment for each
-- word.
use riscv_openocd_jtag_mock.Prelude.{
  ℕ, zero, suc, ◌+◌, ◌*◌, ◌^◌, ◌<◌, ◌≡◌, refl, ap, ◌∙◌, arith, List, [], ◌∷◌, length, set,
  get_or-set_self, length-set, done,
}
use riscv_openocd_jtag_mock.Cpu.{Environment}
use riscv_openocd_jtag_mock.Dmi.{pack_dmi}
use riscv_openocd_jtag_mock.DebugModule.{DebugModule}
use riscv_openocd_jtag_mock.DebugModule.Command.{data_at}
use riscv_openocd_jtag_mock.DebugModule.Command.Block.{words_from, words_from-same}
use riscv_openocd_jtag_mock.DebugModule.Command.Memory.{
  memory, word_read, write_command_read, word_read-WordRead,
}
use riscv_openocd_jtag_mock.DebugModule.Access.Requests.{requested}
use riscv_openocd_jtag_mock.DebugModule.Access.Storage.{write_data, read_data}
use riscv_openocd_jtag_mock.DebugModule.Access.Pending.{command_request}
use riscv_openocd_jtag_mock.DebugModule.Invariant.{IsModule}
use riscv_openocd_jtag_mock.Server.Session.Requests.{exchange}

-- "Access memory" with a size of 32 bits and the increment.
abbrev pub read_next : ℕ
read_next = 0x02280000

-- For each word the command and a read of `data0`, and one more read for the last answer.
abbrev pub next_requests : ℕ → List ℕ
next_requests zero = pack_dmi 0x04 0 1 ∷ []
next_requests (suc n) = pack_dmi 0x17 read_next 2 ∷ pack_dmi 0x04 0 1 ∷ next_requests n

abbrev pub block_requests : ℕ → ℕ → List ℕ
block_requests a n = pack_dmi 0x05 a 2 ∷ next_requests n

-- What is answered to them behind `first`, if the words are `words`: each word behind its command.
abbrev pub block_answers : ℕ → List ℕ → List ℕ
block_answers first [] = first ∷ []
block_answers first (w ∷ words) =
    first ∷ pack_dmi 0x17 read_next 2 ∷ block_answers (pack_dmi 0x04 w 0) words

module _ {Cpu : Type 0} (env : Environment Cpu) where
  -- What does not change.
  pub record IsReading (m t : DebugModule Cpu) : Type 0 where
    pub same_memory : (b : ℕ) → memory env t.cpu b ≡ memory env m.cpu b
    pub same_registers : (i : ℕ) → env.reg t.cpu i ≡ env.reg m.cpu i
    pub same_pc : env.pc t.cpu ≡ env.pc m.cpu

  exchange-next_requests :
      (n : ℕ) (m : DebugModule Cpu)
      → length m.abstract_data ≡ 12
      → data_at m 1 + 4 * n < 2 ^ 64
      → (t : DebugModule Cpu) × (exchange env (next_requests n) m
          ≡ done (t, block_answers m.dmi_container_register (words_from env m.cpu n (data_at m 1))))
        × IsReading m t
  unfolding exchange
  exchange-next_requests zero m twelve room = (
    requested 0x04 (data_at m 0) 0 m,
    rw (read_data env 0 m (omega arith)),
    record { same_memory = λ b. refl; same_registers = λ i. refl; same_pc = refl },
  )
  exchange-next_requests (suc n) m twelve room =
      let m1 = requested 0x17 read_next 2 m in
      let t = word_read env read_next m1 in
      let r = word_read-WordRead env read_next m1 twelve in
      let m2 = requested 0x04 (data_at t 0) 0 t in
      let next : data_at t 1 ≡ data_at m 1 + 4 = r.next ∙ omega (arith, room) in
      let words : words_from env m2.cpu n (data_at m2 1)
          ≡ words_from env m.cpu n (data_at m 1 + 4) =
        words_from-same env m2.cpu m.cpu n (data_at m2 1) r.same_memory
        ∙ ap (words_from env m.cpu n) next in
      let (last, runs, q) = exchange-next_requests n m2 r.twelve (omega (arith, next, room)) in
      (
        last,
        rw
            (command_request env read_next m (omega arith)
              ∙ write_command_read env read_next m1 refl refl refl)
            (rw (read_data env 0 t (omega arith)) (
              rw runs λ i. done (
                last,
                m.dmi_container_register
                    ∷ r.same_request i
                    ∷ block_answers (pack_dmi 0x04 (r.word i) 0) (words i),
              ))),
        record {
          same_memory = λ b. q.same_memory b ∙ r.same_memory b;
          same_registers = λ i. q.same_registers i ∙ r.same_registers i;
          same_pc = q.same_pc ∙ r.same_pc;
        },
      )

  -- The answers are the words of the memory from the address on, in order, each marked as a success
  -- and behind the echo of its command, and the memory and the registers of the processor are as they
  -- were.
  pub exchange-block_requests :
      (a n : ℕ) (m : DebugModule Cpu)
      → a < 2 ^ 32
      → a + 4 * n < 2 ^ 64
      → IsModule m
      → (last : DebugModule Cpu) × (exchange env (block_requests a n) m
          ≡ done (
            last,
            m.dmi_container_register ∷ block_answers (pack_dmi 0x05 a 2) (words_from env m.cpu n a),
          ))
        × IsReading m last
  unfolding exchange
  exchange-block_requests a n m small room h =
      let m1 = record (requested 0x05 a 2 m) { abstract_data = set m.abstract_data 1 a } in
      let twelve = length-set m.abstract_data 1 a ∙ h.twelve in
      let at : data_at m1 1 ≡ a = get_or-set_self m.abstract_data 1 a 0 (omega (arith, h.twelve)) in
      let (last, runs, q) = exchange-next_requests n m1 twelve (omega (arith, at, room)) in
      (
        last,
        rw (write_data env 1 a m (omega arith) small) (
            rw runs λ i. done (
              last,
              m.dmi_container_register
                  ∷ block_answers (pack_dmi 0x05 a 2) (words_from env m.cpu n (at i)),
            )),
        record {
          same_memory = q.same_memory;
          same_registers = q.same_registers;
          same_pc = q.same_pc;
        },
      )
