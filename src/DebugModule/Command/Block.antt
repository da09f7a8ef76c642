-- ===== src/DebugModule/Command/Block.antt =====
-- A block of memory, read by repeated commands.
use riscv_openocd_jtag_mock.Prelude.{
  ℕ, ◌+◌, ◌*◌, ◌^◌, ◌<◌, ◌≡◌, refl, ◌∙◌, ap, arith, zero, suc, List, [], ◌∷◌, length, Outcome, done,
  ◌>>=◌,
}
use riscv_openocd_jtag_mock.Cpu.{Environment}
use riscv_openocd_jtag_mock.DebugModule.State.{DebugModule}
use riscv_openocd_jtag_mock.DebugModule.Command.{data_at, write_command}
use riscv_openocd_jtag_mock.DebugModule.Command.Arguments.{
  command_type, size_field, increment_field, write_field,
}
use riscv_openocd_jtag_mock.DebugModule.Command.Memory.{
  memory, word_read, write_command_read, word_read-WordRead,
}

module _ {Cpu : Type 0} (env : Environment Cpu) where
  -- Repeated commands, each followed by a look at `data0`; and the words of the memory.
  unfoldable pub read_block : ℕ → ℕ → DebugModule Cpu → Outcome (DebugModule Cpu × List ℕ)
  read_block zero w s = done (s, [])
  read_block (suc n) w s = do
    t ← write_command env w s
    (u, words) ← read_block n w t
    done (u, data_at t 0 ∷ words)

  abbrev pub words_from : Cpu → ℕ → ℕ → List ℕ
  words_from cpu zero a = []
  words_from cpu (suc n) a = memory env cpu a ∷ words_from cpu n (a + 4)

  pub words_from-same :
      (c d : Cpu) (n a : ℕ)
      → ((b : ℕ) → memory env c b ≡ memory env d b)
      → words_from c n a ≡ words_from d n a
  words_from-same c d zero a same = refl
  words_from-same c d (suc n) a same = λ i. same a i ∷ words_from-same c d n (a + 4) same i

  -- A debugger that repeats the command with the increment reads consecutive words of the memory,
  -- in order, as long as the address does not pass 2^64, and leaves the memory as it was.
  pub read_block_lem :
      (n w : ℕ) (s : DebugModule Cpu)
      → command_type w ≡ 2
      → write_field w ≡ 0
      → size_field w ≡ 2
      → increment_field w ≡ 1
      → length s.abstract_data ≡ 12
      → data_at s 1 + 4 * n < 2 ^ 64
      → (t : DebugModule Cpu) × (read_block n w s ≡ done (t, words_from s.cpu n (data_at s 1)))
        × (data_at t 1 ≡ data_at s 1 + 4 * n)
        × ((a : ℕ) → memory env t.cpu a ≡ memory env s.cpu a)
  unfolding read_block
  read_block_lem zero w s type read size incr twelve room = (s, refl, omega arith, λ a. refl)
  read_block_lem (suc n) w s type read size incr twelve room =
      let t = word_read env w s in
      let r = word_read-WordRead env w s twelve in
      let a = data_at s 1 in
      let next : data_at t 1 ≡ a + 4 = r.next ∙ rw incr (omega arith) in
      let (u, runs, ends, same) =
        read_block_lem n w t type read size incr r.twelve (omega (arith, next)) in
      (
        u,
        rw (write_command_read env w s type read size) (
            rw runs λ i. done (
              u,
              r.word i
                  ∷ (words_from-same t.cpu s.cpu n (data_at t 1) r.same_memory
                        ∙ ap (words_from s.cpu n) next)
                      i,
            )),
        omega (arith, next, ends),
        λ b. same b ∙ r.same_memory b,
      )
