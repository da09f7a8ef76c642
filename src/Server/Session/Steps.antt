-- ===== src/Server/Session/Steps.antt =====
-- How a debugger runs the program instruction by instruction, and then asks where it is.
use riscv_openocd_jtag_mock.Prelude.{
  ℕ, zero, suc, ◌≡◌, refl, ap, subst, ◌∙◌, arith, List, [], ◌∷◌, ◌++◌, replicate, length, done,
}
use riscv_openocd_jtag_mock.Cpu.{Environment}
use riscv_openocd_jtag_mock.Dmi.{pack_dmi}
use riscv_openocd_jtag_mock.DebugModule.{DebugModule}
use riscv_openocd_jtag_mock.DebugModule.Control.{write_control}
use riscv_openocd_jtag_mock.DebugModule.Access.{update_dmi}
use riscv_openocd_jtag_mock.DebugModule.Access.Requests.{requested}
use riscv_openocd_jtag_mock.DebugModule.Access.Selection.{
  write_control-Written, write_control_request,
}
use riscv_openocd_jtag_mock.DebugModule.Access.Execution.{
  commanded, command_request, commanded-data,
}
use riscv_openocd_jtag_mock.DebugModule.Access.Storage.{read_data}
use riscv_openocd_jtag_mock.DebugModule.Command.{data_at}
use riscv_openocd_jtag_mock.Server.Session.Requests.{exchange}

-- A write of `dmcontrol` with `resumereq` and `dmactive`.
abbrev pub step_request : ℕ
step_request = pack_dmi 0x10 0x40000001 2

-- "Access register", a read of `dpc`, and two reads of `data0`: the second one for the answer to the
-- first.
abbrev pub dpc_requests : List ℕ
dpc_requests = pack_dmi 0x17 0x002207b1 2 ∷ pack_dmi 0x04 0 1 ∷ pack_dmi 0x04 0 1 ∷ []

-- The last word of a list of answers.
abbrev pub last_of : List ℕ → ℕ
last_of [] = 0
last_of (a ∷ []) = a
last_of (a ∷ b ∷ more) = last_of (b ∷ more)

module _ {Cpu : Type 0} (env : Environment Cpu) where
  -- The processor after `n` instructions.
  unfoldable pub run : ℕ → Cpu → Cpu
  run zero cpu = cpu
  run (suc n) cpu = run n (env.cpu_step cpu)

  -- A sequence of requests that returns, with `t` and at least one answer, the last of which is `a`.
  record Gives (ws : List ℕ) (m t : DebugModule Cpu) (a : ℕ) : Type 0 where
    answers : List ℕ
    first : ℕ
    exchanged : exchange env ws m ≡ done (t, first ∷ answers)
    last : last_of (first ∷ answers) ≡ a

  preceded :
      (w a : ℕ) (ws : List ℕ) (m n t : DebugModule Cpu)
      → update_dmi env w m ≡ done n
      → Gives ws n t a
      → Gives (w ∷ ws) m t a
  unfolding exchange
  preceded w a ws m n t e g = record {
    answers = g.first ∷ g.answers;
    first = m.dmi_container_register;
    exchanged = rw e (rw g.exchanged);
    last = g.last;
  }

  alone :
      (w : ℕ) (m n : DebugModule Cpu)
      → update_dmi env w m ≡ done n
      → Gives (w ∷ []) m n m.dmi_container_register
  unfolding exchange
  alone w m n e = record {
    answers = [];
    first = m.dmi_container_register;
    exchanged = rw e;
    last = refl;
  }

  -- Where a debugger is told that the program is.
  abbrev pub place : ℕ → DebugModule Cpu → ℕ
  place zero m = m.dpc
  place (suc n) m = env.pc (run (suc n) m.cpu)

  -- What `n` steps and the question come to.
  record Runs (n : ℕ) (m : DebugModule Cpu) : Type 0 where
    final : DebugModule Cpu
    gives : Gives (replicate n step_request ++ dpc_requests) m final (pack_dmi 0x04 (place n m) 0)
    ran : final.cpu ≡ run n m.cpu

  asks : (m : DebugModule Cpu) → length m.abstract_data ≡ 12 → Runs 0 m
  unfolding run
  asks m twelve =
      let w : ℕ = 0x002207b1 in
      let u = commanded env w m in
      let v = requested 0x04 (data_at u 0) 0 u in
      let t = requested 0x04 (data_at v 0) 0 v in
      let tells : pack_dmi 0x04 (data_at u 0) 0 ≡ pack_dmi 0x04 m.dpc 0 =
        ap (λ x. pack_dmi 0x04 x 0) (commanded-data env w m twelve) in
      record {
        final = t;
        gives =
            preceded (pack_dmi 0x17 w 2) (pack_dmi 0x04 m.dpc 0) _ m u t
              (command_request env w m (omega arith) refl)
              (preceded (pack_dmi 0x04 0 1) (pack_dmi 0x04 m.dpc 0) _ u v t
                (read_data env 0 u (omega arith))
                (subst (λ a. Gives (pack_dmi 0x04 0 1 ∷ []) v t a) tells
                  (alone (pack_dmi 0x04 0 1) v t (read_data env 0 v (omega arith)))));
        ran = refl;
      }

  place-suc :
      (n : ℕ) (m u : DebugModule Cpu)
      → u.cpu ≡ env.cpu_step m.cpu
      → u.dpc ≡ env.pc (env.cpu_step m.cpu)
      → place n u ≡ place (suc n) m
  unfolding run
  place-suc zero m u moved follows = follows
  place-suc (suc n) m u moved follows = ap (λ c. env.pc (run (suc n) c)) moved

  steps : (n : ℕ) (m : DebugModule Cpu) → length m.abstract_data ≡ 12 → Runs n m
  unfolding run
  steps zero m twelve = asks m twelve
  steps (suc n) m twelve =
      let s = requested 0x10 0x40000001 2 m in
      let u = write_control env 0x10 0x40000001 s in
      let f = write_control-Written env 0x10 0x40000001 s (omega arith) in
      let r = steps n u (ap (λ xs. length xs) f.keeps_data ∙ twelve) in
      let same : place n u ≡ place (suc n) m = place-suc n m u f.steps f.follows in
      record {
        final = r.final;
        gives =
            preceded step_request (pack_dmi 0x04 (place (suc n) m) 0) _ m u r.final
              (write_control_request env 0x40000001 m (omega arith))
              (subst
                (λ p.
                  Gives (replicate n step_request ++ dpc_requests) u r.final (pack_dmi 0x04 p 0))
                same r.gives);
        ran = r.ran ∙ ap (run n) f.steps;
      }

  -- A debugger steps the program: it writes `dmcontrol` with `resumereq` `n` times, and then asks for
  -- `dpc`. All these requests return, the processor has run `n` instructions, and the last answer is
  -- its program counter behind them, marked as a success; without any step it is what `dpc` held.
  -- The condition is that there are twelve data registers.
  pub exchange-steps :
      (n : ℕ) (m : DebugModule Cpu)
      → length m.abstract_data ≡ 12
      → (last : DebugModule Cpu) × (answers : List ℕ) × (exchange env
            (replicate n step_request ++ dpc_requests)
            m
          ≡ done (last, answers))
        × (last_of answers ≡ pack_dmi 0x04 (place n m) 0)
        × (last.cpu ≡ run n m.cpu)
  exchange-steps n m twelve =
      let r = steps n m twelve in
      (r.final, r.gives.first ∷ r.gives.answers, r.gives.exchanged, r.gives.last, r.ran)
