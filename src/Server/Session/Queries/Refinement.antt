-- ===== src/Server/Session/Queries/Refinement.antt =====
-- The debug module does what the queries mean.
use riscv_openocd_jtag_mock.Prelude.{
  ℕ, ◌+◌, ◌/◌, ◌%◌, ◌^◌, ◌<◌, ◌≡◌, refl, ap, ◌∙◌, arith, Bool, true, false, if◌then◌else◌, List, [],
  ◌∷◌, map, length, get_or, set, length-set, done,
}
use riscv_openocd_jtag_mock.Word.{bit_and-mod}
use riscv_openocd_jtag_mock.Cpu.{Environment}
use riscv_openocd_jtag_mock.DebugModule.{DebugModule}
use riscv_openocd_jtag_mock.DebugModule.Control.{debug_module_control}
use riscv_openocd_jtag_mock.DebugModule.Access.Selection.{read_control_request}
use riscv_openocd_jtag_mock.DebugModule.Status.{debug_module_status, access_status}
use riscv_openocd_jtag_mock.DebugModule.Command.Arguments.{
  command_type, write_field, write_field-mod,
}
use riscv_openocd_jtag_mock.DebugModule.Command.Memory.{
  memory, word_read, write_command_read, word_read-WordRead,
}
use riscv_openocd_jtag_mock.DebugModule.Command.Registers.{register_number}
use riscv_openocd_jtag_mock.DebugModule.Access.{access_register_at, update_dmi}
use riscv_openocd_jtag_mock.DebugModule.Access.Requests.{requested, update_dmi-pack_dmi}
use riscv_openocd_jtag_mock.DebugModule.Access.Storage.{write_data, read_data}
use riscv_openocd_jtag_mock.DebugModule.Access.Pending as Pending
use riscv_openocd_jtag_mock.DebugModule.Access.Execution.{commanded, command_request}
use riscv_openocd_jtag_mock.Server.Session.Requests.{exchange}
use riscv_openocd_jtag_mock.Server.Session.Word.{read_word}
use riscv_openocd_jtag_mock.Server.Session.Block.{read_next}
use riscv_openocd_jtag_mock.Server.Session.Queries.{
  Query, put, get, copy_word, copy_register, control, status, IsQuery, AreQueries, request_of, View,
  carried_out, told, is_readable, value_of, all_carried_out, all_told,
}

carried_out-words : (q : Query) (v : View) → length (carried_out q v).words ≡ length v.words
unfolding carried_out
carried_out-words (put i w) v = length-set v.words i w
carried_out-words (get i) v = refl
carried_out-words (copy_word next) v =
    let a = get_or v.words 1 0 in
    length-set (set v.words 0 (v.memory a)) 1 (if next then (a + 4) % 2 ^ 64 else read_word)
    ∙ length-set v.words 0 (v.memory a)
carried_out-words (copy_register r) v = grind (arith, length-set)
carried_out-words control v = refl
carried_out-words status v = refl

module _ {Cpu : Type 0} (env : Environment Cpu) where
  -- What is seen of the debug module and its processor.
  unfoldable pub view_of : DebugModule Cpu → View
  view_of m = record {
    words = m.abstract_data;
    memory = memory env m.cpu;
    register = env.reg m.cpu;
    dpc = m.dpc;
    control_word = debug_module_control m.control;
    pc = env.pc m.cpu;
  }

  -- A query is carried out by its request.
  record Answers (q : Query) (m : DebugModule Cpu) : Type 0 where
    after : DebugModule Cpu
    returns : update_dmi env (request_of q) m ≡ done after
    answer : after.dmi_container_register ≡ told q (view_of m)
    seen : view_of after ≡ carried_out q (view_of m)

  copies_word :
      (next : Bool) (m : DebugModule Cpu) → length m.abstract_data ≡ 12 → Answers (copy_word next) m
  unfolding view_of carried_out
  copies_word true m twelve =
      let m1 = requested 0x17 read_next 2 m in
      let t = word_read env read_next m1 in
      let r = word_read-WordRead env read_next m1 twelve in
      record {
        after = t;
        returns =
            Pending.command_request env read_next m (omega arith)
            ∙ write_command_read env read_next m1 refl refl refl;
        answer = refl;
        seen = λ i. record {
          words = t.abstract_data;
          memory = λ b. r.same_memory b i;
          register = λ j. r.same_registers j i;
          dpc = m.dpc;
          control_word = debug_module_control m.control;
          pc = r.same_pc i;
        };
      }
  copies_word false m twelve =
      let m1 = requested 0x17 read_word 2 m in
      let t = word_read env read_word m1 in
      let r = word_read-WordRead env read_word m1 twelve in
      record {
        after = t;
        returns =
            Pending.command_request env read_word m (omega arith)
            ∙ write_command_read env read_word m1 refl refl refl;
        answer = refl;
        seen = λ i. record {
          words = t.abstract_data;
          memory = λ b. r.same_memory b i;
          register = λ j. r.same_registers j i;
          dpc = m.dpc;
          control_word = debug_module_control m.control;
          pc = r.same_pc i;
        };
      }

  copies_register : (r : ℕ) (m : DebugModule Cpu) → r < 2 ^ 16 → Answers (copy_register r) m
  unfolding view_of carried_out
  copies_register r m small =
      let w = 0x00220000 + r in
      let t = commanded env w m in
      let type : command_type w ≡ 0 = omega (arith, bit_and-mod 8 (w / 2 ^ 24)) in
      let reads : write_field w ≡ 0 = omega (arith, write_field-mod w) in
      let number : register_number w ≡ r = omega arith in
      let words : t.abstract_data ≡ (
          if is_readable r
          then set m.abstract_data 0 (value_of r (view_of m))
          else m.abstract_data) =
        rw (reads, number) (ground arith) in
      record {
        after = t;
        returns = command_request env w m (omega arith) type;
        answer = refl;
        seen = λ i. record {
          words = words i;
          memory = memory env m.cpu;
          register = env.reg m.cpu;
          dpc = m.dpc;
          control_word = debug_module_control m.control;
          pc = env.pc m.cpu;
        };
      }

  tells_control : (m : DebugModule Cpu) → Answers control m
  unfolding view_of carried_out
  tells_control m = record {
    after = requested 0x10 (debug_module_control m.control) 0 m;
    returns = read_control_request env m;
    answer = refl;
    seen = refl;
  }

  tells_status : (m : DebugModule Cpu) → Answers status m
  unfolding view_of carried_out access_register_at access_status
  tells_status m = record {
    after = requested 0x11 debug_module_status 0 m;
    returns =
        update_dmi-pack_dmi env 0x11 0 1 m (omega arith) (omega arith) (omega arith) (omega arith);
    answer = refl;
    seen = refl;
  }

  answers :
      (q : Query) (m : DebugModule Cpu) → IsQuery q → length m.abstract_data ≡ 12 → Answers q m
  unfolding view_of carried_out
  answers (put i v) m h twelve = record {
    after = record (requested (4 + i) v 2 m) { abstract_data = set m.abstract_data i v };
    returns = write_data env i v m h.0 h.1;
    answer = refl;
    seen = refl;
  }
  answers (get i) m h twelve = record {
    after = requested (4 + i) (get_or m.abstract_data i 0) 0 m;
    returns = read_data env i m h;
    answer = refl;
    seen = refl;
  }
  answers (copy_word next) m h twelve = copies_word next m twelve
  answers (copy_register r) m h twelve = copies_register r m h
  answers control m h twelve = tells_control m
  answers status m h twelve = tells_status m

  -- A sequence of queries is carried out by its requests: they return, the answers are those that the
  -- queries mean, each with the next request, and so is what is seen afterwards of the data
  -- registers, the memory, the registers of the processor, `dpc`, the control word and the program
  -- counter. The condition is that there are
  -- twelve data registers, and that the queries name data registers that are there, words of 32
  -- bits and registers of 16 bits.
  pub exchange_refines_queries :
      (qs : List Query) (m : DebugModule Cpu)
      → AreQueries qs
      → length m.abstract_data ≡ 12
      → (last : DebugModule Cpu) × (exchange env (map request_of qs) m
          ≡ done (last, all_told m.dmi_container_register qs (view_of m)))
        × (view_of last ≡ all_carried_out qs (view_of m))
  unfolding exchange all_told all_carried_out view_of
  exchange_refines_queries [] m h twelve = (m, refl, refl)
  exchange_refines_queries (q ∷ qs) m h twelve =
      let a = answers q m h.0 twelve in
      let more = ap (λ v. length v.words) a.seen ∙ carried_out-words q (view_of m) ∙ twelve in
      let (last, runs, sees) = exchange_refines_queries qs a.after h.1 more in
      (
        last,
        rw a.returns (
            rw runs
              λ i. done (last, m.dmi_container_register ∷ all_told (a.answer i) qs (a.seen i))),
        sees ∙ ap (all_carried_out qs) a.seen,
      )
