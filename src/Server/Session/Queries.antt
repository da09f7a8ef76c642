-- ===== src/Server/Session/Queries.antt =====
-- What a debugger sees of a processor that does not run: twelve words that it can write, and read;
-- the memory, the registers and `dpc`, which it can have copied into them; and the control word.
pub mod Refinement
use riscv_openocd_jtag_mock.Prelude.{
  ℕ, ◌+◌, ◌-◌, ◌%◌, ◌^◌, ◌<◌, Bool, true, false, ◌&&◌, ◌||◌, ◌==◌, leb, if◌then◌else◌, List, [],
  ◌∷◌, get_or, set,
}
use riscv_openocd_jtag_mock.Dmi.{pack_dmi}
use riscv_openocd_jtag_mock.DebugModule.Status.{debug_module_status}
use riscv_openocd_jtag_mock.DebugModule.Command.{misa}
use riscv_openocd_jtag_mock.Server.Session.Word.{read_word}
use riscv_openocd_jtag_mock.Server.Session.Block.{read_next}

-- Write a data register; read one; have a word of memory copied, with the increment or without; have
-- a register copied; ask for the control word; ask for the status.
pub data Query : Type 0 where
  put : ℕ → ℕ → Query
  get : ℕ → Query
  copy_word : Bool → Query
  copy_register : ℕ → Query
  control : Query
  status : Query

abbrev pub IsQuery : Query → Type 0
IsQuery (put i v) = (i < 12) × (v < 2 ^ 32)
IsQuery (get i) = i < 12
IsQuery (copy_word next) = Unit {0}
IsQuery (copy_register r) = r < 2 ^ 16
IsQuery control = Unit {0}
IsQuery status = Unit {0}

abbrev pub AreQueries : List Query → Type 0
AreQueries [] = Unit {0}
AreQueries (q ∷ qs) = IsQuery q × AreQueries qs

abbrev pub copy_command : Bool → ℕ
copy_command true = read_next
copy_command false = read_word

-- The request that asks for it.
abbrev pub request_of : Query → ℕ
request_of (put i v) = pack_dmi (4 + i) v 2
request_of (get i) = pack_dmi (4 + i) 0 1
request_of (copy_word next) = pack_dmi 0x17 (copy_command next) 2
request_of (copy_register r) = pack_dmi 0x17 (0x00220000 + r) 2
request_of control = pack_dmi 0x10 0 1
request_of status = pack_dmi 0x11 0 1

pub record View : Type 0 where
  pub words : List ℕ
  pub memory : ℕ → ℕ
  pub register : ℕ → ℕ
  pub dpc : ℕ
  pub control_word : ℕ
  pub pc : ℕ

-- The registers of the processor, `misa` and `dpc`; all other numbers are passed over.
abbrev pub is_readable : ℕ → Bool
is_readable r = leb 0x1000 r && leb r 0x101f || (r == 0x301 || r == 0x7b1)

abbrev pub value_of : ℕ → View → ℕ
value_of r v =
    if leb 0x1000 r && leb r 0x101f
    then v.register (r - 0x1000)
    else (if r == 0x301 then misa else v.dpc)

-- What a query does. The command word takes the place of the address where there is no increment.
unfoldable pub carried_out : Query → View → View
carried_out (put i w) v = record v { words = set v.words i w }
carried_out (get i) v = v
carried_out (copy_word next) v =
    let a = get_or v.words 1 0 in
    record v {
      words = set (set v.words 0 (v.memory a)) 1 (if next then (a + 4) % 2 ^ 64 else read_word);
    }
carried_out (copy_register r) v = record v {
  words = if is_readable r then set v.words 0 (value_of r v) else v.words;
}
carried_out control v = v
carried_out status v = v

-- What is told about it: what was asked for, or else the request itself.
abbrev pub told : Query → View → ℕ
told (get i) v = pack_dmi (4 + i) (get_or v.words i 0) 0
told control v = pack_dmi 0x10 v.control_word 0
told status v = pack_dmi 0x11 debug_module_status 0
told (put i w) v = request_of (put i w)
told (copy_word next) v = request_of (copy_word next)
told (copy_register r) v = request_of (copy_register r)

unfoldable pub all_carried_out : List Query → View → View
all_carried_out [] v = v
all_carried_out (q ∷ qs) v = all_carried_out qs (carried_out q v)

-- Each answer comes with the next request.
unfoldable pub all_told : ℕ → List Query → View → List ℕ
all_told before [] v = []
all_told before (q ∷ qs) v = before ∷ all_told (told q v) qs (carried_out q v)
