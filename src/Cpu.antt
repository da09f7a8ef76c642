-- ===== src/Cpu.antt =====
-- What remote_bitbang.cpp uses of `cpu_t` and `cpu_step()`, which come from the git submodule
-- riscv_assembler, and of the heap. The submodule is not part of the repository's own files, so all
-- of it is an argument here.
use riscv_openocd_jtag_mock.Prelude.{
  ℕ, ◌≡◌, refl, List, [], ◌∷◌, Option, none, some, ◌==◌, if◌then◌else◌,
}

-- `std::map<uint32_t, uint32_t*>`: base addresses, each with the 16384 words of its segment.
abbrev pub Segment : Type 0
Segment = ℕ → ℕ

abbrev pub Segments : Type 0
Segments = List (ℕ × Segment)

-- `find`, and `insert` of a key that is not there.
unfoldable pub find_segment : ℕ → Segments → Option Segment
find_segment k [] = none
find_segment k ((j, w) ∷ m) = if j == k then some w else find_segment k m

unfoldable pub insert_segment : ℕ → Segment → Segments → Segments
insert_segment k w m = (k, w) ∷ m

pub find_segment-insert_segment :
    (k j : ℕ) (w : Segment) (m : Segments)
    → find_segment j (insert_segment k w m) ≡ (if k == j then some w else find_segment j m)
unfolding find_segment insert_segment
find_segment-insert_segment k j w m = refl

-- The fields of `cpu_t` that the code reads or writes behave as fields do: `segments` gives back
-- what was put there, and writing it changes no other field. `cpu_step()` is taken to return.
pub record Environment (Cpu : Type 0) : Type 0 where
  pub cpu_step : Cpu → Cpu
  pub pc : Cpu → ℕ
  pub reg : Cpu → ℕ → ℕ
  pub segments : Cpu → Segments
  pub with_segments : Cpu → Segments → Cpu
  -- The content of an array fresh from `new uint32_t[16384]`, for each segment: C++ gives the
  -- elements no value, and to read one is undefined there.
  pub fresh : ℕ → Segment
  pub segments_put : (c : Cpu) (m : Segments) → segments (with_segments c m) ≡ m
  pub pc_put : (c : Cpu) (m : Segments) → pc (with_segments c m) ≡ pc c
  pub reg_put : (c : Cpu) (m : Segments) (i : ℕ) → reg (with_segments c m) i ≡ reg c i
