-- ===== src/DebugModule/Access/Storage.antt =====
-- The abstract data registers as the debugger sees them: a memory of twelve words.
use riscv_openocd_jtag_mock.Prelude.{
  ℕ, ◌+◌, ◌-◌, ◌^◌, ◌<◌, ◌≡◌, ◌∙◌, ap, arith, ◌==◌, if◌then◌else◌, length, get_or, set,
  get_or-set_self, get_or-set_ne, done, ◌>>=◌,
}
use riscv_openocd_jtag_mock.Cpu.{Environment}
use riscv_openocd_jtag_mock.Dmi.{pack_dmi}
use riscv_openocd_jtag_mock.DebugModule.State.{DebugModule}
use riscv_openocd_jtag_mock.DebugModule.Registers.{access_data}
use riscv_openocd_jtag_mock.DebugModule.Access.{access_register_at, update_dmi}
use riscv_openocd_jtag_mock.DebugModule.Access.Requests.{requested, update_dmi-pack_dmi}

module _ {Cpu : Type 0} (env : Environment Cpu) where
  access_data_at :
      (i d o : ℕ) (s : DebugModule Cpu)
      → i < 12
      → access_register_at env (4 + i) d o s ≡ done (access_data (4 + i) d o s)
  unfolding access_register_at
  access_data_at i d o s h = ground arith

  pub write_data :
      (i v : ℕ) (s : DebugModule Cpu)
      → i < 12
      → v < 2 ^ 32
      → update_dmi env (pack_dmi (4 + i) v 2) s
        ≡ done (record (requested (4 + i) v 2 s) { abstract_data = set s.abstract_data i v })
  unfolding access_data
  write_data i v s h small =
      update_dmi-pack_dmi env (4 + i) v 2 s (omega arith) small (omega arith) (omega arith)
      ∙ access_data_at i v 2 (requested (4 + i) v 2 s) h
      ∙ (let e : 4 + i - 4 ≡ i = omega arith in rw e)

  pub read_data :
      (j : ℕ) (s : DebugModule Cpu)
      → j < 12
      → update_dmi env (pack_dmi (4 + j) 0 1) s
        ≡ done (requested (4 + j) (get_or s.abstract_data j 0) 0 s)
  unfolding access_data
  read_data j s h =
      update_dmi-pack_dmi env (4 + j) 0 1 s (omega arith) (omega arith) (omega arith) (omega arith)
      ∙ access_data_at j 0 1 (requested (4 + j) 0 1 s) h
      ∙ (let e : 4 + j - 4 ≡ j = omega arith in rw e)

  -- A word written to one data register is what a read of that register answers next, and a read of
  -- any other register answers what stood there; both requests return, the answer is marked as a
  -- success, and only the written register and the answer have changed.
  pub data_write_read :
      (i j v : ℕ) (s : DebugModule Cpu)
      → i < 12
      → j < 12
      → v < 2 ^ 32
      → length s.abstract_data ≡ 12
      → (update_dmi env (pack_dmi (4 + i) v 2) s >>= update_dmi env (pack_dmi (4 + j) 0 1))
        ≡ done (record s {
          dmi_container_register =
              pack_dmi (4 + j) (if i == j then v else get_or s.abstract_data j 0) 0;
          abstract_data = set s.abstract_data i v;
        })
  data_write_read i j v s hi hj small twelve = rw (write_data i v s hi small) (
      read_data j _ hj
      ∙ ap
          (λ x. done (record s {
            dmi_container_register = pack_dmi (4 + j) x 0;
            abstract_data = set s.abstract_data i v;
          }))
          (ground (
            arith,
            get_or-set_self s.abstract_data i v 0 (omega arith),
            get_or-set_ne s.abstract_data i j v 0,
          )))
