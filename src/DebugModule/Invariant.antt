-- ===== src/DebugModule/Invariant.antt =====
-- What holds of the debug module between any two requests.
use riscv_openocd_jtag_mock.Prelude.{
  ℕ, ◌^◌, ◌<◌, ◌+◌, ◌-◌, ◌≡◌, ◌⊎◌, arith, length, length-set, Keeps, Keeps->>=, always-Keeps, done,
  ◌>>=◌,
}
use riscv_openocd_jtag_mock.Word.{u32, shr, ◌&&&◌}
use riscv_openocd_jtag_mock.Cpu.{Environment}
use riscv_openocd_jtag_mock.Dmi.{get_dmi_address, get_dmi_data, get_dmi_op}
use riscv_openocd_jtag_mock.Dmi.Codec.{pack_dmi-lt}
use riscv_openocd_jtag_mock.DebugModule.State.{DmControl, DebugModule}
use riscv_openocd_jtag_mock.DebugModule.Control.{
  debug_module_control, parse_control, answer_control, single_step, write_control, access_control,
}
use riscv_openocd_jtag_mock.DebugModule.Control.Fields.{IsControl, parse_control-IsControl}
use riscv_openocd_jtag_mock.DebugModule.Status.{debug_module_status, access_status, access_hartinfo}
use riscv_openocd_jtag_mock.DebugModule.Registers.{abstractcs_word, access_data, access_abstractcs}
use riscv_openocd_jtag_mock.DebugModule.Command.{
  misa, put_data, put_cmderr, check_aarsize, read_command, access_register, write_arguments,
  read_arguments, read_memory, access_arguments, next_dmi_data, access_memory, write_command,
  access_command, segment_address_of, ensure_segment,
}
use riscv_openocd_jtag_mock.DebugModule.Command.Memory.{memory, read_memory_lem}
use riscv_openocd_jtag_mock.DebugModule.Access.{access_register_at, dmi_request, update_dmi}

-- The container holds 41 bits and the variables of `dmcontrol` fit their fields; there are twelve
-- data registers. Of the variables of `abstractcs` only `cmderr` is ever set, to 2 at most.
pub record IsModule {Cpu : Type 0} (s : DebugModule Cpu) : Type 0 where
  pub container_fits : s.dmi_container_register < 2 ^ 41
  pub control_fits : IsControl s.control
  pub twelve : length s.abstract_data ≡ 12
  pub no_progbuf : s.abstractcs.progbufsize ≡ 0
  pub not_busy : s.abstractcs.busy ≡ 0
  pub not_relaxed : s.abstractcs.relaxedpriv ≡ 0
  pub no_datacount : s.abstractcs.datacount ≡ 0
  pub error_code : (s.abstractcs.cmderr ≡ 0) ⊎ (s.abstractcs.cmderr ≡ 2)

module _ {Cpu : Type 0} (env : Environment Cpu) where
  access_data-IsModule :
      (a d o : ℕ) (s : DebugModule Cpu) → IsModule s → IsModule (access_data a d o s)
  unfolding access_data
  access_data-IsModule a d o s h = grind (arith, pack_dmi-lt, length-set)

  answer_control-IsModule :
      (a : ℕ) (s : DebugModule Cpu) → IsModule s → IsModule (answer_control env a s)
  unfolding answer_control
  answer_control-IsModule a s h = ground (arith, pack_dmi-lt a (debug_module_control s.control) 0)

  single_step-IsModule : (s : DebugModule Cpu) → IsModule s → IsModule (single_step env s)
  unfolding single_step
  single_step-IsModule s h = ground arith

  single_step-control : (s : DebugModule Cpu) → (single_step env s).control ≡ s.control
  unfolding single_step
  single_step-control s = ground arith

  select :
      (c : DmControl)
      → IsControl c
      → IsControl (record c { hartsello = 0; hartselhi = 0; dmactive = 1 })
  select c h = ground arith

  activate : (c : DmControl) → IsControl c → IsControl (record c { dmactive = 1 })
  activate c h = ground arith

  set_control-IsModule :
      (c : DmControl) (s : DebugModule Cpu)
      → IsModule s
      → IsControl c
      → IsModule (record s { control = c })
  set_control-IsModule c s h k = ground arith

  write_control-IsModule :
      (a d : ℕ) (s : DebugModule Cpu) → IsModule s → IsModule (write_control env a d s)
  unfolding write_control
  write_control-IsModule a d s h =
      let c = parse_control d in
      let k = parse_control-IsControl d in
      let t = single_step env (record s { control = c }) in
      let m = single_step-IsModule (record s { control = c }) (set_control-IsModule c s h k) in
      ground (
        arith,
        m,
        answer_control-IsModule a (record t { control = record c { dmactive = 1 } })
            (set_control-IsModule (record c { dmactive = 1 }) t m (activate c k)),
        answer_control-IsModule a
            (record t { control = record c { dmactive = 1; hartsello = 0; hartselhi = 0 } })
            (set_control-IsModule (record c { dmactive = 1; hartsello = 0; hartselhi = 0 }) t m
              (select c k)),
      )

  access_control-IsModule :
      (a d o : ℕ) (s : DebugModule Cpu) → IsModule s → IsModule (access_control env a d o s)
  unfolding access_control
  access_control-IsModule a d o s h =
      ground (arith, answer_control-IsModule a s h, write_control-IsModule a d s h)

  access_status-IsModule : (a : ℕ) (s : DebugModule Cpu) → IsModule s → IsModule (access_status a s)
  unfolding access_status
  access_status-IsModule a s h = ground (arith, pack_dmi-lt a debug_module_status 0)

  access_hartinfo-IsModule :
      (a o : ℕ) (s : DebugModule Cpu) → IsModule s → IsModule (access_hartinfo a o s)
  unfolding access_hartinfo
  access_hartinfo-IsModule a o s h = ground (arith, pack_dmi-lt a 0 0)

  access_abstractcs-IsModule :
      (a o : ℕ) (s : DebugModule Cpu) → IsModule s → IsModule (access_abstractcs a o s)
  unfolding access_abstractcs
  access_abstractcs-IsModule a o s h =
      ground (arith, pack_dmi-lt a (abstractcs_word s.abstractcs) 0)

  put_data-IsModule : (i v : ℕ) (s : DebugModule Cpu) → IsModule s → IsModule (put_data s i v)
  put_data-IsModule i v s h = ground (arith, length-set s.abstract_data i v)

  check_aarsize-IsModule : (n : ℕ) (s : DebugModule Cpu) → IsModule s → IsModule (check_aarsize n s)
  unfolding check_aarsize
  check_aarsize-IsModule n s h = ground arith

  access_register-IsModule :
      (c : ℕ) (s : DebugModule Cpu) → IsModule s → IsModule (access_register env c s)
  unfolding access_register
  access_register-IsModule c s h =
      let n = shr c 20 &&& 0b111 in
      let t = check_aarsize n s in
      let m = check_aarsize-IsModule n s h in
      let regno = u32 ((shr c 0 &&& 0xFFFF) + 2 ^ 32 - 0x1000) in
      ground (
        arith,
        m,
        put_data-IsModule 0 (env.reg t.cpu regno) t m,
        put_data-IsModule 0 misa t m,
        put_data-IsModule 0 t.dpc t m,
      )

  set_cpu-IsModule : (c : Cpu) (s : DebugModule Cpu) → IsModule s → IsModule (record s { cpu = c })
  set_cpu-IsModule c s h = ground arith

  read_memory-Keeps : (s : DebugModule Cpu) → IsModule s → Keeps IsModule (read_memory env s)
  read_memory-Keeps s h =
      let c = ensure_segment env (segment_address_of s.arg1) s.cpu in
      rw (read_memory_lem env s) (
        put_data-IsModule 0 (memory env s.cpu s.arg1) (record s { cpu = c })
          (set_cpu-IsModule c s h))

  read_arguments-IsModule :
      (n : ℕ) (s : DebugModule Cpu) → IsModule s → IsModule (read_arguments env n s)
  unfolding read_arguments
  read_arguments-IsModule n s h = ground arith

  write_arguments-IsModule :
      (n : ℕ) (s : DebugModule Cpu) → IsModule s → IsModule (write_arguments env n s)
  unfolding write_arguments
  write_arguments-IsModule n s h = ground arith

  access_arguments-Keeps :
      (d : ℕ) (s : DebugModule Cpu) → IsModule s → Keeps IsModule (access_arguments env d s)
  unfolding access_arguments
  access_arguments-Keeps d s h =
      let n = shr d 20 &&& 0b111 in
      ground (
        arith,
        read_memory-Keeps (read_arguments env n s) (read_arguments-IsModule n s h),
        write_arguments-IsModule n s h,
      )

  access_memory-Keeps :
      (d : ℕ) (s : DebugModule Cpu) → IsModule s → Keeps IsModule (access_memory env d s)
  unfolding access_memory
  access_memory-Keeps d s h =
      Keeps->>= IsModule IsModule (access_arguments env d s)
        (λ t. next_dmi_data env d t.arg1 >>= λ v. done (put_data t 1 v))
        (access_arguments-Keeps d s h)
        (λ t k.
          always-Keeps IsModule (put_data t 1) (next_dmi_data env d t.arg1)
            (λ v. put_data-IsModule 1 v t k))

  clear-IsModule : (s : DebugModule Cpu) → IsModule s → IsModule (put_cmderr s 0)
  clear-IsModule s h = ground arith

  write_command-Keeps :
      (d : ℕ) (s : DebugModule Cpu) → IsModule s → Keeps IsModule (write_command env d s)
  unfolding write_command
  write_command-Keeps d s h =
      let t = put_cmderr s 0 in
      let k = clear-IsModule s h in
      ground
        (arith, k, access_register-IsModule (shr d 0 &&& 0xFFFFFF) t k, access_memory-Keeps d t k)

  access_command-Keeps :
      (d o : ℕ) (s : DebugModule Cpu) → IsModule s → Keeps IsModule (access_command env d o s)
  unfolding access_command read_command
  access_command-Keeps d o s h =
      ground (arith, write_command-Keeps d s h, put_data-IsModule 0 misa s h)

  access_register_at-Keeps :
      (a d o : ℕ) (s : DebugModule Cpu)
      → IsModule s
      → Keeps IsModule (access_register_at env a d o s)
  unfolding access_register_at
  access_register_at-Keeps a d o s h = ground (
    arith,
    access_data-IsModule a d o s h,
    access_control-IsModule a d o s h,
    access_status-IsModule a s h,
    access_hartinfo-IsModule a o s h,
    access_abstractcs-IsModule a o s h,
    access_command-Keeps d o s h,
  )

  dmi_request-IsModule :
      (w : ℕ) (s : DebugModule Cpu) → w < 2 ^ 41 → IsModule s → IsModule (dmi_request w s)
  unfolding dmi_request
  dmi_request-IsModule w s small h = ground arith

  -- A request of 41 bits leaves the debug module well formed, if it returns: the answer fits the
  -- 41 bits of the shift register, each variable of `dmcontrol` fits its field, there are still
  -- twelve data registers, and of the variables of `abstractcs` only `cmderr` is ever set, to 2.
  pub update_dmi-Keeps :
      (w : ℕ) (s : DebugModule Cpu) → w < 2 ^ 41 → IsModule s → Keeps IsModule (update_dmi env w s)
  unfolding update_dmi
  update_dmi-Keeps w s small h =
      let t = dmi_request w s in
      let r = t.dmi_container_register in
      access_register_at-Keeps (get_dmi_address r) (get_dmi_data r) (get_dmi_op r) t
        (dmi_request-IsModule w s small h)
