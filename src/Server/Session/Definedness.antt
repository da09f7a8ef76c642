-- ===== src/Server/Session/Definedness.antt =====
-- Which sequences of requests the debug module carries out to the end, if none of them reads memory.
use riscv_openocd_jtag_mock.Prelude.{
  ℕ, suc, ◌≡◌, ◌≢◌, ◌∙◌, inl, inr, arith, Bool, true, false, ◌&&◌, ◌||◌, ◌==◌, Bool-cases,
  if◌then◌else◌, List, [], ◌∷◌, length, Outcome, done, undefined, aborted, waiting, ◌>>=◌, Keeps,
  Keeps-map, Returns, Returns->>=, >>=-Returns, >>=-ext, ap, refl,
}
use riscv_openocd_jtag_mock.Cpu.{Environment, Segment}
use riscv_openocd_jtag_mock.DebugModule.Access.Fresh.{is_memory_read, with_fresh, IsKnown}
use riscv_openocd_jtag_mock.Dmi.{get_dmi_address, get_dmi_data, get_dmi_op, pack_dmi}
use riscv_openocd_jtag_mock.Dmi.Codec.{get_dmi_op-pack_dmi}
use riscv_openocd_jtag_mock.DebugModule.{DebugModule}
use riscv_openocd_jtag_mock.DebugModule.Command.Arguments.{
  command_type, size_field, increment_field,
}
use riscv_openocd_jtag_mock.DebugModule.Access.{access_register_at, dmi_request, update_dmi}
use riscv_openocd_jtag_mock.DebugModule.Access.Answer.{
  is_answered, Answered, access_register_at-Answered,
}
use riscv_openocd_jtag_mock.DebugModule.Access.Totality.{IsUndefinedRequest, update_dmi_total}
use riscv_openocd_jtag_mock.Server.Session.Requests.{exchange}

-- A write of `command` for an access to memory in bytes, with the increment.
abbrev pub is_undefined_request : ℕ → Bool
is_undefined_request r =
    let d = get_dmi_data r in
    get_dmi_address r == 0x17
    && (get_dmi_op r == 2 && (command_type d == 2 && (size_field d == 0 && increment_field d == 1)))

abbrev pub any_undefined : List ℕ → Bool
any_undefined [] = false
any_undefined (w ∷ ws) = is_undefined_request w || any_undefined ws

IsUndefinedRequest-test : (r : ℕ) → is_undefined_request r ≡ true → IsUndefinedRequest r
IsUndefinedRequest-test r h = record {
  to_command = ground (arith, h);
  writes = ground (arith, h);
  command = record {
    memory_type = ground (arith, h);
    byte_size = ground (arith, h);
    increments = ground (arith, h);
  };
}

is_undefined_request_complete : (r : ℕ) → IsUndefinedRequest r → is_undefined_request r ≡ true
is_undefined_request_complete r h = ground (arith, h)

-- A request that is undefined or that reads memory, and so may read from a new array.
abbrev is_special : ℕ → Bool
is_special r = is_undefined_request r || is_memory_read r

abbrev pub any_memory_read : List ℕ → Bool
any_memory_read [] = false
any_memory_read (w ∷ ws) = is_memory_read w || any_memory_read ws

-- An answer is no such request, nor is 0.
pub answer_ordinary : (a v : ℕ) → is_special (pack_dmi a v 0) ≡ false
answer_ordinary a v = ground (arith, get_dmi_op-pack_dmi a v 0)

zero_defined : is_undefined_request 0 ≡ false
unfolding get_dmi_address
zero_defined = refl

container_ordinary :
    (b : Bool) (a v r : ℕ)
    → is_special r ≡ false
    → is_special (if b then pack_dmi a v 0 else r) ≡ false
container_ordinary true a v r h = answer_ordinary a v
container_ordinary false a v r h = h

returns :
    {A : Type 0} (P : A → Type 0) (m : Outcome A)
    → Keeps P m
    → m ≢ aborted
    → m ≢ waiting
    → m ≢ undefined
    → Returns P m
returns P (done a) h x y z = h
returns P undefined h x y z = absurd (z refl)
returns P aborted h x y z = absurd (x refl)
returns P waiting h x y z = absurd (y refl)

module _ {Cpu : Type 0} (env : Environment Cpu) where
  abbrev IsOrdinary : DebugModule Cpu → Type 0
  IsOrdinary s = is_special s.dmi_container_register ≡ false

  dmi_request-IsOrdinary :
      (w : ℕ) (s : DebugModule Cpu)
      → is_special w ≡ false
      → IsOrdinary s
      → IsOrdinary (dmi_request w s)
  unfolding dmi_request
  dmi_request-IsOrdinary w s h k = ground (arith, h, k)

  dmi_request-IsKnown :
      (w : ℕ) (s : DebugModule Cpu)
      → is_memory_read w ≡ false
      → IsOrdinary s
      → IsKnown env (dmi_request w s)
  unfolding dmi_request
  dmi_request-IsKnown w s h k read = absurd (ground (arith, h, k, read))

  -- The request 0 is not undefined.
  replaced :
      (w : ℕ) (s : DebugModule Cpu)
      → is_undefined_request w ≡ true
      → is_undefined_request (dmi_request w s).dmi_container_register ≡ true
  unfolding dmi_request
  replaced w s h = elim (Bool-cases (w == 0)) [
    | inl zero_request ↦
        let e : w ≡ 0 = ground (arith, zero_request) in
        absurd (ground (arith, h, ap is_undefined_request e, zero_defined))
    | inr other ↦ rw other h
  ]

  update_dmi-IsOrdinary :
      (w : ℕ) (s : DebugModule Cpu)
      → is_special w ≡ false
      → IsOrdinary s
      → Keeps IsOrdinary (update_dmi env w s)
  unfolding update_dmi
  update_dmi-IsOrdinary w s h k =
      let t = dmi_request w s in
      let r = t.dmi_container_register in
      let a = get_dmi_address r in
      let d = get_dmi_data r in
      let o = get_dmi_op r in
      let ordinary = dmi_request-IsOrdinary w s h k in
      Keeps-map (Answered env a d o t) IsOrdinary (access_register_at env a d o t)
        (λ u x. ap is_special x.1 ∙ container_ordinary (is_answered a d o) a x.0 r ordinary)
        (access_register_at-Answered env a d o t)

  -- A request that reads no memory is undefined, or it returns, and what it leaves in the container
  -- can be asked for again.
  update_dmi_lem :
      (f : ℕ → Segment) (w : ℕ) (s : DebugModule Cpu)
      → is_memory_read w ≡ false
      → IsOrdinary s
      → (is_undefined_request w ≡ true → update_dmi env w s ≡ undefined)
        × (is_undefined_request w ≡ false → Returns IsOrdinary (update_dmi env w s))
        × (update_dmi (with_fresh env f) w s ≡ update_dmi env w s)
  update_dmi_lem f w s n k =
      let (no_abort, no_wait, exactly, same) =
        update_dmi_total env f w s (dmi_request-IsKnown w s n k) in
      (
        λ h.
            exactly.1
              (IsUndefinedRequest-test (dmi_request w s).dmi_container_register (replaced w s h)),
        λ h.
            let ordinary : is_special w ≡ false = ground (arith, h, n) in
            returns IsOrdinary (update_dmi env w s) (update_dmi-IsOrdinary w s ordinary k) no_abort
              no_wait
              (λ e. absurd (
                ground (
                  arith,
                  is_undefined_request_complete (dmi_request w s).dmi_container_register
                      (exactly.0 e),
                  dmi_request-IsOrdinary w s ordinary k,
                ))),
        same,
      )

  -- A sequence of requests that read no memory, from a container that holds no special one: it is
  -- undefined exactly if one of them is, and else it returns, with an answer for each; and it does the
  -- same whatever a new array contains.
  pub exchange_total :
      (f : ℕ → Segment) (ws : List ℕ) (s : DebugModule Cpu)
      → any_memory_read ws ≡ false
      → IsOrdinary s
      → (any_undefined ws ≡ true → exchange env ws s ≡ undefined)
        × (any_undefined ws ≡ false → Returns (λ x. length x.1 ≡ length ws) (exchange env ws s))
        × (exchange (with_fresh env f) ws s ≡ exchange env ws s)
  unfolding exchange
  exchange_total f [] s n k = (λ h. absurd (ground (arith, h)), λ h. refl, refl)
  exchange_total f (w ∷ ws) s n k =
      let (undoes, returns_once, same) = update_dmi_lem f w s (ground (arith, n)) k in
      let answered : List ℕ → List ℕ = λ x. s.dmi_container_register ∷ x in
      let last : DebugModule Cpu → Outcome (DebugModule Cpu × List ℕ) =
        λ m. exchange env ws m >>= λ x. done (x.0, answered x.1) in
      let other : DebugModule Cpu → Outcome (DebugModule Cpu × List ℕ) =
        λ m. exchange (with_fresh env f) ws m >>= λ x. done (x.0, answered x.1) in
      let rest = λ (m : DebugModule Cpu).
        λ (h : IsOrdinary m). exchange_total f ws m (ground (arith, n)) h in
      elim (Bool-cases (is_undefined_request w)) [
        | inl bad ↦ (
          λ h. rw (undoes bad),
          λ h. absurd (ground (arith, bad, h)),
          ap (λ o. o >>= other) (same ∙ undoes bad) ∙ rw (undoes bad),
        )
        | inr good ↦ (
          λ h.
              >>=-Returns IsOrdinary (update_dmi env w s) last undefined (returns_once good)
                (λ m ordinary. rw ((rest m ordinary).0 (ground (arith, good, h)))),
          λ h.
              Returns->>= IsOrdinary (λ x. length x.1 ≡ suc (length ws)) (update_dmi env w s) last
                (returns_once good)
                (λ m ordinary.
                  Returns->>= (λ x. length x.1 ≡ length ws) (λ x. length x.1 ≡ suc (length ws))
                    (exchange env ws m) (λ x. done (x.0, answered x.1))
                    ((rest m ordinary).1 (ground (arith, good, h))) (λ x e. ap suc e)),
          ap (λ o. o >>= other) same
              ∙ >>=-ext IsOrdinary (update_dmi env w s) other last
                  (update_dmi-IsOrdinary w s (ground (arith, good, n)) k)
                  (λ m ordinary. ap (λ o. o >>= λ x. done (x.0, answered x.1)) (rest m ordinary).2),
        )
      ]
