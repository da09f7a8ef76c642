-- ===== src/Prelude/Outcomes.antt =====
-- How a C++ call can end, and the chain of calls.
use mathlib.Core.Path.{◌≡◌, refl}

pub data Outcome {ℓ} (A : Type ℓ) : Type ℓ where
  -- It returns.
  done : A → Outcome A
  -- It runs into an expression whose behaviour C++ leaves undefined.
  undefined : Outcome A
  -- It calls `abort()`.
  aborted : Outcome A
  -- It is still polling a socket when the given socket events are used up.
  waiting : Outcome A

infixl 5 ◌>>=◌
abbrev pub ◌>>=◌ {ℓ κ} : {A : Type ℓ} {B : Type κ} → Outcome A → (A → Outcome B) → Outcome B
done a >>= f = f a
undefined >>= f = undefined
aborted >>= f = aborted
waiting >>= f = waiting

-- The call returns, and what it returns satisfies `P`.
abbrev pub Returns {ℓ} : {A : Type ℓ} → (A → Type 0) → Outcome A → Type 0
Returns P (done a) = P a
Returns P undefined = ⊥
Returns P aborted = ⊥
Returns P waiting = ⊥

pub Returns->>= {ℓ κ} :
    {A : Type ℓ} {B : Type κ} (P : A → Type 0) (Q : B → Type 0) (m : Outcome A) (f : A → Outcome B)
    → Returns P m
    → ((a : A) → P a → Returns Q (f a))
    → Returns Q (m >>= f)
Returns->>= P Q (done a) f h k = k a h
Returns->>= P Q undefined f h k = absurd h
Returns->>= P Q aborted f h k = absurd h
Returns->>= P Q waiting f h k = absurd h

pub Returns-map {ℓ} :
    {A : Type ℓ} (P Q : A → Type 0) (m : Outcome A)
    → ((a : A) → P a → Q a)
    → Returns P m
    → Returns Q m
Returns-map P Q (done a) f h = f a h
Returns-map P Q undefined f h = absurd h
Returns-map P Q aborted f h = absurd h
Returns-map P Q waiting f h = absurd h

-- If the call returns, its result satisfies `P`.
abbrev pub Keeps : {A : Type 0} → (A → Type 0) → Outcome A → Type 0
Keeps P (done a) = P a
Keeps P undefined = Unit {0}
Keeps P aborted = Unit {0}
Keeps P waiting = Unit {0}

pub Keeps->>= :
    {A B : Type 0} (P : A → Type 0) (Q : B → Type 0) (m : Outcome A) (f : A → Outcome B)
    → Keeps P m
    → ((a : A) → P a → Keeps Q (f a))
    → Keeps Q (m >>= f)
Keeps->>= P Q (done a) f p q = q a p
Keeps->>= P Q undefined f p q = tt
Keeps->>= P Q aborted f p q = tt
Keeps->>= P Q waiting f p q = tt

-- A step of which nothing is asked.
pub step-Keeps :
    {A B : Type 0} (Q : B → Type 0) (m : Outcome A) (f : A → Outcome B)
    → ((a : A) → Keeps Q (f a))
    → Keeps Q (m >>= f)
step-Keeps Q (done a) f q = q a
step-Keeps Q undefined f q = tt
step-Keeps Q aborted f q = tt
step-Keeps Q waiting f q = tt

-- A step that cannot break `P`, whatever it is given.
pub always-Keeps :
    {A B : Type 0} (P : B → Type 0) (f : A → B) (m : Outcome A)
    → ((a : A) → P (f a))
    → Keeps P (m >>= λ a. done (f a))
always-Keeps P f (done a) p = p a
always-Keeps P f undefined p = tt
always-Keeps P f aborted p = tt
always-Keeps P f waiting p = tt

pub >>=-assoc :
    {A B C : Type 0} (m : Outcome A) (f : A → Outcome B) (g : B → Outcome C)
    → (m >>= f >>= g) ≡ (m >>= λ a. f a >>= g)
>>=-assoc (done a) f g = refl
>>=-assoc undefined f g = refl
>>=-assoc aborted f g = refl
>>=-assoc waiting f g = refl

-- Two chains agree if they agree on what the first call can return.
pub >>=-ext :
    {A B : Type 0} (P : A → Type 0) (m : Outcome A) (f g : A → Outcome B)
    → Keeps P m
    → ((a : A) → P a → f a ≡ g a)
    → (m >>= f) ≡ (m >>= g)
>>=-ext P (done a) f g h k = k a h
>>=-ext P undefined f g h k = refl
>>=-ext P aborted f g h k = refl
>>=-ext P waiting f g h k = refl

pub Keeps-of :
    {A : Type 0} (P : A → Type 0) (m : Outcome A) → ((a : A) → m ≡ done a → P a) → Keeps P m
Keeps-of P (done a) h = h a refl
Keeps-of P undefined h = tt
Keeps-of P aborted h = tt
Keeps-of P waiting h = tt

-- A chain whose first call returns, and that ends the same way whatever it returns.
pub >>=-Returns {ℓ κ} :
    {A : Type ℓ} {B : Type κ} (P : A → Type 0) (m : Outcome A) (f : A → Outcome B) (end : Outcome B)
    → Returns P m
    → ((a : A) → P a → f a ≡ end)
    → (m >>= f) ≡ end
>>=-Returns P (done a) f end h k = k a h
>>=-Returns P undefined f end h k = absurd h
>>=-Returns P aborted f end h k = absurd h
>>=-Returns P waiting f end h k = absurd h

pub Keeps-map :
    {A : Type 0} (P Q : A → Type 0) (m : Outcome A) → ((a : A) → P a → Q a) → Keeps P m → Keeps Q m
Keeps-map P Q (done a) f h = f a h
Keeps-map P Q undefined f h = tt
Keeps-map P Q aborted f h = tt
Keeps-map P Q waiting f h = tt

pub >>=-done {ℓ} : {A : Type ℓ} (m : Outcome A) → (m >>= done) ≡ m
>>=-done (done a) = refl
>>=-done undefined = refl
>>=-done aborted = refl
>>=-done waiting = refl
