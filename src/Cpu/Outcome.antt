-- ===== src/Cpu/Outcome.antt =====
-- What running an instruction comes to: a new state, an access to guest memory that is not mapped,
-- at which libcpu/src/mem.cpp calls the fault handler, or code that is not modelled.
use switch_emu_pub.Base.{◌≡◌, refl}

pub data Outcome {ℓ} (A : Type ℓ) : Type ℓ where
  done : A → Outcome A
  fault : Outcome A
  outside : Outcome A

infixl 5 ◌>>=◌
abbrev pub ◌>>=◌ {ℓ κ} : {A : Type ℓ} {B : Type κ} → Outcome A → (A → Outcome B) → Outcome B
done a >>= f = f a
fault >>= f = fault
outside >>= f = outside

-- The result, where there is one, has the property.
abbrev pub Ensures {ℓ κ} : {A : Type ℓ} → (A → Type κ) → Outcome A → Type κ
Ensures P (done a) = P a
Ensures P fault = Unit
Ensures P outside = Unit

pub Ensures-bind {ℓ κ} :
    {A B : Type ℓ} (P : A → Type κ) (Q : B → Type κ) (r : Outcome A) (f : A → Outcome B)
    → Ensures P r
    → ((a : A) → P a → Ensures Q (f a))
    → Ensures Q (r >>= f)
Ensures-bind P Q (done a) f p h = h a p
Ensures-bind P Q fault f p h = tt
Ensures-bind P Q outside f p h = tt

pub done_inj {ℓ} : {A : Type ℓ} (a b : A) → done b ≡ done a → a ≡ b
done_inj a b h = cc

pub Ensures-done {ℓ κ} :
    {A : Type ℓ} (P : A → Type κ) (r : Outcome A) (a : A) → Ensures P r → r ≡ done a → P a
Ensures-done P (done b) a p e = rw (done_inj a b e) p
Ensures-done P fault a p e = cc
Ensures-done P outside a p e = cc

-- A sequence that returns has returned from its first part.
pub bind_done {ℓ κ} :
    {A : Type ℓ} {B : Type κ} (r : Outcome A) (f : A → Outcome B) (b : B)
    → (r >>= f) ≡ done b
    → (a : A) × (r ≡ done a) × (f a ≡ done b)
bind_done (done a) f b e = (a, refl, e)
bind_done fault f b e = cc
bind_done outside f b e = cc

pub bind_run {ℓ κ} :
    {A : Type ℓ} {B : Type κ} (r : Outcome A) (f : A → Outcome B) (a : A) (b : B)
    → r ≡ done a
    → f a ≡ done b
    → (r >>= f) ≡ done b
bind_run r f a b e h = rw e h
