-- ===== src/Common/Result.antt =====
-- Python functions that may raise: the value or the exception. `Action` is a method over a state
-- that others can see: what was written before a raise stays written.
use github_delivery_intellig.Common.{
  ◌≡◌, refl, ◌⊎◌, inl, inr, Bool, Option, none, some, if◌then◌else◌,
}

pub data Result {ℓ κ} (E : Type κ) (A : Type ℓ) : Type (ℓ ⊔ κ) where
  ok : A → Result E A
  raise : E → Result E A

infixl 5 ◌>>=◌ ◌>>◌
abbrev pub ◌>>=◌ {ℓ κ μ} :
    {E : Type κ} {A : Type ℓ} {B : Type μ} → Result E A → (A → Result E B) → Result E B
ok a >>= f = f a
raise e >>= f = raise e

abbrev pub ◌>>◌ {κ μ} : {E : Type κ} {B : Type μ} → Result E (Unit {0}) → Result E B → Result E B
m >> k = m >>= λ _. k

-- `if bad: raise e`
abbrev pub refuse_if {κ} : {E : Type κ} → Bool → E → Result E (Unit {0})
refuse_if bad e = if bad then raise e else ok tt

-- `if value is None: raise e`
abbrev pub require {ℓ κ} : {E : Type κ} {A : Type ℓ} → Option A → E → Result E A
require none e = raise e
require (some a) e = ok a

-- To split on a call and keep the equation.
pub Result-cases {ℓ κ} :
    {E : Type κ} {A : Type ℓ} (r : Result E A) → ((a : A) × (r ≡ ok a)) ⊎ ((e : E) × (r ≡ raise e))
Result-cases (ok a) = inl (a, refl)
Result-cases (raise e) = inr (e, refl)

-- The value of a call that returns.
abbrev pub value_or {ℓ κ} : {E : Type κ} {A : Type ℓ} → A → Result E A → A
value_or d (ok a) = a
value_or d (raise e) = d

-- Inversion of a bind that returns, with the rest of the proof as the last argument.
pub bound {ℓ κ μ ν} :
    {E : Type κ} {A : Type ℓ} {B : Type μ} {P : Type ν} (m : Result E A) (f : A → Result E B)
    {b : B}
    → (m >>= f) ≡ ok b
    → ((a : A) → m ≡ ok a → f a ≡ ok b → P)
    → P
bound (ok a) f h k = k a refl h
bound (raise e) f h k = absurd (cc)
