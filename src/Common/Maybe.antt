-- ===== src/Common/Maybe.antt =====
-- A chain of steps where each may find nothing.
use github_delivery_intellig.Common.{◌≡◌, refl, Option, none, some, Bool, if◌then◌else◌}

infixl 5 ◌>>=◌ ◌>>◌
abbrev pub ◌>>=◌ {ℓ κ} : {A : Type ℓ} {B : Type κ} → Option A → (A → Option B) → Option B
none >>= f = none
some a >>= f = f a

abbrev pub ◌>>◌ {κ} : {B : Type κ} → Option (Unit {0}) → Option B → Option B
m >> k = m >>= λ _. k

abbrev pub only_if : Bool → Option (Unit {0})
only_if b = if b then some tt else none

-- Inversion of a bind, with the rest of the proof as the last argument.
pub bound {ℓ κ μ} :
    {A : Type ℓ} {B : Type κ} {P : Type μ} (m : Option A) (f : A → Option B) {b : B}
    → (m >>= f) ≡ some b
    → ((a : A) → m ≡ some a → f a ≡ some b → P)
    → P
bound none f h k = absurd (cc)
bound (some a) f h k = k a refl h
