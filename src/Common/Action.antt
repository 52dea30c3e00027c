-- ===== src/Common/Action.antt =====
-- Python methods that change state which others can see and that may raise: what was written
-- before a raise stays written.
use github_delivery_intellig.Common.{◌≡◌, ◌≢◌, refl, ap, inl, inr, arith}
use github_delivery_intellig.Common.Result.{Result, ok, raise, Result-cases}

abbrev pub Action {ℓ κ μ} : Type κ → Type μ → Type ℓ → Type (ℓ ⊔ κ ⊔ μ)
Action E S A = S → Result E A × S

module _ {ℓ κ μ} {E : Type κ} {S : Type μ} {A : Type ℓ} where
  abbrev pub pure : A → Action E S A
  pure a s = (ok a, s)

  abbrev pub lift : Result E A → Action E S A
  lift r s = (r, s)

infixl 5 ◌>>=◌ ◌>>◌
abbrev pub ◌>>=◌ {ℓ κ μ ν} :
    {E : Type κ} {S : Type μ} {A : Type ℓ} {B : Type ν}
    → Action E S A
    → (A → Action E S B)
    → Action E S B
◌>>=◌ m f s = let (r, s') = m s in elim r [ ok a ↦ f a s' | raise e ↦ (raise e, s') ]

abbrev pub ◌>>◌ {κ μ ν} :
    {E : Type κ} {S : Type μ} {B : Type ν} → Action E S (Unit {0}) → Action E S B → Action E S B
m >> k = m >>= λ _. k

-- A method that returns, as the first of two.
pub bind_ok {ℓ κ μ ν} :
    {E : Type κ} {S : Type μ} {A : Type ℓ} {B : Type ν} (m : Action E S A)
    → (f : A → Action E S B) (s : S) {t : S} {a : A} → m s ≡ (ok a, t)
    → (m >>= f) s ≡ f a t
bind_ok m f s h = ap (λ p. elim p.0 [ ok a ↦ f a p.1 | raise e ↦ (raise e, p.1) ]) h

-- However the method ends, it leaves a state that relates to the one before it.
pub record Within {ℓ κ μ ν} {E : Type κ} {S : Type μ} {A : Type ℓ} (R : S → S → Type ν)
    (m : Action E S A) : Type (μ ⊔ ν) where
  pub at : (s : S) → R s (m s).1

module _ {κ μ ν} {E : Type κ} {S : Type μ} {R : S → S → Type ν} where
  module _ (refl_R : (s : S) → R s s) where
    pub pure-Within {ℓ} : {A : Type ℓ} (a : A) → Within R (pure {E = E} a)
    pure-Within a = record { at = refl_R }

    pub lift-Within {ℓ} : {A : Type ℓ} (r : Result E A) → Within R (lift r)
    lift-Within r = record { at = refl_R }

  pub bind-Within {ℓ λ₁} :
      ((s t u : S) → R s t → R t u → R s u)
      → {A : Type ℓ} {B : Type λ₁} {m : Action E S A} {f : A → Action E S B} → Within R m
      → ((a : A) → Within R (f a))
      → Within R (m >>= f)
  bind-Within trans {m = m} {f = f} hm hf = record {
    at = λ s. elim (Result-cases (m s).0) [
      | inl (a, e) ↦
          let same : ((m >>= f) s).1 ≡ (f a (m s).1).1 = ground arith in
          rw same (trans s (m s).1 (f a (m s).1).1 (hm.at s) ((hf a).at (m s).1))
      | inr (x, e) ↦ let same : ((m >>= f) s).1 ≡ (m s).1 = ground arith in rw same (hm.at s)
    ];
  }

-- A method that returns has a postcondition: what it found, its value, and what it left.
pub record Returns {ℓ κ μ ν} {E : Type κ} {S : Type μ} {A : Type ℓ} (Q : S → A → S → Type ν)
    (m : Action E S A) : Type (ℓ ⊔ κ ⊔ μ ⊔ ν) where
  pub post : (s : S) (a : A) → (m s).0 ≡ ok a → Q s a (m s).1

pub both {ℓ κ μ ν ξ} :
    {E : Type κ} {S : Type μ} {A : Type ℓ} {R : S → S → Type ν} {Q : S → A → S → Type ξ}
    → {m : Action E S A} → Within R m
    → Returns Q m
    → Returns (λ s a t. R s t × Q s a t) m
both h p = record { post = λ s a e. (h.at s, p.post s a e) }

pub and-Returns {ℓ κ μ ν ξ} :
    {E : Type κ} {S : Type μ} {A : Type ℓ} {Q : S → A → S → Type ν} {Q' : S → A → S → Type ξ}
    → {m : Action E S A} → Returns Q m
    → Returns Q' m
    → Returns (λ s a t. Q s a t × Q' s a t) m
and-Returns h p = record { post = λ s a e. (h.post s a e, p.post s a e) }

-- The state is as it was.
abbrev pub Unmoved {ℓ μ} : {S : Type μ} {A : Type ℓ} → S → A → S → Type μ
Unmoved s a t = s ≡ t

pub lift-Unmoved {ℓ κ μ} :
    {E : Type κ} {S : Type μ} {A : Type ℓ} (r : Result E A) → Returns {S = S} Unmoved (lift r)
lift-Unmoved r = record { post = λ s a h. refl }

module _ {κ μ ν} {E : Type κ} {S : Type μ} where
  pub weaken {ℓ ξ} :
      {A : Type ℓ} {Q : S → A → S → Type ν} {Q' : S → A → S → Type ξ} {m : Action E S A}
      → ((s : S) (a : A) (t : S) → Q s a t → Q' s a t)
      → Returns Q m
      → Returns Q' m
  weaken {m = m} f h = record { post = λ s a e. f s a (m s).1 (h.post s a e) }

  pub raise-Returns {ℓ} :
      {A : Type ℓ} {Q : S → A → S → Type ν} (e : E) → Returns Q (lift {A = A} (raise e))
  raise-Returns e = record { post = λ s a h. absurd (cc) }

  pub lift-Returns {ℓ} :
      {A : Type ℓ} {Q : S → A → S → Type ν} (r : Result E A)
      → ((s : S) (a : A) → r ≡ ok a → Q s a s)
      → Returns Q (lift r)
  lift-Returns r h = record { post = h }

  pub bind-Returns {ℓ λ₁ ξ} :
      {A : Type ℓ} {B : Type λ₁} {Q : S → A → S → Type ξ} {T : S → B → S → Type ν}
      → {m : Action E S A} {f : A → Action E S B} → Returns Q m
      → ((a : A) → Returns (λ t b u. (s : S) → Q s a t → T s b u) (f a))
      → Returns T (m >>= f)
  bind-Returns {T = T} {m = m} {f = f} hm hf = record {
    post = λ s b h. elim (Result-cases (m s).0) [
      | inl (a, e) ↦
          let same : ((m >>= f) s).1 ≡ (f a (m s).1).1 = ground arith in
          let returned : (f a (m s).1).0 ≡ ok b = ground arith in
          rw same ((hf a).post (m s).1 b returned s (hm.post s a e))
      | inr (x, e) ↦ absurd (ground arith)
    ];
  }

-- The method does not raise this.
pub record Never {ℓ κ μ} {E : Type κ} {S : Type μ} {A : Type ℓ} (x : E) (m : Action E S A)
    : Type (ℓ ⊔ κ ⊔ μ) where
  pub never : (s : S) → (m s).0 ≢ raise x

pub lift-Never {ℓ κ μ} :
    {E : Type κ} {S : Type μ} {A : Type ℓ} (x : E) (r : Result E A)
    → r ≢ raise x
    → Never {S = S} x (lift r)
lift-Never x r h = record { never = λ s. h }

pub bind-Never {ℓ κ μ ν λ₁} :
    {E : Type κ} {S : Type μ} {A : Type ℓ} {B : Type λ₁} {Q : A → Type ν} {x : E}
    → {m : Action E S A} {f : A → Action E S B} → Never x m
    → Returns (λ s a t. Q a) m
    → ((a : A) → Q a → Never x (f a))
    → Never x (m >>= f)
bind-Never {x = x} {m = m} {f = f} hm hq hf = record {
  never = λ s h. elim (Result-cases (m s).0) [
    | inl (a, e) ↦ (hf a (hq.post s a e)).never (m s).1 (ground arith)
    | inr (y, e) ↦ hm.never s (ground arith)
  ];
}
