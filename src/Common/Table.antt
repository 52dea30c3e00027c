-- ===== src/Common/Table.antt =====
-- A PostgreSQL table with a primary key: its rows in insertion order, each beside its key. The
-- statements of the repository's SQL are built from `upsert` (INSERT ... ON CONFLICT DO UPDATE),
-- `insert_new` (ON CONFLICT DO NOTHING), `update` (UPDATE ... WHERE key) and `delete`.
use github_delivery_intellig.Common.{
  ◌≡◌, refl, Option, none, some, List, [], ◌∷◌, ◌++◌, arith, if◌then◌else◌, Eq, ◌=?◌, is_some,
}

abbrev pub Table {ℓ κ} : Type ℓ → Type κ → Type (ℓ ⊔ κ)
Table K V = List (K × V)

-- What a WHERE clause leaves of an optional row.
abbrev pub map_row {κ} : {V : Type κ} → (V → V) → Option V → Option V
map_row f none = none
map_row f (some v) = some (f v)

module _ {ℓ κ} {K : Type ℓ} {V : Type κ} ⦃e : Eq K⦄ where
  unfoldable pub lookup : K → Table K V → Option V
  lookup k [] = none
  lookup k ((j, v) ∷ t) = if j =? k then some v else lookup k t

  unfoldable pub upsert : K → V → Table K V → Table K V
  upsert k v [] = (k, v) ∷ []
  upsert k v ((j, w) ∷ t) = if j =? k then (k, v) ∷ t else (j, w) ∷ upsert k v t

  unfoldable pub delete : K → Table K V → Table K V
  delete k [] = []
  delete k ((j, w) ∷ t) = let rest = delete k t in if j =? k then rest else (j, w) ∷ rest

  unfoldable pub update : K → (V → V) → Table K V → Table K V
  update k f [] = []
  update k f ((j, w) ∷ t) = (j, if j =? k then f w else w) ∷ update k f t

  unfoldable pub insert_new : K → V → Table K V → Table K V
  unfolding lookup
  insert_new k v t = if is_some (lookup k t) then t else t ++ (k, v) ∷ []

  lookup-snoc :
      (k j : K) (v : V) (t : Table K V)
      → lookup j (t ++ (k, v) ∷ [])
        ≡ (if is_some (lookup j t) then lookup j t else if k =? j then some v else none)
  unfolding lookup
  lookup-snoc k j v [] = refl
  lookup-snoc k j v ((i, w) ∷ t) = ground (arith, lookup-snoc k j v t)

  pub lookup-upsert :
      (k j : K) (v : V) (t : Table K V)
      → lookup j (upsert k v t) ≡ (if k =? j then some v else lookup j t)
  unfolding lookup upsert
  lookup-upsert k j v [] = refl
  lookup-upsert k j v ((i, w) ∷ t) =
      ground (arith, lookup-upsert k j v t, e.beq_iff i k, e.beq_iff i j, e.beq_iff k j)

  pub lookup-delete :
      (k j : K) (t : Table K V) → lookup j (delete k t) ≡ (if k =? j then none else lookup j t)
  unfolding lookup delete
  lookup-delete k j [] = ground arith
  lookup-delete k j ((i, w) ∷ t) =
      ground (arith, lookup-delete k j t, e.beq_iff i k, e.beq_iff i j, e.beq_iff k j)

  pub lookup-update :
      (k j : K) (f : V → V) (t : Table K V)
      → lookup j (update k f t) ≡ (if k =? j then map_row f (lookup j t) else lookup j t)
  unfolding lookup update
  lookup-update k j f [] = ground arith
  lookup-update k j f ((i, w) ∷ t) =
      ground (arith, lookup-update k j f t, e.beq_iff i k, e.beq_iff i j, e.beq_iff k j)

  pub lookup-insert_new :
      (k j : K) (v : V) (t : Table K V)
      → lookup j (insert_new k v t)
        ≡ (if is_some (lookup j t) then lookup j t else if k =? j then some v else none)
  unfolding insert_new
  lookup-insert_new k j v t = ground (arith, lookup-snoc k j v t, e.beq_iff k j)

  -- Every stored key stays, and keeps its row.
  pub lookup-insert_new_old :
      (k j : K) (v w : V) (t : Table K V)
      → lookup j t ≡ some w
      → lookup j (insert_new k v t) ≡ some w
  lookup-insert_new_old k j v w t h = ground (arith, lookup-insert_new k j v t)

pub ruleset table_laws = (lookup-upsert, lookup-delete, lookup-update, lookup-insert_new)

-- No key stands twice.
abbrev pub Distinct {ℓ κ} : {K : Type ℓ} {V : Type κ} → ⦃e : Eq K⦄ → Table K V → Type κ
Distinct [] = Unit
Distinct ((k, v) ∷ t) = (lookup k t ≡ none) × Distinct t

module _ {ℓ κ} {K : Type ℓ} {V : Type κ} ⦃e : Eq K⦄ where
  pub upsert-Distinct : (k : K) (v : V) (t : Table K V) → Distinct t → Distinct (upsert k v t)
  unfolding upsert lookup
  upsert-Distinct k v [] h = (refl, tt)
  upsert-Distinct k v ((j, w) ∷ t) h =
      ground (arith, upsert-Distinct k v t h.1, lookup-upsert k j v t, e.beq_iff j k, e.beq_iff k j)

  pub update-Distinct : (k : K) (f : V → V) (t : Table K V) → Distinct t → Distinct (update k f t)
  unfolding update
  update-Distinct k f [] h = h
  update-Distinct k f ((j, w) ∷ t) h =
      ground (arith, update-Distinct k f t h.1, lookup-update k j f t)

  pub delete-Distinct : (k : K) (t : Table K V) → Distinct t → Distinct (delete k t)
  unfolding delete
  delete-Distinct k [] h = h
  delete-Distinct k ((j, w) ∷ t) h = ground (arith, delete-Distinct k t h.1, lookup-delete k j t)
