-- ===== src/Consumers/PrStorage/Convergence.antt =====
-- src/github_analytics/consumers/pr_storage.py under at-least-once delivery: delays, redeliveries
-- and reorderings of snapshots.
use github_delivery_intellig.Common.{
  ℕ, ◌≡◌, ◌≢◌, refl, sym, ap, ◌∙◌, inl, inr, List, [], ◌∷◌, pair_eq, int_eq, arith, Option-cases,
}
use github_delivery_intellig.Common.Table.{lookup}
use github_delivery_intellig.Common.Result.{Result, ok, raise, Result-cases}
use github_delivery_intellig.Common.Exception.{Exception}
use github_delivery_intellig.Consumers.PrStorage.Models.{
  PullRequestSnapshot, ProjectionOutcome, stale,
}
use github_delivery_intellig.Consumers.PrStorage.Statements.{
  Key, snapshot_key, Database, advance_watermark,
}
use github_delivery_intellig.Consumers.PrStorage.{apply_snapshot_state, apply_pull_request}
use github_delivery_intellig.Consumers.PrStorage.Spec.{
  View, see_snapshot, see_snapshot_comm, project, mark, Represents,
}
use github_delivery_intellig.Consumers.PrStorage.Watermark.{
  KnownSince, Seen, apply_state-watermarks, advance-Seen, stale-Seen, apply_pull_request-KnownSince,
  apply_pull_request_stale,
}
use github_delivery_intellig.Consumers.PrStorage.Refinement.{applied_or_stale-Represents}

-- A snapshot whose call returned is known from then on.
pub apply_pull_request-Seen :
    (s : PullRequestSnapshot) (db : Database) (o : ProjectionOutcome)
    → (apply_pull_request s db).0 ≡ ok o
    → Seen s (apply_pull_request s db).1
unfolding apply_pull_request apply_snapshot_state
apply_pull_request-Seen s db o e = elim (Option-cases (advance_watermark s db)) [
  | inl late ↦
      let same : (apply_pull_request s db).1 ≡ db = ground arith in rw same (stale-Seen s db late)
  | inr (mid, up) ↦ elim (Result-cases (apply_snapshot_state s mid)) [
    | inr (x, raised) ↦ absurd (ground arith)
    | inl (db', done) ↦
        let same : (apply_pull_request s db).1 ≡ db' = ground arith in
        rw same (rw (apply_state-watermarks s.state s mid db' done) (advance-Seen s db mid up))
  ]
]

-- The snapshots of a partition in order, up to the first that raises.
unfoldable pub apply_all :
    List PullRequestSnapshot → Database → Result Exception (List ProjectionOutcome) × Database
apply_all [] db = (ok [], db)
apply_all (s ∷ rest) db =
    let (r, db') = apply_pull_request s db in
    elim r [
      | raise e ↦ (raise e, db')
      | ok o ↦
          let (r', db'') = apply_all rest db' in
          (elim r' [ raise e ↦ raise e | ok os ↦ ok (o ∷ os) ], db'')
    ]

abbrev AllSeen : List PullRequestSnapshot → Database → Type 0
AllSeen [] db = Unit
AllSeen (s ∷ rest) db = Seen s db × AllSeen rest db

unfoldable pub all_stale : List PullRequestSnapshot → List ProjectionOutcome
all_stale [] = []
all_stale (s ∷ rest) = stale ∷ all_stale rest

apply_all_seen :
    (ss : List PullRequestSnapshot) (db : Database)
    → AllSeen ss db
    → apply_all ss db ≡ (ok (all_stale ss), db)
unfolding apply_all all_stale
apply_all_seen [] db h = refl
apply_all_seen (s ∷ rest) db h =
    ground (arith, apply_pull_request_stale s db h.0, apply_all_seen rest db h.1)

apply_all-KnownSince :
    (ss : List PullRequestSnapshot) (db : Database) (k : Key) (t : ℕ)
    → KnownSince t (lookup k db.watermarks)
    → KnownSince t (lookup k (apply_all ss db).1.watermarks)
unfolding apply_all
apply_all-KnownSince [] db k t h = h
apply_all-KnownSince (s ∷ rest) db k t h =
    let kept = apply_pull_request-KnownSince s db k t h in
    elim (Result-cases (apply_pull_request s db).0) [
      | inr (x, e) ↦
          let same : (apply_all (s ∷ rest) db).1 ≡ (apply_pull_request s db).1 = ground arith in
          rw same kept
      | inl (o, e) ↦
          let same : (apply_all (s ∷ rest) db).1 ≡ (apply_all rest (apply_pull_request s db).1).1 =
            ground arith in
          rw same (apply_all-KnownSince rest (apply_pull_request s db).1 k t kept)
    ]

apply_all-AllSeen :
    (ss : List PullRequestSnapshot) (db : Database) (os : List ProjectionOutcome)
    → (apply_all ss db).0 ≡ ok os
    → AllSeen ss (apply_all ss db).1
unfolding apply_all
apply_all-AllSeen [] db os e = tt
apply_all-AllSeen (s ∷ rest) db os e =
    let first = (apply_pull_request s db).1 in
    elim (Result-cases (apply_pull_request s db).0) [
      | inr (x, p) ↦ absurd (ground arith)
      | inl (o, p) ↦ elim (Result-cases (apply_all rest first).0) [
        | inr (x, q) ↦ absurd (ground arith)
        | inl (os', q) ↦
            let same : (apply_all (s ∷ rest) db).1 ≡ (apply_all rest first).1 = ground arith in
            rw same (
              apply_all-KnownSince rest first (snapshot_key s) s.updated_at.instant
                  (apply_pull_request-Seen s db o p),
              apply_all-AllSeen rest first os' q,
            )
      ]
    ]

-- A partition whose snapshots were all applied can be read again from its beginning, as after a
-- crash before any offset was committed: every snapshot is stale, and no table changes.
pub replay_changes_nothing :
    (ss : List PullRequestSnapshot) (db : Database) (os : List ProjectionOutcome)
    → (apply_all ss db).0 ≡ ok os
    → apply_all ss (apply_all ss db).1 ≡ (ok (all_stale ss), (apply_all ss db).1)
replay_changes_nothing ss db os e =
    apply_all_seen ss (apply_all ss db).1 (apply_all-AllSeen ss db os e)

-- Two snapshots of different times may come in either order. From tables that hold a view, if no
-- call raises, both orders leave the same watermark, first review and open row of every pull request.
pub order_forgotten :
    (s t : PullRequestSnapshot) (db : Database) (v : Key → View) (k : Key)
    (o₁ o₂ o₃ o₄ : ProjectionOutcome)
    → s.updated_at.instant ≢ t.updated_at.instant
    → Represents db v
    → (apply_pull_request s db).0 ≡ ok o₁
    → (apply_pull_request t (apply_pull_request s db).1).0 ≡ ok o₂
    → (apply_pull_request t db).0 ≡ ok o₃
    → (apply_pull_request s (apply_pull_request t db).1).0 ≡ ok o₄
    → let there = (apply_pull_request t (apply_pull_request s db).1).1 in
      let back = (apply_pull_request s (apply_pull_request t db).1).1 in
      (lookup k there.watermarks ≡ lookup k back.watermarks)
      × (lookup k there.first_reviews ≡ lookup k back.first_reviews)
      × (lookup k there.open_rows ≡ lookup k back.open_rows)
order_forgotten s t db v k o₁ o₂ o₃ o₄ ne h e₁ e₂ e₃ e₄ =
    let there =
      applied_or_stale-Represents t (apply_pull_request s db).1 (see_snapshot s v) o₂
        (applied_or_stale-Represents s db v o₁ h e₁) e₂ in
    let back =
      applied_or_stale-Represents s (apply_pull_request t db).1 (see_snapshot t v) o₄
        (applied_or_stale-Represents t db v o₃ h e₃) e₄ in
    let same = see_snapshot_comm s t v k ne in
    (
      there.watermark_at k
          ∙ ap (λ (x : View). mark x.latest) (sym same)
          ∙ sym (back.watermark_at k),
      there.review_at k ∙ ap (λ (x : View). x.first) (sym same) ∙ sym (back.review_at k),
      there.row_at k ∙ ap (λ (x : View). project x.latest x.first) (sym same) ∙ sym (back.row_at k),
    )
