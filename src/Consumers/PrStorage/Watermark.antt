-- ===== src/Consumers/PrStorage/Watermark.antt =====
-- src/github_analytics/consumers/pr_storage.py the watermarks only rise.
use github_delivery_intellig.Common.{
  ℕ, ◌≤◌, ◌≡◌, inl, inr, Option, none, some, if◌then◌else◌, ◌=?◌, pair_eq, int_eq, pair_beq_iff,
  arith, Option-cases, Bool-cases, eq_self,
}
use github_delivery_intellig.Common.Table.{lookup, lookup-upsert}
use github_delivery_intellig.Common.Result.{ok, Result-cases}
use github_delivery_intellig.Consumers.PrStorage.Models.{
  PullRequestSnapshot, PullRequestState, open_state, closed_state, SubmittedReview, stale,
}
use github_delivery_intellig.Consumers.PrStorage.Statements.{
  Key, snapshot_key, Watermark, Database, upsert_open, delete_closed, cancel_pending,
  sync_first_review, record_first_review, advance_watermark,
}
use github_delivery_intellig.Consumers.PrStorage.{
  apply_state, apply_snapshot_state, apply_pull_request, apply_review, project_if_newer,
  consider_review,
}
use github_delivery_intellig.Consumers.PrStorage.Refinement.{apply_pull_request-eq}

-- The tables know the pull request at a time not before `t`.
abbrev pub KnownSince : ℕ → Option Watermark → Type 0
KnownSince t none = ⊥
KnownSince t (some w) = t ≤ w.last_event_at

abbrev written : PullRequestSnapshot → Watermark
written s = record { last_event_at = s.updated_at.instant; last_delivery_id = s.delivery_id }

abbrev pub Seen : PullRequestSnapshot → Database → Type 0
Seen s db = KnownSince s.updated_at.instant (lookup (snapshot_key s) db.watermarks)

pub apply_state-watermarks :
    (state : PullRequestState) (s : PullRequestSnapshot) (db db' : Database)
    → apply_state state s db ≡ ok db'
    → db'.watermarks ≡ db.watermarks
unfolding apply_state upsert_open sync_first_review delete_closed cancel_pending
apply_state-watermarks open_state s db db' h = ground arith
apply_state-watermarks closed_state s db db' h = ground arith

advance-lookup :
    (s : PullRequestSnapshot) (db db' : Database) (k : Key)
    → advance_watermark s db ≡ some db'
    → lookup k db'.watermarks
      ≡ (if snapshot_key s =? k then some (written s) else lookup k db.watermarks)
unfolding advance_watermark
advance-lookup s db db' k e = elim (Option-cases (lookup (snapshot_key s) db.watermarks)) [
  | inl new ↦ ground (arith, lookup-upsert (snapshot_key s) k (written s) db.watermarks)
  | inr (w, old) ↦ ground (arith, lookup-upsert (snapshot_key s) k (written s) db.watermarks)
]

advance-later :
    (s : PullRequestSnapshot) (db db' : Database) (w : Watermark)
    → advance_watermark s db ≡ some db'
    → lookup (snapshot_key s) db.watermarks ≡ some w
    → w.last_event_at ≤ s.updated_at.instant
unfolding advance_watermark
advance-later s db db' w e h = ground arith

pub advance-KnownSince :
    (s : PullRequestSnapshot) (db db' : Database) (k : Key) (t : ℕ)
    → advance_watermark s db ≡ some db'
    → KnownSince t (lookup k db.watermarks)
    → KnownSince t (lookup k db'.watermarks)
advance-KnownSince s db db' k t e h = elim (Option-cases (lookup k db.watermarks)) [
  | inl missing ↦ absurd (rw missing at h)
  | inr (w, found) ↦
      let known : t ≤ w.last_event_at = rw found at h in
      elim (Bool-cases (snapshot_key s =? k)) [
        | inr other ↦ rw (advance-lookup s db db' k e) (rw other h)
        | inl same ↦
            let at : snapshot_key s ≡ k = (pair_beq_iff (snapshot_key s) k).0 same in
            let later : w.last_event_at ≤ s.updated_at.instant =
              advance-later s db db' w e (rw at found) in
            rw (advance-lookup s db db' k e) (rw same (omega arith))
      ]
]

pub advance-Seen :
    (s : PullRequestSnapshot) (db db' : Database) → advance_watermark s db ≡ some db' → Seen s db'
advance-Seen s db db' e =
    rw (advance-lookup s db db' (snapshot_key s) e) (rw (eq_self (snapshot_key s)) (omega arith))

-- A snapshot that is not newer than what the tables know is reported stale, and changes nothing.
pub apply_pull_request_stale :
    (s : PullRequestSnapshot) (db : Database) → Seen s db → apply_pull_request s db ≡ (ok stale, db)
unfolding apply_pull_request advance_watermark
apply_pull_request_stale s db h = elim (Option-cases (lookup (snapshot_key s) db.watermarks)) [
  | inl e ↦ absurd (rw e at h)
  | inr (w, e) ↦ let late : s.updated_at.instant ≤ w.last_event_at = rw e at h in ground arith
]

pub project_if_newer-KnownSince :
    (s : PullRequestSnapshot) (db db' : Database) (k : Key) (t : ℕ)
    → project_if_newer s db ≡ ok db'
    → KnownSince t (lookup k db.watermarks)
    → KnownSince t (lookup k db'.watermarks)
unfolding project_if_newer apply_snapshot_state
project_if_newer-KnownSince s db db' k t e h = elim (Option-cases (advance_watermark s db)) [
  | inl late ↦ let same : db ≡ db' = ground arith in rw (← same) h
  | inr (mid, up) ↦
      rw (apply_state-watermarks s.state s mid db' (ground arith))
        (advance-KnownSince s db mid k t up h)
]

pub consider_review-watermarks :
    (r : SubmittedReview) (db : Database) → (consider_review r db).1.watermarks ≡ db.watermarks
unfolding consider_review record_first_review sync_first_review
consider_review-watermarks r db = ground arith

pub apply_pull_request-KnownSince :
    (s : PullRequestSnapshot) (db : Database) (k : Key) (t : ℕ)
    → KnownSince t (lookup k db.watermarks)
    → KnownSince t (lookup k (apply_pull_request s db).1.watermarks)
apply_pull_request-KnownSince s db k t h = elim (Result-cases (project_if_newer s db)) [
  | inl (db', e) ↦
      rw (apply_pull_request-eq s db) (rw e (project_if_newer-KnownSince s db db' k t e h))
  | inr (x, e) ↦ rw (apply_pull_request-eq s db) (rw e h)
]

apply_review-KnownSince :
    (r : SubmittedReview) (db : Database) (k : Key) (t : ℕ)
    → KnownSince t (lookup k db.watermarks)
    → KnownSince t (lookup k (apply_review r db).1.watermarks)
unfolding apply_review
apply_review-KnownSince r db k t h = elim (Result-cases (project_if_newer r.pull_request db)) [
  | inl (db', e) ↦
      let same : (apply_review r db).1 ≡ (consider_review r db').1 = ground arith in
      rw same (
        rw (consider_review-watermarks r db')
          (project_if_newer-KnownSince r.pull_request db db' k t e h))
  | inr (x, e) ↦ let same : (apply_review r db).1 ≡ db = ground arith in rw same h
]

-- Time does not run backwards: whatever snapshot or review is applied, and whether or not the call
-- raises, no pull request's watermark is lost or lowered.
pub watermark_monotone :
    (s : PullRequestSnapshot) (r : SubmittedReview) (db : Database) (k : Key) (t : ℕ)
    → KnownSince t (lookup k db.watermarks)
    → KnownSince t (lookup k (apply_pull_request s db).1.watermarks)
      × KnownSince t (lookup k (apply_review r db).1.watermarks)
watermark_monotone s r db k t h =
    (apply_pull_request-KnownSince s db k t h, apply_review-KnownSince r db k t h)

pub stale-Seen :
    (s : PullRequestSnapshot) (db : Database) → advance_watermark s db ≡ none → Seen s db
unfolding advance_watermark
stale-Seen s db e = elim (Option-cases (lookup (snapshot_key s) db.watermarks)) [
  | inl new ↦ absurd (ground arith)
  | inr (w, old) ↦ rw old (ground arith)
]
