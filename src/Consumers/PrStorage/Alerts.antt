-- ===== src/Consumers/PrStorage/Alerts.antt =====
-- src/github_analytics/consumers/pr_storage.py: the stale-alert outbox.
use github_delivery_intellig.Common.{
  ℕ, ◌≤◌, ◌<◌, ◌⊎◌, inl, inr, false, leb, Bool-cases, Option-cases, ◌≡◌, refl, true, Option, none,
  some, [], ◌∷◌, if◌then◌else◌, pair_eq, int_eq, pair_beq_iff, arith, eq_self, is_some,
}
use github_delivery_intellig.Common.Table.{Table, lookup, insert_new, lookup-insert_new, Distinct}
use github_delivery_intellig.Common.Time.{Datetime}
use github_delivery_intellig.Common.Result.{ok}
use github_delivery_intellig.Consumers.PrStorage.Statements.{
  Key, OpenRow, FirstReview, pending, Alert, Database, eligible, stale_alert, alert_for,
  insert_stale_alerts,
}
use github_delivery_intellig.Consumers.PrStorage.{create_stale_alerts}

-- The alert that a sweep owes to a pull request with this open row.
abbrev pub alert_owed : ℕ → ℕ → Option OpenRow → Option Alert
alert_owed cutoff created_at none = none
alert_owed cutoff created_at (some row) =
    if eligible cutoff row then some (stale_alert cutoff created_at row) else none

abbrev pub kept_or : Option Alert → Option Alert → Option Alert
kept_or none owed = owed
kept_or (some a) owed = some a

insert_stale_alerts-lookup :
    (cutoff created_at : ℕ) (rows : Table Key OpenRow) (outbox : Table Key Alert) (k : Key)
    → Distinct rows
    → lookup k (insert_stale_alerts cutoff created_at rows outbox)
      ≡ kept_or (lookup k outbox) (alert_owed cutoff created_at (lookup k rows))
unfolding insert_stale_alerts alert_for lookup
insert_stale_alerts-lookup cutoff created_at [] outbox k d = ground arith
insert_stale_alerts-lookup cutoff created_at ((j, row) ∷ rows) outbox k d = ground (
  arith,
  insert_stale_alerts-lookup cutoff created_at rows (alert_for cutoff created_at j row outbox) k
      d.1,
  lookup-insert_new j k (stale_alert cutoff created_at row) outbox,
  pair_beq_iff j k,
)

-- An open row for which an alert is due, and one for which none is.
abbrev pub Stale : ℕ → OpenRow → Type 0
Stale cutoff row = (row.opened_at ≤ cutoff) × (row.first_eligible ≡ none) × (row.is_draft ≡ false)

abbrev pub NotStale : ℕ → OpenRow → Type 0
NotStale cutoff row =
    (cutoff < row.opened_at)
    ⊎ (((f : FirstReview) × (row.first_eligible ≡ some f)) ⊎ (row.is_draft ≡ true))

-- What a sweep makes of the open row of a pull request, the alert that it had and the one it has then.
abbrev pub Swept : ℕ → ℕ → Option OpenRow → Option Alert → Option Alert → Type 0
Swept cutoff created_at row (some a) after = after ≡ some a
Swept cutoff created_at none none after = after ≡ none
Swept cutoff created_at (some row) none after =
    (Stale cutoff row
      × (after
          ≡ some (record {
            pull_request_number = row.pull_request_number;
            created_at = created_at;
            payload_row = row;
            payload_cutoff = cutoff;
            status = pending;
          })))
    ⊎ (NotStale cutoff row × (after ≡ none))

owed-Swept :
    (cutoff created_at : ℕ) (row : Option OpenRow) (before after : Option Alert)
    → after ≡ kept_or before (alert_owed cutoff created_at row)
    → Swept cutoff created_at row before after
unfolding eligible
owed-Swept cutoff created_at row (some a) after h = h
owed-Swept cutoff created_at none none after h = h
owed-Swept cutoff created_at (some row) none after h = elim (Bool-cases row.is_draft) [
  | inl draft ↦ inr (inr (inr draft), ground arith)
  | inr ready ↦ elim (Option-cases row.first_eligible) [
    | inr (f, reviewed) ↦ inr (inr (inl (f, reviewed)), ground arith)
    | inl unreviewed ↦ elim (Bool-cases (leb row.opened_at cutoff)) [
      | inl old ↦ inl ((ground arith, unreviewed, ready), ground arith)
      | inr young ↦ inr (inl (ground arith), ground arith)
    ]
  ]
]

-- A sweep that returns leaves every alert that is there, and adds one with status `pending` for each
-- pull request that has none and whose open row was opened at the cutoff or before, has no eligible
-- review and is no draft; for any other it adds none. The projection itself is not touched.
pub sweep_exact :
    (cutoff created_at : Datetime) (db : Database) (k : Key) (n : ℕ)
    → Distinct db.open_rows
    → (create_stale_alerts cutoff created_at db).0 ≡ ok n
    → let db' = (create_stale_alerts cutoff created_at db).1 in
      Swept cutoff.instant created_at.instant
        (lookup k db.open_rows)
        (lookup k db.outbox)
        (lookup k db'.outbox)
      × (db'.open_rows ≡ db.open_rows)
      × (db'.first_reviews ≡ db.first_reviews)
      × (db'.watermarks ≡ db.watermarks)
unfolding create_stale_alerts
sweep_exact cutoff created_at db k n d h = (
  owed-Swept cutoff.instant created_at.instant (lookup k db.open_rows) (lookup k db.outbox)
      (lookup k (create_stale_alerts cutoff created_at db).1.outbox)
      (ground (
        arith,
        insert_stale_alerts-lookup cutoff.instant created_at.instant db.open_rows db.outbox k d,
      )),
  ground arith,
  ground arith,
  ground arith,
)

-- Each eligible row has an alert.
abbrev Covered : ℕ → Table Key OpenRow → Table Key Alert → Type 0
Covered cutoff [] outbox = Unit
Covered cutoff ((k, row) ∷ rows) outbox =
    (eligible cutoff row ≡ true → is_some (lookup k outbox) ≡ true) × Covered cutoff rows outbox

insert_again :
    (cutoff created_at : ℕ) (rows : Table Key OpenRow) (outbox : Table Key Alert)
    → Covered cutoff rows outbox
    → insert_stale_alerts cutoff created_at rows outbox ≡ outbox
unfolding insert_stale_alerts alert_for insert_new
insert_again cutoff created_at [] outbox h = refl
insert_again cutoff created_at ((k, row) ∷ rows) outbox h =
    ground (arith, insert_again cutoff created_at rows outbox h.1)

insert_stale_alerts-keeps :
    (cutoff created_at : ℕ) (rows : Table Key OpenRow) (outbox : Table Key Alert) (k : Key)
    → is_some (lookup k outbox) ≡ true
    → is_some (lookup k (insert_stale_alerts cutoff created_at rows outbox)) ≡ true
unfolding insert_stale_alerts alert_for
insert_stale_alerts-keeps cutoff created_at [] outbox k h = h
insert_stale_alerts-keeps cutoff created_at ((j, row) ∷ rows) outbox k h =
    insert_stale_alerts-keeps cutoff created_at rows (alert_for cutoff created_at j row outbox) k
      (ground (arith, lookup-insert_new j k (stale_alert cutoff created_at row) outbox))

insert_stale_alerts-Covered :
    (cutoff created_at : ℕ) (rows : Table Key OpenRow) (outbox : Table Key Alert)
    → Covered cutoff rows (insert_stale_alerts cutoff created_at rows outbox)
unfolding insert_stale_alerts alert_for
insert_stale_alerts-Covered cutoff created_at [] outbox = tt
insert_stale_alerts-Covered cutoff created_at ((k, row) ∷ rows) outbox =
    let next = alert_for cutoff created_at k row outbox in
    (
      λ e. insert_stale_alerts-keeps cutoff created_at rows next k (
          ground
            (arith, lookup-insert_new k k (stale_alert cutoff created_at row) outbox, eq_self k)),
      insert_stale_alerts-Covered cutoff created_at rows next,
    )

-- A sweep that is repeated with the same cutoff, at whatever time, inserts nothing and changes
-- nothing.
pub sweep_idempotent :
    (cutoff created_at later : Datetime) (db : Database) (n : ℕ)
    → later.aware ≡ true
    → (create_stale_alerts cutoff created_at db).0 ≡ ok n
    → let db' = (create_stale_alerts cutoff created_at db).1 in
      create_stale_alerts cutoff later db' ≡ (ok 0, db')
unfolding create_stale_alerts
sweep_idempotent cutoff created_at later db n aware h =
    let outbox = insert_stale_alerts cutoff.instant created_at.instant db.open_rows db.outbox in
    ground (
      arith,
      insert_again cutoff.instant later.instant db.open_rows outbox
          (insert_stale_alerts-Covered cutoff.instant created_at.instant db.open_rows db.outbox),
    )
