-- ===== src/Consumers/PrStorage/Tests.antt =====
-- Two pull requests of one repository, their events, and the theorems at them.
use github_delivery_intellig.Common.{
  ◌⊎◌, ◌≡◌, ◌≢◌, refl, ℕ, pos, true, false, none, some, [], ◌∷◌, arith, pair_eq, pair_beq, int_eq,
}
use github_delivery_intellig.Common.Text.{text}
use github_delivery_intellig.Common.Time.{Datetime}
use github_delivery_intellig.Common.Table.{lookup, upsert, update, delete, insert_new, Distinct}
use github_delivery_intellig.Common.Result.{ok, raise}
use github_delivery_intellig.Common.Exception.{unique_violation}
use github_delivery_intellig.Consumers.PrStorage.Models.{
  PullRequestSnapshot, PullRequestState, open_state, closed_state, SubmittedReview, applied, stale,
  ProjectionOutcome, recorded,
}
use github_delivery_intellig.Consumers.PrStorage.Statements.{
  Key, snapshot_key, OpenRow, Database, Alert, pending, advance_watermark, upsert_open,
  sync_first_review, delete_closed, cancel_pending, record_first_review, insert_stale_alerts,
  alert_for, eligible,
}
use github_delivery_intellig.Consumers.PrStorage.{
  apply_snapshot_state, apply_pull_request, apply_review, create_stale_alerts,
}
use github_delivery_intellig.Consumers.PrStorage.Spec.{
  Has, View, see_snapshot, see_review, Represents,
}
use github_delivery_intellig.Consumers.PrStorage.Refinement.{
  apply_pull_request-refines, applied_or_stale-Represents,
}
use github_delivery_intellig.Consumers.PrStorage.Reviews.{apply_review-refines}
use github_delivery_intellig.Consumers.PrStorage.Watermark.{KnownSince, watermark_monotone}
use github_delivery_intellig.Consumers.PrStorage.Convergence.{
  apply_all, all_stale, replay_changes_nothing, order_forgotten,
}
use github_delivery_intellig.Consumers.PrStorage.ReviewReplay.{review_again}
use github_delivery_intellig.Consumers.PrStorage.Alerts.{Swept, sweep_exact, sweep_idempotent}
use github_delivery_intellig.Consumers.PrStorage.Lifecycle.{
  Follows, alert_lifecycle, NewerThan, Closed, close_cancels,
}

abbrev at : ℕ → Datetime
at t = record { instant = t; aware = true }

abbrev change : ℕ → PullRequestState → ℕ → PullRequestSnapshot
change id state t = record {
  delivery_id = text "d";
  repository_id = pos 9;
  repository_full_name = text "o/n";
  pull_request_id = pos id;
  pull_request_number = pos 5;
  state = state;
  title = text "t";
  author_id = pos 2;
  author_login = text "a";
  is_draft = false;
  opened_at = at 100;
  updated_at = at t;
}

abbrev opening : PullRequestSnapshot
opening = change 1 open_state 110

abbrev closing : PullRequestSnapshot
closing = change 1 closed_state 120

abbrev review : SubmittedReview
review = record {
  pull_request = opening;
  review_id = pos 70;
  reviewer_id = pos 3;
  reviewer_login = text "r";
  submitted_at = at 115;
}

abbrev empty : Database
empty = record { watermarks = []; open_rows = []; first_reviews = []; outbox = [] }

abbrev unseen : Key → View
unseen k = record { latest = none; first = none }

abbrev opened : Database
opened = (apply_pull_request opening empty).1

abbrev key : Key
key = (pos 9, pos 1)

abbrev swept : Database
swept = (create_stale_alerts (at 200) (at 210) opened).1

empty-Represents : Represents empty unseen
unfolding lookup
empty-Represents = record { watermark_at = λ k. refl; review_at = λ k. refl; row_at = λ k. refl }

opening-applied : (apply_pull_request opening empty).0 ≡ ok applied
unfolding apply_pull_request advance_watermark apply_snapshot_state upsert_open sync_first_review
    lookup upsert pair_beq
opening-applied = refl

opened-Represents : Represents opened (see_snapshot opening unseen)
opened-Represents =
    applied_or_stale-Represents opening empty unseen applied empty-Represents opening-applied

review-recorded : (apply_review review empty).0 ≡ ok recorded
unfolding apply_review advance_watermark apply_snapshot_state upsert_open sync_first_review lookup
    upsert pair_beq record_first_review update
review-recorded = refl

-- Pull request 4 is opened under the number of pull request 1.
apply_pull_request-refines_example :
    let s = change 4 open_state 130 in
    let (r, db') = apply_pull_request s opened in
    (((o : ProjectionOutcome) × (r ≡ ok o)
        × Represents db' (see_snapshot s (see_snapshot opening unseen)))
      ⊎ ((r ≡ raise unique_violation)
          × (db' ≡ opened)
          × (s.state ≡ open_state)
          × (k : Key) × (row : OpenRow) × Has k row opened.open_rows
          × (k ≢ snapshot_key s)
          × (k.0 ≡ s.repository_id)
          × (row.pull_request_number ≡ s.pull_request_number)))
apply_pull_request-refines_example =
    apply_pull_request-refines (change 4 open_state 130) opened (see_snapshot opening unseen)
      opened-Represents

apply_review-refines_example :
    Represents (apply_review review empty).1 (see_review review (see_snapshot opening unseen))
apply_review-refines_example =
    apply_review-refines review empty unseen recorded empty-Represents review-recorded

watermark_monotone_example :
    KnownSince 110 (lookup key (apply_pull_request closing opened).1.watermarks)
    × KnownSince 110 (lookup key (apply_review review opened).1.watermarks)
watermark_monotone_example = watermark_monotone closing review opened key 110 known
  where
    known : KnownSince 110 (lookup key opened.watermarks)
    known =
        unfold apply_pull_request advance_watermark apply_snapshot_state upsert_open
          sync_first_review lookup upsert pair_beq in
        omega arith

both-applied : (apply_all (opening ∷ closing ∷ []) empty).0 ≡ ok (applied ∷ applied ∷ [])
unfolding apply_all apply_pull_request advance_watermark apply_snapshot_state upsert_open
    sync_first_review lookup upsert pair_beq update delete delete_closed cancel_pending
both-applied = refl

replay_changes_nothing_example :
    apply_all (opening ∷ closing ∷ []) (apply_all (opening ∷ closing ∷ []) empty).1
    ≡ (ok (all_stale (opening ∷ closing ∷ [])), (apply_all (opening ∷ closing ∷ []) empty).1)
replay_changes_nothing_example =
    replay_changes_nothing (opening ∷ closing ∷ []) empty (applied ∷ applied ∷ []) both-applied

order_forgotten_example :
    let there = (apply_pull_request closing (apply_pull_request opening empty).1).1 in
    let back = (apply_pull_request opening (apply_pull_request closing empty).1).1 in
    (lookup key there.watermarks ≡ lookup key back.watermarks)
    × (lookup key there.first_reviews ≡ lookup key back.first_reviews)
    × (lookup key there.open_rows ≡ lookup key back.open_rows)
order_forgotten_example =
    order_forgotten opening closing empty unseen key applied applied applied stale (omega arith)
      empty-Represents opening-applied then_closed closed_first opened_late
  where
    then_closed : (apply_pull_request closing opened).0 ≡ ok applied
    then_closed =
        unfold apply_pull_request advance_watermark apply_snapshot_state upsert_open
          sync_first_review lookup upsert pair_beq update delete delete_closed cancel_pending in
        refl

    closed_first : (apply_pull_request closing empty).0 ≡ ok applied
    closed_first =
        unfold apply_pull_request advance_watermark apply_snapshot_state lookup upsert pair_beq
          update delete delete_closed cancel_pending in
        refl

    opened_late : (apply_pull_request opening (apply_pull_request closing empty).1).0 ≡ ok stale
    opened_late =
        unfold apply_pull_request advance_watermark apply_snapshot_state lookup upsert pair_beq
          update delete delete_closed cancel_pending in
        refl

review_again_example :
    let db' = (apply_review review empty).1 in
    ((apply_review review db').1 ≡ db') × ((apply_review review db').0 ≢ ok recorded)
review_again_example = review_again review empty recorded review-recorded

opened-Distinct : Distinct opened.open_rows
unfolding apply_pull_request advance_watermark apply_snapshot_state upsert_open sync_first_review
    lookup upsert pair_beq
opened-Distinct = (refl, tt)

one_alert : (create_stale_alerts (at 200) (at 210) opened).0 ≡ ok 1
unfolding create_stale_alerts insert_stale_alerts alert_for eligible insert_new apply_pull_request
    advance_watermark apply_snapshot_state upsert_open sync_first_review lookup upsert pair_beq
one_alert = refl

sweep_exact_example :
    Swept 200 210 (lookup key opened.open_rows) (lookup key opened.outbox) (lookup key swept.outbox)
    × (swept.open_rows ≡ opened.open_rows)
    × (swept.first_reviews ≡ opened.first_reviews)
    × (swept.watermarks ≡ opened.watermarks)
sweep_exact_example = sweep_exact (at 200) (at 210) opened key 1 opened-Distinct one_alert

sweep_idempotent_example : create_stale_alerts (at 200) (at 500) swept ≡ (ok 0, swept)
sweep_idempotent_example = sweep_idempotent (at 200) (at 210) (at 500) opened 1 refl one_alert

abbrev alert : Alert
alert = record {
  pull_request_number = pos 5;
  created_at = 210;
  payload_row = record {
    pull_request_number = pos 5;
    repository_full_name = text "o/n";
    title = text "t";
    author_id = pos 2;
    author_login = text "a";
    is_draft = false;
    opened_at = 100;
    last_source_updated_at = 110;
    first_eligible = none;
  };
  payload_cutoff = 200;
  status = pending;
}

alert-stored : lookup key swept.outbox ≡ some alert
unfolding create_stale_alerts insert_stale_alerts alert_for eligible insert_new apply_pull_request
    advance_watermark apply_snapshot_state upsert_open sync_first_review lookup upsert pair_beq
alert-stored = refl

alert_lifecycle_example :
    Follows alert (lookup key (apply_pull_request closing swept).1.outbox)
    × Follows alert (lookup key (apply_review review swept).1.outbox)
    × (lookup key (create_stale_alerts (at 300) (at 310) swept).1.outbox ≡ some alert)
alert_lifecycle_example =
    alert_lifecycle closing review (at 300) (at 310) swept key alert alert-stored

closing-NewerThan : NewerThan closing (lookup key swept.watermarks)
unfolding create_stale_alerts insert_stale_alerts alert_for eligible insert_new apply_pull_request
    advance_watermark apply_snapshot_state upsert_open sync_first_review lookup upsert pair_beq
closing-NewerThan = omega arith

close_cancels_example :
    let (r, db') = apply_pull_request closing swept in
    (r ≡ ok applied) × (lookup key db'.open_rows ≡ none) × Closed alert (lookup key db'.outbox)
close_cancels_example = close_cancels closing swept alert refl closing-NewerThan alert-stored
