-- ===== src/Refresh/Moves.antt =====
-- src/github_analytics/analytics_refresh/storage.py and models.py: the changes that one statement
-- makes to a row, against the table of allowed transitions.
use github_delivery_intellig.Common.{
  ◌≡◌, refl, sym, ap, not, ◌||◌, ◌⊎◌, inl, inr, ℕ, Bool, true, Option, none, some, [], ◌∷◌, arith,
  if◌then◌else◌, ◌=?◌, Eq, Bool-cases, Option-cases, pair_eq,
}
use github_delivery_intellig.Common.Text.{Text, text_eq}
use github_delivery_intellig.Common.Table.{lookup, upsert, lookup-upsert, map_row}
use github_delivery_intellig.Refresh.Models.{
  RunStatus, running, succeeded, failed, allowed, RefreshRunIdentity, SourceWatermark,
  DbtResultSummary,
}
use github_delivery_intellig.Refresh.Rows.{
  RunRow, begin_ok, begun, with_source, with_watermark, with_build, resumed, finished_well,
  finished_badly,
}
use github_delivery_intellig.Refresh.Ledger.{
  run_id_taken, Runs, RunKey, identity_key, set_rows, set_row, rows_ok, some_selected,
  require_write, is_running, running_or_failed, running_or_succeeded, begin_run,
}

-- What a succeeded run reported: all of its columns but `finished_at`.
abbrev pub report : RunRow → RunRow
report row = record row { finished_at = none }

-- A row that a call may leave for a stored one: it keeps its run, and is either as it was or of a
-- status that the table of transitions allows; a succeeded row keeps its report.
pub record Moves (old new : RunRow) : Type 0 where
  pub same_run : new.run_id ≡ old.run_id
  pub transition : (new ≡ old) ⊎ (allowed old.status new.status ≡ true)
  pub final : old.status ≡ succeeded → (new.status ≡ succeeded) × (report new ≡ report old)

pub unmoved : (row : RunRow) → Moves row row
unmoved row = record { same_run = refl; transition = inl refl; final = λ h. (h, refl) }

pub lookup-set_rows :
    (run_id : Text) (w : RunStatus → Bool) (f : RunRow → RunRow) (k : RunKey) (runs : Runs)
    → lookup k (set_rows run_id w f runs) ≡ map_row (set_row run_id w f) (lookup k runs)
unfolding lookup set_rows
lookup-set_rows run_id w f k [] = refl
lookup-set_rows run_id w f k ((j, row) ∷ t) = ground (arith, lookup-set_rows run_id w f k t)

abbrev pub Stored : RunKey → RunRow → Runs → Type 0
Stored k old runs = (new : RunRow) × (lookup k runs ≡ some new) × Moves old new

abbrev pub Sound : (RunStatus → Bool) → (RunRow → RunRow) → Type 0
Sound w f = (row : RunRow) → w row.status ≡ true → Moves row (f row)

pub write-Stored :
    (run_id : Text) (w : RunStatus → Bool) (f : RunRow → RunRow)
    → Sound w f
    → (runs : Runs) (k : RunKey) (old : RunRow) → lookup k runs ≡ some old
    → Stored k old (require_write run_id w f runs).1
unfolding require_write
write-Stored run_id w f sound runs k old h =
    let written : Stored k old (set_rows run_id w f runs) =
      (set_row run_id w f old, rw (lookup-set_rows run_id w f k runs) (rw h refl), moved) in
    let kept : Stored k old runs = (old, h, unmoved old) in
    elim (Bool-cases (rows_ok (set_rows run_id w f runs))) [
      | inl good ↦ elim (Bool-cases (some_selected run_id w runs)) [
        | inl hit ↦ rw good (rw hit written)
        | inr miss ↦ rw good (rw miss kept)
      ]
      | inr bad ↦ rw bad kept
    ]
  where
    moved : Moves old (set_row run_id w f old)
    moved = elim (Bool-cases (old.run_id =? run_id)) [
      | inl here ↦ elim (Bool-cases (w old.status)) [
        | inl able ↦ rw here (rw able (sound old able))
        | inr shut ↦ rw here (rw shut (unmoved old))
      ]
      | inr away ↦ rw away (unmoved old)
    ]

-- The WHERE clauses let through exactly what the table of transitions allows, for a failure or a
-- restart and for a success; a running row, which the other writes select, may move to any status.
where_clauses-allowed :
    (s : RunStatus)
    → (running_or_failed s ≡ allowed s failed)
      × (running_or_failed s ≡ allowed s running)
      × (running_or_succeeded s ≡ allowed s succeeded)
      × ((target : RunStatus) → (not (is_running s) || allowed s target) ≡ true)
unfolding allowed
where_clauses-allowed running = (refl, refl, refl, λ t. refl)
where_clauses-allowed succeeded = (refl, refl, refl, λ t. refl)
where_clauses-allowed failed = (refl, refl, refl, λ t. refl)

pub source-Sound : (s : DbtResultSummary) → Sound is_running (with_source s)
unfolding with_source
source-Sound s row h = record {
  same_run = refl;
  transition = inr (ground (arith, (where_clauses-allowed row.status).3 row.status));
  final = λ e. absurd (ground arith);
}

pub watermark-Sound : (s : SourceWatermark) → Sound is_running (with_watermark s)
unfolding with_watermark
watermark-Sound s row h = record {
  same_run = refl;
  transition = inr (ground (arith, (where_clauses-allowed row.status).3 row.status));
  final = λ e. absurd (ground arith);
}

pub build-Sound : (s : DbtResultSummary) → Sound is_running (with_build s)
unfolding with_build
build-Sound s row h = record {
  same_run = refl;
  transition = inr (ground (arith, (where_clauses-allowed row.status).3 row.status));
  final = λ e. absurd (ground arith);
}

pub resume-Sound : Sound running_or_failed resumed
unfolding resumed
resume-Sound row h = record {
  same_run = refl;
  transition = inr (ground (arith, where_clauses-allowed row.status));
  final = λ e. absurd (ground arith);
}

pub success-Sound : (finished_at : ℕ) → Sound running_or_succeeded (finished_well finished_at)
unfolding finished_well
success-Sound finished_at row h = record {
  same_run = refl;
  transition = inr (ground (arith, where_clauses-allowed row.status));
  final = λ e. (refl, ap (λ s. record row { status = s; finished_at = none }) (sym e));
}

pub failure-Sound :
    (finished_at : ℕ) (category message : Text) (summary : Option DbtResultSummary)
    → Sound running_or_failed (finished_badly finished_at category message summary)
unfolding finished_badly
failure-Sound finished_at category message summary row h = record {
  same_run = refl;
  transition = inr (ground (arith, where_clauses-allowed row.status));
  final = λ e. absurd (ground arith);
}

pub begin-Stored :
    (run_id_of : RefreshRunIdentity → Text) (i : RefreshRunIdentity) (at : ℕ) (relation : Text)
    → (runs : Runs) (k : RunKey) (old : RunRow) → lookup k runs ≡ some old
    → Stored k old (begin_run run_id_of i at relation runs).1
unfolding begin_run begun
begin-Stored run_id_of i at relation runs k old h = elim (Bool-cases allowed_row) [
  | inr broken ↦ let same : left ≡ runs = ground arith in rw same kept
  | inl good ↦ elim (Option-cases (lookup key runs)) [
    | inl fresh ↦ elim (Bool-cases (run_id_taken (run_id_of i) runs)) [
      | inl taken ↦ let same : left ≡ runs = ground arith in rw same kept
      | inr unused ↦
          let same : left ≡ upsert key (begun (run_id_of i) i at relation) runs = ground arith in
          rw same (old, ground (arith, written (run_id_of i), key_eq.beq_iff key k), unmoved old)
    ]
    | inr (row, stored) ↦ elim (Bool-cases (running_or_failed row.status)) [
      | inl able ↦
          let same : left ≡ upsert key (begun row.run_id i at relation) runs = ground arith in
          elim (Bool-cases (key =? k)) [
            | inl here ↦
                let mine : row ≡ old = ground (arith, key_eq.beq_iff key k) in
                rw same (
                  begun row.run_id i at relation,
                  ground (arith, written row.run_id),
                  restarted row mine able,
                )
            | inr away ↦ rw same (old, ground (arith, written row.run_id), unmoved old)
          ]
      | inr done ↦ let same : left ≡ runs = ground arith in rw same kept
    ]
  ]
]
  where
    allowed_row : Bool
    allowed_row = begin_ok (run_id_of i) i relation

    key : RunKey
    key = identity_key i

    key_eq : Eq RunKey
    key_eq = pair_eq

    left : Runs
    left = (begin_run run_id_of i at relation runs).1

    kept : Stored k old runs
    kept = (old, h, unmoved old)

    written :
        (run_id : Text)
        → lookup k (upsert key (begun run_id i at relation) runs)
          ≡ (if key =? k then some (begun run_id i at relation) else lookup k runs)
    written run_id = lookup-upsert key k (begun run_id i at relation) runs

    restarted :
        (row : RunRow)
        → row ≡ old
        → running_or_failed row.status ≡ true
        → Moves old (begun row.run_id i at relation)
    restarted row mine able = record {
      same_run = ap (λ r. r.run_id) mine;
      transition = inr (ground (arith, where_clauses-allowed old.status));
      final = λ e. absurd (ground arith);
    }
