-- ===== src/Backfill/RestBackfill/Results.antt =====
-- src/github_analytics/backfill/rest_backfill.py: what `GitHubRestBackfill.run` leaves, and what it
-- does when it is run again.
use github_delivery_intellig.Common.{
  ◌≡◌, ◌⊎◌, refl, sym, ◌∙◌, inl, inr, ℕ, ◌+◌, false, none, ◌=?◌, pair_eq, pair_beq, int_eq, nat_eq,
  list_beq, arith, length, Option-cases,
}
use github_delivery_intellig.Common.Text.{Text, text, text_eq, text_beq}
use github_delivery_intellig.Common.Table.{lookup}
use github_delivery_intellig.Common.Time.{Datetime}
use github_delivery_intellig.Common.Result.{ok, raise, Result-cases}
use github_delivery_intellig.Common.Action.{
  Within, Returns, both, and-Returns, bind_ok, bind-Returns, lift-Returns, ◌>>=◌, pure,
}
use github_delivery_intellig.Webhook.Models.{Decoder}
use github_delivery_intellig.Consumers.RawStorage.{Source, source_eq}
use github_delivery_intellig.Backfill.Models.{BackfillRunKey}
use github_delivery_intellig.Backfill.Storage.{
  BackfillTables, load_checkpoint, key_parameters, checkpoint_key_eq,
}
use github_delivery_intellig.Backfill.Pages.Effects.{KeepsRows, page-KeepsRows, page_keeps_other}
use github_delivery_intellig.Backfill.Configuration.{Conversions, Configuration}
use github_delivery_intellig.Backfill.Traversal.{BackfillSummary, Halt, plus, no_work, Store, Step}
use github_delivery_intellig.Backfill.Traversal.Finished.{Completed}
use github_delivery_intellig.Backfill.Traversal.Again.{Checked, traverse-Checked, traverse_again}
use github_delivery_intellig.Backfill.RestBackfill.{RestExecutor, run_key, next_page}
use github_delivery_intellig.Backfill.RestBackfill.Run.{run_workflow_runs, run_deployments, run}
use github_delivery_intellig.Backfill.RestBackfill.Kept.{run-Within, run_deployments-Within}
use github_delivery_intellig.Backfill.RestBackfill.Counts.{
  run_workflow_runs-Returns, run_deployments-Returns,
}

module _ (decoder : Decoder) (conversions : Conversions) (configuration : Configuration)
    (executor : RestExecutor) (fuel : ℕ) (start end : Datetime) where
  open executor use {Client}

  run-KeepsRows :
      (s : Store Client)
      → KeepsRows s.tables
          (run decoder conversions configuration executor fuel start end s).1.tables
  run-KeepsRows s =
      (run-Within decoder conversions configuration executor KeepsRows (λ t k row h. h)
          (λ t u v f g k row h. g k row (f k row h)) (λ key. Unit {0})
          (λ key rs c l t allowed. page-KeepsRows key rs c l t) fuel start end (λ id. tt) tt tt).at
        s

  kept_or_new :
      (s : Store Client) (k : Source × Text)
      → let t = (run decoder conversions configuration executor fuel start end s).1 in
        (lookup k s.tables.raw ≡ none) ⊎ (lookup k t.tables.raw ≡ lookup k s.tables.raw)
  kept_or_new s k = elim (Option-cases (lookup k s.tables.raw)) [
    | inl absent ↦ inl absent
    | inr (row, there) ↦ inr (run-KeepsRows s k row there ∙ sym there)
  ]

  abbrev key_of : Text → Text → BackfillRunKey
  key_of resource scope = run_key decoder conversions configuration resource scope start end

  abbrev runs_key : BackfillRunKey
  runs_key = key_of (text "workflow_runs") (text "repository")

  abbrev deployments_key : BackfillRunKey
  deployments_key = key_of (text "deployments") (text "repository")

  resources_apart :
      (resource scope scope' : Text) (other : Text)
      → (resource =? other) ≡ false
      → (key_parameters (key_of resource scope) =? key_parameters (key_of other scope')) ≡ false
  unfolding run_key pair_beq
  resources_apart resource scope scope' other h = ground arith

  abbrev KeepsRuns : BackfillTables → BackfillTables → Type 0
  KeepsRuns t u = load_checkpoint runs_key u ≡ load_checkpoint runs_key t

  deployments_keep_runs :
      Within
        (λ (s t : Store Client). KeepsRuns s.tables t.tables)
        (run_deployments decoder conversions configuration executor fuel start end)
  unfolding list_beq
  deployments_keep_runs =
      run_deployments-Within decoder conversions configuration executor KeepsRuns (λ t. refl)
        (λ t u v p q. q ∙ p) (λ key. (key_parameters key =? key_parameters runs_key) ≡ false)
        (λ key rs c l t apart. page_keeps_other key runs_key rs c l t apart) fuel start end
        (λ id. resources_apart _ _ _ _ (unfold text text_beq in refl))
        (resources_apart _ _ _ _ (unfold text text_beq in refl))

  -- What `run` leaves when it returns.
  abbrev RunFinished : Store Client → BackfillSummary → Store Client → Type 0
  RunFinished s total t =
      (length t.tables.raw ≡ length s.tables.raw + total.records_inserted)
      × (Completed runs_key t.tables × Checked runs_key)
      × (Completed deployments_key t.tables × Checked deployments_key)

  runs-Checked :
      Returns
        (λ (s : Store Client) (total : BackfillSummary) t. Checked runs_key)
        (run_workflow_runs decoder conversions configuration executor fuel start end)
  unfolding run_workflow_runs
  runs-Checked = traverse-Checked _ _ (next_page decoder conversions) fuel

  deployments-Checked :
      Returns
        (λ (s : Store Client) (total : BackfillSummary) t. Checked deployments_key)
        (run_deployments decoder conversions configuration executor fuel start end)
  unfolding run_deployments
  deployments-Checked = traverse-Checked _ _ (next_page decoder conversions) fuel

  run-Returns : Returns RunFinished (run decoder conversions configuration executor fuel start end)
  unfolding run plus
  run-Returns =
      bind-Returns
        (and-Returns
          (run_workflow_runs-Returns decoder conversions configuration executor fuel start end)
          runs-Checked)
        λ runs.
          bind-Returns
            (both deployments_keep_runs (
              and-Returns
                (run_deployments-Returns decoder conversions configuration executor fuel start end)
                deployments-Checked))
            λ deployments.
              lift-Returns (ok (plus runs deployments))
                λ t total e u (keeps, ((grows, done), checked)) s ((grew, did), checked').
                  let same : plus runs deployments ≡ total = cc in
                  rw (← same)
                    (omega (arith, grows, grew), (rw keeps did, checked'), (done, checked))

  module _ (fuel' : ℕ) (t : Store Client) where
    abbrev runs : Step Client BackfillSummary
    runs = run_workflow_runs decoder conversions configuration executor fuel' start end

    abbrev deployments : Step Client BackfillSummary
    deployments = run_deployments decoder conversions configuration executor fuel' start end

    runs_again : Checked runs_key → Completed runs_key t.tables → runs t ≡ (ok no_work, t)
    unfolding run_workflow_runs
    runs_again checked done =
        traverse_again runs_key _ (next_page decoder conversions) fuel' t checked done

    deployments_again :
        Checked deployments_key
        → Completed deployments_key t.tables
        → deployments t ≡ (ok no_work, t)
    unfolding run_deployments
    deployments_again checked done =
        traverse_again deployments_key _ (next_page decoder conversions) fuel' t checked done

    run_again :
        runs t ≡ (ok no_work, t)
        → deployments t ≡ (ok no_work, t)
        → run decoder conversions configuration executor fuel' start end t ≡ (ok no_work, t)
    unfolding run plus
    run_again none_left nor_here =
        bind_ok runs (λ a. deployments >>= λ b. pure (plus a b)) t none_left
        ∙ bind_ok deployments (λ b. pure (plus no_work b)) t nor_here

  -- Whether `run` returns or raises, and at whatever page, every row that was stored before is
  -- stored unchanged after it. When it returns a summary, `records_inserted` is the number of rows
  -- that were added, and running it again with any fuel returns an empty summary, without a call of
  -- the client and without a change of the tables.
  pub rest_run_keeps_and_counts :
      (s : Store Client) (fuel' : ℕ) (k : Source × Text)
      → let (r, t) = run decoder conversions configuration executor fuel start end s in
        ((lookup k s.tables.raw ≡ none) ⊎ (lookup k t.tables.raw ≡ lookup k s.tables.raw))
        × (((e : Halt) × (r ≡ raise e))
            ⊎ (total : BackfillSummary) × (r ≡ ok total)
              × (length t.tables.raw ≡ length s.tables.raw + total.records_inserted)
              × (run decoder conversions configuration executor fuel' start end t
                  ≡ (ok no_work, t)))
  rest_run_keeps_and_counts s fuel' k = (
    kept_or_new s k,
    elim (Result-cases (run decoder conversions configuration executor fuel start end s).0) [
      | inr (e, h) ↦ inl (e, h)
      | inl (total, h) ↦
          let (grows, (runs_done, runs_checked), (done, checked)) = run-Returns.post s total h in
          let t = (run decoder conversions configuration executor fuel start end s).1 in
          inr (
            total,
            h,
            grows,
            run_again fuel' t (runs_again fuel' t runs_checked runs_done)
                (deployments_again fuel' t checked done),
          )
    ],
  )
