-- ===== src/Backfill/RestBackfill/Counts.antt =====
-- src/github_analytics/backfill/rest_backfill.py: the rows and checkpoints that the REST traversal
-- leaves when it returns.
use github_delivery_intellig.Common.{
  ◌≡◌, refl, ap, inl, inr, ℕ, ◌+◌, List, [], ◌∷◌, ◌++◌, ltb, length, arith, Bool-cases,
}
use github_delivery_intellig.Common.Text.{Text, text}
use github_delivery_intellig.Common.Json.{Json, Fields}
use github_delivery_intellig.Common.Time.{Datetime}
use github_delivery_intellig.Common.Result.{ok, bound, refuse_if}
use github_delivery_intellig.Common.Action.{
  Returns, weaken, lift-Returns, lift-Unmoved, bind-Returns,
}
use github_delivery_intellig.Common.Exception.{rest_data_error}
use github_delivery_intellig.Webhook.Models.{Decoder}
use github_delivery_intellig.Backfill.Models.{BackfillRecord}
use github_delivery_intellig.Backfill.Configuration.{Conversions, Configuration, required_datetime}
use github_delivery_intellig.Backfill.Traversal.{
  BackfillSummary, plus, no_work, Fetched, Store, raising,
}
use github_delivery_intellig.Backfill.Traversal.Finished.{
  Nested, SameTables, no_nested, Finished, traverse-Returns,
}
use github_delivery_intellig.Backfill.RestBackfill.{
  RestExecutor, required_array_payload, required_positive_int, in_window, next_page, run_key,
  deployment_record, workflow_run_page, deployment_status_page, deployment_status_records,
  required_object_payload, required_nonnegative_int, required_object_list, workflow_run_records,
  max_filtered_workflow_runs,
}
use github_delivery_intellig.Backfill.RestBackfill.Run.{
  fetch_json, fetch_workflow_runs, run_workflow_runs, fetch_deployment_statuses,
  run_deployment_statuses, visit_deployments, fetch_deployments, run_deployments,
}

module _ (decoder : Decoder) (conversions : Conversions) (configuration : Configuration) where
  workflow_run_page-nested :
      (start end : Datetime) (page : ℕ) (payload : Json) (fetched : Fetched ℕ)
      → workflow_run_page decoder conversions configuration start end page payload ≡ ok fetched
      → fetched.nested ≡ no_work
  unfolding workflow_run_page
  workflow_run_page-nested start end page payload fetched h =
      bound (required_object_payload payload) _ h λ response e₁ h₁.
        bound (required_nonnegative_int response (text "total_count")) _ h₁ λ total e₂ h₂.
          bound (refuse_if (ltb max_filtered_workflow_runs total) rest_data_error) _ h₂ λ u e₃ h₃.
            bound (required_object_list response (text "workflow_runs")) _ h₃ λ nodes e₄ h₄.
              bound (workflow_run_records decoder conversions configuration start end nodes) _ h₄
                λ records e₅ h₅. cc

  deployment_status_page-nested :
      (deployment_id page : ℕ) (payload : Json) (fetched : Fetched ℕ)
      → deployment_status_page decoder conversions configuration deployment_id page payload
        ≡ ok fetched
      → fetched.nested ≡ no_work
  unfolding deployment_status_page
  deployment_status_page-nested deployment_id page payload fetched h =
      bound (required_array_payload payload) _ h λ nodes e₁ h₁.
        bound (deployment_status_records decoder conversions configuration deployment_id nodes) _ h₁
          λ records e₂ h₂. cc

  module _ (executor : RestExecutor) where
    open executor use {Client}

    fetch_json-SameTables :
        (rest : List Text) (params : Fields)
        → Returns SameTables (fetch_json decoder conversions configuration executor rest params)
    unfolding fetch_json
    fetch_json-SameTables rest params = record { post = λ s a h. refl }

    fetch_workflow_runs-Nested :
        (start end : Datetime) (page : ℕ)
        → Returns Nested
            (fetch_workflow_runs decoder conversions configuration executor start end page)
    unfolding fetch_workflow_runs
    fetch_workflow_runs-Nested start end page =
        no_nested _ _ (fetch_json-SameTables _ _) (workflow_run_page-nested start end page)

    fetch_deployment_statuses-Nested :
        (deployment_id page : ℕ)
        → Returns Nested (
            fetch_deployment_statuses decoder conversions configuration executor deployment_id page)
    unfolding fetch_deployment_statuses
    fetch_deployment_statuses-Nested deployment_id page =
        no_nested _ _ (fetch_json-SameTables _ _) (deployment_status_page-nested deployment_id page)

    pub run_workflow_runs-Returns :
        (fuel : ℕ) (start end : Datetime)
        → Returns
            (Finished
              (run_key decoder conversions configuration
                (text "workflow_runs")
                (text "repository")
                start
                end)
              no_work)
            (run_workflow_runs decoder conversions configuration executor fuel start end)
    unfolding run_workflow_runs
    run_workflow_runs-Returns fuel start end =
        traverse-Returns _ _ (fetch_workflow_runs-Nested start end) (next_page decoder conversions)
          fuel

    run_deployment_statuses-Returns :
        (fuel : ℕ) (start end : Datetime) (deployment_id : ℕ)
        → Returns
            (Finished
              (run_key decoder conversions configuration
                (text "deployment_statuses")
                (conversions.decimal deployment_id)
                start
                end)
              no_work)
            (run_deployment_statuses decoder conversions configuration executor fuel start end
              deployment_id)
    unfolding run_deployment_statuses
    run_deployment_statuses-Returns fuel start end deployment_id =
        traverse-Returns _ _ (fetch_deployment_statuses-Nested deployment_id)
          (next_page decoder conversions) fuel

    -- The inner loop counts the rows that the nested traversals add.
    abbrev Counted :
        BackfillSummary
        → Store Client
        → BackfillSummary × List BackfillRecord
        → Store Client
        → Type 0
    Counted summary s (work, records) t =
        length t.tables.raw + summary.records_inserted ≡ length s.tables.raw + work.records_inserted

    visit_deployments-Counted :
        (fuel : ℕ) (start end : Datetime) (nodes : List Fields) (summary : BackfillSummary)
        → (records : List BackfillRecord)
        → Returns (Counted summary) (
            visit_deployments decoder conversions configuration executor fuel start end nodes
              summary records)
    unfolding visit_deployments plus
    visit_deployments-Counted fuel start end [] summary records =
        lift-Returns (ok (summary, records))
          λ s result e. let same : (summary, records) ≡ result = cc in rw (← same) refl
    visit_deployments-Counted fuel start end (node ∷ nodes) summary records =
        bind-Returns
          (lift-Unmoved
            (raising (required_datetime decoder rest_data_error node (text "created_at"))))
          λ created_at. elim (Bool-cases (in_window created_at start end)) [
            | inl e ↦ rw e (
                bind-Returns (lift-Unmoved (raising (required_positive_int node (text "id")))) λ id.
                  bind-Returns (run_deployment_statuses-Returns fuel start end id) λ work.
                    bind-Returns
                      (lift-Unmoved (
                        raising
                          (deployment_record decoder conversions configuration node created_at)))
                      λ r.
                        weaken
                          (λ s₄ result t counted s₃ p₃ s₂ (grows, done) s₁ p₁ s p.
                            let moved : length s₃.tables.raw ≡ length s₄.tables.raw =
                              ap (λ x. length x.tables.raw) p₃ in
                            rw p (rw p₁ (omega (arith, moved, grows, counted))))
                          (visit_deployments-Counted fuel start end nodes (plus summary work)
                            (records ++ r ∷ [])))
            | inr e ↦ rw e (
                weaken (λ t result u counted s same. rw same counted)
                  (visit_deployments-Counted fuel start end nodes summary records))
          ]

    fetch_deployments-Nested :
        (fuel : ℕ) (start end : Datetime) (page : ℕ)
        → Returns Nested
            (fetch_deployments decoder conversions configuration executor fuel start end page)
    unfolding fetch_deployments
    fetch_deployments-Nested fuel start end page =
        bind-Returns (fetch_json-SameTables _ _) λ payload.
          bind-Returns (lift-Unmoved (raising (required_array_payload payload))) λ nodes.
            bind-Returns (visit_deployments-Counted fuel start end nodes no_work [])
              λ (work, records). lift-Returns (ok _) λ s₃ fetched e s₂ counted s₁ moved s same.
                let is_work : fetched.nested ≡ work = cc in
                let still : length s₁.tables.raw ≡ length s₂.tables.raw =
                  ap (λ x. length x.tables.raw) moved in
                let fetched_rows : length s₁.tables.raw ≡ length s.tables.raw =
                  ap (λ t. length t.raw) same in
                rw is_work (omega (arith, counted, still, fetched_rows))

    pub run_deployments-Returns :
        (fuel : ℕ) (start end : Datetime)
        → Returns
            (Finished
              (run_key decoder conversions configuration
                (text "deployments")
                (text "repository")
                start
                end)
              no_work)
            (run_deployments decoder conversions configuration executor fuel start end)
    unfolding run_deployments
    run_deployments-Returns fuel start end =
        traverse-Returns _ _ (fetch_deployments-Nested fuel start end)
          (next_page decoder conversions) fuel
