-- ===== src/Backfill/RestBackfill/Run.antt =====
-- src/github_analytics/backfill/rest_backfill.py: the calls of the client and the loops. An inner
-- loop gets the same fuel as the outer one.
use github_delivery_intellig.Common.{ℕ, List, [], ◌∷◌, ◌++◌, if◌then◌else◌}
use github_delivery_intellig.Common.Text.{Text, text, joined}
use github_delivery_intellig.Common.Json.{Json, Fields}
use github_delivery_intellig.Common.Time.{Datetime}
use github_delivery_intellig.Common.Action.{pure, ◌>>=◌}
use github_delivery_intellig.Common.Exception.{rest_data_error}
use github_delivery_intellig.Webhook.Models.{Decoder}
use github_delivery_intellig.Backfill.Models.{BackfillRecord}
use github_delivery_intellig.Backfill.Configuration.{Conversions, Configuration, required_datetime}
use github_delivery_intellig.Backfill.Traversal.{
  BackfillSummary, plus, no_work, Fetched, Step, lifted, raising, traverse,
}
use github_delivery_intellig.Backfill.RestBackfill.{
  RestExecutor, required_array_payload, required_positive_int, in_window, next_page, run_key,
  deployment_record, page_params, workflow_run_page, workflow_run_params, deployment_status_page,
  full_page_ending,
}

module _ (decoder : Decoder) (conversions : Conversions) (configuration : Configuration)
    (executor : RestExecutor) where
  open conversions use {decimal}
  open executor use {Client}

  -- `self._client.get(f"{self._repository_path}{rest}", params)`
  unfoldable pub fetch_json : List Text → Fields → Step Client Json
  fetch_json rest params s =
      let path =
        joined (text "repos/" ∷ configuration.owner ∷ text "/" ∷ configuration.name ∷ rest) in
      let (r, client') = executor.get path params s.client in
      (raising r, record s { client = client' })

  unfoldable pub fetch_workflow_runs : Datetime → Datetime → ℕ → Step Client (Fetched ℕ)
  unfolding fetch_json workflow_run_page
  fetch_workflow_runs start end page =
      fetch_json (text "/actions/runs" ∷ [])
        (workflow_run_params decoder conversions configuration start end page)
      >>= λ payload.
          lifted (workflow_run_page decoder conversions configuration start end page payload)

  -- `_run_workflow_runs`
  unfoldable pub run_workflow_runs : ℕ → Datetime → Datetime → Step Client BackfillSummary
  unfolding traverse run_key fetch_workflow_runs next_page
  run_workflow_runs fuel start end =
      traverse
        (run_key decoder conversions configuration (text "workflow_runs") (text "repository") start
          end)
        (fetch_workflow_runs start end) (next_page decoder conversions) fuel

  unfoldable pub fetch_deployment_statuses : ℕ → ℕ → Step Client (Fetched ℕ)
  unfolding fetch_json deployment_status_page
  fetch_deployment_statuses deployment_id page =
      fetch_json (text "/deployments/" ∷ decimal deployment_id ∷ text "/statuses" ∷ [])
        (page_params decoder conversions configuration page)
      >>= λ payload.
          lifted
            (deployment_status_page decoder conversions configuration deployment_id page payload)

  -- `_run_deployment_statuses`
  unfoldable pub run_deployment_statuses : ℕ → Datetime → Datetime → ℕ → Step Client BackfillSummary
  unfolding traverse run_key fetch_deployment_statuses next_page
  run_deployment_statuses fuel start end deployment_id =
      traverse
        (run_key decoder conversions configuration (text "deployment_statuses")
          (decimal deployment_id) start end)
        (fetch_deployment_statuses deployment_id) (next_page decoder conversions) fuel

  -- The inner loop of `_run_deployments`, with the work and the records so far.
  unfoldable pub visit_deployments :
      ℕ
      → Datetime
      → Datetime
      → List Fields
      → BackfillSummary
      → List BackfillRecord
      → Step Client (BackfillSummary × List BackfillRecord)
  unfolding run_deployment_statuses deployment_record in_window required_positive_int plus
  visit_deployments fuel start end [] summary records = pure (summary, records)
  visit_deployments fuel start end (node ∷ nodes) summary records =
      lifted (required_datetime decoder rest_data_error node (text "created_at")) >>= λ created_at.
      if in_window created_at start end
      then (lifted (required_positive_int node (text "id")) >>= λ deployment_id.
          run_deployment_statuses fuel start end deployment_id >>= λ work.
          lifted (deployment_record decoder conversions configuration node created_at) >>= λ r.
          visit_deployments fuel start end nodes (plus summary work) (records ++ r ∷ []))
      else visit_deployments fuel start end nodes summary records

  unfoldable pub fetch_deployments : ℕ → Datetime → Datetime → ℕ → Step Client (Fetched ℕ)
  unfolding fetch_json visit_deployments full_page_ending required_array_payload
  fetch_deployments fuel start end page =
      fetch_json (text "/deployments" ∷ []) (page_params decoder conversions configuration page)
      >>= λ payload. lifted (required_array_payload payload) >>= λ nodes.
          visit_deployments fuel start end nodes no_work [] >>= λ (work, records). pure record {
            records = records;
            nested = work;
            ending = full_page_ending decoder conversions configuration page nodes;
          }

  -- `_run_deployments`
  unfoldable pub run_deployments : ℕ → Datetime → Datetime → Step Client BackfillSummary
  unfolding traverse run_key fetch_deployments next_page
  run_deployments fuel start end =
      traverse
        (run_key decoder conversions configuration (text "deployments") (text "repository") start
          end)
        (fetch_deployments fuel start end) (next_page decoder conversions) fuel

  -- `GitHubRestBackfill.run`
  unfoldable pub run : ℕ → Datetime → Datetime → Step Client BackfillSummary
  unfolding run_workflow_runs run_deployments plus
  run fuel start end = run_workflow_runs fuel start end >>= λ runs.
      run_deployments fuel start end >>= λ deployments. pure (plus runs deployments)
