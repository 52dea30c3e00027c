-- ===== src/Backfill/RestBackfill/Kept.antt =====
-- src/github_analytics/backfill/rest_backfill.py: what the REST traversal keeps in the tables,
-- however it ends.
use github_delivery_intellig.Common.{
  inl, inr, ℕ, Bool, Option, List, [], ◌∷◌, ◌++◌, Bool-cases, pair_eq, int_eq, nat_eq,
}
use github_delivery_intellig.Common.Text.{Text, text, text_eq}
use github_delivery_intellig.Common.Json.{Fields}
use github_delivery_intellig.Common.Time.{Datetime}
use github_delivery_intellig.Common.Result.{Result, ok}
use github_delivery_intellig.Common.Action.{Within, bind-Within, lift-Within, ◌>>=◌}
use github_delivery_intellig.Common.Exception.{Exception, rest_data_error}
use github_delivery_intellig.Webhook.Models.{Decoder}
use github_delivery_intellig.Consumers.RawStorage.{source_eq}
use github_delivery_intellig.Backfill.Models.{BackfillRecord, BackfillRunKey}
use github_delivery_intellig.Backfill.Storage.{BackfillTables, persist_page, checkpoint_key_eq}
use github_delivery_intellig.Backfill.Configuration.{Conversions, Configuration, required_datetime}
use github_delivery_intellig.Backfill.Traversal.{
  BackfillSummary, plus, no_work, Store, Step, lifted, raising,
}
use github_delivery_intellig.Backfill.Traversal.Kept.{traverse-Within}
use github_delivery_intellig.Backfill.RestBackfill.{
  RestExecutor, required_array_payload, required_positive_int, in_window, next_page, run_key,
}
use github_delivery_intellig.Backfill.RestBackfill.Run.{
  fetch_json, fetch_workflow_runs, run_workflow_runs, fetch_deployment_statuses,
  run_deployment_statuses, visit_deployments, fetch_deployments, run_deployments, run,
}

-- A relation between the tables before and after, which the storage of a page of an allowed run
-- keeps.
module _ (decoder : Decoder) (conversions : Conversions) (configuration : Configuration)
    (executor : RestExecutor) (R : BackfillTables → BackfillTables → Type 0)
    (keeps : (t : BackfillTables) → R t t)
    (trans : (t u v : BackfillTables) → R t u → R u v → R t v) (Allowed : BackfillRunKey → Type 0)
    (page_keeps : (key : BackfillRunKey) (rs : List BackfillRecord) (c : Option Text) (l : Bool)
      → (t : BackfillTables) → Allowed key
      → R t (persist_page key rs c l t).1) where
  open executor use {Client}

  abbrev Tables : Store Client → Store Client → Type 0
  Tables s t = R s.tables t.tables

  bind_keeps :
      {A B : Type 0} {m : Step Client A} {f : A → Step Client B}
      → Within Tables m
      → ((a : A) → Within Tables (f a))
      → Within Tables (m >>= f)
  bind_keeps = bind-Within λ s t u. trans s.tables t.tables u.tables

  lifted-Within : {A : Type 0} (r : Result Exception A) → Within Tables (lifted r)
  lifted-Within r = lift-Within (λ s. keeps s.tables) (raising r)

  fetch_json-Within :
      (rest : List Text) (params : Fields)
      → Within Tables (fetch_json decoder conversions configuration executor rest params)
  unfolding fetch_json
  fetch_json-Within rest params = record { at = λ s. keeps s.tables }

  fetch_workflow_runs-Within :
      (start end : Datetime) (page : ℕ)
      → Within Tables
          (fetch_workflow_runs decoder conversions configuration executor start end page)
  unfolding fetch_workflow_runs
  fetch_workflow_runs-Within start end page =
      bind_keeps (fetch_json-Within _ _) λ payload. lifted-Within _

  fetch_deployment_statuses-Within :
      (deployment_id page : ℕ)
      → Within Tables
          (fetch_deployment_statuses decoder conversions configuration executor deployment_id page)
  unfolding fetch_deployment_statuses
  fetch_deployment_statuses-Within deployment_id page =
      bind_keeps (fetch_json-Within _ _) λ payload. lifted-Within _

  module _ (fuel : ℕ) (start end : Datetime) where
    abbrev key_of : Text → Text → BackfillRunKey
    key_of resource scope = run_key decoder conversions configuration resource scope start end

    run_workflow_runs-Within :
        Allowed (key_of (text "workflow_runs") (text "repository"))
        → Within Tables
            (run_workflow_runs decoder conversions configuration executor fuel start end)
    unfolding run_workflow_runs
    run_workflow_runs-Within allowed =
        traverse-Within R keeps trans _ (λ rs c l t. page_keeps _ rs c l t allowed) _
          (fetch_workflow_runs-Within start end) (next_page decoder conversions) fuel

    module _
        (status_allowed : (id : ℕ)
          → Allowed (key_of (text "deployment_statuses") (conversions.decimal id))) where
      run_deployment_statuses-Within :
          (id : ℕ)
          → Within Tables
              (run_deployment_statuses decoder conversions configuration executor fuel start end id)
      unfolding run_deployment_statuses
      run_deployment_statuses-Within id =
          traverse-Within R keeps trans _ (λ rs c l t. page_keeps _ rs c l t (status_allowed id)) _
            (fetch_deployment_statuses-Within id) (next_page decoder conversions) fuel

      visit_deployments-Within :
          (nodes : List Fields) (summary : BackfillSummary) (records : List BackfillRecord)
          → Within Tables (
              visit_deployments decoder conversions configuration executor fuel start end nodes
                summary records)
      unfolding visit_deployments
      visit_deployments-Within [] summary records = lifted-Within (ok (summary, records))
      visit_deployments-Within (node ∷ nodes) summary records =
          bind_keeps
            (lifted-Within (required_datetime decoder rest_data_error node (text "created_at")))
            λ created_at. elim (Bool-cases (in_window created_at start end)) [
              | inl e ↦ rw e (
                  bind_keeps (lifted-Within (required_positive_int node (text "id"))) λ id.
                    bind_keeps (run_deployment_statuses-Within id) λ work.
                      bind_keeps (lifted-Within _)
                        λ r. visit_deployments-Within nodes (plus summary work) (records ++ r ∷ []))
              | inr e ↦ rw e (visit_deployments-Within nodes summary records)
            ]

      fetch_deployments-Within :
          (page : ℕ)
          → Within Tables
              (fetch_deployments decoder conversions configuration executor fuel start end page)
      unfolding fetch_deployments
      fetch_deployments-Within page = bind_keeps (fetch_json-Within _ _) λ payload.
          bind_keeps (lifted-Within (required_array_payload payload)) λ nodes.
            bind_keeps (visit_deployments-Within nodes no_work [])
              λ (work, records). lifted-Within (ok _)

      module _ (allowed : Allowed (key_of (text "deployments") (text "repository"))) where
        pub run_deployments-Within :
            Within Tables
              (run_deployments decoder conversions configuration executor fuel start end)
        unfolding run_deployments
        run_deployments-Within =
            traverse-Within R keeps trans _ (λ rs c l t. page_keeps _ rs c l t allowed) _
              fetch_deployments-Within (next_page decoder conversions) fuel

        pub run-Within :
            Allowed (key_of (text "workflow_runs") (text "repository"))
            → Within Tables (run decoder conversions configuration executor fuel start end)
        unfolding run
        run-Within runs_allowed = bind_keeps (run_workflow_runs-Within runs_allowed) λ runs.
            bind_keeps run_deployments-Within
              λ deployments. lifted-Within (ok (plus runs deployments))
