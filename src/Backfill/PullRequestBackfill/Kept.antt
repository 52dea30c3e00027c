-- ===== src/Backfill/PullRequestBackfill/Kept.antt =====
-- src/github_analytics/backfill/github.py: what the traversal of pull requests keeps in the tables,
-- however it ends.
use github_delivery_intellig.Common.{
  ◌≡◌, ◌⊎◌, inl, inr, sym, ◌∙◌, ℕ, true, false, Option, none, List, [], ◌∷◌, ◌++◌, Bool-cases,
  Option-cases, leb, ltb, pair_eq,
}
use github_delivery_intellig.Common.Text.{Text, text, text_eq}
use github_delivery_intellig.Common.Json.{Fields}
use github_delivery_intellig.Common.Table.{lookup}
use github_delivery_intellig.Common.Time.{Datetime}
use github_delivery_intellig.Common.Result.{Result, ok}
use github_delivery_intellig.Common.Action.{Within, bind-Within, lift-Within, ◌>>=◌}
use github_delivery_intellig.Common.Exception.{Exception, graphql_data_error}
use github_delivery_intellig.Webhook.Models.{Decoder}
use github_delivery_intellig.Consumers.RawStorage.{Source, source_eq}
use github_delivery_intellig.Backfill.Models.{BackfillRecord}
use github_delivery_intellig.Backfill.Pages.Effects.{KeepsRows, page-KeepsRows}
use github_delivery_intellig.Backfill.Configuration.{
  Conversions, Configuration, required_string, required_datetime,
}
use github_delivery_intellig.Backfill.Traversal.{
  BackfillSummary, plus, no_work, Store, Step, lifted, raising,
}
use github_delivery_intellig.Backfill.Traversal.Kept.{traverse-Within}
use github_delivery_intellig.Backfill.PullRequestBackfill.{
  Query, GraphQlExecutor, start_cursor, pull_request_page,
}
use github_delivery_intellig.Backfill.PullRequestBackfill.Run.{
  execute, fetch_nested, backfill_nested, visit_pull_requests, fetch_pull_requests, run,
}

module _ (decoder : Decoder) (conversions : Conversions) (configuration : Configuration)
    (executor : GraphQlExecutor) where
  open executor use {Client}

  abbrev Kept : Store Client → Store Client → Type 0
  Kept s t = KeepsRows s.tables t.tables

  bind_keeps :
      {A B : Type 0} {m : Step Client A} {f : A → Step Client B}
      → Within Kept m
      → ((a : A) → Within Kept (f a))
      → Within Kept (m >>= f)
  bind_keeps = bind-Within λ s t u f g k row h. g k row (f k row h)

  lifted-Within : {A : Type 0} (r : Result Exception A) → Within Kept (lifted r)
  lifted-Within r = lift-Within (λ s k row h. h) (raising r)

  execute-Within :
      (query : Query) (variables : Fields)
      → Within Kept (execute decoder conversions configuration executor query variables)
  unfolding execute
  execute-Within query variables = record { at = λ s k row h. h }

  fetch_nested-Within :
      (query : Query) (connection_name : Text)
      → (factory : Fields → Result Exception BackfillRecord) (id : Text) (cursor : Option Text)
      → Within Kept (
          fetch_nested decoder conversions configuration executor query connection_name factory id
            cursor)
  unfolding fetch_nested
  fetch_nested-Within query connection_name factory id cursor =
      bind_keeps (execute-Within _ _) λ response. lifted-Within _

  module _ (fuel : ℕ) (start end : Datetime) where
    backfill_nested-Within :
        (id resource connection_name : Text) (query : Query)
        → (factory : Fields → Result Exception BackfillRecord)
        → Within Kept (
            backfill_nested decoder conversions configuration executor fuel start end id resource
              connection_name query factory)
    unfolding backfill_nested
    backfill_nested-Within id resource connection_name query factory =
        traverse-Within KeepsRows (λ t k row h. h) (λ t u v f g k row h. g k row (f k row h)) _
          (λ rs c l t. page-KeepsRows _ rs c l t) _
          (fetch_nested-Within query connection_name factory id) start_cursor fuel

    visit_pull_requests-Within :
        (nodes : List Fields) (summary : BackfillSummary) (records : List BackfillRecord)
        → Within Kept (
            visit_pull_requests decoder conversions configuration executor fuel start end nodes
              summary records)
    unfolding visit_pull_requests
    visit_pull_requests-Within [] summary records = lifted-Within (ok ((summary, records), false))
    visit_pull_requests-Within (node ∷ nodes) summary records =
        bind_keeps
          (lifted-Within (required_datetime decoder graphql_data_error node (text "createdAt")))
          λ created_at. elim (Bool-cases (leb end.instant created_at.instant)) [
            | inl e ↦ rw e (lifted-Within (ok ((summary, records), true)))
            | inr e ↦ elim (Bool-cases (ltb created_at.instant start.instant)) [
              | inl e' ↦ rw (e, e') (visit_pull_requests-Within nodes summary records)
              | inr e' ↦
                  rw (e, e')
                    (bind_keeps
                      (lifted-Within (required_string decoder graphql_data_error node (text "id")))
                      λ id. bind_keeps (backfill_nested-Within id _ _ _ _) λ reviews.
                        bind_keeps (backfill_nested-Within id _ _ _ _) λ commits.
                          bind_keeps (lifted-Within _) λ r.
                            visit_pull_requests-Within nodes (plus (plus summary reviews) commits)
                              (records ++ r ∷ []))
            ]
          ]

    fetch_pull_requests-Within :
        (cursor : Option Text)
        → Within Kept
            (fetch_pull_requests decoder conversions configuration executor fuel start end cursor)
    unfolding fetch_pull_requests
    fetch_pull_requests-Within cursor = bind_keeps (execute-Within _ _) λ response.
        bind_keeps (lifted-Within (pull_request_page decoder conversions configuration response))
          λ page.
            bind_keeps (visit_pull_requests-Within page.nodes no_work [])
              λ ((work, records), reached). lifted-Within (ok _)

    run-Within : Within Kept (run decoder conversions configuration executor fuel start end)
    unfolding run
    run-Within =
        traverse-Within KeepsRows (λ t k row h. h) (λ t u v f g k row h. g k row (f k row h)) _
          (λ rs c l t. page-KeepsRows _ rs c l t) _ fetch_pull_requests-Within start_cursor fuel

    -- A row that is stored before the traversal is stored unchanged after it.
    pub kept_or_new :
        (s : Store Client) (k : Source × Text)
        → let t = (run decoder conversions configuration executor fuel start end s).1 in
          (lookup k s.tables.raw ≡ none) ⊎ (lookup k t.tables.raw ≡ lookup k s.tables.raw)
    kept_or_new s k = elim (Option-cases (lookup k s.tables.raw)) [
      | inl absent ↦ inl absent
      | inr (row, there) ↦ inr (run-Within.at s k row there ∙ sym there)
    ]
