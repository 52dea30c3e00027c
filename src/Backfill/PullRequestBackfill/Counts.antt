-- ===== src/Backfill/PullRequestBackfill/Counts.antt =====
-- src/github_analytics/backfill/github.py: the rows that a page of the traversal of pull requests adds,
-- with its nested traversals.
use github_delivery_intellig.Common.{
  ◌≡◌, refl, ap, inl, inr, ℕ, ◌+◌, Bool, true, false, not, Option, List, [], ◌∷◌, ◌++◌, length,
  arith, Bool-cases, leb, ltb,
}
use github_delivery_intellig.Common.{inl, inr, pair_eq}
use github_delivery_intellig.Common.Text.{Text, text}
use github_delivery_intellig.Common.Json.{Fields, get}
use github_delivery_intellig.Common.Time.{Datetime}
use github_delivery_intellig.Common.Result.{Result, ok, bound, refuse_if}
use github_delivery_intellig.Common.Action.{
  Returns, weaken, lift-Returns, lift-Unmoved, bind-Returns,
}
use github_delivery_intellig.Common.Exception.{Exception, graphql_data_error}
use github_delivery_intellig.Webhook.Models.{Decoder}
use github_delivery_intellig.Common.Text.{text_eq}
use github_delivery_intellig.Consumers.RawStorage.{source_eq}
use github_delivery_intellig.Backfill.Models.{BackfillRecord}
use github_delivery_intellig.Backfill.Configuration.{
  Conversions, Configuration, required_object, required_string, required_datetime, equals_text,
}
use github_delivery_intellig.Backfill.Traversal.{
  BackfillSummary, plus, no_work, Fetched, Store, lifted, raising,
}
use github_delivery_intellig.Backfill.Traversal.Finished.{
  Nested, SameTables, no_nested, traverse-Returns,
}
use github_delivery_intellig.Backfill.PullRequestBackfill.{
  Query, GraphQlExecutor, connection_page, pull_request_record, start_cursor, nested_page,
  pull_request_page, all_records,
}
use github_delivery_intellig.Backfill.PullRequestBackfill.Run.{
  execute, fetch_nested, backfill_nested, visit_pull_requests, fetch_pull_requests,
}

module _ (decoder : Decoder) (conversions : Conversions) (configuration : Configuration) where
  nested_page-nested :
      (connection_name : Text) (factory : Fields → Result Exception BackfillRecord)
      → (response : Fields) (fetched : Fetched (Option Text))
      → nested_page decoder conversions connection_name factory response ≡ ok fetched
      → fetched.nested ≡ no_work
  unfolding nested_page
  nested_page-nested connection_name factory response fetched h =
      bound (required_object decoder graphql_data_error response (text "node")) _ h λ node e₁ h₁.
        bound
          (refuse_if (not (equals_text (text "PullRequest") (get (text "__typename") node)))
            graphql_data_error)
          _ h₁
          λ u e₂ h₂.
            bound (connection_page decoder conversions node connection_name) _ h₂
              λ page e₃ h₃. bound (all_records factory page.nodes) _ h₃ λ records e₄ h₄. cc

  module _ (executor : GraphQlExecutor) where
    open executor use {Client}

    execute-SameTables :
        (query : Query) (variables : Fields)
        → Returns SameTables (execute decoder conversions configuration executor query variables)
    unfolding execute
    execute-SameTables query variables = record { post = λ s a h. refl }

    fetch_nested-Nested :
        (query : Query) (connection_name : Text)
        → (factory : Fields → Result Exception BackfillRecord) (id : Text) (cursor : Option Text)
        → Returns Nested (
            fetch_nested decoder conversions configuration executor query connection_name factory id
              cursor)
    unfolding fetch_nested
    fetch_nested-Nested query connection_name factory id cursor =
        no_nested _ _ (execute-SameTables _ _) (nested_page-nested connection_name factory)

    module _ (fuel : ℕ) (start end : Datetime) where
      -- The rows grow as a summary does.
      abbrev Grows : Store Client → BackfillSummary → Store Client → Type 0
      Grows s work t = length t.tables.raw ≡ length s.tables.raw + work.records_inserted

      backfill_nested-Grows :
          (id resource connection_name : Text) (query : Query)
          → (factory : Fields → Result Exception BackfillRecord)
          → Returns Grows (
              backfill_nested decoder conversions configuration executor fuel start end id resource
                connection_name query factory)
      unfolding backfill_nested
      backfill_nested-Grows id resource connection_name query factory =
          weaken (λ s work t (grows, done). omega (arith, grows))
            (traverse-Returns _ _ (fetch_nested-Nested query connection_name factory id)
              start_cursor fuel)

      abbrev Counted :
          BackfillSummary
          → Store Client
          → (BackfillSummary × List BackfillRecord) × Bool
          → Store Client
          → Type 0
      Counted summary s ((work, records), reached) t =
          length t.tables.raw + summary.records_inserted
          ≡ length s.tables.raw + work.records_inserted

      lifted-Counted :
          (summary : BackfillSummary) (records : List BackfillRecord) (reached : Bool)
          → Returns {E = _} (Counted summary) (lifted (ok ((summary, records), reached)))
      lifted-Counted summary records reached =
          lift-Returns (ok ((summary, records), reached))
            λ s result e. let same : ((summary, records), reached) ≡ result = cc in rw (← same) refl

      visit_pull_requests-Counted :
          (nodes : List Fields) (summary : BackfillSummary) (records : List BackfillRecord)
          → Returns (Counted summary) (
              visit_pull_requests decoder conversions configuration executor fuel start end nodes
                summary records)
      unfolding visit_pull_requests plus
      visit_pull_requests-Counted [] summary records = lifted-Counted summary records false
      visit_pull_requests-Counted (node ∷ nodes) summary records =
          bind-Returns
            (lift-Unmoved
              (raising (required_datetime decoder graphql_data_error node (text "createdAt"))))
            λ created_at. elim (Bool-cases (leb end.instant created_at.instant)) [
              | inl e ↦ rw e (
                  weaken (λ t result u counted s same. rw same counted)
                    (lifted-Counted summary records true))
              | inr e ↦ rw e (elim (Bool-cases (ltb created_at.instant start.instant)) [
                | inl e' ↦ rw e' (
                    weaken (λ t result u counted s same. rw same counted)
                      (visit_pull_requests-Counted nodes summary records))
                | inr e' ↦ rw e' (
                    bind-Returns
                      (lift-Unmoved
                        (raising (required_string decoder graphql_data_error node (text "id"))))
                      λ id. bind-Returns (backfill_nested-Grows id _ _ _ _) λ reviews.
                        bind-Returns (backfill_nested-Grows id _ _ _ _) λ commits.
                          bind-Returns
                            (lift-Unmoved (
                              raising (
                                pull_request_record decoder conversions configuration node
                                  created_at)))
                            λ r.
                              weaken
                                (λ s₅ result t counted s₄ p₄ s₃ more₃ s₂ more₂ s₁ p₁ s p.
                                  let moved : length s₄.tables.raw ≡ length s₅.tables.raw =
                                    ap (λ x. length x.tables.raw) p₄ in
                                  rw p (rw p₁ (omega (arith, moved, more₃, more₂, counted))))
                                (visit_pull_requests-Counted nodes
                                  (plus (plus summary reviews) commits) (records ++ r ∷ [])))
              ])
            ]

      pub fetch_pull_requests-Nested :
          (cursor : Option Text)
          → Returns Nested
              (fetch_pull_requests decoder conversions configuration executor fuel start end cursor)
      unfolding fetch_pull_requests
      fetch_pull_requests-Nested cursor = bind-Returns (execute-SameTables _ _) λ response.
          bind-Returns
            (lift-Unmoved (raising (pull_request_page decoder conversions configuration response)))
            λ page.
              bind-Returns (visit_pull_requests-Counted page.nodes no_work [])
                λ ((work, records), reached).
                  lift-Returns (ok _) λ s₃ fetched e s₂ counted s₁ moved s same.
                    let is_work : fetched.nested ≡ work = cc in
                    let still : length s₁.tables.raw ≡ length s₂.tables.raw =
                      ap (λ x. length x.tables.raw) moved in
                    let fetched_rows : length s₁.tables.raw ≡ length s.tables.raw =
                      ap (λ t. length t.raw) same in
                    rw is_work (omega (arith, counted, still, fetched_rows))
