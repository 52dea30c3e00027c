-- ===== src/Backfill/PullRequestBackfill/Run.antt =====
-- src/github_analytics/backfill/github.py: the calls of the client and the loops. An inner loop
-- gets the same fuel as the outer one.
use github_delivery_intellig.Common.{
  ℕ, Bool, true, false, not, ◌||◌, Option, List, [], ◌∷◌, ◌++◌, if◌then◌else◌, leb, ltb,
}
use github_delivery_intellig.Common.Text.{Text, text}
use github_delivery_intellig.Common.Json.{str, Fields, field}
use github_delivery_intellig.Common.Time.{Datetime}
use github_delivery_intellig.Common.Result.{Result}
use github_delivery_intellig.Common.Action.{pure, ◌>>=◌}
use github_delivery_intellig.Common.Exception.{Exception, graphql_data_error}
use github_delivery_intellig.Webhook.Models.{Decoder}
use github_delivery_intellig.Backfill.Models.{BackfillRecord}
use github_delivery_intellig.Backfill.Configuration.{
  Conversions, Configuration, required_string, required_datetime,
}
use github_delivery_intellig.Backfill.Traversal.{
  BackfillSummary, plus, no_work, Fetched, Step, lifted, raising, traverse,
}
use github_delivery_intellig.Backfill.PullRequestBackfill.{
  Query, pull_requests_query, reviews_query, commits_query, GraphQlExecutor, pull_request_record,
  review_record, commit_record, start_cursor, cursor_ending, page_variables, key_for, nested_page,
  pull_request_page,
}

module _ (decoder : Decoder) (conversions : Conversions) (configuration : Configuration)
    (executor : GraphQlExecutor) where
  open executor use {Client}

  -- `self._client.execute`
  unfoldable pub execute : Query → Fields → Step Client Fields
  execute query variables s =
      let (r, client') = executor.execute query variables s.client in
      (raising r, record s { client = client' })

  unfoldable pub fetch_nested :
      Query
      → Text
      → (Fields → Result Exception BackfillRecord)
      → Text
      → Option Text
      → Step Client (Fetched (Option Text))
  unfolding execute nested_page
  fetch_nested query connection_name record_factory pull_request_id cursor =
      execute query
        (field (text "pullRequestId") (str pull_request_id) (page_variables configuration cursor))
      >>= λ response.
          lifted (nested_page decoder conversions connection_name record_factory response)

  module _ (fuel : ℕ) (start end : Datetime) where
    -- `_backfill_nested`
    unfoldable pub backfill_nested :
        Text
        → Text
        → Text
        → Query
        → (Fields → Result Exception BackfillRecord)
        → Step Client BackfillSummary
    unfolding traverse fetch_nested start_cursor
    backfill_nested pull_request_id resource connection_name query record_factory =
        traverse (key_for configuration resource pull_request_id start end)
          (fetch_nested query connection_name record_factory pull_request_id) start_cursor fuel

    abbrev pub reviews_of : Text → Step Client BackfillSummary
    reviews_of id =
        backfill_nested id (text "pull_request_reviews") (text "reviews") reviews_query
          (review_record decoder conversions configuration id)

    abbrev pub commits_of : Text → Step Client BackfillSummary
    commits_of id =
        backfill_nested id (text "pull_request_commits") (text "commits") commits_query
          (commit_record decoder conversions configuration id)

    -- The inner loop of `run`: the work and the records, and whether the end of the window was
    -- reached.
    unfoldable pub visit_pull_requests :
        List Fields
        → BackfillSummary
        → List BackfillRecord
        → Step Client ((BackfillSummary × List BackfillRecord) × Bool)
    unfolding backfill_nested pull_request_record required_string plus
    visit_pull_requests [] summary records = pure ((summary, records), false)
    visit_pull_requests (node ∷ nodes) summary records =
        lifted (required_datetime decoder graphql_data_error node (text "createdAt"))
        >>= λ created_at.
            if leb end.instant created_at.instant
            then pure ((summary, records), true)
            else if ltb created_at.instant start.instant
            then visit_pull_requests nodes summary records
            else (lifted (required_string decoder graphql_data_error node (text "id")) >>= λ id.
                reviews_of id >>= λ reviews. commits_of id >>= λ commits.
                lifted (pull_request_record decoder conversions configuration node created_at)
                >>= λ r.
                    visit_pull_requests nodes (plus (plus summary reviews) commits)
                      (records ++ r ∷ []))

    unfoldable pub fetch_pull_requests : Option Text → Step Client (Fetched (Option Text))
    unfolding execute pull_request_page visit_pull_requests cursor_ending
    fetch_pull_requests cursor =
        execute pull_requests_query (
          field (text "owner") (str configuration.owner)
            (field (text "name") (str configuration.name) (page_variables configuration cursor)))
        >>= λ response.
            lifted (pull_request_page decoder conversions configuration response) >>= λ page.
            visit_pull_requests page.nodes no_work [] >>= λ ((work, records), reached_window_end).
            pure record {
              records = records;
              nested = work;
              ending = cursor_ending (reached_window_end || not page.has_next_page) page.end_cursor;
            }

    -- `GitHubPullRequestBackfill.run`
    unfoldable pub run : Step Client BackfillSummary
    unfolding traverse fetch_pull_requests start_cursor
    run =
        traverse (key_for configuration (text "pull_requests") (text "repository") start end)
          fetch_pull_requests start_cursor fuel
