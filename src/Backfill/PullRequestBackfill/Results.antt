-- ===== src/Backfill/PullRequestBackfill/Results.antt =====
-- src/github_analytics/backfill/github.py: what `GitHubPullRequestBackfill.run` leaves, and what it
-- does when it is run again.
use github_delivery_intellig.Common.{◌≡◌, ◌⊎◌, inl, inr, ℕ, ◌+◌, none, length, arith, pair_eq}
use github_delivery_intellig.Common.Text.{Text, text, text_eq}
use github_delivery_intellig.Common.Table.{lookup}
use github_delivery_intellig.Common.Time.{Datetime}
use github_delivery_intellig.Common.Result.{ok, raise, Result-cases}
use github_delivery_intellig.Common.Action.{Returns, and-Returns}
use github_delivery_intellig.Webhook.Models.{Decoder}
use github_delivery_intellig.Consumers.RawStorage.{Source, source_eq}
use github_delivery_intellig.Backfill.Models.{BackfillRunKey}
use github_delivery_intellig.Backfill.Configuration.{Conversions, Configuration}
use github_delivery_intellig.Backfill.Traversal.{BackfillSummary, Halt, no_work, Store}
use github_delivery_intellig.Backfill.Traversal.Finished.{Finished, Completed, traverse-Returns}
use github_delivery_intellig.Backfill.Traversal.Again.{Checked, traverse-Checked, traverse_again}
use github_delivery_intellig.Backfill.PullRequestBackfill.{GraphQlExecutor, start_cursor, key_for}
use github_delivery_intellig.Backfill.PullRequestBackfill.Run.{run}
use github_delivery_intellig.Backfill.PullRequestBackfill.Kept.{kept_or_new}
use github_delivery_intellig.Backfill.PullRequestBackfill.Counts.{fetch_pull_requests-Nested}

module _ (decoder : Decoder) (conversions : Conversions) (configuration : Configuration)
    (executor : GraphQlExecutor) (fuel : ℕ) (start end : Datetime) where
  open executor use {Client}

  abbrev key : BackfillRunKey
  key = key_for configuration (text "pull_requests") (text "repository") start end

  run-Returns :
      Returns
        (λ s total t. Finished key no_work s total t × Checked key)
        (run decoder conversions configuration executor fuel start end)
  unfolding run
  run-Returns =
      and-Returns
        (traverse-Returns key _
          (fetch_pull_requests-Nested decoder conversions configuration executor fuel start end)
          start_cursor fuel)
        (traverse-Checked key _ start_cursor fuel)

  run_again :
      (fuel' : ℕ) (t : Store Client)
      → Checked key
      → Completed key t.tables
      → run decoder conversions configuration executor fuel' start end t ≡ (ok no_work, t)
  unfolding run
  run_again fuel' t checked done = traverse_again key _ start_cursor fuel' t checked done

  -- Whether the traversal of pull requests returns or raises, and at whatever page, every row
  -- that was stored before is stored unchanged after it. When it returns a summary,
  -- `records_inserted` is the number of rows that were added, by pull requests, reviews and
  -- commits together, and running it again with any fuel returns an empty summary, without a
  -- call of the client and without a change of the tables.
  pub pull_request_run_keeps_and_counts :
      (s : Store Client) (fuel' : ℕ) (k : Source × Text)
      → let (r, t) = run decoder conversions configuration executor fuel start end s in
        ((lookup k s.tables.raw ≡ none) ⊎ (lookup k t.tables.raw ≡ lookup k s.tables.raw))
        × (((e : Halt) × (r ≡ raise e))
            ⊎ (total : BackfillSummary) × (r ≡ ok total)
              × (length t.tables.raw ≡ length s.tables.raw + total.records_inserted)
              × (run decoder conversions configuration executor fuel' start end t
                  ≡ (ok no_work, t)))
  pull_request_run_keeps_and_counts s fuel' k =
      let ran = run decoder conversions configuration executor fuel start end s in
      (
        kept_or_new decoder conversions configuration executor fuel start end s k,
        elim (Result-cases ran.0) [
          | inr (e, h) ↦ inl (e, h)
          | inl (total, h) ↦
              let ((grows, done), checked) = run-Returns.post s total h in
              inr (total, h, omega (arith, grows), run_again fuel' ran.1 checked done)
        ],
      )
