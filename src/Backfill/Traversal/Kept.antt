-- ===== src/Backfill/Traversal/Kept.antt =====
-- src/github_analytics/backfill: what a traversal keeps in the tables, however it ends.
use github_delivery_intellig.Common.{inl, inr, ℕ, zero, suc, Bool, Option, List, Bool-cases}
use github_delivery_intellig.Common.Text.{Text}
use github_delivery_intellig.Common.Result.{Result, ok, raise}
use github_delivery_intellig.Common.Action.{Within, bind-Within, lift-Within, ◌>>=◌}
use github_delivery_intellig.Common.Exception.{Exception}
use github_delivery_intellig.Backfill.Models.{
  BackfillRunKey, BackfillCheckpoint, BackfillRecord, check_run_key,
}
use github_delivery_intellig.Backfill.Storage.{BackfillTables, load_checkpoint, persist_page}
use github_delivery_intellig.Backfill.Traversal.{
  BackfillSummary, plus, summary_of, no_work, is_completed, Ending, last_page, broken, more,
  is_last, cursor_of, Fetched, Store, Step, lifted, raising, persist, run_pages, traverse, resume,
  go_on,
}

-- A relation between the tables before and after, which the storage of a page keeps.
module _ {Client P : Type 0} (R : BackfillTables → BackfillTables → Type 0)
    (keeps : (t : BackfillTables) → R t t)
    (trans : (t u v : BackfillTables) → R t u → R u v → R t v) (key : BackfillRunKey)
    (page_keeps : (rs : List BackfillRecord) (c : Option Text) (l : Bool) (t : BackfillTables)
      → R t (persist_page key rs c l t).1)
    (fetch : P → Step Client (Fetched P)) where
  abbrev Tables : Store Client → Store Client → Type 0
  Tables s t = R s.tables t.tables

  module _ (fetch_keeps : (p : P) → Within Tables (fetch p)) where
    bind_keeps :
        {A B : Type 0} {m : Step Client A} {f : A → Step Client B}
        → Within Tables m
        → ((a : A) → Within Tables (f a))
        → Within Tables (m >>= f)
    bind_keeps = bind-Within λ s t u. trans s.tables t.tables u.tables

    lifted-Within : {A : Type 0} (r : Result Exception A) → Within Tables (lifted r)
    lifted-Within r = lift-Within (λ s. keeps s.tables) (raising r)

    persist-Within : (page : Fetched P) → Within Tables (persist key page)
    unfolding persist
    persist-Within page = record {
      at = λ s. page_keeps page.records (cursor_of page.ending) (is_last page.ending) s.tables;
    }

    go_on-Within :
        (next_turn : P → Step Client BackfillSummary) (total : BackfillSummary) (ending : Ending P)
        → ((p : P) → Within Tables (next_turn p))
        → Within Tables (go_on next_turn total ending)
    unfolding go_on
    go_on-Within next_turn total last_page h = lifted-Within (ok total)
    go_on-Within next_turn total (broken cursor e) h = lifted-Within (raise e)
    go_on-Within next_turn total (more cursor next) h = h next

    run_pages-Within :
        (fuel : ℕ) (position : P) (summary : BackfillSummary)
        → Within Tables (run_pages key fetch fuel position summary)
    unfolding run_pages
    run_pages-Within zero position summary = record { at = λ s. keeps s.tables }
    run_pages-Within (suc fuel) position summary = bind_keeps (fetch_keeps position) λ page.
        bind_keeps (persist-Within page) λ outcome.
          let total = plus (plus summary page.nested) (summary_of outcome) in
          go_on-Within _ total page.ending λ next. run_pages-Within fuel next total

    module _ (start : Option BackfillCheckpoint → Result Exception P) (fuel : ℕ) where
      resume-Within :
          (checkpoint : Option BackfillCheckpoint)
          → Within Tables (resume key fetch start fuel checkpoint)
      unfolding resume
      resume-Within checkpoint = elim (Bool-cases (is_completed checkpoint)) [
        | inl e ↦ rw e (lifted-Within (ok no_work))
        | inr e ↦ rw e (
            bind_keeps (lifted-Within (start checkpoint))
              λ position. run_pages-Within fuel position no_work)
      ]

      pub traverse-Within : Within Tables (traverse key fetch start fuel)
      unfolding traverse
      traverse-Within = record {
        at = λ s.
            (bind_keeps (lifted-Within (check_run_key key))
                λ k. resume-Within (load_checkpoint key s.tables)).at
              s;
      }
