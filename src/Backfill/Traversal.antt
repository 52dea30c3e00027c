-- ===== src/Backfill/Traversal.antt =====
-- src/github_analytics/backfill: what the REST and GraphQL traversals share, which is the loop of
-- each resource over its pages, from the checkpoint on. A resource gives what it fetches at a
-- position; the position after a page, and its cursor, are part of what is fetched. A traversal
-- runs on fuel, one unit for a page of each loop.
pub mod Kept
pub mod Finished
pub mod Again
pub mod Fuel
use github_delivery_intellig.Common.{
  ℕ, zero, suc, ◌+◌, if◌then◌else◌, Bool, true, false, Option, none, some, List, [], ◌∷◌,
}
use github_delivery_intellig.Common.Text.{Text}
use github_delivery_intellig.Common.Result.{Result, ok, raise}
use github_delivery_intellig.Common.Action.{Action, pure, lift, ◌>>=◌}
use github_delivery_intellig.Common.Exception.{Exception}
use github_delivery_intellig.Backfill.Models.{
  CheckpointStatus, completed, in_progress, BackfillRunKey, BackfillCheckpoint, BackfillRecord,
  PageWriteOutcome, check_run_key,
}
use github_delivery_intellig.Backfill.Storage.{BackfillTables, load_checkpoint, persist_page}

-- `BackfillSummary` of github.py
pub record BackfillSummary : Type 0 where
  pub pages_persisted : ℕ
  pub records_inserted : ℕ
  pub duplicates_absorbed : ℕ

-- `BackfillSummary.plus`
unfoldable pub plus : BackfillSummary → BackfillSummary → BackfillSummary
plus a b = record {
  pages_persisted = a.pages_persisted + b.pages_persisted;
  records_inserted = a.records_inserted + b.records_inserted;
  duplicates_absorbed = a.duplicates_absorbed + b.duplicates_absorbed;
}

abbrev pub no_work : BackfillSummary
no_work = record { pages_persisted = 0; records_inserted = 0; duplicates_absorbed = 0 }

-- `_summary`
unfoldable pub summary_of : PageWriteOutcome → BackfillSummary
summary_of outcome = record {
  pages_persisted = 1;
  records_inserted = outcome.inserted;
  duplicates_absorbed = outcome.duplicates;
}

-- `_completed`
unfoldable pub is_completed : Option BackfillCheckpoint → Bool
is_completed none = false
is_completed (some checkpoint) = elim checkpoint.status [ completed ↦ true | in_progress ↦ false ]

-- Why a traversal does not return.
pub data Halt : Type 0 where
  raised : Exception → Halt
  out_of_fuel : Halt

abbrev pub raising {ℓ} : {A : Type ℓ} → Result Exception A → Result Halt A
raising (ok a) = ok a
raising (raise e) = raise (raised e)

-- What the tests after the storage of a page say: it was the last one, the response contradicts
-- itself, or the traversal goes on. The text is the cursor to store.
pub data Ending (P : Type 0) : Type 0 where
  last_page : Ending P
  broken : Option Text → Exception → Ending P
  more : Option Text → P → Ending P

abbrev pub is_last : {P : Type 0} → Ending P → Bool
is_last last_page = true
is_last _ = false

abbrev pub cursor_of : {P : Type 0} → Ending P → Option Text
cursor_of last_page = none
cursor_of (broken cursor e) = cursor
cursor_of (more cursor p) = cursor

-- A page: its records, the work of the traversals nested in it, and what follows it.
pub record Fetched (P : Type 0) : Type 0 where
  pub records : List BackfillRecord
  pub nested : BackfillSummary
  pub ending : Ending P

-- The client of the API, with a state that only its calls change, and the tables.
pub record Store (Client : Type 0) : Type 0 where
  pub client : Client
  pub tables : BackfillTables

abbrev pub Step : Type 0 → Type 0 → Type 0
Step Client A = Action Halt (Store Client) A

abbrev pub lifted : {Client A : Type 0} → Result Exception A → Step Client A
lifted r = lift (raising r)

module _ {Client P : Type 0} where
  -- `self._storage.persist_page`
  unfoldable pub persist : BackfillRunKey → Fetched P → Step Client PageWriteOutcome
  persist key page s =
      let (r, tables') =
        persist_page key page.records (cursor_of page.ending) (is_last page.ending) s.tables in
      (raising r, record s { tables = tables' })

  -- The tests after the storage of a page, and the next turn of the loop.
  unfoldable pub go_on :
      (P → Step Client BackfillSummary) → BackfillSummary → Ending P → Step Client BackfillSummary
  go_on next_turn total last_page = pure total
  go_on next_turn total (broken cursor e) = lift (raise (raised e))
  go_on next_turn total (more cursor next) = next_turn next

  module _ (key : BackfillRunKey) (fetch : P → Step Client (Fetched P)) where
    -- `while True`, with so much fuel left.
    unfoldable pub run_pages : ℕ → P → BackfillSummary → Step Client BackfillSummary
    unfolding persist plus summary_of go_on
    run_pages zero position summary = lift (raise out_of_fuel)
    run_pages (suc fuel) position summary = fetch position >>= λ page.
        persist key page >>= λ outcome.
        let total = plus (plus summary page.nested) (summary_of outcome) in
        go_on (λ next. run_pages fuel next total) total page.ending

    module _ (start : Option BackfillCheckpoint → Result Exception P) (fuel : ℕ) where
      unfoldable pub resume : Option BackfillCheckpoint → Step Client BackfillSummary
      unfolding is_completed run_pages
      resume checkpoint =
          if is_completed checkpoint
          then pure no_work
          else (lifted (start checkpoint) >>= λ position. run_pages fuel position no_work)

      -- A resource from its checkpoint on.
      unfoldable pub traverse : Step Client BackfillSummary
      unfolding load_checkpoint resume
      traverse s = (lifted (check_run_key key) >>= λ k. resume (load_checkpoint key s.tables)) s
