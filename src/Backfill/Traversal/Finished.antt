-- ===== src/Backfill/Traversal/Finished.antt =====
-- src/github_analytics/backfill: what a traversal that returns has done.
use github_delivery_intellig.Common.{
  ◌≡◌, refl, sym, ap, ◌∙◌, inl, inr, ℕ, zero, suc, ◌+◌, true, Option, some, length, arith,
  Bool-cases,
}
use github_delivery_intellig.Common.Result.{Result, ok, raise}
use github_delivery_intellig.Common.Action.{
  Returns, weaken, raise-Returns, lift-Returns, lift-Unmoved, bind-Returns, ◌>>=◌,
}
use github_delivery_intellig.Common.Exception.{Exception}
use github_delivery_intellig.Backfill.Models.{
  BackfillRunKey, BackfillCheckpoint, PageWriteOutcome, check_run_key,
}
use github_delivery_intellig.Backfill.Storage.{
  BackfillTables, load_checkpoint, persist_page, refuses, status_of,
}
use github_delivery_intellig.Backfill.Pages.{page_is_written}
use github_delivery_intellig.Backfill.Traversal.{
  BackfillSummary, plus, summary_of, no_work, is_completed, Ending, raised, last_page, broken, more,
  is_last, cursor_of, Fetched, Store, Step, lifted, raising, persist, run_pages, traverse, resume,
  go_on, out_of_fuel,
}

pub raising-ok : {A : Type 0} (r : Result Exception A) {a : A} → raising r ≡ ok a → r ≡ ok a
raising-ok (ok b) h = cc
raising-ok (raise e) h = absurd (cc)

-- A checkpoint that says `completed`.
abbrev pub Completed : BackfillRunKey → BackfillTables → Type 0
Completed key t = is_completed (load_checkpoint key t) ≡ true

-- The rows grow by what `summary` grows to, and the run is completed.
abbrev pub Finished :
    {Client : Type 0}
    → BackfillRunKey
    → BackfillSummary
    → Store Client
    → BackfillSummary
    → Store Client
    → Type 0
Finished key summary s total t =
    (length t.tables.raw + summary.records_inserted ≡ length s.tables.raw + total.records_inserted)
    × Completed key t.tables

abbrev pub Nested : {Client P : Type 0} → Store Client → Fetched P → Store Client → Type 0
Nested s page t = length t.tables.raw ≡ length s.tables.raw + page.nested.records_inserted

abbrev added : BackfillSummary → BackfillSummary → PageWriteOutcome → BackfillSummary
added summary nested o = plus (plus summary nested) (summary_of o)

-- What the storage of a page that returns leaves.
module _ {Client P : Type 0} (key : BackfillRunKey) where
  persist-stored :
      (page : Fetched P) (s : Store Client) (o : PageWriteOutcome)
      → (persist key page s).0 ≡ ok o
      → (length (persist key page s).1.tables.raw ≡ length s.tables.raw + o.inserted)
        × (load_checkpoint key (persist key page s).1.tables ≡ some o.checkpoint)
        × (o.checkpoint.status ≡ status_of (is_last page.ending))
  unfolding persist
  persist-stored page s o h =
      let stored =
        persist_page key page.records (cursor_of page.ending) (is_last page.ending) s.tables in
      let returned : stored.0 ≡ ok o = raising-ok stored.0 h in
      elim (Bool-cases (refuses key page.records (cursor_of page.ending) (is_last page.ending))) [
        | inl refused ↦ absurd (unfold persist_page in ground arith)
        | inr accepted ↦
            let (o', e, _, grows, _, loaded, _, _, _, status, _) =
              page_is_written key page.records (cursor_of page.ending) (is_last page.ending)
                s.tables accepted in
            let same : o' ≡ o = cc in rw (← same) (grows, loaded, status)
      ]

  -- The rows grow by the new records, and the checkpoint has the page's status.
  abbrev Stored : Ending P → Store Client → PageWriteOutcome → Store Client → Type 0
  Stored ending s o t =
      (length t.tables.raw ≡ length s.tables.raw + o.inserted)
      × (load_checkpoint key t.tables ≡ some o.checkpoint)
      × (o.checkpoint.status ≡ status_of (is_last ending))

  persist-Returns : (page : Fetched P) → Returns (Stored page.ending) (persist key page)
  persist-Returns page = record { post = persist-stored page }

  go_on-Returns :
      (next_turn : P → Step Client BackfillSummary) (summary nested : BackfillSummary)
      → (o : PageWriteOutcome) (ending : Ending P)
      → ((next : P) → Returns (Finished key (added summary nested o)) (next_turn next))
      → Returns
          (λ t b u.
            (s' : Store Client)
            → Stored ending s' o t
            → (s : Store Client)
            → length s'.tables.raw ≡ length s.tables.raw + nested.records_inserted
            → Finished key summary s b u)
          (go_on next_turn (added summary nested o) ending)
  unfolding go_on plus summary_of is_completed
  go_on-Returns next_turn summary nested o last_page h =
      lift-Returns (ok (added summary nested o)) λ t b e s' (grows, loaded, status) s counted.
        let same : added summary nested o ≡ b = cc in
        rw (← same) (omega (arith, grows, counted), rw loaded (rw status refl))
  go_on-Returns next_turn summary nested o (broken cursor x) h = raise-Returns (raised x)
  go_on-Returns next_turn summary nested o (more cursor next) h =
      weaken
        (λ t b u (final, done) s' (grows, loaded, status) s counted.
          (omega (arith, final, grows, counted), done))
        (h next)

  module _ (fetch : P → Step Client (Fetched P))
      (fetch_counts : (p : P) → Returns Nested (fetch p)) where
    run_pages-Returns :
        (fuel : ℕ) (position : P) (summary : BackfillSummary)
        → Returns (Finished key summary) (run_pages key fetch fuel position summary)
    unfolding run_pages
    run_pages-Returns zero position summary = raise-Returns out_of_fuel
    run_pages-Returns (suc fuel) position summary = bind-Returns (fetch_counts position) λ page.
        bind-Returns (persist-Returns page) λ o.
          go_on-Returns _ summary page.nested o page.ending
            λ next. run_pages-Returns fuel next (added summary page.nested o)

    module _ (start : Option BackfillCheckpoint → Result Exception P) (fuel : ℕ) where
      resume-Returns :
          (checkpoint : Option BackfillCheckpoint)
          → Returns
              (λ (s : Store Client) total t.
                load_checkpoint key s.tables ≡ checkpoint → Finished key no_work s total t)
              (resume key fetch start fuel checkpoint)
      unfolding resume
      resume-Returns checkpoint = elim (Bool-cases (is_completed checkpoint)) [
        | inl e ↦ rw e (
            lift-Returns (ok no_work) λ s total h loaded.
              let same : no_work ≡ total = cc in rw (← same) (refl, rw loaded e))
        | inr e ↦ rw e (
            bind-Returns (lift-Unmoved (raising (start checkpoint))) λ position.
              weaken (λ t total u finished s same loaded. rw same finished)
                (run_pages-Returns fuel position no_work))
      ]

      -- A traversal that returns has added as many rows as its summary says, and its run is
      -- completed.
      pub traverse-Returns : Returns (Finished key no_work) (traverse key fetch start fuel)
      unfolding traverse
      traverse-Returns = record {
        post = λ s total h.
            (bind-Returns {T = λ found b t. found ≡ s → Finished key no_work found b t}
                (lift-Unmoved (raising (check_run_key key)))
                λ k.
                  weaken
                    (λ t b u finished found same here.
                      rw same (finished (ap (λ x. load_checkpoint key x.tables) (sym same ∙ here))))
                    (resume-Returns (load_checkpoint key s.tables))).post
              s total h refl;
      }

abbrev pub SameTables : {Client A : Type 0} → Store Client → A → Store Client → Type 0
SameTables s a t = t.tables ≡ s.tables

-- A page without nested work adds no row before it is stored.
pub no_nested :
    {Client P J : Type 0} (m : Step Client J) (page_of : J → Result Exception (Fetched P))
    → Returns SameTables m
    → ((payload : J) (fetched : Fetched P)
        → page_of payload ≡ ok fetched
        → fetched.nested ≡ no_work)
    → Returns Nested (m >>= λ payload. lifted (page_of payload))
no_nested m page_of hm hp = bind-Returns hm λ payload.
    lift-Returns (raising (page_of payload)) λ t page e s same.
      rw (hp payload page (raising-ok (page_of payload) e)) (rw same (omega arith))
