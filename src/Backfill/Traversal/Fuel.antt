-- ===== src/Backfill/Traversal/Fuel.antt =====
-- src/github_analytics/backfill: enough fuel for a traversal whose positions run out.
use github_delivery_intellig.Common.{
  ◌≡◌, ◌≢◌, refl, inl, inr, ℕ, zero, suc, ◌<◌, Option, arith, Bool-cases,
}
use github_delivery_intellig.Common.Text.{Text}
use github_delivery_intellig.Common.Result.{Result, ok, raise}
use github_delivery_intellig.Common.Action.{Returns, Never, bind-Never, lift-Never}
use github_delivery_intellig.Common.Exception.{Exception}
use github_delivery_intellig.Backfill.Models.{
  BackfillRunKey, BackfillCheckpoint, PageWriteOutcome, check_run_key,
}
use github_delivery_intellig.Backfill.Storage.{load_checkpoint}
use github_delivery_intellig.Backfill.Traversal.{
  BackfillSummary, plus, summary_of, no_work, is_completed, Ending, last_page, broken, more,
  Fetched, Step, lifted, raising, persist, run_pages, traverse, resume, go_on, out_of_fuel,
}

pub raising-in_fuel : {A : Type 0} (r : Result Exception A) → raising r ≢ raise out_of_fuel
raising-in_fuel (ok a) = λ h. absurd (cc)
raising-in_fuel (raise e) = λ h. absurd (cc)

any_value : {Client A : Type 0} {m : Step Client A} → Returns (λ s a t. Unit {0}) m
any_value = record { post = λ s a h. tt }

pub lifted-Never :
    {Client A : Type 0} (r : Result Exception A) → Never out_of_fuel (lifted {Client = Client} r)
lifted-Never r = lift-Never out_of_fuel (raising r) (raising-in_fuel r)

-- After the page comes one of a smaller rank, if any.
abbrev pub Descends : {P : Type 0} → (P → ℕ) → P → Fetched P → Type 0
Descends {P = P} rank position page =
    (c : Option Text) (next : P) → page.ending ≡ more c next → rank next < rank position

module _ {Client P : Type 0} (rank : P → ℕ) where
  go_on-Never :
      (next_turn : P → Step Client BackfillSummary) (total : BackfillSummary) (ending : Ending P)
      → ((c : Option Text) (next : P) → ending ≡ more c next → Never out_of_fuel (next_turn next))
      → Never out_of_fuel (go_on next_turn total ending)
  unfolding go_on
  go_on-Never next_turn total last_page h = lifted-Never (ok total)
  go_on-Never next_turn total (broken cursor e) h = lifted-Never (raise e)
  go_on-Never next_turn total (more cursor next) h = h cursor next refl

  module _ (key : BackfillRunKey) (fetch : P → Step Client (Fetched P))
      (fetch_ends : (p : P) → Never out_of_fuel (fetch p))
      (fetch_descends : (p : P) → Returns (λ s page t. Descends rank p page) (fetch p)) where
    persist-Never : (page : Fetched P) → Never out_of_fuel (persist {Client = Client} key page)
    unfolding persist
    persist-Never page = record { never = λ s. raising-in_fuel _ }

    run_pages-Never :
        (fuel : ℕ) (position : P) (summary : BackfillSummary)
        → rank position < fuel
        → Never out_of_fuel (run_pages key fetch fuel position summary)
    unfolding run_pages
    run_pages-Never zero position summary enough = absurd (omega arith)
    run_pages-Never (suc fuel) position summary enough =
        bind-Never (fetch_ends position) (fetch_descends position) λ page descends.
          bind-Never {Q = λ o. Unit {0}}
            {f = λ o.
              go_on (λ next. run_pages key fetch fuel next (total page o)) (total page o)
                page.ending}
            (persist-Never page) any_value
            λ o nothing. go_on-Never _ (total page o) page.ending λ c next follows.
              let smaller = descends c next follows in
              run_pages-Never fuel next (total page o) (omega (arith, smaller))
      where
        total : Fetched P → PageWriteOutcome → BackfillSummary
        total page o = plus (plus summary page.nested) (summary_of o)

    module _ (start : Option BackfillCheckpoint → Result Exception P) (fuel : ℕ)
        (enough : (p : P) → rank p < fuel) where
      resume-Never :
          (checkpoint : Option BackfillCheckpoint)
          → Never out_of_fuel (resume key fetch start fuel checkpoint)
      unfolding resume
      resume-Never checkpoint = elim (Bool-cases (is_completed checkpoint)) [
        | inl e ↦ rw e (lifted-Never (ok no_work))
        | inr e ↦ rw e (
            bind-Never {Q = λ p. Unit {0}} (lifted-Never (start checkpoint)) any_value
              λ position nothing. run_pages-Never fuel position no_work (enough position))
      ]

      pub traverse-Never : Never out_of_fuel (traverse key fetch start fuel)
      unfolding traverse
      traverse-Never = record {
        never = λ s.
            (bind-Never {Q = λ k. Unit {0}} (lifted-Never (check_run_key key)) any_value
                λ k nothing. resume-Never (load_checkpoint key s.tables)).never
              s;
      }
