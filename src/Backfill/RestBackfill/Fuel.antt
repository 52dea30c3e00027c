-- ===== src/Backfill/RestBackfill/Fuel.antt =====
-- src/github_analytics/backfill/rest_backfill.py: the loop over workflow runs ends.
use native.Mathlib.Nat.{le-mul_of_pos_right}
use github_delivery_intellig.Common.{
  ◌≡◌, ◌≢◌, ◌∙◌, ℕ, ◌+◌, ◌-◌, ◌*◌, ◌≤◌, ◌<◌, ℤ, pos, negsuc, not, ◌||◌, Option, none, some, List,
  [], ◌∷◌, arith, ltb, is_positive,
}
use github_delivery_intellig.Common.Text.{Text, text, is_empty, split_once}
use github_delivery_intellig.Common.Json.{Json, Fields}
use github_delivery_intellig.Common.Time.{Datetime}
use github_delivery_intellig.Common.Result.{ok, raise, bound, refuse_if, require}
use github_delivery_intellig.Common.Action.{Returns, Never, bind-Never, bind-Returns, lift-Returns}
use github_delivery_intellig.Common.Exception.{Exception, rest_data_error, value_error}
use github_delivery_intellig.Webhook.Models.{Decoder}
use github_delivery_intellig.Backfill.Configuration.{
  Conversions, Configuration, configure, has_slash, page_size_of,
}
use github_delivery_intellig.Backfill.Traversal.{more, Fetched, Store, lifted, raising, out_of_fuel}
use github_delivery_intellig.Backfill.Traversal.Finished.{raising-ok}
use github_delivery_intellig.Backfill.Traversal.Fuel.{
  Descends, raising-in_fuel, lifted-Never, traverse-Never,
}
use github_delivery_intellig.Backfill.RestBackfill.{
  RestExecutor, next_page, workflow_run_page, workflow_run_ending, required_object_payload,
  required_nonnegative_int, required_object_list, workflow_run_records, max_filtered_workflow_runs,
}
use github_delivery_intellig.Backfill.RestBackfill.Run.{
  fetch_json, fetch_workflow_runs, run_workflow_runs,
}

page_size_of-bound : (n : ℤ) (size : ℕ) → page_size_of n ≡ some size → (0 < size) × (size ≤ 100)
page_size_of-bound (pos n) size h = ground arith
page_size_of-bound (negsuc n) size h = absurd (cc)

require-found :
    {A : Type 0} (o : Option A) (e : Exception) {a : A} → require o e ≡ ok a → o ≡ some a
require-found none e h = absurd (cc)
require-found (some b) e h = cc

-- What the constructor accepts has a page size from 1 to 100.
configure-page_size :
    (repository : Text) (id installation size : ℤ) (c : Configuration)
    → configure repository id installation size ≡ ok c
    → (0 < c.page_size) × (c.page_size ≤ 100)
unfolding configure
configure-page_size repository id installation size c h =
    bound (require (split_once 47 repository) value_error) _ h λ (owner, name) e₁ h₁.
      bound (refuse_if (is_empty owner || is_empty name || has_slash name) value_error) _ h₁
        λ u e₂ h₂.
          bound (refuse_if (not (is_positive id) || not (is_positive installation)) value_error) _
            h₂
            λ v e₃ h₃. bound (require (page_size_of size) value_error) _ h₃ λ n e₄ h₄.
              let same : n ≡ c.page_size = cc in
              rw (← same) (page_size_of-bound size n (require-found _ value_error e₄))

module _ (decoder : Decoder) (conversions : Conversions) (configuration : Configuration)
    (sized : 0 < configuration.page_size) where
  abbrev rank : ℕ → ℕ
  rank page = max_filtered_workflow_runs - page

  ending-descends :
      (page total : ℕ) (nodes : List Fields) (c : Option Text) (next : ℕ)
      → total ≤ max_filtered_workflow_runs
      → workflow_run_ending decoder conversions configuration page total nodes ≡ more c next
      → rank next < rank page
  unfolding workflow_run_ending
  ending-descends page total [] c next capped h = absurd (ground arith)
  ending-descends page total (node ∷ nodes) c next capped h =
      let at_least : page ≤ page * configuration.page_size = le-mul_of_pos_right page sized in
      let follows : next ≡ page + 1 = ground arith in
      let early : page * configuration.page_size < total = ground arith in
      omega (arith, at_least, follows, early)

  workflow_run_page-Descends :
      (start end : Datetime) (page : ℕ) (payload : Json) (fetched : Fetched ℕ)
      → workflow_run_page decoder conversions configuration start end page payload ≡ ok fetched
      → Descends rank page fetched
  unfolding workflow_run_page
  workflow_run_page-Descends start end page payload fetched h =
      bound (required_object_payload payload) _ h λ response e₁ h₁.
        bound (required_nonnegative_int response (text "total_count")) _ h₁ λ total e₂ h₂.
          bound (refuse_if (ltb max_filtered_workflow_runs total) rest_data_error) _ h₂ λ u e₃ h₃.
            bound (required_object_list response (text "workflow_runs")) _ h₃ λ nodes e₄ h₄.
              bound (workflow_run_records decoder conversions configuration start end nodes) _ h₄
                λ records e₅ h₅.
                  let capped : total ≤ max_filtered_workflow_runs = ground arith in
                  let same : workflow_run_ending decoder conversions configuration page total nodes
                      ≡ fetched.ending =
                    cc in
                  λ c next follows. ending-descends page total nodes c next capped (same ∙ follows)

  module _ (executor : RestExecutor) (start end : Datetime) where
    open executor use {Client}

    fetch-Never :
        (page : ℕ)
        → Never out_of_fuel
            (fetch_workflow_runs decoder conversions configuration executor start end page)
    unfolding fetch_workflow_runs fetch_json
    fetch-Never page =
        bind-Never {Q = λ j. Unit {0}}
          {f = λ payload.
            lifted (workflow_run_page decoder conversions configuration start end page payload)}
          (record { never = λ s. raising-in_fuel _ }) (record { post = λ s a h. tt })
          λ payload nothing. lifted-Never _

    fetch-Descends :
        (page : ℕ)
        → Returns
            (λ s fetched t. Descends rank page fetched)
            (fetch_workflow_runs decoder conversions configuration executor start end page)
    unfolding fetch_workflow_runs
    fetch-Descends page =
        bind-Returns {Q = λ s a t. Unit {0}} (record { post = λ s a h. tt })
          λ payload.
            lift-Returns
              (raising (workflow_run_page decoder conversions configuration start end page payload))
              λ t fetched e s nothing.
                workflow_run_page-Descends start end page payload fetched (raising-ok _ e)

    runs-Never :
        (fuel : ℕ)
        → max_filtered_workflow_runs < fuel
        → Never out_of_fuel
            (run_workflow_runs decoder conversions configuration executor fuel start end)
    unfolding run_workflow_runs
    runs-Never fuel enough =
        traverse-Never rank _ _ fetch-Never fetch-Descends (next_page decoder conversions) fuel
          λ page. omega arith

-- With what the constructor accepts, the loop over workflow runs ends within 1001 pages, whatever
-- the API answers, whatever the checkpoint says and whatever the tables hold: it returns or
-- raises.
pub workflow_runs_terminate :
    (decoder : Decoder) (conversions : Conversions) (executor : RestExecutor) (repository : Text)
    → (id installation size : ℤ) (c : Configuration) (start end : Datetime) (fuel : ℕ)
    → (s : Store executor.Client) → configure repository id installation size ≡ ok c
    → 1000 < fuel
    → (run_workflow_runs decoder conversions c executor fuel start end s).0 ≢ raise out_of_fuel
workflow_runs_terminate decoder conversions executor repository id installation size c start end
      fuel s made enough =
    let (sized, _) = configure-page_size repository id installation size c made in
    (runs-Never decoder conversions c sized executor start end fuel enough).never s
