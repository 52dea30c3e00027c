-- ===== src/Backfill/RestBounds.antt =====
-- src/github_analytics/backfill/rest.py: the requests and waits of `get`.
use github_delivery_intellig.Common.{
  ℕ, zero, suc, ◌+◌, ◌≤◌, ◌<◌, ◌≡◌, ◌≢◌, refl, ◌⊎◌, inl, inr, true, false, List, [], ◌∷◌, length,
  arith, Option-cases, Bool-cases,
}
use github_delivery_intellig.Common.Text.{Text, is_empty}
use github_delivery_intellig.Common.Json.{Json}
use github_delivery_intellig.Common.Result.{raise}
use github_delivery_intellig.Common.Exception.{Exception, assertion_error, value_error}
use github_delivery_intellig.Backfill.RestClient
use github_delivery_intellig.Backfill.RestClient.{
  Floats, HttpResponse, Answer, returned, failed, wait, json_payload, is_secondary_limit, Network,
  Log, retry_primary, retry_secondary, answer, attempts,
}

Answer-cases :
    {F : Type 0} (a : Answer F)
    → ((j : Json) × (a ≡ returned j))
      ⊎ (((e : Exception) × (a ≡ failed e)) ⊎ ((d : F) × (a ≡ wait d)))
Answer-cases (returned j) = inl (j, refl)
Answer-cases (failed e) = inr (inl (e, refl))
Answer-cases (wait d) = inr (inr (d, refl))

module _ (floats : Floats) (network : Network floats) (max_retries : ℕ)
    (secondary_backoff : floats.Float) where
  -- Only an attempt before the last one ends with a wait.
  abbrev Fits : ℕ → Answer floats.Float → Type 0
  Fits attempt (returned j) = Unit
  Fits attempt (failed e) = e ≢ assertion_error
  Fits attempt (wait d) = attempt < max_retries

  primary-Fits :
      (headers : List (Text × Text)) (attempt : ℕ) (log : Log floats)
      → Fits attempt
          (retry_primary floats network max_retries secondary_backoff headers attempt log)
  unfolding retry_primary
  primary-Fits headers attempt log = ground arith

  secondary-Fits :
      (headers : List (Text × Text)) (attempt : ℕ) (log : Log floats)
      → Fits attempt
          (retry_secondary floats network max_retries secondary_backoff headers attempt log)
  unfolding retry_secondary
  secondary-Fits headers attempt log = ground arith

  answer-Fits :
      (response : HttpResponse) (attempt : ℕ) (log : Log floats)
      → Fits attempt (answer floats network max_retries secondary_backoff response attempt log)
  unfolding answer
  answer-Fits response attempt log = ground (
    arith,
    primary-Fits response.headers attempt log,
    secondary-Fits response.headers attempt log,
  )

  attempts-bounds :
      (left attempt : ℕ) (log : Log floats)
      → left + attempt ≡ suc max_retries
      → 0 < left
      → let (r, log') = attempts floats network max_retries secondary_backoff left attempt log in
        (r ≢ raise assertion_error)
        × (log'.requests ≤ log.requests + left)
        × (suc (length log'.waits) ≤ length log.waits + left)
        × (log'.requests + length log.waits ≡ suc (log.requests + length log'.waits))
  unfolding attempts
  attempts-bounds zero attempt log sum some_left = absurd (omega arith)
  attempts-bounds (suc left) attempt log sum some_left =
      elim (Option-cases (network.respond log.requests)) [
        | inl dropped ↦ ground arith
        | inr (response, came) ↦
            let asked : Log floats = record { requests = suc log.requests; waits = log.waits } in
            let a = answer floats network max_retries secondary_backoff response attempt asked in
            let fits : Fits attempt a = answer-Fits response attempt asked in
            elim (Answer-cases a) [
              | inl (j, e) ↦ ground arith
              | inr (inl (x, e)) ↦ let other : x ≢ assertion_error = rw e at fits in ground arith
              | inr (inr (d, e)) ↦
                  let early : attempt < max_retries = rw e at fits in
                  let next : Log floats = record {
                    requests = suc log.requests;
                    waits = d ∷ log.waits;
                  } in
                  ground
                    (arith, attempts-bounds left (suc attempt) next (omega arith) (omega arith))
            ]
      ]

  -- From a fresh log, `get` sends at most `max_retries + 1` requests, waits at most `max_retries`
  -- times, and has waited once for every request but the last; it never reaches the `AssertionError`
  -- behind its loop. Without a path it raises `ValueError` and sends nothing.
  pub get-bounds :
      (path : Text) (log : Log floats)
      → log.requests ≡ 0
      → log.waits ≡ []
      → let (r, log') = RestClient.get floats network max_retries secondary_backoff path log in
        (r ≢ raise assertion_error)
        × (log'.requests ≤ suc max_retries)
        × (length log'.waits ≤ max_retries)
        × (((is_empty path ≡ true) × (r ≡ raise value_error) × (log' ≡ log))
            ⊎ ((is_empty path ≡ false) × (log'.requests ≡ suc (length log'.waits))))
  unfolding RestClient.get
  get-bounds path log fresh still = elim (Bool-cases (is_empty path)) [
    | inl nothing ↦ ground arith
    | inr there ↦
        ground (arith, attempts-bounds (suc max_retries) 0 log (omega arith) (omega arith))
  ]
