-- ===== src/Backfill/GraphQlClient/Clean.antt =====
-- src/github_analytics/backfill/graphql.py: which responses `execute` returns the data of, and how
-- many requests it sends.
use github_delivery_intellig.Common.{
  ◌≡◌, ◌≢◌, refl, inl, inr, ◌⊎◌, ℕ, zero, suc, ◌+◌, ◌≤◌, ◌<◌, Bool, false, ◌&&◌, Option, some, List,
  [], ◌∷◌, ◌==◌, arith, Bool-cases, Option-cases, ==_iff,
}
use github_delivery_intellig.Common.Text.{Text, text}
use github_delivery_intellig.Common.Json.{Json, object, Fields, get as get_field}
use github_delivery_intellig.Common.Result.{Result, ok, raise}
use github_delivery_intellig.Common.Exception.{
  Exception, graphql_request_error, assertion_error, http_error,
}
use github_delivery_intellig.Backfill.RestClient.{
  Floats, HttpResponse, Network, Log, integer_header,
}
use github_delivery_intellig.Backfill.GraphQlClient.{
  Outcome, data_object, failed, wait, error_messages, is_secondary_limit, has_some, object_body,
  is_zero, retry_primary, retry_secondary, data_in, judge, outcome_of, sent_log, tries, execute,
}

-- The response that data came from: HTTP 200, no error message, and the data itself.
pub record Clean (response : HttpResponse) (data_fields : Fields) : Type 0 where
  pub payload : Fields
  pub is_object : object_body response.body ≡ some payload
  pub is_ok : response.status_code ≡ 200
  pub no_errors : error_messages payload ≡ []
  pub has_data : get_field (text "data") payload ≡ some (object data_fields)

none_of : (errors : List Text) → has_some errors ≡ false → errors ≡ []
none_of [] h = refl
none_of (e ∷ es) h = absurd (cc)

module _ (floats : Floats) (network : Network floats) (max_retries : ℕ)
    (secondary_backoff : floats.Float) where
  -- What an attempt may end with, on the way to the last one.
  abbrev Fits : HttpResponse → ℕ → Outcome floats.Float → Type 0
  Fits response attempt (data_object fs) = Clean response fs
  Fits response attempt (failed e) = e ≢ assertion_error
  Fits response attempt (wait d) = attempt < max_retries

  primary-Fits :
      (response : HttpResponse) (attempt : ℕ) (log : Log floats)
      → Fits response attempt
          (retry_primary floats network max_retries secondary_backoff response.headers attempt log)
  unfolding retry_primary
  primary-Fits response attempt log = ground arith

  secondary-Fits :
      (response : HttpResponse) (attempt : ℕ) (log : Log floats)
      → Fits response attempt (
          retry_secondary floats network max_retries secondary_backoff response.headers attempt log)
  unfolding retry_secondary
  secondary-Fits response attempt log = ground arith

  request_error-apart : graphql_request_error ≢ assertion_error
  request_error-apart h = absurd (cc)

  data_in-Fits :
      (response : HttpResponse) (payload : Fields) (attempt : ℕ)
      → object_body response.body ≡ some payload
      → response.status_code ≡ 200
      → error_messages payload ≡ []
      → (found : Option Json) → get_field (text "data") payload ≡ found
      → Fits response attempt (data_in floats network max_retries secondary_backoff found)
  data_in-Fits response payload attempt body status clean (some (object fs)) has_data = record {
    payload = payload;
    is_object = body;
    is_ok = status;
    no_errors = clean;
    has_data = has_data;
  }
  data_in-Fits response payload attempt body status clean _ has_data = request_error-apart

  judge-Fits :
      (response : HttpResponse) (payload : Fields) (attempt : ℕ) (log : Log floats)
      → object_body response.body ≡ some payload
      → Fits response attempt
          (judge floats network max_retries secondary_backoff response payload attempt log)
  unfolding judge
  judge-Fits response payload attempt log body =
      let errors = error_messages payload in
      let exhausted : Bool =
        has_some errors
        && is_zero floats (integer_header floats response.headers (text "x-ratelimit-remaining")) in
      elim (Bool-cases exhausted) [
        | inl e ↦ rw (e, judge) (primary-Fits response attempt log)
        | inr e ↦
            elim (Bool-cases (is_secondary_limit response.status_code response.headers errors)) [
              | inl e₁ ↦ rw (e, e₁, judge) (secondary-Fits response attempt log)
              | inr e₁ ↦ elim (Bool-cases (response.status_code == 200)) [
                | inr e₂ ↦ rw (e, e₁, e₂, judge) request_error-apart
                | inl e₂ ↦ elim (Bool-cases (has_some errors)) [
                  | inl e₃ ↦ rw (e, e₁, e₂, e₃, judge) request_error-apart
                  | inr e₃ ↦
                      rw (e, e₁, e₂, e₃, judge)
                        (data_in-Fits response payload attempt body
                          ((==_iff response.status_code 200).0 e₂) (none_of errors e₃)
                          (get_field (text "data") payload) refl)
                ]
              ]
            ]
      ]

  outcome_of-Fits :
      (response : HttpResponse) (attempt : ℕ) (log : Log floats)
      → Fits response attempt
          (outcome_of floats network max_retries secondary_backoff response attempt log)
  unfolding outcome_of
  outcome_of-Fits response attempt log = elim (Option-cases (object_body response.body)) [
    | inl e ↦ rw (e, outcome_of) request_error-apart
    | inr (payload, e) ↦ rw (e, outcome_of) (judge-Fits response payload attempt log e)
  ]

  Outcome-cases :
      (o : Outcome floats.Float)
      → ((fs : Fields) × (o ≡ data_object fs))
        ⊎ ((e : Exception) × (o ≡ failed e))
        ⊎ ((d : floats.Float) × (o ≡ wait d))
  Outcome-cases (data_object fs) = inl (fs, refl)
  Outcome-cases (failed e) = inr (inl (e, refl))
  Outcome-cases (wait d) = inr (inr (d, refl))

  -- How a loop with so many attempts left ends.
  abbrev Ends : ℕ → Log floats → Result Exception Fields × Log floats → Type 0
  Ends left log (r, log') =
      (r ≢ raise assertion_error)
      × (log'.requests ≤ log.requests + left)
      × (((e : Exception) × (r ≡ raise e))
          ⊎ (fs : Fields) × (i : ℕ) × (response : HttpResponse) × (r ≡ ok fs)
            × (network.respond i ≡ some response)
            × (log'.requests ≡ suc i)
            × Clean response fs)

  tries-Ends :
      (left attempt : ℕ) (log : Log floats)
      → left + attempt ≡ suc max_retries
      → 0 < left
      → Ends left log (tries floats network max_retries secondary_backoff left attempt log)
  unfolding tries
  tries-Ends zero attempt log sum some_left = absurd (omega arith)
  tries-Ends (suc left) attempt log sum some_left =
      elim (Option-cases (network.respond log.requests)) [
        | inl dropped ↦
            rw (dropped, tries) ((λ h. absurd (cc)), omega arith, inl (http_error, refl))
        | inr (response, came) ↦
            let sent = sent_log floats network max_retries secondary_backoff log in
            let fits = outcome_of-Fits response attempt sent in
            elim (Outcome-cases
              (outcome_of floats network max_retries secondary_backoff response attempt sent)) [
                | inl (fs, e) ↦
                    rw (came, e, tries)
                      (
                        (λ h. absurd (cc)),
                        omega arith,
                        inr (fs, log.requests, response, refl, came, refl, rw e at fits),
                      )
                | inr (inl (x, e)) ↦
                    let other : x ≢ assertion_error = rw e at fits in
                    rw (came, e, tries) ((λ h. other (cc)), omega arith, inl (x, refl))
                | inr (inr (d, e)) ↦
                    let early : attempt < max_retries = rw e at fits in
                    let (never, bound, ends) =
                      tries-Ends left (suc attempt)
                        (record { requests = suc log.requests; waits = d ∷ log.waits })
                        (omega (arith, sum)) (omega (arith, sum, early)) in
                    rw (came, e, tries) (never, omega (arith, bound), ends)
              ]
      ]

  -- `execute` never reaches the `AssertionError` behind its loop and sends at most
  -- `max_retries + 1` requests; and when it returns data, the last response was HTTP 200 with an
  -- object that holds that data and no error message.
  pub execute_returns-Clean :
      (log : Log floats)
      → let (r, log') = execute floats network max_retries secondary_backoff log in
        (r ≢ raise assertion_error)
        × (log'.requests ≤ log.requests + suc max_retries)
        × (((e : Exception) × (r ≡ raise e))
            ⊎ (fs : Fields) × (i : ℕ) × (response : HttpResponse) × (r ≡ ok fs)
              × (network.respond i ≡ some response)
              × (log'.requests ≡ suc i)
              × Clean response fs)
  unfolding execute
  execute_returns-Clean log = tries-Ends (suc max_retries) 0 log (omega arith) (omega arith)
