-- ===== src/Backfill/GraphQlClient.antt =====
-- src/github_analytics/backfill/graphql.py: `GitHubGraphQLClient.execute` with its retries. The
-- floats, the answers of the HTTP client, the clock, the jitter and the readers of headers are those
-- of RestClient.antt; the fields that every request sends are left out.
pub mod Clean
use github_delivery_intellig.Common.{
  ◌≡◌, ◌≢◌, refl, inl, inr, ℕ, zero, suc, ℤ, pos, Bool, true, false, not, ◌&&◌, ◌||◌, Option, none,
  some, List, [], ◌∷◌, if◌then◌else◌, ◌==◌, is_some, leb, eq_ℤ, length, any, arith, Bool-cases,
  Option-cases,
}
use github_delivery_intellig.Common.Text.{Text, text, lower, is_within}
use github_delivery_intellig.Common.Json.{
  Json, object, str, Fields, get as get_field, as_object, as_text, as_list,
}
use github_delivery_intellig.Common.Result.{Result, ok, raise}
use github_delivery_intellig.Common.Exception.{
  Exception, graphql_request_error, rate_limit_error, assertion_error, http_error,
}
use github_delivery_intellig.Backfill.RestClient.{
  Floats, HttpResponse, Network, Log, header, integer_header, float_header, power_of_two,
}

-- What one attempt ends with: the data, an error, or a wait before the next one.
pub data Outcome (Float : Type 0) : Type 0 where
  data_object : Fields → Outcome Float
  failed : Exception → Outcome Float
  wait : Float → Outcome Float

abbrev with_message : Json → List Text → List Text
with_message (object fs) messages = elim (get_field (text "message") fs) [
  | some (str m) ↦ m ∷ messages
  | _ ↦ messages
]
with_message _ messages = messages

collect_messages : List Json → List Text
collect_messages [] = []
collect_messages (error ∷ errors) = with_message error (collect_messages errors)

-- `_error_messages`
unfoldable pub error_messages : Fields → List Text
unfolding collect_messages
error_messages payload = elim (get_field (text "errors") payload) [
  | none ↦ []
  | some value ↦ elim (as_list value) [ none ↦ [] | some errors ↦ collect_messages errors ]
]

-- `_is_secondary_limit`
unfoldable pub is_secondary_limit : ℕ → List (Text × Text) → List Text → Bool
is_secondary_limit status headers errors =
    (status == 429 || is_some (header headers (text "retry-after")))
    || any
        (λ message.
          is_within (text "secondary rate limit") (lower message)
          || is_within (text "abuse detection") (lower message))
        errors

abbrev has_some : List Text → Bool
has_some [] = false
has_some (e ∷ es) = true

abbrev object_body : Option Json → Option Fields
object_body none = none
object_body (some j) = as_object j

module _ (floats : Floats) where
  open floats use {Float, of_int, add, subtract, multiply, max, min, tenth}

  abbrev is_zero : Option ℤ → Bool
  is_zero none = false
  is_zero (some n) = eq_ℤ n (pos 0)

  module _ (network : Network floats) (max_retries : ℕ) (secondary_backoff : Float) where
    open network use {respond, epoch_time, jitter}

    -- `_retry_primary`
    unfoldable pub retry_primary : List (Text × Text) → ℕ → Log floats → Outcome Float
    retry_primary headers attempt log =
        if leb max_retries attempt
        then failed rate_limit_error
        else elim (integer_header floats headers (text "x-ratelimit-reset")) [
          | none ↦ failed rate_limit_error
          | some reset_at ↦ wait (
              add
                (max (of_int (pos 0)) (subtract (of_int reset_at) (epoch_time (length log.waits))))
                (jitter (length log.waits) (of_int (pos 1))))
        ]

    -- `_retry_secondary`
    unfoldable pub retry_secondary : List (Text × Text) → ℕ → Log floats → Outcome Float
    unfolding power_of_two
    retry_secondary headers attempt log =
        if leb max_retries attempt
        then failed rate_limit_error
        else let base : Float = elim (float_header floats headers (text "retry-after")) [
          | none ↦ multiply secondary_backoff (of_int (pos (power_of_two attempt)))
          | some retry_after ↦ retry_after
        ] in
          wait (add base (jitter (length log.waits) (min (of_int (pos 5)) (multiply base tenth))))

    abbrev data_in : Option Json → Outcome Float
    data_in (some (object fs)) = data_object fs
    data_in _ = failed graphql_request_error

    -- The body of the loop in `execute`, for a response whose body is an object.
    unfoldable pub judge : HttpResponse → Fields → ℕ → Log floats → Outcome Float
    unfolding retry_primary retry_secondary error_messages is_secondary_limit
    judge response payload attempt log =
        let errors = error_messages payload in
        if has_some errors
          && is_zero (integer_header floats response.headers (text "x-ratelimit-remaining"))
        then retry_primary response.headers attempt log
        else if is_secondary_limit response.status_code response.headers errors
        then retry_secondary response.headers attempt log
        else if not (response.status_code == 200)
        then failed graphql_request_error
        else if has_some errors
        then failed graphql_request_error
        else data_in (get_field (text "data") payload)

    -- `_json_object`, and the body of the loop.
    unfoldable pub outcome_of : HttpResponse → ℕ → Log floats → Outcome Float
    unfolding judge
    outcome_of response attempt log = elim (object_body response.body) [
      | none ↦ failed graphql_request_error
      | some payload ↦ judge response payload attempt log
    ]

    abbrev sent_log : Log floats → Log floats
    sent_log log = record { requests = suc log.requests; waits = log.waits }

    -- `for attempt in range(max_retries + 1)`, with so many attempts left.
    unfoldable pub tries : ℕ → ℕ → Log floats → Result Exception Fields × Log floats
    unfolding outcome_of
    tries zero attempt log = (raise assertion_error, log)
    tries (suc left) attempt log = elim (respond log.requests) [
      | none ↦ (raise http_error, sent_log log)
      | some response ↦ elim (outcome_of response attempt (sent_log log)) [
        | data_object fs ↦ (ok fs, sent_log log)
        | failed e ↦ (raise e, sent_log log)
        | wait delay ↦
            tries left (suc attempt)
              (record { requests = suc log.requests; waits = delay ∷ log.waits })
      ]
    ]

    -- `GitHubGraphQLClient.execute`
    unfoldable pub execute : Log floats → Result Exception Fields × Log floats
    unfolding tries
    execute log = tries (suc max_retries) 0 log
