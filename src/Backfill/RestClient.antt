-- ===== src/Backfill/RestClient.antt =====
-- src/github_analytics/backfill/rest.py: `GitHubRestClient.get` with its retries. The numbers that
-- it waits for are Python floats, whose operations and parsers are the parameter `Floats`; the
-- answers of the HTTP client, the clock and the jitter are those of `Network`, by the number of the
-- call. The URL and the header fields that every request sends are left out.
use github_delivery_intellig.Common.{
  ℕ, zero, suc, ◌+◌, ℤ, pos, Bool, true, false, not, ◌&&◌, ◌||◌, Option, none, some, List, [], ◌∷◌,
  if◌then◌else◌, ◌==◌, ◌=?◌, is_some, leb, eq_ℤ, length,
}
use github_delivery_intellig.Common.Text.{Text, text, text_eq, is_empty, lower, is_within}
use github_delivery_intellig.Common.Json.{Json, object, array, str, get as get_field}
use github_delivery_intellig.Common.Result.{Result, ok, raise}
use github_delivery_intellig.Common.Exception.{
  Exception, value_error, rest_request_error, rest_rate_limit_error, assertion_error, http_error,
}

pub record Floats : Type 1 where
  pub Float : Type 0
  pub of_int : ℤ → Float
  pub add : Float → Float → Float
  pub subtract : Float → Float → Float
  pub multiply : Float → Float → Float
  pub max : Float → Float → Float
  pub min : Float → Float → Float
  pub is_nonnegative_float : Float → Bool
  pub tenth : Float
  pub parse_int : Text → Option ℤ
  pub parse_float : Text → Option Float

-- `body` is what `response.json()` gives, and nothing where it raises `ValueError`.
pub record HttpResponse : Type 0 where
  pub status_code : ℕ
  pub headers : List (Text × Text)
  pub body : Option Json

-- What one attempt ends with: a result, an error, or a wait before the next one.
pub data Answer (Float : Type 0) : Type 0 where
  returned : Json → Answer Float
  failed : Exception → Answer Float
  wait : Float → Answer Float

-- `_header`
unfoldable pub header : List (Text × Text) → Text → Option Text
header [] name = none
header ((k, v) ∷ rest) name =
    let later = header rest name in if lower k =? lower name then some v else later

abbrev is_container : Json → Bool
is_container (object fs) = true
is_container (array vs) = true
is_container _ = false

-- `_json_payload`
unfoldable pub json_payload : HttpResponse → Option Json
json_payload response = elim response.body [
  | none ↦ none
  | some j ↦ if is_container j then some j else none
]

abbrev text_or_empty : Option Json → Text
text_or_empty (some (str s)) = s
text_or_empty _ = text ""

-- `_message`
unfoldable pub message_of : Json → Text
message_of (object fs) = text_or_empty (get_field (text "message") fs)
message_of _ = text ""

-- `_is_secondary_limit`
unfoldable pub is_secondary_limit : ℕ → List (Text × Text) → Text → Bool
is_secondary_limit status headers message =
    status == 429
    || (status == 403 && is_some (header headers (text "retry-after")))
    || (status == 403
        && (is_within (text "secondary rate limit") (lower message)
            || is_within (text "abuse detection") (lower message)))

unfoldable pub power_of_two : ℕ → ℕ
power_of_two zero = 1
power_of_two (suc n) = power_of_two n + power_of_two n

module _ (floats : Floats) where
  open floats use {
    Float, of_int, add, subtract, multiply, max, min, is_nonnegative_float, tenth, parse_int,
    parse_float,
  }

  pub record Network : Type 0 where
    pub respond : ℕ → Option HttpResponse
    pub epoch_time : ℕ → Float
    pub jitter : ℕ → Float → Float

  -- The calls made so far: requests, and waits with their lengths.
  pub record Log : Type 0 where
    pub requests : ℕ
    pub waits : List Float

  -- `_integer_header`
  abbrev pub integer_header : List (Text × Text) → Text → Option ℤ
  integer_header headers name = elim (header headers name) [ none ↦ none | some v ↦ parse_int v ]

  abbrev nonnegative : Option Float → Option Float
  nonnegative none = none
  nonnegative (some x) = if is_nonnegative_float x then some x else none

  -- `_float_header`
  abbrev pub float_header : List (Text × Text) → Text → Option Float
  float_header headers name = elim (header headers name) [
    | none ↦ none
    | some v ↦ nonnegative (parse_float v)
  ]

  abbrev is_zero : Option ℤ → Bool
  is_zero none = false
  is_zero (some n) = eq_ℤ n (pos 0)

  module _ (network : Network) (max_retries : ℕ) (secondary_backoff : Float) where
    open network use {respond, epoch_time, jitter}

    -- `_retry_primary`
    unfoldable pub retry_primary : List (Text × Text) → ℕ → Log → Answer Float
    retry_primary headers attempt log =
        if leb max_retries attempt
        then failed rest_rate_limit_error
        else elim (integer_header headers (text "x-ratelimit-reset")) [
          | none ↦ failed rest_rate_limit_error
          | some reset_at ↦ wait (
              add
                (max (of_int (pos 0)) (subtract (of_int reset_at) (epoch_time (length log.waits))))
                (jitter (length log.waits) (of_int (pos 1))))
        ]

    -- `_retry_secondary`
    unfoldable pub retry_secondary : List (Text × Text) → ℕ → Log → Answer Float
    unfolding power_of_two
    retry_secondary headers attempt log =
        if leb max_retries attempt
        then failed rest_rate_limit_error
        else let base : Float = elim (float_header headers (text "retry-after")) [
          | none ↦ multiply secondary_backoff (of_int (pos (power_of_two attempt)))
          | some retry_after ↦ retry_after
        ] in
          wait (add base (jitter (length log.waits) (min (of_int (pos 5)) (multiply base tenth))))

    -- The body of the loop in `get`.
    unfoldable pub answer : HttpResponse → ℕ → Log → Answer Float
    unfolding retry_primary retry_secondary
    answer response attempt log = elim (json_payload response) [
      | none ↦ failed rest_request_error
      | some payload ↦
          if (response.status_code == 403 || response.status_code == 429)
            && is_zero (integer_header response.headers (text "x-ratelimit-remaining"))
          then retry_primary response.headers attempt log
          else if is_secondary_limit response.status_code response.headers (message_of payload)
          then retry_secondary response.headers attempt log
          else if not (response.status_code == 200)
          then failed rest_request_error
          else returned payload
    ]

    -- `for attempt in range(max_retries + 1)`, with so many attempts left.
    unfoldable pub attempts : ℕ → ℕ → Log → Result Exception Json × Log
    unfolding answer
    attempts zero attempt log = (raise assertion_error, log)
    attempts (suc left) attempt log =
        let asked : Log = record { requests = suc log.requests; waits = log.waits } in
        elim (respond log.requests) [
          | none ↦ (raise http_error, asked)
          | some response ↦ elim (answer response attempt asked) [
            | returned payload ↦ (ok payload, asked)
            | failed e ↦ (raise e, asked)
            | wait delay ↦
                attempts left (suc attempt)
                  (record { requests = asked.requests; waits = delay ∷ asked.waits })
          ]
        ]

    -- `GitHubRestClient.get`
    unfoldable pub get : Text → Log → Result Exception Json × Log
    unfolding attempts
    get path log =
        if is_empty path then (raise value_error, log) else attempts (suc max_retries) 0 log
