-- ===== src/Webhook/Models.antt =====
-- src/github_analytics/webhook/models.py: the event names, the envelope and its validation.
-- pydantic's own work, which turns a JSON value into an int, str, bool or datetime, and the two
-- JSON parsers are the parameters of `Decoder`; the constraints that the classes declare are here.
pub mod Valid
use mathlib.Core.List.{reverse}
use github_delivery_intellig.Common.{
  ℕ, ℤ, Bool, true, false, not, ◌&&◌, Option, none, some, List, [], ◌∷◌, if◌then◌else◌, ◌==◌,
  is_positive, eq_ℤ, ◌=?◌, any, all,
}
use github_delivery_intellig.Common.Text.{Text, text, text_eq, trim, is_empty, is_white}
use github_delivery_intellig.Common.Json.{Json, Fields, no_fields, field, get, as_object}
use github_delivery_intellig.Common.Maybe.{◌>>=◌, ◌>>◌, only_if}
use github_delivery_intellig.Common.Exception.{Exception}
use github_delivery_intellig.Common.Time.{Datetime}

-- A Kafka value or an HTTP body.
pub record Bytes : Type 0 where
  pub octets : List ℕ

-- What `json.loads` gives for bytes: a value, `UnicodeDecodeError` or `JSONDecodeError`, or another
-- exception (for a number of too many digits, or a nesting that is too deep).
pub data Parsed : Type 0 where
  parsed : Json → Parsed
  undecodable : Parsed
  escaping : Exception → Parsed

-- `loads` is `json.loads`; `model_loads` is the parser behind `model_validate_json`, which gives
-- nothing for what it rejects. The others are pydantic's conversions.
pub record Decoder : Type 0 where
  pub loads : Bytes → Parsed
  pub model_loads : Bytes → Option Json
  pub to_int : Json → Option ℤ
  pub to_text : Json → Option Text
  pub to_bool : Json → Option Bool
  pub to_datetime : Json → Option Datetime

pub data GitHubEventName : Type 0 where
  pull_request pull_request_review workflow_run deployment deployment_status : GitHubEventName

-- `GitHubEventName(value)`, which raises `ValueError` where this gives nothing.
unfoldable pub event_name_of : Text → Option GitHubEventName
event_name_of s =
    if s =? text "pull_request"
    then some pull_request
    else if s =? text "pull_request_review"
    then some pull_request_review
    else if s =? text "workflow_run"
    then some workflow_run
    else if s =? text "deployment"
    then some deployment
    else if s =? text "deployment_status"
    then some deployment_status
    else none

-- `event_name.value`
unfoldable pub event_name_text : GitHubEventName → Text
event_name_text pull_request = text "pull_request"
event_name_text pull_request_review = text "pull_request_review"
event_name_text workflow_run = text "workflow_run"
event_name_text deployment = text "deployment"
event_name_text deployment_status = text "deployment_status"

split_slash : List ℕ → List ℕ → Option (List ℕ × List ℕ)
split_slash before [] = none
split_slash before (c ∷ cs) =
    if c == b'/' then some (reverse before, cs) else split_slash (c ∷ before) cs

has_any : List ℕ → Bool
has_any [] = false
has_any (c ∷ cs) = true

name_part : List ℕ → Bool
unfolding has_any is_white
name_part cs = has_any cs && all (λ c. not (c == b'/') && not (is_white c)) cs

-- The pattern `^[^/\s]+/[^/\s]+$`.
unfoldable pub matches_full_name : Text → Bool
unfolding split_slash name_part
matches_full_name s = elim (split_slash [] s.points) [
  | none ↦ false
  | some (owner, name) ↦ name_part owner && name_part name
]

pub record Envelope : Type 0 where
  pub delivery_id : Text
  pub event_name : GitHubEventName
  pub action : Text
  pub installation_id : ℤ
  pub repository_id : ℤ
  pub repository_full_name : Text
  pub received_at : Datetime
  pub payload : Fields

unfoldable pub nonempty_string : Text → Option Text
nonempty_string s = let t = trim s in if is_empty t then none else some t

unfoldable pub full_name : Text → Option Text
full_name s = let t = trim s in if matches_full_name t then some t else none

unfoldable pub positive : ℤ → Option ℤ
positive n = if is_positive n then some n else none

unfoldable pub aware_datetime : Datetime → Option Datetime
aware_datetime t = if t.aware then some t else none

module _ (decoder : Decoder) where
  open decoder use {to_int, to_text, to_datetime}

  -- A required field, converted and constrained.
  abbrev pub required {ℓ κ} :
      {A : Type ℓ} {B : Type κ} → (Json → Option A) → (A → Option B) → Text → Fields → Option B
  required convert constrain name fields = do
    value ← get name fields
    converted ← convert value
    constrain converted

  abbrev pub required_object : Text → Fields → Option Fields
  required_object = required as_object (λ fs. some fs)

  -- `_WebhookPayload.model_validate(payload)`: action, installation id, repository id, full name.
  pub webhook_payload : Fields → Option (Text × ℤ × ℤ × Text)
  webhook_payload payload = do
    action ← required to_text nonempty_string (text "action") payload
    installation ← required_object (text "installation") payload
    installation_id ← required to_int positive (text "id") installation
    repository ← required_object (text "repository") payload
    repository_id ← required to_int positive (text "id") repository
    name ← required to_text full_name (text "full_name") repository
    some (action, installation_id, repository_id, name)

  -- `GitHubEventEnvelope.from_webhook`
  unfoldable pub from_webhook : Text → GitHubEventName → Datetime → Fields → Option Envelope
  unfolding webhook_payload
  from_webhook delivery_id event_name received_at payload = do
    (action, installation_id, repository_id, name) ← webhook_payload payload
    id ← nonempty_string delivery_id
    at ← aware_datetime received_at
    some record {
      delivery_id = id;
      event_name = event_name;
      action = action;
      installation_id = installation_id;
      repository_id = repository_id;
      repository_full_name = name;
      received_at = at;
      payload = payload;
    }

  envelope_keys : List Text
  envelope_keys =
      text "schema_version"
      ∷ text "delivery_id"
      ∷ text "event_name"
      ∷ text "action"
      ∷ text "installation_id"
      ∷ text "repository_id"
      ∷ text "repository_full_name"
      ∷ text "received_at"
      ∷ text "payload"
      ∷ []

  -- `extra="forbid"`
  only_known : Fields → Bool
  only_known no_fields = true
  only_known (field k v fs) = any (λ name. k =? name) envelope_keys && only_known fs

  -- `schema_version: Literal[1] = 1`, which takes no other value than the number 1.
  version_one : Option Json → Option (Unit {0})
  version_one none = some tt
  version_one (some (Json.integer n)) = only_if (eq_ℤ n (ℤ.pos 1))
  version_one (some other) = none

  -- The fields of an envelope that is read back from JSON.
  unfoldable pub envelope_of_fields : Fields → Option Envelope
  unfolding only_known version_one envelope_keys
  envelope_of_fields fields = do
    only_if (only_known fields)
    version_one (get (text "schema_version") fields)
    id ← required to_text nonempty_string (text "delivery_id") fields
    event_name ← required to_text event_name_of (text "event_name") fields
    action ← required to_text nonempty_string (text "action") fields
    installation_id ← required to_int positive (text "installation_id") fields
    repository_id ← required to_int positive (text "repository_id") fields
    name ← required to_text full_name (text "repository_full_name") fields
    at ← required to_datetime aware_datetime (text "received_at") fields
    payload ← required_object (text "payload") fields
    some record {
      delivery_id = id;
      event_name = event_name;
      action = action;
      installation_id = installation_id;
      repository_id = repository_id;
      repository_full_name = name;
      received_at = at;
      payload = payload;
    }

  -- `GitHubEventEnvelope.model_validate_json(value)`
  unfoldable pub model_validate_json : Bytes → Option Envelope
  unfolding envelope_of_fields
  model_validate_json value = do
    json ← decoder.model_loads value
    fields ← as_object json
    envelope_of_fields fields
