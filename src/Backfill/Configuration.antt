-- ===== src/Backfill/Configuration.antt =====
-- src/github_analytics/backfill: the configuration that the two adapters of github.py and
-- rest_backfill.py check and keep, and the readers of response fields that both declare. The
-- conversions of numbers and times to and from text are the parameter `Conversions`.
use github_delivery_intellig.Common.{
  ℕ, ℤ, pos, Bool, true, false, not, ◌&&◌, ◌||◌, Option, none, some, if◌then◌else◌, leb, eq_ℤ, ◌=?◌,
  any, is_positive, ◌==◌,
}
use github_delivery_intellig.Common.Text.{Text, text, text_eq, is_empty, split_once}
use github_delivery_intellig.Common.Json.{
  Json, boolean, integer, real, str, object, Fields, no_fields, field, get, set_field, as_object,
  as_text,
}
use github_delivery_intellig.Common.Result.{Result, ok, ◌>>=◌, ◌>>◌, refuse_if, require}
use github_delivery_intellig.Common.Time.{Datetime}
use github_delivery_intellig.Common.Exception.{Exception, value_error}
use github_delivery_intellig.Webhook.Models.{Decoder, aware_datetime}

-- `str` of a number, `int` of a text, `isoformat`, and whether the float of a JSON number equals
-- an integer.
pub record Conversions : Type 0 where
  pub decimal : ℕ → Text
  pub parse_int : Text → Option ℤ
  pub isoformat : Datetime → Text
  pub real_equals : Text → ℤ → Bool

pub record Configuration : Type 0 where
  pub owner : Text
  pub name : Text
  pub repository : Text
  pub repository_id : ℤ
  pub installation_id : ℤ
  pub page_size : ℕ

abbrev pub has_slash : Text → Bool
has_slash s = any (λ c. c == 47) s.points

abbrev pub page_size_of : ℤ → Option ℕ
page_size_of (pos n) = if leb 1 n && leb n 100 then some n else none
page_size_of _ = none

-- `GitHubRestBackfill.__init__`
unfoldable pub configure : Text → ℤ → ℤ → ℤ → Result Exception Configuration
configure repository repository_id installation_id page_size = do
  (owner, name) ← require (split_once 47 repository) value_error
  refuse_if (is_empty owner || is_empty name || has_slash name) value_error
  refuse_if (not (is_positive repository_id) || not (is_positive installation_id)) value_error
  size ← require (page_size_of page_size) value_error
  ok record {
    owner = owner;
    name = name;
    repository = repository;
    repository_id = repository_id;
    installation_id = installation_id;
    page_size = size;
  }

-- The readers of a response's fields raise one exception, `RestDataError` or `GraphQLDataError`.
module _ (decoder : Decoder) (invalid : Exception) where
  -- `_required_object`
  unfoldable pub required_object : Fields → Text → Result Exception Fields
  required_object container name = do
    value ← require (get name container) invalid
    require (as_object value) invalid

  -- `_required_string`
  unfoldable pub required_string : Fields → Text → Result Exception Text
  required_string container name = do
    json ← require (get name container) invalid
    value ← require (as_text json) invalid
    refuse_if (is_empty value) invalid
    ok value

  -- `_aware_datetime`; a missing value is `None`, which is no time.
  unfoldable pub required_datetime : Fields → Text → Result Exception Datetime
  required_datetime container name = do
    json ← require (get name container) invalid
    at ← require (decoder.to_datetime json) invalid
    require (aware_datetime at) invalid

module _ (conversions : Conversions) where
  -- `value == number`, where `True` is 1 and `False` is 0.
  abbrev pub equals_int : ℤ → Option Json → Bool
  equals_int n (some (integer m)) = eq_ℤ m n
  equals_int n (some (boolean true)) = eq_ℤ (pos 1) n
  equals_int n (some (boolean false)) = eq_ℤ (pos 0) n
  equals_int n (some (real x)) = conversions.real_equals x n
  equals_int n _ = false

-- `value == text`
abbrev pub equals_text : Text → Option Json → Bool
equals_text t (some (str s)) = s =? t
equals_text t _ = false

-- `_payload`
unfoldable pub payload_of : Configuration → Text → Fields → Fields
payload_of configuration resource node = set_field resource (object node) (
    field (text "resource") (str resource) (
      field (text "repository")
        (object (
          field (text "id") (integer configuration.repository_id)
            (field (text "full_name") (str configuration.repository) no_fields)))
        no_fields))
