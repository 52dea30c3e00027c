-- ===== src/Webhook/App.antt =====
-- src/github_analytics/webhook/app.py: the handler of POST /webhooks/github and the readiness check.
-- An HTTP library's request is its body chunks and a lookup of its headers. `Hmac` stands for the
-- standard library's HMAC-SHA256 digest and `compare_digest`, which raises for a text that is not
-- ASCII. The duration that is observed is left out, and its observations are counted.
pub mod Safety
use github_delivery_intellig.Common.{
  ℕ, suc, ◌+◌, Bool, true, false, not, ◌&&◌, Option, none, some, List, [], ◌∷◌, ◌++◌, ltb, length,
  if◌then◌else◌, ◌=?◌,
}
use github_delivery_intellig.Common.Text.{Text, text, strip, is_blank}
use github_delivery_intellig.Common.Time.{Datetime}
use github_delivery_intellig.Common.Json.{Json, Fields, as_object}
use github_delivery_intellig.Common.Result.{Result, ok, raise, ◌>>=◌, ◌>>◌, require, refuse_if}
use github_delivery_intellig.Common.Exception.{Exception, publish_error, type_error}
use github_delivery_intellig.Webhook.Models.{
  Bytes, Parsed, parsed, undecodable, escaping, Decoder, GitHubEventName, event_name_of, Envelope,
  from_webhook,
}

pub record Hmac : Type 0 where
  pub hexdigest : Bytes → Bytes → Text
  pub compare_digest : Text → Text → Result Exception Bool

-- `EnvelopePublisher` of publishing.py, with a state that only it changes.
pub record EnvelopePublisher : Type 1 where
  pub Topic : Type 0
  pub publish : Envelope → Topic → Result Exception (Unit {0}) × Topic
  pub is_ready : Topic → Bool × Topic

-- `UnconfiguredPublisher` of publishing.py
abbrev pub unconfigured_publisher : EnvelopePublisher
unconfigured_publisher = record {
  Topic = Unit {0};
  publish = λ e t. (raise publish_error, t);
  is_ready = λ t. (false, t);
}

pub record Settings : Type 0 where
  pub webhook_secret : Bytes
  pub webhook_max_body_bytes : ℕ

pub record Request : Type 0 where
  pub chunks : List Bytes
  pub header : Text → Option Text

-- The counters of metrics.py.
pub record Metrics : Type 0 where
  pub requests_accepted : ℕ
  pub requests_rejected : ℕ
  pub publishes_success : ℕ
  pub publishes_failure : ℕ
  pub publish_durations : ℕ

-- Why a request is not accepted: an `HTTPException` with its status, or an exception that the
-- framework turns into a status 500.
pub data Refusal : Type 0 where
  http_exception : ℕ → Refusal
  unhandled : Exception → Refusal

-- The answer to a request: 202 with the receipt's delivery id, or what ended it.
pub data Response : Type 0 where
  accepted : Text → Response
  refused : Refusal → Response

-- `_read_limited_body`, with the body so far.
unfoldable pub read_limited_body : ℕ → List ℕ → List Bytes → Result Refusal Bytes
read_limited_body maximum_bytes body [] = ok (record { octets = body })
read_limited_body maximum_bytes body (chunk ∷ rest) =
    let more = read_limited_body maximum_bytes (body ++ chunk.octets) rest in
    if ltb maximum_bytes (length (body ++ chunk.octets)) then raise (http_exception 413) else more

abbrev not_blank : Option Text → Bool
not_blank none = false
not_blank (some v) = not (is_blank v)

-- `_required_header`
unfoldable pub required_header : Request → Text → Result Refusal Text
required_header request name = elim (request.header name) [
  | none ↦ raise (http_exception 400)
  | some v ↦ if is_blank v then raise (http_exception 400) else ok v
]

abbrev pub or_http {ℓ} : {A : Type ℓ} → ℕ → Option A → Result Refusal A
or_http status found = require found (http_exception status)

module _ (decoder : Decoder) (hmac : Hmac) where
  -- `json.loads` inside `try ... except (UnicodeDecodeError, json.JSONDecodeError)`
  abbrev pub loaded : Parsed → Result Refusal Json
  loaded (parsed json) = ok json
  loaded undecodable = raise (http_exception 422)
  loaded (escaping e) = raise (unhandled e)

  -- `_parse_payload`
  unfoldable pub parse_payload : Bytes → Result Refusal Fields
  parse_payload body = do json ← loaded (decoder.loads body); or_http 422 (as_object json)

  abbrev prefixed : Text → Text
  prefixed digest = let p : Text = text "sha256=" in record { points = p.points ++ digest.points }

  -- `has_valid_signature` of security.py
  unfoldable pub has_valid_signature : Bytes → Bytes → Text → Result Exception Bool
  has_valid_signature body secret signature =
      hmac.compare_digest (prefixed (hmac.hexdigest secret body)) signature

  -- The signature test of the handler.
  unfoldable pub check_signature : Settings → Bytes → Option Text → Result Refusal (Unit {0})
  unfolding has_valid_signature
  check_signature settings body none = raise (http_exception 401)
  check_signature settings body (some signature) =
      elim (has_valid_signature body settings.webhook_secret signature) [
        | raise e ↦ raise (unhandled e)
        | ok valid ↦ if valid then ok tt else raise (http_exception 401)
      ]

  -- The handler up to the publisher: the envelope, and the delivery id of the header.
  unfoldable pub validated_envelope :
      Settings → Datetime → Request → Result Refusal (Envelope × Text)
  unfolding check_signature parse_payload
  validated_envelope settings now request = do
    body ← read_limited_body settings.webhook_max_body_bytes [] request.chunks
    check_signature settings body (request.header (text "X-Hub-Signature-256"))
    event_header ← required_header request (text "X-GitHub-Event")
    delivery_id ← required_header request (text "X-GitHub-Delivery")
    event_name ← or_http 422 (event_name_of event_header)
    payload ← parse_payload body
    envelope ← or_http 422 (from_webhook decoder delivery_id event_name now payload)
    ok (envelope, delivery_id)

  module _ (publisher : EnvelopePublisher) where
    open publisher use {Topic, publish, is_ready}

    pub record Receiver : Type 0 where
      pub topic : Topic
      pub metrics : Metrics

    -- `handle_http_error`, which counts an `HTTPException`; any other exception goes past it.
    abbrev counted : Refusal → Metrics → Metrics
    counted (http_exception status) m = record m { requests_rejected = suc m.requests_rejected }
    counted (unhandled e) m = m

    abbrev refuse : Refusal → Receiver → Response × Receiver
    refuse r s = (refused r, record s { metrics = counted r s.metrics })

    -- The metrics and the answer after the publication, which left `topic'`.
    unfoldable after_publication :
        Result Exception (Unit {0}) → Topic → Text → Metrics → Response × Receiver
    after_publication (ok u) topic' delivery_id m = (
      accepted (strip delivery_id),
      record {
        topic = topic';
        metrics = record m {
          publishes_success = suc m.publishes_success;
          requests_accepted = suc m.requests_accepted;
        };
      },
    )
    after_publication (raise publish_error) topic' delivery_id m =
        refuse (http_exception 503) record {
          topic = topic';
          metrics = record m { publishes_failure = suc m.publishes_failure };
        }
    after_publication (raise other) topic' delivery_id m =
        refuse (unhandled other) record { topic = topic'; metrics = m }

    -- The publication with its duration observed.
    unfoldable pub publish_envelope : Envelope → Text → Receiver → Response × Receiver
    unfolding after_publication
    publish_envelope envelope delivery_id s =
        let (r, topic') = publish envelope s.topic in
        after_publication r topic' delivery_id
          (record s.metrics { publish_durations = suc s.metrics.publish_durations })

    unfoldable finish : Result Refusal (Envelope × Text) → Receiver → Response × Receiver
    unfolding publish_envelope
    finish (raise r) s = refuse r s
    finish (ok (envelope, delivery_id)) s = publish_envelope envelope delivery_id s

    -- `receive_github_webhook`, at the time `now` of the clock.
    unfoldable pub receive_github_webhook :
        Settings → Datetime → Request → Receiver → Response × Receiver
    unfolding validated_envelope finish
    receive_github_webhook settings now request s =
        finish (validated_envelope settings now request) s

    -- `readiness`: the status.
    unfoldable pub readiness : Receiver → ℕ × Receiver
    readiness s =
        let (ready, topic') = is_ready s.topic in
        (if ready then 200 else 503, record { topic = topic'; metrics = s.metrics })
