-- ===== src/Webhook/Tests.antt =====
-- A receiver and a producer that are simple to compute with, and the theorems at them.
use github_delivery_intellig.Common.{
  ◌≡◌, ◌⊎◌, ◌≤◌, ◌+◌, ◌-◌, refl, ℕ, suc, ℤ, pos, negsuc, Bool, true, false, Option, none, some,
  List, [], ◌∷◌, ◌==◌, arith, list_beq, if◌then◌else◌,
}
use github_delivery_intellig.Common.Text.{Text, text, text_beq, strip, trim, is_empty}
use github_delivery_intellig.Common.Time.{Datetime}
use github_delivery_intellig.Common.Json.{Json, integer, str, object, Fields, no_fields, field, get}
use github_delivery_intellig.Common.Result.{Result, ok, raise}
use github_delivery_intellig.Common.Exception.{Exception, dlq_publish_error}
use github_delivery_intellig.Webhook.Models.{
  parsed, Bytes, Decoder, Envelope, deployment, from_webhook, model_validate_json, nonempty_string,
  full_name, positive, matches_full_name, aware_datetime,
}
use github_delivery_intellig.Webhook.Wire.{Encoder, Converts, dump, model_validate_json-dump}
use github_delivery_intellig.Webhook.App.{
  Hmac, EnvelopePublisher, Settings, Request, Receiver, Refusal, accepted, refused,
  receive_github_webhook,
}
use github_delivery_intellig.Webhook.App.Safety.{Authentic, receive_github_webhook-Authentic}
use github_delivery_intellig.Webhook.Kafka.{publish_sync, publish_sync_ends}
use github_delivery_intellig.Delivery.{Clock, ProducerClient, Waiting}
use github_delivery_intellig.Delivery.Acknowledged.{Acknowledged}
use github_delivery_intellig.Consumers.Dlq.{DeadLetterRecord, invalid_github_event_envelope}
use github_delivery_intellig.Consumers.Dlq.Publisher.{Documented, publish, dlq_publish_ends}

abbrev integer_of : Json → Option ℤ
integer_of (integer n) = some n
integer_of _ = none

abbrev text_of : Json → Option Text
text_of (str s) = some s
text_of _ = none

abbrev time_of : Json → Option Datetime
time_of (integer (pos n)) = some record { instant = n; aware = true }
time_of (integer (negsuc n)) = some record { instant = n; aware = false }
time_of _ = none

abbrev hook_payload : Fields
hook_payload = field (text "action") (str (text "created")) (
    field (text "installation") (object (field (text "id") (integer (pos 4)) no_fields)) (
      field (text "repository")
        (object (
          field (text "id") (integer (pos 9))
            (field (text "full_name") (str (text "o/n")) no_fields)))
        no_fields))

abbrev now : Datetime
now = record { instant = 7; aware = true }

abbrev envelope : Envelope
envelope = record {
  delivery_id = text "d1";
  event_name = deployment;
  action = text "created";
  installation_id = pos 4;
  repository_id = pos 9;
  repository_full_name = text "o/n";
  received_at = now;
  payload = hook_payload;
}

abbrev body : Bytes
body = record { octets = 1 ∷ [] }

-- An aware time is written as a positive number, and a naive one as a negative number.
abbrev written_time : ℕ → Bool → Json
written_time n true = integer (pos n)
written_time n false = integer (negsuc n)

abbrev encoder : Encoder
encoder = record { dumps = λ v. ok body; datetime_json = λ t. written_time t.instant t.aware }

-- A decoder that reads a request's body as the payload, and a Kafka value as the envelope.
abbrev decoder : Decoder
decoder = record {
  loads = λ b. parsed (object hook_payload);
  model_loads = λ b. some (object (dump encoder envelope));
  to_int = integer_of;
  to_text = text_of;
  to_bool = λ v. none;
  to_datetime = time_of;
}

-- The digest is one constant text.
abbrev hmac : Hmac
hmac = record { hexdigest = λ secret b. text "0f"; compare_digest = λ a b. ok (text_beq a b) }

abbrev publisher : EnvelopePublisher
publisher = record {
  Topic = List Envelope;
  publish = λ e t. (ok tt, e ∷ t);
  is_ready = λ t. (true, t);
}

abbrev settings : Settings
settings = record { webhook_secret = body; webhook_max_body_bytes = 10 }

abbrev header_of : Text → Option Text
header_of name =
    if text_beq name (text "X-GitHub-Event")
    then some (text "deployment")
    else if text_beq name (text "X-GitHub-Delivery")
    then some (text "d1")
    else some (text "sha256=0f")

abbrev request : Request
request = record { chunks = body ∷ []; header = header_of }

abbrev idle : Receiver decoder hmac publisher
idle = record {
  topic = [];
  metrics = record {
    requests_accepted = 0;
    requests_rejected = 0;
    publishes_success = 0;
    publishes_failure = 0;
    publish_durations = 0;
  };
}

receive_github_webhook-Authentic_example :
    let (answer, s') = receive_github_webhook decoder hmac publisher settings now request idle in
    ((s'.topic ≡ []) × (r : Refusal) × (answer ≡ refused r))
    ⊎ (e : Envelope) × (id : Text) × Authentic decoder hmac settings now request e id
      × (s'.topic ≡ (publisher.publish e []).1)
      × (((publisher.publish e []).0 ≡ ok tt) × (answer ≡ accepted (strip id))
          ⊎ (x : Exception) × ((publisher.publish e []).0 ≡ raise x)
            × (r : Refusal) × (answer ≡ refused r))
receive_github_webhook-Authentic_example =
    receive_github_webhook-Authentic decoder hmac publisher settings now request idle

-- Whole numbers for floats, and a clock that goes by one at each reading.
abbrev clock : Clock
clock = record {
  Float = ℕ;
  add = λ a b. a + b;
  subtract = λ a b. a - b;
  min = λ a b. b;
  is_nonpositive = λ a. a == 0;
  tenth = 1;
  monotonic = λ n. n;
}

-- A producer that reports nothing.
abbrev silent : ProducerClient clock
silent = record {
  Producer = ℕ;
  produce = λ t b k p. (record { reports = []; result = ok tt }, suc p);
  poll = λ t p. (record { reports = []; result = ok tt }, suc p);
  has_brokers = λ t p. (ok true, p);
}

abbrev waiting : Waiting clock silent
waiting = record { producer = 0; readings = 0; reports = [] }

publish_sync_ends_example :
    let (r, w') = publish_sync clock silent encoder (λ n. body) (text "t") 2 envelope 2 waiting in
    (result : Result Exception (Unit {0})) × (r ≡ some result)
    × (w'.readings ≤ 3)
    × (((result ≡ ok tt) × Acknowledged w') ⊎ (e : Exception) × (result ≡ raise e))
publish_sync_ends_example =
    publish_sync_ends clock silent encoder (λ n. body) (text "t") 2 envelope 1 2 waiting refl
      (omega arith)

time_back : (n : ℕ) (b : Bool) → time_of (written_time n b) ≡ some record { instant = n; aware = b }
time_back n true = refl
time_back n false = refl

converts : Converts decoder encoder
converts = record {
  int_back = λ n. refl;
  text_back = λ s. refl;
  datetime_back = λ t. time_back t.instant t.aware;
}

envelope-built : from_webhook decoder (text "d1") deployment now hook_payload ≡ some envelope
unfolding from_webhook get text_beq list_beq text nonempty_string is_empty trim positive full_name
    matches_full_name aware_datetime
envelope-built = refl

model_validate_json-dump_example : model_validate_json decoder body ≡ some envelope
model_validate_json-dump_example =
    model_validate_json-dump decoder encoder converts (text "d1") deployment now hook_payload
      envelope body envelope-built refl refl

abbrev letter : DeadLetterRecord
letter = record {
  failed_at = now;
  failure_reason = invalid_github_event_envelope;
  source_topic = text "t";
  source_partition = pos 0;
  source_offset = pos 3;
  delivery_id = none;
  source_key_base64 = none;
  source_value_base64 = none;
}

never_raises : Documented clock silent (λ r. ok body) (λ s. body) (text "dlq")
never_raises = record {
  produce_raises = λ b k p e h. absurd (cc);
  poll_raises = λ t p e h. absurd (cc);
}

dlq_publish_ends_example :
    let (answer, w') =
      publish clock silent (λ r. ok body) (λ s. body) (text "dlq") 2 letter 2 waiting in
    (result : Result Exception (Unit {0})) × (answer ≡ some result)
    × (w'.readings ≤ 3)
    × (((result ≡ ok tt) × Acknowledged w')
        ⊎ (e : Exception) × (result ≡ raise e) × (e ≡ dlq_publish_error))
dlq_publish_ends_example =
    dlq_publish_ends clock silent (λ r. ok body) (λ s. body) (text "dlq") 2 letter body 1 2 waiting
      never_raises refl refl (omega arith)
