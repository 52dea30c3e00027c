-- ===== src/Consumers/PrMonitor/Tests.antt =====
-- A snapshot that opens a pull request, as a Kafka message, and the theorems at it.
use github_delivery_intellig.Common.{
  ◌≡◌, refl, ◌⊎◌, ℤ, pos, Bool, true, false, Option, none, some, List, [], ◌∷◌, pair_eq, pair_beq,
  list_beq, int_eq,
}
use github_delivery_intellig.Common.Text.{
  Text, text, text_eq, text_beq, trim, is_empty, is_white, is_blank, is_space,
}
use github_delivery_intellig.Common.Time.{Datetime}
use github_delivery_intellig.Common.Json.{
  Json, integer, str, boolean, object, no_fields, field, get,
}
use github_delivery_intellig.Common.Table.{lookup, upsert}
use github_delivery_intellig.Common.Result.{ok, raise}
use github_delivery_intellig.Common.Exception.{other_exception, value_error}
use github_delivery_intellig.Webhook.Models.{
  parsed, Decoder, Envelope, pull_request, model_validate_json, envelope_of_fields, nonempty_string,
  full_name, positive, aware_datetime, event_name_of, matches_full_name,
}
use github_delivery_intellig.Consumers.Protocols.{
  Message, ConsumerClient, World, commit_source_offset, no_error,
}
use github_delivery_intellig.Consumers.Dlq.{DlqPublisher, DeadLetterRecord}
use github_delivery_intellig.Consumers.Warehouse.{validate_envelope}
use github_delivery_intellig.Consumers.PrStorage
use github_delivery_intellig.Consumers.PrStorage.Models.{
  PullRequestSnapshot, open_state, check_snapshot,
}
use github_delivery_intellig.Consumers.PrStorage.Statements.{
  Database, advance_watermark, upsert_open, sync_first_review,
}
use github_delivery_intellig.Consumers.PrMonitor.Command.{
  PullRequest, snapshot_command, command, projection_command, snapshot, pull_request_payload,
  pull_request_of, actor, state_of,
}
use github_delivery_intellig.Consumers.PrMonitor.{MonitorOutcome, projected, process}
use github_delivery_intellig.Consumers.PrMonitor.Ordering.{
  asked, DeadLettered, Executed, Passed, Reported, monitor_commit_after_effect,
  monitor_outcome_reports_effect,
}
use github_delivery_intellig.Consumers.PrMonitor.Poison.{blank_title_stops}
use github_delivery_intellig.Consumers.PrMonitor.Replay.{
  Serving, connected, postgres_storage, on_tables, monitor_crash_then_redelivery,
}

abbrev integer_of : Json → Option ℤ
integer_of (integer n) = some n
integer_of _ = none

abbrev text_of : Json → Option Text
text_of (str s) = some s
text_of _ = none

abbrev time_of : Json → Option Datetime
time_of (integer (pos n)) = some record { instant = n; aware = true }
time_of _ = none

abbrev bool_of : Json → Option Bool
bool_of (boolean b) = some b
bool_of _ = none

abbrev user_json : Json
user_json =
    object (field (text "id") (integer (pos 2)) (field (text "login") (str (text "a")) no_fields))

abbrev pull_json : Text → Json
pull_json title = object (
    field (text "id") (integer (pos 1)) (
      field (text "number") (integer (pos 5)) (
        field (text "state") (str (text "open")) (
          field (text "title") (str title) (
            field (text "user") user_json (
              field (text "draft") (boolean false) (
                field (text "created_at") (integer (pos 100))
                  (field (text "updated_at") (integer (pos 110)) no_fields))))))))

abbrev envelope_json : Text → Json
envelope_json title = object (
    field (text "delivery_id") (str (text "d1")) (
      field (text "event_name") (str (text "pull_request")) (
        field (text "action") (str (text "opened")) (
          field (text "installation_id") (integer (pos 4)) (
            field (text "repository_id") (integer (pos 9)) (
              field (text "repository_full_name") (str (text "o/n")) (
                field (text "received_at") (integer (pos 7)) (
                  field (text "payload")
                    (object (field (text "pull_request") (pull_json title) no_fields))
                    no_fields))))))))

-- A decoder that reads every value as that object.
abbrev decoder_of : Text → Decoder
decoder_of title = record {
  loads = λ b. parsed (envelope_json title);
  model_loads = λ b. some (envelope_json title);
  to_int = integer_of;
  to_text = text_of;
  to_bool = bool_of;
  to_datetime = time_of;
}

abbrev decoder : Decoder
decoder = decoder_of (text "t")

-- A broker that takes every commit, and keeps the messages.
abbrev broker : ConsumerClient
broker = record { Group = List Message; commit = λ m g. (ok (none ∷ []), m ∷ g) }

abbrev dead_letters : DlqPublisher
dead_letters = record { Topic = List DeadLetterRecord; publish = λ l t. (ok tt, l ∷ t) }

abbrev message : Message
message = record {
  error = none;
  topic = some (text "t");
  partition = some (pos 0);
  offset = some (pos 3);
  key = none;
  value = some (record { octets = [] });
}

abbrev now : Datetime
now = record { instant = 200; aware = true }

abbrev no_rows : Database
no_rows = record { watermarks = []; open_rows = []; first_reviews = []; outbox = [] }

abbrev start : World Serving (List DeadLetterRecord) (List Message)
start = record { store = record { tables = no_rows; calls = [] }; topic = []; group = [] }

abbrev opening : PullRequestSnapshot
opening = record {
  delivery_id = text "d1";
  repository_id = pos 9;
  repository_full_name = text "o/n";
  pull_request_id = pos 1;
  pull_request_number = pos 5;
  state = open_state;
  title = text "t";
  author_id = pos 2;
  author_login = text "a";
  is_draft = false;
  opened_at = record { instant = 100; aware = true };
  updated_at = record { instant = 110; aware = true };
}

message-asked : asked decoder message ≡ some (command (snapshot_command opening))
unfolding validate_envelope model_validate_json envelope_of_fields text_beq list_beq text get
    nonempty_string is_empty trim is_white event_name_of positive full_name matches_full_name
    aware_datetime projection_command pull_request_payload pull_request_of actor state_of snapshot
    check_snapshot is_blank is_space
message-asked = refl

opening-projected : (on_tables (snapshot_command opening) no_rows).0 ≡ ok projected
unfolding PrStorage.apply_pull_request advance_watermark PrStorage.apply_snapshot_state upsert_open
    sync_first_review lookup upsert pair_beq
opening-projected = refl

monitor_commit_after_effect_example :
    let (r, w') = process decoder broker dead_letters postgres_storage now none message start in
    (w'.group ≡ [])
    ⊎ (DeadLettered decoder broker dead_letters postgres_storage now message start w'
        ⊎ (((o : MonitorOutcome) × Executed decoder broker dead_letters postgres_storage message o
                start w')
            ⊎ Passed decoder broker dead_letters postgres_storage message start w'))
monitor_commit_after_effect_example =
    monitor_commit_after_effect decoder broker dead_letters postgres_storage now none message start

message-projected :
    (process decoder broker dead_letters postgres_storage now none message start).0 ≡ ok projected
unfolding process no_error connected commit_source_offset validate_envelope model_validate_json
    envelope_of_fields text_beq list_beq text get nonempty_string is_empty trim is_white
    event_name_of positive full_name matches_full_name aware_datetime projection_command
    pull_request_payload pull_request_of actor state_of snapshot check_snapshot is_blank is_space
    PrStorage.apply_pull_request advance_watermark PrStorage.apply_snapshot_state upsert_open
    sync_first_review lookup upsert pair_beq
message-projected = refl

monitor_outcome_reports_effect_example :
    Reported decoder broker dead_letters postgres_storage now message start projected
      (process decoder broker dead_letters postgres_storage now none message start).1
monitor_outcome_reports_effect_example =
    monitor_outcome_reports_effect decoder broker dead_letters postgres_storage now none message
      start projected message-projected

monitor_crash_then_redelivery_example :
    let (r, w') =
      process decoder broker dead_letters postgres_storage now
        (some (raise other_exception))
        message
        start in
    let (r', w'') = process decoder broker dead_letters postgres_storage now none message w' in
    (r ≡ raise other_exception)
    × (w'.group ≡ [])
    × (w'.store.tables ≡ (on_tables (snapshot_command opening) no_rows).1)
    × (w''.store.tables ≡ w'.store.tables)
monitor_crash_then_redelivery_example =
    monitor_crash_then_redelivery decoder broker dead_letters now now none other_exception message
      start (snapshot_command opening) projected message-asked refl refl opening-projected

-- The title is the one code point U+001C.
abbrev separator : Text
separator = record { points = 28 ∷ [] }

abbrev separator_envelope : Envelope
separator_envelope = record {
  delivery_id = text "d1";
  event_name = pull_request;
  action = text "opened";
  installation_id = pos 4;
  repository_id = pos 9;
  repository_full_name = text "o/n";
  received_at = record { instant = 7; aware = true };
  payload = field (text "pull_request") (pull_json separator) no_fields;
}

abbrev separator_pull : PullRequest
separator_pull = record {
  id = pos 1;
  number = pos 5;
  state = open_state;
  title = separator;
  user = record { id = pos 2; login = text "a" };
  draft = false;
  created_at = record { instant = 100; aware = true };
  updated_at = record { instant = 110; aware = true };
}

separator-valid : validate_envelope (decoder_of separator) message.value ≡ some separator_envelope
unfolding validate_envelope model_validate_json envelope_of_fields text_beq list_beq text get
    nonempty_string is_empty trim is_white event_name_of positive full_name matches_full_name
    aware_datetime
separator-valid = refl

separator-accepted :
    pull_request_payload (decoder_of separator) separator_envelope.payload ≡ some separator_pull
unfolding text_beq list_beq text get nonempty_string is_empty trim is_white positive aware_datetime
    pull_request_payload pull_request_of actor state_of
separator-accepted = refl

blank_title_stops_example :
    process (decoder_of separator) broker dead_letters postgres_storage now none message start
    ≡ (raise value_error, start)
blank_title_stops_example =
    blank_title_stops (decoder_of separator) broker dead_letters postgres_storage now none message
      start separator_envelope separator_pull refl separator-valid refl separator-accepted
      (unfold is_blank is_space in refl)
