-- ===== src/Consumers/Warehouse/Tests.antt =====
-- Three outside parties that are simple to compute with, one delivery, and the theorems at them.
use github_delivery_intellig.Common.{
  ◌≡◌, ◌≢◌, refl, ◌⊎◌, ℤ, pos, true, Option, none, some, List, [], ◌∷◌, pair_eq, pair_beq, list_beq,
}
use github_delivery_intellig.Common.Text.{Text, text, text_eq, text_beq, trim, is_empty}
use github_delivery_intellig.Common.Time.{Datetime}
use github_delivery_intellig.Common.Json.{Json, integer, str, object, no_fields, field, get}
use github_delivery_intellig.Common.Table.{lookup}
use github_delivery_intellig.Common.Result.{ok, raise}
use github_delivery_intellig.Common.Exception.{other_exception}
use github_delivery_intellig.Webhook.Models.{
  parsed, Decoder, Envelope, deployment, model_validate_json, envelope_of_fields, nonempty_string,
  full_name, positive, aware_datetime, event_name_of, matches_full_name,
}
use github_delivery_intellig.Consumers.Protocols.{Message, ConsumerClient, World, message_lineage}
use github_delivery_intellig.Consumers.Dlq.{DlqPublisher, DeadLetterRecord}
use github_delivery_intellig.Consumers.RawStorage
use github_delivery_intellig.Consumers.RawStorage.{
  Source, webhook, source_eq, source_beq, RawRow, WebhookRawEvent, InsertOutcome, webhook_row,
}
use github_delivery_intellig.Consumers.Warehouse.{inserted, validate_envelope, process, run}
use github_delivery_intellig.Consumers.Warehouse.Postgres.{RawDatabase, postgres_storage}
use github_delivery_intellig.Consumers.Warehouse.Ordering.{
  DeadLettered, Landed, commit_after_effect,
}
use github_delivery_intellig.Consumers.Warehouse.Replay.{
  run_append_only, redelivery, crash_then_redelivery,
}

abbrev integer_of : Json → Option ℤ
integer_of (integer n) = some n
integer_of _ = none

abbrev text_of : Json → Option Text
text_of (str s) = some s
text_of _ = none

abbrev time_of : Json → Option Datetime
time_of (integer (pos n)) = some record { instant = n; aware = true }
time_of _ = none

abbrev envelope_json : Json
envelope_json = object (
    field (text "delivery_id") (str (text "d1")) (
      field (text "event_name") (str (text "deployment")) (
        field (text "action") (str (text "created")) (
          field (text "installation_id") (integer (pos 4)) (
            field (text "repository_id") (integer (pos 9)) (
              field (text "repository_full_name") (str (text "o/n")) (
                field (text "received_at") (integer (pos 7))
                  (field (text "payload") (object no_fields) no_fields))))))))

-- A decoder that reads every value as that object.
abbrev decoder : Decoder
decoder = record {
  loads = λ b. parsed envelope_json;
  model_loads = λ b. some envelope_json;
  to_int = integer_of;
  to_text = text_of;
  to_bool = λ v. none;
  to_datetime = time_of;
}

-- A broker that takes every commit, and keeps the messages.
abbrev broker : ConsumerClient
broker = record { Group = List Message; commit = λ m g. (ok (none ∷ []), m ∷ g) }

abbrev dead_letters : DlqPublisher
dead_letters = record { Topic = List DeadLetterRecord; publish = λ l t. (ok tt, l ∷ t) }

abbrev message : Message
message = record {
  error = none;
  topic = some (text "t");
  partition = some (pos 0);
  offset = some (pos 3);
  key = none;
  value = some (record { octets = [] });
}

abbrev now : Datetime
now = record { instant = 8; aware = true }

abbrev Delivery : Type 0
Delivery = World RawDatabase (List DeadLetterRecord) (List Message)

abbrev start : Delivery
start = record { store = record { raw = []; calls = [] }; topic = []; group = [] }

abbrev envelope : Envelope
envelope = record {
  delivery_id = text "d1";
  event_name = deployment;
  action = text "created";
  installation_id = pos 4;
  repository_id = pos 9;
  repository_full_name = text "o/n";
  received_at = record { instant = 7; aware = true };
  payload = no_fields;
}

message-valid : validate_envelope decoder message.value ≡ some envelope
unfolding validate_envelope model_validate_json envelope_of_fields text_beq list_beq text get
    nonempty_string is_empty trim event_name_of positive full_name matches_full_name aware_datetime
message-valid = refl

commit_after_effect_example :
    let (r, w') = process decoder broker dead_letters postgres_storage now none message start in
    (w'.group ≡ [])
    ⊎ (DeadLettered decoder broker dead_letters postgres_storage now message start w'
        ⊎ ((o : InsertOutcome) × Landed decoder broker dead_letters postgres_storage message o start
              w'))
commit_after_effect_example =
    commit_after_effect decoder broker dead_letters postgres_storage now none message start

abbrev stored_row : RawRow
stored_row = webhook_row (record {
  envelope = envelope;
  kafka_partition = pos 0;
  kafka_offset = pos 2;
  occurred_at = none;
})

-- The delivery is stored already.
abbrev stored : Delivery
stored = record {
  store = record { raw = ((webhook, text "d1"), stored_row) ∷ []; calls = [] };
  topic = [];
  group = [];
}

row-stored : lookup (webhook, text "d1") stored.store.raw ≡ some stored_row
unfolding lookup pair_beq text_beq list_beq text source_beq
row-stored = refl

run_append_only_example :
    lookup
      (webhook, text "d1")
      (run decoder broker dead_letters postgres_storage now
        (message ∷ message ∷ [])
        stored).1.store.raw
    ≡ some stored_row
run_append_only_example =
    run_append_only decoder broker dead_letters now (message ∷ message ∷ []) stored
      (webhook, text "d1") stored_row row-stored

redelivery_example :
    let (r, w') = process decoder broker dead_letters postgres_storage now none message stored in
    (w'.store.raw ≡ stored.store.raw) × (r ≢ ok inserted)
redelivery_example =
    redelivery decoder broker dead_letters now none message stored envelope stored_row message-valid
      row-stored

crash_then_redelivery_example :
    let (r, w') =
      process decoder broker dead_letters postgres_storage now
        (some (raise other_exception))
        message
        start in
    let (r', w'') = process decoder broker dead_letters postgres_storage now none message w' in
    (r ≡ raise other_exception)
    × (w'.group ≡ [])
    × ((row : RawRow) × (lookup (webhook, text "d1") w'.store.raw ≡ some row))
    × (w''.store.raw ≡ w'.store.raw)
crash_then_redelivery_example =
    crash_then_redelivery decoder broker dead_letters now now other_exception message start envelope
      (text "t") (pos 0) (pos 3) message-valid refl (unfold message_lineage in refl) refl refl refl
