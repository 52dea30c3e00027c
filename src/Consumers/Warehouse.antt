-- ===== src/Consumers/Warehouse.antt =====
-- src/github_analytics/consumers/warehouse.py: one message becomes one durable effect, and then
-- its source offset is committed. The Kafka client, the dead-letter publisher and the storage are
-- the Protocol classes of the file, each with a state; `Postgres` puts storage.py for the last.
pub mod Ordering
pub mod Postgres
pub mod Replay
mod Tests
use github_delivery_intellig.Common.{ℤ, Option, none, some, List, [], ◌∷◌}
use github_delivery_intellig.Common.Text.{Text, text}
use github_delivery_intellig.Common.Time.{Datetime}
use github_delivery_intellig.Common.Json.{Json, Fields, get, as_object}
use github_delivery_intellig.Common.Result.{Result, ok, raise}
use github_delivery_intellig.Common.Action.{Action, lift, pure, ◌>>=◌, ◌>>◌}
use github_delivery_intellig.Common.Exception.{Exception, kafka_exception}
use github_delivery_intellig.Webhook.Models.{
  Bytes, Decoder, Envelope, GitHubEventName, pull_request, pull_request_review, workflow_run,
  deployment, deployment_status, model_validate_json, aware_datetime,
}
use github_delivery_intellig.Consumers.Protocols.{
  Message, message_lineage, ConsumerClient, commit_source_offset, World, no_error, Hook, run_hook,
}
use github_delivery_intellig.Consumers.Dlq.{
  DlqPublisher, DeadLetterRecord, from_message, invalid_github_event_envelope,
}
use github_delivery_intellig.Consumers.RawStorage.{
  WebhookRawEvent, webhook_raw_event, InsertOutcome,
}

-- `RawEventStorage`, the durable insert boundary.
pub record RawEventStorage : Type 1 where
  pub Store : Type 0
  pub insert : WebhookRawEvent → Store → Result Exception InsertOutcome × Store

pub data ProcessingOutcome : Type 0 where
  inserted duplicate dlq : ProcessingOutcome

-- `ProcessingOutcome(insert_outcome.value)`
abbrev pub of_insert : InsertOutcome → ProcessingOutcome
of_insert InsertOutcome.inserted = ProcessingOutcome.inserted
of_insert InsertOutcome.duplicate = ProcessingOutcome.duplicate

-- `paths` of `_extract_occurred_at`
unfoldable pub occurrence_path : GitHubEventName → Text × Text
occurrence_path pull_request = (text "pull_request", text "updated_at")
occurrence_path pull_request_review = (text "review", text "submitted_at")
occurrence_path workflow_run = (text "workflow_run", text "updated_at")
occurrence_path deployment = (text "deployment", text "created_at")
occurrence_path deployment_status = (text "deployment_status", text "created_at")

abbrev aware_of : Option Datetime → Option Datetime
aware_of none = none
aware_of (some t) = aware_datetime t

-- A missing timestamp is `None` to pydantic, which rejects it like JSON's `null`.
abbrev or_null : Option Json → Json
or_null none = Json.null
or_null (some v) = v

abbrev timestamp_of : Decoder → Text → Option Json → Option Datetime
timestamp_of decoder name (some (Json.object source)) =
    aware_of (decoder.to_datetime (or_null (get name source)))
timestamp_of decoder name _ = none

-- `_extract_occurred_at`
unfoldable pub extract_occurred_at : Decoder → Envelope → Option Datetime
unfolding occurrence_path
extract_occurred_at decoder envelope =
    let path : Text × Text = occurrence_path envelope.event_name in
    timestamp_of decoder path.1 (get path.0 envelope.payload)

-- `_validate_envelope`: a tombstone raises `TypeError` and a rejected value `ValidationError`, which
-- `process` treats alike.
unfoldable pub validate_envelope : Decoder → Option Bytes → Option Envelope
validate_envelope decoder none = none
validate_envelope decoder (some value) = model_validate_json decoder value

module _ (decoder : Decoder) (client : ConsumerClient) (publisher : DlqPublisher)
    (storage : RawEventStorage) where
  open client use {Group}
  open publisher use {Topic}
  open storage use {Store}

  abbrev pub Process : Type 0 → Type 0
  Process = Action Exception (World Store Topic Group)

  abbrev insert_event : WebhookRawEvent → Process InsertOutcome
  insert_event event w =
      let (r, s) = storage.insert event w.store in
      (r, record { store = s; topic = w.topic; group = w.group })

  abbrev publish : DeadLetterRecord → Process (Unit {0})
  publish letter w =
      let (r, t) = publisher.publish letter w.topic in
      (r, record { store = w.store; topic = t; group = w.group })

  abbrev commit : Message → Process (Unit {0})
  commit message w =
      let (r, g) = commit_source_offset client message w.group in
      (r, record { store = w.store; topic = w.topic; group = g })

  dead_letter : Datetime → Message → Process ProcessingOutcome
  dead_letter now message = do
    letter ← lift (from_message decoder message now invalid_github_event_envelope)
    publish letter
    commit message
    pure dlq

  land : Hook → Message → ℤ → ℤ → Envelope → Process ProcessingOutcome
  land hook message partition offset envelope = do
    event ←
        lift (webhook_raw_event envelope partition offset (extract_occurred_at decoder envelope))
    outcome ← insert_event event
    lift (run_hook hook)
    commit message
    pure (of_insert outcome)

  -- `WarehouseWriter.process`, at the time `now` of its clock.
  unfoldable pub process : Datetime → Hook → Message → Process ProcessingOutcome
  unfolding dead_letter land
  process now hook message = do
    lift (no_error message)
    (_, partition, offset) ← lift (message_lineage message)
    elim (validate_envelope decoder message.value) [
      | none ↦ dead_letter now message
      | some envelope ↦ land hook message partition offset envelope
    ]

  -- The worker over the messages that it polls; the first raise stops it. The poll that gives
  -- nothing changes nothing, and the log line is left out.
  unfoldable pub run : Datetime → List Message → Process (List ProcessingOutcome)
  unfolding process
  run now [] = pure []
  run now (message ∷ rest) = do
    outcome ← process now none message
    outcomes ← run now rest
    pure (outcome ∷ outcomes)
