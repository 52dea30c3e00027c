-- ===== src/Consumers/RawStorage.antt =====
-- src/github_analytics/consumers/storage.py: raw.github_events, keyed by its unique constraint
-- (source, source_record_key). One insert is one transaction.
use github_delivery_intellig.Common.{
  ℤ, Bool, true, false, not, Option, some, is_nonnegative, is_some, if◌then◌else◌, Eq, pair_eq, ◌≡◌,
  refl, ◌↔◌,
}
use github_delivery_intellig.Common.Text.{Text, text_eq}
use github_delivery_intellig.Common.Json.{Fields}
use github_delivery_intellig.Common.Time.{Datetime}
use github_delivery_intellig.Common.Table.{Table, lookup, insert_new}
use github_delivery_intellig.Common.Result.{Result, ok, ◌>>◌, refuse_if}
use github_delivery_intellig.Common.Exception.{Exception, value_error}
use github_delivery_intellig.Webhook.Models.{Envelope, event_name_text}

-- The column `source`.
pub data Source : Type 0 where
  webhook backfill : Source

unfoldable pub source_beq : Source → Source → Bool
source_beq webhook webhook = true
source_beq backfill backfill = true
source_beq _ _ = false

pub source_beq_iff : (a b : Source) → (source_beq a b ≡ true) ↔ (a ≡ b)
unfolding source_beq
source_beq_iff webhook webhook = (λ h. refl, λ h. refl)
source_beq_iff webhook backfill = (λ h. cc, λ h. cc)
source_beq_iff backfill webhook = (λ h. cc, λ h. cc)
source_beq_iff backfill backfill = (λ h. refl, λ h. refl)

instance abbrev pub source_eq : Eq Source
source_eq = record { beq = source_beq; beq_iff = source_beq_iff }

-- A row, without its generated id and ingestion time. `source` and `source_record_key` are its key.
pub record RawRow : Type 0 where
  pub delivery_id : Option Text
  pub event_name : Text
  pub action : Text
  pub repository_id : ℤ
  pub installation_id : ℤ
  pub occurred_at : Option Datetime
  pub received_at : Option Datetime
  pub payload : Fields
  pub kafka_partition : Option ℤ
  pub kafka_offset : Option ℤ

abbrev pub RawEvents : Type 0
RawEvents = Table (Source × Text) RawRow

pub record WebhookRawEvent : Type 0 where
  pub envelope : Envelope
  pub kafka_partition : ℤ
  pub kafka_offset : ℤ
  pub occurred_at : Option Datetime

-- `WebhookRawEvent(...)` with its `__post_init__`.
unfoldable pub webhook_raw_event :
    Envelope → ℤ → ℤ → Option Datetime → Result Exception WebhookRawEvent
webhook_raw_event envelope partition offset occurred_at = do
  refuse_if (not (is_nonnegative partition)) value_error
  refuse_if (not (is_nonnegative offset)) value_error
  ok record {
    envelope = envelope;
    kafka_partition = partition;
    kafka_offset = offset;
    occurred_at = occurred_at;
  }

pub data InsertOutcome : Type 0 where
  inserted duplicate : InsertOutcome

abbrev pub event_key : WebhookRawEvent → Source × Text
event_key event = (webhook, event.envelope.delivery_id)

-- The parameters of `_INSERT_RAW_EVENT`.
pub webhook_row : WebhookRawEvent → RawRow
webhook_row event = record {
  delivery_id = some event.envelope.delivery_id;
  event_name = event_name_text event.envelope.event_name;
  action = event.envelope.action;
  repository_id = event.envelope.repository_id;
  installation_id = event.envelope.installation_id;
  occurred_at = event.occurred_at;
  received_at = some event.envelope.received_at;
  payload = event.envelope.payload;
  kafka_partition = some event.kafka_partition;
  kafka_offset = some event.kafka_offset;
}

-- `PostgresRawEventStorage.insert`, of a database that answers.
unfoldable pub insert : WebhookRawEvent → RawEvents → InsertOutcome × RawEvents
insert event raw = (
  if is_some (lookup (event_key event) raw) then duplicate else inserted,
  insert_new (event_key event) (webhook_row event) raw,
)
