-- ===== src/Consumers/Dlq.antt =====
-- src/github_analytics/consumers/dlq.py: the dead-letter record. Publishing it is a Protocol of
-- the consumers, `DlqPublisher`.
pub mod Source
pub mod Publisher
use github_delivery_intellig.Common.{ℤ, not, Option, none, some, is_nonnegative, ◌||◌}
use github_delivery_intellig.Common.Text.{Text, is_empty}
use github_delivery_intellig.Common.Time.{Datetime}
use github_delivery_intellig.Common.Result.{Result, ok, raise, ◌>>=◌, ◌>>◌, refuse_if}
use github_delivery_intellig.Common.Exception.{Exception, validation_error}
use github_delivery_intellig.Webhook.Models.{Decoder}
use github_delivery_intellig.Consumers.Protocols.{Message, message_lineage}
use Source.{extract_delivery_id, has_surrogate, encode_optional_bytes}

pub data DlqFailureReason : Type 0 where
  invalid_github_event_envelope invalid_pr_monitor_event : DlqFailureReason

pub record DeadLetterRecord : Type 0 where
  pub failed_at : Datetime
  pub failure_reason : DlqFailureReason
  pub source_topic : Text
  pub source_partition : ℤ
  pub source_offset : ℤ
  pub delivery_id : Option Text
  pub source_key_base64 : Option Text
  pub source_value_base64 : Option Text

pub record DlqPublisher : Type 1 where
  pub Topic : Type 0
  pub publish : DeadLetterRecord → Topic → Result Exception (Unit {0}) × Topic

-- `DeadLetterRecord.from_message`: the lineage must be there, and the fields meet the constraints
-- of the class. An extracted delivery id is never empty, but may
-- hold half of a surrogate pair, which pydantic refuses.
unfoldable pub from_message :
    Decoder → Message → Datetime → DlqFailureReason → Result Exception DeadLetterRecord
unfolding message_lineage
from_message decoder message failed_at reason = do
  (topic, partition, offset) ← message_lineage message
  delivery_id ← extract_delivery_id decoder message.value
  refuse_if (not failed_at.aware) validation_error
  refuse_if (is_empty topic) validation_error
  refuse_if (not (is_nonnegative partition)) validation_error
  refuse_if (not (is_nonnegative offset)) validation_error
  refuse_if (has_surrogate delivery_id) validation_error
  ok record {
    failed_at = failed_at;
    failure_reason = reason;
    source_topic = topic;
    source_partition = partition;
    source_offset = offset;
    delivery_id = delivery_id;
    source_key_base64 = encode_optional_bytes message.key;
    source_value_base64 = encode_optional_bytes message.value;
  }
