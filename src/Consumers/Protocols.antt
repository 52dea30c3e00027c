-- ===== src/Consumers/Protocols.antt =====
-- The messages that the consumers of src/github_analytics/consumers poll, and the outside
-- parties of their Protocol classes: a Kafka consumer group and a dead-letter publisher, each with
-- a state of its own that only its operations change.
use github_delivery_intellig.Common.{
  ℤ, Bool, Option, none, some, List, [], ◌∷◌, if◌then◌else◌, is_some,
}
use github_delivery_intellig.Common.Text.{Text}
use github_delivery_intellig.Common.Result.{Result, ok, raise}
use github_delivery_intellig.Common.Exception.{Exception, value_error, kafka_exception}
use github_delivery_intellig.Webhook.Models.{Bytes}

pub record Message : Type 0 where
  pub error : Option Text
  pub topic : Option Text
  pub partition : Option ℤ
  pub offset : Option ℤ
  pub key : Option Bytes
  pub value : Option Bytes

-- `_message_lineage`, the same in warehouse.py, pr_monitor.py and `from_message`.
abbrev lineage_of : Option Text → Option ℤ → Option ℤ → Result Exception (Text × ℤ × ℤ)
lineage_of (some topic) (some partition) (some offset) = ok (topic, partition, offset)
lineage_of _ _ _ = raise value_error

unfoldable pub message_lineage : Message → Result Exception (Text × ℤ × ℤ)
message_lineage m = lineage_of m.topic m.partition m.offset

-- For each call of a database to come, whether its connection fails, and if so whether the
-- transaction was applied all the same; past the end every call is answered.
abbrev pub Calls : Type 0
Calls = List (Option Bool)

abbrev pub next_call : Calls → Option Bool
next_call [] = none
next_call (c ∷ cs) = c

abbrev pub later_calls : Calls → Calls
later_calls [] = []
later_calls (c ∷ cs) = cs

-- What a consumer changes: its database, the dead-letter topic, and the offsets of its group.
pub record World (Store Topic Group : Type 0) : Type 0 where
  pub store : Store
  pub topic : Topic
  pub group : Group

-- `if message.error() is not None: raise KafkaException`
unfoldable pub no_error : Message → Result Exception (Unit {0})
no_error m = if is_some m.error then raise kafka_exception else ok tt

-- The callback `after_database_commit`, which may raise.
abbrev pub Hook : Type 0
Hook = Option (Result Exception (Unit {0}))

abbrev pub run_hook : Hook → Result Exception (Unit {0})
run_hook none = ok tt
run_hook (some r) = r

-- The broker's side of one consumer group. `commit` gives each partition's error.
pub record ConsumerClient : Type 1 where
  pub Group : Type 0
  pub commit : Message → Group → Result Exception (List (Option Text)) × Group

partition_errors : List (Option Text) → Result Exception (Unit {0})
partition_errors [] = ok tt
partition_errors (e ∷ es) = if is_some e then raise kafka_exception else partition_errors es

-- `_commit_source_offset`, which is the same in both consumers.
module _ (client : ConsumerClient) where
  open client use {Group, commit}

  unfoldable pub commit_source_offset : Message → Group → Result Exception (Unit {0}) × Group
  unfolding partition_errors
  commit_source_offset message g =
      let (committed, g') = commit message g in
      elim committed [ ok partitions ↦ (partition_errors partitions, g') | raise e ↦ (raise e, g') ]
