-- ===== src/Consumers/Warehouse/Postgres.antt =====
-- src/github_analytics/consumers/storage.py under warehouse.py: the raw table behind a connection
-- that may fail, before its transaction takes effect or after.
use github_delivery_intellig.Common.{none, some, if◌then◌else◌}
use github_delivery_intellig.Common.Result.{Result, ok, raise}
use github_delivery_intellig.Common.Exception.{Exception, database_error}
use github_delivery_intellig.Consumers.Protocols.{Calls, next_call, later_calls}
use github_delivery_intellig.Consumers.RawStorage
use github_delivery_intellig.Consumers.RawStorage.{WebhookRawEvent, RawEvents, InsertOutcome}
use github_delivery_intellig.Consumers.Warehouse.{RawEventStorage}

pub record RawDatabase : Type 0 where
  pub raw : RawEvents
  pub calls : Calls

-- `PostgresRawEventStorage.insert`
unfoldable pub insert_row :
    WebhookRawEvent → RawDatabase → Result Exception InsertOutcome × RawDatabase
insert_row event db =
    let (outcome, raw') = RawStorage.insert event db.raw in
    elim (next_call db.calls) [
      | none ↦ (ok outcome, record { raw = raw'; calls = later_calls db.calls })
      | some applied ↦ (
        raise database_error,
        record { raw = if applied then raw' else db.raw; calls = later_calls db.calls },
      )
    ]

abbrev pub postgres_storage : RawEventStorage
postgres_storage = record { Store = RawDatabase; insert = insert_row }
