-- ===== src/Backfill/Storage.antt =====
-- src/github_analytics/backfill/storage.py: `PostgresBackfillStorage` over raw.github_events and
-- raw.backfill_checkpoints. A page is one transaction. Records and keys have passed the checks of
-- models.py, which are those of the tables' constraints.
use github_delivery_intellig.Common.{
  ℕ, suc, ◌+◌, ◌-◌, ℤ, Bool, true, false, not, ◌&&◌, ◌||◌, Option, none, some, List, [], ◌∷◌, any,
  length, is_some, if◌then◌else◌, ◌=?◌, Eq, pair_eq, nat_eq, int_eq,
}
use github_delivery_intellig.Common.Text.{Text, text_eq, is_empty}
use github_delivery_intellig.Common.Table.{Table, lookup, upsert, insert_new}
use github_delivery_intellig.Common.Result.{Result, ok, raise}
use github_delivery_intellig.Common.Exception.{Exception, value_error, runtime_error}
use github_delivery_intellig.Consumers.RawStorage.{RawEvents, RawRow, Source, backfill, source_eq}
use github_delivery_intellig.Backfill.Models.{
  CheckpointStatus, in_progress, completed, BackfillRunKey, BackfillCheckpoint, BackfillRecord,
  PageWriteOutcome,
}

-- The primary key of raw.backfill_checkpoints; two times are one key when they are one instant.
abbrev pub CheckpointKey : Type 0
CheckpointKey = ℤ × (Text × (Text × (ℕ × ℕ)))

instance abbrev pub checkpoint_key_eq : Eq CheckpointKey
checkpoint_key_eq = pair_eq ⦃d = pair_eq ⦃d = pair_eq ⦃d = pair_eq⦄⦄⦄

abbrev pub key_parameters : BackfillRunKey → CheckpointKey
key_parameters k =
    (k.repository_id, (k.resource, (k.scope, (k.window_start.instant, k.window_end.instant))))

pub record BackfillTables : Type 0 where
  pub raw : RawEvents
  pub checkpoints : Table CheckpointKey BackfillCheckpoint

unfoldable pub load_checkpoint : BackfillRunKey → BackfillTables → Option BackfillCheckpoint
load_checkpoint key db = lookup (key_parameters key) db.checkpoints

abbrev pub record_key : BackfillRecord → Source × Text
record_key r = (backfill, r.source_record_key)

-- The parameters of `_INSERT_RECORD`.
pub backfill_row : BackfillRecord → RawRow
backfill_row r = record {
  delivery_id = none;
  event_name = r.event_name;
  action = r.action;
  repository_id = r.repository_id;
  installation_id = r.installation_id;
  occurred_at = r.occurred_at;
  received_at = none;
  payload = r.payload;
  kafka_partition = none;
  kafka_offset = none;
}

-- The loop over the records, and how many of them were new.
unfoldable pub insert_records : List BackfillRecord → RawEvents → ℕ × RawEvents
insert_records [] raw = (0, raw)
insert_records (r ∷ rs) raw =
    let (n, raw') = insert_records rs (insert_new (record_key r) (backfill_row r) raw) in
    (if is_some (lookup (record_key r) raw) then n else suc n, raw')

abbrev pub status_of : Bool → CheckpointStatus
status_of true = completed
status_of false = in_progress

-- The row that `_ADVANCE_CHECKPOINT` leaves for the key.
unfoldable pub advance : Option Text → Bool → ℕ → Option BackfillCheckpoint → BackfillCheckpoint
advance cursor is_last inserted none = record {
  cursor = cursor;
  status = status_of is_last;
  pages_completed = 1;
  records_inserted = inserted;
}
advance cursor is_last inserted (some old) = record {
  cursor = cursor;
  status = status_of is_last;
  pages_completed = old.pages_completed + 1;
  records_inserted = old.records_inserted + inserted;
}

-- `not next_cursor`
abbrev pub no_cursor : Option Text → Bool
no_cursor none = true
no_cursor (some c) = is_empty c

-- The three tests at the top of `persist_page`.
unfoldable pub refuses : BackfillRunKey → List BackfillRecord → Option Text → Bool → Bool
refuses key records next_cursor is_last =
    (is_last && is_some next_cursor)
    || (not is_last && no_cursor next_cursor)
    || any (λ (r : BackfillRecord). not (r.repository_id =? key.repository_id)) records

unfoldable pub persist_page :
    BackfillRunKey
    → List BackfillRecord
    → Option Text
    → Bool
    → BackfillTables
    → Result Exception PageWriteOutcome × BackfillTables
persist_page key records next_cursor is_last db =
    if refuses key records next_cursor is_last
    then (raise value_error, db)
    else let (inserted, raw) = insert_records records db.raw in
      let row = advance next_cursor is_last inserted (load_checkpoint key db) in
      let db' : BackfillTables = record {
        raw = raw;
        checkpoints = upsert (key_parameters key) row db.checkpoints;
      } in
      elim (load_checkpoint key db') [
        | none ↦ (raise runtime_error, db')
        | some checkpoint ↦ (
          ok record {
            inserted = inserted;
            duplicates = length records - inserted;
            checkpoint = checkpoint;
          },
          db',
        )
      ]
