-- ===== src/Consumers/Warehouse/Replay.antt =====
-- src/github_analytics/consumers/warehouse.py over storage.py: the raw table is append-only, and a
-- message that is delivered again adds no row.
use github_delivery_intellig.Common.{
  ℤ, ◌≡◌, ◌≢◌, inl, inr, true, none, some, List, [], ◌∷◌, arith, Option-cases, is_nonnegative,
  eq_self,
}
use github_delivery_intellig.Common.Text.{Text}
use github_delivery_intellig.Common.Table.{
  lookup, insert_new, lookup-insert_new, lookup-insert_new_old,
}
use github_delivery_intellig.Common.Time.{Datetime}
use github_delivery_intellig.Common.Result.{ok, raise, Result-cases}
use github_delivery_intellig.Common.Exception.{Exception}
use github_delivery_intellig.Webhook.Models.{Decoder, Envelope}
use github_delivery_intellig.Consumers.Protocols.{
  Message, message_lineage, no_error, ConsumerClient, World, Hook,
}
use github_delivery_intellig.Consumers.Dlq.{DlqPublisher}
use github_delivery_intellig.Consumers.RawStorage
use github_delivery_intellig.Consumers.RawStorage.{
  WebhookRawEvent, webhook_raw_event, RawRow, Source, webhook, source_eq, event_key, webhook_row,
}
use github_delivery_intellig.Consumers.Warehouse.{
  ProcessingOutcome, validate_envelope, extract_occurred_at, process, dead_letter, land, run,
}
use github_delivery_intellig.Consumers.Warehouse.Postgres.{
  RawDatabase, insert_row, postgres_storage,
}
use github_delivery_intellig.Common.{pair_eq}
use github_delivery_intellig.Common.Text.{text_eq}

-- No answer and no failure of the connection takes a stored row away or changes it.
insert_row-keeps :
    (event : WebhookRawEvent) (db : RawDatabase) (k : Source × Text) (row : RawRow)
    → lookup k db.raw ≡ some row
    → lookup k (insert_row event db).1.raw ≡ some row
unfolding insert_row RawStorage.insert
insert_row-keeps event db k row h =
    ground (arith, lookup-insert_new_old (event_key event) k (webhook_row event) row db.raw h)

-- An event whose key is stored changes nothing, and an answer is `duplicate`.
insert_row_again :
    (event : WebhookRawEvent) (db : RawDatabase) (row : RawRow)
    → lookup (event_key event) db.raw ≡ some row
    → ((insert_row event db).1.raw ≡ db.raw)
      × ((insert_row event db).0 ≡ ok RawStorage.InsertOutcome.inserted → ⊥)
unfolding insert_row RawStorage.insert insert_new
insert_row_again event db row h = (ground arith, λ e. ground arith)

module _ (decoder : Decoder) (client : ConsumerClient) (publisher : DlqPublisher) where
  open client use {Group}
  open publisher use {Topic}

  -- Whatever a call of `process` does, a row that raw.github_events holds before it is there after
  -- it, unchanged.
  pub process_append_only :
      (now : Datetime) (hook : Hook) (message : Message) (w : World RawDatabase Topic Group)
      (k : Source × Text) (row : RawRow)
      → lookup k w.store.raw ≡ some row
      → lookup k (process decoder client publisher postgres_storage now hook message w).1.store.raw
        ≡ some row
  unfolding process dead_letter land
  process_append_only now hook message w k row h =
      elim (Option-cases (validate_envelope decoder message.value)) [
        | inl invalid ↦ ground arith
        | inr (envelope, valid) ↦ elim (Result-cases (message_lineage message)) [
          | inr (e, p) ↦ ground arith
          | inl ((topic, partition, offset), p) ↦
              elim (Result-cases (
                webhook_raw_event envelope partition offset
                  (extract_occurred_at decoder envelope))) [
                    | inr (e, q) ↦ ground arith
                    | inl (event, q) ↦ ground (arith, insert_row-keeps event w.store k row h)
                  ]
        ]
      ]

  -- A whole run of the worker, up to the raise that stops it, keeps every row that was in
  -- raw.github_events before, unchanged.
  pub run_append_only :
      (now : Datetime) (messages : List Message) (w : World RawDatabase Topic Group)
      (k : Source × Text) (row : RawRow)
      → lookup k w.store.raw ≡ some row
      → lookup k (run decoder client publisher postgres_storage now messages w).1.store.raw
        ≡ some row
  unfolding run
  run_append_only now [] w k row h = h
  run_append_only now (message ∷ rest) w k row h =
      let first = process decoder client publisher postgres_storage now none message w in
      let kept = process_append_only now none message w k row h in
      elim (Result-cases first.0) [
        | inr (e, p) ↦ ground (arith, kept)
        | inl (o, p) ↦ ground (arith, run_append_only now rest first.1 k row kept)
      ]

  -- An envelope whose delivery id is stored already is a redelivery: whatever a call of `process`
  -- does, raw.github_events is as it was, and the call does not report `inserted`.
  pub redelivery :
      (now : Datetime) (hook : Hook) (message : Message) (w : World RawDatabase Topic Group)
      (envelope : Envelope) (row : RawRow)
      → validate_envelope decoder message.value ≡ some envelope
      → lookup (webhook, envelope.delivery_id) w.store.raw ≡ some row
      → let (r, w') = process decoder client publisher postgres_storage now hook message w in
        (w'.store.raw ≡ w.store.raw) × (r ≢ ok ProcessingOutcome.inserted)
  unfolding process land webhook_raw_event insert_row RawStorage.insert insert_new
  redelivery now hook message w envelope row valid h = (ground arith, λ e. ground arith)

  crash :
      (now : Datetime) (e : Exception) (message : Message) (w : World RawDatabase Topic Group)
      (envelope : Envelope) (topic : Text) (partition offset : ℤ)
      → validate_envelope decoder message.value ≡ some envelope
      → message.error ≡ none
      → message_lineage message ≡ ok (topic, partition, offset)
      → is_nonnegative partition ≡ true
      → is_nonnegative offset ≡ true
      → w.store.calls ≡ []
      → let (r, w') =
          process decoder client publisher postgres_storage now (some (raise e)) message w in
        (r ≡ raise e)
        × (w'.group ≡ w.group)
        × ((row : RawRow) × (lookup (webhook, envelope.delivery_id) w'.store.raw ≡ some row))
  unfolding process land no_error webhook_raw_event insert_row RawStorage.insert
  crash now e message w envelope topic partition offset valid fine lineage hp ho up =
      elim (Option-cases (lookup (webhook, envelope.delivery_id) w.store.raw)) [
        | inr (row, found) ↦ (
          ground arith,
          ground arith,
          (
            row,
            process_append_only now (some (raise e)) message w (webhook, envelope.delivery_id) row
                found,
          ),
        )
        | inl missing ↦
            let event : WebhookRawEvent = record {
              envelope = envelope;
              kafka_partition = partition;
              kafka_offset = offset;
              occurred_at = extract_occurred_at decoder envelope;
            } in
            (
              ground arith,
              ground arith,
              (
                webhook_row event,
                ground (
                  arith,
                  lookup-insert_new (event_key event) (event_key event) (webhook_row event)
                      w.store.raw,
                  eq_self (event_key event),
                ),
              ),
            )
      ]

  -- The crash window. The database answers, the message has its lineage and no error, and the
  -- process dies after the database commit: the group is as it was and the event is stored. When
  -- the message is delivered again to a process that does not die there, no row is added.
  pub crash_then_redelivery :
      (now later : Datetime) (e : Exception) (message : Message) (w : World RawDatabase Topic Group)
      (envelope : Envelope) (topic : Text) (partition offset : ℤ)
      → validate_envelope decoder message.value ≡ some envelope
      → message.error ≡ none
      → message_lineage message ≡ ok (topic, partition, offset)
      → is_nonnegative partition ≡ true
      → is_nonnegative offset ≡ true
      → w.store.calls ≡ []
      → let (r, w') =
          process decoder client publisher postgres_storage now (some (raise e)) message w in
        let (r', w'') = process decoder client publisher postgres_storage later none message w' in
        (r ≡ raise e)
        × (w'.group ≡ w.group)
        × ((row : RawRow) × (lookup (webhook, envelope.delivery_id) w'.store.raw ≡ some row))
        × (w''.store.raw ≡ w'.store.raw)
  crash_then_redelivery now later e message w envelope topic partition offset valid fine lineage hp
        ho up =
      let (raised, same, (row, stored)) =
        crash now e message w envelope topic partition offset valid fine lineage hp ho up in
      (
        raised,
        same,
        (row, stored),
        (redelivery later none message
            (process decoder client publisher postgres_storage now (some (raise e)) message w).1
            envelope row valid stored).0,
      )
