-- ===== src/Consumers/Warehouse/Ordering.antt =====
-- src/github_analytics/consumers/warehouse.py: effects come before offsets.
use github_delivery_intellig.Common.{ℤ, ◌≡◌, ◌⊎◌, inl, inr, none, some, arith, Option-cases}
use github_delivery_intellig.Common.Time.{Datetime}
use github_delivery_intellig.Common.Result.{ok, Result-cases}
use github_delivery_intellig.Webhook.Models.{Decoder, Envelope}
use github_delivery_intellig.Consumers.Protocols.{
  Message, message_lineage, no_error, ConsumerClient, commit_source_offset, World, Hook,
}
use github_delivery_intellig.Consumers.Dlq.{
  DlqPublisher, DeadLetterRecord, from_message, invalid_github_event_envelope,
}
use github_delivery_intellig.Consumers.RawStorage.{
  WebhookRawEvent, webhook_raw_event, InsertOutcome,
}
use github_delivery_intellig.Consumers.Warehouse.{
  RawEventStorage, ProcessingOutcome, dlq, of_insert, validate_envelope, extract_occurred_at,
  process, dead_letter, land,
}

module _ (decoder : Decoder) (client : ConsumerClient) (publisher : DlqPublisher)
    (storage : RawEventStorage) where
  open client use {Group}
  open publisher use {Topic}
  open storage use {Store}

  -- The message's bytes are acknowledged as a dead letter, and the database is as it was.
  abbrev pub DeadLettered :
      Datetime → Message → World Store Topic Group → World Store Topic Group → Type 0
  DeadLettered now message w w' =
      (letter : DeadLetterRecord) × (validate_envelope decoder message.value ≡ none)
      × (from_message decoder message now invalid_github_event_envelope ≡ ok letter)
      × ((publisher.publish letter w.topic).0 ≡ ok tt)
      × (w'.topic ≡ (publisher.publish letter w.topic).1)
      × (w'.store ≡ w.store)

  -- The storage has taken the event of the message, and the dead-letter topic is as it was.
  abbrev pub Landed :
      Message → InsertOutcome → World Store Topic Group → World Store Topic Group → Type 0
  Landed message outcome w w' =
      (event : WebhookRawEvent) × (validate_envelope decoder message.value ≡ some event.envelope)
      × ((storage.insert event w.store).0 ≡ ok outcome)
      × (w'.store ≡ (storage.insert event w.store).1)
      × (w'.topic ≡ w.topic)

  dead_letter-ordered :
      (now : Datetime) (message : Message) (w : World Store Topic Group)
      → validate_envelope decoder message.value ≡ none
      → let (r, w') = dead_letter decoder client publisher storage now message w in
        (w'.group ≡ w.group) ⊎ DeadLettered now message w w'
  unfolding dead_letter
  dead_letter-ordered now message w invalid =
      elim (Result-cases (from_message decoder message now invalid_github_event_envelope)) [
        | inr (e, p) ↦ inl (ground arith)
        | inl (letter, p) ↦ elim (Result-cases (publisher.publish letter w.topic).0) [
          | inr (e, q) ↦ inl (ground arith)
          | inl (u, q) ↦ inr (letter, invalid, p, q, ground arith, ground arith)
        ]
      ]

  land-ordered :
      (hook : Hook) (message : Message) (partition offset : ℤ) (envelope : Envelope)
      (w : World Store Topic Group)
      → validate_envelope decoder message.value ≡ some envelope
      → let (r, w') =
          land decoder client publisher storage hook message partition offset envelope w in
        (w'.group ≡ w.group) ⊎ ((o : InsertOutcome) × Landed message o w w')
  unfolding land webhook_raw_event
  land-ordered hook message partition offset envelope w valid =
      let event_r =
        webhook_raw_event envelope partition offset (extract_occurred_at decoder envelope) in
      elim (Result-cases event_r) [
        | inr (e, p) ↦ inl (ground arith)
        | inl (event, p) ↦ elim (Result-cases (storage.insert event w.store).0) [
          | inr (e, q) ↦ inl (ground arith)
          | inl (o, q) ↦ inr (o, (event, ground arith, q, ground arith, ground arith))
        ]
      ]

  -- A call of `process`, whether it returns or raises and wherever its callback, storage, publisher
  -- or broker fails, leaves the consumer group as it was, or has first made the message's one effect
  -- durable: a value that is no envelope is an acknowledged dead letter and the store is untouched,
  -- and an envelope's event is in the storage, which answered, and no dead letter is published.
  pub commit_after_effect :
      (now : Datetime) (hook : Hook) (message : Message) (w : World Store Topic Group)
      → let (r, w') = process decoder client publisher storage now hook message w in
        (w'.group ≡ w.group)
        ⊎ (DeadLettered now message w w' ⊎ ((o : InsertOutcome) × Landed message o w w'))
  unfolding process no_error
  commit_after_effect now hook message w =
      elim (Option-cases (validate_envelope decoder message.value)) [
        | inl invalid ↦ ground (arith, dead_letter-ordered now message w invalid)
        | inr (envelope, valid) ↦ elim (Result-cases (message_lineage message)) [
          | inr (e, p) ↦ inl (ground arith)
          | inl ((topic, partition, offset), p) ↦
              ground (arith, land-ordered hook message partition offset envelope w valid)
        ]
      ]

  -- What a returned outcome reports, with the source offset committed without an error.
  abbrev pub Reported :
      Datetime
      → Message
      → World Store Topic Group
      → ProcessingOutcome
      → World Store Topic Group
      → Type 0
  Reported now message w o w' =
      ((commit_source_offset client message w.group).0 ≡ ok tt)
      × (w'.group ≡ (commit_source_offset client message w.group).1)
      × (((o ≡ dlq) × DeadLettered now message w w')
          ⊎ ((i : InsertOutcome) × (o ≡ of_insert i) × Landed message i w w'))
