-- ===== src/Consumers/PrMonitor/Ordering.antt =====
-- src/github_analytics/consumers/pr_monitor.py: effects come before offsets.
use github_delivery_intellig.Common.{
  ◌≡◌, refl, ◌⊎◌, inl, inr, Option, none, some, arith, Option-cases,
}
use github_delivery_intellig.Common.Time.{Datetime}
use github_delivery_intellig.Common.Result.{Result, ok, Result-cases}
use github_delivery_intellig.Common.Exception.{Exception}
use github_delivery_intellig.Webhook.Models.{Decoder}
use github_delivery_intellig.Consumers.Protocols.{
  Message, no_error, ConsumerClient, commit_source_offset, World, Hook,
}
use github_delivery_intellig.Consumers.Dlq.{
  DlqPublisher, DeadLetterRecord, DlqFailureReason, from_message, invalid_github_event_envelope,
  invalid_pr_monitor_event,
}
use github_delivery_intellig.Consumers.Warehouse.{validate_envelope}
use github_delivery_intellig.Consumers.PrStorage.Models.{ProjectionOutcome, ReviewOutcome}
use github_delivery_intellig.Consumers.PrMonitor.Command.{
  ProjectionCommand, snapshot_command, review_command, Decision, command, no_command, invalid,
  broken, projection_command,
}
use github_delivery_intellig.Consumers.PrMonitor.{
  ProjectionStorage, MonitorOutcome, projected, review_recorded, review_ineligible,
  review_unchanged, ignored, dlq, applied_to, process, dead_letter, execute, ignore, decided,
}

-- What a message's bytes ask for: nothing where they are no envelope.
abbrev pub asked : Decoder → Message → Option Decision
asked decoder message = elim (validate_envelope decoder message.value) [
  | none ↦ none
  | some envelope ↦ some (projection_command decoder envelope)
]

-- The reason of a dead letter.
abbrev pub poison : Option Decision → Option DlqFailureReason
poison none = some invalid_github_event_envelope
poison (some invalid) = some invalid_pr_monitor_event
poison (some other) = none

module _ (decoder : Decoder) (client : ConsumerClient) (publisher : DlqPublisher)
    (storage : ProjectionStorage) where
  open client use {Group}
  open publisher use {Topic}
  open storage use {Store}

  -- The message's bytes are acknowledged as a dead letter, and the database is as it was.
  abbrev pub DeadLettered :
      Datetime → Message → World Store Topic Group → World Store Topic Group → Type 0
  DeadLettered now message w w' =
      (letter : DeadLetterRecord) × (reason : DlqFailureReason) × (poison (asked decoder message)
        ≡ some reason)
      × (from_message decoder message now reason ≡ ok letter)
      × ((publisher.publish letter w.topic).0 ≡ ok tt)
      × (w'.topic ≡ (publisher.publish letter w.topic).1)
      × (w'.store ≡ w.store)

  -- The storage has answered the message's command, and the dead-letter topic is as it was.
  abbrev pub Executed :
      Message → MonitorOutcome → World Store Topic Group → World Store Topic Group → Type 0
  Executed message o w w' =
      (c : ProjectionCommand) × (asked decoder message ≡ some (command c))
      × ((applied_to decoder client publisher storage c w.store).0 ≡ ok o)
      × (w'.store ≡ (applied_to decoder client publisher storage c w.store).1)
      × (w'.topic ≡ w.topic)

  -- The outcome for each answer of the storage: to a snapshot and to a review, in the store `st`,
  -- which the call leaves as `st'`.
  abbrev pub Told : ProjectionCommand → MonitorOutcome → Store → Store → Type 0
  Told (snapshot_command s) o st st' =
      let (r, left) = storage.apply_pull_request s st in
      (st' ≡ left)
      × (((r ≡ ok ProjectionOutcome.applied) × (o ≡ projected))
          ⊎ ((r ≡ ok ProjectionOutcome.stale) × (o ≡ MonitorOutcome.stale)))
  Told (review_command r) o st st' =
      let (answer, left) = storage.apply_review r st in
      (st' ≡ left)
      × (((answer ≡ ok ReviewOutcome.recorded) × (o ≡ review_recorded))
          ⊎ (((answer ≡ ok ReviewOutcome.ineligible) × (o ≡ review_ineligible))
              ⊎ ((answer ≡ ok ReviewOutcome.unchanged) × (o ≡ review_unchanged))))

  -- The storage has answered the message's command, the outcome tells its answer, and the
  -- dead-letter topic is as it was.
  abbrev pub Answered :
      Message → MonitorOutcome → World Store Topic Group → World Store Topic Group → Type 0
  Answered message o w w' =
      (c : ProjectionCommand) × (asked decoder message ≡ some (command c))
      × Told c o w.store w'.store
      × (w'.topic ≡ w.topic)

  -- The message asks for nothing.
  abbrev pub Passed : Message → World Store Topic Group → World Store Topic Group → Type 0
  Passed message w w' =
      (asked decoder message ≡ some no_command) × (w'.store ≡ w.store) × (w'.topic ≡ w.topic)

  abbrev pub Reported :
      Datetime
      → Message
      → World Store Topic Group
      → MonitorOutcome
      → World Store Topic Group
      → Type 0
  Reported now message w o w' =
      ((commit_source_offset client message w.group).0 ≡ ok tt)
      × (w'.group ≡ (commit_source_offset client message w.group).1)
      × (((o ≡ dlq) × DeadLettered now message w w')
          ⊎ (Answered message o w w' ⊎ ((o ≡ ignored) × Passed message w w')))

  -- Both statements of a call that ends with the result `r` in `w'`.
  abbrev Ordered :
      Datetime
      → Message
      → World Store Topic Group
      → Result Exception MonitorOutcome
      → World Store Topic Group
      → Type 0
  Ordered now message w r w' =
      ((w'.group ≡ w.group)
        ⊎ (DeadLettered now message w w'
            ⊎ (((o : MonitorOutcome) × Executed message o w w') ⊎ Passed message w w')))
      × ((o : MonitorOutcome) → r ≡ ok o → Reported now message w o w')

  dead_letter-Ordered :
      (now : Datetime) (message : Message) (reason : DlqFailureReason) (w : World Store Topic Group)
      → poison (asked decoder message) ≡ some reason
      → let (r, w') = dead_letter decoder client publisher storage now message reason w in
        Ordered now message w r w'
  unfolding dead_letter
  dead_letter-Ordered now message reason w why =
      elim (Result-cases (from_message decoder message now reason)) [
        | inr (e, p) ↦ (inl (ground arith), λ o h. absurd (ground arith))
        | inl (letter, p) ↦ elim (Result-cases (publisher.publish letter w.topic).0) [
          | inr (e, q) ↦ (inl (ground arith), λ o h. absurd (ground arith))
          | inl (u, q) ↦ (
            inr (inl (letter, reason, why, p, q, ground arith, ground arith)),
            λ o h. (
              ground arith,
              ground arith,
              inl (ground arith, (letter, reason, why, p, q, ground arith, ground arith)),
            ),
          )
        ]
      ]

  applied_to-Told :
      (c : ProjectionCommand) (o : MonitorOutcome) (st st' : Store)
      → (applied_to decoder client publisher storage c st).0 ≡ ok o
      → st' ≡ (applied_to decoder client publisher storage c st).1
      → Told c o st st'
  applied_to-Told (snapshot_command s) o st st' h e =
      elim (Result-cases (storage.apply_pull_request s st).0) [
        | inl (ProjectionOutcome.applied, p) ↦ (e, inl (p, ground arith))
        | inl (ProjectionOutcome.stale, p) ↦ (e, inr (p, ground arith))
        | inr (x, p) ↦ absurd (ground arith)
      ]
  applied_to-Told (review_command r) o st st' h e =
      elim (Result-cases (storage.apply_review r st).0) [
        | inl (ReviewOutcome.recorded, p) ↦ (e, inl (p, ground arith))
        | inl (ReviewOutcome.ineligible, p) ↦ (e, inr (inl (p, ground arith)))
        | inl (ReviewOutcome.unchanged, p) ↦ (e, inr (inr (p, ground arith)))
        | inr (x, p) ↦ absurd (ground arith)
      ]

  execute-Ordered :
      (now : Datetime) (hook : Hook) (message : Message) (c : ProjectionCommand)
      (w : World Store Topic Group)
      → asked decoder message ≡ some (command c)
      → let (r, w') = execute decoder client publisher storage hook message c w in
        Ordered now message w r w'
  unfolding execute
  execute-Ordered now hook message c w why =
      elim (Result-cases (applied_to decoder client publisher storage c w.store).0) [
        | inr (e, p) ↦ (inl (ground arith), λ o h. absurd (ground arith))
        | inl (answer, p) ↦ (
          inr (inr (inl (answer, (c, why, p, ground arith, ground arith)))),
          λ o h. (
            ground arith,
            ground arith,
            inr (
                inl (
                  c,
                  why,
                  applied_to-Told c o w.store
                      (execute decoder client publisher storage hook message c w).1.store
                      (ground arith) (ground arith),
                  ground arith,
                )),
          ),
        )
      ]

  ignore-Ordered :
      (now : Datetime) (message : Message) (w : World Store Topic Group)
      → asked decoder message ≡ some no_command
      → let (r, w') = ignore decoder client publisher storage message w in
        Ordered now message w r w'
  unfolding ignore
  ignore-Ordered now message w why = (
    inr (inr (inr (why, ground arith, ground arith))),
    λ o h.
        (ground arith, ground arith, inr (inr (ground arith, (why, ground arith, ground arith)))),
  )

  decided-Ordered :
      (now : Datetime) (hook : Hook) (message : Message) (d : Decision)
      (w : World Store Topic Group)
      → asked decoder message ≡ some d
      → let (r, w') = decided decoder client publisher storage now hook message d w in
        Ordered now message w r w'
  unfolding decided
  decided-Ordered now hook message invalid w why =
      dead_letter-Ordered now message invalid_pr_monitor_event w (rw why)
  decided-Ordered now hook message no_command w why = ignore-Ordered now message w why
  decided-Ordered now hook message (broken e) w why = (inl refl, λ o h. absurd (cc))
  decided-Ordered now hook message (command c) w why = execute-Ordered now hook message c w why

  process-Ordered :
      (now : Datetime) (hook : Hook) (message : Message) (w : World Store Topic Group)
      → let (r, w') = process decoder client publisher storage now hook message w in
        Ordered now message w r w'
  unfolding process no_error
  process-Ordered now hook message w = elim (Option-cases message.error) [
    | inr (e, p) ↦ (inl (ground arith), λ o h. absurd (ground arith))
    | inl fine ↦ elim (Option-cases (validate_envelope decoder message.value)) [
      | inl none_valid ↦
          let same : process decoder client publisher storage now hook message w
              ≡ dead_letter decoder client publisher storage now message
                  invalid_github_event_envelope w =
            ground arith in
          rw same (
            dead_letter-Ordered now message invalid_github_event_envelope w
              (rw (none_valid, asked) refl))
      | inr (envelope, valid) ↦
          let same : process decoder client publisher storage now hook message w
              ≡ decided decoder client publisher storage now hook message
                  (projection_command decoder envelope) w =
            ground arith in
          rw same (
            decided-Ordered now hook message (projection_command decoder envelope) w
              (rw (valid, asked) refl))
    ]
  ]

  -- A call of `PrMonitor.process`, whatever fails, leaves the consumer group as it was, or the
  -- message's one effect has come first: bytes that are no envelope or no event of the monitor are an
  -- acknowledged dead letter, with the reason of the two, and leave the store alone; a command was
  -- answered by the storage; and an event that asks for nothing changes neither store nor topic.
  pub monitor_commit_after_effect :
      (now : Datetime) (hook : Hook) (message : Message) (w : World Store Topic Group)
      → let (r, w') = process decoder client publisher storage now hook message w in
        (w'.group ≡ w.group)
        ⊎ (DeadLettered now message w w'
            ⊎ (((o : MonitorOutcome) × Executed message o w w') ⊎ Passed message w w'))
  monitor_commit_after_effect now hook message w = (process-Ordered now hook message w).0

  -- When `PrMonitor.process` returns an outcome, the broker has committed the source offset without
  -- an error, and the outcome tells the effect: `dlq` the acknowledged dead letter, `ignored` an
  -- event that asks for nothing, `projected` a snapshot that the storage applied and `stale` one that it
  -- answered as stale, and the three review outcomes the storage's three answers to a review; the
  -- store is then as that answer left it.
  pub monitor_outcome_reports_effect :
      (now : Datetime) (hook : Hook) (message : Message) (w : World Store Topic Group)
      (o : MonitorOutcome)
      → (process decoder client publisher storage now hook message w).0 ≡ ok o
      → Reported now message w o (process decoder client publisher storage now hook message w).1
  monitor_outcome_reports_effect now hook message w o h = (process-Ordered now hook message w).1 o h
