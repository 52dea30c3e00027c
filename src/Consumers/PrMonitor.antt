-- ===== src/Consumers/PrMonitor.antt =====
-- src/github_analytics/consumers/pr_monitor.py: `PrMonitor`. The storage is its Protocol class
-- `ProjectionStorage`; `Replay` puts pr_storage.py for it.
pub mod Command
pub mod Ordering
pub mod Replay
pub mod Poison
mod Tests
use github_delivery_intellig.Common.{ℕ, ◌-◌, ◌+◌, Bool, Option, none, some, leb, if◌then◌else◌}
use github_delivery_intellig.Common.Time.{Datetime}
use github_delivery_intellig.Common.Result.{Result, ok, raise}
use github_delivery_intellig.Common.Action.{Action, lift, pure, ◌>>=◌, ◌>>◌}
use github_delivery_intellig.Common.Exception.{Exception}
use github_delivery_intellig.Webhook.Models.{Decoder, Envelope}
use github_delivery_intellig.Consumers.Protocols.{
  Message, ConsumerClient, commit_source_offset, World, no_error, Hook, run_hook,
}
use github_delivery_intellig.Consumers.Dlq.{
  DlqPublisher, DeadLetterRecord, DlqFailureReason, from_message, invalid_github_event_envelope,
  invalid_pr_monitor_event,
}
use github_delivery_intellig.Consumers.Warehouse.{validate_envelope}
use github_delivery_intellig.Consumers.PrStorage.Models.{
  PullRequestSnapshot, SubmittedReview, ProjectionOutcome, ReviewOutcome,
}
use Command.{
  ProjectionCommand, snapshot_command, review_command, Decision, command, no_command, invalid,
  broken, projection_command,
}

-- `ProjectionStorage`
pub record ProjectionStorage : Type 1 where
  pub Store : Type 0
  pub apply_pull_request : PullRequestSnapshot → Store → Result Exception ProjectionOutcome × Store
  pub apply_review : SubmittedReview → Store → Result Exception ReviewOutcome × Store
  pub create_stale_alerts : Datetime → Datetime → Store → Result Exception ℕ × Store

pub data MonitorOutcome : Type 0 where
  projected stale review_recorded review_ineligible review_unchanged ignored dlq : MonitorOutcome

abbrev pub of_projection : ProjectionOutcome → MonitorOutcome
of_projection ProjectionOutcome.applied = projected
of_projection ProjectionOutcome.stale = stale

abbrev pub of_review : ReviewOutcome → MonitorOutcome
of_review ReviewOutcome.recorded = review_recorded
of_review ReviewOutcome.ineligible = review_ineligible
of_review ReviewOutcome.unchanged = review_unchanged

abbrev pub map_ok {ℓ κ} :
    {A : Type ℓ} {B : Type κ} → (A → B) → Result Exception A → Result Exception B
map_ok f (ok a) = ok (f a)
map_ok f (raise e) = raise e

module _ (decoder : Decoder) (client : ConsumerClient) (publisher : DlqPublisher)
    (storage : ProjectionStorage) where
  open client use {Group}
  open publisher use {Topic}
  open storage use {Store}

  abbrev pub Monitor : Type 0 → Type 0
  Monitor = Action Exception (World Store Topic Group)

  -- The storage call for a command, with the outcome that `process` makes of its answer.
  abbrev pub applied_to : ProjectionCommand → Store → Result Exception MonitorOutcome × Store
  applied_to (snapshot_command s) st =
      let (r, st') = storage.apply_pull_request s st in (map_ok of_projection r, st')
  applied_to (review_command s) st =
      let (r, st') = storage.apply_review s st in (map_ok of_review r, st')

  abbrev apply_command : ProjectionCommand → Monitor MonitorOutcome
  apply_command c w =
      let (r, s) = applied_to c w.store in
      (r, record { store = s; topic = w.topic; group = w.group })

  abbrev publish : DeadLetterRecord → Monitor (Unit {0})
  publish letter w =
      let (r, t) = publisher.publish letter w.topic in
      (r, record { store = w.store; topic = t; group = w.group })

  abbrev commit : Message → Monitor (Unit {0})
  commit message w =
      let (r, g) = commit_source_offset client message w.group in
      (r, record { store = w.store; topic = w.topic; group = g })

  -- `_dead_letter`
  dead_letter : Datetime → Message → DlqFailureReason → Monitor MonitorOutcome
  dead_letter now message reason = do
    letter ← lift (from_message decoder message now reason)
    publish letter
    commit message
    pure dlq

  execute : Hook → Message → ProjectionCommand → Monitor MonitorOutcome
  execute hook message c = do
    outcome ← apply_command c
    lift (run_hook hook)
    commit message
    pure outcome

  ignore : Message → Monitor MonitorOutcome
  ignore message = do commit message; pure ignored

  decided : Datetime → Hook → Message → Decision → Monitor MonitorOutcome
  unfolding dead_letter execute ignore
  decided now hook message invalid = dead_letter now message invalid_pr_monitor_event
  decided now hook message no_command = ignore message
  decided now hook message (broken e) = lift (raise e)
  decided now hook message (command c) = execute hook message c

  -- `PrMonitor.process`, at the time `now` of its clock.
  unfoldable pub process : Datetime → Hook → Message → Monitor MonitorOutcome
  unfolding decided
  process now hook message = do
    lift (no_error message)
    elim (validate_envelope decoder message.value) [
      | none ↦ dead_letter now message invalid_github_event_envelope
      | some envelope ↦ decided now hook message (projection_command decoder envelope)
    ]

  -- `sweep_stale`; `now - stale_after` is an `OverflowError` in Python before the year 1, and the
  -- year 1 here.
  unfoldable pub sweep_stale : ℕ → Datetime → Store → Result Exception ℕ × Store
  sweep_stale stale_after now =
      storage.create_stale_alerts
        (record { instant = now.instant - stale_after; aware = now.aware }) now

  -- The sweep of `run_forever`, if its time has come; the result is the time of the next one.
  sweep_if_due : ℕ → ℕ → Datetime → ℕ → Monitor ℕ
  unfolding sweep_stale
  sweep_if_due stale_after interval now next_sweep_at w =
      if leb next_sweep_at now.instant
      then (let (r, s) = sweep_stale stale_after now w.store in
          (
            map_ok (λ inserted. now.instant + interval) r,
            record { store = s; topic = w.topic; group = w.group },
          ))
      else (ok next_sweep_at, w)

  -- One round of `run_forever`: the sweep, and then the message if the poll has one. The log lines
  -- are left out.
  unfoldable pub round : ℕ → ℕ → Datetime → ℕ → Option Message → Monitor (ℕ × Option MonitorOutcome)
  unfolding process sweep_if_due
  round stale_after interval now next_sweep_at polled = do
    next ← sweep_if_due stale_after interval now next_sweep_at
    elim polled [
      | none ↦ pure (next, none)
      | some message ↦ do outcome ← process now none message; pure (next, some outcome)
    ]
