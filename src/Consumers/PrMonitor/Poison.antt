-- ===== src/Consumers/PrMonitor/Poison.antt =====
-- src/github_analytics/consumers/pr_monitor.py: a message that `process` can neither apply nor put
-- into the dead-letter topic. pydantic's `strip_whitespace` keeps U+001C to U+001F, which
-- `str.strip` takes for white space.
use github_delivery_intellig.Common.{◌≡◌, refl, true, none, some, arith}
use github_delivery_intellig.Common.Text.{is_blank}
use github_delivery_intellig.Common.Time.{Datetime}
use github_delivery_intellig.Common.Result.{raise}
use github_delivery_intellig.Common.Exception.{value_error}
use github_delivery_intellig.Webhook.Models.{Decoder, Envelope, pull_request}
use github_delivery_intellig.Consumers.Protocols.{Message, no_error, ConsumerClient, World, Hook}
use github_delivery_intellig.Consumers.Dlq.{DlqPublisher}
use github_delivery_intellig.Consumers.Warehouse.{validate_envelope}
use github_delivery_intellig.Consumers.PrStorage.Models.{PullRequestSnapshot, check_snapshot}
use github_delivery_intellig.Consumers.PrMonitor.Command.{
  PullRequest, pull_request_payload, snapshot, broken, projection_command,
}
use github_delivery_intellig.Consumers.PrMonitor.{ProjectionStorage, process, decided}

blank_title_refused :
    (s : PullRequestSnapshot) → is_blank s.title ≡ true → check_snapshot s ≡ raise value_error
unfolding check_snapshot
blank_title_refused s blank = ground arith

module _ (decoder : Decoder) (client : ConsumerClient) (publisher : DlqPublisher)
    (storage : ProjectionStorage) where
  open client use {Group}
  open publisher use {Topic}
  open storage use {Store}

  -- A valid envelope of a pull request whose payload pydantic accepts, but whose title is all white
  -- space to `str.strip`, makes `process` raise `ValueError`: no dead letter is published, nothing is
  -- stored and no offset is committed, so that the message comes again when the monitor restarts.
  pub blank_title_stops :
      (now : Datetime) (hook : Hook) (message : Message) (w : World Store Topic Group)
      (envelope : Envelope) (pull : PullRequest)
      → message.error ≡ none
      → validate_envelope decoder message.value ≡ some envelope
      → envelope.event_name ≡ pull_request
      → pull_request_payload decoder envelope.payload ≡ some pull
      → is_blank pull.title ≡ true
      → process decoder client publisher storage now hook message w ≡ (raise value_error, w)
  unfolding process no_error decided projection_command snapshot
  blank_title_stops now hook message w envelope pull fine valid event accepted blank =
      let refused = blank_title_refused (snapshot envelope pull) blank in
      let d : projection_command decoder envelope ≡ broken value_error =
        rw (event, accepted, refused) refl in
      ground (arith, d)
