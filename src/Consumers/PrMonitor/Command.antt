-- ===== src/Consumers/PrMonitor/Command.antt =====
-- src/github_analytics/consumers/pr_monitor.py: from an envelope to the command for the storage.
use github_delivery_intellig.Common.{Bool, not, Option, none, some, if◌then◌else◌, ◌=?◌}
use github_delivery_intellig.Common.Text.{Text, text, text_eq}
use github_delivery_intellig.Common.Json.{Fields}
use github_delivery_intellig.Common.Maybe.{◌>>=◌}
use github_delivery_intellig.Common.Result.{Result, ok, raise}
use github_delivery_intellig.Common.Exception.{Exception}
use github_delivery_intellig.Common.Time.{Datetime}
use github_delivery_intellig.Common.{ℤ}
use github_delivery_intellig.Webhook.Models.{
  Decoder, Envelope, GitHubEventName, pull_request, pull_request_review, required, required_object,
  positive, nonempty_string, aware_datetime,
}
use github_delivery_intellig.Consumers.PrStorage.Models.{
  PullRequestSnapshot, PullRequestState, open_state, closed_state, SubmittedReview, check_snapshot,
  check_review,
}

-- `_Actor`
pub record Actor : Type 0 where
  pub id : ℤ
  pub login : Text

-- `_PullRequest`
pub record PullRequest : Type 0 where
  pub id : ℤ
  pub number : ℤ
  pub state : PullRequestState
  pub title : Text
  pub user : Actor
  pub draft : Bool
  pub created_at : Datetime
  pub updated_at : Datetime

pub data ReviewState : Type 0 where
  approved changes_requested commented : ReviewState

-- `_Review`
pub record Review : Type 0 where
  pub id : ℤ
  pub state : ReviewState
  pub user : Actor
  pub submitted_at : Datetime

-- `PullRequestState(value)`
unfoldable pub state_of : Text → Option PullRequestState
state_of s =
    if s =? text "open"
    then some open_state
    else if s =? text "closed"
    then some closed_state
    else none

-- `_ReviewState(value)`
unfoldable pub review_state_of : Text → Option ReviewState
review_state_of s =
    if s =? text "approved"
    then some approved
    else if s =? text "changes_requested"
    then some changes_requested
    else if s =? text "commented"
    then some commented
    else none

module _ (decoder : Decoder) where
  open decoder use {to_int, to_text, to_bool, to_datetime}

  unfoldable pub actor : Fields → Option Actor
  actor fields = do
    id ← required decoder to_int positive (text "id") fields
    login ← required decoder to_text nonempty_string (text "login") fields
    some record { id = id; login = login }

  unfoldable pub pull_request_of : Fields → Option PullRequest
  unfolding actor state_of
  pull_request_of fields = do
    id ← required decoder to_int positive (text "id") fields
    number ← required decoder to_int positive (text "number") fields
    state ← required decoder to_text state_of (text "state") fields
    title ← required decoder to_text nonempty_string (text "title") fields
    user_fields ← required_object decoder (text "user") fields
    user ← actor user_fields
    draft ← required decoder to_bool (λ b. some b) (text "draft") fields
    created_at ← required decoder to_datetime aware_datetime (text "created_at") fields
    updated_at ← required decoder to_datetime aware_datetime (text "updated_at") fields
    some record {
      id = id;
      number = number;
      state = state;
      title = title;
      user = user;
      draft = draft;
      created_at = created_at;
      updated_at = updated_at;
    }

  unfoldable pub review_of : Fields → Option Review
  unfolding actor review_state_of
  review_of fields = do
    id ← required decoder to_int positive (text "id") fields
    state ← required decoder to_text review_state_of (text "state") fields
    user_fields ← required_object decoder (text "user") fields
    user ← actor user_fields
    submitted_at ← required decoder to_datetime aware_datetime (text "submitted_at") fields
    some record { id = id; state = state; user = user; submitted_at = submitted_at }

  -- `_PullRequestPayload.model_validate`
  unfoldable pub pull_request_payload : Fields → Option PullRequest
  unfolding pull_request_of
  pull_request_payload payload = do
    fields ← required_object decoder (text "pull_request") payload
    pull_request_of fields

  -- `_SubmittedReviewPayload.model_validate`
  unfoldable pub submitted_review_payload : Fields → Option (PullRequest × Review)
  unfolding pull_request_payload review_of
  submitted_review_payload payload = do
    pull ← pull_request_payload payload
    fields ← required_object decoder (text "review") payload
    review ← review_of fields
    some (pull, review)

-- The fields of `_snapshot`, before the checks of `PullRequestSnapshot.__post_init__`.
unfoldable pub snapshot : Envelope → PullRequest → PullRequestSnapshot
snapshot envelope pull = record {
  delivery_id = envelope.delivery_id;
  repository_id = envelope.repository_id;
  repository_full_name = envelope.repository_full_name;
  pull_request_id = pull.id;
  pull_request_number = pull.number;
  state = pull.state;
  title = pull.title;
  author_id = pull.user.id;
  author_login = pull.user.login;
  is_draft = pull.draft;
  opened_at = pull.created_at;
  updated_at = pull.updated_at;
}

pub data ProjectionCommand : Type 0 where
  snapshot_command : PullRequestSnapshot → ProjectionCommand
  review_command : SubmittedReview → ProjectionCommand

abbrev review_with : Envelope → PullRequest × Review → SubmittedReview
review_with envelope (pull, review) = record {
  pull_request = snapshot envelope pull;
  review_id = review.id;
  reviewer_id = review.user.id;
  reviewer_login = review.user.login;
  submitted_at = review.submitted_at;
}

-- What `_projection_command` returns, that it raises `ValidationError`, or that the checks of the
-- storage's classes raise another exception.
pub data Decision : Type 0 where
  command : ProjectionCommand → Decision
  no_command : Decision
  invalid : Decision
  broken : Exception → Decision

abbrev checked {ℓ} : {A : Type ℓ} → (A → ProjectionCommand) → Result Exception A → Decision
checked make (ok a) = command (make a)
checked make (raise e) = broken e

abbrev snapshot_decision : Envelope → Option PullRequest → Decision
snapshot_decision envelope none = invalid
snapshot_decision envelope (some pull) =
    checked snapshot_command (check_snapshot (snapshot envelope pull))

abbrev review_decision : Envelope → Option (PullRequest × Review) → Decision
review_decision envelope none = invalid
review_decision envelope (some (pull, review)) = elim (check_snapshot (snapshot envelope pull)) [
  | raise e ↦ broken e
  | ok s ↦ checked review_command (check_review (review_with envelope (pull, review)))
]

abbrev decide : Decoder → GitHubEventName → Envelope → Decision
decide decoder pull_request envelope =
    snapshot_decision envelope (pull_request_payload decoder envelope.payload)
decide decoder pull_request_review envelope =
    if not (envelope.action =? text "submitted")
    then no_command
    else review_decision envelope (submitted_review_payload decoder envelope.payload)
decide decoder _ envelope = no_command

-- `_projection_command`
unfoldable pub projection_command : Decoder → Envelope → Decision
projection_command decoder envelope = decide decoder envelope.event_name envelope
