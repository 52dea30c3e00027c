-- ===== src/Consumers/PrStorage/Models.antt =====
-- src/github_analytics/consumers/pr_storage.py: the snapshot and the review, with the checks of
-- their `__post_init__`.
use github_delivery_intellig.Common.{ℤ, Bool, not, ◌||◌, [], ◌∷◌, any, is_positive}
use github_delivery_intellig.Common.Text.{Text, is_blank}
use github_delivery_intellig.Common.Time.{Datetime}
use github_delivery_intellig.Common.Result.{Result, ok, ◌>>◌, refuse_if}
use github_delivery_intellig.Common.Exception.{Exception, value_error}

pub data PullRequestState : Type 0 where
  open_state closed_state : PullRequestState

pub record PullRequestSnapshot : Type 0 where
  pub delivery_id : Text
  pub repository_id : ℤ
  pub repository_full_name : Text
  pub pull_request_id : ℤ
  pub pull_request_number : ℤ
  pub state : PullRequestState
  pub title : Text
  pub author_id : ℤ
  pub author_login : Text
  pub is_draft : Bool
  pub opened_at : Datetime
  pub updated_at : Datetime

-- `PullRequestSnapshot.__post_init__`
unfoldable pub check_snapshot : PullRequestSnapshot → Result Exception PullRequestSnapshot
check_snapshot s = do
  refuse_if
      (any (λ n. not (is_positive n))
        (s.repository_id ∷ s.pull_request_id ∷ s.pull_request_number ∷ s.author_id ∷ []))
      value_error
  refuse_if (any is_blank (s.delivery_id ∷ s.repository_full_name ∷ s.title ∷ s.author_login ∷ []))
      value_error
  refuse_if (not s.opened_at.aware || not s.updated_at.aware) value_error
  ok s

pub record SubmittedReview : Type 0 where
  pub pull_request : PullRequestSnapshot
  pub review_id : ℤ
  pub reviewer_id : ℤ
  pub reviewer_login : Text
  pub submitted_at : Datetime

-- `SubmittedReview.__post_init__`
unfoldable pub check_review : SubmittedReview → Result Exception SubmittedReview
check_review r = do
  refuse_if (not (is_positive r.review_id) || not (is_positive r.reviewer_id)) value_error
  refuse_if (is_blank r.reviewer_login) value_error
  refuse_if (not r.submitted_at.aware) value_error
  ok r

pub data ProjectionOutcome : Type 0 where
  applied stale : ProjectionOutcome

pub data ReviewOutcome : Type 0 where
  recorded ineligible unchanged : ReviewOutcome
