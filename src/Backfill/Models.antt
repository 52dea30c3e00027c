-- ===== src/Backfill/Models.antt =====
-- src/github_analytics/backfill/models.py: identities and restart state.
use github_delivery_intellig.Common.{
  ℕ, ℤ, Bool, false, not, ◌||◌, Option, none, some, [], ◌∷◌, any, is_positive, leb,
}
use github_delivery_intellig.Common.Text.{Text, is_blank}
use github_delivery_intellig.Common.Json.{Fields}
use github_delivery_intellig.Common.Time.{Datetime}
use github_delivery_intellig.Common.Result.{Result, ok, ◌>>◌, refuse_if}
use github_delivery_intellig.Common.Exception.{Exception, value_error}

pub data CheckpointStatus : Type 0 where
  in_progress completed : CheckpointStatus

pub record BackfillRunKey : Type 0 where
  pub repository_id : ℤ
  pub resource : Text
  pub scope : Text
  pub window_start : Datetime
  pub window_end : Datetime

-- `BackfillRunKey.__post_init__`
unfoldable pub check_run_key : BackfillRunKey → Result Exception BackfillRunKey
check_run_key k = do
  refuse_if (not (is_positive k.repository_id)) value_error
  refuse_if (is_blank k.resource || is_blank k.scope) value_error
  refuse_if (not k.window_start.aware || not k.window_end.aware) value_error
  refuse_if (leb k.window_end.instant k.window_start.instant) value_error
  ok k

pub record BackfillCheckpoint : Type 0 where
  pub cursor : Option Text
  pub status : CheckpointStatus
  pub pages_completed : ℕ
  pub records_inserted : ℕ

pub record BackfillRecord : Type 0 where
  pub source_record_key : Text
  pub event_name : Text
  pub action : Text
  pub repository_id : ℤ
  pub installation_id : ℤ
  pub occurred_at : Option Datetime
  pub payload : Fields

abbrev is_naive : Option Datetime → Bool
is_naive none = false
is_naive (some t) = not t.aware

-- `BackfillRecord.__post_init__`
unfoldable pub check_record : BackfillRecord → Result Exception BackfillRecord
check_record r = do
  refuse_if (not (is_positive r.repository_id) || not (is_positive r.installation_id)) value_error
  refuse_if (any is_blank (r.source_record_key ∷ r.event_name ∷ r.action ∷ [])) value_error
  refuse_if (is_naive r.occurred_at) value_error
  ok r

pub record PageWriteOutcome : Type 0 where
  pub inserted : ℕ
  pub duplicates : ℕ
  pub checkpoint : BackfillCheckpoint
