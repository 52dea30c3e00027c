-- ===== src/Backfill/PullRequestBackfill.antt =====
-- src/github_analytics/backfill/github.py: `GitHubPullRequestBackfill`, the traversal of pull
-- requests with their reviews and commits. `GraphQlExecutor` is its Protocol for the client; the
-- three query texts are the constructors of `Query`. Its constructor is `configure`, its `_payload`
-- is `payload_of`, and its readers of fields are those of Configuration.antt.
pub mod Run
pub mod Kept
pub mod Counts
pub mod Results
use github_delivery_intellig.Common.{
  ℕ, pos, Bool, true, false, not, ◌&&◌, Option, none, some, List, [], ◌∷◌, if◌then◌else◌, is_some,
}
use github_delivery_intellig.Common.Text.{Text, text, lower, joined}
use github_delivery_intellig.Common.Json.{
  Json, null, boolean, integer, str, Fields, no_fields, field, get, set_field, as_objects,
}
use github_delivery_intellig.Common.Result.{Result, ok, raise, ◌>>=◌, ◌>>◌, refuse_if, require}
use github_delivery_intellig.Common.Time.{Datetime}
use github_delivery_intellig.Common.Exception.{Exception, graphql_data_error}
use github_delivery_intellig.Webhook.Models.{Decoder}
use github_delivery_intellig.Backfill.Models.{
  BackfillRunKey, BackfillCheckpoint, BackfillRecord, check_record,
}
use github_delivery_intellig.Backfill.Storage.{no_cursor}
use github_delivery_intellig.Backfill.Configuration.{
  Conversions, Configuration, required_object, required_string, required_datetime, equals_int,
  equals_text, payload_of,
}
use github_delivery_intellig.Backfill.Traversal.{Ending, last_page, more, Fetched, no_work}

pub data Query : Type 0 where
  pull_requests_query reviews_query commits_query : Query

pub record GraphQlExecutor : Type 1 where
  pub Client : Type 0
  pub execute : Query → Fields → Client → Result Exception Fields × Client

pub record ConnectionPage : Type 0 where
  pub nodes : List Fields
  pub end_cursor : Option Text
  pub has_next_page : Bool

-- `isinstance(value, bool)`, and the truth value.
abbrev as_bool : Json → Option Bool
as_bool (boolean b) = some b
as_bool _ = none

-- `value is None or isinstance(value, str)`, and the text if there is one.
abbrev optional_text : Option Json → Option (Option Text)
optional_text none = some none
optional_text (some null) = some none
optional_text (some (str s)) = some (some s)
optional_text (some _) = none

module _ (decoder : Decoder) (conversions : Conversions) where
  open conversions use {isoformat}

  -- `_connection_page`
  unfoldable pub connection_page : Fields → Text → Result Exception ConnectionPage
  unfolding required_object
  connection_page container name = do
    connection ← required_object decoder graphql_data_error container name
    raw_nodes ← require (get (text "nodes") connection) graphql_data_error
    nodes ← require (as_objects raw_nodes) graphql_data_error
    page_info ← required_object decoder graphql_data_error connection (text "pageInfo")
    raw_flag ← require (get (text "hasNextPage") page_info) graphql_data_error
    has_next_page ← require (as_bool raw_flag) graphql_data_error
    end_cursor ← require (optional_text (get (text "endCursor") page_info)) graphql_data_error
    refuse_if (has_next_page && no_cursor end_cursor) graphql_data_error
    ok record { nodes = nodes; end_cursor = end_cursor; has_next_page = has_next_page }

  abbrev present : Option Json → Bool
  present none = false
  present (some null) = false
  present (some _) = true

  -- `_optional_aware_datetime`
  unfoldable pub optional_aware_datetime : Fields → Text → Result Exception (Option Datetime)
  unfolding required_datetime
  optional_aware_datetime container name =
      if present (get name container)
      then (required_datetime decoder graphql_data_error container name >>= λ t. ok (some t))
      else ok none

  module _ (configuration : Configuration) where
    -- `_validate_repository`
    unfoldable pub validate_repository : Fields → Result Exception (Unit {0})
    validate_repository repository = do
      refuse_if
          (not (
            equals_int conversions configuration.repository_id
              (get (text "databaseId") repository)))
          graphql_data_error
      refuse_if (not (equals_text configuration.repository (get (text "nameWithOwner") repository)))
          graphql_data_error

    -- `_pull_request_record`
    unfoldable pub pull_request_record : Fields → Datetime → Result Exception BackfillRecord
    unfolding required_string required_datetime
    pull_request_record node created_at = do
      node_id ← required_string decoder graphql_data_error node (text "id")
      updated_at ← required_datetime decoder graphql_data_error node (text "updatedAt")
      state ← required_string decoder graphql_data_error node (text "state")
      check_record record {
        source_record_key =
            joined (
              text "github_graphql:pull_request:" ∷ node_id ∷ text ":" ∷ isoformat updated_at ∷ []);
        event_name = text "pull_request";
        action = lower state;
        repository_id = configuration.repository_id;
        installation_id = configuration.installation_id;
        occurred_at = some created_at;
        payload = payload_of configuration (text "pull_request") node;
      }

    -- `submitted_at or _aware_datetime(node, "updatedAt")`
    abbrev submitted_or_updated : Fields → Option Datetime → Result Exception Datetime
    submitted_or_updated node (some t) = ok t
    submitted_or_updated node none =
        required_datetime decoder graphql_data_error node (text "updatedAt")

    -- `_review_record`
    unfoldable pub review_record : Text → Fields → Result Exception BackfillRecord
    unfolding required_string optional_aware_datetime
    review_record pull_request_id node = do
      node_id ← required_string decoder graphql_data_error node (text "id")
      state ← required_string decoder graphql_data_error node (text "state")
      submitted_at ← optional_aware_datetime node (text "submittedAt")
      occurred_at ← submitted_or_updated node submitted_at
      check_record record {
        source_record_key =
            joined
              (text "github_graphql:pull_request_review:" ∷ node_id ∷ text ":" ∷ lower state ∷ []);
        event_name = text "pull_request_review";
        action = lower state;
        repository_id = configuration.repository_id;
        installation_id = configuration.installation_id;
        occurred_at = some occurred_at;
        payload =
            set_field (text "pull_request_id") (str pull_request_id)
              (payload_of configuration (text "pull_request_review") node);
      }

    -- `_commit_record`
    unfoldable pub commit_record : Text → Fields → Result Exception BackfillRecord
    unfolding required_string required_object required_datetime
    commit_record pull_request_id node = do
      association_id ← required_string decoder graphql_data_error node (text "id")
      commit ← required_object decoder graphql_data_error node (text "commit")
      occurred_at ← required_datetime decoder graphql_data_error commit (text "committedDate")
      check_record record {
        source_record_key =
            joined (text "github_graphql:pull_request_commit:" ∷ association_id ∷ []);
        event_name = text "pull_request_commit";
        action = text "associated";
        repository_id = configuration.repository_id;
        installation_id = configuration.installation_id;
        occurred_at = some occurred_at;
        payload =
            set_field (text "pull_request_id") (str pull_request_id)
              (payload_of configuration (text "pull_request_commit") node);
      }

-- `checkpoint.cursor if checkpoint is not None else None`
unfoldable pub start_cursor : Option BackfillCheckpoint → Result Exception (Option Text)
start_cursor none = ok none
start_cursor (some checkpoint) = ok checkpoint.cursor

-- What the tests of the loops say of a page: the next one starts at its end cursor.
unfoldable pub cursor_ending : Bool → Option Text → Ending (Option Text)
cursor_ending true end_cursor = last_page
cursor_ending false end_cursor = more end_cursor end_cursor

abbrev cursor_json : Option Text → Json
cursor_json none = null
cursor_json (some c) = str c

-- `[record_factory(item) for item in items]`
unfoldable pub all_records :
    (Fields → Result Exception BackfillRecord)
    → List Fields
    → Result Exception (List BackfillRecord)
all_records record_factory [] = ok []
all_records record_factory (item ∷ items) = do
  r ← record_factory item
  records ← all_records record_factory items
  ok (r ∷ records)

module _ (configuration : Configuration) where
  abbrev pub page_variables : Option Text → Fields
  page_variables cursor =
      field (text "pageSize") (integer (pos configuration.page_size))
        (field (text "cursor") (cursor_json cursor) no_fields)

  abbrev pub key_for : Text → Text → Datetime → Datetime → BackfillRunKey
  key_for resource scope start end = record {
    repository_id = configuration.repository_id;
    resource = resource;
    scope = scope;
    window_start = start;
    window_end = end;
  }

module _ (decoder : Decoder) (conversions : Conversions) where
  -- A page of `_backfill_nested`, from its response.
  unfoldable pub nested_page :
      Text
      → (Fields → Result Exception BackfillRecord)
      → Fields
      → Result Exception (Fetched (Option Text))
  unfolding required_object connection_page all_records cursor_ending
  nested_page connection_name record_factory response = do
    node ← required_object decoder graphql_data_error response (text "node")
    refuse_if (not (equals_text (text "PullRequest") (get (text "__typename") node)))
        graphql_data_error
    page ← connection_page decoder conversions node connection_name
    records ← all_records record_factory page.nodes
    ok record {
      records = records;
      nested = no_work;
      ending = cursor_ending (not page.has_next_page) page.end_cursor;
    }

  -- The page of pull requests in a response of `run`.
  unfoldable pub pull_request_page : Configuration → Fields → Result Exception ConnectionPage
  unfolding required_object validate_repository connection_page
  pull_request_page configuration response = do
    repository ← required_object decoder graphql_data_error response (text "repository")
    validate_repository decoder conversions configuration repository
    connection_page decoder conversions repository (text "pullRequests")
