-- ===== src/Backfill/RestBackfill.antt =====
-- src/github_analytics/backfill/rest_backfill.py: `GitHubRestBackfill`, the traversal of workflow
-- runs and of deployments with their statuses. `RestExecutor` is its Protocol for the client.
pub mod Run
pub mod Kept
pub mod Counts
pub mod Results
pub mod Fuel
pub mod EmptyPage
use github_delivery_intellig.Common.{
  ℕ, zero, suc, ◌+◌, ◌*◌, ℤ, pos, negsuc, Bool, true, false, not, ◌&&◌, Option, none, some, List,
  [], ◌∷◌, ◌++◌, if◌then◌else◌, leb, ltb, ◌=?◌, length,
}
use github_delivery_intellig.Common.Text.{Text, text, text_eq, lower, joined, replace}
use github_delivery_intellig.Common.Json.{
  Json, boolean, integer, str, Fields, no_fields, field, get, set_field, as_object, as_objects,
  as_natural,
}
use github_delivery_intellig.Common.Result.{Result, ok, raise, ◌>>=◌, ◌>>◌, refuse_if, require}
use github_delivery_intellig.Common.Time.{Datetime}
use github_delivery_intellig.Common.Exception.{Exception, rest_data_error}
use github_delivery_intellig.Webhook.Models.{Decoder}
use github_delivery_intellig.Backfill.Models.{
  BackfillRunKey, BackfillCheckpoint, BackfillRecord, check_record,
}
use github_delivery_intellig.Backfill.Configuration.{
  Conversions, Configuration, required_object, required_string, required_datetime, equals_int,
  equals_text, payload_of,
}
use github_delivery_intellig.Backfill.Traversal.{
  BackfillSummary, plus, no_work, Halt, Ending, last_page, broken, more, Fetched, Store, Step,
}

pub record RestExecutor : Type 1 where
  pub Client : Type 0
  pub get : Text → Fields → Client → Result Exception Json × Client

-- `_required_object_payload`
unfoldable pub required_object_payload : Json → Result Exception Fields
required_object_payload payload = require (as_object payload) rest_data_error

-- `_required_array_payload`
unfoldable pub required_array_payload : Json → Result Exception (List Fields)
required_array_payload payload = require (as_objects payload) rest_data_error

-- `_required_object_list`
unfoldable pub required_object_list : Fields → Text → Result Exception (List Fields)
required_object_list container name = do
  value ← require (get name container) rest_data_error
  require (as_objects value) rest_data_error

-- `_required_nonnegative_int`
unfoldable pub required_nonnegative_int : Fields → Text → Result Exception ℕ
required_nonnegative_int container name = do
  value ← require (get name container) rest_data_error
  require (as_natural value) rest_data_error

abbrev above_zero : ℕ → Result Exception ℕ
above_zero zero = raise rest_data_error
above_zero (suc n) = ok (suc n)

-- `_required_positive_int`
unfoldable pub required_positive_int : Fields → Text → Result Exception ℕ
unfolding required_nonnegative_int
required_positive_int container name = required_nonnegative_int container name >>= above_zero

-- `_in_window`
unfoldable pub in_window : Datetime → Datetime → Datetime → Bool
in_window value start end = leb start.instant value.instant && ltb value.instant end.instant

abbrev page_number : Option ℤ → Result Exception ℕ
page_number (some (pos (suc n))) = ok (suc n)
page_number _ = raise rest_data_error

abbrev max_filtered_workflow_runs : ℕ
max_filtered_workflow_runs = 1000

module _ (decoder : Decoder) (conversions : Conversions) where
  open conversions use {decimal, parse_int, isoformat}

  -- `_next_page`
  unfoldable pub next_page : Option BackfillCheckpoint → Result Exception ℕ
  next_page none = ok 1
  next_page (some checkpoint) = elim checkpoint.cursor [
    | none ↦ raise rest_data_error
    | some cursor ↦ page_number (parse_int cursor)
  ]

  -- `_github_timestamp`
  unfoldable pub github_timestamp : Datetime → Text
  github_timestamp value = replace (isoformat value) (text "+00:00") (text "Z")

  module _ (configuration : Configuration) where
    -- `_validate_workflow_repository`
    unfoldable pub validate_workflow_repository : Fields → Result Exception (Unit {0})
    unfolding required_object
    validate_workflow_repository node = do
      repository ← required_object decoder rest_data_error node (text "repository")
      refuse_if
          (not (equals_int conversions configuration.repository_id (get (text "id") repository)))
          rest_data_error
      refuse_if (not (equals_text configuration.repository (get (text "full_name") repository)))
          rest_data_error

    -- `_workflow_run_record`
    unfoldable pub workflow_run_record : Fields → Result Exception BackfillRecord
    unfolding required_positive_int required_datetime required_string validate_workflow_repository
    workflow_run_record node = do
      run_id ← required_positive_int node (text "id")
      attempt ← required_positive_int node (text "run_attempt")
      created_at ← required_datetime decoder rest_data_error node (text "created_at")
      updated_at ← required_datetime decoder rest_data_error node (text "updated_at")
      status ← required_string decoder rest_data_error node (text "status")
      validate_workflow_repository node
      check_record record {
        source_record_key = joined (
            text "github_rest:workflow_run:"
            ∷ decimal run_id
            ∷ text ":"
            ∷ decimal attempt
            ∷ text ":"
            ∷ isoformat updated_at
            ∷ []);
        event_name = text "workflow_run";
        action = if lower status =? text "completed" then text "completed" else lower status;
        repository_id = configuration.repository_id;
        installation_id = configuration.installation_id;
        occurred_at = some created_at;
        payload = payload_of configuration (text "workflow_run") node;
      }

    -- `_deployment_record`
    unfoldable pub deployment_record : Fields → Datetime → Result Exception BackfillRecord
    unfolding required_positive_int
    deployment_record node created_at = do
      deployment_id ← required_positive_int node (text "id")
      check_record record {
        source_record_key = joined (text "github_rest:deployment:" ∷ decimal deployment_id ∷ []);
        event_name = text "deployment";
        action = text "created";
        repository_id = configuration.repository_id;
        installation_id = configuration.installation_id;
        occurred_at = some created_at;
        payload = payload_of configuration (text "deployment") node;
      }

    -- `_deployment_status_record`
    unfoldable pub deployment_status_record : ℕ → Fields → Result Exception BackfillRecord
    unfolding required_positive_int required_datetime required_string
    deployment_status_record deployment_id node = do
      status_id ← required_positive_int node (text "id")
      state ← required_string decoder rest_data_error node (text "state")
      occurred_at ← required_datetime decoder rest_data_error node (text "created_at")
      check_record record {
        source_record_key = joined (text "github_rest:deployment_status:" ∷ decimal status_id ∷ []);
        event_name = text "deployment_status";
        action = lower state;
        repository_id = configuration.repository_id;
        installation_id = configuration.installation_id;
        occurred_at = some occurred_at;
        payload =
            set_field (text "deployment_id") (integer (pos deployment_id))
              (payload_of configuration (text "deployment_status") node);
      }

    -- `_run_key`
    unfoldable pub run_key : Text → Text → Datetime → Datetime → BackfillRunKey
    run_key resource scope window_start window_end = record {
      repository_id = configuration.repository_id;
      resource = resource;
      scope = scope;
      window_start = window_start;
      window_end = window_end;
    }

    abbrev pub page_params : ℕ → Fields
    page_params page =
        field (text "per_page") (integer (pos configuration.page_size))
          (field (text "page") (integer (pos page)) no_fields)

    abbrev pub cursor_after : ℕ → Option Text
    cursor_after page = some (decimal (page + 1))

    -- The list comprehension of `_run_workflow_runs`.
    unfoldable pub workflow_run_records :
        Datetime → Datetime → List Fields → Result Exception (List BackfillRecord)
    unfolding required_datetime in_window workflow_run_record
    workflow_run_records start end [] = ok []
    workflow_run_records start end (node ∷ nodes) = do
      created_at ← required_datetime decoder rest_data_error node (text "created_at")
      kept ←
          (if in_window created_at start end
            then (workflow_run_record node >>= λ r. ok (r ∷ []))
            else ok [])
      records ← workflow_run_records start end nodes
      ok (kept ++ records)

    -- What the tests of the loop of `_run_workflow_runs` say of a page.
    unfoldable pub workflow_run_ending : ℕ → ℕ → List Fields → Ending ℕ
    workflow_run_ending page total_count nodes =
        if leb total_count (page * configuration.page_size) then last_page else elim nodes [
          | [] ↦ broken (cursor_after page) rest_data_error
          | _ ∷ _ ↦ more (cursor_after page) (page + 1)
        ]

    -- A page of `_run_workflow_runs`, from its response.
    unfoldable pub workflow_run_page : Datetime → Datetime → ℕ → Json → Result Exception (Fetched ℕ)
    unfolding required_object_payload required_nonnegative_int required_object_list
        workflow_run_records workflow_run_ending
    workflow_run_page start end page payload = do
      response ← required_object_payload payload
      total_count ← required_nonnegative_int response (text "total_count")
      refuse_if (ltb max_filtered_workflow_runs total_count) rest_data_error
      nodes ← required_object_list response (text "workflow_runs")
      records ← workflow_run_records start end nodes
      ok record {
        records = records;
        nested = no_work;
        ending = workflow_run_ending page total_count nodes;
      }

    abbrev pub workflow_run_params : Datetime → Datetime → ℕ → Fields
    workflow_run_params start end page =
        field (text "created")
          (str (joined (github_timestamp start ∷ text ".." ∷ github_timestamp end ∷ [])))
          (field (text "exclude_pull_requests") (boolean false) (page_params page))

    -- `completed` in the loops over deployments and statuses.
    unfoldable pub full_page_ending : ℕ → List Fields → Ending ℕ
    full_page_ending page nodes =
        if ltb (length nodes) configuration.page_size
        then last_page
        else more (cursor_after page) (page + 1)

    unfoldable pub deployment_status_records :
        ℕ → List Fields → Result Exception (List BackfillRecord)
    unfolding deployment_status_record
    deployment_status_records deployment_id [] = ok []
    deployment_status_records deployment_id (node ∷ nodes) = do
      record_of_node ← deployment_status_record deployment_id node
      records ← deployment_status_records deployment_id nodes
      ok (record_of_node ∷ records)

    unfoldable pub deployment_status_page : ℕ → ℕ → Json → Result Exception (Fetched ℕ)
    unfolding required_array_payload deployment_status_records full_page_ending
    deployment_status_page deployment_id page payload = do
      nodes ← required_array_payload payload
      records ← deployment_status_records deployment_id nodes
      ok record { records = records; nested = no_work; ending = full_page_ending page nodes }
