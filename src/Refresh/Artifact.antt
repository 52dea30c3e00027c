-- ===== src/Refresh/Artifact.antt =====
-- src/github_analytics/analytics_refresh/runner.py: the bounded summary of a dbt artifact, and the
-- run of one dbt command. Parameters, in `Python`: the two substitutions of the `re` module that
-- redact secrets, `str` of a JSON value that is not a string, and whether a float is zero.
use Prim.Native.String.{String}
use github_delivery_intellig.Common.{
  ℤ, int_eq, ℕ, zero, suc, pos, Bool, true, false, not, ◌&&◌, ◌||◌, Option, none, some, List, [],
  ◌∷◌, ◌++◌, if◌then◌else◌, ◌=?◌, length, ltb, leb,
}
use github_delivery_intellig.Common.Text.{Text, text, text_eq, is_space, is_empty, lower}
use github_delivery_intellig.Common.Json.{
  Json, null, boolean, integer, real, str, array, object, Items, no_items, item, Fields, no_fields,
  field, get, as_object, as_text, as_list,
}
use github_delivery_intellig.Common.Result.{Result, ok, raise, ◌>>=◌, require}
use github_delivery_intellig.Common.Exception.{Exception}
use github_delivery_intellig.Refresh.Models.{DbtResultSummary}

pub record Python : Type 0 where
  pub redact : Text → Text
  pub str_of_other : Json → Text
  pub is_zero : Text → Bool

-- `RefreshError` of models.py
pub record RefreshError : Type 0 where
  pub category : Text
  pub message : Text
  pub summary : Option DbtResultSummary

abbrev pub refresh_error : Text → Text → RefreshError
refresh_error category message = record { category = category; message = message; summary = none }

-- What a step may raise: the repository's `RefreshError`, or any other exception with its `str`.
pub data Fault : Type 0 where
  refresh : RefreshError → Fault
  other : Exception → Text → Fault

unfoldable pub take_points : ℕ → List ℕ → List ℕ
take_points n [] = []
take_points zero (c ∷ cs) = []
take_points (suc n) (c ∷ cs) = c ∷ take_points n cs

-- `value[:n]`
unfoldable pub truncate : ℕ → Text → Text
unfolding take_points
truncate n s = record { points = take_points n s.points }

-- `" ".join(value.split())`: between two words one space, and none at the ends. The flag says that
-- a word came before the spaces just read.
flatten_points : Bool → Bool → List ℕ → List ℕ
unfolding is_space
flatten_points seen gap [] = []
flatten_points seen gap (c ∷ cs) = elim (is_space c) [
  | true ↦ flatten_points seen true cs
  | false ↦
      let rest = flatten_points true false cs in if seen && gap then 32 ∷ c ∷ rest else c ∷ rest
]

unfoldable pub flatten : Text → Text
unfolding flatten_points
flatten s = record { points = flatten_points false false s.points }

-- `value or default`, for a text
unfoldable pub text_or : Text → Text → Text
text_or s default = if is_empty s then default else s

-- A status of a dbt result, by what it counts for.
pub data Bucket : Type 0 where
  succeeded failed skipped warnings errors : Bucket

-- `_status_bucket`
unfoldable pub status_bucket : Text → Bucket
status_bucket status =
    if status =? text "success" || status =? text "pass"
    then succeeded
    else if status =? text "fail" || status =? text "failed"
    then failed
    else if status =? text "skip" || status =? text "skipped"
    then skipped
    else if status =? text "warn" || status =? text "warning"
    then warnings
    else errors

pub record Counts : Type 0 where
  pub succeeded_count : ℕ
  pub failed_count : ℕ
  pub skipped_count : ℕ
  pub warnings_count : ℕ
  pub errors_count : ℕ

unfoldable pub count : Bucket → Counts → Counts
count succeeded c = record c { succeeded_count = suc c.succeeded_count }
count failed c = record c { failed_count = suc c.failed_count }
count skipped c = record c { skipped_count = suc c.skipped_count }
count warnings c = record c { warnings_count = suc c.warnings_count }
count errors c = record c { errors_count = suc c.errors_count }

-- `bucket in {"failed", "warnings", "errors"}`
unfoldable pub is_kept : Bucket → Bool
is_kept succeeded = false
is_kept skipped = false
is_kept _ = true

pub record Failure : Type 0 where
  pub unique_id : Text
  pub status : Text
  pub message : Text

failure_fields : Failure → Json
failure_fields f = object (
    field (text "unique_id") (str f.unique_id)
      (field (text "status") (str f.status) (field (text "message") (str f.message) no_fields)))

failure_items : List Failure → Items
unfolding failure_fields
failure_items [] = no_items
failure_items (f ∷ fs) = item (failure_fields f) (failure_items fs)

abbrev optional_text : Option Text → Json
optional_text none = null
optional_text (some s) = str s

-- The dictionaries `counts` and `artifact`.
pub count_fields : Counts → Fields
count_fields c = field (text "succeeded") (integer (pos c.succeeded_count)) (
    field (text "failed") (integer (pos c.failed_count)) (
      field (text "skipped") (integer (pos c.skipped_count)) (
        field (text "warnings") (integer (pos c.warnings_count))
          (field (text "errors") (integer (pos c.errors_count)) no_fields))))

unfoldable pub artifact_fields : Text → Option Text → ℕ → Counts → List Failure → Fields
unfolding count_fields failure_items
artifact_fields name invocation_id max_failures counts failures =
    field (text "artifact") (str name) (
      field (text "invocation_id") (optional_text invocation_id) (
        field (text "counts") (object (count_fields counts)) (
          field (text "failures") (array (failure_items failures)) (
            field (text "results_truncated") (boolean (leb max_failures (length failures)))
              no_fields))))

-- What reading the artifact's file gives: no file; another `OSError`, or no JSON; an exception that
-- the code does not expect (text that is no UTF-8, a number of too many digits); or a document.
pub data Reading : Type 0 where
  missing invalid : Reading
  unread : Exception → Text → Reading
  document : Json → Reading

-- `metadata.get("invocation_id")`, where it is a text.
abbrev pub invocation_of : Option Json → Option Text
invocation_of (some (object metadata)) = elim (get (text "invocation_id") metadata) [
  | none ↦ none
  | some v ↦ as_text v
]
invocation_of _ = none

abbrev pub zero_counts : Counts
zero_counts = record {
  succeeded_count = 0;
  failed_count = 0;
  skipped_count = 0;
  warnings_count = 0;
  errors_count = 0;
}

abbrev pub named : String → Text → Text
named s name = let t : Text = text s in record { points = t.points ++ name.points }

abbrev pub results_of : Json → Option (Fields × List Json)
results_of (object fields) = elim (get (text "results") fields) [
  | none ↦ none
  | some v ↦ elim (as_list v) [ none ↦ none | some results ↦ some (fields, results) ]
]
results_of _ = none

abbrev pub summary_of : Text → Option Text → ℕ → Counts → List Failure → DbtResultSummary
summary_of name invocation_id max_failures counts failures = record {
  invocation_id = invocation_id;
  succeeded = pos counts.succeeded_count;
  failed = pos counts.failed_count;
  skipped = pos counts.skipped_count;
  warnings = pos counts.warnings_count;
  errors = pos counts.errors_count;
  artifact = artifact_fields name invocation_id max_failures counts failures;
}

-- A dbt command that could not be run or was stopped (`OSError`, `SubprocessError`), one around which
-- another exception is raised (the artifact of an earlier run cannot be removed, or the output
-- cannot be decoded), or one that ended with a code and its output.
pub data Execution : Type 0 where
  not_started : Text → Execution
  broken_off : Exception → Text → Execution
  completed : ℤ → Text → Text → Execution

module _ (python : Python) where
  unfoldable pub sanitize_error : Text → Text
  sanitize_error message =
      truncate 1000 (text_or (flatten (python.redact message)) (text "unspecified refresh failure"))

  -- `bool(value)`
  abbrev pub is_true : Json → Bool
  is_true null = false
  is_true (boolean b) = b
  is_true (integer (pos zero)) = false
  is_true (integer _) = true
  is_true (real s) = not (python.is_zero s)
  is_true (str s) = not (is_empty s)
  is_true (array no_items) = false
  is_true (array _) = true
  is_true (object no_fields) = false
  is_true (object _) = true

  abbrev pub str_of : Json → Text
  str_of (str s) = s
  str_of v = python.str_of_other v

  -- `str(value.get(name, default))`
  abbrev str_or : Option Json → Text → Text
  str_or none default = default
  str_or (some v) default = str_of v

  -- `str(value.get(name) or default)`
  abbrev str_if_true : Option Json → Text → Text
  str_if_true none default = default
  str_if_true (some v) default = if is_true v then str_of v else default

  unfoldable pub status_of : Fields → Text
  status_of result = lower (str_or (get (text "status") result) (text "error"))

  unfoldable pub failure_of : ℕ → Fields → Failure
  unfolding status_of
  failure_of max_message_chars result = record {
    unique_id = truncate 200 (str_or (get (text "unique_id") result) (text "unknown"));
    status = truncate 50 (status_of result);
    message =
        truncate max_message_chars
          (sanitize_error (str_if_true (get (text "message") result) (status_of result)));
  }

  -- The loop over the results, with the counts and failures so far.
  unfoldable pub summarize :
      ℕ → ℕ → List Json → Counts → List Failure → Result Fault (Counts × List Failure)
  summarize max_failures max_message_chars [] counts failures = ok (counts, failures)
  summarize max_failures max_message_chars (raw ∷ rest) counts failures = elim (as_object raw) [
    | none ↦ raise (
        refresh (
          refresh_error (text "artifact_invalid")
            (text "dbt artifact contains a non-object result")))
    | some result ↦
        let bucket = status_bucket (status_of result) in
        summarize max_failures max_message_chars rest (count bucket counts) (
          if is_kept bucket && ltb (length failures) max_failures
          then failures ++ failure_of max_message_chars result ∷ []
          else failures)
  ]

  -- `name` is that of the artifact's path.
  unfoldable pub parse_dbt_artifact : Text → ℕ → ℕ → Reading → Result Fault DbtResultSummary
  parse_dbt_artifact name max_failures max_message_chars missing =
      raise
        (refresh (refresh_error (text "artifact_missing") (named "dbt artifact is missing: " name)))
  parse_dbt_artifact name max_failures max_message_chars invalid =
      raise
        (refresh (refresh_error (text "artifact_invalid") (named "dbt artifact is invalid: " name)))
  parse_dbt_artifact name max_failures max_message_chars (unread e m) = raise (other e m)
  parse_dbt_artifact name max_failures max_message_chars (document d) = do
    (fields, results) ← require (results_of d) (
        refresh (
          refresh_error (text "artifact_invalid") (named "dbt artifact has no result list: " name)))
    (counts, failures) ← summarize max_failures max_message_chars results zero_counts []
    ok (summary_of name (invocation_of (get (text "metadata") fields)) max_failures counts failures)

  -- `DbtRunner._run`: what the executor gives, and what reading the artifact then gives; the file is
  -- removed before the command runs, so it is none of an earlier one.
  unfoldable pub run_command :
      Text → ℕ → ℕ → Text → Execution → Reading → Result Fault DbtResultSummary
  unfolding summarize
  run_command name max_failures max_message_chars category (not_started error) reading =
      raise (refresh (refresh_error category (sanitize_error error)))
  run_command name max_failures max_message_chars category (broken_off e m) reading =
      raise (other e m)
  run_command name max_failures max_message_chars category (completed return_code stderr stdout)
        reading =
      let failure : Option DbtResultSummary → Fault = λ summary. refresh (record {
        category = category;
        message =
            sanitize_error (
              text_or stderr (text_or stdout (named "dbt exited " (str_of (integer return_code)))));
        summary = summary;
      }) in
      elim (parse_dbt_artifact name max_failures max_message_chars reading) [
        | ok summary ↦ if return_code =? pos 0 then ok summary else raise (failure (some summary))
        | raise (refresh e) ↦
            if return_code =? pos 0 then raise (refresh e) else raise (failure none)
        | raise (other e m) ↦ raise (other e m)
      ]
