-- ===== src/Refresh/ArtifactBounds.antt =====
-- src/github_analytics/analytics_refresh/runner.py: `parse_dbt_artifact` keeps what it stores
-- within its bounds, and counts every result once.
use github_delivery_intellig.Common.{
  int_eq, ◌≡◌, sym, ap, inl, inr, ℕ, zero, suc, ◌+◌, ◌≤◌, ◌&&◌, some, List, [], ◌∷◌, ◌++◌, length,
  ltb, All, arith, Bool-cases, Option-cases, length-append,
}
use github_delivery_intellig.Common.Text.{Text, text}
use github_delivery_intellig.Common.Json.{Json, Fields, as_object, get}
use github_delivery_intellig.Common.Result.{ok, Result-cases}
use github_delivery_intellig.Refresh.Models.{DbtResultSummary}
use github_delivery_intellig.Refresh.Artifact.{
  sanitize_error, Python, take_points, truncate, Bucket, succeeded, failed, skipped, warnings,
  errors, status_bucket, Counts, count, is_kept, Failure, status_of, failure_of, summarize,
  parse_dbt_artifact, document, results_of, zero_counts, summary_of, invocation_of,
}

take_points-length : (n : ℕ) (cs : List ℕ) → length (take_points n cs) ≤ n
unfolding take_points
take_points-length n [] = omega arith
take_points-length zero (c ∷ cs) = omega arith
take_points-length (suc n) (c ∷ cs) = omega (arith, take_points-length n cs)

truncate-length : (n : ℕ) (s : Text) → length (truncate n s).points ≤ n
unfolding truncate
truncate-length n s = take_points-length n s.points

pub sanitize_error-length :
    (python : Python) (message : Text) → length (sanitize_error python message).points ≤ 1000
unfolding sanitize_error
sanitize_error-length python message = truncate-length 1000 _

abbrev pub total : Counts → ℕ
total c = c.succeeded_count + c.failed_count + c.skipped_count + c.warnings_count + c.errors_count

count-total : (b : Bucket) (c : Counts) → total (count b c) ≡ suc (total c)
unfolding count
count-total succeeded c = omega arith
count-total failed c = omega arith
count-total skipped c = omega arith
count-total warnings c = omega arith
count-total errors c = omega arith

-- What a stored failure may hold.
pub record Within (max_message_chars : ℕ) (f : Failure) : Type 0 where
  pub id_bound : length f.unique_id.points ≤ 200
  pub status_bound : length f.status.points ≤ 50
  pub message_bound : length f.message.points ≤ max_message_chars

All-append {ℓ κ} :
    {A : Type ℓ} (P : A → Type κ) (xs : List A) (x : A) → All P xs → P x → All P (xs ++ x ∷ [])
All-append P [] x h p = (p, tt)
All-append P (y ∷ ys) x h p = (h.0, All-append P ys x h.1 p)

module _ (python : Python) where
  failure-Within :
      (max_message_chars : ℕ) (result : Fields)
      → Within max_message_chars (failure_of python max_message_chars result)
  unfolding failure_of
  failure-Within n result = record {
    id_bound = truncate-length 200 _;
    status_bound = truncate-length 50 _;
    message_bound = truncate-length n _;
  }

  summarize-bounds :
      (max_failures max_message_chars : ℕ) (results : List Json) (counts : Counts)
      (failures : List Failure) (c : Counts) (fs : List Failure)
      → length failures ≤ max_failures
      → All (Within max_message_chars) failures
      → summarize python max_failures max_message_chars results counts failures ≡ ok (c, fs)
      → (length fs ≤ max_failures)
        × All (Within max_message_chars) fs
        × (total c ≡ total counts + length results)
  unfolding summarize
  summarize-bounds mf mc [] counts failures c fs b h e =
      let same : (counts ≡ c) × (failures ≡ fs) = ground arith in
      (rw (sym same.1) b, rw (sym same.1) h, omega (arith, ap total same.0))
  summarize-bounds mf mc (raw ∷ rest) counts failures c fs b h e =
      elim (Option-cases (as_object raw)) [
        | inl other ↦ absurd (ground arith)
        | inr (result, is_object) ↦
            let bucket : Bucket = status_bucket (status_of python result) in
            let f : Failure = failure_of python mc result in
            elim (Bool-cases (is_kept bucket && ltb (length failures) mf)) [
              | inl keep ↦
                  let go : summarize python mf mc rest (count bucket counts) (failures ++ f ∷ [])
                      ≡ ok (c, fs) =
                    ground arith in
                  let (few, within, sum) =
                    summarize-bounds mf mc rest (count bucket counts) (failures ++ f ∷ []) c fs
                      (ground (arith, length-append failures (f ∷ [])))
                      (All-append (Within mc) failures f h (failure-Within mc result)) go in
                  (few, within, omega (arith, sum, count-total bucket counts))
              | inr skip ↦
                  let go : summarize python mf mc rest (count bucket counts) failures ≡ ok (c, fs) =
                    ground arith in
                  let (few, within, sum) =
                    summarize-bounds mf mc rest (count bucket counts) failures c fs b h go in
                  (few, within, omega (arith, sum, count-total bucket counts))
            ]
      ]

  -- A document that is summarized is an object with a list of results; its summary stores at most
  -- `max_failures` failures, each of whose texts is within its bound, and its five counts add up to
  -- the number of results.
  pub parse_dbt_artifact-bounds :
      (name : Text) (max_failures max_message_chars : ℕ) (d : Json) (s : DbtResultSummary)
      → parse_dbt_artifact python name max_failures max_message_chars (document d) ≡ ok s
      → (fields : Fields) × (results : List Json) × (c : Counts) × (failures : List Failure)
        × (results_of d ≡ some (fields, results))
        × (s
            ≡ summary_of name
                (invocation_of (get (text "metadata") fields))
                max_failures
                c
                failures)
        × (length failures ≤ max_failures)
        × All (Within max_message_chars) failures
        × (total c ≡ length results)
  unfolding parse_dbt_artifact
  parse_dbt_artifact-bounds name mf mc d s e = elim (Option-cases (results_of d)) [
    | inl other ↦ absurd (ground arith)
    | inr ((fields, results), found) ↦
        elim (Result-cases (summarize python mf mc results zero_counts [])) [
          | inr (x, bad) ↦ absurd (ground arith)
          | inl ((c, fs), good) ↦
              let (few, within, sum) =
                summarize-bounds mf mc results zero_counts [] c fs (omega arith) tt good in
              (fields, results, c, fs, found, ground arith, few, within, omega (arith, sum))
        ]
  ]
