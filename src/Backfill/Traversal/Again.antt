-- ===== src/Backfill/Traversal/Again.antt =====
-- src/github_analytics/backfill: a traversal of a completed run.
use github_delivery_intellig.Common.{◌≡◌, refl, inl, inr, ℕ, false, Option, arith}
use github_delivery_intellig.Common.Result.{Result, ok, Result-cases}
use github_delivery_intellig.Common.Action.{Returns}
use github_delivery_intellig.Common.Exception.{Exception}
use github_delivery_intellig.Backfill.Models.{BackfillRunKey, BackfillCheckpoint, check_run_key}
use github_delivery_intellig.Backfill.Storage.{load_checkpoint}
use github_delivery_intellig.Backfill.Traversal.{
  BackfillSummary, no_work, is_completed, Fetched, Store, Step, traverse, resume, run_pages,
}
use github_delivery_intellig.Backfill.Traversal.Finished.{Completed}

-- The key passes the checks of its class.
abbrev pub Checked : BackfillRunKey → Type 0
Checked key = (k : BackfillRunKey) × (check_run_key key ≡ ok k)

module _ {Client P : Type 0} (key : BackfillRunKey) (fetch : P → Step Client (Fetched P))
    (start : Option BackfillCheckpoint → Result Exception P) (fuel : ℕ) where
  pub traverse-Checked :
      Returns
        (λ (s : Store Client) (total : BackfillSummary) t. Checked key)
        (traverse key fetch start fuel)
  unfolding traverse
  traverse-Checked = record {
    post = λ s total h. elim (Result-cases (check_run_key key)) [
      | inl (k, e) ↦ (k, e)
      | inr (x, e) ↦ absurd (ground arith)
    ];
  }

  pub traverse_again :
      (s : Store Client)
      → Checked key
      → Completed key s.tables
      → traverse key fetch start fuel s ≡ (ok no_work, s)
  unfolding traverse resume
  traverse_again s (k, checked) done = rw checked (rw done refl)

  -- A run that is not completed goes on where its checkpoint says.
  pub traverse_from :
      (s : Store Client) (position : P)
      → Checked key
      → is_completed (load_checkpoint key s.tables) ≡ false
      → start (load_checkpoint key s.tables) ≡ ok position
      → traverse key fetch start fuel s ≡ run_pages key fetch fuel position no_work s
  unfolding traverse resume
  traverse_from s position (k, checked) unfinished found =
      rw checked (rw unfinished (rw found refl))
