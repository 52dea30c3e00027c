-- ===== src/Common/Time.antt =====
-- Python's `datetime`: its instant, in microseconds since the year 1 in UTC, and whether it has a
-- time zone. Comparisons are between aware values, by their instants.
use github_delivery_intellig.Common.{ℕ, Bool}

pub record Datetime : Type 0 where
  pub instant : ℕ
  pub aware : Bool
