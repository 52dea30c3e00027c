-- ===== src/Refresh.antt =====
-- src/github_analytics/analytics_refresh: the run ledger of the scheduled refresh.
pub mod Models
pub mod Rows
pub mod Ledger
pub mod Moves
pub mod Transitions
pub mod Constraints
pub mod Artifact
pub mod ArtifactBounds
pub mod Service
pub mod FailurePath
mod Tests
