-- ===== src/Backfill.antt =====
-- src/github_analytics/backfill: the restartable backfill from the GitHub API.
pub mod Models
pub mod Storage
pub mod Pages
pub mod RestClient
pub mod RestBounds
pub mod Configuration
pub mod Traversal
pub mod RestBackfill
pub mod PullRequestBackfill
pub mod GraphQlClient
mod Tests
mod TraversalTests
