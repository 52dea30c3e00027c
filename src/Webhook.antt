-- ===== src/Webhook.antt =====
-- src/github_analytics/webhook: the receiver of GitHub webhooks.
pub mod Models
pub mod Wire
pub mod App
pub mod Kafka
mod Tests
