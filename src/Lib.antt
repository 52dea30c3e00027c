-- ===== src/Lib.antt =====
-- Verification of the GitHub delivery intelligence pipeline (package src/github_analytics).
--
-- The program takes GitHub webhooks into a Kafka topic; two consumers read it. The warehouse writer
-- appends each event to the table raw.github_events; the pull-request monitor keeps a projection of
-- the open pull requests and an outbox of alerts for stale ones. What either finds invalid goes to a
-- dead-letter topic. A backfill adds older resources to raw.github_events page by page, and a
-- scheduled refresh runs dbt over the table and keeps a ledger of its runs.
--
-- The parts, each with the file of the repository that it models:
--   * Common: shared helpers. `Table` is a PostgreSQL table with a primary key, `Result` a call that
--     may raise, `Action` a method that may raise over a state that keeps what was written before.
--   * Webhook/Models: src/github_analytics/webhook/models.py, the event envelope and its validation
--     (`from_webhook`, `model_validate_json`); Webhook/Wire: the JSON object that `model_dump_json`
--     writes.
--   * Webhook/App: src/github_analytics/webhook/app.py with security.py, publishing.py and
--     metrics.py. `validated_envelope` is the handler of a request up to the publisher, and
--     `receive_github_webhook` the whole of it.
--   * Delivery: the acknowledgement loop that the two Kafka publishers share. Webhook/Kafka is
--     src/github_analytics/webhook/kafka.py, Consumers/Dlq/Publisher is `KafkaDlqPublisher`.
--   * Consumers/Protocols, Dlq, RawStorage: src/github_analytics/consumers/dlq.py and storage.py,
--     the message, the dead-letter record and `PostgresRawEventStorage.insert`.
--   * Consumers/Warehouse: src/github_analytics/consumers/warehouse.py. `process` is
--     `WarehouseWriter.process` over its three Protocol classes, which are the records
--     `ConsumerClient`, `DlqPublisher` and `RawEventStorage`; `World` holds the state of each.
--     Warehouse/Postgres puts the raw table for the storage, behind a connection that may fail.
--   * Consumers/PrStorage: src/github_analytics/consumers/pr_storage.py. Statements has one function
--     for each SQL statement, and the parent one for each method; Spec is the abstract view that the
--     tables hold.
--   * Consumers/PrMonitor: src/github_analytics/consumers/pr_monitor.py. Command is
--     `_projection_command` with the payload models, and the parent has `process`, `sweep_stale` and
--     one round of `run_forever`. Replay puts the projection storage under it, and
--     Poison is about the messages that stop it.
--   * Refresh: src/github_analytics/analytics_refresh. Rows and Ledger are storage.py, Artifact is
--     the run of a dbt command and its summary in runner.py, and Service is service.py.
--   * Backfill: src/github_analytics/backfill. Models and Storage are models.py and storage.py,
--     RestClient is `GitHubRestClient.get` of rest.py, and GraphQlClient is
--     `GitHubGraphQLClient.execute` of graphql.py. Traversal is the loop over pages that the
--     adapters share, from the checkpoint on; RestBackfill is rest_backfill.py and
--     PullRequestBackfill is github.py, each with the requests and the loops in its Run.
--
-- Conventions. A time is its instant in microseconds, and whether it has a time zone. A transaction
-- that raises leaves the tables as they were. A Kafka broker and producer, a dead-letter publisher,
-- the JSON parsers and writers, pydantic's conversions, regular expressions, floats, clocks, the
-- digits of numbers, HMAC and SHA-256 are not in the repository: they are parameters. The conditions
-- that theorems put on them are three records, `Converts` (pydantic reads the numbers, texts and
-- times that it writes), `Numerals` (`int` reads what `str` writes) and `Documented` (what a producer
-- raises); that pydantic reads an object back from the bytes that it wrote; and, for a publication, a
-- reading of the clock that is past the deadline.
--
-- Loops. The retries of the two clients are over the attempts that are left, of which the code gives
-- `max_retries + 1`; the consumers' endless loops are functions of the list of messages that the poll
-- gives. The page loops run on fuel, one unit for a page: 1001 units are enough for workflow runs,
-- whose number the code bounds, and the other resources end when the API has no further page, which
-- only the API decides. The acknowledgement loop runs on fuel, one unit for a poll, and as many units
-- are enough as the clock has readings up to the deadline. The other loops go over lists.
--
-- Not modelled: the evidence reports, settings, the rendering of metrics, log lines, command lines,
-- the demonstration, the construction of library objects, the Airflow DAG and the dbt project.
--
-- Of the tables' constraints the models have the keys, the unique numbers and run ids, and of the
-- ledger of refreshes the checks on the terminal timestamp, its order, the error columns, the names
-- and the interval, with the 1000 characters of `error_summary`. Left out are the other checks, the ranges
-- of the number columns (the numbers of the models have no bound), and the refusal of a NUL in a
-- text. A lost connection is modelled in Warehouse/Postgres and PrMonitor/Replay; elsewhere the
-- database is taken to answer. `lower` changes only the letters of ASCII.
pub mod Common
pub mod Delivery
pub mod Webhook
pub mod Consumers
pub mod Refresh
pub mod Backfill
