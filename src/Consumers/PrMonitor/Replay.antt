-- ===== src/Consumers/PrMonitor/Replay.antt =====
-- src/github_analytics/consumers/pr_monitor.py over pr_storage.py, behind a connection that may
-- fail: a message that is delivered again changes no table.
use github_delivery_intellig.Common.{
  ◌≡◌, ap, ◌∙◌, ◌⊎◌, inl, inr, none, some, [], arith, if◌then◌else◌, Option-cases,
}
use github_delivery_intellig.Common.Time.{Datetime}
use github_delivery_intellig.Common.Result.{Result, ok, raise, Result-cases}
use github_delivery_intellig.Common.Exception.{Exception, database_error}
use github_delivery_intellig.Webhook.Models.{Decoder}
use github_delivery_intellig.Consumers.Protocols.{
  Message, no_error, ConsumerClient, World, Hook, Calls, next_call, later_calls,
}
use github_delivery_intellig.Consumers.Dlq.{DlqPublisher}
use github_delivery_intellig.Consumers.Warehouse.{validate_envelope}
use github_delivery_intellig.Consumers.PrStorage
use github_delivery_intellig.Consumers.PrStorage.Models.{ProjectionOutcome}
use github_delivery_intellig.Consumers.PrStorage.Statements.{Database}
use github_delivery_intellig.Consumers.PrStorage.Watermark.{apply_pull_request_stale}
use github_delivery_intellig.Consumers.PrStorage.Convergence.{apply_pull_request-Seen}
use github_delivery_intellig.Consumers.PrStorage.ReviewReplay.{review_again}
use github_delivery_intellig.Consumers.PrMonitor.Command.{
  ProjectionCommand, snapshot_command, review_command, command, projection_command,
}
use github_delivery_intellig.Consumers.PrMonitor.{
  ProjectionStorage, MonitorOutcome, of_projection, of_review, map_ok, applied_to, process, execute,
  decided,
}
use github_delivery_intellig.Consumers.PrMonitor.Ordering.{asked}

pub record Serving : Type 0 where
  pub tables : Database
  pub calls : Calls

-- A method over a connection that may fail before the method's transaction takes effect, or after.
unfoldable pub connected :
    {A : Type 0}
    → (Database → Result Exception A × Database)
    → Serving
    → Result Exception A × Serving
connected method st =
    let (r, tables') = method st.tables in
    elim (next_call st.calls) [
      | none ↦ (r, record { tables = tables'; calls = later_calls st.calls })
      | some applied ↦ (
        raise database_error,
        record { tables = if applied then tables' else st.tables; calls = later_calls st.calls },
      )
    ]

abbrev pub postgres_storage : ProjectionStorage
postgres_storage = record {
  Store = Serving;
  apply_pull_request = λ s. connected (PrStorage.apply_pull_request s);
  apply_review = λ r. connected (PrStorage.apply_review r);
  create_stale_alerts =
      λ cutoff created_at. connected (PrStorage.create_stale_alerts cutoff created_at);
}

-- A command over the tables alone.
abbrev pub on_tables : ProjectionCommand → Database → Result Exception MonitorOutcome × Database
on_tables (snapshot_command s) db =
    let (r, db') = PrStorage.apply_pull_request s db in (map_ok of_projection r, db')
on_tables (review_command s) db =
    let (r, db') = PrStorage.apply_review s db in (map_ok of_review r, db')

-- A command that has been answered changes nothing when it is given again.
on_tables_again :
    (c : ProjectionCommand) (db : Database) (o : MonitorOutcome)
    → (on_tables c db).0 ≡ ok o
    → (on_tables c (on_tables c db).1).1 ≡ (on_tables c db).1
on_tables_again (snapshot_command s) db o e =
    elim (Result-cases (PrStorage.apply_pull_request s db).0) [
      | inl (p, done) ↦
          ap (λ (x : Result Exception ProjectionOutcome × Database). x.1)
            (apply_pull_request_stale s (PrStorage.apply_pull_request s db).1
              (apply_pull_request-Seen s db p done))
      | inr (x, raised) ↦ absurd (ground arith)
    ]
on_tables_again (review_command r) db o e = elim (Result-cases (PrStorage.apply_review r db).0) [
  | inl (p, done) ↦ (review_again r db p done).0
  | inr (x, raised) ↦ absurd (ground arith)
]

module _ (decoder : Decoder) (client : ConsumerClient) (publisher : DlqPublisher) where
  open client use {Group}
  open publisher use {Topic}

  connected_tables :
      (c : ProjectionCommand) (st : Serving)
      → ((applied_to decoder client publisher postgres_storage c st).1.tables ≡ st.tables)
        ⊎ ((applied_to decoder client publisher postgres_storage c st).1.tables
            ≡ (on_tables c st.tables).1)
  unfolding connected
  connected_tables (snapshot_command s) st = ground arith
  connected_tables (review_command s) st = ground arith

  connected_up :
      (c : ProjectionCommand) (st : Serving)
      → st.calls ≡ []
      → ((applied_to decoder client publisher postgres_storage c st).0 ≡ (on_tables c st.tables).0)
        × ((applied_to decoder client publisher postgres_storage c st).1.tables
            ≡ (on_tables c st.tables).1)
  unfolding connected
  connected_up (snapshot_command s) st up = ground arith
  connected_up (review_command s) st up = ground arith

  -- The message's command is all that `process` can do to the tables.
  process-tables :
      (now : Datetime) (hook : Hook) (message : Message) (w : World Serving Topic Group)
      (c : ProjectionCommand)
      → asked decoder message ≡ some (command c)
      → let w' = (process decoder client publisher postgres_storage now hook message w).1 in
        (w'.store.tables ≡ w.store.tables) ⊎ (w'.store.tables ≡ (on_tables c w.store.tables).1)
  unfolding process no_error execute decided
  process-tables now hook message w c why =
      elim (Option-cases (validate_envelope decoder message.value)) [
        | inl e ↦ absurd (ground arith)
        | inr (envelope, e) ↦
            let d : projection_command decoder envelope ≡ command c = ground arith in
            ground (arith, connected_tables c w.store)
      ]

  crash :
      (now : Datetime) (e : Exception) (message : Message) (w : World Serving Topic Group)
      (c : ProjectionCommand) (o : MonitorOutcome)
      → asked decoder message ≡ some (command c)
      → message.error ≡ none
      → w.store.calls ≡ []
      → (on_tables c w.store.tables).0 ≡ ok o
      → let (r, w') =
          process decoder client publisher postgres_storage now (some (raise e)) message w in
        (r ≡ raise e) × (w'.group ≡ w.group) × (w'.store.tables ≡ (on_tables c w.store.tables).1)
  unfolding process no_error execute decided
  crash now e message w c o why fine up done =
      elim (Option-cases (validate_envelope decoder message.value)) [
        | inl none_valid ↦ absurd (ground arith)
        | inr (envelope, valid) ↦
            let d : projection_command decoder envelope ≡ command c = ground arith in
            let at = connected_up c w.store up in (ground arith, ground arith, ground arith)
      ]

  -- The crash window of the monitor. The database answers, the message has no error and asks for a
  -- snapshot or a review that the tables take, and the process dies after the database commit: the
  -- group is as it was, and the tables hold the command's effect. When the message is delivered
  -- again, wherever the callback or the broker fails then, no table changes.
  pub monitor_crash_then_redelivery :
      (now later : Datetime) (hook : Hook) (e : Exception) (message : Message)
      (w : World Serving Topic Group) (c : ProjectionCommand) (o : MonitorOutcome)
      → asked decoder message ≡ some (command c)
      → message.error ≡ none
      → w.store.calls ≡ []
      → (on_tables c w.store.tables).0 ≡ ok o
      → let (r, w') =
          process decoder client publisher postgres_storage now (some (raise e)) message w in
        let (r', w'') = process decoder client publisher postgres_storage later hook message w' in
        (r ≡ raise e)
        × (w'.group ≡ w.group)
        × (w'.store.tables ≡ (on_tables c w.store.tables).1)
        × (w''.store.tables ≡ w'.store.tables)
  monitor_crash_then_redelivery now later hook e message w c o why fine up done =
      let first = crash now e message w c o why fine up done in
      let died =
        (process decoder client publisher postgres_storage now (some (raise e)) message w).1 in
      let settled : (on_tables c died.store.tables).1 ≡ died.store.tables =
        rw first.2 (on_tables_again c w.store.tables o done) in
      (
        first.0,
        first.1,
        first.2,
        elim (process-tables later hook message died c why) [
          | inl same ↦ same
          | inr applied ↦ applied ∙ settled
        ],
      )
