-- ===== src/Backfill/Pages.antt =====
-- src/github_analytics/backfill/storage.py: what one page, a repeated page and a sequence of pages
-- leave in the tables.
pub mod Effects
use github_delivery_intellig.Common.{
  ◌≡◌, refl, ap, inl, inr, ℕ, suc, ◌+◌, ◌-◌, ◌≤◌, Bool, true, false, Option, none, some, List, [],
  ◌∷◌, length, is_some, if◌then◌else◌, ◌=?◌, pair_eq, arith, Bool-cases, Option-cases, All,
  length-append, eq_self,
}
use github_delivery_intellig.Common.Text.{Text, text_eq}
use github_delivery_intellig.Common.Table.{
  lookup, upsert, insert_new, lookup-upsert, lookup-insert_new, lookup-insert_new_old,
}
use github_delivery_intellig.Common.Result.{ok, raise}
use github_delivery_intellig.Common.Exception.{Exception, value_error}
use github_delivery_intellig.Consumers.RawStorage.{RawEvents, RawRow, Source, source_eq}
use github_delivery_intellig.Backfill.Models.{
  BackfillRunKey, BackfillCheckpoint, BackfillRecord, PageWriteOutcome,
}
use github_delivery_intellig.Backfill.Storage.{
  CheckpointKey, checkpoint_key_eq, key_parameters, BackfillTables, load_checkpoint, record_key,
  backfill_row, insert_records, status_of, advance, refuses, persist_page,
}

insert_new-length :
    (k : Source × Text) (v : RawRow) (raw : RawEvents)
    → length (insert_new k v raw)
      ≡ (if is_some (lookup k raw) then length raw else suc (length raw))
unfolding insert_new
insert_new-length k v raw = ground (arith, length-append raw ((k, v) ∷ []))

-- The rows grow by the count.
insert_records-length :
    (rs : List BackfillRecord) (raw : RawEvents)
    → length (insert_records rs raw).1 ≡ length raw + (insert_records rs raw).0
unfolding insert_records
insert_records-length [] raw = omega arith
insert_records-length (r ∷ rs) raw =
    let k : Source × Text = record_key r in
    ground (
      arith,
      insert_records-length rs (insert_new k (backfill_row r) raw),
      insert_new-length k (backfill_row r) raw,
    )

insert_records-bound :
    (rs : List BackfillRecord) (raw : RawEvents) → (insert_records rs raw).0 ≤ length rs
unfolding insert_records
insert_records-bound [] raw = omega arith
insert_records-bound (r ∷ rs) raw =
    ground (arith, insert_records-bound rs (insert_new (record_key r) (backfill_row r) raw))

-- A stored row stays.
insert_records-old :
    (rs : List BackfillRecord) (raw : RawEvents) (k : Source × Text) (row : RawRow)
    → lookup k raw ≡ some row
    → lookup k (insert_records rs raw).1 ≡ some row
unfolding insert_records
insert_records-old [] raw k row h = h
insert_records-old (r ∷ rs) raw k row h =
    insert_records-old rs (insert_new (record_key r) (backfill_row r) raw) k row
      (lookup-insert_new_old (record_key r) k (backfill_row r) row raw h)

-- The record's key is stored.
abbrev pub Present : RawEvents → BackfillRecord → Type 0
Present raw r = (row : RawRow) × (lookup (record_key r) raw ≡ some row)

insert_records-Present :
    (rs : List BackfillRecord) (raw : RawEvents) → All (Present (insert_records rs raw).1) rs
unfolding insert_records
insert_records-Present [] raw = tt
insert_records-Present (r ∷ rs) raw =
    let k : Source × Text = record_key r in
    let first : Present (insert_new k (backfill_row r) raw) r = elim (Option-cases (lookup k raw)) [
      | inl new ↦
          (backfill_row r, ground (arith, lookup-insert_new k k (backfill_row r) raw, eq_self k))
      | inr (row, old) ↦ (row, lookup-insert_new_old k k (backfill_row r) row raw old)
    ] in
    (
      (first.0, insert_records-old rs (insert_new k (backfill_row r) raw) k first.0 first.1),
      insert_records-Present rs (insert_new k (backfill_row r) raw),
    )

-- Records whose keys are all stored change nothing.
insert_records-again :
    (rs : List BackfillRecord) (raw : RawEvents)
    → All (Present raw) rs
    → insert_records rs raw ≡ (0, raw)
unfolding insert_records insert_new
insert_records-again [] raw h = refl
insert_records-again (r ∷ rs) raw ((row, found), rest) =
    ground (arith, insert_records-again rs raw rest)

abbrev next_checkpoint :
    BackfillRunKey → List BackfillRecord → Option Text → Bool → BackfillTables → BackfillCheckpoint
next_checkpoint key rs cursor is_last db =
    advance cursor is_last (insert_records rs db.raw).0 (load_checkpoint key db)

abbrev written :
    BackfillRunKey → List BackfillRecord → Option Text → Bool → BackfillTables → BackfillTables
written key rs cursor is_last db = record {
  raw = (insert_records rs db.raw).1;
  checkpoints =
      upsert (key_parameters key) (next_checkpoint key rs cursor is_last db) db.checkpoints;
}

abbrev reported :
    BackfillRunKey → List BackfillRecord → Option Text → Bool → BackfillTables → PageWriteOutcome
reported key rs cursor is_last db = record {
  inserted = (insert_records rs db.raw).0;
  duplicates = length rs - (insert_records rs db.raw).0;
  checkpoint = next_checkpoint key rs cursor is_last db;
}

written-checkpoint :
    (key : BackfillRunKey) (rs : List BackfillRecord) (cursor : Option Text) (is_last : Bool)
    → (db : BackfillTables)
    → load_checkpoint key (written key rs cursor is_last db)
      ≡ some (next_checkpoint key rs cursor is_last db)
unfolding load_checkpoint
written-checkpoint key rs cursor is_last db =
    let k : CheckpointKey = key_parameters key in
    ground (
      arith,
      lookup-upsert k k (next_checkpoint key rs cursor is_last db) db.checkpoints,
      eq_self k,
    )

persist_page-accepted :
    (key : BackfillRunKey) (rs : List BackfillRecord) (cursor : Option Text) (is_last : Bool)
    → (db : BackfillTables) → refuses key rs cursor is_last ≡ false
    → persist_page key rs cursor is_last db
      ≡ (ok (reported key rs cursor is_last db), written key rs cursor is_last db)
unfolding persist_page
persist_page-accepted key rs cursor is_last db h =
    ground (arith, written-checkpoint key rs cursor is_last db)

-- The counters of a run that may have no checkpoint yet.
abbrev pub pages_so_far : Option BackfillCheckpoint → ℕ
pages_so_far none = 0
pages_so_far (some c) = c.pages_completed

abbrev pub records_so_far : Option BackfillCheckpoint → ℕ
records_so_far none = 0
records_so_far (some c) = c.records_inserted

-- A page that passes the three tests is written: the call returns, every record's key is stored
-- after it, the rows grow by `inserted`, the records are the inserted and the duplicates, and the
-- run's checkpoint is the one returned, with the page and its new records counted and the cursor
-- and status given. The checkpoint of every other run is as before.
pub page_is_written :
    (key : BackfillRunKey) (rs : List BackfillRecord) (cursor : Option Text) (is_last : Bool)
    → (db : BackfillTables) → refuses key rs cursor is_last ≡ false
    → let (r, db') = persist_page key rs cursor is_last db in
      (o : PageWriteOutcome) × (r ≡ ok o)
      × (o.inserted + o.duplicates ≡ length rs)
      × (length db'.raw ≡ length db.raw + o.inserted)
      × All (Present db'.raw) rs
      × (load_checkpoint key db' ≡ some o.checkpoint)
      × (o.checkpoint.pages_completed ≡ suc (pages_so_far (load_checkpoint key db)))
      × (o.checkpoint.records_inserted ≡ records_so_far (load_checkpoint key db) + o.inserted)
      × (o.checkpoint.cursor ≡ cursor)
      × (o.checkpoint.status ≡ status_of is_last)
      × ((other : BackfillRunKey)
          → load_checkpoint other db' ≡ (
              if key_parameters key =? key_parameters other
              then some o.checkpoint
              else load_checkpoint other db))
unfolding load_checkpoint
page_is_written key rs cursor is_last db h = rw (persist_page-accepted key rs cursor is_last db h) (
  reported key rs cursor is_last db,
  refl,
  omega (arith, insert_records-bound rs db.raw),
  insert_records-length rs db.raw,
  insert_records-Present rs db.raw,
  written-checkpoint key rs cursor is_last db,
  counted (load_checkpoint key db),
  summed (load_checkpoint key db),
  placed (load_checkpoint key db),
  settled (load_checkpoint key db),
  λ other.
      lookup-upsert (key_parameters key) (key_parameters other)
        (next_checkpoint key rs cursor is_last db) db.checkpoints,
)
  where
    row : Option BackfillCheckpoint → BackfillCheckpoint
    row = advance cursor is_last (insert_records rs db.raw).0

    counted : (o : Option BackfillCheckpoint) → (row o).pages_completed ≡ suc (pages_so_far o)
    counted o = unfold advance in ground arith

    summed :
        (o : Option BackfillCheckpoint)
        → (row o).records_inserted ≡ records_so_far o + (insert_records rs db.raw).0
    summed o = unfold advance in ground arith

    placed : (o : Option BackfillCheckpoint) → (row o).cursor ≡ cursor
    placed o = unfold advance in ground arith

    settled : (o : Option BackfillCheckpoint) → (row o).status ≡ status_of is_last
    settled o = unfold advance in ground arith

-- A page that raises leaves the tables as they were, and raises `ValueError`.
page_raises_clean :
    (key : BackfillRunKey) (rs : List BackfillRecord) (cursor : Option Text) (is_last : Bool)
    → (db : BackfillTables) (x : Exception) → (persist_page key rs cursor is_last db).0 ≡ raise x
    → ((persist_page key rs cursor is_last db).1 ≡ db)
      × (x ≡ value_error)
      × (refuses key rs cursor is_last ≡ true)
page_raises_clean key rs cursor is_last db x e = elim (Bool-cases (refuses key rs cursor is_last)) [
  | inl refused ↦ unfold persist_page in ground arith
  | inr accepted ↦ absurd (ground (arith, persist_page-accepted key rs cursor is_last db accepted))
]

-- Persisting a page again, as a restart does, stores no new row: all of its records are duplicates.
page_again :
    (key : BackfillRunKey) (rs : List BackfillRecord) (cursor : Option Text) (is_last : Bool)
    → (db : BackfillTables) → refuses key rs cursor is_last ≡ false
    → let db' = (persist_page key rs cursor is_last db).1 in
      let (r, db'') = persist_page key rs cursor is_last db' in
      (db''.raw ≡ db'.raw)
      × (o : PageWriteOutcome) × (r ≡ ok o)
      × (o.inserted ≡ 0)
      × (o.duplicates ≡ length rs)
page_again key rs cursor is_last db h =
    let first : BackfillTables = written key rs cursor is_last db in
    let none_new : insert_records rs first.raw ≡ (0, first.raw) =
      insert_records-again rs first.raw (insert_records-Present rs db.raw) in
    rw (persist_page-accepted key rs cursor is_last db h) (
      rw (persist_page-accepted key rs cursor is_last first h) (
        ap (λ p. p.1) none_new,
        reported key rs cursor is_last first,
        refl,
        ap (λ p. p.0) none_new,
        rw none_new (omega arith),
      ))

pub record Page : Type 0 where
  pub records : List BackfillRecord
  pub next_cursor : Option Text
  pub is_last : Bool

-- The pages of a run, one after another.
unfoldable pub persist_pages : BackfillRunKey → List Page → BackfillTables → BackfillTables
persist_pages key [] db = db
persist_pages key (p ∷ ps) db =
    persist_pages key ps (persist_page key p.records p.next_cursor p.is_last db).1

-- Over any pages of a run, refused ones among them, `records_inserted` grows by exactly the rows
-- that the pages added.
pub records_inserted_counts_rows :
    (key : BackfillRunKey) (ps : List Page) (db : BackfillTables)
    → records_so_far (load_checkpoint key (persist_pages key ps db)) + length db.raw
      ≡ records_so_far (load_checkpoint key db) + length (persist_pages key ps db).raw
unfolding persist_pages
records_inserted_counts_rows key [] db = refl
records_inserted_counts_rows key (p ∷ ps) db =
    let db' : BackfillTables = (persist_page key p.records p.next_cursor p.is_last db).1 in
    omega (arith, one, records_inserted_counts_rows key ps db')
  where
    one :
        records_so_far
            (load_checkpoint key (persist_page key p.records p.next_cursor p.is_last db).1)
          + length db.raw
        ≡ records_so_far (load_checkpoint key db)
          + length (persist_page key p.records p.next_cursor p.is_last db).1.raw
    one = elim (Bool-cases (refuses key p.records p.next_cursor p.is_last)) [
      | inl refused ↦
          let same : (persist_page key p.records p.next_cursor p.is_last db).1 ≡ db =
            unfold persist_page in ground arith in
          rw same refl
      | inr accepted ↦
          let (o, returns, _, grows, _, stored, _, counted, _, _, _) =
            page_is_written key p.records p.next_cursor p.is_last db accepted in
          rw stored (omega (arith, grows, counted))
    ]
