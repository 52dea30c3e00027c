-- ===== src/Backfill/Pages/Effects.antt =====
-- src/github_analytics/backfill/storage.py: what a page leaves alone, whether it is written or not.
use github_delivery_intellig.Common.{
  ◌≡◌, refl, inl, inr, Bool, true, false, Option, some, List, ◌=?◌, pair_eq, arith, Bool-cases,
}
use github_delivery_intellig.Common.Text.{Text, text_eq}
use github_delivery_intellig.Common.Table.{lookup}
use github_delivery_intellig.Consumers.RawStorage.{RawRow, Source, source_eq}
use github_delivery_intellig.Backfill.Models.{BackfillRunKey, BackfillRecord}
use github_delivery_intellig.Backfill.Storage.{
  checkpoint_key_eq, key_parameters, BackfillTables, load_checkpoint, refuses, persist_page,
}
use github_delivery_intellig.Backfill.Pages.{
  insert_records-old, persist_page-accepted, page_is_written,
}

-- Every stored row is still there.
abbrev pub KeepsRows : BackfillTables → BackfillTables → Type 0
KeepsRows t u =
    (k : Source × Text) (row : RawRow) → lookup k t.raw ≡ some row → lookup k u.raw ≡ some row

page-refused :
    (key : BackfillRunKey) (rs : List BackfillRecord) (c : Option Text) (l : Bool)
    → (t : BackfillTables) → refuses key rs c l ≡ true
    → (persist_page key rs c l t).1 ≡ t
unfolding persist_page
page-refused key rs c l t h = ground arith

pub page-KeepsRows :
    (key : BackfillRunKey) (rs : List BackfillRecord) (c : Option Text) (l : Bool)
    → (t : BackfillTables) → KeepsRows t (persist_page key rs c l t).1
page-KeepsRows key rs c l t = elim (Bool-cases (refuses key rs c l)) [
  | inl refused ↦ rw (page-refused key rs c l t refused) (λ k row h. h)
  | inr accepted ↦
      rw (persist_page-accepted key rs c l t accepted)
        (λ k row h. insert_records-old rs t.raw k row h)
]

pub page_keeps_other :
    (key other : BackfillRunKey) (rs : List BackfillRecord) (c : Option Text) (l : Bool)
    → (t : BackfillTables) → (key_parameters key =? key_parameters other) ≡ false
    → load_checkpoint other (persist_page key rs c l t).1 ≡ load_checkpoint other t
page_keeps_other key other rs c l t apart = elim (Bool-cases (refuses key rs c l)) [
  | inl refused ↦ rw (page-refused key rs c l t refused) refl
  | inr accepted ↦
      let (_, _, _, _, _, _, _, _, _, _, others) = page_is_written key rs c l t accepted in
      ground (arith, others other)
]
