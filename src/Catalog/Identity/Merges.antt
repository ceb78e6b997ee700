-- ===== src/Catalog/Identity/Merges.antt =====
-- The merges of the duplicates into the canonical row, and the backfill after them.
use anime_manager.Base.{
  ◌≡◌, refl, ◌⊎◌, inl, inr, ◌∙◌, sym, subst, true, false, List, [], ◌∷◌, some, arith, Bool-cases,
}
use anime_manager.Base.Int.{ℤ}
use anime_manager.Base.Dict.{Dict, member}
use anime_manager.Catalog.Ids.{int_eq, int_beq, int_beq_iff}
use anime_manager.Catalog.Merge.{Column, Externals, Database, backfill_external_ids, merge}
use anime_manager.Catalog.Index.{Index, Carries, IsUnique}
use anime_manager.Catalog.Index.Steps.{
  Present, Settled, backfill-IsUnique, backfill-Settled, Carries-backfill, Carries-Present,
}
use anime_manager.Catalog.Index.Merged.{
  merged, merge-merged, merged-Carries, Carries-merged, merged-IsUnique,
}
use anime_manager.Catalog.Identity.{asked, merge_all, backfill}

-- Row `c` has some of the external ids that are asked for.
abbrev pub Held : Externals → ℤ → Index → Type 0
Held ext c index = (k : Column) × (v : ℤ) × (ext k ≡ some v) × Carries index c k v

-- The state of the merges into row `c`: the rows that still have to be merged are in the list.
pub record IsMerging (ext : Externals) (c : ℤ) (found : List ℤ) (index : Index) : Type 0 where
  pub unique : IsUnique index
  pub held : Held ext c index
  pub owners :
      (j : ℤ) (k : Column) (v : ℤ)
      → ext k ≡ some v
      → Carries index j k v
      → (j ≡ c) ⊎ (member j found ≡ true)

pub Held-Present : (ext : Externals) (c : ℤ) (index : Index) → Held ext c index → Present index c
Held-Present ext c index (k, v, _, h) = Carries-Present index c k v h

merged_row :
    (ext : Externals) (d c : ℤ) (found : List ℤ) (index : Index)
    → int_beq d c ≡ false
    → IsMerging ext c (d ∷ found) index
    → IsMerging ext c found (merged d c index)
merged_row ext d c found index apart s =
    let p : Present index c = Held-Present ext c index s.held in
    record {
      unique = merged-IsUnique d c index p s.unique;
      held = held p s.held;
      owners = λ j k v is_asked h. owner j k v is_asked (merged-Carries d c j index k v p h);
    }
  where
    held : Present index c → Held ext c index → Held ext c (merged d c index)
    held p (k, v, is_asked, h) = (k, v, is_asked, Carries-merged d c c index k v p apart h)

    later : (j : ℤ) → int_beq d j ≡ false → member j (d ∷ found) ≡ true → member j found ≡ true
    later j other h = unfold member in ground arith

    owner :
        (j : ℤ) (k : Column) (v : ℤ)
        → ext k ≡ some v
        → (int_beq d j ≡ false) × (Carries index j k v ⊎ ((j ≡ c) × Carries index d k v))
        → (j ≡ c) ⊎ (member j found ≡ true)
    owner j k v is_asked (other, inr (same, _)) = inl same
    owner j k v is_asked (other, inl h) = elim (s.owners j k v is_asked h) [
      | inl same ↦ inl same
      | inr among ↦ inr (later j other among)
    ]

canonical_row :
    (ext : Externals) (d c : ℤ) (found : List ℤ) (index : Index)
    → int_beq d c ≡ true
    → IsMerging ext c (d ∷ found) index
    → IsMerging ext c found index
canonical_row ext d c found index same s = record {
  unique = s.unique;
  held = s.held;
  owners = λ j k v is_asked h. owner j (s.owners j k v is_asked h);
}
  where
    owner : (j : ℤ) → (j ≡ c) ⊎ (member j (d ∷ found) ≡ true) → (j ≡ c) ⊎ (member j found ≡ true)
    owner j (inl e) = inl e
    owner j (inr h) = elim (Bool-cases (int_beq d j)) [
      | inl here ↦ inl (sym ((int_beq_iff d j).0 here) ∙ (int_beq_iff d c).0 same)
      | inr other ↦ inr (unfold member in ground arith)
    ]

pub merge-IsMerging :
    (ext : Externals) (d c : ℤ) (found : List ℤ) (db : Database)
    → IsMerging ext c (d ∷ found) db.index_list
    → IsMerging ext c found (merge d c db).index_list
merge-IsMerging ext d c found db s = elim (Bool-cases (int_beq d c)) [
  | inl same ↦
      subst (λ i. IsMerging ext c found i) (sym (unchanged same))
        (canonical_row ext d c found db.index_list same s)
  | inr apart ↦
      subst (λ i. IsMerging ext c found i) (sym (merge-merged d c db apart))
        (merged_row ext d c found db.index_list apart s)
]
  where
    unchanged : int_beq d c ≡ true → (merge d c db).index_list ≡ db.index_list
    unchanged same = unfold merge in rw same refl

pub merge_all-IsMerging :
    (ext : Externals) (found : List ℤ) (c : ℤ) (db : Database)
    → IsMerging ext c found db.index_list
    → IsMerging ext c [] (merge_all found c db).index_list
unfolding merge_all
merge_all-IsMerging ext [] c db s = s
merge_all-IsMerging ext (d ∷ found) c db s =
    merge_all-IsMerging ext found c (merge d c db) (merge-IsMerging ext d c found db s)

-- What a call leaves behind: no external id stands on two rows, those that were asked for stand on the
-- row of the call or nowhere, and some of them stand there.
pub record IsResolved (ext : Externals) (c : ℤ) (index : Index) : Type 0 where
  pub unique : IsUnique index
  pub settled : Settled ext c index
  pub held : Held ext c index

pub IsMerging-Settled :
    (ext : Externals) (c : ℤ) (index : Index) → IsMerging ext c [] index → Settled ext c index
IsMerging-Settled ext c index s j k v is_asked h = elim (s.owners j k v is_asked h) [
  | inl same ↦ same
  | inr among ↦ absurd (nowhere among)
]
  where
    nowhere : member j [] ≡ true → ⊥
    nowhere e = unfold member in cc

-- The backfill after the merges.
pub backfill-IsResolved :
    (c : ℤ) (ids : Dict Column ℤ) (db : Database)
    → IsMerging (asked ids) c [] db.index_list
    → IsResolved (asked ids) c (backfill c ids db).index_list
unfolding backfill
backfill-IsResolved c ids db s =
    let ext = asked ids in
    let p : Present db.index_list c = Held-Present ext c db.index_list s.held in
    let settled : Settled ext c db.index_list = IsMerging-Settled ext c db.index_list s in
    record {
      unique = backfill-IsUnique c ext db.index_list p settled s.unique;
      settled = backfill-Settled c ext db.index_list p settled;
      held = held p s.held;
    }
  where
    held :
        Present db.index_list c
        → Held (asked ids) c db.index_list
        → Held (asked ids) c (backfill_external_ids c (asked ids) db.index_list)
    held p (k, v, is_asked, h) =
        (k, v, is_asked, Carries-backfill c c (asked ids) db.index_list k v p h)
