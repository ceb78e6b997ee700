-- ===== src/Catalog/Identity/Created.antt =====
-- The new row of a call that finds none.
use anime_manager.Base.{
  ◌≡◌, refl, ◌⊎◌, inl, inr, ◌∙◌, sym, ap, true, [], ◌∷◌, none, some, arith, Option-cases,
}
use anime_manager.Base.Int.{ℤ}
use anime_manager.Base.Dict.{Dict, lookup, insert, lookup-insert, member}
use anime_manager.Catalog.Ids.{int_eq, int_beq_iff}
use anime_manager.Catalog.Merge.{
  Column, mal_id, kitsu_id, anilist_id, anidb_id, first_set, get_external_ids, no_externals,
}
use anime_manager.Catalog.Index.{
  Index, column_eq, column_beq_iff, Carries, IsUnique, find_by_external, find_by_external_unique,
}
use anime_manager.Catalog.Index.Merged.{only, new_row-Carries, new_row-IsUnique}
use anime_manager.Catalog.Identity.{asked, found_ids, existing_row, first_present, primary_key}
use anime_manager.Catalog.Identity.Found.{add_found-member, found_ids_complete}
use anime_manager.Catalog.Identity.Merges.{IsMerging}

-- Every external id of the call has a smallest key among them.
pub primary_key-asked :
    (ids : Dict Column ℤ) (k : Column) (v : ℤ)
    → asked ids k ≡ some v
    → (key : Column) × (value : ℤ) × (primary_key ids ≡ some (key, value))
      × (asked ids key ≡ some value)
unfolding primary_key first_present
primary_key-asked ids k v e = elim (Option-cases (lookup anidb_id ids)) [
  | inr (a, ea) ↦ (anidb_id, a, rw ea refl, ea)
  | inl no_anidb ↦ elim (Option-cases (lookup anilist_id ids)) [
    | inr (b, eb) ↦ (anilist_id, b, rw (no_anidb, eb) refl, eb)
    | inl no_anilist ↦ elim (Option-cases (lookup kitsu_id ids)) [
      | inr (c, ec) ↦ (kitsu_id, c, rw (no_anidb, no_anilist, ec) refl, ec)
      | inl no_kitsu ↦ (
        mal_id,
        v,
        rw (no_anidb, no_anilist, no_kitsu, left k no_anidb no_anilist no_kitsu e) refl,
        left k no_anidb no_anilist no_kitsu e,
      )
    ]
  ]
]
  where
    left :
        (k : Column)
        → lookup anidb_id ids ≡ none
        → lookup anilist_id ids ≡ none
        → lookup kitsu_id ids ≡ none
        → lookup k ids ≡ some v
        → lookup mal_id ids ≡ some v
    left mal_id a b c h = h
    left kitsu_id a b c h = absurd (cc)
    left anilist_id a b c h = absurd (cc)
    left anidb_id a b c h = absurd (cc)

no_member : (j : ℤ) → member j [] ≡ true → ⊥
unfolding member
no_member j e = cc

no_asked : (ids : Dict Column ℤ) (k : Column) (v : ℤ) → ids ≡ [] → asked ids k ≡ some v → ⊥
unfolding lookup
no_asked [] k v e h = cc
no_asked (x ∷ ids) k v e h = cc

-- No row has an external id of a call that finds none.
pub unclaimed :
    (j : ℤ) (k : Column) (v : ℤ) (ids : Dict Column ℤ) (index : Index)
    → IsUnique index
    → found_ids ids index ≡ []
    → asked ids k ≡ some v
    → Carries index j k v
    → ⊥
unclaimed j k v ids index u e is_asked h = no_member j (
    sym (ap (λ l. member j l) e)
    ∙ found_ids_complete j k v ids index is_asked (find_by_external_unique k v j index u h))

pub existing_row-none :
    (ids : Dict Column ℤ) (index : Index) → found_ids ids index ≡ [] → existing_row ids index ≡ none
unfolding existing_row found_ids first_set
existing_row-none [] index e = refl
existing_row-none ((k, v) ∷ ids) index e = elim (Option-cases (find_by_external k v index)) [
  | inl missing ↦ rw missing (existing_row-none ids index (later_none missing))
  | inr (i, found) ↦ absurd (no_member i (sym (ap (λ l. member i l) e) ∙ here i found))
]
  where
    later_none : find_by_external k v index ≡ none → found_ids ids index ≡ []
    later_none missing = cc

    here :
        (i : ℤ)
        → find_by_external k v index ≡ some i
        → member i (found_ids ((k, v) ∷ ids) index) ≡ true
    here i found = add_found-member i (find_by_external k v index) (found_ids ids index) (inl found)

-- The state after the insertion of the new row.
pub created-IsMerging :
    (fresh : ℤ) (ids : Dict Column ℤ) (key : Column) (value : ℤ) (index : Index)
    → IsUnique index
    → found_ids ids index ≡ []
    → asked ids key ≡ some value
    → IsMerging (asked ids) fresh [] (insert fresh (only key value) index)
created-IsMerging fresh ids key value index u e is_asked = record {
  unique =
      new_row-IsUnique fresh (only key value) index
        (λ j k v h. unclaimed j k v ids index u e (only_asked k v h)) u;
  held = (key, value, is_asked, new_carries);
  owners = λ j k v h c. owner j k v h (new_row-Carries fresh j (only key value) index k v c);
}
  where
    only_asked : (k : Column) (v : ℤ) → only key value k ≡ some v → asked ids k ≡ some v
    only_asked k v h = unfold only in ground (arith, column_beq_iff k key)

    has_key : only key value key ≡ some value
    has_key = unfold only in rw ((column_beq_iff key key).1 refl) refl

    inserted : lookup fresh (insert fresh (only key value) index) ≡ some (only key value)
    inserted =
        lookup-insert fresh fresh (only key value) index
        ∙ rw ((int_beq_iff fresh fresh).1 refl) refl

    new_carries : Carries (insert fresh (only key value) index) fresh key value
    new_carries =
        unfold get_external_ids no_externals in ap (λ o. no_externals o key) inserted ∙ has_key

    owner :
        (j : ℤ) (k : Column) (v : ℤ)
        → asked ids k ≡ some v
        → Carries index j k v ⊎ ((j ≡ fresh) × (only key value k ≡ some v))
        → (j ≡ fresh) ⊎ (member j [] ≡ true)
    owner j k v h (inl c) = absurd (unclaimed j k v ids index u e h c)
    owner j k v h (inr (same, _)) = inl same
