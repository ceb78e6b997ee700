-- ===== src/Catalog/Identity/Resolved.antt =====
-- What a resolution promises: its result, and the state that it leaves.
use anime_manager.Base.{
  ◌≡◌, refl, ◌↔◌, ◌⊎◌, inl, inr, ◌∙◌, sym, ap, subst, true, List, [], ◌∷◌, Option, none, some,
  arith,
}
use anime_manager.Base.Int.{ℤ, pos}
use anime_manager.Base.Dict.{Dict, lookup, insert, member}
use anime_manager.Base.Text.{Text}
use anime_manager.Catalog.Ids.{int_eq, int_beq_iff, preferred_catalog_id}
use anime_manager.Catalog.Merge.{Column, Externals, Database}
use anime_manager.Catalog.Index.{
  Index, column_eq, column_beq_iff, IsUnique, find_by_external, find_by_external-Carries,
  find_by_external_unique,
}
use anime_manager.Catalog.Index.Merged.{only}
use anime_manager.Catalog.Identity.{
  Value, asked, entry, found_ids, sorted, merge_all, backfill, ResolvedCatalogEntry, primary_key,
  insert_row, created_row, allocate_row, allocate, merge_found, resolve_found, resolve_normalized,
  normalize_external_ids, resolve_external_ids,
}
use anime_manager.Catalog.Identity.Found.{
  normalize_external_ids-Distinct, found_ids_sound, found_ids_complete, member-sorted,
  preferred_catalog_id-member,
}
use anime_manager.Catalog.Identity.Merges.{
  Held, IsMerging, IsResolved, merge_all-IsMerging, backfill-IsResolved,
}
use anime_manager.Catalog.Identity.Created.{primary_key-asked, existing_row-none, created-IsMerging}
use anime_manager.Base.Dict.{Distinct}

-- The call gives an entry whose row is settled, as the last backfill left it.
abbrev pub Resolves : Dict Column ℤ → Option ResolvedCatalogEntry → Type 0
Resolves ids o =
    (r : ResolvedCatalogEntry) × (before : Database) × (o ≡ some r)
    × (r.database ≡ backfill r.catalog_id ids before)
    × IsResolved (asked ids) r.catalog_id r.database.index_list

entry-Resolves :
    (c : ℤ) (duplicates : List ℤ) (ids : Dict Column ℤ) (db : Database)
    → IsMerging (asked ids) c [] db.index_list
    → Resolves ids (some (entry c duplicates (backfill c ids db)))
unfolding entry
entry-Resolves c duplicates ids db s =
    (entry c duplicates (backfill c ids db), db, refl, refl, backfill-IsResolved c ids db s)

-- The rows that a call finds are all that have its external ids.
found-IsMerging :
    (c : ℤ) (found : List ℤ) (ids : Dict Column ℤ) (index : Index)
    → Distinct ids
    → IsUnique index
    → ((j : ℤ) → member j found ≡ member j (found_ids ids index))
    → member c found ≡ true
    → IsMerging (asked ids) c found index
found-IsMerging c found ids index d u same h = record {
  unique = u;
  held = held (found_ids_sound c ids index d (sym (same c) ∙ h));
  owners = λ j k v is_asked carried. inr (
      same j
      ∙ found_ids_complete j k v ids index is_asked
          (find_by_external_unique k v j index u carried));
}
  where
    held :
        (k : Column) × (v : ℤ) × (asked ids k ≡ some v) × (find_by_external k v index ≡ some c)
        → Held (asked ids) c index
    held (k, v, is_asked, e) = (k, v, is_asked, find_by_external-Carries k v c index u.rows e)

member_self : (i : ℤ) (l : List ℤ) → member i (i ∷ l) ≡ true
unfolding member
member_self i l = ground (arith, int_beq_iff i i)

alone-IsMerging :
    (c : ℤ) (ext : Externals) (index : Index)
    → IsMerging ext c (c ∷ []) index
    → IsMerging ext c [] index
alone-IsMerging c ext index s = record {
  unique = s.unique;
  held = s.held;
  owners = λ j k v is_asked h. owner j (s.owners j k v is_asked h);
}
  where
    owner : (j : ℤ) → (j ≡ c) ⊎ (member j (c ∷ []) ≡ true) → (j ≡ c) ⊎ (member j [] ≡ true)
    owner j (inl e) = inl e
    owner j (inr h) = inl (unfold member in ground (arith, int_beq_iff c j))

created-Resolves :
    (fresh : ℤ) (ids : Dict Column ℤ) (db : Database) (k : Column) (v : ℤ)
    → asked ids k ≡ some v
    → IsUnique db.index_list
    → found_ids ids db.index_list ≡ []
    → Resolves ids (allocate (some fresh) ids db)
created-Resolves fresh ids db k v is_asked u e =
    let (key, value, primary, h) = primary_key-asked ids k v is_asked in
    subst (λ o. Resolves ids o) (sym (computed key value primary))
      (entry-Resolves fresh [] ids
        (record db { index_list = insert fresh (only key value) db.index_list })
        (created-IsMerging fresh ids key value db.index_list u e h))
  where
    computed :
        (key : Column) (value : ℤ)
        → primary_key ids ≡ some (key, value)
        → allocate (some fresh) ids db
          ≡ some (
              entry fresh [] (
                backfill fresh ids
                  (record db { index_list = insert fresh (only key value) db.index_list })))
    computed key value primary =
        unfold allocate allocate_row insert_row created_row in
        rw (existing_row-none ids db.index_list e, primary) refl

merge_found-Resolves :
    (i j : ℤ) (found : List ℤ) (ids : Dict Column ℤ) (db : Database)
    → Distinct ids
    → IsUnique db.index_list
    → found_ids ids db.index_list ≡ i ∷ j ∷ found
    → Resolves ids (merge_found (preferred_catalog_id (i ∷ j ∷ found)) (i ∷ j ∷ found) ids db)
unfolding merge_found
merge_found-Resolves i j found ids db d u e =
    let (p, preferred, among) = preferred_catalog_id-member i (j ∷ found) in
    rw preferred (
      entry-Resolves p _ ids (merge_all (sorted (i ∷ j ∷ found)) p db) (
        merge_all-IsMerging (asked ids) (sorted (i ∷ j ∷ found)) p db (
          found-IsMerging p (sorted (i ∷ j ∷ found)) ids db.index_list d u
            (λ l. member-sorted l (i ∷ j ∷ found) ∙ ap (λ m. member l m) (sym e))
            (member-sorted p (i ∷ j ∷ found) ∙ among))))

resolve_found-Resolves :
    (fresh : ℤ) (found : List ℤ) (ids : Dict Column ℤ) (db : Database) (k : Column) (v : ℤ)
    → asked ids k ≡ some v
    → Distinct ids
    → IsUnique db.index_list
    → found_ids ids db.index_list ≡ found
    → Resolves ids (resolve_found (some fresh) found ids db)
unfolding resolve_found
resolve_found-Resolves fresh [] ids db k v is_asked d u e =
    created-Resolves fresh ids db k v is_asked u e
resolve_found-Resolves fresh (i ∷ []) ids db k v is_asked d u e = entry-Resolves i [] ids db (
    alone-IsMerging i (asked ids) db.index_list (
      found-IsMerging i (i ∷ []) ids db.index_list d u (λ l. ap (λ m. member l m) (sym e))
        (member_self i [])))
resolve_found-Resolves fresh (i ∷ j ∷ found) ids db k v is_asked d u e =
    merge_found-Resolves i j found ids db d u e

pub asked-head : (k : Column) (v : ℤ) (ids : Dict Column ℤ) → asked ((k, v) ∷ ids) k ≡ some v
unfolding lookup
asked-head k v ids = rw ((column_beq_iff k k).1 refl) refl

pub resolve_normalized-Resolves :
    (fresh : ℤ) (ids : Dict Column ℤ) (db : Database)
    → (ids ≡ [] → ⊥)
    → Distinct ids
    → IsUnique db.index_list
    → Resolves ids (resolve_normalized (some fresh) ids db)
unfolding resolve_normalized
resolve_normalized-Resolves fresh [] db given d u = absurd (given refl)
resolve_normalized-Resolves fresh ((k, v) ∷ ids) db given d u =
    resolve_found-Resolves fresh (found_ids ((k, v) ∷ ids) db.index_list) ((k, v) ∷ ids) db k v
      (asked-head k v ids) d u refl

-- In an index where no external id stands on two rows, a call with a usable external id gives an entry,
-- the database giving an id to a row that has to be made:
-- afterwards still no external id stands on two rows, each of the call's stands on the row of the entry
-- or nowhere, and at least one of them stands there.
pub resolve_external_ids-IsResolved :
    (fresh : ℤ) (external_ids : List (Text × Value)) (db : Database)
    → (normalize_external_ids external_ids ≡ [] → ⊥)
    → IsUnique db.index_list
    → Resolves
        (normalize_external_ids external_ids)
        (resolve_external_ids (some fresh) external_ids db)
unfolding resolve_external_ids
resolve_external_ids-IsResolved fresh external_ids db given u =
    resolve_normalized-Resolves fresh (normalize_external_ids external_ids) db given
      (normalize_external_ids-Distinct external_ids) u

Resolves-some :
    (ids : Dict Column ℤ) (o : Option ResolvedCatalogEntry) → Resolves ids o → o ≡ none → ⊥
Resolves-some ids o (r, _, e, _, _) e' = cc

-- Where a row is found no id is asked of the database.
resolve_found_fresh :
    (fresh other : Option ℤ) (i : ℤ) (found : List ℤ) (ids : Dict Column ℤ) (db : Database)
    → resolve_found fresh (i ∷ found) ids db ≡ resolve_found other (i ∷ found) ids db
unfolding resolve_found
resolve_found_fresh fresh other i [] ids db = refl
resolve_found_fresh fresh other i (j ∷ found) ids db = refl

allocate_fails :
    (ids : Dict Column ℤ) (db : Database)
    → found_ids ids db.index_list ≡ []
    → allocate none ids db ≡ none
allocate_fails ids db e =
    unfold allocate allocate_row insert_row created_row in
    rw (existing_row-none ids db.index_list e) refl

-- An entry that is given is also given with some id for a new row.
pub with_row :
    (fresh : Option ℤ) (ids : Dict Column ℤ) (db : Database) (r : ResolvedCatalogEntry)
    → resolve_normalized fresh ids db ≡ some r
    → (i : ℤ) × (resolve_normalized (some i) ids db ≡ some r)
with_row (some i) ids db r e = (i, e)
with_row none [] db r e = absurd (unfold resolve_normalized in cc)
with_row none (x ∷ ids) db r e = (
  pos 0,
  unfold resolve_normalized in
      found (found_ids (x ∷ ids) db.index_list) refl (unfold resolve_normalized in e),
)
  where
    found :
        (l : List ℤ)
        → found_ids (x ∷ ids) db.index_list ≡ l
        → resolve_found none l (x ∷ ids) db ≡ some r
        → resolve_found (some (pos 0)) l (x ∷ ids) db ≡ some r
    found [] empty h = absurd (gone (allocate_fails (x ∷ ids) db empty) h)
      where
        gone : allocate none (x ∷ ids) db ≡ none → resolve_found none [] (x ∷ ids) db ≡ some r → ⊥
        gone a h' = unfold resolve_found in cc
    found (i ∷ l) same h = resolve_found_fresh (some (pos 0)) none i l (x ∷ ids) db ∙ h

-- The call has nothing to look for, or nothing is found and the database gives no row.
abbrev Fails : Option ℤ → Dict Column ℤ → Database → Type 0
Fails fresh ids db = (ids ≡ []) ⊎ ((found_ids ids db.index_list ≡ []) × (fresh ≡ none))

resolve_normalized-Fails :
    (fresh : Option ℤ) (ids : Dict Column ℤ) (db : Database)
    → Distinct ids
    → IsUnique db.index_list
    → resolve_normalized fresh ids db ≡ none
    → Fails fresh ids db
resolve_normalized-Fails fresh [] db d u e = inl refl
resolve_normalized-Fails (some i) (x ∷ ids) db d u e = absurd (
    Resolves-some (x ∷ ids) _ (resolve_normalized-Resolves i (x ∷ ids) db (λ h. absurd (cc)) d u) e)
resolve_normalized-Fails none (x ∷ ids) db d u e = looked (found_ids (x ∷ ids) db.index_list) refl
  where
    looked : (l : List ℤ) → found_ids (x ∷ ids) db.index_list ≡ l → Fails none (x ∷ ids) db
    looked [] empty = inr (empty, refl)
    looked (i ∷ l) same = absurd (
        Resolves-some (x ∷ ids) _
          (resolve_normalized-Resolves (pos 0) (x ∷ ids) db (λ h. absurd (cc)) d u)
          (unfold resolve_normalized in
            ap (λ f. resolve_found (some (pos 0)) f (x ∷ ids) db) same
            ∙ resolve_found_fresh (some (pos 0)) none i l (x ∷ ids) db
            ∙ ap (λ f. resolve_found none f (x ∷ ids) db) (sym same)
            ∙ (unfold resolve_normalized in e)))

Fails-resolve_normalized :
    (fresh : Option ℤ) (ids : Dict Column ℤ) (db : Database)
    → Fails fresh ids db
    → resolve_normalized fresh ids db ≡ none
unfolding resolve_normalized
Fails-resolve_normalized fresh [] db h = refl
Fails-resolve_normalized fresh (x ∷ ids) db (inl empty) = absurd (cc)
Fails-resolve_normalized fresh (x ∷ ids) db (inr (empty, refused)) =
    ap (λ f. resolve_found f (found_ids (x ∷ ids) db.index_list) (x ∷ ids) db) refused
    ∙ ap (λ l. resolve_found none l (x ∷ ids) db) empty
    ∙ (unfold resolve_found in allocate_fails (x ∷ ids) db empty)

-- In an index where no external id stands on two rows, a call fails exactly when none of its external ids
-- is usable, or when no row has any of them and the database gives no new row.
pub resolve_external_ids-none :
    (fresh : Option ℤ) (external_ids : List (Text × Value)) (db : Database)
    → IsUnique db.index_list
    → (resolve_external_ids fresh external_ids db ≡ none)
      ↔ (normalize_external_ids external_ids ≡ [])
        ⊎ ((found_ids (normalize_external_ids external_ids) db.index_list ≡ []) × (fresh ≡ none))
unfolding resolve_external_ids
resolve_external_ids-none fresh external_ids db u =
    let ids = normalize_external_ids external_ids in
    (
      resolve_normalized-Fails fresh ids db (normalize_external_ids-Distinct external_ids) u,
      Fails-resolve_normalized fresh ids db,
    )
