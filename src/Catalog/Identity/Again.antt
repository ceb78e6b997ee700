-- ===== src/Catalog/Identity/Again.antt =====
-- A second resolution of the same external ids.
use anime_manager.Base.{
  ◌≡◌, refl, ◌⊎◌, inl, inr, ◌∙◌, sym, ap, subst, Bool, true, false, List, [], ◌∷◌, Option, none,
  some, arith, if◌then◌else◌,
}
use anime_manager.Base.Int.{ℤ}
use anime_manager.Base.Dict.{◌==◌, Dict, add, member}
use anime_manager.Base.Text.{Text}
use anime_manager.Catalog.Ids.{int_eq, int_beq_iff}
use anime_manager.Catalog.Merge.{Column, Externals, Database, first_set, backfill_external_ids}
use anime_manager.Catalog.Index.{
  Index, column_eq, IsUnique, find_by_external, find_by_external-Carries, find_by_external_unique,
}
use anime_manager.Catalog.Identity.{
  Value, asked, entry, add_found, found_ids, backfill, ResolvedCatalogEntry, resolve_found,
  resolve_normalized, normalize_external_ids, resolve_external_ids,
}
use anime_manager.Catalog.Identity.Found.{
  normalize_external_ids-Distinct, add_found-member, found_ids_sound, found_ids_complete,
}
use anime_manager.Catalog.Identity.Merges.{Held, IsResolved}
use anime_manager.Catalog.Identity.Resolved.{Resolves, resolve_normalized-Resolves, with_row}
use anime_manager.Base.Dict.{Distinct}
use mathlib.Core.Path.{fun_ext}

first_set_again : (o n : Option ℤ) → first_set (first_set o n) n ≡ first_set o n
unfolding first_set
first_set_again none none = refl
first_set_again none (some n) = refl
first_set_again (some o) n = refl

backfilled_again :
    (b : Bool) (old ext : Externals)
    → (if b
        then (λ col.
            first_set ((if b then (λ col. first_set (old col) (ext col)) else old) col) (ext col))
        else (if b then (λ col. first_set (old col) (ext col)) else old))
      ≡ (if b then (λ col. first_set (old col) (ext col)) else old)
backfilled_again true old ext = fun_ext (λ col. first_set_again (old col) (ext col))
backfilled_again false old ext = refl

-- A second backfill with the same external ids changes nothing.
pub backfill_again :
    (c : ℤ) (ext : Externals) (index : Index)
    → backfill_external_ids c ext (backfill_external_ids c ext index)
      ≡ backfill_external_ids c ext index
unfolding backfill_external_ids
backfill_again c ext [] = refl
backfill_again c ext ((j, old) ∷ index) =
    λ i. (j, backfilled_again (j == c) old ext i) ∷ backfill_again c ext index i

add_found-alone :
    (c : ℤ) (o : Option ℤ) (found : List ℤ)
    → ((i : ℤ) → o ≡ some i → i ≡ c)
    → (found ≡ []) ⊎ (found ≡ c ∷ [])
    → (add_found o found ≡ []) ⊎ (add_found o found ≡ c ∷ [])
unfolding add_found add member
add_found-alone c none found h alone = alone
add_found-alone c (some i) found h (inl e) = inr (rw (e, h i refl) refl)
add_found-alone c (some i) found h (inr e) =
    inr (rw (e, h i refl) (ground (arith, int_beq_iff c c)))

found_ids-alone :
    (c : ℤ) (ids : Dict Column ℤ) (index : Index)
    → ((j : ℤ) → member j (found_ids ids index) ≡ true → j ≡ c)
    → (found_ids ids index ≡ []) ⊎ (found_ids ids index ≡ c ∷ [])
unfolding found_ids
found_ids-alone c [] index h = inl refl
found_ids-alone c ((k, v) ∷ ids) index h =
    let found = found_ids ids index in
    let o = find_by_external k v index in
    add_found-alone c o found (λ i e. h i (add_found-member i o found (inl e)))
      (found_ids-alone c ids index (λ j m. h j (add_found-member j o found (inr m))))

nothing_held : (c : ℤ) → member c [] ≡ true → ⊥
unfolding member
nothing_held c e = cc

-- After a resolution its row is the one that the external ids find.
found_ids-IsResolved :
    (c : ℤ) (ids : Dict Column ℤ) (index : Index)
    → Distinct ids
    → IsResolved (asked ids) c index
    → found_ids ids index ≡ c ∷ []
found_ids-IsResolved c ids index d s = elim (found_ids-alone c ids index only_row) [
  | inl empty ↦ absurd (nothing_held c (sym (ap (λ l. member c l) empty) ∙ held s.held))
  | inr alone ↦ alone
]
  where
    settled_at :
        (j : ℤ)
        → (k : Column) × (v : ℤ) × (asked ids k ≡ some v) × (find_by_external k v index ≡ some j)
        → j ≡ c
    settled_at j (k, v, is_asked, e) =
        s.settled j k v is_asked (find_by_external-Carries k v j index s.unique.rows e)

    only_row : (j : ℤ) → member j (found_ids ids index) ≡ true → j ≡ c
    only_row j m = settled_at j (found_ids_sound j ids index d m)

    held : Held (asked ids) c index → member c (found_ids ids index) ≡ true
    held (k, v, is_asked, h) =
        found_ids_complete c k v ids index is_asked (find_by_external_unique k v c index s.unique h)

backfill_twice :
    (c : ℤ) (ids : Dict Column ℤ) (db : Database)
    → backfill c ids (backfill c ids db) ≡ backfill c ids db
unfolding backfill
backfill_twice c ids db =
    ap (λ i. record db { index_list = i }) (backfill_again c (asked ids) db.index_list)

settled_again :
    (fresh : Option ℤ) (c : ℤ) (ids : Dict Column ℤ) (db before : Database)
    → (ids ≡ [] → ⊥)
    → Distinct ids
    → db ≡ backfill c ids before
    → IsResolved (asked ids) c db.index_list
    → resolve_normalized fresh ids db ≡ some (entry c [] db)
unfolding resolve_normalized resolve_found
settled_again fresh c [] db before given d e s = absurd (given refl)
settled_again fresh c (x ∷ ids) db before given d e s =
    ap (λ found. resolve_found fresh found (x ∷ ids) db)
      (found_ids-IsResolved c (x ∷ ids) db.index_list d s)
    ∙ ap (λ a. some (entry c [] a)) (unchanged e)
  where
    unchanged : db ≡ backfill c (x ∷ ids) before → backfill c (x ∷ ids) db ≡ db
    unchanged h = ap (λ a. backfill c (x ∷ ids) a) h ∙ backfill_twice c (x ∷ ids) before ∙ sym h

-- A resolution of the external ids that were just resolved gives the same row again, merges nothing and
-- leaves the tables as they are, in an index where no external id stood on two rows.
pub resolve_external_ids-again :
    (fresh later : Option ℤ) (external_ids : List (Text × Value)) (db : Database)
    (r : ResolvedCatalogEntry)
    → IsUnique db.index_list
    → resolve_external_ids fresh external_ids db ≡ some r
    → resolve_external_ids later external_ids r.database ≡ some (entry r.catalog_id [] r.database)
unfolding resolve_external_ids
resolve_external_ids-again fresh later external_ids db r u e =
    let ids = normalize_external_ids external_ids in
    let d : Distinct ids = normalize_external_ids-Distinct external_ids in
    let (i, e') = with_row fresh ids db r e in
    repeated i e' d (resolve_normalized-Resolves i ids db (given e) d u)
  where
    given :
        resolve_normalized fresh (normalize_external_ids external_ids) db ≡ some r
        → normalize_external_ids external_ids ≡ []
        → ⊥
    given h empty = nothing_resolved (sym (ap (λ l. resolve_normalized fresh l db) empty) ∙ h)
      where
        nothing_resolved : resolve_normalized fresh [] db ≡ some r → ⊥
        nothing_resolved h' = unfold resolve_normalized in cc

    same :
        (i : ℤ) (r' : ResolvedCatalogEntry)
        → resolve_normalized (some i) (normalize_external_ids external_ids) db ≡ some r
        → resolve_normalized (some i) (normalize_external_ids external_ids) db ≡ some r'
        → r' ≡ r
    same i r' g h = cc

    repeated :
        (i : ℤ)
        → resolve_normalized (some i) (normalize_external_ids external_ids) db ≡ some r
        → Distinct (normalize_external_ids external_ids)
        → Resolves
            (normalize_external_ids external_ids)
            (resolve_normalized (some i) (normalize_external_ids external_ids) db)
        → resolve_normalized later (normalize_external_ids external_ids) r.database
          ≡ some (entry r.catalog_id [] r.database)
    repeated i g d (r', before, h, filled, s) =
        subst
          (λ a.
            resolve_normalized later (normalize_external_ids external_ids) a.database
            ≡ some (entry a.catalog_id [] a.database))
          (same i r' g h)
          (settled_again later r'.catalog_id (normalize_external_ids external_ids) r'.database
            before (given e) d filled s)
