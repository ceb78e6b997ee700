-- ===== src/Catalog/Identity/Linked.antt =====
-- The external ids that `link` attaches to a row.
use anime_manager.Base.{
  ◌≡◌, refl, ◌⊎◌, inl, inr, ◌∙◌, sym, ap, subst, Bool, true, false, List, [], ◌∷◌, Option, none,
  some, arith, if◌then◌else◌, Bool-cases,
}
use anime_manager.Base.Int.{ℤ}
use anime_manager.Base.Dict.{Dict, lookup}
use anime_manager.Base.Text.{Text}
use anime_manager.Catalog.Ids.{int_eq, int_beq, int_beq_iff}
use anime_manager.Catalog.Merge.{Column, Externals, Database, first_set, get_external_ids}
use anime_manager.Catalog.Index.{
  Index, column_eq, column_beq, column_beq_iff, IsUnique, Carries, find_by_external,
  find_by_external-Carries, find_by_external-finds,
}
use anime_manager.Catalog.Index.Steps.{
  Present, Settled, Carries-Present, get-backfill_self, backfill-IsUnique, backfill-Settled,
}
use anime_manager.Catalog.Index.Merged.{
  merged, merge-merged, merged-Carries, merged-IsUnique, merged-Present,
}
use anime_manager.Catalog.Identity.{
  Value, asked, backfill, link_existing, link_keys, link_normalized, link, normalize_external_ids,
}

-- The state of the loop: of the external ids that it has seen none stands on another row.
record IsLinking (ext : Externals) (ids : Dict Column ℤ) (c : ℤ) (index : Index) : Type 0 where
  unique : IsUnique index
  present : Present index c
  owners :
      (j : ℤ) (k : Column) (v : ℤ)
      → ext k ≡ some v
      → Carries index j k v
      → (j ≡ c) ⊎ (lookup k ids ≡ some v)

lookup-cons :
    (k k' : Column) (v v' : ℤ) (ids : Dict Column ℤ)
    → lookup k ((k', v') ∷ ids) ≡ some v
    → ((k' ≡ k) × (v' ≡ v)) ⊎ (lookup k ids ≡ some v)
unfolding lookup
lookup-cons k k' v v' ids h = elim (Bool-cases (column_beq k' k)) [
  | inl same ↦ inl ((column_beq_iff k' k).0 same, at_head (branch same))
  | inr other ↦ inr (branch other)
]
  where
    branch : {b : Bool} → column_beq k' k ≡ b → (if b then some v' else lookup k ids) ≡ some v
    branch e = ap (λ b. if b then some v' else lookup k ids) (sym e) ∙ h

    at_head : some v' ≡ some v → v' ≡ v
    at_head e = cc

-- The loop passes an external id whose holders are all the row `c`.
seen :
    (ext : Externals) (k : Column) (v : ℤ) (ids : Dict Column ℤ) (c : ℤ) (index : Index)
    → ((j : ℤ) → Carries index j k v → j ≡ c)
    → IsLinking ext ((k, v) ∷ ids) c index
    → IsLinking ext ids c index
seen ext k v ids c index only_row s = record {
  unique = s.unique;
  present = s.present;
  owners = λ j k' v' is_asked h. owner j k' v' h (s.owners j k' v' is_asked h);
}
  where
    owner :
        (j : ℤ) (k' : Column) (v' : ℤ)
        → Carries index j k' v'
        → (j ≡ c) ⊎ (lookup k' ((k, v) ∷ ids) ≡ some v')
        → (j ≡ c) ⊎ (lookup k' ids ≡ some v')
    owner j k' v' h (inl e) = inl e
    owner j k' v' h (inr e) = elim (lookup-cons k' k v' v ids e) [
      | inl (ek, ev) ↦ inl (
          only_row j (
            subst (λ a. Carries index j a v) (sym ek)
              (subst (λ a. Carries index j k' a) (sym ev) h)))
      | inr later ↦ inr later
    ]

linked_row :
    (ext : Externals) (ids : Dict Column ℤ) (d c : ℤ) (index : Index)
    → int_beq d c ≡ false
    → Present index c
    → IsLinking ext ids d index
    → IsLinking ext ids c (merged d c index)
linked_row ext ids d c index apart p s = record {
  unique = merged-IsUnique d c index p s.unique;
  present = merged-Present d c index apart p;
  owners = λ j k v is_asked h. owner j k v is_asked (merged-Carries d c j index k v p h);
}
  where
    gone : (j : ℤ) → int_beq d j ≡ false → j ≡ d → ⊥
    gone j other e = ground (arith, int_beq_iff d j)

    owner :
        (j : ℤ) (k : Column) (v : ℤ)
        → ext k ≡ some v
        → (int_beq d j ≡ false) × (Carries index j k v ⊎ ((j ≡ c) × Carries index d k v))
        → (j ≡ c) ⊎ (lookup k ids ≡ some v)
    owner j k v is_asked (other, inr (same, _)) = inl same
    owner j k v is_asked (other, inl h) = elim (s.owners j k v is_asked h) [
      | inl same ↦ absurd (gone j other same)
      | inr later ↦ inr later
    ]

link_existing-IsLinking :
    (ext : Externals) (k : Column) (v : ℤ) (ids : Dict Column ℤ) (found : Option ℤ) (c : ℤ)
    (db : Database)
    → find_by_external k v db.index_list ≡ found
    → IsLinking ext ((k, v) ∷ ids) c db.index_list
    → IsLinking ext ids (link_existing found c db).0 (link_existing found c db).1.index_list
unfolding link_existing
link_existing-IsLinking ext k v ids none c db e s =
    seen ext k v ids c db.index_list
      (λ j h. absurd (find_by_external-finds k v j db.index_list h e)) s
link_existing-IsLinking ext k v ids (some existing) c db e s =
    elim (Bool-cases (int_beq existing c)) [
      | inl same ↦ rw same (seen ext k v ids c db.index_list (λ j h. holder_of same j h) s)
      | inr other ↦ rw other (
          subst (λ i. IsLinking ext ids existing i)
            (sym (merge-merged c existing db (flipped other)))
            (seen ext k v ids existing (merged c existing db.index_list)
              (λ j h. merged_holder j (merged-Carries c existing j db.index_list k v present h))
              (linked_row ext ((k, v) ∷ ids) c existing db.index_list (flipped other) present s)))
    ]
  where
    holder : (j : ℤ) → Carries db.index_list j k v → j ≡ existing
    holder j h =
        s.unique.external j existing k v h
          (find_by_external-Carries k v existing db.index_list s.unique.rows e)

    holder_of : int_beq existing c ≡ true → (j : ℤ) → Carries db.index_list j k v → j ≡ c
    holder_of same j h = holder j h ∙ (int_beq_iff existing c).0 same

    flipped : int_beq existing c ≡ false → int_beq c existing ≡ false
    flipped other = ground (arith, int_beq_iff existing c, int_beq_iff c existing)

    present : Present db.index_list existing
    present =
        Carries-Present db.index_list existing k v
          (find_by_external-Carries k v existing db.index_list s.unique.rows e)

    merged_holder :
        (j : ℤ)
        → (int_beq c j ≡ false)
          × (Carries db.index_list j k v ⊎ ((j ≡ existing) × Carries db.index_list c k v))
        → j ≡ existing
    merged_holder j (_, inl h) = holder j h
    merged_holder j (_, inr (same, _)) = same

link_keys-IsLinking :
    (ext : Externals) (ids : Dict Column ℤ) (c : ℤ) (db : Database)
    → IsLinking ext ids c db.index_list
    → IsLinking ext [] (link_keys ids c db).0 (link_keys ids c db).1.index_list
unfolding link_keys
link_keys-IsLinking ext [] c db s = s
link_keys-IsLinking ext ((k, v) ∷ ids) c db s =
    let step = link_existing (find_by_external k v db.index_list) c db in
    link_keys-IsLinking ext ids step.0 step.1
      (link_existing-IsLinking ext k v ids (find_by_external k v db.index_list) c db refl s)

-- What `link` leaves behind: no external id stands on two rows, those of the call stand on its row or
-- nowhere, and its row has an external id of every provider of the call.
pub record IsLinked (ext : Externals) (c : ℤ) (index : Index) : Type 0 where
  pub unique : IsUnique index
  pub settled : Settled ext c index
  pub filled : (k : Column) (v : ℤ) → ext k ≡ some v → (w : ℤ) × Carries index c k w

linked-Settled :
    (ext : Externals) (c : ℤ) (index : Index) → IsLinking ext [] c index → Settled ext c index
linked-Settled ext c index s j k v is_asked h = elim (s.owners j k v is_asked h) [
  | inl same ↦ same
  | inr e ↦ absurd (nowhere e)
]
  where
    nowhere : lookup k [] ≡ some v → ⊥
    nowhere e = unfold lookup in cc

first_set-some : (o : Option ℤ) (v : ℤ) → (w : ℤ) × (first_set o (some v) ≡ some w)
unfolding first_set
first_set-some none v = (v, refl)
first_set-some (some w) v = (w, refl)

filled_row :
    (c : ℤ) (ids : Dict Column ℤ) (db : Database)
    → IsLinking (asked ids) [] c db.index_list
    → IsLinked (asked ids) c (backfill c ids db).index_list
unfolding backfill
filled_row c ids db s =
    let settled : Settled (asked ids) c db.index_list =
      linked-Settled (asked ids) c db.index_list s in
    record {
      unique = backfill-IsUnique c (asked ids) db.index_list s.present settled s.unique;
      settled = backfill-Settled c (asked ids) db.index_list s.present settled;
      filled = λ k v e.
          let (w, h) = first_set-some (get_external_ids c db.index_list k) v in
          (
            w,
            get-backfill_self c (asked ids) db.index_list k s.present
                ∙ ap (λ o. first_set (get_external_ids c db.index_list k) o) e
                ∙ h,
          );
    }

link_normalized-IsLinked :
    (ids : Dict Column ℤ) (c : ℤ) (db : Database)
    → Present db.index_list c
    → IsUnique db.index_list
    → IsLinked (asked ids) (link_normalized ids c db).0 (link_normalized ids c db).1.index_list
unfolding link_normalized
link_normalized-IsLinked [] c db p u = record {
  unique = u;
  settled = λ j k v is_asked h. absurd (nothing k v is_asked);
  filled = λ k v is_asked. absurd (nothing k v is_asked);
}
  where
    nothing : (k : Column) (v : ℤ) → asked [] k ≡ some v → ⊥
    nothing k v e = unfold lookup in cc
link_normalized-IsLinked (e ∷ ids) c db p u =
    let step = link_keys (e ∷ ids) c db in
    filled_row step.0 (e ∷ ids) step.1 (
      link_keys-IsLinking (asked (e ∷ ids)) (e ∷ ids) c db
        (record { unique = u; present = p; owners = λ j k v is_asked h. inr is_asked }))

-- Linking external ids to a row that is there, in an index where no external id stands on two rows, gives
-- a row such that each of the external ids stands there or nowhere, no other stands on two rows, and the
-- row has an external id of every provider of the call.
pub link-IsLinked :
    (internal_id : ℤ) (external_ids : List (Text × Value)) (db : Database)
    → Present db.index_list internal_id
    → IsUnique db.index_list
    → IsLinked
        (asked (normalize_external_ids external_ids))
        (link internal_id external_ids db).0
        (link internal_id external_ids db).1.index_list
unfolding link
link-IsLinked internal_id external_ids db p u =
    link_normalized-IsLinked (normalize_external_ids external_ids) internal_id db p u
