-- ===== src/Catalog/Identity/Found.antt =====
-- The rows that a call finds, their order, and the preferred one.
use anime_manager.Base.{
  ◌≡◌, refl, ◌⊎◌, inl, inr, ◌∙◌, sym, ap, subst, Bool, true, ◌||◌, List, [], ◌∷◌, Option, none,
  some, arith, if◌then◌else◌, keep, Bool-cases,
}
use anime_manager.Base.Int.{ℤ, ltb_ℤ}
use anime_manager.Base.Dict.{Dict, lookup, member, member-add, Distinct, insert-Distinct}
use anime_manager.Base.Text.{Text}
use anime_manager.Catalog.Ids.{
  int_eq, int_beq, int_beq_iff, is_positive, minimum, smallest, preferred_catalog_id,
}
use anime_manager.Catalog.Merge.{Column}
use anime_manager.Catalog.Index.{Index, column_eq, column_beq, column_beq_iff, find_by_external}
use anime_manager.Catalog.Identity.{
  Value, asked, add_found, found_ids, insert_sorted, sorted, put_external, normalize_onto,
  normalize_external_ids, column_of, to_int,
}

put_external-Distinct :
    (o : Option Column) (v : Option ℤ) (out : Dict Column ℤ)
    → Distinct out
    → Distinct (put_external o v out)
unfolding put_external
put_external-Distinct none v out d = d
put_external-Distinct (some k) none out d = d
put_external-Distinct (some k) (some v) out d = insert-Distinct k v out d

normalize_onto-Distinct :
    (l : List (Text × Value)) (out : Dict Column ℤ) → Distinct out → Distinct (normalize_onto out l)
unfolding normalize_onto
normalize_onto-Distinct [] out d = d
normalize_onto-Distinct ((key, value) ∷ rest) out d =
    normalize_onto-Distinct rest (put_external (column_of key) (to_int value) out)
      (put_external-Distinct (column_of key) (to_int value) out d)

-- No provider stands twice in the normalized external ids.
pub normalize_external_ids-Distinct :
    (l : List (Text × Value)) → Distinct (normalize_external_ids l)
unfolding normalize_external_ids
normalize_external_ids-Distinct l = normalize_onto-Distinct l [] tt

pub member-add_found :
    (j : ℤ) (o : Option ℤ) (found : List ℤ)
    → member j (add_found o found) ≡ true
    → (o ≡ some j) ⊎ (member j found ≡ true)
unfolding add_found
member-add_found j none found h = inr h
member-add_found j (some i) found h = elim (Bool-cases (int_beq i j)) [
  | inl same ↦ inl (ap some ((int_beq_iff i j).0 same))
  | inr other ↦ inr (ground (arith, member-add i j found))
]

pub add_found-member :
    (j : ℤ) (o : Option ℤ) (found : List ℤ)
    → (o ≡ some j) ⊎ (member j found ≡ true)
    → member j (add_found o found) ≡ true
unfolding add_found
add_found-member j none found (inl e) = absurd (cc)
add_found-member j none found (inr h) = h
add_found-member j (some i) found (inl e) = ground (arith, member-add i j found, int_beq_iff i j)
add_found-member j (some i) found (inr h) = ground (arith, member-add i j found)

asked-later :
    (k' k : Column) (v' v : ℤ) (ids : Dict Column ℤ)
    → lookup k' ids ≡ none
    → asked ids k ≡ some v
    → asked ((k', v') ∷ ids) k ≡ some v
unfolding lookup
asked-later k' k v' v ids absent h = elim (Bool-cases (column_beq k' k)) [
  | inl same ↦
      absurd (nowhere (subst (λ a. lookup a ids ≡ none) ((column_beq_iff k' k).0 same) absent))
  | inr other ↦ rw other h
]
  where
    nowhere : lookup k ids ≡ none → ⊥
    nowhere e = cc

-- Every row that is found has one of the external ids.
pub found_ids_sound :
    (j : ℤ) (ids : Dict Column ℤ) (index : Index)
    → Distinct ids
    → member j (found_ids ids index) ≡ true
    → (k : Column) × (v : ℤ) × (asked ids k ≡ some v) × (find_by_external k v index ≡ some j)
unfolding found_ids member
found_ids_sound j [] index d h = absurd (cc)
found_ids_sound j ((k, v) ∷ ids) index d h =
    elim (member-add_found j (find_by_external k v index) (found_ids ids index) h) [
      | inl here ↦ (k, v, asked_head, here)
      | inr later ↦
          let (k', v', is_asked, found) = found_ids_sound j ids index d.1 later in
          (k', v', asked-later k k' v v' ids d.0 is_asked, found)
    ]
  where
    asked_head : asked ((k, v) ∷ ids) k ≡ some v
    asked_head = unfold lookup in ground (arith, column_beq_iff k k)

-- Every row that has one of the external ids is found.
pub found_ids_complete :
    (j : ℤ) (k : Column) (v : ℤ) (ids : Dict Column ℤ) (index : Index)
    → asked ids k ≡ some v
    → find_by_external k v index ≡ some j
    → member j (found_ids ids index) ≡ true
unfolding found_ids lookup
found_ids_complete j k v [] index e f = absurd (cc)
found_ids_complete j k v ((k', v') ∷ ids) index e f = elim (Bool-cases (column_beq k' k)) [
  | inl same ↦
      add_found-member j (find_by_external k' v' index) (found_ids ids index)
        (inl (here ((column_beq_iff k' k).0 same) (value (branch same))))
  | inr other ↦
      add_found-member j (find_by_external k' v' index) (found_ids ids index)
        (inr (found_ids_complete j k v ids index (branch other) f))
]
  where
    branch : {b : Bool} → column_beq k' k ≡ b → (if b then some v' else lookup k ids) ≡ some v
    branch h = ap (λ b. if b then some v' else lookup k ids) (sym h) ∙ e

    value : some v' ≡ some v → v' ≡ v
    value h = cc

    here : k' ≡ k → v' ≡ v → find_by_external k' v' index ≡ some j
    here ek ev = rw (ek, ev) f

member-insert_sorted :
    (j i : ℤ) (l : List ℤ) → member j (insert_sorted i l) ≡ (int_beq i j || member j l)
unfolding insert_sorted member
member-insert_sorted j i [] = ground arith
member-insert_sorted j i (k ∷ l) = ground (arith, member-insert_sorted j i l)

pub member-sorted : (j : ℤ) (l : List ℤ) → member j (sorted l) ≡ member j l
unfolding sorted member
member-sorted j [] = refl
member-sorted j (i ∷ l) = ground (arith, member-insert_sorted j i (sorted l), member-sorted j l)

minimum-cons : (i j : ℤ) (l : List ℤ) → (minimum i (j ∷ l) ≡ minimum j l) ⊎ (minimum i (j ∷ l) ≡ i)
unfolding minimum
minimum-cons i j l = elim (Bool-cases (ltb_ℤ (minimum j l) i)) [
  | inl less ↦ inl (rw less refl)
  | inr more ↦ inr (rw more refl)
]

member-head : (i : ℤ) (l : List ℤ) → member i (i ∷ l) ≡ true
unfolding member
member-head i l = ground (arith, int_beq_iff i i)

member-tail : (j i : ℤ) (l : List ℤ) → member j l ≡ true → member j (i ∷ l) ≡ true
unfolding member
member-tail j i l h = ground arith

member-minimum : (l : List ℤ) (i : ℤ) → member (minimum i l) (i ∷ l) ≡ true
member-minimum [] i = member-least i
  where
    member-least : (i : ℤ) → member (minimum i []) (i ∷ []) ≡ true
    member-least i = unfold minimum in member-head i []
member-minimum (j ∷ l) i = elim (minimum-cons i j l) [
  | inl e ↦
      subst (λ m. member m (i ∷ j ∷ l) ≡ true) (sym e)
        (member-tail (minimum j l) i (j ∷ l) (member-minimum l j))
  | inr e ↦ subst (λ m. member m (i ∷ j ∷ l) ≡ true) (sym e) (member-head i (j ∷ l))
]

member-keep : (j : ℤ) (f : ℤ → Bool) (l : List ℤ) → member j (keep f l) ≡ true → member j l ≡ true
unfolding member
member-keep j f [] h = h
member-keep j f (i ∷ l) h = ground (arith, member-keep j f l)

member-smallest :
    (i : ℤ) (ids l : List ℤ)
    → keep is_positive (i ∷ ids) ≡ l
    → member (smallest i ids l) (i ∷ ids) ≡ true
unfolding smallest
member-smallest i ids [] e = member-minimum ids i
member-smallest i ids (p ∷ ps) e =
    member-keep (minimum p ps) is_positive (i ∷ ids)
      (subst (λ l. member (minimum p ps) l ≡ true) (sym e) (member-minimum ps p))

-- The preferred id is one of the ids of the call.
pub preferred_catalog_id-member :
    (i : ℤ) (ids : List ℤ)
    → (p : ℤ) × (preferred_catalog_id (i ∷ ids) ≡ some p) × (member p (i ∷ ids) ≡ true)
unfolding preferred_catalog_id
preferred_catalog_id-member i ids =
    (smallest i ids (keep is_positive (i ∷ ids)), refl, member-smallest i ids _ refl)
