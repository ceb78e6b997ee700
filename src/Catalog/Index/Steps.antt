-- ===== src/Catalog/Index/Steps.antt =====
-- What a backfill, a merge and an insertion change in the external ids of the rows.
use anime_manager.Base.{
  ◌≡◌, refl, ◌⊎◌, inl, inr, ◌∙◌, sym, ap, subst, [], ◌∷◌, Option, none, some, arith, Bool-cases,
  Option-cases,
}
use anime_manager.Base.Int.{ℤ}
use anime_manager.Base.Dict.{lookup, Distinct}
use anime_manager.Catalog.Ids.{int_eq, int_beq, int_beq_iff}
use anime_manager.Catalog.Merge.{
  Column, Externals, first_set, no_externals, get_external_ids, backfill_external_ids,
  lookup-backfill,
}
use anime_manager.Catalog.Index.{Index, Carries, IsUnique, get-backfill-other}

-- Row `i` is there.
abbrev pub Present : Index → ℤ → Type 0
Present index i = (ext : Externals) × (lookup i index ≡ some ext)

-- Row `c` alone has the external ids that are asked for.
abbrev pub Settled : Externals → ℤ → Index → Type 0
Settled ext c index = (j : ℤ) (k : Column) (v : ℤ) → ext k ≡ some v → Carries index j k v → j ≡ c

pub Carries-Present :
    (index : Index) (i : ℤ) (k : Column) (v : ℤ) → Carries index i k v → Present index i
unfolding get_external_ids no_externals
Carries-Present index i k v h = elim (Option-cases (lookup i index)) [
  | inl absent ↦ absurd (nowhere absent)
  | inr here ↦ here
]
  where
    nowhere : lookup i index ≡ none → ⊥
    nowhere e = let e' : none ≡ some v = sym (ap (λ o. no_externals o k) e) ∙ h in cc

first_set-cases :
    (o n : Option ℤ) (v : ℤ) → first_set o n ≡ some v → (o ≡ some v) ⊎ ((o ≡ none) × (n ≡ some v))
unfolding first_set
first_set-cases none n v e = inr (refl, e)
first_set-cases (some w) n v e = inl e

pub get-backfill_self :
    (c : ℤ) (ext : Externals) (index : Index) (k : Column)
    → Present index c
    → get_external_ids c (backfill_external_ids c ext index) k
      ≡ first_set (get_external_ids c index k) (ext k)
unfolding get_external_ids no_externals
get-backfill_self c ext index k (old, e) =
    ap (λ o. no_externals o k) (lookup-backfill c ext old index e)
    ∙ sym (ap (λ o. first_set (no_externals o k) (ext k)) e)

-- Where an external id stands after a backfill.
pub backfill-Carries :
    (c i : ℤ) (ext : Externals) (index : Index) (k : Column) (v : ℤ)
    → Present index c
    → Carries (backfill_external_ids c ext index) i k v
    → Carries index i k v ⊎ ((i ≡ c) × (ext k ≡ some v))
backfill-Carries c i ext index k v p h = elim (Bool-cases (int_beq c i)) [
  | inl same ↦ at_self (sym ((int_beq_iff c i).0 same))
  | inr other ↦ inl (sym (get-backfill-other c i ext index k other) ∙ h)
]
  where
    at_self : i ≡ c → Carries index i k v ⊎ ((i ≡ c) × (ext k ≡ some v))
    at_self e =
        elim (first_set-cases (get_external_ids c index k) (ext k) v (
          sym (get-backfill_self c ext index k p)
          ∙ subst (λ a. Carries (backfill_external_ids c ext index) a k v) e h)) [
            | inl old ↦ inl (subst (λ a. Carries index a k v) (sym e) old)
            | inr (_, new) ↦ inr (e, new)
          ]

-- A backfill takes no external id away.
pub Carries-backfill :
    (c i : ℤ) (ext : Externals) (index : Index) (k : Column) (v : ℤ)
    → Present index c
    → Carries index i k v
    → Carries (backfill_external_ids c ext index) i k v
Carries-backfill c i ext index k v p h = elim (Bool-cases (int_beq c i)) [
  | inl same ↦ at_self ((int_beq_iff c i).0 same)
  | inr other ↦ get-backfill-other c i ext index k other ∙ h
]
  where
    kept :
        get_external_ids c index k ≡ some v
        → first_set (get_external_ids c index k) (ext k) ≡ some v
    kept e = rw e (unfold first_set in refl)

    at_self : c ≡ i → Carries (backfill_external_ids c ext index) i k v
    at_self e =
        subst (λ a. Carries (backfill_external_ids c ext index) a k v) e
          (get-backfill_self c ext index k p ∙ kept (subst (λ a. Carries index a k v) (sym e) h))

backfill-absent :
    (c j : ℤ) (ext : Externals) (index : Index)
    → lookup j index ≡ none
    → lookup j (backfill_external_ids c ext index) ≡ none
unfolding lookup backfill_external_ids
backfill-absent c j ext [] e = refl
backfill-absent c j ext ((i, old) ∷ index) e = ground (arith, backfill-absent c j ext index)

pub backfill-Distinct :
    (c : ℤ) (ext : Externals) (index : Index)
    → Distinct index
    → Distinct (backfill_external_ids c ext index)
unfolding backfill_external_ids
backfill-Distinct c ext [] d = d
backfill-Distinct c ext ((j, old) ∷ index) d =
    (backfill-absent c j ext index d.0, backfill-Distinct c ext index d.1)

pub backfill-Present :
    (c : ℤ) (ext : Externals) (index : Index)
    → Present index c
    → Present (backfill_external_ids c ext index) c
backfill-Present c ext index (old, e) = (_, lookup-backfill c ext old index e)

-- The backfill of a row that alone has the external ids.
pub backfill-IsUnique :
    (c : ℤ) (ext : Externals) (index : Index)
    → Present index c
    → Settled ext c index
    → IsUnique index
    → IsUnique (backfill_external_ids c ext index)
backfill-IsUnique c ext index p settled u = record {
  rows = backfill-Distinct c ext index u.rows;
  external = λ i j k v hi hj.
      unique i j k v (backfill-Carries c i ext index k v p hi)
        (backfill-Carries c j ext index k v p hj);
}
  where
    unique :
        (i j : ℤ) (k : Column) (v : ℤ)
        → Carries index i k v ⊎ ((i ≡ c) × (ext k ≡ some v))
        → Carries index j k v ⊎ ((j ≡ c) × (ext k ≡ some v))
        → i ≡ j
    unique i j k v (inl a) (inl b) = u.external i j k v a b
    unique i j k v (inl a) (inr (b, e)) = settled i k v e a ∙ sym b
    unique i j k v (inr (a, e)) (inl b) = a ∙ sym (settled j k v e b)
    unique i j k v (inr (a, _)) (inr (b, _)) = a ∙ sym b

pub backfill-Settled :
    (c : ℤ) (ext : Externals) (index : Index)
    → Present index c
    → Settled ext c index
    → Settled ext c (backfill_external_ids c ext index)
backfill-Settled c ext index p settled j k v asked h =
    elim (backfill-Carries c j ext index k v p h) [
      | inl old ↦ settled j k v asked old
      | inr (same, _) ↦ same
    ]
