-- ===== src/Catalog/Index/Merged.antt =====
-- What a merge of two rows and a new row change in the external ids.
use anime_manager.Base.{
  ◌≡◌, refl, ◌⊎◌, inl, inr, ◌∙◌, sym, ap, true, false, none, some, arith, if◌then◌else◌, Bool-cases,
}
use anime_manager.Base.Int.{ℤ}
use anime_manager.Base.Dict.{
  ◌==◌, lookup, insert, remove, lookup-remove, lookup-insert, remove-Distinct, insert-Distinct,
}
use anime_manager.Catalog.Ids.{int_eq, int_beq, int_beq_iff}
use anime_manager.Catalog.Merge.{
  Column, Externals, no_externals, get_external_ids, backfill_external_ids, merge, Database,
}
use anime_manager.Catalog.Index.{Index, Carries, IsUnique, column_eq}
use anime_manager.Catalog.Index.Steps.{
  Present, backfill-Carries, Carries-backfill, backfill-Distinct, backfill-Present,
}

-- UPDATE and DELETE of a merge, on `indexList`.
abbrev pub merged : ℤ → ℤ → Index → Index
merged d c index = remove d (backfill_external_ids c (get_external_ids d index) index)

pub merge-merged :
    (d c : ℤ) (db : Database)
    → int_beq d c ≡ false
    → (merge d c db).index_list ≡ merged d c db.index_list
unfolding merge
merge-merged d c db apart = rw apart refl

lookup-removed :
    (d i : ℤ) (index : Index) → int_beq d i ≡ false → lookup i (remove d index) ≡ lookup i index
lookup-removed d i index other = lookup-remove d i index ∙ rw other refl

none_carries : (k : Column) (v : ℤ) → no_externals none k ≡ some v → ⊥
unfolding no_externals
none_carries k v e = cc

remove-Carries :
    (d i : ℤ) (index : Index) (k : Column) (v : ℤ)
    → Carries (remove d index) i k v
    → (int_beq d i ≡ false) × Carries index i k v
unfolding get_external_ids
remove-Carries d i index k v h = elim (Bool-cases (int_beq d i)) [
  | inl same ↦ absurd (nowhere (lookup-remove d i index ∙ rw same refl))
  | inr other ↦ (other, sym (ap (λ o. no_externals o k) (lookup-removed d i index other)) ∙ h)
]
  where
    nowhere : lookup i (remove d index) ≡ none → ⊥
    nowhere e =
        let e' : no_externals none k ≡ some v = sym (ap (λ o. no_externals o k) e) ∙ h in
        none_carries k v e'

Carries-remove :
    (d i : ℤ) (index : Index) (k : Column) (v : ℤ)
    → int_beq d i ≡ false
    → Carries index i k v
    → Carries (remove d index) i k v
unfolding get_external_ids
Carries-remove d i index k v other h =
    ap (λ o. no_externals o k) (lookup-removed d i index other) ∙ h

-- Where an external id stands after a merge.
pub merged-Carries :
    (d c i : ℤ) (index : Index) (k : Column) (v : ℤ)
    → Present index c
    → Carries (merged d c index) i k v
    → (int_beq d i ≡ false) × (Carries index i k v ⊎ ((i ≡ c) × Carries index d k v))
merged-Carries d c i index k v p h =
    let (other, h') =
      remove-Carries d i (backfill_external_ids c (get_external_ids d index) index) k v h in
    (other, backfill-Carries c i (get_external_ids d index) index k v p h')

-- A merge takes external ids from the duplicate only.
pub Carries-merged :
    (d c i : ℤ) (index : Index) (k : Column) (v : ℤ)
    → Present index c
    → int_beq d i ≡ false
    → Carries index i k v
    → Carries (merged d c index) i k v
Carries-merged d c i index k v p other h =
    Carries-remove d i _ k v other (Carries-backfill c i (get_external_ids d index) index k v p h)

pub merged-Present :
    (d c : ℤ) (index : Index) → int_beq d c ≡ false → Present index c → Present (merged d c index) c
merged-Present d c index apart p =
    let (ext, e) = backfill-Present c (get_external_ids d index) index p in
    (ext, lookup-removed d c _ apart ∙ e)

pub merged-IsUnique :
    (d c : ℤ) (index : Index) → Present index c → IsUnique index → IsUnique (merged d c index)
merged-IsUnique d c index p u = record {
  rows = remove-Distinct d _ (backfill-Distinct c (get_external_ids d index) index u.rows);
  external = λ i j k v hi hj.
      unique i j k v (merged-Carries d c i index k v p hi) (merged-Carries d c j index k v p hj);
}
  where
    gone :
        (i : ℤ) (k : Column) (v : ℤ)
        → int_beq d i ≡ false
        → Carries index i k v
        → Carries index d k v
        → ⊥
    gone i k v other a b = ground (arith, u.external d i k v b a, int_beq_iff d i)

    unique :
        (i j : ℤ) (k : Column) (v : ℤ)
        → (int_beq d i ≡ false) × (Carries index i k v ⊎ ((i ≡ c) × Carries index d k v))
        → (int_beq d j ≡ false) × (Carries index j k v ⊎ ((j ≡ c) × Carries index d k v))
        → i ≡ j
    unique i j k v (_, inl a) (_, inl b) = u.external i j k v a b
    unique i j k v (other, inl a) (_, inr (_, b)) = absurd (gone i k v other a b)
    unique i j k v (_, inr (_, a)) (other, inl b) = absurd (gone j k v other b a)
    unique i j k v (_, inr (a, _)) (_, inr (b, _)) = a ∙ sym b

-- The external ids of a new row.
unfoldable pub only : Column → ℤ → Externals
only key value k = if k == key then some value else none

lookup-new :
    (i j : ℤ) (ext : Externals) (index : Index)
    → int_beq i j ≡ false
    → lookup j (insert i ext index) ≡ lookup j index
lookup-new i j ext index other = lookup-insert i j ext index ∙ rw other refl

lookup-new_self :
    (i j : ℤ) (ext : Externals) (index : Index)
    → int_beq i j ≡ true
    → lookup j (insert i ext index) ≡ some ext
lookup-new_self i j ext index same = lookup-insert i j ext index ∙ rw same refl

pub new_row-Carries :
    (i j : ℤ) (ext : Externals) (index : Index) (k : Column) (v : ℤ)
    → Carries (insert i ext index) j k v
    → Carries index j k v ⊎ ((j ≡ i) × (ext k ≡ some v))
unfolding get_external_ids no_externals
new_row-Carries i j ext index k v h = elim (Bool-cases (int_beq i j)) [
  | inl same ↦ inr (
    sym ((int_beq_iff i j).0 same),
    sym (ap (λ o. no_externals o k) (lookup-new_self i j ext index same)) ∙ h,
  )
  | inr other ↦ inl (sym (ap (λ o. no_externals o k) (lookup-new i j ext index other)) ∙ h)
]

pub new_row-Present : (i : ℤ) (ext : Externals) (index : Index) → Present (insert i ext index) i
new_row-Present i ext index =
    (ext, lookup-insert i i ext index ∙ rw ((int_beq_iff i i).1 refl) refl)

-- A new row whose external ids stand on no other row.
pub new_row-IsUnique :
    (i : ℤ) (ext : Externals) (index : Index)
    → ((j : ℤ) (k : Column) (v : ℤ) → ext k ≡ some v → Carries index j k v → ⊥)
    → IsUnique index
    → IsUnique (insert i ext index)
new_row-IsUnique i ext index free u = record {
  rows = insert-Distinct i ext index u.rows;
  external = λ a b k v ha hb.
      unique a b k v (new_row-Carries i a ext index k v ha) (new_row-Carries i b ext index k v hb);
}
  where
    unique :
        (a b : ℤ) (k : Column) (v : ℤ)
        → Carries index a k v ⊎ ((a ≡ i) × (ext k ≡ some v))
        → Carries index b k v ⊎ ((b ≡ i) × (ext k ≡ some v))
        → a ≡ b
    unique a b k v (inl x) (inl y) = u.external a b k v x y
    unique a b k v (inl x) (inr (_, e)) = absurd (free a k v e x)
    unique a b k v (inr (_, e)) (inl y) = absurd (free b k v e y)
    unique a b k v (inr (x, _)) (inr (y, _)) = x ∙ sym y
