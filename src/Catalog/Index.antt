-- ===== src/Catalog/Index.antt =====
-- adapters/persistence/catalog_repository.py: `CatalogIndexRepository` over the rows of `indexList`, in
-- the order in which a query returns them.
pub mod Steps
pub mod Merged
use anime_manager.Base.{
  ℕ, ◌≡◌, refl, ◌↔◌, ◌⊎◌, inl, inr, ◌∙◌, sym, ap, subst, Bool, true, false, ◌&&◌, not, List, [],
  ◌∷◌, ◌++◌, Option, none, some, arith, if◌then◌else◌, Bool-cases, Option-cases, ◌==◌ as nat_beq,
  ==_iff,
}
use anime_manager.Base.Int.{ℤ}
use anime_manager.Base.Dict.{
  Eq, ◌==◌, Dict, lookup, remove, lookup-remove, Distinct, remove-Distinct,
}
use anime_manager.Catalog.Ids.{int_eq, int_beq, int_beq_iff}
use anime_manager.Catalog.Merge.{
  Column, mal_id, kitsu_id, anilist_id, anidb_id, Externals, first_set, no_externals,
  get_external_ids, backfill_external_ids, lookup-backfill, some_inj,
}

column_number : Column → ℕ
column_number mal_id = 0
column_number kitsu_id = 1
column_number anilist_id = 2
column_number anidb_id = 3

unfoldable pub column_beq : Column → Column → Bool
unfolding column_number
column_beq a b = nat_beq (column_number a) (column_number b)

pub column_beq_iff : (a b : Column) → (column_beq a b ≡ true) ↔ (a ≡ b)
unfolding column_beq
column_beq_iff a b = ground arith

instance abbrev pub column_eq : Eq Column
column_eq = record { beq = column_beq; beq_iff = column_beq_iff }

abbrev pub Index : Type 0
Index = Dict ℤ Externals

unfoldable pub value_is : ℤ → Option ℤ → Bool
value_is v none = false
value_is v (some w) = w == v

-- The first row of SELECT id FROM indexList WHERE {key}=?
unfoldable pub find_by_external : Column → ℤ → Index → Option ℤ
unfolding value_is
find_by_external k v [] = none
find_by_external k v ((i, ext) ∷ index) =
    let later = find_by_external k v index in if value_is v (ext k) then some i else later

-- Row `i` has the external id.
abbrev pub Carries : Index → ℤ → Column → ℤ → Type 0
Carries index i k v = get_external_ids i index k ≡ some v

-- No external id stands on two rows, and no id on two rows.
pub record IsUnique (index : Index) : Type 0 where
  pub rows : Distinct index
  pub external : (i j : ℤ) (k : Column) (v : ℤ) → Carries index i k v → Carries index j k v → i ≡ j

value_is-some : (v : ℤ) (o : Option ℤ) → value_is v o ≡ true → o ≡ some v
unfolding value_is
value_is-some v none h = absurd (cc)
value_is-some v (some w) h = ap some ((int_beq_iff w v).0 h)

value_is-missed : (v : ℤ) (o : Option ℤ) → o ≡ some v → value_is v o ≡ false → ⊥
unfolding value_is
value_is-missed v none e h = cc
value_is-missed v (some w) e h = ground (arith, int_beq_iff w v)

Carries-later :
    (j i : ℤ) (ext : Externals) (index : Index) (k : Column) (v : ℤ)
    → lookup j index ≡ none
    → Carries index i k v
    → Carries ((j, ext) ∷ index) i k v
unfolding get_external_ids lookup no_externals
Carries-later j i ext index k v absent h = elim (Bool-cases (int_beq j i)) [
  | inl same ↦
      absurd (nowhere (subst (λ a. lookup a index ≡ none) ((int_beq_iff j i).0 same) absent))
  | inr other ↦ rw other h
]
  where
    nowhere : lookup i index ≡ none → ⊥
    nowhere e = let e' : none ≡ some v = sym (ap (λ o. no_externals o k) e) ∙ h in cc

Carries-head :
    (j : ℤ) (ext : Externals) (index : Index) (k : Column) (v : ℤ)
    → ext k ≡ some v
    → Carries ((j, ext) ∷ index) j k v
unfolding get_external_ids lookup no_externals
Carries-head j ext index k v h = rw ((int_beq_iff j j).1 refl) h

pub Carries-cons :
    (j i : ℤ) (ext : Externals) (index : Index) (k : Column) (v : ℤ)
    → Carries ((j, ext) ∷ index) i k v
    → ((j ≡ i) × (ext k ≡ some v)) ⊎ Carries index i k v
unfolding get_external_ids lookup no_externals
Carries-cons j i ext index k v h = elim (Bool-cases (int_beq j i)) [
  | inl same ↦ inl (
    (int_beq_iff j i).0 same,
    ap (λ b. no_externals (if b then some ext else lookup i index) k) (sym same) ∙ h,
  )
  | inr other ↦
      inr (ap (λ b. no_externals (if b then some ext else lookup i index) k) (sym other) ∙ h)
]

some_id : {a b : ℤ} → some a ≡ some b → a ≡ b
some_id e = cc

-- A row that a query finds has the external id.
pub find_by_external-Carries :
    (k : Column) (v i : ℤ) (index : Index)
    → Distinct index
    → find_by_external k v index ≡ some i
    → Carries index i k v
unfolding find_by_external
find_by_external-Carries k v i [] d e = absurd (cc)
find_by_external-Carries k v i ((j, ext) ∷ index) d e = elim (Bool-cases (value_is v (ext k))) [
  | inl hit ↦
      subst (λ a. Carries ((j, ext) ∷ index) a k v) (some_id (branch hit))
        (Carries-head j ext index k v (value_is-some v (ext k) hit))
  | inr miss ↦
      Carries-later j i ext index k v d.0 (find_by_external-Carries k v i index d.1 (branch miss))
]
  where
    branch :
        {b : Bool}
        → value_is v (ext k) ≡ b
        → (if b then some j else find_by_external k v index) ≡ some i
    branch h = ap (λ b. if b then some j else find_by_external k v index) (sym h) ∙ e

-- A row that has the external id makes the query find one.
pub find_by_external-finds :
    (k : Column) (v i : ℤ) (index : Index)
    → Carries index i k v
    → find_by_external k v index ≡ none
    → ⊥
unfolding find_by_external
find_by_external-finds k v i [] h e = nowhere h
  where
    nowhere : Carries [] i k v → ⊥
    nowhere h' = unfold get_external_ids lookup no_externals in cc
find_by_external-finds k v i ((j, ext) ∷ index) h e = elim (Bool-cases (value_is v (ext k))) [
  | inl hit ↦ absurd (found (branch hit))
  | inr miss ↦ elim (Carries-cons j i ext index k v h) [
    | inl (_, here) ↦ absurd (missed here miss)
    | inr later ↦ find_by_external-finds k v i index later (branch miss)
  ]
]
  where
    branch :
        {b : Bool}
        → value_is v (ext k) ≡ b
        → (if b then some j else find_by_external k v index) ≡ none
    branch h' = ap (λ b. if b then some j else find_by_external k v index) (sym h') ∙ e

    found : some j ≡ none → ⊥
    found e' = cc

    missed : ext k ≡ some v → value_is v (ext k) ≡ false → ⊥
    missed here miss = value_is-missed v (ext k) here miss

-- In an index without duplicates a query finds the row that has the external id.
pub find_by_external_unique :
    (k : Column) (v i : ℤ) (index : Index)
    → IsUnique index
    → Carries index i k v
    → find_by_external k v index ≡ some i
find_by_external_unique k v i index u h = elim (Option-cases (find_by_external k v index)) [
  | inl none_found ↦ absurd (find_by_external-finds k v i index h none_found)
  | inr (j, e) ↦ e ∙ ap some (u.external j i k v (find_by_external-Carries k v j index u.rows e) h)
]

get-backfill-other :
    (c i : ℤ) (ext : Externals) (index : Index) (k : Column)
    → int_beq c i ≡ false
    → get_external_ids i (backfill_external_ids c ext index) k ≡ get_external_ids i index k
unfolding get_external_ids backfill_external_ids lookup no_externals
get-backfill-other c i ext [] k apart = refl
get-backfill-other c i ext ((j, old) ∷ index) k apart = ground (
  arith,
  get-backfill-other c i ext index k apart,
  int_beq_iff j c,
  int_beq_iff j i,
  int_beq_iff c i,
)
