-- ===== src/Catalog/Batch/Single.antt =====
-- A batch of one entry is the resolution of that entry.
use anime_manager.Base.{
  ◌≡◌, refl, inl, inr, ◌∙◌, sym, ap, subst, List, [], ◌∷◌, Option, none, some, Bool-cases,
}
use mathlib.Core.Option
use anime_manager.Base.Int.{ℤ}
use anime_manager.Base.Dict.{
  Dict, lookup, member, Distinct, Entries, insert-Entries, lookup-Entries,
}
use anime_manager.Base.Text.{Text}
use anime_manager.Catalog.Ids.{int_eq, int_beq, int_beq_iff}
use anime_manager.Catalog.Merge.{
  Column, Externals, Database, first_set, get_external_ids, no_externals,
}
use anime_manager.Catalog.Index.{
  Index, column_eq, Carries, IsUnique, find_by_external, find_by_external_unique,
}
use anime_manager.Catalog.Identity.{
  Value, add_found, found_ids, ResolvedCatalogEntry, resolve_found, resolve_normalized,
  resolve_external_ids, normalize_external_ids,
}
use anime_manager.Catalog.Batch.{
  Pair, Known, pair_eq, grouped, batch_value, batch_rows, batch_groups, find_by_external_batch,
  found_with, resolve_with_lookup, cons_entry, after_entry, resolve_all, resolve_external_ids_batch,
  concat,
}

-- Every answer of the batch is the row that has the external id.
abbrev pub Answers : Index → Known → Type 0
Answers index known = Entries (λ p i. Carries index i p.0 p.1) known

batch_value-Answers :
    (whole : Index) (k : Column) (ids : List ℤ) (i : ℤ) (o : Option ℤ) (out : Known)
    → ((w : ℤ) → o ≡ some w → Carries whole i k w)
    → Answers whole out
    → Answers whole (batch_value k ids i o out)
unfolding batch_value
batch_value-Answers whole k ids i none out h a = a
batch_value-Answers whole k ids i (some w) out h a = elim (Bool-cases (member w ids)) [
  | inl asked ↦ rw asked (insert-Entries (λ p j. Carries whole j p.0 p.1) (k, w) i out (h w refl) a)
  | inr other ↦ rw other a
]

-- Every row of the index is that of its id.
abbrev Rows : Index → Index → Type 0
Rows whole index = Entries (λ i ext. lookup i whole ≡ some ext) index

row-Carries :
    (whole : Index) (i : ℤ) (ext : Externals) (k : Column) (w : ℤ)
    → lookup i whole ≡ some ext
    → ext k ≡ some w
    → Carries whole i k w
unfolding get_external_ids no_externals
row-Carries whole i ext k w e h = ap (λ o. no_externals o k) e ∙ h

batch_rows-Answers :
    (whole : Index) (k : Column) (ids : List ℤ) (index : Index) (out : Known)
    → Rows whole index
    → Answers whole out
    → Answers whole (batch_rows k ids index out)
unfolding batch_rows
batch_rows-Answers whole k ids [] out r a = a
batch_rows-Answers whole k ids ((i, ext) ∷ index) out r a =
    batch_rows-Answers whole k ids index (batch_value k ids i (ext k) out) r.1
      (batch_value-Answers whole k ids i (ext k) out (λ w h. row-Carries whole i ext k w r.0 h) a)

batch_groups-Answers :
    (groups : Dict Column (List ℤ)) (index : Index) (out : Known)
    → Rows index index
    → Answers index out
    → Answers index (batch_groups groups index out)
unfolding batch_groups
batch_groups-Answers [] index out r a = a
batch_groups-Answers ((k, ids) ∷ groups) index out r a =
    batch_groups-Answers groups index (batch_rows k ids index out) r
      (batch_rows-Answers index k ids index out r a)

lookup-later :
    (j i : ℤ) (new ext : Externals) (whole : Index)
    → lookup j whole ≡ none
    → lookup i whole ≡ some ext
    → lookup i ((j, new) ∷ whole) ≡ some ext
unfolding lookup
lookup-later j i new ext whole absent e = elim (Bool-cases (int_beq j i)) [
  | inl same ↦ absurd (clash (subst (λ a. lookup a whole ≡ none) ((int_beq_iff j i).0 same) absent))
  | inr other ↦ rw other e
]
  where
    clash : lookup i whole ≡ none → ⊥
    clash a = cc

Rows-cons :
    (j : ℤ) (new : Externals) (whole index : Index)
    → lookup j whole ≡ none
    → Rows whole index
    → Rows ((j, new) ∷ whole) index
Rows-cons j new whole [] absent r = tt
Rows-cons j new whole ((i, ext) ∷ index) absent r =
    (lookup-later j i new ext whole absent r.0, Rows-cons j new whole index absent r.1)

Distinct-Rows : (index : Index) → Distinct index → Rows index index
Distinct-Rows [] d = tt
Distinct-Rows ((j, ext) ∷ index) d =
    (at_head, Rows-cons j ext index index d.0 (Distinct-Rows index d.1))
  where
    at_head : lookup j ((j, ext) ∷ index) ≡ some ext
    at_head = unfold lookup in rw ((int_beq_iff j j).1 refl) refl

pub find_by_external_batch-Answers :
    (pairs : List Pair) (index : Index)
    → IsUnique index
    → Answers index (find_by_external_batch pairs index)
unfolding find_by_external_batch
find_by_external_batch-Answers pairs index u =
    batch_groups-Answers (grouped pairs []) index [] (Distinct-Rows index u.rows) tt

-- Answers that agree with the table find the rows that the table finds.
found_with-Answers :
    (known : Known) (ids : Dict Column ℤ) (index : Index)
    → IsUnique index
    → Answers index known
    → found_with known ids index ≡ found_ids ids index
unfolding found_with found_ids
found_with-Answers known [] index u a = refl
found_with-Answers known ((k, v) ∷ ids) index u a =
    ap (λ o. add_found o (found_with known ids index)) (agrees (lookup (k, v) known) refl)
    ∙ ap (λ l. add_found (find_by_external k v index) l) (found_with-Answers known ids index u a)
  where
    agrees :
        (o : Option ℤ)
        → lookup (k, v) known ≡ o
        → first_set o (find_by_external k v index) ≡ find_by_external k v index
    agrees none e = unfold first_set in refl
    agrees (some i) e =
        unfold first_set in
        sym (
          find_by_external_unique k v i index u
            (lookup-Entries (λ p j. Carries index j p.0 p.1) (k, v) i known a e))

single :
    (fresh : Option ℤ) (ids : Dict Column ℤ) (known : Known) (db : Database)
    → IsUnique db.index_list
    → Answers db.index_list known
    → resolve_with_lookup fresh known ids db ≡ resolve_normalized fresh ids db
unfolding resolve_with_lookup resolve_normalized
single fresh [] known db u a = refl
single fresh (e ∷ ids) known db u a =
    ap (λ found. resolve_found fresh found (e ∷ ids) db)
      (found_with-Answers known (e ∷ ids) db.index_list u a)

alone :
    (rest : ResolvedCatalogEntry → Option (List ResolvedCatalogEntry))
    (o : Option ResolvedCatalogEntry)
    → ((r : ResolvedCatalogEntry) → rest r ≡ some [])
    → after_entry rest o ≡ Option.map (λ r. r ∷ []) o
unfolding after_entry cons_entry
alone rest none h = refl
alone rest (some r) h = ap (λ o. cons_entry r o) (h r)

-- In an index where no external id stands on two rows, a batch of one entry does what the resolution of
-- that entry alone does, errors included.
pub resolve_external_ids_batch-single :
    (next_id : Database → Option ℤ) (external_ids : List (Text × Value)) (db : Database)
    → IsUnique db.index_list
    → resolve_external_ids_batch next_id (external_ids ∷ []) db
      ≡ Option.map (λ r. r ∷ []) (resolve_external_ids (next_id db) external_ids db)
unfolding resolve_external_ids_batch resolve_external_ids resolve_all
resolve_external_ids_batch-single next_id external_ids db u =
    let ids = normalize_external_ids external_ids in
    let known = find_by_external_batch (concat (ids ∷ [])) db.index_list in
    alone _ (resolve_with_lookup (next_id db) known ids db) (λ r. refl)
    ∙ ap (λ o. Option.map (λ r. r ∷ []) o)
        (single (next_id db) ids known db u
          (find_by_external_batch-Answers (concat (ids ∷ [])) db.index_list u))
