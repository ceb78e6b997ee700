-- ===== src/Catalog/Batch.antt =====
-- application/services/catalog_identity.py and adapters/persistence/catalog_repository.py: the resolution
-- of many entries, which looks all external ids up beforehand. The id of a new row is a function of the
-- tables.
pub mod Single
mod Tests
use anime_manager.Base.{
  ℕ, ◌≡◌, ◌↔◌, Bool, true, false, ◌&&◌, List, [], ◌∷◌, ◌++◌, map, Option, none, some, arith,
  if◌then◌else◌,
}
use anime_manager.Base.Int.{ℤ}
use anime_manager.Base.Dict.{Eq, ◌==◌, Dict, lookup, insert, member}
use anime_manager.Base.Text.{Text}
use anime_manager.Catalog.Ids.{int_eq, int_beq_iff}
use anime_manager.Catalog.Merge.{Column, Externals, Database, first_set}
use anime_manager.Catalog.Index.{Index, column_eq, column_beq_iff, find_by_external}
use anime_manager.Catalog.Identity.{
  Value, add_found, ResolvedCatalogEntry, resolve_found, normalize_external_ids,
}

abbrev pub Pair : Type 0
Pair = Column × ℤ

unfoldable pub pair_beq : Pair → Pair → Bool
pair_beq (k, v) (k', v') = k == k' && v == v'

pub pair_beq_iff : (a b : Pair) → (pair_beq a b ≡ true) ↔ (a ≡ b)
unfolding pair_beq
pair_beq_iff (k, v) (k', v') = ground (arith, column_beq_iff k k', int_beq_iff v v')

instance abbrev pub pair_eq : Eq Pair
pair_eq = record { beq = pair_beq; beq_iff = pair_beq_iff }

abbrev pub Known : Type 0
Known = Dict Pair ℤ

unfoldable pub with_default : Option (List ℤ) → List ℤ
with_default none = []
with_default (some l) = l

-- grouped.setdefault(key, []).append(external_id)
unfoldable pub grouped : List Pair → Dict Column (List ℤ) → Dict Column (List ℤ)
unfolding with_default
grouped [] groups = groups
grouped ((k, v) ∷ pairs) groups =
    grouped pairs (insert k (with_default (lookup k groups) ++ v ∷ []) groups)

unfoldable pub batch_value : Column → List ℤ → ℤ → Option ℤ → Known → Known
batch_value k ids i none out = out
batch_value k ids i (some w) out = if member w ids then insert (k, w) i out else out

-- SELECT {key}, id FROM indexList WHERE {key} IN (...)
unfoldable pub batch_rows : Column → List ℤ → Index → Known → Known
unfolding batch_value
batch_rows k ids [] out = out
batch_rows k ids ((i, ext) ∷ index) out = batch_rows k ids index (batch_value k ids i (ext k) out)

unfoldable pub batch_groups : Dict Column (List ℤ) → Index → Known → Known
batch_groups [] index out = out
batch_groups ((k, ids) ∷ groups) index out = batch_groups groups index (batch_rows k ids index out)

unfoldable pub find_by_external_batch : List Pair → Index → Known
unfolding grouped
find_by_external_batch pairs index = batch_groups (grouped pairs []) index []

-- The set of the rows, looked up in the answers of the batch and then in the table.
unfoldable pub found_with : Known → Dict Column ℤ → Index → List ℤ
found_with known [] index = []
found_with known ((k, v) ∷ ids) index =
    add_found (first_set (lookup (k, v) known) (find_by_external k v index))
      (found_with known ids index)

unfoldable pub resolve_with_lookup :
    Option ℤ → Known → Dict Column ℤ → Database → Option ResolvedCatalogEntry
resolve_with_lookup fresh known [] db = none
resolve_with_lookup fresh known (e ∷ ids) db =
    resolve_found fresh (found_with known (e ∷ ids) db.index_list) (e ∷ ids) db

-- lookup[(key, int(ext))] = entry.catalog_id
unfoldable pub remember : ℤ → Dict Column ℤ → Known → Known
remember i [] known = known
remember i ((k, v) ∷ ids) known = remember i ids (insert (k, v) i known)

unfoldable pub concat : List (Dict Column ℤ) → List Pair
concat [] = []
concat (ids ∷ rest) = ids ++ concat rest

unfoldable pub cons_entry :
    ResolvedCatalogEntry → Option (List ResolvedCatalogEntry) → Option (List ResolvedCatalogEntry)
cons_entry r none = none
cons_entry r (some results) = some (r ∷ results)

unfoldable pub after_entry :
    (ResolvedCatalogEntry → Option (List ResolvedCatalogEntry))
    → Option ResolvedCatalogEntry
    → Option (List ResolvedCatalogEntry)
unfolding cons_entry
after_entry rest none = none
after_entry rest (some r) = cons_entry r (rest r)

unfoldable pub resolve_all :
    (Database → Option ℤ)
    → List (Dict Column ℤ)
    → Known
    → Database
    → Option (List ResolvedCatalogEntry)
unfolding after_entry
resolve_all next_id [] known db = some []
resolve_all next_id (ids ∷ rest) known db =
    after_entry (λ r. resolve_all next_id rest (remember r.catalog_id ids known) r.database)
      (resolve_with_lookup (next_id db) known ids db)

unfoldable pub resolve_external_ids_batch :
    (Database → Option ℤ)
    → List (List (Text × Value))
    → Database
    → Option (List ResolvedCatalogEntry)
unfolding concat
resolve_external_ids_batch next_id entries db =
    let normalized_list = map normalize_external_ids entries in
    resolve_all next_id normalized_list
      (find_by_external_batch (concat normalized_list) db.index_list) db
