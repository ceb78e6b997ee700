-- ===== src/Catalog/Identity.antt =====
-- application/services/catalog_identity.py: the one internal id of the external ids of a provider. A
-- value that a provider gives is None, an integer, a text, or anything else that int() refuses. The id
-- that the database gives to a new row of `indexList` is an argument, `none` where it gives none.
pub mod Found
pub mod Merges
pub mod Created
pub mod Resolved
pub mod Again
pub mod Linked
mod Tests
use anime_manager.Base.{
  ℕ, Bool, true, false, not, List, [], ◌∷◌, Option, none, some, if◌then◌else◌, keep,
}
use anime_manager.Base.Int.{ℤ, ltb_ℤ}
use anime_manager.Base.Dict.{Dict, lookup, insert, add, ◌==◌}
use anime_manager.Base.Text.{Text, codes, text_eq, parse_int}
use anime_manager.Catalog.Ids.{int_eq, preferred_catalog_id}
use anime_manager.Catalog.Merge.{
  Column, mal_id, kitsu_id, anilist_id, anidb_id, Externals, Database, first_set,
  backfill_external_ids, merge,
}
use anime_manager.Catalog.Index.{Index, column_eq, find_by_external}
use anime_manager.Catalog.Index.Merged.{only}

pub data Value : Type 0 where
  missing : Value
  number : ℤ → Value
  text : Text → Value
  opaque_value : Value

to_int : Value → Option ℤ
to_int missing = none
to_int (number n) = some n
to_int (text t) = parse_int t
to_int opaque_value = none

-- key in INDEX_PROVIDER_KEYS
column_of : Text → Option Column
column_of key =
    if key == codes "mal_id"
    then some mal_id
    else if key == codes "kitsu_id"
    then some kitsu_id
    else if key == codes "anilist_id"
    then some anilist_id
    else if key == codes "anidb_id"
    then some anidb_id
    else none

put_external : Option Column → Option ℤ → Dict Column ℤ → Dict Column ℤ
put_external none value out = out
put_external (some key) none out = out
put_external (some key) (some value) out = insert key value out

normalize_onto : Dict Column ℤ → List (Text × Value) → Dict Column ℤ
unfolding put_external column_of to_int
normalize_onto out [] = out
normalize_onto out ((key, value) ∷ rest) =
    normalize_onto (put_external (column_of key) (to_int value) out) rest

unfoldable pub normalize_external_ids : List (Text × Value) → Dict Column ℤ
unfolding normalize_onto
normalize_external_ids external_ids = normalize_onto [] external_ids

abbrev pub asked : Dict Column ℤ → Externals
asked ids k = lookup k ids

unfoldable pub add_found : Option ℤ → List ℤ → List ℤ
add_found none found = found
add_found (some i) found = add i found

-- The set of the rows that have some of the external ids.
unfoldable pub found_ids : Dict Column ℤ → Index → List ℤ
unfolding add_found
found_ids [] index = []
found_ids ((k, v) ∷ ids) index = add_found (find_by_external k v index) (found_ids ids index)

insert_sorted : ℤ → List ℤ → List ℤ
insert_sorted i [] = i ∷ []
insert_sorted i (j ∷ ids) = if ltb_ℤ j i then j ∷ insert_sorted i ids else i ∷ j ∷ ids

unfoldable pub sorted : List ℤ → List ℤ
unfolding insert_sorted
sorted [] = []
sorted (i ∷ ids) = insert_sorted i (sorted ids)

-- The merges of the duplicates; the merge of an id with itself does nothing.
unfoldable pub merge_all : List ℤ → ℤ → Database → Database
merge_all [] canonical db = db
merge_all (duplicate ∷ rest) canonical db = merge_all rest canonical (merge duplicate canonical db)

unfoldable pub backfill : ℤ → Dict Column ℤ → Database → Database
backfill canonical ids db = record db {
  index_list = backfill_external_ids canonical (asked ids) db.index_list;
}

pub record ResolvedCatalogEntry : Type 0 where
  pub catalog_id : ℤ
  pub merged_from : List ℤ
  pub database : Database

-- The first row that one of the external ids already has.
unfoldable pub existing_row : Dict Column ℤ → Index → Option ℤ
existing_row [] index = none
existing_row ((k, v) ∷ ids) index = first_set (find_by_external k v index) (existing_row ids index)

unfoldable pub first_present : Column → Option ℤ → Option (Column × ℤ) → Option (Column × ℤ)
first_present k none later = later
first_present k (some v) later = some (k, v)

-- sorted(normalized.keys())[0]
unfoldable pub primary_key : Dict Column ℤ → Option (Column × ℤ)
primary_key ids = first_present anidb_id (lookup anidb_id ids) (
    first_present anilist_id (lookup anilist_id ids) (
      first_present kitsu_id (lookup kitsu_id ids) (first_present mal_id (lookup mal_id ids) none)))

-- `none` stands for the RuntimeError of a database that gives no row.
unfoldable pub insert_row : Option ℤ → Option (Column × ℤ) → Database → Option (ℤ × Database)
insert_row none key db = none
insert_row (some fresh) none db = none
insert_row (some fresh) (some (k, v)) db =
    some (fresh, record db { index_list = insert fresh (only k v) db.index_list })

unfoldable pub entry : ℤ → List ℤ → Database → ResolvedCatalogEntry
entry i duplicates db = record { catalog_id = i; merged_from = duplicates; database = db }

unfoldable pub created_row : Dict Column ℤ → Option (ℤ × Database) → Option ResolvedCatalogEntry
unfolding entry
created_row ids none = none
created_row ids (some (i, db)) = some (entry i [] (backfill i ids db))

unfoldable pub allocate_row :
    Option ℤ → Dict Column ℤ → Option ℤ → Database → Option ResolvedCatalogEntry
unfolding entry
allocate_row fresh ids (some i) db = some (entry i [] (backfill i ids db))
allocate_row fresh ids none db = created_row ids (insert_row fresh (primary_key ids) db)

-- `none` stands for the ValueError of a call without external ids, and the RuntimeError of `insert_row`.
unfoldable pub allocate : Option ℤ → Dict Column ℤ → Database → Option ResolvedCatalogEntry
allocate fresh ids db = allocate_row fresh ids (existing_row ids db.index_list) db

unfoldable pub merge_found :
    Option ℤ → List ℤ → Dict Column ℤ → Database → Option ResolvedCatalogEntry
unfolding entry
merge_found none found ids db = none
merge_found (some canonical) found ids db = some (
    entry canonical (keep (λ i. not (i == canonical)) (sorted found))
      (backfill canonical ids (merge_all (sorted found) canonical db)))

unfoldable pub resolve_found :
    Option ℤ → List ℤ → Dict Column ℤ → Database → Option ResolvedCatalogEntry
unfolding entry
resolve_found fresh [] ids db = allocate fresh ids db
resolve_found fresh (i ∷ []) ids db = some (entry i [] (backfill i ids db))
resolve_found fresh (i ∷ j ∷ found) ids db =
    merge_found (preferred_catalog_id (i ∷ j ∷ found)) (i ∷ j ∷ found) ids db

unfoldable pub resolve_normalized :
    Option ℤ → Dict Column ℤ → Database → Option ResolvedCatalogEntry
resolve_normalized fresh [] db = none
resolve_normalized fresh (e ∷ ids) db =
    resolve_found fresh (found_ids (e ∷ ids) db.index_list) (e ∷ ids) db

unfoldable pub resolve_external_ids :
    Option ℤ → List (Text × Value) → Database → Option ResolvedCatalogEntry
resolve_external_ids fresh external_ids db =
    resolve_normalized fresh (normalize_external_ids external_ids) db

-- The loop of `link`: the id so far, and the database.
unfoldable pub link_existing : Option ℤ → ℤ → Database → ℤ × Database
link_existing none canonical db = (canonical, db)
link_existing (some existing) canonical db =
    if existing == canonical then (canonical, db) else (existing, merge canonical existing db)

unfoldable pub link_keys : Dict Column ℤ → ℤ → Database → ℤ × Database
unfolding link_existing
link_keys [] canonical db = (canonical, db)
link_keys ((k, v) ∷ ids) canonical db =
    let (c, db') = link_existing (find_by_external k v db.index_list) canonical db in
    link_keys ids c db'

unfoldable pub link_normalized : Dict Column ℤ → ℤ → Database → ℤ × Database
link_normalized [] internal_id db = (internal_id, db)
link_normalized (e ∷ ids) internal_id db =
    let (c, db') = link_keys (e ∷ ids) internal_id db in (c, backfill c (e ∷ ids) db')

unfoldable pub link : ℤ → List (Text × Value) → Database → ℤ × Database
link internal_id external_ids db =
    link_normalized (normalize_external_ids external_ids) internal_id db
