-- ===== src/Catalog/Batch/Tests.antt =====
-- Batches of concrete entries.
use anime_manager.Base.{◌≡◌, refl, Bool, true, false, List, [], ◌∷◌, map, Option, none, some}
use mathlib.Core.Option
use anime_manager.Base.Int.{ℤ, pos}
use anime_manager.Base.Dict.{Dict, lookup, insert, remove, add, member}
use anime_manager.Base.Text.{Text, codes}
use anime_manager.Catalog.Ids.{
  int_eq, int_beq, is_positive, minimum, smallest, preferred_catalog_id,
}
use anime_manager.Catalog.Merge.{
  Column, mal_id, kitsu_id, anilist_id, anidb_id, Externals, Database, first_set, no_externals,
  get_external_ids, backfill_external_ids, merge,
}
use anime_manager.Catalog.Index.{Carries, IsUnique, column_beq, find_by_external}
use anime_manager.Catalog.Index.Merged.{new_row-IsUnique}
use anime_manager.Catalog.Identity.{
  Value, number, resolve_external_ids, ResolvedCatalogEntry, resolve_found, merge_found, merge_all,
  backfill, sorted, add_found,
}
use anime_manager.Catalog.Batch.{
  pair_beq, find_by_external_batch, batch_groups, batch_rows, found_with, remember, concat,
  resolve_all, resolve_with_lookup, resolve_external_ids_batch,
}
use anime_manager.Catalog.Batch.Single.{resolve_external_ids_batch-single}

abbrev mal_row : Externals
mal_row mal_id = some (pos 5)
mal_row kitsu_id = none
mal_row anilist_id = none
mal_row anidb_id = none

abbrev other_row : Externals
other_row mal_id = none
other_row kitsu_id = some (pos 9)
other_row anilist_id = some (pos 4)
other_row anidb_id = none

abbrev db : Database
db = record {
  index_list = (pos 1, mal_row) ∷ (pos 3, other_row) ∷ [];
  anime = pos 1 ∷ pos 3 ∷ [];
  torrents_index = [];
  title_synonyms = [];
  genres = [];
  pictures = [];
  broadcasts = [];
  anime_relations = [];
  character_relations = [];
  user_tags = [];
}

abbrev both_rows : List (Text × Value)
both_rows = (codes "mal_id", number (pos 5)) ∷ (codes "kitsu_id", number (pos 9)) ∷ []

abbrev second_row : List (Text × Value)
second_row = (codes "anilist_id", number (pos 4)) ∷ []

abbrev normalized_rows : List (Dict Column ℤ)
normalized_rows = ((mal_id, pos 5) ∷ (kitsu_id, pos 9) ∷ []) ∷ ((anilist_id, pos 4) ∷ []) ∷ []

abbrev is_known : Option Externals → Bool
is_known none = false
is_known (some ext) = true

abbrev answers : Option (List ResolvedCatalogEntry) → List (ℤ × Bool)
answers none = []
answers (some results) =
    map (λ r. (r.catalog_id, is_known (lookup r.catalog_id r.database.index_list))) results

-- The first entry merges row 3 into row 1. The second is answered from what was looked up before, with the
-- id of the row that is gone.
stale_id :
    answers (
      resolve_all
        (λ _. some (pos 7))
        normalized_rows
        (find_by_external_batch (concat normalized_rows) db.index_list)
        db)
    ≡ (pos 1, true) ∷ (pos 3, false) ∷ []
unfolding resolve_all resolve_with_lookup find_by_external_batch batch_groups batch_rows found_with
    concat remember lookup insert add member column_beq int_beq pair_beq first_set find_by_external
    resolve_found merge_found merge_all backfill sorted preferred_catalog_id smallest minimum
    is_positive merge add_found backfill_external_ids remove
stale_id = refl

nothing_there : (i : ℤ) (k : Column) (v : ℤ) → Carries [] i k v → ⊥
unfolding get_external_ids no_externals lookup
nothing_there i k v h = cc

abbrev one_row : Database
one_row = record db { index_list = insert (pos 1) mal_row [] }

one_row-IsUnique : IsUnique one_row.index_list
one_row-IsUnique =
    new_row-IsUnique (pos 1) mal_row [] (λ j k v e h. nothing_there j k v h)
      (record { rows = tt; external = λ i j k v h _. absurd (nothing_there i k v h) })

resolve_external_ids_batch-single_example :
    resolve_external_ids_batch (λ _. some (pos 7)) (both_rows ∷ []) one_row
    ≡ Option.map (λ r. r ∷ []) (resolve_external_ids (some (pos 7)) both_rows one_row)
resolve_external_ids_batch-single_example =
    resolve_external_ids_batch-single (λ _. some (pos 7)) both_rows one_row one_row-IsUnique
