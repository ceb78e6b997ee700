-- ===== src/Catalog/Tests.antt =====
-- Merges of concrete rows, and the theorems of the catalogue at them.
use anime_manager.Base.{◌≡◌, refl, false, [], ◌∷◌, none, some}
use anime_manager.Base.Int.{pos, negsuc}
use anime_manager.Base.Dict.{lookup}
use anime_manager.Base.Text.{Text, codes, text_eq, text_beq}
use anime_manager.Catalog.Ids.{int_eq, int_beq}
use anime_manager.Catalog.Tables.{
  Table, has, value_is, values_of, delete_id, delete_row, move_row, repoint, repoint_values,
  repoint_value,
}
use anime_manager.Catalog.Merge.{
  mal_id, kitsu_id, anilist_id, anidb_id, Externals, Database, first_set, get_external_ids, merge,
  repoint_torrents_index, relation_eq, Consolidated, merge-Consolidated, merge-index_list,
}

abbrev mal_only : Externals
mal_only mal_id = some (pos 5)
mal_only kitsu_id = none
mal_only anilist_id = none
mal_only anidb_id = none

abbrev kitsu_only : Externals
kitsu_only mal_id = none
kitsu_only kitsu_id = some (pos 9)
kitsu_only anilist_id = none
kitsu_only anidb_id = none

abbrev torrents : Table Text
torrents =
    (pos 1, some (codes "aa")) ∷ (negsuc 6, some (codes "aa")) ∷ (negsuc 6, some (codes "bb")) ∷ []

-- A provisional row -7 that turns out to be the anime 1.
abbrev db : Database
db = record {
  index_list = (pos 1, mal_only) ∷ (negsuc 6, kitsu_only) ∷ [];
  anime = pos 1 ∷ negsuc 6 ∷ [];
  torrents_index = torrents;
  title_synonyms = [];
  genres = [];
  pictures = [];
  broadcasts = [];
  anime_relations = [];
  character_relations = [];
  user_tags = [];
}

apart : int_beq (negsuc 6) (pos 1) ≡ false
unfolding int_beq
apart = refl

merged_torrents :
    (merge (negsuc 6) (pos 1) db).torrents_index
    ≡ (pos 1, some (codes "aa")) ∷ (pos 1, some (codes "bb")) ∷ []
unfolding merge repoint_torrents_index repoint values_of repoint_values repoint_value has value_is
    delete_row move_row delete_id int_beq text_beq
merged_torrents = refl

merge-Consolidated_example :
    Consolidated (negsuc 6) (pos 1) torrents (merge (negsuc 6) (pos 1) db).torrents_index
merge-Consolidated_example = (merge-Consolidated (negsuc 6) (pos 1) db apart).0

known : lookup (pos 1) db.index_list ≡ some mal_only
unfolding lookup int_beq
known = refl

merge-index_list_example :
    (lookup (negsuc 6) (merge (negsuc 6) (pos 1) db).index_list ≡ none)
    × (lookup (pos 1) (merge (negsuc 6) (pos 1) db).index_list
        ≡ some (λ col. first_set (mal_only col) (get_external_ids (negsuc 6) db.index_list col)))
merge-index_list_example = merge-index_list (negsuc 6) (pos 1) db mal_only apart known
