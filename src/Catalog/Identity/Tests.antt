-- ===== src/Catalog/Identity/Tests.antt =====
-- A provider's ids that stand on two rows, and the theorems of the identity service at them.
use anime_manager.Base.{◌⊎◌, ◌≡◌, refl, ◌↔◌, inl, inr, List, [], ◌∷◌, none, some}
use anime_manager.Base.Int.{ℤ, pos, negsuc}
use anime_manager.Base.Dict.{lookup, insert}
use anime_manager.Base.Text.{Text, codes, text_beq, parse_int}
use anime_manager.Catalog.Ids.{int_eq}
use anime_manager.Catalog.Merge.{
  Column, mal_id, kitsu_id, anilist_id, anidb_id, Externals, Database, no_externals,
  get_external_ids,
}
use anime_manager.Catalog.Index.{Index, Carries, Carries-cons, IsUnique, column_beq}
use anime_manager.Catalog.Index.Merged.{new_row-IsUnique, new_row-Present}
use anime_manager.Catalog.Identity.{
  found_ids, Value, number, text, opaque_value, missing, asked, entry, normalize_external_ids,
  resolve_external_ids, ResolvedCatalogEntry, link, normalize_onto, column_of, put_external, to_int,
  primary_key, first_present,
}
use anime_manager.Catalog.Identity.Resolved.{
  Resolves, resolve_external_ids-IsResolved, resolve_external_ids-none,
}
use anime_manager.Catalog.Identity.Again.{resolve_external_ids-again}
use anime_manager.Catalog.Identity.Linked.{IsLinked, link-IsLinked}

abbrev mal_row : Externals
mal_row mal_id = some (pos 5)
mal_row kitsu_id = none
mal_row anilist_id = none
mal_row anidb_id = none

abbrev kitsu_row : Externals
kitsu_row mal_id = none
kitsu_row kitsu_id = some (pos 9)
kitsu_row anilist_id = none
kitsu_row anidb_id = none

abbrev provider_ids : List (Text × Value)
provider_ids =
    (codes "mal_id", number (pos 5))
    ∷ (codes "imdb", text (codes "tt1"))
    ∷ (codes "kitsu_id", text (codes " 9"))
    ∷ (codes "anidb_id", missing)
    ∷ []

unusable_ids : normalize_external_ids ((codes "mal_id", opaque_value) ∷ []) ≡ []
unfolding normalize_external_ids normalize_onto put_external column_of to_int text_beq
unusable_ids = refl

normalized : normalize_external_ids provider_ids ≡ (mal_id, pos 5) ∷ (kitsu_id, pos 9) ∷ []
unfolding normalize_external_ids normalize_onto put_external column_of to_int text_beq parse_int
    insert column_beq
normalized = refl

-- A new row for a dictionary of ids in another order: the keys are compared as texts.
smallest_key : primary_key ((mal_id, pos 5) ∷ (anilist_id, pos 3) ∷ []) ≡ some (anilist_id, pos 3)
unfolding primary_key first_present lookup column_beq
smallest_key = refl

abbrev index : Index
index = insert (negsuc 6) kitsu_row (insert (pos 1) mal_row [])

nothing_there : (i : ℤ) (k : Column) (v : ℤ) → Carries [] i k v → ⊥
unfolding get_external_ids no_externals lookup
nothing_there i k v h = cc

empty-IsUnique : IsUnique []
empty-IsUnique = record { rows = tt; external = λ i j k v h _. absurd (nothing_there i k v h) }

apart : (k : Column) (v w : ℤ) → kitsu_row k ≡ some v → mal_row k ≡ some w → ⊥
apart mal_id v w a b = cc
apart kitsu_id v w a b = cc
apart anilist_id v w a b = cc
apart anidb_id v w a b = cc

mal_row-there :
    (j : ℤ) (k : Column) (v : ℤ) → Carries (insert (pos 1) mal_row []) j k v → mal_row k ≡ some v
unfolding insert
mal_row-there j k v h = elim (Carries-cons (pos 1) j mal_row [] k v h) [
  | inl (_, e) ↦ e
  | inr h' ↦ absurd (nothing_there j k v h')
]

index-IsUnique : IsUnique index
index-IsUnique =
    new_row-IsUnique (negsuc 6) kitsu_row (insert (pos 1) mal_row [])
      (λ j k v e h. apart k v v e (mal_row-there j k v h))
      (new_row-IsUnique (pos 1) mal_row [] (λ j k v e h. nothing_there j k v h) empty-IsUnique)

abbrev db : Database
db = record {
  index_list = index;
  anime = pos 1 ∷ negsuc 6 ∷ [];
  torrents_index = [];
  title_synonyms = [];
  genres = [];
  pictures = [];
  broadcasts = [];
  anime_relations = [];
  character_relations = [];
  user_tags = [];
}

usable : normalize_external_ids provider_ids ≡ [] → ⊥
unfolding normalize_external_ids normalize_onto put_external column_of to_int text_beq parse_int
    insert column_beq
usable e = cc

resolve_external_ids-IsResolved_example :
    Resolves
      (normalize_external_ids provider_ids)
      (resolve_external_ids (some (pos 2)) provider_ids db)
resolve_external_ids-IsResolved_example =
    resolve_external_ids-IsResolved (pos 2) provider_ids db usable index-IsUnique

resolve_external_ids-none_example :
    (resolve_external_ids (some (pos 2)) ((codes "mal_id", opaque_value) ∷ []) db ≡ none)
    ↔ (normalize_external_ids ((codes "mal_id", opaque_value) ∷ []) ≡ [])
      ⊎ ((found_ids (normalize_external_ids ((codes "mal_id", opaque_value) ∷ [])) db.index_list
            ≡ [])
          × (some (pos 2) ≡ none))
resolve_external_ids-none_example =
    resolve_external_ids-none (some (pos 2)) ((codes "mal_id", opaque_value) ∷ []) db index-IsUnique

-- The two rows become one.
abbrev resolved : ResolvedCatalogEntry
resolved = resolution.0
  where
    resolution :
        Resolves
          (normalize_external_ids provider_ids)
          (resolve_external_ids (some (pos 2)) provider_ids db)
    resolution = resolve_external_ids-IsResolved (pos 2) provider_ids db usable index-IsUnique

resolves : resolve_external_ids (some (pos 2)) provider_ids db ≡ some resolved
resolves = (resolve_external_ids-IsResolved (pos 2) provider_ids db usable index-IsUnique).2

resolve_external_ids-again_example :
    resolve_external_ids (some (pos 3)) provider_ids resolved.database
    ≡ some (entry resolved.catalog_id [] resolved.database)
resolve_external_ids-again_example =
    resolve_external_ids-again (some (pos 2)) (some (pos 3)) provider_ids db resolved index-IsUnique
      resolves

link-IsLinked_example :
    IsLinked
      (asked (normalize_external_ids provider_ids))
      (link (negsuc 6) provider_ids db).0
      (link (negsuc 6) provider_ids db).1.index_list
link-IsLinked_example =
    link-IsLinked (negsuc 6) provider_ids db
      (new_row-Present (negsuc 6) kitsu_row (insert (pos 1) mal_row [])) index-IsUnique
