-- ===== src/Catalog/Merge.antt =====
-- adapters/persistence/catalog_repository.py: `CatalogMergeRepository.merge` over the tables of the
-- catalogue. The statements run in one transaction and none of them fails. The key of `indexList` is its
-- id. Rows of `animeRelations` carry the type and the related id.
use anime_manager.Base.{
  ◌≡◌, refl, ◌↔◌, Bool, true, false, ◌&&◌, not, List, [], ◌∷◌, Option, none, some, arith,
  if◌then◌else◌, any, keep, Bool-cases, inl, inr, ◌∙◌, sym, ap,
}
use anime_manager.Base.Int.{ℤ}
use anime_manager.Base.Dict.{Eq, ◌==◌, Dict, lookup, remove, lookup-remove}
use anime_manager.Base.Text.{Text, text_eq, text_beq_iff}
use anime_manager.Catalog.Ids.{int_eq, int_beq, int_beq_iff}
use anime_manager.Catalog.Tables.{
  Table, value_is, has, delete_row, move_row, values_of, repoint_value, repoint_values, delete_id,
  repoint, has-delete_id,
}
use anime_manager.Catalog.Repoint.{taken_over, has-repoint}

-- _INDEX_COLUMNS
pub data Column : Type 0 where
  mal_id : Column
  kitsu_id : Column
  anilist_id : Column
  anidb_id : Column

abbrev pub Externals : Type 0
Externals = Column → Option ℤ

abbrev pub Relation : Type 0
Relation = Text × ℤ

abbrev pub relation_beq : Relation → Relation → Bool
relation_beq (t, r) (u, s) = t == u && r == s

pub relation_beq_iff : (a b : Relation) → (relation_beq a b ≡ true) ↔ (a ≡ b)
relation_beq_iff (t, r) (u, s) = ground (arith, text_beq_iff t u, int_beq_iff r s)

instance abbrev pub relation_eq : Eq Relation
relation_eq = record { beq = relation_beq; beq_iff = relation_beq_iff }

pub record Picture : Type 0 where
  pub size : Option Text
  pub url : Option Text
  pub width : Option ℤ
  pub height : Option ℤ

pub record Database : Type 0 where
  pub index_list : Dict ℤ Externals
  pub anime : List ℤ
  pub torrents_index : Table Text
  pub title_synonyms : Table Text
  pub genres : Table Text
  pub pictures : List (ℤ × Picture)
  pub broadcasts : Table Text
  pub anime_relations : Table Relation
  pub character_relations : Table Text
  pub user_tags : Table Text

unfoldable pub first_set : Option ℤ → Option ℤ → Option ℤ
first_set none new = new
first_set (some old) new = some old

unfoldable pub no_externals : Option Externals → Externals
no_externals none col = none
no_externals (some ext) col = ext col

unfoldable pub get_external_ids : ℤ → Dict ℤ Externals → Externals
unfolding no_externals
get_external_ids i index = no_externals (lookup i index)

-- UPDATE indexList SET {key}=? WHERE id=? AND {key} IS NULL, for every key
unfoldable pub backfill_external_ids : ℤ → Externals → Dict ℤ Externals → Dict ℤ Externals
unfolding first_set
backfill_external_ids i ext [] = []
backfill_external_ids i ext ((j, old) ∷ index) =
    (j, if j == i then (λ col. first_set (old col) (ext col)) else old)
    ∷ backfill_external_ids i ext index

-- SELECT EXISTS(SELECT 1 FROM table WHERE id=?)
unfoldable pub has_id : {V : Type 0} → ℤ → Table V → Bool
has_id i rows = any (λ r. r.0 == i) rows

-- UPDATE table SET id=? WHERE id=?
unfoldable pub move_id : {V : Type 0} → ℤ → ℤ → Table V → Table V
move_id d c [] = []
move_id d c ((j, w) ∷ rows) = (if j == d then c else j, w) ∷ move_id d c rows

unfoldable pub repoint_broadcasts : ℤ → ℤ → Table Text → Table Text
repoint_broadcasts d c rows =
    if not (has_id d rows)
    then rows
    else if has_id c rows
    then delete_id d rows
    else move_id d c rows

unfoldable pub repoint_torrents_index : ℤ → ℤ → Table Text → Table Text
repoint_torrents_index d c rows = repoint d c rows

unfoldable pub repoint_id_value_rows : ℤ → ℤ → Table Text → Table Text
repoint_id_value_rows d c rows = repoint d c rows

-- The columns `id` and `size` of the pictures.
unfoldable pub sizes : List (ℤ × Picture) → Table Text
sizes [] = []
sizes ((j, p) ∷ rows) = (j, p.size) ∷ sizes rows

-- DELETE FROM pictures WHERE id=? AND size=?
unfoldable pub delete_picture : ℤ → Text → List (ℤ × Picture) → List (ℤ × Picture)
unfolding value_is
delete_picture d v [] = []
delete_picture d v ((j, p) ∷ rows) =
    let rest = delete_picture d v rows in
    if j == d && value_is v p.size then rest else (j, p) ∷ rest

-- UPDATE pictures SET id=? WHERE id=? AND size=?
unfoldable pub move_picture : ℤ → ℤ → Text → List (ℤ × Picture) → List (ℤ × Picture)
unfolding value_is
move_picture d c v [] = []
move_picture d c v ((j, p) ∷ rows) =
    (if j == d && value_is v p.size then c else j, p) ∷ move_picture d c v rows

-- DELETE FROM pictures WHERE id=?
unfoldable pub delete_pictures : ℤ → List (ℤ × Picture) → List (ℤ × Picture)
delete_pictures d [] = []
delete_pictures d ((j, p) ∷ rows) =
    let rest = delete_pictures d rows in if j == d then rest else (j, p) ∷ rest

-- A picture of the duplicate is dropped, whatever its url, where the canonical id has one of its size.
unfoldable pub repoint_picture : ℤ → ℤ → Text → List (ℤ × Picture) → List (ℤ × Picture)
unfolding delete_picture move_picture
repoint_picture d c v rows =
    if has c v (sizes rows) then delete_picture d v rows else move_picture d c v rows

unfoldable pub repoint_sizes : ℤ → ℤ → List Text → List (ℤ × Picture) → List (ℤ × Picture)
unfolding repoint_picture
repoint_sizes d c [] rows = rows
repoint_sizes d c (v ∷ vs) rows = repoint_sizes d c vs (repoint_picture d c v rows)

unfoldable pub repoint_pictures : ℤ → ℤ → List (ℤ × Picture) → List (ℤ × Picture)
unfolding repoint_sizes sizes
repoint_pictures d c rows = repoint_sizes d c (values_of d (sizes rows)) rows

unfoldable pub repoint_anime_relations : ℤ → ℤ → Table Relation → Table Relation
repoint_anime_relations d c rows = repoint d c rows

unfoldable pub merge : ℤ → ℤ → Database → Database
unfolding repoint_torrents_index repoint_id_value_rows repoint_pictures delete_pictures
    repoint_anime_relations
merge d c db = if d == c then db else record {
  index_list = remove d (backfill_external_ids c (get_external_ids d db.index_list) db.index_list);
  anime = keep (λ i. not (i == d)) db.anime;
  torrents_index = delete_id d (repoint_torrents_index d c db.torrents_index);
  title_synonyms = delete_id d (repoint_id_value_rows d c db.title_synonyms);
  genres = delete_id d (repoint_id_value_rows d c db.genres);
  pictures = delete_pictures d (repoint_pictures d c db.pictures);
  broadcasts = delete_id d (repoint_broadcasts d c db.broadcasts);
  anime_relations = delete_id d (repoint_anime_relations d c db.anime_relations);
  character_relations = delete_id d (move_id d c db.character_relations);
  user_tags = move_id d c db.user_tags;
}

-- The canonical id has its own values and those of the duplicate, the duplicate has none, and every
-- other id has what it had.
abbrev pub Consolidated : {V : Type 0} ⦃e : Eq V⦄ → ℤ → ℤ → Table V → Table V → Type 0
Consolidated {V} d c before after = (i : ℤ) (w : V) → has i w after ≡ taken_over d c i w before

repoint-Consolidated :
    {V : Type 0} ⦃e : Eq V⦄ (d c : ℤ) (rows : Table V)
    → (d == c) ≡ false
    → Consolidated d c rows (delete_id d (repoint d c rows))
unfolding taken_over
repoint-Consolidated d c rows apart i w = ground (
  arith,
  has-delete_id d i w (repoint d c rows),
  has-repoint d c i w rows apart,
  int_beq_iff d i,
  int_beq_iff i d,
  int_beq_iff i c,
  int_beq_iff d c,
)

sizes-delete_picture :
    (d : ℤ) (v : Text) (rows : List (ℤ × Picture))
    → sizes (delete_picture d v rows) ≡ delete_row d v (sizes rows)
unfolding sizes delete_picture delete_row
sizes-delete_picture d v [] = refl
sizes-delete_picture d v ((j, p) ∷ rows) = elim (Bool-cases (int_beq j d && value_is v p.size)) [
  | inl hit ↦ rw hit (sizes-delete_picture d v rows)
  | inr miss ↦ rw miss (ap (λ l. (j, p.size) ∷ l) (sizes-delete_picture d v rows))
]

sizes-move_picture :
    (d c : ℤ) (v : Text) (rows : List (ℤ × Picture))
    → sizes (move_picture d c v rows) ≡ move_row d c v (sizes rows)
unfolding sizes move_picture move_row
sizes-move_picture d c v [] = refl
sizes-move_picture d c v ((j, p) ∷ rows) =
    ap (λ l. (if j == d && value_is v p.size then c else j, p.size) ∷ l)
      (sizes-move_picture d c v rows)

sizes-delete_pictures :
    (d : ℤ) (rows : List (ℤ × Picture)) → sizes (delete_pictures d rows) ≡ delete_id d (sizes rows)
unfolding sizes delete_pictures delete_id
sizes-delete_pictures d [] = refl
sizes-delete_pictures d ((j, p) ∷ rows) = elim (Bool-cases (int_beq j d)) [
  | inl hit ↦ rw hit (sizes-delete_pictures d rows)
  | inr miss ↦ rw miss (ap (λ l. (j, p.size) ∷ l) (sizes-delete_pictures d rows))
]

sizes-repoint_picture :
    (d c : ℤ) (v : Text) (rows : List (ℤ × Picture))
    → sizes (repoint_picture d c v rows) ≡ repoint_value d c v (sizes rows)
unfolding repoint_picture repoint_value
sizes-repoint_picture d c v rows = elim (Bool-cases (has c v (sizes rows))) [
  | inl there ↦ rw there (sizes-delete_picture d v rows)
  | inr absent ↦ rw absent (sizes-move_picture d c v rows)
]

sizes-repoint_sizes :
    (d c : ℤ) (vs : List Text) (rows : List (ℤ × Picture))
    → sizes (repoint_sizes d c vs rows) ≡ repoint_values d c vs (sizes rows)
unfolding repoint_sizes repoint_values
sizes-repoint_sizes d c [] rows = refl
sizes-repoint_sizes d c (v ∷ vs) rows =
    sizes-repoint_sizes d c vs (repoint_picture d c v rows)
    ∙ ap (λ t. repoint_values d c vs t) (sizes-repoint_picture d c v rows)

-- The sizes of the pictures go the way of the other tables.
sizes-repoint_pictures :
    (d c : ℤ) (rows : List (ℤ × Picture))
    → sizes (delete_pictures d (repoint_pictures d c rows)) ≡ delete_id d (repoint d c (sizes rows))
unfolding repoint_pictures repoint
sizes-repoint_pictures d c rows =
    sizes-delete_pictures d (repoint_sizes d c (values_of d (sizes rows)) rows)
    ∙ ap (λ t. delete_id d t) (sizes-repoint_sizes d c (values_of d (sizes rows)) rows)

pictures-Consolidated :
    (d c : ℤ) (rows : List (ℤ × Picture))
    → (d == c) ≡ false
    → Consolidated d c (sizes rows) (sizes (delete_pictures d (repoint_pictures d c rows)))
pictures-Consolidated d c rows apart i w =
    ap (λ t. has i w t) (sizes-repoint_pictures d c rows)
    ∙ repoint-Consolidated d c (sizes rows) apart i w

-- A merge of two ids moves the torrents, synonyms, genres and relations of the duplicate to the canonical
-- id, losing no value, adding none, and leaving those of every other id alone; and it does the same with
-- the sizes of the pictures, where a picture of the duplicate whose size the canonical id already has is
-- dropped with its url.
pub merge-Consolidated :
    (d c : ℤ) (db : Database)
    → (d == c) ≡ false
    → Consolidated d c db.torrents_index (merge d c db).torrents_index
      × Consolidated d c db.title_synonyms (merge d c db).title_synonyms
      × Consolidated d c db.genres (merge d c db).genres
      × Consolidated d c (sizes db.pictures) (sizes (merge d c db).pictures)
      × Consolidated d c db.anime_relations (merge d c db).anime_relations
unfolding merge repoint_torrents_index repoint_id_value_rows repoint_pictures
    repoint_anime_relations
merge-Consolidated d c db apart = rw apart (
  repoint-Consolidated d c db.torrents_index apart,
  repoint-Consolidated d c db.title_synonyms apart,
  repoint-Consolidated d c db.genres apart,
  pictures-Consolidated d c db.pictures apart,
  repoint-Consolidated d c db.anime_relations apart,
)

pub some_inj : {a b : Externals} → some a ≡ some b → a ≡ b
some_inj e = cc

pub lookup-backfill :
    (c : ℤ) (ext old : Externals) (index : Dict ℤ Externals)
    → lookup c index ≡ some old
    → lookup c (backfill_external_ids c ext index) ≡ some (λ col. first_set (old col) (ext col))
unfolding lookup backfill_external_ids first_set
lookup-backfill c ext old [] e = absurd (cc)
lookup-backfill c ext old ((j, ext') ∷ index) e = elim (Bool-cases (int_beq j c)) [
  | inl same ↦ rw same (
      ap (λ x. some (λ col. first_set (x col) (ext col)))
        (some_inj (ap (λ b. if b then some ext' else lookup c index) (sym same) ∙ e)))
  | inr other ↦ rw other (
      lookup-backfill c ext old index
        (ap (λ b. if b then some ext' else lookup c index) (sym other) ∙ e))
]

-- A merge leaves no row of the duplicate in `indexList`, and fills the columns that were empty in the row
-- of the canonical id from the duplicate's.
pub merge-index_list :
    (d c : ℤ) (db : Database) (old : Externals)
    → (d == c) ≡ false
    → lookup c db.index_list ≡ some old
    → (lookup d (merge d c db).index_list ≡ none)
      × (lookup c (merge d c db).index_list
          ≡ some (λ col. first_set (old col) (get_external_ids d db.index_list col)))
unfolding merge
merge-index_list d c db old apart e =
    let ext = get_external_ids d db.index_list in
    let filled = backfill_external_ids c ext db.index_list in
    rw apart (
      ground (arith, lookup-remove d d filled, int_beq_iff d d),
      lookup-remove d c filled ∙ rw apart (lookup-backfill c ext old db.index_list e),
    )
