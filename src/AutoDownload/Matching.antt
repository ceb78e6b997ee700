-- ===== src/AutoDownload/Matching.antt =====
-- application/services/auto_download_matching.py. The parser of release names is a parameter, `none`
-- standing for its exception; it reports episodes and seasons as numbers that are not negative. A missing
-- text is the empty one.
use anime_manager.Base.{
  ℕ, suc, ◌+◌, Bool, true, false, ◌&&◌, ◌||◌, not, List, [], ◌∷◌, ◌++◌, Option, none, some, ltb,
  if◌then◌else◌, max, keep, ◌≡◌, ◌↔◌, arith,
}
use anime_manager.Base.Dict.{Eq, ◌==◌, nat_eq, member, add}
use anime_manager.Base.Text.{Text, codes, text_eq, text_beq_iff, strip, lower}

-- The facets of a parsed release name.
pub record Parsed : Type 0 where
  pub publisher : Text
  pub resolution : Text
  pub kind : Text
  pub is_batch : Bool
  pub episode : Option ℕ
  pub season : Option ℕ

-- A torrent of the library.
pub record TorrentRow : Type 0 where
  pub status : Text
  pub name : Text
  pub hash : Text

-- A search result; `parsed` is `none` for a row without facets.
pub record SearchRow : Type 0 where
  pub infohash : Text
  pub parsed : Option Parsed
  pub seeds : ℕ

-- Publisher and resolution.
abbrev pub ReleasePreference : Type 0
ReleasePreference = Text × Text

abbrev pub preference_beq : ReleasePreference → ReleasePreference → Bool
preference_beq (p, r) (q, s) = p == q && r == s

pub preference_beq_iff : (a b : ReleasePreference) → (preference_beq a b ≡ true) ↔ (a ≡ b)
preference_beq_iff (p, r) (q, s) = ground (arith, text_beq_iff p q, text_beq_iff r s)

instance abbrev pub preference_eq : Eq ReleasePreference
preference_eq = record { beq = preference_beq; beq_iff = preference_beq_iff }

-- str(value or "").strip().lower()
unfoldable pub norm : Text → Text
norm value = lower (strip value)

unfoldable pub is_blank_text : Text → Bool
is_blank_text [] = true
is_blank_text (c ∷ s) = false

unfoldable pub deleted : TorrentRow → Bool
deleted row = norm row.status == codes "deleted"

unfoldable pub facets : Option Parsed → List ReleasePreference
facets none = []
facets (some p) =
    let publisher = norm p.publisher in
    let resolution = norm p.resolution in
    if is_blank_text publisher || is_blank_text resolution then [] else (publisher, resolution) ∷ []

-- dict.fromkeys(keys)
unfoldable pub distinct : List ReleasePreference → List ReleasePreference
distinct [] = []
distinct (k ∷ ks) = k ∷ keep (λ j. not (j == k)) (distinct ks)

-- votes[key]
unfoldable pub count : ReleasePreference → List ReleasePreference → ℕ
count k [] = 0
count k (j ∷ ks) = if j == k then suc (count k ks) else count k ks

-- max(votes.values())
unfoldable pub best_count : List ReleasePreference → List ReleasePreference → ℕ
best_count order [] = 0
best_count order (k ∷ ks) = let rest = best_count order ks in max (count k order) rest

unfoldable pub or_key :
    Option ReleasePreference → Option ReleasePreference → Option ReleasePreference
or_key none k = k
or_key (some j) k = some j

-- The last key of the order that is tied.
unfoldable pub last_tied :
    List ReleasePreference → List ReleasePreference → Option ReleasePreference
unfolding or_key
last_tied tied [] = none
last_tied tied (k ∷ ks) = or_key (last_tied tied ks) (if member k tied then some k else none)

unfoldable pub chosen : List ReleasePreference → List ReleasePreference → Option ReleasePreference
unfolding last_tied
chosen order (k ∷ []) = some k
chosen order [] = last_tied [] order
chosen order (k ∷ j ∷ tied) = last_tied (k ∷ j ∷ tied) order

unfoldable pub tied_keys : List ReleasePreference → List ReleasePreference
unfolding count best_count distinct
tied_keys order = keep (λ k. count k order == best_count order (distinct order)) (distinct order)

-- The vote of `infer_preference` over the keys in the order of the rows.
unfoldable pub elect : List ReleasePreference → Option ReleasePreference
unfolding chosen
elect [] = none
elect (k ∷ ks) = chosen (k ∷ ks) (tied_keys (k ∷ ks))

-- max(owned) + 1 over the positive numbers, 1 if there are none
unfoldable pub next_episode : List ℕ → ℕ
next_episode [] = 1
next_episode (n ∷ ns) = max (n + 1) (next_episode ns)

unfoldable pub same_episode : ℕ → Option ℕ → Bool
same_episode n none = false
same_episode n (some m) = m == n

-- An unmarked release, or season 0, counts as season 1.
unfoldable pub right_season : Option ℕ → Option ℕ → Bool
right_season none season = true
right_season (some n) none = n == 1
right_season (some n) (some m) = (if m == 0 then 1 else m) == n

-- {h.lower() for h in exclude_hashes if h}
unfoldable pub excluded_hashes : List Text → List Text
unfolding is_blank_text
excluded_hashes [] = []
excluded_hashes (h ∷ hs) =
    let rest = excluded_hashes hs in if is_blank_text h then rest else lower h ∷ rest

unfoldable pub is_excluded : Text → List Text → Bool
unfolding is_blank_text
is_excluded hash excluded = not (is_blank_text hash) && member hash excluded

unfoldable pub fits_facets : ReleasePreference → ℕ → Option ℕ → Option Parsed → Bool
unfolding same_episode right_season
fits_facets preference episode season none = false
fits_facets (publisher, resolution) episode season (some p) =
    not p.is_batch
    && norm p.kind == codes "single"
    && same_episode episode p.episode
    && right_season season p.season
    && norm p.publisher == publisher
    && norm p.resolution == resolution

-- The guards of the loop, at the set of excluded hashes.
unfoldable pub matches : ReleasePreference → ℕ → List Text → Option ℕ → SearchRow → Bool
unfolding is_excluded fits_facets
matches preference episode excluded season row =
    not (is_excluded (norm row.infohash) excluded)
    && fits_facets preference episode season row.parsed

unfoldable pub better : SearchRow → Option SearchRow → SearchRow
better row none = row
better row (some best) = if ltb best.seeds row.seeds then row else best

-- The loop over the search results; the accumulator is `best`.
unfoldable pub scan_candidates :
    (SearchRow → Bool) → Option SearchRow → List SearchRow → Option SearchRow
unfolding better
scan_candidates p best [] = best
scan_candidates p best (row ∷ rows) =
    scan_candidates p (if p row then some (better row best) else best) rows

unfoldable pub find_matching_candidate :
    List SearchRow → ReleasePreference → ℕ → List Text → Option ℕ → Option SearchRow
unfolding scan_candidates excluded_hashes
find_matching_candidate rows preference episode excluded season =
    scan_candidates (matches preference episode (excluded_hashes excluded) season) none rows

module _ (parse_title : Text → Option Parsed) where
  -- The keys of the rows that vote.
  unfoldable pub ballots : List TorrentRow → List ReleasePreference
  unfolding facets
  ballots [] = []
  ballots (row ∷ rows) =
      let rest = ballots rows in
      let name = strip row.name in
      if deleted row || is_blank_text name then rest else facets (parse_title name) ++ rest

  unfoldable pub infer_preference : List TorrentRow → Option ReleasePreference
  infer_preference rows = elect (ballots rows)

  single : Option Parsed → List ℕ
  single none = []
  single (some p) = elim p.episode [
    | none ↦ []
    | some n ↦ if p.is_batch || not (norm p.kind == codes "single") || n == 0 then [] else n ∷ []
  ]

  unfoldable pub owned_episodes_from_torrents : List TorrentRow → List ℕ
  unfolding single
  owned_episodes_from_torrents [] = []
  owned_episodes_from_torrents (row ∷ rows) =
      let rest = owned_episodes_from_torrents rows in
      let name = strip row.name in
      if deleted row || is_blank_text name then rest else single (parse_title name) ++ rest

unfoldable pub indexed_hashes : List TorrentRow → List Text
indexed_hashes [] = []
indexed_hashes (row ∷ rows) =
    let rest = indexed_hashes rows in
    let hash = norm row.hash in if deleted row || is_blank_text hash then rest else add hash rest
