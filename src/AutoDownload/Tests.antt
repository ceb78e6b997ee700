-- ===== src/AutoDownload/Tests.antt =====
-- Runs of the automatic download, and its theorems at concrete releases.
use anime_manager.Base.{
  ℕ, ◌≤◌, ◌≡◌, refl, true, false, List, [], ◌∷◌, Option, none, some, if◌then◌else◌, leb,
}
use anime_manager.Base.Dict.{member}
use anime_manager.Base.Text.{Text, codes, text_eq, text_beq, strip, lower}
use anime_manager.AutoDownload.Matching.{
  Parsed, TorrentRow, SearchRow, preference_eq, norm, is_blank_text, deleted, facets, distinct,
  count, best_count, last_tied, or_key, chosen, tied_keys, elect, next_episode, matches,
  is_excluded, excluded_hashes, fits_facets, same_episode, right_season, better, scan_candidates,
  find_matching_candidate, ballots, infer_preference,
}
use anime_manager.AutoDownload.Preference.{infer_preference-majority}
use anime_manager.AutoDownload.Candidate.{Among, Fits, find_matching_candidate-best}
use anime_manager.AutoDownload.Catchup.{
  Market, process_anime, catch_up, candidate_turn, turn, finish, fall_back, fail_or_finish,
  episodes, from, process_anime-episodes,
}

abbrev release : Text → ℕ → Parsed
release publisher n = record {
  publisher = publisher;
  resolution = codes "1080p";
  kind = codes "single";
  is_batch = false;
  episode = some n;
  season = none;
}

-- The publisher is the name.
abbrev parse_title : Text → Option Parsed
parse_title name = some (release name 3)

abbrev row : Text → TorrentRow
row name = record { status = codes "complete"; name = name; hash = codes "ab12" }

abbrev library : List TorrentRow
library = row (codes "Erai") ∷ row (codes "SubsPlease") ∷ row (codes "Erai") ∷ []

erai_wins : infer_preference parse_title library ≡ some (codes "erai", codes "1080p")
unfolding infer_preference ballots facets elect chosen tied_keys distinct count best_count last_tied
    or_key member text_beq norm is_blank_text deleted strip lower
erai_wins = refl

infer_preference-majority_example :
    count (codes "subsplease", codes "1080p") (ballots parse_title library)
    ≤ count (codes "erai", codes "1080p") (ballots parse_title library)
infer_preference-majority_example =
    infer_preference-majority parse_title library (codes "erai", codes "1080p")
      (codes "subsplease", codes "1080p") erai_wins

abbrev result : Text → ℕ → SearchRow
result publisher seeds = record {
  infohash = codes "cd34";
  parsed = some (release publisher 3);
  seeds = seeds;
}

abbrev results : List SearchRow
results = result (codes "Erai") 5 ∷ result (codes "SubsPlease") 90 ∷ result (codes "erai") 12 ∷ []

most_seeds :
    find_matching_candidate results (codes "erai", codes "1080p") 3 [] (some 1)
    ≡ some (result (codes "erai") 12)
unfolding find_matching_candidate scan_candidates better matches is_excluded excluded_hashes
    fits_facets same_episode right_season norm is_blank_text member text_beq strip lower
most_seeds = refl

-- A hash that is excluded in upper case is passed over.
upper_excluded :
    find_matching_candidate
      (record (result (codes "erai") 12) { infohash = codes "abc" } ∷ [])
      (codes "erai", codes "1080p")
      3
      (codes "ABC" ∷ [])
      (some 1)
    ≡ none
unfolding find_matching_candidate scan_candidates better matches is_excluded excluded_hashes
    fits_facets same_episode right_season norm is_blank_text member text_beq strip lower
upper_excluded = refl

find_matching_candidate-best_example :
    Among (result (codes "erai") 12) results
    × Fits (codes "erai", codes "1080p") 3 [] (some 1) (result (codes "erai") 12)
    × ((row : SearchRow)
        → Among row results
        → Fits (codes "erai", codes "1080p") 3 [] (some 1) row
        → row.seeds ≤ 12)
find_matching_candidate-best_example =
    find_matching_candidate-best results (codes "erai", codes "1080p") 3 [] (some 1)
      (result (codes "erai") 12) most_seeds

abbrev market : Market
market = record {
  find_rss = λ n. none;
  find_api = λ n. if leb n 6 then some (result (codes "SubsPlease") n) else none;
  find_search = λ n. none;
  start = λ c. true;
}

three_episodes : episodes (process_anime market true true (2 ∷ 3 ∷ [])) ≡ 4 ∷ 5 ∷ 6 ∷ []
unfolding process_anime catch_up candidate_turn turn finish fall_back fail_or_finish episodes
    next_episode
three_episodes = refl

process_anime-episodes_example :
    (k : ℕ) × (k ≤ 5)
    × (episodes (process_anime market true true (2 ∷ 3 ∷ [])) ≡ from k (next_episode (2 ∷ 3 ∷ [])))
process_anime-episodes_example = process_anime-episodes market true true (2 ∷ 3 ∷ [])
