-- ===== src/AutoDownload/Catchup.antt =====
-- application/services/auto_download_service.py: one pass over an anime, and over all of them. What the
-- feeds, the searches and the download port answer are parameters.
use anime_manager.Base.{
  ℕ, zero, suc, ◌+◌, ◌≤◌, ◌≡◌, refl, Bool, true, false, not, List, [], ◌∷◌, ◌++◌, Option, none,
  some, arith, if◌then◌else◌, map, ◌∙◌, ap, sym,
}
use anime_manager.Base.Dict.{nat_eq}
use anime_manager.AutoDownload.Matching.{SearchRow, next_episode}

abbrev pub catch_up_max : ℕ
catch_up_max = 5

abbrev pub Candidate : Type 0
Candidate = SearchRow

-- The answers of `process_anime`.
pub data Detail : Type 0 where
  no_preference : Detail
  queued : List (ℕ × Candidate) → Detail
  failed : ℕ → Detail
  no_match_for : ℕ → Detail
  no_match : Detail

-- What a pass meets: a feed's, the API's and a search's candidate for an episode, and whether the
-- download port starts it.
pub record Market : Type 0 where
  pub find_rss : ℕ → Option Candidate
  pub find_api : ℕ → Option Candidate
  pub find_search : ℕ → Option Candidate
  pub start : Candidate → Bool

unfoldable pub finish : List (ℕ × Candidate) → Option ℕ → Detail
finish (q ∷ qs) miss = queued (q ∷ qs)
finish [] (some episode) = no_match_for episode
finish [] none = no_match

unfoldable pub fall_back : Option Candidate → Option Candidate → Option Candidate
fall_back none second = second
fall_back (some c) second = some c

unfoldable pub fail_or_finish : ℕ → List (ℕ × Candidate) → Detail
fail_or_finish episode [] = failed episode
fail_or_finish episode (q ∷ qs) = queued (q ∷ qs)

unfoldable pub turn : Bool → ℕ → List (ℕ × Candidate) → Detail → Detail
unfolding fail_or_finish
turn true episode done later = later
turn false episode done later = fail_or_finish episode done

unfoldable pub candidate_turn :
    Market → Option Candidate → ℕ → List (ℕ × Candidate) → (Candidate → Detail) → Detail
unfolding turn finish
candidate_turn w none episode done later = finish done (some episode)
candidate_turn w (some c) episode done later = turn (w.start c) episode done (later c)

-- The loop in RSS mode, with the turns that are left.
unfoldable pub catch_up : Market → ℕ → List ℕ → List (ℕ × Candidate) → Detail
unfolding candidate_turn finish fall_back
catch_up w zero owned done = finish done none
catch_up w (suc turns) owned done =
    let episode = next_episode owned in
    candidate_turn w (fall_back (w.find_rss episode) (w.find_api episode)) episode done
      (λ c. catch_up w turns (episode ∷ owned) (done ++ (episode, c) ∷ []))

-- The one turn in search mode.
unfoldable pub search_once : Market → ℕ → Detail
unfolding candidate_turn
search_once w episode =
    candidate_turn w (w.find_search episode) episode [] (λ c. queued ((episode, c) ∷ []))

unfoldable pub process_anime : Market → Bool → Bool → List ℕ → Detail
unfolding catch_up search_once
process_anime w has_preference rss owned =
    if not has_preference
    then no_preference
    else if rss
    then catch_up w catch_up_max owned []
    else search_once w (next_episode owned)

-- The episodes that a pass has queued.
unfoldable pub episodes : Detail → List ℕ
episodes no_preference = []
episodes (queued qs) = map (λ q. q.0) qs
episodes (failed episode) = []
episodes (no_match_for episode) = []
episodes no_match = []

-- The `n` numbers from `i` on.
abbrev pub from : ℕ → ℕ → List ℕ
from zero i = []
from (suc n) i = i ∷ from n (i + 1)

next_episode-next :
    (owned : List ℕ) → next_episode (next_episode owned ∷ owned) ≡ next_episode owned + 1
unfolding next_episode
next_episode-next owned = omega arith

append_nil : (l : List ℕ) → l ++ [] ≡ l
append_nil [] = refl
append_nil (n ∷ l) = ap (λ r. n ∷ r) (append_nil l)

map-snoc :
    (e : ℕ) (c : Candidate) (done : List (ℕ × Candidate)) (rest : List ℕ)
    → map (λ q. q.0) (done ++ (e, c) ∷ []) ++ rest ≡ map (λ q. q.0) done ++ e ∷ rest
map-snoc e c [] rest = refl
map-snoc e c (q ∷ done) rest = ap (λ r. q.0 ∷ r) (map-snoc e c done rest)

-- The episodes that a pass queues are those that it had queued before, and then up to `turns` further
-- ones, in order.
QueuesNext : ℕ → List ℕ → List (ℕ × Candidate) → Detail → Type 0
QueuesNext turns owned done d =
    (k : ℕ) × (k ≤ turns) × (episodes d ≡ map (λ q. q.0) done ++ from k (next_episode owned))

finish-QueuesNext :
    (turns : ℕ) (owned : List ℕ) (done : List (ℕ × Candidate)) (miss : Option ℕ)
    → QueuesNext turns owned done (finish done miss)
unfolding QueuesNext finish episodes
finish-QueuesNext turns owned [] none = (0, omega arith, refl)
finish-QueuesNext turns owned [] (some e) = (0, omega arith, refl)
finish-QueuesNext turns owned (q ∷ qs) miss = (0, omega arith, sym (append_nil _))

-- One more episode, and then those after it.
step-QueuesNext :
    (turns : ℕ) (owned : List ℕ) (done : List (ℕ × Candidate)) (c : Candidate) (d : Detail)
    → QueuesNext turns (next_episode owned ∷ owned) (done ++ (next_episode owned, c) ∷ []) d
    → QueuesNext (suc turns) owned done d
unfolding QueuesNext
step-QueuesNext turns owned done c d (k, few, e) = (
  suc k,
  omega (arith, few),
  e
      ∙ map-snoc (next_episode owned) c done (from k (next_episode (next_episode owned ∷ owned)))
      ∙ ap (λ i. map (λ q. q.0) done ++ next_episode owned ∷ from k i) (next_episode-next owned),
)

fail_or_finish-QueuesNext :
    (turns e : ℕ) (owned : List ℕ) (done : List (ℕ × Candidate))
    → QueuesNext turns owned done (fail_or_finish e done)
unfolding QueuesNext fail_or_finish episodes
fail_or_finish-QueuesNext turns e owned [] = (0, omega arith, refl)
fail_or_finish-QueuesNext turns e owned (q ∷ qs) = (0, omega arith, sym (append_nil _))

turn-QueuesNext :
    (started : Bool) (turns : ℕ) (owned : List ℕ) (done : List (ℕ × Candidate)) (c : Candidate)
    (d : Detail)
    → QueuesNext turns (next_episode owned ∷ owned) (done ++ (next_episode owned, c) ∷ []) d
    → QueuesNext (suc turns) owned done (turn started (next_episode owned) done d)
unfolding turn
turn-QueuesNext true turns owned done c d h = step-QueuesNext turns owned done c d h
turn-QueuesNext false turns owned done c d h =
    fail_or_finish-QueuesNext (suc turns) (next_episode owned) owned done

candidate_turn-QueuesNext :
    (w : Market) (turns : ℕ) (owned : List ℕ) (done : List (ℕ × Candidate)) (o : Option Candidate)
    (later : Candidate → Detail)
    → ((c : Candidate)
        → QueuesNext turns
            (next_episode owned ∷ owned)
            (done ++ (next_episode owned, c) ∷ [])
            (later c))
    → QueuesNext (suc turns) owned done (candidate_turn w o (next_episode owned) done later)
unfolding candidate_turn
candidate_turn-QueuesNext w turns owned done none later h =
    finish-QueuesNext (suc turns) owned done (some (next_episode owned))
candidate_turn-QueuesNext w turns owned done (some c) later h =
    turn-QueuesNext (w.start c) turns owned done c (later c) (h c)

search_turn-episodes :
    (started : Bool) (episode : ℕ) (c : Candidate)
    → (k : ℕ) × (k ≤ 1)
      × (episodes (turn started episode [] (queued ((episode, c) ∷ []))) ≡ from k episode)
unfolding turn fail_or_finish episodes
search_turn-episodes true episode c = (1, omega arith, refl)
search_turn-episodes false episode c = (0, omega arith, refl)

search_found-episodes :
    (w : Market) (episode : ℕ) (o : Option Candidate)
    → (k : ℕ) × (k ≤ 1)
      × (episodes (candidate_turn w o episode [] (λ c. queued ((episode, c) ∷ [])))
          ≡ from k episode)
unfolding candidate_turn finish episodes
search_found-episodes w episode none = (0, omega arith, refl)
search_found-episodes w episode (some c) = search_turn-episodes (w.start c) episode c

search_once-episodes :
    (w : Market) (episode : ℕ)
    → (k : ℕ) × (k ≤ 1) × (episodes (search_once w episode) ≡ from k episode)
unfolding search_once
search_once-episodes w episode = search_found-episodes w episode (w.find_search episode)

catch_up-QueuesNext :
    (w : Market) (turns : ℕ) (owned : List ℕ) (done : List (ℕ × Candidate))
    → QueuesNext turns owned done (catch_up w turns owned done)
unfolding catch_up
catch_up-QueuesNext w zero owned done = finish-QueuesNext zero owned done none
catch_up-QueuesNext w (suc turns) owned done =
    candidate_turn-QueuesNext w turns owned done
      (fall_back (w.find_rss (next_episode owned)) (w.find_api (next_episode owned)))
      (λ c. catch_up w turns (next_episode owned ∷ owned) (done ++ (next_episode owned, c) ∷ []))
      (λ c.
        catch_up-QueuesNext w turns (next_episode owned ∷ owned)
          (done ++ (next_episode owned, c) ∷ []))

-- A pass over an anime queues consecutive episodes that begin right after the last one owned: at most
-- five of them, and at most one in search mode.
pub process_anime-episodes :
    (w : Market) (has_preference rss : Bool) (owned : List ℕ)
    → (k : ℕ) × (k ≤ (if rss then catch_up_max else 1))
      × (episodes (process_anime w has_preference rss owned) ≡ from k (next_episode owned))
unfolding process_anime episodes QueuesNext
process_anime-episodes w false rss owned = (0, omega arith, refl)
process_anime-episodes w true true owned = catch_up-QueuesNext w catch_up_max owned []
process_anime-episodes w true false owned = search_once-episodes w (next_episode owned)
