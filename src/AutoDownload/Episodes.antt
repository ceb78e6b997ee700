-- ===== src/AutoDownload/Episodes.antt =====
-- The next episode to look for.
use anime_manager.Base.{ℕ, ◌<◌, ◌≤◌, List, [], ◌∷◌, arith, All, All-map}
use anime_manager.Base.Dict.{nat_eq}
use anime_manager.AutoDownload.Matching.{next_episode}

next_episode-cons :
    (n : ℕ) (owned : List ℕ)
    → (n < next_episode (n ∷ owned)) × (next_episode owned ≤ next_episode (n ∷ owned))
unfolding next_episode
next_episode-cons n owned = (omega arith, omega arith)

-- The next episode lies after every owned one.
pub next_episode-after : (owned : List ℕ) → All (λ n. n < next_episode owned) owned
next_episode-after [] = tt
next_episode-after (n ∷ owned) = (
  (next_episode-cons n owned).0,
  All-map (λ i h. omega (arith, h, next_episode-cons n owned)) owned (next_episode-after owned),
)
