-- ===== src/Downloads/Manager/Requests.antt =====
-- The download manager under any sequence of calls and thread steps.
use anime_manager.Base.{ℕ, ◌≡◌, arith, Bool, true, List, [], ◌∷◌, Option, All}
use anime_manager.Base.Dict.{Dict, nat_eq, member}
use anime_manager.Base.Text.{Text, text_eq, text_beq_iff}
use anime_manager.Downloads.Hashes.{resolve_download_hash}
use anime_manager.Downloads.Status.{clear_deleted_status}
use anime_manager.Downloads.Manager.{
  put_task, chosen_hash, Manager, new_manager, close, enqueue_download, cancel_download_by_hash,
  pop_active, cancel_number, discard_queued, add_cancelled, take_task, Delivery, execute_download,
}
use anime_manager.Downloads.Manager.Validity.{
  IsValid, new_manager-IsValid, close-IsValid, cancel_download_by_hash-IsValid, pop_active-IsValid,
  cancel_number-IsValid, discard_queued-IsValid, add_cancelled-IsValid,
}
use anime_manager.Downloads.Manager.Steps.{take_task-IsValid, execute_download-IsValid}
use anime_manager.Downloads.Manager.Enqueues.{put_resolved-IsValid, enqueue_download-IsValid}

-- A call, or a step of the processor's thread or of a worker. `check` and `put` are the two ends of an
-- enqueue between which other threads have run: the clearing of the status, and the locked part.
-- `cancel_hash` is the locked part of `cancel_download_by_hash`; `pop_anime`, `cancel_task_number`, `discard_hash` and
-- `mark_cancelled` are the steps of `cancel_download`, of which only the first holds the lock.
pub data Request : Type 0 where
  enqueue : (Text → Bool) → ℕ → Text → Text → Request
  check : Text → Request
  put : ℕ → Text → Text → Request
  cancel_hash : (Text → Bool) → Text → Request
  pop_anime : ℕ → Request
  cancel_task_number : ℕ → Request
  discard_hash : Text → Request
  mark_cancelled : Text → Request
  take : Bool → Request
  execute : Delivery → ℕ → Request
  stop : Request

-- The executor takes the task that this step gives it.
abbrev pub Accepts : Request → Type 0
Accepts (take accepted) = accepted ≡ true
Accepts (enqueue live anime_id url hash) = Unit
Accepts (check hash) = Unit
Accepts (put anime_id url hash) = Unit
Accepts (cancel_hash live hash) = Unit
Accepts (pop_anime anime_id) = Unit
Accepts (cancel_task_number n) = Unit
Accepts (discard_hash key) = Unit
Accepts (mark_cancelled key) = Unit
Accepts (execute o n) = Unit
Accepts stop = Unit

-- The hashes that a cancellation marks without the lock.
unfoldable pub marked : Request → List Text → List Text
marked (mark_cancelled key) rest = key ∷ rest
marked (enqueue live anime_id url hash) rest = rest
marked (check hash) rest = rest
marked (put anime_id url hash) rest = rest
marked (cancel_hash live hash) rest = rest
marked (pop_anime anime_id) rest = rest
marked (cancel_task_number n) rest = rest
marked (discard_hash key) rest = rest
marked (take accepted) rest = rest
marked (execute o n) rest = rest
marked stop rest = rest

unfoldable pub marked_unlocked : List Request → List Text
unfolding marked
marked_unlocked [] = []
marked_unlocked (r ∷ rest) = marked r (marked_unlocked rest)

marked-grows :
    (r : Request) (l : List Text) (h : Text) → member h l ≡ true → member h (marked r l) ≡ true
unfolding marked member
marked-grows (mark_cancelled key) l h m = ground arith
marked-grows (enqueue live anime_id url hash) l h m = m
marked-grows (check hash) l h m = m
marked-grows (put anime_id url hash) l h m = m
marked-grows (cancel_hash live hash) l h m = m
marked-grows (pop_anime anime_id) l h m = m
marked-grows (cancel_task_number n) l h m = m
marked-grows (discard_hash key) l h m = m
marked-grows (take accepted) l h m = m
marked-grows (execute o n) l h m = m
marked-grows stop l h m = m

-- The hash that a step marks without the lock is an exempt one.
abbrev Exempts : List Text → Request → Type 0
Exempts exempt r = (h : Text) → member h (marked r []) ≡ true → member h exempt ≡ true

key-marked : (key : Text) → member key (marked (mark_cancelled key) []) ≡ true
unfolding marked member
key-marked key = ground (arith, text_beq_iff key key)

marked-alone :
    (r : Request) (l : List Text) (h : Text)
    → member h (marked r []) ≡ true
    → member h (marked r l) ≡ true
unfolding marked member
marked-alone (mark_cancelled key) l h m = ground arith
marked-alone (enqueue live anime_id url hash) l h m = absurd (cc)
marked-alone (check hash) l h m = absurd (cc)
marked-alone (put anime_id url hash) l h m = absurd (cc)
marked-alone (cancel_hash live hash) l h m = absurd (cc)
marked-alone (pop_anime anime_id) l h m = absurd (cc)
marked-alone (cancel_task_number n) l h m = absurd (cc)
marked-alone (discard_hash key) l h m = absurd (cc)
marked-alone (take accepted) l h m = absurd (cc)
marked-alone (execute o n) l h m = absurd (cc)
marked-alone stop l h m = absurd (cc)

module _ (b32decode : Text → Option (List ℕ)) where
  unfoldable pub step : Manager → Request → Manager
  step m (enqueue live anime_id url hash) = (enqueue_download b32decode live anime_id url hash m).0
  step m (check hash) = record m { statuses = (clear_deleted_status hash m.statuses).0 }
  step m (put anime_id url hash) =
      let resolved = resolve_download_hash b32decode url hash in
      (put_task anime_id url (chosen_hash b32decode hash resolved) resolved m).0
  step m (cancel_hash live hash) = (cancel_download_by_hash b32decode live hash m).0
  step m (pop_anime anime_id) = pop_active anime_id m
  step m (cancel_task_number n) = cancel_number n m
  step m (discard_hash key) = discard_queued key m
  step m (mark_cancelled key) = add_cancelled key m
  step m (take accepted) = take_task b32decode accepted m
  step m (execute o n) = execute_download b32decode o n m
  step m stop = close m

  unfoldable pub run : Manager → List Request → Manager
  run m [] = m
  run m (r ∷ rest) = run (step m r) rest

  step-IsValid :
      (exempt : List Text) (m : Manager) (r : Request)
      → Accepts r
      → Exempts exempt r
      → IsValid b32decode exempt m
      → IsValid b32decode exempt (step m r)
  unfolding step
  step-IsValid exempt m (enqueue live anime_id url hash) a x v =
      enqueue_download-IsValid b32decode exempt live anime_id url hash m v
  step-IsValid exempt m (check hash) a x v = record {
    apart = v.apart;
    pending = v.pending;
    waits = v.waits;
  }
  step-IsValid exempt m (put anime_id url hash) a x v =
      put_resolved-IsValid b32decode exempt anime_id url hash m v
  step-IsValid exempt m (cancel_hash live hash) a x v =
      cancel_download_by_hash-IsValid b32decode exempt live hash m v
  step-IsValid exempt m (pop_anime anime_id) a x v =
      pop_active-IsValid b32decode exempt anime_id m v
  step-IsValid exempt m (cancel_task_number n) a x v = cancel_number-IsValid b32decode exempt n m v
  step-IsValid exempt m (discard_hash key) a x v = discard_queued-IsValid b32decode exempt key m v
  step-IsValid exempt m (mark_cancelled key) a x v =
      add_cancelled-IsValid b32decode exempt key m (x key (key-marked key)) v
  step-IsValid exempt m (take accepted) a x v = rw a (take_task-IsValid b32decode exempt m v)
  step-IsValid exempt m (execute o n) a x v = execute_download-IsValid b32decode exempt o n m v
  step-IsValid exempt m stop a x v = close-IsValid b32decode exempt m v

  run_from-IsValid :
      (exempt : List Text) (m : Manager) (rs : List Request)
      → All Accepts rs
      → ((h : Text) → member h (marked_unlocked rs) ≡ true → member h exempt ≡ true)
      → IsValid b32decode exempt m
      → IsValid b32decode exempt (run m rs)
  unfolding run marked_unlocked
  run_from-IsValid exempt m [] a x v = v
  run_from-IsValid exempt m (r ∷ rest) a x v =
      run_from-IsValid exempt (step m r) rest a.1
        (λ h e. x h (marked-grows r (marked_unlocked rest) h e))
        (step-IsValid exempt m r a.0 (λ h e. x h (marked-alone r (marked_unlocked rest) h e)) v)

  -- After any calls and thread steps in any order, provided that the executor takes the tasks that it is
  -- given, no hash is both queued and cancelled, save one that some `cancel_download` marks as cancelled
  -- without the lock, every queued hash of an open manager is that of a task that is not finished, and
  -- every waiting task is in the queue.
  pub run_downloads-IsValid :
      (db : Dict Text Text) (rs : List Request)
      → All Accepts rs
      → IsValid b32decode (marked_unlocked rs) (run (new_manager db) rs)
  run_downloads-IsValid db rs a =
      run_from-IsValid (marked_unlocked rs) (new_manager db) rs a (λ h e. e)
        (new_manager-IsValid b32decode (marked_unlocked rs) db)
