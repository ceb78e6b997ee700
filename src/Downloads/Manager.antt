-- ===== src/Downloads/Manager.antt =====
-- The state of `DownloadManager` and its operations. A task object is a number, its place in the list
-- of all tasks, since the queue, the worker that runs it and the table of active downloads share it.
-- Each function is what one thread does between two points at which another thread may run; a worker's
-- place in `_execute_download` is the phase of its task.
pub mod Tasks
pub mod Sets
pub mod Validity
pub mod Steps
pub mod Enqueues
pub mod Requests
pub mod Cancelled
pub mod Started
use anime_manager.Base.{
  ℕ, zero, suc, Bool, true, false, ◌&&◌, ◌||◌, not, List, [], ◌∷◌, ◌++◌, Option, none, some,
  if◌then◌else◌, length, keep,
}
use anime_manager.Base.Dict.{Dict, lookup, insert, remove, member, add, discard, nat_eq, ◌==◌}
use anime_manager.Base.Text.{Text, codes, text_eq, strip}
use anime_manager.Downloads.Hashes.{canonicalize_infohash, resolve_download_hash}
use anime_manager.Downloads.Status.{stripped_status_is, clear_deleted_status}

-- Where the task's thread stands. `ending` carries `keep_visible`.
pub data Phase : Type 0 where
  waiting : Phase
  submitted : Phase
  registered : Phase
  preparing : Phase
  ending : Bool → Phase
  finished : Phase

-- `hash_value` is empty when there is none. `answers` are the values put into the status queue.
pub record Task : Type 0 where
  pub anime_id : ℕ
  pub url : Text
  pub hash_value : Text
  pub cancelled : Bool
  pub phase : Phase
  pub answers : List Bool

pub record Manager : Type 0 where
  pub tasks : List Task
  pub queue : List ℕ
  pub active : Dict ℕ ℕ
  pub queued_hashes : List Text
  pub cancelled_hashes : List Text
  pub statuses : Dict Text Text
  pub closed : Bool

unfoldable pub new_manager : Dict Text Text → Manager
new_manager db = record {
  tasks = [];
  queue = [];
  active = [];
  queued_hashes = [];
  cancelled_hashes = [];
  statuses = db;
  closed = false;
}

unfoldable pub task_at : ℕ → List Task → Option Task
task_at n [] = none
task_at zero (t ∷ ts) = some t
task_at (suc n) (t ∷ ts) = task_at n ts

unfoldable pub set_task : ℕ → Task → List Task → List Task
set_task n t [] = []
set_task zero t (u ∷ ts) = t ∷ ts
set_task (suc n) t (u ∷ ts) = u ∷ set_task n t ts

-- task.status_queue.put(answer), and the phase that follows
unfoldable pub answer : Bool → Phase → Task → Task
answer b phase t = record t { phase = phase; answers = t.answers ++ b ∷ [] }

-- task.cancel()
unfoldable pub cancel_task : ℕ → Option Task → List Task → List Task
unfolding set_task
cancel_task n none ts = ts
cancel_task n (some t) ts = set_task n (record t { cancelled = true }) ts

-- task.cancel() for all tasks of a table
unfoldable pub cancel_tasks : Dict ℕ ℕ → List Task → List Task
cancel_tasks [] ts = ts
cancel_tasks ((anime_id, n) ∷ rest) ts = cancel_tasks rest (cancel_task n (task_at n ts) ts)

unfoldable pub close : Manager → Manager
unfolding cancel_tasks
close m = record m {
  tasks = cancel_tasks m.active m.tasks;
  active = [];
  queued_hashes = [];
  cancelled_hashes = [];
  closed = true;
}

pub data Reason : Type 0 where
  already_queued : Reason
  already_active : Reason
  already_in_client : Reason
  already_complete : Reason

pub data Enqueued : Type 0 where
  refused : Enqueued
  skipped : Reason → Enqueued
  started : ℕ → Enqueued

unfoldable pub discard_key : Option Text → List Text → List Text
discard_key none s = s
discard_key (some k) s = discard k s

unfoldable pub member_key : Option Text → List Text → Bool
member_key none s = false
member_key (some k) s = member k s

-- The steps of `cancel_download`: under the lock `pop`, then without it `task.cancel()` and the two changes of
-- `_cancel_in_flight_hash_locked`.
unfoldable pub pop_active : ℕ → Manager → Manager
pop_active anime_id m = record m { active = remove anime_id m.active }

unfoldable pub cancel_number : ℕ → Manager → Manager
unfolding cancel_task
cancel_number n m = record m { tasks = cancel_task n (task_at n m.tasks) m.tasks }

unfoldable pub discard_queued : Text → Manager → Manager
discard_queued key m = record m { queued_hashes = discard key m.queued_hashes }

unfoldable pub add_cancelled : Text → Manager → Manager
add_cancelled key m = record m { cancelled_hashes = add key m.cancelled_hashes }

-- `_cancel_in_flight_hash_locked` under the lock: the sets, and whether anything changed.
unfoldable pub cancel_in_flight_hash : Text → Manager → Manager × Bool
cancel_in_flight_hash key m = (
  record m {
    queued_hashes = discard key m.queued_hashes;
    cancelled_hashes = add key m.cancelled_hashes;
  },
  member key m.queued_hashes || not (member key m.cancelled_hashes),
)

unfoldable pub new_task : ℕ → Text → Text → Task
new_task anime_id url hash_value = record {
  anime_id = anime_id;
  url = url;
  hash_value = hash_value;
  cancelled = false;
  phase = waiting;
  answers = [];
}

-- The locked part of `enqueue_download`.
unfoldable pub put_task : ℕ → Text → Text → Option Text → Manager → Manager × Enqueued
put_task anime_id url hash_value none m = (
  record m {
    tasks = m.tasks ++ new_task anime_id url hash_value ∷ [];
    queue = m.queue ++ length m.tasks ∷ [];
  },
  started (length m.tasks),
)
put_task anime_id url hash_value (some key) m =
    if member key m.queued_hashes then (m, skipped already_queued) else (
      record m {
        tasks = m.tasks ++ new_task anime_id url hash_value ∷ [];
        queue = m.queue ++ length m.tasks ∷ [];
        cancelled_hashes = discard key m.cancelled_hashes;
        queued_hashes = add key m.queued_hashes;
      },
      started (length m.tasks),
    )

unfoldable pub is_empty : Text → Bool
is_empty [] = true
is_empty (c ∷ s) = false

-- What the rest of `_execute_download` meets: the hash of the torrent that was prepared (`none` if
-- there is none), and whether the folder, the database and the client accept it.
pub record Delivery : Type 0 where
  pub torrent : Option Text
  pub has_folder : Bool
  pub saved : Bool
  pub delivered : Bool

unfoldable pub with_hash : Text → Task → Task
unfolding is_empty
with_hash hash t = if is_empty t.hash_value then record t { hash_value = hash } else t

module _ (b32decode : Text → Option (List ℕ)) where
  unfoldable pub key_of : Task → Option Text
  key_of t = canonicalize_infohash b32decode t.hash_value

  unfoldable pub same_key : Text → Option Text → Bool
  same_key k none = false
  same_key k (some j) = j == k

  unfoldable pub found_key : Text → Option Task → Bool
  unfolding same_key key_of
  found_key key none = false
  found_key key (some t) = same_key key (key_of t)

  -- The tasks of a table whose hash is the key, and the others.
  unfoldable pub has_key : Text → List Task → ℕ → Bool
  unfolding found_key
  has_key key ts n = found_key key (task_at n ts)

  unfoldable pub any_active : Text → Dict ℕ ℕ → List Task → Bool
  unfolding has_key
  any_active key [] ts = false
  any_active key ((anime_id, n) ∷ rest) ts = has_key key ts n || any_active key rest ts

  unfoldable pub with_key : Text → List Task → Dict ℕ ℕ → Dict ℕ ℕ
  with_key key ts [] = []
  with_key key ts ((anime_id, n) ∷ rest) =
      if has_key key ts n then (anime_id, n) ∷ with_key key ts rest else with_key key ts rest

  unfoldable pub without_key : Text → List Task → Dict ℕ ℕ → Dict ℕ ℕ
  without_key key ts [] = []
  without_key key ts ((anime_id, n) ∷ rest) =
      if has_key key ts n then without_key key ts rest else (anime_id, n) ∷ without_key key ts rest

  -- The status getter of the database is taken to answer; where it raises the code goes on without a status.
  unfoldable pub reason_for : (Text → Bool) → Option Text → Bool → Manager → Option Reason
  reason_for live none ignore_index m = none
  reason_for live (some key) ignore_index m =
      if member key m.queued_hashes
      then some already_queued
      else if any_active key m.active m.tasks
      then some already_active
      else if live key
      then some already_in_client
      else if ignore_index
      then none
      else if stripped_status_is (codes "complete") (lookup key m.statuses)
      then some already_complete
      else none

  -- `live` tells whether the torrent client knows the hash.
  unfoldable pub duplicate_download_reason : (Text → Bool) → Text → Bool → Manager → Option Reason
  unfolding reason_for
  duplicate_download_reason live hash_value ignore_index m =
      reason_for live (canonicalize_infohash b32decode hash_value) ignore_index m

  unfoldable pub chosen_hash : Text → Option Text → Text
  chosen_hash hash_value none = hash_value
  chosen_hash hash_value (some key) = key

  unfoldable pub enqueue_checked :
      Option Reason → ℕ → Text → Text → Option Text → Manager → Manager × Enqueued
  enqueue_checked none anime_id url hash_value resolved m =
      put_task anime_id url hash_value resolved m
  enqueue_checked (some reason) anime_id url hash_value resolved m = (m, skipped reason)

  unfoldable pub reason_of : (Text → Bool) → Option Text → Bool → Manager → Option Reason
  reason_of live none cleared m = none
  reason_of live (some key) cleared m = duplicate_download_reason live key cleared m

  unfoldable pub enqueue_resolved :
      (Text → Bool) → ℕ → Text → Text → Option Text → Manager → Manager × Enqueued
  unfolding chosen_hash enqueue_checked reason_of
  enqueue_resolved live anime_id url hash0 resolved m0 =
      let hash_value = chosen_hash hash0 resolved in
      let (db, cleared) = clear_deleted_status hash_value m0.statuses in
      let m = record m0 { statuses = db } in
      enqueue_checked (reason_of live resolved cleared m) anime_id url hash_value resolved m

  -- No url and no hash are empty texts.
  unfoldable pub enqueue_download : (Text → Bool) → ℕ → Text → Text → Manager → Manager × Enqueued
  unfolding is_empty enqueue_resolved
  enqueue_download live anime_id url hash m =
      if is_empty url && is_empty hash
      then (m, refused)
      else enqueue_resolved live anime_id url hash (resolve_download_hash b32decode url hash) m

  unfoldable pub cancel_in_flight : Text → Manager → Manager × Bool
  cancel_in_flight key m0 =
      let (m, flagged) = cancel_in_flight_hash key m0 in
      (
        record m {
          tasks = cancel_tasks (with_key key m.tasks m.active) m.tasks;
          active = without_key key m.tasks m.active;
        },
        flagged || any_active key m.active m.tasks,
      )

  unfoldable pub cancel_resolved :
      (Text → Bool) → Option Text → Manager → Manager × Option Text × Bool
  cancel_resolved live none m = (m, none, false)
  cancel_resolved live (some key) m =
      let (m', cancelled) = cancel_in_flight key m in
      (m', if live key then some key else none, if live key then true else cancelled)

  -- The manager, the hash that is removed from the client, and the answer.
  unfoldable pub cancel_download_by_hash :
      (Text → Bool) → Text → Manager → Manager × Option Text × Bool
  cancel_download_by_hash live hash_value m =
      cancel_resolved live (canonicalize_infohash b32decode hash_value) m

  -- `cancel_download` run alone: whether there was a task of the anime. Only its first step holds the lock.
  unfoldable pub cancel_unlocked : Option Text → Manager → Manager
  unfolding discard_queued add_cancelled
  cancel_unlocked none m = m
  cancel_unlocked (some key) m = add_cancelled key (discard_queued key m)

  unfoldable pub number_key : Option Task → Option Text
  number_key none = none
  number_key (some t) = key_of t

  unfoldable pub cancel_found : Option ℕ → Manager → Manager × Bool
  unfolding cancel_unlocked number_key cancel_number
  cancel_found none m = (m, false)
  cancel_found (some n) m =
      (cancel_unlocked (number_key (task_at n m.tasks)) (cancel_number n m), true)

  unfoldable pub cancel_active : ℕ → Manager → Manager × Bool
  unfolding cancel_found pop_active
  cancel_active anime_id m = cancel_found (lookup anime_id m.active) (pop_active anime_id m)

  unfoldable pub is_cancelled : Task → Manager → Bool
  unfolding member_key
  is_cancelled t m = t.cancelled || member_key (key_of t) m.cancelled_hashes

  -- A cancelled task is answered with False, and its hash leaves both sets.
  unfoldable pub drop_cancelled : ℕ → Task → Manager → Manager
  unfolding discard_key
  drop_cancelled n t m = record m {
    tasks = set_task n (answer false finished t) m.tasks;
    queued_hashes = discard_key (key_of t) m.queued_hashes;
    cancelled_hashes = discard_key (key_of t) m.cancelled_hashes;
  }

  -- `closed` tells whether the executor is gone.
  unfoldable pub take_one : Bool → Bool → ℕ → Task → Manager → Manager
  unfolding is_cancelled drop_cancelled
  take_one true accepted n t m = record m {
    tasks = set_task n (record t { phase = finished }) m.tasks;
  }
  take_one false accepted n t m = if is_cancelled t m then drop_cancelled n t m else record m {
    tasks = set_task n (record t { phase = if accepted then submitted else finished }) m.tasks;
  }

  unfoldable pub take_found : Bool → ℕ → Option Task → Manager → Manager
  unfolding take_one
  take_found accepted n none m = m
  take_found accepted n (some t) m = take_one m.closed accepted n t m

  unfoldable pub take_from : Bool → List ℕ → Manager → Manager
  unfolding take_found
  take_from accepted [] m = m
  take_from accepted (n ∷ rest) m =
      take_found accepted n (task_at n m.tasks) (record m { queue = rest })

  -- One turn of `_process_download_queue`. `accepted` tells whether the executor takes the task.
  unfoldable pub take_task : Bool → Manager → Manager
  unfolding take_from
  take_task accepted m = take_from accepted m.queue m

  unfoldable pub deliver : Delivery → Task → Option Text → Task
  unfolding with_hash is_empty
  deliver o t none = answer false (ending false) t
  deliver o t (some hash) =
      let t' = with_hash hash t in
      if o.has_folder && o.saved
      then answer o.delivered (ending o.delivered) t'
      else answer false (ending false) t'

  -- One step of the worker that runs the task.
  unfoldable pub advance_task : Delivery → ℕ → Task → Manager → Phase → Manager
  unfolding is_cancelled drop_cancelled deliver discard_key
  advance_task o n t m waiting = m
  advance_task o n t m submitted = if is_cancelled t m then drop_cancelled n t m else record m {
    tasks = set_task n (record t { phase = registered }) m.tasks;
    active = insert t.anime_id n m.active;
  }
  advance_task o n t m registered = record m {
    tasks =
        set_task n
          (if is_cancelled t m then answer false (ending false) t else answer true preparing t)
          m.tasks;
  }
  advance_task o n t m preparing = record m {
    tasks =
        set_task n
          (if is_cancelled t m then answer false (ending false) t else deliver o t o.torrent)
          m.tasks;
  }
  advance_task o n t m (ending keep_visible) = record m {
    tasks = set_task n (record t { phase = finished }) m.tasks;
    queued_hashes = discard_key (key_of t) m.queued_hashes;
    active = if keep_visible then m.active else remove t.anime_id m.active;
  }
  advance_task o n t m finished = m

  unfoldable pub execute_found : Delivery → ℕ → Option Task → Manager → Manager
  unfolding advance_task
  execute_found o n none m = m
  execute_found o n (some t) m = advance_task o n t m t.phase

  unfoldable pub execute_download : Delivery → ℕ → Manager → Manager
  unfolding execute_found
  execute_download o n m = execute_found o n (task_at n m.tasks) m
