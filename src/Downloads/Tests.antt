-- ===== src/Downloads/Tests.antt =====
-- Runs of the download manager, and its theorems at concrete downloads.
use anime_manager.Base.{ℕ, ◌≡◌, refl, ap, Bool, true, false, List, [], ◌∷◌, Option, none, some}
use anime_manager.Base.Dict.{lookup, member, insert, remove, add, discard}
use anime_manager.Base.Text.{Text, codes, text_eq, text_beq, strip, lower}
use anime_manager.Downloads.Hashes.{
  canonicalize_infohash, canonical_text, all_hex, resolve_download_hash, prefer, after_prefix,
  search_infohash, hash_from_magnet, after_magnet, in_magnet,
}
use anime_manager.Downloads.Hashes.Canonical.{canonicalize_infohash_idem}
use anime_manager.Downloads.Status.{clear_deleted_status, status_is, stripped_status_is}
use anime_manager.Downloads.Manager.{
  Manager, new_manager, new_task, task_at, set_task, Delivery, put_task, enqueue_download,
  enqueue_resolved, cancel_download_by_hash, cancel_resolved, cancel_in_flight,
  cancel_in_flight_hash, cancel_tasks, key_of, started, is_empty, chosen_hash, enqueue_checked,
  reason_of, duplicate_download_reason, reason_for, any_active, with_key, without_key, take_task,
  take_from, take_found, take_one, is_cancelled, member_key, execute_download, execute_found,
  advance_task, pop_active, cancel_number, cancel_task, discard_queued, add_cancelled,
}
use anime_manager.Downloads.Manager.Requests.{
  Request, run, step, marked_unlocked, run_downloads-IsValid,
}
use anime_manager.Downloads.Manager.Validity.{IsValid}
use anime_manager.Downloads.Manager.Cancelled.{
  Dropped, cancel-take_task, cancel_download_by_hash-clears,
}
use anime_manager.Downloads.Manager.Started.{Startable, Queued, enqueue_download-started}

abbrev no_base32 : Text → Option (List ℕ)
no_base32 t = none

abbrev offline : Text → Bool
offline t = false

-- The link of a torrent, and its hash.
abbrev magnet : Text
magnet = codes "magnet:?dn=x&xt=urn:btih:AB12&tr=y"

abbrev hash : Text
hash = codes "ab12"

abbrev delivery : Delivery
delivery = record { torrent = some hash; has_folder = true; saved = true; delivered = true }

magnet-hash : resolve_download_hash no_base32 magnet [] ≡ some hash
unfolding resolve_download_hash prefer after_prefix search_infohash hash_from_magnet after_magnet
    in_magnet canonicalize_infohash canonical_text all_hex strip lower
magnet-hash = refl

hash-canonical : canonicalize_infohash no_base32 (codes " AB12 ") ≡ some hash
unfolding canonicalize_infohash canonical_text all_hex strip lower
hash-canonical = refl

abbrev queued : Manager
queued = record (new_manager []) {
  tasks = new_task 7 magnet hash ∷ [];
  queue = 0 ∷ [];
  queued_hashes = hash ∷ [];
}

enqueued : enqueue_download no_base32 offline 7 magnet [] (new_manager []) ≡ (queued, started 0)
unfolding enqueue_download enqueue_resolved is_empty chosen_hash enqueue_checked reason_of
    duplicate_download_reason reason_for any_active put_task resolve_download_hash prefer
    after_prefix search_infohash hash_from_magnet after_magnet in_magnet canonicalize_infohash
    canonical_text all_hex strip lower member lookup text_beq clear_deleted_status status_is
    stripped_status_is new_manager add discard
enqueued = refl

started_0 : (enqueue_download no_base32 offline 7 magnet [] (new_manager [])).1 ≡ started 0
started_0 = ap (λ r. r.1) enqueued

enqueue_download-started_example :
    Startable no_base32 offline hash (new_manager [])
    × Queued no_base32 hash (enqueue_download no_base32 offline 7 magnet [] (new_manager [])).0
enqueue_download-started_example =
    enqueue_download-started no_base32 offline 7 0 magnet [] hash (new_manager []) magnet-hash
      started_0

canonical_hash : canonicalize_infohash no_base32 hash ≡ some hash
canonical_hash = canonicalize_infohash_idem no_base32 (codes " AB12 ") hash hash-canonical

key-of_new_task : key_of no_base32 (new_task 7 magnet hash) ≡ some hash
unfolding key_of new_task
key-of_new_task = canonical_hash

cancel-take_task_example :
    Dropped no_base32 hash 0 (
      take_task no_base32 true
        (cancel_download_by_hash no_base32 offline (codes " AB12 ") queued).0)
unfolding task_at new_manager
cancel-take_task_example =
    cancel-take_task no_base32 offline true (codes " AB12 ") hash 0 [] (new_task 7 magnet hash)
      queued hash-canonical refl refl refl key-of_new_task

cancel_download_by_hash-clears_example :
    (member hash (cancel_download_by_hash no_base32 offline (codes " AB12 ") queued).0.queued_hashes
      ≡ false)
    × (any_active no_base32 hash
          (cancel_download_by_hash no_base32 offline (codes " AB12 ") queued).0.active
          (cancel_download_by_hash no_base32 offline (codes " AB12 ") queued).0.tasks
        ≡ false)
    × (member hash
          (cancel_download_by_hash no_base32 offline (codes " AB12 ") queued).0.cancelled_hashes
        ≡ true)
cancel_download_by_hash-clears_example =
    cancel_download_by_hash-clears no_base32 offline (codes " AB12 ") hash queued hash-canonical

abbrev requests : List Request
requests =
    Request.enqueue offline 7 magnet []
    ∷ Request.enqueue offline 8 (codes "https://nyaa.si/1.torrent") []
    ∷ Request.take true
    ∷ Request.execute delivery 0
    ∷ Request.cancel_hash offline hash
    ∷ Request.execute delivery 0
    ∷ Request.take true
    ∷ Request.execute delivery 1
    ∷ Request.pop_anime 8
    ∷ Request.cancel_task_number 1
    ∷ Request.stop
    ∷ []

run_downloads-IsValid_example :
    IsValid no_base32 (marked_unlocked requests) (run no_base32 (new_manager []) requests)
run_downloads-IsValid_example =
    run_downloads-IsValid no_base32 [] requests
      (tt, (tt, (refl, (tt, (tt, (tt, (refl, (tt, (tt, (tt, (tt, tt)))))))))))

-- An enqueue between the two unlocked steps of a cancellation leaves its hash queued and cancelled.
abbrev raced : Manager
raced = run no_base32 (new_manager []) (
    Request.enqueue offline 7 [] hash
    ∷ Request.take true
    ∷ Request.execute delivery 0
    ∷ Request.pop_anime 7
    ∷ Request.cancel_task_number 0
    ∷ Request.discard_hash hash
    ∷ Request.enqueue offline 8 [] hash
    ∷ Request.mark_cancelled hash
    ∷ [])

queued_and_cancelled :
    (member hash raced.queued_hashes ≡ true) × (member hash raced.cancelled_hashes ≡ true)
unfolding run step enqueue_download enqueue_resolved is_empty chosen_hash enqueue_checked reason_of
    duplicate_download_reason reason_for any_active put_task resolve_download_hash prefer
    hash_from_magnet after_magnet after_prefix canonicalize_infohash canonical_text all_hex strip
    lower member lookup insert remove text_beq clear_deleted_status status_is stripped_status_is
    new_manager add discard cancel_download_by_hash cancel_resolved cancel_in_flight
    cancel_in_flight_hash cancel_tasks take_task take_from take_found take_one is_cancelled
    member_key execute_download execute_found advance_task task_at set_task with_key without_key
    new_task pop_active cancel_number cancel_task discard_queued add_cancelled
queued_and_cancelled = (refl, refl)

-- A hash that is enqueued, cancelled and enqueued again, before the processor sees it.
abbrev twice : List Request
twice =
    Request.enqueue offline 7 [] hash
    ∷ Request.cancel_hash offline hash
    ∷ Request.enqueue offline 8 [] hash
    ∷ Request.take true
    ∷ Request.take true
    ∷ Request.execute delivery 0
    ∷ Request.execute delivery 1
    ∷ []

-- Both of its tasks are handed to workers and run side by side.
runs_twice : (run no_base32 (new_manager []) twice).active ≡ (7, 0) ∷ (8, 1) ∷ []
unfolding run step enqueue_download enqueue_resolved is_empty chosen_hash enqueue_checked reason_of
    duplicate_download_reason reason_for any_active put_task resolve_download_hash prefer
    hash_from_magnet after_magnet after_prefix canonicalize_infohash canonical_text all_hex strip
    lower member lookup insert remove text_beq clear_deleted_status status_is stripped_status_is
    new_manager add discard cancel_download_by_hash cancel_resolved cancel_in_flight
    cancel_in_flight_hash cancel_tasks take_task take_from take_found take_one is_cancelled
    member_key execute_download execute_found advance_task task_at set_task with_key without_key
    new_task
runs_twice = refl

-- A hash that nobody downloads: the cancellation claims success.
cancels_nothing : (cancel_download_by_hash no_base32 offline hash (new_manager [])).2 ≡ true
unfolding new_manager cancel_download_by_hash cancel_resolved cancel_in_flight cancel_in_flight_hash
    canonicalize_infohash canonical_text all_hex strip lower member any_active
cancels_nothing = refl
