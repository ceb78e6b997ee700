-- ===== src/Downloads/Manager/Enqueues.antt =====
-- Enqueueing keeps the invariant.
use anime_manager.Base.{
  ℕ, ◌≡◌, refl, inl, inr, ◌∙◌, Bool, true, ◌&&◌, List, [], ◌∷◌, ◌++◌, Option, none, some, arith,
  Bool-cases,
}
use anime_manager.Base.Dict.{member, ◌==◌, nat_eq, member-add}
use anime_manager.Base.Text.{Text, text_eq, text_beq_iff}
use anime_manager.Downloads.Hashes.{canonicalize_infohash, resolve_download_hash}
use anime_manager.Downloads.Hashes.Canonical.{resolve_download_hash-canonical}
use anime_manager.Downloads.Manager.{
  Task, Manager, key_of, same_key, put_task, enqueue_download, enqueue_resolved, chosen_hash,
  enqueue_checked, Reason, new_task, is_empty,
}
use anime_manager.Downloads.Manager.Tasks.{is_finished, append-Waits, owns, owned, owned-append}
use anime_manager.Downloads.Manager.Sets.{queue-Apart}
use anime_manager.Downloads.Manager.Validity.{IsValid}

module _ (b32decode : Text → Option (List ℕ)) (exempt : List Text) where
  new_task-owned :
      (anime_id : ℕ) (url hash key : Text) (ts : List Task)
      → canonicalize_infohash b32decode hash ≡ some key
      → owned b32decode key (ts ++ new_task anime_id url hash ∷ []) ≡ true
  unfolding owns is_finished new_task key_of same_key
  new_task-owned anime_id url hash key ts e =
      owned-append b32decode key (new_task anime_id url hash) ts
      ∙ rw e (ground (arith, text_beq_iff key key))

  old_task-owned :
      (h : Text) (t : Task) (ts : List Task)
      → owned b32decode h ts ≡ true
      → owned b32decode h (ts ++ t ∷ []) ≡ true
  old_task-owned h t ts o = owned-append b32decode h t ts ∙ rw o refl

  put_task-IsValid :
      (anime_id : ℕ) (url hash : Text) (o : Option Text) (m : Manager)
      → ((key : Text) → o ≡ some key → canonicalize_infohash b32decode hash ≡ some key)
      → IsValid b32decode exempt m
      → IsValid b32decode exempt (put_task anime_id url hash o m).0
  unfolding put_task
  put_task-IsValid anime_id url hash none m own v = record {
    apart = v.apart;
    pending = λ alive h q. old_task-owned h _ m.tasks (v.pending alive h q);
    waits = append-Waits _ m.tasks m.queue v.waits;
  }
  put_task-IsValid anime_id url hash (some key) m own v =
      elim (Bool-cases (member key m.queued_hashes)) [
        | inl old ↦ rw old v
        | inr new ↦ rw new (record {
          apart = queue-Apart exempt key m.queued_hashes m.cancelled_hashes v.apart;
          pending = λ alive h q. elim (Bool-cases (key == h)) [
            | inl same ↦
                rw (← (text_beq_iff key h).0 same)
                  (new_task-owned anime_id url hash key m.tasks (own key refl))
            | inr other ↦
                old_task-owned h _ m.tasks
                  (v.pending alive h (ground (arith, member-add key h m.queued_hashes)))
          ];
          waits = append-Waits _ m.tasks m.queue v.waits;
        })
      ]

  enqueue_checked-IsValid :
      (reason : Option Reason) (anime_id : ℕ) (url hash : Text) (o : Option Text) (m : Manager)
      → ((key : Text) → o ≡ some key → canonicalize_infohash b32decode hash ≡ some key)
      → IsValid b32decode exempt m
      → IsValid b32decode exempt (enqueue_checked b32decode reason anime_id url hash o m).0
  unfolding enqueue_checked
  enqueue_checked-IsValid none anime_id url hash o m own v =
      put_task-IsValid anime_id url hash o m own v
  enqueue_checked-IsValid (some reason) anime_id url hash o m own v = v

  chosen-canonical :
      (url hash : Text) (o : Option Text)
      → resolve_download_hash b32decode url hash ≡ o
      → (key : Text) → o ≡ some key
      → canonicalize_infohash b32decode (chosen_hash b32decode hash o) ≡ some key
  unfolding chosen_hash
  chosen-canonical url hash none e key is_key = absurd (cc)
  chosen-canonical url hash (some k) e key is_key =
      resolve_download_hash-canonical b32decode url hash k e ∙ is_key

  -- The locked part of an enqueue that was checked before.
  pub put_resolved-IsValid :
      (anime_id : ℕ) (url hash : Text) (m : Manager)
      → IsValid b32decode exempt m
      → let resolved = resolve_download_hash b32decode url hash in
        IsValid b32decode exempt
          (put_task anime_id url (chosen_hash b32decode hash resolved) resolved m).0
  put_resolved-IsValid anime_id url hash m v =
      put_task-IsValid anime_id url _ (resolve_download_hash b32decode url hash) m
        (chosen-canonical url hash (resolve_download_hash b32decode url hash) refl) v

  pub enqueue_download-IsValid :
      (live : Text → Bool) (anime_id : ℕ) (url hash : Text) (m : Manager)
      → IsValid b32decode exempt m
      → IsValid b32decode exempt (enqueue_download b32decode live anime_id url hash m).0
  unfolding enqueue_download enqueue_resolved
  enqueue_download-IsValid live anime_id url hash m v =
      elim (Bool-cases (is_empty url && is_empty hash)) [
        | inl nothing ↦ rw nothing v
        | inr wanted ↦ rw wanted (
            enqueue_checked-IsValid _ anime_id url _ (resolve_download_hash b32decode url hash) _
              (chosen-canonical url hash (resolve_download_hash b32decode url hash) refl)
              (record { apart = v.apart; pending = v.pending; waits = v.waits }))
      ]
