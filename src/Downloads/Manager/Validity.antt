-- ===== src/Downloads/Manager/Validity.antt =====
-- The invariant of the download manager.
use anime_manager.Base.{
  ℕ, ◌≡◌, refl, Bool, true, false, List, Option, none, some, arith, ◌==◌ as nat_beq,
}
use anime_manager.Base.Dict.{Dict, member, nat_eq, member-discard}
use anime_manager.Base.Text.{Text, text_eq}
use anime_manager.Downloads.Hashes.{canonicalize_infohash}
use anime_manager.Downloads.Manager.{
  Task, Manager, new_manager, task_at, set_task, close, cancel_in_flight_hash, cancel_in_flight,
  cancel_download_by_hash, cancel_resolved, with_key, pop_active, cancel_number, discard_queued,
  add_cancelled,
}
use anime_manager.Downloads.Manager.Tasks.{
  is_waiting, Waits, owns, owned, owned-set_task, owned-cancel_task, owned-cancel_tasks,
  cancel_tasks-Waits, cancel_task-Waits, set_task-Waits,
}
use anime_manager.Downloads.Manager.Sets.{Apart, cancel-Apart, discard_queued-Apart, add-Apart}

module _ (b32decode : Text → Option (List ℕ)) (exempt : List Text) where
  -- No hash is queued and cancelled at once, but for the exempt ones; whatever hash is queued, in an open manager, is that of a
  -- task that is not finished; and whatever task waits is in the queue.
  pub record IsValid (m : Manager) : Type 0 where
    pub apart : Apart exempt m.queued_hashes m.cancelled_hashes
    pub pending :
        m.closed ≡ false
        → (h : Text) → member h m.queued_hashes ≡ true
        → owned b32decode h m.tasks ≡ true
    pub waits : Waits m.tasks m.queue

  pub new_manager-IsValid : (db : Dict Text Text) → IsValid (new_manager db)
  unfolding new_manager member task_at
  new_manager-IsValid db = record {
    apart = λ h free q. refl;
    pending = λ alive h q. absurd (cc);
    waits = λ j t at w. absurd (cc);
  }

  pub close-IsValid : (m : Manager) → IsValid m → IsValid (close m)
  unfolding close member
  close-IsValid m v = record {
    apart = λ h free q. refl;
    pending = λ alive h q. absurd (cc);
    waits = cancel_tasks-Waits m.active m.tasks m.queue v.waits;
  }

  pub cancel_in_flight_hash-IsValid :
      (key : Text) (m : Manager) → IsValid m → IsValid (cancel_in_flight_hash key m).0
  unfolding cancel_in_flight_hash
  cancel_in_flight_hash-IsValid key m v = record {
    apart = cancel-Apart exempt key m.queued_hashes m.cancelled_hashes v.apart;
    pending = λ alive h q. v.pending alive h (ground (arith, member-discard key h m.queued_hashes));
    waits = v.waits;
  }

  pub cancel_in_flight-IsValid :
      (key : Text) (m : Manager) → IsValid m → IsValid (cancel_in_flight b32decode key m).0
  unfolding cancel_in_flight
  cancel_in_flight-IsValid key m v =
      let w = cancel_in_flight_hash-IsValid key m v in
      let m' = (cancel_in_flight_hash key m).0 in
      record {
        apart = w.apart;
        pending = λ alive h q.
            owned-cancel_tasks b32decode h (with_key b32decode key m'.tasks m'.active) m'.tasks
              (w.pending alive h q);
        waits =
            cancel_tasks-Waits (with_key b32decode key m'.tasks m'.active) m'.tasks m'.queue
              w.waits;
      }

  cancel_resolved-IsValid :
      (live : Text → Bool) (o : Option Text) (m : Manager)
      → IsValid m
      → IsValid (cancel_resolved b32decode live o m).0
  unfolding cancel_resolved
  cancel_resolved-IsValid live none m v = v
  cancel_resolved-IsValid live (some key) m v = cancel_in_flight-IsValid key m v

  pub cancel_download_by_hash-IsValid :
      (live : Text → Bool) (hash : Text) (m : Manager)
      → IsValid m
      → IsValid (cancel_download_by_hash b32decode live hash m).0
  unfolding cancel_download_by_hash
  cancel_download_by_hash-IsValid live hash m v =
      cancel_resolved-IsValid live (canonicalize_infohash b32decode hash) m v

  -- A step of one task: its sets may shrink by its own hash, if it is finished.
  pub set_task-IsValid :
      (m : Manager) (n : ℕ) (t u : Task) (queue q c : List _) (active : Dict ℕ ℕ)
      → task_at n m.tasks ≡ some u
      → is_waiting t.phase ≡ false
      → ((j : ℕ) → nat_beq n j ≡ false → member j m.queue ≡ true → member j queue ≡ true)
      → Apart exempt q c
      → (m.closed ≡ false
          → (h : Text) → member h q ≡ true
          → (member h m.queued_hashes ≡ true)
            × (owns b32decode h u ≡ true → owns b32decode h t ≡ true))
      → IsValid m
      → IsValid (record m {
        tasks = set_task n t m.tasks;
        queue = queue;
        active = active;
        queued_hashes = q;
        cancelled_hashes = c;
      })
  set_task-IsValid m n t u queue q c active e moved keeps apart shrinks v = record {
    apart = apart;
    pending = λ alive h queued.
        owned-set_task b32decode h n t u m.tasks e (shrinks alive h queued).1
          (v.pending alive h (shrinks alive h queued).0);
    waits = set_task-Waits n t u m.tasks m.queue queue e moved keeps v.waits;
  }

  pub pop_active-IsValid :
      (anime_id : ℕ) (m : Manager) → IsValid m → IsValid (pop_active anime_id m)
  unfolding pop_active
  pop_active-IsValid anime_id m v = record { apart = v.apart; pending = v.pending; waits = v.waits }

  pub cancel_number-IsValid : (n : ℕ) (m : Manager) → IsValid m → IsValid (cancel_number n m)
  unfolding cancel_number
  cancel_number-IsValid n m v = record {
    apart = v.apart;
    pending = λ alive h q.
        owned-cancel_task b32decode h n (task_at n m.tasks) m.tasks refl (v.pending alive h q);
    waits = cancel_task-Waits n (task_at n m.tasks) m.tasks m.queue refl v.waits;
  }

  pub discard_queued-IsValid :
      (key : Text) (m : Manager) → IsValid m → IsValid (discard_queued key m)
  unfolding discard_queued
  discard_queued-IsValid key m v = record {
    apart = discard_queued-Apart exempt key m.queued_hashes m.cancelled_hashes v.apart;
    pending = λ alive h q. v.pending alive h (ground (arith, member-discard key h m.queued_hashes));
    waits = v.waits;
  }

  pub add_cancelled-IsValid :
      (key : Text) (m : Manager)
      → member key exempt ≡ true
      → IsValid m
      → IsValid (add_cancelled key m)
  unfolding add_cancelled
  add_cancelled-IsValid key m marked v = record {
    apart = add-Apart exempt key m.queued_hashes m.cancelled_hashes marked v.apart;
    pending = v.pending;
    waits = v.waits;
  }
