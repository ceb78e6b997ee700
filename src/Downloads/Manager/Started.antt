-- ===== src/Downloads/Manager/Started.antt =====
-- What an enqueue that starts a download tells of its hash.
use anime_manager.Base.{
  ℕ, ◌≡◌, ◌≤◌, length, refl, ◌⊎◌, inl, inr, ◌∙◌, ap, sym, Bool, true, false, ◌&&◌, List, [], ◌∷◌,
  Option, none, some, arith, Bool-cases,
}
use anime_manager.Base.Dict.{Dict, lookup, member, member-add, member-discard}
use anime_manager.Base.Text.{
  Text, codes, text_eq, text_beq, text_beq_iff, lower, lstrip, rstrip, strip,
}
use anime_manager.Downloads.Hashes.{canonicalize_infohash, resolve_download_hash}
use anime_manager.Downloads.Hashes.Canonical.{resolve_download_hash-canonical}
use anime_manager.Downloads.Status.{clear_deleted_status, status_is, stripped_status_is}
use anime_manager.Downloads.Manager.{
  Manager, any_active, put_task, enqueue_download, enqueue_resolved, chosen_hash, enqueue_checked,
  reason_of, reason_for, duplicate_download_reason, started, Reason, is_empty,
}

length-lstrip : (t : Text) → length (lstrip t) ≤ length t
unfolding lstrip
length-lstrip [] = omega arith
length-lstrip (c ∷ t) = ground (arith, length-lstrip t)

length-rstrip : (t : Text) → length (rstrip t) ≤ length t
unfolding rstrip
length-rstrip [] = omega arith
length-rstrip (c ∷ t) = ground (arith, length-rstrip t)

length-strip : (t : Text) → length (strip t) ≤ length t
unfolding strip
length-strip t = omega (arith, length-rstrip (lstrip t), length-lstrip t)

length-lower : (t : Text) → length (lower t) ≡ length t
unfolding lower
length-lower [] = refl
length-lower (c ∷ t) = omega (arith, length-lower t)

-- A status that is cleared is too short to be the one of a complete torrent.
deleted-incomplete :
    (o : Option Text)
    → status_is (codes "deleted") o ≡ true
    → stripped_status_is (codes "complete") o ≡ false
unfolding status_is stripped_status_is
deleted-incomplete none h = refl
deleted-incomplete (some t) h = elim (Bool-cases (text_beq (lower (strip t)) (codes "complete"))) [
  | inl complete ↦
      let seven : length (lower t) ≡ 7 =
        ap length ((text_beq_iff (lower t) (codes "deleted")).0 h) in
      let eight : length (lower (strip t)) ≡ 8 =
        ap length ((text_beq_iff (lower (strip t)) (codes "complete")).0 complete) in
      absurd (omega (arith, seven, eight, length-lower t, length-lower (strip t), length-strip t))
  | inr other ↦ other
]

clear_deleted_status-cleared :
    (key : Text) (db : Dict Text Text)
    → (clear_deleted_status key db).1 ≡ true
    → status_is (codes "deleted") (lookup key db) ≡ true
unfolding clear_deleted_status
clear_deleted_status-cleared [] db h = absurd (cc)
clear_deleted_status-cleared (c ∷ s) db h = ground arith

clear_deleted_status-kept :
    (key : Text) (db : Dict Text Text)
    → (clear_deleted_status key db).1 ≡ false
    → (clear_deleted_status key db).0 ≡ db
unfolding clear_deleted_status
clear_deleted_status-kept [] db h = refl
clear_deleted_status-kept (c ∷ s) db h = ground arith

-- A hash that is cleared, or not complete after the clearing, was not complete before it.
cleared-incomplete :
    (key : Text) (db : Dict Text Text)
    → ((clear_deleted_status key db).1 ≡ true)
      ⊎ (stripped_status_is (codes "complete") (lookup key (clear_deleted_status key db).0) ≡ false)
    → stripped_status_is (codes "complete") (lookup key db) ≡ false
cleared-incomplete key db h = elim (Bool-cases (clear_deleted_status key db).1) [
  | inl cleared ↦ deleted-incomplete (lookup key db) (clear_deleted_status-cleared key db cleared)
  | inr kept ↦ elim h [
    | inl cleared ↦ deleted-incomplete (lookup key db) (clear_deleted_status-cleared key db cleared)
    | inr incomplete ↦
        ap (λ d. stripped_status_is (codes "complete") (lookup key d))
          (sym (clear_deleted_status-kept key db kept))
        ∙ incomplete
  ]
]

module _ (b32decode : Text → Option (List ℕ)) where
  -- The hash is not queued, not active, not in the client and not complete.
  abbrev pub Startable : (Text → Bool) → Text → Manager → Type 0
  Startable live key m =
      (member key m.queued_hashes ≡ false)
      × (any_active b32decode key m.active m.tasks ≡ false)
      × (live key ≡ false)
      × (stripped_status_is (codes "complete") (lookup key m.statuses) ≡ false)

  reason_for-none :
      (live : Text → Bool) (key : Text) (cleared : Bool) (m : Manager)
      → reason_for b32decode live (some key) cleared m ≡ none
      → (member key m.queued_hashes ≡ false)
        × (any_active b32decode key m.active m.tasks ≡ false)
        × (live key ≡ false)
        × ((cleared ≡ true)
            ⊎ (stripped_status_is (codes "complete") (lookup key m.statuses) ≡ false))
  unfolding reason_for
  reason_for-none live key cleared m e = (ground arith, ground arith, ground arith, ground arith)

  reason-Startable :
      (live : Text → Bool) (key : Text) (m : Manager)
      → let (db, cleared) = clear_deleted_status key m.statuses in
        reason_of b32decode live (some key) cleared (record m { statuses = db }) ≡ none
        → canonicalize_infohash b32decode key ≡ some key
        → Startable live key m
  unfolding reason_of duplicate_download_reason
  reason-Startable live key m e canonical =
      let (db, cleared) = clear_deleted_status key m.statuses in
      let (unqueued, inactive, absent, incomplete) =
        reason_for-none live key cleared (record m { statuses = db })
          (ap (λ o. reason_for b32decode live o cleared (record m { statuses = db }))
              (sym canonical)
            ∙ e) in
      (unqueued, inactive, absent, cleared-incomplete key m.statuses incomplete)

  enqueue_checked-started :
      (o : Option Reason) (anime_id n : ℕ) (url hash : Text) (resolved : Option Text) (m : Manager)
      → (enqueue_checked b32decode o anime_id url hash resolved m).1 ≡ started n
      → o ≡ none
  unfolding enqueue_checked
  enqueue_checked-started none anime_id n url hash resolved m e = refl
  enqueue_checked-started (some r) anime_id n url hash resolved m e = absurd (cc)

  put_task-queued :
      (anime_id n : ℕ) (url hash key : Text) (m : Manager)
      → (put_task anime_id url hash (some key) m).1 ≡ started n
      → (member key (put_task anime_id url hash (some key) m).0.queued_hashes ≡ true)
        × (member key (put_task anime_id url hash (some key) m).0.cancelled_hashes ≡ false)
  unfolding put_task
  put_task-queued anime_id n url hash key m e = elim (Bool-cases (member key m.queued_hashes)) [
    | inl old ↦ absurd (ground arith)
    | inr new ↦ rw new (
      ground (arith, member-add key key m.queued_hashes, text_beq_iff key key),
      ground (arith, member-discard key key m.cancelled_hashes, text_beq_iff key key),
    )
  ]

  enqueue_checked-queued :
      (o : Option Reason) (anime_id n : ℕ) (url hash key : Text) (m : Manager)
      → (enqueue_checked b32decode o anime_id url hash (some key) m).1 ≡ started n
      → (member key (enqueue_checked b32decode o anime_id url hash (some key) m).0.queued_hashes
          ≡ true)
        × (member key
              (enqueue_checked b32decode o anime_id url hash (some key) m).0.cancelled_hashes
            ≡ false)
  unfolding enqueue_checked
  enqueue_checked-queued none anime_id n url hash key m e =
      put_task-queued anime_id n url hash key m e
  enqueue_checked-queued (some r) anime_id n url hash key m e = absurd (cc)

  -- The state after an enqueue that started a download.
  abbrev pub Queued : Text → Manager → Type 0
  Queued key m = (member key m.queued_hashes ≡ true) × (member key m.cancelled_hashes ≡ false)

  enqueue_resolved-started :
      (live : Text → Bool) (anime_id n : ℕ) (url hash key : Text) (m : Manager)
      → canonicalize_infohash b32decode key ≡ some key
      → (enqueue_resolved b32decode live anime_id url hash (some key) m).1 ≡ started n
      → Startable live key m
        × Queued key (enqueue_resolved b32decode live anime_id url hash (some key) m).0
  unfolding enqueue_resolved chosen_hash
  enqueue_resolved-started live anime_id n url hash key m canonical e =
      let (db, cleared) = clear_deleted_status key m.statuses in
      let m' = record m { statuses = db } in
      let reason = reason_of b32decode live (some key) cleared m' in
      (
        reason-Startable live key m
            (enqueue_checked-started reason anime_id n url key (some key) m' e) canonical,
        enqueue_checked-queued reason anime_id n url key key m' e,
      )

  -- An enqueue whose hash is known and that starts a download found the hash neither queued nor active nor
  -- in the client nor complete, and has queued it and taken back its cancellation.
  pub enqueue_download-started :
      (live : Text → Bool) (anime_id n : ℕ) (url hash key : Text) (m : Manager)
      → resolve_download_hash b32decode url hash ≡ some key
      → (enqueue_download b32decode live anime_id url hash m).1 ≡ started n
      → Startable live key m × Queued key (enqueue_download b32decode live anime_id url hash m).0
  unfolding enqueue_download
  enqueue_download-started live anime_id n url hash key m known e =
      elim (Bool-cases (is_empty url && is_empty hash)) [
        | inl nothing ↦ absurd (ground arith)
        | inr wanted ↦
            rw (wanted, known)
              (enqueue_resolved-started live anime_id n url hash key m
                (resolve_download_hash-canonical b32decode url hash key known)
                (ap (λ o. (enqueue_resolved b32decode live anime_id url hash o m).1) (sym known)
                  ∙ ground arith))
      ]
