-- ===== src/Downloads/Manager/Cancelled.antt =====
-- What a cancellation by hash does to the download.
use anime_manager.Base.{
  ℕ, ◌≡◌, refl, inl, inr, ◌∙◌, ap, sym, subst, Bool, true, false, ◌||◌, List, [], ◌∷◌, ◌++◌, Option,
  none, some, arith, Bool-cases, ◌==◌ as nat_beq, ==_iff,
}
use anime_manager.Base.Dict.{Dict, member, nat_eq, member-add, member-discard}
use anime_manager.Base.Text.{Text, text_eq, text_beq_iff}
use anime_manager.Downloads.Hashes.{canonicalize_infohash}
use anime_manager.Downloads.Manager.{
  Task, finished, Manager, task_at, cancel_task, cancel_tasks, has_key, found_key, any_active,
  with_key, without_key, key_of, cancel_in_flight_hash, cancel_in_flight, cancel_resolved,
  cancel_download_by_hash, take_task, take_from, take_found, take_one, drop_cancelled, is_cancelled,
  member_key, answer, discard_key,
}
use anime_manager.Downloads.Manager.Tasks.{task_at-set_task}

cancel_task-found :
    (n j : ℕ) (o : Option Task) (ts : List Task) (t : Task)
    → task_at n ts ≡ o
    → task_at j ts ≡ some t
    → (u : Task) × (task_at j (cancel_task n o ts) ≡ some u) × (u.hash_value ≡ t.hash_value)
unfolding cancel_task
cancel_task-found n j none ts t e at = (t, at, refl)
cancel_task-found n j (some v) ts t e at = elim (Bool-cases (nat_beq n j)) [
  | inl same ↦ (
    record v { cancelled = true },
    task_at-set_task n j (record v { cancelled = true }) v ts e ∙ rw same refl,
    agree (sym e ∙ ap (λ i. task_at i ts) ((==_iff n j).0 same) ∙ at),
  )
  | inr other ↦ (t, task_at-set_task n j (record v { cancelled = true }) v ts e ∙ rw other at, refl)
]
  where
    agree : some v ≡ some t → v.hash_value ≡ t.hash_value
    agree e' = cc

cancel_tasks-found :
    (d : Dict ℕ ℕ) (j : ℕ) (ts : List Task) (t : Task)
    → task_at j ts ≡ some t
    → (u : Task) × (task_at j (cancel_tasks d ts) ≡ some u) × (u.hash_value ≡ t.hash_value)
unfolding cancel_tasks
cancel_tasks-found [] j ts t at = (t, at, refl)
cancel_tasks-found ((a, n) ∷ d) j ts t at =
    let (u, at_u, same_u) = cancel_task-found n j (task_at n ts) ts t refl at in
    let (w, at_w, same_w) = cancel_tasks-found d j (cancel_task n (task_at n ts) ts) u at_u in
    (w, at_w, same_w ∙ same_u)

or_true : (b : Bool) → (b || true) ≡ true
or_true b = ground arith

module _ (b32decode : Text → Option (List ℕ)) where
  found_key-cancelled :
      (key : Text) (n j : ℕ) (o : Option Task) (ts : List Task)
      → task_at n ts ≡ o
      → found_key b32decode key (task_at j (cancel_task n o ts))
        ≡ found_key b32decode key (task_at j ts)
  unfolding cancel_task found_key key_of
  found_key-cancelled key n j none ts e = refl
  found_key-cancelled key n j (some v) ts e =
      rw (task_at-set_task n j (record v { cancelled = true }) v ts e)
        (elim (Bool-cases (nat_beq n j)) [
          | inl same ↦ rw (same, ← (==_iff n j).0 same, e) refl
          | inr other ↦ rw other refl
        ])

  has_key-cancel_tasks :
      (key : Text) (d : Dict ℕ ℕ) (j : ℕ) (ts : List Task)
      → has_key b32decode key (cancel_tasks d ts) j ≡ has_key b32decode key ts j
  unfolding cancel_tasks has_key
  has_key-cancel_tasks key [] j ts = refl
  has_key-cancel_tasks key ((a, n) ∷ d) j ts =
      has_key-cancel_tasks key d j (cancel_task n (task_at n ts) ts)
      ∙ found_key-cancelled key n j (task_at n ts) ts refl

  any_active-without_key :
      (key : Text) (d e : Dict ℕ ℕ) (ts : List Task)
      → any_active b32decode key (without_key b32decode key ts d) (cancel_tasks e ts) ≡ false
  unfolding any_active without_key
  any_active-without_key key [] e ts = refl
  any_active-without_key key ((a, n) ∷ d) e ts =
      ground (arith, any_active-without_key key d e ts, has_key-cancel_tasks key e n ts)

  cancel_in_flight-clears :
      (key : Text) (m : Manager)
      → let m' = (cancel_in_flight b32decode key m).0 in
        (member key m'.queued_hashes ≡ false)
        × (any_active b32decode key m'.active m'.tasks ≡ false)
        × (member key m'.cancelled_hashes ≡ true)
  unfolding cancel_in_flight cancel_in_flight_hash
  cancel_in_flight-clears key m = (
    ground (arith, member-discard key key m.queued_hashes, text_beq_iff key key),
    any_active-without_key key m.active (with_key b32decode key m.tasks m.active) m.tasks,
    ground (arith, member-add key key m.cancelled_hashes, text_beq_iff key key),
  )

  -- After a cancellation by hash the hash is not queued, no active download has it, and it is marked as
  -- cancelled.
  pub cancel_download_by_hash-clears :
      (live : Text → Bool) (hash key : Text) (m : Manager)
      → canonicalize_infohash b32decode hash ≡ some key
      → let m' = (cancel_download_by_hash b32decode live hash m).0 in
        (member key m'.queued_hashes ≡ false)
        × (any_active b32decode key m'.active m'.tasks ≡ false)
        × (member key m'.cancelled_hashes ≡ true)
  unfolding cancel_download_by_hash cancel_resolved
  cancel_download_by_hash-clears live hash key m e = rw e (cancel_in_flight-clears key m)

  -- Task `n` has ended, its last answer is False, and the hash is not marked as cancelled.
  abbrev pub Dropped : Text → ℕ → Manager → Type 0
  Dropped key n m =
      (u : Task) × (bs : List Bool) × (task_at n m.tasks ≡ some u)
      × (u.phase ≡ finished)
      × (u.answers ≡ bs ++ false ∷ [])
      × (member key m.cancelled_hashes ≡ false)

  take_one-cancelled :
      (accepted : Bool) (n : ℕ) (t : Task) (key : Text) (m : Manager)
      → task_at n m.tasks ≡ some t
      → key_of b32decode t ≡ some key
      → member key m.cancelled_hashes ≡ true
      → Dropped key n (take_one b32decode false accepted n t m)
  unfolding take_one is_cancelled member_key drop_cancelled answer discard_key
  take_one-cancelled accepted n t key m at is_key gone =
      rw (is_key, gone, or_true t.cancelled)
        (
          answer false finished t,
          t.answers,
          task_at-set_task n n (answer false finished t) t m.tasks at
              ∙ rw ((==_iff n n).1 refl) refl,
          refl,
          refl,
          ground (arith, member-discard key key m.cancelled_hashes, text_beq_iff key key),
        )

  take_task-cancelled :
      (accepted : Bool) (n : ℕ) (rest : List ℕ) (t : Task) (key : Text) (m : Manager)
      → m.queue ≡ n ∷ rest
      → m.closed ≡ false
      → task_at n m.tasks ≡ some t
      → key_of b32decode t ≡ some key
      → member key m.cancelled_hashes ≡ true
      → Dropped key n (take_task b32decode accepted m)
  unfolding take_task take_from take_found
  take_task-cancelled accepted n rest t key m head alive at is_key gone =
      let m' = record m { queue = rest } in
      subst (λ q. Dropped key n (take_from b32decode accepted q m)) (sym head)
        (subst (λ o. Dropped key n (take_found b32decode accepted n o m')) (sym at)
          (subst (λ closed. Dropped key n (take_one b32decode closed accepted n t m')) (sym alive)
            (take_one-cancelled accepted n t key m' at is_key gone)))

  -- In an open manager, when the task at the head of the queue has the hash that is cancelled, the
  -- processor's next turn ends that task unstarted with the answer False, and the hash is no longer marked
  -- as cancelled.
  pub cancel-take_task :
      (live : Text → Bool) (accepted : Bool) (hash key : Text) (n : ℕ) (rest : List ℕ) (t : Task)
      (m : Manager)
      → canonicalize_infohash b32decode hash ≡ some key
      → m.queue ≡ n ∷ rest
      → m.closed ≡ false
      → task_at n m.tasks ≡ some t
      → key_of b32decode t ≡ some key
      → Dropped key n
          (take_task b32decode accepted (cancel_download_by_hash b32decode live hash m).0)
  unfolding cancel_download_by_hash cancel_resolved cancel_in_flight cancel_in_flight_hash key_of
  cancel-take_task live accepted hash key n rest t m e head alive at is_key =
      let (u, at_u, same) =
        cancel_tasks-found (with_key b32decode key m.tasks m.active) n m.tasks t at in
      let (_, _, gone) = cancel_in_flight-clears key m in
      rw e (
        take_task-cancelled accepted n rest u key (cancel_in_flight b32decode key m).0 head alive
          at_u (ap (λ h. canonicalize_infohash b32decode h) same ∙ is_key) gone)
