-- ===== src/Downloads/Manager/Steps.antt =====
-- The processor's thread and the workers keep the invariant.
use anime_manager.Base.{
  ℕ, ◌≡◌, refl, inl, inr, ◌∙◌, ap, sym, Bool, true, false, ◌&&◌, List, [], ◌∷◌, Option, none, some,
  arith, Bool-cases, if◌then◌else◌, ◌==◌ as nat_beq, ==_iff,
}
use anime_manager.Base.Dict.{Dict, insert, remove, member, nat_eq}
use anime_manager.Base.Text.{Text, text_eq, lower, strip}
use anime_manager.Downloads.Hashes.{canonicalize_infohash, canonical_text}
use anime_manager.Downloads.Manager.{
  Task, Phase, waiting, submitted, registered, preparing, ending, finished, Manager, task_at,
  set_task, key_of, same_key, take_task, take_from, take_found, take_one, drop_cancelled,
  is_cancelled, Delivery, deliver, with_hash, advance_task, execute_found, answer, execute_download,
  discard_key, is_empty,
}
use anime_manager.Downloads.Manager.Tasks.{is_waiting, is_finished, owns-keep, owns-other}
use anime_manager.Downloads.Manager.Sets.{discard_both-Apart, discard-Apart, member-discard_key}
use anime_manager.Downloads.Manager.Validity.{IsValid, set_task-IsValid}

module _ (b32decode : Text → Option (List ℕ)) (exempt : List Text) where
  drop_cancelled-IsValid :
      (n : ℕ) (t : Task) (queue : List ℕ) (m : Manager)
      → task_at n m.tasks ≡ some t
      → ((j : ℕ) → nat_beq n j ≡ false → member j m.queue ≡ true → member j queue ≡ true)
      → IsValid b32decode exempt m
      → IsValid b32decode exempt (drop_cancelled b32decode n t (record m { queue = queue }))
  unfolding drop_cancelled answer is_waiting
  drop_cancelled-IsValid n t queue m e keeps v =
      set_task-IsValid b32decode exempt m n (answer false finished t) t queue
        (discard_key (key_of b32decode t) m.queued_hashes)
        (discard_key (key_of b32decode t) m.cancelled_hashes) m.active e refl keeps
        (discard_both-Apart exempt (key_of b32decode t) m.queued_hashes m.cancelled_hashes v.apart)
        (λ alive h q.
          let (old, other) =
            member-discard_key b32decode (key_of b32decode t) m.queued_hashes h q in
          (old, λ o. absurd (ground (arith, owns-other b32decode h t other))))
        v

  -- The task goes on with its hash.
  keep_task-IsValid :
      (n : ℕ) (t u : Task) (queue : List ℕ) (active : Dict ℕ ℕ) (m : Manager)
      → task_at n m.tasks ≡ some u
      → is_waiting t.phase ≡ false
      → is_finished t.phase ≡ false
      → ((h : Text)
          → same_key b32decode h (key_of b32decode u) ≡ true
          → key_of b32decode t ≡ key_of b32decode u)
      → ((j : ℕ) → nat_beq n j ≡ false → member j m.queue ≡ true → member j queue ≡ true)
      → IsValid b32decode exempt m
      → IsValid b32decode exempt
          (record m { tasks = set_task n t m.tasks; queue = queue; active = active })
  keep_task-IsValid n t u queue active m e moved live same keeps v =
      set_task-IsValid b32decode exempt m n t u queue m.queued_hashes m.cancelled_hashes active e
        moved keeps v.apart (λ alive h q. (q, owns-keep b32decode h u t live (same h))) v

  -- The head of the queue leaves it.
  tail_keeps :
      (n : ℕ) (rest : List ℕ) (m : Manager)
      → m.queue ≡ n ∷ rest
      → (j : ℕ) → nat_beq n j ≡ false
      → member j m.queue ≡ true
      → member j rest ≡ true
  unfolding member
  tail_keeps n rest m e j other q =
      let q' : member j (n ∷ rest) ≡ true = ap (λ l. member j l) (sym e) ∙ q in ground arith

  take_one-IsValid :
      (closed : Bool) (n : ℕ) (t : Task) (rest : List ℕ) (m : Manager)
      → m.closed ≡ closed
      → task_at n m.tasks ≡ some t
      → m.queue ≡ n ∷ rest
      → IsValid b32decode exempt m
      → IsValid b32decode exempt (take_one b32decode closed true n t (record m { queue = rest }))
  unfolding take_one is_cancelled is_waiting is_finished key_of
  take_one-IsValid true n t rest m over e head v =
      set_task-IsValid b32decode exempt m n (record t { phase = finished }) t rest m.queued_hashes
        m.cancelled_hashes m.active e refl (tail_keeps n rest m head) v.apart
        (λ alive h q. absurd (cc)) v
  take_one-IsValid false n t rest m alive e head v =
      elim (Bool-cases (is_cancelled b32decode t m)) [
        | inl gone ↦ rw gone (drop_cancelled-IsValid n t rest m e (tail_keeps n rest m head) v)
        | inr wanted ↦ rw wanted (
            keep_task-IsValid n (record t { phase = submitted }) t rest m.active m e refl refl
              (λ h k. refl) (tail_keeps n rest m head) v)
      ]

  take_found-IsValid :
      (n : ℕ) (o : Option Task) (rest : List ℕ) (m : Manager)
      → task_at n m.tasks ≡ o
      → m.queue ≡ n ∷ rest
      → IsValid b32decode exempt m
      → IsValid b32decode exempt (take_found b32decode true n o (record m { queue = rest }))
  unfolding take_found
  take_found-IsValid n none rest m e head v = record {
    apart = v.apart;
    pending = v.pending;
    waits = λ j t at w. elim (Bool-cases (nat_beq n j)) [
      | inl same ↦ absurd (missing t (ap (λ i. task_at i m.tasks) ((==_iff n j).0 same) ∙ at))
      | inr other ↦ tail_keeps n rest m head j other (v.waits j t at w)
    ];
  }
    where
      missing : (t : Task) → task_at n m.tasks ≡ some t → ⊥
      missing t at = cc
  take_found-IsValid n (some t) rest m e head v = take_one-IsValid m.closed n t rest m refl e head v

  take_from-IsValid :
      (queue : List ℕ) (m : Manager)
      → m.queue ≡ queue
      → IsValid b32decode exempt m
      → IsValid b32decode exempt (take_from b32decode true queue m)
  unfolding take_from
  take_from-IsValid [] m head v = v
  take_from-IsValid (n ∷ rest) m head v =
      take_found-IsValid n (task_at n m.tasks) rest m refl head v

  -- A turn of the processor whose task the executor takes.
  pub take_task-IsValid :
      (m : Manager)
      → IsValid b32decode exempt m
      → IsValid b32decode exempt (take_task b32decode true m)
  unfolding take_task
  take_task-IsValid m v = take_from-IsValid m.queue m refl v

  no_key : (t : Task) → t.hash_value ≡ [] → key_of b32decode t ≡ none
  unfolding key_of canonicalize_infohash canonical_text lower strip
  no_key t e = ap (λ h. canonicalize_infohash b32decode h) e

  is_empty-nil : (s : Text) → is_empty s ≡ true → s ≡ []
  unfolding is_empty
  is_empty-nil [] e = refl
  is_empty-nil (c ∷ s) e = absurd (cc)

  -- A hash is only given to a task that has none.
  with_hash-key :
      (hash h : Text) (t : Task)
      → same_key b32decode h (key_of b32decode t) ≡ true
      → key_of b32decode (with_hash hash t) ≡ key_of b32decode t
  unfolding with_hash same_key
  with_hash-key hash h t held = elim (Bool-cases (is_empty t.hash_value)) [
    | inl bare ↦ absurd (unnamed (no_key t (is_empty-nil t.hash_value bare)))
    | inr named ↦ rw named refl
  ]
    where
      unnamed : key_of b32decode t ≡ none → ⊥
      unnamed e = ground arith

  deliver-key :
      (o : Delivery) (t : Task) (torrent : Option Text) (h : Text)
      → same_key b32decode h (key_of b32decode t) ≡ true
      → key_of b32decode (deliver b32decode o t torrent) ≡ key_of b32decode t
  unfolding deliver answer key_of
  deliver-key o t none h held = refl
  deliver-key o t (some hash) h held = elim (Bool-cases (o.has_folder && o.saved)) [
    | inl good ↦ rw good (with_hash-key hash h t held)
    | inr bad ↦ rw bad (with_hash-key hash h t held)
  ]

  deliver-phase :
      (o : Delivery) (t : Task) (torrent : Option Text)
      → (is_waiting (deliver b32decode o t torrent).phase ≡ false)
        × (is_finished (deliver b32decode o t torrent).phase ≡ false)
  unfolding deliver answer is_waiting is_finished
  deliver-phase o t none = (refl, refl)
  deliver-phase o t (some hash) = elim (Bool-cases (o.has_folder && o.saved)) [
    | inl good ↦ rw good (refl, refl)
    | inr bad ↦ rw bad (refl, refl)
  ]

  advance_task-IsValid :
      (o : Delivery) (n : ℕ) (t : Task) (m : Manager) (phase : Phase)
      → task_at n m.tasks ≡ some t
      → IsValid b32decode exempt m
      → IsValid b32decode exempt (advance_task b32decode o n t m phase)
  unfolding advance_task answer is_waiting is_finished key_of
  advance_task-IsValid o n t m waiting e v = v
  advance_task-IsValid o n t m submitted e v = elim (Bool-cases (is_cancelled b32decode t m)) [
    | inl gone ↦ rw gone (drop_cancelled-IsValid n t m.queue m e (λ j d q. q) v)
    | inr wanted ↦ rw wanted (
        keep_task-IsValid n (record t { phase = registered }) t m.queue
          (insert t.anime_id n m.active) m e refl refl (λ h k. refl) (λ j d q. q) v)
  ]
  advance_task-IsValid o n t m registered e v = elim (Bool-cases (is_cancelled b32decode t m)) [
    | inl gone ↦ rw gone (
        keep_task-IsValid n (answer false (ending false) t) t m.queue m.active m e refl refl
          (λ h k. refl) (λ j d q. q) v)
    | inr wanted ↦ rw wanted (
        keep_task-IsValid n (answer true preparing t) t m.queue m.active m e refl refl (λ h k. refl)
          (λ j d q. q) v)
  ]
  advance_task-IsValid o n t m preparing e v = elim (Bool-cases (is_cancelled b32decode t m)) [
    | inl gone ↦ rw gone (
        keep_task-IsValid n (answer false (ending false) t) t m.queue m.active m e refl refl
          (λ h k. refl) (λ j d q. q) v)
    | inr wanted ↦ rw wanted (
        keep_task-IsValid n (deliver b32decode o t o.torrent) t m.queue m.active m e
          (deliver-phase o t o.torrent).0 (deliver-phase o t o.torrent).1
          (deliver-key o t o.torrent) (λ j d q. q) v)
  ]
  advance_task-IsValid o n t m (ending keep_visible) e v =
      set_task-IsValid b32decode exempt m n (record t { phase = finished }) t m.queue
        (discard_key (key_of b32decode t) m.queued_hashes) m.cancelled_hashes
        (if keep_visible then m.active else remove t.anime_id m.active) e refl (λ j d q. q)
        (discard-Apart exempt (key_of b32decode t) m.queued_hashes m.cancelled_hashes v.apart)
        (λ alive h q.
          let (old, other) =
            member-discard_key b32decode (key_of b32decode t) m.queued_hashes h q in
          (old, λ k. absurd (ground (arith, owns-other b32decode h t other))))
        v
  advance_task-IsValid o n t m finished e v = v

  execute_found-IsValid :
      (o : Delivery) (n : ℕ) (found : Option Task) (m : Manager)
      → task_at n m.tasks ≡ found
      → IsValid b32decode exempt m
      → IsValid b32decode exempt (execute_found b32decode o n found m)
  unfolding execute_found
  execute_found-IsValid o n none m e v = v
  execute_found-IsValid o n (some t) m e v = advance_task-IsValid o n t m t.phase e v

  -- A step of a worker.
  pub execute_download-IsValid :
      (o : Delivery) (n : ℕ) (m : Manager)
      → IsValid b32decode exempt m
      → IsValid b32decode exempt (execute_download b32decode o n m)
  unfolding execute_download
  execute_download-IsValid o n m v = execute_found-IsValid o n (task_at n m.tasks) m refl v
