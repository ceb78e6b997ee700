-- ===== src/Transcoder/Ensured.antt =====
-- What a call of ensure_hls_session promises.
use anime_manager.Base.{
  ℕ, ◌+◌, ◌≤◌, ◌<◌, ◌≡◌, refl, sym, ap, subst, ◌∙◌, inl, inr, Bool, true, false, not, [], ◌∷◌,
  Option, none, some, max, arith, if◌then◌else◌, length, length-keep-le, Bool-cases, ==_iff,
}
use anime_manager.Base.Dict.{beq_refl, lookup, insert, lookup-insert, remove, lookup-remove}
use anime_manager.Base.Text.{Text, text_eq, text_beq_iff}
use anime_manager.Transcoder.{
  allows_reuse, Active, ActiveTranscode, Pool, Request, World, option_beq, seconds_of, clamp_start,
  reap, make_room, Outcome, reused, started, busy, spawn_failed, tools_missing, reuse_policy,
  must_purge, new_transcode, purge, register, launch, start_new, terminate, ensure_existing,
  ensure_locked, ensure_hls_session,
}
use anime_manager.Transcoder.Room.{Roomy, make_room-Roomy}

-- The encode that was asked for.
pub record IsAsked (r : Request) (seconds start : ℕ) (a : ActiveTranscode) : Type 0 where
  pub start_index : a.start_segment_index ≡ start
  pub seconds_each : a.segment_seconds ≡ seconds
  pub track : a.audio_track ≡ r.audio_track
  pub source : a.source_path ≡ r.source_path

-- The result of a call: the session has an encoder for what was asked, an old one that still runs or the
-- new process, within the bound of the pool; or the process could not be started and the session has none;
-- or the tools are missing.
abbrev pub Ensured : World → Request → ℕ → ℕ → ℕ → Outcome → Pool → Type 0
Ensured w r most seconds start (reused a) q =
    (lookup r.session_id q.active ≡ some a)
    × IsAsked r seconds start a
    × (w.exited_later a.process ≡ false)
    × (length q.active ≤ most)
Ensured w r most seconds start (started a) q =
    (lookup r.session_id q.active ≡ some a)
    × IsAsked r seconds start a
    × (w.spawned ≡ some a.process)
    × (length q.active ≤ most)
Ensured w r most seconds start busy q = ⊥
Ensured w r most seconds start spawn_failed q =
    (w.spawned ≡ none) × (lookup r.session_id q.active ≡ none) × (length q.active ≤ most)
Ensured w r most seconds start tools_missing q =
    (w.tools_available ≡ false) × (length q.active ≤ most)

pub if_cases :
    {A : Type 0} (P : A → Type 0) (b : Bool) {x y : A}
    → (b ≡ true → P x)
    → (b ≡ false → P y)
    → P (if b then x else y)
if_cases P true h k = h refl
if_cases P false h k = k refl

option_beq_eq : (a b : Option ℕ) → option_beq a b ≡ true → a ≡ b
unfolding option_beq
option_beq_eq none none h = refl
option_beq_eq none (some b) h = absurd (cc)
option_beq_eq (some a) none h = absurd (cc)
option_beq_eq (some a) (some b) h = ap some ((==_iff a b).0 h)

length-insert-le :
    (k : Text) (a : ActiveTranscode) (d : Active) → length (insert k a d) ≤ length d + 1
unfolding insert
length-insert-le k a [] = omega arith
length-insert-le k a ((j, b) ∷ d) = ground (arith, length-insert-le k a d)

purge-active : (needed : Bool) (dir : Text) (p : Pool) → (purge needed dir p).active ≡ p.active
unfolding purge
purge-active true dir p = refl
purge-active false dir p = refl

register-Ensured :
    (w : World) (r : Request) (most seconds start : ℕ) (spawned : Option ℕ) (p : Pool)
    → w.spawned ≡ spawned
    → length p.active < most
    → lookup r.session_id p.active ≡ none
    → let o = register w r seconds start spawned p in Ensured w r most seconds start o.0 o.1
unfolding register new_transcode
register-Ensured w r most seconds start none p e h absent = (e, absent, omega arith)
register-Ensured w r most seconds start (some process) p e h absent =
    let a = new_transcode w r seconds start process in
    (
      found a,
      record { start_index = refl; seconds_each = refl; track = refl; source = refl },
      e,
      omega (arith, length-insert-le r.session_id a p.active),
    )
  where
    found : (a : ActiveTranscode) → lookup r.session_id (insert r.session_id a p.active) ≡ some a
    found a = lookup-insert r.session_id r.session_id a p.active ∙ rw (beq_refl r.session_id) refl

launch-Ensured :
    (w : World) (r : Request) (most seconds start : ℕ) (needed : Bool) (p : Pool) (o : Option Pool)
    → Roomy r.session_id most o
    → let u = launch w r seconds start needed p o in Ensured w r most seconds start u.0 u.1
unfolding launch
launch-Ensured w r most seconds start needed p none (q, e, _, _) = absurd (cc)
launch-Ensured w r most seconds start needed p (some q') (q, e, h, absent) =
    register-Ensured w r most seconds start w.spawned (purge needed r.output_dir q') refl
      (omega (arith, ap length same, h)) (ap (λ d. lookup r.session_id d) same ∙ absent)
  where
    some_pool : q' ≡ q
    some_pool = cc

    same : (purge needed r.output_dir q').active ≡ q.active
    same = purge-active needed r.output_dir q' ∙ ap (λ p'. p'.active) some_pool

start_new-Ensured :
    (w : World) (r : Request) (most seconds start : ℕ) (needed : Bool) (p : Pool)
    → 0 < most
    → lookup r.session_id p.active ≡ none
    → let u = start_new w r most seconds start needed p in Ensured w r most seconds start u.0 u.1
unfolding start_new
start_new-Ensured w r most seconds start needed p h absent =
    launch-Ensured w r most seconds start needed p
      (make_room w.activity most r.session_id (length p.active) p)
      (make_room-Roomy w.activity most r.session_id (length p.active) p h (omega arith) absent)

reuse-IsAsked :
    (w : World) (r : Request) (seconds start : ℕ) (a : ActiveTranscode)
    → allows_reuse (reuse_policy w r seconds start a) ≡ true
    → IsAsked r seconds start a × (w.exited_later a.process ≡ false)
unfolding allows_reuse reuse_policy
reuse-IsAsked w r seconds start a h = (
  record {
    start_index = ground arith;
    seconds_each = ground arith;
    track = option_beq_eq a.audio_track r.audio_track (ground arith);
    source = (text_beq_iff a.source_path r.source_path).0 (ground arith);
  },
  ground arith,
)

ensure_existing-Ensured :
    (w : World) (r : Request) (most seconds start : ℕ) (o : Option ActiveTranscode) (p : Pool)
    → 0 < most
    → lookup r.session_id p.active ≡ o
    → length p.active ≤ most
    → let u = ensure_existing w r most seconds start o p in Ensured w r most seconds start u.0 u.1
unfolding ensure_existing
ensure_existing-Ensured w r most seconds start none p h e k =
    start_new-Ensured w r most seconds start false p h e
ensure_existing-Ensured w r most seconds start (some a) p h e k =
    elim (Bool-cases (allows_reuse (reuse_policy w r seconds start a))) [
      | inl same ↦
          let (is_asked, alive) = reuse-IsAsked w r seconds start a same in
          subst (λ u. Ensured w r most seconds start u.0 u.1) (sym (branch same))
            (e, is_asked, alive, k)
      | inr divergent ↦
          subst (λ u. Ensured w r most seconds start u.0 u.1) (sym (branch divergent))
            (start_new-Ensured w r most seconds start (must_purge r seconds start a)
              (terminate r.session_id a p) h (unfold terminate in gone))
    ]
  where
    branch :
        {b : Bool}
        → allows_reuse (reuse_policy w r seconds start a) ≡ b
        → ensure_existing w r most seconds start (some a) p ≡ (
            if b
            then (reused a, p)
            else start_new w r most seconds start
                (must_purge r seconds start a)
                (terminate r.session_id a p))
    branch eq =
        ap
          (λ b.
            if b
            then (reused a, p)
            else start_new w r most seconds start (must_purge r seconds start a)
                (terminate r.session_id a p))
          eq

    gone : lookup r.session_id (remove r.session_id p.active) ≡ none
    gone = lookup-remove r.session_id r.session_id p.active ∙ rw (beq_refl r.session_id) refl

ensure_locked-Ensured :
    (most default_seconds : ℕ) (w : World) (r : Request) (p : Pool)
    → length p.active ≤ max 1 most
    → let seconds = seconds_of default_seconds r.segment_seconds in
      let u = ensure_locked most default_seconds w r p in
      Ensured w r
        (max 1 most)
        seconds
        (clamp_start r.duration_ms seconds r.start_segment_index)
        u.0
        u.1
unfolding ensure_locked reap
ensure_locked-Ensured most default_seconds w r p h =
    let seconds = seconds_of default_seconds r.segment_seconds in
    let kept = reap w.exited p.active in
    ensure_existing-Ensured w r (max 1 most) seconds
      (clamp_start r.duration_ms seconds r.start_segment_index) (lookup r.session_id kept)
      (record p { active = kept }) (omega arith) refl
      (omega (arith, length-keep-le (λ e. not (w.exited e.1.process)) p.active))

-- A call on a pool within its bound never finds the server busy: it gives the session an encoder for the
-- start, segment length, audio track and source that were asked for, either the one that still runs or the
-- new process, or fails to start the process and leaves the session without one, or finds that the tools
-- are missing and leaves the pool as it is; the pool stays within its bound.
pub ensure_hls_session-Ensured :
    (most default_seconds : ℕ) (w : World) (r : Request) (p : Pool)
    → length p.active ≤ max 1 most
    → let seconds = seconds_of default_seconds r.segment_seconds in
      let u = ensure_hls_session most default_seconds w r p in
      Ensured w r
        (max 1 most)
        seconds
        (clamp_start r.duration_ms seconds r.start_segment_index)
        u.0
        u.1
      × (w.tools_available ≡ false → u.1 ≡ p)
unfolding ensure_hls_session
ensure_hls_session-Ensured most default_seconds w r p h =
    let seconds = seconds_of default_seconds r.segment_seconds in
    if_cases {A = Outcome × Pool}
      (λ u.
        Ensured w r (max 1 most) seconds (clamp_start r.duration_ms seconds r.start_segment_index)
          u.0 u.1
        × (w.tools_available ≡ false → u.1 ≡ p))
      w.tools_available
      (λ there. (ensure_locked-Ensured most default_seconds w r p h, λ e. absurd (cc)))
      (λ missing. ((missing, h), λ e. refl))
