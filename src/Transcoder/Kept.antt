-- ===== src/Transcoder/Kept.antt =====
-- What a call does to the encoders of the pool: none is forgotten.
use anime_manager.Base.{
  ℕ, zero, suc, ◌<◌, ◌≡◌, refl, sym, ap, subst, ◌∙◌, ◌⊎◌, inl, inr, Bool, true, false, not, ◌||◌,
  List, [], ◌∷◌, ◌++◌, Option, none, some, max, arith, if◌then◌else◌, keep, length, All, All-map,
  All-keep, Bool-cases, leb,
}
use anime_manager.Base.Dict.{
  ◌==◌, nat_eq, beq_refl, lookup, insert, lookup-insert, remove, lookup-remove, member, Distinct,
  remove-Distinct, insert-Distinct,
}
use anime_manager.Base.Text.{Text, text_eq, text_beq, text_beq_iff}
use anime_manager.Transcoder.Room.{Roomy, make_room-Roomy}
use anime_manager.Transcoder.Ensured.{if_cases}
use anime_manager.Transcoder.{
  Outcome, allows_reuse, Active, ActiveTranscode, Pool, Request, World, Entry, reap, ranks_below,
  least, stop_victim, evict_one, evict_oldest, after_evict, make_room, reused, reuse_policy,
  must_purge, new_transcode, purge, register, launch, start_new, terminate, ensure_existing,
  ensure_locked, ensure_hls_session, seconds_of, clamp_start,
}

-- Every encoder of the first pool is in the second or has been terminated, and what was terminated stays so.
record Keeps (p q : Pool) : Type 0 where
  encoders :
      (j : Text) (a : ActiveTranscode)
      → lookup j p.active ≡ some a
      → (lookup j q.active ≡ some a) ⊎ (member a.process q.terminated ≡ true)
  stopped : (x : ℕ) → member x p.terminated ≡ true → member x q.terminated ≡ true
  distinct : Distinct p.active → Distinct q.active

Keeps-refl : (p : Pool) → Keeps p p
Keeps-refl p = record { encoders = λ j a h. inl h; stopped = λ x h. h; distinct = λ d. d }

Keeps-trans : (p q u : Pool) → Keeps p q → Keeps q u → Keeps p u
Keeps-trans p q u h k = record {
  encoders = λ j a e. later a j (h.encoders j a e);
  stopped = λ x m. k.stopped x (h.stopped x m);
  distinct = λ d. k.distinct (h.distinct d);
}
  where
    later :
        (a : ActiveTranscode) (j : Text)
        → (lookup j q.active ≡ some a) ⊎ (member a.process q.terminated ≡ true)
        → (lookup j u.active ≡ some a) ⊎ (member a.process u.terminated ≡ true)
    later a j (inl e) = k.encoders j a e
    later a j (inr m) = inr (k.stopped a.process m)

member-append : (x : ℕ) (l m : List ℕ) → member x (l ++ m) ≡ (member x l || member x m)
unfolding member
member-append x [] m = refl
member-append x (y ∷ l) m = ground (arith, member-append x l m)

member_last : (x : ℕ) (l : List ℕ) → member x (l ++ x ∷ []) ≡ true
member_last x l = ground (arith, member-append x l (x ∷ []), last)
  where
    last : member x (x ∷ []) ≡ true
    last = unfold member in ground arith

-- An encoder that is terminated and leaves the pool.
removed-Keeps :
    (i : Text) (b : ActiveTranscode) (p q : Pool)
    → lookup i p.active ≡ some b
    → q.active ≡ remove i p.active
    → q.terminated ≡ p.terminated ++ b.process ∷ []
    → Keeps p q
removed-Keeps i b p q found e t = record {
  encoders = λ j a h. encoder j a h;
  stopped = λ x h. rw t (ground (arith, member-append x p.terminated (b.process ∷ [])));
  distinct = λ d. subst (λ l. Distinct l) (sym e) (remove-Distinct i p.active d);
}
  where
    same_encoder : (a : ActiveTranscode) → some b ≡ some a → b ≡ a
    same_encoder a h = cc

    encoder :
        (j : Text) (a : ActiveTranscode)
        → lookup j p.active ≡ some a
        → (lookup j q.active ≡ some a) ⊎ (member a.process q.terminated ≡ true)
    encoder j a h = elim (Bool-cases (text_beq i j)) [
      | inl same ↦ inr (
          subst (λ c. member c.process q.terminated ≡ true)
            (same_encoder a
              (sym found ∙ ap (λ k. lookup k p.active) ((text_beq_iff i j).0 same) ∙ h))
            (ap (λ l. member b.process l) t ∙ member_last b.process p.terminated))
      | inr other ↦ inl (ap (λ l. lookup j l) e ∙ lookup-remove i j p.active ∙ rw other h)
    ]

-- Every entry of the pool is what its session is looked up as.
abbrev Found : Active → Entry → Type 0
Found active e = lookup e.0 active ≡ some e.1

Found-later :
    (f e : Entry) (active : Active)
    → lookup f.0 active ≡ none
    → Found active e
    → Found (f ∷ active) e
unfolding lookup
Found-later (k, b) (i, a) active absent h = elim (Bool-cases (text_beq k i)) [
  | inl same ↦
      absurd (clash (subst (λ t. lookup t active ≡ none) ((text_beq_iff k i).0 same) absent))
  | inr other ↦ rw other h
]
  where
    clash : lookup i active ≡ none → ⊥
    clash e = cc

Found-head : (f : Entry) (active : Active) → Found (f ∷ active) f
unfolding lookup
Found-head (k, b) active = rw (beq_refl k) refl

All-Found : (active : Active) → Distinct active → All (λ e. Found active e) active
All-Found [] d = tt
All-Found ((k, b) ∷ active) d = (
  Found-head (k, b) active,
  All-map (λ e h. Found-later (k, b) e active d.0 h) active (All-Found active d.1),
)

least-Found :
    (activity : Text → ℕ) (entries : List Entry) (e : Entry) (active : Active)
    → Found active e
    → All (λ f. Found active f) entries
    → Found active (least activity e entries)
unfolding least
least-Found activity [] e active h all = h
least-Found activity (f ∷ entries) e active h all =
    least-Found activity entries (if ranks_below activity f e then f else e) active
      (chosen (ranks_below activity f e)) all.1
  where
    chosen : (b : Bool) → Found active (if b then f else e)
    chosen true = all.0
    chosen false = h

-- A pool that an option holds keeps the encoders.
abbrev KeepsAll : Pool → Option Pool → Type 0
KeepsAll p o = (q : Pool) → o ≡ some q → Keeps p q

some_pool : (p q : Pool) → some p ≡ some q → p ≡ q
some_pool p q e = cc

evict_one-Keeps :
    (activity : Text → ℕ) (entries : List Entry) (p : Pool)
    → All (λ e. Found p.active e) entries
    → KeepsAll p (evict_one activity entries p)
unfolding evict_one stop_victim
evict_one-Keeps activity [] p all q e = absurd (cc)
evict_one-Keeps activity (f ∷ entries) p all q e =
    let victim = least activity f entries in
    subst (λ u. Keeps p u) (some_pool _ q e)
      (removed-Keeps victim.0 victim.1 p (stop_victim victim p)
        (least-Found activity entries f p.active all.0 all.1) refl refl)

evict_oldest-Keeps :
    (activity : Text → ℕ) (excluding : Text) (p : Pool)
    → Distinct p.active
    → KeepsAll p (evict_oldest activity excluding p)
unfolding evict_oldest
evict_oldest-Keeps activity excluding p d =
    evict_one-Keeps activity (keep (λ e. not (e.0 == excluding)) p.active) p (
      All-keep (λ e. Found p.active e) (λ e. not (e.0 == excluding)) p.active
        (All-Found p.active d))

make_room-Keeps :
    (activity : Text → ℕ) (most : ℕ) (excluding : Text) (fuel : ℕ) (p : Pool)
    → Distinct p.active
    → KeepsAll p (make_room activity most excluding fuel p)
unfolding make_room
make_room-Keeps activity most excluding zero p d q e = stays (leb most (length p.active)) e
  where
    stays : (b : Bool) → (if b then none else some p) ≡ some q → Keeps p q
    stays true h = absurd (cc)
    stays false h = subst (λ u. Keeps p u) (some_pool p q h) (Keeps-refl p)
make_room-Keeps activity most excluding (suc fuel) p d q e =
    stays (leb most (length p.active)) (evict_oldest activity excluding p)
      (evict_oldest-Keeps activity excluding p d)
      (λ u k. make_room-Keeps activity most excluding fuel u (k.distinct d) q) e
  where
    nothing : after_evict (λ u. make_room activity most excluding fuel u) none ≡ some q → ⊥
    nothing h = unfold after_evict in cc

    stays :
        (b : Bool) (o : Option Pool)
        → KeepsAll p o
        → ((u : Pool) → Keeps p u → make_room activity most excluding fuel u ≡ some q → Keeps u q)
        → (if b then after_evict (λ u. make_room activity most excluding fuel u) o else some p)
          ≡ some q
        → Keeps p q
    stays false o k again h = subst (λ u. Keeps p u) (some_pool p q h) (Keeps-refl p)
    stays true none k again h = absurd (nothing h)
    stays true (some u) k again h =
        Keeps-trans p u q (k u refl) (again u (k u refl) (unfold after_evict in h))

purge-Keeps : (needed : Bool) (dir : Text) (p : Pool) → Keeps p (purge needed dir p)
unfolding purge
purge-Keeps true dir p = record { encoders = λ j a h. inl h; stopped = λ x h. h; distinct = λ d. d }
purge-Keeps false dir p = Keeps-refl p

-- A session without an encoder gets one.
inserted-Keeps :
    (i : Text) (b : ActiveTranscode) (p : Pool)
    → lookup i p.active ≡ none
    → Keeps p (record p { active = insert i b p.active })
inserted-Keeps i b p absent = record {
  encoders = λ j a h. inl (lookup-insert i j b p.active ∙ other j a h);
  stopped = λ x h. h;
  distinct = λ d. insert-Distinct i b p.active d;
}
  where
    clash : (j : Text) (a : ActiveTranscode) → i ≡ j → lookup j p.active ≡ some a → ⊥
    clash j a e h =
        let n : lookup j p.active ≡ none = subst (λ t. lookup t p.active ≡ none) e absent in cc

    other :
        (j : Text) (a : ActiveTranscode)
        → lookup j p.active ≡ some a
        → (if text_beq i j then some b else lookup j p.active) ≡ some a
    other j a h = elim (Bool-cases (text_beq i j)) [
      | inl same ↦ absurd (clash j a ((text_beq_iff i j).0 same) h)
      | inr apart ↦ rw apart h
    ]

register-Keeps :
    (w : World) (r : Request) (seconds start : ℕ) (spawned : Option ℕ) (p : Pool)
    → lookup r.session_id p.active ≡ none
    → Keeps p (register w r seconds start spawned p).1
unfolding register
register-Keeps w r seconds start none p absent = Keeps-refl p
register-Keeps w r seconds start (some process) p absent =
    inserted-Keeps r.session_id (new_transcode w r seconds start process) p absent

purged_absent :
    (needed : Bool) (dir i : Text) (p : Pool)
    → lookup i p.active ≡ none
    → lookup i (purge needed dir p).active ≡ none
unfolding purge
purged_absent true dir i p h = h
purged_absent false dir i p h = h

launch-Keeps :
    (w : World) (r : Request) (seconds start : ℕ) (needed : Bool) (p : Pool) (o : Option Pool)
    → KeepsAll p o
    → ((q : Pool) → o ≡ some q → lookup r.session_id q.active ≡ none)
    → Keeps p (launch w r seconds start needed p o).1
unfolding launch
launch-Keeps w r seconds start needed p none k absent = Keeps-refl p
launch-Keeps w r seconds start needed p (some q) k absent =
    let purged = purge needed r.output_dir q in
    Keeps-trans p q _ (k q refl) (
      Keeps-trans q purged _ (purge-Keeps needed r.output_dir q) (
        register-Keeps w r seconds start w.spawned purged
          (purged_absent needed r.output_dir r.session_id q (absent q refl))))

Roomy-absent :
    (i : Text) (most : ℕ) (o : Option Pool)
    → Roomy i most o
    → (q : Pool) → o ≡ some q
    → lookup i q.active ≡ none
Roomy-absent i most o (u, e, _, absent) q h =
    subst (λ v. lookup i v.active ≡ none) (some_pool u q (sym e ∙ h)) absent

start_new-Keeps :
    (w : World) (r : Request) (most seconds start : ℕ) (needed : Bool) (p : Pool)
    → 0 < most
    → Distinct p.active
    → lookup r.session_id p.active ≡ none
    → Keeps p (start_new w r most seconds start needed p).1
unfolding start_new
start_new-Keeps w r most seconds start needed p h d absent =
    let room = make_room w.activity most r.session_id (length p.active) p in
    launch-Keeps w r seconds start needed p room
      (make_room-Keeps w.activity most r.session_id (length p.active) p d)
      (Roomy-absent r.session_id most room
        (make_room-Roomy w.activity most r.session_id (length p.active) p h (omega arith) absent))

terminate-Keeps :
    (i : Text) (a : ActiveTranscode) (p : Pool)
    → lookup i p.active ≡ some a
    → Keeps p (terminate i a p)
unfolding terminate
terminate-Keeps i a p h = removed-Keeps i a p _ h refl refl

ensure_existing-Keeps :
    (w : World) (r : Request) (most seconds start : ℕ) (o : Option ActiveTranscode) (p : Pool)
    → 0 < most
    → Distinct p.active
    → lookup r.session_id p.active ≡ o
    → Keeps p (ensure_existing w r most seconds start o p).1
unfolding ensure_existing
ensure_existing-Keeps w r most seconds start none p h d e =
    start_new-Keeps w r most seconds start false p h d e
ensure_existing-Keeps w r most seconds start (some a) p h d e =
    chosen (allows_reuse (reuse_policy w r seconds start a))
  where
    gone : lookup r.session_id (terminate r.session_id a p).active ≡ none
    gone =
        unfold terminate in
        lookup-remove r.session_id r.session_id p.active ∙ rw (beq_refl r.session_id) refl

    torn : Keeps p (terminate r.session_id a p)
    torn = terminate-Keeps r.session_id a p e

    chosen :
        (b : Bool)
        → Keeps p
            (if b
              then (reused a, p)
              else start_new w r most seconds start
                  (must_purge r seconds start a)
                  (terminate r.session_id a p)).1
    chosen true = Keeps-refl p
    chosen false = Keeps-trans p (terminate r.session_id a p) _ torn (
        start_new-Keeps w r most seconds start (must_purge r seconds start a)
          (terminate r.session_id a p) h (torn.distinct d) gone)

keep-absent_key :
    (f : Entry → Bool) (i : Text) (active : Active)
    → lookup i active ≡ none
    → lookup i (keep f active) ≡ none
unfolding lookup
keep-absent_key f i [] h = refl
keep-absent_key f i ((j, b) ∷ active) h = ground (arith, keep-absent_key f i active)

pub reap-Distinct :
    (exited : ℕ → Bool) (active : Active) → Distinct active → Distinct (reap exited active)
unfolding reap
reap-Distinct exited [] d = tt
reap-Distinct exited ((i, a) ∷ active) d = elim (Bool-cases (exited a.process)) [
  | inl dead ↦ rw dead (reap-Distinct exited active d.1)
  | inr alive ↦ rw alive (
    keep-absent_key (λ e. not (exited e.1.process)) i active d.0,
    reap-Distinct exited active d.1,
  )
]

-- An encoder that runs is not reaped.
reap-lookup :
    (exited : ℕ → Bool) (j : Text) (a : ActiveTranscode) (active : Active)
    → lookup j active ≡ some a
    → exited a.process ≡ false
    → lookup j (reap exited active) ≡ some a
unfolding reap lookup
reap-lookup exited j a [] h alive = absurd (cc)
reap-lookup exited j a ((i, b) ∷ active) h alive = elim (Bool-cases (text_beq i j)) [
  | inl same ↦ here (text_beq i j) same h
  | inr other ↦
      later (exited b.process) (text_beq i j) other h (λ e. reap-lookup exited j a active e alive)
]
  where
    rest : Active
    rest = keep (λ e. not (exited e.1.process)) active

    here :
        (c : Bool)
        → text_beq i j ≡ true
        → (if text_beq i j then some b else lookup j active) ≡ some a
        → lookup j (
            if not (exited b.process)
            then (i, b) ∷ keep (λ e. not (exited e.1.process)) active
            else keep (λ e. not (exited e.1.process)) active)
          ≡ some a
    here c same e =
        let e' : some b ≡ some a = sym (ap (λ x. if x then some b else lookup j active) same) ∙ e in
        let alive_b : exited b.process ≡ false = cc in rw alive_b (rw same e')

    later :
        (dead c : Bool)
        → text_beq i j ≡ false
        → (if text_beq i j then some b else lookup j active) ≡ some a
        → (lookup j active ≡ some a
            → lookup j (keep (λ e. not (exited e.1.process)) active) ≡ some a)
        → lookup j (
            if not (exited b.process)
            then (i, b) ∷ keep (λ e. not (exited e.1.process)) active
            else keep (λ e. not (exited e.1.process)) active)
          ≡ some a
    later dead c other e ih = ground arith

ensure_locked-keeps :
    (most default_seconds : ℕ) (w : World) (r : Request) (p : Pool) (j : Text) (a : ActiveTranscode)
    → Distinct p.active
    → lookup j p.active ≡ some a
    → let q = (ensure_locked most default_seconds w r p).1 in
      (lookup j q.active ≡ some a)
      ⊎ (member a.process q.terminated ≡ true)
      ⊎ (w.exited a.process ≡ true)
unfolding ensure_locked
ensure_locked-keeps most default_seconds w r p j a d h = elim (Bool-cases (w.exited a.process)) [
  | inl dead ↦ inr (inr dead)
  | inr alive ↦
      let seconds = seconds_of default_seconds r.segment_seconds in
      let reaped : Pool = record p { active = reap w.exited p.active } in
      either (ensure_locked most default_seconds w r p).1 (
        (ensure_existing-Keeps w r (max 1 most) seconds
            (clamp_start r.duration_ms seconds r.start_segment_index)
            (lookup r.session_id reaped.active) reaped (omega arith)
            (reap-Distinct w.exited p.active d) refl).encoders
          j a (reap-lookup w.exited j a p.active h alive))
]
  where
    either :
        (q : Pool)
        → (lookup j q.active ≡ some a) ⊎ (member a.process q.terminated ≡ true)
        → (lookup j q.active ≡ some a)
          ⊎ (member a.process q.terminated ≡ true)
          ⊎ (w.exited a.process ≡ true)
    either q (inl e) = inl e
    either q (inr m) = inr (inl m)

ensure_locked-Distinct :
    (most default_seconds : ℕ) (w : World) (r : Request) (p : Pool)
    → Distinct p.active
    → Distinct (ensure_locked most default_seconds w r p).1.active
unfolding ensure_locked
ensure_locked-Distinct most default_seconds w r p d =
    let seconds = seconds_of default_seconds r.segment_seconds in
    let reaped : Pool = record p { active = reap w.exited p.active } in
    (ensure_existing-Keeps w r (max 1 most) seconds
        (clamp_start r.duration_ms seconds r.start_segment_index)
        (lookup r.session_id reaped.active) reaped (omega arith) (reap-Distinct w.exited p.active d)
        refl).distinct
      (reap-Distinct w.exited p.active d)

-- After a call on a pool with one encoder for each session, every encoder that was in the pool is still its
-- session's, has been terminated, or had exited when the call looked.
pub ensure_hls_session-keeps :
    (most default_seconds : ℕ) (w : World) (r : Request) (p : Pool) (j : Text) (a : ActiveTranscode)
    → Distinct p.active
    → lookup j p.active ≡ some a
    → let q = (ensure_hls_session most default_seconds w r p).1 in
      (lookup j q.active ≡ some a)
      ⊎ (member a.process q.terminated ≡ true)
      ⊎ (w.exited a.process ≡ true)
unfolding ensure_hls_session
ensure_hls_session-keeps most default_seconds w r p j a d h =
    if_cases {A = Outcome × Pool}
      (λ u.
        (lookup j u.1.active ≡ some a)
        ⊎ (member a.process u.1.terminated ≡ true)
        ⊎ (w.exited a.process ≡ true))
      w.tools_available (λ there. ensure_locked-keeps most default_seconds w r p j a d h)
      (λ missing. inl h)

pub ensure_hls_session-Distinct :
    (most default_seconds : ℕ) (w : World) (r : Request) (p : Pool)
    → Distinct p.active
    → Distinct (ensure_hls_session most default_seconds w r p).1.active
unfolding ensure_hls_session
ensure_hls_session-Distinct most default_seconds w r p d =
    if_cases {A = Outcome × Pool} (λ u. Distinct u.1.active) w.tools_available
      (λ there. ensure_locked-Distinct most default_seconds w r p d) (λ missing. d)
