-- ===== src/Playback/Service/Validity.antt =====
-- The invariant of the session table, and that the operations of service.py keep it.
use anime_manager.Base.{
  ℕ, ◌≤◌, ◌≡◌, refl, Bool, true, false, List, [], ◌∷◌, Option, none, some, arith, Bool-cases, inl,
  inr, ◌∙◌, sym, not, ◌||◌,
}
use anime_manager.Base.Dict.{
  Dict, lookup, Distinct, Entries, insert-Distinct, remove-Distinct, insert-Entries, remove-Entries,
  lookup-Entries,
}
use anime_manager.Base.Text.{Text, text_eq}
use anime_manager.Playback.Contract.{Session}
use anime_manager.Playback.Segments.{Resolved, Outcome, returned, not_found, ensure_segment, Sights}
use anime_manager.Playback.Segments.Playhead.{ensure_segment-playhead_grows}
use anime_manager.Playback.Segments.Frame.{ensure_segment-frame}
use anime_manager.Playback.Tokens
use anime_manager.Playback.Service.{
  is_valid_segment_name, Service, PathSights, Effect, init, is_stale, live_sessions,
  cleanup_stale_sessions, stop_session, stop_found, heartbeat_playhead, extend, heartbeat,
  heartbeat_found, renew, keep_session, serve_artifact, serve_resolved, serve_path, serve_session,
  resolve_media_path,
}

-- A session stands under its own id, its playhead is not before its anchor, and its time to live is a
-- minute at least.
pub record IsValidSession (k : Text) (s : Session) : Type 0 where
  pub keyed : k ≡ s.session_id
  pub ahead : s.hls_anchor_segment ≤ s.live_playhead_segment
  pub lives : 60 ≤ s.ttl_seconds

pub record IsValid (svc : Service) : Type 0 where
  pub distinct : Distinct svc.sessions
  pub entries : Entries IsValidSession svc.sessions
  pub default_lives : 60 ≤ svc.default_ttl_seconds

-- The constructor's service is valid, whatever its settings.
pub init-IsValid : (ttl seg : ℕ) → IsValid (init ttl seg)
unfolding init
init-IsValid ttl seg = record { distinct = tt; entries = tt; default_lives = omega arith }

lookup-live_sessions-none :
    (now : ℕ) (k : Text) (d : Dict Text Session)
    → lookup k d ≡ none
    → lookup k (live_sessions now d) ≡ none
unfolding live_sessions lookup
lookup-live_sessions-none now k [] h = refl
lookup-live_sessions-none now k ((j, s) ∷ d) h = ground (arith, lookup-live_sessions-none now k d)

live_sessions-Distinct :
    (now : ℕ) (d : Dict Text Session) → Distinct d → Distinct (live_sessions now d)
unfolding live_sessions
live_sessions-Distinct now [] h = tt
live_sessions-Distinct now ((j, s) ∷ d) h = elim (Bool-cases (is_stale now s)) [
  | inl stale ↦ rw stale (live_sessions-Distinct now d h.1)
  | inr live ↦ rw live (lookup-live_sessions-none now j d h.0, live_sessions-Distinct now d h.1)
]

live_sessions-Entries :
    (now : ℕ) (d : Dict Text Session)
    → Entries IsValidSession d
    → Entries IsValidSession (live_sessions now d)
unfolding live_sessions
live_sessions-Entries now [] h = tt
live_sessions-Entries now ((j, s) ∷ d) h = elim (Bool-cases (is_stale now s)) [
  | inl stale ↦ rw stale (live_sessions-Entries now d h.1)
  | inr live ↦ rw live (h.0, live_sessions-Entries now d h.1)
]

pub cleanup-IsValid :
    (now : ℕ) (svc : Service) → IsValid svc → IsValid (cleanup_stale_sessions now svc).0
unfolding cleanup_stale_sessions
cleanup-IsValid now svc v = record {
  distinct = live_sessions-Distinct now svc.sessions v.distinct;
  entries = live_sessions-Entries now svc.sessions v.entries;
  default_lives = v.default_lives;
}

pub keep-IsValid :
    (registered : Bool) (svc : Service) (k : Text) (s : Session)
    → IsValid svc
    → IsValidSession k s
    → IsValid (keep_session registered svc k s)
unfolding keep_session
keep-IsValid true svc k s v vs = record {
  distinct = insert-Distinct k s svc.sessions v.distinct;
  entries = insert-Entries IsValidSession k s svc.sessions vs v.entries;
  default_lives = v.default_lives;
}
keep-IsValid false svc k s v vs = record {
  distinct = remove-Distinct k svc.sessions v.distinct;
  entries = remove-Entries IsValidSession k svc.sessions v.entries;
  default_lives = v.default_lives;
}

pub stop_session-IsValid :
    (svc : Service) (k : Text) → IsValid svc → IsValid (stop_session svc k).service
unfolding stop_session stop_found
stop_session-IsValid svc k v = found (lookup k svc.sessions)
  where
    found : (o : Option Session) → IsValid (stop_found svc k o).service
    found none = record {
      distinct = v.distinct;
      entries = v.entries;
      default_lives = v.default_lives;
    }
    found (some s) = record {
      distinct = remove-Distinct k svc.sessions v.distinct;
      entries = remove-Entries IsValidSession k svc.sessions v.entries;
      default_lives = v.default_lives;
    }

heartbeat_playhead-grows :
    (s : Session) (position : Option ℕ) → s.live_playhead_segment ≤ heartbeat_playhead s position
unfolding heartbeat_playhead
heartbeat_playhead-grows s none = omega arith
heartbeat_playhead-grows s (some p) = ground arith

module _ (mac : Text → Text) where
  extend-IsValidSession :
      (svc : Service) (now : ℕ) (position : Option ℕ) (k : Text) (s : Session)
      → IsValidSession k s
      → IsValidSession k (extend mac svc now position s)
  unfolding extend
  extend-IsValidSession svc now position k s v = record {
    keyed = v.keyed;
    ahead = omega (arith, v.ahead, heartbeat_playhead-grows s position);
    lives = v.lives;
  }

  pub heartbeat-IsValid :
      (svc : Service) (now : ℕ) (k : Text) (position : Option ℕ)
      → IsValid svc
      → IsValid (heartbeat mac svc now k position).service
  unfolding heartbeat heartbeat_found
  heartbeat-IsValid svc now k position v = found (lookup k svc.sessions) refl
    where
      found :
          (o : Option Session)
          → lookup k svc.sessions ≡ o
          → IsValid (heartbeat_found mac svc now k position o).service
      found none e = v
      found (some s) e =
          let vs =
            extend-IsValidSession svc now position k s
              (lookup-Entries IsValidSession k s svc.sessions v.entries e) in
          record {
            distinct = insert-Distinct k (extend mac svc now position s) svc.sessions v.distinct;
            entries =
                insert-Entries IsValidSession k (extend mac svc now position s) svc.sessions vs
                  v.entries;
            default_lives = v.default_lives;
          }

-- A request leaves a valid session valid.
ensure_segment-IsValidSession :
    (o : Sights) (k name : Text) (s : Session)
    → IsValidSession k s
    → IsValidSession k (ensure_segment o s name).session
ensure_segment-IsValidSession o k name s v =
    let (same_id, same_anchor, same_ttl, _, _, _) = ensure_segment-frame o s name in
    record {
      keyed = v.keyed ∙ sym same_id;
      ahead = omega (arith, v.ahead, same_anchor, ensure_segment-playhead_grows o s name);
      lives = omega (arith, v.lives, same_ttl);
    }

serve_artifact-IsValid :
    (o : PathSights) (svc : Service) (now : ℕ) (k : Text) (s : Session) (effects : List Effect)
    (target : Text)
    → IsValid svc
    → IsValidSession k s
    → IsValid (serve_artifact o svc now k s effects target).service
unfolding serve_artifact
serve_artifact-IsValid o svc now k s effects target v vs = elim (Bool-cases o.still_registered) [
  | inl here ↦ simp here (elim (Bool-cases o.is_file) [
    | inl file ↦ simp file (
        keep-IsValid true svc k (record s { last_seen_at = now }) v
          (record { keyed = vs.keyed; ahead = vs.ahead; lives = vs.lives }))
    | inr lost ↦ simp lost (keep-IsValid true svc k s v vs)
  ])
  | inr gone ↦ simp gone (elim (Bool-cases o.is_file) [
    | inl file ↦ simp file (keep-IsValid false svc k s v vs)
    | inr lost ↦ simp lost (keep-IsValid false svc k s v vs)
  ])
]

module _ (mac : Text → Text) where
  renew-IsValidSession :
      (svc : Service) (o : Option ℕ) (k : Text) (s : Session)
      → IsValidSession k s
      → IsValidSession k (renew mac svc o s)
  unfolding renew
  renew-IsValidSession svc none k s v = v
  renew-IsValidSession svc (some t) k s v = extend-IsValidSession mac svc t none k s v

  serve_resolved-IsValid :
      (o : PathSights) (svc : Service) (now : ℕ) (k name : Text) (effects : List Effect)
      (r : Resolved)
      → IsValid svc
      → IsValidSession k r.session
      → IsValid (serve_resolved mac o svc now k name effects r).service
  unfolding serve_resolved
  serve_resolved-IsValid o svc now k name effects r v vs = by_outcome r.outcome refl
    where
      renewed : IsValidSession k (renew mac svc o.renewed r.session)
      renewed = renew-IsValidSession svc o.renewed k r.session vs

      by_outcome :
          (out : Outcome)
          → r.outcome ≡ out
          → IsValid (serve_resolved mac o svc now k name effects r).service
      by_outcome returned e =
          rw (e, serve_resolved)
            (serve_artifact-IsValid o svc now k (renew mac svc o.renewed r.session) _ _ v renewed)
      by_outcome (not_found reason) e =
          rw (e, serve_resolved)
            (keep-IsValid o.still_registered svc k (renew mac svc o.renewed r.session) v renewed)

  serve_path-IsValid :
      (o : PathSights) (svc : Service) (now : ℕ) (k : Text) (s : Session) (effects : List Effect)
      (name : Text)
      → IsValid svc
      → IsValidSession k s
      → IsValid (serve_path mac o svc now k s effects name).service
  unfolding serve_path
  serve_path-IsValid o svc now k s effects [] v vs = serve_artifact-IsValid o svc now k s _ _ v vs
  serve_path-IsValid o svc now k s effects (c ∷ name) v vs =
      elim (Bool-cases (not (is_valid_segment_name (c ∷ name)) || not o.within_dir)) [
        | inl bad ↦ rw bad v
        | inr good ↦ rw good (
            serve_resolved-IsValid o svc now k (c ∷ name) effects
              (ensure_segment o.segment s (c ∷ name)) v
              (ensure_segment-IsValidSession o.segment k (c ∷ name) s vs))
      ]

  serve_session-IsValid :
      (o : PathSights) (svc : Service) (now : ℕ) (k token name : Text) (effects : List Effect)
      (found : Option Session)
      → IsValid svc
      → lookup k svc.sessions ≡ found
      → IsValid (serve_session mac o svc now k token name effects found).service
  unfolding serve_session
  serve_session-IsValid o svc now k token name effects none v e = v
  serve_session-IsValid o svc now k token name effects (some s) v e =
      elim (Bool-cases (Tokens.verify mac now k token)) [
        | inl good ↦ rw good (
            serve_path-IsValid o svc now k s effects name v
              (lookup-Entries IsValidSession k s svc.sessions v.entries e))
        | inr bad ↦ rw bad v
      ]

  pub resolve_media_path-IsValid :
      (o : PathSights) (svc : Service) (now : ℕ) (k token name : Text)
      → IsValid svc
      → IsValid (resolve_media_path mac o svc now k token name).service
  unfolding resolve_media_path
  resolve_media_path-IsValid o svc now k token name v =
      serve_session-IsValid o (cleanup_stale_sessions now svc).0 now k token name _ _
        (cleanup-IsValid now svc v) refl
