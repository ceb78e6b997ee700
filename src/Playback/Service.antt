-- ===== src/Playback/Service.antt =====
-- application/playback/service.py: the sessions of `PlaybackService`. The calls of the service are taken
-- one at a time; what other calls do to a session while a segment is awaited is the `Meanwhile` of the
-- segment resolver, and a heartbeat meanwhile is `renewed`. `mac` is the token digest of `Tokens`. Telemetry and logs are left out.
pub mod Sessions
pub mod Validity
pub mod Lifetimes
use anime_manager.Base.{
  ℕ, zero, suc, ◌+◌, ◌-◌, ◌≤◌, Bool, true, false, not, ◌&&◌, ◌||◌, List, [], ◌∷◌, ◌++◌, Option,
  none, some, ltb, leb, ◌==◌, if◌then◌else◌, max, map, any,
}
use anime_manager.Base.Dict.{Dict, lookup, insert, remove, discard, ◌==◌ as same}
use anime_manager.Base.Text.{Text, codes, text_eq}
use anime_manager.Playback.Contract.{ms, Session}
use anime_manager.Playback.Resume.{
  resume_segment_index, anchor_segment, clamp_resume_seconds, WaitResult, found, timed_out, aborted,
  still_waiting,
}
use anime_manager.Playback.Playlist.{initial_total}
use anime_manager.Playback.Segments.{Sights, Resolved, Outcome, returned, not_found, ensure_segment}
use anime_manager.Playback.Tokens

-- The exceptions of domain/errors, as far as the service raises them, and `OSError`.
pub data Error : Type 0 where
  not_found_error unauthorized_error validation_error infrastructure_error os_error : Error

pub data Result {ℓ} (A : Type ℓ) : Type ℓ where
  ok : A → Result A
  err : Error → Result A

-- What the service does outside its own state.
pub data Effect : Type 0 where
  -- `TranscodeSession.stop`
  stop_transcode : Text → Effect
  -- `shutil.rmtree` of a session's output directory
  remove_tree : Text → Effect
  -- ffmpeg is started again for a session at a segment
  restart_transcode : Text → ℕ → Effect
  -- ffmpeg is started for a new session at a segment
  start_transcode : Text → ℕ → Effect
  -- the session's manifest file is written
  write_manifest : Text → Effect

pub record Service : Type 0 where
  pub sessions : Dict Text Session
  pub restart_locks : List Text
  pub default_ttl_seconds : ℕ
  pub segment_seconds : ℕ

-- A call returns the new state, what it did outside, and its result.
pub record Call {ℓ} (A : Type ℓ) : Type ℓ where
  pub service : Service
  pub effects : List Effect
  pub result : Result A

unfoldable pub init : ℕ → ℕ → Service
init default_ttl_seconds segment_seconds = record {
  sessions = [];
  restart_locks = [];
  default_ttl_seconds = max 60 default_ttl_seconds;
  segment_seconds = max 2 segment_seconds;
}

unfoldable pub teardown : Bool → Session → List Effect
teardown remove_output_dir s =
    stop_transcode s.session_id ∷ (if remove_output_dir then remove_tree s.output_dir ∷ [] else [])

-- session.expires_at <= now
unfoldable pub is_stale : ℕ → Session → Bool
is_stale now s = leb s.expires_at now

-- The loop over the sessions: those that stay, the locks that stay, and the stale sessions.
unfoldable pub live_sessions : ℕ → Dict Text Session → Dict Text Session
unfolding is_stale
live_sessions now [] = []
live_sessions now ((k, s) ∷ rest) =
    if is_stale now s then live_sessions now rest else (k, s) ∷ live_sessions now rest

unfoldable pub live_locks : ℕ → Dict Text Session → List Text → List Text
unfolding is_stale
live_locks now [] locks = locks
live_locks now ((k, s) ∷ rest) locks =
    live_locks now rest (if is_stale now s then discard k locks else locks)

unfoldable pub stale_effects : ℕ → Dict Text Session → List Effect
unfolding is_stale teardown
stale_effects now [] = []
stale_effects now ((k, s) ∷ rest) =
    if is_stale now s then teardown true s ++ stale_effects now rest else stale_effects now rest

unfoldable pub cleanup_stale_sessions : ℕ → Service → Service × List Effect
unfolding live_sessions live_locks stale_effects
cleanup_stale_sessions now svc = (
  record svc {
    sessions = live_sessions now svc.sessions;
    restart_locks = live_locks now svc.sessions svc.restart_locks;
  },
  stale_effects now svc.sessions,
)

unfoldable pub get_session : Service → Text → Option Session
get_session svc session_id = lookup session_id svc.sessions

unfoldable pub stop_found : Service → Text → Option Session → Call (Unit {0})
unfolding teardown
stop_found svc session_id none = record {
  service = record svc { restart_locks = discard session_id svc.restart_locks };
  effects = [];
  result = ok tt;
}
stop_found svc session_id (some s) = record {
  service = record svc {
    sessions = remove session_id svc.sessions;
    restart_locks = discard session_id svc.restart_locks;
  };
  effects = teardown false s;
  result = ok tt;
}

unfoldable pub stop_session : Service → Text → Call (Unit {0})
unfolding stop_found
stop_session svc session_id = stop_found svc session_id (lookup session_id svc.sessions)

-- max(60, int(ttl or default))
unfoldable pub effective_ttl : ℕ → ℕ → ℕ
effective_ttl ttl default = max 60 (if ttl == 0 then default else ttl)

unfoldable pub duration_bound : ℕ → Option ℕ
duration_bound duration = if ltb 0 duration then some duration else none

-- The playhead after a heartbeat that reports a position.
unfoldable pub heartbeat_playhead : Session → Option ℕ → ℕ
unfolding duration_bound
heartbeat_playhead s none = s.live_playhead_segment
heartbeat_playhead s (some position) =
    if ltb 0 s.total_segments && ltb 0 s.segment_seconds
    then max s.live_playhead_segment (
        resume_segment_index (clamp_resume_seconds (some position) (duration_bound s.duration))
          s.total_segments s.segment_seconds)
    else s.live_playhead_segment

module _ (mac : Text → Text) where
  unfoldable pub extend : Service → ℕ → Option ℕ → Session → Session
  unfolding effective_ttl heartbeat_playhead
  extend svc now position s =
      let expires_at = now + ms (effective_ttl s.ttl_seconds svc.default_ttl_seconds) in
      record s {
        last_seen_at = now;
        expires_at = expires_at;
        token = Tokens.build mac s.session_id expires_at;
        live_playhead_segment = heartbeat_playhead s position;
      }

  unfoldable pub heartbeat_found : Service → ℕ → Text → Option ℕ → Option Session → Call Session
  unfolding extend
  heartbeat_found svc now session_id position none = record {
    service = svc;
    effects = [];
    result = err not_found_error;
  }
  heartbeat_found svc now session_id position (some s) =
      let s' = extend svc now position s in
      record {
        service = record svc { sessions = insert session_id s' svc.sessions };
        effects = [];
        result = ok s';
      }

  unfoldable pub heartbeat : Service → ℕ → Text → Option ℕ → Call Session
  unfolding heartbeat_found
  heartbeat svc now session_id position =
      heartbeat_found svc now session_id position (lookup session_id svc.sessions)

starts_dot : Text → Bool
starts_dot [] = false
starts_dot (c ∷ s) = c == b'.'

-- ".." in name
has_dots : Text → Bool
unfolding starts_dot
has_dots [] = false
has_dots (c ∷ s) = c == b'.' && starts_dot s || has_dots s

-- The tests of `_validate_segment_name`.
unfoldable pub is_valid_segment_name : Text → Bool
unfolding has_dots
is_valid_segment_name [] = false
is_valid_segment_name (c ∷ s) =
    not (any (λ d. d == b'/') (c ∷ s) || any (λ d. d == b'\\') (c ∷ s) || has_dots (c ∷ s))

-- What `resolve_media_path` sees of the disk and the other threads.
pub record PathSights : Type 0 where
  pub within_dir : Bool
  pub segment : Sights
  pub is_file : Bool
  pub still_registered : Bool
  -- The time of a heartbeat of another thread while the segment was awaited.
  pub renewed : Option ℕ

restart_effects : Text → List ℕ → List Effect
restart_effects session_id [] = []
restart_effects session_id (i ∷ rest) =
    restart_transcode session_id i ∷ restart_effects session_id rest

-- The session as the request left it, if it is still registered.
unfoldable pub keep_session : Bool → Service → Text → Session → Service
keep_session true svc session_id s = record svc { sessions = insert session_id s svc.sessions }
keep_session false svc session_id s = record svc { sessions = remove session_id svc.sessions }

-- The end of `resolve_media_path`: the artifact must be a file, and the session is marked as seen.
unfoldable pub serve_artifact :
    PathSights → Service → ℕ → Text → Session → List Effect → Text → Call (Session × Text)
unfolding keep_session
serve_artifact o svc now session_id s effects target =
    let seen = if o.still_registered then record s { last_seen_at = now } else s in
    if o.is_file
    then record {
      service = keep_session o.still_registered svc session_id seen;
      effects = effects;
      result = ok (seen, target);
    }
    else record {
      service = keep_session o.still_registered svc session_id s;
      effects = effects;
      result = err not_found_error;
    }

module _ (mac : Text → Text) where
  -- The session of a request after a heartbeat of another thread.
  unfoldable pub renew : Service → Option ℕ → Session → Session
  renew svc none s = s
  renew svc (some t) s = extend mac svc t none s

  unfoldable pub serve_resolved :
      PathSights → Service → ℕ → Text → Text → List Effect → Resolved → Call (Session × Text)
  unfolding restart_effects renew
  serve_resolved o svc now session_id name effects r = elim r.outcome [
    | returned ↦
        serve_artifact o svc now session_id (renew svc o.renewed r.session)
          (effects ++ restart_effects session_id r.restarts) (r.session.output_dir ++ b'/' ∷ name)
    | not_found reason ↦ record {
      service = keep_session o.still_registered svc session_id (renew svc o.renewed r.session);
      effects = effects ++ restart_effects session_id r.restarts;
      result = err not_found_error;
    }
  ]

  unfoldable pub serve_path :
      PathSights → Service → ℕ → Text → Session → List Effect → Text → Call (Session × Text)
  serve_path o svc now session_id s effects [] =
      serve_artifact o svc now session_id s
        (if ltb 0 s.total_segments then effects ++ write_manifest session_id ∷ [] else effects)
        s.manifest_path
  serve_path o svc now session_id s effects (c ∷ name) =
      if not (is_valid_segment_name (c ∷ name)) || not o.within_dir
      then record { service = svc; effects = effects; result = err validation_error }
      else serve_resolved o svc now session_id (c ∷ name) effects
          (ensure_segment o.segment s (c ∷ name))

  unfoldable pub serve_session :
      PathSights
      → Service
      → ℕ
      → Text
      → Text
      → Text
      → List Effect
      → Option Session
      → Call (Session × Text)
  serve_session o svc now session_id token name effects none = record {
    service = svc;
    effects = effects;
    result = err not_found_error;
  }
  serve_session o svc now session_id token name effects (some s) =
      if Tokens.verify mac now session_id token
      then serve_path o svc now session_id s effects name
      else record { service = svc; effects = effects; result = err unauthorized_error }

  -- `name` is empty for the manifest.
  unfoldable pub resolve_media_path :
      PathSights → Service → ℕ → Text → Text → Text → Call (Session × Text)
  resolve_media_path o svc0 now session_id token name =
      let (svc, effects) = cleanup_stale_sessions now svc0 in
      serve_session o svc now session_id token name effects (lookup session_id svc.sessions)
