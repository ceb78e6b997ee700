-- ===== src/Playback/Service/Sessions.antt =====
-- Expiry, heartbeats and access: what a client of service.py can rely on.
use anime_manager.Base.{
  ℕ, ◌+◌, ◌*◌, ◌/◌, ◌<◌, ◌≡◌, refl, Bool, true, false, [], ◌∷◌, Option, none, some, arith,
  Option-cases, inl, inr, ◌⊎◌, ◌∙◌, leb, if◌then◌else◌,
}
use anime_manager.Base.Dict.{
  Dict, lookup, Distinct, ◌==◌, lookup-insert, lookup-remove, beq_refl, lookup-Entries,
}
use anime_manager.Base.Text.{Text, text_eq, text_beq_iff}
use anime_manager.Playback.Contract.{ms, Session}
use anime_manager.Playback.Tokens
use anime_manager.Playback.Tokens.{verify-build}
use anime_manager.Playback.Service.{
  Service, err, not_found_error, unauthorized_error, PathSights, is_stale, live_sessions,
  cleanup_stale_sessions, effective_ttl, extend, heartbeat, heartbeat_found, stop_session,
  stop_found, serve_session, resolve_media_path,
}
use anime_manager.Playback.Service.Validity.{IsValidSession, IsValid, heartbeat-IsValid}

-- A session that is looked up after a cleanup: gone if it has expired.
abbrev pub unless_stale : ℕ → Option Session → Option Session
unless_stale now none = none
unless_stale now (some s) = if is_stale now s then none else some s

abbrev pub is_none : Option Session → Bool
is_none none = true
is_none (some s) = false

lookup-live_sessions :
    (now : ℕ) (k : Text) (d : Dict Text Session)
    → Distinct d
    → lookup k (live_sessions now d) ≡ unless_stale now (lookup k d)
unfolding lookup live_sessions
lookup-live_sessions now k [] h = refl
lookup-live_sessions now k ((j, s) ∷ d) h =
    ground (arith, lookup-live_sessions now k d h.1, text_beq_iff j k)

-- A cleanup removes exactly the sessions whose time is up.
pub lookup-cleanup :
    (now : ℕ) (k : Text) (svc : Service)
    → IsValid svc
    → lookup k (cleanup_stale_sessions now svc).0.sessions
      ≡ unless_stale now (lookup k svc.sessions)
unfolding cleanup_stale_sessions
lookup-cleanup now k svc v = lookup-live_sessions now k svc.sessions v.distinct

module _ (mac : Text → Text) where
  lookup-heartbeat :
      (svc : Service) (now : ℕ) (k : Text) (position : Option ℕ) (s : Session)
      → lookup k svc.sessions ≡ some s
      → lookup k (heartbeat mac svc now k position).service.sessions
        ≡ some (extend mac svc now position s)
  unfolding heartbeat
  lookup-heartbeat svc now k position s here =
      rw (here, heartbeat_found) (rw (lookup-insert, beq_refl k))

  not_stale :
      (svc : Service) (now later : ℕ) (position : Option ℕ) (s : Session)
      → later < now + ms (effective_ttl s.ttl_seconds svc.default_ttl_seconds)
      → is_stale later (extend mac svc now position s) ≡ false
  unfolding is_stale extend
  not_stale svc now later position s alive = ground arith

  -- A heartbeat for a registered session extends it by its lifetime: a cleanup at any time before the end
  -- of that lifetime finds the session as the heartbeat returned it, and its new token is accepted up to
  -- the last whole second of the lifetime.
  pub heartbeat_keeps_alive :
      (svc : Service) (now later : ℕ) (k : Text) (position : Option ℕ) (s : Session)
      → IsValid svc
      → lookup k svc.sessions ≡ some s
      → later < now + ms (effective_ttl s.ttl_seconds svc.default_ttl_seconds)
      → (lookup k
            (cleanup_stale_sessions later (heartbeat mac svc now k position).service).0.sessions
          ≡ some (extend mac svc now position s))
        × (Tokens.verify mac later k (extend mac svc now position s).token
            ≡ leb later
                ((now + ms (effective_ttl s.ttl_seconds svc.default_ttl_seconds)) / 1000 * 1000))
  heartbeat_keeps_alive svc now later k position s v here alive = (
    lookup-cleanup later k (heartbeat mac svc now k position).service
          (heartbeat-IsValid mac svc now k position v)
        ∙ rw (lookup-heartbeat svc now k position s here, not_stale svc now later position s alive),
    token_lives,
  )
    where
      token_lives :
          Tokens.verify mac later k (extend mac svc now position s).token
          ≡ leb later
              ((now + ms (effective_ttl s.ttl_seconds svc.default_ttl_seconds)) / 1000 * 1000)
      token_lives =
          let vs = lookup-Entries IsValidSession k s svc.sessions v.entries here in
          unfold extend in
          rw vs.keyed (
            verify-build mac later (now + ms (effective_ttl s.ttl_seconds svc.default_ttl_seconds))
              s.session_id)

  -- A heartbeat for an id that is not registered raises and changes nothing.
  pub heartbeat_missing :
      (svc : Service) (now : ℕ) (k : Text) (position : Option ℕ)
      → lookup k svc.sessions ≡ none
      → heartbeat mac svc now k position
        ≡ record { service = svc; effects = []; result = err not_found_error }
  unfolding heartbeat heartbeat_found
  heartbeat_missing svc now k position gone = rw gone

  -- Nothing is served without a live session and a token that verifies for it: the request raises, and
  -- beyond the cleanup of stale sessions nothing has been changed or done.
  pub resolve_media_path_guarded :
      (o : PathSights) (svc : Service) (now : ℕ) (k token name : Text)
      → IsValid svc
      → (unless_stale now (lookup k svc.sessions) ≡ none) ⊎ (Tokens.verify mac now k token ≡ false)
      → ((resolve_media_path mac o svc now k token name).service
          ≡ (cleanup_stale_sessions now svc).0)
        × ((resolve_media_path mac o svc now k token name).effects
            ≡ (cleanup_stale_sessions now svc).1)
        × ((resolve_media_path mac o svc now k token name).result
            ≡ err (
                if is_none (unless_stale now (lookup k svc.sessions))
                then not_found_error
                else unauthorized_error))
  unfolding resolve_media_path
  resolve_media_path_guarded o svc now k token name v denied =
      rw (lookup-cleanup now k svc v) (guard (unless_stale now (lookup k svc.sessions)) denied)
    where
      guard :
          (found : Option Session)
          → (found ≡ none) ⊎ (Tokens.verify mac now k token ≡ false)
          → let c =
              serve_session mac o
                (cleanup_stale_sessions now svc).0
                now
                k
                token
                name
                (cleanup_stale_sessions now svc).1
                found in
            (c.service ≡ (cleanup_stale_sessions now svc).0)
            × (c.effects ≡ (cleanup_stale_sessions now svc).1)
            × (c.result ≡ err (if is_none found then not_found_error else unauthorized_error))
      guard none d = unfold serve_session in (refl, refl, refl)
      guard (some s) (inl impossible) = absurd (ground arith)
      guard (some s) (inr bad) = unfold serve_session in rw bad (refl, refl, refl)

-- A stopped session is gone, the others stay, and its files stay on disk.
pub lookup-stop_session :
    (svc : Service) (k j : Text)
    → lookup j (stop_session svc k).service.sessions
      ≡ (if k == j then none else lookup j svc.sessions)
unfolding stop_session stop_found
lookup-stop_session svc k j = elim (Option-cases (lookup k svc.sessions)) [
  | inl gone ↦ rw (gone, stop_found) (ground (arith, text_beq_iff k j))
  | inr (s, here) ↦ rw (here, stop_found) (lookup-remove k j svc.sessions)
]
