-- ===== src/Playback/Service/Lifetimes.antt =====
-- How long the sessions of application/playback/service.py last, and their tokens.
use anime_manager.Base.{
  ℕ, ◌+◌, ◌≤◌, ◌≡◌, refl, Bool, true, false, List, [], ◌∷◌, Option, none, some, arith, Bool-cases,
  inl, inr, ◌∙◌, sym, ap, not, ◌||◌,
}
use anime_manager.Base.Dict.{
  Dict, lookup, member, nat_eq, Entries, insert-Entries, remove-Entries, lookup-Entries,
}
use anime_manager.Base.Text.{Text, text_eq}
use anime_manager.Playback.Contract.{ms, Session}
use anime_manager.Playback.Segments.{Resolved, Outcome, returned, not_found, ensure_segment, Sights}
use anime_manager.Playback.Segments.Frame.{ensure_segment-frame}
use anime_manager.Playback.Tokens
use anime_manager.Playback.Service.{
  is_valid_segment_name, Service, PathSights, Effect, is_stale, live_sessions,
  cleanup_stale_sessions, stop_session, stop_found, effective_ttl, extend, heartbeat,
  heartbeat_found, renew, keep_session, serve_artifact, serve_resolved, serve_path, serve_session,
  resolve_media_path,
}

-- The session expires its time to live, a minute at least, after one of the times, and its token is the one
-- for its id and its expiry.
pub record Lasts (mac : Text → Text) (times : List ℕ) (s : Session) : Type 0 where
  pub since : ℕ
  pub renewed : member since times ≡ true
  pub lives : 60 ≤ s.ttl_seconds
  pub expires : s.expires_at ≡ since + ms s.ttl_seconds
  pub token_built : s.token ≡ Tokens.build mac s.session_id s.expires_at

module _ (mac : Text → Text) (times : List ℕ) where
  abbrev pub Lasting : Dict Text Session → Type 0
  Lasting d = Entries (λ k s. Lasts mac times s) d

  live_sessions-Lasting :
      (now : ℕ) (d : Dict Text Session) → Lasting d → Lasting (live_sessions now d)
  unfolding live_sessions
  live_sessions-Lasting now [] h = tt
  live_sessions-Lasting now ((j, s) ∷ d) h = elim (Bool-cases (is_stale now s)) [
    | inl stale ↦ rw stale (live_sessions-Lasting now d h.1)
    | inr live ↦ rw live (h.0, live_sessions-Lasting now d h.1)
  ]

  pub cleanup-Lasting :
      (now : ℕ) (svc : Service)
      → Lasting svc.sessions
      → Lasting (cleanup_stale_sessions now svc).0.sessions
  unfolding cleanup_stale_sessions
  cleanup-Lasting now svc v = live_sessions-Lasting now svc.sessions v

  keep-Lasting :
      (registered : Bool) (svc : Service) (k : Text) (s : Session)
      → Lasting svc.sessions
      → Lasts mac times s
      → Lasting (keep_session registered svc k s).sessions
  unfolding keep_session
  keep-Lasting true svc k s v l = insert-Entries (λ k s. Lasts mac times s) k s svc.sessions l v
  keep-Lasting false svc k s v l = remove-Entries (λ k s. Lasts mac times s) k svc.sessions v

  pub stop_session-Lasting :
      (svc : Service) (k : Text)
      → Lasting svc.sessions
      → Lasting (stop_session svc k).service.sessions
  unfolding stop_session stop_found
  stop_session-Lasting svc k v = found (lookup k svc.sessions)
    where
      found : (o : Option Session) → Lasting (stop_found svc k o).service.sessions
      found none = v
      found (some s) = remove-Entries (λ k s. Lasts mac times s) k svc.sessions v

  -- A session with a time to live keeps it.
  effective_ttl_kept : (ttl default : ℕ) → 60 ≤ ttl → effective_ttl ttl default ≡ ttl
  unfolding effective_ttl
  effective_ttl_kept ttl default h = ground arith

  extend-Lasts :
      (svc : Service) (now : ℕ) (position : Option ℕ) (s : Session)
      → member now times ≡ true
      → 60 ≤ s.ttl_seconds
      → Lasts mac times (extend mac svc now position s)
  unfolding extend
  extend-Lasts svc now position s m h = record {
    since = now;
    renewed = m;
    lives = h;
    expires = ap (λ t. now + ms t) (effective_ttl_kept s.ttl_seconds svc.default_ttl_seconds h);
    token_built = refl;
  }

  pub heartbeat-Lasting :
      (svc : Service) (now : ℕ) (k : Text) (position : Option ℕ)
      → member now times ≡ true
      → Lasting svc.sessions
      → Lasting (heartbeat mac svc now k position).service.sessions
  unfolding heartbeat heartbeat_found
  heartbeat-Lasting svc now k position m v = found (lookup k svc.sessions) refl
    where
      found :
          (o : Option Session)
          → lookup k svc.sessions ≡ o
          → Lasting (heartbeat_found mac svc now k position o).service.sessions
      found none e = v
      found (some s) e =
          insert-Entries (λ k s. Lasts mac times s) k (extend mac svc now position s) svc.sessions
            (extend-Lasts svc now position s m
              (lookup-Entries (λ k s. Lasts mac times s) k s svc.sessions v e).lives)
            v

  ensure_segment-Lasts :
      (o : Sights) (name : Text) (s : Session)
      → Lasts mac times s
      → Lasts mac times (ensure_segment o s name).session
  ensure_segment-Lasts o name s l =
      let (same_id, _, same_ttl, same_expiry, same_token, _) = ensure_segment-frame o s name in
      record {
        since = l.since;
        renewed = l.renewed;
        lives = omega (arith, l.lives, same_ttl);
        expires = same_expiry ∙ l.expires ∙ ap (λ t. l.since + ms t) (sym same_ttl);
        token_built = same_token ∙ l.token_built ∙ rw (same_id, same_expiry) refl;
      }

  renew-Lasts :
      (svc : Service) (o : Option ℕ) (s : Session)
      → ((t : ℕ) → o ≡ some t → member t times ≡ true)
      → Lasts mac times s
      → Lasts mac times (renew mac svc o s)
  unfolding renew
  renew-Lasts svc none s h l = l
  renew-Lasts svc (some t) s h l = extend-Lasts svc t none s (h t refl) l.lives

  serve_artifact-Lasting :
      (o : PathSights) (svc : Service) (now : ℕ) (k : Text) (s : Session) (effects : List Effect)
      (target : Text)
      → Lasting svc.sessions
      → Lasts mac times s
      → Lasting (serve_artifact o svc now k s effects target).service.sessions
  unfolding serve_artifact
  serve_artifact-Lasting o svc now k s effects target v l = elim (Bool-cases o.still_registered) [
    | inl here ↦ simp here (elim (Bool-cases o.is_file) [
      | inl file ↦ simp file (keep-Lasting true svc k (record s { last_seen_at = now }) v seen)
      | inr lost ↦ simp lost (keep-Lasting true svc k s v l)
    ])
    | inr gone ↦ simp gone (elim (Bool-cases o.is_file) [
      | inl file ↦ simp file (keep-Lasting false svc k s v l)
      | inr lost ↦ simp lost (keep-Lasting false svc k s v l)
    ])
  ]
    where
      seen : Lasts mac times (record s { last_seen_at = now })
      seen = record {
        since = l.since;
        renewed = l.renewed;
        lives = l.lives;
        expires = l.expires;
        token_built = l.token_built;
      }

  serve_resolved-Lasting :
      (o : PathSights) (svc : Service) (now : ℕ) (k name : Text) (effects : List Effect)
      (r : Resolved)
      → ((t : ℕ) → o.renewed ≡ some t → member t times ≡ true)
      → Lasting svc.sessions
      → Lasts mac times r.session
      → Lasting (serve_resolved mac o svc now k name effects r).service.sessions
  unfolding serve_resolved
  serve_resolved-Lasting o svc now k name effects r h v l = by_outcome r.outcome refl
    where
      lasts : Lasts mac times (renew mac svc o.renewed r.session)
      lasts = renew-Lasts svc o.renewed r.session h l

      by_outcome :
          (out : Outcome)
          → r.outcome ≡ out
          → Lasting (serve_resolved mac o svc now k name effects r).service.sessions
      by_outcome returned e =
          rw (e, serve_resolved)
            (serve_artifact-Lasting o svc now k (renew mac svc o.renewed r.session) _ _ v lasts)
      by_outcome (not_found reason) e =
          rw (e, serve_resolved)
            (keep-Lasting o.still_registered svc k (renew mac svc o.renewed r.session) v lasts)

  serve_path-Lasting :
      (o : PathSights) (svc : Service) (now : ℕ) (k : Text) (s : Session) (effects : List Effect)
      (name : Text)
      → ((t : ℕ) → o.renewed ≡ some t → member t times ≡ true)
      → Lasting svc.sessions
      → Lasts mac times s
      → Lasting (serve_path mac o svc now k s effects name).service.sessions
  unfolding serve_path
  serve_path-Lasting o svc now k s effects [] h v l = serve_artifact-Lasting o svc now k s _ _ v l
  serve_path-Lasting o svc now k s effects (c ∷ name) h v l =
      elim (Bool-cases (not (is_valid_segment_name (c ∷ name)) || not o.within_dir)) [
        | inl bad ↦ rw bad v
        | inr good ↦ rw good (
            serve_resolved-Lasting o svc now k (c ∷ name) effects
              (ensure_segment o.segment s (c ∷ name)) h v
              (ensure_segment-Lasts o.segment (c ∷ name) s l))
      ]

  serve_session-Lasting :
      (o : PathSights) (svc : Service) (now : ℕ) (k token name : Text) (effects : List Effect)
      (found : Option Session)
      → ((t : ℕ) → o.renewed ≡ some t → member t times ≡ true)
      → Lasting svc.sessions
      → lookup k svc.sessions ≡ found
      → Lasting (serve_session mac o svc now k token name effects found).service.sessions
  unfolding serve_session
  serve_session-Lasting o svc now k token name effects none h v e = v
  serve_session-Lasting o svc now k token name effects (some s) h v e =
      elim (Bool-cases (Tokens.verify mac now k token)) [
        | inl good ↦ rw good (
            serve_path-Lasting o svc now k s effects name h v
              (lookup-Entries (λ k s. Lasts mac times s) k s svc.sessions v e))
        | inr bad ↦ rw bad v
      ]

  pub resolve_media_path-Lasting :
      (o : PathSights) (svc : Service) (now : ℕ) (k token name : Text)
      → ((t : ℕ) → o.renewed ≡ some t → member t times ≡ true)
      → Lasting svc.sessions
      → Lasting (resolve_media_path mac o svc now k token name).service.sessions
  unfolding resolve_media_path
  resolve_media_path-Lasting o svc now k token name h v =
      serve_session-Lasting o (cleanup_stale_sessions now svc).0 now k token name _ _ h
        (cleanup-Lasting now svc v) refl
