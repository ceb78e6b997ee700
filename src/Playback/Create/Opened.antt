-- ===== src/Playback/Create/Opened.antt =====
-- What `create_session` has done when it returns, and when it raises.
use anime_manager.Base.{
  ℕ, ap, Bool, false, true, ◌+◌, ◌*◌, ◌≤◌, ◌<◌, ◌≡◌, refl, List, Option, none, some, arith,
  Bool-cases, inl, inr, ltb, leb, not, ◌&&◌, ◌||◌, ◌⊎◌, lt→ltb,
}
use anime_manager.Base.Dict.{insert, insert-Distinct, insert-Entries, member, nat_eq}
use anime_manager.Base.Text.{Text, text_eq}
use anime_manager.Playback.Contract.{ms, prefetch_margin, Session}
use anime_manager.Playback.Resume.{resume_segment_index, clamp_resume_seconds}
use anime_manager.Playback.Resume.Bounds.{
  resume_segment_index_contains, clamp_resume_seconds_range, anchor_segment_window,
}
use anime_manager.Playback.Playlist.{initial_total}
use anime_manager.Playback.Playlist.Manifest.{initial_total-pos, initial_total-cover}
use anime_manager.Playback.Service.{
  Service, Call, Effect, ok, err, Error, validation_error, infrastructure_error, not_found_error,
  os_error, cleanup_stale_sessions, duration_bound,
}
use anime_manager.Playback.Service.Validity.{IsValidSession, IsValid, cleanup-IsValid}
use anime_manager.Playback.Tokens
use anime_manager.Playback.Service.Lifetimes.{Lasts, Lasting, cleanup-Lasting}
use anime_manager.Playback.Create.{
  finish_create, CreateSights, Command, Episode, Layout, layout, select, new_session, start_session,
  create_selected, create_session, episode_duration, is_found, lacks_tools,
}

layout-anchored :
    (duration : ℕ) (start : Option ℕ) (seg : ℕ)
    → (0 < (layout duration start seg).resume_seg
        → ((layout duration start seg).start_segment ≤ (layout duration start seg).resume_seg)
          × ((layout duration start seg).resume_seg
              ≤ (layout duration start seg).start_segment + prefetch_margin))
unfolding layout
layout-anchored duration start seg h = ground (
  arith,
  anchor_segment_window (
      resume_segment_index (clamp_resume_seconds start (duration_bound duration))
        (initial_total duration seg) seg),
)

-- The layout of a session that resumes: the resume position lies before the end of the episode and
-- inside the segment at which the session resumes.
pub layout_resumes :
    (duration : ℕ) (start : Option ℕ) (seg : ℕ)
    → 0 < duration
    → 0 < seg
    → 0 < (layout duration start seg).playback_start
    → ((layout duration start seg).playback_start < duration)
      × ((layout duration start seg).resume_seg * ms seg
          ≤ (layout duration start seg).playback_start)
      × ((layout duration start seg).playback_start
          < ((layout duration start seg).resume_seg + 1) * ms seg)
unfolding layout duration_bound
layout_resumes duration start seg known pos resumed =
    let p = clamp_resume_seconds start (some duration) in
    let (above, below) = initial_total-cover duration seg pos known in
    elim (clamp_resume_seconds_range start duration known) [
      | inl zero_start ↦ absurd (ground arith)
      | inr (late, early) ↦
          let inside : p < initial_total duration seg * ms seg = omega arith in
          let (low, high) =
            resume_segment_index_contains p (initial_total duration seg) seg late pos inside in
          rw
            (
              lt→ltb 0 duration known,
              lt→ltb 0 p (omega arith),
              lt→ltb 0 (initial_total duration seg) (initial_total-pos duration seg),
            )
            (omega arith, low, high)
    ]

-- A call that raised before the registration left the table alone; any other one stored the session, and
-- returned it unless a write after the registration failed.
abbrev pub Stored : CreateSights → Service → Session → Call Session → Type 0
Stored o svc s c =
    (c.service ≡ svc) × ((e : Error) × (c.result ≡ err e))
    ⊎ (c.service.sessions ≡ insert o.session_id s svc.sessions)
      × ((c.result ≡ ok s)
          ⊎ (c.result ≡ err os_error) × ((o.manifest_written && o.log_written) ≡ false))
      × (c.service.default_ttl_seconds ≡ svc.default_ttl_seconds)

-- A session that is valid from the time of the call on.
pub record IsNewSession (mac : Text → Text) (o : CreateSights) (now : ℕ) (s : Session)
    : Type 0 where
  pub valid : IsValidSession o.session_id s
  pub expires : s.expires_at ≡ now + ms s.ttl_seconds
  pub token_built : s.token ≡ Tokens.build mac s.session_id s.expires_at
  pub seen : (s.created_at ≡ now) × (s.last_seen_at ≡ now)

-- `create_session` raises and leaves the table alone, or stores a new session, which it returns unless a
-- write after the registration failed.
abbrev pub Created : (Text → Text) → CreateSights → ℕ → Service → Call Session → Type 0
Created mac o now svc c =
    (c.service ≡ svc) × ((e : Error) × (c.result ≡ err e))
    ⊎ ((s : Session) × IsNewSession mac o now s
        × (c.service.sessions ≡ insert o.session_id s svc.sessions)
        × ((c.result ≡ ok s)
            ⊎ (c.result ≡ err os_error) × ((o.manifest_written && o.log_written) ≡ false))
        × (c.service.default_ttl_seconds ≡ svc.default_ttl_seconds))

finish_create-result :
    (o : CreateSights) (s : Session) (rewrite : Bool) (effects : List Effect) (svc : Service)
    → let c = finish_create o s rewrite effects svc in
      (c.service ≡ svc)
      × ((c.result ≡ ok s)
          ⊎ (c.result ≡ err os_error) × ((o.manifest_written && o.log_written) ≡ false))
unfolding finish_create
finish_create-result o s rewrite effects svc =
    elim (Bool-cases (rewrite && not o.manifest_written)) [
      | inl unwritten ↦ simp unwritten (refl, inr (refl, ground arith))
      | inr written ↦ simp written (elim (Bool-cases o.log_written) [
        | inl logged ↦ simp logged (refl, inl refl)
        | inr lost ↦ simp lost (refl, inr (refl, ground arith))
      ])
    ]

module _ (mac : Text → Text) where
  new_session-IsNewSession :
      (o : CreateSights) (svc : Service) (now : ℕ) (cmd : Command) (ep : Episode) (duration : ℕ)
      (start : Option ℕ) (seg : ℕ)
      → IsNewSession mac o now (new_session mac o svc now cmd ep (layout duration start seg))
  unfolding new_session
  new_session-IsNewSession o svc now cmd ep duration start seg = record {
    valid = record {
      keyed = refl;
      ahead = ground (arith, layout-anchored duration start seg);
      lives = omega arith;
    };
    expires = refl;
    token_built = refl;
    seen = (refl, refl);
  }

  start_session-Stored :
      (o : CreateSights) (svc : Service) (now : ℕ) (cmd : Command) (effects : List Effect)
      (ep : Episode) (l : Layout)
      → Stored o svc
          (new_session mac o svc now cmd ep l)
          (start_session mac o svc now cmd effects ep l)
  unfolding start_session
  start_session-Stored o svc now cmd effects ep l = elim (Bool-cases (not o.prepared)) [
    | inl unprepared ↦ simp unprepared (inl (refl, (os_error, refl)))
    | inr prepared ↦
        elim (Bool-cases (ltb 0 l.playback_start && (leb l.duration 0 || leb l.resume_seg 0))) [
          | inl unknown ↦ simp (prepared, unknown) (inl (refl, (validation_error, refl)))
          | inr known ↦ elim (Bool-cases (not o.started)) [
            | inl failed ↦ simp (prepared, known, failed) (inl (refl, (infrastructure_error, refl)))
            | inr started ↦
                elim (Bool-cases
                  (ltb 0 l.duration && not (is_found o.wait) || not o.manifest_is_file)) [
                    | inl lost ↦
                        simp (prepared, known, started, lost)
                          (inl (refl, (infrastructure_error, refl)))
                    | inr ready ↦ simp (prepared, known, started, ready) (inr (registered _ _ _))
                  ]
          ]
        ]
  ]
    where
      registered :
          (rewrite : Bool) (launched : List Effect) (locks : List Text)
          → let s = new_session mac o svc now cmd ep l in
            let c = finish_create o s rewrite launched (record svc {
              sessions = insert o.session_id s svc.sessions;
              restart_locks = locks;
            }) in
            (c.service.sessions ≡ insert o.session_id s svc.sessions)
            × ((c.result ≡ ok s)
                ⊎ (c.result ≡ err os_error) × ((o.manifest_written && o.log_written) ≡ false))
            × (c.service.default_ttl_seconds ≡ svc.default_ttl_seconds)
      registered rewrite launched locks =
          let s = new_session mac o svc now cmd ep l in
          let stored : Service = record svc {
            sessions = insert o.session_id s svc.sessions;
            restart_locks = locks;
          } in
          let (same, result) = finish_create-result o s rewrite launched stored in
          (ap (λ v. v.sessions) same, result, ap (λ v. v.default_ttl_seconds) same)

  create_selected-Created :
      (o : CreateSights) (svc : Service) (now : ℕ) (cmd : Command) (effects : List Effect)
      (found : Option Episode)
      → Created mac o now svc (create_selected mac o svc now cmd effects found)
  unfolding create_selected
  create_selected-Created o svc now cmd effects none = inl (refl, (not_found_error, refl))
  create_selected-Created o svc now cmd effects (some ep) =
      let duration = episode_duration o.probed_duration ep in
      elim (Bool-cases (not o.path_is_file)) [
        | inl lost ↦ simp lost (inl (refl, (not_found_error, refl)))
        | inr there ↦ elim (Bool-cases (lacks_tools o.tools ep)) [
          | inl bare ↦ simp (there, bare) (inl (refl, (infrastructure_error, refl)))
          | inr tooled ↦ elim (Bool-cases (leb duration 0 && not ep.has_tracks)) [
            | inl empty ↦ simp (there, tooled, empty) (inl (refl, (validation_error, refl)))
            | inr playable ↦ simp (there, tooled, playable) (started duration)
          ]
        ]
      ]
    where
      started :
          (duration : ℕ)
          → Created mac o now svc (
              start_session mac o svc now cmd effects ep
                (layout duration cmd.start_time svc.segment_seconds))
      started duration =
          let l = layout duration cmd.start_time svc.segment_seconds in
          elim (start_session-Stored o svc now cmd effects ep l) [
            | inl raised ↦ inl raised
            | inr (stored, result, ttl) ↦ inr (
              new_session mac o svc now cmd ep l,
              new_session-IsNewSession o svc now cmd ep duration cmd.start_time svc.segment_seconds,
              stored,
              result,
              ttl,
            )
          ]

  -- `create_session` either raises and leaves the table as the cleanup of stale sessions left it, or stores a
  -- session under the new id, whose playhead is not before its anchor, which expires its time to live, a
  -- minute at least, after the call, and whose token is the one for its id and expiry. It returns that
  -- session, or raises an OSError with the session left in the table, which happens only where the manifest
  -- or the log cannot be written.
  pub create_session-Created :
      (o : CreateSights) (svc : Service) (now : ℕ) (cmd : Command)
      → Created mac o now (cleanup_stale_sessions now svc).0 (create_session mac o svc now cmd)
  unfolding create_session
  create_session-Created o svc now cmd =
      create_selected-Created o (cleanup_stale_sessions now svc).0 now cmd _
        (select cmd.file_id o.episodes)

  Created-IsValid :
      (o : CreateSights) (now : ℕ) (svc : Service) (c : Call Session)
      → IsValid svc
      → Created mac o now svc c
      → IsValid c.service
  Created-IsValid o now svc c v (inl raised) = rw (raised.0) v
  Created-IsValid o now svc c v (inr (s, new, stored, result, ttl)) = record {
    distinct = rw stored (insert-Distinct o.session_id s svc.sessions v.distinct);
    entries =
        rw stored (insert-Entries IsValidSession o.session_id s svc.sessions new.valid v.entries);
    default_lives = rw ttl v.default_lives;
  }

  pub create_session-IsValid :
      (o : CreateSights) (svc : Service) (now : ℕ) (cmd : Command)
      → IsValid svc
      → IsValid (create_session mac o svc now cmd).service
  create_session-IsValid o svc now cmd v =
      Created-IsValid o now (cleanup_stale_sessions now svc).0 (create_session mac o svc now cmd)
        (cleanup-IsValid now svc v) (create_session-Created o svc now cmd)

  Created-Lasting :
      (times : List ℕ) (o : CreateSights) (now : ℕ) (svc : Service) (c : Call Session)
      → member now times ≡ true
      → Lasting mac times svc.sessions
      → Created mac o now svc c
      → Lasting mac times c.service.sessions
  Created-Lasting times o now svc c m v (inl raised) = rw (raised.0) v
  Created-Lasting times o now svc c m v (inr (s, new, stored, result, ttl)) = rw stored (
      insert-Entries (λ k s. Lasts mac times s) o.session_id s svc.sessions
        (record {
          since = now;
          renewed = m;
          lives = new.valid.lives;
          expires = new.expires;
          token_built = new.token_built;
        })
        v)

  pub create_session-Lasting :
      (times : List ℕ) (o : CreateSights) (svc : Service) (now : ℕ) (cmd : Command)
      → member now times ≡ true
      → Lasting mac times svc.sessions
      → Lasting mac times (create_session mac o svc now cmd).service.sessions
  create_session-Lasting times o svc now cmd m v =
      Created-Lasting times o now (cleanup_stale_sessions now svc).0
        (create_session mac o svc now cmd) m (cleanup-Lasting mac times now svc v)
        (create_session-Created o svc now cmd)
