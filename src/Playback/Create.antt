-- ===== src/Playback/Create.antt =====
-- `create_session` of application/playback/service.py. What it sees of the media library, the disk and
-- ffmpeg is an argument, also whether it can write: the folder and the initial playlist (`prepared`), the
-- manifest of a new session (`manifest_written`) and its log (`log_written`). Subtitle files and telemetry are
-- left out.
pub mod Opened
use anime_manager.Base.{
  ℕ, ◌+◌, ◌-◌, Bool, true, false, not, ◌&&◌, ◌||◌, List, [], ◌∷◌, ◌++◌, Option, none, some, ltb,
  leb, if◌then◌else◌,
}
use anime_manager.Base.Dict.{insert, add, ◌==◌}
use anime_manager.Base.Text.{Text, text_eq}
use anime_manager.Playback.Contract.{ms, Session}
use anime_manager.Playback.Resume.{
  resume_segment_index, anchor_segment, clamp_resume_seconds, WaitResult, found, timed_out, aborted,
  still_waiting,
}
use anime_manager.Playback.Playlist.{initial_total}
use anime_manager.Playback.Tokens
use anime_manager.Playback.Service.{
  Error, not_found_error, validation_error, infrastructure_error, os_error, Result, ok, err, Effect,
  start_transcode, write_manifest, Service, Call, cleanup_stale_sessions, effective_ttl,
  duration_bound,
}

-- EpisodeFileDTO, as far as `create_session` reads it.
pub record Episode : Type 0 where
  pub file_id : Text
  pub title : Text
  pub path : Text
  pub has_tracks : Bool
  pub duration : Option ℕ
  pub ffmpeg_missing : Bool

pub data ToolCheck : Type 0 where
  no_check passes raises : ToolCheck

pub record Command : Type 0 where
  pub anime_id : ℕ
  pub file_id : Text
  pub start_time : Option ℕ
  pub audio_track : Option ℕ
  pub subtitle_track : Option ℕ
  pub ttl_seconds : ℕ

pub record CreateSights : Type 0 where
  pub episodes : List Episode
  pub path_is_file : Bool
  pub tools : ToolCheck
  -- 0 where the probe fails
  pub probed_duration : ℕ
  pub session_id : Text
  pub output_dir : Text
  pub manifest_path : Text
  pub prepared : Bool
  pub started : Bool
  pub wait : WaitResult
  pub manifest_is_file : Bool
  pub artifact_manifest_path : Text
  pub manifest_written : Bool
  pub log_written : Bool

unfoldable pub select : Text → List Episode → Option Episode
select file_id [] = none
select file_id (ep ∷ rest) = if ep.file_id == file_id then some ep else select file_id rest

unfoldable pub lacks_tools : ToolCheck → Episode → Bool
lacks_tools no_check ep = ep.ffmpeg_missing
lacks_tools passes ep = false
lacks_tools raises ep = true

or_zero : Option ℕ → ℕ
or_zero none = 0
or_zero (some n) = n

-- The probed duration, or else the one that the library knows.
unfoldable pub episode_duration : ℕ → Episode → ℕ
unfolding or_zero
episode_duration probed ep = if leb probed 0 then or_zero ep.duration else probed

unfoldable pub is_found : WaitResult → Bool
is_found found = true
is_found timed_out = false
is_found aborted = false
is_found still_waiting = false

-- The segments of a new session: where it resumes, and where the encoder starts.
pub record Layout : Type 0 where
  pub duration : ℕ
  pub playback_start : ℕ
  pub total_segments : ℕ
  pub resume_seg : ℕ
  pub start_segment : ℕ

unfoldable pub layout : ℕ → Option ℕ → ℕ → Layout
unfolding duration_bound
layout duration start seg_secs =
    let playback_start = clamp_resume_seconds start (duration_bound duration) in
    let total = if ltb 0 duration then initial_total duration seg_secs else 0 in
    let resume_seg =
      if ltb 0 playback_start && ltb 0 total
      then resume_segment_index playback_start total seg_secs
      else 0 in
    record {
      duration = duration;
      playback_start = playback_start;
      total_segments = total;
      resume_seg = resume_seg;
      start_segment = if ltb 0 resume_seg then anchor_segment resume_seg else 0;
    }

-- duration > 0 and (start_segment > 0 or playback_start > 0)
unfoldable pub must_rewrite : Layout → Bool
must_rewrite l = ltb 0 l.duration && (ltb 0 l.start_segment || ltb 0 l.playback_start)

-- The end of the call, once the session is registered: its manifest and its log are written, and either
-- may raise.
unfoldable pub finish_create : CreateSights → Session → Bool → List Effect → Service → Call Session
finish_create o s rewrite effects svc =
    if rewrite && not o.manifest_written
    then record { service = svc; effects = effects; result = err os_error }
    else record {
      service = svc;
      effects = if rewrite then effects ++ write_manifest s.session_id ∷ [] else effects;
      result = if o.log_written then ok s else err os_error;
    }

module _ (mac : Text → Text) where
  unfoldable pub new_session : CreateSights → Service → ℕ → Command → Episode → Layout → Session
  unfolding effective_ttl
  new_session o svc now cmd ep l =
      let ttl = effective_ttl cmd.ttl_seconds svc.default_ttl_seconds in
      record {
        session_id = o.session_id;
        anime_id = cmd.anime_id;
        file_id = ep.file_id;
        file_title = ep.title;
        manifest_path = if ltb 0 l.duration then o.manifest_path else o.artifact_manifest_path;
        output_dir = o.output_dir;
        token = Tokens.build mac o.session_id (now + ms ttl);
        expires_at = now + ms ttl;
        created_at = now;
        last_seen_at = now;
        audio_track = cmd.audio_track;
        subtitle_track = cmd.subtitle_track;
        source_path = ep.path;
        duration = l.duration;
        segment_seconds = if ltb 0 l.duration then svc.segment_seconds else 0;
        total_segments = l.total_segments;
        hls_anchor_segment = l.start_segment;
        playback_start = l.playback_start;
        live_playhead_segment = if ltb 0 l.resume_seg then l.resume_seg else l.start_segment;
        transcode_start_segment = l.start_segment;
        ttl_seconds = ttl;
      }

  unfoldable pub start_session :
      CreateSights → Service → ℕ → Command → List Effect → Episode → Layout → Call Session
  unfolding is_found must_rewrite finish_create
  start_session o svc now cmd effects ep l =
      let prepared =
        if ltb 0 l.duration then effects ++ write_manifest o.session_id ∷ [] else effects in
      let launched = prepared ++ start_transcode o.session_id l.start_segment ∷ [] in
      let s = new_session o svc now cmd ep l in
      if not o.prepared
      then record { service = svc; effects = effects; result = err os_error }
      else if ltb 0 l.playback_start && (leb l.duration 0 || leb l.resume_seg 0)
      then record { service = svc; effects = prepared; result = err validation_error }
      else if not o.started
      then record { service = svc; effects = prepared; result = err infrastructure_error }
      else if ltb 0 l.duration && not (is_found o.wait) || not o.manifest_is_file
      then record { service = svc; effects = launched; result = err infrastructure_error }
      else finish_create o s (must_rewrite l) launched (record svc {
        sessions = insert o.session_id s svc.sessions;
        restart_locks = add o.session_id svc.restart_locks;
      })

  unfoldable pub create_selected :
      CreateSights → Service → ℕ → Command → List Effect → Option Episode → Call Session
  unfolding lacks_tools
  create_selected o svc now cmd effects none = record {
    service = svc;
    effects = effects;
    result = err not_found_error;
  }
  create_selected o svc now cmd effects (some ep) =
      let duration = episode_duration o.probed_duration ep in
      if not o.path_is_file
      then record { service = svc; effects = effects; result = err not_found_error }
      else if lacks_tools o.tools ep
      then record { service = svc; effects = effects; result = err infrastructure_error }
      else if leb duration 0 && not ep.has_tracks
      then record { service = svc; effects = effects; result = err validation_error }
      else start_session o svc now cmd effects ep
          (layout duration cmd.start_time svc.segment_seconds)

  unfoldable pub create_session : CreateSights → Service → ℕ → Command → Call Session
  create_session o svc0 now cmd =
      let (svc, effects) = cleanup_stale_sessions now svc0 in
      create_selected o svc now cmd effects (select cmd.file_id o.episodes)
