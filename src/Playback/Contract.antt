-- ===== src/Playback/Contract.antt =====
-- application/playback/contract.py and application/dto/media_streaming.py: the shared constants and
-- the session record. A time or a position is a number of milliseconds, where the code has floats of
-- seconds; segment lengths stay whole seconds.
use anime_manager.Base.{ℕ, ◌*◌, Option}
use anime_manager.Base.Text.{Text}

abbrev pub ms : ℕ → ℕ
ms seconds = seconds * 1000

abbrev pub prefetch_margin : ℕ
prefetch_margin = 2

abbrev pub min_resume : ℕ
min_resume = ms 10

abbrev pub near_end_restart : ℕ
near_end_restart = ms 15

abbrev pub event_manifest_lookahead : ℕ
event_manifest_lookahead = 15

abbrev pub max_forward_jump_segments : ℕ
max_forward_jump_segments = 90

abbrev pub resume_segment_wait : ℕ
resume_segment_wait = ms 180

abbrev pub segment_wait : ℕ
segment_wait = ms 20

-- PlaybackSessionDTO, without `playlist_url`, `subtitle_tracks` and `extra`, which no operation
-- of the service reads.
pub record Session : Type 0 where
  pub session_id : Text
  pub anime_id : ℕ
  pub file_id : Text
  pub file_title : Text
  pub manifest_path : Text
  pub output_dir : Text
  pub token : Text
  pub expires_at : ℕ
  pub created_at : ℕ
  pub last_seen_at : ℕ
  pub audio_track : Option ℕ
  pub subtitle_track : Option ℕ
  pub source_path : Text
  pub duration : ℕ
  pub segment_seconds : ℕ
  pub total_segments : ℕ
  pub hls_anchor_segment : ℕ
  pub playback_start : ℕ
  pub live_playhead_segment : ℕ
  pub transcode_start_segment : ℕ
  pub ttl_seconds : ℕ
