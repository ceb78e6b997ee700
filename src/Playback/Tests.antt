-- ===== src/Playback/Tests.antt =====
-- Runs of the playback code, and its theorems at concrete sessions.
use anime_manager.Base.{
  ◌+◌, ◌-◌, ◌*◌, ◌/◌, ◌≤◌, ◌<◌, ◌≡◌, refl, true, false, List, [], ◌∷◌, Option, none, some, arith,
  inl, ◌⊎◌, leb,
}
use anime_manager.Base.Dict.{lookup, insert, member}
use anime_manager.Base.Text.{
  Text, codes, text_eq, text_beq, strip, decimal, padded5, split_once, parse_int, digits_value,
}
use anime_manager.Playback.Contract.{ms, Session, min_resume, near_end_restart}
use anime_manager.Playback.Resume.{clamp_resume_seconds}
use anime_manager.Playback.Resume.Bounds.{clamp_resume_seconds_range}
use anime_manager.Playback.Playlist.{
  segment_file, segment_number, latest_existing_segment, render_manifest, initial_total,
}
use anime_manager.Playback.Playlist.Names.{
  segment_number-segment_file, latest_existing_segment-greatest, HasSegment, AtMost,
}
use anime_manager.Playback.Playlist.Manifest.{
  listed, stated_duration, count_up, EventWindow, listed-render_manifest,
  render_manifest-EventWindow, stated_duration-complete,
}
use anime_manager.Playback.Segments.{
  Sights, Restart, Meanwhile, returned, not_found, too_far, ensure_segment, playhead_head_segment,
  resolve_missing, resolve_ahead,
}
use anime_manager.Playback.Segments.Playhead.{ensure_segment-playhead_reaches}
use anime_manager.Playback.Segments.Restarts.{
  RestartsWithin, ensure_segment-RestartsWithin, ensure_segment-rejects_far,
}
use anime_manager.Playback.Tokens
use anime_manager.Playback.Tokens.{verify-build, verify_sound, Accepted}
use anime_manager.Playback.Service.{
  Service, init, err, not_found_error, os_error, PathSights, cleanup_stale_sessions, effective_ttl,
  extend, heartbeat, resolve_media_path, is_stale,
}
use anime_manager.Playback.Service.Validity.{IsValid}
use anime_manager.Playback.Service.Sessions.{
  unless_stale, heartbeat_keeps_alive, resolve_media_path_guarded,
}
use anime_manager.Playback.Create.{
  CreateSights, Command, ToolCheck, layout, finish_create, create_session,
}
use anime_manager.Playback.Resume.{WaitResult}
use anime_manager.Playback.Create.Opened.{Created, create_session-Created, layout_resumes}
use anime_manager.Playback.Requests.{Request, run, renewals, run-IsValid}
use anime_manager.Playback.Service.Lifetimes.{Lasting}

program : Unit {0}
unfolding segment_number segment_file padded5 digits_value latest_existing_segment render_manifest
    lookup member text_beq strip ensure_segment initial_total decimal parse_int split_once insert
    is_stale
program = tt

-- A stand-in for the keyed digest.
abbrev mac : Text → Text
mac payload = codes "sig"

abbrev session : Session
session = record {
  session_id = codes "s1";
  anime_id = 7;
  file_id = codes "f";
  file_title = codes "ep 1";
  manifest_path = codes "/c/s1/index.m3u8";
  output_dir = codes "/c/s1";
  token = [];
  expires_at = ms 1000;
  created_at = 0;
  last_seen_at = 0;
  audio_track = none;
  subtitle_track = none;
  source_path = codes "/a/1.mkv";
  duration = ms 1402;
  segment_seconds = 4;
  total_segments = 351;
  hls_anchor_segment = 0;
  playback_start = 0;
  live_playhead_segment = 3;
  transcode_start_segment = 0;
  ttl_seconds = 900;
}

abbrev quiet : Meanwhile
quiet = record { playhead = 0; start = none }

abbrev restarted : Restart
restarted = record { started = true; live = true }

abbrev disk : Option (List Text)
disk = some (codes "index.m3u8" ∷ segment_file 4 ∷ segment_file 5 ∷ [])

-- The encoder runs, and nothing that is asked for appears.
abbrev sights : Sights
sights = record {
  target_at_start = false;
  target_before_anchor = false;
  dir = disk;
  running_in_prefetch = true;
  restart_in_prefetch = restarted;
  others_in_prefetch = quiet;
  found_in_prefetch = true;
  running_ahead = true;
  others_before_lock = quiet;
  target_in_lock = false;
  running_in_lock = true;
  restart_in_lock = restarted;
  others_in_lock = quiet;
  found_in_lock = true;
}

latest_on_disk : latest_existing_segment disk ≡ some 5
unfolding program
latest_on_disk = refl

pattern_accepts_newline : segment_number (codes "segment_12.ts\n") ≡ some 12
unfolding program
pattern_accepts_newline = refl

pattern_rejects : segment_number (codes "segment_.ts") ≡ none
unfolding program
pattern_rejects = refl

number_of_96 : segment_number (segment_file 96) ≡ some 96
number_of_96 = segment_number-segment_file 96

segment_number-segment_file_example : segment_number (segment_file 123456) ≡ some 123456
segment_number-segment_file_example = segment_number-segment_file 123456

latest_existing_segment-greatest_example :
    HasSegment 5 (codes "index.m3u8" ∷ segment_file 4 ∷ segment_file 5 ∷ [])
    × AtMost 5 (codes "index.m3u8" ∷ segment_file 4 ∷ segment_file 5 ∷ [])
latest_existing_segment-greatest_example =
    latest_existing_segment-greatest (codes "index.m3u8" ∷ segment_file 4 ∷ segment_file 5 ∷ []) 5
      latest_on_disk

ensure_segment-rejects_far_example :
    ensure_segment sights session (segment_file 96)
    ≡ record { session = session; restarts = []; outcome = not_found too_far }
unfolding program playhead_head_segment
ensure_segment-rejects_far_example =
    ensure_segment-rejects_far sights session (segment_file 96) 96 number_of_96 refl refl
      (omega arith) (omega arith) (omega arith) (omega arith) (omega arith)

ensure_segment-RestartsWithin_example :
    RestartsWithin session
      (segment_file 96)
      (ensure_segment sights session (segment_file 96)).restarts
ensure_segment-RestartsWithin_example =
    ensure_segment-RestartsWithin sights session (segment_file 96)

near_served : (ensure_segment sights session (segment_file 7)).outcome ≡ returned
unfolding program resolve_missing resolve_ahead
near_served = refl

number_of_7 : segment_number (segment_file 7) ≡ some 7
number_of_7 = segment_number-segment_file 7

ensure_segment-playhead_reaches_example :
    7 ≤ (ensure_segment sights session (segment_file 7)).session.live_playhead_segment
ensure_segment-playhead_reaches_example =
    ensure_segment-playhead_reaches sights session (segment_file 7) 7 number_of_7 (omega arith)
      (omega arith) (omega arith) near_served

clamp_resume_seconds_range_example :
    (clamp_resume_seconds (some (ms 30)) (some (ms 40)) ≡ 0)
    ⊎ ((min_resume ≤ clamp_resume_seconds (some (ms 30)) (some (ms 40)))
        × (clamp_resume_seconds (some (ms 30)) (some (ms 40)) + near_end_restart < ms 40))
clamp_resume_seconds_range_example = clamp_resume_seconds_range (some (ms 30)) (ms 40) (omega arith)

-- Three segments of 4 seconds, the last one of 2.
abbrev short : Session
short = record session { duration = ms 10; total_segments = 3 }

abbrev finished : Option (List Text)
finished = some (segment_file 0 ∷ segment_file 1 ∷ segment_file 2 ∷ [])

finished-complete : (render_manifest (λ t. t) short finished none).complete ≡ true
unfolding program
finished-complete = refl

initial_total_of_short : short.total_segments ≡ initial_total short.duration short.segment_seconds
unfolding program
initial_total_of_short = refl

stated_duration-complete_example :
    stated_duration (render_manifest (λ t. t) short finished none).lines ≡ ms 10
stated_duration-complete_example =
    stated_duration-complete (λ t. t) short finished none finished-complete refl (omega arith)
      (omega arith) initial_total_of_short

listed-render_manifest_example :
    listed (render_manifest (λ t. t) short finished none).lines
    ≡ count_up
        ((render_manifest (λ t. t) short finished none).end_index
          + 1
          - (render_manifest (λ t. t) short finished none).anchor)
        (render_manifest (λ t. t) short finished none).anchor
listed-render_manifest_example = listed-render_manifest (λ t. t) short finished none

unfinished : (render_manifest (λ t. t) session disk none).complete ≡ false
unfolding program
unfinished = refl

render_manifest-EventWindow_example :
    EventWindow
      (latest_existing_segment disk)
      351
      (render_manifest (λ t. t) session disk none).anchor
      (render_manifest (λ t. t) session disk none).end_index
render_manifest-EventWindow_example =
    render_manifest-EventWindow (λ t. t) session disk none unfinished

verify-build_example :
    Tokens.verify mac 5000 (codes "s1") (Tokens.build mac (codes "s1") 9500)
    ≡ leb 5000 (ms (9500 / 1000))
verify-build_example = verify-build mac 5000 9500 (codes "s1")

accepted_token : Tokens.verify mac 5000 (codes "s1") (codes "9.sig") ≡ true
unfolding program Tokens.verify Tokens.signature
accepted_token = refl

verify_sound_example : Accepted mac 5000 (codes "s1") (codes "9.sig")
verify_sound_example = verify_sound mac 5000 (codes "s1") (codes "9.sig") accepted_token

-- A table with one session, and its invariant.
abbrev one_session : Service
one_session = record (init 900 4) { sessions = (codes "s1", session) ∷ [] }

one_session-IsValid : IsValid one_session
unfolding init lookup
one_session-IsValid = record {
  distinct = (refl, tt);
  entries = (record { keyed = refl; ahead = omega arith; lives = omega arith }, tt);
  default_lives = omega arith;
}

registered : lookup (codes "s1") one_session.sessions ≡ some session
unfolding program
registered = refl

heartbeat_keeps_alive_example :
    (lookup
        (codes "s1")
        (cleanup_stale_sessions
          (ms 1200)
          (heartbeat mac one_session (ms 900) (codes "s1") (some (ms 61))).service).0.sessions
      ≡ some (extend mac one_session (ms 900) (some (ms 61)) session))
    × (Tokens.verify mac
          (ms 1200)
          (codes "s1")
          (extend mac one_session (ms 900) (some (ms 61)) session).token
        ≡ leb
            (ms 1200)
            ((ms 900 + ms (effective_ttl 900 one_session.default_ttl_seconds)) / 1000 * 1000))
unfolding effective_ttl
heartbeat_keeps_alive_example =
    heartbeat_keeps_alive mac one_session (ms 900) (ms 1200) (codes "s1") (some (ms 61)) session
      one_session-IsValid registered (omega arith)

abbrev path_sights : PathSights
path_sights = record {
  within_dir = true;
  segment = sights;
  is_file = true;
  still_registered = true;
  renewed = some (ms 45);
}

stale_now : unless_stale (ms 1000) (lookup (codes "s1") one_session.sessions) ≡ none
unfolding program
stale_now = refl

resolve_media_path_guarded_example :
    (resolve_media_path mac path_sights one_session
      (ms 1000)
      (codes "s1")
      (codes "9.sig")
      []).result
    ≡ err not_found_error
unfolding program
resolve_media_path_guarded_example =
    (resolve_media_path_guarded mac path_sights one_session (ms 1000) (codes "s1") (codes "9.sig")
      [] one_session-IsValid (inl stale_now)).2

abbrev create_sights : CreateSights
create_sights = record {
  episodes =
      record {
        file_id = codes "f";
        title = codes "ep 1";
        path = codes "/a/1.mkv";
        has_tracks = true;
        duration = none;
        ffmpeg_missing = false;
      }
      ∷ [];
  path_is_file = true;
  tools = ToolCheck.passes;
  probed_duration = ms 1402;
  session_id = codes "s2";
  output_dir = codes "/c/s2";
  manifest_path = codes "/c/s2/index.m3u8";
  prepared = true;
  started = true;
  wait = WaitResult.found;
  manifest_is_file = true;
  artifact_manifest_path = codes "/c/s2/index.m3u8";
  manifest_written = true;
  log_written = true;
}

abbrev command : Command
command = record {
  anime_id = 7;
  file_id = codes "f";
  start_time = some (ms 857);
  audio_track = none;
  subtitle_track = none;
  ttl_seconds = 0;
}

create_session-Created_example :
    Created mac create_sights
      (ms 5)
      (cleanup_stale_sessions (ms 5) one_session).0
      (create_session mac create_sights one_session (ms 5) command)
create_session-Created_example = create_session-Created mac create_sights one_session (ms 5) command

-- A log that cannot be written leaves the new session in the table, though the call raises.
leaked :
    finish_create (record create_sights { log_written = false }) session false [] one_session
    ≡ record { service = one_session; effects = []; result = err os_error }
unfolding finish_create
leaked = refl

resumes_at_857 : 0 < (layout (ms 1402) (some (ms 857)) 4).playback_start
unfolding layout clamp_resume_seconds
resumes_at_857 = omega arith

layout_resumes_example :
    ((layout (ms 1402) (some (ms 857)) 4).playback_start < ms 1402)
    × ((layout (ms 1402) (some (ms 857)) 4).resume_seg * ms 4
        ≤ (layout (ms 1402) (some (ms 857)) 4).playback_start)
    × ((layout (ms 1402) (some (ms 857)) 4).playback_start
        < ((layout (ms 1402) (some (ms 857)) 4).resume_seg + 1) * ms 4)
layout_resumes_example =
    layout_resumes (ms 1402) (some (ms 857)) 4 (omega arith) (omega arith) resumes_at_857

abbrev requests : List Request
requests =
    Request.create create_sights (ms 5) command
    ∷ Request.beat (ms 30) (codes "s2") (some (ms 900))
    ∷ Request.resolve path_sights (ms 40) (codes "s2") (codes "935.sig") (segment_file 214)
    ∷ Request.stop (codes "s2")
    ∷ []

run-IsValid_example :
    IsValid (run mac (init 900 4) requests)
    × Lasting mac (renewals requests) (run mac (init 900 4) requests).sessions
run-IsValid_example = run-IsValid mac 900 4 requests
