-- ===== src/Playback/Segments.antt =====
-- application/playback/segment_resolver.py, with `_restart_at` of service.py, which it calls. What the
-- resolver sees of the disk, the encoder and the other threads is an argument, one field for each look
-- in the order of the code, so a theorem about every `Sights` covers every interleaving.
pub mod Playhead
pub mod Restarts
pub mod Frame
use anime_manager.Base.{
  ℕ, ◌+◌, ◌≤◌, Bool, true, false, ◌&&◌, ◌||◌, List, [], ◌∷◌, ◌++◌, Option, none, some, ltb, leb,
  ◌==◌, if◌then◌else◌, max,
}
use anime_manager.Base.Dict.{◌==◌ as same}
use anime_manager.Base.Text.{Text, codes, text_eq}
use anime_manager.Playback.Contract.{
  prefetch_margin, max_forward_jump_segments, resume_segment_wait, segment_wait, Session,
}
use anime_manager.Playback.Resume.{resume_segment_index}
use anime_manager.Playback.Playlist.{segment_number, latest_existing_segment}

-- `started` is false where `TranscodeSession.start` raises; `live` where the session is still registered.
pub record Restart : Type 0 where
  pub started : Bool
  pub live : Bool

-- What other requests wrote to the session during a wait: they raise the playhead, and a restart of
-- theirs sets its start. The expiry and the token, which a heartbeat also writes, are not read here;
-- `Service.renew` writes them before the session is stored.
pub record Meanwhile : Type 0 where
  pub playhead : ℕ
  pub start : Option ℕ

pub record Sights : Type 0 where
  pub target_at_start : Bool
  pub target_before_anchor : Bool
  pub dir : Option (List Text)
  pub running_in_prefetch : Bool
  pub restart_in_prefetch : Restart
  pub others_in_prefetch : Meanwhile
  pub found_in_prefetch : Bool
  pub running_ahead : Bool
  pub others_before_lock : Meanwhile
  pub target_in_lock : Bool
  pub running_in_lock : Bool
  pub restart_in_lock : Restart
  pub others_in_lock : Meanwhile
  pub found_in_lock : Bool

-- The messages of the `NotFoundError`s.
pub data Reason : Type 0 where
  internal_artifact past_end before_anchor too_far unavailable : Reason

pub data Outcome : Type 0 where
  returned : Outcome
  not_found : Reason → Outcome

-- The session afterwards, the indices at which ffmpeg was started again, and how the call ended.
pub record Resolved : Type 0 where
  pub session : Session
  pub restarts : List ℕ
  pub outcome : Outcome

unfoldable pub playhead_head_segment : Session → Option ℕ → ℕ
playhead_head_segment s none = max 0 s.live_playhead_segment
playhead_head_segment s (some latest) = max latest (max 0 s.live_playhead_segment)

unfoldable pub note_playhead_segment : Session → ℕ → Session
note_playhead_segment s idx = record s { live_playhead_segment = max s.live_playhead_segment idx }

unfoldable pub is_speculative_far_request : Bool → Session → ℕ → Option ℕ → Bool
is_speculative_far_request running s idx latest =
    let head = playhead_head_segment s latest in
    if running
    then leb s.transcode_start_segment (head + prefetch_margin)
      && ltb (head + max_forward_jump_segments) idx
    else false

unfoldable pub segment_wait_seconds : Session → ℕ → ℕ
segment_wait_seconds s idx =
    let playhead = resume_segment_index s.playback_start s.total_segments s.segment_seconds in
    if leb s.playback_start 0
    then segment_wait
    else if idx == playhead || leb s.hls_anchor_segment idx && leb idx playhead
    then resume_segment_wait
    else segment_wait

unfoldable pub restart_at : Restart → Session → ℕ → Session
restart_at r s idx =
    if r.started && r.live
    then record s {
      transcode_start_segment = idx;
      live_playhead_segment = max s.live_playhead_segment idx;
    }
    else s

start_or : Option ℕ → ℕ → ℕ
start_or none old = old
start_or (some new) old = new

unfoldable pub meanwhile : Meanwhile → Session → Session
unfolding start_or
meanwhile m s = record s {
  live_playhead_segment = max s.live_playhead_segment m.playhead;
  transcode_start_segment = start_or m.start s.transcode_start_segment;
}

-- segment_index <= latest + 3
unfoldable pub in_prefetch : Option ℕ → ℕ → Bool
in_prefetch none idx = leb idx 2
in_prefetch (some latest) idx = leb idx (latest + 3)

-- The part under the session's restart lock.
unfoldable pub resolve_in_lock : Sights → Session → Option ℕ → ℕ → List ℕ → Resolved
unfolding note_playhead_segment restart_at meanwhile
resolve_in_lock o s latest idx done =
    let s' = meanwhile o.others_in_lock (restart_at o.restart_in_lock s idx) in
    if o.target_in_lock
    then record { session = note_playhead_segment s idx; restarts = done; outcome = returned }
    else if is_speculative_far_request o.running_in_lock s idx latest
    then record { session = s; restarts = done; outcome = not_found too_far }
    else if o.found_in_lock
    then record {
      session = note_playhead_segment s' idx;
      restarts = done ++ idx ∷ [];
      outcome = returned;
    }
    else record { session = s'; restarts = done ++ idx ∷ []; outcome = not_found unavailable }

unfoldable pub resolve_far : Sights → Session → Option ℕ → ℕ → List ℕ → Resolved
unfolding meanwhile
resolve_far o s latest idx done =
    if is_speculative_far_request o.running_ahead s idx latest
    then record { session = s; restarts = done; outcome = not_found too_far }
    else resolve_in_lock o (meanwhile o.others_before_lock s) latest idx done

-- The session after the wait for a segment that the encoder is about to reach.
unfoldable pub after_prefetch : Sights → Session → ℕ → Session
unfolding restart_at meanwhile
after_prefetch o s idx =
    meanwhile o.others_in_prefetch
      (if o.running_in_prefetch then s else restart_at o.restart_in_prefetch s idx)

unfoldable pub resolve_ahead : Sights → Session → ℕ → Resolved
unfolding in_prefetch note_playhead_segment
resolve_ahead o s idx =
    let latest = latest_existing_segment o.dir in
    let done = if o.running_in_prefetch then [] else idx ∷ [] in
    let s2 = after_prefetch o s idx in
    if in_prefetch latest idx
    then (if o.found_in_prefetch
        then record { session = note_playhead_segment s2 idx; restarts = done; outcome = returned }
        else resolve_far o s2 latest idx done)
    else resolve_far o s latest idx []

unfoldable pub resolve_missing : Sights → Session → Option ℕ → Resolved
resolve_missing o s none = record { session = s; restarts = []; outcome = returned }
resolve_missing o s (some idx) =
    if leb s.total_segments 0 || leb s.segment_seconds 0
    then record { session = s; restarts = []; outcome = returned }
    else if leb s.total_segments idx
    then record { session = s; restarts = []; outcome = not_found past_end }
    else if ltb idx s.hls_anchor_segment
    then record {
      session = s;
      restarts = [];
      outcome = if o.target_before_anchor then returned else not_found before_anchor;
    }
    else resolve_ahead o s idx

note_match : Session → Option ℕ → Session
note_match s none = s
note_match s (some idx) = note_playhead_segment s idx

unfoldable pub ensure_segment : Sights → Session → Text → Resolved
unfolding note_match note_playhead_segment
ensure_segment o s name =
    let idx = segment_number name in
    if same name (codes "_ffmpeg.m3u8")
    then record { session = s; restarts = []; outcome = not_found internal_artifact }
    else if o.target_at_start
    then record { session = note_match s idx; restarts = []; outcome = returned }
    else resolve_missing o s idx
