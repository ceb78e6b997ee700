-- ===== src/Transcoder.antt =====
-- adapters/media/ffmpeg_transcoder.py: the pool of running encoders, at most one for each session. Durations
-- are whole milliseconds and ranks are numbers; looks at a process, the answers of the hook that ranks
-- sessions, the clock and the new process are arguments. Stopped processes, evicted sessions and purged
-- folders are recorded in the state.
pub mod Room
pub mod Ensured
pub mod Kept
pub mod Requests
mod Tests
use anime_manager.Base.{
  ℕ, zero, suc, ◌+◌, ◌-◌, ◌*◌, ◌/◌, ◌≡◌, ◌↔◌, Bool, true, false, not, ◌&&◌, ◌||◌, List, [], ◌∷◌,
  ◌++◌, map, Option, none, some, max, min, if◌then◌else◌, length, ltb, leb, keep, ◌==◌ as nat_beq,
}
use anime_manager.Base.Dict.{Dict, lookup, insert, remove, ◌==◌}
use anime_manager.Base.Text.{Text, text_eq}

pub record SessionReusePolicy : Type 0 where
  pub same_start_index : Bool
  pub same_segment_seconds : Bool
  pub same_audio_track : Bool
  pub same_source_path : Bool
  pub process_alive : Bool

unfoldable pub allows_reuse : SessionReusePolicy → Bool
allows_reuse p =
    p.process_alive && p.same_start_index && p.same_segment_seconds && p.same_audio_track
    && p.same_source_path

pub record ActiveTranscode : Type 0 where
  pub output_dir : Text
  pub process : ℕ
  pub started_at : ℕ
  pub start_segment_index : ℕ
  pub segment_seconds : ℕ
  pub source_path : Text
  pub audio_track : Option ℕ

abbrev pub Active : Type 0
Active = Dict Text ActiveTranscode

pub record Pool : Type 0 where
  pub active : Active
  pub terminated : List ℕ
  pub evicted : List Text
  pub purged : List Text

pub record Request : Type 0 where
  pub session_id : Text
  pub source_path : Text
  pub output_dir : Text
  pub audio_track : Option ℕ
  pub start_segment_index : ℕ
  pub segment_seconds : Option ℕ
  pub duration_ms : ℕ

-- What a call sees: whether ffmpeg and ffprobe are found, which processes have exited when it reaps and when it looks again, the activity of a
-- session, the time, and the new process or none where it cannot be started.
pub record World : Type 0 where
  pub tools_available : Bool
  pub exited : ℕ → Bool
  pub exited_later : ℕ → Bool
  pub activity : Text → ℕ
  pub now : ℕ
  pub spawned : Option ℕ

unfoldable pub option_beq : Option ℕ → Option ℕ → Bool
option_beq none none = true
option_beq none (some b) = false
option_beq (some a) none = false
option_beq (some a) (some b) = nat_beq a b

unfoldable pub seconds_of : ℕ → Option ℕ → ℕ
seconds_of default none = max 2 default
seconds_of default (some n) = max 2 n

-- The start within the file: the last segment of a known duration at most.
unfoldable pub clamp_start : ℕ → ℕ → ℕ → ℕ
clamp_start duration_ms seconds start =
    if ltb 0 duration_ms
    then min start ((duration_ms + (1000 * seconds - 1)) / (1000 * seconds) - 1)
    else start

-- _reap_finished_locked
unfoldable pub reap : (ℕ → Bool) → Active → Active
reap exited active = keep (λ e. not (exited e.1.process)) active

abbrev pub Entry : Type 0
Entry = Text × ActiveTranscode

-- The order of _rank.
unfoldable pub ranks_below : (Text → ℕ) → Entry → Entry → Bool
ranks_below activity (i, a) (j, b) =
    ltb (activity i) (activity j)
    || nat_beq (activity i) (activity j) && ltb a.started_at b.started_at

-- min(candidates, key=_rank)
unfoldable pub least : (Text → ℕ) → Entry → List Entry → Entry
unfolding ranks_below
least activity e [] = e
least activity e (f ∷ entries) = least activity (if ranks_below activity f e then f else e) entries

unfoldable pub stop_victim : Entry → Pool → Pool
stop_victim victim p = record p {
  active = remove victim.0 p.active;
  terminated = p.terminated ++ victim.1.process ∷ [];
  evicted = p.evicted ++ victim.0 ∷ [];
}

unfoldable pub evict_one : (Text → ℕ) → List Entry → Pool → Option Pool
unfolding stop_victim
evict_one activity [] p = none
evict_one activity (e ∷ entries) p = some (stop_victim (least activity e entries) p)

-- _evict_oldest_locked
unfoldable pub evict_oldest : (Text → ℕ) → Text → Pool → Option Pool
unfolding evict_one
evict_oldest activity excluding p =
    evict_one activity (keep (λ e. not (e.0 == excluding)) p.active) p

unfoldable pub after_evict : (Pool → Option Pool) → Option Pool → Option Pool
after_evict again none = none
after_evict again (some p) = again p

-- The loop that makes room; `none` stands for the error that the server is busy.
unfoldable pub make_room : (Text → ℕ) → ℕ → Text → ℕ → Pool → Option Pool
unfolding after_evict
make_room activity most excluding zero p = if leb most (length p.active) then none else some p
make_room activity most excluding (suc fuel) p =
    let next =
      after_evict (λ q. make_room activity most excluding fuel q)
        (evict_oldest activity excluding p) in
    if leb most (length p.active) then next else some p

pub data Outcome : Type 0 where
  reused : ActiveTranscode → Outcome
  started : ActiveTranscode → Outcome
  busy : Outcome
  spawn_failed : Outcome
  tools_missing : Outcome

unfoldable pub reuse_policy : World → Request → ℕ → ℕ → ActiveTranscode → SessionReusePolicy
unfolding option_beq
reuse_policy w r seconds start a = record {
  process_alive = not (w.exited_later a.process);
  same_start_index = nat_beq a.start_segment_index start;
  same_segment_seconds = nat_beq a.segment_seconds seconds;
  same_audio_track = option_beq a.audio_track r.audio_track;
  same_source_path = a.source_path == r.source_path;
}

-- The segments of the encode before are of no use.
unfoldable pub must_purge : Request → ℕ → ℕ → ActiveTranscode → Bool
unfolding option_beq
must_purge r seconds start a =
    ltb start a.start_segment_index
    || not (option_beq r.audio_track a.audio_track)
    || not (nat_beq seconds a.segment_seconds)

unfoldable pub new_transcode : World → Request → ℕ → ℕ → ℕ → ActiveTranscode
new_transcode w r seconds start process = record {
  output_dir = r.output_dir;
  process = process;
  started_at = w.now;
  start_segment_index = start;
  segment_seconds = seconds;
  source_path = r.source_path;
  audio_track = r.audio_track;
}

unfoldable pub purge : Bool → Text → Pool → Pool
purge needed dir p = if needed then record p { purged = p.purged ++ dir ∷ [] } else p

unfoldable pub register : World → Request → ℕ → ℕ → Option ℕ → Pool → Outcome × Pool
unfolding new_transcode
register w r seconds start none p = (spawn_failed, p)
register w r seconds start (some process) p =
    let a = new_transcode w r seconds start process in
    (started a, record p { active = insert r.session_id a p.active })

-- The launch once there is room.
unfoldable pub launch : World → Request → ℕ → ℕ → Bool → Pool → Option Pool → Outcome × Pool
unfolding register purge
launch w r seconds start purge_segments p none = (busy, p)
launch w r seconds start purge_segments p (some q) =
    register w r seconds start w.spawned (purge purge_segments r.output_dir q)

unfoldable pub start_new : World → Request → ℕ → ℕ → ℕ → Bool → Pool → Outcome × Pool
unfolding launch
start_new w r most seconds start purge_segments p =
    launch w r seconds start purge_segments p
      (make_room w.activity most r.session_id (length p.active) p)

unfoldable pub terminate : Text → ActiveTranscode → Pool → Pool
terminate session_id a p = record p {
  active = remove session_id p.active;
  terminated = p.terminated ++ a.process ∷ [];
}

unfoldable pub ensure_existing :
    World → Request → ℕ → ℕ → ℕ → Option ActiveTranscode → Pool → Outcome × Pool
unfolding reuse_policy must_purge terminate
ensure_existing w r most seconds start none p = start_new w r most seconds start false p
ensure_existing w r most seconds start (some a) p =
    if allows_reuse (reuse_policy w r seconds start a)
    then (reused a, p)
    else start_new w r most seconds start (must_purge r seconds start a)
        (terminate r.session_id a p)

-- The part of ensure_hls_session under the lock
unfoldable pub ensure_locked : ℕ → ℕ → World → Request → Pool → Outcome × Pool
unfolding ensure_existing seconds_of clamp_start reap
ensure_locked most default_seconds w r p =
    let seconds = seconds_of default_seconds r.segment_seconds in
    let start = clamp_start r.duration_ms seconds r.start_segment_index in
    let reaped = record p { active = reap w.exited p.active } in
    ensure_existing w r (max 1 most) seconds start (lookup r.session_id reaped.active) reaped

-- ensure_hls_session up to the wait for the playlist
unfoldable pub ensure_hls_session : ℕ → ℕ → World → Request → Pool → Outcome × Pool
ensure_hls_session most default_seconds w r p =
    if w.tools_available then ensure_locked most default_seconds w r p else (tools_missing, p)

unfoldable pub stop_found : Text → Option ActiveTranscode → Pool → Pool
unfolding terminate
stop_found session_id none p = p
stop_found session_id (some a) p = terminate session_id a p

unfoldable pub stop_hls_session : Text → Pool → Pool
unfolding stop_found
stop_hls_session session_id p = stop_found session_id (lookup session_id p.active) p

unfoldable pub is_running : (ℕ → Bool) → Option ActiveTranscode → Bool
is_running exited_later none = false
is_running exited_later (some a) = not (exited_later a.process)

unfoldable pub is_hls_session_running : World → Text → Pool → Bool × Pool
unfolding is_running
is_hls_session_running w session_id p =
    let reaped = reap w.exited p.active in
    (is_running w.exited_later (lookup session_id reaped), record p { active = reaped })
