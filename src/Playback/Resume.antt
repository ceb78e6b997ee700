-- ===== src/Playback/Resume.antt =====
-- application/playback/resume.py: from a resume position to segments. Positions and counts that the
-- code tests against 0 are natural numbers here; the code answers 0 for every negative one too.
pub mod Bounds
use anime_manager.Base.{
  ℕ, ◌+◌, ◌-◌, ◌/◌, ◌≤◌, ◌||◌, Option, none, some, ltb, leb, if◌then◌else◌, min, max, ◌==◌, Bool,
  true, false, List, [], ◌∷◌,
}
use anime_manager.Playback.Contract.{ms, prefetch_margin, min_resume, near_end_restart}

unfoldable pub resume_segment_index : ℕ → ℕ → ℕ → ℕ
resume_segment_index playback_start total_segments segment_seconds =
    if ltb playback_start min_resume || leb total_segments 0 || leb segment_seconds 0
    then 0
    else max 0 (min (playback_start / ms segment_seconds) (total_segments - 1))

-- max(0, resume_seg - PREFETCH_MARGIN), by the subtraction that stops at 0
unfoldable pub anchor_segment : ℕ → ℕ
anchor_segment resume_seg = resume_seg - prefetch_margin

unfoldable pub normalize_resume_seconds : Option ℕ → ℕ
normalize_resume_seconds none = 0
normalize_resume_seconds (some seconds) =
    if seconds == 0 || ltb seconds min_resume then 0 else seconds

clamp_to : ℕ → Option ℕ → ℕ
clamp_to seconds none = seconds
clamp_to seconds (some max_duration) =
    if leb max_duration 0
    then seconds
    else if leb max_duration (seconds + near_end_restart)
    then 0
    else min seconds (max_duration - ms 1)

unfoldable pub clamp_resume_seconds : Option ℕ → Option ℕ → ℕ
unfolding clamp_to normalize_resume_seconds
clamp_resume_seconds value max_duration =
    let seconds = normalize_resume_seconds value in
    if leb seconds 0 then 0 else clamp_to seconds max_duration

-- What one turn of the polling loop of `wait_for_file` sees.
pub record Poll : Type 0 where
  pub is_file : Bool
  pub aborted : Bool
  pub past_deadline : Bool
  -- the second look at the file, when the deadline has passed
  pub is_file_at_deadline : Bool

pub data WaitResult : Type 0 where
  found timed_out aborted still_waiting : WaitResult

-- The loop over the turns of the clock; `still_waiting` while the turns given have not ended it.
unfoldable pub wait_for_file : List Poll → WaitResult
wait_for_file [] = still_waiting
wait_for_file (p ∷ later) =
    if p.is_file
    then found
    else if p.aborted
    then aborted
    else if p.past_deadline
    then (if p.is_file_at_deadline then found else timed_out)
    else wait_for_file later
