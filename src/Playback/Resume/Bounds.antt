-- ===== src/Playback/Resume/Bounds.antt =====
-- The segment that a resume position selects, and the positions that survive clamping.
use anime_manager.Base.{
  ℕ, ◌+◌, ◌*◌, ◌/◌, ◌≤◌, ◌<◌, ◌≡◌, ◌≢◌, ◌⊎◌, true, List, [], ◌∷◌, Option, none, some, arith, any,
}
use anime_manager.Base.Division.{div_window, div-lt}
use anime_manager.Playback.Contract.{ms, prefetch_margin, min_resume, near_end_restart}
use anime_manager.Playback.Resume.{
  resume_segment_index, anchor_segment, clamp_resume_seconds, Poll, WaitResult, wait_for_file,
}

resume_segment_index-div :
    (start total seg : ℕ)
    → min_resume ≤ start
    → 0 < seg
    → start < total * ms seg
    → resume_segment_index start total seg ≡ start / ms seg
unfolding resume_segment_index
resume_segment_index-div start total seg late pos inside =
    let below : start / ms seg < total = div-lt start (ms seg) total (omega arith) inside in
    ground arith

-- A resume position of at least 10 seconds that lies before the end of the last of `total` segments
-- lies within the segment that `resume_segment_index` selects.
pub resume_segment_index_contains :
    (start total seg : ℕ)
    → min_resume ≤ start
    → 0 < seg
    → start < total * ms seg
    → (resume_segment_index start total seg * ms seg ≤ start)
      × (start < (resume_segment_index start total seg + 1) * ms seg)
resume_segment_index_contains start total seg late pos inside =
    rw (resume_segment_index-div start total seg late pos inside)
      (div_window start (ms seg) (omega arith))

-- The index is below the segment count, whatever the position.
pub resume_segment_index-lt :
    (start total seg : ℕ) → 0 < total → resume_segment_index start total seg < total
unfolding resume_segment_index
resume_segment_index-lt start total seg pos = ground arith

-- The anchor is at most the margin before the resumed segment, and never after it.
pub anchor_segment_window :
    (r : ℕ) → (anchor_segment r ≤ r) × (r ≤ anchor_segment r + prefetch_margin)
unfolding anchor_segment
anchor_segment_window r = omega arith

-- Against a known duration the clamped position is 0 or lies between 10 seconds from the start
-- and 15 seconds from the end.
pub clamp_resume_seconds_range :
    (value : Option ℕ) (duration : ℕ)
    → 0 < duration
    → (clamp_resume_seconds value (some duration) ≡ 0)
      ⊎ ((min_resume ≤ clamp_resume_seconds value (some duration))
          × (clamp_resume_seconds value (some duration) + near_end_restart < duration))
unfolding clamp_resume_seconds
clamp_resume_seconds_range none duration pos = ground arith
clamp_resume_seconds_range (some v) duration pos = ground arith

-- Clamping a clamped position changes nothing.
pub clamp_resume_seconds_idem :
    (value bound : Option ℕ)
    → clamp_resume_seconds (some (clamp_resume_seconds value bound)) bound
      ≡ clamp_resume_seconds value bound
unfolding clamp_resume_seconds
clamp_resume_seconds_idem none none = ground arith
clamp_resume_seconds_idem none (some d) = ground arith
clamp_resume_seconds_idem (some v) none = ground arith
clamp_resume_seconds_idem (some v) (some d) = ground arith

-- A wait ends once some turn lies past the deadline; and one that times out has seen no file on
-- any turn up to its end.
pub wait_for_file_ends :
    (polls : List Poll)
    → any (λ p. p.past_deadline) polls ≡ true
    → wait_for_file polls ≢ WaitResult.still_waiting
unfolding wait_for_file
wait_for_file_ends [] h = ground arith
wait_for_file_ends (p ∷ later) h = ground (arith, wait_for_file_ends later)

-- With the file there on every turn, no abort can fail the wait.
pub wait_for_file_present :
    (p : Poll) (later : List Poll) → p.is_file ≡ true → wait_for_file (p ∷ later) ≡ WaitResult.found
unfolding wait_for_file
wait_for_file_present p later h = ground arith
