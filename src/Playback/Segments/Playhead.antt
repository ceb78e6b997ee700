-- ===== src/Playback/Segments/Playhead.antt =====
-- The playhead of a session under `ensure_segment`.
use anime_manager.Base.{ℕ, ◌≤◌, ◌<◌, ◌≡◌, List, Option, none, some, arith}
use anime_manager.Base.Text.{Text}
use anime_manager.Playback.Contract.{Session}
use anime_manager.Playback.Playlist.{segment_number}
use anime_manager.Playback.Segments.{
  Sights, returned, resolve_in_lock, resolve_far, after_prefetch, resolve_ahead, resolve_missing,
  ensure_segment,
}

module _ (o : Sights) (idx : ℕ) (s : Session) where
  module _ (latest : Option ℕ) (done : List ℕ) where
    resolve_in_lock-grows :
        s.live_playhead_segment
        ≤ (resolve_in_lock o s latest idx done).session.live_playhead_segment
    unfolding resolve_in_lock
    resolve_in_lock-grows = ground arith

    resolve_in_lock-reaches :
        (resolve_in_lock o s latest idx done).outcome ≡ returned
        → idx ≤ (resolve_in_lock o s latest idx done).session.live_playhead_segment
    unfolding resolve_in_lock
    resolve_in_lock-reaches e = ground arith

module _ (o : Sights) (idx : ℕ) (s : Session) where
  module _ (latest : Option ℕ) (done : List ℕ) where
    resolve_far-grows :
        s.live_playhead_segment ≤ (resolve_far o s latest idx done).session.live_playhead_segment
    unfolding resolve_far
    resolve_far-grows = grind (arith, resolve_in_lock-grows)

    resolve_far-reaches :
        (resolve_far o s latest idx done).outcome ≡ returned
        → idx ≤ (resolve_far o s latest idx done).session.live_playhead_segment
    unfolding resolve_far
    resolve_far-reaches e = grind (arith, resolve_in_lock-reaches)

module _ (o : Sights) (idx : ℕ) (s : Session) where
  resolve_ahead-grows :
      s.live_playhead_segment ≤ (resolve_ahead o s idx).session.live_playhead_segment
  unfolding resolve_ahead after_prefetch
  resolve_ahead-grows = grind (arith, resolve_far-grows)

  resolve_ahead-reaches :
      (resolve_ahead o s idx).outcome ≡ returned
      → idx ≤ (resolve_ahead o s idx).session.live_playhead_segment
  unfolding resolve_ahead after_prefetch
  resolve_ahead-reaches e = grind (arith, resolve_far-reaches)

resolve_missing-grows :
    (o : Sights) (s : Session) (found : Option ℕ)
    → s.live_playhead_segment ≤ (resolve_missing o s found).session.live_playhead_segment
unfolding resolve_missing
resolve_missing-grows o s none = omega arith
resolve_missing-grows o s (some idx) = ground (arith, resolve_ahead-grows o idx s)

-- No request moves the playhead back, however it ends and whatever other requests do meanwhile.
pub ensure_segment-playhead_grows :
    (o : Sights) (s : Session) (name : Text)
    → s.live_playhead_segment ≤ (ensure_segment o s name).session.live_playhead_segment
unfolding ensure_segment
ensure_segment-playhead_grows o s name =
    ground (arith, resolve_missing-grows o s (segment_number name), segment_number name)

-- A request for a segment from the anchor on, in a session with a known segment count, that returns has
-- moved the playhead to that segment or beyond.
pub ensure_segment-playhead_reaches :
    (o : Sights) (s : Session) (name : Text) (idx : ℕ)
    → segment_number name ≡ some idx
    → 0 < s.total_segments
    → 0 < s.segment_seconds
    → s.hls_anchor_segment ≤ idx
    → (ensure_segment o s name).outcome ≡ returned
    → idx ≤ (ensure_segment o s name).session.live_playhead_segment
unfolding ensure_segment resolve_missing
ensure_segment-playhead_reaches o s name idx at counted timed after done =
    ground (arith, resolve_ahead-reaches o idx s)
