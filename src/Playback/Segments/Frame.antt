-- ===== src/Playback/Segments/Frame.antt =====
-- What `ensure_segment` leaves alone in the session.
use anime_manager.Base.{ℕ, ◌≡◌, refl, List, [], ◌∷◌, Option, none, some, arith}
use anime_manager.Base.Text.{Text}
use anime_manager.Playback.Contract.{Session}
use anime_manager.Playback.Playlist.{segment_number, latest_existing_segment}
use anime_manager.Playback.Segments.{
  Sights, resolve_in_lock, resolve_far, after_prefetch, resolve_ahead, resolve_missing,
  ensure_segment,
}

abbrev pub SameFrame : Session → Session → Type 0
SameFrame s t =
    (t.session_id ≡ s.session_id)
    × (t.hls_anchor_segment ≡ s.hls_anchor_segment)
    × (t.ttl_seconds ≡ s.ttl_seconds)
    × (t.expires_at ≡ s.expires_at)
    × (t.token ≡ s.token)
    × (t.total_segments ≡ s.total_segments)

module _ (o : Sights) (idx : ℕ) (s : Session) where
  resolve_in_lock-frame :
      (latest : Option ℕ) (done : List ℕ)
      → SameFrame s (resolve_in_lock o s latest idx done).session
  unfolding resolve_in_lock
  resolve_in_lock-frame latest done = ground arith

module _ (o : Sights) (idx : ℕ) (s : Session) where
  resolve_far-frame :
      (latest : Option ℕ) (done : List ℕ) → SameFrame s (resolve_far o s latest idx done).session
  unfolding resolve_far
  resolve_far-frame latest done = grind (arith, resolve_in_lock-frame)

  after_prefetch-frame : SameFrame s (after_prefetch o s idx)
  unfolding after_prefetch
  after_prefetch-frame = ground arith

module _ (o : Sights) (idx : ℕ) (s : Session) where
  resolve_ahead-frame : SameFrame s (resolve_ahead o s idx).session
  unfolding resolve_ahead
  resolve_ahead-frame = ground (
    arith,
    after_prefetch-frame o idx s,
    resolve_far-frame o idx s (latest_existing_segment o.dir) [],
    resolve_far-frame o idx (after_prefetch o s idx) (latest_existing_segment o.dir) [],
    resolve_far-frame o idx (after_prefetch o s idx) (latest_existing_segment o.dir) (idx ∷ []),
  )

resolve_missing-frame :
    (o : Sights) (s : Session) (found : Option ℕ) → SameFrame s (resolve_missing o s found).session
unfolding resolve_missing
resolve_missing-frame o s none = (refl, refl, refl, refl, refl, refl)
resolve_missing-frame o s (some idx) = ground (arith, resolve_ahead-frame o idx s)

-- `ensure_segment` writes the playhead and the encoder's start, and nothing else that the service reads.
pub ensure_segment-frame :
    (o : Sights) (s : Session) (name : Text) → SameFrame s (ensure_segment o s name).session
unfolding ensure_segment
ensure_segment-frame o s name =
    ground (arith, resolve_missing-frame o s (segment_number name), segment_number name)
