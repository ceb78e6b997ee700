-- ===== src/Playback/Segments/Restarts.antt =====
-- When `ensure_segment` starts ffmpeg again.
use anime_manager.Base.{
  ℕ, ◌+◌, ◌≤◌, ◌<◌, ◌≡◌, refl, true, false, List, [], ◌∷◌, ◌++◌, Option, none, some, arith,
  Bool-cases, ◌⊎◌, inl, inr, leb, ltb, ◌&&◌,
}
use anime_manager.Base.Dict.{◌==◌}
use anime_manager.Base.Text.{Text, codes, text_eq, text_beq_iff}
use anime_manager.Playback.Contract.{Session, prefetch_margin, max_forward_jump_segments}
use anime_manager.Playback.Playlist.{segment_number, latest_existing_segment}
use anime_manager.Playback.Segments.{
  Sights, not_found, too_far, resolve_in_lock, resolve_far, resolve_ahead, resolve_missing,
  ensure_segment, is_speculative_far_request, playhead_head_segment, in_prefetch,
}

-- None, one or two restarts, all at the index.
abbrev pub OnlyAt : ℕ → List ℕ → Type 0
OnlyAt idx rs = (rs ≡ []) ⊎ (rs ≡ idx ∷ []) ⊎ (rs ≡ idx ∷ idx ∷ [])

resolve_far-restarts :
    (o : Sights) (s : Session) (latest : Option ℕ) (idx : ℕ) (done : List ℕ)
    → ((resolve_far o s latest idx done).restarts ≡ done)
      ⊎ ((resolve_far o s latest idx done).restarts ≡ done ++ idx ∷ [])
unfolding resolve_far resolve_in_lock
resolve_far-restarts o s latest idx done = ground arith

resolve_ahead-OnlyAt :
    (o : Sights) (s : Session) (idx : ℕ) → OnlyAt idx (resolve_ahead o s idx).restarts
unfolding resolve_ahead
resolve_ahead-OnlyAt o s idx = grind (arith, resolve_far-restarts)

resolve_missing-OnlyAt :
    (o : Sights) (s : Session) (idx : ℕ) → OnlyAt idx (resolve_missing o s (some idx)).restarts
unfolding resolve_missing
resolve_missing-OnlyAt o s idx = ground (arith, resolve_ahead-OnlyAt o s idx)

resolve_missing-outside :
    (o : Sights) (s : Session) (idx : ℕ)
    → (leb s.hls_anchor_segment idx && ltb idx s.total_segments) ≡ false
    → (resolve_missing o s (some idx)).restarts ≡ []
unfolding resolve_missing
resolve_missing-outside o s idx h = ground arith

-- A restart happens only for the segment that was asked for, which lies between the session's anchor and
-- the end of its stream, and at most twice.
abbrev pub RestartsWithin : Session → Text → List ℕ → Type 0
RestartsWithin s name rs =
    (rs ≡ [])
    ⊎ ((idx : ℕ) × (segment_number name ≡ some idx)
        × (s.hls_anchor_segment ≤ idx)
        × (idx < s.total_segments)
        × OnlyAt idx rs)

-- `ensure_segment` starts ffmpeg again only for the segment that was asked for, only if it lies between
-- the session's anchor and the end of its stream, and at most twice.
pub ensure_segment-RestartsWithin :
    (o : Sights) (s : Session) (name : Text)
    → RestartsWithin s name (ensure_segment o s name).restarts
unfolding ensure_segment resolve_missing
ensure_segment-RestartsWithin o s name = elim (Bool-cases (name == codes "_ffmpeg.m3u8")) [
  | inl internal ↦ inl (rw internal)
  | inr other ↦ elim (Bool-cases o.target_at_start) [
    | inl there ↦ inl (rw (other, there))
    | inr absent ↦ simp (other, absent) (missing (segment_number name) refl)
  ]
]
  where
    missing :
        (found : Option ℕ)
        → segment_number name ≡ found
        → RestartsWithin s name (resolve_missing o s found).restarts
    missing none e = inl refl
    missing (some idx) e =
        elim (Bool-cases (leb s.hls_anchor_segment idx && ltb idx s.total_segments)) [
          | inl inside ↦ inr (idx, e, ground arith, ground arith, resolve_missing-OnlyAt o s idx)
          | inr outside ↦ inl (resolve_missing-outside o s idx outside)
        ]

far_request :
    (s : Session) (idx : ℕ) (latest : Option ℕ)
    → s.transcode_start_segment ≤ playhead_head_segment s latest + prefetch_margin
    → playhead_head_segment s latest + max_forward_jump_segments < idx
    → (is_speculative_far_request true s idx latest ≡ true) × (in_prefetch latest idx ≡ false)
unfolding is_speculative_far_request in_prefetch playhead_head_segment
far_request s idx none near far = ground arith
far_request s idx (some m) near far = ground arith

resolve_ahead-rejects :
    (o : Sights) (s : Session) (idx : ℕ)
    → o.running_ahead ≡ true
    → s.transcode_start_segment
      ≤ playhead_head_segment s (latest_existing_segment o.dir) + prefetch_margin
    → playhead_head_segment s (latest_existing_segment o.dir) + max_forward_jump_segments < idx
    → resolve_ahead o s idx ≡ record { session = s; restarts = []; outcome = not_found too_far }
unfolding resolve_ahead resolve_far
resolve_ahead-rejects o s idx running near far =
    let (speculative, ahead) = far_request s idx (latest_existing_segment o.dir) near far in
    rw (ahead, running, speculative)

-- The name that is never served is no segment's name.
internal-no_segment :
    (name : Text) → (name == codes "_ffmpeg.m3u8") ≡ true → segment_number name ≡ none
unfolding segment_number
internal-no_segment name h = rw ((text_beq_iff name (codes "_ffmpeg.m3u8")).0 h)

-- While the encoder runs near the playhead, a request for a segment more than the largest jump past the
-- head is rejected and leaves the encoder and the session alone.
pub ensure_segment-rejects_far :
    (o : Sights) (s : Session) (name : Text) (idx : ℕ)
    → segment_number name ≡ some idx
    → o.target_at_start ≡ false
    → o.running_ahead ≡ true
    → 0 < s.segment_seconds
    → s.hls_anchor_segment ≤ idx
    → idx < s.total_segments
    → s.transcode_start_segment
      ≤ playhead_head_segment s (latest_existing_segment o.dir) + prefetch_margin
    → playhead_head_segment s (latest_existing_segment o.dir) + max_forward_jump_segments < idx
    → ensure_segment o s name ≡ record { session = s; restarts = []; outcome = not_found too_far }
unfolding ensure_segment resolve_missing
ensure_segment-rejects_far o s name idx at absent running timed after inside near far =
    elim (Bool-cases (name == codes "_ffmpeg.m3u8")) [
      | inl internal ↦ absurd (ground (arith, internal-no_segment name internal))
      | inr other ↦
          rw (other, absent, at) (ground (arith, resolve_ahead-rejects o s idx running near far))
    ]
