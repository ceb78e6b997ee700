-- ===== src/Playback/Playlist/Manifest.antt =====
-- What a rendered playlist lists: which segments, with which durations, and when it is closed.
use anime_manager.Base.{
  ℕ, zero, suc, ◌+◌, ◌-◌, ◌*◌, ◌/◌, ◌≤◌, ◌<◌, ◌≡◌, refl, true, false, List, [], ◌∷◌, ◌++◌, Option,
  none, some, arith, if◌then◌else◌, max, ◌==◌, inl, inr, Bool-cases, ap, ◌∙◌,
}
use anime_manager.Base.Division.{ceiling_window, div-pos}
use anime_manager.Base.Text.{Text}
use anime_manager.Playback.Contract.{ms, prefetch_margin, event_manifest_lookahead, Session}
use anime_manager.Playback.Playlist.{
  Line, extm3u, version3, target_duration, media_sequence, playlist_vod, playlist_event, extinf,
  segment, endlist, Rendered, event_manifest_end_index, segment_lines, manifest_anchor,
  last_seg_duration, is_complete, latest_existing_segment, render_manifest, initial_total,
  token_query,
}

-- The segments that a playlist lists, in order.
unfoldable pub listed : List Line → List ℕ
listed [] = []
listed (segment i t ∷ rest) = i ∷ listed rest
listed (extm3u ∷ rest) = listed rest
listed (version3 ∷ rest) = listed rest
listed (target_duration n ∷ rest) = listed rest
listed (media_sequence n ∷ rest) = listed rest
listed (playlist_vod ∷ rest) = listed rest
listed (playlist_event ∷ rest) = listed rest
listed (extinf d ∷ rest) = listed rest
listed (endlist ∷ rest) = listed rest

-- The sum of the durations that a playlist states.
unfoldable pub stated_duration : List Line → ℕ
stated_duration [] = 0
stated_duration (extinf d ∷ rest) = d + stated_duration rest
stated_duration (segment i t ∷ rest) = stated_duration rest
stated_duration (extm3u ∷ rest) = stated_duration rest
stated_duration (version3 ∷ rest) = stated_duration rest
stated_duration (target_duration n ∷ rest) = stated_duration rest
stated_duration (media_sequence n ∷ rest) = stated_duration rest
stated_duration (playlist_vod ∷ rest) = stated_duration rest
stated_duration (playlist_event ∷ rest) = stated_duration rest
stated_duration (endlist ∷ rest) = stated_duration rest

-- The `n` numbers from `i` on.
abbrev pub count_up : ℕ → ℕ → List ℕ
count_up zero i = []
count_up (suc n) i = i ∷ count_up n (suc i)

listed-segment_lines :
    (n i : ℕ) (d : ℕ → ℕ) (t : Text) (closing : List Line)
    → listed closing ≡ []
    → listed (segment_lines n i d t ++ closing) ≡ count_up n i
unfolding listed segment_lines
listed-segment_lines zero i d t closing h = h
listed-segment_lines (suc n) i d t closing h =
    ap (◌∷◌ i) (listed-segment_lines n (suc i) d t closing h)

-- The body of a playlist that ends with the last segment states the full length of every segment but
-- the last.
abbrev body_duration : ℕ → ℕ → ℕ → ℕ → ℕ
body_duration total seg last index = if index == total - 1 then last else ms seg

duration-segment_lines :
    (n i total seg last : ℕ) (t : Text) (closing : List Line)
    → i + suc n ≡ total
    → stated_duration closing ≡ 0
    → stated_duration (segment_lines (suc n) i (body_duration total seg last) t ++ closing)
      ≡ n * ms seg + last
unfolding stated_duration segment_lines
duration-segment_lines zero i total seg last t closing e h = ground arith
duration-segment_lines (suc n) i total seg last t closing e h =
    ground (arith, duration-segment_lines n (suc i) total seg last t closing (omega arith) h)

-- How far an incomplete playlist may reach, given the latest segment on disk.
abbrev pub EventWindow : Option ℕ → ℕ → ℕ → ℕ → Type 0
EventWindow none total anchor end_index =
    (end_index < total) × (end_index ≤ anchor + event_manifest_lookahead)
EventWindow (some latest) total anchor end_index =
    (end_index < total) × (end_index ≤ max latest anchor + prefetch_margin)

event_manifest_end_index-EventWindow :
    (latest : Option ℕ) (total anchor : ℕ)
    → 0 < total
    → EventWindow latest total anchor (event_manifest_end_index latest total anchor)
unfolding event_manifest_end_index
event_manifest_end_index-EventWindow none total anchor pos = omega arith
event_manifest_end_index-EventWindow (some m) total anchor pos = omega arith

-- `last` is the length of the last of `total` segments when they cover `duration`.
last_seg_duration-exact :
    (duration total seg : ℕ)
    → 0 < total
    → (total - 1) * ms seg < duration
    → duration ≤ total * ms seg
    → (total - 1) * ms seg + last_seg_duration duration total seg ≡ duration
unfolding last_seg_duration
last_seg_duration-exact duration (suc n) seg pos above below =
    let whole : suc n * ms seg ≡ n * ms seg + ms seg = omega arith in ground arith
last_seg_duration-exact duration zero seg pos above below = absurd (omega arith)

max_one : (q : ℕ) → 0 < q → max 1 q ≡ q
max_one q h = omega arith

pub initial_total-pos : (duration seg : ℕ) → 0 < initial_total duration seg
unfolding initial_total
initial_total-pos duration seg = omega arith

pub initial_total-cover :
    (duration seg : ℕ)
    → 0 < seg
    → 0 < duration
    → ((initial_total duration seg - 1) * ms seg < duration)
      × (duration ≤ initial_total duration seg * ms seg)
unfolding initial_total
initial_total-cover duration seg pos dpos =
    let w = ceiling_window duration (ms seg) dpos (omega arith) in
    let some_segment : 0 < (duration + ms seg - 1) / ms seg =
      div-pos duration (ms seg) dpos (omega arith) in
    rw (max_one _ some_segment) w

complete_duration :
    (n anchor total seg duration : ℕ) (t : Text)
    → n ≡ suc (total - 1)
    → anchor ≡ 0
    → 0 < total
    → (total - 1) * ms seg < duration
    → duration ≤ total * ms seg
    → stated_duration (
        segment_lines n anchor (body_duration total seg (last_seg_duration duration total seg)) t
        ++ endlist ∷ [])
      ≡ duration
complete_duration n anchor total seg duration t all start pos above below =
    rw (all, start)
      (duration-segment_lines (total - 1) 0 total seg (last_seg_duration duration total seg) t
          (endlist ∷ []) (omega arith) (unfold stated_duration in refl)
        ∙ last_seg_duration-exact duration total seg pos above below)

manifest_anchor-zero :
    (session : Session) (total : ℕ)
    → session.hls_anchor_segment ≡ 0
    → manifest_anchor session total ≡ 0
unfolding manifest_anchor
manifest_anchor-zero session total e = ground arith

module _ (quote : Text → Text) (session : Session) (dir : Option (List Text))
    (token : Option Text) where
  abbrev pub rendered : Rendered
  rendered = render_manifest quote session dir token

  -- The playlist lists exactly the consecutive segments from its anchor to its end index.
  pub listed-render_manifest :
      listed rendered.lines ≡ count_up (rendered.end_index + 1 - rendered.anchor) rendered.anchor
  unfolding render_manifest listed
  listed-render_manifest = elim (Bool-cases (is_complete dir (max 1 session.total_segments))) [
    | inl c ↦ rw c (listed-segment_lines _ _ _ _ _ refl)
    | inr c ↦ rw c (listed-segment_lines _ _ _ _ _ refl)
  ]

  -- An incomplete playlist lists no segment past the last one of the stream, nor more than the margin
  -- past the encoded head or, with nothing on disk, more than the lookahead past the anchor.
  pub render_manifest-EventWindow :
      rendered.complete ≡ false
      → EventWindow
          (latest_existing_segment dir)
          (max 1 session.total_segments)
          rendered.anchor
          rendered.end_index
  unfolding render_manifest
  render_manifest-EventWindow open_ended = rw open_ended (
      event_manifest_end_index-EventWindow (latest_existing_segment dir)
        (max 1 session.total_segments) rendered.anchor (omega arith))

  -- The segment durations that a complete playlist states add up to the duration of the episode, for a
  -- session whose playlist starts at the first segment and that has the segment count of the initial
  -- playlist, with a positive duration and segment length.
  pub stated_duration-complete :
      rendered.complete ≡ true
      → session.hls_anchor_segment ≡ 0
      → 0 < session.duration
      → 0 < session.segment_seconds
      → session.total_segments ≡ initial_total session.duration session.segment_seconds
      → stated_duration rendered.lines ≡ session.duration
  unfolding render_manifest stated_duration
  stated_duration-complete done start dpos spos count =
      let (above, below) = initial_total-cover session.duration session.segment_seconds spos dpos in
      let pos : 0 < session.total_segments =
        omega (arith, count, initial_total-pos session.duration session.segment_seconds) in
      let total_eq = max_one session.total_segments pos in
      let seg_eq = max_one session.segment_seconds spos in
      let anchor_eq = manifest_anchor-zero session session.total_segments start in
      rw (done, total_eq, seg_eq, anchor_eq)
        (complete_duration (session.total_segments - 1 + 1 - 0) 0 session.total_segments
          session.segment_seconds session.duration (token_query quote token) (omega arith) refl pos
          (rw count above) (rw count below))
