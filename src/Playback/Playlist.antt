-- ===== src/Playback/Playlist.antt =====
-- application/playback/playlist.py: segment files, and the playlist that is rendered from them. A
-- directory is the list of its file names. A line of the playlist is a value; the text of each line
-- stands beside its constructor. `\d` is read as the ASCII digits.
pub mod Names
pub mod Manifest
use anime_manager.Base.{
  ℕ, zero, suc, ◌+◌, ◌-◌, ◌*◌, ◌/◌, Bool, true, false, ◌&&◌, ◌||◌, List, [], ◌∷◌, ◌++◌, Option,
  none, some, ltb, leb, if◌then◌else◌, min, max,
}
use anime_manager.Base.Dict.{◌==◌, member, nat_eq}
use anime_manager.Base.Text.{Text, codes, text_eq, is_digit, digits_value, padded5, strip}
use anime_manager.Playback.Contract.{ms, prefetch_margin, event_manifest_lookahead, Session}

-- f"segment_{index:05d}.ts"
unfoldable pub segment_file : ℕ → Text
segment_file index = codes "segment_" ++ padded5 index ++ codes ".ts"

unfoldable pub drop_prefix : Text → Text → Option Text
drop_prefix [] s = some s
drop_prefix (c ∷ p) [] = none
drop_prefix (c ∷ p) (d ∷ s) = if c == d then drop_prefix p s else none

unfoldable pub span_digits : Text → Text × Text
span_digits [] = ([], [])
span_digits (c ∷ s) =
    let (run, rest) = span_digits s in if is_digit c then (c ∷ run, rest) else ([], c ∷ s)

-- `(\d+)\.ts$`; the `$` of the pattern also accepts one newline at the end.
unfoldable pub number_before_suffix : Text × Text → Option ℕ
number_before_suffix ([], rest) = none
number_before_suffix (c ∷ run, rest) =
    if rest == codes ".ts" || rest == codes ".ts\n" then digits_value 0 (c ∷ run) else none

after_prefix : Option Text → Option ℕ
after_prefix none = none
after_prefix (some rest) = number_before_suffix (span_digits rest)

-- The index that `_SEGMENT_NAME_RE` reads from a file name.
unfoldable pub segment_number : Text → Option ℕ
unfolding drop_prefix span_digits number_before_suffix after_prefix
segment_number name = after_prefix (drop_prefix (codes "segment_") name)

unfoldable pub later : Option ℕ → Option ℕ → Option ℕ
later none latest = latest
later (some idx) none = some idx
later (some idx) (some latest) = if ltb latest idx then some idx else some latest

latest_from : Option ℕ → List Text → Option ℕ
latest_from latest [] = latest
latest_from latest (entry ∷ entries) = latest_from (later (segment_number entry) latest) entries

-- The listing is `none` where `os.listdir` raises; the result is `none` for -1.
unfoldable pub latest_existing_segment : Option (List Text) → Option ℕ
unfolding latest_from later
latest_existing_segment none = none
latest_existing_segment (some entries) = latest_from none entries

unfoldable pub event_manifest_end_index : Option ℕ → ℕ → ℕ → ℕ
event_manifest_end_index none total anchor =
    min (total - 1) (max 0 anchor + event_manifest_lookahead)
event_manifest_end_index (some latest) total anchor =
    min (total - 1) (max latest anchor + prefetch_margin)

pub data Line : Type 0 where
  -- #EXTM3U
  extm3u : Line
  -- #EXT-X-VERSION:3
  version3 : Line
  -- #EXT-X-TARGETDURATION:n
  target_duration : ℕ → Line
  -- #EXT-X-MEDIA-SEQUENCE:n
  media_sequence : ℕ → Line
  -- #EXT-X-PLAYLIST-TYPE:VOD and :EVENT
  playlist_vod playlist_event : Line
  -- #EXTINF:d, with d in milliseconds
  extinf : ℕ → Line
  -- the segment's file name, and the quoted token if there is one
  segment : ℕ → Text → Line
  -- #EXT-X-ENDLIST
  endlist : Line

-- The two lines of each index from `index` on.
unfoldable pub segment_lines : ℕ → ℕ → (ℕ → ℕ) → Text → List Line
segment_lines zero index seg_dur token = []
segment_lines (suc n) index seg_dur token =
    extinf (seg_dur index) ∷ segment index token ∷ segment_lines n (suc index) seg_dur token

pub record Rendered : Type 0 where
  pub anchor : ℕ
  pub end_index : ℕ
  pub complete : Bool
  pub lines : List Line

is_listed : Text → Option (List Text) → Bool
is_listed name none = false
is_listed name (some entries) = member name entries

unfoldable pub reaches : Option ℕ → ℕ → Bool
reaches none index = false
reaches (some latest) index = leb index latest

-- `anchor` and `last_seg_seconds` of `render_manifest`
unfoldable pub manifest_anchor : Session → ℕ → ℕ
manifest_anchor session total =
    let anchor = max 0 session.hls_anchor_segment in if leb total anchor then 0 else anchor

unfoldable pub last_seg_duration : ℕ → ℕ → ℕ → ℕ
last_seg_duration duration total seg =
    let left = duration - (total - 1) * ms seg in
    if left == 0 || ltb (ms seg) left then ms seg else left

unfoldable pub is_complete : Option (List Text) → ℕ → Bool
unfolding is_listed reaches
is_complete dir total =
    reaches (latest_existing_segment dir) (total - 1) && is_listed (segment_file (total - 1)) dir

-- `quote` is the percent encoding of urllib, applied to a token.
module _ (quote : Text → Text) where
  unfoldable pub token_query : Option Text → Text
  token_query none = []
  token_query (some token) =
      let cleaned = strip token in if cleaned == [] then [] else codes "?token=" ++ quote cleaned

  -- `dir` is the listing of the session's output directory. A file that is listed under a segment's
  -- name is taken for a regular file.
  unfoldable pub render_manifest : Session → Option (List Text) → Option Text → Rendered
  unfolding manifest_anchor last_seg_duration is_complete token_query event_manifest_end_index
  render_manifest session dir token =
      let total = max 1 session.total_segments in
      let seg = max 1 session.segment_seconds in
      let duration = session.duration in
      let anchor = manifest_anchor session total in
      let last_seg = last_seg_duration duration total seg in
      let complete = is_complete dir total in
      let end_index =
        if complete
        then total - 1
        else event_manifest_end_index (latest_existing_segment dir) total anchor in
      let seg_dur : ℕ → ℕ = λ index. if index == total - 1 then last_seg else ms seg in
      let header =
        extm3u
        ∷ version3
        ∷ target_duration seg
        ∷ media_sequence anchor
        ∷ (if complete then playlist_vod else playlist_event)
        ∷ [] in
      record {
        anchor = anchor;
        end_index = end_index;
        complete = complete;
        lines =
            header
            ++ (segment_lines (end_index + 1 - anchor) anchor seg_dur (token_query token)
                ++ (if complete then endlist ∷ [] else []));
      }

-- `total` of `write_initial_playlist`: max(1, math.ceil(duration / segment_seconds))
unfoldable pub initial_total : ℕ → ℕ → ℕ
initial_total duration segment_seconds =
    max 1 ((duration + ms segment_seconds - 1) / ms segment_seconds)
