-- ===== src/Playback/Playlist/Names.antt =====
-- Segment names and the latest segment of a directory.
use anime_manager.Base.{
  ℕ, ◌≤◌, ◌≡◌, ◌≢◌, refl, List, [], ◌∷◌, ◌++◌, Option, none, some, arith, All, ◌⊎◌, inl, inr,
  Option-cases, Bool-cases, ltb,
}
use anime_manager.Base.Dict.{nat_eq, beq_refl}
use anime_manager.Base.Text.{Text, codes, text_eq, is_digit, digits_value, padded5}
use anime_manager.Base.Text.Decimal.{
  AllDigits, digits_value-padded5, padded5-AllDigits, padded5-ne-nil,
}
use anime_manager.Playback.Playlist.{
  segment_file, span_digits, number_before_suffix, after_prefix, segment_number, later, latest_from,
  latest_existing_segment,
}

span_digits-append :
    (ds : Text) → AllDigits ds → span_digits (ds ++ codes ".ts") ≡ (ds, codes ".ts")
unfolding span_digits is_digit
span_digits-append [] h = refl
span_digits-append (c ∷ ds) h = rw (span_digits-append ds h.1) (ground arith)

number_before_suffix-digits :
    (ds : Text) (n : ℕ)
    → ds ≢ []
    → digits_value 0 ds ≡ some n
    → number_before_suffix (ds, codes ".ts") ≡ some n
unfolding number_before_suffix
number_before_suffix-digits [] n ne e = absurd (ne refl)
number_before_suffix-digits (c ∷ ds) n ne e = rw (beq_refl (codes ".ts")) e

-- Every segment name that the service writes is read back as its index.
pub segment_number-segment_file : (i : ℕ) → segment_number (segment_file i) ≡ some i
unfolding segment_number segment_file after_prefix
segment_number-segment_file i =
    rw (span_digits-append (padded5 i) (padded5-AllDigits i))
      (number_before_suffix-digits (padded5 i) i (padded5-ne-nil i) (digits_value-padded5 i))

-- No segment of the directory has an index above the bound.
abbrev pub AtMost : ℕ → List Text → Type 0
AtMost m entries = All (λ name. (j : ℕ) → segment_number name ≡ some j → j ≤ m) entries

abbrev pub NoSegments : List Text → Type 0
NoSegments entries = All (λ name. segment_number name ≡ none) entries

-- Some entry of the directory has the index.
abbrev pub HasSegment : ℕ → List Text → Type 0
HasSegment m [] = ⊥
HasSegment m (name ∷ entries) = (segment_number name ≡ some m) ⊎ HasSegment m entries

later-source : (x acc : Option ℕ) (m : ℕ) → later x acc ≡ some m → (x ≡ some m) ⊎ (acc ≡ some m)
unfolding later
later-source none acc m e = inr e
later-source (some i) none m e = inl e
later-source (some i) (some a) m e = ground arith

later-bound :
    (x acc : Option ℕ) (m : ℕ)
    → ((j : ℕ) → later x acc ≡ some j → j ≤ m)
    → ((j : ℕ) → x ≡ some j → j ≤ m) × ((j : ℕ) → acc ≡ some j → j ≤ m)
unfolding later
later-bound none acc m h = ((λ j e. absurd (cc)), h)
later-bound (some i) none m h = (h, λ j e. absurd (cc))
later-bound (some i) (some a) m h =
    ((λ j e. ground (arith, h i, h a)), (λ j e. ground (arith, h i, h a)))

latest_from-bound :
    (acc : Option ℕ) (entries : List Text) (m : ℕ)
    → latest_from acc entries ≡ some m
    → ((j : ℕ) → acc ≡ some j → j ≤ m) × AtMost m entries
unfolding latest_from
latest_from-bound acc [] m e = ((λ j h. ground arith), tt)
latest_from-bound acc (name ∷ entries) m e =
    let (first, rest) = latest_from-bound (later (segment_number name) acc) entries m e in
    let (here, old) = later-bound (segment_number name) acc m first in (old, (here, rest))

latest_from-source :
    (acc : Option ℕ) (entries : List Text) (m : ℕ)
    → latest_from acc entries ≡ some m
    → (acc ≡ some m) ⊎ HasSegment m entries
unfolding latest_from
latest_from-source acc [] m e = inl e
latest_from-source acc (name ∷ entries) m e =
    elim (latest_from-source (later (segment_number name) acc) entries m e) [
      | inl now ↦ elim (later-source (segment_number name) acc m now) [
        | inl here ↦ inr (inl here)
        | inr old ↦ inl old
      ]
      | inr further ↦ inr (inr further)
    ]

latest_from-some : (acc : ℕ) (entries : List Text) → latest_from (some acc) entries ≢ none
unfolding latest_from later
latest_from-some acc [] e = cc
latest_from-some acc (name ∷ entries) e = elim (Option-cases (segment_number name)) [
  | inl absent ↦ latest_from-some acc entries (rw (absent, later) at e)
  | inr (idx, here) ↦ elim (Bool-cases (ltb acc idx)) [
    | inl up ↦ latest_from-some idx entries (rw (here, later, up) at e)
    | inr down ↦ latest_from-some acc entries (rw (here, later, down) at e)
  ]
]

latest_from-none : (entries : List Text) → latest_from none entries ≡ none → NoSegments entries
unfolding latest_from later
latest_from-none [] e = tt
latest_from-none (name ∷ entries) e = elim (Option-cases (segment_number name)) [
  | inl absent ↦ (absent, latest_from-none entries (rw (absent, later) at e))
  | inr (idx, here) ↦ absurd (latest_from-some idx entries (rw (here, later) at e))
]

-- The reported index is that of some file of the directory, and no file has a larger one.
pub latest_existing_segment-greatest :
    (entries : List Text) (m : ℕ)
    → latest_existing_segment (some entries) ≡ some m
    → HasSegment m entries × AtMost m entries
unfolding latest_existing_segment
latest_existing_segment-greatest entries m e = (
  elim (latest_from-source none entries m e) [ inl no_source ↦ absurd (cc) | inr at ↦ at ],
  (latest_from-bound none entries m e).1,
)

-- -1 is reported only for a directory without segments.
pub latest_existing_segment-none :
    (entries : List Text) → latest_existing_segment (some entries) ≡ none → NoSegments entries
unfolding latest_existing_segment
latest_existing_segment-none entries e = latest_from-none entries e
