-- ===== src/Downloads/Hashes.antt =====
-- Info-hashes: adapters/persistence/models.py (canonicalize_infohash) and
-- application/services/download_manager.py (_hash_from_magnet, _resolve_download_hash). A missing text is
-- the empty one. The base32 decoder is a parameter; `none` stands for its exception.
pub mod Canonical
use anime_manager.Base.{
  ℕ, ◌+◌, ◌/◌, ◌%◌, Bool, true, ◌&&◌, ◌||◌, List, [], ◌∷◌, Option, none, some, leb, ltb,
  if◌then◌else◌,
}
use anime_manager.Base.Text.{Text, codes, strip, lower, is_digit}

-- c in string.hexdigits, for a lower-case character
unfoldable pub is_hex : ℕ → Bool
unfolding is_digit
is_hex c = is_digit c || leb b'a' c && leb c b'f'

unfoldable pub all_hex : Text → Bool
unfolding is_hex
all_hex [] = true
all_hex (c ∷ s) = is_hex c && all_hex s

unfoldable pub hex_digit : ℕ → ℕ
hex_digit n = if ltb n 10 then 48 + n else 87 + n

-- codecs.encode(raw, "hex")
unfoldable pub hex_encode : List ℕ → Text
unfolding hex_digit
hex_encode [] = []
hex_encode (b ∷ raw) = hex_digit (b / 16 % 16) ∷ hex_digit (b % 16) ∷ hex_encode raw

is_alnum : ℕ → Bool
unfolding is_digit
is_alnum c = is_digit c || leb b'a' c && leb c b'z' || leb b'A' c && leb c b'Z'

take_alnum : Text → Text
unfolding is_alnum
take_alnum [] = []
take_alnum (c ∷ s) = let rest = take_alnum s in if is_alnum c then c ∷ rest else []

-- The rest of a text after a prefix, in any letter case.
unfoldable pub after_prefix : Text → Text → Option Text
unfolding lower
after_prefix [] s = some s
after_prefix (p ∷ ps) [] = none
after_prefix (p ∷ ps) (c ∷ s) = go (lower (c ∷ [])) (after_prefix ps s)
  where
    go : Text → Option Text → Option Text
    go [] rest = none
    go (d ∷ _) rest = if leb p d && leb d p then rest else none

matched : Option Text → Text
unfolding take_alnum
matched none = []
matched (some rest) = take_alnum rest

-- The group of the first match of `_INFOHASH_RE`, empty without a match.
unfoldable pub search_infohash : Text → Text
unfolding matched after_prefix
search_infohash [] = []
search_infohash (c ∷ s) =
    let later = search_infohash s in
    elim (matched (after_prefix (codes "xt=urn:btih:") (c ∷ s))) [ [] ↦ later | d ∷ ds ↦ d ∷ ds ]

module _ (b32decode : Text → Option (List ℕ)) where
  unfoldable pub decoded : Text → Option (List ℕ) → Text
  decoded text none = text
  decoded text (some []) = text
  decoded text (some (b ∷ raw)) = hex_encode (b ∷ raw)

  unfoldable pub canonical_text : Text → Option Text
  unfolding decoded
  canonical_text [] = none
  canonical_text (c ∷ s) =
      if all_hex (c ∷ s) then some (c ∷ s) else some (decoded (c ∷ s) (b32decode (c ∷ s)))

  unfoldable pub canonicalize_infohash : Text → Option Text
  unfolding canonical_text
  canonicalize_infohash value = canonical_text (lower (strip value))

  unfoldable pub in_magnet : Text → Option Text
  in_magnet [] = none
  in_magnet (c ∷ s) = canonicalize_infohash (c ∷ s)

  unfoldable pub after_magnet : Text → Option Text → Option Text
  unfolding in_magnet
  after_magnet text none = none
  after_magnet text (some rest) = in_magnet (search_infohash text)

  -- A link that is no magnet has no hash.
  unfoldable pub hash_from_magnet : Text → Option Text
  unfolding after_magnet
  hash_from_magnet url =
      let text = strip url in after_magnet text (after_prefix (codes "magnet:") text)

  unfoldable pub prefer : Option Text → Option Text → Option Text
  prefer none second = second
  prefer (some key) second = some key

  unfoldable pub resolve_download_hash : Text → Text → Option Text
  unfolding prefer
  resolve_download_hash url hash_value =
      prefer (canonicalize_infohash hash_value) (hash_from_magnet url)
