-- ===== src/Downloads/Hashes/Canonical.antt =====
-- A canonical info-hash is its own canonical form.
use anime_manager.Base.{
  ℕ, ◌≡◌, refl, ◌∙◌, ap, true, false, ◌⊎◌, inl, inr, List, [], ◌∷◌, Option, none, some, arith, ltb,
  ◌/◌, ◌%◌, Bool-cases,
}
use anime_manager.Base.Text.{
  Text, codes, is_space, is_digit, strip, lower, lstrip, rstrip, lower_char,
}
use anime_manager.Base.Text.Strip.{strip-lower, strip_idem, lower_idem}
use anime_manager.Downloads.Hashes.{
  is_hex, all_hex, hex_digit, hex_encode, canonical_text, decoded, canonicalize_infohash, in_magnet,
  after_magnet, hash_from_magnet, prefer, resolve_download_hash, search_infohash, after_prefix,
}

is_hex-plain : (c : ℕ) → is_hex c ≡ true → (is_space c ≡ false) × (lower_char c ≡ c)
unfolding is_hex is_digit is_space lower_char
is_hex-plain c h = ground arith

lstrip-hex : (s : Text) → all_hex s ≡ true → lstrip s ≡ s
unfolding all_hex lstrip
lstrip-hex [] h = refl
lstrip-hex (c ∷ s) h = ground (arith, is_hex-plain c)

rstrip-hex : (s : Text) → all_hex s ≡ true → rstrip s ≡ s
unfolding all_hex rstrip
rstrip-hex [] h = refl
rstrip-hex (c ∷ s) h = ground (arith, is_hex-plain c, rstrip-hex s)

lower-hex : (s : Text) → all_hex s ≡ true → lower s ≡ s
unfolding all_hex lower
lower-hex [] h = refl
lower-hex (c ∷ s) h = ground (arith, is_hex-plain c, lower-hex s)

plain-hex : (s : Text) → all_hex s ≡ true → lower (strip s) ≡ s
unfolding strip
plain-hex s h = ap lower (ap rstrip (lstrip-hex s h) ∙ rstrip-hex s h) ∙ lower-hex s h

is_hex-hex_digit : (n : ℕ) → ltb n 16 ≡ true → is_hex (hex_digit n) ≡ true
unfolding is_hex is_digit hex_digit
is_hex-hex_digit n h = ground arith

all_hex-hex_encode : (raw : List ℕ) → all_hex (hex_encode raw) ≡ true
unfolding all_hex hex_encode
all_hex-hex_encode [] = refl
all_hex-hex_encode (b ∷ raw) =
    ground
      (arith, is_hex-hex_digit (b / 16 % 16), is_hex-hex_digit (b % 16), all_hex-hex_encode raw)

plain_idem : (s : Text) → lower (strip (lower (strip s))) ≡ lower (strip s)
plain_idem s = ap lower (strip-lower (strip s) ∙ ap lower (strip_idem s)) ∙ lower_idem (strip s)

module _ (b32decode : Text → Option (List ℕ)) where
  decoded-plain :
      (text : Text) (o : Option (List ℕ))
      → (decoded b32decode text o ≡ text)
        ⊎ ((b : ℕ) × (raw : List ℕ) × (decoded b32decode text o ≡ hex_encode (b ∷ raw)))
  unfolding decoded
  decoded-plain text none = inl refl
  decoded-plain text (some []) = inl refl
  decoded-plain text (some (b ∷ raw)) = inr (b, raw, refl)

  -- The text itself, or the hexadecimal form of some bytes.
  canonical_text-form :
      (text k : Text)
      → canonical_text b32decode text ≡ some k
      → (k ≡ text) ⊎ ((b : ℕ) × (raw : List ℕ) × (k ≡ hex_encode (b ∷ raw)))
  unfolding canonical_text
  canonical_text-form [] k e = absurd (cc)
  canonical_text-form (c ∷ s) k e = elim (decoded-plain (c ∷ s) (b32decode (c ∷ s))) [
    | inl same ↦ inl (ground arith)
    | inr (b, raw, hex) ↦ elim (Bool-cases (all_hex (c ∷ s))) [
      | inl hex_text ↦ inl (ground arith)
      | inr coded ↦ inr (b, raw, ground arith)
    ]
  ]

  canonical_text-encoded :
      (b : ℕ) (raw : List ℕ)
      → canonical_text b32decode (hex_encode (b ∷ raw)) ≡ some (hex_encode (b ∷ raw))
  unfolding canonical_text hex_encode
  canonical_text-encoded b raw = rw (all_hex-hex_encode (b ∷ raw)) refl

  -- The canonical form of a canonical hash is the hash itself.
  pub canonicalize_infohash_idem :
      (value k : Text)
      → canonicalize_infohash b32decode value ≡ some k
      → canonicalize_infohash b32decode k ≡ some k
  unfolding canonicalize_infohash
  canonicalize_infohash_idem value k e = elim (canonical_text-form (lower (strip value)) k e) [
    | inl same ↦
        ap (λ t. canonical_text b32decode t) (ap (λ t. lower (strip t)) same ∙ plain_idem value) ∙ e
    | inr (b, raw, hex) ↦ rw hex (
        ap (λ t. canonical_text b32decode t)
          (plain-hex (hex_encode (b ∷ raw)) (all_hex-hex_encode (b ∷ raw)))
        ∙ canonical_text-encoded b raw)
  ]

  in_magnet-canonical :
      (s key : Text)
      → in_magnet b32decode s ≡ some key
      → canonicalize_infohash b32decode key ≡ some key
  unfolding in_magnet
  in_magnet-canonical [] key e = absurd (cc)
  in_magnet-canonical (c ∷ s) key e = canonicalize_infohash_idem (c ∷ s) key e

  after_magnet-canonical :
      (text : Text) (o : Option Text) (key : Text)
      → after_magnet b32decode text o ≡ some key
      → canonicalize_infohash b32decode key ≡ some key
  unfolding after_magnet
  after_magnet-canonical text none key e = absurd (cc)
  after_magnet-canonical text (some rest) key e = in_magnet-canonical (search_infohash text) key e

  prefer-canonical :
      (first second : Option Text) (key : Text)
      → ((k : Text) → first ≡ some k → canonicalize_infohash b32decode k ≡ some k)
      → ((k : Text) → second ≡ some k → canonicalize_infohash b32decode k ≡ some k)
      → prefer b32decode first second ≡ some key
      → canonicalize_infohash b32decode key ≡ some key
  unfolding prefer
  prefer-canonical none second key f g e = g key e
  prefer-canonical (some k) second key f g e = f key e

  -- Whatever hash is resolved for a download is its own canonical form.
  pub resolve_download_hash-canonical :
      (url hash key : Text)
      → resolve_download_hash b32decode url hash ≡ some key
      → canonicalize_infohash b32decode key ≡ some key
  unfolding resolve_download_hash hash_from_magnet
  resolve_download_hash-canonical url hash key e =
      prefer-canonical (canonicalize_infohash b32decode hash) (hash_from_magnet b32decode url) key
        (canonicalize_infohash_idem hash)
        (after_magnet-canonical (strip url) (after_prefix (codes "magnet:") (strip url))) e
