-- ===== src/Playback/Tokens.antt =====
-- application/playback/session_store.py: session tokens. The keyed digest (HMAC-SHA256, encoded in
-- base64 without padding) is a parameter, a function of the signed payload. `int(float(exp))` is taken
-- for the identity, which it is below 2 ^ 53 seconds.
use anime_manager.Base.{
  ℕ, ◌/◌, ◌≤◌, ◌≡◌, refl, Bool, true, false, ◌∷◌, ◌++◌, Option, none, some, arith, ltb, leb,
  if◌then◌else◌, ap,
}
use anime_manager.Base.Int.{ℤ, pos, negsuc}
use anime_manager.Base.Dict.{◌==◌, beq_refl}
use anime_manager.Base.Text.{Text, text_eq, text_beq_iff, decimal, split_once, parse_int}
use anime_manager.Base.Text.Decimal.{decimal-AllDigits, split_once-AllDigits, parse_int-decimal}
use anime_manager.Playback.Contract.{ms}

module _ (mac : Text → Text) where
  -- The digest of f"{session_id}.{exp}"
  unfoldable pub signature : Text → ℕ → Text
  signature session_id exp = mac (session_id ++ b'.' ∷ decimal exp)

  -- `expires_at` in milliseconds; the token holds whole seconds.
  unfoldable pub build : Text → ℕ → Text
  unfolding signature
  build session_id expires_at =
      let exp = expires_at / 1000 in decimal exp ++ b'.' ∷ signature session_id exp

  unfoldable pub verify_signed : ℕ → Text → ℤ → Text → Bool
  verify_signed now session_id (negsuc n) sig = false
  verify_signed now session_id (pos exp) sig =
      if ltb (ms exp) now then false else sig == signature session_id exp

  verify_expiry : ℕ → Text → Text → Option ℤ → Bool
  verify_expiry now session_id sig none = false
  verify_expiry now session_id sig (some exp) = verify_signed now session_id exp sig

  verify_parts : ℕ → Text → Option (Text × Text) → Bool
  verify_parts now session_id none = false
  verify_parts now session_id (some (exp_raw, sig)) =
      verify_expiry now session_id sig (parse_int exp_raw)

  -- `now` in milliseconds
  unfoldable pub verify : ℕ → Text → Text → Bool
  unfolding verify_parts verify_expiry verify_signed
  verify now session_id token = verify_parts now session_id (split_once b'.' token)

  -- A token that was built for a session verifies for it up to the last whole second of its lifetime,
  -- and never after that.
  pub verify-build :
      (now expires_at : ℕ) (session_id : Text)
      → verify now session_id (build session_id expires_at) ≡ leb now (ms (expires_at / 1000))
  unfolding verify build
  verify-build now expires_at session_id =
      rw
        (
          split_once-AllDigits (decimal (expires_at / 1000))
              (signature session_id (expires_at / 1000)) (decimal-AllDigits (expires_at / 1000)),
          parse_int-decimal (expires_at / 1000),
          beq_refl (signature session_id (expires_at / 1000)),
        )
        (ground arith)

  -- What an accepted token is made of.
  abbrev pub Accepted : ℕ → Text → Text → Type 0
  Accepted now session_id token =
      (exp_raw : Text) × (exp : ℕ) × (split_once b'.' token
        ≡ some (exp_raw, signature session_id exp))
      × (parse_int exp_raw ≡ some (pos exp))
      × (now ≤ ms exp)

  verify_signed_sound :
      (now : ℕ) (session_id sig : Text) (exp : ℤ)
      → verify_signed now session_id exp sig ≡ true
      → (e : ℕ) × (exp ≡ pos e) × (sig ≡ signature session_id e) × (now ≤ ms e)
  unfolding verify_signed
  verify_signed_sound now session_id sig (negsuc n) h = absurd (cc)
  verify_signed_sound now session_id sig (pos e) h =
      (e, refl, ground (arith, text_beq_iff sig (signature session_id e)), ground arith)

  verify_expiry_sound :
      (now : ℕ) (session_id sig : Text) (r : Option ℤ)
      → verify_expiry now session_id sig r ≡ true
      → (e : ℕ) × (r ≡ some (pos e)) × (sig ≡ signature session_id e) × (now ≤ ms e)
  unfolding verify_expiry
  verify_expiry_sound now session_id sig none h = absurd (ground arith)
  verify_expiry_sound now session_id sig (some x) h =
      let (e, is_pos, is_sig, alive) = verify_signed_sound now session_id sig x h in
      (e, ap some is_pos, is_sig, alive)

  verify_parts_sound :
      (now : ℕ) (session_id token : Text) (parts : Option (Text × Text))
      → split_once b'.' token ≡ parts
      → verify_parts now session_id parts ≡ true
      → Accepted now session_id token
  unfolding verify_parts
  verify_parts_sound now session_id token none e h = absurd (ground arith)
  verify_parts_sound now session_id token (some (exp_raw, sig)) e h =
      let (exp, is_exp, is_sig, alive) =
        verify_expiry_sound now session_id sig (parse_int exp_raw) h in
      (exp_raw, exp, rw (← is_sig) e, is_exp, alive)

  -- Whatever token is accepted carries the digest of this session's id and of an expiry that has not
  -- passed.
  pub verify_sound :
      (now : ℕ) (session_id token : Text)
      → verify now session_id token ≡ true
      → Accepted now session_id token
  unfolding verify
  verify_sound now session_id token h =
      verify_parts_sound now session_id token (split_once b'.' token) refl h
