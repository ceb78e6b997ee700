-- ===== src/Downloads/Manager/Sets.antt =====
-- The sets of queued and of cancelled hashes.
use anime_manager.Base.{
  ℕ, ◌≡◌, refl, true, false, List, Option, none, some, arith, ◌∙◌, subst, Bool-cases, inl, inr,
}
use anime_manager.Base.Dict.{member, add, discard, member-add, member-discard}
use anime_manager.Base.Text.{Text, text_eq, text_beq, text_beq_iff}
use anime_manager.Downloads.Manager.{discard_key, same_key}

-- No hash is both queued and cancelled, but for the exempt ones.
abbrev pub Apart : List Text → List Text → List Text → Type 0
Apart exempt queued cancelled =
    (h : Text) → member h exempt ≡ false → member h queued ≡ true → member h cancelled ≡ false

pub discard_both-Apart :
    (exempt : List Text) (o : Option Text) (q c : List Text)
    → Apart exempt q c
    → Apart exempt (discard_key o q) (discard_key o c)
unfolding discard_key
discard_both-Apart exempt none q c apart h free queued = apart h free queued
discard_both-Apart exempt (some k) q c apart h free queued =
    ground (arith, apart h free, member-discard k h q, member-discard k h c)

pub discard-Apart :
    (exempt : List Text) (o : Option Text) (q c : List Text)
    → Apart exempt q c
    → Apart exempt (discard_key o q) c
unfolding discard_key
discard-Apart exempt none q c apart h free queued = apart h free queued
discard-Apart exempt (some k) q c apart h free queued =
    ground (arith, apart h free, member-discard k h q)

pub cancel-Apart :
    (exempt : List Text) (k : Text) (q c : List Text)
    → Apart exempt q c
    → Apart exempt (discard k q) (add k c)
cancel-Apart exempt k q c apart h free queued =
    ground (arith, apart h free, member-discard k h q, member-add k h c)

pub queue-Apart :
    (exempt : List Text) (k : Text) (q c : List Text)
    → Apart exempt q c
    → Apart exempt (add k q) (discard k c)
queue-Apart exempt k q c apart h free queued =
    ground (arith, apart h free, member-add k h q, member-discard k h c)

pub discard_queued-Apart :
    (exempt : List Text) (k : Text) (q c : List Text)
    → Apart exempt q c
    → Apart exempt (discard k q) c
discard_queued-Apart exempt k q c apart h free queued =
    ground (arith, apart h free, member-discard k h q)

-- A cancelled hash that is exempt disturbs no other one.
pub add-Apart :
    (exempt : List Text) (k : Text) (q c : List Text)
    → member k exempt ≡ true
    → Apart exempt q c
    → Apart exempt q (add k c)
add-Apart exempt k q c marked apart h free queued = elim (Bool-cases (text_beq k h)) [
  | inl same ↦
      absurd (clash (subst (λ j. member j exempt ≡ true) ((text_beq_iff k h).0 same) marked))
  | inr other ↦ member-add k h c ∙ rw (other, apart h free queued) refl
]
  where
    clash : member h exempt ≡ true → ⊥
    clash m = cc

-- A hash that is left after a discard was there before, and is another one.
pub member-discard_key :
    (b32decode : Text → Option (List ℕ)) (o : Option Text) (q : List Text) (h : Text)
    → member h (discard_key o q) ≡ true
    → (member h q ≡ true) × (same_key b32decode h o ≡ false)
unfolding discard_key same_key
member-discard_key b32decode none q h queued = (queued, refl)
member-discard_key b32decode (some k) q h queued =
    (ground (arith, member-discard k h q), ground (arith, member-discard k h q))
