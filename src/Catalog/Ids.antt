-- ===== src/Catalog/Ids.antt =====
-- domain/catalog.py: ids, and which of several is the canonical one. Provisional ids are negative.
use anime_manager.Base.{
  zero, suc, ◌≡◌, ◌↔◌, Bool, true, false, List, [], ◌∷◌, Option, none, some, arith, if◌then◌else◌,
  keep, ◌==◌ as nat_beq, ==_iff,
}
use anime_manager.Base.Int.{ℤ, pos, negsuc, ltb_ℤ, ◌≤ℤ◌}
use anime_manager.Base.Dict.{Eq}

unfoldable pub int_beq : ℤ → ℤ → Bool
int_beq (pos m) (pos n) = nat_beq m n
int_beq (pos m) (negsuc n) = false
int_beq (negsuc m) (pos n) = false
int_beq (negsuc m) (negsuc n) = nat_beq m n

pub int_beq_iff : (a b : ℤ) → (int_beq a b ≡ true) ↔ (a ≡ b)
unfolding int_beq
int_beq_iff (pos m) (pos n) = ground (arith, ==_iff m n)
int_beq_iff (pos m) (negsuc n) = (λ h. absurd (cc), λ h. absurd (cc))
int_beq_iff (negsuc m) (pos n) = (λ h. absurd (cc), λ h. absurd (cc))
int_beq_iff (negsuc m) (negsuc n) = ground (arith, ==_iff m n)

instance abbrev pub int_eq : Eq ℤ
int_eq = record { beq = int_beq; beq_iff = int_beq_iff }

-- int(i) > 0
unfoldable pub is_positive : ℤ → Bool
is_positive (pos zero) = false
is_positive (pos (suc n)) = true
is_positive (negsuc n) = false

-- min(i, *ids)
unfoldable pub minimum : ℤ → List ℤ → ℤ
minimum i [] = i
minimum i (j ∷ ids) = let rest = minimum j ids in if ltb_ℤ rest i then rest else i

unfoldable pub smallest : ℤ → List ℤ → List ℤ → ℤ
smallest i ids [] = minimum i ids
smallest i ids (p ∷ ps) = minimum p ps

-- `none` stands for the ValueError.
unfoldable pub preferred_catalog_id : List ℤ → Option ℤ
unfolding is_positive minimum smallest
preferred_catalog_id [] = none
preferred_catalog_id (i ∷ ids) = some (smallest i ids (keep is_positive (i ∷ ids)))

-- A positive id is only passed over for a smaller positive one, and any other id only for a smaller or a
-- positive one.
abbrev pub Preferred : ℤ → ℤ → Type 0
Preferred p j =
    (is_positive j ≡ true → (is_positive p ≡ true) × (p ≤ℤ j)) × (is_positive p ≡ false → p ≤ℤ j)
