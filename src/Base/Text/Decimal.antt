-- ===== src/Base/Text/Decimal.antt =====
-- Decimal numerals: printing and reading are inverse.
use mathlib.Core.Option
use anime_manager.Base.{
  ℕ, zero, suc, ◌+◌, ◌-◌, ◌*◌, ◌/◌, ◌%◌, ◌<◌, ◌≡◌, ◌≢◌, refl, true, false, [], ◌∷◌, ◌++◌, some,
  arith, ltb, length, All, All-append, Bool-cases, inl, inr, ◌∙◌,
}
use anime_manager.Base.Dict.{nat_eq}
use anime_manager.Base.Int.{pos}
use anime_manager.Base.Text.{
  Text, is_space, lstrip, rstrip, is_blank, strip, is_digit, digits_value, decimal_from, decimal,
  zeros, padded5, split_once, int_digits, int_signed, parse_int,
}

abbrev pub AllDigits : Text → Type 0
AllDigits s = All (λ c. is_digit c ≡ true) s

digits_value-append :
    (acc d : ℕ) (s : Text)
    → d < 10
    → digits_value acc (s ++ (48 + d) ∷ []) ≡ Option.map (λ v. v * 10 + d) (digits_value acc s)
unfolding digits_value
digits_value-append acc d [] h = ground arith
digits_value-append acc d (c ∷ s) h =
    ground (arith, digits_value-append (acc * 10 + (c - 48)) d s h)

digits_value-decimal_from : (fuel n : ℕ) → n < fuel → digits_value 0 (decimal_from fuel n) ≡ some n
unfolding decimal_from
digits_value-decimal_from zero n h = elim h [ ]
digits_value-decimal_from (suc fuel) n h = elim (Bool-cases (ltb n 10)) [
  | inl small ↦ rw small (unfold digits_value in ground arith)
  | inr large ↦ rw large (
      rw
        (
          digits_value-append 0 (n % 10) (decimal_from fuel (n / 10)) (omega arith),
          digits_value-decimal_from fuel (n / 10) (ground arith),
        )
        (ground arith))
]

-- Reading a printed number gives the number.
pub digits_value-decimal : (n : ℕ) → digits_value 0 (decimal n) ≡ some n
unfolding decimal
digits_value-decimal n = digits_value-decimal_from (suc n) n (omega arith)

digits_value-zeros : (k : ℕ) (s : Text) → digits_value 0 (zeros k ++ s) ≡ digits_value 0 s
unfolding zeros digits_value
digits_value-zeros zero s = refl
digits_value-zeros (suc k) s = digits_value-zeros k s

-- So with the zeros in front that `05d` adds.
pub digits_value-padded5 : (n : ℕ) → digits_value 0 (padded5 n) ≡ some n
unfolding padded5
digits_value-padded5 n =
    digits_value-zeros (5 - length (decimal n)) (decimal n) ∙ digits_value-decimal n

decimal_from-AllDigits : (fuel n : ℕ) → AllDigits (decimal_from fuel n)
unfolding decimal_from is_digit
decimal_from-AllDigits zero n = tt
decimal_from-AllDigits (suc fuel) n = elim (Bool-cases (ltb n 10)) [
  | inl small ↦ rw small (ground arith, tt)
  | inr large ↦ rw large (
      All-append _ (decimal_from fuel (n / 10)) ((48 + n % 10) ∷ [])
        (decimal_from-AllDigits fuel (n / 10)) (ground arith, tt))
]

pub decimal-AllDigits : (n : ℕ) → AllDigits (decimal n)
unfolding decimal
decimal-AllDigits n = decimal_from-AllDigits (suc n) n

pub split_once-AllDigits :
    (s t : Text) → AllDigits s → split_once b'.' (s ++ b'.' ∷ t) ≡ some (s, t)
unfolding split_once is_digit
split_once-AllDigits [] t h = refl
split_once-AllDigits (c ∷ s) t h = rw (split_once-AllDigits s t h.1) (ground arith)

-- A digit is no white space, no sign and no underscore.
digit-not_space : (c : ℕ) → is_digit c ≡ true → is_space c ≡ false
unfolding is_digit is_space
digit-not_space c h = ground arith

rstrip-AllDigits : (s : Text) → AllDigits s → rstrip s ≡ s
unfolding rstrip is_blank
rstrip-AllDigits [] h = refl
rstrip-AllDigits (c ∷ s) h = rw (rstrip-AllDigits s h.1) (ground (arith, digit-not_space c h.0))

strip-AllDigits : (s : Text) → AllDigits s → strip s ≡ s
unfolding strip lstrip
strip-AllDigits [] h = refl
strip-AllDigits (c ∷ s) h = rw (digit-not_space c h.0) (rstrip-AllDigits (c ∷ s) h)

-- Once a digit has been read, `int_digits` reads a run of digits as `digits_value` does.
int_digits-AllDigits :
    (acc : ℕ) (s : Text) → AllDigits s → int_digits true acc s ≡ digits_value acc s
unfolding int_digits digits_value
int_digits-AllDigits acc [] h = refl
int_digits-AllDigits acc (c ∷ s) h =
    ground (arith, int_digits-AllDigits (acc * 10 + (c - 48)) s h.1)

int_signed-AllDigits :
    (s : Text) (n : ℕ)
    → AllDigits s
    → digits_value 0 s ≡ some n
    → s ≢ []
    → int_signed s ≡ some (pos n)
unfolding int_signed int_digits digits_value is_digit
int_signed-AllDigits [] n h e ne = absurd (ne refl)
int_signed-AllDigits (c ∷ s) n h e ne =
    ground (arith, int_digits-AllDigits (0 * 10 + (c - 48)) s h.1)

append_singleton-ne-nil : (s : Text) (c : ℕ) → s ++ c ∷ [] ≢ []
append_singleton-ne-nil [] c e = cc
append_singleton-ne-nil (d ∷ s) c e = cc

decimal-ne-nil : (n : ℕ) → decimal n ≢ []
unfolding decimal decimal_from
decimal-ne-nil n e = ground (arith, append_singleton-ne-nil (decimal_from n (n / 10)) (48 + n % 10))

-- int(str(n)) == n
pub parse_int-decimal : (n : ℕ) → parse_int (decimal n) ≡ some (pos n)
unfolding parse_int
parse_int-decimal n = rw (strip-AllDigits (decimal n) (decimal-AllDigits n)) (
    int_signed-AllDigits (decimal n) n (decimal-AllDigits n) (digits_value-decimal n)
      (decimal-ne-nil n))

zeros-AllDigits : (k : ℕ) → AllDigits (zeros k)
unfolding zeros is_digit
zeros-AllDigits zero = tt
zeros-AllDigits (suc k) = (refl, zeros-AllDigits k)

pub padded5-AllDigits : (n : ℕ) → AllDigits (padded5 n)
unfolding padded5
padded5-AllDigits n =
    All-append _ (zeros (5 - length (decimal n))) (decimal n)
      (zeros-AllDigits (5 - length (decimal n))) (decimal-AllDigits n)

append-ne-nil : (s t : Text) → t ≢ [] → s ++ t ≢ []
append-ne-nil [] t ne e = ne e
append-ne-nil (c ∷ s) t ne e = cc

pub padded5-ne-nil : (n : ℕ) → padded5 n ≢ []
unfolding padded5
padded5-ne-nil n = append-ne-nil (zeros (5 - length (decimal n))) (decimal n) (decimal-ne-nil n)
