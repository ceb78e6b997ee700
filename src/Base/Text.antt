-- ===== src/Base/Text.antt =====
-- Texts as lists of code points, with the string methods that the program calls. Letter case and
-- white space are those of ASCII.
pub mod Decimal
pub mod Strip
use Prim.Native.Char.{code}
use mathlib.Core.Option
use anime_manager.Base.{
  ℕ, zero, suc, ◌+◌, ◌-◌, ◌*◌, ◌/◌, ◌%◌, ◌≡◌, refl, ◌↔◌, Bool, true, false, ◌&&◌, ◌||◌, List, [],
  ◌∷◌, ◌++◌, map, Option, none, some, arith, ltb, leb, if◌then◌else◌, String, length,
}
use anime_manager.Base.Dict.{Eq, ◌==◌, nat_eq}
use anime_manager.Base.Int.{ℤ, pos, negsuc}

abbrev pub Text : Type 0
Text = List ℕ

-- The code points of a literal.
abbrev pub codes : String → Text
codes String.[] = []
codes (String.◌∷◌ c s) = code c ∷ codes s

unfoldable pub text_beq : Text → Text → Bool
text_beq [] [] = true
text_beq [] (y ∷ t) = false
text_beq (x ∷ s) [] = false
text_beq (x ∷ s) (y ∷ t) = x == y && text_beq s t

pub text_beq_iff : (s t : Text) → (text_beq s t ≡ true) ↔ (s ≡ t)
unfolding text_beq
text_beq_iff [] [] = (λ h. refl, λ h. refl)
text_beq_iff [] (y ∷ t) = (λ h. cc, λ h. cc)
text_beq_iff (x ∷ s) [] = (λ h. cc, λ h. cc)
text_beq_iff (x ∷ s) (y ∷ t) = ground (arith, text_beq_iff s t)

instance abbrev pub text_eq : Eq Text
text_eq = record { beq = text_beq; beq_iff = text_beq_iff }

-- str.isspace of one character (ASCII and Latin-1).
unfoldable pub is_space : ℕ → Bool
is_space c = leb 9 c && leb c 13 || leb 28 c && leb c 32 || c == 133 || c == 160

unfoldable pub lstrip : Text → Text
lstrip [] = []
lstrip (c ∷ s) = if is_space c then lstrip s else c ∷ s

unfoldable pub is_blank : Text → Bool
is_blank [] = true
is_blank (c ∷ s) = false

unfoldable pub rstrip : Text → Text
rstrip [] = []
rstrip (c ∷ s) = let r = rstrip s in if is_blank r && is_space c then [] else c ∷ r

-- str.strip()
unfoldable pub strip : Text → Text
unfolding is_space lstrip rstrip is_blank
strip s = rstrip (lstrip s)

unfoldable pub lower_char : ℕ → ℕ
lower_char c = if leb b'A' c && leb c b'Z' then c + 32 else c

-- str.lower()
unfoldable pub lower : Text → Text
unfolding lower_char
lower s = map lower_char s

unfoldable pub is_digit : ℕ → Bool
is_digit c = leb b'0' c && leb c b'9'

-- The value of a run of digits, `none` if another character stands in it.
unfoldable pub digits_value : ℕ → Text → Option ℕ
unfolding is_digit
digits_value acc [] = some acc
digits_value acc (c ∷ s) = if is_digit c then digits_value (acc * 10 + (c - 48)) s else none

decimal_from : ℕ → ℕ → Text
decimal_from zero n = []
decimal_from (suc fuel) n =
    let front = decimal_from fuel (n / 10) in
    if ltb n 10 then (48 + n) ∷ [] else front ++ (48 + n % 10) ∷ []

-- str(n) of a number that is not negative
unfoldable pub decimal : ℕ → Text
unfolding decimal_from
decimal n = decimal_from (suc n) n

zeros : ℕ → Text
zeros zero = []
zeros (suc n) = 48 ∷ zeros n

-- f"{n:05d}"
unfoldable pub padded5 : ℕ → Text
unfolding zeros decimal
padded5 n = zeros (5 - length (decimal n)) ++ decimal n

-- text.split(sep, 1), if the separator occurs
unfoldable pub split_once : ℕ → Text → Option (Text × Text)
split_once sep [] = none
split_once sep (c ∷ s) =
    if c == sep
    then some ([], s)
    else elim (split_once sep s) [ none ↦ none | some (a, b) ↦ some (c ∷ a, b) ]

-- The digits of an int literal, single underscores between digits allowed.
int_digits : Bool → ℕ → Text → Option ℕ
int_digits ready acc [] = if ready then some acc else none
int_digits ready acc (c ∷ s) =
    let more = int_digits true (acc * 10 + (c - 48)) s in
    let skip = int_digits false acc s in
    if is_digit c then more else if ready && c == b'_' then skip else none

int_signed : Text → Option ℤ
unfolding int_digits is_digit
int_signed [] = none
int_signed (c ∷ s) =
    if c == b'-'
    then Option.map (λ n. if n == 0 then pos 0 else negsuc (n - 1)) (int_digits false 0 s)
    else if c == b'+'
    then Option.map pos (int_digits false 0 s)
    else Option.map pos (int_digits false 0 (c ∷ s))

-- int(text), with `none` for the ValueError
unfoldable pub parse_int : Text → Option ℤ
unfolding strip int_signed
parse_int s = int_signed (strip s)
