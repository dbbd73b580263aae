-- ===== src/Prelude/Text.antt =====
-- Go's `strings` functions that the code uses, over the characters of a text.
pub mod Cuts
use Prim.Native.Char.{Char, code}
use Prim.Native.String.{String}
use mathlib.Core.Bool.{Bool, true, false, ◌||◌, ◌&&◌}
use mathlib.Core.Option.{Option, none, some}
use Prim.Native.Nat.{ℕ, zero, suc, ◌+◌, ◌%◌, ◌/◌}
use mathlib.Core.List.{List, [], ◌∷◌}
use ruriko.Prelude.Tests.{◌==◌, nat_eq, string_eq, leb, if◌then◌else◌, ltb}

-- unicode.IsSpace on the ASCII range, as `strings.TrimSpace` and `strings.Fields` use it.
unfoldable pub is_space : Char → Bool
is_space c = let n = code c in n == 32 || n == 9 || n == 10 || n == 11 || n == 12 || n == 13

abbrev pub is_empty : String → Bool
is_empty String.[] = true
is_empty (String.◌∷◌ c s) = false

unfoldable pub trim_left : String → String
unfolding is_space
trim_left String.[] = String.[]
trim_left (String.◌∷◌ c s) = let rest = trim_left s in if is_space c then rest else String.◌∷◌ c s

unfoldable pub trim_right : String → String
unfolding is_space
trim_right String.[] = String.[]
trim_right (String.◌∷◌ c s) =
    let rest = trim_right s in if is_space c && is_empty rest then String.[] else String.◌∷◌ c rest

-- strings.TrimSpace
unfoldable pub trim_space : String → String
unfolding trim_left trim_right
trim_space s = trim_right (trim_left s)

-- strings.CutPrefix
abbrev pub cut_prefix : String → String → Option String
cut_prefix String.[] s = some s
cut_prefix (String.◌∷◌ c p) String.[] = none
cut_prefix (String.◌∷◌ c p) (String.◌∷◌ d s) =
    let rest = cut_prefix p s in if code c == code d then rest else none

abbrev is_some : Option String → Bool
is_some none = false
is_some (some s) = true

-- strings.HasPrefix, with the prefix first
abbrev pub has_prefix : String → String → Bool
has_prefix p s = is_some (cut_prefix p s)

-- A builder's text with one more character.
abbrev pub snoc : String → Char → String
snoc String.[] c = String.◌∷◌ c String.[]
snoc (String.◌∷◌ d s) c = String.◌∷◌ d (snoc s c)

-- `s + t`
abbrev pub append : String → String → String
append String.[] t = t
append (String.◌∷◌ c s) t = String.◌∷◌ c (append s t)

abbrev pub cons_before : Char → Option (String × String) → Option (String × String)
cons_before c none = none
cons_before c (some (before, after)) = some (String.◌∷◌ c before, after)

abbrev pub or_else {ℓ} : {A : Type ℓ} → Option A → Option A → Option A
or_else (some a) o = some a
or_else none o = o

abbrev pub start_after : Option String → Option (String × String)
start_after none = none
start_after (some rest) = some (String.[], rest)

-- strings.Cut, with the separator first: around its first occurrence.
unfoldable pub cut : String → String → Option (String × String)
cut sep String.[] = start_after (cut_prefix sep String.[])
cut sep (String.◌∷◌ c s) =
    let later = cut sep s in
    or_else (start_after (cut_prefix sep (String.◌∷◌ c s))) (cons_before c later)

abbrev is_some_pair : Option (String × String) → Bool
is_some_pair none = false
is_some_pair (some p) = true

-- strings.Contains, with the part first
abbrev pub has_part : String → String → Bool
has_part part s = is_some_pair (cut part s)

abbrev cons_to : Char → Option String → Option String
cons_to c none = none
cons_to c (some s) = some (String.◌∷◌ c s)

abbrev end_of : String → Option String
end_of String.[] = some String.[]
end_of _ = none

-- What stands before the last occurrence of a separator.
unfoldable pub cut_last : String → String → Option String
cut_last sep String.[] = none
cut_last sep (String.◌∷◌ c s) =
    let later = cut_last sep s in
    or_else (cons_to c later) (if has_prefix sep (String.◌∷◌ c s) then some String.[] else none)

-- strings.CutSuffix
unfoldable pub cut_suffix : String → String → Option String
cut_suffix suffix String.[] = end_of suffix
cut_suffix suffix (String.◌∷◌ c s) =
    let later = cut_suffix suffix s in
    if suffix == String.◌∷◌ c s then some String.[] else cons_to c later

abbrev start_part : Char → List String → List String
start_part c [] = String.◌∷◌ c String.[] ∷ []
start_part c (p ∷ ps) = String.◌∷◌ c p ∷ ps

-- strings.Split by one character, which is given by its number.
unfoldable pub split : ℕ → String → List String
split n String.[] = String.[] ∷ []
split n (String.◌∷◌ c s) =
    let rest = split n s in if code c == n then String.[] ∷ rest else start_part c rest

abbrev digit : ℕ → Char
digit n =
    if n == 0
    then "0"
    else if n == 1
    then "1"
    else if n == 2
    then "2"
    else if n == 3
    then "3"
    else if n == 4
    then "4"
    else if n == 5
    then "5"
    else if n == 6
    then "6"
    else if n == 7
    then "7"
    else if n == 8
    then "8"
    else "9"

decimal_from : ℕ → ℕ → String → String
decimal_from zero n rest = rest
decimal_from (suc fuel) n rest =
    let here = String.◌∷◌ (digit (n % 10)) rest in
    let more = decimal_from fuel (n / 10) here in if ltb n 10 then here else more

-- strconv.Itoa of a number that is not negative: each round has at most a tenth of the number before,
-- so as many rounds as the number are enough.
unfoldable pub itoa : ℕ → String
unfolding decimal_from
itoa n = decimal_from (suc n) n String.[]

-- s[n:]
abbrev pub drop : ℕ → String → String
drop zero s = s
drop (suc n) String.[] = String.[]
drop (suc n) (String.◌∷◌ c s) = drop n s

abbrev lower : ℕ → ℕ
lower n = if leb 65 n && leb n 90 then n + 32 else n

-- strings.HasPrefix(strings.ToLower(s), p) for a prefix of small ASCII letters.
abbrev pub has_prefix_lower : String → String → Bool
has_prefix_lower String.[] s = true
has_prefix_lower (String.◌∷◌ c p) String.[] = false
has_prefix_lower (String.◌∷◌ c p) (String.◌∷◌ d s) =
    code c == lower (code d) && has_prefix_lower p s

-- strings.ToLower(s) == p
abbrev pub is_lower : String → String → Bool
is_lower String.[] String.[] = true
is_lower (String.◌∷◌ c p) (String.◌∷◌ d s) = code c == lower (code d) && is_lower p s
is_lower _ _ = false

-- strings.EqualFold
abbrev pub equal_fold : String → String → Bool
equal_fold String.[] String.[] = true
equal_fold (String.◌∷◌ c s) (String.◌∷◌ d t) = lower (code c) == lower (code d) && equal_fold s t
equal_fold _ _ = false

-- strings.TrimPrefix, with the prefix first
abbrev pub trim_prefix : String → String → String
trim_prefix p s = elim (cut_prefix p s) [ none ↦ s | some rest ↦ rest ]
