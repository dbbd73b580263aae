-- ===== src/Secrets/Base64.antt =====
-- base64.StdEncoding.DecodeString, as internal/gitai/secrets/store.go uses it.
use Prim.Native.Char.{Char, code}
use Prim.Native.String.{String}
use ruriko.Prelude.{
  ℕ, ◌+◌, ◌-◌, ◌*◌, ◌/◌, ◌%◌, Bool, ◌&&◌, ◌||◌, Option, none, some, List, [], ◌∷◌, ◌++◌, ◌>>=◌, leb,
  ◌==◌, nat_eq, if◌then◌else◌,
}

abbrev pub Bytes : Type 0
Bytes = List ℕ

-- The six bits of a character.
abbrev sextet : Char → Option ℕ
sextet c =
    let n = code c in
    if leb 65 n && leb n 90
    then some (n - 65)
    else if leb 97 n && leb n 122
    then some (n - 71)
    else if leb 48 n && leb n 57
    then some (n + 4)
    else if n == 43
    then some 62
    else if n == 47
    then some 63
    else none

abbrev is_pad : Char → Bool
is_pad c = code c == 61

abbrev first_byte : ℕ → ℕ → ℕ
first_byte a b = a * 4 + b / 16

abbrev second_byte : ℕ → ℕ → ℕ
second_byte b c = b % 16 * 16 + c / 4

abbrev third_byte : ℕ → ℕ → ℕ
third_byte c d = c % 4 * 64 + d

-- The bytes of a group whose third character is no padding.
abbrev two_or_three : ℕ → ℕ → Char → Char → Option Bytes
two_or_three x y c d = do
  z ← sextet c
  if is_pad d
      then some (first_byte x y ∷ second_byte y z ∷ [])
      else (sextet d >>= λ w. some (first_byte x y ∷ second_byte y z ∷ third_byte z w ∷ []))

-- The bytes of the last group of four characters.
abbrev last_group : Char → Char → Char → Char → Option Bytes
last_group a b c d = do
  x ← sextet a
  y ← sextet b
  if is_pad c && is_pad d then some (first_byte x y ∷ []) else two_or_three x y c d

abbrev full_group : Char → Char → Char → Char → Option Bytes
full_group a b c d = do
  x ← sextet a
  y ← sextet b
  z ← sextet c
  w ← sextet d
  some (first_byte x y ∷ second_byte y z ∷ third_byte z w ∷ [])

abbrev append_groups : Option Bytes → Option Bytes → Option Bytes
append_groups (some xs) (some ys) = some (xs ++ ys)
append_groups _ _ = none

-- Padding may stand in the last group only.
unfoldable pub decode_groups : String → Option Bytes
decode_groups String.[] = some []
decode_groups (String.◌∷◌ a (String.◌∷◌ b (String.◌∷◌ c (String.◌∷◌ d String.[])))) =
    last_group a b c d
decode_groups (String.◌∷◌ a (String.◌∷◌ b (String.◌∷◌ c (String.◌∷◌ d (String.◌∷◌ e rest))))) =
    append_groups (full_group a b c d) (decode_groups (String.◌∷◌ e rest))
decode_groups _ = none

abbrev drop_breaks : String → String
drop_breaks String.[] = String.[]
drop_breaks (String.◌∷◌ c s) =
    let rest = drop_breaks s in if code c == 10 || code c == 13 then rest else String.◌∷◌ c rest

unfoldable pub decode_string : String → Option Bytes
decode_string s = decode_groups (drop_breaks s)
