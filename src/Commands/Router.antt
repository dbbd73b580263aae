-- ===== src/Commands/Router.antt =====
-- internal/ruriko/commands/router.go: how the text of a message becomes a command, and how a command
-- finds its handler.
pub mod Reserved
pub mod Quoting
mod Tests
use Prim.Native.Char.{Char, code}
use Prim.Native.String.{String}
use ruriko.Prelude.{
  ℕ, zero, suc, Bool, true, false, ◌||◌, ◌++◌, Option, none, some, List, [], ◌∷◌, ◌==◌, nat_eq,
  string_eq, if◌then◌else◌,
}
use ruriko.Prelude.GoMap.{GoMap, empty, put}
use ruriko.Prelude.Text.{is_empty, trim_space, append, cut_prefix, has_prefix, snoc}

pub data ParseError : Type 0 where
  not_a_command empty_command unterminated_quote : ParseError

pub data Result {ℓ} (A : Type ℓ) : Type ℓ where
  ok : A → Result A
  err : ParseError → Result A

pub record Command : Type 0 where
  pub name : String
  pub subcommand : String
  pub args : List String
  pub flags : GoMap String
  pub raw_text : String

-- The variables of the loop of tokenizeCommand. `in_quote` is the rune that ends the quote, 0 outside
-- of quotes.
pub record Scanner : Type 0 where
  pub tokens : List String
  pub current : String
  pub in_quote : ℕ
  pub escaped : Bool

unfoldable pub flush : Scanner → Scanner
flush s =
    if is_empty s.current then s else record s { tokens = s.tokens ++ s.current ∷ []; current = "" }

abbrev write : Scanner → Char → Scanner
write s ch = record s { current = snoc s.current ch }

abbrev is_blank : ℕ → Bool
is_blank n = n == 32 || n == 9 || n == 10 || n == 13

-- The body of the loop, for one rune.
unfoldable pub scan_rune : Scanner → Char → Scanner
unfolding flush
scan_rune s ch =
    let n = code ch in
    if s.escaped
    then record (write s ch) { escaped = false }
    else if n == 92
    then record s { escaped = true }
    else if s.in_quote == 0
    then (if n == 34 || n == 39
        then record s { in_quote = n }
        else if is_blank n
        then flush s
        else write s ch)
    else if n == s.in_quote
    then record s { in_quote = 0 }
    else write s ch

unfoldable pub scan : Scanner → String → Scanner
scan s String.[] = s
scan s (String.◌∷◌ ch rest) = scan (scan_rune s ch) rest

abbrev pub start : Scanner
start = record { tokens = []; current = ""; in_quote = 0; escaped = false }

abbrev close_escape : Scanner → Scanner
close_escape s = if s.escaped then record s { current = snoc s.current "\\" } else s

-- An empty text gives no token, as the early return does.
unfoldable pub tokenize_command : String → Result (List String)
tokenize_command text =
    let s = close_escape (scan start (trim_space text)) in
    if s.in_quote == 0 then ok (flush s).tokens else err unterminated_quote

pub record Parts : Type 0 where
  pub args : List String
  pub flags : GoMap String

abbrev set_flag : Parts → String → String → Parts
set_flag p name value = record p { flags = put p.flags name value }

abbrev no_parts : Parts
no_parts = record { args = []; flags = empty }

-- The loop over the parts behind the subcommand. A part that starts with `--` is a flag, and the
-- next part is its value unless it is a flag too. A flag whose name starts with `_` is dropped with
-- its value.
unfoldable pub walk : List String → Parts → Parts
walk [] p = p
walk (part ∷ []) p = elim (cut_prefix "--" part) [
  | none ↦ record p { args = p.args ++ part ∷ [] }
  | some flag_name ↦ if has_prefix "_" flag_name then p else set_flag p flag_name "true"
]
walk (part ∷ next ∷ rest) p = elim (cut_prefix "--" part) [
  | none ↦ walk (next ∷ rest) (record p { args = p.args ++ part ∷ [] })
  | some flag_name ↦ elim (has_prefix "--" next) [
    | true ↦
        walk (next ∷ rest) (if has_prefix "_" flag_name then p else set_flag p flag_name "true")
    | false ↦ walk rest (if has_prefix "_" flag_name then p else set_flag p flag_name next)
  ]
]

abbrev command_of : String → String → String → Parts → Command
command_of text name subcommand p = record {
  name = name;
  subcommand = subcommand;
  args = p.args;
  flags = p.flags;
  raw_text = text;
}

-- From the tokens to the command.
unfoldable pub build : String → List String → Result Command
unfolding walk
build text [] = err empty_command
build text (name ∷ []) = ok (command_of text name "" no_parts)
build text (name ∷ second ∷ rest) =
    if has_prefix "-" second
    then ok (command_of text name "" (walk (second ∷ rest) no_parts))
    else ok (command_of text name second (walk rest no_parts))

abbrev then_build : String → Result (List String) → Result Command
then_build text (ok parts) = build text parts
then_build text (err e) = err e

abbrev parse_body : String → Result Command
parse_body text =
    if is_empty text then err empty_command else then_build text (tokenize_command text)

abbrev parse_after : Option String → Result Command
parse_after none = err not_a_command
parse_after (some rest) = parse_body (trim_space rest)

unfoldable pub parse : String → String → Result Command
unfolding build
parse prefix text = parse_after (cut_prefix prefix (trim_space text))

abbrev first_of_two {ℓ} : {H : Type ℓ} → Option H → Option H → Option H
first_of_two none o = o
first_of_two (some h) o = some h

-- The key under which Route looks a handler up first.
unfoldable pub handler_key : Command → String
handler_key cmd =
    if is_empty cmd.subcommand then cmd.name else append cmd.name (append "." cmd.subcommand)

-- Route: the handler for the whole key, or else that for the name alone, or none.
unfoldable pub route {ℓ} : {H : Type ℓ} → GoMap H → Command → Option H
unfolding handler_key
route handlers cmd = first_of_two (handlers (handler_key cmd)) (handlers cmd.name)

abbrev value_or : String → Option String → String
value_or default none = default
value_or default (some v) = v

unfoldable pub get_flag : Command → String → String → String
get_flag cmd name default = value_or default (cmd.flags name)
