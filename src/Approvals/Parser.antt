-- ===== src/Approvals/Parser.antt =====
-- internal/ruriko/approvals/parser.go: the messages that approve or deny a request. Reading behind the
-- end of a text or of a list is a panic, as in Go.
pub mod Form
use Prim.Native.Char.{Char, code}
use Prim.Native.String.{String}
use ruriko.Prelude.{
  ℕ, zero, suc, ◌+◌, Bool, true, false, ◌||◌, ◌&&◌, not, List, [], ◌∷◌, ltb, leb, ◌==◌, nat_eq,
  string_eq, if◌then◌else◌,
}
use ruriko.Prelude.Text.{has_prefix_lower, is_lower, is_space, is_empty, trim_space, append, snoc}

pub record Decision : Type 0 where
  pub approve : Bool
  pub approval_id : String
  pub reason : String

pub data Parsed : Type 0 where
  decision : Decision → Parsed
  not_a_decision usage deny_without_reason out_of_range : Parsed

abbrev utf8_size : Char → ℕ
utf8_size c =
    let n = code c in
    if ltb n 128 then 1 else if ltb n 2048 then 2 else if ltb n 65536 then 3 else 4

-- len(s), in bytes
abbrev pub byte_length : String → ℕ
byte_length String.[] = 0
byte_length (String.◌∷◌ c s) = utf8_size c + byte_length s

-- s[n:], where the first n bytes are ASCII
abbrev cut_verb : ℕ → String → String
cut_verb zero s = s
cut_verb (suc n) String.[] = String.[]
cut_verb (suc n) (String.◌∷◌ c s) = cut_verb n s

abbrev end_field : String → List String → List String
end_field current fields = if is_empty current then fields else current ∷ fields

-- strings.Fields, with the characters of the field that is being read.
unfoldable pub fields_from : String → String → List String
unfolding is_space
fields_from current String.[] = end_field current []
fields_from current (String.◌∷◌ c s) =
    let next = fields_from "" s in
    let further = fields_from (snoc current c) s in
    if is_space c then end_field current next else further

-- strings.Join(parts, " ")
abbrev join : List String → String
join [] = ""
join (s ∷ []) = s
join (s ∷ t ∷ rest) = append s (String.◌∷◌ " " (join (t ∷ rest)))

abbrev is_quote : Char → Bool
is_quote c = code c == 34 || code c == 39

abbrev drop_quotes : String → String
drop_quotes String.[] = String.[]
drop_quotes (String.◌∷◌ c s) =
    let rest = drop_quotes s in if is_quote c then rest else String.◌∷◌ c s

abbrev drop_last_quotes : String → String
drop_last_quotes String.[] = String.[]
drop_last_quotes (String.◌∷◌ c s) =
    let rest = drop_last_quotes s in
    if is_quote c && is_empty rest then String.[] else String.◌∷◌ c rest

unfoldable pub parse_reason : String → String
parse_reason text =
    let s = trim_space text in
    if has_prefix_lower "reason=" s then drop_last_quotes (drop_quotes (cut_verb 7 s)) else s

abbrev reason_of : List String → String
reason_of [] = ""
reason_of (s ∷ rest) = parse_reason (join (s ∷ rest))

-- From the fields behind the verb on.
abbrev pub decide_fields : Bool → List String → Parsed
decide_fields approve [] = out_of_range
decide_fields approve (id ∷ more) =
    if not approve && is_empty (trim_space (reason_of more))
    then deny_without_reason
    else decision (record { approve = approve; approval_id = id; reason = reason_of more })

abbrev pub decide_rest : Bool → String → Parsed
decide_rest approve rest =
    if is_empty rest then usage else decide_fields approve (fields_from "" rest)

-- The verb is known. The text is cut behind "approve" first, and for the other verb cut again.
abbrev pub decide_verb : Bool → String → Parsed
decide_verb approve text =
    if ltb (byte_length text) 7
    then out_of_range
    else decide_rest approve (trim_space (cut_verb (if approve then 7 else 4) text))

abbrev pub has_verb : String → String → String → Bool
has_verb verb_space verb text = has_prefix_lower verb_space text || is_lower verb text

unfoldable pub parse_decision : String → Parsed
parse_decision message =
    let text = trim_space message in
    if has_verb "approve " "approve" text
    then decide_verb true text
    else if has_verb "deny " "deny" text
    then decide_verb false text
    else not_a_decision
