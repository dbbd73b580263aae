-- ===== src/Workflow/Template.antt =====
-- internal/gitai/workflow/runner.go: templates, from resolvePathToken to interpolateValue.
pub mod Ends
pub mod Loops
use Prim.Native.String.{String}
use ruriko.Prelude.{
  ℕ, zero, suc, Bool, true, false, not, ◌&&◌, ◌||◌, Option, none, some, List, [], ◌∷◌, ◌==◌,
  string_eq, if◌then◌else◌,
}
use ruriko.Prelude.Text.{
  append, is_empty, trim_space, has_part, cut, cut_prefix, cut_suffix, split, or_else,
}
use ruriko.Json.{
  Value, null, str, obj, arr, table, Items, nil, cons, Fields, end, field, get, print,
}
use ruriko.Workflow.State.{
  State, Result, ok, err, diverges, plain, unresolved_token, missing_closing, empty_token,
  unmatched_braces, ◌>>=◌,
}

unfoldable pub resolve_path : List String → Value → Option Value
resolve_path [] v = some v
resolve_path (p ∷ ps) (table m) = elim (get p m) [ none ↦ none | some v ↦ resolve_path ps v ]
resolve_path (p ∷ ps) (obj m) = elim (get p m) [ none ↦ none | some v ↦ resolve_path ps v ]
resolve_path (p ∷ ps) _ = none

abbrev pub as_object : Option Value → Option Fields
as_object (some (obj m)) = some m
as_object _ = none

abbrev output_or_contract : Fields → Option Value
output_or_contract contract = or_else (get "output" contract) (some (obj contract))

abbrev in_output : Fields → List String → Option Value
in_output contract path = elim (as_object (get "output" contract)) [
  | none ↦ none
  | some m ↦ resolve_path path (obj m)
]

abbrev in_contract : Fields → String → List String → Option Value
in_contract contract key path =
    or_else (if key == "output" then resolve_path (key ∷ path) (obj contract) else none)
      (or_else (in_output contract (key ∷ path)) (resolve_path (key ∷ path) (obj contract)))

-- The short cuts for `steps.<key>` and `steps.<key>.<path>`.
abbrev step_output : Fields → List String → Option Value
step_output outputs [] = none
step_output outputs (key ∷ []) = elim (as_object (get key outputs)) [
  | none ↦ none
  | some contract ↦ output_or_contract contract
]
step_output outputs (key ∷ name ∷ path) = elim (as_object (get key outputs)) [
  | none ↦ none
  | some contract ↦ in_contract contract name path
]

abbrev root : String → State → Option Value
root name s =
    if name == "input"
    then some (obj s.input)
    else if name == "state"
    then some (obj s.values)
    else if name == "steps"
    then some (table s.step_outputs)
    else none

abbrev from_root : List String → Option Value → Option Value
from_root path none = none
from_root path (some v) = resolve_path path v

abbrev pub resolve_parts : List String → State → Option Value
resolve_parts [] s = none
resolve_parts (name ∷ path) s =
    or_else (if name == "steps" then step_output s.step_outputs path else none)
      (from_root path (root name s))

unfoldable pub resolve_path_token : String → State → Option Value
unfolding resolve_path
resolve_path_token token s = if is_empty token then none else resolve_parts (split 46 token) s

abbrev inner_token : String → Option String
inner_token text =
    let inner = trim_space text in
    if is_empty inner || has_part "{{" inner || has_part "}}" inner then none else some inner

abbrev and_then : Option String → (String → Option String) → Option String
and_then none f = none
and_then (some s) f = f s

unfoldable pub single_template_token : String → Option String
single_template_token raw =
    and_then (cut_prefix "{{" (trim_space raw)) (λ s. and_then (cut_suffix "}}" s) inner_token)

abbrev pub replacement : Value → String
replacement null = ""
replacement v = print v

abbrev finish : String → Result String
finish out = if has_part "{{" out || has_part "}}" out then err (plain unmatched_braces) else ok out

abbrev pub spliced : String → Value → String → String
spliced before v after = append before (append (replacement v) after)

-- The loop. It goes on with the text in which one token is replaced, so it may meet tokens that come
-- from a value.
unfoldable pub expand : ℕ → State → String → Result String
expand zero s out = diverges
expand (suc fuel) s out = elim (cut "{{" out) [
  | none ↦ finish out
  | some (before, rest) ↦ elim (cut "}}" rest) [
    | none ↦ err (plain missing_closing)
    | some (token, after) ↦
        if is_empty (trim_space token)
        then err (plain empty_token)
        else (elim (resolve_path_token (trim_space token) s) [
          | none ↦ err (plain unresolved_token)
          | some v ↦ expand fuel s (spliced before v after)
        ])
  ]
]

unfoldable pub interpolate_string : ℕ → State → String → Result String
unfolding expand
interpolate_string fuel s raw =
    if has_part "{{" (trim_space raw) && has_part "}}" (trim_space raw)
    then expand fuel s raw
    else ok raw

abbrev as_text : Result String → Result Value
as_text r = r >>= λ t. ok (str t)

abbrev resolved : Option Value → Result Value
resolved none = err (plain unresolved_token)
resolved (some v) = ok v

abbrev pub interpolate_text : ℕ → State → String → Result Value
interpolate_text fuel s raw = elim (single_template_token raw) [
  | some token ↦ resolved (resolve_path_token token s)
  | none ↦ as_text (interpolate_string fuel s raw)
]

unfoldable mutual
  pub interpolate_value : ℕ → State → Value → Result Value
  interpolate_value fuel s (str raw) = interpolate_text fuel s raw
  interpolate_value fuel s (obj m) = interpolate_fields fuel s m >>= λ n. ok (obj n)
  interpolate_value fuel s (arr vs) = interpolate_items fuel s vs >>= λ ws. ok (arr ws)
  interpolate_value fuel s v = ok v

  pub interpolate_fields : ℕ → State → Fields → Result Fields
  interpolate_fields fuel s end = ok end
  interpolate_fields fuel s (field k v m) =
      interpolate_value fuel s v >>= λ w. interpolate_fields fuel s m >>= λ n. ok (field k w n)

  pub interpolate_items : ℕ → State → Items → Result Items
  interpolate_items fuel s nil = ok nil
  interpolate_items fuel s (cons v vs) =
      interpolate_value fuel s v >>= λ w. interpolate_items fuel s vs >>= λ ws. ok (cons w ws)
