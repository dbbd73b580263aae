-- ===== src/Commands/Router/Reserved.antt =====
-- Flags that only the program itself may set.
use Prim.Native.String.{String}
use ruriko.Prelude.{
  true, none, List, [], ◌∷◌, ◌≡◌, refl, ap, arith, ◌==◌, string_eq, text_eq_iff, if◌then◌else◌,
  Bool-cases, Option-cases, inl, inr,
}
use ruriko.Prelude.GoMap.{GoMap}
use ruriko.Prelude.Text.{cut_prefix, has_prefix, trim_space, is_empty}
use ruriko.Commands.Router.{
  Command, Parts, Result, ok, err, walk, build, parse, set_flag, no_parts, then_build,
  tokenize_command, get_flag,
}

-- No flag of a reserved name is set.
abbrev NoReserved : GoMap String → Type 0
NoReserved flags = (k : String) → has_prefix "_" k ≡ true → flags k ≡ none

NoReserved-set_flag :
    (p : Parts) (name value : String)
    → NoReserved p.flags
    → NoReserved (if has_prefix "_" name then p else set_flag p name value).flags
NoReserved-set_flag p name value h = elim (Bool-cases (has_prefix "_" name)) [
  | inl e ↦ rw e h
  | inr e ↦ rw e (λ k r. elim (Bool-cases (name == k)) [
    | inl q ↦ absurd (ground (arith, e, r, ap (has_prefix "_") ((text_eq_iff name k).0 q)))
    | inr q ↦ rw q (h k r)
  ])
]

NoReserved-walk :
    (parts : List String) (p : Parts) → NoReserved p.flags → NoReserved (walk parts p).flags
unfolding walk
NoReserved-walk [] p h = h
NoReserved-walk (part ∷ []) p h = elim (Option-cases (cut_prefix "--" part)) [
  | inl e ↦ rw (e, walk) h
  | inr (name, e) ↦ rw (e, walk) (NoReserved-set_flag p name "true" h)
]
NoReserved-walk (part ∷ next ∷ rest) p h = elim (Option-cases (cut_prefix "--" part)) [
  | inl e ↦ rw (e, walk) (NoReserved-walk (next ∷ rest) _ h)
  | inr (name, e) ↦
      rw (e, walk)
        (elim (Bool-cases (has_prefix "--" next)) [
          | inl q ↦ rw q (NoReserved-walk (next ∷ rest) _ (NoReserved-set_flag p name "true" h))
          | inr q ↦ rw q (NoReserved-walk rest _ (NoReserved-set_flag p name next h))
        ])
]

-- The command is clean if there is one.
abbrev IsClean : Result Command → Type 0
IsClean (ok cmd) = NoReserved cmd.flags
IsClean (err e) = Unit

IsClean-build : (text : String) (parts : List String) → IsClean (build text parts)
unfolding build
IsClean-build text [] = tt
IsClean-build text (name ∷ []) = λ k r. refl
IsClean-build text (name ∷ second ∷ rest) = elim (Bool-cases (has_prefix "-" second)) [
  | inl e ↦ rw e (NoReserved-walk (second ∷ rest) no_parts (λ k r. refl))
  | inr e ↦ rw e (NoReserved-walk rest no_parts (λ k r. refl))
]

IsClean-then_build :
    (text : String) (parts : Result (List String)) → IsClean (then_build text parts)
IsClean-then_build text (ok parts) = IsClean-build text parts
IsClean-then_build text (err e) = tt

IsClean-parse : (prefix text : String) → IsClean (parse prefix text)
unfolding parse
IsClean-parse prefix text = elim (Option-cases (cut_prefix prefix (trim_space text))) [
  | inl e ↦ rw e tt
  | inr (rest, e) ↦ rw e (elim (Bool-cases (is_empty (trim_space rest))) [
    | inl q ↦ rw q tt
    | inr q ↦ rw q (IsClean-then_build (trim_space rest) (tokenize_command (trim_space rest)))
  ])
]

-- Whatever the text of a message, no flag of the command that it becomes has a name that starts with
-- `_`, so a message cannot carry the mark of an approved command.
pub flags-parse :
    (prefix text : String) {cmd : Command} (name : String)
    → parse prefix text ≡ ok cmd
    → has_prefix "_" name ≡ true
    → (cmd.flags name ≡ none) × (get_flag cmd "_approved" "" ≡ "")
unfolding get_flag
flags-parse prefix text {cmd} name e r =
    let clean : NoReserved cmd.flags = rw e at (IsClean-parse prefix text) in
    (clean name r, rw (clean "_approved" refl) refl)
