-- ===== src/Workflow/Template/Ends.antt =====
-- The loop of interpolateString ends when no value that it puts in has an opening brace.
use Prim.Native.String.{String}
use mathlib.Core.Path.{subst}
use ruriko.Prelude.{
  ℕ, zero, suc, ◌<◌, ◌≤◌, ◌≢◌, ◌||◌, ◌&&◌, some, ◌≡◌, arith, Bool-cases, Option-cases, inl, inr,
}
use ruriko.Prelude.Text.{append, is_empty, trim_space, has_part, cut}
use ruriko.Prelude.Text.Cuts.{occurrences, occurrences-append, occurrences-cut}
use ruriko.Json.{Value}
use ruriko.Workflow.State.{State, Result, ok, err, diverges}
use ruriko.Workflow.Template.{
  resolve_path_token, replacement, spliced, expand, finish, interpolate_string,
}

-- The character `{`.
abbrev pub braces : String → ℕ
braces s = occurrences 123 s

abbrev Ends : {A : Type 0} → Result A → Type 0
Ends (ok a) = Unit
Ends (err e) = Unit
Ends diverges = ⊥

abbrev pub HasPlainValues : State → Type 0
HasPlainValues s =
    (token : String) (v : Value) → resolve_path_token token s ≡ some v → braces (replacement v) ≡ 0

not_below : (n : ℕ) → n < 0 → ⊥
not_below n b = omega arith

finish-Ends : (out : String) → Ends (finish out)
finish-Ends out = elim (Bool-cases (has_part "{{" out || has_part "}}" out)) [
  | inl e ↦ rw (e, Ends) tt
  | inr e ↦ rw e tt
]

braces-spliced :
    (before rest token after out : String) (v : Value)
    → cut "{{" out ≡ some (before, rest)
    → cut "}}" rest ≡ some (token, after)
    → braces (replacement v) ≡ 0
    → suc (braces (spliced before v after)) ≤ braces out
braces-spliced before rest token after out v e f p = ground (
  arith,
  occurrences-cut 123 "{{" out before rest e,
  occurrences-cut 123 "}}" rest token after f,
  occurrences-append 123 before (append (replacement v) after),
  occurrences-append 123 (replacement v) after,
)

expand-Ends :
    (fuel : ℕ) (s : State) (out : String)
    → HasPlainValues s
    → braces out < fuel
    → Ends (expand fuel s out)
unfolding expand
expand-Ends zero s out h b = elim (not_below (braces out) b) [ ]
expand-Ends (suc fuel) s out h b = elim (Option-cases (cut "{{" out)) [
  | inl e ↦ rw (e, Ends) (finish-Ends out)
  | inr ((before, rest), e) ↦
      rw (e, Ends)
        (elim (Option-cases (cut "}}" rest)) [
          | inl f ↦ rw (f, Ends) tt
          | inr ((token, after), f) ↦
              rw (f, Ends)
                (elim (Bool-cases (is_empty (trim_space token))) [
                  | inl g ↦ rw (g, Ends) tt
                  | inr g ↦
                      rw (g, Ends)
                        (elim (Option-cases (resolve_path_token (trim_space token) s)) [
                          | inl r ↦ rw (r, Ends) tt
                          | inr (v, r) ↦
                              rw (r, Ends)
                                (expand-Ends fuel s (spliced before v after) h (
                                  ground (
                                    arith,
                                    braces-spliced before rest token after out v e f
                                        (h (trim_space token) v r),
                                  )))
                        ])
                ])
        ])
]

interpolate_string-Ends :
    (fuel : ℕ) (s : State) (raw : String)
    → HasPlainValues s
    → braces raw < fuel
    → Ends (interpolate_string fuel s raw)
unfolding interpolate_string
interpolate_string-Ends fuel s raw h b =
    elim (Bool-cases (has_part "{{" (trim_space raw) && has_part "}}" (trim_space raw))) [
      | inl e ↦ rw (e, Ends) (expand-Ends fuel s raw h b)
      | inr e ↦ rw (e, Ends) tt
    ]

-- If no value that a token stands for has an opening brace, the loop of interpolateString ends within as
-- many rounds as the template has opening braces.
pub interpolate_string-ends :
    (fuel : ℕ) (s : State) (raw : String)
    → HasPlainValues s
    → braces raw < fuel
    → interpolate_string fuel s raw ≢ diverges
interpolate_string-ends fuel s raw h b e = subst Ends e (interpolate_string-Ends fuel s raw h b)
