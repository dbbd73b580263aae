-- ===== src/Workflow/Template/Loops.antt =====
-- A run of interpolateString that does not end: a value that is its own token.
use Prim.Native.String.{String}
use ruriko.Prelude.{ℕ, zero, suc, false, some, ◌≡◌, refl, ap, sym, ◌∙◌, arith}
use ruriko.Prelude.Text.{cut, append, is_empty, trim_space}
use ruriko.Prelude.Text.Cuts.{occurrences, cut-append, append_assoc, occurrences-append}
use ruriko.Json.{str}
use ruriko.Workflow.State.{State, diverges}
use ruriko.Workflow.Template.{resolve_path_token, spliced, expand, interpolate_string}

-- A template with one token.
abbrev template : String → String → String → String
template before token after = append before (append "{{" (append token (append "}}" after)))

abbrev own : String → String
own token = append "{{" (append token "}}")

spliced-own :
    (before token after : String)
    → spliced before (str (own token)) after ≡ template before token after
unfolding ruriko.Json.print
spliced-own before token after =
    ap (λ t. append before (append "{{" t)) (append_assoc token "}}" after)

opening :
    (before token after : String)
    → occurrences 123 before ≡ 0
    → cut "{{" (template before token after) ≡ some (before, append token (append "}}" after))
opening before token after b = cut-append "{" before (append token (append "}}" after)) b

closing :
    (before token after : String)
    → occurrences 125 before ≡ 0
    → occurrences 125 token ≡ 0
    → cut "}}" (template before token after) ≡ some (append before (append "{{" token), after)
closing before token after b t =
    ap (cut "}}") (sym (append_assoc before (append "{{" token) (append "}}" after)))
    ∙ cut-append "}" (append before (append "{{" token)) after
        (ground (arith, occurrences-append 125 before (append "{{" token), b, t))

expand-diverges :
    (fuel : ℕ) (s : State) (before token after : String)
    → occurrences 123 before ≡ 0
    → occurrences 125 token ≡ 0
    → trim_space token ≡ token
    → is_empty token ≡ false
    → resolve_path_token token s ≡ some (str (own token))
    → expand fuel s (template before token after) ≡ diverges
unfolding expand
expand-diverges zero s before token after b t trim full r = refl
expand-diverges (suc fuel) s before token after b t trim full r =
    rw (opening before token after b, expand)
      (rw (cut-append "}" token after t) (
        rw (trim, full, r)
          (ap (expand fuel s) (spliced-own before token after)
            ∙ expand-diverges fuel s before token after b t trim full r)))

-- A template whose only token stands for the text of this very token, in two braces, is expanded for ever:
-- interpolateString does not end, however many rounds it runs. No brace stands before the token.
pub interpolate_string-diverges :
    (fuel : ℕ) (s : State) (before token after : String)
    → occurrences 123 before ≡ 0
    → occurrences 125 before ≡ 0
    → occurrences 125 token ≡ 0
    → trim_space token ≡ token
    → is_empty token ≡ false
    → trim_space (template before token after) ≡ template before token after
    → resolve_path_token token s ≡ some (str (own token))
    → interpolate_string fuel s (template before token after) ≡ diverges
unfolding interpolate_string
interpolate_string-diverges fuel s before token after b c t trim full whole r =
    rw (whole, interpolate_string)
      (rw (opening before token after b) (
        rw (closing before token after c t)
          (expand-diverges fuel s before token after b t trim full r)))
