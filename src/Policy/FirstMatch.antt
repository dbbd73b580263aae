-- ===== src/Policy/FirstMatch.antt =====
-- The decision is that of the first rule that matches.
use mathlib.Core.Path.{subst}
use mathlib.Core.Bool.{false≢true}
use text.Mathlib.Text.{starts_with}
use ruriko.Prelude.{
  String, text_eq_iff, sym, true, false, Option, none, some, List, [], ◌∷◌, ◌≡◌, ◌≢◌, ◌↔◌, refl,
  arith, ◌==◌, string_eq, All, Bool-cases, Option-cases, inl, inr, ◌∙◌,
}
use ruriko.Prelude.GoMap.{GoMap}
use ruriko.Gosuto.Types.{Capability, Config}
use ruriko.Policy.{
  Decision, allow, require_approval, deny, Arg, str, other, printed, Violation, check_constraint,
  check_constraints, matches, decide, evaluate_rules, evaluate, check_prefix, check_equal,
}

-- `rule` is the first rule that names the server and the tool.
pub data FirstMatch (mcp_server tool : String) (rule : Capability) : List Capability → Type 0 where
  here :
      {first : Capability} {rest : List Capability}
      → rule ≡ first
      → matches mcp_server tool first ≡ true
      → FirstMatch mcp_server tool rule (first ∷ rest)
  later :
      {first : Capability} {rest : List Capability}
      → matches mcp_server tool first ≡ false
      → FirstMatch mcp_server tool rule rest
      → FirstMatch mcp_server tool rule (first ∷ rest)

-- An argument satisfies a constraint: a string `url` starts with the prefix, and any other argument
-- is printed as the text expected. An argument that is absent is not constrained.
abbrev HasPrefix : String → Option Arg → Type 0
HasPrefix expected none = Unit
HasPrefix expected (some (str url)) = starts_with url expected ≡ true
HasPrefix expected (some (other s)) = Unit

abbrev IsPrinted : String → Option Arg → Type 0
IsPrinted expected none = Unit
IsPrinted expected (some arg) = printed arg ≡ expected

abbrev pub Satisfies : GoMap Arg → String × String → Type 0
Satisfies args (key, expected) =
    ((key ≡ "url_prefix") → HasPrefix expected (args "url"))
    × ((key ≢ "url_prefix") → IsPrinted expected (args key))

check_prefix-none :
    (rule : Capability) (key expected : String) (o : Option Arg)
    → (check_prefix rule key expected o ≡ none) ↔ HasPrefix expected o
unfolding check_prefix
check_prefix-none rule key expected none = (λ e. tt, λ h. refl)
check_prefix-none rule key expected (some (str url)) = ground arith
check_prefix-none rule key expected (some (other s)) = (λ e. tt, λ h. refl)

check_equal-none :
    (rule : Capability) (key expected : String) (o : Option Arg)
    → (check_equal rule key expected o ≡ none) ↔ IsPrinted expected o
unfolding check_equal
check_equal-none rule key expected none = (λ e. tt, λ h. refl)
check_equal-none rule key expected (some arg) = ground (arith, text_eq_iff (printed arg) expected)

check_constraint-none :
    (rule : Capability) (args : GoMap Arg) (key expected : String)
    → (check_constraint rule args (key, expected) ≡ none) ↔ Satisfies args (key, expected)
unfolding check_constraint
check_constraint-none rule args key expected =
    let iff = text_eq_iff key "url_prefix" in
    let p = check_prefix-none rule key expected (args "url") in
    let q = check_equal-none rule key expected (args key) in
    elim (Bool-cases (key == "url_prefix")) [
      | inl e ↦ rw e (λ h. (λ _. p.0 h, λ n. absurd (n (iff.0 e))), λ h. p.1 (h.0 (iff.0 e)))
      | inr e ↦ rw e (
        λ h. (λ k. absurd (false≢true (sym e ∙ iff.1 k)), λ _. q.0 h),
        λ h. q.1 (h.1 (λ k. false≢true (sym e ∙ iff.1 k))),
      )
    ]

some≢none : (v : Violation) → some v ≢ none
some≢none v e = cc

check_constraints-none :
    (rule : Capability) (cs : List (String × String)) (args : GoMap Arg)
    → (check_constraints rule cs args ≡ none) ↔ All (Satisfies args) cs
unfolding check_constraints
check_constraints-none rule [] args = (λ e. tt, λ h. refl)
check_constraints-none rule ((key, expected) ∷ rest) args =
    let first = check_constraint-none rule args key expected in
    let more = check_constraints-none rule rest args in
    elim (Option-cases (check_constraint rule args (key, expected))) [
      | inl e ↦ rw e (λ h. (first.0 e, more.0 h), λ h. more.1 h.1)
      | inr (v, e) ↦ rw e (λ h. cc, λ h. absurd (some≢none v (sym e ∙ first.1 h.0)))
    ]

-- The rule lets the call through, at once or after an approval.
abbrev pub Grants : Decision → Capability → Type 0
Grants allow rule = (rule.allow ≡ true) × (rule.require_approval ≡ false)
Grants require_approval rule = (rule.allow ≡ true) × (rule.require_approval ≡ true)
Grants deny rule = ⊥

decide-Grants :
    (d : Decision) (rule : Capability) (v : Option Violation)
    → d ≢ deny
    → ((decide rule v).decision ≡ d) ↔ ((v ≡ none) × Grants d rule)
unfolding decide
decide-Grants allow rule none n = ground arith
decide-Grants allow rule (some v) n = ground arith
decide-Grants require_approval rule none n = ground arith
decide-Grants require_approval rule (some v) n = ground arith
decide-Grants deny rule v n = absurd (n refl)

-- The first rule that matches grants the call, and the arguments satisfy all its constraints.
abbrev pub Granted : Decision → String → String → GoMap Arg → List Capability → Type 0
Granted d mcp_server tool args rules =
    (rule : Capability) × FirstMatch mcp_server tool rule rules
    × All (Satisfies args) rule.constraints
    × Grants d rule

granted_here :
    (d : Decision) (mcp_server tool : String) (args : GoMap Arg) (rule first : Capability)
    (rest : List Capability)
    → matches mcp_server tool first ≡ true
    → FirstMatch mcp_server tool rule (first ∷ rest)
    → All (Satisfies args) rule.constraints × Grants d rule
    → All (Satisfies args) first.constraints × Grants d first
granted_here d mcp_server tool args rule first rest m (here e _) h =
    subst (λ (c : Capability). All (Satisfies args) c.constraints × Grants d c) e h
granted_here d mcp_server tool args rule first rest m (later n f) h =
    absurd (false≢true (sym n ∙ m))

granted_later :
    (mcp_server tool : String) (rule first : Capability) (rest : List Capability)
    → matches mcp_server tool first ≡ false
    → FirstMatch mcp_server tool rule (first ∷ rest)
    → FirstMatch mcp_server tool rule rest
granted_later mcp_server tool rule first rest m (here _ y) = absurd (false≢true (sym m ∙ y))
granted_later mcp_server tool rule first rest m (later n f) = f

evaluate_rules-Granted :
    (d : Decision) (rules : List Capability) (mcp_server tool : String) (args : GoMap Arg)
    → d ≢ deny
    → ((evaluate_rules rules mcp_server tool args).decision ≡ d)
      ↔ Granted d mcp_server tool args rules
unfolding evaluate_rules
evaluate_rules-Granted d [] mcp_server tool args n =
    (λ e. absurd (n (sym e)), λ (rule, f, h, g). elim f [ ])
evaluate_rules-Granted d (rule ∷ rest) mcp_server tool args n =
    let more = evaluate_rules-Granted d rest mcp_server tool args n in
    let mine = decide-Grants d rule (check_constraints rule rule.constraints args) n in
    let kept = check_constraints-none rule rule.constraints args in
    elim (Bool-cases (matches mcp_server tool rule)) [
      | inl m ↦ rw m (
        λ e. (rule, here refl m, kept.0 (mine.0 e).0, (mine.0 e).1),
        λ (chosen, f, h, g).
            let (h', g') = granted_here d mcp_server tool args chosen rule rest m f (h, g) in
            mine.1 (kept.1 h', g'),
      )
      | inr m ↦ rw m (
        λ e. let (chosen, f, h, g) = more.0 e in (chosen, later m f, h, g),
        λ (chosen, f, h, g).
            more.1 (chosen, granted_later mcp_server tool chosen rule rest m f, h, g),
      )
    ]

-- A call is allowed, or needs approval, exactly if the first capability rule that names its server
-- and its tool says so and each constraint of that rule is satisfied by the arguments. Without a
-- configuration every call is denied.
pub evaluate-FirstMatch :
    (cfg : Config) (mcp_server tool : String) (args : GoMap Arg)
    → (((evaluate (some cfg) mcp_server tool args).decision ≡ allow)
        ↔ Granted allow mcp_server tool args cfg.capabilities)
      × (((evaluate (some cfg) mcp_server tool args).decision ≡ require_approval)
          ↔ Granted require_approval mcp_server tool args cfg.capabilities)
      × ((evaluate none mcp_server tool args).decision ≡ deny)
unfolding evaluate
evaluate-FirstMatch cfg mcp_server tool args = (
  evaluate_rules-Granted allow cfg.capabilities mcp_server tool args (λ e. cc),
  evaluate_rules-Granted require_approval cfg.capabilities mcp_server tool args (λ e. cc),
  refl,
)
