-- ===== src/Policy/Order.antt =====
-- What the order of rules and constraints matters for, and what it does not.
use mathlib.Core.List.{Perm, Permᴰ}
use mathlib.Core.Logic.{∥∥₁_elim}
use ruriko.Prelude.{
  String, Bool, true, false, Option, none, some, List, [], ◌∷◌, ◌++◌, ◌≡◌, refl, sym, ◌∙◌, arith,
  any, if◌then◌else◌, Bool-cases, inl, inr,
}
use ruriko.Prelude.GoMap.{GoMap}
use ruriko.Gosuto.Types.{Capability, Config}
use ruriko.Policy.{
  Decision, Arg, Violation, check_constraint, check_constraints, matches, decide, evaluate_rules,
  evaluate,
}

abbrev is_some {ℓ} : {A : Type ℓ} → Option A → Bool
is_some none = false
is_some (some a) = true

-- A rule's name shows only in the text of a violation.
is_some-check_constraint :
    (rule base : Capability) (c : String × String) (args : GoMap Arg)
    → is_some (check_constraint rule args c) ≡ is_some (check_constraint base args c)
unfolding check_constraint
is_some-check_constraint rule base (key, expected) args = ground arith

violated-any :
    (rule base : Capability) (cs : List (String × String)) (args : GoMap Arg)
    → is_some (check_constraints rule cs args)
      ≡ any (λ c. is_some (check_constraint base args c)) cs
unfolding check_constraints
violated-any rule base [] args = refl
violated-any rule base (c ∷ cs) args =
    ground (arith, violated-any rule base cs args, is_some-check_constraint rule base c args)

any-Permᴰ {ℓ} : {A : Type ℓ} (p : A → Bool) {xs ys : List A} → Permᴰ xs ys → any p xs ≡ any p ys
any-Permᴰ p Permᴰ.nil = refl
any-Permᴰ p (Permᴰ.cons e r) = rw (e, any-Permᴰ p r) refl
any-Permᴰ p (Permᴰ.swap {a} {b} e f) = rw (← e, ← f) (ground arith)
any-Permᴰ p (Permᴰ.trans r s) = any-Permᴰ p r ∙ any-Permᴰ p s

decision-is_some :
    (rule : Capability) (cs : List (String × String)) (v w : Option Violation)
    → is_some v ≡ is_some w
    → (decide rule v).decision ≡ (decide (record rule { constraints = cs }) w).decision
unfolding decide
decision-is_some rule cs v w e = ground arith

-- The same rule, whose constraints Go may visit in another order.
abbrev SameRule : Capability → Capability → Type 0
SameRule r s = (record r { constraints = s.constraints } ≡ s) × Perm r.constraints s.constraints

abbrev pub SameRules : List Capability → List Capability → Type 0
SameRules [] [] = Unit
SameRules [] (s ∷ ss) = ⊥
SameRules (r ∷ rs) [] = ⊥
SameRules (r ∷ rs) (s ∷ ss) = SameRule r s × SameRules rs ss

Decision-set : IsSet Decision
Decision-set = hlevel

decide-perm :
    (r : Capability) (cs : List (String × String)) (args : GoMap Arg)
    → Perm r.constraints cs
    → (decide r (check_constraints r r.constraints args)).decision
      ≡ (decide
          (record r { constraints = cs })
          (check_constraints (record r { constraints = cs }) cs args)).decision
decide-perm r cs args p = ∥∥₁_elim p (Decision-set _ _) λ q.
    decision-is_some r cs (check_constraints r r.constraints args)
      (check_constraints (record r { constraints = cs }) cs args)
      (violated-any r r r.constraints args
        ∙ any-Permᴰ _ q
        ∙ sym (violated-any (record r { constraints = cs }) r cs args))

matches-constraints :
    (mcp_server tool : String) (r : Capability) (cs : List (String × String))
    → matches mcp_server tool (record r { constraints = cs }) ≡ matches mcp_server tool r
matches-constraints mcp_server tool r cs = refl

rules_in_any_order :
    (rs ss : List Capability) (mcp_server tool : String) (args : GoMap Arg)
    → SameRules rs ss
    → (evaluate_rules rs mcp_server tool args).decision
      ≡ (evaluate_rules ss mcp_server tool args).decision
unfolding evaluate_rules
rules_in_any_order [] [] m t args h = refl
rules_in_any_order [] (s ∷ ss) m t args h = elim h [ ]
rules_in_any_order (r ∷ rs) [] m t args h = elim h [ ]
rules_in_any_order (r ∷ rs) (s ∷ ss) m t args ((e, p), h) =
    rw (← e) (elim (Bool-cases (matches m t r)) [
      | inl q ↦ rw q (decide-perm r s.constraints args p)
      | inr q ↦ rw q (rules_in_any_order rs ss m t args h)
    ])

-- Go visits the constraints of a rule in an order that it does not fix. The decision does not
-- depend on that order, for any of the rules.
pub evaluate_in_any_order :
    (cfg : Config) (rules : List Capability) (mcp_server tool : String) (args : GoMap Arg)
    → SameRules cfg.capabilities rules
    → (evaluate (some cfg) mcp_server tool args).decision
      ≡ (evaluate (some (record cfg { capabilities = rules })) mcp_server tool args).decision
unfolding evaluate
evaluate_in_any_order cfg rules mcp_server tool args =
    rules_in_any_order cfg.capabilities rules mcp_server tool args

evaluate_rules-append :
    (rules more : List Capability) (mcp_server tool : String) (args : GoMap Arg)
    → evaluate_rules (rules ++ more) mcp_server tool args ≡ (
        if any (matches mcp_server tool) rules
        then evaluate_rules rules mcp_server tool args
        else evaluate_rules more mcp_server tool args)
unfolding evaluate_rules
evaluate_rules-append [] more mcp_server tool args = refl
evaluate_rules-append (r ∷ rules) more mcp_server tool args =
    elim (Bool-cases (matches mcp_server tool r)) [
      | inl e ↦ rw e refl
      | inr e ↦ rw e (evaluate_rules-append rules more mcp_server tool args)
    ]

-- Rules that stand behind others decide only the calls that no rule before them names.
pub evaluate-append :
    (cfg : Config) (more : List Capability) (mcp_server tool : String) (args : GoMap Arg)
    → evaluate (some (record cfg { capabilities = cfg.capabilities ++ more })) mcp_server tool args
      ≡ (if any (matches mcp_server tool) cfg.capabilities
          then evaluate (some cfg) mcp_server tool args
          else evaluate (some (record cfg { capabilities = more })) mcp_server tool args)
unfolding evaluate
evaluate-append cfg more mcp_server tool args =
    evaluate_rules-append cfg.capabilities more mcp_server tool args
