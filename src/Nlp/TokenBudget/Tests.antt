-- ===== src/Nlp/TokenBudget/Tests.antt =====
-- The token budget at concrete senders.
use ruriko.Prelude.{
  ℕ, ◌+◌, ◌%◌, ◌≤◌, ◌<◌, String, not, List, [], ◌∷◌, ◌≡◌, refl, arith, ◌==◌, if◌then◌else◌,
  string_eq,
}
use ruriko.Prelude.GoMap.{empty, put}
use ruriko.Prelude.Int.{ℤ, pos, leb_ℤ, ◌+ℤ◌}
use ruriko.Nlp.TokenBudget.{TokenBudget, remaining, used, new_token_budget, reset_if_needed}
use ruriko.Nlp.TokenBudget.Spend.{spent, serve, IsBelow, serve_bounded}

abbrev alice : String
alice = "a"

abbrev budget : TokenBudget
budget = record {
  budget = pos 100;
  usage = put empty "a" (record { tokens = pos 90; reset_at = 50 });
}

test_remaining : (remaining 40 "a" budget).1 ≡ pos 10
unfolding remaining reset_if_needed ◌+ℤ◌ ruriko.Prelude.Int.◌-ℤ◌
test_remaining = refl

test_next_day : (remaining 51 "a" budget).1 ≡ pos 100
unfolding remaining reset_if_needed
test_next_day = refl

ninety : spent 40 budget "a" ≡ pos 90
unfolding used reset_if_needed
ninety = refl

abbrev requests : List (ℕ × String × ℕ)
requests = (1, "a", 60) ∷ (2, "b", 50) ∷ (3, "a", 60) ∷ (4, "a", 60) ∷ []

serve_bounded_example : IsBelow 160 (spent 5 (serve requests (new_token_budget (pos 100))) "a")
serve_bounded_example =
    serve_bounded 100 60 (omega arith) (omega arith) requests 5 "a" (omega arith)
