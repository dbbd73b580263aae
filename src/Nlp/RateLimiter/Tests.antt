-- ===== src/Nlp/RateLimiter/Tests.antt =====
-- The sliding-window limiter at concrete senders.
use ruriko.Prelude.{ℕ, ◌≤◌, String, List, [], ◌∷◌, ◌≡◌, refl, arith, length, keep, string_eq}
use ruriko.Prelude.GoMap.{empty, put}
use ruriko.Prelude.Int.{pos}
use ruriko.Nlp.RateLimiter.{RateLimiter, new_rate_limiter, allow, remaining}
use ruriko.Nlp.RateLimiter.Window.{granted_times, in_window, sliding_window}

abbrev limiter : RateLimiter
limiter = record { limit = 2; window = 10; counters = put empty "a" (3 ∷ 8 ∷ []) }

abbrev alice : String
alice = "a"

test_one_left : remaining 14 "a" limiter ≡ 1
unfolding remaining
test_one_left = refl

abbrev calls : List (ℕ × String)
calls = (1, "a") ∷ (2, "a") ∷ (3, "b") ∷ (4, "a") ∷ (13, "a") ∷ []

test_granted : granted_times "a" calls (new_rate_limiter (pos 2) (pos 10)) ≡ 1 ∷ 2 ∷ 13 ∷ []
unfolding granted_times new_rate_limiter allow
test_granted = refl

sliding_window_example :
    length (
      keep
        (in_window (new_rate_limiter (pos 2) (pos 10)).window 4)
        (granted_times "a" calls (new_rate_limiter (pos 2) (pos 10))))
    ≤ (new_rate_limiter (pos 2) (pos 10)).limit
sliding_window_example = sliding_window (pos 2) (pos 10) "a" calls 4 (omega arith)
