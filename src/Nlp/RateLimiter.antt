-- ===== src/Nlp/RateLimiter.antt =====
-- internal/ruriko/nlp/ratelimit.go: the calls that a sender made within a sliding window. A time is
-- a number of nanoseconds since Go's zero time.
mod Tests
pub mod Window
pub mod Quota
use ruriko.Prelude.{
  ℕ, zero, suc, ◌+◌, ◌-◌, String, Bool, true, false, Option, none, some, List, [], ◌∷◌, ◌++◌, ltb,
  leb, length, keep, if◌then◌else◌,
}
use ruriko.Prelude.GoMap.{GoMap, empty, put}
use ruriko.Prelude.Int.{ℤ, pos, negsuc}

pub record RateLimiter : Type 0 where
  pub limit : ℕ
  pub window : ℕ
  pub counters : GoMap (List ℕ)

abbrev pub default_rate_limit : ℕ
default_rate_limit = 20

-- time.Minute
abbrev pub default_rate_limit_window : ℕ
default_rate_limit_window = 60_000_000_000

abbrev positive_or : ℕ → ℤ → ℕ
positive_or d (pos (suc n)) = suc n
positive_or d (pos zero) = d
positive_or d (negsuc n) = d

unfoldable pub new_rate_limiter : ℤ → ℤ → RateLimiter
new_rate_limiter limit window = record {
  limit = positive_or default_rate_limit limit;
  window = positive_or default_rate_limit_window window;
  counters = empty;
}

-- Indexing a map of slices at a missing key gives a nil slice.
abbrev pub stamps_of : Option (List ℕ) → List ℕ
stamps_of none = []
stamps_of (some ts) = ts

-- `t.After(now.Add(-window))`, with the window moved to the other side: times before Go's zero time
-- are times too, so the subtraction does not stop there.
abbrev pub is_recent : ℕ → ℕ → ℕ → Bool
is_recent window now t = ltb now (t + window)

unfoldable pub allow : ℕ → String → RateLimiter → RateLimiter × Bool
allow now sender r =
    let valid = keep (is_recent r.window now) (stamps_of (r.counters sender)) in
    if leb r.limit (length valid)
    then (record r { counters = put r.counters sender valid }, false)
    else (record r { counters = put r.counters sender (valid ++ now ∷ []) }, true)

-- `r.limit - count`, and 0 where that is negative, is subtraction that stops at 0.
unfoldable pub remaining : ℕ → String → RateLimiter → ℕ
remaining now sender r =
    r.limit - length (keep (is_recent r.window now) (stamps_of (r.counters sender)))
