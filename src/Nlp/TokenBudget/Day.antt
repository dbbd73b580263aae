-- ===== src/Nlp/TokenBudget/Day.antt =====
-- The end of the day to which a sender's tokens are counted.
use ruriko.Prelude.{ℕ, ◌+◌, ◌%◌, ◌≤◌, ◌<◌, ◌≡◌, arith}
use ruriko.Nlp.TokenBudget.{next_midnight_utc, day}

-- The next midnight is later than now, by a day at most, and lies a whole number of days after Go's
-- zero time.
pub next_midnight_utc_lem :
    (now : ℕ)
    → (now < next_midnight_utc now)
      × (next_midnight_utc now ≤ now + day)
      × (next_midnight_utc now % day ≡ 0)
unfolding next_midnight_utc
next_midnight_utc_lem now = omega arith
