-- ===== src/Nlp/TokenBudget.antt =====
-- internal/ruriko/nlp/tokenbudget.go: the language-model tokens that a sender may use in one UTC
-- day. A time is a number of nanoseconds since Go's zero time, which is a midnight.
mod Tests
pub mod Spend
pub mod Day
use ruriko.Prelude.{
  ℕ, zero, suc, ◌+◌, ◌*◌, ◌/◌, String, Bool, true, false, not, Option, none, some, ltb,
  if◌then◌else◌,
}
use ruriko.Prelude.GoMap.{GoMap, empty, put, delete}
use ruriko.Prelude.Int.{ℤ, pos, negsuc, leb_ℤ, ◌+ℤ◌, ◌-ℤ◌}

pub record SenderDailyUsage : Type 0 where
  pub tokens : ℤ
  pub reset_at : ℕ

pub record TokenBudget : Type 0 where
  pub budget : ℤ
  pub usage : GoMap SenderDailyUsage

abbrev pub default_token_budget : ℕ
default_token_budget = 50_000

abbrev budget_or_default : ℤ → ℤ
budget_or_default (pos (suc n)) = pos (suc n)
budget_or_default (pos zero) = pos default_token_budget
budget_or_default (negsuc n) = pos default_token_budget

unfoldable pub new_token_budget : ℤ → TokenBudget
new_token_budget daily = record { budget = budget_or_default daily; usage = empty }

-- 24 hours.
abbrev pub day : ℕ
day = 86_400_000_000_000

-- `time.Date(year, month, day + 1, 0, 0, 0, 0, time.UTC)` of a time in UTC.
unfoldable pub next_midnight_utc : ℕ → ℕ
next_midnight_utc now = (now / day + 1) * day

-- `now.After(u.resetAt)`; a sender with no entry has nothing to reset.
abbrev pub is_past : ℕ → Option SenderDailyUsage → Bool
is_past now none = false
is_past now (some u) = ltb u.reset_at now

unfoldable pub reset_if_needed : ℕ → String → TokenBudget → TokenBudget
reset_if_needed now sender tb =
    if is_past now (tb.usage sender) then record tb { usage = delete tb.usage sender } else tb

abbrev allowed_by : ℤ → Option SenderDailyUsage → Bool
allowed_by budget none = true
allowed_by budget (some u) = not (leb_ℤ budget u.tokens)

unfoldable pub allow : ℕ → String → TokenBudget → TokenBudget × Bool
allow now sender tb =
    let tb' = reset_if_needed now sender tb in (tb', allowed_by tb'.budget (tb'.usage sender))

abbrev usage_or_new : ℕ → Option SenderDailyUsage → SenderDailyUsage
usage_or_new later none = record { tokens = pos 0; reset_at = next_midnight_utc later }
usage_or_new later (some u) = u

-- The clock is read twice: `now` by resetIfNeeded, and `later` by nextMidnightUTC.
unfoldable pub record_usage : ℕ → ℕ → String → ℤ → TokenBudget → TokenBudget
record_usage now later sender tokens tb =
    let tb' = reset_if_needed now sender tb in
    let u = usage_or_new later (tb'.usage sender) in
    record tb' { usage = put tb'.usage sender (record u { tokens = u.tokens +ℤ tokens }) }

abbrev remaining_of : ℤ → Option SenderDailyUsage → ℤ
remaining_of budget none = budget
remaining_of budget (some u) =
    let rem = budget -ℤ u.tokens in if leb_ℤ rem (pos 0) then pos 0 else rem

unfoldable pub remaining : ℕ → String → TokenBudget → TokenBudget × ℤ
remaining now sender tb =
    let tb' = reset_if_needed now sender tb in (tb', remaining_of tb'.budget (tb'.usage sender))

abbrev pub used_of : Option SenderDailyUsage → ℤ
used_of none = pos 0
used_of (some u) = u.tokens

unfoldable pub used : ℕ → String → TokenBudget → TokenBudget × ℤ
used now sender tb = let tb' = reset_if_needed now sender tb in (tb', used_of (tb'.usage sender))
