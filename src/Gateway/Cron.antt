-- ===== src/Gateway/Cron.antt =====
-- internal/gitai/gateway/cron.go: when a cron job fires next. A time is a number of nanoseconds since
-- Go's zero time. What the calendar of the job's time zone says of a time is a parameter, since the time
-- zone is data of the system; the zero time that stands for no tick is `none`.
pub mod First
mod Tests
use ruriko.Prelude.{
  ℕ, zero, suc, ◌+◌, ◌*◌, ◌/◌, Bool, true, false, ◌&&◌, Option, none, some, List, [], ◌∷◌, ◌==◌,
  nat_eq, if◌then◌else◌, contains,
}

pub record Calendar : Type 0 where
  pub month : ℕ → ℕ
  pub day : ℕ → ℕ
  pub weekday : ℕ → ℕ
  pub hour : ℕ → ℕ
  pub minute : ℕ → ℕ

pub record CronSchedule : Type 0 where
  pub minute : List ℕ
  pub hour : List ℕ
  pub day_of_month : List ℕ
  pub month : List ℕ
  pub day_of_week : List ℕ

pub data Schedule : Type 0 where
  cron : CronSchedule → Schedule
  interval : ℕ → Schedule

abbrev pub one_minute : ℕ
one_minute = 60000000000

-- The minutes that the search covers.
abbrev pub horizon : ℕ
horizon = 366 * 24 * 60

unfoldable pub matches : Calendar → CronSchedule → ℕ → Bool
matches cal s t =
    contains s.month (cal.month t)
    && contains s.day_of_month (cal.day t)
    && contains s.day_of_week (cal.weekday t)
    && contains s.hour (cal.hour t)
    && contains s.minute (cal.minute t)

-- The loop, with the minutes that are left.
unfoldable pub search : Calendar → CronSchedule → ℕ → ℕ → Option ℕ
search cal s zero t = none
search cal s (suc left) t =
    let rest = search cal s left (t + one_minute) in if matches cal s t then some t else rest

-- The start of the next minute.
abbrev pub next_minute : ℕ → ℕ
next_minute now = (now + one_minute) / one_minute * one_minute

unfoldable pub next_tick : Calendar → CronSchedule → ℕ → Option ℕ
next_tick cal s now = search cal s horizon (next_minute now)

abbrev next_interval : ℕ → ℕ → Option ℕ
next_interval zero now = none
next_interval (suc every) now = some (now + suc every)

-- Next, of either kind of schedule.
unfoldable pub next : Calendar → Schedule → ℕ → Option ℕ
next cal (cron s) now = next_tick cal s now
next cal (interval every) now = next_interval every now
