-- ===== src/Gateway/Cron/Tests.antt =====
-- Ticks in a calendar of days and hours.
use ruriko.Prelude.{◌+◌, ◌*◌, ◌/◌, ◌%◌, some, [], ◌∷◌, ◌≡◌, refl, nat_eq}
use ruriko.Gateway.Cron.{
  Calendar, CronSchedule, cron, one_minute, search, matches, next, next_minute,
}
use ruriko.Gateway.Cron.First.{IsNext, next-IsNext}

abbrev calendar : Calendar
calendar = record {
  month = λ t. 1;
  day = λ t. t / (1440 * one_minute) % 31 + 1;
  weekday = λ t. t / (1440 * one_minute) % 7;
  hour = λ t. t / (60 * one_minute) % 24;
  minute = λ t. t / one_minute % 60;
}

-- "2,4 0 1 1 0"
abbrev schedule : CronSchedule
schedule = record {
  minute = 2 ∷ 4 ∷ [];
  hour = 0 ∷ [];
  day_of_month = 1 ∷ [];
  month = 1 ∷ [];
  day_of_week = 0 ∷ [];
}

test_search : search calendar schedule 3 (next_minute (one_minute + 5)) ≡ some (2 * one_minute)
unfolding search matches
test_search = refl

next-IsNext_example :
    IsNext calendar schedule (one_minute + 5) (next calendar (cron schedule) (one_minute + 5))
next-IsNext_example = next-IsNext calendar schedule (one_minute + 5)
