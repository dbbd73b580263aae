-- ===== src/RateLimit/FixedWindow.antt =====
-- common/ratelimit/fixed_window.go: fixed-window limits for each key. The webhook proxy and the
-- agents' event intake count with it. A time is a number of nanoseconds since Go's zero time, so 0
-- is the time for which `IsZero` holds. A count stays at most the limit, an `int`, so it is never
-- large enough to wrap.
mod Tests
pub mod Spec
pub mod Trace
use ruriko.Prelude.{
  ℕ, zero, suc, ◌+◌, ◌*◌, String, Bool, true, false, ◌||◌, Option, none, some, List, [], ◌∷◌, ltb,
  ◌==◌, nat_eq, string_eq, contains, if◌then◌else◌,
}
use ruriko.Prelude.GoMap.{GoMap, empty, put}
use ruriko.Prelude.Int.{ℤ, pos, negsuc, leb_ℤ}

pub record Bucket : Type 0 where
  pub count : ℕ
  pub reset_at : ℕ

pub record KeyedFixedWindow : Type 0 where
  pub window : ℕ
  pub buckets : GoMap Bucket

-- time.Minute
abbrev pub minute : ℕ
minute = 60_000_000_000

abbrev window_or_minute : ℤ → ℕ
window_or_minute (pos (suc n)) = suc n
window_or_minute (pos zero) = minute
window_or_minute (negsuc n) = minute

unfoldable pub new_keyed_fixed_window : ℤ → KeyedFixedWindow
new_keyed_fixed_window window = record { window = window_or_minute window; buckets = empty }

abbrev bucket_or_new : Option Bucket → Bucket
bucket_or_new none = record { count = 0; reset_at = 0 }
bucket_or_new (some b) = b

-- `b.resetAt.IsZero() || now.After(b.resetAt)`
abbrev pub is_over : ℕ → Bucket → Bool
is_over now b = b.reset_at == 0 || ltb b.reset_at now

abbrev refresh : ℕ → ℕ → Bucket → Bucket
refresh window now b = if is_over now b then record { count = 0; reset_at = now + window } else b

-- The first loop. It returns the buckets as it leaves them, and the keys seen, or `none` where it
-- returns false.
pub check_keys :
    ℕ → ℕ → ℤ → List String → List String → GoMap Bucket → GoMap Bucket × Option (List String)
check_keys window now limit seen [] m = (m, some seen)
check_keys window now limit seen (key ∷ keys) m =
    let b = refresh window now (bucket_or_new (m key)) in
    let skip = check_keys window now limit seen keys m in
    let go_on = check_keys window now limit (key ∷ seen) keys (put m key b) in
    if contains seen key
    then skip
    else if leb_ℤ limit (pos b.count)
    then (put m key b, none)
    else go_on

abbrev increment : GoMap Bucket → String → Option Bucket → GoMap Bucket
increment m key none = m
increment m key (some b) = put m key (record b { count = b.count + 1 })

-- The second loop. `seen` holds no key twice, so the order in which it is visited does not matter.
pub increment_all : List String → GoMap Bucket → GoMap Bucket
increment_all [] m = m
increment_all (key ∷ keys) m = increment_all keys (increment m key (m key))

finish : KeyedFixedWindow → GoMap Bucket × Option (List String) → KeyedFixedWindow × Bool
finish l (m, none) = (record l { buckets = m }, false)
finish l (m, some seen) = (record l { buckets = increment_all seen m }, true)

unfoldable pub allow_all : ℕ → ℤ → List String → KeyedFixedWindow → KeyedFixedWindow × Bool
unfolding finish
allow_all now limit [] l = (l, true)
allow_all now limit (key ∷ keys) l =
    if leb_ℤ limit (pos 0)
    then (l, true)
    else finish l (check_keys l.window now limit [] (key ∷ keys) l.buckets)

unfoldable pub allow : ℕ → ℤ → String → KeyedFixedWindow → KeyedFixedWindow × Bool
unfolding allow_all
allow now limit key l = allow_all now limit (key ∷ []) l
