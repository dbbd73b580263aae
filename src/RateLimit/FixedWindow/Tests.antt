-- ===== src/RateLimit/FixedWindow/Tests.antt =====
-- The fixed-window limiter at concrete calls.
use ruriko.Prelude.{
  ◌+◌, ◌≤◌, String, true, [], ◌∷◌, ◌&&◌, ◌≡◌, refl, arith, ltb, all, contains, if◌then◌else◌,
  string_eq,
}
use ruriko.Prelude.GoMap.{empty, put}
use ruriko.Prelude.Int.{pos}
use ruriko.RateLimit.FixedWindow.{
  Bucket, KeyedFixedWindow, minute, check_keys, increment_all, allow_all, allow,
  new_keyed_fixed_window,
}
use ruriko.RateLimit.FixedWindow.Spec.{used, allow_all_lem}
use ruriko.RateLimit.FixedWindow.Trace.{granted, granted-le-limit}

abbrev half_full : Bucket
half_full = record { count = 1; reset_at = 100 }

abbrev limiter : KeyedFixedWindow
limiter = record { window = 60; buckets = put empty "a" half_full }

test_one_left : (allow 50 (pos 2) "a" limiter).1 ≡ true
unfolding allow check_keys increment_all
test_one_left = refl

test_default_window : (new_keyed_fixed_window (pos 0)).window ≡ minute
unfolding new_keyed_fixed_window
test_default_window = refl

allow_all_lem_example :
    ((allow_all 50 (pos 2) ("a" ∷ "b" ∷ "a" ∷ []) limiter).1
      ≡ all (λ k. ltb (used 50 limiter.buckets k) 2) ("a" ∷ "b" ∷ "a" ∷ []))
    × ((k : String)
        → used 50 (allow_all 50 (pos 2) ("a" ∷ "b" ∷ "a" ∷ []) limiter).0.buckets k ≡ (
            if all (λ j. ltb (used 50 limiter.buckets j) 2) ("a" ∷ "b" ∷ "a" ∷ [])
              && contains ("a" ∷ "b" ∷ "a" ∷ []) k
            then used 50 limiter.buckets k + 1
            else used 50 limiter.buckets k))
allow_all_lem_example = allow_all_lem 50 1 limiter (omega arith) "a" ("b" ∷ "a" ∷ [])

granted-le-limit_example :
    granted (pos 2) "a" ((50, "a") ∷ (60, "b") ∷ (70, "a") ∷ []) limiter + 1 ≤ 2
granted-le-limit_example =
    granted-le-limit 1 "a" ((50, "a") ∷ (60, "b") ∷ (70, "a") ∷ []) limiter half_full refl
      (omega arith) (refl, (refl, (refl, tt)))
