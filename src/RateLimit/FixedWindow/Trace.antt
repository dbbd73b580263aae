-- ===== src/RateLimit/FixedWindow/Trace.antt =====
-- What Allow guarantees over any sequence of calls, for any keys, within one window.
use ruriko.Prelude.{
  ℕ, suc, ◌+◌, ◌≤◌, ◌≡◌, String, Bool, false, ◌&&◌, some, List, [], ◌∷◌, arith, ltb, ◌==◌,
  string_eq, text_eq_iff, All, if◌then◌else◌, Bool-cases, Option-cases, inl, inr,
}
use ruriko.Prelude.Int.{ℤ, pos}
use ruriko.RateLimit.FixedWindow.{
  Bucket, KeyedFixedWindow, is_over, check_keys, increment_all, allow,
}

-- How often a sequence of calls, each a time and a key, is let through for `k`.
pub granted : ℤ → String → List (ℕ × String) → KeyedFixedWindow → ℕ
granted limit k [] l = 0
granted limit k ((now, key) ∷ calls) l =
    let rest = granted limit k calls (allow now limit key l).0 in
    if (allow now limit key l).1 && key == k then suc rest else rest

abbrev spend : ℕ → Bool → Bucket → Bucket
spend limit hit b = if hit && ltb b.count (suc limit) then record b { count = b.count + 1 } else b

-- One call while the window of `k` is in force.
allow-bucket :
    (now limit : ℕ) (key k : String) (b : Bucket) (l : KeyedFixedWindow)
    → l.buckets k ≡ some b
    → is_over now b ≡ false
    → (allow now (pos (suc limit)) key l).0.buckets k ≡ some (spend limit (key == k) b)
unfolding allow check_keys increment_all
allow-bucket now limit key k b l p q = elim (Option-cases (l.buckets key)) [
  | inl e ↦ rw e (ground (arith, text_eq_iff key k))
  | inr (c, e) ↦ rw e (ground (arith, text_eq_iff key k))
]

allow-granted :
    (now limit : ℕ) (key k : String) (b : Bucket) (l : KeyedFixedWindow)
    → l.buckets k ≡ some b
    → is_over now b ≡ false
    → ((allow now (pos (suc limit)) key l).1 && key == k) ≡ (key == k && ltb b.count (suc limit))
unfolding allow check_keys increment_all
allow-granted now limit key k b l p q = elim (Option-cases (l.buckets key)) [
  | inl e ↦ rw e (ground (arith, text_eq_iff key k))
  | inr (c, e) ↦ rw e (ground (arith, text_eq_iff key k))
]

AllInForce-spend :
    (limit : ℕ) (hit : Bool) (b : Bucket) (calls : List (ℕ × String))
    → All (λ (c : ℕ × String). is_over c.0 b ≡ false) calls
    → All (λ (c : ℕ × String). is_over c.0 (spend limit hit b) ≡ false) calls
AllInForce-spend limit hit b calls a = elim (Bool-cases (hit && ltb b.count (suc limit))) [
  | inl e ↦ rw e a
  | inr e ↦ rw e a
]

-- In one window a key is let through at most `limit` times, whatever other keys are counted
-- between: from a bucket whose window is in force at the times of all calls, the calls let through
-- and the count so far are together at most the limit.
pub granted-le-limit :
    (limit : ℕ) (k : String) (calls : List (ℕ × String)) (l : KeyedFixedWindow) (b : Bucket)
    → l.buckets k ≡ some b
    → b.count ≤ suc limit
    → All (λ (c : ℕ × String). is_over c.0 b ≡ false) calls
    → granted (pos (suc limit)) k calls l + b.count ≤ suc limit
unfolding granted
granted-le-limit limit k [] l b p h a = omega arith
granted-le-limit limit k ((now, key) ∷ calls) l b p h a =
    let rest =
      granted-le-limit limit k calls (allow now (pos (suc limit)) key l).0
        (spend limit (key == k) b) (allow-bucket now limit key k b l p a.0) (ground arith)
        (AllInForce-spend limit (key == k) b calls a.1) in
    rw (allow-granted now limit key k b l p a.0) (ground (arith, rest))
