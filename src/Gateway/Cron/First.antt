-- ===== src/Gateway/Cron/First.antt =====
-- Next is the first match.
use mathlib.Core.Bool.{false≢true}
use ruriko.Prelude.{
  List, [], ◌∷◌, ◌↔◌, contains, nat_eq, sym, ℕ, zero, suc, ◌+◌, ◌*◌, ◌%◌, ◌≤◌, ◌<◌, true, false,
  Option, none, some, ◌≡◌, ap, ◌∙◌, arith, Bool-cases, inl, inr, ◌⊎◌,
}
use ruriko.Gateway.Cron.{
  Calendar, CronSchedule, cron, one_minute, horizon, matches, search, next_minute, next_tick, next,
}

same_or_later :
    (t u : ℕ) → t % one_minute ≡ 0 → t ≤ u → u % one_minute ≡ 0 → (u ≡ t) ⊎ (t + one_minute ≤ u)
same_or_later t u z l v = omega (arith, z, l, v)

next_is_start : (t : ℕ) → t % one_minute ≡ 0 → (t + one_minute) % one_minute ≡ 0
next_is_start t z = omega (arith, z)

no_start_between : (now u : ℕ) → suc now ≤ u → u % one_minute ≡ 0 → next_minute now ≤ u
no_start_between now u l v = omega (arith, l, v)

covered : (now u : ℕ) → u < now + horizon * one_minute → u < next_minute now + horizon * one_minute
covered now u k = omega (arith, k)

behind : (now r : ℕ) → next_minute now ≤ r → now < r
behind now r l = omega (arith, l)

starts : (now : ℕ) → next_minute now % one_minute ≡ 0
starts now = omega arith

-- The value is one of the list.
abbrev Has : List ℕ → ℕ → Type 0
Has [] v = ⊥
Has (x ∷ xs) v = (x ≡ v) ⊎ Has xs v

contains-Has : (xs : List ℕ) (v : ℕ) → (contains xs v ≡ true) ↔ Has xs v
contains-Has [] v = ground arith
contains-Has (x ∷ xs) v = ground (arith, contains-Has xs v)

-- What a cron expression says of a time, field by field.
abbrev pub Matches : Calendar → CronSchedule → ℕ → Type 0
Matches cal s t =
    Has s.month (cal.month t)
    × (Has s.day_of_month (cal.day t)
        × (Has s.day_of_week (cal.weekday t)
            × (Has s.hour (cal.hour t) × Has s.minute (cal.minute t))))

matches-Matches :
    (cal : Calendar) (s : CronSchedule) (t : ℕ) → (matches cal s t ≡ true) ↔ Matches cal s t
unfolding matches
matches-Matches cal s t = ground (
  arith,
  contains-Has s.month (cal.month t),
  contains-Has s.day_of_month (cal.day t),
  contains-Has s.day_of_week (cal.weekday t),
  contains-Has s.hour (cal.hour t),
  contains-Has s.minute (cal.minute t),
)

module _ (cal : Calendar) (s : CronSchedule) where
  -- No start of a minute from `a` on and before `b` passes the test.
  abbrev NoMatch : ℕ → ℕ → Type 0
  NoMatch a b = (u : ℕ) → a ≤ u → u < b → u % one_minute ≡ 0 → matches cal s u ≡ false

  -- What a search of `n` minutes from `t` on finds.
  abbrev IsFirst : ℕ → ℕ → Option ℕ → Type 0
  IsFirst n t none = NoMatch t (t + n * one_minute)
  IsFirst n t (some r) = (t ≤ r) × (r % one_minute ≡ 0) × (matches cal s r ≡ true) × NoMatch t r

  earlier :
      (t b : ℕ)
      → t % one_minute ≡ 0
      → matches cal s t ≡ false
      → NoMatch (t + one_minute) b
      → NoMatch t b
  earlier t b z m h u l k v = elim (same_or_later t u z l v) [
    | inl e ↦ ap (matches cal s) e ∙ m
    | inr g ↦ h u g k v
  ]

  IsFirst-later :
      (n t : ℕ) (o : Option ℕ)
      → t % one_minute ≡ 0
      → matches cal s t ≡ false
      → IsFirst n (t + one_minute) o
      → IsFirst (suc n) t o
  IsFirst-later n t none z m h = λ u l k v.
      earlier t (t + suc n * one_minute) z m (λ u l k v. h u l (omega (arith, k)) v) u l k v
  IsFirst-later n t (some r) z m (l, v, e, h) = (omega (arith, l), v, e, earlier t r z m h)

  search-IsFirst : (n t : ℕ) → t % one_minute ≡ 0 → IsFirst n t (search cal s n t)
  unfolding search
  search-IsFirst zero t z = λ u l k v. absurd (omega (arith, l, k))
  search-IsFirst (suc n) t z = elim (Bool-cases (matches cal s t)) [
    | inl m ↦ rw m (omega arith, z, m, λ u l k v. absurd (omega (arith, l, k)))
    | inr m ↦ rw m (IsFirst-later n t _ z m (search-IsFirst n (t + one_minute) (next_is_start t z)))
  ]

  -- No start of a minute from `a` on and before `b` matches.
  abbrev pub MatchesNot : ℕ → ℕ → Type 0
  MatchesNot a b = (u : ℕ) → a ≤ u → u < b → u % one_minute ≡ 0 → ¬ Matches cal s u

  -- What Next finds behind `now`.
  abbrev pub IsNext : ℕ → Option ℕ → Type 0
  IsNext now none = MatchesNot (suc now) (now + horizon * one_minute)
  IsNext now (some r) = (now < r) × (r % one_minute ≡ 0) × Matches cal s r × MatchesNot (suc now) r

  from_now : (now b : ℕ) → NoMatch (next_minute now) b → MatchesNot (suc now) b
  from_now now b h u l k v m =
      false≢true (sym (h u (no_start_between now u l v) k v) ∙ (matches-Matches cal s u).1 m)

  IsNext-first : (now : ℕ) (o : Option ℕ) → IsFirst horizon (next_minute now) o → IsNext now o
  IsNext-first now none h = λ u l k v. from_now now _ h u l (covered now u k) v
  IsNext-first now (some r) (l, v, e, h) =
      (behind now r l, v, (matches-Matches cal s r).0 e, from_now now r h)

  -- Next of a cron schedule is the first start of a minute after `now` that matches the schedule, in any
  -- calendar. If it finds none, no start of a minute in the 366 days behind `now` matches.
  pub next-IsNext : (now : ℕ) → IsNext now (next cal (cron s) now)
  unfolding next next_tick
  next-IsNext now = IsNext-first now _ (search-IsFirst horizon (next_minute now) (starts now))
