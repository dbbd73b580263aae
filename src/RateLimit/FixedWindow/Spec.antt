-- ===== src/RateLimit/FixedWindow/Spec.antt =====
-- What AllowAll promises, seen through the count that is in force for each key.
use ruriko.Prelude.{
  ℕ, suc, ◌+◌, ◌<◌, ◌≡◌, refl, String, Bool, true, false, ◌||◌, ◌&&◌, Option, none, some, List, [],
  ◌∷◌, arith, ltb, leb, ap, text_eq_refl, not, ◌⊎◌, Option-cases, ◌∙◌, ◌==◌, nat_eq, string_eq,
  contains, all, if◌then◌else◌, text_eq_iff, Bool-cases, inl, inr,
}
use ruriko.Prelude.GoMap.{GoMap, put}
use ruriko.Prelude.Int.{pos}
use ruriko.RateLimit.FixedWindow.{
  Bucket, KeyedFixedWindow, is_over, refresh, bucket_or_new, increment, check_keys, increment_all,
  finish, allow_all,
}

abbrev pub used_of : ℕ → Option Bucket → ℕ
used_of now none = 0
used_of now (some b) = if is_over now b then 0 else b.count

-- The calls that count against a key at a time: none once its window is over.
abbrev pub used : ℕ → GoMap Bucket → String → ℕ
used now m k = used_of now (m k)

-- Starting a window for a key that has none in force leaves its count at 0.
used-refresh :
    (window now : ℕ) (key k : String) (m : GoMap Bucket)
    → used now (put m key (refresh window now (bucket_or_new (m key)))) k ≡ used now m k
used-refresh window now key k m = elim (Option-cases (m key)) [
  | inl p ↦ rw p (ground (arith, text_eq_iff key k))
  | inr (b, p) ↦ rw p (ground (arith, text_eq_iff key k))
]

count-refresh :
    (window now : ℕ) (o : Option Bucket)
    → (refresh window now (bucket_or_new o)).count ≡ used_of now o
count-refresh window now none = ground arith
count-refresh window now (some b) = ground arith

-- The first loop changes no count that is in force.
used-check_keys :
    (window now limit : ℕ) (seen keys : List String) (m : GoMap Bucket) (k : String)
    → used now (check_keys window now (pos limit) seen keys m).0 k ≡ used now m k
unfolding check_keys
used-check_keys window now limit seen [] m k = refl
used-check_keys window now limit seen (key ∷ keys) m k =
    let m' : GoMap Bucket = put m key (refresh window now (bucket_or_new (m key))) in
    elim (Bool-cases (contains seen key)) [
      | inl p ↦ rw p (used-check_keys window now limit seen keys m k)
      | inr p ↦
          rw p (elim (Bool-cases (leb limit (refresh window now (bucket_or_new (m key))).count)) [
            | inl q ↦ rw q (used-refresh window now key k m)
            | inr q ↦ rw q (
                used-check_keys window now limit (key ∷ seen) keys m' k
                ∙ used-refresh window now key k m)
          ])
    ]

abbrev is_some {ℓ} : {A : Type ℓ} → Option A → Bool
is_some none = false
is_some (some a) = true

-- The keys seen so far have a call left, and so has the one that joins them.
seen_below :
    (u : String → ℕ) (limit : ℕ) (seen : List String) (key : String)
    → ((k : String) → contains seen k ≡ true → ltb (u k) limit ≡ true)
    → ltb (u key) limit ≡ true
    → (k : String) → contains (key ∷ seen) k ≡ true
    → ltb (u k) limit ≡ true
seen_below u limit seen key hs h k c = elim (Bool-cases (key == k)) [
  | inl e ↦ rw (← (text_eq_iff key k).0 e) h
  | inr e ↦ hs k (rw e at c)
]

-- The first loop succeeds exactly if every key has a call left.
check_keys_decides :
    (window now limit : ℕ) (u : String → ℕ) (seen keys : List String) (m : GoMap Bucket)
    → ((k : String) → used now m k ≡ u k)
    → ((k : String) → contains seen k ≡ true → ltb (u k) limit ≡ true)
    → is_some (check_keys window now (pos limit) seen keys m).1 ≡ all (λ k. ltb (u k) limit) keys
unfolding check_keys
check_keys_decides window now limit u seen [] m hu hs = refl
check_keys_decides window now limit u seen (key ∷ keys) m hu hs =
    let m' : GoMap Bucket = put m key (refresh window now (bucket_or_new (m key))) in
    let count_eq = count-refresh window now (m key) ∙ hu key in
    elim (Bool-cases (contains seen key)) [
      | inl p ↦
          rw p (ground (arith, hs key p, check_keys_decides window now limit u seen keys m hu hs))
      | inr p ↦ rw p (
          rw count_eq (elim (Bool-cases (leb limit (u key))) [
            | inl q ↦ rw q (ground (arith, q))
            | inr q ↦
                let below : ltb (u key) limit ≡ true = ground arith in
                let rest =
                  check_keys_decides window now limit u (key ∷ seen) keys m'
                    (λ k. used-refresh window now key k m ∙ hu k)
                    (seen_below u limit seen key hs below) in
                rw q (ground (arith, below, rest))
          ]))
    ]

-- A bucket whose window is in force.
abbrev live : ℕ → Option Bucket → Bool
live now none = false
live now (some b) = not (is_over now b)

abbrev AllLive : ℕ → GoMap Bucket → List String → Type 0
AllLive now m keys = (k : String) → contains keys k ≡ true → live now (m k) ≡ true

live-refresh :
    (window now : ℕ) (key k : String) (m : GoMap Bucket)
    → 0 < window
    → live now (m k) ≡ true ⊎ ((key == k) ≡ true)
    → live now (put m key (refresh window now (bucket_or_new (m key))) k) ≡ true
live-refresh window now key k m h c = elim (Option-cases (m key)) [
  | inl p ↦ rw p (ground (arith, text_eq_iff key k))
  | inr (b, p) ↦ rw p (ground (arith, text_eq_iff key k))
]

abbrev Distinct : List String → Type 0
Distinct [] = Unit
Distinct (k ∷ ks) = (contains ks k ≡ false) × Distinct ks

used-increment :
    (now : ℕ) (m : GoMap Bucket) (key k : String)
    → live now (m key) ≡ true
    → used now (increment m key (m key)) k ≡ (if key == k then used now m k + 1 else used now m k)
used-increment now m key k l = elim (Option-cases (m key)) [
  | inl p ↦ absurd (ground (arith, p))
  | inr (b, p) ↦ rw p (ground (arith, p, text_eq_iff key k))
]

live-increment :
    (now : ℕ) (m : GoMap Bucket) (key k : String)
    → live now (increment m key (m key) k) ≡ live now (m k)
live-increment now m key k = elim (Option-cases (m key)) [
  | inl p ↦ rw p
  | inr (b, p) ↦ rw p (ground (arith, p, text_eq_iff key k))
]

-- What the second loop does to the count of each key.
used-increment_all :
    (now : ℕ) (seen : List String) (m : GoMap Bucket) (k : String)
    → Distinct seen
    → AllLive now m seen
    → used now (increment_all seen m) k
      ≡ (if contains seen k then used now m k + 1 else used now m k)
unfolding increment_all
used-increment_all now [] m k d l = refl
used-increment_all now (key ∷ keys) m k d l =
    let m' : GoMap Bucket = increment m key (m key) in
    let rest =
      used-increment_all now keys m' k d.1
        (λ j c. live-increment now m key j ∙ l j (rw c (ground arith))) in
    let step = used-increment now m key k (l key (rw (text_eq_refl key))) in
    rest ∙ rw step (ground (arith, d.0, text_eq_iff key k))

-- The keys that the first loop hands on: once each, all with a live window, and no others than `c`
-- says.
abbrev HandsOn : ℕ → (String → Bool) → GoMap Bucket × Option (List String) → Type 0
HandsOn now c (m, none) = Unit
HandsOn now c (m, some out) =
    Distinct out × AllLive now m out × ((k : String) → contains out k ≡ c k)

live-seen :
    (window now : ℕ) (key : String) (seen : List String) (m : GoMap Bucket)
    → 0 < window
    → AllLive now m seen
    → AllLive now (put m key (refresh window now (bucket_or_new (m key)))) (key ∷ seen)
live-seen window now key seen m h l k c = elim (Bool-cases (key == k)) [
  | inl e ↦ live-refresh window now key k m h (inr e)
  | inr e ↦ live-refresh window now key k m h (inl (l k (rw e at c)))
]

check_keys-HandsOn :
    (window now limit : ℕ) (c : String → Bool) (seen keys : List String) (m : GoMap Bucket)
    → 0 < window
    → Distinct seen
    → AllLive now m seen
    → ((k : String) → contains seen k || contains keys k ≡ c k)
    → HandsOn now c (check_keys window now (pos limit) seen keys m)
unfolding check_keys
check_keys-HandsOn window now limit c seen [] m h d l e = (d, l, λ k. ground (arith, e k))
check_keys-HandsOn window now limit c seen (key ∷ keys) m h d l e =
    let m' : GoMap Bucket = put m key (refresh window now (bucket_or_new (m key))) in
    elim (Bool-cases (contains seen key)) [
      | inl p ↦ rw p (
          check_keys-HandsOn window now limit c seen keys m h d l (λ k.
            elim (Bool-cases (key == k)) [
              | inl q ↦ ground (arith, p, e k, q, ap (contains seen) ((text_eq_iff key k).0 q))
              | inr q ↦ ground (arith, e k, q)
            ]))
      | inr p ↦
          rw p (elim (Bool-cases (leb limit (refresh window now (bucket_or_new (m key))).count)) [
            | inl q ↦ rw q tt
            | inr q ↦ rw q (
                check_keys-HandsOn window now limit c (key ∷ seen) keys m' h (p, d)
                  (live-seen window now key seen m h l) (λ k. ground (arith, e k)))
          ])
    ]

finish_lem :
    (now : ℕ) (u : String → ℕ) (c : String → Bool) (l : KeyedFixedWindow)
    → (r : GoMap Bucket × Option (List String)) → ((k : String) → used now r.0 k ≡ u k)
    → HandsOn now c r
    → ((finish l r).1 ≡ is_some r.1)
      × ((k : String)
          → used now (finish l r).0.buckets k ≡ (if is_some r.1 && c k then u k + 1 else u k))
unfolding finish
finish_lem now u c l (m, none) e h = (refl, e)
finish_lem now u c l (m, some out) e h =
    (refl, λ k. used-increment_all now out m k h.0 h.1 ∙ rw (h.2 k, e k) refl)

suc-not-le-zero : (n : ℕ) → leb (suc n) 0 ≡ false
suc-not-le-zero n = ground arith

allow_all-finish :
    (now limit : ℕ) (key : String) (keys : List String) (l : KeyedFixedWindow)
    → allow_all now (pos (suc limit)) (key ∷ keys) l
      ≡ finish l (check_keys l.window now (pos (suc limit)) [] (key ∷ keys) l.buckets)
unfolding allow_all
allow_all-finish now limit key keys l = rw (suc-not-le-zero limit) refl

module _ (now limit : ℕ) (l : KeyedFixedWindow) (h : 0 < l.window) where
  abbrev before : String → ℕ
  before = used now l.buckets

  abbrev after : List String → String → ℕ
  after keys = used now (allow_all now (pos (suc limit)) keys l).0.buckets

  -- AllowAll under a positive limit, for at least one key, at a time in force: it returns true
  -- exactly if every key has fewer than `limit` calls in its window. Then the count of each key
  -- among them grows by one, however often the key is named, and that of any other key stays.
  -- Otherwise no key's count changes.
  pub allow_all_lem :
      (key : String) (keys : List String)
      → ((allow_all now (pos (suc limit)) (key ∷ keys) l).1
          ≡ all (λ k. ltb (before k) (suc limit)) (key ∷ keys))
        × ((k : String)
            → after (key ∷ keys) k ≡ (
                if all (λ j. ltb (before j) (suc limit)) (key ∷ keys) && contains (key ∷ keys) k
                then before k + 1
                else before k))
  allow_all_lem key keys =
      let r = check_keys l.window now (pos (suc limit)) [] (key ∷ keys) l.buckets in
      let decides : is_some r.1 ≡ all (λ k. ltb (before k) (suc limit)) (key ∷ keys) =
        check_keys_decides l.window now (suc limit) before [] (key ∷ keys) l.buckets (λ k. refl)
          (λ k c. cc) in
      let done =
        finish_lem now before (contains (key ∷ keys)) l r
          (used-check_keys l.window now (suc limit) [] (key ∷ keys) l.buckets)
          (check_keys-HandsOn l.window now (suc limit) (contains (key ∷ keys)) [] (key ∷ keys)
            l.buckets h tt (λ k c. cc) (λ k. refl)) in
      rw (allow_all-finish now limit key keys l) (rw (← decides) done)
