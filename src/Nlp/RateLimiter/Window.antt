-- ===== src/Nlp/RateLimiter/Window.antt =====
-- The sliding-window guarantee: over any run of calls in the order of time, no window holds more
-- calls of one sender than the limit.
use mathlib.Core.List.{append-nil, append_assoc}
use mathlib.Core.Path.{subst₂}
use ruriko.Prelude.{
  sym, text_eq_refl, ℕ, ◌≤◌, ◌<◌, ◌≡◌, refl, ap, ◌∙◌, String, Bool, true, ◌&&◌, List, [], ◌∷◌, ◌++◌,
  ◌+◌, arith, leb, ltb, ◌==◌, string_eq, text_eq_iff, length, keep, keep-append, length-append, All,
  Bool-cases, inl, inr, if◌then◌else◌,
}
use ruriko.Prelude.Int.{ℤ}
use ruriko.Nlp.RateLimiter.{RateLimiter, stamps_of, is_recent, allow, new_rate_limiter}

-- The times at which a run of calls, each a time and a sender, lets `k` through.
unfoldable pub granted_times : String → List (ℕ × String) → RateLimiter → List ℕ
granted_times k [] r = []
granted_times k ((now, sender) ∷ calls) r =
    let rest = granted_times k calls (allow now sender r).0 in
    if (allow now sender r).1 && sender == k then now ∷ rest else rest

-- The times of the calls never fall.
abbrev pub InOrder : ℕ → List (ℕ × String) → Type 0
InOrder last [] = Unit
InOrder last ((now, sender) ∷ calls) = (last ≤ now) × InOrder now calls

-- `t` lies in the window that ends at `end`.
abbrev pub in_window : ℕ → ℕ → ℕ → Bool
in_window window end t = ltb end (t + window) && leb t end

keep-keep :
    (p q : ℕ → Bool) (ts : List ℕ)
    → ((t : ℕ) → q t ≡ true → p t ≡ true)
    → keep q (keep p ts) ≡ keep q ts
keep-keep p q [] h = refl
keep-keep p q (t ∷ ts) h = elim (Bool-cases (p t)) [
  | inl e ↦ rw e (ground (arith, keep-keep p q ts h))
  | inr e ↦ rw e (ground (arith, keep-keep p q ts h, h t))
]

length-keep_mono :
    (p q : ℕ → Bool) (ts : List ℕ)
    → ((t : ℕ) → p t ≡ true → q t ≡ true)
    → length (keep p ts) ≤ length (keep q ts)
length-keep_mono p q [] h = omega arith
length-keep_mono p q (t ∷ ts) h = ground (arith, h t, length-keep_mono p q ts h)

All-le_mono : (a b : ℕ) (ts : List ℕ) → a ≤ b → All (λ t. t ≤ a) ts → All (λ t. t ≤ b) ts
All-le_mono a b [] h x = tt
All-le_mono a b (t ∷ ts) h x = (omega arith, All-le_mono a b ts h x.1)

All-le-append :
    (b : ℕ) (ts us : List ℕ)
    → All (λ t. t ≤ b) ts
    → All (λ t. t ≤ b) us
    → All (λ t. t ≤ b) (ts ++ us)
All-le-append b [] us x y = y
All-le-append b (t ∷ ts) us x y = (x.0, All-le-append b ts us x.1 y)

-- How the stamps kept for `k` stand to the log of all its calls let through, at the time `last`.
record Inv (limit window : ℕ) (log : List ℕ) (last : ℕ) (ts : List ℕ) : Type 0 where
  agree : (end : ℕ) → last ≤ end → keep (is_recent window end) ts ≡ keep (is_recent window end) log
  bound : (end : ℕ) → length (keep (in_window window end) log) ≤ limit

module _ (limit window : ℕ) (log : List ℕ) (last now : ℕ) (ts : List ℕ)
    (inv : Inv limit window log last ts) (later : last ≤ now) where
  abbrev kept : List ℕ
  kept = keep (is_recent window now) ts

  Inv-idle : Inv limit window log now ts
  Inv-idle = record { agree = λ end h. inv.agree end (omega arith); bound = inv.bound }

  keep-kept :
      (end : ℕ) → now ≤ end → keep (is_recent window end) kept ≡ keep (is_recent window end) log
  keep-kept end h =
      keep-keep (is_recent window now) (is_recent window end) ts (λ t e. ground arith)
      ∙ inv.agree end (omega arith)

  Inv-refuse : Inv limit window log now kept
  Inv-refuse = record { agree = keep-kept; bound = inv.bound }

  grant-bound :
      length kept < limit
      → (end : ℕ) → length (keep (in_window window end) (log ++ now ∷ [])) ≤ limit
  grant-bound h end = elim (Bool-cases (leb now end)) [
    | inl e ↦
        let fewer =
          length-keep_mono (in_window window end) (is_recent window now) log
            (λ t x. ground arith) in
        rw keep-append (
          ground (
            arith,
            length-append (keep (in_window window end) log)
                (keep (in_window window end) (now ∷ [])),
            fewer,
            ap length (inv.agree now later),
          ))
    | inr e ↦ rw keep-append (
        ground (
          arith,
          length-append (keep (in_window window end) log) (keep (in_window window end) (now ∷ [])),
          inv.bound end,
        ))
  ]

  Inv-grant : length kept < limit → Inv limit window (log ++ now ∷ []) now (kept ++ now ∷ [])
  Inv-grant h = record {
    agree = λ end le.
        rw (keep-append, keep-append)
          (ap (λ l. l ++ keep (is_recent window end) (now ∷ [])) (keep-kept end le));
    bound = grant-bound h;
  }

allow-keeps :
    (now : ℕ) (sender : String) (r : RateLimiter)
    → ((allow now sender r).0.limit ≡ r.limit) × ((allow now sender r).0.window ≡ r.window)
unfolding allow
allow-keeps now sender r = ground arith

abbrev log_after : Bool → ℕ → List ℕ → List ℕ
log_after hit now log = if hit then log ++ now ∷ [] else log

allow-Inv :
    (now last : ℕ) (sender k : String) (log : List ℕ) (r : RateLimiter)
    → Inv r.limit r.window log last (stamps_of (r.counters k))
    → last ≤ now
    → Inv r.limit r.window
        (log_after ((allow now sender r).1 && sender == k) now log)
        now
        (stamps_of ((allow now sender r).0.counters k))
unfolding allow
allow-Inv now last sender k log r inv later = elim (Bool-cases (sender == k)) [
  | inl q ↦
      let e = (text_eq_iff sender k).0 q in
      rw e
        (elim (Bool-cases
          (leb r.limit (length (keep (is_recent r.window now) (stamps_of (r.counters k)))))) [
            | inl p ↦ rw (p, text_eq_refl k) (Inv-refuse r.limit r.window log last now _ inv later)
            | inr p ↦
                rw (p, text_eq_refl k)
                  (Inv-grant r.limit r.window log last now _ inv later (ground arith))
          ])
  | inr q ↦
      let idle = Inv-idle r.limit r.window log last now _ inv later in
      elim (Bool-cases
        (leb r.limit (length (keep (is_recent r.window now) (stamps_of (r.counters sender)))))) [
          | inl p ↦ rw (p, q) idle
          | inr p ↦ rw (p, q) idle
        ]
]

granted-bound :
    (limit window last : ℕ) (k : String) (log : List ℕ) (calls : List (ℕ × String))
    (r : RateLimiter)
    → r.limit ≡ limit
    → r.window ≡ window
    → Inv limit window log last (stamps_of (r.counters k))
    → InOrder last calls
    → (end : ℕ) → length (keep (in_window window end) (log ++ granted_times k calls r)) ≤ limit
unfolding granted_times
granted-bound limit window last k log [] r el ew inv o end = rw append-nil (inv.bound end)
granted-bound limit window last k log ((now, sender) ∷ calls) r el ew inv o end =
    let r' = (allow now sender r).0 in
    let hit = (allow now sender r).1 && sender == k in
    let same = allow-keeps now sender r in
    let inv' : Inv limit window (log_after hit now log) now (stamps_of (r'.counters k)) =
      subst₂ (λ a b. Inv a b (log_after hit now log) now (stamps_of (r'.counters k))) el ew
        (allow-Inv now last sender k log r
          (subst₂ (λ a b. Inv a b log last (stamps_of (r.counters k))) (sym el) (sym ew) inv)
          o.0) in
    let rest =
      granted-bound limit window now k (log_after hit now log) calls r' (same.0 ∙ el) (same.1 ∙ ew)
        inv' o.1 end in
    elim (Bool-cases hit) [
      | inl e ↦ rw e (rw (e, append_assoc) at rest)
      | inr e ↦ rw e (rw e at rest)
    ]

-- From a new limiter, over calls in the order of time: of the calls of one sender that are let
-- through, at most `limit` lie in any one window `(end - window, end]`, whatever calls other
-- senders make and whatever is refused between.
pub sliding_window :
    (limit window : ℤ) (k : String) (calls : List (ℕ × String)) (end : ℕ)
    → InOrder 0 calls
    → let r = new_rate_limiter limit window in
      length (keep (in_window r.window end) (granted_times k calls r)) ≤ r.limit
sliding_window limit window k calls end o =
    let r = new_rate_limiter limit window in
    granted-bound r.limit r.window 0 k [] calls r refl refl
      (unfold new_rate_limiter in record { agree = λ end' h. refl; bound = λ end'. omega arith }) o
      end
