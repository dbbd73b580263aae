-- ===== src/Nlp/RateLimiter/Quota.antt =====
-- Allow and Remaining agree, and Allow charges its sender alone.
use ruriko.Prelude.{
  ℕ, ◌+◌, ◌-◌, ◌<◌, ◌≡◌, refl, ap, ◌∙◌, String, Bool, true, false, ◌&&◌, List, [], ◌∷◌, ◌++◌, arith,
  ltb, leb, ◌==◌, string_eq, text_eq_iff, length, keep, keep-append, length-append, Bool-cases, inl,
  inr, if◌then◌else◌,
}
use ruriko.Nlp.RateLimiter.{RateLimiter, stamps_of, is_recent, allow, remaining}

keep_idem : (p : ℕ → Bool) (ts : List ℕ) → keep p (keep p ts) ≡ keep p ts
keep_idem p [] = refl
keep_idem p (t ∷ ts) = elim (Bool-cases (p t)) [
  | inl e ↦ rw e (rw e (ap (◌∷◌ t) (keep_idem p ts)))
  | inr e ↦ rw e (keep_idem p ts)
]

recent_self : (window now : ℕ) → 0 < window → ltb now (now + window) ≡ true
recent_self window now h = ground arith

-- What a sender has left after the stamps of one call.
left-grant :
    (limit window now : ℕ) (ts : List ℕ)
    → 0 < window
    → leb limit (length (keep (is_recent window now) ts)) ≡ false
    → limit - length (keep (is_recent window now) (keep (is_recent window now) ts ++ now ∷ []))
      ≡ limit - length (keep (is_recent window now) ts) - 1
left-grant limit window now ts h e =
    rw (keep-append, keep_idem)
      (rw (recent_self window now h)
        (omega (arith, length-append (keep (is_recent window now) ts) (now ∷ []))))

module _ (now : ℕ) (sender : String) (r : RateLimiter) where
  -- A call is let through exactly if Remaining is not 0 just before it.
  pub allow-lt-remaining : (allow now sender r).1 ≡ ltb 0 (remaining now sender r)
  unfolding allow remaining
  allow-lt-remaining = ground arith

  -- A call that is let through costs its sender one call. One that is refused costs nothing, and no
  -- call costs another sender anything. The window must not be empty.
  pub remaining-allow :
      (k : String)
      → 0 < r.window
      → remaining now k (allow now sender r).0 ≡ (
          if sender == k && (allow now sender r).1
          then remaining now k r - 1
          else remaining now k r)
  unfolding allow remaining
  remaining-allow k h =
      let ts = stamps_of (r.counters sender) in
      let kept = keep (is_recent r.window now) ts in
      elim (Bool-cases (leb r.limit (length kept))) [
        | inl e ↦ rw e (elim (Bool-cases (sender == k)) [
          | inl q ↦
              rw (q, keep_idem)
                (ground (
                  arith,
                  ap (λ (j : String). stamps_of (r.counters j)) ((text_eq_iff sender k).0 q),
                ))
          | inr q ↦ rw q refl
        ])
        | inr e ↦ rw e (elim (Bool-cases (sender == k)) [
          | inl q ↦ rw q (
              left-grant r.limit r.window now ts h e
              ∙ ap (λ (j : String). remaining now j r - 1) ((text_eq_iff sender k).0 q))
          | inr q ↦ rw q refl
        ])
      ]
