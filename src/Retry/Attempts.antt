-- ===== src/Retry/Attempts.antt =====
-- How often the function is called, and with which result the calls end.
use mathlib.Core.Path.{subst}
use ruriko.Prelude.{
  ℕ, zero, suc, ◌+◌, ◌<◌, ◌≤◌, true, false, Option, none, some, ◌≡◌, refl, sym, ap, ◌∙◌, arith,
  Bool-cases, Option-cases, inl, inr, ◌⊎◌,
}
use ruriko.Prelude.Int.{ℤ, pos, negsuc}
use ruriko.Retry.{
  Config, World, Ending, Run, succeeded, failed, cancelled, retries, called, waited, ended, do_from,
  do_retry, after_failure, attempts, next_delay, delay_cap, first_delay,
}

zero_plus : (k : ℕ) → 0 + k ≡ k
zero_plus k = omega arith

next : (k attempt : ℕ) → suc k + attempt ≡ k + suc attempt
next k attempt = omega arith

attempts_positive : (z : ℤ) → (n : ℕ) × (attempts z ≡ suc n)
attempts_positive (pos zero) = (0, refl)
attempts_positive (pos (suc n)) = (n, refl)
attempts_positive (negsuc n) = (0, refl)

module _ {ℓ} {E : Type ℓ} (cfg : Config E) (w : World E) where
  -- The error, or none, of the last of some calls from `attempt` on.
  abbrev pub Last : ℕ → ℕ → Option E → Type ℓ
  Last attempt calls o = (k : ℕ) × (suc k ≡ calls) × (w.outcome (k + attempt) ≡ o)

  -- What the ending says of the calls, of which at most `left` are made.
  abbrev pub Ends : ℕ → ℕ → Option E → ℕ → Ending E → Type ℓ
  Ends left attempt last calls succeeded = Last attempt calls none
  Ends left attempt last calls (failed e) =
      (Last attempt calls (some e)) × ((retries cfg.should_retry e ≡ false) ⊎ (calls ≡ left))
  Ends left attempt last calls (cancelled o) = ((calls ≡ 0) × (o ≡ last)) ⊎ Last attempt calls o

  abbrev pub IsSound : ℕ → ℕ → Option E → Run E → Type ℓ
  IsSound left attempt last r = (r.calls ≤ left) × Ends left attempt last r.calls r.ending

  first_call : (attempt : ℕ) (o : Option E) → w.outcome attempt ≡ o → Last attempt 1 o
  first_call attempt o e = (0, refl, ap w.outcome (zero_plus attempt) ∙ e)

  later_call :
      (attempt calls : ℕ) (o : Option E) → Last (suc attempt) calls o → Last attempt (suc calls) o
  later_call attempt calls o (k, e, h) = (suc k, ap suc e, ap w.outcome (next k attempt) ∙ h)

  -- One more call in front, which fails with `e`.
  Ends-later :
      (left attempt calls : ℕ) (last : Option E) (e : E) (ending : Ending E)
      → w.outcome attempt ≡ some e
      → Ends left (suc attempt) (some e) calls ending
      → Ends (suc left) attempt last (suc calls) ending
  Ends-later left attempt calls last e succeeded o h = later_call attempt calls none h
  Ends-later left attempt calls last e (failed x) o (h, inl r) =
      (later_call attempt calls (some x) h, inl r)
  Ends-later left attempt calls last e (failed x) o (h, inr r) =
      (later_call attempt calls (some x) h, inr (ap suc r))
  Ends-later left attempt calls last e (cancelled x) o (inl (z, s)) =
      inr (0, ap suc (sym z), ap w.outcome (zero_plus attempt) ∙ o ∙ sym s)
  Ends-later left attempt calls last e (cancelled x) o (inr h) = inr (later_call attempt calls x h)

  IsSound-called :
      (left attempt : ℕ) (last : Option E) (delay : ℤ) (e : E) (r : Run E)
      → w.outcome attempt ≡ some e
      → IsSound left (suc attempt) (some e) r
      → IsSound (suc left) attempt last (called (waited delay r))
  IsSound-called left attempt last delay e r o (l, h) =
      (omega (arith, l), Ends-later left attempt r.calls last e r.ending o h)

  -- With no attempt left, the loop is not entered.
  abbrev IsSoundFor : ℕ → ℕ → Option E → Run E → Type ℓ
  IsSoundFor zero attempt last r = Unit
  IsSoundFor (suc left) attempt last r = IsSound (suc left) attempt last r

  IsSound-after_failure :
      (left attempt : ℕ) (delay : ℤ) (last : Option E) (e : E) (rest : Run E)
      → w.outcome attempt ≡ some e
      → IsSoundFor left (suc attempt) (some e) rest
      → IsSound (suc left) attempt last (after_failure w attempt delay e left rest)
  IsSound-after_failure zero attempt delay last e rest o h =
      (omega arith, (first_call attempt (some e) o, inr refl))
  IsSound-after_failure (suc more) attempt delay last e rest o h =
      elim (Bool-cases (w.cancelled_in_wait attempt)) [
        | inl c ↦ rw c (
            IsSound-called (suc more) attempt last delay e (ended (cancelled (some e))) o
              (omega arith, inl (refl, refl)))
        | inr c ↦ rw c (IsSound-called (suc more) attempt last delay e rest o h)
      ]

  IsSoundFor-do_from :
      (left attempt : ℕ) (delay : ℤ) (last : Option E)
      → IsSoundFor left attempt last (do_from cfg w left attempt delay last)
  unfolding do_from
  IsSoundFor-do_from zero attempt delay last = tt
  IsSoundFor-do_from (suc left) attempt delay last =
      elim (Bool-cases (w.cancelled_before attempt)) [
        | inl b ↦ rw (b, do_from) (omega arith, inl (refl, refl))
        | inr b ↦
            rw (b, do_from)
              (elim (Option-cases (w.outcome attempt)) [
                | inl o ↦ rw (o, do_from) (omega arith, first_call attempt none o)
                | inr (e, o) ↦
                    rw (o, do_from)
                      (elim (Bool-cases (retries cfg.should_retry e)) [
                        | inr r ↦
                            rw (r, do_from) (omega arith, (first_call attempt (some e) o, inl r))
                        | inl r ↦
                            rw (r, do_from)
                              (IsSound-after_failure left attempt delay last e _ o
                                (IsSoundFor-do_from left (suc attempt) _ (some e)))
                      ])
              ])
      ]

  -- Do calls the function at most MaxAttempts times, where 0 or less counts as 1. It returns nil only if
  -- the last of the calls did, an error only if the last call returned this error and it is not to be
  -- retried or no attempt is left, and the error of the context with that of the last call, if there was
  -- a call.
  pub do_retry-IsSound : IsSound (attempts cfg.max_attempts) 1 none (do_retry cfg w)
  unfolding do_retry
  do_retry-IsSound =
      let (n, e) = attempts_positive cfg.max_attempts in
      let delay = first_delay cfg.initial_delay in
      subst (λ k. IsSound k 1 none (do_from cfg w k 1 delay none)) (sym e)
        (IsSoundFor-do_from (suc n) 1 delay none)

  -- The attempts in front of the one at `n`, counted from 0, fail and are tried again.
  abbrev pub GoesOn : ℕ → Type ℓ
  GoesOn attempt =
      (e : E) × (w.cancelled_before attempt ≡ false)
      × (w.outcome attempt ≡ some e)
      × (retries cfg.should_retry e ≡ true)
      × (w.cancelled_in_wait attempt ≡ false)

  abbrev pub Returns : ℕ → Type ℓ
  Returns attempt = (w.cancelled_before attempt ≡ false) × (w.outcome attempt ≡ none)

  do_from_succeeds :
      (n left attempt : ℕ) (delay : ℤ) (last : Option E)
      → n < left
      → ((k : ℕ) → k < n → GoesOn (k + attempt))
      → Returns (n + attempt)
      → (do_from cfg w left attempt delay last).ending ≡ succeeded
  unfolding do_from
  do_from_succeeds n zero attempt delay last l g r = absurd (omega (arith, l))
  do_from_succeeds zero (suc left) attempt delay last l g r =
      let (b, o) = subst Returns (zero_plus attempt) r in rw (b, do_from) (rw (o, do_from) refl)
  do_from_succeeds (suc n) (suc zero) attempt delay last l g r = absurd (omega (arith, l))
  do_from_succeeds (suc n) (suc (suc left)) attempt delay last l g r =
      let (e, b, o, t, c) = subst GoesOn (zero_plus attempt) (g 0 (omega arith)) in
      let rest =
        do_from_succeeds n (suc left) (suc attempt) (next_delay (delay_cap cfg.max_delay) delay)
          (some e) (omega (arith, l))
          (λ k h. subst GoesOn (next k attempt) (g (suc k) (omega (arith, h))))
          (subst Returns (next n attempt) r) in
      rw (b, do_from) (rw (o, do_from) (rw (t, do_from) (rw c rest)))

  -- Do returns nil if some attempt that it may make returns nil, the ones before fail with errors that
  -- are to be retried, and the context is not cancelled until then.
  pub do_retry_succeeds :
      (n : ℕ)
      → n < attempts cfg.max_attempts
      → ((k : ℕ) → k < n → GoesOn (k + 1))
      → Returns (n + 1)
      → (do_retry cfg w).ending ≡ succeeded
  unfolding do_retry
  do_retry_succeeds n l g r =
      do_from_succeeds n (attempts cfg.max_attempts) 1 (first_delay cfg.initial_delay) none l g r
