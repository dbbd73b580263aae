-- ===== src/Retry/Delays.antt =====
-- How long Do waits between the calls.
use mathlib.Core.Path.{subst}
use ruriko.Prelude.{
  ℕ, zero, suc, ◌+◌, ◌^◌, ◌<◌, ◌≤◌, Bool, true, false, Option, none, some, List, [], ◌∷◌, ◌≡◌, refl,
  sym, ap, ◌∙◌, arith, leb, if◌then◌else◌, Bool-cases, Option-cases, inl, inr,
}
use ruriko.Prelude.Int.{ℤ, pos, +ℤ-pos}
use ruriko.Retry.{
  Config, World, Run, retries, after_failure, do_from, do_retry, attempts, next_delay, delay_cap,
  first_delay,
}

-- The first delay, doubled `k` times.
abbrev pub doubled : ℕ → ℕ → ℕ
doubled i zero = i
doubled i (suc k) = doubled i k + doubled i k

abbrev pub smaller : ℕ → ℕ → ℕ
smaller a b = if leb a b then a else b

-- The waits are the doubled delays from `k` on, and at most `top`.
abbrev pub AreDoubled : ℕ → ℕ → ℕ → List ℤ → Type 0
AreDoubled i top k [] = Unit
AreDoubled i top k (wait ∷ waits) =
    (wait ≡ pos (smaller (doubled i k) top)) × AreDoubled i top (suc k) waits

pick : (b : Bool) (x y : ℕ) → (if b then pos x else pos y) ≡ pos (if b then x else y)
pick true x y = refl
pick false x y = refl

start_delay : (i top : ℕ) → 1 ≤ i → i ≤ top → first_delay (pos i) ≡ pos (smaller i top)
start_delay i top p l = ground (arith, p, l)

cap_delay : (i top : ℕ) → 1 ≤ i → i ≤ top → delay_cap (pos top) ≡ pos top
cap_delay i top p l = ground (arith, p, l)

next_delay-small :
    (top x : ℕ) → top < 2 ^ 62 → x ≤ top → next_delay (pos top) (pos x) ≡ pos (smaller (x + x) top)
unfolding next_delay
next_delay-small top x t h =
    rw (+ℤ-pos x x (omega (arith, t, h))) (pick (leb (x + x) top) (x + x) top)

smaller-le : (a b : ℕ) → smaller a b ≤ b
smaller-le a b = ground arith

smaller-twice : (x top : ℕ) → smaller (smaller x top + smaller x top) top ≡ smaller (x + x) top
smaller-twice x top = ground arith

next_delay-doubled :
    (i top k : ℕ)
    → top < 2 ^ 62
    → next_delay (pos top) (pos (smaller (doubled i k) top)) ≡ pos (smaller (doubled i (suc k)) top)
next_delay-doubled i top k t =
    next_delay-small top (smaller (doubled i k) top) t (smaller-le (doubled i k) top)
    ∙ ap pos (smaller-twice (doubled i k) top)

module _ {ℓ} {E : Type ℓ} (cfg : Config E) (w : World E) (i top : ℕ) where
  AreDoubled-after_failure :
      (attempt k left : ℕ) (e : E) (rest : Run E)
      → AreDoubled i top (suc k) rest.waits
      → AreDoubled i top k
          (after_failure w attempt (pos (smaller (doubled i k) top)) e left rest).waits
  AreDoubled-after_failure attempt k zero e rest h = tt
  AreDoubled-after_failure attempt k (suc more) e rest h =
      elim (Bool-cases (w.cancelled_in_wait attempt)) [
        | inl c ↦ rw c (refl, tt)
        | inr c ↦ rw c (refl, h)
      ]

  AreDoubled-do_from :
      (left attempt k : ℕ) (last : Option E)
      → delay_cap cfg.max_delay ≡ pos top
      → top < 2 ^ 62
      → AreDoubled i top k (do_from cfg w left attempt (pos (smaller (doubled i k) top)) last).waits
  unfolding do_from
  AreDoubled-do_from zero attempt k last c t = tt
  AreDoubled-do_from (suc left) attempt k last c t =
      elim (Bool-cases (w.cancelled_before attempt)) [
        | inl b ↦ rw (b, do_from) tt
        | inr b ↦
            rw (b, do_from)
              (elim (Option-cases (w.outcome attempt)) [
                | inl o ↦ rw (o, do_from) tt
                | inr (e, o) ↦
                    rw (o, do_from)
                      (elim (Bool-cases (retries cfg.should_retry e)) [
                        | inr r ↦ rw (r, do_from) tt
                        | inl r ↦
                            rw (r, do_from)
                              (AreDoubled-after_failure attempt k left e _ (
                                subst
                                  (λ d.
                                    AreDoubled i top (suc k)
                                      (do_from cfg w left (suc attempt) d (some e)).waits)
                                  (sym (
                                    ap (λ m. next_delay m (pos (smaller (doubled i k) top))) c
                                    ∙ next_delay-doubled i top k t))
                                  (AreDoubled-do_from left (suc attempt) (suc k) (some e) c t)))
                      ])
              ])
      ]

  -- With an initial delay of at least 1 and at most the maximal one, which is below 2 ^ 62, the waits of
  -- Do are the initial delay, twice, four times it and so on, each at most the maximal delay.
  pub do_retry-AreDoubled :
      cfg.initial_delay ≡ pos i
      → cfg.max_delay ≡ pos top
      → 1 ≤ i
      → i ≤ top
      → top < 2 ^ 62
      → AreDoubled i top 0 (do_retry cfg w).waits
  unfolding do_retry
  do_retry-AreDoubled ci ct p l t =
      subst (λ d. AreDoubled i top 0 (do_from cfg w (attempts cfg.max_attempts) 1 d none).waits)
        (sym (ap first_delay ci ∙ start_delay i top p l))
        (AreDoubled-do_from (attempts cfg.max_attempts) 1 0 none
          (ap delay_cap ct ∙ cap_delay i top p l) t)
