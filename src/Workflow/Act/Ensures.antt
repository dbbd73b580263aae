-- ===== src/Workflow/Act/Ensures.antt =====
-- What every result of a part of a run satisfies.
use ruriko.Prelude.{Bool, true, false, if◌then◌else◌}
use ruriko.Workflow.State.{State, Result, ok, err, diverges, Error}
use ruriko.Workflow.Act.{Act, pure, fail, continue_with, ◌>>=◌}

abbrev pub OfResult : {A : Type 0} → (A → Type 0) → Result A → Type 0
OfResult Q (ok a) = Q a
OfResult Q (err e) = Unit
OfResult Q diverges = Unit

pub record Ensures {A : Type 0} (Q : A → Type 0) (m : Act A) : Type 0 where
  pub ensures : (s : State) → OfResult Q ((m s).1)

module _ {A B : Type 0} (R : A → Type 0) (Q : B → Type 0) where
  continue-OfResult :
      (f : A → Act B)
      → ((a : A) → R a → Ensures Q (f a))
      → (s : State) (r : Result A) → OfResult R r
      → OfResult Q ((continue_with f s r).1)
  continue-OfResult f h s (ok a) q = (h a q).ensures s
  continue-OfResult f h s (err e) q = tt
  continue-OfResult f h s diverges q = tt

  pub bind-Ensures :
      (m : Act A) (f : A → Act B)
      → Ensures R m
      → ((a : A) → R a → Ensures Q (f a))
      → Ensures Q (m >>= f)
  unfolding ◌>>=◌
  bind-Ensures m f k h = record {
    ensures = λ s. continue-OfResult f h ((m s).0) ((m s).1) (k.ensures s);
  }

module _ {A : Type 0} (Q : A → Type 0) where
  pub pure-Ensures : (a : A) → Q a → Ensures Q (pure a)
  unfolding pure
  pure-Ensures a q = record { ensures = λ s. q }

  pub fail-Ensures : (e : Error) → Ensures Q (fail {A = A} e)
  unfolding fail
  fail-Ensures e = record { ensures = λ s. tt }

  pub if-Ensures :
      (b : Bool) (m n : Act A) → Ensures Q m → Ensures Q n → Ensures Q (if b then m else n)
  if-Ensures true m n h k = h
  if-Ensures false m n h k = k

abbrev Anything : {A : Type 0} → A → Type 0
Anything a = Unit

anything : {A : Type 0} (r : Result A) → OfResult Anything r
anything (ok a) = tt
anything (err e) = tt
anything diverges = tt

-- Nothing is asked of the first part.
pub then-Ensures :
    {A B : Type 0} (Q : B → Type 0) (m : Act A) (f : A → Act B)
    → ((a : A) → Ensures Q (f a))
    → Ensures Q (m >>= f)
then-Ensures Q m f h =
    bind-Ensures Anything Q m f (record { ensures = λ s. anything ((m s).1) }) (λ a u. h a)
