-- ===== src/Retry.antt =====
-- common/retry/retry.go: calls that are tried again after growing delays. What the function returns in
-- each attempt, and when the context is cancelled, are functions of the number of the attempt. A delay
-- is a number of nanoseconds.
pub mod Attempts
pub mod Delays
mod Tests
use ruriko.Prelude.{
  ℕ, zero, suc, ◌+◌, Bool, true, false, not, ◌&&◌, Option, none, some, List, [], ◌∷◌, if◌then◌else◌,
  leb,
}
use ruriko.Prelude.Int.{ℤ, pos, negsuc, leb_ℤ, ◌+ℤ◌}

pub record Config {ℓ} (E : Type ℓ) : Type ℓ where
  pub max_attempts : ℤ
  pub initial_delay : ℤ
  pub max_delay : ℤ
  pub should_retry : Option (E → Bool)

-- What happens around a call of `do`, by the number of the attempt: the function's error, if any; and
-- whether the context is cancelled before the attempt, and in the wait behind it.
pub record World {ℓ} (E : Type ℓ) : Type ℓ where
  pub outcome : ℕ → Option E
  pub cancelled_before : ℕ → Bool
  pub cancelled_in_wait : ℕ → Bool

pub data Ending {ℓ} (E : Type ℓ) : Type ℓ where
  succeeded : Ending E
  failed : E → Ending E
  cancelled : Option E → Ending E

-- How often the function was called, the waits in their order, and the result.
pub record Run {ℓ} (E : Type ℓ) : Type ℓ where
  pub calls : ℕ
  pub waits : List ℤ
  pub ending : Ending E

abbrev default_initial_delay : ℤ
default_initial_delay = pos 500000000

abbrev default_max_delay : ℤ
default_max_delay = pos 10000000000

abbrev is_positive : ℤ → Bool
is_positive d = leb_ℤ (pos 1) d

abbrev pub attempts : ℤ → ℕ
attempts (pos zero) = 1
attempts (pos (suc n)) = suc n
attempts (negsuc n) = 1

abbrev pub first_delay : ℤ → ℤ
first_delay d = if is_positive d then d else default_initial_delay

abbrev pub delay_cap : ℤ → ℤ
delay_cap d = if is_positive d then d else default_max_delay

-- `delay *= 2`, and the cap.
unfoldable pub next_delay : ℤ → ℤ → ℤ
next_delay top delay = let twice = delay +ℤ delay in if leb_ℤ twice top then twice else top

module _ {ℓ} {E : Type ℓ} where
  abbrev pub retries : Option (E → Bool) → E → Bool
  retries none e = true
  retries (some f) e = f e

  abbrev pub called : Run E → Run E
  called r = record r { calls = suc r.calls }

  abbrev pub waited : ℤ → Run E → Run E
  waited delay r = record r { waits = delay ∷ r.waits }

  abbrev pub ended : Ending E → Run E
  ended e = record { calls = 0; waits = []; ending = e }

  -- Behind an error that is tried again: the last attempt, or a wait and the `rest` of the loop.
  abbrev pub after_failure : World E → ℕ → ℤ → E → ℕ → Run E → Run E
  after_failure w attempt delay e zero rest = called (ended (failed e))
  after_failure w attempt delay e (suc more) rest =
      called
        (waited delay (if w.cancelled_in_wait attempt then ended (cancelled (some e)) else rest))

  -- The loop, with the attempts that are left, the number of this one, the delay and the last error.
  unfoldable pub do_from : Config E → World E → ℕ → ℕ → ℤ → Option E → Run E
  do_from cfg w zero attempt delay last = ended (elim last [ none ↦ succeeded | some e ↦ failed e ])
  do_from cfg w (suc left) attempt delay last = elim (w.cancelled_before attempt) [
    | true ↦ ended (cancelled last)
    | false ↦ elim (w.outcome attempt) [
      | none ↦ called (ended succeeded)
      | some e ↦ elim (retries cfg.should_retry e) [
        | false ↦ called (ended (failed e))
        | true ↦
            after_failure w attempt delay e left (
              do_from cfg w left (suc attempt) (next_delay (delay_cap cfg.max_delay) delay)
                (some e))
      ]
    ]
  ]

  unfoldable pub do_retry : Config E → World E → Run E
  unfolding do_from
  do_retry cfg w = do_from cfg w (attempts cfg.max_attempts) 1 (first_delay cfg.initial_delay) none
