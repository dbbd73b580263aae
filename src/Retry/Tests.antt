-- ===== src/Retry/Tests.antt =====
-- Runs of Do.
use ruriko.Prelude.{
  ℕ, ◌+◌, ◌<◌, true, false, none, some, [], ◌∷◌, ◌≡◌, refl, arith, ltb, if◌then◌else◌, nat_eq,
}
use ruriko.Prelude.Int.{pos, ◌+ℤ◌}
use ruriko.Retry.{Config, World, succeeded, do_retry, attempts, next_delay, do_from}
use ruriko.Retry.Attempts.{IsSound, do_retry-IsSound, do_retry_succeeds, GoesOn}
use ruriko.Retry.Delays.{AreDoubled, do_retry-AreDoubled}

abbrev config : Config ℕ
config = record {
  max_attempts = pos 3;
  initial_delay = pos 4;
  max_delay = pos 6;
  should_retry = none;
}

-- The first two attempts fail.
abbrev world : World ℕ
world = record {
  outcome = λ n. if ltb n 3 then some n else none;
  cancelled_before = λ n. false;
  cancelled_in_wait = λ n. false;
}

test_run :
    do_retry config world ≡ record { calls = 3; waits = pos 4 ∷ pos 6 ∷ []; ending = succeeded }
unfolding do_retry do_from next_delay ◌+ℤ◌
test_run = refl

do_retry-IsSound_example :
    IsSound config world (attempts config.max_attempts) 1 none (do_retry config world)
do_retry-IsSound_example = do_retry-IsSound config world

low : (k : ℕ) → k < 2 → ltb (k + 1) 3 ≡ true
low k h = ground (arith, h)

goes_on : (k : ℕ) → k < 2 → GoesOn config world (k + 1)
goes_on k h = (k + 1, refl, rw (low k h) refl, refl, refl)

do_retry_succeeds_example : (do_retry config world).ending ≡ succeeded
do_retry_succeeds_example = do_retry_succeeds config world 2 (ground arith) goes_on (refl, refl)

do_retry-AreDoubled_example : AreDoubled 4 6 0 (do_retry config world).waits
do_retry-AreDoubled_example =
    do_retry-AreDoubled config world 4 6 refl refl (ground arith) (ground arith) (ground arith)
