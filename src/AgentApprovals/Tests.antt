-- ===== src/AgentApprovals/Tests.antt =====
-- Waiting requests at concrete runs.
use ruriko.Prelude.{false, List, [], ◌∷◌, ◌≡◌, refl, string_eq}
use ruriko.Prelude.GoMap.{empty}
use ruriko.AgentApprovals.{
  Event, recorded, timed_out, ticked, approved, allowed, request, wait, save_approval,
  get_approval_status,
}
use ruriko.AgentApprovals.FailSafe.{request-refuses, request-ends, is_allowed, is_waiting}

-- Another request is approved, this one is polled twice, and its time is up.
abbrev events : List Event
events =
    recorded false "appr_u" approved
    ∷ ticked false false 3
    ∷ ticked false false 5
    ∷ timed_out false
    ∷ []

abbrev approval : List Event
approval = ticked false false 3 ∷ recorded false "appr_t" approved ∷ ticked false false 5 ∷ []

test_allowed : (request "t" false 1 10 approval empty).1 ≡ allowed
unfolding request wait save_approval get_approval_status
test_allowed = refl

request-refuses_example : is_allowed (request "t" false 1 10 events empty).1 ≡ false
request-refuses_example = request-refuses "t" false 1 10 events empty refl

request-ends_example : is_waiting (request "t" false 1 10 events empty).1 ≡ false
request-ends_example = request-ends "t" false 1 10 events empty refl
