-- ===== src/AgentApprovals.antt =====
-- internal/gitai/approvals/approvals.go, over SaveApproval, GetApprovalStatus and SetApprovalStatus of
-- internal/gitai/store/store.go: how an agent waits for an operator before it runs a tool. The table is
-- a map from the key of a request to its row.
pub mod FailSafe
mod Tests
use ruriko.Prelude.{
  ℕ, zero, suc, ◌+◌, String, Bool, true, false, ◌&&◌, not, Option, none, some, List, [], ◌∷◌, ltb,
  ◌==◌, string_eq, if◌then◌else◌,
}
use ruriko.Prelude.GoMap.{GoMap, put}
use ruriko.Prelude.Text.{append}

-- A status is a text; any other one than the four that the code knows is `other`.
pub data Status : Type 0 where
  pending approved denied expired : Status
  other : String → Status

pub record Row : Type 0 where
  pub status : Status
  pub expires_at : ℕ

abbrev pub Rows : Type 0
Rows = GoMap Row

abbrev pub set_row : Status → Option Row → Rows → String → Rows
set_row status none rows id = rows
set_row status (some r) rows id = put rows id (record r { status = status })

-- UPDATE approvals SET status = ?, … WHERE approval_id = ?
abbrev pub set_approval_status : Bool → String → Status → Rows → Rows
set_approval_status fails id status rows = if fails then rows else set_row status (rows id) rows id

-- INSERT INTO approvals …: the key is the primary key.
abbrev save_row : Option Row → Row → Rows → String → Option Rows
save_row none r rows id = some (put rows id r)
save_row (some old) r rows id = none

unfoldable pub save_approval : Bool → String → ℕ → Rows → Option Rows
save_approval fails id expires_at rows =
    if fails
    then none
    else save_row (rows id) (record { status = pending; expires_at = expires_at }) rows id

-- A pending row that is past its deadline becomes expired as it is read.
abbrev pub read_status : ℕ → Bool → String → Rows → ℕ → Status → Rows × Option Status
read_status now set_fails id rows expires_at pending =
    if ltb expires_at now
    then (set_approval_status set_fails id expired rows, some expired)
    else (rows, some pending)
read_status now set_fails id rows expires_at status = (rows, some status)

-- What is read: a status, or an error.
abbrev pub read_row : ℕ → Bool → String → Rows → Option Row → Rows × Option Status
read_row now set_fails id rows none = (rows, none)
read_row now set_fails id rows (some r) = read_status now set_fails id rows r.expires_at r.status

unfoldable pub get_approval_status : Bool → Bool → ℕ → String → Rows → Rows × Option Status
get_approval_status fails set_fails now id rows =
    if fails then (rows, none) else read_row now set_fails id rows (rows id)

-- What happens while a request waits: a decision that the control plane records, for any request, or
-- what the loop wakes up for. The flags are whether a read and an update fail.
pub data Event : Type 0 where
  recorded : Bool → String → Status → Event
  context_done : Event
  timed_out : Bool → Event
  ticked : Bool → Bool → ℕ → Event

pub data Outcome : Type 0 where
  save_failed poll_failed cancelled refused allowed waiting : Outcome

-- One poll: the end of the loop, or none to go on.
abbrev pub after_poll : Bool → String → Rows × Option Status → Rows × Option Outcome
after_poll set_fails id (rows, none) = (rows, some poll_failed)
after_poll set_fails id (rows, some approved) = (rows, some allowed)
after_poll set_fails id (rows, some denied) = (rows, some refused)
after_poll set_fails id (rows, some pending) = (rows, none)
after_poll set_fails id (rows, some expired) =
    (set_approval_status set_fails id denied rows, some refused)
after_poll set_fails id (rows, some (other s)) =
    (set_approval_status set_fails id denied rows, some refused)

abbrev pub step : String → Event → Rows → Rows × Option Outcome
step id (recorded fails key status) rows = (set_approval_status fails key status rows, none)
step id context_done rows = (rows, some cancelled)
step id (timed_out set_fails) rows = (set_approval_status set_fails id denied rows, some refused)
step id (ticked fails set_fails now) rows =
    after_poll set_fails id (get_approval_status fails set_fails now id rows)

abbrev pub finish : Rows × Option Outcome → Rows × Outcome → Rows × Outcome
finish (rows, some o) rest = (rows, o)
finish (rows, none) rest = rest

-- The loop of Request, over what happens. It is still waiting where the events end before it does.
pub wait : String → List Event → Rows → Rows × Outcome
unfolding get_approval_status
wait id [] rows = (rows, waiting)
wait id (e ∷ es) rows = let out = step id e rows in finish out (wait id es out.0)

abbrev default_ttl : ℕ
default_ttl = 3600000000000

abbrev effective_ttl : ℕ → ℕ
effective_ttl zero = default_ttl
effective_ttl (suc n) = suc n

abbrev wait_if_saved : String → List Event → Rows → Option Rows → Rows × Outcome
wait_if_saved id es rows none = (rows, save_failed)
wait_if_saved id es rows (some saved) = wait id es saved

unfoldable pub request : String → Bool → ℕ → ℕ → List Event → Rows → Rows × Outcome
unfolding save_approval wait
request trace_id save_fails now ttl es rows =
    let id = append "appr_" trace_id in
    wait_if_saved id es rows (save_approval save_fails id (now + effective_ttl ttl) rows)
