-- ===== src/Approvals/Decide/Gated.antt =====
-- A gated command waits.
use Prim.Native.String.{String}
use ruriko.Prelude.{ℕ, true, List, [], ◌∷◌, ◌≡◌, refl, ◌++◌, string_eq}
use ruriko.Commands.Router.{Command, ok, parse}
use ruriko.Commands.Router.Reserved.{flags-parse}
use ruriko.Approvals.{Rows, Request, Attempt, Created, created, failed}
use ruriko.Approvals.Create.{IsRequested, IsCreated, create-IsCreated}
use ruriko.Approvals.Resolve.{KeyFree}
use ruriko.Approvals.Decide.{
  Gate, proceed, waiting, request_failed, request_approval_if_needed, is_gated, after_create,
}

-- The command does not go on: a new pending request of the sender for this action stands in the table,
-- or the call failed and the table is as it was.
abbrev pub IsHeld : ℕ → Request → Rows → Rows × Gate → Type 0
IsHeld now r rows (rows', proceed) = ⊥
IsHeld now r rows (rows', waiting a) =
    (KeyFree a.id rows) × IsRequested now r a × (rows' ≡ rows ++ a ∷ [])
IsHeld now r rows (rows', request_failed e) = rows' ≡ rows

IsHeld-after_create :
    (now : ℕ) (r : Request) (rows : Rows) (c : Rows × Created)
    → IsCreated now r rows c
    → IsHeld now r rows (after_create c)
IsHeld-after_create now r rows (rows', created a) h = h
IsHeld-after_create now r rows (rows', failed e) h = h

-- A command that is parsed from the text of a message, under a gated action, never goes on in the first
-- call: it leaves a new pending request of its sender, or it fails and leaves the table as it was. The
-- handlers must have a gate.
pub request_approval_if_needed-IsHeld :
    (draw : ℕ → Attempt) (now ttl : ℕ) (entries : List (String × String))
    (action target prefix text sender : String) (rows : Rows) {cmd : Command}
    → parse prefix text ≡ ok cmd
    → is_gated action ≡ true
    → IsHeld now
        (record {
          action = action;
          target = target;
          params = (cmd.args, entries);
          requestor_mxid = sender;
          ttl = ttl;
        })
        rows
        (request_approval_if_needed true draw now ttl entries action target cmd sender rows)
unfolding request_approval_if_needed
request_approval_if_needed-IsHeld draw now ttl entries action target prefix text sender rows {cmd} e
      g =
    rw ((flags-parse prefix text "_approved" e refl).1, g)
      (IsHeld-after_create now _ rows _ (create-IsCreated draw now _ rows))
