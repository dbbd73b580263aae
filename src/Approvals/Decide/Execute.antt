-- ===== src/Approvals/Decide/Execute.antt =====
-- Which commands a decision runs.
use Prim.Native.String.{String}
use mathlib.Core.Path.{subst}
use ruriko.Prelude.{
  ◌≤◌, ℕ, Bool, true, false, ◌&&◌, Option, none, some, ◌==◌, ◌≡◌, refl, sym, ap, ◌∙◌, string_eq,
  text_eq_refl, Bool-cases, Option-cases, inl, inr, arith, some-injective, none-ne-some, ◌⊎◌,
}
use ruriko.Commands.Router.{get_flag}
use ruriko.Approvals.{
  Approval, Status, approved, Error, Rows, find, is_pending, resolved, update_pending, approve,
  is_expired, get, expire_stale, expire_row, is_stale,
}
use ruriko.Approvals.Parser.{
  Decision, Parsed, decision, parse_decision, not_a_decision, usage, deny_without_reason,
  out_of_range,
}
use ruriko.Approvals.Resolve.{on_row, settle, find-update_pending, find-expire_rows}
use ruriko.Approvals.Decide.Handler.{get-some, resolve-cases, is_in_time}
use ruriko.Approvals.Decide.{
  Setting, Outcome, refused, not_configured, not_found, own_request, has_expired, already,
  failed_to_resolve, no_dispatch, dispatched, decide_on, decide_swept, decide_parsed,
  handle_approval_decision, approved_command, after_approve, after_deny,
}

-- A command runs for the request `a` that a decision approves, on behalf of its requestor and marked as
-- approved, and the table has the request as approved by the sender.
abbrev pub IsRun : Setting → String → Decision → Approval → Rows × Outcome → Type 0
IsRun w sender d a (rows, dispatched action cmd requestor) =
    (d.approve ≡ true)
    × (is_pending a.status ≡ true)
    × (w.tested_at ≤ a.expires_at)
    × ((a.requestor_mxid == sender) ≡ false)
    × (action ≡ a.action)
    × (requestor ≡ a.requestor_mxid)
    × (cmd.args ≡ a.params.0)
    × (get_flag cmd "_approved" "" ≡ "true")
    × (find d.approval_id rows ≡ some (resolved w.updated_at approved sender d.reason a))
IsRun w sender d a _ = Unit

get_flag-approved_command :
    (trace_id : String) (a : Approval)
    → get_flag (approved_command trace_id a) "_approved" "" ≡ "true"
unfolding get_flag approved_command
get_flag-approved_command trace_id a = refl

args-approved_command :
    (trace_id : String) (a : Approval) → (approved_command trace_id a).args ≡ a.params.0
unfolding approved_command
args-approved_command trace_id a = refl

settle-same :
    (now : ℕ) (status : Status) (by reason id : String) (a : Approval)
    → is_pending a.status ≡ true
    → settle now id status by reason id a ≡ resolved now status by reason a
settle-same now status by reason id a p = rw (text_eq_refl id, p) refl

IsRun-after_approve :
    (w : Setting) (sender : String) (d : Decision) (a : Approval) (rows : Rows)
    → (d.approve ≡ true)
      × (is_pending a.status ≡ true)
      × (is_expired w.tested_at a ≡ false)
      × ((a.requestor_mxid == sender) ≡ false)
    → find d.approval_id rows ≡ some a
    → (p : Rows × Option Error)
    → ((e : Error) × (p ≡ (rows, some e)))
      ⊎ (p ≡ (update_pending w.updated_at d.approval_id approved sender d.reason rows, none))
    → IsRun w sender d a (after_approve w a p)
IsRun-after_approve w sender d a rows t f p (inl (e, q)) =
    subst (λ p. IsRun w sender d a (after_approve w a p)) (sym q) tt
IsRun-after_approve w sender d a rows (y, p, x, o) f _ (inr q) =
    subst (λ p. IsRun w sender d a (after_approve w a p)) (sym q)
      (elim (Bool-cases w.can_dispatch) [
        | inl c ↦ simp c (
          y,
          p,
          is_in_time w.tested_at a a refl p x,
          o,
          refl,
          refl,
          args-approved_command w.trace_id a,
          get_flag-approved_command w.trace_id a,
          find-update_pending w.updated_at d.approval_id approved sender d.reason rows d.approval_id
              ∙ ap
                  (on_row
                    (settle w.updated_at d.approval_id approved sender d.reason d.approval_id))
                  f
              ∙ ap some (settle-same w.updated_at approved sender d.reason d.approval_id a p),
        )
        | inr c ↦ simp c tt
      ])

IsRun-after_deny :
    (w : Setting) (sender : String) (d : Decision) (a : Approval) (p : Rows × Option Error)
    → IsRun w sender d a (after_deny p)
IsRun-after_deny w sender d a (rows, none) = tt
IsRun-after_deny w sender d a (rows, some e) = tt

IsRun-decide_on :
    (w : Setting) (sender : String) (d : Decision) (a : Approval) (rows : Rows)
    → find d.approval_id rows ≡ some a
    → IsRun w sender d a (decide_on w sender d a rows)
unfolding decide_on approve
IsRun-decide_on w sender d a rows f = elim (Bool-cases (is_pending a.status)) [
  | inr p ↦ rw p tt
  | inl p ↦ elim (Bool-cases (d.approve && a.requestor_mxid == sender)) [
    | inl o ↦ rw (p, o) tt
    | inr o ↦ elim (Bool-cases (is_expired w.tested_at a)) [
      | inl x ↦ rw (p, o, x) tt
      | inr x ↦ elim (Bool-cases d.approve) [
        | inl y ↦
            rw (p, o, x)
              (simp y (
                IsRun-after_approve w sender d a rows (y, p, x, rw y at o) f _
                  (resolve-cases w.update_fails w.updated_at d.approval_id approved sender d.reason
                    rows)))
        | inr y ↦ rw (p, o, x) (simp y (IsRun-after_deny w sender d a _))
      ]
    ]
  ]
]

-- A row that is pending after the sweep is as it was before.
expire_row-pending :
    (now : ℕ) (c a : Approval) → expire_row now c ≡ a → is_pending a.status ≡ true → c ≡ a
expire_row-pending now c a e p = elim (Bool-cases (is_stale now c)) [
  | inl s ↦ absurd (ground (arith, ap (λ r. is_pending r.status) (rw (s, expire_row) at e), p))
  | inr s ↦ rw (s, expire_row) at e
]

on_row-pending :
    (now : ℕ) (o : Option Approval) (a : Approval)
    → on_row (expire_row now) o ≡ some a
    → is_pending a.status ≡ true
    → o ≡ some a
on_row-pending now none a e p = absurd (none-ne-some _ e)
on_row-pending now (some c) a e p = ap some (expire_row-pending now c a (some-injective _ _ e) p)

find-unswept :
    (fails : Bool) (now : ℕ) (key : String) (rows : Rows) (a : Approval)
    → find key (expire_stale fails now rows).0 ≡ some a
    → is_pending a.status ≡ true
    → find key rows ≡ some a
unfolding expire_stale
find-unswept true now key rows a e p = e
find-unswept false now key rows a e p =
    on_row-pending now (find key rows) a (sym (find-expire_rows now rows key) ∙ e) p

-- Where a command runs, the message is a decision on a request in the table that makes it run.
abbrev pub IsJustified : Setting → String → Parsed → Rows → Rows × Outcome → Type 0
IsJustified w sender p rows (rows', dispatched action cmd requestor) =
    (d : Decision) × (a : Approval) × (p ≡ decision d)
    × (find d.approval_id rows ≡ some a)
    × IsRun w sender d a (rows', dispatched action cmd requestor)
IsJustified w sender p rows _ = Unit

justify :
    (w : Setting) (sender : String) (d : Decision) (rows : Rows) (a : Approval)
    (out : Rows × Outcome)
    → find d.approval_id (expire_stale w.sweep_fails w.swept_at rows).0 ≡ some a
    → IsRun w sender d a out
    → IsJustified w sender (decision d) rows out
justify w sender d rows a (rows', dispatched action cmd requestor) f r =
    (d, a, refl, find-unswept w.sweep_fails w.swept_at d.approval_id rows a f r.1, r)
justify w sender d rows a (rows', refused p) f r = tt
justify w sender d rows a (rows', not_configured) f r = tt
justify w sender d rows a (rows', not_found) f r = tt
justify w sender d rows a (rows', own_request) f r = tt
justify w sender d rows a (rows', has_expired) f r = tt
justify w sender d rows a (rows', Outcome.denied) f r = tt
justify w sender d rows a (rows', already s) f r = tt
justify w sender d rows a (rows', failed_to_resolve e) f r = tt
justify w sender d rows a (rows', no_dispatch) f r = tt

IsJustified-decide_swept :
    (w : Setting) (sender : String) (d : Decision) (rows : Rows)
    → IsJustified w sender
        (decision d)
        rows
        (decide_swept w sender d (expire_stale w.sweep_fails w.swept_at rows).0)
IsJustified-decide_swept w sender d rows =
    let after = (expire_stale w.sweep_fails w.swept_at rows).0 in
    elim (Option-cases
      (get w.get_fails d.approval_id (expire_stale w.sweep_fails w.swept_at rows).0)) [
        | inl f ↦ rw f tt
        | inr (a, f) ↦
            let found = get-some w.get_fails d.approval_id after a f in
            rw f (justify w sender d rows a _ found (IsRun-decide_on w sender d a after found))
      ]

IsJustified-decide_parsed :
    (w : Setting) (sender : String) (rows : Rows) (p : Parsed)
    → IsJustified w sender p rows (decide_parsed w sender rows p)
IsJustified-decide_parsed w sender rows (decision d) = elim (Bool-cases w.configured) [
  | inl e ↦ simp e (IsJustified-decide_swept w sender d rows)
  | inr e ↦ simp e tt
]
IsJustified-decide_parsed w sender rows not_a_decision = tt
IsJustified-decide_parsed w sender rows usage = tt
IsJustified-decide_parsed w sender rows deny_without_reason = tt
IsJustified-decide_parsed w sender rows out_of_range = tt

-- A command that waits for approval runs only by a message of another user than its requestor, which
-- approves the request while it is pending and not past its deadline. It then runs under the action,
-- with the arguments and in the name that the request keeps, marked as approved, and the request is
-- approved in the table already.
pub handle_approval_decision-IsJustified :
    (w : Setting) (sender message : String) (rows : Rows)
    → IsJustified w sender
        (parse_decision message)
        rows
        (handle_approval_decision w sender message rows)
unfolding handle_approval_decision
handle_approval_decision-IsJustified w sender message rows =
    IsJustified-decide_parsed w sender rows (parse_decision message)
