-- ===== src/AgentApprovals/FailSafe.antt =====
-- A request is allowed only by a decision of the operators, and does not wait for ever.
use ruriko.Prelude.{
  ℕ, ◌+◌, String, Bool, true, false, ◌&&◌, ◌||◌, not, Option, none, some, List, [], ◌∷◌, ◌≡◌, refl,
  sym, ap, ◌∙◌, arith, ltb, ◌==◌, string_eq, text_eq_refl, any, Bool-cases, Option-cases, inl, inr,
  some-injective, none-ne-some,
}
use ruriko.Prelude.Text.{append}
use ruriko.AgentApprovals.{
  Status, pending, approved, denied, expired, other, Row, Rows, set_row, set_approval_status,
  save_approval, save_row, get_approval_status, read_row, read_status, Event, recorded,
  context_done, timed_out, ticked, Outcome, allowed, waiting, after_poll, step, finish, wait,
  effective_ttl, request,
}

abbrev is_approved : Status → Bool
is_approved approved = true
is_approved _ = false

abbrev is_approved_row : Option Row → Bool
is_approved_row none = false
is_approved_row (some r) = is_approved r.status

-- The event records that the request is approved.
abbrev pub approves : String → Event → Bool
approves id (recorded false key status) = key == id && is_approved status
approves id _ = false

abbrev pub is_allowed : Outcome → Bool
is_allowed allowed = true
is_allowed _ = false

abbrev is_allowed_end : Option Outcome → Bool
is_allowed_end none = false
is_allowed_end (some o) = is_allowed o

-- The request is not approved in the table.
abbrev IsOpen : String → Rows → Type 0
IsOpen id rows = is_approved_row (rows id) ≡ false

IsOpen-set_row :
    (id key : String) (status : Status) (o : Option Row) (rows : Rows)
    → rows key ≡ o
    → (key == id && is_approved status) ≡ false
    → IsOpen id rows
    → IsOpen id (set_row status o rows key)
IsOpen-set_row id key status none rows e a h = h
IsOpen-set_row id key status (some r) rows e a h = elim (Bool-cases (key == id)) [
  | inl q ↦ rw q (rw q at a)
  | inr q ↦ rw q h
]

IsOpen-set_approval_status :
    (fails : Bool) (id key : String) (status : Status) (rows : Rows)
    → (not fails && (key == id && is_approved status)) ≡ false
    → IsOpen id rows
    → IsOpen id (set_approval_status fails key status rows)
IsOpen-set_approval_status true id key status rows a h = h
IsOpen-set_approval_status false id key status rows a h =
    IsOpen-set_row id key status (rows key) rows refl a h

-- What a wakeup that does not record an approval does: the request stays open and is not allowed.
abbrev StaysOpen : String → Rows × Option Outcome → Type 0
StaysOpen id out = (IsOpen id out.0) × (is_allowed_end out.1 ≡ false)

||-left : (a b : Bool) → (a || b) ≡ false → a ≡ false
||-left true b h = h
||-left false b h = refl

||-right : (a b : Bool) → (a || b) ≡ false → b ≡ false
||-right true b h = absurd (ground (arith, h))
||-right false b h = h

denied_open : (b c : Bool) → (not b && (c && false)) ≡ false
denied_open b c = ground arith

refuses-IsOpen :
    (set_fails : Bool) (id : String) (status : Status) (rows : Rows)
    → is_approved status ≡ false
    → IsOpen id rows
    → IsOpen id (set_approval_status set_fails id status rows)
refuses-IsOpen set_fails id status rows a h =
    IsOpen-set_approval_status set_fails id id status rows (rw a (denied_open set_fails (id == id)))
      h

StaysOpen-read :
    (set_fails : Bool) (now expires_at : ℕ) (id : String) (rows : Rows) (status : Status)
    → IsOpen id rows
    → is_approved status ≡ false
    → StaysOpen id (after_poll set_fails id (read_status now set_fails id rows expires_at status))
StaysOpen-read set_fails now expires_at id rows pending h a =
    elim (Bool-cases (ltb expires_at now)) [
      | inl e ↦ rw e (
        refuses-IsOpen set_fails id denied _ refl (refuses-IsOpen set_fails id expired rows refl h),
        refl,
      )
      | inr e ↦ rw e (h, refl)
    ]
StaysOpen-read set_fails now expires_at id rows approved h a = absurd (ground (arith, a))
StaysOpen-read set_fails now expires_at id rows denied h a = (h, refl)
StaysOpen-read set_fails now expires_at id rows expired h a =
    (refuses-IsOpen set_fails id denied rows refl h, refl)
StaysOpen-read set_fails now expires_at id rows (other s) h a =
    (refuses-IsOpen set_fails id denied rows refl h, refl)

StaysOpen-row :
    (set_fails : Bool) (now : ℕ) (id : String) (rows : Rows) (o : Option Row)
    → IsOpen id rows
    → is_approved_row o ≡ false
    → StaysOpen id (after_poll set_fails id (read_row now set_fails id rows o))
StaysOpen-row set_fails now id rows none h a = (h, refl)
StaysOpen-row set_fails now id rows (some r) h a =
    StaysOpen-read set_fails now r.expires_at id rows r.status h a

StaysOpen-step :
    (id : String) (e : Event) (rows : Rows)
    → approves id e ≡ false
    → IsOpen id rows
    → StaysOpen id (step id e rows)
unfolding get_approval_status
StaysOpen-step id (recorded true key status) rows a h = (h, refl)
StaysOpen-step id (recorded false key status) rows a h =
    (IsOpen-set_approval_status false id key status rows a h, refl)
StaysOpen-step id context_done rows a h = (h, refl)
StaysOpen-step id (timed_out set_fails) rows a h =
    (refuses-IsOpen set_fails id denied rows refl h, refl)
StaysOpen-step id (ticked true set_fails now) rows a h = (h, refl)
StaysOpen-step id (ticked false set_fails now) rows a h =
    StaysOpen-row set_fails now id rows (rows id) h h

finish-allowed :
    (out : Rows × Option Outcome) (rest : Rows × Outcome)
    → is_allowed_end out.1 ≡ false
    → is_allowed rest.1 ≡ false
    → is_allowed (finish out rest).1 ≡ false
finish-allowed (rows, none) rest o r = r
finish-allowed (rows, some x) rest o r = o

wait-refuses :
    (id : String) (es : List Event) (rows : Rows)
    → any (approves id) es ≡ false
    → IsOpen id rows
    → is_allowed (wait id es rows).1 ≡ false
unfolding wait
wait-refuses id [] rows a h = refl
wait-refuses id (e ∷ es) rows a h =
    let (opened, o) = StaysOpen-step id e rows (||-left _ _ a) h in
    finish-allowed (step id e rows) _ o
      (wait-refuses id es (step id e rows).0 (||-right _ _ a) opened)

saved-IsOpen :
    (o : Option Row) (rows rows' : Rows) (id : String) (expires_at : ℕ)
    → save_row o (record { status = pending; expires_at = expires_at }) rows id ≡ some rows'
    → IsOpen id rows'
saved-IsOpen none rows rows' id expires_at e =
    ap (λ m. is_approved_row (m id)) (sym (some-injective _ _ e)) ∙ rw (text_eq_refl id) refl
saved-IsOpen (some r) rows rows' id expires_at e = absurd (none-ne-some _ e)

-- Request allows the operation only if, while it waits, the control plane records that this request is
-- approved: time, errors of the database and decisions on other requests never allow it.
pub request-refuses :
    (trace_id : String) (save_fails : Bool) (now ttl : ℕ) (es : List Event) (rows : Rows)
    → any (approves (append "appr_" trace_id)) es ≡ false
    → is_allowed (request trace_id save_fails now ttl es rows).1 ≡ false
unfolding request save_approval
request-refuses trace_id true now ttl es rows a = refl
request-refuses trace_id false now ttl es rows a =
    let id = append "appr_" trace_id in
    elim (Option-cases (
      save_row (rows (append "appr_" trace_id))
        (record { status = pending; expires_at = now + effective_ttl ttl }) rows
        (append "appr_" trace_id))) [
          | inl e ↦ rw e refl
          | inr (saved, e) ↦ rw e (
              wait-refuses id es saved a
                (saved-IsOpen (rows id) rows saved id (now + effective_ttl ttl) e))
        ]

-- The context is done, or the time is up.
abbrev pub is_final : Event → Bool
is_final context_done = true
is_final (timed_out set_fails) = true
is_final _ = false

abbrev pub is_waiting : Outcome → Bool
is_waiting waiting = true
is_waiting _ = false

abbrev never_waiting : Option Outcome → Bool
never_waiting none = true
never_waiting (some o) = not (is_waiting o)

never_waiting-after_poll :
    (set_fails : Bool) (id : String) (p : Rows × Option Status)
    → never_waiting (after_poll set_fails id p).1 ≡ true
never_waiting-after_poll set_fails id (rows, none) = refl
never_waiting-after_poll set_fails id (rows, some pending) = refl
never_waiting-after_poll set_fails id (rows, some approved) = refl
never_waiting-after_poll set_fails id (rows, some denied) = refl
never_waiting-after_poll set_fails id (rows, some expired) = refl
never_waiting-after_poll set_fails id (rows, some (other s)) = refl

negated : (b : Bool) → not b ≡ true → b ≡ false
negated true n = sym n
negated false n = refl

finish-ends :
    (out : Rows × Option Outcome) (rest : Rows × Outcome)
    → never_waiting out.1 ≡ true
    → is_waiting rest.1 ≡ false
    → is_waiting (finish out rest).1 ≡ false
finish-ends (rows, none) rest n r = r
finish-ends (rows, some o) rest n r = negated _ n

wait-ends :
    (id : String) (es : List Event) (rows : Rows)
    → any is_final es ≡ true
    → is_waiting (wait id es rows).1 ≡ false
unfolding wait
wait-ends id [] rows f = absurd (ground (arith, f))
wait-ends id (context_done ∷ es) rows f = refl
wait-ends id (timed_out set_fails ∷ es) rows f = refl
wait-ends id (recorded fails key status ∷ es) rows f = wait-ends id es _ f
wait-ends id (ticked fails set_fails now ∷ es) rows f =
    finish-ends (after_poll set_fails id (get_approval_status fails set_fails now id rows)) _
      (never_waiting-after_poll set_fails id _) (wait-ends id es _ f)

-- Request has ended once its time is up or its context is done, whatever else happens.
pub request-ends :
    (trace_id : String) (save_fails : Bool) (now ttl : ℕ) (es : List Event) (rows : Rows)
    → any is_final es ≡ true
    → is_waiting (request trace_id save_fails now ttl es rows).1 ≡ false
unfolding request
request-ends trace_id save_fails now ttl es rows f =
    let id = append "appr_" trace_id in
    elim (Option-cases
      (save_approval save_fails (append "appr_" trace_id) (now + effective_ttl ttl) rows)) [
        | inl e ↦ rw e refl
        | inr (saved, e) ↦ rw e (wait-ends id es saved f)
      ]
