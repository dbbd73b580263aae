-- ===== src/Approvals/Final.antt =====
-- Decided requests stay as they are.
use mathlib.Core.Path.{subst}
use ruriko.Prelude.{
  ℕ, String, Bool, true, false, some, List, [], ◌∷◌, ◌≡◌, refl, ap, ◌∙◌, zero, suc, some-injective,
  none-ne-some, ◌++◌, arith, ◌==◌, string_eq, Bool-cases, Option-cases, inl, inr,
}
use ruriko.Approvals.{
  Status, approved, denied, cancelled, Approval, Rows, Request, Attempt, find, is_pending, resolve,
  approve, deny, cancel, expire_stale, create, create_from, expire_row, expire_rows, insert,
  new_row, max_id_retries, affected, is_zero,
}
use ruriko.Approvals.Resolve.{on_row, settle, find-update_pending, find-expire_rows}

-- One call on the store, with what fails in it and what it is given.
pub data Operation : Type 0 where
  approving denying cancelling : Bool → ℕ → String → String → String → Operation
  sweeping : Bool → ℕ → Operation
  creating : (ℕ → Attempt) → ℕ → Request → Operation

pub run : Operation → Rows → Rows
unfolding approve deny cancel expire_stale create
run (approving fails now id by reason) rows = (approve fails now id by reason rows).0
run (denying fails now id by reason) rows = (deny fails now id by reason rows).0
run (cancelling fails now id by reason) rows = (cancel fails now id by reason rows).0
run (sweeping fails now) rows = (expire_stale fails now rows).0
run (creating draw now r) rows = (create draw now r rows).0

unfoldable pub run_all : List Operation → Rows → Rows
run_all [] rows = rows
run_all (op ∷ ops) rows = run_all ops (run op rows)

-- The row under `id` is `a`, which is decided.
abbrev Holds : String → Approval → Rows → Type 0
Holds id a rows = find id rows ≡ some a

find-append :
    (id : String) (rows : Rows) (b a : Approval) → Holds id a rows → Holds id a (rows ++ b ∷ [])
find-append id [] b a h = absurd (ground (arith, h))
find-append id (c ∷ rows) b a h = elim (Bool-cases (c.id == id)) [
  | inl e ↦ rw e (rw e at h)
  | inr e ↦ rw e (find-append id rows b a (rw e at h))
]

insert-Holds :
    (fails : Bool) (b : Approval) (rows rows' : Rows) (id : String) (a : Approval)
    → insert fails b rows ≡ some rows'
    → Holds id a rows
    → Holds id a rows'
insert-Holds true b rows rows' id a q h = absurd (none-ne-some _ q)
insert-Holds false b rows rows' id a q h = elim (Option-cases (find b.id rows)) [
  | inl e ↦
      subst (Holds id a) (some-injective _ _ (rw (e, insert) at q)) (find-append id rows b a h)
  | inr (c, e) ↦ absurd (none-ne-some _ (rw (e, insert) at q))
]

settle-decided :
    (now : ℕ) (key : String) (status : Status) (by reason id : String) (a : Approval)
    → is_pending a.status ≡ false
    → settle now key status by reason id a ≡ a
settle-decided now key status by reason id a p = elim (Bool-cases (id == key)) [
  | inl e ↦ rw (e, p) refl
  | inr e ↦ rw e refl
]

resolve-Holds :
    (fails : Bool) (now : ℕ) (key : String) (status : Status) (by reason : String) (rows : Rows)
    (id : String) (a : Approval)
    → is_pending a.status ≡ false
    → Holds id a rows
    → Holds id a (resolve fails now key status by reason rows).0
unfolding resolve
resolve-Holds true now key status by reason rows id a p h = h
resolve-Holds false now key status by reason rows id a p h =
    elim (Bool-cases (is_zero (affected key rows))) [
      | inl e ↦ rw e h
      | inr e ↦ rw e (
          find-update_pending now key status by reason rows id
          ∙ ap (on_row (settle now key status by reason id)) h
          ∙ ap some (settle-decided now key status by reason id a p))
    ]

expire-Holds :
    (now : ℕ) (rows : Rows) (id : String) (a : Approval)
    → is_pending a.status ≡ false
    → Holds id a rows
    → Holds id a (expire_rows now rows)
expire-Holds now rows id a p h =
    find-expire_rows now rows id ∙ ap (on_row (expire_row now)) h ∙ ap some (rw p refl)

create_from-Holds :
    (left attempt : ℕ) (draw : ℕ → Attempt) (now : ℕ) (r : Request) (rows : Rows) (id : String)
    (a : Approval)
    → Holds id a rows
    → Holds id a (create_from left attempt draw now r rows).0
unfolding create_from
create_from-Holds zero attempt draw now r rows id a h = h
create_from-Holds (suc left) attempt draw now r rows id a h = elim (Option-cases (draw attempt).0) [
  | inl e ↦ rw (e, create_from) h
  | inr (key, e) ↦
      rw (e, create_from)
        (elim (Option-cases (insert (draw attempt).1 (new_row now key r) rows)) [
          | inl q ↦ rw q (create_from-Holds left (suc attempt) draw now r rows id a h)
          | inr (rows', q) ↦
              rw q (insert-Holds (draw attempt).1 (new_row now key r) rows rows' id a q h)
        ])
]

run-Holds :
    (op : Operation) (rows : Rows) (id : String) (a : Approval)
    → is_pending a.status ≡ false
    → Holds id a rows
    → Holds id a (run op rows)
unfolding run approve deny cancel expire_stale create
run-Holds (approving fails now key by reason) rows id a p h =
    resolve-Holds fails now key approved by reason rows id a p h
run-Holds (denying fails now key by reason) rows id a p h =
    resolve-Holds fails now key denied by reason rows id a p h
run-Holds (cancelling fails now key by reason) rows id a p h =
    resolve-Holds fails now key cancelled by reason rows id a p h
run-Holds (sweeping true now) rows id a p h = h
run-Holds (sweeping false now) rows id a p h = expire-Holds now rows id a p h
run-Holds (creating draw now r) rows id a p h =
    create_from-Holds max_id_retries 0 draw now r rows id a h

-- A request that is decided stays exactly as it is, whatever calls follow on the store: no second
-- decision, no sweep and no new request changes its row or hides it.
pub find-run_all :
    (ops : List Operation) (rows : Rows) (id : String) (a : Approval)
    → find id rows ≡ some a
    → is_pending a.status ≡ false
    → find id (run_all ops rows) ≡ some a
unfolding run_all
find-run_all [] rows id a h p = h
find-run_all (op ∷ ops) rows id a h p =
    find-run_all ops (run op rows) id a (run-Holds op rows id a p h) p
