-- ===== src/Approvals/Decide/Handler.antt =====
-- What a decision does to the requests, and which commands it runs.
use Prim.Native.String.{String}
use mathlib.Core.Path.{subst}
use ruriko.Prelude.{
  ◌≤◌, ◌<◌, ltb, &&-right, arith, ℕ, Bool, true, false, ◌&&◌, Option, none, some, ◌==◌, ◌≡◌, refl,
  sym, ap, ◌∙◌, string_eq, text_eq_iff, if◌then◌else◌, Bool-cases, Option-cases, inl, inr,
  some-injective, none-ne-some, ◌⊎◌,
}
use ruriko.Approvals.{
  Approval, Status, approved, denied, cancelled, Error, Rows, find, is_pending, resolve, resolved,
  update_pending, approve, deny, cancel, is_expired, get, expire_stale, expire_row, is_zero,
  affected, why_unaffected, database_failed,
}
use ruriko.Approvals.Parser.{
  Decision, Parsed, decision, parse_decision, not_a_decision, usage, deny_without_reason,
  out_of_range,
}
use ruriko.Approvals.Resolve.{on_row, settle, find-update_pending, find-expire_rows}
use ruriko.Approvals.Decide.{
  Setting, decide_on, decide_swept, decide_parsed, handle_approval_decision, after_approve,
  after_deny,
}

pub resolve-cases :
    (fails : Bool) (now : ℕ) (key : String) (status : Status) (by reason : String) (rows : Rows)
    → ((e : Error) × (resolve fails now key status by reason rows ≡ (rows, some e)))
      ⊎ (resolve fails now key status by reason rows
          ≡ (update_pending now key status by reason rows, none))
unfolding resolve
resolve-cases true now key status by reason rows = inl (database_failed, refl)
resolve-cases false now key status by reason rows =
    elim (Bool-cases (is_zero (affected key rows))) [
      | inl e ↦ inl (why_unaffected key (find key rows), rw e refl)
      | inr e ↦ inr (rw e refl)
    ]

-- How the row of a request may change, from `c` to `b`, by a decision on the key that it has.
abbrev pub Decides : Setting → String → Decision → Approval → Approval → Type 0
Decides w sender d c b =
    ((c.expires_at < w.tested_at)
      × (b ≡ resolved w.updated_at cancelled sender "expired before decision" c))
    ⊎ ((w.tested_at ≤ c.expires_at)
        × (d.approve ≡ true)
        × ((c.requestor_mxid == sender) ≡ false)
        × (b ≡ resolved w.updated_at approved sender d.reason c))
    ⊎ ((w.tested_at ≤ c.expires_at)
        × (d.approve ≡ false)
        × (b ≡ resolved w.updated_at denied sender d.reason c))

-- The row under `id` changes from `c` to `b` in an update under `key` to `r`, or is as it was.
abbrev Updated : String → String → Approval → Approval → Approval → Type 0
Updated key id r c b = (b ≡ c) ⊎ ((id ≡ key) × (is_pending c.status ≡ true) × (b ≡ r))

settle-Updated :
    (now : ℕ) (key : String) (status : Status) (by reason id : String) (c : Approval)
    → Updated key id (resolved now status by reason c) c (settle now key status by reason id c)
settle-Updated now key status by reason id c = elim (Bool-cases (id == key)) [
  | inl e ↦ elim (Bool-cases (is_pending c.status)) [
    | inl p ↦ rw (e, p) (inr ((text_eq_iff id key).0 e, refl, refl))
    | inr p ↦ rw (e, p) (inl refl)
  ]
  | inr e ↦ rw e (inl refl)
]

resolve-Updated :
    (fails : Bool) (now : ℕ) (key : String) (status : Status) (by reason : String) (rows : Rows)
    (id : String) (c b : Approval)
    → find id rows ≡ some c
    → find id (resolve fails now key status by reason rows).0 ≡ some b
    → Updated key id (resolved now status by reason c) c b
resolve-Updated fails now key status by reason rows id c b h k =
    elim (resolve-cases fails now key status by reason rows) [
      | inl (e, q) ↦ inl (some-injective _ _ (sym k ∙ ap (λ p. find id p.0) q ∙ h))
      | inr q ↦
          subst (Updated key id (resolved now status by reason c) c)
            (sym (
              some-injective _ _ (
                sym k
                ∙ ap (λ p. find id p.0) q
                ∙ find-update_pending now key status by reason rows id
                ∙ ap (on_row (settle now key status by reason id)) h)))
            (settle-Updated now key status by reason id c)
    ]

-- The row under `id`, in the table in which the handler finds the request.
abbrev Changes : Setting → String → Decision → String → Approval → Approval → Type 0
Changes w sender d id c b =
    (b ≡ c) ⊎ ((id ≡ d.approval_id) × (is_pending c.status ≡ true) × Decides w sender d c b)

-- An update is a change if the branch that makes it is one for every row of its key.
Changes-by :
    (w : Setting) (sender : String) (d : Decision) (id : String) {r c b : Approval}
    → (id ≡ d.approval_id → b ≡ r → Decides w sender d c b)
    → Updated d.approval_id id r c b
    → Changes w sender d id c b
Changes-by w sender d id f (inl e) = inl e
Changes-by w sender d id f (inr (e, p, q)) = inr (e, p, f e q)

same_row :
    (id key : String) (rows : Rows) (c a : Approval)
    → find id rows ≡ some c
    → find key rows ≡ some a
    → id ≡ key
    → c ≡ a
same_row id key rows c a h k e = some-injective _ _ (sym h ∙ ap (λ i. find i rows) e ∙ k)

-- The test of the handler, at a row that equals the one that is tested.
is_late : (t : ℕ) (a c : Approval) → c ≡ a → is_expired t a ≡ true → c.expires_at < t
unfolding is_expired
is_late t a c e x =
    subst (λ r. r.expires_at < t) (sym e)
      (ground (arith, &&-right (is_pending a.status) (ltb a.expires_at t) x))

pub is_in_time :
    (t : ℕ) (a c : Approval)
    → c ≡ a
    → is_pending a.status ≡ true
    → is_expired t a ≡ false
    → t ≤ c.expires_at
unfolding is_expired
is_in_time t a c e p x = subst (λ r. t ≤ r.expires_at) (sym e) (ground (arith, rw p at x))

fst-after_approve :
    (w : Setting) (a : Approval) (p : Rows × Option Error) → (after_approve w a p).0 ≡ p.0
fst-after_approve w a (rows, none) = refl
fst-after_approve w a (rows, some e) = refl

fst-after_deny : (p : Rows × Option Error) → (after_deny p).0 ≡ p.0
fst-after_deny (rows, none) = refl
fst-after_deny (rows, some e) = refl

decide_on-Changes :
    (w : Setting) (sender : String) (d : Decision) (a : Approval) (rows : Rows) (id : String)
    (c b : Approval)
    → find d.approval_id rows ≡ some a
    → find id rows ≡ some c
    → find id (decide_on w sender d a rows).0 ≡ some b
    → Changes w sender d id c b
unfolding decide_on cancel approve deny
decide_on-Changes w sender d a rows id c b f h k = elim (Bool-cases (is_pending a.status)) [
  | inr p ↦ inl (some-injective _ _ (sym (rw p at k) ∙ h))
  | inl p ↦ elim (Bool-cases (d.approve && a.requestor_mxid == sender)) [
    | inl o ↦ inl (some-injective _ _ (sym (rw (p, o) at k) ∙ h))
    | inr o ↦ elim (Bool-cases (is_expired w.tested_at a)) [
      | inl x ↦
          Changes-by w sender d id
            (λ e q. inl (is_late w.tested_at a c (same_row id d.approval_id rows c a h f e) x, q))
            (resolve-Updated _ _ _ _ _ _ rows id c b h (rw (p, o, x) at k))
      | inr x ↦ elim (Bool-cases d.approve) [
        | inl y ↦
            Changes-by w sender d id
              (λ e q. inr (
                inl (
                  is_in_time w.tested_at a c (same_row id d.approval_id rows c a h f e) p x,
                  y,
                  ap (λ r. r.requestor_mxid == sender) (same_row id d.approval_id rows c a h f e)
                      ∙ rw y at o,
                  q,
                )))
              (resolve-Updated w.update_fails w.updated_at d.approval_id approved sender d.reason
                rows id c b h (sym (ap (find id) (fst-after_approve w a _)) ∙ rw (p, o, x, y) at k))
        | inr y ↦
            Changes-by w sender d id
              (λ e q. inr (
                inr (
                  is_in_time w.tested_at a c (same_row id d.approval_id rows c a h f e) p x,
                  y,
                  q,
                )))
              (resolve-Updated w.update_fails w.updated_at d.approval_id denied sender d.reason rows
                id c b h (sym (ap (find id) (fst-after_deny _)) ∙ rw (p, o, x, y) at k))
      ]
    ]
  ]
]

-- The row in the table that the sweep leaves.
abbrev pub swept : Setting → Approval → Approval
swept w a = if w.sweep_fails then a else expire_row w.swept_at a

find-swept :
    (w : Setting) (rows : Rows) (id : String) (a : Approval)
    → find id rows ≡ some a
    → find id (expire_stale w.sweep_fails w.swept_at rows).0 ≡ some (swept w a)
unfolding expire_stale
find-swept w rows id a h = elim (Bool-cases w.sweep_fails) [
  | inl e ↦ rw e h
  | inr e ↦ rw e (find-expire_rows w.swept_at rows id ∙ ap (on_row (expire_row w.swept_at)) h)
]

pub get-some :
    (fails : Bool) (id : String) (rows : Rows) (a : Approval)
    → get fails id rows ≡ some a
    → find id rows ≡ some a
unfolding get
get-some true id rows a e = absurd (none-ne-some _ e)
get-some false id rows a e = e

decide_swept-Changes :
    (w : Setting) (sender : String) (d : Decision) (rows : Rows) (id : String) (c b : Approval)
    → find id rows ≡ some c
    → find id (decide_swept w sender d rows).0 ≡ some b
    → Changes w sender d id c b
decide_swept-Changes w sender d rows id c b h k =
    elim (Option-cases (get w.get_fails d.approval_id rows)) [
      | inl f ↦ inl (some-injective _ _ (sym (rw f at k) ∙ h))
      | inr (a, f) ↦
          decide_on-Changes w sender d a rows id c b (get-some w.get_fails d.approval_id rows a f) h
            (rw f at k)
    ]

-- What happens to the row of a request, from `a` to `b`.
abbrev pub Handles : Setting → String → Parsed → String → Approval → Approval → Type 0
Handles w sender p id a b =
    (b ≡ a)
    ⊎ (b ≡ swept w a)
    ⊎ ((d : Decision) × (p ≡ decision d)
        × (id ≡ d.approval_id)
        × (is_pending (swept w a).status ≡ true)
        × Decides w sender d (swept w a) b)

Handles-decide_parsed :
    (w : Setting) (sender : String) (rows : Rows) (p : Parsed) (id : String) (a b : Approval)
    → find id rows ≡ some a
    → find id (decide_parsed w sender rows p).0 ≡ some b
    → Handles w sender p id a b
Handles-decide_parsed w sender rows (decision d) id a b h k = elim (Bool-cases w.configured) [
  | inl e ↦
      elim (decide_swept-Changes w sender d _ id (swept w a) b (find-swept w rows id a h)
        (simp e at k)) [ inl q ↦ inr (inl q) | inr (i, p, q) ↦ inr (inr (d, refl, i, p, q)) ]
  | inr e ↦ inl (some-injective _ _ (sym (simp e at k) ∙ h))
]
Handles-decide_parsed w sender rows not_a_decision id a b h k = inl (some-injective _ _ (sym k ∙ h))
Handles-decide_parsed w sender rows usage id a b h k = inl (some-injective _ _ (sym k ∙ h))
Handles-decide_parsed w sender rows deny_without_reason id a b h k =
    inl (some-injective _ _ (sym k ∙ h))
Handles-decide_parsed w sender rows out_of_range id a b h k = inl (some-injective _ _ (sym k ∙ h))

-- The handler of a message leaves the row of a request as it was, or as the sweep of stale requests
-- leaves it, or the message decides on this very request, which is pending after the sweep. Then the
-- row becomes cancelled if its deadline has passed, approved only if the sender is not its requestor,
-- and denied otherwise, in the sender's name.
pub handle_approval_decision-Handles :
    (w : Setting) (sender message : String) (rows : Rows) (id : String) (a b : Approval)
    → find id rows ≡ some a
    → find id (handle_approval_decision w sender message rows).0 ≡ some b
    → Handles w sender (parse_decision message) id a b
unfolding handle_approval_decision
handle_approval_decision-Handles w sender message rows id a b h k =
    Handles-decide_parsed w sender rows (parse_decision message) id a b h k
