-- ===== src/Approvals/Resolve.antt =====
-- What Approve, Deny, Cancel and the sweep of stale requests do to each row.
use mathlib.Core.Bool.{false≢true}
use ruriko.Prelude.{
  &&-left, &&-right, ℕ, ◌≤◌, ◌<◌, ◌≢◌, ◌⊎◌, ltb, suc, ◌≡◌, refl, sym, ap, ◌∙◌, some-injective,
  none-ne-some, String, Bool, true, false, ◌&&◌, Option, none, some, [], ◌∷◌, arith, ◌==◌,
  string_eq, text_eq_iff, if◌then◌else◌, Bool-cases, Option-cases, inl, inr,
}
use ruriko.Approvals.{
  Status, pending, approved, denied, expired, cancelled, count_stale, Approval, Error, Rows,
  not_found, already_in_state, database_failed, find, is_pending, resolved, update_pending,
  affected, resolve, is_stale, expire_row, expire_rows, expire_stale,
}

abbrev is_pending_row : Option Approval → Bool
is_pending_row none = false
is_pending_row (some a) = is_pending a.status

-- No two rows have one key, as the table's primary key demands.
abbrev pub KeyFree : String → Rows → Type 0
KeyFree id rows = find id rows ≡ none

abbrev pub HasKeys : Rows → Type 0
HasKeys [] = Unit
HasKeys (a ∷ rows) = KeyFree a.id rows × HasKeys rows

affected_of_free : (id : String) (rows : Rows) → KeyFree id rows → affected id rows ≡ 0
affected_of_free id [] f = refl
affected_of_free id (a ∷ rows) f = ground (arith, affected_of_free id rows)

affected-find :
    (id : String) (rows : Rows)
    → HasKeys rows
    → affected id rows ≡ (if is_pending_row (find id rows) then 1 else 0)
affected-find id [] k = refl
affected-find id (a ∷ rows) k = elim (Bool-cases (a.id == id)) [
  | inl e ↦
      rw (e, affected_of_free id rows (rw ((text_eq_iff a.id id).0 e) at (k.0))) (ground arith)
  | inr e ↦ rw e (affected-find id rows k.1)
]

abbrev pub on_row : (Approval → Approval) → Option Approval → Option Approval
on_row f none = none
on_row f (some a) = some (f a)

on_row-same :
    (f : Approval → Approval) (o : Option Approval)
    → ((a : Approval) → o ≡ some a → f a ≡ a)
    → on_row f o ≡ o
on_row-same f none h = refl
on_row-same f (some a) h = ap some (h a refl)

abbrev pub settle : ℕ → String → Status → String → String → String → Approval → Approval
settle now id status resolver reason key a =
    if key == id && is_pending a.status then resolved now status resolver reason a else a

pub find-update_pending :
    (now : ℕ) (id : String) (status : Status) (resolver reason : String) (rows : Rows)
    (key : String)
    → find key (update_pending now id status resolver reason rows)
      ≡ on_row (settle now id status resolver reason key) (find key rows)
find-update_pending now id status resolver reason [] key = refl
find-update_pending now id status resolver reason (a ∷ rows) key = ground (
  arith,
  text_eq_iff a.id key,
  text_eq_iff a.id id,
  text_eq_iff key id,
  find-update_pending now id status resolver reason rows key,
)

-- The answer that the caller of `resolve` gets when the database works.
abbrev pub answer : String → Option Approval → Option Error
answer id none = some (not_found id)
answer id (some a) = if is_pending a.status then none else some (already_in_state id a.status)

same_row-none :
    (now : ℕ) (id : String) (status : Status) (resolver reason : String) (rows : Rows)
    (key : String)
    → find id rows ≡ none
    → on_row (settle now id status resolver reason key) (find key rows) ≡ find key rows
same_row-none now id status resolver reason rows key e = on_row-same _ (find key rows) (λ a h.
    elim (Bool-cases (key == id)) [
      | inl q ↦
          absurd
            (none-ne-some _ (sym e ∙ ap (λ k. find k rows) (sym ((text_eq_iff key id).0 q)) ∙ h))
      | inr q ↦ rw q refl
    ])

same_row-settled :
    (now : ℕ) (id : String) (status : Status) (resolver reason : String) (rows : Rows)
    (key : String) (a : Approval)
    → find id rows ≡ some a
    → is_pending a.status ≡ false
    → on_row (settle now id status resolver reason key) (find key rows) ≡ find key rows
same_row-settled now id status resolver reason rows key a e p =
    on_row-same _ (find key rows) (λ b h. elim (Bool-cases (key == id)) [
      | inl q ↦
          let same =
            some-injective _ _ (sym h ∙ ap (λ k. find k rows) ((text_eq_iff key id).0 q) ∙ e) in
          rw (q, ap (λ c. is_pending c.status) same ∙ p) refl
      | inr q ↦ rw q refl
    ])

-- Approve, Deny and Cancel, through `resolve`: with the database at work, the answer is an error
-- exactly if there is no such request or it is not pending any more, and the error says which. A
-- pending request gets the new state, and no other row changes, whatever the answer. If the database
-- fails, nothing changes. The table must have its keys.
pub resolve_lem :
    (now : ℕ) (id : String) (status : Status) (resolver reason : String) (rows : Rows)
    (key : String)
    → HasKeys rows
    → ((resolve false now id status resolver reason rows).1 ≡ answer id (find id rows))
      × (find key (resolve false now id status resolver reason rows).0
          ≡ on_row (settle now id status resolver reason key) (find key rows))
      × (resolve true now id status resolver reason rows ≡ (rows, some database_failed))
unfolding resolve
resolve_lem now id status resolver reason rows key k = elim (Option-cases (find id rows)) [
  | inl e ↦
      rw (affected-find id rows k, e)
        (refl, sym (same_row-none now id status resolver reason rows key e), refl)
  | inr (a, e) ↦ elim (Bool-cases (is_pending a.status)) [
    | inl p ↦
        rw (affected-find id rows k, e, p)
          (refl, find-update_pending now id status resolver reason rows key, refl)
    | inr p ↦
        rw (affected-find id rows k, e, p)
          (refl, sym (same_row-settled now id status resolver reason rows key a e p), refl)
  ]
]

free_after :
    (now : ℕ) (id : String) (status : Status) (resolver reason : String) (rows : Rows)
    (a : Approval)
    → KeyFree a.id rows
    → KeyFree
        (settle now id status resolver reason a.id a).id
        (update_pending now id status resolver reason rows)
free_after now id status resolver reason rows a k =
    elim (Bool-cases (a.id == id && is_pending a.status)) [
      | inl e ↦ rw (e, find-update_pending now id status resolver reason rows a.id, k) refl
      | inr e ↦ rw (e, find-update_pending now id status resolver reason rows a.id, k) refl
    ]

HasKeys-update_pending :
    (now : ℕ) (id : String) (status : Status) (resolver reason : String) (rows : Rows)
    → HasKeys rows
    → HasKeys (update_pending now id status resolver reason rows)
HasKeys-update_pending now id status resolver reason [] k = tt
HasKeys-update_pending now id status resolver reason (a ∷ rows) k = (
  free_after now id status resolver reason rows a k.0,
  HasKeys-update_pending now id status resolver reason rows k.1,
)

pub find-expire_rows :
    (now : ℕ) (rows : Rows) (key : String)
    → find key (expire_rows now rows) ≡ on_row (expire_row now) (find key rows)
find-expire_rows now [] key = refl
find-expire_rows now (a ∷ rows) key = ground (arith, find-expire_rows now rows key)

-- The row is pending and past its deadline, and becomes expired at the time of the sweep.
abbrev IsEnded : ℕ → Approval → Approval → Type 0
IsEnded now a b =
    (a.status ≡ pending)
    × ((a.expires_at < now) × (b ≡ record a { status = expired; resolved_at = some now }))

-- The row is decided already or not past its deadline, and stays as it is.
abbrev IsSpared : ℕ → Approval → Approval → Type 0
IsSpared now a b = ((a.status ≢ pending) ⊎ (now ≤ a.expires_at)) × (b ≡ a)

-- Row by row, in order: each is ended or spared, and the number is that of the ended ones.
abbrev pub AreSwept : ℕ → ℕ → Rows → Rows → Type 0
AreSwept now n [] [] = n ≡ 0
AreSwept now n [] (b ∷ bs) = ⊥
AreSwept now n (a ∷ rows) [] = ⊥
AreSwept now n (a ∷ rows) (b ∷ bs) =
    (IsEnded now a b × ((k : ℕ) × ((n ≡ suc k) × AreSwept now k rows bs)))
    ⊎ (IsSpared now a b × AreSwept now n rows bs)

is_pending_lem : (s : Status) → is_pending s ≡ true → s ≡ pending
is_pending_lem pending p = refl
is_pending_lem approved p = cc
is_pending_lem denied p = cc
is_pending_lem expired p = cc
is_pending_lem cancelled p = cc

is_pending-false : (s : Status) → is_pending s ≡ false → s ≢ pending
is_pending-false s p e = false≢true (sym p ∙ ap is_pending e)

stale_row : (now : ℕ) (a : Approval) → is_stale now a ≡ true → IsEnded now a (expire_row now a)
stale_row now a s = (
  is_pending_lem a.status (&&-left _ _ s),
  (ground (arith, &&-right (is_pending a.status) (ltb a.expires_at now) s), rw s refl),
)

fresh_row : (now : ℕ) (a : Approval) → is_stale now a ≡ false → IsSpared now a (expire_row now a)
fresh_row now a s = (
  elim (Bool-cases (is_pending a.status)) [
    | inl p ↦ inr (ground (arith, rw p at s))
    | inr p ↦ inl (is_pending-false a.status p)
  ],
  rw s refl,
)

expire_rows-AreSwept :
    (now : ℕ) (rows : Rows) → AreSwept now (count_stale now rows) rows (expire_rows now rows)
expire_rows-AreSwept now [] = refl
expire_rows-AreSwept now (a ∷ rows) = elim (Bool-cases (is_stale now a)) [
  | inl s ↦
      inl (stale_row now a s, (count_stale now rows, (rw s refl, expire_rows-AreSwept now rows)))
  | inr s ↦ inr (fresh_row now a s, rw s (expire_rows-AreSwept now rows))
]

-- With the database at work, the sweep turns each request that is pending and past its deadline into an
-- expired one, resolved at the time of the sweep and otherwise as before, keeps every other row and the
-- order of the rows, and returns how many it has ended. If the database fails, nothing changes and no
-- number is returned.
pub expire_stale_lem :
    (now : ℕ) (rows : Rows)
    → ((n : ℕ) × (((expire_stale false now rows).1 ≡ some n)
          × AreSwept now n rows (expire_stale false now rows).0))
      × (expire_stale true now rows ≡ (rows, none))
unfolding expire_stale
expire_stale_lem now rows = ((count_stale now rows, (refl, expire_rows-AreSwept now rows)), refl)
