-- ===== src/Approvals/Create.antt =====
-- What Create does: a new pending request, or nothing.
use mathlib.Core.Path.{subst}
use ruriko.Prelude.{
  ℕ, zero, suc, ◌+◌, ◌<◌, String, Bool, true, false, none, some, [], ◌∷◌, ◌≡◌, refl, sym, ◌++◌,
  arith, some-injective, none-ne-some, string_eq, Option-cases, inl, inr,
}
use ruriko.Approvals.{
  Approval, pending, Rows, Request, Attempt, Created, created, failed, find, create, create_from,
  insert, new_row, max_id_retries,
}
use ruriko.Approvals.Resolve.{KeyFree}

-- A pending row with the data of the caller, from now until its lifetime has passed.
abbrev pub IsRequested : ℕ → Request → Approval → Type 0
IsRequested now r a =
    (a.status ≡ pending)
    × ((a.created_at ≡ now)
        × ((a.expires_at ≡ now + r.ttl)
            × ((a.action ≡ r.action)
                × ((a.target ≡ r.target)
                    × ((a.params ≡ r.params)
                        × ((a.requestor_mxid ≡ r.requestor_mxid)
                            × ((a.resolved_at ≡ none)
                                × ((a.resolved_by_mxid ≡ none) × (a.resolve_reason ≡ none)))))))))

new_row-IsRequested : (now : ℕ) (id : String) (r : Request) → IsRequested now r (new_row now id r)
new_row-IsRequested now id r =
    (refl, (refl, (refl, (refl, (refl, (refl, (refl, (refl, (refl, refl)))))))))

-- What a call may do to the table: add the row that it returns, whose key was free, behind the others,
-- or return an error and leave the table as it was.
abbrev pub IsCreated : ℕ → Request → Rows → Rows × Created → Type 0
IsCreated now r rows (rows', created a) =
    (KeyFree a.id rows) × IsRequested now r a × (rows' ≡ rows ++ a ∷ [])
IsCreated now r rows (rows', failed e) = rows' ≡ rows

insert-some :
    (fails : Bool) (a : Approval) (rows rows' : Rows)
    → insert fails a rows ≡ some rows'
    → (KeyFree a.id rows) × (rows' ≡ rows ++ a ∷ [])
insert-some true a rows rows' q = absurd (none-ne-some _ q)
insert-some false a rows rows' q = elim (Option-cases (find a.id rows)) [
  | inl e ↦ (e, sym (some-injective _ _ (rw (e, insert) at q)))
  | inr (c, e) ↦ absurd (none-ne-some _ (rw (e, insert) at q))
]

create_from-IsCreated :
    (left attempt : ℕ) (draw : ℕ → Attempt) (now : ℕ) (r : Request) (rows : Rows)
    → IsCreated now r rows (create_from left attempt draw now r rows)
unfolding create_from
create_from-IsCreated zero attempt draw now r rows = refl
create_from-IsCreated (suc left) attempt draw now r rows = elim (Option-cases (draw attempt).0) [
  | inl e ↦ rw (e, create_from) refl
  | inr (key, e) ↦
      rw (e, create_from)
        (elim (Option-cases (insert (draw attempt).1 (new_row now key r) rows)) [
          | inl q ↦ rw q (create_from-IsCreated left (suc attempt) draw now r rows)
          | inr (rows', q) ↦
              let (free, same) = insert-some (draw attempt).1 (new_row now key r) rows rows' q in
              rw q (free, new_row-IsRequested now key r, same)
        ])
]

-- Create adds one pending row with the caller's data, under a key that was free, behind the rows that
-- are there, and returns it; or it returns an error and leaves the table as it was.
pub create-IsCreated :
    (draw : ℕ → Attempt) (now : ℕ) (r : Request) (rows : Rows)
    → IsCreated now r rows (create draw now r rows)
unfolding create
create-IsCreated draw now r rows = create_from-IsCreated max_id_retries 0 draw now r rows

-- The attempts draw keys in turn, and the attempt at `n` gets a free one from a working database.
abbrev pub Succeeds : (ℕ → Attempt) → Rows → ℕ → Type 0
Succeeds draw rows n =
    (id : String) × ((draw n).0 ≡ some id) × ((draw n).1 ≡ false) × (KeyFree id rows)

-- An earlier attempt drew a key at all.
abbrev pub Draws : (ℕ → Attempt) → ℕ → Type 0
Draws draw n = (id : String) × ((draw n).0 ≡ some id)

abbrev pub is_created : Rows × Created → Bool
is_created (rows, created a) = true
is_created (rows, failed e) = false

insert-free :
    (fails : Bool) (a : Approval) (rows : Rows)
    → fails ≡ false
    → KeyFree a.id rows
    → insert fails a rows ≡ some (rows ++ a ∷ [])
insert-free fails a rows f k = rw (f, k, insert) refl

plus_zero : (k : ℕ) → k ≡ k + 0
plus_zero k = omega arith

zero_plus : (k : ℕ) → 0 + k ≡ k
zero_plus k = omega arith

next : (k attempt : ℕ) → suc k + attempt ≡ k + suc attempt
next k attempt = omega arith

create_from-Succeeds :
    (left attempt n : ℕ) (draw : ℕ → Attempt) (now : ℕ) (r : Request) (rows : Rows)
    → n < left
    → ((k : ℕ) → k < n → Draws draw (k + attempt))
    → Succeeds draw rows (n + attempt)
    → is_created (create_from left attempt draw now r rows) ≡ true
unfolding create_from
create_from-Succeeds zero attempt n draw now r rows l d s = absurd (omega (arith, l))
create_from-Succeeds (suc left) attempt zero draw now r rows l d s =
    let (id, e, f, k) = subst (Succeeds draw rows) (zero_plus attempt) s in
    rw (e, create_from) (rw (insert-free (draw attempt).1 (new_row now id r) rows f k) refl)
create_from-Succeeds (suc left) attempt (suc n) draw now r rows l d s =
    let (key, e) = subst (Draws draw) (zero_plus attempt) (d 0 (omega arith)) in
    rw (e, create_from)
      (elim (Option-cases (insert (draw attempt).1 (new_row now key r) rows)) [
        | inl q ↦ rw q (
            create_from-Succeeds left (suc attempt) n draw now r rows (omega (arith, l))
              (λ k h. subst (Draws draw) (next k attempt) (d (suc k) (omega (arith, h))))
              (subst (Succeeds draw rows) (next n attempt) s))
        | inr (rows', q) ↦ rw q refl
      ])

-- Create succeeds if one of its three attempts gets a free key and a working database, and a key can
-- be drawn in each attempt before it, whatever the database does there.
pub create-Succeeds :
    (n : ℕ) (draw : ℕ → Attempt) (now : ℕ) (r : Request) (rows : Rows)
    → n < 3
    → ((k : ℕ) → k < n → Draws draw k)
    → Succeeds draw rows n
    → is_created (create draw now r rows) ≡ true
unfolding create
create-Succeeds n draw now r rows l d s =
    create_from-Succeeds max_id_retries 0 n draw now r rows l
      (λ k h. subst (Draws draw) (plus_zero k) (d k h)) (subst (Succeeds draw rows) (plus_zero n) s)
