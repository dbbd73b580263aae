-- ===== src/Approvals.antt =====
-- internal/ruriko/approvals: the requests that wait for an operator's decision. The table `approvals`
-- is the list of its rows; each SQL statement is the function of the rows that it describes, and
-- may fail, which changes nothing. A time is a number of nanoseconds since Go's zero time.
pub mod Resolve
pub mod Final
pub mod Create
pub mod Parser
pub mod Decide
mod Tests
use ruriko.Prelude.{
  ℕ, zero, suc, ◌+◌, String, Bool, true, false, ◌&&◌, ◌++◌, Option, none, some, List, [], ◌∷◌, ltb,
  ◌==◌, string_eq, if◌then◌else◌,
}

pub data Status : Type 0 where
  pending approved denied expired cancelled : Status

-- `params` stands for the JSON text that encodes it: the code decodes only what it has encoded.
pub record Approval : Type 0 where
  pub id : String
  pub action : String
  pub target : String
  pub params : List String × List (String × String)
  pub requestor_mxid : String
  pub status : Status
  pub created_at : ℕ
  pub expires_at : ℕ
  pub resolved_at : Option ℕ
  pub resolved_by_mxid : Option String
  pub resolve_reason : Option String

pub data Error : Type 0 where
  not_found : String → Error
  already_in_state : String → Status → Error
  database_failed create_failed no_entropy : Error

abbrev pub Rows : Type 0
Rows = List Approval

abbrev pub is_pending : Status → Bool
is_pending pending = true
is_pending _ = false

-- The row with the primary key `id`.
abbrev pub find : String → Rows → Option Approval
find id [] = none
find id (a ∷ rows) = let rest = find id rows in if a.id == id then some a else rest

abbrev resolved : ℕ → Status → String → String → Approval → Approval
resolved now status resolver reason a = record a {
  status = status;
  resolved_at = some now;
  resolved_by_mxid = some resolver;
  resolve_reason = some reason;
}

-- UPDATE approvals SET … WHERE id = ? AND status = 'pending'
abbrev pub update_pending : ℕ → String → Status → String → String → Rows → Rows
update_pending now id status resolver reason [] = []
update_pending now id status resolver reason (a ∷ rows) =
    (if a.id == id && is_pending a.status then resolved now status resolver reason a else a)
    ∷ update_pending now id status resolver reason rows

-- RowsAffected of that statement.
abbrev pub affected : String → Rows → ℕ
affected id [] = 0
affected id (a ∷ rows) =
    let rest = affected id rows in if a.id == id && is_pending a.status then suc rest else rest

-- The second query, which tells the two reasons for no affected row apart.
abbrev why_unaffected : String → Option Approval → Error
why_unaffected id none = not_found id
why_unaffected id (some a) = already_in_state id a.status

abbrev is_zero : ℕ → Bool
is_zero zero = true
is_zero (suc n) = false

-- `fails` is whether the database fails; where the update works, the query behind it does too.
unfoldable pub resolve : Bool → ℕ → String → Status → String → String → Rows → Rows × Option Error
resolve fails now id status resolver reason rows =
    if fails
    then (rows, some database_failed)
    else if is_zero (affected id rows)
    then (rows, some (why_unaffected id (find id rows)))
    else (update_pending now id status resolver reason rows, none)

unfoldable pub approve : Bool → ℕ → String → String → String → Rows → Rows × Option Error
approve fails now id approver reason rows = resolve fails now id approved approver reason rows

unfoldable pub deny : Bool → ℕ → String → String → String → Rows → Rows × Option Error
deny fails now id denier reason rows = resolve fails now id denied denier reason rows

unfoldable pub cancel : Bool → ℕ → String → String → String → Rows → Rows × Option Error
cancel fails now id canceller reason rows = resolve fails now id cancelled canceller reason rows

-- UPDATE approvals SET status = 'expired', … WHERE status = 'pending' AND expires_at < ?
abbrev pub is_stale : ℕ → Approval → Bool
is_stale now a = is_pending a.status && ltb a.expires_at now

abbrev pub expire_row : ℕ → Approval → Approval
expire_row now a =
    if is_stale now a then record a { status = expired; resolved_at = some now } else a

abbrev expire_rows : ℕ → Rows → Rows
expire_rows now [] = []
expire_rows now (a ∷ rows) = expire_row now a ∷ expire_rows now rows

abbrev count_stale : ℕ → Rows → ℕ
count_stale now [] = 0
count_stale now (a ∷ rows) =
    let rest = count_stale now rows in if is_stale now a then suc rest else rest

unfoldable pub expire_stale : Bool → ℕ → Rows → Rows × Option ℕ
expire_stale fails now rows =
    if fails then (rows, none) else (expire_rows now rows, some (count_stale now rows))

unfoldable pub get : Bool → String → Rows → Option Approval
get fails id rows = if fails then none else find id rows

-- `a.Status == StatusPending && time.Now().After(a.ExpiresAt)`
unfoldable pub is_expired : ℕ → Approval → Bool
is_expired now a = is_pending a.status && ltb a.expires_at now

pub record Request : Type 0 where
  pub action : String
  pub target : String
  pub params : List String × List (String × String)
  pub requestor_mxid : String
  pub ttl : ℕ

abbrev pub new_row : ℕ → String → Request → Approval
new_row now id r = record {
  id = id;
  action = r.action;
  target = r.target;
  params = r.params;
  requestor_mxid = r.requestor_mxid;
  status = pending;
  created_at = now;
  expires_at = now + r.ttl;
  resolved_at = none;
  resolved_by_mxid = none;
  resolve_reason = none;
}

-- INSERT INTO approvals …: refused where the key is taken, or where the database fails.
abbrev pub insert : Bool → Approval → Rows → Option Rows
insert fails a rows =
    if fails then none else elim (find a.id rows) [ none ↦ some (rows ++ a ∷ []) | some b ↦ none ]

abbrev pub max_id_retries : ℕ
max_id_retries = 3

pub data Created : Type 0 where
  created : Approval → Created
  failed : Error → Created

-- One attempt gets what `generateID` returns, and whether the database fails.
abbrev pub Attempt : Type 0
Attempt = Option String × Bool

-- The loop over the attempts that are left.
pub create_from : ℕ → ℕ → (ℕ → Attempt) → ℕ → Request → Rows → Rows × Created
create_from zero attempt draw now r rows = (rows, failed create_failed)
create_from (suc left) attempt draw now r rows = elim ((draw attempt).0) [
  | none ↦ (rows, failed no_entropy)
  | some id ↦ elim (insert (draw attempt).1 (new_row now id r) rows) [
    | none ↦ create_from left (suc attempt) draw now r rows
    | some rows' ↦ (rows', created (new_row now id r))
  ]
]

unfoldable pub create : (ℕ → Attempt) → ℕ → Request → Rows → Rows × Created
unfolding create_from
create draw now r rows = create_from max_id_retries 0 draw now r rows
