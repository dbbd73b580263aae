-- ===== src/Kuze/Tokens.antt =====
-- internal/ruriko/kuze/tokens.go: the tokens of one-time links. The table `kuze_tokens` is the list of
-- its rows. A time is a number of nanoseconds; the table keeps RFC 3339 texts, which are whole seconds,
-- and is asked for their order, which for these texts is the order of the seconds.
pub mod Redeem
pub mod OneTime
pub mod Lifetime
pub mod Prune
mod Tests
use ruriko.Prelude.{
  ℕ, zero, suc, ◌+◌, ◌*◌, ◌/◌, String, Bool, true, false, ◌&&◌, ◌||◌, not, ◌++◌, Option, none, some,
  List, [], ◌∷◌, ltb, leb, ◌==◌, string_eq, if◌then◌else◌, keep,
}
use ruriko.Prelude.Text.{is_empty}

pub record Row : Type 0 where
  pub token : String
  pub secret_ref : String
  pub secret_type : String
  pub created_at : ℕ
  pub expires_at : ℕ
  pub used : Bool
  pub agent_id : Option String
  pub purpose : Option String

pub record PendingToken : Type 0 where
  pub token : String
  pub secret_ref : String
  pub secret_type : String
  pub created_at : ℕ
  pub expires_at : ℕ
  pub used : Bool
  pub agent_id : String
  pub purpose : String

pub data Error : Type 0 where
  token_not_found token_expired token_used agent_id_mismatch : Error
  empty_agent_id no_entropy database_failed : Error

pub data Result {ℓ} (A : Type ℓ) : Type ℓ where
  ok : A → Result A
  err : Error → Result A

abbrev pub Rows : Type 0
Rows = List Row

abbrev pub second : ℕ
second = 1000000000

abbrev pub agent_ttl : ℕ
agent_ttl = 60 * second

abbrev default_ttl : ℕ
default_ttl = 600 * second

-- The lifetime of a new store's tokens. A duration below 0 counts as 0.
unfoldable pub new_token_store : ℕ → ℕ
new_token_store ttl = if ltb 0 ttl then ttl else default_ttl

-- t.Format(time.RFC3339), and the time that such a text is read as.
abbrev pub format : ℕ → ℕ
format t = t / second

abbrev pub parse_time : ℕ → ℕ
parse_time s = s * second

abbrev pub find : String → Rows → Option Row
find token [] = none
find token (r ∷ rows) = let rest = find token rows in if r.token == token then some r else rest

-- An empty text is stored as NULL, and NULL is read as the empty text.
abbrev nullable : String → Option String
nullable s = if is_empty s then none else some s

abbrev pub text_of : Option String → String
text_of none = ""
text_of (some s) = s

-- INSERT INTO kuze_tokens …: the token is the primary key.
abbrev pub insert : Bool → Row → Rows → Rows × Bool
insert fails r rows =
    if fails
    then (rows, false)
    else elim (find r.token rows) [ none ↦ (rows ++ r ∷ [], true) | some _ ↦ (rows, false) ]

abbrev pub ttl_for : ℕ → String → ℕ
ttl_for ttl agent_id = if is_empty agent_id then ttl else agent_ttl

abbrev pub new_row : ℕ → ℕ → String → String → String → String → String → Row
new_row ttl now token secret_ref secret_type agent_id purpose = record {
  token = token;
  secret_ref = secret_ref;
  secret_type = secret_type;
  created_at = format now;
  expires_at = format (now + ttl_for ttl agent_id);
  used = false;
  agent_id = nullable agent_id;
  purpose = nullable purpose;
}

-- The token and its time of expiry, which the table has only to the second.
abbrev issued : String → ℕ → Rows × Bool → Rows × Result (String × ℕ)
issued token expires_at (rows, true) = (rows, ok (token, expires_at))
issued token expires_at (rows, false) = (rows, err database_failed)

-- `drawn` is the text of the 32 random bytes, if there are any.
unfoldable pub issue :
    ℕ
    → Option String
    → Bool
    → ℕ
    → String
    → String
    → String
    → String
    → Rows
    → Rows × Result (String × ℕ)
issue ttl none fails now secret_ref secret_type agent_id purpose rows = (rows, err no_entropy)
issue ttl (some token) fails now secret_ref secret_type agent_id purpose rows =
    issued token (now + ttl_for ttl agent_id)
      (insert fails (new_row ttl now token secret_ref secret_type agent_id purpose) rows)

unfoldable pub issue_token :
    ℕ → Option String → Bool → ℕ → String → String → Rows → Rows × Result (String × ℕ)
issue_token ttl drawn fails now secret_ref secret_type rows =
    issue ttl drawn fails now secret_ref secret_type "" "" rows

unfoldable pub issue_agent :
    ℕ
    → Option String
    → Bool
    → ℕ
    → String
    → String
    → String
    → String
    → Rows
    → Rows × Result (String × ℕ)
issue_agent ttl drawn fails now secret_ref secret_type agent_id purpose rows =
    if is_empty agent_id
    then (rows, err empty_agent_id)
    else issue ttl drawn fails now secret_ref secret_type agent_id purpose rows

-- The row as the code reads it.
abbrev pub load : Row → PendingToken
load r = record {
  token = r.token;
  secret_ref = r.secret_ref;
  secret_type = r.secret_type;
  created_at = parse_time r.created_at;
  expires_at = parse_time r.expires_at;
  used = r.used;
  agent_id = text_of r.agent_id;
  purpose = text_of r.purpose;
}

-- UPDATE kuze_tokens SET used = 1 WHERE token = ? AND used = 0, and RowsAffected.
abbrev pub burn_rows : String → Rows → Rows
burn_rows token [] = []
burn_rows token (r ∷ rows) =
    (if r.token == token && not r.used then record r { used = true } else r) ∷ burn_rows token rows

abbrev pub affected : String → Rows → ℕ
affected token [] = 0
affected token (r ∷ rows) =
    let rest = affected token rows in if r.token == token && not r.used then suc rest else rest

abbrev is_zero : ℕ → Bool
is_zero zero = true
is_zero (suc n) = false

-- Which steps of a call on the database fail.
pub record Faults : Type 0 where
  pub query_fails : Bool
  pub burn_fails : Bool
  pub commit_fails : Bool

-- The part of Redeem behind the tests. Whatever fails rolls the transaction back.
abbrev burn_in_tx : Faults → PendingToken → String → Rows → Rows × Result PendingToken
burn_in_tx f pt token rows =
    if f.burn_fails
    then (rows, err database_failed)
    else if is_zero (affected token rows)
    then (rows, err token_used)
    else if f.commit_fails
    then (rows, err database_failed)
    else (burn_rows token rows, ok pt)

abbrev redeem_row : Faults → ℕ → String → String → Rows → Option Row → Rows × Result PendingToken
redeem_row f now token claimed rows none = (rows, err token_not_found)
redeem_row f now token claimed rows (some r) =
    let pt = load r in
    if pt.used
    then (rows, err token_used)
    else if ltb pt.expires_at now
    then (rows, err token_expired)
    else if not (pt.agent_id == claimed)
    then (rows, err agent_id_mismatch)
    else burn_in_tx f pt token rows

unfoldable pub redeem : Faults → ℕ → String → String → Rows → Rows × Result PendingToken
redeem f now token claimed rows =
    if f.query_fails
    then (rows, err database_failed)
    else redeem_row f now token claimed rows (find token rows)

abbrev validate_row : ℕ → Option Row → Result PendingToken
validate_row now none = err token_not_found
validate_row now (some r) =
    let pt = load r in
    if pt.used then err token_used else if ltb pt.expires_at now then err token_expired else ok pt

unfoldable pub validate : Bool → ℕ → String → Rows → Result PendingToken
validate fails now token rows =
    if fails then err database_failed else validate_row now (find token rows)

unfoldable pub burn : Bool → String → Rows → Rows × Option Error
burn fails token rows =
    if fails
    then (rows, some database_failed)
    else if is_zero (affected token rows)
    then (rows, some token_used)
    else (burn_rows token rows, none)

abbrev pub map_load : Rows → List PendingToken
map_load [] = []
map_load (r ∷ rows) = load r ∷ map_load rows

-- WHERE used = 0 AND expires_at < ?
abbrev pub is_expired_unused : ℕ → Row → Bool
is_expired_unused now r = not r.used && ltb r.expires_at (format now)

unfoldable pub list_expired_unused : Bool → ℕ → Rows → Result (List PendingToken)
list_expired_unused fails now rows =
    if fails then err database_failed else ok (map_load (keep (is_expired_unused now) rows))

-- DELETE … WHERE expires_at < ? OR used = 1
abbrev pub is_prunable : ℕ → Row → Bool
is_prunable now r = ltb r.expires_at (format now) || r.used

unfoldable pub prune_expired : Bool → ℕ → Rows → Rows × Option Error
prune_expired fails now rows =
    if fails then (rows, some database_failed) else (keep (λ r. not (is_prunable now r)) rows, none)
