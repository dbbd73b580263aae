-- ===== src/Secrets.antt =====
-- internal/gitai/secrets/store.go and manager.go: the secrets that an agent holds in memory, and how
-- long it may use them. Apply and GetSecret take the locks of the manager and of the store in turn; the
-- functions are their effect when no other call comes between. Evict is three steps, and what other
-- calls do between them is a parameter. A time is a number of nanoseconds.
pub mod Base64
pub mod Lifetime
pub mod Evict
mod Tests
use ruriko.Prelude.{
  ℕ, zero, suc, ◌+◌, ◌*◌, String, Bool, true, false, ◌&&◌, not, Option, none, some, List, [], ◌∷◌,
  ltb, ◌==◌, string_eq, if◌then◌else◌, length, keep,
}
use ruriko.Prelude.GoMap.{GoMap, empty, put, delete}
use ruriko.Secrets.Base64.{Bytes, decode_string}

-- The values of a decoded set.
abbrev pub Secrets : Type 0
Secrets = GoMap Bytes

pub record Manager : Type 0 where
  pub store : Secrets
  pub entries : GoMap ℕ
  pub ttl : ℕ

abbrev default_cache_ttl : ℕ
default_cache_ttl = 14400000000000

unfoldable pub new_manager : ℕ → Manager
new_manager ttl = record {
  store = empty;
  entries = empty;
  ttl = if ltb 0 ttl then ttl else default_cache_ttl;
}

abbrev put_decoded : Option Bytes → String → Option Secrets → Option Secrets
put_decoded (some val) name (some decoded) = some (put decoded name val)
put_decoded _ name _ = none

-- The loop of Store.Apply, over the entries in the order in which Go visits the map.
abbrev pub decode_all : List (String × String) → Option Secrets
decode_all [] = some empty
decode_all ((name, b64val) ∷ rest) =
    let more = decode_all rest in put_decoded (decode_string b64val) name more

-- The loop that gives every ref the same time of expiry.
abbrev pub put_all : ℕ → List (String × String) → GoMap ℕ → GoMap ℕ
put_all expires_at [] entries = entries
put_all expires_at ((ref, val) ∷ rest) entries =
    let more = put_all expires_at rest entries in put more ref expires_at

abbrev pub effective_ttl : Manager → ℕ → ℕ
effective_ttl m ttl = if ltb 0 ttl then ttl else m.ttl

abbrev apply_decoded : List (String × String) → ℕ → ℕ → Manager → Option Secrets → Manager × Bool
apply_decoded sec ttl now m none = (m, false)
apply_decoded sec ttl now m (some decoded) = (
  record m { store = decoded; entries = put_all (now + effective_ttl m ttl) sec m.entries },
  true,
)

-- Manager.Apply, through Store.Apply: whether it succeeded. A duration below 0 counts as 0.
unfoldable pub apply : List (String × String) → ℕ → ℕ → Manager → Manager × Bool
apply sec ttl now m = apply_decoded sec ttl now m (decode_all sec)

pub data Answer : Type 0 where
  value : Bytes → Answer
  secret_not_found secret_expired not_in_store : Answer

abbrev answer_of : Option Bytes → Answer
answer_of none = not_in_store
answer_of (some val) = value val

abbrev get_entry : ℕ → Option Bytes → Option ℕ → Answer
get_entry now stored none = secret_not_found
get_entry now stored (some expires_at) =
    if ltb expires_at now then secret_expired else answer_of stored

-- GetSecretBytes, and with it GetSecret.
unfoldable pub get_secret : ℕ → String → Manager → Answer
get_secret now ref m = get_entry now (m.store ref) (m.entries ref)

abbrev is_past : ℕ → Option ℕ → Bool
is_past now none = false
is_past now (some expires_at) = ltb expires_at now

abbrev is_missing_or_past : ℕ → Option ℕ → Bool
is_missing_or_past now none = true
is_missing_or_past now (some expires_at) = ltb expires_at now

unfoldable pub is_expired : ℕ → String → Manager → Bool
is_expired now ref m = is_missing_or_past now (m.entries ref)

-- The refs of the map in the order in which Go visits them are `order`.
abbrev pub expired : ℕ → List String → Manager → List String
expired now order m = keep (λ ref. is_past now (m.entries ref)) order

-- The second pass, under the lock of the manager: the candidates whose entries are past now as well go,
-- and are returned.
abbrev pub evict_entries : ℕ → List String → GoMap ℕ → GoMap ℕ × List String
evict_entries now [] entries = (entries, [])
evict_entries now (ref ∷ candidates) entries =
    let past = is_past now (entries ref) in
    let (left, to_evict) =
      evict_entries now candidates (if past then delete entries ref else entries) in
    (left, if past then ref ∷ to_evict else to_evict)

abbrev pub second_pass : ℕ → List String → Manager → Manager × List String
second_pass now candidates m =
    let (entries, to_evict) = evict_entries now candidates m.entries in
    (record m { entries = entries }, to_evict)

-- Store.Clear
abbrev pub clear : List String → Secrets → Secrets
clear [] secrets = secrets
clear (ref ∷ refs) secrets = delete (clear refs secrets) ref

abbrev pub cleared : List String → Manager → Manager
cleared refs m = record m { store = clear refs m.store }

-- Evict: the first pass at `now`, under a lock for reading; what other calls do then; the second pass at
-- `later`; what other calls do then, since the manager is not locked any more; and Store.Clear.
unfoldable pub evict :
    ℕ → ℕ → List String → (Manager → Manager) → (Manager → Manager) → Manager → Manager × ℕ
evict now later order before_second before_clear m =
    let (after, to_evict) = second_pass later (expired now order m) (before_second m) in
    (cleared to_evict (before_clear after), length to_evict)
