-- ===== src/Secrets/Lifetime.antt =====
-- Which secrets an agent can read after Apply.
use mathlib.Core.Bool.{false≢true}
use ruriko.Prelude.{
  zero, suc, ◌<◌, ◌↔◌, All, ℕ, ◌+◌, ◌≤◌, String, true, false, Option, none, some, List, [], ◌∷◌,
  ◌≡◌, refl, sym, ap, ◌∙◌, ltb, ◌==◌, string_eq, if◌then◌else◌, arith, Bool-cases, Option-cases,
  inl, inr, some-injective, none-ne-some,
}
use ruriko.Prelude.GoMap.{GoMap}
use ruriko.Secrets.Base64.{Bytes, decode_string}
use ruriko.Secrets.{
  Manager, Secrets, Answer, value, secret_not_found, secret_expired, not_in_store, get_entry, apply,
  apply_decoded, decode_all, put_all, effective_ttl, get_secret, is_expired,
}

-- sec[ref]
abbrev pub lookup : String → List (String × String) → Option String
lookup ref [] = none
lookup ref ((name, val) ∷ rest) =
    let more = lookup ref rest in if name == ref then some val else more

-- What the decoded set holds for a ref that is, or is not, in the set that came in.
abbrev decoded_at : Option String → Option Bytes
decoded_at none = none
decoded_at (some val) = decode_string val

decode_all-lookup :
    (sec : List (String × String)) (ref : String) (decoded : Secrets)
    → decode_all sec ≡ some decoded
    → decoded ref ≡ decoded_at (lookup ref sec)
decode_all-lookup [] ref decoded e = ap (λ d. d ref) (sym (some-injective _ _ e))
decode_all-lookup ((name, val) ∷ rest) ref decoded e = elim (Option-cases (decode_string val)) [
  | inl v ↦ absurd (none-ne-some _ (rw v at e))
  | inr (bytes, v) ↦ elim (Option-cases (decode_all rest)) [
    | inl m ↦ absurd (none-ne-some _ (rw (v, m) at e))
    | inr (more, m) ↦
        ap (λ d. d ref) (sym (some-injective _ _ (rw (v, m) at e)))
        ∙ elim (Bool-cases (name == ref)) [
          | inl q ↦ rw (q, v) refl
          | inr q ↦ rw q (decode_all-lookup rest ref more m)
        ]
  ]
]

abbrev entry_at : ℕ → Option String → Option ℕ → Option ℕ
entry_at expires_at none old = old
entry_at expires_at (some val) old = some expires_at

put_all-lookup :
    (expires_at : ℕ) (sec : List (String × String)) (entries : GoMap ℕ) (ref : String)
    → put_all expires_at sec entries ref ≡ entry_at expires_at (lookup ref sec) (entries ref)
put_all-lookup expires_at [] entries ref = refl
put_all-lookup expires_at ((name, val) ∷ rest) entries ref = elim (Bool-cases (name == ref)) [
  | inl q ↦ rw q refl
  | inr q ↦ rw q (put_all-lookup expires_at rest entries ref)
]

-- What an answer at `t` has to be, by the value that the new set has for the ref, if it has one, which may
-- be read until `last`, and by the time of expiry that the ref had before, if it had one.
abbrev pub IsAnswer : ℕ → ℕ → Option String → Option ℕ → Answer → Type 0
IsAnswer t last (some val) old a =
    (bytes : Bytes) × ((decode_string val ≡ some bytes)
      × ((t ≤ last → a ≡ value bytes) × (last < t → a ≡ secret_expired)))
IsAnswer t last none none a = a ≡ secret_not_found
IsAnswer t last none (some expires_at) a =
    (t ≤ expires_at → a ≡ not_in_store) × (expires_at < t → a ≡ secret_expired)

-- How long the values may be read: as long as the caller says, or the manager if the caller says 0.
abbrev pub IsLifetime : ℕ → ℕ → ℕ → Type 0
IsLifetime own zero lifetime = lifetime ≡ own
IsLifetime own (suc ttl) lifetime = lifetime ≡ suc ttl

-- The value of an entry can be decoded.
abbrev pub Decodes : String × String → Type 0
Decodes (ref, val) = (bytes : Bytes) × (decode_string val ≡ some bytes)

not_past : (e t : ℕ) → t ≤ e → ltb e t ≡ false
not_past e t h = ground (arith, h)

past : (e t : ℕ) → e < t → ltb e t ≡ true
past e t h = ground (arith, h)

effective_ttl-IsLifetime :
    (m : Manager) (ttl lifetime : ℕ)
    → IsLifetime m.ttl ttl lifetime
    → effective_ttl m ttl ≡ lifetime
effective_ttl-IsLifetime m zero lifetime h = sym h
effective_ttl-IsLifetime m (suc ttl) lifetime h = ground (arith, sym h)

get_entry-IsAnswer :
    (t last : ℕ) (found : Option String) (old : Option ℕ)
    → ((val : String) → found ≡ some val → (bytes : Bytes) × (decode_string val ≡ some bytes))
    → IsAnswer t last found old (get_entry t (decoded_at found) (entry_at last found old))
get_entry-IsAnswer t last none none d = refl
get_entry-IsAnswer t last none (some e) d =
    ((λ h. rw (not_past e t h) refl), λ h. rw (past e t h) refl)
get_entry-IsAnswer t last (some val) old d =
    let (bytes, e) = d val refl in
    (bytes, (e, ((λ h. rw (not_past last t h, e) refl), λ h. rw (past last t h) refl)))

-- A set is decoded exactly if each of its values can be decoded.
decode_all-Decodes :
    (sec : List (String × String)) (decoded : Secrets)
    → decode_all sec ≡ some decoded
    → All Decodes sec
decode_all-Decodes [] decoded e = tt
decode_all-Decodes ((name, val) ∷ rest) decoded e = elim (Option-cases (decode_string val)) [
  | inl v ↦ absurd (none-ne-some _ (rw v at e))
  | inr (bytes, v) ↦ elim (Option-cases (decode_all rest)) [
    | inl m ↦ absurd (none-ne-some _ (rw (v, m) at e))
    | inr (more, m) ↦ ((bytes, v), decode_all-Decodes rest more m)
  ]
]

decode_all-none : (sec : List (String × String)) → decode_all sec ≡ none → ¬ All Decodes sec
decode_all-none [] e d = none-ne-some _ (sym e)
decode_all-none ((name, val) ∷ rest) e ((bytes, v), d) = elim (Option-cases (decode_all rest)) [
  | inl m ↦ decode_all-none rest m d
  | inr (more, m) ↦ none-ne-some _ (sym (rw (v, m) at e))
]

lookup-Decodes :
    (sec : List (String × String)) (ref val : String)
    → All Decodes sec
    → lookup ref sec ≡ some val
    → (bytes : Bytes) × (decode_string val ≡ some bytes)
lookup-Decodes [] ref val d e = absurd (none-ne-some _ e)
lookup-Decodes ((name, first) ∷ rest) ref val (b, d) e = elim (Bool-cases (name == ref)) [
  | inl q ↦ (b.0, ap decode_string (sym (some-injective _ _ (rw q at e))) ∙ b.1)
  | inr q ↦ lookup-Decodes rest ref val d (rw q at e)
]

get_secret-applied :
    (sec : List (String × String)) (ttl now t lifetime : ℕ) (ref : String) (m : Manager)
    (decoded : Secrets)
    → IsLifetime m.ttl ttl lifetime
    → decode_all sec ≡ some decoded
    → IsAnswer t
        (now + lifetime)
        (lookup ref sec)
        (m.entries ref)
        (get_secret t ref (apply_decoded sec ttl now m (some decoded)).0)
unfolding get_secret
get_secret-applied sec ttl now t lifetime ref m decoded l e =
    rw
      (
        decode_all-lookup sec ref decoded e,
        put_all-lookup (now + effective_ttl m ttl) sec m.entries ref,
        effective_ttl-IsLifetime m ttl lifetime l,
      )
      (get_entry-IsAnswer t (now + lifetime) (lookup ref sec) (m.entries ref)
        (λ val. lookup-Decodes sec ref val (decode_all-Decodes sec decoded e)))

-- Apply succeeds exactly if every value of the set can be decoded, and changes nothing otherwise. After it
-- succeeds, every ref that it brought reads as its decoded value until its time of expiry has passed,
-- which is the lifetime after now that the caller gives or, if the caller gives 0, the manager has, and
-- as expired from then on. A ref that the set lacks reads as not found if it had no entry, and otherwise
-- as missing in the store until its old time of expiry has passed, and as expired from then on.
pub get_secret-apply :
    (sec : List (String × String)) (ttl now t lifetime : ℕ) (ref : String) (m : Manager)
    → IsLifetime m.ttl ttl lifetime
    → (((apply sec ttl now m).1 ≡ true) ↔ All Decodes sec)
      × ((apply sec ttl now m).1 ≡ true
          → IsAnswer t
              (now + lifetime)
              (lookup ref sec)
              (m.entries ref)
              (get_secret t ref (apply sec ttl now m).0))
      × ((apply sec ttl now m).1 ≡ false → (apply sec ttl now m).0 ≡ m)
unfolding apply
get_secret-apply sec ttl now t lifetime ref m l = elim (Option-cases (decode_all sec)) [
  | inl e ↦ rw e (
    ((λ h. absurd (false≢true h)), λ d. absurd (decode_all-none sec e d)),
    (λ h. absurd (false≢true h)),
    λ h. refl,
  )
  | inr (decoded, e) ↦ rw e (
    ((λ h. decode_all-Decodes sec decoded e), λ d. refl),
    (λ h. get_secret-applied sec ttl now t lifetime ref m decoded l e),
    λ h. absurd (false≢true (sym h)),
  )
]

entries-apply :
    (sec : List (String × String)) (ttl now : ℕ) (ref : String) (m : Manager)
    → (apply sec ttl now m).1 ≡ true
    → (apply sec ttl now m).0.entries ref
      ≡ entry_at (now + effective_ttl m ttl) (lookup ref sec) (m.entries ref)
unfolding apply
entries-apply sec ttl now ref m h = elim (Option-cases (decode_all sec)) [
  | inl e ↦ absurd (ground (arith, rw e at h))
  | inr (decoded, e) ↦ rw e (put_all-lookup (now + effective_ttl m ttl) sec m.entries ref)
]

-- An unexpired ref that the new set lacks: IsExpired says that it need not be refreshed, and GetSecret
-- fails.
is_expired-apply :
    (sec : List (String × String)) (ttl now t lifetime expires_at : ℕ) (ref : String) (m : Manager)
    → IsLifetime m.ttl ttl lifetime
    → (apply sec ttl now m).1 ≡ true
    → lookup ref sec ≡ none
    → m.entries ref ≡ some expires_at
    → t ≤ expires_at
    → (is_expired t ref (apply sec ttl now m).0 ≡ false)
      × (get_secret t ref (apply sec ttl now m).0 ≡ not_in_store)
unfolding is_expired
is_expired-apply sec ttl now t lifetime expires_at ref m k h l e b = (
  rw (entries-apply sec ttl now ref m h, l, e) (not_past expires_at t b),
  (rw (l, e) at ((get_secret-apply sec ttl now t lifetime ref m k).1 h)).0 b,
)
