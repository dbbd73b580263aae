-- ===== src/Secrets/Evict.antt =====
-- What Evict takes away.
use mathlib.Core.List.{Memᴰ}
use ruriko.Prelude.Members.{contains-Mem}
use ruriko.Prelude.{
  ℕ, ◌≤◌, ◌<◌, String, Bool, true, false, ◌&&◌, Option, none, some, List, [], ◌∷◌, ◌≡◌, refl, sym,
  ap, ◌∙◌, ltb, ◌==◌, string_eq, text_eq_iff, if◌then◌else◌, arith, Bool-cases, inl, inr, keep,
  &&-false, contains,
}
use ruriko.Prelude.GoMap.{GoMap, delete}
use ruriko.Secrets.Base64.{Bytes}
use ruriko.Secrets.{
  Manager, Secrets, Answer, value, get_entry, get_secret, is_past, expired, clear, evict_entries,
  second_pass, evict,
}

clear-contains :
    (refs : List String) (secrets : Secrets) (ref : String)
    → clear refs secrets ref ≡ (if contains refs ref then none else secrets ref)
clear-contains [] secrets ref = refl
clear-contains (r ∷ refs) secrets ref = elim (Bool-cases (r == ref)) [
  | inl e ↦ rw e refl
  | inr e ↦ rw e (clear-contains refs secrets ref)
]

contains-keep :
    (p : String → Bool) (refs : List String) (ref : String)
    → contains (keep p refs) ref ≡ (contains refs ref && p ref)
contains-keep p [] ref = refl
contains-keep p (r ∷ refs) ref = elim (Bool-cases (r == ref)) [
  | inl e ↦ elim (Bool-cases (p r)) [
    | inl q ↦ rw (q, e, ap p (sym ((text_eq_iff r ref).0 e)) ∙ q) refl
    | inr q ↦
        rw (q, e, contains-keep p refs ref, ap p (sym ((text_eq_iff r ref).0 e)) ∙ q) (&&-false _)
  ]
  | inr e ↦ elim (Bool-cases (p r)) [
    | inl q ↦ rw (q, e) (contains-keep p refs ref)
    | inr q ↦ rw (q, e) (contains-keep p refs ref)
  ]
]

-- The value, if the answer is one.
abbrev pub value_of : Answer → Option Bytes
value_of (value val) = some val
value_of _ = none

-- What the second pass leaves under a ref, and whether it takes the ref.
evict_entries-get :
    (now : ℕ) (candidates : List String) (entries : GoMap ℕ) (ref : String)
    → ((evict_entries now candidates entries).0 ref
        ≡ (if contains candidates ref && is_past now (entries ref) then none else entries ref))
      × (contains (evict_entries now candidates entries).1 ref
          ≡ (contains candidates ref && is_past now (entries ref)))
evict_entries-get now [] entries ref = (refl, refl)
evict_entries-get now (r ∷ candidates) entries ref = elim (Bool-cases (r == ref)) [
  | inl e ↦
      let q = (text_eq_iff r ref).0 e in
      let same = (text_eq_iff ref ref).1 refl in
      elim (Bool-cases (is_past now (entries ref))) [
        | inl p ↦
            let left = (evict_entries-get now candidates (delete entries ref) ref).0 in
            rw (q, same, p) ((rw (same, &&-false (contains candidates ref)) at left), rw same refl)
        | inr p ↦
            let (left, taken) = evict_entries-get now candidates entries ref in
            let none_past = &&-false (contains candidates ref) in
            rw (q, same, p) ((rw (p, none_past) at left), (rw (p, none_past) at taken))
      ]
  | inr e ↦ elim (Bool-cases (is_past now (entries r))) [
    | inl p ↦
        let (left, taken) = evict_entries-get now candidates (delete entries r) ref in
        rw (e, p) ((rw e at left), rw e (rw e at taken))
    | inr p ↦ rw (e, p) (evict_entries-get now candidates entries ref)
  ]
]

past_later : (later t e : ℕ) → later ≤ t → ltb e later ≡ true → ltb e t ≡ true
past_later later t e l p = ground (arith, l, p)

-- An entry that is past at `later` gives no value from then on.
no_value :
    (later t : ℕ) (stored : Option Bytes) (entry : Option ℕ)
    → later ≤ t
    → is_past later entry ≡ true
    → value_of (get_entry t stored entry) ≡ none
no_value later t stored none l p = refl
no_value later t stored (some e) l p = rw (past_later later t e l p) refl

same_value :
    (later t : ℕ) (b : Bool) (stored : Option Bytes) (entry : Option ℕ)
    → later ≤ t
    → value_of (
        get_entry t
          (if b && is_past later entry then none else stored)
          (if b && is_past later entry then none else entry))
      ≡ value_of (get_entry t stored entry)
same_value later t false stored entry l = refl
same_value later t true stored entry l = elim (Bool-cases (is_past later entry)) [
  | inl p ↦ rw p (sym (no_value later t stored entry l p))
  | inr p ↦ rw p refl
]

-- There is an entry, and its time has passed.
abbrev pub IsPast : ℕ → Option ℕ → Type 0
IsPast t none = ⊥
IsPast t (some expires_at) = expires_at < t

IsPast-is_past : (t : ℕ) (entry : Option ℕ) → IsPast t entry → is_past t entry ≡ true
IsPast-is_past t none h = elim h [ ]
IsPast-is_past t (some e) h = ground (arith, h)

is_past-IsPast : (t : ℕ) (entry : Option ℕ) → ¬ IsPast t entry → is_past t entry ≡ false
is_past-IsPast t none h = refl
is_past-IsPast t (some e) h = ground (arith, h)

-- The state in which the second pass leaves the manager.
abbrev pub between : ℕ → ℕ → List String → (Manager → Manager) → Manager → Manager
between now later order before_second m =
    (second_pass later (expired now order m) (before_second m)).0

module _ (now later : ℕ) (order : List String) (before_second : Manager → Manager)
    (m : Manager) where
  abbrev taken : List String
  taken = (evict_entries later (expired now order m) (before_second m).entries).1

  contains-taken :
      (ref : String)
      → contains taken ref ≡ (
          (contains order ref && is_past now (m.entries ref))
          && is_past later ((before_second m).entries ref))
  contains-taken ref =
      (evict_entries-get later (expired now order m) (before_second m).entries ref).1
      ∙ ap (λ b. b && is_past later ((before_second m).entries ref))
          (contains-keep (λ r. is_past now (m.entries r)) order ref)

  gone :
      (before_clear : Manager → Manager) (ref : String)
      → Memᴰ ref order
      → IsPast now (m.entries ref)
      → IsPast later ((before_second m).entries ref)
      → (evict now later order before_second before_clear m).0.store ref ≡ none
  unfolding evict
  gone before_clear ref o p q =
      rw
        (
          clear-contains taken (before_clear (between now later order before_second m)).store ref,
          contains-taken ref,
          (contains-Mem order ref).1 o,
          IsPast-is_past now (m.entries ref) p,
          IsPast-is_past later ((before_second m).entries ref) q,
        )
        refl

  untouched :
      (before_clear : Manager → Manager) (ref : String)
      → ¬ IsPast later ((before_second m).entries ref)
      → (evict now later order before_second before_clear m).0.store ref
        ≡ (before_clear (between now later order before_second m)).store ref
  unfolding evict
  untouched before_clear ref q =
      rw
        (
          clear-contains taken (before_clear (between now later order before_second m)).store ref,
          contains-taken ref,
          is_past-IsPast later ((before_second m).entries ref) q,
          &&-false (contains order ref && is_past now (m.entries ref)),
        )
        refl

  same_values :
      (t : ℕ) (ref : String)
      → later ≤ t
      → value_of (get_secret t ref (evict now later order before_second (λ s. s) m).0)
        ≡ value_of (get_secret t ref (before_second m))
  unfolding evict get_secret
  same_values t ref l =
      rw
        (
          clear-contains taken (before_second m).store ref,
          contains-taken ref,
          (evict_entries-get later (expired now order m) (before_second m).entries ref).0,
          contains-keep (λ r. is_past now (m.entries r)) order ref,
        )
        (same_value later t (contains order ref && is_past now (m.entries ref))
          ((before_second m).store ref) ((before_second m).entries ref) l)

-- Whatever other calls do between the steps of Evict: the value of a ref that the first pass visits is gone
-- from memory once Evict returns if the entry was past its time then and is past its time in the second
-- pass as well, even a value that Apply has brought in since the second pass. The store keeps the value of
-- every ref whose entry is not past its time in the second pass, one that Apply has renewed since the
-- first pass among them. And if no other call comes between the second pass and Store.Clear, then every
-- ref has, from the second pass on, the value that it would have without the second pass and Clear, or
-- none if it would have none.
pub evict_lem :
    (now later t : ℕ) (order : List String) (before_second before_clear : Manager → Manager)
    (ref : String) (m : Manager)
    → later ≤ t
    → (Memᴰ ref order
        → IsPast now (m.entries ref)
        → IsPast later ((before_second m).entries ref)
        → (evict now later order before_second before_clear m).0.store ref ≡ none)
      × (¬ IsPast later ((before_second m).entries ref)
          → (evict now later order before_second before_clear m).0.store ref
            ≡ (before_clear (between now later order before_second m)).store ref)
      × (value_of (get_secret t ref (evict now later order before_second (λ s. s) m).0)
          ≡ value_of (get_secret t ref (before_second m)))
evict_lem now later t order before_second before_clear ref m l = (
  gone now later order before_second m before_clear ref,
  untouched now later order before_second m before_clear ref,
  same_values now later order before_second m t ref l,
)
