-- ===== src/Kuze/Tokens/Prune.antt =====
-- Pruning deletes no token that still works, and the list of expired tokens names none.
use ruriko.Prelude.{
  ℕ, ◌≤◌, String, Bool, true, false, ◌||◌, not, Option, none, some, List, [], ◌∷◌, ◌≡◌, refl, sym,
  ap, ◌∙◌, ltb, ◌==◌, string_eq, text_eq_iff, if◌then◌else◌, arith, Bool-cases, inl, inr, keep,
  none-ne-some, &&-left, &&-right,
}
use ruriko.Kuze.Tokens.{
  Row, PendingToken, Result, ok, err, token_expired, Rows, find, validate, validate_row,
  list_expired_unused, prune_expired, is_prunable, is_expired_unused, parse_time, format, map_load,
}
use ruriko.Kuze.Tokens.OneTime.{is_ok}

-- No two rows have one token, as the primary key demands.
abbrev pub HasKeys : Rows → Type 0
HasKeys [] = Unit
HasKeys (r ∷ rows) = (find r.token rows ≡ none) × HasKeys rows

abbrev filter_row : (Row → Bool) → Option Row → Option Row
filter_row p none = none
filter_row p (some r) = if p r then some r else none

find-keep-none :
    (p : Row → Bool) (token : String) (rows : Rows)
    → find token rows ≡ none
    → find token (keep p rows) ≡ none
find-keep-none p token [] h = refl
find-keep-none p token (r ∷ rows) h = ground (arith, h, find-keep-none p token rows)

find-keep :
    (p : Row → Bool) (token : String) (rows : Rows)
    → HasKeys rows
    → find token (keep p rows) ≡ filter_row p (find token rows)
find-keep p token [] k = refl
find-keep p token (r ∷ rows) (f, k) = elim (Bool-cases (r.token == token)) [
  | inl e ↦ elim (Bool-cases (p r)) [
    | inl q ↦ rw (e, q) (rw e refl)
    | inr q ↦
        rw (e, q)
          (find-keep-none p token rows
            (ap (λ t. find t rows) (sym ((text_eq_iff r.token token).0 e)) ∙ f))
  ]
  | inr e ↦ elim (Bool-cases (p r)) [
    | inl q ↦ rw (e, q) (rw e (find-keep p token rows k))
    | inr q ↦ rw (e, q) (find-keep p token rows k)
  ]
]

past_time :
    (now t e : ℕ) → now ≤ t → (ltb e (format now) || false) ≡ true → ltb (parse_time e) t ≡ true
past_time now t e l q = ground (arith, l, q)

-- A row that is pruned is one that Validate refuses from then on.
refused_row :
    (now t : ℕ) (r : Row)
    → now ≤ t
    → is_prunable now r ≡ true
    → is_ok (validate_row t (some r)) ≡ false
refused_row now t r l q = elim (Bool-cases r.used) [
  | inl u ↦ rw u refl
  | inr u ↦ rw (u, past_time now t r.expires_at l (rw u at q)) refl
]

filtered :
    (now t : ℕ) (o : Option Row)
    → now ≤ t
    → is_ok (validate_row t (filter_row (λ r. not (is_prunable now r)) o))
      ≡ is_ok (validate_row t o)
filtered now t none l = refl
filtered now t (some r) l = elim (Bool-cases (is_prunable now r)) [
  | inl q ↦ rw q (sym (refused_row now t r l q))
  | inr q ↦ rw q refl
]

-- After pruning, Validate accepts the same tokens as without it, at that time and later; if the database
-- fails, nothing is pruned. The table must have its keys.
pub validate-prune_expired :
    (now t : ℕ) (token : String) (rows : Rows)
    → HasKeys rows
    → now ≤ t
    → (is_ok (validate false t token (prune_expired false now rows).0)
        ≡ is_ok (validate false t token rows))
      × ((prune_expired true now rows).0 ≡ rows)
unfolding validate prune_expired
validate-prune_expired now t token rows k l = (
  ap (λ o. is_ok (validate_row t o)) (find-keep (λ r. not (is_prunable now r)) token rows k)
      ∙ filtered now t (find token rows) l,
  refl,
)

abbrev is_listed : String → List PendingToken → Bool
is_listed token [] = false
is_listed token (p ∷ ps) = p.token == token || is_listed token ps

abbrev pub lists : String → Result (List PendingToken) → Bool
lists token (ok ps) = is_listed token ps
lists token (err e) = false

-- The row of a token that the list names.
abbrev Listed : ℕ → String → Rows → Type 0
Listed now token rows = (r : Row) × (find token rows ≡ some r) × (is_expired_unused now r ≡ true)

Listed-later :
    (now : ℕ) (token : String) (r : Row) (rows : Rows)
    → find r.token rows ≡ none
    → Listed now token rows
    → Listed now token (r ∷ rows)
Listed-later now token r rows f (q, e, x) = elim (Bool-cases (r.token == token)) [
  | inl t ↦
      absurd (none-ne-some _ (sym f ∙ ap (λ k. find k rows) ((text_eq_iff r.token token).0 t) ∙ e))
  | inr t ↦ (q, rw t e, x)
]

row-Listed :
    (now : ℕ) (token : String) (rows : Rows)
    → HasKeys rows
    → is_listed token (map_load (keep (is_expired_unused now) rows)) ≡ true
    → Listed now token rows
row-Listed now token [] k h = absurd (ground (arith, h))
row-Listed now token (r ∷ rows) (f, k) h = elim (Bool-cases (is_expired_unused now r)) [
  | inl x ↦ elim (Bool-cases (r.token == token)) [
    | inl t ↦ (r, rw t refl, x)
    | inr t ↦ Listed-later now token r rows f (row-Listed now token rows k (rw (x, t) at h))
  ]
  | inr x ↦ Listed-later now token r rows f (row-Listed now token rows k (rw x at h))
]

not-true : (b : Bool) → not b ≡ true → b ≡ false
not-true true h = sym h
not-true false h = refl

expired_not_used : (now : ℕ) (r : Row) → is_expired_unused now r ≡ true → r.used ≡ false
expired_not_used now r h = not-true _ (&&-left _ _ h)

is_past_row :
    (now : ℕ) (r : Row) → is_expired_unused now r ≡ true → ltb r.expires_at (format now) ≡ true
is_past_row now r x = &&-right _ _ x

is_past :
    (now : ℕ) (r : Row)
    → is_expired_unused now r ≡ true
    → (ltb r.expires_at (format now) || false) ≡ true
is_past now r x = rw (is_past_row now r x) refl

validate-Listed :
    (now t : ℕ) (token : String) (rows : Rows)
    → now ≤ t
    → Listed now token rows
    → validate false t token rows ≡ err token_expired
unfolding validate
validate-Listed now t token rows l (r, e, x) =
    rw (e, expired_not_used now r x, past_time now t r.expires_at l (is_past now r x)) refl

-- A token that ListExpiredUnused names is one that Validate calls expired from then on, and that pruning
-- deletes. The table must have its keys.
pub list_expired_unused_lem :
    (now t : ℕ) (token : String) (rows : Rows)
    → HasKeys rows
    → now ≤ t
    → lists token (list_expired_unused false now rows) ≡ true
    → (validate false t token rows ≡ err token_expired)
      × (find token (prune_expired false now rows).0 ≡ none)
unfolding list_expired_unused prune_expired
list_expired_unused_lem now t token rows k l h =
    let (r, e, x) = row-Listed now token rows k h in
    (
      validate-Listed now t token rows l (r, e, x),
      find-keep (λ r. not (is_prunable now r)) token rows k
          ∙ ap (filter_row (λ r. not (is_prunable now r))) e
          ∙ rw (is_past_row now r x) refl,
    )
