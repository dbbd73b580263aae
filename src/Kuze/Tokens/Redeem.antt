-- ===== src/Kuze/Tokens/Redeem.antt =====
-- What Redeem grants, and to whom.
use ruriko.Prelude.{
  ℕ, String, true, false, ◌&&◌, not, Option, none, some, [], ◌∷◌, ◌≡◌, refl, some-injective, ap,
  ◌∙◌, ltb, ◌==◌, string_eq, text_eq_iff, text_eq_refl, if◌then◌else◌, arith, Bool-cases, inl, inr,
}
use ruriko.Kuze.Tokens.{
  Row, PendingToken, Result, ok, err, Rows, Faults, redeem, redeem_row, burn_rows, affected,
  is_zero, find, load, parse_time, text_of,
}

abbrev pub on_row : (Row → Row) → Option Row → Option Row
on_row f none = none
on_row f (some r) = some (f r)

abbrev pub burn_row : String → String → Row → Row
burn_row token key r = if key == token && not r.used then record r { used = true } else r

pub find-burn_rows :
    (token : String) (rows : Rows) (key : String)
    → find key (burn_rows token rows) ≡ on_row (burn_row token key) (find key rows)
find-burn_rows token [] key = refl
find-burn_rows token (r ∷ rows) key = ground (
  arith,
  text_eq_iff r.token key,
  text_eq_iff r.token token,
  text_eq_iff key token,
  find-burn_rows token rows key,
)

pub affected-find :
    (token : String) (rows : Rows) (r : Row)
    → find token rows ≡ some r
    → r.used ≡ false
    → is_zero (affected token rows) ≡ false
affected-find token [] r h u = absurd (ground (arith, h))
affected-find token (q ∷ rows) r h u = elim (Bool-cases (q.token == token)) [
  | inl e ↦
      let same : q.used ≡ false = ap (λ p. p.used) (some-injective _ _ (rw e at h)) ∙ u in
      rw (e, same) refl
  | inr e ↦ rw e (affected-find token rows r (rw e at h) u)
]

-- What a redemption does: it gives out the token under its key, which was not used, not expired and
-- issued to the agent that claims it, and burns this row and no other; or it changes nothing.
abbrev pub IsRedeemed : ℕ → String → String → Rows → Rows × Result PendingToken → Type 0
IsRedeemed now token claimed rows (rows', ok pt) =
    (r : Row) × (find token rows ≡ some r)
    × (r.used ≡ false)
    × (ltb (parse_time r.expires_at) now ≡ false)
    × (text_of r.agent_id ≡ claimed)
    × (pt ≡ load r)
    × (rows' ≡ burn_rows token rows)
    × (find token rows' ≡ some (record r { used = true }))
    × ((key : String) → (key == token) ≡ false → find key rows' ≡ find key rows)
IsRedeemed now token claimed rows (rows', err e) = rows' ≡ rows

on_row-other :
    (token key : String) (o : Option Row)
    → (key == token) ≡ false
    → on_row (burn_row token key) o ≡ o
on_row-other token key none e = refl
on_row-other token key (some r) e = rw e refl

burn_row-same :
    (token : String) (r : Row) → r.used ≡ false → burn_row token token r ≡ record r { used = true }
burn_row-same token r u = rw (text_eq_refl token, u) refl

IsRedeemed-redeem_row :
    (f : Faults) (now : ℕ) (token claimed : String) (rows : Rows) (o : Option Row)
    → find token rows ≡ o
    → IsRedeemed now token claimed rows (redeem_row f now token claimed rows o)
IsRedeemed-redeem_row f now token claimed rows none h = refl
IsRedeemed-redeem_row f now token claimed rows (some r) h = elim (Bool-cases r.used) [
  | inl u ↦ rw u refl
  | inr u ↦ rw u (elim (Bool-cases (ltb (parse_time r.expires_at) now)) [
    | inl x ↦ rw x refl
    | inr x ↦ rw x (elim (Bool-cases (text_of r.agent_id == claimed)) [
      | inr a ↦ rw a refl
      | inl a ↦ rw a (elim (Bool-cases f.burn_fails) [
        | inl b ↦ simp b refl
        | inr b ↦ simp b (elim (Bool-cases (is_zero (affected token rows))) [
          | inl z ↦ rw z refl
          | inr z ↦ rw z (elim (Bool-cases f.commit_fails) [
            | inl c ↦ simp c refl
            | inr c ↦ simp c (
              r,
              h,
              u,
              x,
              (text_eq_iff (text_of r.agent_id) claimed).0 a,
              rw u refl,
              refl,
              find-burn_rows token rows token
                  ∙ ap (on_row (burn_row token token)) h
                  ∙ ap some (burn_row-same token r u),
              λ key e. find-burn_rows token rows key ∙ on_row-other token key (find key rows) e,
            )
          ])
        ])
      ])
    ])
  ])
]

-- Redeem gives a token out only under its key, unused, before its time of expiry has passed and to the
-- agent that it was issued to, and then burns this row and no other. On every error, of the database
-- too, the table stays as it was.
pub redeem-IsRedeemed :
    (f : Faults) (now : ℕ) (token claimed : String) (rows : Rows)
    → IsRedeemed now token claimed rows (redeem f now token claimed rows)
unfolding redeem
redeem-IsRedeemed f now token claimed rows = elim (Bool-cases f.query_fails) [
  | inl q ↦ simp q refl
  | inr q ↦ simp q (IsRedeemed-redeem_row f now token claimed rows (find token rows) refl)
]

abbrev pub no_faults : Faults
no_faults = record { query_fails = false; burn_fails = false; commit_fails = false }

-- Redeem succeeds on such a token if the database works.
pub redeem_grants :
    (now : ℕ) (token claimed : String) (rows : Rows) (r : Row)
    → find token rows ≡ some r
    → r.used ≡ false
    → ltb (parse_time r.expires_at) now ≡ false
    → (text_of r.agent_id == claimed) ≡ true
    → redeem no_faults now token claimed rows ≡ (burn_rows token rows, ok (load r))
unfolding redeem
redeem_grants now token claimed rows r h u x a =
    rw (h, u, x, a, affected-find token rows r h u) refl
