-- ===== src/Kuze/Tokens/OneTime.antt =====
-- A token works once.
use ruriko.Prelude.{
  ℕ, zero, suc, ◌+◌, ◌≤◌, String, Bool, true, false, ◌&&◌, ◌||◌, not, Option, none, some, List, [],
  ◌∷◌, ◌++◌, ◌≡◌, refl, sym, ap, ◌∙◌, ltb, ◌==◌, string_eq, text_eq_iff, if◌then◌else◌, arith,
  Bool-cases, Option-cases, inl, inr, keep, all, &&-left, &&-right,
}
use ruriko.Kuze.Tokens.{
  Row, PendingToken, Result, ok, err, token_used, Rows, Faults, redeem, burn_rows, affected,
  is_zero, find, issue, issue_agent, issue_token, validate, burn, prune_expired, insert, new_row,
  issued, is_prunable,
}
use ruriko.Kuze.Tokens.Redeem.{affected-find, redeem-IsRedeemed, IsRedeemed}

-- One call on the store, with what it draws and what fails in it.
pub data Operation : Type 0 where
  issuing : ℕ → Option String → Bool → ℕ → String → String → Operation
  issuing_agent : ℕ → Option String → Bool → ℕ → String → String → String → String → Operation
  redeeming : Faults → ℕ → String → String → Operation
  burning : Bool → String → Operation
  pruning : Bool → ℕ → Operation

pub run : Operation → Rows → Rows
unfolding issue_token issue_agent
run (issuing ttl drawn fails now ref type) rows = (issue_token ttl drawn fails now ref type rows).0
run (issuing_agent ttl drawn fails now ref type agent purpose) rows =
    (issue_agent ttl drawn fails now ref type agent purpose rows).0
run (redeeming f now token claimed) rows = (redeem f now token claimed rows).0
run (burning fails token) rows = (burn fails token rows).0
run (pruning fails now) rows = (prune_expired fails now rows).0

unfoldable pub run_all : List Operation → Rows → Rows
run_all [] rows = rows
run_all (op ∷ ops) rows = run_all ops (run op rows)

abbrev is_other : String → Option String → Bool
is_other token none = true
is_other token (some t) = not (t == token)

-- The call does not draw the token anew.
abbrev pub draws_other : String → Operation → Bool
draws_other token (issuing ttl drawn fails now ref type) = is_other token drawn
draws_other token (issuing_agent ttl drawn fails now ref type agent purpose) = is_other token drawn
draws_other token _ = true

-- No unused row has the token.
abbrev IsSpent : String → Rows → Type 0
IsSpent token rows = affected token rows ≡ 0

affected-burn_rows :
    (token key : String) (rows : Rows) → affected token (burn_rows key rows) ≤ affected token rows
affected-burn_rows token key [] = omega arith
affected-burn_rows token key (r ∷ rows) = ground (arith, affected-burn_rows token key rows)

affected-keep :
    (token : String) (p : Row → Bool) (rows : Rows)
    → affected token (keep p rows) ≤ affected token rows
affected-keep token p [] = omega arith
affected-keep token p (r ∷ rows) = ground (arith, affected-keep token p rows)

affected-append :
    (token : String) (rows : Rows) (r : Row)
    → (r.token == token) ≡ false
    → affected token (rows ++ r ∷ []) ≡ affected token rows
affected-append token [] r e = rw e refl
affected-append token (q ∷ rows) r e = ground (arith, affected-append token rows r e)

IsSpent-burnt : (token : String) (rows : Rows) → IsSpent token (burn_rows token rows)
IsSpent-burnt token [] = refl
IsSpent-burnt token (r ∷ rows) = ground (arith, IsSpent-burnt token rows)

IsSpent-insert :
    (token : String) (fails : Bool) (r : Row) (rows : Rows)
    → (r.token == token) ≡ false
    → IsSpent token rows
    → IsSpent token (insert fails r rows).0
IsSpent-insert token true r rows e h = h
IsSpent-insert token false r rows e h = elim (Option-cases (find r.token rows)) [
  | inl q ↦ rw (q, insert) (affected-append token rows r e ∙ h)
  | inr (p, q) ↦ rw (q, insert) h
]

fst-issued : (token : String) (t : ℕ) (p : Rows × Bool) → (issued token t p).0 ≡ p.0
fst-issued token t (rows, true) = refl
fst-issued token t (rows, false) = refl

not_same : (b : Bool) → not b ≡ true → b ≡ false
not_same true h = sym h
not_same false h = refl

IsSpent-issue :
    (token : String) (ttl : ℕ) (drawn : Option String) (fails : Bool) (now : ℕ)
    (ref type agent purpose : String) (rows : Rows)
    → is_other token drawn ≡ true
    → IsSpent token rows
    → IsSpent token (issue ttl drawn fails now ref type agent purpose rows).0
unfolding issue
IsSpent-issue token ttl none fails now ref type agent purpose rows o h = h
IsSpent-issue token ttl (some t) fails now ref type agent purpose rows o h =
    ap (affected token) (fst-issued t _ _)
    ∙ IsSpent-insert token fails (new_row ttl now t ref type agent purpose) rows (not_same _ o) h

IsSpent-less :
    (token : String) (rows rows' : Rows)
    → affected token rows' ≤ affected token rows
    → IsSpent token rows
    → IsSpent token rows'
IsSpent-less token rows rows' l h = omega (arith, l, h)

-- A redemption leaves the table, or burns the token.
IsSpent-redeemed :
    (token key claimed : String) (now : ℕ) (rows : Rows) (out : Rows × Result PendingToken)
    → IsRedeemed now key claimed rows out
    → IsSpent token rows
    → IsSpent token out.0
IsSpent-redeemed token key claimed now rows (rows', ok pt) (_, _, _, _, _, _, same, _, _) h =
    ap (affected token) same ∙ IsSpent-less token _ _ (affected-burn_rows token key rows) h
IsSpent-redeemed token key claimed now rows (rows', err e) same h = ap (affected token) same ∙ h

IsSpent-run :
    (token : String) (op : Operation) (rows : Rows)
    → draws_other token op ≡ true
    → IsSpent token rows
    → IsSpent token (run op rows)
unfolding run issue_token issue_agent burn prune_expired
IsSpent-run token (issuing ttl drawn fails now ref type) rows o h =
    IsSpent-issue token ttl drawn fails now ref type "" "" rows o h
IsSpent-run token (issuing_agent ttl drawn fails now ref type agent purpose) rows o h =
    elim (Bool-cases (ruriko.Prelude.Text.is_empty agent)) [
      | inl e ↦ rw (e, run) h
      | inr e ↦
          rw (e, run) (IsSpent-issue token ttl drawn fails now ref type agent purpose rows o h)
    ]
IsSpent-run token (redeeming f now key claimed) rows o h =
    IsSpent-redeemed token key claimed now rows _ (redeem-IsRedeemed f now key claimed rows) h
IsSpent-run token (burning true key) rows o h = h
IsSpent-run token (burning false key) rows o h = elim (Bool-cases (is_zero (affected key rows))) [
  | inl e ↦ rw (e, run) h
  | inr e ↦ rw (e, run) (IsSpent-less token _ _ (affected-burn_rows token key rows) h)
]
IsSpent-run token (pruning true now) rows o h = h
IsSpent-run token (pruning false now) rows o h =
    IsSpent-less token _ _ (affected-keep token (λ r. not (is_prunable now r)) rows) h

IsSpent-run_all :
    (token : String) (ops : List Operation) (rows : Rows)
    → all (draws_other token) ops ≡ true
    → IsSpent token rows
    → IsSpent token (run_all ops rows)
unfolding run_all
IsSpent-run_all token [] rows o h = h
IsSpent-run_all token (op ∷ ops) rows o h =
    IsSpent-run_all token ops (run op rows) (&&-right _ _ o)
      (IsSpent-run token op rows (&&-left _ _ o) h)

abbrev pub is_ok {ℓ} : {A : Type ℓ} → Result A → Bool
is_ok (ok a) = true
is_ok (err e) = false

-- Every way to use the token fails on the table.
abbrev pub IsRefused : String → Rows → Type 0
IsRefused token rows =
    ((f : Faults) (now : ℕ) (claimed : String) → is_ok (redeem f now token claimed rows).1 ≡ false)
    × ((fails : Bool) (now : ℕ) → is_ok (validate fails now token rows) ≡ false)
    × ((burn false token rows).1 ≡ some token_used)

spent_used :
    (token : String) (rows : Rows) (r : Row)
    → IsSpent token rows
    → find token rows ≡ some r
    → r.used ≡ true
spent_used token rows r h e = elim (Bool-cases r.used) [
  | inl u ↦ u
  | inr u ↦ absurd (ground (arith, h, affected-find token rows r e u))
]

not_ok :
    (token claimed : String) (now : ℕ) (rows : Rows) (out : Rows × Result PendingToken)
    → IsSpent token rows
    → IsRedeemed now token claimed rows out
    → is_ok out.1 ≡ false
not_ok token claimed now rows (rows', ok pt) h (r, e, u, _, _, _, _, _, _) =
    absurd (ground (arith, u, spent_used token rows r h e))
not_ok token claimed now rows (rows', err e) h same = refl

validate-refused :
    (fails : Bool) (now : ℕ) (token : String) (rows : Rows)
    → IsSpent token rows
    → is_ok (validate fails now token rows) ≡ false
unfolding validate
validate-refused true now token rows h = refl
validate-refused false now token rows h = elim (Option-cases (find token rows)) [
  | inl e ↦ rw e refl
  | inr (r, e) ↦ rw (e, spent_used token rows r h e) refl
]

IsRefused-spent : (token : String) (rows : Rows) → IsSpent token rows → IsRefused token rows
unfolding burn
IsRefused-spent token rows h = (
  λ f now claimed. not_ok token claimed now rows _ h (redeem-IsRedeemed f now token claimed rows),
  λ fails now. validate-refused fails now token rows h,
  rw h refl,
)

redeemed-IsSpent :
    (token claimed : String) (now : ℕ) (rows : Rows) (out : Rows × Result PendingToken)
    → IsRedeemed now token claimed rows out
    → is_ok out.1 ≡ true
    → IsSpent token out.0
redeemed-IsSpent token claimed now rows (rows', ok pt) (_, _, _, _, _, _, same, _, _) e =
    ap (affected token) same ∙ IsSpent-burnt token rows
redeemed-IsSpent token claimed now rows (rows', err x) h e = absurd (ground (arith, e))

-- Once a token is redeemed, it is never redeemed, validated or burned again, whatever calls follow on
-- the store, as long as none of them draws the same token for a new link.
pub redeem-IsRefused :
    (f : Faults) (now : ℕ) (token claimed : String) (rows : Rows) (ops : List Operation)
    → is_ok (redeem f now token claimed rows).1 ≡ true
    → all (draws_other token) ops ≡ true
    → IsRefused token (run_all ops (redeem f now token claimed rows).0)
redeem-IsRefused f now token claimed rows ops e o = IsRefused-spent token _ (
    IsSpent-run_all token ops _ o
      (redeemed-IsSpent token claimed now rows _ (redeem-IsRedeemed f now token claimed rows) e))
