-- ===== src/Kuze/Tokens/Lifetime.antt =====
-- How long a token can be redeemed, and by whom.
use ruriko.Prelude.{
  ℕ, ◌+◌, ◌*◌, ◌/◌, ◌≤◌, ◌<◌, String, true, false, none, some, [], ◌∷◌, ◌++◌, ◌≡◌, refl, ap, ◌∙◌,
  ltb, ◌==◌, string_eq, text_eq_iff, text_eq_refl, arith, Bool-cases, inl, inr,
}
use ruriko.Prelude.Text.{is_empty}
use ruriko.Kuze.Tokens.{
  Row, ok, err, token_expired, agent_id_mismatch, Rows, redeem, find, load, issue, issue_agent,
  new_row, parse_time, second, agent_ttl, text_of, nullable,
}
use ruriko.Kuze.Tokens.Redeem.{no_faults, redeem_grants}

find-append_new :
    (rows : Rows) (r : Row) → find r.token rows ≡ none → find r.token (rows ++ r ∷ []) ≡ some r
find-append_new [] r h = rw (text_eq_refl r.token) refl
find-append_new (q ∷ rows) r h = elim (Bool-cases (q.token == r.token)) [
  | inl e ↦ absurd (ground (arith, h, e))
  | inr e ↦ rw e (find-append_new rows r (rw e at h))
]

issue_agent-issue :
    (ttl now : ℕ) (token ref type agent purpose : String) (rows : Rows)
    → is_empty agent ≡ false
    → issue_agent ttl (some token) false now ref type agent purpose rows
      ≡ issue ttl (some token) false now ref type agent purpose rows
unfolding issue_agent
issue_agent-issue ttl now token ref type agent purpose rows e = rw e refl

find-issue :
    (ttl now : ℕ) (token ref type agent purpose : String) (rows : Rows)
    → find token rows ≡ none
    → find token (issue ttl (some token) false now ref type agent purpose rows).0
      ≡ some (new_row ttl now token ref type agent purpose)
unfolding issue
find-issue ttl now token ref type agent purpose rows h =
    rw h (find-append_new rows (new_row ttl now token ref type agent purpose) h)

-- The row that a call with a free token leaves.
find-issue_agent :
    (ttl now : ℕ) (token ref type agent purpose : String) (rows : Rows)
    → is_empty agent ≡ false
    → find token rows ≡ none
    → find token (issue_agent ttl (some token) false now ref type agent purpose rows).0
      ≡ some (new_row ttl now token ref type agent purpose)
find-issue_agent ttl now token ref type agent purpose rows e h =
    ap (λ p. find token p.0) (issue_agent-issue ttl now token ref type agent purpose rows e)
    ∙ find-issue ttl now token ref type agent purpose rows h

text_of-nullable : (s : String) → text_of (nullable s) ≡ s
text_of-nullable String.[] = refl
text_of-nullable (String.◌∷◌ c s) = refl

early : (now t : ℕ) → t ≤ now + 59 * second → ltb ((now + agent_ttl) / second * second) t ≡ false
early now t h = ground (arith, h)

late : (now t : ℕ) → now + agent_ttl < t → ltb ((now + agent_ttl) / second * second) t ≡ true
late now t h = ground (arith, h)

redeem_early :
    (t : ℕ) (token claimed : String) (rows : Rows) (r : Row)
    → find token rows ≡ some r
    → r.used ≡ false
    → ltb (parse_time r.expires_at) t ≡ false
    → text_of r.agent_id ≡ claimed
    → (redeem no_faults t token claimed rows).1 ≡ ok (load r)
redeem_early t token claimed rows r h u x a =
    ap (λ p. p.1) (redeem_grants t token claimed rows r h u x ((text_eq_iff _ claimed).1 a))

redeem_late :
    (t : ℕ) (token claimed : String) (rows : Rows) (r : Row)
    → find token rows ≡ some r
    → r.used ≡ false
    → ltb (parse_time r.expires_at) t ≡ true
    → (redeem no_faults t token claimed rows).1 ≡ err token_expired
unfolding redeem
redeem_late t token claimed rows r h u x = rw (h, u, x) refl

redeem_other :
    (t : ℕ) (token claimed : String) (rows : Rows) (r : Row)
    → find token rows ≡ some r
    → r.used ≡ false
    → ltb (parse_time r.expires_at) t ≡ false
    → (text_of r.agent_id == claimed) ≡ false
    → (redeem no_faults t token claimed rows).1 ≡ err agent_id_mismatch
unfolding redeem
redeem_other t token claimed rows r h u x a = rw (h, u, x, a) refl

expiry :
    (ttl now : ℕ) (token ref type agent purpose : String)
    → is_empty agent ≡ false
    → parse_time (new_row ttl now token ref type agent purpose).expires_at
      ≡ (now + agent_ttl) / second * second
expiry ttl now token ref type agent purpose e = rw e refl

-- A token that IssueAgent returns under a key that was free works for its agent for at least 59
-- seconds, whatever the lifetime that the store is set to, is refused to every other agent in this
-- time, and expires once 60 seconds have passed. (The table keeps the time only to the second.)
pub agent_lifetime :
    (ttl now t : ℕ) (token ref type agent purpose claimed : String) (rows : Rows)
    → is_empty agent ≡ false
    → find token rows ≡ none
    → (t ≤ now + 59 * second
        → (redeem no_faults t token agent
            (issue_agent ttl (some token) false now ref type agent purpose rows).0).1
          ≡ ok (load (new_row ttl now token ref type agent purpose)))
      × (t ≤ now + 59 * second
          → (agent == claimed) ≡ false
          → (redeem no_faults t token claimed
              (issue_agent ttl (some token) false now ref type agent purpose rows).0).1
            ≡ err agent_id_mismatch)
      × (now + 60 * second < t
          → (redeem no_faults t token claimed
              (issue_agent ttl (some token) false now ref type agent purpose rows).0).1
            ≡ err token_expired)
agent_lifetime ttl now t token ref type agent purpose claimed rows e h =
    let f = find-issue_agent ttl now token ref type agent purpose rows e h in
    let at = expiry ttl now token ref type agent purpose e in
    (
      λ l.
          redeem_early t token agent _ _ f refl (ap (λ x. ltb x t) at ∙ early now t l)
            (text_of-nullable agent),
      λ l a.
          redeem_other t token claimed _ _ f refl (ap (λ x. ltb x t) at ∙ early now t l)
            (ap (λ x. x == claimed) (text_of-nullable agent) ∙ a),
      λ l. redeem_late t token claimed _ _ f refl (ap (λ x. ltb x t) at ∙ late now t l),
    )
