-- ===== src/Nlp/TokenBudget/Spend.antt =====
-- What the budget counts, and how much a sender can use of it.
use ruriko.Prelude.{
  ℕ, suc, ◌+◌, ◌-◌, ◌≤◌, ◌<◌, ◌≡◌, refl, ap, ◌∙◌, String, Bool, true, false, not, ◌&&◌, Option,
  none, some, List, [], ◌∷◌, arith, leb, ◌^◌, ◌==◌, string_eq, text_eq_iff, text_eq_refl,
  Bool-cases, inl, inr, All, if◌then◌else◌,
}
use ruriko.Prelude.Int.{ℤ, pos, negsuc, leb_ℤ, ◌+ℤ◌, ◌-ℤ◌, +ℤ-pos, -ℤ-pos}
use ruriko.Nlp.TokenBudget.{
  SenderDailyUsage, TokenBudget, is_past, usage_or_new, allowed_by, remaining_of, reset_if_needed,
  allow, record_usage, remaining, used, used_of, new_token_budget,
}
use ruriko.Nlp.TokenBudget.Day.{next_midnight_utc_lem}

-- The tokens in force for `k` at `now`.
abbrev pub spent : ℕ → TokenBudget → String → ℤ
spent now tb k = (used now k tb).1

abbrev in_force : ℕ → Option SenderDailyUsage → ℤ
in_force now o = if is_past now o then pos 0 else used_of o

spent-eq : (now : ℕ) (tb : TokenBudget) (k : String) → spent now tb k ≡ in_force now (tb.usage k)
unfolding used reset_if_needed
spent-eq now tb k = ground (arith, text_eq_iff k k)

usage-reset :
    (now : ℕ) (sender : String) (tb : TokenBudget) (k : String)
    → (reset_if_needed now sender tb).usage k
      ≡ (if sender == k && is_past now (tb.usage k) then none else tb.usage k)
unfolding reset_if_needed
usage-reset now sender tb k = elim (Bool-cases (sender == k)) [
  | inl q ↦ rw ((text_eq_iff sender k).0 q) (ground (arith, text_eq_iff k k))
  | inr q ↦ ground (arith, q)
]

in_force-later :
    (now later : ℕ) (o : Option SenderDailyUsage)
    → now ≤ later
    → is_past now o ≡ true
    → in_force later o ≡ pos 0
in_force-later now later o h e = ground arith

spent-reset :
    (now later : ℕ) (sender : String) (tb : TokenBudget) (k : String)
    → now ≤ later
    → spent later (reset_if_needed now sender tb) k ≡ spent later tb k
spent-reset now later sender tb k h =
    rw (spent-eq, spent-eq)
      (rw usage-reset (ground (arith, in_force-later now later (tb.usage k) h)))

used-state :
    (now : ℕ) (sender : String) (tb : TokenBudget)
    → (used now sender tb).0 ≡ reset_if_needed now sender tb
unfolding used
used-state now sender tb = refl

-- Allow, Remaining and Used change what no sender has used, at that time or later.
pub reads_keep :
    (now later : ℕ) (sender : String) (tb : TokenBudget) (k : String)
    → now ≤ later
    → (spent later (allow now sender tb).0 k ≡ spent later tb k)
      × (spent later (remaining now sender tb).0 k ≡ spent later tb k)
      × (spent later (used now sender tb).0 k ≡ spent later tb k)
unfolding allow remaining
reads_keep now later sender tb k h =
    let e = spent-reset now later sender tb k h in (e, e, rw used-state e)

in_force-added :
    (now later : ℕ) (tokens : ℤ) (o : Option SenderDailyUsage)
    → is_past now o ≡ is_past later o
    → let u = usage_or_new later (if is_past now o then none else o) in
      in_force later (some (record u { tokens = u.tokens +ℤ tokens })) ≡ in_force later o +ℤ tokens
in_force-added now later tokens none e = ground (arith, next_midnight_utc_lem later)
in_force-added now later tokens (some u) e = ground (arith, next_midnight_utc_lem later)

usage-record_self :
    (now later : ℕ) (sender : String) (tokens : ℤ) (tb : TokenBudget)
    → is_past now (tb.usage sender) ≡ is_past later (tb.usage sender)
    → in_force later ((record_usage now later sender tokens tb).usage sender)
      ≡ in_force later (tb.usage sender) +ℤ tokens
unfolding record_usage
usage-record_self now later sender tokens tb e =
    rw (text_eq_refl sender, usage-reset now sender tb sender, text_eq_refl sender)
      (in_force-added now later tokens (tb.usage sender) e)

usage-record_ne :
    (now later : ℕ) (sender : String) (tokens : ℤ) (tb : TokenBudget) (k : String)
    → (sender == k) ≡ false
    → (record_usage now later sender tokens tb).usage k ≡ tb.usage k
unfolding record_usage
usage-record_ne now later sender tokens tb k e = rw (e, usage-reset now sender tb k, e)

-- RecordUsage adds the tokens to what its sender has used, as `int` adds, and changes no other
-- sender's total, unless the sender's day ends between the two readings of the clock.
pub spent-record_usage :
    (now later : ℕ) (sender : String) (tokens : ℤ) (tb : TokenBudget) (k : String)
    → is_past now (tb.usage sender) ≡ is_past later (tb.usage sender)
    → spent later (record_usage now later sender tokens tb) k
      ≡ (if sender == k then spent later tb k +ℤ tokens else spent later tb k)
spent-record_usage now later sender tokens tb k f = elim (Bool-cases (sender == k)) [
  | inl q ↦
      rw (← (text_eq_iff sender k).0 q)
        (rw text_eq_refl (rw (spent-eq, spent-eq) (usage-record_self now later sender tokens tb f)))
  | inr q ↦ rw q (
      rw (spent-eq, spent-eq)
        (ap (in_force later) (usage-record_ne now later sender tokens tb k q)))
]

budget-reset :
    (now : ℕ) (sender : String) (tb : TokenBudget)
    → (reset_if_needed now sender tb).budget ≡ tb.budget
unfolding reset_if_needed
budget-reset now sender tb = ground arith

sub_nonpos : (b n : ℕ) → b ≤ n → n < 2 ^ 63 → leb_ℤ (pos b -ℤ pos n) (pos 0) ≡ true
unfolding ◌-ℤ◌
sub_nonpos b n h k = ground arith

allowed-remaining :
    (b n : ℕ) (o : Option SenderDailyUsage)
    → b < 2 ^ 63
    → used_of o ≡ pos n
    → n < 2 ^ 63
    → (0 < b)
    → allowed_by (pos b) o ≡ not (leb_ℤ (remaining_of (pos b) o) (pos 0))
allowed-remaining b n none h e k p = ground arith
allowed-remaining b n (some u) h e k p = elim (Bool-cases (leb b n)) [
  | inl q ↦ rw e (rw (sub_nonpos b n (ground arith) k) (ground (arith, q)))
  | inr q ↦ rw e (rw (-ℤ-pos b n h (ground arith)) (ground (arith, q)))
]

-- Allow and Remaining agree: a request is allowed exactly if some tokens remain. The budget must be
-- positive and what the sender has used not negative.
pub allow-remaining :
    (now : ℕ) (sender : String) (tb : TokenBudget) (b n : ℕ)
    → tb.budget ≡ pos b
    → 0 < b
    → b < 2 ^ 63
    → spent now tb sender ≡ pos n
    → n < 2 ^ 63
    → (allow now sender tb).1 ≡ not (leb_ℤ (remaining now sender tb).1 (pos 0))
unfolding allow remaining used
allow-remaining now sender tb b n eb pb hb en hn =
    rw (budget-reset now sender tb)
      (simp eb (allowed-remaining b n ((reset_if_needed now sender tb).usage sender) hb en hn pb))

-- A run of requests, each a time, a sender and the tokens that its classification turns out to use:
-- Allow is asked first, and the usage is recorded if it agreed.
serve_one : ℕ → String → ℕ → TokenBudget → TokenBudget
serve_one now sender tokens tb =
    let (tb', granted) = allow now sender tb in
    if granted then record_usage now now sender (pos tokens) tb' else tb'

pub serve : List (ℕ × String × ℕ) → TokenBudget → TokenBudget
serve [] tb = tb
serve ((now, sender, tokens) ∷ rest) tb = serve rest (serve_one now sender tokens tb)

-- The totals that a sender can reach: below `bound`, as an `int` that has not wrapped.
abbrev pub IsBelow : ℕ → ℤ → Type 0
IsBelow bound (pos n) = n < bound
IsBelow bound (negsuc n) = ⊥

module _ (b most : ℕ) (pb : 0 < b) (fits : b + most < 2 ^ 63) where
  abbrev AllBelow : TokenBudget → Type 0
  AllBelow tb = (tb.budget ≡ pos b) × ((k : String) → IsBelow (b + most) (used_of (tb.usage k)))

  reset-AllBelow :
      (now : ℕ) (sender : String) (tb : TokenBudget)
      → AllBelow tb
      → AllBelow (reset_if_needed now sender tb)
  reset-AllBelow now sender tb h =
      (budget-reset now sender tb ∙ h.0, λ k. rw usage-reset (ground (arith, h.1 k)))

  -- The sender had tokens left, so the total stays below the bound.
  added-IsBelow :
      (tokens : ℕ) (v : ℤ)
      → tokens ≤ most
      → leb_ℤ (pos b) v ≡ false
      → IsBelow (b + most) v
      → IsBelow (b + most) (v +ℤ pos tokens)
  added-IsBelow tokens (pos n) h a i =
      let small : n + tokens < b + most = ground arith in rw (+ℤ-pos n tokens (omega arith)) small
  added-IsBelow tokens (negsuc n) h a i = elim i [ ]

  tokens-IsBelow :
      (now tokens : ℕ) (past : Bool) (o : Option SenderDailyUsage)
      → tokens ≤ most
      → allowed_by (pos b) o ≡ true
      → IsBelow (b + most) (used_of o)
      → IsBelow (b + most) ((usage_or_new now (if past then none else o)).tokens +ℤ pos tokens)
  tokens-IsBelow now tokens true o h a i =
      added-IsBelow tokens (pos 0) h (ground arith) (omega arith)
  tokens-IsBelow now tokens false none h a i =
      added-IsBelow tokens (pos 0) h (ground arith) (omega arith)
  tokens-IsBelow now tokens false (some u) h a i =
      added-IsBelow tokens u.tokens h (ground (arith, a)) i

  record-AllBelow :
      (now : ℕ) (sender : String) (tokens : ℕ) (tb : TokenBudget)
      → tokens ≤ most
      → allowed_by (pos b) (tb.usage sender) ≡ true
      → AllBelow tb
      → AllBelow (record_usage now now sender (pos tokens) tb)
  unfolding record_usage
  record-AllBelow now sender tokens tb h a i = (
    budget-reset now sender tb ∙ i.0,
    λ k. elim (Bool-cases (sender == k)) [
      | inl q ↦
          rw (q, usage-reset now sender tb sender, text_eq_refl sender)
            (tokens-IsBelow now tokens (is_past now (tb.usage sender)) (tb.usage sender) h a
              (i.1 sender))
      | inr q ↦ rw (q, usage-reset now sender tb k, q) (i.1 k)
    ],
  )

  serve_one-AllBelow :
      (now : ℕ) (sender : String) (tokens : ℕ) (tb : TokenBudget)
      → tokens ≤ most
      → AllBelow tb
      → AllBelow (serve_one now sender tokens tb)
  unfolding serve_one allow
  serve_one-AllBelow now sender tokens tb h i =
      let tb' = reset_if_needed now sender tb in
      let i' = reset-AllBelow now sender tb i in
      elim (Bool-cases (allowed_by tb'.budget (tb'.usage sender))) [
        | inl q ↦ rw q (record-AllBelow now sender tokens tb' h (simp (i'.0) at q) i')
        | inr q ↦ rw q i'
      ]

  serve-AllBelow :
      (reqs : List (ℕ × String × ℕ)) (tb : TokenBudget)
      → All (λ (r : ℕ × String × ℕ). r.2 ≤ most) reqs
      → AllBelow tb
      → AllBelow (serve reqs tb)
  unfolding serve
  serve-AllBelow [] tb h i = i
  serve-AllBelow ((now, sender, tokens) ∷ rest) tb h i =
      serve-AllBelow rest (serve_one now sender tokens tb) h.1
        (serve_one-AllBelow now sender tokens tb h.0 i)

  new-AllBelow : AllBelow (new_token_budget (pos b))
  unfolding new_token_budget
  new-AllBelow = let e : b ≡ suc (b - 1) = omega arith in rw e (refl, λ k. omega arith)

  -- If every request asks Allow first and records at most `most` tokens, then from a new budget no
  -- sender's total in force ever passes the budget by `most` tokens: it stays below their sum. The
  -- sum must fit into an `int`.
  pub serve_bounded :
      (reqs : List (ℕ × String × ℕ)) (now : ℕ) (k : String)
      → All (λ (r : ℕ × String × ℕ). r.2 ≤ most) reqs
      → IsBelow (b + most) (spent now (serve reqs (new_token_budget (pos b))) k)
  serve_bounded reqs now k h =
      let start : AllBelow (new_token_budget (pos b)) = new-AllBelow in
      let i = serve-AllBelow reqs (new_token_budget (pos b)) h start in
      rw spent-eq (ground (arith, i.1 k))
