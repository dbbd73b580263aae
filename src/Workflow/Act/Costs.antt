-- ===== src/Workflow/Act/Costs.antt =====
-- How many tools a part of a run calls, when it succeeds.
use ruriko.Prelude.{
  ℕ, suc, ◌+◌, String, Bool, true, false, List, [], ◌∷◌, ◌≡◌, refl, sym, ap, ◌∙◌, arith,
  if◌then◌else◌,
}
use ruriko.Json.{Value, Fields}
use ruriko.Workflow.State.{State, Result, ok, err, diverges, Error, Call, tool, summarize}
use ruriko.Workflow.Act.{
  Act, Reply, answer, failure, pure, fail, read, continue_with, set_value, dispatch, dispatch_tool,
  restoring, wrap, wrapped, replied, ◌>>=◌,
}

-- The tool calls among the calls of the dispatcher.
abbrev pub tool_calls : List Call → ℕ
tool_calls [] = 0
tool_calls (tool sender name args ∷ calls) = suc (tool_calls calls)
tool_calls (summarize prompt ∷ calls) = tool_calls calls

abbrev pub calls_of : State → ℕ
calls_of s = tool_calls s.history

-- From a state with `k` tool calls: a result is right if it counts the further ones.
abbrev pub Cost : {A : Type 0} → (A → ℕ) → ℕ → State × Result A → Type 0
Cost c k (s, ok a) = calls_of s ≡ k + c a
Cost c k (s, err e) = Unit
Cost c k (s, diverges) = Unit

-- When `j` of the calls so far belong to the count.
pub record Costs {A : Type 0} (j : ℕ) (c : A → ℕ) (m : Act A) : Type 0 where
  pub costs : (s : State) (k : ℕ) → calls_of s ≡ k + j → Cost c k (m s)

module _ {A B : Type 0} (d : A → ℕ) (c : B → ℕ) where
  continue-Costs :
      (f : A → Act B)
      → ((a : A) → Costs (d a) c (f a))
      → (s : State) (r : Result A) (k : ℕ) → Cost d k (s, r)
      → Cost c k (continue_with f s r)
  continue-Costs f h s (ok a) k e = (h a).costs s k e
  continue-Costs f h s (err x) k e = tt
  continue-Costs f h s diverges k e = tt

  pub bind-Costs :
      (j : ℕ) (m : Act A) (f : A → Act B)
      → Costs j d m
      → ((a : A) → Costs (d a) c (f a))
      → Costs j c (m >>= f)
  unfolding ◌>>=◌
  bind-Costs j m f h g = record {
    costs = λ s k e. continue-Costs f g ((m s).0) ((m s).1) k (h.costs s k e);
  }

module _ {A : Type 0} (c : A → ℕ) where
  pub pure-Costs : (a : A) → Costs (c a) c (pure a)
  unfolding pure
  pure-Costs a = record { costs = λ s k e. e }

  pub fail-Costs : (j : ℕ) (e : Error) → Costs j c (fail {A = A} e)
  unfolding fail
  fail-Costs j e = record { costs = λ s k h. tt }

  pub if-Costs :
      (j : ℕ) (b : Bool) (m n : Act A) → Costs j c m → Costs j c n → Costs j c (if b then m else n)
  if-Costs j true m n h g = h
  if-Costs j false m n h g = g

  wrapped-Cost :
      (g : Error → Error) (s : State) (r : Result A) (k : ℕ)
      → Cost c k (s, r)
      → Cost c k (s, wrapped g r)
  wrapped-Cost g s (ok a) k e = e
  wrapped-Cost g s (err x) k e = tt
  wrapped-Cost g s diverges k e = tt

  pub wrap-Costs : (j : ℕ) (g : Error → Error) (m : Act A) → Costs j c m → Costs j c (wrap g m)
  unfolding wrap
  wrap-Costs j g m h = record {
    costs = λ s k e. wrapped-Cost g ((m s).0) ((m s).1) k (h.costs s k e);
  }

  restoring-Cost :
      (s t : State) (r : Result A) (k : ℕ)
      → s.history ≡ t.history
      → Cost c k (s, r)
      → Cost c k (t, r)
  restoring-Cost s t (ok a) k q e = ap tool_calls (sym q) ∙ e
  restoring-Cost s t (err x) k q e = tt
  restoring-Cost s t diverges k q e = tt

  pub restoring-Costs :
      (j : ℕ) (item index : String) (m : Act A) → Costs j c m → Costs j c (restoring item index m)
  unfolding restoring
  restoring-Costs j item index m h = record {
    costs = λ s k e.
        restoring-Cost ((m s).0) ((restoring item index m s).0) ((m s).1) k refl (h.costs s k e);
  }

  shifted-Cost :
      (n k : ℕ) (s : State) (r : Result A) → Cost c (k + n) (s, r) → Cost (λ a. n + c a) k (s, r)
  shifted-Cost n k s (ok a) e = e ∙ omega arith
  shifted-Cost n k s (err x) e = tt
  shifted-Cost n k s diverges e = tt

  -- A part that counts from 0 may stand behind `n` calls.
  pub shifted-Costs : (n : ℕ) (m : Act A) → Costs 0 c m → Costs n (λ a. n + c a) m
  shifted-Costs n m h = record {
    costs = λ s k e. shifted-Cost n k ((m s).0) ((m s).1) (h.costs s (k + n) (e ∙ omega arith));
  }

read-Cost :
    {A : Type 0} (j : ℕ) (r : Result A) (s : State) (k : ℕ)
    → calls_of s ≡ k + j
    → Cost (λ a. j) k (s, r)
read-Cost j (ok a) s k e = e
read-Cost j (err x) s k e = tt
read-Cost j diverges s k e = tt

pub read-Costs : {A : Type 0} (j : ℕ) (f : State → Result A) → Costs j (λ a. j) (read f)
unfolding read
read-Costs j f = record { costs = λ s k e. read-Cost j (f s) s k e }

pub then-Costs :
    {A B : Type 0} (c : B → ℕ) (j : ℕ) (f : State → Result A) (g : A → Act B)
    → ((a : A) → Costs j c (g a))
    → Costs j c (read f >>= g)
then-Costs c j f g h = bind-Costs (λ a. j) c j (read f) g (read-Costs j f) h

pub set_value-Costs : (j : ℕ) (k : String) (v : Value) → Costs j (λ u. j) (set_value k v)
unfolding set_value
set_value-Costs j k v = record { costs = λ s n e. e }

replied-Cost :
    (j : ℕ) (r : Reply) (s : State) (k : ℕ) → calls_of s ≡ k + j → Cost (λ a. j) k (s, replied r)
replied-Cost j (answer text) s k e = e
replied-Cost j (failure text) s k e = tt

pub summarize-Costs :
    (j : ℕ) (reply : State → Call → Reply) (prompt : String)
    → Costs j (λ a. j) (dispatch reply (summarize prompt))
unfolding dispatch
summarize-Costs j reply prompt = record {
  costs = λ s k e.
      replied-Cost j (reply s (summarize prompt)) ((dispatch reply (summarize prompt) s).0) k e;
}

pub dispatch_tool-Costs :
    (j : ℕ) (reply : State → Call → Reply) (name : String) (args : Fields)
    → Costs j (λ a. suc j) (dispatch_tool reply name args)
unfolding dispatch_tool dispatch
dispatch_tool-Costs j reply name args = record {
  costs = λ s k e.
      replied-Cost (suc j) (reply s (tool s.sender_mxid name args))
        ((dispatch_tool reply name args s).0) k (omega (arith, e));
}
