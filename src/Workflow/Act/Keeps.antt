-- ===== src/Workflow/Act/Keeps.antt =====
-- What every part of a run keeps: a property of the state that survives the two changes that a part can
-- make, new values and a further call of the dispatcher.
use ruriko.Prelude.{String, Bool, true, false, if◌then◌else◌, ◌∷◌}
use ruriko.Json.{Value, Fields, put}
use ruriko.Workflow.State.{
  State, with_values, with_history, Result, ok, err, diverges, Error, Call, tool,
}
use ruriko.Workflow.Act.{
  Act, Reply, pure, fail, read, continue_with, set_value, dispatch, dispatch_tool, restoring, wrap,
  ◌>>=◌,
}

pub record Stable (Allows : State → Call → Type 0) (P : State → Type 0) : Type 0 where
  pub on_values : (m : Fields) (s : State) → P s → P (with_values m s)
  pub on_call :
      (call : Call) (s : State) → Allows s call → P s → P (with_history (call ∷ s.history) s)

pub record Keeps (P : State → Type 0) {A : Type 0} (m : Act A) : Type 0 where
  pub keeps : (s : State) → P s → P ((m s).0)

module _ {P : State → Type 0} where
  pub continue-Keeps :
      {A B : Type 0} (f : A → Act B)
      → ((a : A) → Keeps P (f a))
      → (s : State) (r : Result A) → P s
      → P ((continue_with f s r).0)
  continue-Keeps f h s (ok a) p = (h a).keeps s p
  continue-Keeps f h s (err e) p = p
  continue-Keeps f h s diverges p = p

  pub bind-Keeps :
      {A B : Type 0} (m : Act A) (f : A → Act B)
      → Keeps P m
      → ((a : A) → Keeps P (f a))
      → Keeps P (m >>= f)
  unfolding ◌>>=◌
  bind-Keeps m f k h = record {
    keeps = λ s p. continue-Keeps f h ((m s).0) ((m s).1) (k.keeps s p);
  }

  pub pure-Keeps : {A : Type 0} (a : A) → Keeps P (pure a)
  unfolding pure
  pure-Keeps a = record { keeps = λ s p. p }

  pub fail-Keeps : {A : Type 0} (e : Error) → Keeps P (fail {A = A} e)
  unfolding fail
  fail-Keeps e = record { keeps = λ s p. p }

  pub read-Keeps : {A : Type 0} (f : State → Result A) → Keeps P (read f)
  unfolding read
  read-Keeps f = record { keeps = λ s p. p }

  pub wrap-Keeps : {A : Type 0} (g : Error → Error) (m : Act A) → Keeps P m → Keeps P (wrap g m)
  unfolding wrap
  wrap-Keeps g m k = record { keeps = k.keeps }

  -- Reading first changes nothing.
  pub then-Keeps :
      {A B : Type 0} (f : State → Result A) (g : A → Act B)
      → ((a : A) → Keeps P (g a))
      → Keeps P (read f >>= g)
  then-Keeps f g h = bind-Keeps (read f) g (read-Keeps f) h

  pub if-Keeps :
      {A : Type 0} (b : Bool) (m n : Act A) → Keeps P m → Keeps P n → Keeps P (if b then m else n)
  if-Keeps true m n h k = h
  if-Keeps false m n h k = k

module _ {Allows : State → Call → Type 0} {P : State → Type 0} (stable : Stable Allows P) where
  pub set_value-Keeps : (k : String) (v : Value) → Keeps P (set_value k v)
  unfolding set_value
  set_value-Keeps k v = record { keeps = λ s p. stable.on_values (put k v s.values) s p }

  pub restoring-Keeps :
      {A : Type 0} (item index : String) (m : Act A) → Keeps P m → Keeps P (restoring item index m)
  unfolding restoring
  restoring-Keeps item index m k = record {
    keeps = λ s p. stable.on_values _ ((m s).0) (k.keeps s p);
  }

  pub dispatch-Keeps :
      (reply : State → Call → Reply) (call : Call)
      → ((s : State) → Allows s call)
      → Keeps P (dispatch reply call)
  unfolding dispatch
  dispatch-Keeps reply call a = record { keeps = λ s p. stable.on_call call s (a s) p }

  pub dispatch_tool-Keeps :
      (reply : State → Call → Reply) (name : String) (args : Fields)
      → ((s : State) → Allows s (tool s.sender_mxid name args))
      → Keeps P (dispatch_tool reply name args)
  unfolding dispatch_tool dispatch
  dispatch_tool-Keeps reply name args a = record {
    keeps = λ s p. stable.on_call (tool s.sender_mxid name args) s (a s) p;
  }
