-- ===== src/Workflow/Act.antt =====
-- A part of a run: it changes the state and ends with a result or an error, whatever it has changed.
pub mod Costs
pub mod Ensures
pub mod Keeps
use Prim.Native.String.{String}
use ruriko.Prelude.{Option, none, some, List, ◌∷◌}
use ruriko.Json.{Value, Fields, get, put, remove}
use ruriko.Workflow.State.{
  State, with_values, with_history, Result, ok, err, diverges, Error, plain, dispatch_failed, Call,
  tool,
}

abbrev pub Act : Type 0 → Type 0
Act A = State → State × Result A

unfoldable pub pure : {A : Type 0} → A → Act A
pure a s = (s, ok a)

unfoldable pub fail : {A : Type 0} → Error → Act A
fail e s = (s, err e)

-- Reads the state.
unfoldable pub read : {A : Type 0} → (State → Result A) → Act A
read f s = (s, f s)

abbrev pub continue_with : {A B : Type 0} → (A → Act B) → State → Result A → State × Result B
continue_with f s (ok a) = f a s
continue_with f s (err e) = (s, err e)
continue_with f s diverges = (s, diverges)

infixl 5 ◌>>=◌
unfoldable pub ◌>>=◌ : {A B : Type 0} → Act A → (A → Act B) → Act B
(m >>= f) s = let p = m s in continue_with f (p.0) (p.1)

-- state.Values[k] = v
unfoldable pub set_value : String → Value → Act Unit
set_value k v s = (with_values (put k v s.values) s, ok tt)

-- The answer of the dispatcher, or the text of its error.
pub data Reply : Type 0 where
  answer : String → Reply
  failure : String → Reply

abbrev pub replied : Reply → Result String
replied (answer text) = ok text
replied (failure text) = err (plain (dispatch_failed text))

-- Asks the dispatcher, whose answer may depend on all that has happened.
unfoldable pub dispatch : (State → Call → Reply) → Call → Act String
dispatch reply call s = (with_history (call ∷ s.history) s, replied (reply s call))

-- DispatchTool, in the name of the sender of the run.
unfoldable pub dispatch_tool : (State → Call → Reply) → String → Fields → Act String
unfolding dispatch
dispatch_tool reply name args s = dispatch reply (tool s.sender_mxid name args) s

abbrev pub put_back : String → Option Value → Fields → Fields
put_back k none m = remove k m
put_back k (some v) m = put k v m

-- The deferred call of a for_each step: it gives two names the values back that they had.
abbrev pub restore : String → String → State → State → State
restore item index old s =
    with_values
      (put_back index (get index old.values) (put_back item (get item old.values) s.values)) s

unfoldable pub restoring : {A : Type 0} → String → String → Act A → Act A
restoring item index m s = let p = m s in (restore item index s (p.0), p.1)

-- `fmt.Errorf("...: %w", err)`
abbrev pub wrapped : {A : Type 0} → (Error → Error) → Result A → Result A
wrapped g (err e) = err (g e)
wrapped g r = r

unfoldable pub wrap : {A : Type 0} → (Error → Error) → Act A → Act A
wrap g m s = let p = m s in (p.0, wrapped g (p.1))
