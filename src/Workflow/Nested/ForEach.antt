-- ===== src/Workflow/Nested/ForEach.antt =====
-- The for_each step: it gives its two names their values back, and runs at most as often as it may.
use Prim.Native.String.{String}
use ruriko.Prelude.{
  ℕ, zero, suc, ◌+◌, ◌≤◌, Bool, true, false, Option, none, some, ◌≡◌, refl, ap, ◌∙◌, ◌==◌,
  string_eq, nat_eq, text_eq_iff, text_eq_refl, ◌≢◌, arith, Bool-cases, inl, inr, ◌⊎◌,
  if◌then◌else◌,
}
use ruriko.Prelude.Text.{append, is_empty, trim_space}
use ruriko.Json.{Value, arr, Items, nil, cons, Fields, get, count, first, join_items}
use ruriko.Json.Maps.{get-put, get-remove}
use ruriko.Gosuto.Workflow.{StepFields}
use ruriko.Workflow.State.{State}
use ruriko.Workflow.Act.{Act, put_back, restore, restoring}
use ruriko.Workflow.Act.Keeps.{Keeps, fail-Keeps, then-Keeps, if-Keeps}
use ruriko.Workflow.Act.Ensures.{
  OfResult, Ensures, then-Ensures, pure-Ensures, fail-Ensures, if-Ensures,
}
use ruriko.Workflow.Step.{World, Output}
use ruriko.Workflow.Nested.{Nested, iterate, run_for_each, max_iterations, item_name}

get-put_back :
    (k j : String) (o : Option Value) (m : Fields)
    → get j (put_back k o m) ≡ (if k == j then o else get j m)
get-put_back k j none m = get-remove k j m
get-put_back k j (some v) m = get-put k j v m

-- A name is not itself with "_index" behind it.
size : String → ℕ
size String.[] = 0
size (String.◌∷◌ c s) = suc (size s)

size-append : (s t : String) → size (append s t) ≡ size s + size t
unfolding size
size-append String.[] t = omega arith
size-append (String.◌∷◌ c s) t = ground (arith, size-append s t)

too_long : (name : String) → append name "_index" ≢ name
unfolding size
too_long name e = omega (arith, size-append name "_index", ap size e)

index_differs : (name : String) → (append name "_index" == name) ≡ false
index_differs name = elim (Bool-cases (append name "_index" == name)) [
  | inl e ↦ elim (too_long name ((text_eq_iff (append name "_index") name).0 e)) [ ]
  | inr e ↦ e
]

choose : {A : Type 0} (b : Bool) (x y : A) → b ≡ true → (if b then x else y) ≡ x
choose b x y e = rw e refl

choose_else : {A : Type 0} (b : Bool) (x y : A) → b ≡ false → (if b then x else y) ≡ y
choose_else b x y e = rw e refl

restored :
    (name k : String) (old s : State)
    → (k ≡ name) ⊎ (k ≡ append name "_index")
    → get k ((restore name (append name "_index") old s).values) ≡ get k old.values
restored name k old s (inl e) =
    let index = append name "_index" in
    let inner = put_back name (get name old.values) s.values in
    rw e (
      get-put_back index name (get index old.values) inner
      ∙ (choose_else (index == name) (get index old.values) (get name inner) (index_differs name)
          ∙ (get-put_back name name (get name old.values) s.values
              ∙ choose (name == name) (get name old.values) (get name s.values)
                  (text_eq_refl name))))
restored name k old s (inr e) =
    let index = append name "_index" in
    let inner = put_back name (get name old.values) s.values in
    rw e (
      get-put_back index index (get index old.values) inner
      ∙ choose (index == index) (get index old.values) (get index inner) (text_eq_refl index))

restoring_restores :
    (name k : String) (v : Option Value) (m : Act Output)
    → (k ≡ name) ⊎ (k ≡ append name "_index")
    → Keeps (λ s. get k s.values ≡ v) (restoring name (append name "_index") m)
unfolding restoring
restoring_restores name k v m h = record { keeps = λ s p. restored name k s ((m s).0) h ∙ p }

-- The names of the item and of its index have, behind a for_each step, the values that they had before it,
-- however the step ends and whatever its nested steps do to them.
pub run_for_each-get :
    (w : World) (protocol_id : String) (f : StepFields) (b : Bool) (nested : ℕ → Act Nested)
    (k : String) (s : State)
    → (k ≡ item_name f) ⊎ (k ≡ append (item_name f) "_index")
    → get k ((run_for_each w protocol_id f b nested s).0.values) ≡ get k s.values
unfolding run_for_each
run_for_each-get w protocol_id f b nested k s h =
    (if-Keeps (is_empty (trim_space f.items_expr)) _ _ (fail-Keeps _) (
        then-Keeps _ _ (λ v. then-Keeps _ _ (λ items.
          if-Keeps b _ _ (restoring_restores (item_name f) k (get k s.values) _ h)
            (fail-Keeps _))))).keeps
      s refl

-- The number of the contracts in a result.
abbrev pub HasAtMost : ℕ → Output → Type 0
HasAtMost n (arr contracts, calls) = count contracts ≤ n
HasAtMost n (v, calls) = ⊥

count-join_items : (vs ws : Items) → count (join_items vs ws) ≡ count vs + count ws
count-join_items nil ws = omega arith
count-join_items (cons v vs) ws = ground (arith, count-join_items vs ws)

count-first-le : (n : ℕ) (vs : Items) → count (first n vs) ≤ n
count-first-le zero vs = omega arith
count-first-le (suc n) nil = omega arith
count-first-le (suc n) (cons v vs) = ground (arith, count-first-le n vs)

iterate-Ensures :
    (n : ℕ) (body : ℕ → Value → Act Output) (i : ℕ) (items contracts : Items) (calls : ℕ)
    → count contracts + count items ≤ n
    → Ensures (HasAtMost n) (iterate body i items contracts calls)
unfolding iterate
iterate-Ensures n body i nil contracts calls h = pure-Ensures (HasAtMost n) _ (omega (arith, h))
iterate-Ensures n body i (cons item rest) contracts calls h = then-Ensures (HasAtMost n) _ _ (λ p.
    iterate-Ensures n body (suc i) rest (join_items contracts (cons (p.0) nil)) _
      (omega (arith, h, count-join_items contracts (cons (p.0) nil))))

restoring-Ensures :
    (n : ℕ) (item index : String) (m : Act Output)
    → Ensures (HasAtMost n) m
    → Ensures (HasAtMost n) (restoring item index m)
unfolding restoring
restoring-Ensures n item index m h = record { ensures = h.ensures }

-- The result of a for_each step has at most maxIterations entries, and at most 10 if none is given.
pub run_for_each-HasAtMost :
    (w : World) (protocol_id : String) (f : StepFields) (b : Bool) (nested : ℕ → Act Nested)
    (s : State)
    → OfResult (HasAtMost (max_iterations f)) ((run_for_each w protocol_id f b nested s).1)
unfolding run_for_each
run_for_each-HasAtMost w protocol_id f b nested s =
    let n = max_iterations f in
    (if-Ensures (HasAtMost n) (is_empty (trim_space f.items_expr)) _ _
        (fail-Ensures (HasAtMost n) _)
        (then-Ensures (HasAtMost n) _ _ (λ v. then-Ensures (HasAtMost n) _ _ (λ items.
          if-Ensures (HasAtMost n) b _ _
            (restoring-Ensures n _ _ _
              (iterate-Ensures n _ 0 (first n items) nil 0 (omega (arith, count-first-le n items))))
            (fail-Ensures (HasAtMost n) _))))).ensures
      s
