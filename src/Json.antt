-- ===== src/Json.antt =====
-- The values that Go's `interface{}` holds where the code reads JSON or YAML, and their maps and slices.
pub mod Maps
use Prim.Native.Nat.{Ordering}
use Prim.Native.String
use ruriko.Prelude.{
  ℕ, zero, suc, String, Bool, true, false, Option, none, some, List, [], ◌∷◌, ◌==◌, string_eq,
  if◌then◌else◌,
}
use ruriko.Prelude.Text.{append}

-- A number is what the code reads of it: the text that `%v` prints, and for a float64 whether it is a
-- whole number. A `table` is a `map[string]map[string]interface{}`.
mutual
  pub data Value : Type 0 where
    null : Value
    bool : Bool → Value
    int : String → Value
    float : String → Bool → Value
    str : String → Value
    arr : Items → Value
    obj : Fields → Value
    table : Fields → Value

  pub data Items : Type 0 where
    nil : Items
    cons : Value → Items → Items

  -- A map: its entries, in the order in which Go visits them.
  pub data Fields : Type 0 where
    end : Fields
    field : String → Value → Fields → Fields

-- m[k]
abbrev pub get : String → Fields → Option Value
get k end = none
get k (field j v m) = let rest = get k m in if j == k then some v else rest

-- m[k] = v
abbrev pub put : String → Value → Fields → Fields
put k v end = field k v end
put k v (field j w m) = let rest = put k v m in if j == k then field k v m else field j w rest

-- delete(m, k)
abbrev pub remove : String → Fields → Fields
remove k end = end
remove k (field j w m) = let rest = remove k m in if j == k then rest else field j w rest

abbrev pub count : Items → ℕ
count nil = 0
count (cons v vs) = suc (count vs)

-- vs[:n]
abbrev pub first : ℕ → Items → Items
first zero vs = nil
first (suc n) nil = nil
first (suc n) (cons v vs) = cons v (first n vs)

-- append(vs, ws...)
abbrev pub join_items : Items → Items → Items
join_items nil ws = ws
join_items (cons v vs) ws = cons v (join_items vs ws)

abbrev pub has : String → Fields → Bool
has k m = elim (get k m) [ none ↦ false | some v ↦ true ]

-- `v.(string)`
abbrev pub as_string : Value → Option String
as_string (str s) = some s
as_string _ = none

-- The entries of a map, printed and in the order of their keys, as `%v` has them.
abbrev is_before : String → String → Bool
is_before j k = elim (String.compare j k) [ Ordering.lt ↦ true | _ ↦ false ]

abbrev insert : String × String → List (String × String) → List (String × String)
insert p [] = p ∷ []
insert (k, s) ((j, t) ∷ rest) =
    let later = insert (k, s) rest in
    if is_before j k then (j, t) ∷ later else (k, s) ∷ (j, t) ∷ rest

abbrev join_entries : List (String × String) → String
join_entries [] = ""
join_entries ((k, s) ∷ []) = append k (append ":" s)
join_entries ((k, s) ∷ e ∷ rest) =
    append k (append ":" (append s (append " " (join_entries (e ∷ rest)))))

abbrev in_map : List (String × String) → String
in_map es = append "map[" (append (join_entries es) "]")

-- fmt.Sprintf("%v", v)
unfoldable mutual
  pub print : Value → String
  print null = "<nil>"
  print (bool true) = "true"
  print (bool false) = "false"
  print (int s) = s
  print (float s b) = s
  print (str s) = s
  print (arr vs) = append "[" (append (print_items vs) "]")
  print (obj m) = in_map (print_fields m)
  print (table m) = in_map (print_fields m)

  pub print_items : Items → String
  print_items nil = ""
  print_items (cons v nil) = print v
  print_items (cons v (cons w vs)) = append (print v) (append " " (print_items (cons w vs)))

  pub print_fields : Fields → List (String × String)
  print_fields end = []
  print_fields (field k v m) = insert (k, print v) (print_fields m)
