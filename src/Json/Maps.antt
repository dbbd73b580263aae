-- ===== src/Json/Maps.antt =====
-- The laws of the maps.
use ruriko.Prelude.{
  String, none, some, ◌≡◌, refl, arith, ◌==◌, string_eq, text_eq_iff, if◌then◌else◌,
}
use ruriko.Json.{Value, Fields, end, field, get, put, remove}

pub get-put :
    (k j : String) (v : Value) (m : Fields)
    → get j (put k v m) ≡ (if k == j then some v else get j m)
get-put k j v end = refl
get-put k j v (field i w m) =
    ground (arith, text_eq_iff k j, text_eq_iff i k, text_eq_iff i j, get-put k j v m)

pub get-remove :
    (k j : String) (m : Fields) → get j (remove k m) ≡ (if k == j then none else get j m)
get-remove k j end = ground arith
get-remove k j (field i w m) =
    ground (arith, text_eq_iff k j, text_eq_iff i k, text_eq_iff i j, get-remove k j m)
