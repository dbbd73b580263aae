-- ===== src/Secrets/Tests.antt =====
-- Secrets at a concrete manager.
use mathlib.Core.List.{Memᴰ}
use ruriko.Prelude.{
  ◌+◌, String, true, false, none, some, List, [], ◌∷◌, ◌≡◌, ◌↔◌, All, refl, string_eq, arith,
}
use ruriko.Prelude.GoMap.{put, empty}
use ruriko.Secrets.Base64.{decode_string, decode_groups}
use ruriko.Secrets.{Manager, apply, get_secret, evict, value, not_in_store}
use ruriko.Secrets.Lifetime.{get_secret-apply, IsAnswer, Decodes, lookup}
use ruriko.Secrets.Evict.{evict_lem, value_of, IsPast, between}

test_decode : decode_string "aGVsbG8=" ≡ some (104 ∷ 101 ∷ 108 ∷ 108 ∷ 111 ∷ [])
unfolding decode_string decode_groups
test_decode = refl

test_bad : decode_string "aGVsb" ≡ none
unfolding decode_string decode_groups
test_bad = refl

abbrev manager : Manager
manager = record {
  store = put (put empty "db" (1 ∷ [])) "api" (2 ∷ []);
  entries = put (put empty "db" 50) "api" 9;
  ttl = 100;
}

abbrev incoming : List (String × String)
incoming = ("api", "aGVsbG8=") ∷ []

applied : (apply incoming 0 10 manager).1 ≡ true
unfolding apply decode_string decode_groups
applied = refl

get_secret-apply_example :
    (((apply incoming 0 10 manager).1 ≡ true) ↔ All Decodes incoming)
    × ((apply incoming 0 10 manager).1 ≡ true
        → IsAnswer 20
            (10 + 100)
            (lookup "api" incoming)
            (manager.entries "api")
            (get_secret 20 "api" (apply incoming 0 10 manager).0))
    × ((apply incoming 0 10 manager).1 ≡ false → (apply incoming 0 10 manager).0 ≡ manager)
get_secret-apply_example = get_secret-apply incoming 0 10 20 100 "api" manager refl

abbrev refs : List String
refs = "db" ∷ "api" ∷ []

abbrev renewed : Manager → Manager
renewed m = (apply incoming 0 55 m).0

-- Apply renews the entry between the two passes, and the value stays.
test_renewed :
    get_secret 60 "api" (evict 20 56 refs renewed (λ m. m) manager).0
    ≡ value (104 ∷ 101 ∷ 108 ∷ 108 ∷ 111 ∷ [])
unfolding evict apply get_secret decode_string decode_groups
test_renewed = refl

-- Apply renews the entry between the second pass and Store.Clear, and the new value is lost.
test_lost : get_secret 60 "api" (evict 20 25 refs (λ m. m) renewed manager).0 ≡ not_in_store
unfolding evict apply get_secret decode_string decode_groups
test_lost = refl

evict_lem_example :
    (Memᴰ "api" refs
      → IsPast 20 (manager.entries "api")
      → IsPast 25 (manager.entries "api")
      → (evict 20 25 refs (λ m. m) renewed manager).0.store "api" ≡ none)
    × (¬ IsPast 25 (manager.entries "api")
        → (evict 20 25 refs (λ m. m) renewed manager).0.store "api"
          ≡ (renewed (between 20 25 refs (λ m. m) manager)).store "api")
    × (value_of (get_secret 30 "api" (evict 20 25 refs (λ m. m) (λ m. m) manager).0)
        ≡ value_of (get_secret 30 "api" manager))
evict_lem_example = evict_lem 20 25 30 refs (λ m. m) renewed "api" manager (ground arith)
