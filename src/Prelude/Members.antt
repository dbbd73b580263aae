-- ===== src/Prelude/Members.antt =====
-- The tests on lists, by membership.
use mathlib.Core.List.{Memᴰ}
use ruriko.Prelude.{
  String, Bool, true, List, [], ◌∷◌, ◌≡◌, ◌↔◌, inl, inr, refl, sym, ap, ◌∙◌, arith, ◌==◌, string_eq,
  text_eq_iff, any, contains, Bool-cases,
}

module _ {ℓ} {A : Type ℓ} (p : A → Bool) where
  pub any-Mem : (xs : List A) → any p xs ≡ true → (x : A) × (Memᴰ x xs × (p x ≡ true))
  any-Mem [] h = cc
  any-Mem (x ∷ xs) h = elim (Bool-cases (p x)) [
    | inl e ↦ (x, (Memᴰ.head refl, e))
    | inr e ↦ let found = any-Mem xs (rw e at h) in (found.0, (Memᴰ.tail (found.1.0), found.1.1))
  ]

  pub Mem-any : (xs : List A) (x : A) → Memᴰ x xs → p x ≡ true → any p xs ≡ true
  Mem-any [] x m h = elim m [ ]
  Mem-any (y ∷ xs) x (Memᴰ.head e) h = rw (sym (ap p e) ∙ h) refl
  Mem-any (y ∷ xs) x (Memᴰ.tail m) h = ground (arith, Mem-any xs x m h)

contains_lem : (xs : List String) (a : String) → contains xs a ≡ true → Memᴰ a xs
contains_lem [] a e = cc
contains_lem (x ∷ xs) a e = elim (Bool-cases (x == a)) [
  | inl p ↦ Memᴰ.head (sym ((text_eq_iff x a).0 p))
  | inr p ↦ Memᴰ.tail (contains_lem xs a (rw p at e))
]

member_lem : (xs : List String) (a : String) → Memᴰ a xs → contains xs a ≡ true
member_lem [] a m = elim m [ ]
member_lem (x ∷ xs) a (Memᴰ.head e) = rw ((text_eq_iff x a).1 (sym e)) refl
member_lem (x ∷ xs) a (Memᴰ.tail m) = ground (arith, member_lem xs a m)

pub contains-Mem : (xs : List String) (a : String) → (contains xs a ≡ true) ↔ Memᴰ a xs
contains-Mem xs a = (contains_lem xs a, member_lem xs a)
