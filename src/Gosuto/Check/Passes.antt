-- ===== src/Gosuto/Check/Passes.antt =====
-- What it means that a sequence of checks finds nothing.
use mathlib.Core.List.{Memᴰ}
use mathlib.Core.Bool.{false≢true}
use mathlib.Core.Path.{subst}
use ruriko.Prelude.{
  String, Bool, true, false, none, some, List, [], ◌∷◌, ◌++◌, map, string_eq, ◌≡◌, refl, sym, ◌∙◌,
  All, contains, none-ne-some,
}
use ruriko.Prelude.Members.{contains-Mem}
use ruriko.Gosuto.Check.{Problem, Check, fail_if, ◌also◌, check_all, add_names, check_named}

abbrev pub Passes : Check → Type 0
Passes c = c ≡ none

pub also-Passes : (a b : Check) → Passes (a also b) → Passes a × Passes b
unfolding ◌also◌
also-Passes none b h = (refl, h)
also-Passes (some p) b h = absurd (none-ne-some p (sym h))

-- What follows a check, and the check itself.
pub rest_of : (a b : Check) → Passes (a also b) → Passes b
rest_of a b h = (also-Passes a b h).1

pub first_of : (a b : Check) → Passes (a also b) → Passes a
first_of a b h = (also-Passes a b h).0

pub fail_if-Passes : (b : Bool) (p : Problem) → Passes (fail_if b p) → b ≡ false
fail_if-Passes true p h = absurd (none-ne-some p (sym h))
fail_if-Passes false p h = refl

pub check_all-Passes :
    {A : Type 0} (f : A → Check) (xs : List A)
    → Passes (check_all f xs)
    → All (λ x. Passes (f x)) xs
check_all-Passes f [] h = tt
check_all-Passes f (x ∷ xs) h =
    let both = also-Passes (f x) (check_all f xs) h in (both.0, check_all-Passes f xs (both.1))

-- Names that differ from each other and from those seen before.
abbrev pub Fresh : List String → List String → Type 0
Fresh seen [] = Unit
Fresh seen (n ∷ ns) = (contains seen n ≡ false) × Fresh (n ∷ seen) ns

pub check_named-Passes :
    {A : Type 0} (f : A → Check) (name : A → String) (p : Problem) (seen : List String)
    (xs : List A)
    → Passes (check_named f name p seen xs)
    → All (λ x. Passes (f x)) xs × Fresh seen (map name xs)
check_named-Passes f name p seen [] h = (tt, tt)
check_named-Passes f name p seen (x ∷ xs) h =
    let later = check_named f name p (name x ∷ seen) xs in
    let outer = also-Passes (f x) (fail_if (contains seen (name x)) p also later) h in
    let inner = also-Passes (fail_if (contains seen (name x)) p) later (outer.1) in
    let rest = check_named-Passes f name p (name x ∷ seen) xs (inner.1) in
    ((outer.0, rest.0), (fail_if-Passes (contains seen (name x)) p (inner.0), rest.1))

-- The second of two loops goes on with the names of the first one.
pub Fresh-append :
    {A : Type 0} (name : A → String) (seen : List String) (xs : List A) (ns : List String)
    → Fresh seen (map name xs)
    → Fresh (add_names name xs seen) ns
    → Fresh seen (map name xs ++ ns)
Fresh-append name seen [] ns h k = k
Fresh-append name seen (x ∷ xs) ns h k = (h.0, Fresh-append name (name x ∷ seen) xs ns (h.1) k)

abbrev pub Distinct : List String → Type 0
Distinct [] = Unit
Distinct (n ∷ ns) = ¬ (Memᴰ n ns) × Distinct ns

new : (n : String) (ns seen : List String) → Fresh seen ns → Memᴰ n seen → ¬ (Memᴰ n ns)
new n [] seen h s m = elim m [ ]
new n (x ∷ ns) seen h s (Memᴰ.head e) =
    false≢true (sym (h.0) ∙ (contains-Mem seen x).1 (subst (λ y. Memᴰ y seen) e s))
new n (x ∷ ns) seen h s (Memᴰ.tail m) = new n ns (x ∷ seen) (h.1) (Memᴰ.tail s) m

pub Fresh-Distinct : (ns seen : List String) → Fresh seen ns → Distinct ns
Fresh-Distinct [] seen h = tt
Fresh-Distinct (n ∷ ns) seen h =
    (new n ns (n ∷ seen) (h.1) (Memᴰ.head refl), Fresh-Distinct ns (n ∷ seen) (h.1))
