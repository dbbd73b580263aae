-- ===== src/Prelude/Text/Cuts.antt =====
-- The laws of `cut`, by how often a character stands in a text.
use Prim.Native.Char.{Char, code}
use Prim.Native.String.{String}
use mathlib.Core.Path.{subst}
use text.Mathlib.TextEquality.{Char-path}
use ruriko.Prelude.{
  sym, ◌∙◌, inl, inr, Bool-cases, nat_beq_iff, ℕ, ◌+◌, Option, none, some, ◌≡◌, refl, ap, arith,
  ◌==◌, nat_eq, if◌then◌else◌, none-ne-some, some-injective,
}
use ruriko.Prelude.Text.{cut, cut_prefix, append, or_else, start_after, cons_before}

-- How many characters of a text have a number.
abbrev pub occurrences : ℕ → String → ℕ
occurrences n String.[] = 0
occurrences n (String.◌∷◌ c s) = (if code c == n then 1 else 0) + occurrences n s

pub occurrences-append :
    (n : ℕ) (s t : String) → occurrences n (append s t) ≡ occurrences n s + occurrences n t
occurrences-append n String.[] t = omega arith
occurrences-append n (String.◌∷◌ c s) t = ground (arith, occurrences-append n s t)

pub occurrences-cut_prefix :
    (n : ℕ) (p s r : String)
    → cut_prefix p s ≡ some r
    → occurrences n s ≡ occurrences n p + occurrences n r
occurrences-cut_prefix n String.[] s r e = ground (arith, some-injective _ _ e)
occurrences-cut_prefix n (String.◌∷◌ c p) String.[] r e = elim (none-ne-some _ e) [ ]
occurrences-cut_prefix n (String.◌∷◌ c p) (String.◌∷◌ d s) r e =
    ground (arith, occurrences-cut_prefix n p s r, none-ne-some r)

pub cut_prefix-append : (p rest : String) → cut_prefix p (append p rest) ≡ some rest
cut_prefix-append String.[] rest = refl
cut_prefix-append (String.◌∷◌ c p) rest = ground (arith, cut_prefix-append p rest)

pub cut_prefix-some : (p s rest : String) → cut_prefix p s ≡ some rest → s ≡ append p rest
cut_prefix-some String.[] s rest e = some-injective _ _ e
cut_prefix-some (String.◌∷◌ c p) String.[] rest e = elim (none-ne-some _ e) [ ]
cut_prefix-some (String.◌∷◌ c p) (String.◌∷◌ d s) rest e = elim (Bool-cases (code c == code d)) [
  | inl q ↦
      let same = Char-path c d ((nat_beq_iff (code c) (code d)).0 q) in
      ap (String.◌∷◌ d) (cut_prefix-some p s rest (rw q at e))
      ∙ ap (λ x. String.◌∷◌ x (append p rest)) (sym same)
  | inr q ↦ elim (none-ne-some _ (rw q at e)) [ ]
]

pub append_assoc : (s t u : String) → append (append s t) u ≡ append s (append t u)
append_assoc String.[] t u = refl
append_assoc (String.◌∷◌ c s) t u = ap (String.◌∷◌ c) (append_assoc s t u)

-- A separator that is not empty splits the count around its first occurrence.
abbrev Counts : ℕ → String → String → Option (String × String) → Type 0
Counts n sep s none = Unit
Counts n sep s (some (before, after)) =
    occurrences n s ≡ occurrences n before + (occurrences n sep + occurrences n after)

start_after-Counts :
    (n : ℕ) (sep s : String) (r : Option String)
    → cut_prefix sep s ≡ r
    → Counts n sep s (start_after r)
start_after-Counts n sep s none e = tt
start_after-Counts n sep s (some t) e = ground (arith, occurrences-cut_prefix n sep s t e)

later-Counts :
    (n : ℕ) (sep s : String) (c : Char) (now later : Option (String × String))
    → Counts n sep (String.◌∷◌ c s) now
    → Counts n sep s later
    → Counts n sep (String.◌∷◌ c s) (or_else now (cons_before c later))
later-Counts n sep s c (some p) later h k = h
later-Counts n sep s c none none h k = tt
later-Counts n sep s c none (some (before, after)) h k = ground (arith, k)

cut-Counts : (n : ℕ) (sep s : String) → Counts n sep s (cut sep s)
unfolding cut
cut-Counts n sep String.[] = start_after-Counts n sep String.[] (cut_prefix sep String.[]) refl
cut-Counts n sep (String.◌∷◌ c s) =
    let whole = String.◌∷◌ c s in
    later-Counts n sep s c (start_after (cut_prefix sep whole)) (cut sep s)
      (start_after-Counts n sep whole (cut_prefix sep whole) refl) (cut-Counts n sep s)

pub occurrences-cut :
    (n : ℕ) (sep s before after : String)
    → cut sep s ≡ some (before, after)
    → occurrences n s ≡ occurrences n before + (occurrences n sep + occurrences n after)
occurrences-cut n sep s before after e = subst (Counts n sep s) e (cut-Counts n sep s)

abbrev two : Char → String
two d = String.◌∷◌ d (String.◌∷◌ d String.[])

-- Two equal characters are found behind a text that has none of them.
pub cut-append :
    (d : Char) (before after : String)
    → occurrences (code d) before ≡ 0
    → cut (two d) (append before (append (two d) after)) ≡ some (before, after)
unfolding cut
cut-append d String.[] after e = ground arith
cut-append d (String.◌∷◌ c before) after e = ground (arith, cut-append d before after)
