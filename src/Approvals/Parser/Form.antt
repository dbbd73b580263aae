-- ===== src/Approvals/Parser/Form.antt =====
-- What every parsed decision is like, and when the parser panics.
use Prim.Native.Char.{Char}
use Prim.Native.String.{String}
use ruriko.Prelude.{
  &&-false, &&-right, ℕ, suc, ◌<◌, Bool, true, false, ◌&&◌, not, List, [], ◌∷◌, ltb, nat_eq,
  string_eq, ◌≡◌, refl, sym, ◌≤◌, arith, All, Bool-cases, inl, inr,
}
use ruriko.Prelude.Text.{is_space, is_empty, trim_space, trim_left, trim_right, snoc}
use ruriko.Prelude.Text.{has_prefix_lower, is_lower}
use ruriko.Approvals.Parser.{
  Parsed, decision, out_of_range, fields_from, end_field, decide_fields, decide_rest, decide_verb,
  has_verb, parse_decision, utf8_size, byte_length, reason_of,
}

abbrev no_space : String → Bool
no_space String.[] = true
no_space (String.◌∷◌ c s) = not (is_space c) && no_space s

-- A field: not empty, and without white space.
abbrev pub IsField : String → Type 0
IsField s = (is_empty s ≡ false) × (no_space s ≡ true)

no_space-snoc :
    (s : String) (c : Char) → no_space s ≡ true → is_space c ≡ false → no_space (snoc s c) ≡ true
no_space-snoc String.[] c h e = rw e refl
no_space-snoc (String.◌∷◌ d s) c h e = elim (Bool-cases (is_space d)) [
  | inl q ↦ absurd (ground (arith, h, q))
  | inr q ↦ rw q (no_space-snoc s c (rw q at h) e)
]

All-end_field :
    (current : String) (fields : List String)
    → no_space current ≡ true
    → All IsField fields
    → All IsField (end_field current fields)
All-end_field String.[] fields h a = a
All-end_field (String.◌∷◌ c s) fields h a = ((refl, h), a)

All-fields_from :
    (current s : String) → no_space current ≡ true → All IsField (fields_from current s)
unfolding fields_from
All-fields_from current String.[] h = All-end_field current [] h tt
All-fields_from current (String.◌∷◌ c s) h = elim (Bool-cases (is_space c)) [
  | inl e ↦ rw e (All-end_field current (fields_from "" s) h (All-fields_from "" s refl))
  | inr e ↦ rw e (All-fields_from (snoc current c) s (no_space-snoc current c h e))
]

-- What a decision must be like, where there is one.
abbrev pub IsProper : Parsed → Type 0
IsProper (decision d) =
    (IsField d.approval_id) × (d.approve ≡ false → is_empty (trim_space d.reason) ≡ false)
IsProper _ = Unit

IsProper-decide_fields :
    (approve : Bool) (fields : List String)
    → All IsField fields
    → IsProper (decide_fields approve fields)
IsProper-decide_fields approve [] a = tt
IsProper-decide_fields approve (id ∷ more) (a, _) =
    elim (Bool-cases (is_empty (trim_space (reason_of more)))) [
      | inl e ↦ elim (Bool-cases approve) [
        | inl q ↦ rw (q, decide_fields) (a, λ p. absurd (ground (arith, p)))
        | inr q ↦ rw (q, e, decide_fields) tt
      ]
      | inr e ↦ elim (Bool-cases approve) [
        | inl q ↦ rw (q, decide_fields) (a, λ _. e)
        | inr q ↦ rw (q, e, decide_fields) (a, λ _. e)
      ]
    ]

IsProper-decide_rest : (approve : Bool) (rest : String) → IsProper (decide_rest approve rest)
IsProper-decide_rest approve rest = elim (Bool-cases (is_empty rest)) [
  | inl e ↦ rw e tt
  | inr e ↦
      rw e (IsProper-decide_fields approve (fields_from "" rest) (All-fields_from "" rest refl))
]

IsProper-decide_verb : (approve : Bool) (text : String) → IsProper (decide_verb approve text)
IsProper-decide_verb approve text = elim (Bool-cases (ltb (byte_length text) 7)) [
  | inl e ↦ rw e tt
  | inr e ↦ rw e (IsProper-decide_rest approve _)
]

-- Every decision that ParseDecision returns names a request by a text that is not empty and holds no
-- white space, and a denial gives a reason that is not blank.
pub parse_decision-IsProper : (message : String) → IsProper (parse_decision message)
unfolding parse_decision
parse_decision-IsProper message =
    elim (Bool-cases (has_verb "approve " "approve" (trim_space message))) [
      | inl e ↦ rw e (IsProper-decide_verb true (trim_space message))
      | inr e ↦ rw e (elim (Bool-cases (has_verb "deny " "deny" (trim_space message))) [
        | inl q ↦ rw q (IsProper-decide_verb false (trim_space message))
        | inr q ↦ rw q tt
      ])
    ]

abbrev pub is_panic : Parsed → Bool
is_panic out_of_range = true
is_panic _ = false

abbrev is_nil : List String → Bool
is_nil [] = true
is_nil (s ∷ ss) = false

abbrev first_is_solid : String → Bool
first_is_solid String.[] = true
first_is_solid (String.◌∷◌ c s) = not (is_space c)

fields_from-current :
    (c : Char) (current s : String) → is_nil (fields_from (String.◌∷◌ c current) s) ≡ false
unfolding fields_from
fields_from-current c current String.[] = refl
fields_from-current c current (String.◌∷◌ d s) = elim (Bool-cases (is_space d)) [
  | inl e ↦ rw e refl
  | inr e ↦ rw e (fields_from-current c (snoc current d) s)
]

fields_from-solid :
    (s : String) → first_is_solid s ≡ true → is_empty s ≡ false → is_nil (fields_from "" s) ≡ false
unfolding fields_from
fields_from-solid String.[] h e = absurd (ground (arith, e))
fields_from-solid (String.◌∷◌ c s) h e = elim (Bool-cases (is_space c)) [
  | inl q ↦ absurd (ground (arith, h, q))
  | inr q ↦ rw q (fields_from-current c "" s)
]

first-trim_left : (s : String) → first_is_solid (trim_left s) ≡ true
unfolding trim_left
first-trim_left String.[] = refl
first-trim_left (String.◌∷◌ c s) = elim (Bool-cases (is_space c)) [
  | inl q ↦ rw q (first-trim_left s)
  | inr q ↦ rw q (rw q refl)
]

first-trim_right : (s : String) → first_is_solid s ≡ true → first_is_solid (trim_right s) ≡ true
unfolding trim_right
first-trim_right String.[] h = refl
first-trim_right (String.◌∷◌ c s) h = elim (Bool-cases (is_space c)) [
  | inl q ↦ absurd (ground (arith, h, q))
  | inr q ↦ rw q (rw q refl)
]

first-trim_space : (s : String) → first_is_solid (trim_space s) ≡ true
unfolding trim_space
first-trim_space s = first-trim_right (trim_left s) (first-trim_left s)

is_panic-decide_fields :
    (approve : Bool) (fields : List String)
    → is_nil fields ≡ false
    → is_panic (decide_fields approve fields) ≡ false
is_panic-decide_fields approve [] n = absurd (ground (arith, n))
is_panic-decide_fields approve (id ∷ more) n =
    elim (Bool-cases (not approve && is_empty (trim_space (reason_of more)))) [
      | inl e ↦ rw e refl
      | inr e ↦ rw e refl
    ]

is_panic-decide_rest :
    (approve : Bool) (s : String) → is_panic (decide_rest approve (trim_space s)) ≡ false
is_panic-decide_rest approve s = elim (Bool-cases (is_empty (trim_space s))) [
  | inl e ↦ rw e refl
  | inr e ↦
      rw e
        (is_panic-decide_fields approve _ (fields_from-solid (trim_space s) (first-trim_space s) e))
]

is_panic-decide_verb :
    (approve : Bool) (text : String)
    → is_panic (decide_verb approve text) ≡ ltb (byte_length text) 7
is_panic-decide_verb approve text = elim (Bool-cases (ltb (byte_length text) 7)) [
  | inl e ↦ rw e refl
  | inr e ↦ rw e (is_panic-decide_rest approve _)
]

abbrev characters : String → ℕ
characters String.[] = 0
characters (String.◌∷◌ c s) = suc (characters s)

utf8_size-positive : (c : Char) → 0 < utf8_size c
utf8_size-positive c = ground arith

prefix_long : (p s : String) → has_prefix_lower p s ≡ true → characters p ≤ byte_length s
prefix_long String.[] s h = omega arith
prefix_long (String.◌∷◌ c p) String.[] h = absurd (ground (arith, h))
prefix_long (String.◌∷◌ c p) (String.◌∷◌ d s) h =
    omega (arith, prefix_long p s (&&-right _ _ h), utf8_size-positive d)

whole_long : (p s : String) → is_lower p s ≡ true → characters p ≤ byte_length s
whole_long String.[] s h = omega arith
whole_long (String.◌∷◌ c p) String.[] h = absurd (ground (arith, h))
whole_long (String.◌∷◌ c p) (String.◌∷◌ d s) h =
    omega (arith, whole_long p s (&&-right _ _ h), utf8_size-positive d)

not_short : (n : ℕ) → 7 ≤ n → ltb n 7 ≡ false
not_short n h = ground (arith, h)

long_enough :
    (text : String) → has_verb "approve " "approve" text ≡ true → ltb (byte_length text) 7 ≡ false
long_enough text h = elim (Bool-cases (has_prefix_lower "approve " text)) [
  | inl e ↦ not_short _ (omega (arith, prefix_long "approve " text e))
  | inr e ↦ not_short _ (whole_long "approve" text (rw e at h))
]

-- ParseDecision panics exactly on a denial that is shorter, in bytes, than the word "approve", such as
-- "deny" alone or "deny 4": it cuts the text behind that word before it looks at the verb.
pub parse_decision-is_panic :
    (message : String)
    → is_panic (parse_decision message)
      ≡ (has_verb "deny " "deny" (trim_space message) && ltb (byte_length (trim_space message)) 7)
unfolding parse_decision
parse_decision-is_panic message =
    elim (Bool-cases (has_verb "approve " "approve" (trim_space message))) [
      | inl e ↦
          rw (e, is_panic-decide_verb true (trim_space message), long_enough (trim_space message) e)
            (sym (&&-false _))
      | inr e ↦ rw e (elim (Bool-cases (has_verb "deny " "deny" (trim_space message))) [
        | inl q ↦ rw q (is_panic-decide_verb false (trim_space message))
        | inr q ↦ rw q refl
      ])
    ]
