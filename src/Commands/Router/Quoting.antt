-- ===== src/Commands/Router/Quoting.antt =====
-- Quoted words come back from the tokenizer as they were.
use Prim.Native.Char.{Char, code}
use Prim.Native.String.{String}
use mathlib.Core.List.{append_assoc}
use mathlib.Core.Path.{subst}
use ruriko.Prelude.{
  &&-false, Bool, false, ◌||◌, List, [], ◌∷◌, ◌++◌, ◌≡◌, refl, sym, ap, ◌∙◌, arith, ◌==◌, nat_eq,
  All, if◌then◌else◌, Bool-cases, inl, inr,
}
use ruriko.Prelude.Text.{append, is_empty, trim_space, trim_left, trim_right, snoc}
use ruriko.Commands.Router.{Scanner, ok, scan_rune, scan, flush, close_escape, tokenize_command}

abbrev quote_mark : Char
quote_mark = "\""

abbrev needs_escape : Char → Bool
needs_escape c = code c == 34 || code c == 92

-- The characters of a word, each quote and backslash behind a backslash, in front of `rest`.
pub escape_onto : String → String → String
escape_onto String.[] rest = rest
escape_onto (String.◌∷◌ c t) rest =
    let more = escape_onto t rest in
    if needs_escape c then String.◌∷◌ "\\" (String.◌∷◌ c more) else String.◌∷◌ c more

pub quote_onto : String → String → String
quote_onto t rest = String.◌∷◌ quote_mark (escape_onto t (String.◌∷◌ quote_mark rest))

-- Words in double quotes, with a space between.
unfoldable pub quote_all : List String → String
quote_all [] = ""
quote_all (t ∷ []) = quote_onto t ""
quote_all (t ∷ u ∷ us) = quote_onto t (String.◌∷◌ " " (quote_all (u ∷ us)))

snoc-append : (s t : String) (c : Char) → append (snoc s c) t ≡ append s (String.◌∷◌ c t)
snoc-append String.[] t c = refl
snoc-append (String.◌∷◌ d s) t c = ap (String.◌∷◌ d) (snoc-append s t c)

append-nil_text : (s : String) → append s "" ≡ s
append-nil_text String.[] = refl
append-nil_text (String.◌∷◌ d s) = ap (String.◌∷◌ d) (append-nil_text s)

abbrev at : List String → String → Scanner
at tokens current = record { tokens = tokens; current = current; in_quote = 0; escaped = false }

abbrev within : List String → String → Scanner
within tokens current = record {
  tokens = tokens;
  current = current;
  in_quote = 34;
  escaped = false;
}

further :
    (tokens : List String) (current : String) (c : Char) (t rest : String) {s : Scanner}
    → s ≡ scan (within tokens (append (snoc current c) t)) rest
    → s ≡ scan (within tokens (append current (String.◌∷◌ c t))) rest
further tokens current c t rest e =
    e ∙ ap (λ u. scan (within tokens u) rest) (snoc-append current t c)

plain_backslash : (c : Char) → needs_escape c ≡ false → (code c == 92) ≡ false
plain_backslash c e = ground (arith, e)

plain_quote : (c : Char) → needs_escape c ≡ false → (code c == 34) ≡ false
plain_quote c e = ground (arith, e)

scan_rune-escaped :
    (tokens : List String) (current : String) (c : Char)
    → scan_rune (scan_rune (within tokens current) "\\") c ≡ within tokens (snoc current c)
unfolding scan_rune
scan_rune-escaped tokens current c = refl

scan_rune-plain :
    (tokens : List String) (current : String) (c : Char)
    → needs_escape c ≡ false
    → scan_rune (within tokens current) c ≡ within tokens (snoc current c)
unfolding scan_rune
scan_rune-plain tokens current c e = rw (plain_backslash c e, plain_quote c e) refl

scan_rune-space :
    (tokens : List String) (current : String)
    → is_empty current ≡ false
    → scan_rune (at tokens current) " " ≡ at (tokens ++ current ∷ []) ""
unfolding scan_rune flush
scan_rune-space tokens current e = rw e refl

scan-escape_onto :
    (tokens : List String) (current t rest : String)
    → scan (within tokens current) (escape_onto t rest)
      ≡ scan (within tokens (append current t)) rest
unfolding escape_onto scan
scan-escape_onto tokens current String.[] rest =
    ap (λ s. scan (within tokens s) rest) (sym (append-nil_text current))
scan-escape_onto tokens current (String.◌∷◌ c t) rest = elim (Bool-cases (needs_escape c)) [
  | inl e ↦ rw e (
      further tokens current c t rest (
        ap (λ s. scan s (escape_onto t rest)) (scan_rune-escaped tokens current c)
        ∙ scan-escape_onto tokens (snoc current c) t rest))
  | inr e ↦ rw e (
      further tokens current c t rest (
        ap (λ s. scan s (escape_onto t rest)) (scan_rune-plain tokens current c e)
        ∙ scan-escape_onto tokens (snoc current c) t rest))
]

scan-quote_onto :
    (tokens : List String) (t rest : String)
    → scan (at tokens "") (quote_onto t rest) ≡ scan (at tokens t) rest
unfolding quote_onto scan scan_rune
scan-quote_onto tokens t rest = scan-escape_onto tokens "" t (String.◌∷◌ quote_mark rest)

abbrev IsWord : String → Type 0
IsWord t = is_empty t ≡ false

-- Where the scanner stands behind all words.
abbrev HasRead : List String → Scanner → Type 0
HasRead tokens s = (close_escape s ≡ s) × (s.in_quote ≡ 0) × ((flush s).tokens ≡ tokens)

scan-last :
    (tokens : List String) (t : String) → scan (at tokens "") (quote_all (t ∷ [])) ≡ at tokens t
unfolding quote_all scan
scan-last tokens t = scan-quote_onto tokens t ""

scan-next :
    (tokens : List String) (t u : String) (us : List String)
    → IsWord t
    → scan (at tokens "") (quote_all (t ∷ u ∷ us))
      ≡ scan (at (tokens ++ t ∷ []) "") (quote_all (u ∷ us))
unfolding quote_all
scan-next tokens t u us h =
    scan-quote_onto tokens t (String.◌∷◌ " " (quote_all (u ∷ us)))
    ∙ unfold scan in ap (λ s. scan s (quote_all (u ∷ us))) (scan_rune-space tokens t h)

HasRead-quote_all :
    (tokens : List String) (t : String) (us : List String)
    → All IsWord (t ∷ us)
    → HasRead (tokens ++ t ∷ us) (scan (at tokens "") (quote_all (t ∷ us)))
HasRead-quote_all tokens t [] h =
    subst (HasRead (tokens ++ t ∷ [])) (sym (scan-last tokens t))
      (unfold scan flush in (refl, refl, rw h.0 refl))
HasRead-quote_all tokens t (u ∷ us) h =
    subst (HasRead (tokens ++ t ∷ u ∷ us)) (sym (scan-next tokens t u us h.0)) (
      rw (append_assoc tokens (t ∷ []) (u ∷ us)) at (HasRead-quote_all (tokens ++ t ∷ []) u us h.1))

-- A text that does not end in a space, and is not empty.
abbrev IsSolid : String → Type 0
IsSolid s = (trim_right s ≡ s) × (is_empty s ≡ false)

IsSolid-cons : (c : Char) (s : String) → IsSolid s → IsSolid (String.◌∷◌ c s)
unfolding trim_right
IsSolid-cons c s h = (rw (h.0, h.1, &&-false) refl, refl)

IsSolid-escape_onto : (t rest : String) → IsSolid rest → IsSolid (escape_onto t rest)
unfolding escape_onto
IsSolid-escape_onto String.[] rest h = h
IsSolid-escape_onto (String.◌∷◌ c t) rest h =
    let more = IsSolid-cons c (escape_onto t rest) (IsSolid-escape_onto t rest h) in
    elim (Bool-cases (needs_escape c)) [
      | inl e ↦ rw e (IsSolid-cons "\\" _ more)
      | inr e ↦ rw e more
    ]

IsSolid-quote_onto :
    (t rest : String) → IsSolid (String.◌∷◌ quote_mark rest) → IsSolid (quote_onto t rest)
unfolding quote_onto
IsSolid-quote_onto t rest h =
    IsSolid-cons quote_mark _ (IsSolid-escape_onto t (String.◌∷◌ quote_mark rest) h)

IsSolid-quote_all : (t : String) (us : List String) → IsSolid (quote_all (t ∷ us))
unfolding quote_all
IsSolid-quote_all t [] = IsSolid-quote_onto t "" (unfold trim_right in (refl, refl))
IsSolid-quote_all t (u ∷ us) =
    IsSolid-quote_onto t _ (IsSolid-cons quote_mark _ (IsSolid-cons " " _ (IsSolid-quote_all u us)))

trim_left-quote_all :
    (t : String) (us : List String) → trim_left (quote_all (t ∷ us)) ≡ quote_all (t ∷ us)
unfolding quote_all quote_onto trim_left
trim_left-quote_all t [] = refl
trim_left-quote_all t (u ∷ us) = refl

-- The tokenizer reads back any words that are put in double quotes, with a backslash before each
-- quote and each backslash in them, and joined by spaces. No word may be empty.
pub tokenize_command-quote_all :
    (ts : List String) → All IsWord ts → tokenize_command (quote_all ts) ≡ ok ts
unfolding tokenize_command trim_space
tokenize_command-quote_all [] h = unfold quote_all scan flush in refl
tokenize_command-quote_all (t ∷ us) h =
    let (shut, out, read) = HasRead-quote_all [] t us h in
    rw (trim_left-quote_all t us, (IsSolid-quote_all t us).0, shut, read, out) refl
