-- ===== src/Workflow/Match/Heard.antt =====
-- Which messages a protocol hears, and what they hold, said of the text itself.
use mathlib.Core.Bool.{false≢true}
use mathlib.Core.Path.{subst}
use ruriko.Prelude.{
  String, true, false, Option, none, some, none-ne-some, ◌==◌, string_eq, ◌≡◌, ◌≢◌, ◌⊎◌, inl, inr,
  refl, sym, ap, ◌∙◌, Bool-cases, Option-cases, text_eq_iff,
}
use ruriko.Prelude.Text.{append, is_empty, trim_space, cut_prefix}
use ruriko.Prelude.Text.Cuts.{cut_prefix-append, cut_prefix-some}
use ruriko.Json.{Value, null, bool, int, float, str, arr, obj, table, Fields}
use ruriko.Gosuto.Workflow.{WorkflowProtocol}
use ruriko.Workflow.State.{Reason, missing_payload, payload_not_decoded, payload_not_object}
use ruriko.Workflow.Match.{Decoder, heard, parse_protocol_message, parse_remainder, decoded}

-- A text that is JSON, but neither an object nor null, or no JSON at all.
abbrev IsOther : Option Value → Type 0
IsOther none = Unit
IsOther (some (obj m)) = ⊥
IsOther (some null) = ⊥
IsOther (some v) = Unit

-- What stands behind the prefix: a JSON object, or what is wrong with it.
abbrev pub Holds : Decoder → String → Reason ⊎ Fields → Type 0
Holds decode rest (inr payload) = (is_empty rest ≡ false) × (decode rest ≡ some (obj payload))
Holds decode rest (inl missing_payload) = is_empty rest ≡ true
Holds decode rest (inl payload_not_object) = (is_empty rest ≡ false) × (decode rest ≡ some null)
Holds decode rest (inl payload_not_decoded) = (is_empty rest ≡ false) × IsOther (decode rest)
Holds decode rest (inl reason) = ⊥

-- The protocol is for messages and has a prefix, and the text is this prefix and then something.
abbrev pub Hears : Decoder → WorkflowProtocol → String → Reason ⊎ Fields → Type 0
Hears decode protocol text got =
    (protocol.trigger.kind ≡ "matrix.protocol_message")
    × ((is_empty (trim_space protocol.trigger.prefix) ≡ false)
        × ((rest : String) × ((text ≡ append (trim_space protocol.trigger.prefix) rest)
              × Holds decode (trim_space rest) got)))

abbrev pub Ignores : WorkflowProtocol → String → Type 0
Ignores protocol text =
    (protocol.trigger.kind ≢ "matrix.protocol_message")
    ⊎ ((is_empty (trim_space protocol.trigger.prefix) ≡ true)
        ⊎ ((rest : String) → text ≢ append (trim_space protocol.trigger.prefix) rest))

decoded-Holds :
    (decode : Decoder) (rest : String) (o : Option Value)
    → is_empty rest ≡ false
    → decode rest ≡ o
    → Holds decode rest (decoded o)
decoded-Holds decode rest none e d = (e, rw d tt)
decoded-Holds decode rest (some (obj m)) e d = (e, d)
decoded-Holds decode rest (some null) e d = (e, d)
decoded-Holds decode rest (some (bool b)) e d = (e, rw d tt)
decoded-Holds decode rest (some (int n)) e d = (e, rw d tt)
decoded-Holds decode rest (some (float n w)) e d = (e, rw d tt)
decoded-Holds decode rest (some (str s)) e d = (e, rw d tt)
decoded-Holds decode rest (some (arr vs)) e d = (e, rw d tt)
decoded-Holds decode rest (some (table m)) e d = (e, rw d tt)

parse_remainder-Holds :
    (decode : Decoder) (rest : String) → Holds decode rest (parse_remainder decode rest)
parse_remainder-Holds decode rest = elim (Bool-cases (is_empty rest)) [
  | inl e ↦ rw e e
  | inr e ↦ rw e (decoded-Holds decode rest (decode rest) e refl)
]

abbrev IsHeard : Decoder → WorkflowProtocol → String → Option (Reason ⊎ Fields) → Type 0
IsHeard decode protocol text none = Ignores protocol text
IsHeard decode protocol text (some got) = Hears decode protocol text got

parsed-IsHeard :
    (decode : Decoder) (protocol : WorkflowProtocol) (text : String)
    → protocol.trigger.kind ≡ "matrix.protocol_message"
    → is_empty (trim_space protocol.trigger.prefix) ≡ false
    → IsHeard decode protocol text
        (parse_protocol_message decode (trim_space protocol.trigger.prefix) text)
unfolding parse_protocol_message
parsed-IsHeard decode protocol text k p =
    let prefix = trim_space protocol.trigger.prefix in
    elim (Option-cases (cut_prefix prefix text)) [
      | inl e ↦
          rw (e, parse_protocol_message)
            (inr (
              inr (λ rest q.
                none-ne-some rest
                  (sym e ∙ ap (cut_prefix prefix) q ∙ cut_prefix-append prefix rest))))
      | inr (rest, e) ↦
          rw (e, parse_protocol_message)
            (
              k,
              (
                p,
                (
                  rest,
                  (
                    cut_prefix-some prefix text rest e,
                    parse_remainder-Holds decode (trim_space rest),
                  ),
                ),
              ),
            )
    ]

heard-IsHeard :
    (decode : Decoder) (protocol : WorkflowProtocol) (text : String)
    → IsHeard decode protocol text (heard decode protocol text)
unfolding heard
heard-IsHeard decode protocol text =
    elim (Bool-cases (protocol.trigger.kind == "matrix.protocol_message")) [
      | inr k ↦ rw k (
          inl (λ e.
            false≢true (sym k ∙ (text_eq_iff protocol.trigger.kind "matrix.protocol_message").1 e)))
      | inl k ↦ elim (Bool-cases (is_empty (trim_space protocol.trigger.prefix))) [
        | inl p ↦ rw (k, p) (inr (inl p))
        | inr p ↦
            rw (k, p)
              (parsed-IsHeard decode protocol text
                ((text_eq_iff protocol.trigger.kind "matrix.protocol_message").0 k) p)
      ]
    ]

pub heard-Ignores :
    (decode : Decoder) (protocol : WorkflowProtocol) (text : String)
    → heard decode protocol text ≡ none
    → Ignores protocol text
heard-Ignores decode protocol text e =
    subst (IsHeard decode protocol text) e (heard-IsHeard decode protocol text)

pub heard-Hears :
    (decode : Decoder) (protocol : WorkflowProtocol) (text : String) (got : Reason ⊎ Fields)
    → heard decode protocol text ≡ some got
    → Hears decode protocol text got
heard-Hears decode protocol text got e =
    subst (IsHeard decode protocol text) e (heard-IsHeard decode protocol text)
