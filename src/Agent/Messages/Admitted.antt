-- ===== src/Agent/Messages/Admitted.antt =====
-- Who makes an agent act, by the configurations alone.
use mathlib.Core.Bool.{false≢true}
use mathlib.Core.List.{Memᴰ}
use mathlib.Core.Path.{subst}
use Prim.Native.String.{String}
use ruriko.Prelude.{
  ◌≤◌, Bool, true, false, Option, none, some, List, [], ◌∷◌, ◌≡◌, refl, sym, ◌⊎◌, inl, inr, arith,
  ltb, Bool-cases,
}
use ruriko.Gosuto.Types.{Config}
use ruriko.Gosuto.Workflow.{WorkflowProtocol}
use ruriko.Json.{Fields}
use ruriko.Policy.{is_sender_allowed, is_room_allowed}
use ruriko.Policy.Access.{Lists, access_Lists}
use ruriko.Workflow.State.{Result, ok, err, diverges, Reason}
use ruriko.Workflow.Match.{Decoder, InboundProtocolMatch, match_inbound_protocol}
use ruriko.Workflow.Match.Trusted.{
  IsTrusted, IsInput, Decides, FirstDecides, match_inbound_protocol-FirstDecides,
}
use ruriko.Prelude.Text.{is_empty, equal_fold}
use ruriko.Agent.Messages.{
  normalize_directed_target, Message, Setting, Action, ignored, rejected, workflow_turn, turn,
  has_steps, start, start_directed, with_config, handle_message, parse_directed_agent_message,
  is_directed_at_self, agent_identity,
}

-- A protocol of the configuration that the sender may start in this room, with a payload that it accepts.
abbrev pub IsStarted : Config → Message → InboundProtocolMatch → Type 0
IsStarted cfg msg m =
    Memᴰ m.protocol cfg.workflow.protocols
    × (IsTrusted cfg.trust msg.sender msg.room_id m.protocol.id × IsInput cfg m.protocol m.payload)

-- The names without `@`, server and blanks are not empty, and equal but for the case of letters.
abbrev pub SameAgent : String → String → Type 0
SameAgent target self =
    (is_empty (normalize_directed_target target) ≡ false)
    × ((is_empty (normalize_directed_target self) ≡ false)
        × (equal_fold (normalize_directed_target target) (normalize_directed_target self) ≡ true))

is_directed_at_self-SameAgent :
    (target self : String) → is_directed_at_self target self ≡ true → SameAgent target self
unfolding is_directed_at_self
is_directed_at_self-SameAgent target self e =
    elim (Bool-cases (is_empty (normalize_directed_target target))) [
      | inl a ↦ absurd (false≢true (rw a at e))
      | inr a ↦ elim (Bool-cases (is_empty (normalize_directed_target self))) [
        | inl b ↦ absurd (false≢true (rw (a, b) at e))
        | inr b ↦ (a, (b, rw (a, b) at e))
      ]
    ]

module _ (cfg : Config) (msg : Message) where
  abbrev Starts : List WorkflowProtocol → Result (Option InboundProtocolMatch) → Type 0
  Starts ps (ok (some m)) =
      Memᴰ m.protocol ps
      × (IsTrusted cfg.trust msg.sender msg.room_id m.protocol.id
          × IsInput cfg m.protocol m.payload)
  Starts ps r = Unit

  earlier :
      (p : WorkflowProtocol) (ps : List WorkflowProtocol) (r : Result (Option InboundProtocolMatch))
      → Starts ps r
      → Starts (p ∷ ps) r
  earlier p ps (ok (some m)) h = (Memᴰ.tail (h.0), h.1)
  earlier p ps (ok none) h = tt
  earlier p ps (err e) h = tt
  earlier p ps diverges h = tt

  Decides-Starts :
      (text : String) (p : WorkflowProtocol) (ps : List WorkflowProtocol) (got : Reason ⊎ Fields)
      (r : Result (Option InboundProtocolMatch))
      → Decides cfg msg.room_id msg.sender text p got r
      → Starts (p ∷ ps) r
  Decides-Starts text p ps (inl reason) r e = subst (Starts (p ∷ ps)) (sym e) tt
  Decides-Starts text p ps (inr payload) r (inl (i, (t, e))) =
      subst (Starts (p ∷ ps)) (sym e) (Memᴰ.head refl, (t, i))
  Decides-Starts text p ps (inr payload) r (inr (inl (i, (t, e)))) =
      subst (Starts (p ∷ ps)) (sym e) tt
  Decides-Starts text p ps (inr payload) r (inr (inr (n, (reason, e)))) =
      subst (Starts (p ∷ ps)) (sym e) tt

  FirstDecides-Starts :
      (decode : Decoder) (text : String) (ps : List WorkflowProtocol)
      (r : Result (Option InboundProtocolMatch))
      → FirstDecides decode cfg msg.room_id msg.sender text ps r
      → Starts ps r
  FirstDecides-Starts decode text [] r e = subst (Starts []) (sym e) tt
  FirstDecides-Starts decode text (p ∷ ps) r (inl (n, h)) =
      earlier p ps r (FirstDecides-Starts decode text ps r h)
  FirstDecides-Starts decode text (p ∷ ps) r (inr (got, (e, h))) = Decides-Starts text p ps got r h

  match-Starts :
      (decode : Decoder) (text : String)
      → Starts cfg.workflow.protocols
          (match_inbound_protocol decode cfg msg.room_id msg.sender text)
  match-Starts decode text =
      elim (match_inbound_protocol-FirstDecides decode cfg msg.room_id msg.sender text) [
        | inl (b, e) ↦ subst (Starts cfg.workflow.protocols) (sym e) tt
        | inr (b, h) ↦ FirstDecides-Starts decode _ cfg.workflow.protocols _ h
      ]

  -- Why a turn starts, when a message names this agent or not.
  abbrev Allows : Type 0 → Action → Type 0
  Allows D (workflow_turn m) = IsStarted cfg msg m
  Allows D (turn text) = D ⊎ ((m : InboundProtocolMatch) × IsStarted cfg msg m)
  Allows D a = Unit

  start-Allows :
      (D : Type 0) (directed : Bool) (text : String) (r : Result (Option InboundProtocolMatch))
      → (directed ≡ true → D)
      → Starts cfg.workflow.protocols r
      → Allows D (start directed text r)
  start-Allows D directed text (err e) d h = tt
  start-Allows D directed text diverges d h = tt
  start-Allows D true text (ok none) d h = inl (d refl)
  start-Allows D false text (ok none) d h = tt
  start-Allows D directed text (ok (some m)) d h = elim (Bool-cases (has_steps m.protocol.steps)) [
    | inl e ↦ rw e h
    | inr e ↦ rw e (inr (m, h))
  ]

  -- The message names this agent.
  abbrev pub NamesAgent : Setting → Type 0
  NamesAgent set =
      (target body : String) × ((parse_directed_agent_message msg.body ≡ some (target, body))
        × SameAgent target (agent_identity cfg set.agent_id))

  start_directed-Allows :
      (decode : Decoder) (set : Setting) (o : Option (String × String))
      → parse_directed_agent_message msg.body ≡ o
      → Allows (NamesAgent set) (start_directed decode set cfg msg o)
  start_directed-Allows decode set none e =
      start-Allows (NamesAgent set) false msg.body _ (λ f. elim (false≢true f) [ ])
        (match-Starts decode msg.body)
  start_directed-Allows decode set (some (target, body)) e =
      elim (Bool-cases (is_directed_at_self target (agent_identity cfg set.agent_id))) [
        | inl d ↦ rw d (
            start-Allows (NamesAgent set) true body _
              (λ f. (target, body, (e, is_directed_at_self-SameAgent target _ d)))
              (match-Starts decode body))
        | inr d ↦ rw d tt
      ]

-- The message is not older than the agent, and its room and its sender are allowed.
abbrev pub IsAdmitted : Setting → Option Config → Message → Type 0
IsAdmitted set policy msg =
    (set.started_at ≤ msg.sent_at)
    × ((c : Config) × ((policy ≡ some c)
          × (Lists c.trust.allowed_rooms msg.room_id × Lists c.trust.allowed_senders msg.sender)))

-- What an action says of its message.
abbrev pub IsJustified : Setting → Option Config → Option Config → Message → Action → Type 0
IsJustified set policy cfg msg (workflow_turn m) =
    IsAdmitted set policy msg × ((c : Config) × ((cfg ≡ some c) × IsStarted c msg m))
IsJustified set policy cfg msg (turn text) =
    IsAdmitted set policy msg
    × ((c : Config) × ((cfg ≡ some c)
          × (NamesAgent c msg set ⊎ ((m : InboundProtocolMatch) × IsStarted c msg m))))
IsJustified set policy cfg msg a = Unit

allowed-IsJustified :
    (set : Setting) (policy : Option Config) (c : Config) (msg : Message) (a : Action)
    → IsAdmitted set policy msg
    → Allows c msg (NamesAgent c msg set) a
    → IsJustified set policy (some c) msg a
allowed-IsJustified set policy c msg (workflow_turn m) p h = (p, (c, (refl, h)))
allowed-IsJustified set policy c msg (turn text) p h = (p, (c, (refl, h)))
allowed-IsJustified set policy c msg ignored p h = tt
allowed-IsJustified set policy c msg (rejected e) p h = tt

with_config-IsJustified :
    (decode : Decoder) (set : Setting) (policy cfg : Option Config) (msg : Message)
    → IsAdmitted set policy msg
    → IsJustified set policy cfg msg (with_config decode set cfg msg)
with_config-IsJustified decode set policy none msg p = tt
with_config-IsJustified decode set policy (some c) msg p =
    allowed-IsJustified set policy c msg _ p
      (start_directed-Allows c msg decode set (parse_directed_agent_message msg.body) refl)

admitted :
    (set : Setting) (policy : Option Config) (msg : Message)
    → ltb msg.sent_at set.started_at ≡ false
    → is_room_allowed policy msg.room_id ≡ true
    → is_sender_allowed policy msg.sender ≡ true
    → IsAdmitted set policy msg
unfolding is_room_allowed
admitted set none msg t r s = elim (false≢true r) [ ]
admitted set (some c) msg t r s = (
  ground (arith, t),
  (c, (refl, ((access_Lists c msg.room_id).1.0 r, (access_Lists c msg.sender).0.0 s))),
)

-- An agent acts on a message only if the message is not older than the agent and its policy allows the room
-- and the sender. Then a protocol runs only if the configuration has it and the sender is a trusted peer for
-- it in this room, with a payload that it accepts; and the model gets a turn only if the message names this
-- agent, or starts such a protocol.
pub handle_message-IsJustified :
    (decode : Decoder) (set : Setting) (policy cfg : Option Config) (msg : Message)
    → IsJustified set policy cfg msg (handle_message decode set policy cfg msg)
unfolding handle_message
handle_message-IsJustified decode set policy cfg msg =
    elim (Bool-cases (ltb msg.sent_at set.started_at)) [
      | inl t ↦ rw t tt
      | inr t ↦ elim (Bool-cases (is_room_allowed policy msg.room_id)) [
        | inr r ↦ rw (t, r) tt
        | inl r ↦ elim (Bool-cases (is_sender_allowed policy msg.sender)) [
          | inr s ↦ rw (t, r, s) tt
          | inl s ↦
              rw (t, r, s)
                (with_config-IsJustified decode set policy cfg msg (admitted set policy msg t r s))
        ]
      ]
    ]
