-- ===== src/Workflow/Match/Trusted.antt =====
-- Which protocol a message starts, said of the configuration and not of the loop.
use mathlib.Core.List.{Memᴰ}
use mathlib.Core.Bool.{false≢true}
use ruriko.Prelude.{
  String, Bool, true, false, Option, none, some, List, [], ◌∷◌, ◌==◌, string_eq, ◌≡◌, ◌↔◌, ◌⊎◌, inl,
  inr, refl, sym, ◌∙◌, text_eq_iff, arith, contains, if◌then◌else◌, Bool-cases, Option-cases, ◌&&◌,
  &&-left, &&-right,
}
use ruriko.Prelude.Members.{any-Mem, Mem-any, contains-Mem}
use ruriko.Prelude.Text.{is_empty, trim_space}
use ruriko.Json.{Value, obj, Fields, get}
use ruriko.Gosuto.Types.{Config, Trust, TrustedPeer}
use ruriko.Gosuto.Workflow.{WorkflowProtocol}
use ruriko.Workflow.State.{
  Result, ok, err, diverges, coded, after_retries, in_iteration, bad_iteration, in_step, Reason,
  schema_validation, invalid_protocol_message, trust_mismatch, not_trusted, plain, schema_not_found,
  schema_not_object, ◌>>=◌,
}
use ruriko.Workflow.Schema.{validate_payload_against_schema, as_schema_error}
use ruriko.Workflow.Schema.Conforms.{Conforms, IsOk, validate_payload_against_schema-Conforms}
use ruriko.Workflow.Schema.Plain.{IsPlain, validate_payload_against_schema-IsPlain}
use ruriko.Workflow.Match.Heard.{Hears, Ignores, heard-Ignores, heard-Hears}
use ruriko.Workflow.Match.{
  Decoder, InboundProtocolMatch, heard, answer, matched, validate_input, is_trusted_protocol_peer,
  validate_protocol_input_schema, match_in, match_inbound_protocol,
}

-- Some trusted peer is this sender in this room, for this protocol.
abbrev pub IsTrusted : Trust → String → String → String → Type 0
IsTrusted trust sender_mxid room_id protocol_id =
    (p : TrustedPeer) × (Memᴰ p trust.trusted_peers
      × ((p.mxid ≡ sender_mxid) × ((p.room_id ≡ room_id) × Memᴰ protocol_id p.protocols)))

abbrev names : String → String → String → TrustedPeer → Bool
names sender room id p = p.mxid == sender && (p.room_id == room && contains p.protocols id)

abbrev Names : String → String → String → TrustedPeer → Type 0
Names sender room id p = (p.mxid ≡ sender) × ((p.room_id ≡ room) × Memᴰ id p.protocols)

named :
    (sender room id : String) (p : TrustedPeer)
    → (names sender room id p ≡ true)
    → Names sender room id p
named sender room id p e =
    let in_room = p.room_id == room && contains p.protocols id in
    let rest = &&-right (p.mxid == sender) in_room e in
    (
      (text_eq_iff p.mxid sender).0 (&&-left (p.mxid == sender) in_room e),
      (
        (text_eq_iff p.room_id room).0 (&&-left (p.room_id == room) (contains p.protocols id) rest),
        (contains-Mem p.protocols id).0
            (&&-right (p.room_id == room) (contains p.protocols id) rest),
      ),
    )

named_back :
    (sender room id : String) (p : TrustedPeer)
    → Names sender room id p
    → (names sender room id p ≡ true)
named_back sender room id p e =
    ground
      (arith, text_eq_iff p.mxid sender, text_eq_iff p.room_id room, contains-Mem p.protocols id)

is_trusted_protocol_peer-IsTrusted :
    (trust : Trust) (sender room id : String)
    → (is_trusted_protocol_peer trust sender room id ≡ true) ↔ IsTrusted trust sender room id
unfolding is_trusted_protocol_peer
is_trusted_protocol_peer-IsTrusted trust sender room id = (
  λ e.
      (let found = any-Mem (names sender room id) trust.trusted_peers e in
        (found.0, (found.1.0, named sender room id (found.0) (found.1.1)))),
  λ h.
      Mem-any (names sender room id) trust.trusted_peers (h.0) (h.1.0)
        (named_back sender room id (h.0) (h.1.1)),
)

abbrev Meets : Option Value → Fields → Type 0
Meets none payload = ⊥
Meets (some (obj schema)) payload = Conforms schema payload
Meets (some _) payload = ⊥

-- The payload conforms to the schema that the protocol names, if it names one.
abbrev pub IsInput : Config → WorkflowProtocol → Fields → Type 0
IsInput cfg protocol payload =
    (is_empty (trim_space protocol.input_schema_ref) ≡ true)
    ⊎ Meets (get protocol.input_schema_ref cfg.workflow.schemas.definitions) payload

-- What a protocol that is the first to hear a message does with it.
abbrev pub Decides :
    Config
    → String
    → String
    → String
    → WorkflowProtocol
    → Reason ⊎ Fields
    → Result (Option InboundProtocolMatch)
    → Type 0
Decides cfg room sender text protocol (inl reason) r =
    r ≡ err (coded invalid_protocol_message protocol.id reason)
Decides cfg room sender text protocol (inr payload) r =
    (IsInput cfg protocol payload
      × (IsTrusted cfg.trust sender room protocol.id
          × (r
              ≡ ok
                  (some (matched cfg protocol payload (trim_space protocol.trigger.prefix) text)))))
    ⊎ ((IsInput cfg protocol payload
          × (¬ (IsTrusted cfg.trust sender room protocol.id)
              × (r ≡ err (coded trust_mismatch protocol.id not_trusted))))
        ⊎ (¬ (IsInput cfg protocol payload)
            × ((reason : Reason) × (r ≡ err (coded schema_validation protocol.id reason)))))

-- A check with its error under the code of schemas.
abbrev Checks : Type 0 → String → Result Unit → Type 0
Checks P id r =
    (P × (r ≡ ok tt)) ⊎ (¬ P × ((reason : Reason) × (r ≡ err (coded schema_validation id reason))))

as_schema_error-Checks :
    (P : Type 0) (id : String) (r : Result Unit)
    → IsOk r ↔ P
    → IsPlain r
    → Checks P id (as_schema_error id r)
as_schema_error-Checks P id (ok tt) h k = inl (h.0 tt, refl)
as_schema_error-Checks P id (err (plain reason)) h k = inr (h.1, (reason, refl))
as_schema_error-Checks P id (err (coded c i reason)) h k = elim k [ ]
as_schema_error-Checks P id (err (after_retries i t n e)) h k = elim k [ ]
as_schema_error-Checks P id (err (in_iteration i n t e)) h k = elim k [ ]
as_schema_error-Checks P id (err (bad_iteration i e)) h k = elim k [ ]
as_schema_error-Checks P id (err (in_step i t e)) h k = elim k [ ]
as_schema_error-Checks P id diverges h k = elim k [ ]

validate_input-Checks :
    (id : String) (o : Option Value) (payload : Fields)
    → Checks (Meets o payload) id (validate_input id o payload)
validate_input-Checks id (some (obj schema)) payload =
    as_schema_error-Checks (Conforms schema payload) id
      (validate_payload_against_schema schema payload)
      (validate_payload_against_schema-Conforms schema payload)
      (validate_payload_against_schema-IsPlain schema payload)
validate_input-Checks id none payload = inr (λ h. h, (schema_not_found, refl))
validate_input-Checks id (some v) payload = inr (λ h. h, (schema_not_object, refl))

absent : {A : Type 0} (b : Bool) → b ≡ false → ¬ A → ¬ ((b ≡ true) ⊎ A)
absent b e n h = elim h [ inl t ↦ false≢true (sym e ∙ t) | inr a ↦ n a ]

blank_or-Checks :
    (A : Type 0) (id : String) (b : Bool) (r : Result Unit)
    → b ≡ false
    → Checks A id r
    → Checks ((b ≡ true) ⊎ A) id r
blank_or-Checks A id b r e (inl (a, q)) = inl (inr a, q)
blank_or-Checks A id b r e (inr (n, q)) = inr (absent b e n, q)

validate-Checks :
    (cfg : Config) (protocol : WorkflowProtocol) (payload : Fields)
    → Checks
        (IsInput cfg protocol payload)
        protocol.id
        (validate_protocol_input_schema cfg protocol payload)
unfolding validate_protocol_input_schema
validate-Checks cfg protocol payload =
    let blank = is_empty (trim_space protocol.input_schema_ref) in
    let found = get protocol.input_schema_ref cfg.workflow.schemas.definitions in
    elim (Bool-cases blank) [
      | inl e ↦ inl (inl e, rw e refl)
      | inr e ↦
          blank_or-Checks (Meets found payload) protocol.id blank
            (validate_protocol_input_schema cfg protocol payload) e
            (rw e (validate_input-Checks protocol.id found payload))
    ]

-- The answer by the outcome of the check.
abbrev after_check :
    Config
    → String
    → String
    → String
    → WorkflowProtocol
    → Fields
    → Result Unit
    → Result (Option InboundProtocolMatch)
after_check cfg room sender text protocol payload r = r >>= λ u.
    if is_trusted_protocol_peer cfg.trust sender room protocol.id
    then ok (some (matched cfg protocol payload (trim_space protocol.trigger.prefix) text))
    else err (coded trust_mismatch protocol.id not_trusted)

after_check-Decides :
    (cfg : Config) (room sender text : String) (protocol : WorkflowProtocol) (payload : Fields)
    (r : Result Unit)
    → Checks (IsInput cfg protocol payload) protocol.id r
    → Decides cfg room sender text protocol
        (inr payload)
        (after_check cfg room sender text protocol payload r)
after_check-Decides cfg room sender text protocol payload r (inl (i, e)) =
    let trusted = is_trusted_protocol_peer cfg.trust sender room protocol.id in
    rw e (elim (Bool-cases trusted) [
      | inl t ↦ inl (
        i,
        ((is_trusted_protocol_peer-IsTrusted cfg.trust sender room protocol.id).0 t, rw t refl),
      )
      | inr t ↦ inr (
          inl (
            i,
            (
              λ h. false≢true (
                  sym t
                  ∙ (is_trusted_protocol_peer-IsTrusted cfg.trust sender room protocol.id).1 h),
              rw t refl,
            ),
          ))
    ])
after_check-Decides cfg room sender text protocol payload r (inr (n, (reason, e))) =
    inr (inr (n, (reason, rw e refl)))

answer-Decides :
    (cfg : Config) (room sender text : String) (protocol : WorkflowProtocol) (got : Reason ⊎ Fields)
    → Decides cfg room sender text protocol got (answer cfg room sender text protocol got)
answer-Decides cfg room sender text protocol (inl reason) = refl
answer-Decides cfg room sender text protocol (inr payload) =
    after_check-Decides cfg room sender text protocol payload
      (validate_protocol_input_schema cfg protocol payload) (validate-Checks cfg protocol payload)

-- The first protocol that hears a text decides.
abbrev pub FirstDecides :
    Decoder
    → Config
    → String
    → String
    → String
    → List WorkflowProtocol
    → Result (Option InboundProtocolMatch)
    → Type 0
FirstDecides decode cfg room sender text [] r = r ≡ ok none
FirstDecides decode cfg room sender text (p ∷ rest) r =
    (Ignores p text × FirstDecides decode cfg room sender text rest r)
    ⊎ ((got : Reason ⊎ Fields) × (Hears decode p text got × Decides cfg room sender text p got r))

match_in-FirstDecides :
    (decode : Decoder) (cfg : Config) (room sender text : String) (ps : List WorkflowProtocol)
    → FirstDecides decode cfg room sender text ps (match_in decode cfg room sender text ps)
unfolding match_in
match_in-FirstDecides decode cfg room sender text [] = refl
match_in-FirstDecides decode cfg room sender text (p ∷ rest) =
    elim (Option-cases (heard decode p text)) [
      | inl e ↦ inl (
        heard-Ignores decode p text e,
        rw (e, match_in) (match_in-FirstDecides decode cfg room sender text rest),
      )
      | inr (got, e) ↦ inr (
        got,
        (
          heard-Hears decode p text got e,
          rw (e, match_in) (answer-Decides cfg room sender text p got),
        ),
      )
    ]

-- A blank message starts no protocol. Otherwise the first protocol decides that is for messages and whose
-- prefix the message has, both without the blanks around them: if the rest is a JSON object that conforms
-- to the protocol's schema and the sender is a trusted peer for the protocol in this room, the protocol
-- starts with this object; otherwise the message is refused, with the error that says why.
pub match_inbound_protocol-FirstDecides :
    (decode : Decoder) (cfg : Config) (room sender text : String)
    → ((is_empty (trim_space text) ≡ true)
        × (match_inbound_protocol decode cfg room sender text ≡ ok none))
      ⊎ ((is_empty (trim_space text) ≡ false)
          × FirstDecides decode cfg room sender
              (trim_space text)
              cfg.workflow.protocols
              (match_inbound_protocol decode cfg room sender text))
unfolding match_inbound_protocol
match_inbound_protocol-FirstDecides decode cfg room sender text =
    elim (Bool-cases (is_empty (trim_space text))) [
      | inl e ↦ inl (e, rw e refl)
      | inr e ↦ inr (
        e,
        rw (e, match_in)
            (match_in-FirstDecides decode cfg room sender (trim_space text) cfg.workflow.protocols),
      )
    ]
