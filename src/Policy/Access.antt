-- ===== src/Policy/Access.antt =====
-- Who may talk to an agent, and where.
use mathlib.Core.List.{Memᴰ}
use ruriko.Prelude.{
  String, true, false, none, some, List, [], ◌∷◌, ◌≡◌, ◌↔◌, ◌⊎◌, inl, inr, refl, sym, arith, ◌==◌,
  string_eq, text_eq_iff, Bool-cases,
}
use ruriko.Gosuto.Types.{Config}
use ruriko.Policy.{matches_any, is_sender_allowed, is_room_allowed}

-- The list names the value, or everything.
abbrev pub Lists : List String → String → Type 0
Lists list value = Memᴰ "*" list ⊎ Memᴰ value list

star_in : (list : List String) (value : String) → Memᴰ "*" list → matches_any list value ≡ true
unfolding matches_any
star_in [] value m = elim m [ ]
star_in (s ∷ list) value (Memᴰ.head e) = rw ((text_eq_iff s "*").1 (sym e)) refl
star_in (s ∷ list) value (Memᴰ.tail m) = ground (arith, star_in list value m)

value_in : (list : List String) (value : String) → Memᴰ value list → matches_any list value ≡ true
unfolding matches_any
value_in [] value m = elim m [ ]
value_in (s ∷ list) value (Memᴰ.head e) = ground (arith, (text_eq_iff s value).1 (sym e))
value_in (s ∷ list) value (Memᴰ.tail m) = ground (arith, value_in list value m)

matches_any-Lists :
    (list : List String) (value : String) → (matches_any list value ≡ true) ↔ Lists list value
unfolding matches_any
matches_any-Lists [] value = (λ e. cc, λ h. elim h [ inl m ↦ elim m [ ] | inr m ↦ elim m [ ] ])
matches_any-Lists (s ∷ list) value =
    let more = matches_any-Lists list value in
    (
      λ e. elim (Bool-cases (s == "*")) [
        | inl p ↦ inl (Memᴰ.head (sym ((text_eq_iff s "*").0 p)))
        | inr p ↦ elim (Bool-cases (s == value)) [
          | inl q ↦ inr (Memᴰ.head (sym ((text_eq_iff s value).0 q)))
          | inr q ↦ elim (more.0 (rw (p, q) at e)) [
            | inl m ↦ inl (Memᴰ.tail m)
            | inr m ↦ inr (Memᴰ.tail m)
          ]
        ]
      ],
      λ h. elim h [ inl m ↦ star_in (s ∷ list) value m | inr m ↦ value_in (s ∷ list) value m ],
    )

-- A sender, or a room, is allowed exactly if the configuration's list of senders, or of rooms, names
-- it or holds "*". Without a configuration neither is.
pub access_Lists :
    (cfg : Config) (id : String)
    → ((is_sender_allowed (some cfg) id ≡ true) ↔ Lists cfg.trust.allowed_senders id)
      × ((is_room_allowed (some cfg) id ≡ true) ↔ Lists cfg.trust.allowed_rooms id)
      × (is_sender_allowed none id ≡ false)
      × (is_room_allowed none id ≡ false)
unfolding is_sender_allowed is_room_allowed
access_Lists cfg id = (
  matches_any-Lists cfg.trust.allowed_senders id,
  matches_any-Lists cfg.trust.allowed_rooms id,
  refl,
  refl,
)
