-- ===== src/Supervisor/Watch.antt =====
-- What the goroutines that watch servers do behind Reconcile.
use mathlib.Core.List.{Memᴰ}
use mathlib.Core.Path.{subst}
use ruriko.Prelude.{
  String, true, false, Option, none, some, List, [], ◌∷◌, string_eq, ◌≡◌, refl, ◌∙◌, Bool-cases,
  text_eq_iff, ap, inl, inr,
}
use ruriko.Prelude.GoMap.{GoMap, empty}
use ruriko.Gosuto.Types.{McpServer}
use ruriko.Supervisor.{
  Supervisor, Client, System, build_env, with_clients, start_locked, add_wanted, stop_unwanted,
  start_one, start_wanted, reconcile, watch_round,
}
use ruriko.Supervisor.Reconcile.{Visits, reconciled, reconcile-reconciled}

-- Nothing that is watched is left, and the rest is as before.
abbrev Grows : Supervisor → Supervisor → Type 0
Grows s t =
    (t.secret_env ≡ s.secret_env)
    × ((t.is_cancelled ≡ s.is_cancelled)
        × ((sp : McpServer) → Memᴰ sp s.watchers → Memᴰ sp t.watchers))

Grows-trans : (s t u : Supervisor) → Grows s t → Grows t u → Grows s u
Grows-trans s t u (a, (b, c)) (d, (e, f)) = (d ∙ a, (e ∙ b, λ sp m. f sp (c sp m)))

start_locked-Grows :
    (sys : System) (sp : McpServer) (s : Supervisor) → Grows s (start_locked sys sp s)
start_locked-Grows sys sp s = elim (Bool-cases (sys.launches sp (build_env sys sp s.secret_env))) [
  | inl e ↦ elim (Bool-cases sp.auto_restart) [
    | inl a ↦ rw (e, a) (refl, (refl, λ q m. Memᴰ.tail m))
    | inr a ↦ rw (e, a) (refl, (refl, λ q m. m))
  ]
  | inr e ↦ elim (Bool-cases sp.auto_restart) [
    | inl a ↦ rw (e, a) (refl, (refl, λ q m. Memᴰ.tail m))
    | inr a ↦ rw (e, a) (refl, (refl, λ q m. m))
  ]
]

start_one-Grows :
    (sys : System) (o : Option McpServer) (c : Option Client) (s : Supervisor)
    → Grows s (start_one sys o c s)
start_one-Grows sys none c s = (refl, (refl, λ q m. m))
start_one-Grows sys (some sp) (some c) s = (refl, (refl, λ q m. m))
start_one-Grows sys (some sp) none s = start_locked-Grows sys sp s

start_wanted-Grows :
    (sys : System) (wanted : GoMap McpServer) (names : List String) (s : Supervisor)
    → Grows s (start_wanted sys wanted names s)
start_wanted-Grows sys wanted [] s = (refl, (refl, λ q m. m))
start_wanted-Grows sys wanted (name ∷ rest) s =
    let next = start_one sys (wanted name) (s.clients name) s in
    Grows-trans s next (start_wanted sys wanted rest next)
      (start_one-Grows sys (wanted name) (s.clients name) s)
      (start_wanted-Grows sys wanted rest next)

reconcile-Grows :
    (sys : System) (visited started : List String) (specs : List McpServer) (s : Supervisor)
    → Grows s (reconcile sys visited started specs s)
unfolding reconcile
reconcile-Grows sys visited started specs s =
    let wanted = add_wanted specs empty in
    start_wanted-Grows sys wanted started (with_clients (stop_unwanted wanted visited s.clients) s)

-- The client of this server runs, with these secrets.
abbrev pub Runs : System → McpServer → List (String × String) → Supervisor → Type 0
Runs sys sp secrets s =
    s.clients sp.name ≡ some (record { server = sp; env = build_env sys sp secrets })

watch_round-Runs :
    (sys : System) (sp : McpServer) (s : Supervisor)
    → s.is_cancelled ≡ false
    → s.clients sp.name ≡ none
    → sys.launches sp (build_env sys sp s.secret_env) ≡ true
    → Runs sys sp s.secret_env (watch_round sys sp s)
unfolding watch_round
watch_round-Runs sys sp s c n l = rw (c, n, l, (text_eq_iff sp.name sp.name).1 refl) refl

-- A server that is watched, and that a new configuration lacks, is stopped by Reconcile, but it stays watched,
-- and the next round of its goroutine starts it again, if the process can be started and Stop is not called.
pub reconcile-Runs :
    (sys : System) (visited started : List String) (specs : List McpServer) (s : Supervisor)
    (sp : McpServer)
    → Memᴰ sp s.watchers
    → s.is_cancelled ≡ false
    → Visits visited s.clients sp.name
    → add_wanted specs empty sp.name ≡ none
    → sys.launches sp (build_env sys sp s.secret_env) ≡ true
    → ((reconcile sys visited started specs s).clients sp.name ≡ none)
      × (Memᴰ sp (reconcile sys visited started specs s).watchers
          × Runs sys sp s.secret_env (watch_round sys sp (reconcile sys visited started specs s)))
reconcile-Runs sys visited started specs s sp m c v a l =
    let next = reconcile sys visited started specs s in
    let grows = reconcile-Grows sys visited started specs s in
    let gone =
      reconcile-reconciled sys visited started specs s sp.name v (inr a)
      ∙ ap (λ o. reconciled sys s.secret_env o (s.clients sp.name)) a in
    (
      gone,
      (
        grows.1.1 sp m,
        subst
            (λ secrets.
              Runs sys sp secrets (watch_round sys sp (reconcile sys visited started specs s)))
            grows.0 (watch_round-Runs sys sp next (grows.1.0 ∙ c) gone (rw (grows.0) l)),
      ),
    )
