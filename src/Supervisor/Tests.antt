-- ===== src/Supervisor/Tests.antt =====
-- A server that is taken out of the configuration.
use mathlib.Core.List.{Memᴰ}
use ruriko.Prelude.{true, some, none, [], ◌∷◌, ◌≡◌, refl, inl, inr}
use ruriko.Prelude.GoMap.{empty}
use ruriko.Gosuto.Types.{McpServer}
use ruriko.Supervisor.{
  System, Supervisor, new_supervisor, reconcile, apply_secrets, stop, watch_round, add_wanted,
}
use ruriko.Supervisor.Reconcile.{reconciled, reconcile-reconciled}
use ruriko.Supervisor.Watch.{Runs, reconcile-Runs}

abbrev mail : McpServer
mail = record {
  name = "mail";
  command = "mcp-mail";
  args = [];
  env = ("HOST", "mx") ∷ [];
  auto_restart = true;
}

abbrev web : McpServer
web = record { name = "web"; command = "mcp-web"; args = []; env = []; auto_restart = true }

abbrev sys : System
sys = record { environ = "HOME=/" ∷ []; launches = λ sp env. true }

abbrev running : Supervisor
running = reconcile sys [] ("mail" ∷ []) (mail ∷ []) new_supervisor

abbrev refreshed : Supervisor
refreshed = apply_secrets sys ("mail" ∷ []) (("KEY", "k") ∷ []) running

test_secrets :
    refreshed.clients "mail"
    ≡ some (record { server = mail; env = "HOME=/" ∷ "HOST=mx" ∷ "KEY=k" ∷ [] })
unfolding reconcile apply_secrets
test_secrets = refl

test_stop : (watch_round sys mail (stop running)).clients "mail" ≡ none
unfolding reconcile stop watch_round
test_stop = refl

-- A process that the supervisor does not start again, though its server has another command now.
test_changed :
    (reconcile sys
        ("mail" ∷ [])
        ("mail" ∷ [])
        (record { name = "mail"; command = "new"; args = []; env = []; auto_restart = true } ∷ [])
        running).clients
      "mail"
    ≡ running.clients "mail"
unfolding reconcile
test_changed = refl

reconcile-reconciled_example :
    (reconcile sys ("mail" ∷ []) ("web" ∷ []) (web ∷ []) running).clients "web"
    ≡ reconciled sys running.secret_env (add_wanted (web ∷ []) empty "web") (running.clients "web")
unfolding reconcile
reconcile-reconciled_example =
    reconcile-reconciled sys ("mail" ∷ []) ("web" ∷ []) (web ∷ []) running "web" (inr refl)
      (inl refl)

reconcile-Runs_example :
    ((reconcile sys ("mail" ∷ []) ("web" ∷ []) (web ∷ []) running).clients "mail" ≡ none)
    × (Memᴰ mail (reconcile sys ("mail" ∷ []) ("web" ∷ []) (web ∷ []) running).watchers
        × Runs sys mail running.secret_env
            (watch_round sys mail (reconcile sys ("mail" ∷ []) ("web" ∷ []) (web ∷ []) running)))
unfolding reconcile
reconcile-Runs_example =
    reconcile-Runs sys ("mail" ∷ []) ("web" ∷ []) (web ∷ []) running mail (Memᴰ.head refl) refl
      (inl refl) refl refl
