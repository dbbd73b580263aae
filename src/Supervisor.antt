-- ===== src/Supervisor.antt =====
-- internal/gitai/supervisor/supervisor.go: the tool servers that an agent runs as processes. What the
-- operating system does is a parameter: the environment of the agent, and whether mcp.NewClient starts a
-- process. A goroutine that watches a server is an entry of `watchers`, and each of its rounds one step,
-- although the code gives up its lock between the test for a client and the start of one.
pub mod Reconcile
pub mod Watch
mod Tests
use ruriko.Prelude.{
  String, Bool, true, false, Option, none, some, List, [], ◌∷◌, ◌++◌, map, if◌then◌else◌,
}
use ruriko.Prelude.Text.{append}
use ruriko.Prelude.GoMap.{GoMap, empty, put, delete}
use ruriko.Gosuto.Types.{McpServer}

-- A running process, with what it was started from.
pub record Client : Type 0 where
  pub server : McpServer
  pub env : List String

pub record Supervisor : Type 0 where
  pub clients : GoMap Client
  pub specs : List McpServer
  pub secret_env : List (String × String)
  pub watchers : List McpServer
  pub is_cancelled : Bool

-- `launches` is whether mcp.NewClient starts the server with this environment.
pub record System : Type 0 where
  pub environ : List String
  pub launches : McpServer → List String → Bool

abbrev pub new_supervisor : Supervisor
new_supervisor = record {
  clients = empty;
  specs = [];
  secret_env = [];
  watchers = [];
  is_cancelled = false;
}

abbrev variable : String × String → String
variable (k, v) = append k (append "=" v)

-- The two maps in the order in which Go visits them.
abbrev pub build_env : System → McpServer → List (String × String) → List String
build_env sys sp secret_env = sys.environ ++ (map variable sp.env ++ map variable secret_env)

abbrev pub with_clients : GoMap Client → Supervisor → Supervisor
with_clients clients s = record {
  clients = clients;
  specs = s.specs;
  secret_env = s.secret_env;
  watchers = s.watchers;
  is_cancelled = s.is_cancelled;
}

abbrev pub with_specs : List McpServer → Supervisor → Supervisor
with_specs specs s = record {
  clients = s.clients;
  specs = specs;
  secret_env = s.secret_env;
  watchers = s.watchers;
  is_cancelled = s.is_cancelled;
}

abbrev with_secret_env : List (String × String) → Supervisor → Supervisor
with_secret_env secret_env s = record {
  clients = s.clients;
  specs = s.specs;
  secret_env = secret_env;
  watchers = s.watchers;
  is_cancelled = s.is_cancelled;
}

-- go s.watchAndRestart(sp), if auto_restart is on.
abbrev pub watched : McpServer → Supervisor → Supervisor
watched sp s = record {
  clients = s.clients;
  specs = s.specs;
  secret_env = s.secret_env;
  watchers = if sp.auto_restart then sp ∷ s.watchers else s.watchers;
  is_cancelled = s.is_cancelled;
}

-- s.clients[sp.Name] = client, if mcp.NewClient gives one.
abbrev pub launched : System → McpServer → Supervisor → Supervisor
launched sys sp s =
    let env = build_env sys sp s.secret_env in
    if sys.launches sp env
    then with_clients (put s.clients sp.name (record { server = sp; env = env })) s
    else s

abbrev pub start_locked : System → McpServer → Supervisor → Supervisor
start_locked sys sp s = watched sp (launched sys sp s)

-- The index of the servers by name: the last one of a name counts.
abbrev pub add_wanted : List McpServer → GoMap McpServer → GoMap McpServer
add_wanted [] wanted = wanted
add_wanted (sp ∷ rest) wanted = add_wanted rest (put wanted sp.name sp)

abbrev stop_one : Option McpServer → String → GoMap Client → GoMap Client
stop_one none name clients = delete clients name
stop_one (some sp) name clients = clients

-- The range over the clients, by the names that Go visits.
abbrev pub stop_unwanted : GoMap McpServer → List String → GoMap Client → GoMap Client
stop_unwanted wanted [] clients = clients
stop_unwanted wanted (name ∷ rest) clients =
    stop_unwanted wanted rest (stop_one (wanted name) name clients)

abbrev pub start_one : System → Option McpServer → Option Client → Supervisor → Supervisor
start_one sys none running s = s
start_one sys (some sp) (some c) s = s
start_one sys (some sp) none s = start_locked sys sp s

-- The range over the wanted servers, by the names that Go visits.
abbrev pub start_wanted : System → GoMap McpServer → List String → Supervisor → Supervisor
start_wanted sys wanted [] s = s
start_wanted sys wanted (name ∷ rest) s =
    start_wanted sys wanted rest (start_one sys (wanted name) (s.clients name) s)

-- Reconcile, with the names that its two ranges over maps visit.
unfoldable pub reconcile :
    System → List String → List String → List McpServer → Supervisor → Supervisor
reconcile sys visited started specs s =
    let wanted = add_wanted specs empty in
    with_specs specs
      (start_wanted sys wanted started (with_clients (stop_unwanted wanted visited s.clients) s))

abbrev start_all : System → List McpServer → Supervisor → Supervisor
start_all sys [] s = s
start_all sys (sp ∷ rest) s = start_all sys rest (start_locked sys sp s)

abbrev close_all : List String → GoMap Client → GoMap Client
close_all [] clients = clients
close_all (name ∷ rest) clients = close_all rest (delete clients name)

-- ApplySecrets, with the names of the clients as Go visits them.
unfoldable pub apply_secrets :
    System → List String → List (String × String) → Supervisor → Supervisor
apply_secrets sys [] env s = with_secret_env env s
apply_secrets sys (name ∷ names) env s =
    start_all sys s.specs
      (with_clients (close_all (name ∷ names) s.clients) (with_secret_env env s))

-- Stop. A goroutine that watches returns in its next round, since the context is cancelled.
unfoldable pub stop : Supervisor → Supervisor
stop s = record {
  clients = empty;
  specs = s.specs;
  secret_env = s.secret_env;
  watchers = s.watchers;
  is_cancelled = true;
}

abbrev restart : System → McpServer → Option Client → Supervisor → Supervisor
restart sys sp (some still) s = s
restart sys sp none s = launched sys sp s

-- One round of watchAndRestart, behind its wait.
unfoldable pub watch_round : System → McpServer → Supervisor → Supervisor
watch_round sys sp s = if s.is_cancelled then s else restart sys sp (s.clients sp.name) s
