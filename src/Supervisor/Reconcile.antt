-- ===== src/Supervisor/Reconcile.antt =====
-- Which servers run behind Reconcile, by name.
use mathlib.Core.Path.{subst}
use ruriko.Prelude.{
  String, Bool, true, false, Option, none, some, List, [], ◌∷◌, if◌then◌else◌, ◌==◌, string_eq, ◌≡◌,
  refl, sym, ◌∙◌, contains, Bool-cases, Option-cases, text_eq_iff, none-ne-some, ◌||◌, ap,
  some-injective, ◌⊎◌, inl, inr,
}
use ruriko.Prelude.GoMap.{GoMap, empty, put}
use ruriko.Gosuto.Types.{McpServer}
use ruriko.Supervisor.{
  Supervisor, Client, System, build_env, with_clients, start_locked, add_wanted, stop_one,
  stop_unwanted, start_one, start_wanted, reconcile,
}

-- The client of a wanted server if none runs yet: it is started now, with the secrets of now.
abbrev started_now : System → List (String × String) → McpServer → Option Client
started_now sys secrets sp =
    let env = build_env sys sp secrets in
    if sys.launches sp env then some (record { server = sp; env = env }) else none

-- A client goes on as it is if its server is still wanted, and ends otherwise.
abbrev pub reconciled :
    System → List (String × String) → Option McpServer → Option Client → Option Client
reconciled sys secrets none running = none
reconciled sys secrets (some sp) (some c) = some c
reconciled sys secrets (some sp) none = started_now sys secrets sp

abbrev pub Visits {ℓ} : {V : Type ℓ} → List String → GoMap V → String → Type ℓ
Visits names m n = (contains names n ≡ true) ⊎ (m n ≡ none)

-- Every server is filed under its own name.
abbrev AreNamed : GoMap McpServer → Type 0
AreNamed wanted = (n : String) (sp : McpServer) → wanted n ≡ some sp → sp.name ≡ n

put-AreNamed :
    (wanted : GoMap McpServer) (sp : McpServer) → AreNamed wanted → AreNamed (put wanted sp.name sp)
put-AreNamed wanted sp h n p e = elim (Bool-cases (sp.name == n)) [
  | inl b ↦ (sym (ap (λ q. q.name) (some-injective _ _ (rw b at e))) ∙ (text_eq_iff sp.name n).0 b)
  | inr b ↦ h n p (rw b at e)
]

add_wanted-AreNamed :
    (specs : List McpServer) (wanted : GoMap McpServer)
    → AreNamed wanted
    → AreNamed (add_wanted specs wanted)
add_wanted-AreNamed [] wanted h = h
add_wanted-AreNamed (sp ∷ rest) wanted h =
    add_wanted-AreNamed rest (put wanted sp.name sp) (put-AreNamed wanted sp h)

-- What is left under a name behind the first range.
abbrev left_of : Option McpServer → Option Client → Option Client
left_of none running = none
left_of (some sp) running = running

fill : System → List (String × String) → Option McpServer → Option Client → Option Client
fill sys secrets none running = running
fill sys secrets (some sp) (some c) = some c
fill sys secrets (some sp) none = started_now sys secrets sp

abbrev once : (Option Client → Option Client) → Bool → Option Client → Option Client
once f true c = f c
once f false c = c

once-once :
    (f : Option Client → Option Client)
    → ((c : Option Client) → f (f c) ≡ f c)
    → (a b : Bool) (c : Option Client) → once f b (once f a c) ≡ once f (a || b) c
once-once f h true true c = h c
once-once f h true false c = refl
once-once f h false b c = refl

left_of_twice : (o : Option McpServer) (c : Option Client) → left_of o (left_of o c) ≡ left_of o c
left_of_twice none c = refl
left_of_twice (some sp) c = refl

started_twice :
    (sys : System) (secrets : List (String × String)) (sp : McpServer) (c : Option Client)
    → started_now sys secrets sp ≡ c
    → fill sys secrets (some sp) c ≡ c
unfolding fill
started_twice sys secrets sp none e = e
started_twice sys secrets sp (some c) e = refl

fill_twice :
    (sys : System) (secrets : List (String × String)) (o : Option McpServer) (c : Option Client)
    → fill sys secrets o (fill sys secrets o c) ≡ fill sys secrets o c
unfolding fill
fill_twice sys secrets none c = refl
fill_twice sys secrets (some sp) (some c) = refl
fill_twice sys secrets (some sp) none =
    started_twice sys secrets sp (started_now sys secrets sp) refl

stop_one-get :
    (wanted : GoMap McpServer) (name n : String) (clients : GoMap Client)
    → stop_one (wanted name) name clients n ≡ once (left_of (wanted n)) (name == n) (clients n)
stop_one-get wanted name n clients = elim (Bool-cases (name == n)) [
  | inl e ↦ elim (Option-cases (wanted n)) [
    | inl a ↦
        rw ((text_eq_iff name n).0 e, (text_eq_iff n n).1 refl, a, (text_eq_iff n n).1 refl) refl
    | inr (sp, a) ↦ rw ((text_eq_iff name n).0 e, (text_eq_iff n n).1 refl, a) refl
  ]
  | inr e ↦ elim (Option-cases (wanted name)) [
    | inl a ↦ rw (e, a, e) refl
    | inr (sp, a) ↦ rw (e, a) refl
  ]
]

stop_unwanted-get :
    (wanted : GoMap McpServer) (visited : List String) (n : String) (clients : GoMap Client)
    → stop_unwanted wanted visited clients n
      ≡ once (left_of (wanted n)) (contains visited n) (clients n)
stop_unwanted-get wanted [] n clients = refl
stop_unwanted-get wanted (name ∷ rest) n clients =
    stop_unwanted-get wanted rest n (stop_one (wanted name) name clients)
    ∙ ap (once (left_of (wanted n)) (contains rest n)) (stop_one-get wanted name n clients)
    ∙ once-once (left_of (wanted n)) (left_of_twice (wanted n)) (name == n) (contains rest n)
        (clients n)

-- Starting a server leaves the secrets as they are, and fills in the client of its own name.
launched-secrets :
    (sys : System) (sp : McpServer) (s : Supervisor)
    → (start_locked sys sp s).secret_env ≡ s.secret_env
launched-secrets sys sp s = elim (Bool-cases (sys.launches sp (build_env sys sp s.secret_env))) [
  | inl e ↦ rw e refl
  | inr e ↦ rw e refl
]

start_one-secrets :
    (sys : System) (o : Option McpServer) (running : Option Client) (s : Supervisor)
    → (start_one sys o running s).secret_env ≡ s.secret_env
start_one-secrets sys none running s = refl
start_one-secrets sys (some sp) (some c) s = refl
start_one-secrets sys (some sp) none s = launched-secrets sys sp s

start_locked-own :
    (sys : System) (sp : McpServer) (s : Supervisor)
    → s.clients sp.name ≡ none
    → (start_locked sys sp s).clients sp.name ≡ started_now sys s.secret_env sp
start_locked-own sys sp s h = elim (Bool-cases (sys.launches sp (build_env sys sp s.secret_env))) [
  | inl e ↦ rw (e, (text_eq_iff sp.name sp.name).1 refl) refl
  | inr e ↦ rw e h
]

start_locked-other :
    (sys : System) (sp : McpServer) (s : Supervisor) (n : String)
    → sp.name == n ≡ false
    → (start_locked sys sp s).clients n ≡ s.clients n
start_locked-other sys sp s n h =
    elim (Bool-cases (sys.launches sp (build_env sys sp s.secret_env))) [
      | inl e ↦ rw (e, h) refl
      | inr e ↦ rw e refl
    ]

start_one-own :
    (sys : System) (o : Option McpServer) (s : Supervisor) (n : String)
    → ((sp : McpServer) → o ≡ some sp → sp.name ≡ n)
    → (c : Option Client) → s.clients n ≡ c
    → (start_one sys o c s).clients n ≡ fill sys s.secret_env o c
unfolding fill
start_one-own sys none s n h c e = e
start_one-own sys (some sp) s n h (some c) e = e
start_one-own sys (some sp) s n h none e =
    subst
      (λ m.
        (s.clients m ≡ none)
        → ((start_locked sys sp s).clients m ≡ started_now sys s.secret_env sp))
      (h sp refl) (start_locked-own sys sp s) e

start_one-other :
    (sys : System) (o : Option McpServer) (running : Option Client) (s : Supervisor) (n : String)
    → ((sp : McpServer) → o ≡ some sp → (sp.name == n) ≡ false)
    → (start_one sys o running s).clients n ≡ s.clients n
start_one-other sys none running s n h = refl
start_one-other sys (some sp) (some c) s n h = refl
start_one-other sys (some sp) none s n h = start_locked-other sys sp s n (h sp refl)

start_one-get :
    (sys : System) (wanted : GoMap McpServer) (s : Supervisor) (name n : String)
    → AreNamed wanted
    → (start_one sys (wanted name) (s.clients name) s).clients n
      ≡ once (fill sys s.secret_env (wanted n)) (name == n) (s.clients n)
start_one-get sys wanted s name n h = elim (Bool-cases (name == n)) [
  | inl e ↦
      rw ((text_eq_iff name n).0 e, (text_eq_iff n n).1 refl)
        (start_one-own sys (wanted n) s n (h n) (s.clients n) refl)
  | inr e ↦
      rw e (start_one-other sys (wanted name) (s.clients name) s n (λ sp a. rw (h name sp a) e))
]

start_wanted-get :
    (sys : System) (wanted : GoMap McpServer) (names : List String) (n : String) (s : Supervisor)
    → AreNamed wanted
    → (start_wanted sys wanted names s).clients n
      ≡ once (fill sys s.secret_env (wanted n)) (contains names n) (s.clients n)
start_wanted-get sys wanted [] n s h = refl
start_wanted-get sys wanted (name ∷ rest) n s h =
    let next = start_one sys (wanted name) (s.clients name) s in
    start_wanted-get sys wanted rest n next h
    ∙ ap (λ secrets. once (fill sys secrets (wanted n)) (contains rest n) (next.clients n))
        (start_one-secrets sys (wanted name) (s.clients name) s)
    ∙ ap (once (fill sys s.secret_env (wanted n)) (contains rest n))
        (start_one-get sys wanted s name n h)
    ∙ once-once (fill sys s.secret_env (wanted n)) (fill_twice sys s.secret_env (wanted n))
        (name == n) (contains rest n) (s.clients n)

left_then_filled :
    (sys : System) (secrets : List (String × String)) (o : Option McpServer) (c : Option Client)
    (visited started : Bool)
    → (visited ≡ true) ⊎ (c ≡ none)
    → (started ≡ true) ⊎ (o ≡ none)
    → once (fill sys secrets o) started (once (left_of o) visited c) ≡ reconciled sys secrets o c
unfolding fill
left_then_filled sys secrets none c v true (inl e) k = rw e refl
left_then_filled sys secrets none c v false (inl e) k = rw e refl
left_then_filled sys secrets none c true true (inr e) k = refl
left_then_filled sys secrets none c true false (inr e) k = refl
left_then_filled sys secrets none c false true (inr e) k = e
left_then_filled sys secrets none c false false (inr e) k = e
left_then_filled sys secrets (some sp) c v w h (inr e) = elim (none-ne-some sp (sym e)) [ ]
left_then_filled sys secrets (some sp) (some c) true w h (inl e) = rw e refl
left_then_filled sys secrets (some sp) (some c) false w h (inl e) = rw e refl
left_then_filled sys secrets (some sp) none true w h (inl e) = rw e refl
left_then_filled sys secrets (some sp) none false w h (inl e) = rw e refl

-- Behind Reconcile, whose ranges visit all entries of their maps, the client of a name is the one from
-- before if the configuration still has a server of this name, whatever else the configuration says of it;
-- a server that has no client is started with the secrets of now; and no other name has a client.
pub reconcile-reconciled :
    (sys : System) (visited started : List String) (specs : List McpServer) (s : Supervisor)
    (n : String)
    → Visits visited s.clients n
    → Visits started (add_wanted specs empty) n
    → (reconcile sys visited started specs s).clients n
      ≡ reconciled sys s.secret_env (add_wanted specs empty n) (s.clients n)
unfolding reconcile
reconcile-reconciled sys visited started specs s n h k =
    let wanted = add_wanted specs empty in
    start_wanted-get sys wanted started n (with_clients (stop_unwanted wanted visited s.clients) s)
      (add_wanted-AreNamed specs empty (λ m sp e. elim (none-ne-some sp e) [ ]))
    ∙ ap (once (fill sys s.secret_env (wanted n)) (contains started n))
        (stop_unwanted-get wanted visited n s.clients)
    ∙ left_then_filled sys s.secret_env (wanted n) (s.clients n) (contains visited n)
        (contains started n) h k
