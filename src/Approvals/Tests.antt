-- ===== src/Approvals/Tests.antt =====
-- Requests at concrete tables.
use Prim.Native.String.{String}
use ruriko.Prelude.{
  ℕ, true, false, none, some, List, [], ◌∷◌, ◌≡◌, ◌==◌, refl, string_eq, nat_eq, if◌then◌else◌,
  ◌&&◌, ltb,
}
use ruriko.Prelude.GoMap.{empty}
use ruriko.Prelude.Text.{trim_space, trim_left, trim_right, is_space}
use ruriko.Commands.Router.{
  Command, ok, parse, build, walk, scan, scan_rune, flush, tokenize_command,
}
use ruriko.Approvals.{
  Approval, approved, denied, Rows, Request, Attempt, database_failed, find, resolve, approve,
  expire_stale, create, new_row, resolved, get, is_expired,
}
use ruriko.Approvals.Resolve.{resolve_lem, answer, on_row, settle, expire_stale_lem, AreSwept}
use ruriko.Approvals.Final.{find-run_all, run_all, Operation, denying, sweeping, creating}
use ruriko.Approvals.Create.{IsCreated, create-IsCreated}
use ruriko.Approvals.Parser.{
  parse_decision, decision, fields_from, parse_reason, has_verb, byte_length,
}
use ruriko.Approvals.Parser.Form.{parse_decision-is_panic, is_panic}
use ruriko.Approvals.Decide.{
  Setting, handle_approval_decision, decide_on, dispatched, approved_command,
  request_approval_if_needed, is_gated,
}
use ruriko.Approvals.Decide.Gated.{request_approval_if_needed-IsHeld, IsHeld}
use ruriko.Approvals.Decide.Handler.{handle_approval_decision-Handles, Handles}
use ruriko.Approvals.Decide.Execute.{handle_approval_decision-IsJustified, IsJustified}

abbrev request : Request
request = record {
  action = "agents.delete";
  target = "bot";
  params = ("bot" ∷ [], []);
  requestor_mxid = "@ann";
  ttl = 10;
}

abbrev first : Approval
first = new_row 5 "a1" request

abbrev second : Approval
second = resolved 7 denied "@bob" "no" (new_row 5 "b2" request)

abbrev table : Rows
table = first ∷ second ∷ []

abbrev draw : ℕ → Attempt
draw n = if n == 0 then (some "a1", false) else (some "c3", false)

abbrev setting : Setting
setting = record {
  configured = true;
  can_dispatch = true;
  sweep_fails = false;
  get_fails = false;
  update_fails = false;
  swept_at = 8;
  tested_at = 9;
  updated_at = 9;
  trace_id = "t";
}

resolve_lem_example :
    ((resolve false 9 "a1" approved "@bob" "" table).1 ≡ answer "a1" (find "a1" table))
    × (find "b2" (resolve false 9 "a1" approved "@bob" "" table).0
        ≡ on_row (settle 9 "a1" approved "@bob" "" "b2") (find "b2" table))
    × (resolve true 9 "a1" approved "@bob" "" table ≡ (table, some database_failed))
resolve_lem_example = resolve_lem 9 "a1" approved "@bob" "" table "b2" (refl, (refl, tt))

expire_stale_lem_example :
    ((n : ℕ) × (((expire_stale false 20 table).1 ≡ some n)
        × AreSwept 20 n table (expire_stale false 20 table).0))
    × (expire_stale true 20 table ≡ (table, none))
expire_stale_lem_example = expire_stale_lem 20 table

abbrev operations : List Operation
operations = denying false 9 "b2" "@eve" "x" ∷ sweeping false 20 ∷ creating draw 30 request ∷ []

find-run_all_example : find "b2" (run_all operations table) ≡ some second
find-run_all_example = find-run_all operations table "b2" second refl refl

create-IsCreated_example : IsCreated 6 request table (create draw 6 request table)
create-IsCreated_example = create-IsCreated draw 6 request table

test_deny :
    parse_decision "deny a1 reason=\"not now\""
    ≡ decision (record { approve = false; approval_id = "a1"; reason = "not now" })
unfolding parse_decision fields_from parse_reason trim_space trim_left trim_right is_space
test_deny = refl

parse_decision-is_panic_example :
    is_panic (parse_decision "deny 4")
    ≡ (has_verb "deny " "deny" (trim_space "deny 4") && ltb (byte_length (trim_space "deny 4")) 7)
parse_decision-is_panic_example = parse_decision-is_panic "deny 4"

abbrev sent : Command
sent = record {
  name = "agents";
  subcommand = "delete";
  args = "bot" ∷ [];
  flags = empty;
  raw_text = "agents delete bot";
}

parse-sent : parse "/ruriko" "/ruriko agents delete bot" ≡ ok sent
unfolding parse build walk tokenize_command scan flush scan_rune trim_space trim_left trim_right
    is_space
parse-sent = refl

is_gated_delete : is_gated "agents.delete" ≡ true
unfolding is_gated
is_gated_delete = refl

request_approval_if_needed-IsHeld_example :
    IsHeld 6 request table
      (request_approval_if_needed true draw 6 10 [] "agents.delete" "bot" sent "@ann" table)
request_approval_if_needed-IsHeld_example =
    request_approval_if_needed-IsHeld draw 6 10 [] "agents.delete" "bot" "/ruriko"
      "/ruriko agents delete bot" "@ann" table parse-sent is_gated_delete

abbrev message : String
message = "approve a1 fine"

test_approve : handle_approval_decision setting "@bob" message table ≡ (
  resolved 9 approved "@bob" "fine" first ∷ second ∷ [],
  dispatched "agents.delete" (approved_command "t" first) "@ann",
)
unfolding handle_approval_decision parse_decision fields_from parse_reason trim_space trim_left
    trim_right is_space decide_on expire_stale get is_expired approve resolve
test_approve = refl

find_approved :
    find "a1" (handle_approval_decision setting "@bob" message table).0
    ≡ some (resolved 9 approved "@bob" "fine" first)
find_approved = rw test_approve refl

handle_approval_decision-Handles_example :
    Handles setting "@bob"
      (parse_decision message)
      "a1"
      first
      (resolved 9 approved "@bob" "fine" first)
handle_approval_decision-Handles_example =
    handle_approval_decision-Handles setting "@bob" message table "a1" first
      (resolved 9 approved "@bob" "fine" first) refl find_approved

handle_approval_decision-IsJustified_example :
    IsJustified setting "@bob"
      (parse_decision message)
      table
      (handle_approval_decision setting "@bob" message table)
handle_approval_decision-IsJustified_example =
    handle_approval_decision-IsJustified setting "@bob" message table
