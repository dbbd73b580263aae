-- ===== src/Lib.antt =====
-- Ruriko: a control plane for chat agents. Operators command Ruriko in a chat room; Ruriko runs agents
-- (Gitai), hands them secrets and configurations (Gosuto), and agents call tools under the rules of
-- their configuration. This library models the parts of both programs that decide something, each in
-- the module below, and proves what makes them correct.
--
--   * Commands.Router: internal/ruriko/commands/router.go, from the text of a message to a command
--     (tokenizeCommand, Parse) and its handler (Route).
--   * Approvals: internal/ruriko/approvals/store.go and types.go, the table of requests (Create, Get,
--     resolve, Approve, Deny, Cancel, ExpireStale). Approvals.Parser: approvals/parser.go
--     (ParseDecision). Approvals.Decide: approvals/gate.go (IsGated) and
--     internal/ruriko/commands/approval_handlers.go (requestApprovalIfNeeded, HandleApprovalDecision,
--     executeApproved), which join the router, the parser and the table.
--   * Agent.Messages: internal/gitai/app/app.go, handleMessage up to the turn or the protocol that a message
--     starts, over Policy and Workflow.Match. Agent.Dispatch: DispatchToolCall, which every tool call
--     passes, over Policy and AgentApprovals, with the secrets that it fills in.
--   * AgentApprovals: internal/gitai/approvals/approvals.go (Request, RecordDecision), over
--     SaveApproval, GetApprovalStatus and SetApprovalStatus of internal/gitai/store/store.go: the wait
--     of an agent in front of a tool call that Policy holds for an approval.
--   * Policy: internal/gitai/policy/engine.go (Evaluate, checkConstraints, IsSenderAllowed,
--     IsRoomAllowed), over the configuration types of Gosuto.Types and Gosuto.Workflow,
--     common/spec/gosuto/types.go. Gosuto.Validate: Validate of validate.go, with
--     Gosuto.Check for the first problem that is found.
--   * Workflow: internal/gitai/workflow, the protocols that messages and events start. Workflow.Match:
--     workflow.go and gateway.go (MatchInboundProtocol, MatchGatewayProtocol, NewExecutionContext).
--     Workflow.Schema: the checks of payloads and outputs. Workflow.Template: runner.go from
--     interpolateValue to singleTemplateToken. Workflow.Act: the two effects of a step, on the values of
--     the state and on the dispatcher. Workflow.Step: the steps without nested ones and
--     RunStepWithRetryThenRefuse. Workflow.Nested: runStep, with for_each. Workflow.Run: Run of
--     runner.go and ExecuteProtocol of engine.go. Workflow.State: state.go and the errors.
--   * Supervisor: internal/gitai/supervisor/supervisor.go, the processes of the tool servers (Reconcile,
--     ApplySecrets, Stop, startLocked, watchAndRestart).
--   * Json: the values that Go's interface{} holds, with fmt's %v for them.
--   * Kuze.Tokens: internal/ruriko/kuze/tokens.go, the tokens of one-time links (Issue, IssueAgent,
--     Redeem, Validate, Burn, ListExpiredUnused, PruneExpired).
--   * Secrets: internal/gitai/secrets/store.go and manager.go, what an agent holds in memory (Apply,
--     GetSecret, IsExpired, Expired, Evict), with base64 in Secrets.Base64.
--   * RateLimit.FixedWindow: common/ratelimit/fixed_window.go (Allow, AllowAll).
--   * Nlp.RateLimiter and Nlp.TokenBudget: internal/ruriko/nlp/ratelimit.go and tokenbudget.go.
--   * Gateway.Cron: internal/gitai/gateway/cron.go (Next of both kinds of schedule).
--   * Retry: common/retry/retry.go (Do).
--   * Prelude: the shared names, Go's maps, strings and 64-bit integers.
--
-- Conventions. A method is a function from the state, and from what it reads outside of it (the clock,
-- random bytes, whether a statement on the database fails, when a context is cancelled), to the new
-- state and the result. A method under a mutex or in a transaction is one step, so that a run of
-- concurrent calls is a sequence of steps; Secrets says which of its methods are not. A time is a number of nanoseconds since Go's zero time, and
-- an `int` that may be negative is a 64-bit integer that wraps around (Prelude.Int). A Go map is a
-- function to an optional value, and a range over a map takes the order in which Go visits it; a table
-- of a database is the list of its rows. A theorem about tables that needs their primary key says so. A
-- text is the list of its characters. White space and letters that change case are the ASCII ones.
--
-- Loops are recursion on the list that they range over, or on the number of rounds that the code itself
-- counts (the attempts of Retry, of Approvals.create and of a workflow step, the minutes of
-- Gateway.Cron). The wait of AgentApprovals ranges over the events that happen. Only the loop of
-- interpolateString takes fuel, since it may not end: `diverges` is the result when the fuel is used up,
-- and Workflow.Template says when it is and when it is not.
--
-- A step of a workflow is a function from the state to the new state and a result. The answers of the
-- dispatcher are a function of the state, which holds all calls so far, and of the call, so the theorems
-- hold for every dispatcher that does not change the state itself. The decoder of JSON is a parameter,
-- as are the texts of times and errors that only the record of a step holds; what an error wraps is kept
-- where the code asks for it. A number of JSON is kept by the text that it prints and whether it is
-- whole.
--
-- Not modelled: clients of chat servers, models, tools and the container engine, HTTP servers and
-- their message types, encryption, templates, log output and audit rows, and the wiring of the
-- programs. They pass on what the parts above decide. Of the parts with logic of their own, the
-- parser of cron expressions and the jobs of the gateway, the turn of the model, the reconcilers of
-- containers and of gateways and the memory are not modelled.
pub mod Prelude
pub mod RateLimit
pub mod Json
pub mod Gosuto
pub mod Workflow
pub mod Policy
pub mod Nlp
pub mod Commands
pub mod Approvals
pub mod Kuze
pub mod Secrets
pub mod Retry
pub mod Agent
pub mod AgentApprovals
pub mod Gateway
pub mod Supervisor
