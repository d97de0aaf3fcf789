-- ===== src/Lib.antt =====
-- Verification of the Go server of leads-engine (server/internal): the decisions that say who may
-- touch a record, when a message or a call may leave, whose an external event is, and what the
-- services keep, in memory and in their tables.
--
-- The program's parts that are modelled, and their files
--   * Authz: server/internal/authz/authz.go, `Authorize` and its helpers, which httpapi asks
--     before it answers a member. Roles, actions and reasons are data types; a text that is none of the
--     constants is the last constructor of its type.
--   * Outbound, Outbound/Decide: server/internal/outbound/decide.go, the gate before an AI call:
--     `Decide`, `decideDial`, `decideReceipt` and what they call.
--   * SopReach, SopReach/Decide: server/internal/sopreach/decide.go, the gate before a follow-up
--     message: `Decide`, `bind`, `gate`, `openLevel`, `consentCovers`.
--   * SopReach/Sandbox: server/internal/sopreach/sandbox.go, the scheduler that puts the gate to
--     work. `Sandbox` is its state; Steps holds the helpers, Steps/Chain `Remind`, `Draft` and
--     `Confirm`, Steps/Automatic `AllowAutomatic`, `QueueAutomatic` and `Release`, Steps/Callbacks
--     `Callback`, and Steps/Run a run of any of these calls in any order. A step returns the new
--     state, the outcome, and the messages that were posted, each with the draft or the action that
--     it was posted for.
--   * CraftHandoff: server/internal/crafthandoff/service.go, the service for reply drafts and for
--     hand-offs to the professional tools: Material is what may enter a draft or a payload, Service
--     the methods and runs of them.
--   * TenantMap: server/internal/tenantmap/map.go: Parse reads the operator's list of bindings,
--     Resolve is `selectBinding`, `Resolve` and `ResolveFollowUp`.
--   * Subscription: server/internal/subscription/decision.go: the price of AI actions, who may
--     pay, and `DecideAI`.
--   * CrmTenant: server/internal/crmtenant/isolate.go: the choice of a tenant, merges and exports.
--   * HandoffSender: server/internal/handoffsender, the sender of confirmed opportunities, over the
--     rows of server/internal/store/opportunity_handoff.go. Input is what document.go checks, Receiver
--     what deliver.go reads of the receiver's answers and how service.go books them, Table the SQL
--     statements, Service `Confirm`, `Retry`, `Refresh` and `Revoke`; Service/Run is a run of these
--     calls in any order, Service/Orders and Service/Moves an abstract table that they refine.
--   * Roi: server/internal/roi/roi.go, `Recalculate`, which httpapi runs on the citations of a
--     request: Checks what it refuses, Costs `countCosts` and `countRevenues`, Refunds `applyRefunds`,
--     Allocate `allocationsOf`, Report the lines, and Report/Recalculate the status and the whole.
--     Amounts are 64-bit integers that wrap around (Base/Int).
--   * Channel: server/internal/channelix/admit.go (Admit) and the part of
--     server/internal/store/channel_interaction.go that asks it: Rows is the tables, Ingest
--     `SaveChannelGrant`, `RevokeChannelGrant` and `SetChannelFloor`, Ingest/Transaction
--     `IngestChannelEvent` and runs of these calls.
--   * LightCopy: server/internal/lightcopy/decide.go, short texts inside a scene: `Generate`,
--     `SaveManual`, `Confirm`, `Project` and `OpenHandoff`; LightCopy/Edits is a run of edits.
--   * Base: what these share, among it the parts of Go's `strings` and `strconv` that they call,
--     and `Dict`, Go's map from texts.
-- Under each component the other modules hold its proofs; the modules called Examples hold concrete
-- runs.
--
-- How the code corresponds to the model
--   * A struct is a record with its fields in Go's order where the code reads them, a set of string
--     constants a data type, a pointer or a text that may be empty an `Option` where the code tells
--     the empty case apart, a slice a `List`. A method that holds its mutex is one step.
--   * A function that returns `(T, error)` returns a `Result`, and one that fails leaves the state as
--     the code leaves it.
--   * What the server does not implement is an argument: the answer of the fixture server to a post
--     (`Server`: the status, or none where the call fails), the SHA-256 digest of a hand-off's id
--     (nothing is assumed of it), the database lookup of a tenant (none where it fails), what the
--     receiver of an opportunity answers (`Reply`), the digests of documents and messages, and the
--     ids that a call draws.
--   * Counters are natural numbers, so they are faithful below 2 ^ 63; `int` fields that are only
--     compared and copied are `ℤ`, as are the amounts of Roi, whose sums and differences wrap. The
--     versions of bindings are natural numbers, since the parser refuses what is below 1. It bounds a
--     version by 2 ^ 63 - 1, as `strconv.Atoi` does.
--   * A text is a sequence of characters, as `range` reads it; `len` counts its bytes and `count` its
--     characters, as `utf8.RuneCountInString` does.
--   * A table is the list of its rows, a statement a function on it, with the keys that the migration
--     declares; calls run one after another.
--   * Every definition recurses on its own argument; only `itoa` takes fuel, one more than the number
--     it prints, and its result is proved to be read back as that number.
--
-- What is not modelled, and why
--   * nil receivers, logging and clocks; JSON encoding; the texts of hints and error messages.
--   * the other files of server/internal/store, and db (statements of SQL), httpapi (HTTP handlers over
--     the store),
--     identity, platform, platformtask, matrixdraftclient (clients of other services), config and
--     appregistry (reading of settings), cmd/leads-server.
--   * of the channel interactions, `ConfirmChannelCandidate`, which goes on into the lead intake, and
--     the times.
--   * of lightcopy, `Prompt`, which formats an instruction for the model.
--   * of roi, the metric lines and the cited lift (float64 values that are only copied).
--   * server/internal/intentgrade, reception, workbench, campaignmotion, matrixhandoff,
--     notifyingest, provision and
--     redact: pure code of the same kind as the parts above, not yet translated.
--   * of handoffsender, the JSON of documents (`BuildDocument` and validate.go): whether a document is
--     built is an argument of `confirm`; failures of the database, and calls that interleave.
--   * web: the front end, which is not Go.
pub mod Base
pub mod Authz
pub mod CraftHandoff
pub mod TenantMap
pub mod HandoffSender
pub mod CrmTenant
pub mod Subscription
pub mod Outbound
pub mod LightCopy
pub mod Channel
pub mod Roi
pub mod SopReach
