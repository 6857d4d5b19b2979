-- ===== src/Lib.antt =====
-- The authority of a tool call in the NexusMCP gateway: which tools an endpoint shows, who may call,
-- whether a person must approve, that an approval is used once and for the call it was given for, and
-- when a failed call may be repeated.
--
-- Parts, and how they interact. Operators put tools into tool sets and grant these to principals
-- (Toolsets); an endpoint shows the published tools (Catalog) that some granted, active tool set has.
-- A version of a tool is published together with the binding that executes it (Connectors) against
-- an upstream service (Registry), and retires the version published before it.
-- `CallTool` leads a call through its gates. The policies judge it (Policy). Where they ask for an
-- approval, a request is stored and an operator decides it (Approval). The call then becomes an
-- execution (Execution): `plan` refuses a reused idempotency key, consumes the approval and stores
-- the running execution with an audit event, all in one unit of work. `ExecuteWithRetry` makes
-- numbered attempts until one succeeds or may not be repeated, and the execution is finished. These
-- use cases share one database of four stores (Store), and System puts them together: any sequence of
-- calls of the use cases. The tool sets have a repository of their own (Toolsets/Store), and
-- Toolsets/Reachable puts their use cases together.
--
-- Files and the code they model, from the root of the repository:
--   Base, Dict         `int`, `str` and `dict` as far as the code uses them
--   Kinds, Context     enumerations of modules/catalog, modules/identity and modules/execution;
--                      src/nexusmcp/shared/request_context.py
--   Errors             src/nexusmcp/shared/errors.py, and `ExecutorFailure`
--   Result, Action     functions that raise, and methods that change state and may raise
--   Audit              src/nexusmcp/modules/audit/domain.py and scope.py
--   Approval           src/nexusmcp/modules/approval/domain.py; Approval/Consume and
--                      Approval/UseCases: use_cases.py
--   Execution          src/nexusmcp/modules/execution/domain.py (Execution, Execution/Attempt,
--                      Execution/Scope, Execution/Disposition); Execution/Lifecycle: lifecycle.py;
--                      Execution/Retry: retrying_executor.py
--   Policy             src/nexusmcp/modules/policy/domain.py and adapters/rule_based.py
--   Credentials        src/nexusmcp/modules/credentials/domain.py and adapters/in_memory.py
--   CallTool           src/nexusmcp/modules/execution/call_tool.py: CallTool/Gates up to the plan,
--                      CallTool/Run the rest; the data of a call from execution/domain.py
--   Store              the in-memory repositories of modules/approval, modules/execution and
--                      modules/audit, and the unit of work, execution/adapters/in_memory_uow.py
--   System             sequences of units of work; Invariant states what the stores satisfy, the
--                      other files show that each use case keeps it, and so do whole calls; Counting
--                      and Attempts are about the stored count of attempts
--   Json               JSON values, which schemas are
--   Connectors         src/nexusmcp/modules/connectors/domain.py and digests.py; Connectors/Store:
--                      adapters/in_memory.py
--   Registry           src/nexusmcp/modules/registry/domain.py and adapters/in_memory.py;
--                      Registry/Checks and Registry/UseCases: use_cases.py and
--                      adapters/in_memory_uow.py; Writes, Safe, Serving and Reachable prove
--   Catalog            src/nexusmcp/modules/catalog/domain.py; Catalog/Store: adapters/in_memory.py;
--                      Catalog/Publish: publish.py, digests.py, events.py and
--                      adapters/in_memory_uow.py, with the proofs below it; Catalog/Review: review.py;
--                      Catalog/Reachable puts both into sequences
--   Toolsets           src/nexusmcp/modules/toolsets/domain.py (Toolsets, Ids, Validation, Members,
--                      Changes), ports.py (Catalog), adapters/in_memory.py, in_memory_uow.py and
--                      _repository_rules.py (Store, Repository), use_cases.py (Profiles, UseCases,
--                      Ensure, Listing) and runtime.py (Scopes, Runtime); the other files prove what
--                      they are named for, and Reachable puts the calls into sequences
--   Tests              the properties at concrete inputs
--
-- State and operations. A dataclass is a record and its `__post_init__` a function `new_…` to a
-- result; `replace` runs it again, as in the code. A use case is an `Action`: it takes the world and
-- gives its result or exception with the world after it, so that what was written before an
-- exception stays written. Inside a unit of work the repositories change copies, `commit` writes
-- them back, and leaving without a commit drops them. A unit of work holds the lock from entry to
-- exit, so every interleaving of concurrent use cases is a sequence of units of work: what a use
-- case does outside its unit of work (reading the clock, taking an identifier) is part of the step,
-- and `wait` lets both move on in between. The repository of tool sets has no lock, but its methods
-- never suspend the task, so a unit of work is one step there too.
--
-- Ports. The clock and the identifier generator are functions of the number of calls made so far,
-- without any assumption: clocks may run backwards and identifiers may repeat. The executor, the
-- sleeper, the provider of secrets and the services that `CallTool` asks are arbitrary actions; a
-- theorem that needs more of them says so in a hypothesis. So are the digest of a membership, the
-- SHA-256 of a canonical JSON text, the
-- `casefold` of a search text, the reader of published tools, `urlsplit` and `str.lower` of the
-- registry's checks, and the policy of endpoints, in which other clients may be served.
--
-- Bounds and representation. Times are microseconds, natural numbers. `attempt_count` and attempt
-- numbers start at 0 and 1 and only grow, so they are natural numbers; priorities and the
-- revisions that an audit event names are integers. The revision of a tool set is a natural number,
-- since it starts at 1, and so is an expected one: a negative one is refused like any that differs.
-- Sizes, offsets and limits are natural numbers. The retry loop is recursion on the number of rounds
-- left, which starts at `max_attempts`, as `range` does. White space is recognised by its Unicode code points; `lower()`
-- of metadata keys is that of the ASCII letters, which suffices for the keys the code writes. The
-- diagnostic text of a `NexusMcpError` is dropped. The order of texts is that of code points. A Python set is a
-- list without repetition where only membership or the sorted listing is read.
--
-- Not modelled: the adapters of PostgreSQL, HTTP and MCP, the secrets of the environment, the
-- other use cases of the catalogue, the import of OpenAPI documents, tool search, and the
-- wiring of all these.
pub mod Base
pub mod Dict
pub mod Kinds
pub mod Errors
pub mod Result
pub mod Action
pub mod Context
pub mod Audit
pub mod Checks
pub mod Approval
pub mod Execution
pub mod Store
pub mod System
pub mod Json
pub mod Connectors
pub mod Registry
pub mod Catalog
pub mod Toolsets
pub mod Policy
pub mod Credentials
pub mod CallTool
pub mod Tests
