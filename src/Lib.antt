-- ===== src/Lib.antt =====
-- Verification of the controller of Aria: its enrollment tokens, its command, state and alert storage, the rules of
-- network policies and the snapshots that agents get of them, and the addresses that nodes report.
--
-- The controller (Go) keeps PostgreSQL tables. An agent enrols with a token (internal/token), then polls for
-- commands, runs them and reports their status; a report moves the command, the policy deliveries that it
-- carries and the control state of the node in one transaction, and alerts and audit events follow it
-- (pkg/controllerstorage). A change of a node's rules runs in one transaction with the command that tells the agent
-- to fetch them; the agent then gets a snapshot that internal/controller/grpc compiles from the rules.
--
-- Files and the code that they model:
--   Prelude     shared names; tables as lists of rows, with SELECT, UPDATE, DELETE, ORDER BY and LIMIT
--               (Prelude/Rows, First), unique text keys (Prelude/Keys, Fresh), strings.TrimSpace
--               and strings.ToLower (Prelude/Text), strings.Split (Prelude/Split), numbers in decimal
--               (Prelude/Decimal), signed integers (Prelude/Int)
--   Sql         database/sql: statements, chains of them, transactions with rollback
--               (pkg/controllerstorage/tx_utils.go); Sql/Rules and Sql/Inversion carry the proofs about them
--   Token       internal/token/token.go: the token and its tests
--   Token/Store internal/token/store.go: one function for each method of the store
--   Token/Validator  internal/token/validator.go
--   Token/Usage, Effects, Presence, Limit, Revocation, Insertion, Cleanup, Validity  the proofs about tokens
--   Storage     the rows of pkg/controllerstorage, the clock and the generated identifiers
--   Storage/Command   agent_commands.go: queueing, delivery, requeueing
--   Storage/Batch     agent_commands.go: queueing for several nodes at once
--   Storage/Failing   agent_commands.go: failing commands, the counts and lists of a node
--   Storage/Report    agent_commands.go: status reports and their transaction
--   Storage/Notify    agent_commands.go: the alerts and audit events of a result
--   Storage/ControlState  node_control_states.go: desired and applied state, convergence
--   Storage/Alerts, Generators  alerts.go, audit_events.go (insertion), alert_generator.go
--   Storage/Certificates, Lifecycle  certificates.go, certificate_lifecycle.go, node_lifecycle.go (nodes)
--   Storage/PolicySync  policy_sync.go: the transaction that queues a policy sync, policy_deliveries.go (insertion)
--   Storage/Evolution, Keeps, Moves, ReportMoves, SyncMoves, History  how statuses move over sequences of calls
--   Storage/Atomic, Isolation, GiveUp, Delivery, Convergence, Deduplication, Superseding, Normalizing,
--     Suspension, Expiry, OneByOne  the other proofs
--   Policy      the rules of network_policy.go and ip_groups.go (pkg/controllerstorage)
--   Policy/Prefix, Ports, Conflict  network_policy.go: address prefixes, port filters, which rules may not stand
--               side by side; the check of a whole node (internal/api/v2/ip_groups.go, validateNodePolicyConflicts)
--   Policy/Columns  network_policy.go: the columns of an ACL rule, and how they are read
--   Policy/Store, QosStore  network_policy.go: the statements on ACL rules, and on bandwidth and blacklist rules
--   Policy/Groups  ip_groups.go: the normal form of an address group, which every write of one starts with
--   Policy/Mutation  policy_sync.go: a change of rules and the sync that follows it, in one transaction
--   Policy/Symmetry, Pairwise, Clear, PortSets, Overlap, OtherNodes, Writes, AllOrNothing, Desired, ReadBack,
--     HalfDone, Members  the proofs about rules
--   Snapshot    internal/controller/grpc/policy_snapshot.go: the messages of pkg/grpc/agentpb/aria_agent.proto
--   Snapshot/Normalize, Compile, Build  policy_snapshot.go: fields, single rules, the whole snapshot
--   Snapshot/Inversion, Forms, Fixed, FixedQos, Groups, Whole  the proofs about snapshots
--   NodeIdentity  internal/nodeidentity/public_network.go; NodeIdentity/Reserved and Reported carry its proofs
--   Policy/Examples, Policy/StoreExamples, Snapshot/Examples, NodeIdentity/Examples, Token/Examples,
--     Storage/Examples, Storage/LifecycleExamples  runs on concrete tables
--
-- How code becomes a definition. A method is an action on a `World`: the tables, and the faults to come. A
-- statement takes the next fault; when it is raised the statement returns an error and changes nothing, so a
-- theorem about every list of faults covers every point at which the database can fail. A transaction whose
-- body fails, or whose COMMIT fails, leaves the tables as they were. NOW(), time.Now() and generated
-- identifiers are fields of an environment that each call has of its own. Concurrent calls are modelled as
-- sequences of calls, each of which runs to its end.
--
-- strings.TrimSpace and strings.ToLower are modelled on ASCII text. A JSON object is a list of its entries, the
-- first one of a key counts.
--
-- Command statuses that are not one of the constants are kept as `unknown` text. Times are microseconds as natural
-- numbers. Counters have no bound, being far from that of a 64-bit word; where the code converts
-- an integer to an unsigned one, or multiplies rates, the wrap-around is written out, and strconv.Atoi refuses what
-- does not fit. There is no fuel but in the printer of decimal numbers, which takes one round for each digit and gets
-- one more round than the number counts; every other loop runs over the rows of a table or the characters of a text.
--
-- Parameters stand for what is not code of the repository: the parsers of net and net/netip and their printers, the casts of
-- PostgreSQL to the type cidr, and uuid.UUID.String. No theorem supposes anything of them.
--
-- Not modelled: encoding and decoding of JSON columns and the scans of rows (a row is read as it was
-- written, but for ACL rules, whose columns and projections are written out),
-- log lines, table definitions, the list queries with paging, the lifecycle
-- of tenants, the statements on IP groups and routes, the older compiler of snapshots that decodes rules from JSON,
-- the HTTP and gRPC layers that call this code, and the agent in Rust. Surrogate keys that nothing
-- reads are left out of the rows.
mod Prelude
pub mod Sql
pub mod Token
pub mod Storage
pub mod Policy
pub mod Snapshot
pub mod NodeIdentity
