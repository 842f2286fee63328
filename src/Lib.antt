-- ===== src/Lib.antt =====
-- Mission Control Edge: the protocol and the provider SDK of the repository.
--
-- A provider (an agent harness, a session runtime or an execution environment) serves one gateway over
-- JSON-RPC. The package `protocol` defines the values on the wire and their validation; the package
-- `provider` has the server and the client ends, which share the limits, the flow control of terminal
-- streams, the errors that may cross the wire and the records that make mutations idempotent.
--
-- Protocol.Error        protocol/error.go: codes, canonical messages, `Error.Validate` (Validity)
-- Protocol.Text         protocol/validate.go: identifiers, tokens, texts, times
-- Protocol.Identity     protocol/identity.go: native identifiers, digests; the provider roles
-- Protocol.Capability   protocol/capability.go: descriptors, the catalog (Catalog), extension names
-- Protocol.Sequence     protocol/event.go: `SequenceTracker`, its maps and `Observe`
-- Protocol.Distinct     lists without repetitions, as the maps `seen` of package `protocol` test them
-- Protocol.Content      protocol/validate.go: repeated keys (Keys), reserved content (Reserved) and
--                       fields that claim authority (Authority) in a JSON document
-- Protocol.Manifest     protocol/manifest.go: manifests, and requests, results and the compatibility
--                       of a negotiation (Negotiation)
-- Protocol.Evidence     protocol/custody.go, protocol/isolation.go: evidence, the bytes that are signed,
--                       `VerifyCustody` (Custody), `VerifyIsolation` (Isolation)
-- Protocol.Verification protocol/verification.go: live inputs (Live), records (Record), policies
--                       (Policy), projections (Projection), `EvaluateVerification` (Replay, Once)
-- Protocol.Signed       protocol/custody.go, protocol/identity.go: artifacts, nonces, safe texts
-- Protocol.Approval     protocol/approval.go: bindings and decisions, `ValidateApprovalDecision`, the
--                       comparison of scopes (Scopes); the caller's `NonceConsumer` is a parameter
-- Protocol.Terminal     protocol/runtime.go: terminal chunks, redactions, credits, subscriptions
-- Provider.Limits       provider/limits.go: `Limits.Validate`, options
-- Provider.RpcError     provider/jsonrpc.go: `rpcErrorFrom`, `normalizeProtocolError`, `rpcError`
-- Provider.Frame        provider/jsonrpc.go: `readFrame`, `writeFrame`, `validateEnvelope`
-- Provider.Initialize   provider/server.go: `initialize` of a connection and the state around it
-- Provider.Admission    provider/subscription.go, provider/server.go: admissions of subscriptions and
--                       their cleanup, `activateSubscription`, what the answers carry (Prepare)
-- Provider.Flow         provider/subscription.go, `terminalFlow`, and provider/client.go,
--                       `clientTerminalFlow`; how a wait for credit ends (Waiting)
-- Provider.Idempotency  provider/server.go: `executeMutation` (its first section, and Execution for
--                       the rest), `finalizeMutation`, `releaseConnection` and `commandResult` (Release;
--                       its three sections as one step)
-- Mock.Faults           mock/faults.go: the scripted faults of the conformance harness
--
-- A struct is a record with the same fields, a method is a function from the old state to the new state
-- and the answer, and a Go error is a value of `GoError`. A section under a mutex is one step; what
-- other goroutines do between two sections is a list or a relation of steps (`Flow.Window.Steps`,
-- `Flow.Agreement.Reaches`, `Idempotency.Account.Steps`). The server's `consume` waits on a list of
-- events; it has no fuel, since each event is taken once, and where the list ends the result says that
-- the chunk still waits. Pointers to mutation records are addresses into a heap that only grows.
-- uint64 is a natural number with its wrap-around written out; a byte string is a list of bytes.
--
-- Loops that are not structural run on fuel, which their callers give: `consume_value` gets the number of
-- tokens, the walk over a document its size, `read_loop` one turn for each byte and one more,
-- `write_loop` one turn for each byte and one more. Where the fuel ends, the loops over bytes and the
-- walk answer none, and `consume_value` answers the error "out of fuel", which the source does not have.
--
-- Parameters: the decoder and encoder of JSON (`JsonLibrary`), Ed25519 and base64 (`Cryptography`), the
-- platform's largest int, the trust in keys, the consumer of nonces and the guard against replays
-- (where a theorem needs them, they accept a value once), `io.Writer`, the provider's handlers.
--
-- Not modelled: sockets and pipes, the clock and logging, which do input and output only; the queues and
-- the shutdown of the server, the client's requests in flight, the fields of JSON-RPC envelopes, events,
-- session reports, commands, artifacts, environments and harnesses; the mock gateway and control plane,
-- the conformance runner and the commands, which drive the packages above. In `Execution` the encoding
-- of a response enters by its answer, with the fact that a response contains its result.
pub mod Common
pub mod Protocol
pub mod Provider
pub mod Mock
