-- ===== src/Lib.antt =====
-- AREMA (Python) runs LLM agents that analyse binaries. This library models six of its parts; they
-- meet only through session state and the memory store.
--
-- Memory (src/arema/memory): rows in scopes, behind a store port. `Memory.Models` is models.py and
-- errors.py; `Memory.Store`, `Memory.Query` and `Memory.Cursor` are backends/memory.py: a store is
-- the record `InMemoryStore` of its three dicts, and a method is a function from a store to a result
-- and a store. `Memory.Program` is a client of the store: calls, nested transactions, caught errors.
-- `Memory.Codecs` is codecs.py, and `Memory.Service` is service.py over any store port. Integrity,
-- Paging, Locking, Codecs/Chains, Codecs/Decode, Service/Bounds and Service/Degrade hold the proofs.
--
-- Registry (src/arema/registry): `Registry.Descriptors` is the agent descriptor of descriptors.py,
-- with what its constructor refuses, and the errors of errors.py. Of catalog.py,
-- `Registry.AgentChecks` is `_validate_agent` and what it calls, `Registry.ToolChecks` is
-- `_validate_tool` and `_validate_runtime_profile`, and `Registry.Builder` the methods of
-- `CatalogBuilder` that add and `_validate_registry_keys`. `Registry.References`, `Registry.Acyclic`
-- and `Registry.Reachable` are `_validate_references`, `_validate_acyclic_agents` and
-- `_validate_reachable_agents`, and `Registry.Graph` their sequence in `_validate_catalog`. Below
-- Acyclic, `Paths` says what a cycle is, `Steps` and `Moves` what each turn of the search keeps,
-- `Measure` what it lowers, and `Turns`, `Decide` and `Verdict` put these together; below Reachable,
-- `Covers` and `Decide` do so for the worklist.
--
-- Workbench (src/reverse_engineering/tools/workbench): `Workbench.State` is state.py,
-- `Workbench.Budget` is budget.py, the guard that ADK runs before every tool call, and
-- `Workbench.Thrash` is thrash.py, the monitor after a tool call and the advisor before a model
-- call. Their state is the session state, a dict of JSON values.
--
-- Runtime (src/arema/runtime): `Runtime.TurnLimit` is callbacks/turn_limit.py, with the turn
-- counters as a dict by agent; `Runtime.TokenUsage` is the sampling and the accumulation of
-- token_usage.py.
--
-- Recovery (src/reverse_engineering/tools/deobfuscation): `Recovery.Keys` and `Recovery.Plan` are
-- state.py, the classification that the deobfuscation loop works by, its parser and the reset;
-- `Recovery.ModelJson` is src/reverse_engineering/model_json.py. `Recovery.Cached` is
-- `_valid_cached_result` of upx.py, floss.py and dotnet.py, and `Recovery.Floss` the normalization
-- in floss.py. `Recovery.Gate` is src/reverse_engineering/agents/deobf_gate.py: `Outcomes` what the
-- tools came to, `Evidence` the envelope, `Summary` the summary, `Targets` the addresses to
-- decompile, `Facts` what is read and the tests for an exit, `Decide` the gate. `Kept`, `Turn`,
-- `Undecided`, `Decided`, `Loop`, `Reread` and `Raises` hold the proofs.
--
-- Evidence (src/reverse_engineering): `Evidence.Envelope` is the envelope of evidence_envelope.py,
-- with what its constructors refuse, its dump and its re-anchoring, `Evidence.Envelope.Parse` the
-- strict parser, and `Evidence.Envelope.Salvaging` the salvage. `Evidence.Flow` is
-- execution_flow.py, `Evidence.Verdict` verdict.py, and `Evidence.CleanText` the cleaning of texts
-- that the two share. `Evidence.Output` is the normalization of a stage's output in
-- src/reverse_engineering/agents/evidence_output.py. A validation error is `none`.
--
-- Prelude has what these share: dicts as association lists in insertion order (`Dict`), JSON values
-- (`Json`), integers (`Int`), the order of texts and blank texts (`Text`), a stable sort (`Sort`).
--
-- Parameters: base64 with JSON and ISO 8601 of a cursor (`TextCodec`, with a round trip as its law),
-- pydantic validation and upgrades (functions of a codec), uuid, the clock and SHA-256 (`Minting`),
-- the JSON decoder and its repair (`JsonTools`), `json.dumps` and `str` in the gate (`GateTools`),
-- floats (`Floats`), `str.lower`, regular expressions, line splitting and blake2s (`TextTools`), and
-- the store behind the service (`StorePort`). The instance of each that a witness uses is concrete.
--
-- Loops: following cursors takes fuel, and more than the number of matching rows is enough. The two
-- graph searches take fuel, and more than one turn for each agent and each listed sub-agent is
-- enough; that much fuel always gives a result. The deobfuscation loop takes its number of turns.
-- The other loops are structural.
--
-- Not modelled: the SQLite backend and its migrations, which are SQL; the checks of MCP servers in
-- catalog.py and `freeze` of the catalog builder; the critic of evidence_output.py and its part of
-- evidence_envelope.py; the diagram of a flow; the table and the prices of token_usage.py; the
-- format router and the gates other than the deobfuscation gate; the ADK agents and the runner; the
-- context compactor; the sandboxes, the tool wrappers and the intelligence clients, which are I/O. A
-- session state is taken to have `get` and `__setitem__`, as ADK's has, and the fail-open branches
-- for one that raises are left out. Floats in JSON are carried by their text. Texts that only a
-- person or a model reads (messages, directives, logs) are left out.
mod Prelude
pub mod Memory
pub mod Registry
pub mod Workbench
pub mod Runtime
pub mod Evidence
pub mod Recovery
