-- ===== src/Lib.antt =====
-- Kiro Fabric: a verification library for parts of the TypeScript program under src/.
--
-- Kiro runs a checked program that calls tools. Every call goes through the action registry
-- (src/core/action-registry.ts), which checks it, charges its audit, claims what it writes, asks for
-- approval, and bounds what it returns. Large results are kept for later pages by stores with
-- quotas; Navigator's is src/fovea/result-store.ts,
-- that of tool catalogs src/core/catalog-snapshot-store.ts, that of whole outputs src/kiro/artifacts.ts.
-- What a program returns is projected to a bounded text (src/kiro/projection.ts), and programs are
-- compiled by a pool of workers (src/runtime/compiler-pool.ts). Budgets are met by a binary search
-- (src/bounded-search.ts) and by a scan of the escaped text (src/runtime/json-budget.ts).
--
-- - Registry: src/core/action-registry.ts. Registry/Invocation has the data, Registry/Invocation/Steps
--   the handlers: `invoke` cut at its awaits (begin, on_described, on_prepared with dispatch,
--   on_reserved, on_approved, on_invoked, on_released, on_cleaned), its catch and finally blocks
--   (fail, finish), and `step`, which hands an event to the call that waits for it. Moves, Agreement
--   and Handlers reduce each handler to one of a few moves of a lock table. Resources has `overlaps`.
-- - ResultStore: src/fovea/result-store.ts, with put, page, search, revoke, clear and the sweep.
-- - Catalog: src/core/catalog-snapshot-store.ts. Catalog/Graph has the `walk` that validates an
--   inventory, Catalog/Store prune, reserve with its eviction loop (fuel: one round more than there
--   are snapshots, and a round deletes one), depend and release, Catalog/Publish publish,
--   Catalog/Cursors token and authenticate, Catalog/Pages catalogPage and describePage. A reservation
--   handle is a value that the calls take and return.
-- - LocalEdit: src/providers/local-edit.ts. The inner loop over occurrences has fuel, one round more
--   than the text has units, and each round goes on behind the occurrence before it.
-- - SourceLimit: src/runtime/source-limit.ts, the limits of a program's source and payloads.
-- - Observations: src/fovea/observations.ts, the ordered prefix of facts that an execution reports.
-- - JsonBudget: src/runtime/json-budget.ts and boundedResult of the registry. JsonBudget/Preflight has
--   `preflight`, with a round of its loop for each value of the graph, and fabricJsonText.
-- - BoundedSearch: src/bounded-search.ts.
-- - Trace: src/trace/trace-writer.ts. Trace/Ring has LineRing, with its array as a function and its
--   loop of evictions on the number of lines; Trace/Ring/Queue the queue that it refines;
--   Trace/Writer the options, write, flush and close. What writes to the file and syncs return is an
--   argument; where a list of write results ends too early, the next write throws.
-- - Artifacts: src/kiro/artifacts.ts, with write, read, sweep, remove and close. Each call takes a
--   `Disk`, which says what the guard of the root, removals and the creation of a file do. The loops
--   that remove the oldest entry have a round for each entry.
-- - CompilerPool: src/runtime/compiler-pool.ts as steps: check, close, and the events of workers,
--   timers and signals (on_message, on_error, on_exit, on_stop, on_idle_timer, on_terminated). The
--   answer to a request whose worker is terminated waits in `retiring` for on_terminated.
-- - Projection: src/kiro/projection.ts. Projection has the cuts and the recovery receipt,
--   Projection/Project the notes and projectFabricExecutionText, over the operations of a store.
-- - Deadline: src/runtime/deadline.ts without its shared state.
-- - Prelude: lists and tests on numbers, errors as values, and JavaScript strings as lists of UTF-16
--   code units with slice, indexOf, surrogates and literals.
--
-- Ids, names and digests are numbers that are only compared; random ids, clock readings and what
-- awaited code returns are arguments. Code that is not the program's own is a parameter: the
-- keyed digest of a cursor and the digest of declarations, JSON.stringify, UTF-8, localeCompare, the
-- decimals of numbers, and the JSON sizes of audits and of a truncation envelope.
-- The loops recur on the list or text that they walk, on a client's clock readings, or, in the binary
-- search, on the length of the interval, which every round shortens.
--
-- Not modelled: descriptors and discovery of the registry, file and process I/O, the QuickJS runtime
-- and the compiler, the value of a result as JSON and the errors of formatCatalogResult, the MCP
-- transport and Navigator's ranking over floating-point weights.
pub mod Prelude
pub mod BoundedSearch
pub mod ResultStore
pub mod JsonBudget
pub mod Registry
pub mod Catalog
pub mod LocalEdit
pub mod SourceLimit
pub mod Observations
pub mod Trace
pub mod Artifacts
pub mod CompilerPool
pub mod Projection
pub mod Deadline
