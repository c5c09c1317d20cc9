-- ===== src/Lib.antt =====
-- membox: a memory for coding agents, kept in SQLite. This library models the core of the Python
-- package under `src/membox/` and states what its parts guarantee.
--
-- The parts, and the file that models each. Paths are from the repository's root.
--   Store/Leases     src/membox/core/store/leases.py: the JSON ownership record of the lease.
--   Store/Meta       the `meta` table, as an association list.
--   Store/Queue      src/membox/core/store/queue.py: the table `ingest_queue`, whose rows go from
--                    pending to processing and then to done or failed, and the worker lease, which
--                    is one row of `meta`. The children hold the row lemmas, the claim, the counts,
--                    the runs of operations and the exclusion of a second worker.
--   Worker           src/membox/core/worker.py: `drain_queue`, which takes the lease, claims rows
--                    one by one, hands each to the agent and settles it. It is the client of
--                    Store/Queue.
--   Model            src/membox/model/schema.py: the enums and records of the memory lifecycle.
--   Store/Units      src/membox/core/store/memory_units.py: units with labels, sources and a status
--                    log. Tables holds the rows; Create, Moves and Sources the operations.
--   Store/Lifecycle  the same file: the lease of one project, a row of `meta`.
--   Triage           src/membox/core/triage.py: the gate that decides which trace becomes a unit.
--                    Shapes reads the text, Gate decides.
--   Consolidate      src/membox/core/consolidate.py: the plan of promotions, demotions, supersessions
--                    and archivals. Claims reads texts, Validate rejects, Detect pairs units, Plan
--                    puts the plan together. Apply runs its transitions through the atomic batch of
--                    Store/Units, as `membox memory consolidate` does.
--   Store/Traces     the same file: the traces of a history that wait for triage, and the decisions.
--   Checkpoint       src/membox/core/lifecycle.py: the run that triages the traces and extracts units
--                    under the lease of the project. It is the client of Triage, Store/Traces,
--                    Store/Units and Store/Lifecycle.
--   Chunk            src/membox/core/chunking.py and tokens.py: Tokens estimates, Markdown cuts a
--                    document at its headings, Split packs the paragraphs of a long section.
--   Graph            src/membox/core/normalize.py and, in src/membox/core/store/, documents.py,
--                    entities.py and relations.py: the names, the documents with their versions, the
--                    entities with their aliases, the relations with evidence and supersession. The
--                    other children hold the properties of each.
--   Retrieval        src/membox/core/store/retrieval.py and fts.py. Bfs is the traversal of the graph,
--                    Score the composite score, Knapsack the admission within a budget and Render the
--                    texts; Terms, Excerpt, Spans, Chunks and Search are the side of the chunks. It is
--                    the client of Graph and of Chunk/Tokens.
--   Agent            src/membox/core/agent.py: the ingestion of an extracted graph, and in Query the
--                    queries, with the outputs of Retrieval. It is the client of Graph and Retrieval.
--   Base             lists, texts and tests that the parts share.
--   Tests            the theorems at concrete stores.
--
-- How the code is translated. A table is a list of rows in the order of insertion with the counter
-- of its AUTOINCREMENT column. An operation that writes takes the store and returns the new one
-- beside its result; one transaction of SQLite is one function, and an error inside it, a value of
-- `Error`, leaves the store as it was. A lease is held as `parse_lease` reads it. Times are natural
-- numbers, in microseconds for leases; the clock is an argument. Scores are in hundredths. A set of
-- texts is a list without repetition. A test of a quotient of numbers is multiplied out.
--
-- Parameters: the extraction of a graph from a text; the agent of the worker with the world that
-- it changes; Unicode case folding and `str.lower`, SHA-256, the word characters and digits of regular
-- expressions; `datetime.fromisoformat` and the test of a path for existence; the comparator that
-- re-scores a plan; the vectors of embeddings with their dimension and similarity; floating-point
-- arithmetic; the rows and the ranking that the FTS5 index gives for a MATCH expression; the pull
-- of session files before a checkpoint. The share of a budget stands for the floor of its product
-- with the budget; a budget is a natural number.
--
-- Fuel: `drain_queue` runs on fuel for its `while True`; more fuel than the queue has rows is enough,
-- since a round settles one pending row and no round makes one pending. `show` has more fuel than a
-- number has digits, `show_commas` more than it has groups, and the round robin over the sources of
-- chunks as much as it may take rows, since a round takes one while there is one. A traversal is by
-- recursion on the hops that are left.
--
-- Not modelled: the listing of recent failures and the start of the worker process; the listings
-- of units and their search; the redaction of secrets; the packing of vectors; the dry run of a
-- checkpoint, distillation, the import of histories, the agent's files, chunks and memory
-- sections, migrations, remote services and the command line. Some of them are I/O; the others
-- stand beside what is modelled.
pub mod Base
pub mod Model
pub mod Chunk
pub mod Graph
pub mod Retrieval
pub mod Checkpoint
pub mod Agent
pub mod Triage
pub mod Consolidate
pub mod Store
pub mod Worker
pub mod Tests
