-- ===== src/Lib.antt =====
-- The ingest authority, the run monitor, the cutting of sources and the evidence of answers of knoarbor,
-- a local-first knowledge base, as a library of definitions and theorems.
--
-- The program takes in documents and sessions. A vault's SQLite store (src/knoarbor/runtime/
-- transactional_ingest.py) is the authority on ingest tasks, their attempts and leases, the heads of
-- sources and the epoch of the derived indexes. Workers claim tasks from it, hold a lease, publish
-- revisions under it and finish. Other workflows run through src/knoarbor/runtime/queue.py and keep
-- their state in JSON files (src/knoarbor/runtime/run_monitor.py), which ingest attempts are
-- also shown as (src/knoarbor/runtime/ingest_run_projection.py). Model calls pass a pool of permits
-- (src/knoarbor/runtime/provider_permits.py), and failures are described by one taxonomy
-- (src/knoarbor/core/errors.py) that decides what may be tried again
-- (src/knoarbor/runtime/recovery.py). Before its ingest a source is cut into segments of bounded size
-- (src/knoarbor/pipelines/source_segmentation.py), one for each task of a model. After its publication
-- the index and the pages of the vault are rebuilt (src/knoarbor/storage/materialization.py), in
-- rounds that the store fences. A question finds evidence, which is selected by its exact spans
-- (src/knoarbor/retrieval/evidence_selection.py) and offered to the answer as quotable spans
-- (src/knoarbor/services/chat_support_spans.py).
--
-- Files and code:
--   Prelude, Prelude/*    names of the libraries, tests on numbers and texts, lists, results
--   Text, Text/*          the operations of `str` that the program calls; Ink and Edges prove what cutting
--                         and stripping a text keeps of its characters that are no white space
--   Table                 a SQL table as a list of rows under keys: the statements that the store uses
--   Json                  JSON values, `dict.get`, `isinstance` and truth tests
--   Errors, Errors/*      core/errors.py: classes, `describe_exception`, `error_info`
--   Ingest/State          the tables of the store, a record for each row
--   Ingest/Tasks          `submit_command`, `claim`, `renew`, `request_cancel`, `fail_queued_task`
--   Ingest/Recovery       `recovery_assessment`, `admit_recovery`, `finish`,
--                         `_reap_expired_attempts`, `dispatchable_tasks`, `set_ingest_paused`
--   Ingest/Materialize    `request_`, `begin_`, `prepare_`, `finish_` and `fail_materialization`
--   Ingest/Publish        `publish_revision`
--   Ingest/Purge          `purge_source`, `replace_revision_manifest`
--   Ingest/Migration      `_resume_v5_migration`, `complete_v5_migration`
--   Ingest/Readers        `revision_manifest`, `attempt_projection` and other reads
--   Ingest/Executor       `_finish` and `_failure_payload` of runtime/ingest_executor.py
--   Ingest/Summary        `_result_summary`
--   Ingest/Session        runtime/ingest_session.py: the lease and its renewal
--   Ingest/Execution      `_execute_claimed`; its children prove what an attempt does and how
--                         it ends
--   Ingest/Claiming       `execute` and its handlers; its children prove which calls of the store
--                         it makes and what it answers
--   Ingest/Materializer   `VaultMaterializer.reconcile` over the store; its children prove what it leaves
--                         published, how it recovers, and which calls of the store it makes
--   Ingest/History        a call of the store as data, one step, and a run of calls from a new vault
--   Ingest/*              the other files prove: Outcomes what a call that returns has found, Consistent
--                         and Invariant the tie of tasks and attempts, Epochs and Fencing the leases,
--                         Writes, Kept and Stopping what no call undoes in the tasks, Freshness and Rounds the
--                         materialization, Heads, Windows, Added, Inputs and Republishing
--                         publication, Erasing the purge
--   Run/State             core/schemas/run_monitor.py
--   Run/Monitor           `start`, `queue`, `heartbeat`, `event`, `complete`, `partially_fail`
--   Run/Endings           `fail`, `request_cancel`, `_reconcile_stale_record`
--   Run/Listing           `read_run`, `read_run_events`, `list_runs`
--   Run/Payload, Display  `_event_safe_payload`, `_compact_display_text`
--   Run/Queue, Policy     `_execute_task`; runtime/result_policy.py and runtime/recovery.py
--   Run/Projection        `_project_attempt`
--   Run/*                 the other files prove: Log and Trace the numbers of events, Closing and Ends
--                         the end of a run, Cancelling, Stale, Listed, Retrying and Shown
--   Provider/Permits      `ProviderPermitPool` as a relation of the steps of its threads
--   Provider/Cooldown     `impose_cooldown` and runtime/provider_control.py
--   Sources/Document      core/schemas/sources.py
--   Sources/Printing      `json.dumps` and `str` of JSON values
--   Sources/HardSplit     `_hard_split_text`
--   Sources/Packing       the loop that gathers items in groups until one finds the group full
--   Sources/Blocks        `_Block`, `_split_oversized_block`, `_paragraph_blocks`, `_section_blocks`
--   Sources/Headings      the pattern of headings as a scan of the lines, and `_heading_blocks`
--   Sources/Turns         `_turn_blocks`, `_split_oversized_payload_block`, `_split_oversized_unit`
--   Sources/Outlines      `_pack_blocks`, `_segment_outlines`, `_dedupe`
--   Sources/Fragment      `_segment_document`, `_merged_payload`
--   Sources/Segmenter     `SourceSegmenter.segment`; Segmenter/Kept and Segmenter/Sized prove what the
--                         segments keep and how long they get, Turns/Grouped which messages a block holds
--   Chat/Spans, Catalog   services/chat_support_spans.py; Ranges, Lines and Quoting prove what the spans
--                         cover and quote
--   Chat/Evidence         retrieval/evidence_selection.py; Selecting proves what it selects
--   */Tests               concrete runs at which the theorems apply
--
-- State and operations. A transaction of the store is a function from the store to a result and the
-- new store; an error carries no store, as the transaction is rolled back. `begin immediate` makes
-- transactions follow one another, so a history is a list of calls. An operation of the monitor is a
-- function on the two files of a run. The lock of a monitor is its own, and that of a file covers
-- one write or the reading and appending of an event: what other monitors do between the read of a record and its
-- write, or between two writes, is an argument of the operation, and Run/Trace lets it be any history, and takes
-- the other operations apart. The threads of the permit pool interleave at the steps under its lock; a reservation
-- that has ended leaves its semaphore to the contexts that threads copied. `heartbeat_over` and
-- `request_cancel_over` are the operations of the monitor, `heartbeat` and `request_cancel` their cases in which
-- nobody writes between the read and the write; `event` of two steps is taken apart into a report and a line of the
-- log where others come between. Each reading of the clock is an argument, and so are the names that `uuid4` draws; a name that is taken breaks a key, as it would in SQLite. The loops run over
-- the rows, the lines or the characters that they read. Two run on fuel: the cutting of a text has one
-- step more than the text has characters, which is enough since each cut removes one, and a number n
-- has fewer than n + 2 decimal digits. A reconciliation of a vault takes
-- what the index and the pages answer, and the calls that others make meanwhile, as arguments. An
-- execution of a task takes the calls of the store that its service and others make, and how the service
-- ends, as arguments, and what it does around them is the code's.
--
-- Representation. Times and delays are natural numbers of one unit, session indexes natural numbers,
-- and a timestamp that `fromisoformat` refuses is `none`. JSON columns are their parsed values, with
-- natural numbers only. What `json.loads` gives for the text of a chat is an argument, what `str` gives
-- for a list or a dict and what `int` gives for a text are parameters, and so is which characters `\d`
-- matches. Texts are sequences of code points; the raw index of a message is read from digits of ASCII.
-- The order of rows is that of their insertion, which stands for the order by
-- `created_at`. The SHA-256 digest of the active facts is a parameter, applied to the selected rows,
-- and the hash of a command an argument.
--
-- Not modelled: the preflight and the schema of the v4 migration, file paths, locks and JSON on disk, logging, the
-- timer of the heartbeat thread, the worker threads, the building of indexes and pages, what
-- the service of an execution does itself, and the rest of the program, which calls models, reads sources or
-- shows results.
pub mod Prelude
pub mod Text
pub mod Table
pub mod Json
pub mod Errors
pub mod Ingest
pub mod Run
pub mod Provider
pub mod Sources
pub mod Chat
