-- ===== src/Lib.antt =====
-- A verification library for CRT_Master, a program that watches market lines and liquidation events,
-- and keeps tamper-evident records of what it saw. It acts on nothing outside itself.
--
-- The parts and the files that model them (paths from the repository's root):
-- - radar/src/crt_radar/level_event_state_machine.py: Level. `Engine` is the object's fields,
--   `new` its constructor, `on_price` and `on_5s_close` its inputs, each giving the new engine and
--   the list of emissions that the code hands to `emit_callback`. Level.Checkpoint is
--   `snapshot_state` and `restore_state`. Level.Run feeds sequences of inputs.
-- - radar/src/crt_radar/run_ledger.py: Ledger (`records`, `validate`) and Ledger.Append (`append`,
--   `append_snapshot`, `append_process_event`). The file is its list of lines and whether the last
--   lacks a newline; a call that raises after its write leaves the line in the file.
-- - radar/src/crt_radar/liquidation_aggregator.py: Liquidation.Order (`normalize_force_order`),
--   Liquidation.Events (the tables of events and anomalies, `ingest_force_order`),
--   Liquidation.Sessions (the table of sessions and its operations; Commands runs sequences of
--   them), Liquidation.Overlap (`intervals_overlapping`), Liquidation.Intervals
--   (`merge_intervals`), Liquidation.Snapshot (`build_snapshot`), Liquidation.Verify
--   (`verify_snapshot`), Liquidation.Disk (`write_snapshot`, `load_verified_snapshot`). A table is
--   its rows in the order of insertion; an operation returns the store after it with what it
--   returns or raises, and a transaction that raises gives back the rows as they were, while lines
--   written to files stay. What the system raises in a call is an argument where a file or a row is
--   written (`Faults`, `Fault`), and an integer that SQLite cannot hold raises.
-- - radar/src/crt_radar/gpt_bridge_outbox.py: Outbox. The directory is its file names with their
--   texts; a file that another process links at the same time is an argument.
-- - radar/src/crt_radar/gpt_transport_boundary.py: Transport (the state of one delivery, its
--   validation and the three transitions, each with the token it draws as an argument),
--   Transport.Mirror (`ensure_pending_boundary_state`, `sync_transport_boundary`,
--   `persist_boundary_state` on a directory of state files). Transport.Moves has the abstract
--   delivery, idle, leased or done.
-- - radar/src/crt_radar/btc_transition_research_eval.py: Research (`evaluate_control_transfer_evidence`;
--   an early return with `_blocked` is a third outcome beside a value and an error).
-- - radar/src/crt_radar/deployment_posture_research_gate.py: Research.Posture, which calls Research.
-- - radar/src/crt_radar/plan_drift.py: Drift (the source of a condition and its evaluation) and
--   Drift.Plans (`evaluate_plan_drift`, its loops as passing on the counts).
-- - radar/src/crt_radar/runtime_freshness.py: Freshness. The file is its modification time, or none.
--
-- The ledger takes its snapshots from the liquidation aggregator through `verify_snapshot`. The transport boundary reads
-- the outbox that `enqueue_bridge_payload` fills.
--
-- Shared: Base (lists, integers, errors as values), Texts (white space, order), Json (what `json.loads` returns; a dictionary
-- keeps its insertion order, and reads give null for a missing key as `dict.get` does), Values (`==` and `<=` of such values), Floats and
-- Runtime (Python's float, number parsing, JSON text and the SHA-256 of canonical JSON as records of
-- operations, since they are not the repository's code; the laws assumed of them are the records
-- `FloatLaws`, `JsonLaws` and `HashLaws`, and Examples gives instances that meet them). The clock and fresh
-- identifiers are arguments. Texts of error messages are kept where they are constant. All recursion
-- is structural, so there is no fuel.
--
-- Not modelled: the remaining modules of the package (collectors, broker and transport adapters,
-- reports and research), file locking and crashes in the middle of a
-- write, a raw line that is written in part, and errors of SQLite beside the inserts of events and anomalies
-- and the key conflicts of sessions.

mod Base
pub mod Json
pub mod Texts
pub mod Floats
pub mod Runtime
pub mod Values
pub mod Level
pub mod Liquidation
pub mod Ledger
pub mod Outbox
pub mod Transport
pub mod Freshness
pub mod Research
pub mod Drift
mod Examples
