-- ===== src/Lib.antt =====
-- A model of bytewax, the stateful stream processor on timely dataflow, with the theorems that make
-- its parts correct.
--
-- The stateful operators keep, for each key, a logic that items and timers awaken. The logic of the
-- windowing operators puts the items of its key into windows: a clock gives each item its time and
-- keeps a watermark, a windower says which windows an item falls in and which have closed at the
-- watermark, and a window logic accumulates the items of one window. The operators run on buffers
-- and notificators that let them work epoch by epoch.
--
-- Which file models which part:
-- - Prelude: Boolean tests, lists, integers, machine words, and maps and sets in the order of keys.
-- - Window/Types: the shared types of src/window/mod.rs; Window/Compare: `__richcmp__`.
-- - Window/Sliding: `SlidingWindower` of src/window/sliding_window.rs and the builder of
--   src/window/tumbling_window.rs. Defs has one function for each method (`insert` is `insert_item`);
--   Opened and State are about `insert_item`, Closing about the windows that close.
-- - Window/Session: `Session` and `SessionWindower` of src/window/session_window.rs.
-- - Window/Clock: `SystemClock` and `EventClock` of src/window/clock.
-- - Window/Logic: the traits `Clock`, `Windower` and `WindowLogic` as records, `WindowStatefulLogic`
--   of src/window/mod.rs over them, and the fold of src/operators/fold_window.rs. Laws says what the
--   operator relies on a windower for; Window/Sliding/Laws is about the sliding windower as one.
-- - Stateful: the state, the awakenings, the snapshots and the loads of src/operators/stateful_unary.rs,
--   and its work on one epoch. Activation has the whole activation, Ordering is about its epochs.
--   Waits is about what the buffers hold. Unary has one epoch of `unary` of src/operators/mod.rs and
--   its choice of epochs, UnaryLoop its activations, one after the other; Scheduled, Callbacks, Notify
--   and Epochs are about an epoch, Pending, Working and Steady about the activations.
-- - Worker: `worker_main` and `build_production_dataflow` of src/worker.rs, with the operators of
--   src/dataflow.rs. Flow has the dataflow as it is read from Python, Graph the timely operators and
--   `StreamCache`, Compile the loop over the steps, Run the loop of the worker; Order, Wiring, Compiled,
--   Valid and Collected are about what is built.
-- - Operators: `branch`, `extract_key`, `wrap_key`, `flat_map_batch` and `inspect_debug` of
--   src/operators/mod.rs, with `buffer_notify` of src/timely.rs; Epochs is about what they send.
-- - Recovery: the tables of a recovery partition, their writers, `resume_from`, the commit and the
--   frontier operator of src/recovery.rs. The queries are folds over the rows of a table. Load has the
--   loaders, Snaps the way of snapshots to a partition and back; Paging, Store and Latest are about it. Bundle has the
--   files of the store and the cache of its partitions, Calc the operator that gathers the progress;
--   Cache, Fresh and Created are about them.
-- - Timely/Buffer, Timely/Notificator: `InBuffer` and `EagerNotificator` of src/timely.rs; Rounds is
--   about what `for_each` runs.
-- - Timely/Primaries: `calc_primaries` and `assign_primaries`; Balance is about its assignments.
--   Timely/Routing: `partition` and `route`; Timely/Parts: the parts of `partd_write`, `partd_load` and
--   `partd_commit`. Assignment and Delivery are about how these work together.
-- - Inputs: `partitioned_input` and `dynamic_input` of src/inputs.rs. Defs has what an activation does
--   to one partition, Startup and Activate the whole operator; Trace, Bounds and Init are about them.
-- - Outputs: `partitioned_output` and `dynamic_output` of src/outputs.rs; Epoch is about one epoch,
--   Safety about any row of calls.
-- - Examples: runs at concrete inputs.
--
-- Correspondence. A method that changes its object takes its state and returns the new one. A panic
-- is `none`. A `BTreeMap` is a list of its entries in the order of the keys. Instants and spans are
-- integers of nanoseconds; the ends of `chrono`'s range are hypotheses where they matter. The keys of
-- sessions wrap as `i64`, and the factor of the offset as `i32`, as in a release build. The system
-- time at a call is an argument. The functions of `chrono` and `num` that round, the unstable sort of
-- the standard library and the user's Python functions are arguments with their documented laws; an
-- instance of the laws is in Window/Sliding/Rounding, Examples/Sort and Examples/Arrange. The loop over
-- the batches of the snapshot loader runs on fuel, two more than the rows to load, and the loop over the
-- steps of a dataflow on one more than its operators, which is shown to be enough; the loop of a worker
-- has as much fuel as it is given. All other recursion is on lists and counts.
--
-- Not modelled: the conversions to and from Python objects, logging, metrics, the wiring of the
-- recovery operators into timely's graph, the messages of errors, the errors of SQLite but for a
-- database that cannot be opened, the user's sources and sinks, which are arguments, and the set-up
-- of processes. The methods of a source may raise, which is a panic; the other functions of the
-- user, those of sinks and of the logics of the operators, are taken to return, except where a
-- definition says otherwise.
pub mod Prelude
pub mod Window
pub mod Timely
pub mod Stateful
pub mod Worker
pub mod Operators
pub mod Recovery
pub mod Inputs
pub mod Outputs
pub mod Examples
