-- ===== src/Lib.antt =====
-- monty-pod: the agent on a rented GPU pod. It claims jobs of the control plane over one durable
-- stream, runs them, and reports events and results back over it.
--
-- podagent/event_stream.py keeps an outbox, a dead letter and an inbox of jobs in one file, which it
-- replaces as a whole. A frame is appended durably before a socket may write it, it leaves by the
-- control plane's ACK or into the dead letter, and a job is in the inbox until its result is in the
-- outbox. podagent/stream_models.py validates what goes over the wire. The jobs run ops; those that
-- saturate the GPU pass the admission of podagent/ops/gpu_admission.py, which books VRAM in arrival
-- order.
--
-- Common: tests, lists, equality and Python dicts, shared by all parts.
-- Agent: podagent/main.py. Coordinator is `RestartCoordinator` with `_drain_pending`, Flips the guard of
--   restarts (`_flip_history`, `_record_flip_or_refuse`), Dispatch what `_dispatch_loop` does with a
--   claimed job, Loop its turns and their exceptions, Ending what `main` does after the loop. The polls,
--   the exceptions of calls, the reading of an envelope and the changes by other threads are arguments.
--   Claims, Refusal, Caps and Stopped are about the loop and the ending, Labels and Drained about the
--   drain, Hourly about the guard.
-- GpuAdmission: podagent/ops/gpu_admission.py. The critical sections of `reserve`, `release`,
--   `admission`, `budget_mib` and `refresh_budget` are functions on the `Ledger`; GpuAdmission.System
--   interleaves them in any order. The readings of the card and of the clock are arguments.
-- StreamModels: podagent/stream_models.py over podagent/wire_generated.py, and `PodJob` of
--   podagent/models.py. Fields that no modelled code reads stand in one text, `rest`.
-- EventStream: podagent/event_stream.py. Frame, State, Append, Settle, Intake, Connection and Restart
--   hold the critical sections of `class EventStream` (`_append`, `_append_bootstrap_head`, `_settle`,
--   `_accept_job`, `_reject_invalid_job`, `claim`, `_ensure_open`, `_load`, the constructor); what the
--   disk answers to a durable write is an argument. History is the relation of all steps, with crashes
--   and restarts; Invariant, Sound, Moves and the Keep modules carry its invariant, the Closed modules
--   that of a latched verdict, Accounting, Conservation, Handout, Receipts and Recovery the behaviour
--   of the operations.
-- Transfer: podagent/cp.py. Ranges cuts a parallel download into parts (`_range_bounds`); Download is
--   the loop of `download` over its three attempts, with the answers of the origin as arguments.
--   Integrity states the rules of HTTP that an origin keeps, Whole what a download then yields. Ranged
--   is the parallel download (`_ranged_worker`, `_download_ranged`); its workers run in the order of the
--   parts, each writes at its own place. Placed, Assembly and Served are about the file that they make.
-- ResultCache: podagent/ops/resultcache.py. Hits is about `execute`, Eviction about `prune`; the digest
--   is an argument.
-- InputCache: podagent/ops/inputcache.py. Balance is about the account of the pruner (`_Account`), Batch
--   about the choice of what to evict (`_oldest_batch`), Evict is the eviction against the disk
--   (`_evict`); the slots that other threads lock and those that cannot be removed are arguments.
--   Evicted, Untried and Fits are about what it keeps and leaves. Load is `_Account.load`, with Reconciled about
--   it; the order of a set is that of a list. Retention is the retained set (`release_superseded`,
--   `adopt_local`), Ceiling about its bytes.
-- OpRunner: podagent/ops/runner.py, podagent/ops/registry.py and the chain of ops of podagent/models.py.
--   Envelope has the validators of `OpBinding`, `OpStep` and `OpChain`, Registry the loading of the op
--   declarations, Preflight `preflight_chain`, Binding `_bind_inputs`, `assert_output_arity` and
--   `_bind_outputs`. Schedule is the loop of `run_chain` with `_drop_dependents_of_failed`, Drain the
--   deferred PUTs (`_PutDrain`, `_sibling_url_readers`) and the terminal. What a step's handler gives,
--   which running step comes back first, and how PUTs end are arguments. Dag and Sound are about
--   `_dag_is_sound`, HandOff about what preflight promises the binding, Dropping, Completing, Progress,
--   Unput, Waiting and Terminal about how a chain ends. The order in which Python iterates over its sets is that of lists.
-- InferLanes: podagent/infer_lanes.py and `_width_from` of podagent/infer_cliprank.py.
--
-- Numbers are natural numbers: MiB, seconds and sequence numbers of the source are not negative. The
-- loops recurse over the lists that they read, `retry` over the attempts that are left (three). The
-- loop of a chain has one round for each step and a last one, the check of its dag one round for each
-- step, the dropping of dependents one round for each waiting step; the drain before a restart one
-- round for each tick of its deadline and one more, and the eviction of the input cache one for each row
-- of the account and one more.
--
-- Not modelled: sockets, threads and clocks; the preflights of the card and the boot; the sender loop,
-- its windows and its delivery deadlines; the render, infer and op code that the agent runs; the rest of
-- the input cache, the uploads, the timings of ops, and the interleaving of the workers of a parallel
-- download.
pub mod Agent
pub mod Common
pub mod GpuAdmission
pub mod StreamModels
pub mod EventStream
pub mod Transfer
pub mod InferLanes
pub mod ResultCache
pub mod InputCache
pub mod OpRunner
