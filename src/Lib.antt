-- ===== src/Lib.antt =====
-- zhongzhuan: the core of the relay between clients of the Responses and Chat APIs and upstream keys.
--
-- A request is served by a model of a group (`src/zhongzhuan/proxy/scheduler.py`) with one of the
-- upstream's keys, whose health (`proxy/ratelimit.py`, `proxy/retry.py`) decides whether it may be
-- used. A gate bounds how many requests run at once (`proxy/concurrency.py`). The answer is a stream of
-- bytes that is parsed into frames (`proxy/protocol/sse_parser.py`); fragments of tool calls are put
-- together (`proxy/protocol/tool_accumulator.py`), and the loop of rounds and calls is charged against
-- a budget (`responses_v3/budget.py`), whose exhaustion tears the response down. The client is sent the
-- events of an emitter (`proxy/protocol/responses_emitter.py`). A response may go on from an earlier one
-- (`responses_v3/chain.py`), may run in the background (`store/background_jobs.py`), and runs once for
-- an idempotency key (`store/idempotency.py`). Further paths are relative to `src/zhongzhuan/`.
--
-- Base: tests on numbers, lists, dictionaries as lists of entries in insertion order, signed integers,
--   decimal texts, JSON values.
-- Window: `SlidingWindow` of `proxy/ratelimit.py`. A clock reading is a number of ticks, a million to
--   the second; the deque of buckets is the older ones and the current one.
-- Health: `KeyHealth` and the functions of `proxy/retry.py`, one definition for each method or
--   function under its name. Health/Mark has the writers, Health/Classify and Health/Failure the
--   classification of failures, Health/Learn the limits that headers teach. What the code takes of
--   Python's text library (lower case, `int`, `float`, replacing decoder) is the record `Python`.
-- Sse: `SSEParser` of `proxy/protocol/sse_parser.py`, with Python's decoder, `str.strip` and
--   `json.loads` as the record `Codec`. `lines` runs on fuel, the buffer's length and one, which is
--   enough since each line takes a byte.
-- Scheduler: `pick_group_model`; the weight penalty is a float of any type, and the rounding of a
--   discounted weight a parameter. Scheduler/Swrr has `_swrr_pick`.
-- Budget: `ExecutionBudget`, `BudgetLedger`, `tool_signature` (Budget/Signature) and `CircuitBreaker`
--   (Budget/Breaker). The pipeline, the turn, the emitter and the store of a teardown are records of
--   functions on a state of theirs, which may return, raise or be interrupted.
-- ToolCalls: `ToolCallAccumulator`, `ToolCallCollection`, whose two dictionaries share accumulators
--   through references into a heap, and `split_namespace_name`. Base/Decimal prints a number on fuel,
--   one more than the number, which is enough since a division by ten makes it smaller.
-- Gate: `ConcurrencyGate` of `proxy/concurrency.py`, with its slot pools. Each request is a state of
--   its own, and a run is a sequence of events in any order; a timeout or a cancellation may come at
--   any point of the acquisition.
-- Emitter: `ResponsesEventEmitter` of `proxy/protocol/responses_emitter.py` and its states. A frame is
--   its event and its number; Emitter/Calls has the calls on it, in any order. What
--   `delta` writes is not looked into: an item that it announces is in none of the emitter's sets.
-- Errors: `proxy/protocol/responses_errors.py`, by name. The redaction by regular expressions is a
--   parameter.
-- Items: `proxy/protocol/item_registry.py`, by name.
-- Chain: `ChainResolver` of `responses_v3/chain.py` over the reads of `store/response_store.py`, which
--   are a record that Chain/Table fills. The loop runs on fuel, the depth that is allowed and one,
--   which is enough since every turn that goes on adds one to the depth. Chain/Ancestry says what a
--   chain is, and Chain/Whole what all of its items are, apart from the loop and its limits.
-- Jobs: `BackgroundJobStore` of `store/background_jobs.py`, a table as a list of rows. Jobs/Handouts
--   has its statements, which any processes run in any order, Jobs/Keeping what they do to a lease.
-- Idempotency: `IdempotencyStore` of `store/idempotency.py`, a table by its primary key.
-- EventLog: `EventLog` of `store/event_log.py`, the table of events as a list of rows. `json.dumps`
--   and `json.loads` are parameters.
--   EventLog/Catchup has `CatchupStream` of `responses_v3/catchup.py`.
-- Tests: runs on concrete inputs.
--
-- Not modelled: the network, the database and the asynchronous scheduler; the floats of `score` and
-- `pick_key` in `proxy/scheduler.py`; the translation between protocols, the background workers, the
-- administration, and of the storage what the chains, jobs and idempotency keys do not use.
pub mod Base
pub mod Window
pub mod Health
pub mod Sse
pub mod Scheduler
pub mod Budget
pub mod ToolCalls
pub mod Gate
pub mod Emitter
pub mod Errors
pub mod Items
pub mod Chain
pub mod Jobs
pub mod Idempotency
pub mod EventLog
pub mod Tests
