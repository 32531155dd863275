-- ===== src/Lib.antt =====
-- CacheRoute: knowledge-aware request routing for language-model inference. A scheduler picks a
-- proxy (and a knowledge server) for each request; the proxy picks one of its instances, prepares
-- the knowledge that goes with the request, and queues it until the instance takes it.
--
-- Files, and what they model (paths from the repository's root):
--
-- Common: lists, dicts, texts, integers, sorting, and floats. A dict is a list of entries in
-- insertion order. Identifiers that the program only compares are numbers. A text is the list of
-- its code points. Floats are an interface, `Floats`, so that every definition runs on any type
-- that has the operations; where a theorem needs an order, it says so (`IsOrdered`: a total
-- preorder, and adding what is not negative takes nothing away, as for Python floats without NaN).
-- Common/Floats/Naturals.antt is the instance that the tests run on.
--
-- Proxy/Pool: `InstancePool` of proxy/resource/instance_pool.py. Pool/Types.antt has the dataclasses; Pool.antt has one function per
-- method: `upsert`, `heartbeat`, `report_resource_snapshot`, `begin_request`, `end_request`,
-- `remove` and `list_instances` (`list`). Each runs under the pool's lock, so each is one step, and
-- Pool/Calls.antt runs sequences of them in the order in which they took the lock. The clock is an
-- argument. The fingerprint of a capability object is a parameter: the program takes it from
-- core/instance_capability.py and only compares it. What `_resource_from_snapshot` makes of a
-- snapshot is an argument. Pool/Invariant.antt, Lifecycle.antt, Liveness.antt and Handshake.antt
-- hold the theorems. Pool/Report.antt is `build_pool_resource_snapshot`, and Pool/Admission.antt
-- its theorems.
--
-- Proxy/Strategy: `RoundRobinStrategy` and `LeastLoadStrategy` of proxy/strategy. `none` stands
-- for the RuntimeError on an empty list. Rotation.antt and Least.antt hold the theorems.
--
-- Proxy/Queue: parts of `QueueManager` of proxy/queue/manager.py. Task.antt has the task with the
-- keys of its trace that are read or written here. Predict.antt has the predictions of one task;
-- the regressors of proxy/metrics are an interface, `Predictors`. Reservation.antt is
-- `_reserve_ready_task` on the entries of one instance; Timeline.antt and Chain.antt hold its
-- theorems. Progress.antt is what follows a reservation: `_recompute_pending_from_now`,
-- the locked sections of `_mark_task_first_token_and_recompute` and `_mark_task_decode_end`, and the
-- test of `_wait_dispatch_turn`; Order.antt runs any sequence of these, and with Row.antt and
-- Turn.antt holds their theorems. Release.antt is `_mark_prepare_done_and_flush`, `_flush_prepared_to_ready` and
-- `_release_prepared_task_to_ready`: all of a flush runs under the instance's flush lock, so it is
-- one step. Its loop runs on fuel, one more than the tasks in the buffer, since every round but the
-- last releases one; Release/Loop.antt proves that it always ends by its own tests, and gives the
-- rule by which Conserve.antt, InOrder.antt and Bypass.antt (its notions in Fair.antt) prove what the
-- loop keeps. The inner
-- loop over released numbers has as much fuel as there are such numbers, and that is enough too.
--
-- Scheduler: ProxyPool.antt is `ProxyPool` of scheduler/resource/proxy_pool.py, with the calls in
-- ProxyPool/Calls.antt and the theorems in Listing.antt and Registered.antt. ControlPlane.antt has
-- the handlers of scheduler/resource/control_plane.py for proxies. KdnPool.antt is `KDNPool` of
-- scheduler/resource/kdn_pool.py with its handlers, and KdnPool/Registered.antt serves sequences of
-- requests and holds the theorems. CacheRoute.antt is
-- `_select_kdn` of scheduler/strategy/cacheroute.py with its overload test; its sort keys, tuples in
-- the code, are lexicographic comparisons (Common/Lex.antt). Choice.antt holds its theorems.
-- CacheRoute/Proxies.antt is `_select_proxy` with the history that it keeps, and Selection.antt holds
-- its theorems, by way of Windows.antt and Ranking.antt; Safe.antt says what is asked of a proxy
-- without the code's lists. The weights of the history and the rest of the proxies' numbers that the code makes
-- floats are of the type of floats; what the code only counts for its debug page is left out.
-- RoundRobin.antt is scheduler/strategy/round_robin.py, and RoundRobin/Independent.antt compares it with
-- the round robin of proxy/strategy.
--
-- Scheduler/KdnSync.antt is the comparison of scheduler/knowledge/kdn_sync.py, `diff_kdn_meta`, and the steps
-- of a refresh on the table of knowledge; KdnSync/Refresh.antt puts them together as `kdn_refresh_once` with
-- the index of every server. Both lists of alive servers and both answers of a server, to the request
-- for its index and to that for the difference, are arguments; a request that fails is `none`.
-- Scanned.antt, Comparison.antt, Applied.antt and Mirror.antt hold the theorems. Store/KnowledgeTable.antt is the
-- `KnowledgeTable` of store/knowledge_base.py that the refresh fills; Units.antt, Numbers.antt,
-- Changes.antt, over any sequence of changes, and Index.antt hold its theorems. The vector index is the list of the numbers it is built with.
--
-- Cacheroute: CacheOperation.antt is `CacheOperationTask` of src/cacheroute/cache/models.py with its
-- validation and `transition`, a failure being a value; Transition.antt and History.antt hold its
-- theorems, the latter over a relation of successful transitions.
--
-- Observation.antt is `CacheReplicaObservation` of the same file with its validation, `is_fresh` and
-- `from_legacy_kv_ready`, with the OverflowError that it does not catch; a time is a number of microseconds
-- since the year 1. Observation/Legacy.antt holds its theorem. Contracts.antt and
-- Contracts/CacheService.antt are src/cacheroute/contracts/v1: the requests' target and the answers,
-- with all that the validators of the answers' classes compare.
--
-- Trace.antt and Trace/Collector.antt are `TraceStage`, `RequestTrace` and `TraceCollector` of
-- src/cacheroute/observability. Trace/Calls.antt runs sequences of calls, whether they raise or not. The search for
-- cycles of references runs on fuel, one more than the references, and Walk.antt proves that it is enough;
-- Placed.antt, Acyclic.antt, Ordered.antt and Collected.antt lead to Export.antt.
--
-- KdnServer: Capabilities.antt is `CapabilitySnapshot` of kdn_server/gateway/capabilities.py with
-- `coherent_profile`. Gateway.antt is the state of `MockGateway` of kdn_server/gateway/mock.py and
-- the guard of its handlers from base.py; Gateway/Handlers.antt, Work.antt and Summaries.antt have the
-- handlers. An answer is built through the validators, so a handler that would build a refused one
-- raises; Refusals.antt, Reads.antt, Serving.antt, Writes.antt, Submission.antt and Workers.antt lead
-- to Calls.antt, which puts all requests together. Once.antt, Idempotency.antt and Refused.antt are
-- about two requests with one idempotency key and about keys that are refused.
--
-- Each Tests.antt applies the theorems beside it to concrete states.
--
-- Not modelled: the HTTP servers and clients, command lines, files, logs and user interfaces; the
-- regressions behind the predictions; the search in the table of knowledge; the changed copies of LMCache's
-- files under env; the traces of operations with their waiters; the queue manager's workers and the costs
-- it estimates, and the rest of the package src/cacheroute.
pub mod Common
pub mod Proxy
pub mod Scheduler
pub mod Cacheroute
pub mod KdnServer
pub mod Store
