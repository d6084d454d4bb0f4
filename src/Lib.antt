-- ===== src/Lib.antt =====
-- Verification library of baseplate.py: the retry policies, the batches and publishing loops of
-- the sidecars, the queues that feed them, message signing, rate limiting, the experiments, spans
-- and their tracing, metrics, the pool of Thrift connections, the file watcher, the secrets store,
-- configurations, service discovery and the lottery of the Python package `baseplate`.
--
-- The parts and how they interact. A service calls baseplate/lib/experiments to learn which variant
-- of an experiment a request gets; the client there logs bucketing events. Events and trace spans
-- wait in queues, from which a sidecar takes them, collects them in batches and posts each batch to
-- a collector, and it retries a post that fails by a policy of baseplate/lib/retry.py. A server
-- makes a span for each request, and child spans for its calls; observers follow the spans and
-- record them. The pool and the file watcher wait by policies of baseplate/lib/retry.py too; the
-- secrets store and the experiments read their files through the watcher.
--
-- Prelude holds what all share: Result for calls that may raise, Boolean tests, lists and bytes
-- over the native numbers, decimal numerals, and signed integers.
--
-- Retry models baseplate/lib/retry.py. RetryPolicy has a constructor for each class, `new` is
-- RetryPolicy.new, Attempts is the state of a suspended generator with its local variables, and
-- `advance` is `next` on it at a given time. Loop is `for ... in RetryPolicy.new(...)` around a
-- body, on fuel: one more than the number of attempts that a policy makes is enough. Rule
-- reasons about loops; Count, Deadline and Backoff are about the policies. Time is a number of
-- ticks, and a sleep takes exactly as long as was asked.
--
-- Sidecars models baseplate/sidecars/__init__.py (Batch, RawJson, TimeLimited),
-- baseplate/sidecars/event_publisher.py (V2, EventPublisher, Events) and
-- baseplate/sidecars/trace_publisher.py (TracePublisher, Traces). Batch is the interface of that
-- name, and its laws are filled for the two batches in RawJson.Laws and V2.Laws. Worker is the loop
-- that both sidecars run: an explicit list of turns stands for what the queue and the clock give.
-- Post has the results of a post and the counters of the metrics. The HTTP session is a parameter:
-- any sequence of results and durations.
--
-- Queues models MessageQueue of baseplate/lib/message_queue.py (Message) and EventQueue.put of
-- baseplate/lib/events.py (Events), through which a service hands events to a sidecar. The POSIX
-- queue and select are a parameter; Delivery names what is relied on. `put` and `get` run the loop
-- of Retry on fuel, since without a timeout they can wait forever; with one of b ticks, b + 2 turns
-- are enough if each attempt takes a tick. EventQueue.put does not wait, and two turns are enough.
--
-- Crypto models baseplate/lib/crypto.py and VersionedSecret of baseplate/lib/secrets.py; Secrets
-- models the rest of that file, on the watcher of FileWatcher. Shapes and Raising are about its
-- getters, Caching about the store that a request is given, with cached_property of
-- baseplate/lib/__init__.py. The digest and base64 are parameters, of which Rotation and Shapes
-- name what is relied on.
--
-- Ratelimit models baseplate/lib/ratelimit. Backend is the interface RateLimitBackend, Allowance
-- names its promise as laws, and Backends is about ratelimit/backends/redis.py and memcache.py.
--
-- Experiments models baseplate/lib/experiments. Value and Order are the JSON values and Python's
-- operations on them, Lower is str.lower, Dict the dicts in the order of insertion. Targeting is
-- targeting/tree_targeting.py: `create` is create_targeting_tree and `evaluate` the method of that
-- name. VariantSets is variant_sets. SimpleExperiment, R2 (with R2.Run) and Providers are
-- providers/simple_experiment.py, providers/r2.py with providers/feature_flag.py, and
-- providers/__init__.py with providers/forced_variant.py. Client is the class Experiments of
-- __init__.py; Client.Steps are its calls in any order, each of which meets a file and a clock of
-- its own.
--
-- Spans models TraceInfo, the spans and make_server_span of baseplate/__init__.py. The class of
-- observers is the interface SpanObserver, which Tracing fills with the observers of
-- baseplate/observers/tracing.py: Recording and Traced are about what is sent of one span, Sampling
-- about the tree of spans that comes from a request, and Recorder about BaseBatchRecorder, whose
-- senders and workers take steps in any order.
--
-- Metrics models baseplate/lib/metrics.py: the StatsD lines, Timer, and Batch with its counters.
-- Totals compares the counters with the increments, Flushes is about the datagrams.
--
-- ThriftPool models baseplate/lib/thrift_pool.py. `enter` and `exit` are the two halves of
-- `connection`, around its `yield`; Create and Connect are about the connection that a client gets,
-- Exit about its return, and Ownership about any number of clients, whose steps come in any order.
-- The loop of _create_connection takes fuel, and one more than the attempts is enough.
--
-- Config models baseplate/lib/config.py. Its root has the parsers of values, and Spec has
-- specifications, as a tree of callables, and parse_config. Leaves, Failures and Reading are about
-- the values of a configuration, its errors and the keys that a specification reads; Subkeys and
-- Groups about DictOf; Endpoints and Timespans about two parsers of values.
--
-- FileWatcher models baseplate/lib/file_watcher.py, with `get_data` and, in `init`, the constructor,
-- whose loop takes fuel: its timeout and 2 are enough.
--
-- Lottery models baseplate/lib/random.py: Bisection is `bisect`, on fuel that is the length of the
-- list. The loop of `sample` reads a list of tickets, and `ok none` means that it is still running.
--
-- Inventory models baseplate/lib/service_discovery.py, on FileWatcher, Lottery and the endpoints of
-- Config; Choosing is about the backend that a client is given.
--
-- Limits. JSON numbers in targeting are integers. Sizes and percentages are floating-point numbers
-- in the code: they are an arbitrary type with the operations that the code uses, on which nothing
-- is assumed but, in Metrics, that `==` tells sample rates apart. SHA-1, `str` of a value and
-- strptime are parameters too. Texts are lowered, and split into words, as ASCII.
-- Experiment start and stop times are whole seconds. Keys of a JSON object are distinct. Log lines
-- and metrics other than the publishers' counters are left out.
--
-- The transports of the pool, the file system, sockets, clocks and random numbers are parameters.
--
-- Not modelled: command lines, the configuration of components and HTTP headers; the clients,
-- frameworks, servers and the other observers, which are glue to third-party libraries;
-- RequestContext; generated Thrift code; and the other modules of baseplate/lib.
pub mod Prelude
pub mod Config
pub mod Crypto
pub mod Experiments
pub mod FileWatcher
pub mod Inventory
pub mod Lottery
pub mod Metrics
pub mod Queues
pub mod Ratelimit
pub mod Retry
pub mod Secrets
pub mod Sidecars
pub mod Spans
pub mod ThriftPool
pub mod Tracing
