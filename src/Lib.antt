-- ===== src/Lib.antt =====
-- The realtime engine of obehy, which binds what vehicles report to the journeys of a timetable
-- and keeps the state of every journey: a model of its core, its polling, its outputs' views and
-- the registry of vehicles, with proofs.
--
-- The program. Connectors decode what sources say into observations, each a list of facts
-- (`src/obehy/realtime/facts.py`). The core (`core.py`) applies one observation at a time to the
-- state of a feed: it binds the vehicle to a journey by its trip key (`infer/keyed.py`) or by what
-- it shows (`infer/keyless`), opens the journey's instance, moves it through the timeline
-- (`timeline`), and returns effects, which the outputs write. At each tick it flags what has gone
-- quiet and brings the estimates up to date; when a new release of the timetable is active it moves
-- the live journeys onto it. The runtime polls the sources (`runtime/scheduler.py`,
-- `runtime/demand.py`), some of them through proxies (`runtime/egress.py`). From the effects and
-- the state, the outputs tell which reports are of one vehicle (`emit/pairing.py`) and which reports
-- stand for a journey (`emit/represent.py`). A report's vehicle is looked up in the registry, and
-- what is stated about a vehicle is ranked (`reference/`).
--
-- The files, with the code they model (paths under src/obehy/realtime, or src/obehy for reference):
--   Prelude    numbers, dictionaries (association lists; a key set again keeps its place), stable
--              sorting, the order of texts, and code that may raise (`Raises`: none is the
--              exception)
--   Model      facts.py and model.py: observations, bindings, instances, the state of a feed, effects
--   Index, Policy, Times   what the core reads of index.py, policy.py and times.py
--   Runs       runs.py: spans, part spans and schedule snapshots
--   Keyed      infer/keyed.py: `bind` with its window, its candidates and its choice
--   Fusion     timeline/fusion.py: the tracks and leads. Resolve: the call of a point
--              event, and `position_leads`. Points: `apply_point`
--   Platforms  platforms.py: the rows of station boards
--   Core       core.py. Context: `Context` and the operations of the timeline and of keyless
--              inference that the core calls. Vehicle: `_fix`, `_since`, `_set_vehicle`. Binding:
--              `_bind`, `_continued`, `_stale`, `_drop_unstarted`, and `continued` and `confirm` of
--              infer/keyless. Journey: `_open`, `_lifecycle`, `_leads`. Follow, Step and Observe:
--              `step`, from its end to its start. Cancel: `_cancel`. Upkeep: `refresh`,
--              `_arrived_unseen`, `estimate_all`. Rebase: `rebase`, `resolve`. Reach: the turns of a
--              worker as a step relation. The other files are proofs, named for what they prove.
--   Timeline   timeline/plan.py. Timetable: `Window`, `Timetable` and `Plan`. Build:
--              `build_plan`, whose stop zones are an argument. timeline/commit.py.
--              Brackets: the readings and their fixes. Placing: when a point was crossed, and
--              `terminus`. Commit: `commit`. History: `_placed` of
--              timeline/progress.py. Cut: `_cut`. Estimate: `monotone` of timeline/estimate.py, `merge` of
--              timeline/fusion.py
--   Runtime    runtime/scheduler.py and runtime/demand.py: backoff, ticks, and the plan of reads;
--              the token bucket of runtime/lookups.py; disk_guard.py with its loop in jobs.py
--   Egress     runtime/egress.py. Pool: `ProxyPool`. Requests: `_proxied`, the loop over the
--              attempts, and the cursors of `_since` and `_advance`
--   Emit       emit/pairing.py. Pairing: `Pairings` with `_drop` and `_close`. Tick: `observe` and
--              `changes`. Partners: `partners` and `cluster`. emit/represent.py. Represent: `shown`,
--              `run_position`, `one_source`, `vehicles_by_journey`, `representing`
--   Reference  reference/registry.py. Registry: `RegistryKey`, `_best`, `bound`.
--              reference/precedence.py. Precedence: `_rank`, `pick`
-- The files named Samples, Examples and Cases hold concrete inputs and runs on them.
--
-- How state corresponds. A method that changes the state in place is a function from the state to
-- the state and its effects. Instants are counts of microseconds, dates are ordinals, durations of
-- the policy are microseconds, and a comparison `a - b > c` is written `b + c < a`, as natural
-- numbers stop at zero. Coordinates and other floats are integers, which the core only compares or
-- passes on; a distance, a lateness or a likelihood is an integer count of a small unit, and a
-- share of a duration is an exact fraction, rounded to a microsecond as `timedelta` rounds (a half
-- to the even one), where the source goes through floats. A set is a list without repetitions, and
-- a `defaultdict` is a dictionary read with its default. A loop over a collection is structural
-- recursion, with two exceptions, which run on fuel: the loop of the disk guard, where one unit
-- more than there are stored days is proved to be enough, and the search of `cluster`, where one
-- unit more than twice the pairs is proved to be enough. What the proxies answer and how long that
-- takes is an argument of `proxied`, one moment for each attempt. The distance of two fixes is a
-- parameter of the pairing, and how an identifier's values compare is given with its scheme.
--
-- What is not modelled. The timeline and the scores of keyless inference are operations of a
-- record (`Engine`); two laws say that they never change which journey an instance is. The rules
-- of the time zone and the rendering of instants are a record (`Zone`), as they are data of the
-- system. Left out: the learned running times (`FeedState.hops`), caches, the parsing of policy
-- and manifest files, of the proxy list and of the vocabulary, the logs and metrics, the row
-- shapes of the outputs, the fetching and waiting of the runtime, and all input and output. The
-- exception for an instance without calls in `_arrived_unseen` is left out: such an instance
-- counts as not arrived.
pub mod Prelude
pub mod Model
pub mod Index
pub mod Policy
pub mod Times
pub mod Keyed
pub mod Runs
pub mod Fusion
pub mod Platforms
pub mod Timeline
pub mod Core
pub mod Runtime
pub mod Egress
pub mod Emit
pub mod Reference
