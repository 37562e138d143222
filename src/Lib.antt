-- ===== src/Lib.antt =====
-- A model of younggeul, a simulator of the apartment market of Seoul, and theorems on it.
--
-- A simulation runs in rounds over a world of districts (segments) and participants. In each round
-- the participants' policies propose actions, and the resolver turns the actions into trades, new
-- prices and volumes, and the deltas that are published as an event. Events go to an event store;
-- the web service keeps its runs in a run store.
--
-- The application's files are below apps/kr-seoul-apartment/src/younggeul_app_kr_seoul_apartment.
--   State     core/src/younggeul_core/state/simulation.py: the data models and their validators
--   Rounds    simulation/schemas/round.py: the decision context, the deltas, the round's payload
--   Resolver  simulation/nodes/_resolver_math.py, `pure_resolve_round`: Buckets is its first loop,
--             Clearing the numbers of a segment, Matching the loop over the buyers, Round the whole
--   Simulation  simulation/graph.py, the loop over the rounds, with nodes/participant_decider.py,
--             nodes/round_resolver.py and nodes/continue_gate.py
--   World     simulation/nodes/world_initializer.py and schemas/participant_roster.py: the
--             segments and the participants that a simulation starts with
--   Evidence  simulation/evidence/store.py: the evidence store
--   Report    simulation/schemas/report.py: the claims of a report and the rendered report
--   Reporting  the nodes after the loop, in simulation/nodes: Summary is round_summarizer.py, Build
--             evidence_builder.py, Write and Writer report_writer.py, Gate citation_gate_node.py,
--             Render report_renderer.py; the other modules are named for what they prove
--   Replay    simulation/replay/engine.py: the state of a run, rebuilt from its events
--   Policies  simulation/policies: the five heuristic policies and their registry
--   Events    simulation/events.py and event_store.py: Memory and File are the two stores
--   RunStore  web/run_store.py: the runs of the web service and their states; History is the calls
--             in overlapping steps, since reconcile_stale_runs takes no lock
--   Gold      core/src/younggeul_core/state/gold.py: the metrics and the forecast of a district
--   Forecaster  forecaster.py: the baseline forecasts of the districts
--   Snapshot  core/src/younggeul_core/storage/snapshot.py and snapshot.py: the manifest, and the
--             snapshots that are published and resolved
--   Retry     core/src/younggeul_core/connectors/retry.py: the retry loop of the connectors
--   RateLimiter  core/src/younggeul_core/connectors/rate_limit.py
--   Regions   canonical/regions.py: the districts by code and by name
--   Geography  simulation/domain/gu_resolver.py: the districts that a hint names
--   Floats    Python's float as a parameter, with the laws of comparison that are used
--   Errors    Python's exceptions as values; Prelude: what the modules share
--   Examples  concrete inputs, on which the code is run and the theorems are applied
--
-- Numbers: a Python `int` is an integer without bound (ℤ in Prelude/Int, or ℕ for a count), as in
-- Python. A `float` is an abstract type: nothing is assumed of rounding, so no theorem depends on
-- it. A `dict` is the list of its items in insertion order, and a `Literal` of texts a data type.
-- Loops are structural recursion over the lists that they walk; the graph's loop alone has fuel, a
-- number of rounds, and as much as is left up to `max_rounds` is enough. Fresh ids and the clock are
-- arguments, and so are SHA-256, the JSON texts, the validation of a payload, and the formatting of
-- floats, of instants and of unknown titles. A directory of snapshots is a `dict` of directories, and
-- a race of two processes on one is left out, and so is one of two writers on the temporary file of
-- one run. The names of the files of the event store are taken to be distinct for distinct run ids,
-- which the ids that the program makes, UUIDs, are; a JSON text has no carriage return of its own.
-- The exceptions of the pause in Retry are values, those of time.sleep by a parameter.
--
-- Not modelled here: the limit that the graph library puts on the number of its own steps, which the
-- code leaves at its default; the intake and the scenario nodes, which prompt a language model; the
-- transforms of the public data; the readers of snapshots; the command line, the web pages, the
-- connectors, the language model and the metrics, which are input and output.
pub mod Prelude
pub mod Errors
pub mod Floats
pub mod Snapshot
pub mod State
pub mod Rounds
pub mod Replay
pub mod Report
pub mod Reporting
pub mod Resolver
pub mod Evidence
pub mod Events
pub mod RunStore
pub mod Gold
pub mod Policies
pub mod Retry
pub mod RateLimiter
pub mod Regions
pub mod Geography
pub mod Simulation
pub mod World
pub mod Forecaster
pub mod Examples
