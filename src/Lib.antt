-- ===== src/Lib.antt =====
-- GrandLine runs software voyages: a Captain plans phases, a Navigator drafts a poneglyph for each, a
-- Doctor writes health checks, Shipwrights build, the Doctor validates and a Helmsman deploys. This
-- library models the core of the Python backend, under backend/app of the repository's src folder,
-- and proves properties of it.
--
-- The parts and their files:
-- - Common: tests on numbers, texts, lists, filters, membership and sorting, shared by all modules.
-- - Model/Voyage: models/enums.py, the `phase_status` map of models/voyage.py, `PhaseSpec`.
-- - Model/World: the rows of one voyage that the services read and write, the checkpoint cards, crew
--     actions and events, and the exception classes with their codes.
-- - Model/Exec: service methods as functions on the rows that return or raise.
-- - Plan/Spec: `VoyagePlanSpec` of schemas/captain.py, with Kahn's algorithm on a queue.
-- - Plan/Layers: `topological_layers` of crew/pipeline_graph.py. Plan/Placement and Plan/Progress
--     have the proofs.
-- - Plan/Kahn: proofs on the queue of `validate_plan_graph`, with the list of the nodes taken so far.
-- - Dial/Value, Dial/Config, Dial/Factory: JSON values, schemas/dial_config.py and
--     dial_system/factory.py.
-- - Dial/Limiter, Dial/Router: dial_system/rate_limiter.py and dial_system/router.py; an adapter is the
--     record of what it does with the one request that is routed.
-- - Services/Interventions: services/intervention_service.py.
-- - Services/Shipwright: crew/shipwright_graph.py (Iteration) and services/shipwright_service.py (Build
--     has the rows that a build writes, Rounds the loop and `build_code`).
-- - Services/Helmsman: services/helmsman_service.py, crew/helmsman_graph.py and deployment/backend.py
--     (Records has the data and the pure steps, Deploying `deploy` and `rollback`).
-- - Services/LogBook: services/log_book_service.py.
-- - Services/Captain: crew/captain_graph.py and `chart_course` of services/captain_service.py.
-- - Services/Navigator: crew/navigator_graph.py, schemas/navigator.py and services/navigator_service.py.
-- - Services/Paths: `_validate_relative_path` of schemas/doctor.py.
-- - Services/Doctor: crew/doctor_graph.py, schemas/doctor.py and services/doctor_service.py (Input has
--     the reading of the poneglyphs, with `json.loads` as a parameter; Writing has
--     `write_health_checks`, Validating `validate_code`, Counting the test summary).
-- - Services/Publishing: what these services do in the same way behind a commit.
-- - Services/Cabins: the registry of services/cabin_service.py and its reaper.
-- - Services/Cards: services/vivre_card_service.py, with `cleanup` in Cleaning and the other operations
--     on the table in Listing.
-- - Pipeline/Guards: services/pipeline_guards.py.
-- - Pipeline/Stages: `_run_stage_with_guard` and the stage nodes of crew/pipeline_graph.py; the crew
--     services are the fields of the record `Crew`, which a run takes as a parameter.
-- - Pipeline/Building: the building node, layer by layer.
-- - Pipeline/Graph: the end nodes, the routing and a whole run.
-- - Pipeline/Service: services/pipeline_service.py.
-- - Mushi: the registry and the consumer loop of den_den_mushi/handlers.py, with the reads and claims of
--     den_den_mushi/mushi.py. A consumer's state is the list of commands that it sent to Redis and the
--     state of its handlers.
-- - Git/Shell: `shlex.quote`, and a reader of shell commands as an independent description.
-- - Git/Checks, Git/Desk, Git/Reading, Git/Service, Git/History: services/git_service.py. The state is the
--     two dictionaries of the service and the calls of the execution backend, with commands as texts.
-- - Cabin/Null, Cabin/Terminal: cabin/null_backend.py, one state for the Cabins and one for a terminal.
-- - Cabin/Preview: services/preview_service.py over `CabinOps`, the calls of the Cabins that it makes;
--     OverNull fills them with the null backend; the contract `CabinLaws` is in Laws, and Promise is
--     about the null backend under it.
-- - Voyages/Rows, Voyages/Orders: api/v1/voyages.py, services/standing_order_service.py and
--     api/v1/standing_orders.py.
-- - Voyages/Triggers: services/trigger_service.py and api/v1/triggers.py; HMAC and the JSON parser are
--     parameters.
-- - Voyages/Bottle: services/return_bottle_service.py and api/v1/return_bottle.py; the HTTP client is a
--     parameter.
-- - Deck/Pages: the two lists of api/v1/observation_deck.py, one for all users and voyages; Deck/Cursors:
--     api/v1/_cursor.py, with JSON, base64 and the formats of times and ids as parameters.
-- Modules named Tests or Examples, and Dial/Routing, hold concrete runs and instances of the theorems.
--
-- How they interact: `start` of Pipeline/Service checks a guard, resolves the concurrency by the
-- module Dial/Config and runs Pipeline/Graph; each stage loads rows of Model/World, asks
-- Pipeline/Guards whether its work is done already, and otherwise calls the crew. Other sessions
-- (the API) act between stages: a run takes a function `env` that gives what they have committed
-- when a stage begins.
--
-- A build drains the interventions of its phase before each iteration. The language model, the parser
-- of its answers, the sandbox, git and the deployment backend are parameters; the services of the crew are
-- modelled on their own, and the pipeline takes any crew. Where a property of a run relies on the
-- crew, the record `CrewLaws` of Pipeline/Graph/Validated is the contract, and
-- Services/Helmsman/Contract fills it. The guards of Pipeline/Guards are also the measure of what
-- the Navigator and the Doctor leave behind.
--
-- Redis and the execution backend answer by the commands that they got so far, and may answer
-- anything; commands to Redis are taken to succeed, those to the backend may raise. The operations
-- of the git service follow one another: what two calls at the same time do is not modelled.
--
-- What is left out: texts of messages and the values of clocks outside of the rate limiter, whose
-- times are natural numbers; the code of an error and the stage are kept. Ids are numbers. A
-- dictionary is an association list, or its keys with a function. A commit to the database is taken
-- to succeed; a publish may fail, by the test `up` of the bus, and is then dropped, or raises in
-- the Dial router, as in the code. The tasks of one layer of a build take effect one after the
-- other, in an order that is a parameter: each has a session of its own, which it commits at its
-- end or rolls back when it is cancelled. The semaphore that bounds how many run at once is not
-- modelled.
--
-- Bounds: `topological_layers` and the queue of `validate_plan_graph` recur on fuel, one unit for
-- each phase number of the plan, since each round takes at least one number away. The loop of a
-- build recurs on the number of iterations left, of which there are three. The loop of a consumer has
-- no end in the code; here it runs for any number of rounds.
--
-- Not modelled: the HTTP API other than the handlers named above, the provider adapters, the containers,
-- the accounts and their credentials, and the database schema, which are mostly input and output;
-- `create_pr` of the git service, the best-effort commits of the Doctor and the
-- Shipwright to git, the metadata of a poneglyph, and the reads of rows for the API. Characters are
-- ASCII where the code asks for white space, digits or line ends.
pub mod Common
pub mod Model
pub mod Plan
pub mod Dial
pub mod Services
pub mod Pipeline
pub mod Mushi
pub mod Git
pub mod Cabin
pub mod Voyages
pub mod Deck
