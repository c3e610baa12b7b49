-- ===== src/Lib.antt =====
-- A verification library for the control plane of orama-system.
--
-- The repository's control plane has seven parts that are modelled here.
--
-- Oramaclaw (src/oramaclaw/) applies a manifest of desired fields to the configuration of a gateway. An
-- apply takes the lock of the target, sweeps the pending records of failed transactions, reads the live
-- document, plans every resource against it and against the registry of what was written before, sends one
-- merged patch, and appends its outcome to the journal.
--   Oramaclaw/Json.antt        JSON values as Python sees them
--   Oramaclaw/Types.antt       types.py
--   Oramaclaw/Schema.antt      the checks of schema.py, on the document that a manifest file holds
--   Oramaclaw/Pointer.antt     extract_field and _spec_value of merge.py, _set_path of engine.py
--   Oramaclaw/Store.antt       ControlStore of store.py: registry, journal, pending records, archives
--   Oramaclaw/Lock.antt        _pid_is_alive, _acquire_lock and _release_lock of store.py
--   Oramaclaw/Merge.antt       plan_resource of merge.py, one definition for each group of its rules
--   Oramaclaw/Engine.antt      apply_manifest and _apply_locked of engine.py, cut at the calls that can raise
--   Oramaclaw/Engine/Walk.antt the loop over the resources, which the stale handler of engine.py repeats
--   Oramaclaw/Engine/Transport.antt  the gateway as replies to each call, and OfflineTransport of transport.py
--
-- Fleet (src/orama_system/) watches the peers of a mesh. Each file stands for itself: its callers, the
-- servers, are not modelled.
--   Fleet/Health.antt      fleet_health_monitor.py
--   Fleet/Recovery.antt    fleet_recovery_manager.py
--   Fleet/SplitBrain.antt  split_brain_resolver.py
--
-- Agents (bin/) runs a request through the stages of a plan.
--   Agents/Core.antt      bin/shared/oramasys_core.py
--   Agents/Stages.antt    bin/agents/orchestrator/orchestrator_logic.py
--   Agents/Plan.antt      bin/agents/orchestrator/task_schema.py, and _group_workers of dispatch_loop.py
--   Agents/Dispatch.antt  bin/agents/orchestrator/dispatch_loop.py, and OramaToPTBridge of bin/agents/dispatcher.py
--
-- Swarm (src/orama_system/swarm_approval.py) keeps the previews of launches, and gives each to one launch at
-- most: a claim takes a preview out, and its release or its end settles what becomes of it.
--   Swarm.antt         the previews, the approval tokens, and the operations under the lock
--   Swarm/Calls.antt   the operations as calls of one history
--
-- Jobs (bin/orama-system/skills/hermes-harness/scripts/) takes commands from an inbox into lanes, and hands
-- them out one by one.
--   Jobs.antt          what both scripts do: lanes, intake, order, pulse, completion
--   Jobs/Match.antt    the patterns that file names are matched against
--   Jobs/Mac.antt      mac_job_queue.py
--   Jobs/Win.antt      win_job_queue.py
--   Jobs/Unique.antt   the commands of both, as the command lines of main call them
--
-- Governance (src/orama_system/model_governance.py) plans launches of models, checks them against a policy
-- and asks for a proof before a gated one.
--   Governance.antt    all of it, save the loading of the file
--
-- Mesh (scripts/mesh/discovery_trust.py) decides which discovered peers are trusted, and moves a node from
-- one address to another.
--   Mesh.antt            known and revoked addresses, challenges, admission
--   Mesh/Endpoints.antt  the filter over discovered endpoints
--   Mesh/Migration.antt  announcements of a peer's new address
--   Mesh/Audience.antt   a node's own move: its audience, generations and acknowledgements
--
-- Base.antt passes on what all parts share: Boolean tests and lists over native numbers, dicts in insertion
-- order, Python's text operations, and JSON files that are read with a default. A module's children prove
-- what their names say; the Tests modules hold runs on concrete inputs.
--
-- State is passed explicitly: a method is a function from a store to a store, an exception is a value, and a
-- function that can raise is cut into one definition for each place where a reply decides. Of the lock one
-- step is one operation on the file, so that two processes can be interleaved.
--
-- Parameters. The SHA-256 fingerprint, the clocks, the time stamps, the transaction id, the gateway, the
-- operating system's word on a process and the runtime that answers an agent's call are arguments, and so are
-- hashes under a key, random ids and nonces, the texts of the environment, whether a text is an address, the
-- probe of a peer and the operator's answers. Equality of fingerprints is never taken for equality of values.
--
-- Bounds. Every loop is a structural recursion over the list that the source walks, or a recursion on fuel
-- that is named here. For the lock, a process alone gets fuel for four operations, which is create, check,
-- unlink and create. The journal is cut at 200 records. Times are in milliseconds, scores in three-
-- millionths, confidences in thousandths; JSON numbers are integers. int() is modelled on ASCII text.
-- Creating the lock file and writing its payload is one operation. Swarm, Governance and Mesh count whole
-- seconds. A preview lives for 300 seconds, and 32 are kept: the eviction gets as much fuel as there are
-- previews. Planning and checking a launch call each other, and two rounds of calls are enough where the id
-- of a controller names a Claude model. A number is printed with one more unit of fuel than its value. Texts
-- that a pattern or lower() reads are ASCII.
--
-- Left out: failing writes of the state files, other writers of these files, values that share structure,
-- texts of exceptions beyond those that a result carries, display forms (to_dict), logging. Of tasks that
-- fail together in a batch, the runtime says which fails first. Every call under the dispatch lock is one
-- step, a run of the filter over endpoints reads the clock once, and files are not corrupt. The inbox file
-- that a claim prints is read after the queue is saved, and may fail then; a discovered endpoint is a dict;
-- the field types of a PlanResult are not checked. YAML loading, printed JSON and the delivery of
-- announcements are left out. The servers, the installers, and the scripts and the harness around these
-- parts are not modelled.
pub mod Base
pub mod Oramaclaw
pub mod Fleet
pub mod Agents
pub mod Swarm
pub mod Jobs
pub mod Governance
pub mod Mesh
