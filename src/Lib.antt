-- ===== src/Lib.antt =====
-- FirmArbiter runs firmware emulators, its adapters, under supervision and judges them by its own
-- measurements. This library models the parts of firmarbiter_core that decide what a run's evidence
-- is worth. They are, in the order in which a run passes through them:
--
-- * EventStream (firmarbiter_core/event_protocol.py, AdapterEventStream): reads the events that the
--   adapter appends to a file. `read_new` gets the file's bytes and returns the next stream with the
--   new records or the error. `validate_document` is split into the checks that change nothing, the
--   place of adapter_started, and the fields that belong to one event. What was assigned before an
--   exception stays assigned, as in the source.
-- * Watchdog (firmarbiter_core/lifecycle_watchdog.py, LifecycleWatchdog): supervises one run.
--   `poll_loop` is the loop of `_run`, Watchdog/Ending the part behind it and `wait`, and
--   Watchdog/Waiting the waits of other threads for an event. The events come from the event stream
--   through the supervisor.
-- * Probes (firmarbiter_core/probes): Reachability, Stability and Authenticity are the functions of
--   service_reachability.py, service_stability.py and service_authenticity.py, and Boot those of
--   boot_validation.py, with the verdict in Boot/Judging, which uses the watchdog's outcome and the
--   authenticity records.
--   Unpack is unpack_validation.py: the walk through an exported root file system, and Unpack/Judging
--   the verdict on what it found. Orchestrator is firmarbiter_core/probe_orchestrator.py with the
--   coordinator's loop over the claims: it sets off the other probes.
-- * Residue (firmarbiter_core/environment_residue.py): the snapshots of the host before and after a
--   run, their difference, and the verdict.
-- * Janitor (firmarbiter_core/environment_janitor.py): the plan that follows from the residue, and
--   in Janitor/Execution what is done by it.
-- * Docker (firmarbiter_core/docker_backend.py, DockerBackend): the commands that the backend runs.
--   A step takes the trace of all commands so far and returns the longer one with a value or an
--   exception. Docker/Requirements are the options for granted requirements, Docker/Sidecar the DinD
--   sidecar of nested containers and its rollback, Docker/Arguments and Docker/Creation
--   create_container, Docker/Probe the neutral probe of docker_namespace_probe.py, and
--   Docker/Capabilities the registry of firmarbiter_core/runtime_requirements.py.
-- * Supervisor (firmarbiter_core/docker_supervisor.py, DockerAdapterSupervisor): the adapter's
--   container, on top of Docker and EventStream; its waits are in Supervisor/Waiting.
-- * Coordinator (firmarbiter_core/run_coordinator.py): the policy of a run, the stage results and the
--   status; Coordinator/Readiness has the waits for the candidate's stages, which use those of the
--   watchdog, and Coordinator/Teardown the `finally` of `execute`, which uses the supervisor and the
--   backend.
-- * Scores (score_aggregator.py): the selection of the attempts that are scored, the status of a list
--   of measurements, and in Scores/Summary the summary of each adapter without its averages.
-- * RunIdentity (firmarbiter_core/run_identity.py): the id of a run.
-- * Json models the values that json.loads returns, and Prelude holds what all parts share.
--
-- Operations are functions that return the new state with a result, and exceptions are values of an
-- error type for each part. The texts of errors and of most reasons are constructors, or are left
-- out where the status determines them. What the program gets from outside is an argument:
--
-- * the supervisor, the clock, the core's shutdown flag and the container are a `Poll` for each round
--   of the watchdog's loop and an `Ending` behind it; a `Slot` for each sample of the stability
--   probe; a `Connect` for each attempt of the reachability probe; a `JanitorBackend` that may answer
--   differently at each step; the answers of the file system by path; and the five collectors are
--   what they return or raise;
-- * UTF-8 decoding, json.loads and the event schema are a `Codec`; str and int of a JSON value are a
--   `Convert`; regular expressions, decoding and SHA-256 of the boot validation are a `Python`; str of
--   the janitor's values is a `Texts`; and str.lower is a function; SHA-256 and the
--   JSON text of an inventory entry are a `Hashing`; and the text of a number and the SHA-256 digest
--   of a run id are a `RunIdTexts`. The only thing supposed of them is that such a digest has 64
--   characters, where a theorem says so;
-- * docker is a function of all commands before and the present one, in a `Host` with what the
--   backend takes from Python, the user and the devices. The commands of the sampler's thread are
--   left out.
--
-- Times are natural numbers of microseconds. Numbers have no bound in Python and none here. The
-- availability ratio stands as its two numbers, since its quotient is rounded in floating point. A
-- dictionary is an association list in which a key is looked up from the front.
--
-- The event reader's loop runs on fuel, one round more than there are bytes: a round takes a line,
-- and a line has a byte. The watchdog's loop runs over the rounds that happen, and may be left at
-- any of them. The walk of the unpack validation runs on fuel, two rounds more than the limit of
-- entries: a round takes a pending directory, and every directory but the root is an entry. The waits
-- of the supervisor and for the DinD daemon run over the rounds that begin before the deadline. All
-- other loops are structural.
--
-- Not modelled: the collectors that read /proc, /sys, dmsetup and docker; the writing of evidence
-- files; the HTTP snapshot; the building of images and the adapters, which are I/O; the preparation of a
-- run's directory and documents; the averages, the flattening of documents and the reports of the
-- score aggregator, and its exception at an attempt that is null; the exceptions that the watchdog's
-- reading of the container's state may raise, and those of a connection attempt other than OSError;
-- and the command line.
mod Prelude
pub mod Json
pub mod EventStream
pub mod Watchdog
pub mod Residue
pub mod Janitor
pub mod RunIdentity
pub mod Probes
pub mod Docker
pub mod Supervisor
pub mod Coordinator
pub mod Scores
