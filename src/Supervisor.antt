-- ===== src/Supervisor.antt =====
-- `DockerAdapterSupervisor` of firmarbiter_core/docker_supervisor.py: the adapter's container and the
-- events that it writes. The file of events is given by its content at each read.
pub mod Waiting
pub mod Draining
pub mod Stopping
pub mod Interrupting
pub mod Failing
mod Examples
use firm_arbiter.Prelude.{
  ℕ, String, Bool, false, Option, none, some, List, [], ◌++◌, if◌then◌else◌, ℕ-Eq, String-Eq,
  pair-Eq, Option-Eq, Result, ok, err,
}
use firm_arbiter.Json.{Fields, ℤ, says}
use firm_arbiter.EventStream.{Codec, EventError, Stream, init, read_new}
use firm_arbiter.Docker.{
  Trace, DockerError, is_backend_error, Host, Docker, start_container, stop_container,
  kill_container, remove_container, container_logs,
}
use firm_arbiter.Docker as Docker
use firm_arbiter.Docker.Sidecar.{CreatedContainer}
use firm_arbiter.Docker.Arguments.{Request, Image}
use firm_arbiter.Docker.Creation.{create_container}

pub data SupervisorError : Type 0 where
  protocol_error : EventError → SupervisorError
  docker_error : DockerError → SupervisorError
  not_created already_created not_started event_timed_out exit_timed_out : SupervisorError
  exited_early : ℤ → SupervisorError

-- The attributes, with the reason in the shutdown file and the saved logs, if they were written.
pub record Supervisor : Type 0 where
  pub stream : Stream
  pub container : Option CreatedContainer
  pub events : List Fields
  pub shutdown_file : Option String
  pub logs : Option (String × String)

-- `__init__`
abbrev pub new : String → String → Supervisor
new run_id adapter_id = record {
  stream = init run_id adapter_id;
  container = none;
  events = [];
  shutdown_file = none;
  logs = none;
}

pub record World : Type 0 where
  pub self : Supervisor
  pub trace : Trace

-- A method: what it leaves, and what it returns or raises.
abbrev pub Method : Type 0 → Type 0
Method A = World → World × Result SupervisorError A

abbrev pub return : {A : Type 0} → A → Method A
return a w = (w, ok a)

abbrev pub raise : {A : Type 0} → SupervisorError → Method A
raise e w = (w, err e)

infixl 5 ◌>>=◌ ◌>>◌
abbrev pub ◌>>=◌ : {A B : Type 0} → Method A → (A → Method B) → Method B
(m >>= f) w = let (v, r) = m w in elim r [ ok a ↦ f a v | err e ↦ (v, err e) ]

abbrev pub ◌>>◌ : {B : Type 0} → Method (Unit {0}) → Method B → Method B
(m >> k) w = let (v, r) = m w in elim r [ ok _ ↦ k v | err e ↦ (v, err e) ]

-- A call of the backend.
abbrev pub call : {A : Type 0} → Docker A → Method A
call m w =
    let (t, r) = m w.trace in
    (record w { trace = t }, elim r [ ok a ↦ ok a | err e ↦ err (docker_error e) ])

abbrev pub assign : (Supervisor → Supervisor) → Method (Unit {0})
assign f w = (record w { self = f w.self }, ok tt)

-- `container_id`
abbrev pub container_id : Method String
container_id w = elim w.self.container [
  | none ↦ (w, err not_created)
  | some c ↦ (w, ok c.container_id)
]

module _ (h : Host) where
  -- `container_running`: an error of the backend counts as a container that does not run.
  unfoldable pub container_running : Method Bool
  container_running w = elim w.self.container [
    | none ↦ (w, ok false)
    | some c ↦
        let (t, r) = Docker.container_running h c.container_id w.trace in
        (
          record w { trace = t },
          elim r [
            | ok b ↦ ok b
            | err e ↦ if is_backend_error e then ok false else err (docker_error e)
          ],
        )
  ]

  -- `exit_code_if_exited`
  unfoldable pub exit_code_if_exited : Method (Option ℤ)
  exit_code_if_exited w = elim w.self.container [
    | none ↦ (w, ok none)
    | some c ↦
        (do
          running ← container_running
          if running
              then return none
              else (do code ← call (Docker.exit_code h c.container_id); return (some code)))
          w
  ]

  -- `start`: the container is kept before it is started.
  unfoldable pub start : ℕ → Result DockerError Request → String → Image → Method (Unit {0})
  start rounds loaded contract_root image w = elim w.self.container [
    | some _ ↦ (w, err already_created)
    | none ↦
        (do
          c ← call (create_container h rounds loaded contract_root image)
          assign (λ self. record self { container = some c })
          call (start_container h c.container_id))
          w
  ]

  -- `_save_logs`
  unfoldable pub save_logs : Method (Unit {0})
  save_logs w = elim w.self.container [
    | none ↦ (w, ok tt)
    | some c ↦
        (do
          logs ← call (container_logs h c.container_id)
          assign (λ self. record self { logs = some logs }))
          w
  ]

  -- `if self.container_running: ...`
  abbrev pub when_running : Docker (Unit {0}) → Method (Unit {0})
  when_running m = do running ← container_running; if running then call m else return tt

  -- `force_terminate`
  unfoldable pub force_terminate : Method (Unit {0})
  unfolding save_logs
  force_terminate w = elim w.self.container [
    | none ↦ (w, ok tt)
    | some c ↦
        (do
          when_running (stop_container h c.container_id)
          when_running (kill_container h c.container_id)
          save_logs)
          w
  ]

  -- `remove`
  unfoldable pub remove : Method (Unit {0})
  remove w = elim w.self.container [
    | none ↦ (w, ok tt)
    | some c ↦ call (remove_container h c.container_id) w
  ]

  -- `request_shutdown`
  unfoldable pub request_shutdown : String → Method (Unit {0})
  request_shutdown reason w = elim w.self.container [
    | none ↦ (w, err not_started)
    | some _ ↦ assign (λ self. record self { shutdown_file = some reason }) w
  ]

  module _ (lib : Codec) where
    -- `drain_events`: after an error of the protocol the container is stopped; an exception of
    -- `force_terminate` takes the place of that error.
    unfoldable pub drain_events : Option (List ℕ) → Method (List Fields)
    drain_events content w =
        let (stream, r) = read_new lib w.self.stream content in
        let v : World = record w { self = record w.self { stream = stream } } in
        elim r [
          | ok docs ↦
              (record v { self = record v.self { events = v.self.events ++ docs } }, ok docs)
          | err e ↦
              let (u, done) = force_terminate v in
              (u, elim done [ ok _ ↦ err (protocol_error e) | err x ↦ err x ])
        ]
