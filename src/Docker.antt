-- ===== src/Docker.antt =====
-- `DockerBackend` of firmarbiter_core/docker_backend.py: the commands that it runs, and what it makes
-- of their answers. Docker may answer differently each time: an answer depends on all commands that
-- were run before. The latest command stands first in a trace.
pub mod Requirements
pub mod Capabilities
pub mod Sidecar
pub mod Arguments
pub mod Creation
pub mod Probe
pub mod Rollback
pub mod Outcomes
pub mod Simulation
mod Examples
use firm_arbiter.Prelude.{
  ℕ, String, Bool, true, false, not, ◌&&◌, Option, none, some, List, [], ◌∷◌, ◌++◌, if◌then◌else◌,
  ℕ-Eq, String-Eq, ◌==◌, pair-Eq, Option-Eq, Result, ok, err,
}
use firm_arbiter.Json.{Json, Items, Fields, ℤ, ℤ-Eq, pos, negsuc, object, array, cons, get}

abbrev pub Command : Type 0
Command = List String

abbrev pub Trace : Type 0
Trace = List Command

pub record Completed : Type 0 where
  pub returncode : ℤ
  pub stdout : String
  pub stderr : String

-- What `subprocess.run` does.
pub data Answer : Type 0 where
  finished : Completed → Answer
  no_cli timed_out : Answer

-- The exceptions: of `DockerBackendError` and its subclass `RuntimeRequirementError`, and others.
pub data DockerError : Type 0 where
  cli_not_found command_timed_out : DockerError
  command_failed : Completed → DockerError
  no_container_id sidecar_exited sidecar_not_ready no_ip_address : DockerError
  invalid_inspection no_container invalid_request : DockerError
  device_unavailable unsupported_requirement unsupported_network : String → DockerError
  isolated_not_implemented other_exception : DockerError

-- `except DockerBackendError`
abbrev pub is_backend_error : DockerError → Bool
is_backend_error other_exception = false
is_backend_error _ = true

-- What the backend takes from Python and from the host.
pub record Host : Type 0 where
  pub answer : Trace → Command → Answer
  pub exists : Trace → String → Bool
  pub strip : String → String
  pub loads : String → Option Json
  pub bool : Json → Bool
  pub int : Json → Option ℤ
  pub short_sha256 : String → String
  pub chars : String → List ℕ
  pub of_chars : List ℕ → String
  pub lower : ℕ → List ℕ
  pub isalnum : ℕ → Bool
  pub user : String
  pub number : ℕ → String

-- A step that runs commands and may raise.
abbrev pub Docker : Type 0 → Type 0
Docker A = Trace → Trace × Result DockerError A

abbrev pub return : {A : Type 0} → A → Docker A
return a t = (t, ok a)

abbrev pub raise : {A : Type 0} → DockerError → Docker A
raise e t = (t, err e)

infixl 5 ◌>>=◌ ◌>>◌
abbrev pub ◌>>=◌ : {A B : Type 0} → Docker A → (A → Docker B) → Docker B
(m >>= f) t = let (u, r) = m t in elim r [ ok a ↦ f a u | err e ↦ (u, err e) ]

abbrev pub ◌>>◌ : {B : Type 0} → Docker (Unit {0}) → Docker B → Docker B
(m >> k) t = let (u, r) = m t in elim r [ ok _ ↦ k u | err e ↦ (u, err e) ]

-- `_run`
unfoldable pub run : Host → Bool → Command → Docker Completed
run h check command t =
    let u = command ∷ t in
    elim (h.answer t command) [
      | no_cli ↦ (u, err cli_not_found)
      | timed_out ↦ (u, err command_timed_out)
      | finished c ↦
          if check && not (c.returncode == pos 0) then (u, err (command_failed c)) else (u, ok c)
    ]

-- A command of which only the failure matters.
abbrev pub run_only : Host → Bool → Command → Docker (Unit {0})
run_only h check command t =
    let (u, r) = run h check command t in elim r [ ok _ ↦ (u, ok tt) | err e ↦ (u, err e) ]

abbrev pub start_command : String → Command
start_command id = "container" ∷ "start" ∷ id ∷ []

abbrev pub inspect_command : String → Command
inspect_command id = "container" ∷ "inspect" ∷ id ∷ []

abbrev pub stop_command : String → Command
stop_command id = "container" ∷ "stop" ∷ "--time" ∷ "2" ∷ id ∷ []

abbrev pub kill_command : String → Command
kill_command id = "container" ∷ "kill" ∷ id ∷ []

abbrev pub logs_command : String → Command
logs_command id = "container" ∷ "logs" ∷ id ∷ []

abbrev pub remove_command : String → Command
remove_command id = "container" ∷ "rm" ∷ "--force" ∷ id ∷ []

abbrev pub disconnect_command : String → String → Command
disconnect_command network id = "network" ∷ "disconnect" ∷ "--force" ∷ network ∷ id ∷ []

abbrev pub remove_network_command : String → Command
remove_network_command network = "network" ∷ "rm" ∷ network ∷ []

module _ (h : Host) where
  unfoldable pub start_container : String → Docker (Unit {0})
  start_container id = run_only h true (start_command id)

  unfoldable pub stop_container : String → Docker (Unit {0})
  stop_container id = run_only h false (stop_command id)

  unfoldable pub kill_container : String → Docker (Unit {0})
  kill_container id = run_only h false (kill_command id)

  unfoldable pub remove_container : String → Docker (Unit {0})
  remove_container id = run_only h false (remove_command id)

  unfoldable pub disconnect_network : String → String → Docker (Unit {0})
  disconnect_network network id = run_only h false (disconnect_command network id)

  unfoldable pub remove_network : String → Docker (Unit {0})
  remove_network network = run_only h false (remove_network_command network)

  -- `container_logs`
  unfoldable pub container_logs : String → Docker (String × String)
  container_logs id = do
    completed ← run h false (logs_command id)
    return (completed.stdout, completed.stderr)

  -- The documents that `inspect_container` finds in the answer.
  unfoldable pub inspected : String → Result DockerError Fields
  inspected stdout = elim (h.loads stdout) [
    | none ↦ err invalid_inspection
    | some (array (cons (object doc) _)) ↦ ok doc
    | some _ ↦ err no_container
  ]

  unfoldable pub inspect_container : String → Docker Fields
  inspect_container id = do
    completed ← run h true (inspect_command id)
    λ t. (t, inspected completed.stdout)

  -- `self.inspect_container(container_id)["State"]`, which must be an object.
  unfoldable pub state_of : Fields → Result DockerError Fields
  state_of doc = elim (get doc "State") [ some (object state) ↦ ok state | _ ↦ err other_exception ]

  -- `container_running`; a missing value is None, which is false.
  unfoldable pub container_running : String → Docker Bool
  container_running id = do
    doc ← inspect_container id
    state ← λ t. (t, state_of doc)
    return (elim (get state "Running") [ none ↦ false | some v ↦ h.bool v ])

  -- `exit_code`; `int` may raise.
  unfoldable pub exit_code : String → Docker ℤ
  exit_code id = do
    doc ← inspect_container id
    state ← λ t. (t, state_of doc)
    elim (get state "ExitCode") [
      | none ↦ return (negsuc 0)
      | some v ↦ elim (h.int v) [ none ↦ raise other_exception | some n ↦ return n ]
    ]
