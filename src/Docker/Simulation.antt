-- ===== src/Docker/Simulation.antt =====
-- A docker that is given by a function, and a host without devices, for the tests.
use firm_arbiter.Prelude.{
  String, true, false, Option, none, some, List, [], ◌∷◌, if◌then◌else◌, ℕ-Eq, String-Eq, ◌==◌,
  pair-Eq, Option-Eq,
}
use firm_arbiter.Json.{Json, end, field, cons, nil, boolean, text, array, object, pos}
use firm_arbiter.Docker.{Command, Trace, Answer, finished, Host}
use firm_arbiter.Docker.Arguments.{Request, Image}

abbrev pub second : Command → String
second (c ∷ d ∷ cs) = d
second _ = ""

abbrev pub first : Command → String
first (c ∷ cs) = c
first [] = ""

abbrev pub prints : String → Answer
prints stdout = finished (record { returncode = pos 0; stdout = stdout; stderr = "" })

-- A docker in which every command succeeds and every container runs.
abbrev pub answer : Trace → Command → Answer
answer t command =
    if first command == "inspect"
    then prints "address"
    else if second command == "inspect"
    then prints "running"
    else prints "id"

abbrev pub loads : String → Option Json
loads s =
    if s == "address"
    then some (object (field "IPAddress" (text "172.18.0.2") end))
    else if s == "running"
    then some (
        array (cons (object (field "State" (object (field "Running" (boolean true) end)) end)) nil))
    else none

-- The host has no devices.
abbrev pub host : Host
host = record {
  answer = answer;
  exists = λ t path. false;
  strip = λ s. s;
  loads = loads;
  bool = λ v. true;
  int = λ v. none;
  short_sha256 = λ s. "0123456789ab";
  chars = λ s. 97 ∷ [];
  of_chars = λ cs. "a";
  lower = λ c. c ∷ [];
  isalnum = λ c. true;
  user = "1000:1000";
  number = λ n. "134217728";
}

abbrev pub request : List String → Request
request requirements = record {
  run_id = "run-1";
  experiment_id = "pilot";
  adapter_id = "a";
  cpu_cores = "4.0";
  memory_bytes = "4294967296";
  pids_limit = "4096";
  network = "none";
  run_as_root = true;
  requirements = requirements;
}

abbrev pub image : Image
image = record { reference = "adapter:1"; image_id = "sha256:1" }
