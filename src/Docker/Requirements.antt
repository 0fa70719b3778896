-- ===== src/Docker/Requirements.antt =====
-- `_requirement_arguments` and `_safe_container_component`: the options of `docker container create`
-- that the granted requirements give, and the part of a container's name.
mod Additions
pub mod Grants
use Prim.Native.Nat.{Ordering}
use Prim.Native.String.{compare as compare_text, ◌++◌ as ◌+++◌}
use firm_arbiter.Prelude.{
  ℕ, String, Bool, not, ◌&&◌, List, [], ◌∷◌, ◌++◌, if◌then◌else◌, ℕ-Eq, String-Eq, ◌==◌, pair-Eq,
  Option-Eq, take, any_of, Result, ◌>>=◌, ◌>>◌, ok, err,
}
use firm_arbiter.Docker.{Trace, DockerError, device_unavailable, unsupported_requirement, Host}

-- `requirement in requirements`
abbrev pub requires : List String → String → Bool
requires requirements name = any_of (λ r. r == name) requirements

-- `sorted(requirements)`: a stable insertion.
unfoldable pub insert : String → List String → List String
insert x [] = x ∷ []
insert x (y ∷ ys) =
    let rest = insert x ys in elim (compare_text x y) [ Ordering.gt ↦ y ∷ rest | _ ↦ x ∷ y ∷ ys ]

unfoldable pub sorted : List String → List String
sorted [] = []
sorted (x ∷ xs) = insert x (sorted xs)

module _ (h : Host) (t : Trace) where
  -- `_require_device`; nothing is run here, so the trace stays.
  unfoldable pub require_device : String → Result DockerError String
  require_device path = if not (h.exists t path) then err (device_unavailable path) else ok path

  -- One round of the loop: the arguments that a requirement adds.
  unfoldable pub requirement_argument : Bool → String → Result DockerError (List String)
  unfolding require_device
  requirement_argument is_privileged r =
      if r == "kvm"
      then (do device ← require_device "/dev/kvm"; ok ("--device" ∷ device ∷ []))
      else if r == "tun-tap"
      then (do device ← require_device "/dev/net/tun"; ok ("--device" ∷ device ∷ []))
      else if r == "device-mapper"
      then (do device ← require_device "/dev/mapper/control"; ok ("--device" ∷ device ∷ []))
      else if r == "net-admin"
      then ok ("--cap-add" ∷ "NET_ADMIN" ∷ [])
      else if r == "ptrace"
      then ok ("--cap-add" ∷ "SYS_PTRACE" ∷ [])
      else if r == "full-privileged"
      then ok ("--privileged" ∷ [])
      else if r == "loop-devices"
      then (do
        device ← require_device "/dev/loop-control"
        ok (
            "--device"
            ∷ device
            ∷ (if not is_privileged then "--device-cgroup-rule" ∷ "c 7:* rmw" ∷ [] else [])))
      else if r == "loop-device-partitions"
      then ok ("-v" ∷ "/dev:/dev" ∷ [])
      else if r == "docker-socket"
      then (do
        socket ← require_device "/var/run/docker.sock"
        ok ("-v" ∷ (socket +++ ":/var/run/docker.sock") ∷ []))
      else if r == "nested-containers"
      then ok []
      else err (unsupported_requirement r)

  unfoldable pub arguments_of : Bool → List String → Result DockerError (List String)
  arguments_of is_privileged [] = ok []
  arguments_of is_privileged (r ∷ rs) = do
    first ← requirement_argument is_privileged r
    rest ← arguments_of is_privileged rs
    ok (first ++ rest)

  -- `_requirement_arguments`
  unfoldable pub requirement_arguments : List String → Result DockerError (List String)
  unfolding arguments_of sorted
  requirement_arguments requirements =
      arguments_of (requires requirements "full-privileged") (sorted requirements)

-- `character.lower() if character.isalnum() else "-"`; 45 is the dash.
unfoldable pub dashed : Host → List ℕ → List ℕ
dashed h [] = []
dashed h (c ∷ cs) = (if h.isalnum c then h.lower c else 45 ∷ []) ++ dashed h cs

-- `.strip("-")`
unfoldable pub strip_left : List ℕ → List ℕ
strip_left [] = []
strip_left (c ∷ cs) = let rest = strip_left cs in if c == 45 then rest else c ∷ cs

unfoldable pub strip_right : List ℕ → List ℕ
strip_right [] = []
strip_right (c ∷ cs) = elim (strip_right cs) [
  | [] ↦ if c == 45 then [] else c ∷ []
  | d ∷ ds ↦ c ∷ d ∷ ds
]

-- `while "--" in cleaned: cleaned = cleaned.replace("--", "-")`: a dash behind a dash goes.
unfoldable pub squeeze : List ℕ → List ℕ
squeeze [] = []
squeeze (c ∷ cs) = elim (squeeze cs) [
  | [] ↦ c ∷ []
  | d ∷ ds ↦ if c == 45 && d == 45 then d ∷ ds else c ∷ d ∷ ds
]

-- `_safe_container_component`
unfoldable pub safe_container_component : Host → String → String
unfolding dashed strip_left strip_right squeeze
safe_container_component h value =
    elim (take 40 (squeeze (strip_right (strip_left (dashed h (h.chars value)))))) [
      | [] ↦ "run"
      | c ∷ cs ↦ h.of_chars (c ∷ cs)
    ]
