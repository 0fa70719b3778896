-- ===== src/Docker/Requirements/Additions.antt =====
-- What `requirement_argument` of Docker/Requirements adds for each requirement, `_requirement_arguments`
-- of firmarbiter_core/docker_backend.py.
use firm_arbiter.Prelude.{
  String, ◌≡◌, inl, inr, Bool, not, List, [], ◌∷◌, arith, eq_iff, if◌then◌else◌, Bool-cases, ℕ-Eq,
  String-Eq, ◌==◌, pair-Eq, Option-Eq, ok,
}
use firm_arbiter.Docker.{Trace, Host}
use firm_arbiter.Docker.Requirements.{require_device, requirement_argument}

-- What a granted requirement is and adds.
pub data Grant (is_privileged : Bool) (r : String) (arguments : List String) : Type 0 where
  kvm : r ≡ "kvm" → arguments ≡ "--device" ∷ "/dev/kvm" ∷ [] → Grant is_privileged r arguments
  tun_tap :
      r ≡ "tun-tap" → arguments ≡ "--device" ∷ "/dev/net/tun" ∷ [] → Grant is_privileged r arguments
  device_mapper :
      r ≡ "device-mapper"
      → arguments ≡ "--device" ∷ "/dev/mapper/control" ∷ []
      → Grant is_privileged r arguments
  net_admin :
      r ≡ "net-admin" → arguments ≡ "--cap-add" ∷ "NET_ADMIN" ∷ [] → Grant is_privileged r arguments
  ptrace :
      r ≡ "ptrace" → arguments ≡ "--cap-add" ∷ "SYS_PTRACE" ∷ [] → Grant is_privileged r arguments
  privileged :
      r ≡ "full-privileged" → arguments ≡ "--privileged" ∷ [] → Grant is_privileged r arguments
  loop_devices :
      r ≡ "loop-devices"
      → arguments
        ≡ "--device"
          ∷ "/dev/loop-control"
          ∷ (if not is_privileged then "--device-cgroup-rule" ∷ "c 7:* rmw" ∷ [] else [])
      → Grant is_privileged r arguments
  loop_device_partitions :
      r ≡ "loop-device-partitions"
      → arguments ≡ "-v" ∷ "/dev:/dev" ∷ []
      → Grant is_privileged r arguments
  docker_socket :
      r ≡ "docker-socket"
      → arguments ≡ "-v" ∷ "/var/run/docker.sock:/var/run/docker.sock" ∷ []
      → Grant is_privileged r arguments
  nested_containers : r ≡ "nested-containers" → arguments ≡ [] → Grant is_privileged r arguments

module _ (h : Host) (t : Trace) (b : Bool) (r : String) (arguments : List String) where
  pub requirement_argument-Grant : requirement_argument h t b r ≡ ok arguments → Grant b r arguments
  unfolding requirement_argument require_device
  requirement_argument-Grant e = elim (Bool-cases (r == "kvm")) [
    | inl same ↦ kvm ((eq_iff r "kvm").0 same) (ground arith)
    | inr other0 ↦ elim (Bool-cases (r == "tun-tap")) [
      | inl same ↦ tun_tap ((eq_iff r "tun-tap").0 same) (ground arith)
      | inr other1 ↦ elim (Bool-cases (r == "device-mapper")) [
        | inl same ↦ device_mapper ((eq_iff r "device-mapper").0 same) (ground arith)
        | inr other2 ↦ elim (Bool-cases (r == "net-admin")) [
          | inl same ↦ net_admin ((eq_iff r "net-admin").0 same) (ground arith)
          | inr other3 ↦ elim (Bool-cases (r == "ptrace")) [
            | inl same ↦ ptrace ((eq_iff r "ptrace").0 same) (ground arith)
            | inr other4 ↦ elim (Bool-cases (r == "full-privileged")) [
              | inl same ↦ privileged ((eq_iff r "full-privileged").0 same) (ground arith)
              | inr other5 ↦ elim (Bool-cases (r == "loop-devices")) [
                | inl same ↦ loop_devices ((eq_iff r "loop-devices").0 same) (ground arith)
                | inr other6 ↦ elim (Bool-cases (r == "loop-device-partitions")) [
                  | inl same ↦
                      loop_device_partitions ((eq_iff r "loop-device-partitions").0 same)
                        (ground arith)
                  | inr other7 ↦ elim (Bool-cases (r == "docker-socket")) [
                    | inl same ↦ docker_socket ((eq_iff r "docker-socket").0 same) (ground arith)
                    | inr other8 ↦ elim (Bool-cases (r == "nested-containers")) [
                      | inl same ↦
                          nested_containers ((eq_iff r "nested-containers").0 same) (ground arith)
                      | inr other9 ↦ absurd (ground arith)
                    ]
                  ]
                ]
              ]
            ]
          ]
        ]
      ]
    ]
  ]
