-- ===== src/Docker/Requirements/Grants.antt =====
-- The options of `docker container create` that open the host, against the granted requirements.
use firm_arbiter.Prelude.{
  String, ◌≡◌, refl, ap, ◌∙◌, inl, inr, Bool, true, false, not, ◌&&◌, ◌||◌, Option, none, some,
  List, [], ◌∷◌, ◌++◌, arith, if◌then◌else◌, ℕ-Eq, String-Eq, ◌==◌, pair-Eq, Option-Eq, any_of, All,
  All-append, Result-cases, ok,
}
use firm_arbiter.Docker.{Trace, Host}
use firm_arbiter.Docker.Requirements.{
  requires, insert, sorted, requirement_argument, arguments_of, requirement_arguments,
}
use firm_arbiter.Docker.Requirements.Additions.{
  Grant, kvm, tun_tap, device_mapper, net_admin, ptrace, privileged, loop_devices,
  loop_device_partitions, docker_socket, nested_containers, requirement_argument-Grant,
}

any_of-append {ℓ} :
    {A : Type ℓ} (p : A → Bool) (xs ys : List A)
    → any_of p (xs ++ ys) ≡ (any_of p xs || any_of p ys)
any_of-append p [] ys = refl
any_of-append p (x ∷ xs) ys = ground (arith, any_of-append p xs ys)

any_of-insert :
    (p : String → Bool) (x : String) (xs : List String)
    → any_of p (insert x xs) ≡ (p x || any_of p xs)
unfolding insert
any_of-insert p x [] = refl
any_of-insert p x (y ∷ ys) = ground (arith, any_of-insert p x ys)

any_of-sorted : (p : String → Bool) (xs : List String) → any_of p (sorted xs) ≡ any_of p xs
unfolding sorted
any_of-sorted p [] = refl
any_of-sorted p (x ∷ xs) = ground (arith, any_of-insert p x (sorted xs), any_of-sorted p xs)

-- An option of `docker container create`, as it stands in the arguments.
abbrev pub words : List (String × Option String) → List String
words [] = []
words ((flag, none) ∷ options) = flag ∷ words options
words ((flag, some value) ∷ options) = flag ∷ value ∷ words options

words-append : (xs ys : List (String × Option String)) → words (xs ++ ys) ≡ words xs ++ words ys
words-append [] ys = refl
words-append ((flag, none) ∷ xs) ys = ap (λ l. flag ∷ l) (words-append xs ys)
words-append ((flag, some value) ∷ xs) ys = ap (λ l. flag ∷ value ∷ l) (words-append xs ys)

-- An option that opens the host, the requirement that grants it, and whether full privileges make
-- it superfluous.
pub record HostOption : Type 0 where
  pub option : String × Option String
  pub requirement : String
  pub superfluous : Bool

abbrev grants : String → String → String → HostOption
grants requirement flag value = record {
  option = (flag, some value);
  requirement = requirement;
  superfluous = false;
}

abbrev pub host_options : List HostOption
host_options =
    record { option = ("--privileged", none); requirement = "full-privileged"; superfluous = false }
    ∷ grants "loop-device-partitions" "-v" "/dev:/dev"
    ∷ grants "docker-socket" "-v" "/var/run/docker.sock:/var/run/docker.sock"
    ∷ grants "net-admin" "--cap-add" "NET_ADMIN"
    ∷ grants "ptrace" "--cap-add" "SYS_PTRACE"
    ∷ grants "kvm" "--device" "/dev/kvm"
    ∷ grants "tun-tap" "--device" "/dev/net/tun"
    ∷ grants "device-mapper" "--device" "/dev/mapper/control"
    ∷ grants "loop-devices" "--device" "/dev/loop-control"
    ∷ record {
      option = ("--device-cgroup-rule", some "c 7:* rmw");
      requirement = "loop-devices";
      superfluous = true;
    }
    ∷ []

-- Every option is one of the table.
abbrev pub AreKnown : List (String × Option String) → Type 0
AreKnown = All (λ x. any_of (λ o. o.option == x) host_options ≡ true)

module _ (is_privileged : Bool) where
  -- The requirement of an option is there, and the option is not superfluous.
  abbrev pub is_due : List String → HostOption → Bool
  is_due requirements o =
      requires requirements o.requirement && not (o.superfluous && is_privileged)

  -- Each option of the table is there exactly if it is due.
  abbrev pub AreDue : List (String × Option String) → List String → List HostOption → Type 0
  AreDue options requirements =
      All (λ o. any_of (λ x. x == o.option) options ≡ is_due requirements o)

  -- The table, decided on concrete options.
  abbrev are_due : List (String × Option String) → List String → List HostOption → Bool
  are_due options requirements [] = true
  are_due options requirements (o ∷ table) =
      (if any_of (λ x. x == o.option) options
        then is_due requirements o
        else not (is_due requirements o))
      && are_due options requirements table

  AreDue-check :
      (options : List (String × Option String)) (requirements : List String)
      (table : List HostOption)
      → are_due options requirements table ≡ true
      → AreDue options requirements table
  AreDue-check options requirements [] e = tt
  AreDue-check options requirements (o ∷ table) e =
      (ground arith, AreDue-check options requirements table (ground arith))

  AreDue-sorted :
      (options : List (String × Option String)) (requirements : List String)
      (table : List HostOption)
      → AreDue options (sorted requirements) table
      → AreDue options requirements table
  AreDue-sorted options requirements [] f = tt
  AreDue-sorted options requirements (o ∷ table) f = (
    f.0
        ∙ ap (λ b. b && not (o.superfluous && is_privileged))
            (any_of-sorted (λ r. r == o.requirement) requirements),
    AreDue-sorted options requirements table f.1,
  )

  AreDue-append :
      (xs ys : List (String × Option String)) (rs ss : List String) (table : List HostOption)
      → AreDue xs rs table
      → AreDue ys ss table
      → AreDue (xs ++ ys) (rs ++ ss) table
  AreDue-append xs ys rs ss [] f g = tt
  AreDue-append xs ys rs ss (o ∷ table) f g = (
    ground (
      arith,
      any_of-append (λ x. x == o.option) xs ys,
      any_of-append (λ r. r == o.requirement) rs ss,
      f.0,
      g.0,
    ),
    AreDue-append xs ys rs ss table f.1 g.1,
  )

  -- The arguments spell options of the table, and those that are due for the requirements.
  pub record IsGranted (arguments requirements : List String) : Type 0 where
    pub options : List (String × Option String)
    pub spelled : arguments ≡ words options
    pub known : AreKnown options
    pub due : AreDue options requirements host_options

  IsGranted-one :
      (r name : String) (arguments : List String) (options : List (String × Option String))
      → r ≡ name
      → arguments ≡ words options
      → AreKnown options
      → are_due options (name ∷ []) host_options ≡ true
      → IsGranted arguments (r ∷ [])
  IsGranted-one r name arguments options same is known e = record {
    options = options;
    spelled = is;
    known = known;
    due = rw same (AreDue-check options (name ∷ []) host_options e);
  }

  IsGranted-append :
      (xs ys rs ss : List String)
      → IsGranted xs rs
      → IsGranted ys ss
      → IsGranted (xs ++ ys) (rs ++ ss)
  IsGranted-append xs ys rs ss f g = record {
    options = f.options ++ g.options;
    spelled = rw (words-append f.options g.options, ← f.spelled, ← g.spelled) refl;
    known = All-append _ f.options g.options f.known g.known;
    due = AreDue-append f.options g.options rs ss host_options f.due g.due;
  }

Grant-IsGranted :
    (b : Bool) (r : String) (arguments : List String)
    → Grant b r arguments
    → IsGranted b arguments (r ∷ [])
Grant-IsGranted b r _ (kvm same is) =
    IsGranted-one b r _ _ (("--device", some "/dev/kvm") ∷ []) same is (refl, tt) refl
Grant-IsGranted b r _ (tun_tap same is) =
    IsGranted-one b r _ _ (("--device", some "/dev/net/tun") ∷ []) same is (refl, tt) refl
Grant-IsGranted b r _ (device_mapper same is) =
    IsGranted-one b r _ _ (("--device", some "/dev/mapper/control") ∷ []) same is (refl, tt) refl
Grant-IsGranted b r _ (net_admin same is) =
    IsGranted-one b r _ _ (("--cap-add", some "NET_ADMIN") ∷ []) same is (refl, tt) refl
Grant-IsGranted b r _ (ptrace same is) =
    IsGranted-one b r _ _ (("--cap-add", some "SYS_PTRACE") ∷ []) same is (refl, tt) refl
Grant-IsGranted b r _ (privileged same is) =
    IsGranted-one b r _ _ (("--privileged", none) ∷ []) same is (refl, tt) refl
Grant-IsGranted true r _ (loop_devices same is) =
    IsGranted-one true r _ _ (("--device", some "/dev/loop-control") ∷ []) same is (refl, tt) refl
Grant-IsGranted false r _ (loop_devices same is) =
    IsGranted-one false r _ _
      (("--device", some "/dev/loop-control") ∷ ("--device-cgroup-rule", some "c 7:* rmw") ∷ [])
      same is (refl, (refl, tt)) refl
Grant-IsGranted b r _ (loop_device_partitions same is) =
    IsGranted-one b r _ _ (("-v", some "/dev:/dev") ∷ []) same is (refl, tt) refl
Grant-IsGranted b r _ (docker_socket same is) =
    IsGranted-one b r _ _ (("-v", some "/var/run/docker.sock:/var/run/docker.sock") ∷ []) same is
      (refl, tt) refl
Grant-IsGranted b r _ (nested_containers same is) = IsGranted-one b r _ _ [] same is tt refl

module _ (h : Host) (t : Trace) where
  arguments_of-IsGranted :
      (b : Bool) (rs arguments : List String)
      → arguments_of h t b rs ≡ ok arguments
      → IsGranted b arguments rs
  unfolding arguments_of
  arguments_of-IsGranted b [] arguments e = record {
    options = [];
    spelled = ground arith;
    known = tt;
    due = AreDue-check b [] [] host_options refl;
  }
  arguments_of-IsGranted b (r ∷ rs) arguments e =
      elim (Result-cases (requirement_argument h t b r)) [
        | inl (_, refused) ↦ absurd (ground arith)
        | inr (first, granted) ↦ elim (Result-cases (arguments_of h t b rs)) [
          | inl (_, refused) ↦ absurd (ground arith)
          | inr (rest, others) ↦
              let same : arguments ≡ first ++ rest = ground arith in
              rw same (
                IsGranted-append b first rest (r ∷ []) rs
                  (Grant-IsGranted b r first (requirement_argument-Grant h t b r first granted))
                  (arguments_of-IsGranted b rs rest others))
        ]
      ]

  -- If the requirements give arguments for `docker container create`, then these spell a list of
  -- options that open the host. Each such option, a flag with its value, is in the list exactly if its
  -- requirement was granted; the rule for the loop devices' control group is left out as superfluous
  -- if full privileges were granted too. No other option is in the list.
  pub requirement_arguments-IsGranted :
      (requirements arguments : List String)
      → requirement_arguments h t requirements ≡ ok arguments
      → IsGranted (requires requirements "full-privileged") arguments requirements
  unfolding requirement_arguments
  requirement_arguments-IsGranted requirements arguments e =
      let b = requires requirements "full-privileged" in
      let f = arguments_of-IsGranted b (sorted requirements) arguments e in
      record {
        options = f.options;
        spelled = f.spelled;
        known = f.known;
        due = AreDue-sorted b f.options requirements host_options f.due;
      }
