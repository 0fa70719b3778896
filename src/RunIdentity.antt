-- ===== src/RunIdentity.antt =====
-- firmarbiter_core/run_identity.py: the id of a run, which names its result folder. RunIdTexts are lists
-- of characters by their numbers.
pub mod Limits
mod Examples
use firm_arbiter.Prelude.{
  ℕ, ◌-◌, List, [], ◌∷◌, ◌++◌, ltb, leb, if◌then◌else◌, ℕ-Eq, String-Eq, pair-Eq, Option-Eq, length,
  take, Result, ok, err,
}

pub data RunIdError : Type 0 where
  no_room : RunIdError

-- What the module takes from Python: the text of a number, and the hexadecimal SHA-256 digest of a
-- text's UTF-8.
pub record RunIdTexts : Type 0 where
  pub number : ℕ → List ℕ
  pub hexdigest : List ℕ → List ℕ

abbrev pub max_run_id_length : ℕ
max_run_id_length = 128

abbrev pub digest_length : ℕ
digest_length = 10

abbrev pub min_case_prefix : ℕ
min_case_prefix = 8

-- `f".{adapter_id}.attempt-{attempt}"`
abbrev pub suffix : RunIdTexts → List ℕ → ℕ → List ℕ
suffix texts adapter_id attempt =
    46 ∷ adapter_id
    ++ (46 ∷ 97 ∷ 116 ∷ 116 ∷ 101 ∷ 109 ∷ 112 ∷ 116 ∷ 45 ∷ [])
    ++ texts.number attempt

-- `full`
abbrev pub full_run_id : RunIdTexts → List ℕ → List ℕ → List ℕ → ℕ → List ℕ
full_run_id texts safe_experiment safe_case adapter_id attempt =
    safe_experiment ++ (46 ∷ safe_case ++ suffix texts adapter_id attempt)

abbrev pub short_digest : RunIdTexts → List ℕ → List ℕ
short_digest texts safe_case = take digest_length (texts.hexdigest safe_case)

-- `prefix_budget`; where the source's is negative, this is 0, which is too small alike.
abbrev pub prefix_budget : List ℕ → List ℕ → List ℕ → ℕ
prefix_budget safe_experiment end digest =
    max_run_id_length - length safe_experiment - length end - length digest - 2

abbrev pub shortened_run_id : List ℕ → List ℕ → List ℕ → List ℕ → List ℕ
shortened_run_id safe_experiment safe_case digest end =
    safe_experiment
    ++ (46 ∷ take (prefix_budget safe_experiment end digest) safe_case ++ (45 ∷ digest ++ end))

-- `build_run_id`
unfoldable pub build_run_id : RunIdTexts → List ℕ → List ℕ → List ℕ → ℕ → Result RunIdError (List ℕ)
build_run_id texts safe_experiment safe_case adapter_id attempt =
    let end = suffix texts adapter_id attempt in
    let full = full_run_id texts safe_experiment safe_case adapter_id attempt in
    let digest = short_digest texts safe_case in
    if leb (length full) max_run_id_length
    then ok full
    else if ltb (prefix_budget safe_experiment end digest) min_case_prefix
    then err no_room
    else ok (shortened_run_id safe_experiment safe_case digest end)
