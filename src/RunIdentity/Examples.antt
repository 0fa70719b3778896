-- ===== src/RunIdentity/Examples.antt =====
-- Run ids at concrete inputs.
use firm_arbiter.Prelude.{
  ℕ, zero, suc, ◌≤◌, ◌≡◌, refl, List, [], ◌∷◌, ℕ-Eq, String-Eq, pair-Eq, Option-Eq, length, ok,
}
use firm_arbiter.RunIdentity.{RunIdTexts, suffix, short_digest, shortened_run_id, build_run_id}
use firm_arbiter.RunIdentity.Limits.{build_run_id_fits}

-- A text of the same character, again and again.
abbrev repeated : ℕ → List ℕ
repeated zero = []
repeated (suc n) = 97 ∷ repeated n

abbrev texts : RunIdTexts
texts = record { number = λ n. 49 ∷ []; hexdigest = λ s. repeated 64 }

abbrev long_name : List ℕ
long_name = repeated 120

abbrev longer_name : List ℕ
longer_name = repeated 121

abbrev short_id : List ℕ
short_id =
    shortened_run_id (101 ∷ []) long_name (short_digest texts long_name) (suffix texts (102 ∷ []) 1)

long_id : build_run_id texts (101 ∷ []) long_name (102 ∷ []) 1 ≡ ok short_id
unfolding build_run_id
long_id = refl

longer_id : build_run_id texts (101 ∷ []) longer_name (102 ∷ []) 1 ≡ ok short_id
unfolding build_run_id
longer_id = refl

build_run_id_fits_example : length short_id ≤ 128
build_run_id_fits_example =
    build_run_id_fits texts (101 ∷ []) long_name (102 ∷ []) 1 short_id long_id
