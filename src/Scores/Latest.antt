-- ===== src/Scores/Latest.antt =====
-- The orders of the results, the newest of a group, and the groups.
use firm_arbiter.Prelude.{
  ◌≡◌, refl, sym, ap, ◌∙◌, ◌≢◌, ◌⊎◌, inl, inr, true, false, List, [], ◌∷◌, ◌++◌, arith, eq_iff,
  if◌then◌else◌, Bool-cases, ℕ-Eq, String-Eq, ◌==◌, pair-Eq, Option-Eq, All, text_le_refl,
  text_le_total, text_le_trans, text_le_antisym,
}
use mathlib.Core.Path.{subst}
use firm_arbiter.Scores.{
  RunResult, result_timestamp, rank_le, latest, place_le, key_of, Group, add_to_group,
}

abbrev pub Member : RunResult → List RunResult → Type 0
Member x [] = ⊥
Member x (y ∷ ys) = (x ≡ y) ⊎ Member x ys

rank_le_refl : (r : RunResult) → rank_le r r ≡ true
unfolding rank_le
rank_le_refl r = ground (arith, text_le_refl (result_timestamp r))

rank_le_total : (r s : RunResult) → rank_le r s ≡ false → rank_le s r ≡ true
unfolding rank_le
rank_le_total r s h = ground (arith, text_le_total (result_timestamp r) (result_timestamp s))

rank_le_trans : (r s u : RunResult) → rank_le r s ≡ true → rank_le s u ≡ true → rank_le r u ≡ true
unfolding rank_le
rank_le_trans r s u h k =
    ground (arith, text_le_trans (result_timestamp r) (result_timestamp s) (result_timestamp u))

pub place_le_total : (r s : RunResult) → place_le r s ≡ false → place_le s r ≡ true
unfolding place_le
place_le_total r s h = ground (
  arith,
  eq_iff r.adapter_id s.adapter_id,
  eq_iff s.adapter_id r.adapter_id,
  text_le_total r.case_id s.case_id,
  text_le_total r.adapter_id s.adapter_id,
)

pub place_le_trans :
    (r s u : RunResult) → place_le r s ≡ true → place_le s u ≡ true → place_le r u ≡ true
unfolding place_le
place_le_trans r s u h k = ground (
  arith,
  eq_iff r.adapter_id s.adapter_id,
  eq_iff s.adapter_id u.adapter_id,
  eq_iff r.adapter_id u.adapter_id,
  text_le_trans r.case_id s.case_id u.case_id,
  text_le_trans r.adapter_id s.adapter_id u.adapter_id,
  text_le_antisym r.adapter_id s.adapter_id,
)

-- One round of the search for the newest.
module _ (best r : RunResult) (rs : List RunResult) where
  latest_below : rank_le r best ≡ true → latest best (r ∷ rs) ≡ latest best rs
  unfolding latest
  latest_below below = ap (λ b. latest (if b then best else r) rs) below

  latest_above : rank_le r best ≡ false → latest best (r ∷ rs) ≡ latest r rs
  unfolding latest
  latest_above above = ap (λ b. latest (if b then best else r) rs) above

-- The newest is one of the group, and none of the group exceeds it.
pub latest-Member : (best : RunResult) (rs : List RunResult) → Member (latest best rs) (best ∷ rs)
latest-Member best [] = unfold latest in inl refl
latest-Member best (r ∷ rs) = elim (Bool-cases (rank_le r best)) [
  | inl below ↦
      let same = latest_below best r rs below in
      elim (latest-Member best rs) [
        | inl first ↦ inl (same ∙ first)
        | inr later ↦ inr (inr (subst (λ x. Member x rs) (sym same) later))
      ]
  | inr above ↦
      inr (subst (λ x. Member x (r ∷ rs)) (sym (latest_above best r rs above)) (latest-Member r rs))
]

latest_from : (best : RunResult) (rs : List RunResult) → rank_le best (latest best rs) ≡ true
latest_from best [] = unfold latest in rank_le_refl best
latest_from best (r ∷ rs) = elim (Bool-cases (rank_le r best)) [
  | inl below ↦ ap (rank_le best) (latest_below best r rs below) ∙ latest_from best rs
  | inr above ↦
      ap (rank_le best) (latest_above best r rs above)
      ∙ rank_le_trans best r (latest r rs) (rank_le_total r best above) (latest_from r rs)
]

pub latest-max :
    (best : RunResult) (rs : List RunResult) (x : RunResult)
    → Member x (best ∷ rs)
    → rank_le x (latest best rs) ≡ true
latest-max best rs x (inl same) = ap (λ y. rank_le y (latest best rs)) same ∙ latest_from best rs
latest-max best [] x (inr none_left) = absurd none_left
latest-max best (r ∷ rs) x (inr m) = elim (Bool-cases (rank_le r best)) [
  | inr above ↦ ap (rank_le x) (latest_above best r rs above) ∙ latest-max r rs x m
  | inl below ↦ ap (rank_le x) (latest_below best r rs below) ∙ elim m [
    | inl same ↦
        rank_le_trans x best (latest best rs) (ap (λ y. rank_le y best) same ∙ below)
          (latest_from best rs)
    | inr later ↦ latest-max best rs x (inr later)
  ]
]

abbrev pub members : Group → List RunResult
members g = g.first ∷ g.others

abbrev pub InGroups : RunResult → List Group → Type 0
InGroups x [] = ⊥
InGroups x (g ∷ gs) = Member x (members g) ⊎ InGroups x gs

-- Every member has its group's key, and no two groups have the same.
abbrev pub Keyed : List Group → Type 0
Keyed [] = Unit
Keyed (g ∷ gs) =
    ((x : RunResult) → Member x (members g) → key_of x ≡ g.key)
    × All (λ h. g.key ≢ h.key) gs
    × Keyed gs

Member-last : (x r : RunResult) (ys : List RunResult) → x ≡ r → Member x (ys ++ r ∷ [])
Member-last x r [] same = inl same
Member-last x r (y ∷ ys) same = inr (Member-last x r ys same)

Member-append : (x : RunResult) (ys zs : List RunResult) → Member x ys → Member x (ys ++ zs)
Member-append x [] zs m = absurd m
Member-append x (y ∷ ys) zs (inl same) = inl same
Member-append x (y ∷ ys) zs (inr m) = inr (Member-append x ys zs m)

pub Member-split :
    (x r : RunResult) (ys : List RunResult) → Member x (ys ++ r ∷ []) → (x ≡ r) ⊎ Member x ys
Member-split x r [] (inl same) = inl same
Member-split x r [] (inr m) = absurd m
Member-split x r (y ∷ ys) (inl same) = inr (inl same)
Member-split x r (y ∷ ys) (inr m) = elim (Member-split x r ys m) [
  | inl same ↦ inl same
  | inr earlier ↦ inr (inr earlier)
]

-- A result that is added is in a group, and all others stay where they were.
pub added : (r : RunResult) (gs : List Group) → InGroups r (add_to_group r gs)
unfolding add_to_group
added r [] = inl (inl refl)
added r (g ∷ gs) = elim (Bool-cases (g.key == key_of r)) [
  | inl same ↦ rw same (inl (inr (Member-last r r g.others refl)))
  | inr other ↦ rw other (inr (added r gs))
]

pub add_to_group-keeps :
    (x r : RunResult) (gs : List Group) → InGroups x gs → InGroups x (add_to_group r gs)
unfolding add_to_group
add_to_group-keeps x r [] m = absurd m
add_to_group-keeps x r (g ∷ gs) m = elim (Bool-cases (g.key == key_of r)) [
  | inl same ↦ rw same (elim m [
    | inl (inl e) ↦ inl (inl e)
    | inl (inr here) ↦ inl (inr (Member-append x g.others (r ∷ []) here))
    | inr later ↦ inr later
  ])
  | inr other ↦
      rw other (elim m [ inl here ↦ inl here | inr later ↦ inr (add_to_group-keeps x r gs later) ])
]
