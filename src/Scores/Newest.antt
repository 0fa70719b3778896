-- ===== src/Scores/Newest.antt =====
-- Without a given attempt, `select_attempts` selects the newest result of every case and adapter.
use mathlib.Core.Path.{subst}
use firm_arbiter.Prelude.{
  String, ◌≡◌, refl, sym, ◌∙◌, ◌≢◌, inl, inr, Bool, true, none, List, [], ◌∷◌, map, arith,
  Bool-cases, ℕ-Eq, String-Eq, ◌==◌, pair-Eq, Option-Eq, All, ok,
}
use firm_arbiter.Scores.{
  RunResult, rank_le, place_le, key_of, Group, group_from, place, sorted_results, filtered, newest,
  select_attempts,
}
use firm_arbiter.Scores.Latest.{Member, latest-Member, latest-max, members, InGroups, Keyed}
use firm_arbiter.Scores.Grouping.{group_from-keeps, group_from-only, groups-Keyed}
use firm_arbiter.Scores.Selection.{
  filtered-Member, sorted_results-Member, IsSorted, sorted_results-IsSorted, place-All,
}

-- No two results are of the same case and adapter.
abbrev pub HasDistinctKeys : List RunResult → Type 0
HasDistinctKeys [] = Unit
HasDistinctKeys (r ∷ rs) = All (λ s. key_of r ≢ key_of s) rs × HasDistinctKeys rs

place-HasDistinctKeys :
    (r : RunResult) (ss : List RunResult)
    → All (λ s. key_of r ≢ key_of s) ss
    → HasDistinctKeys ss
    → HasDistinctKeys (place r ss)
unfolding place
place-HasDistinctKeys r [] new h = (tt, tt)
place-HasDistinctKeys r (s ∷ ss) new h = elim (Bool-cases (place_le r s)) [
  | inl before ↦ rw before (new, h)
  | inr behind ↦ rw behind (
    place-All (λ u. key_of s ≢ key_of u) r ss (λ e. new.0 (sym e)) h.0,
    place-HasDistinctKeys r ss new.1 h.1,
  )
]

sorted_results-All :
    (P : RunResult → Type 0) (rs : List RunResult) → All P rs → All P (sorted_results rs)
unfolding sorted_results
sorted_results-All P [] f = tt
sorted_results-All P (r ∷ rs) f =
    place-All P r (sorted_results rs) f.0 (sorted_results-All P rs f.1)

sorted_results-HasDistinctKeys :
    (rs : List RunResult) → HasDistinctKeys rs → HasDistinctKeys (sorted_results rs)
unfolding sorted_results
sorted_results-HasDistinctKeys [] h = tt
sorted_results-HasDistinctKeys (r ∷ rs) h =
    place-HasDistinctKeys r (sorted_results rs)
      (sorted_results-All (λ s. key_of r ≢ key_of s) rs h.0) (sorted_results-HasDistinctKeys rs h.1)

newest-key : (g : Group) (gs : List Group) → Keyed (g ∷ gs) → key_of (newest g) ≡ g.key
newest-key g gs k = k.0 (newest g) (latest-Member g.first g.others)

newest-All :
    (r : RunResult) (g : Group) (gs : List Group)
    → key_of r ≡ g.key
    → All (λ h. g.key ≢ h.key) gs
    → Keyed gs
    → All (λ s. key_of r ≢ key_of s) (map newest gs)
newest-All r g [] same f k = tt
newest-All r g (h ∷ gs) same f k =
    (λ e. f.0 (sym same ∙ e ∙ newest-key h gs k), newest-All r g gs same f.1 k.2)

newest-HasDistinctKeys : (gs : List Group) → Keyed gs → HasDistinctKeys (map newest gs)
newest-HasDistinctKeys [] k = tt
newest-HasDistinctKeys (g ∷ gs) k =
    (newest-All (newest g) g gs (newest-key g gs k) k.1 k.2, newest-HasDistinctKeys gs k.2)

-- A result is at most as new as one of the same case and adapter among the selected.
abbrev pub IsCovered : List RunResult → RunResult → Type 0
IsCovered selected x =
    (r : RunResult) × Member r selected × (key_of r ≡ key_of x) × (rank_le x r ≡ true)

newest-IsCovered :
    (gs : List Group) (x : RunResult) → Keyed gs → InGroups x gs → IsCovered (map newest gs) x
newest-IsCovered [] x k m = absurd m
newest-IsCovered (g ∷ gs) x k (inl here) =
    (newest g, inl refl, newest-key g gs k ∙ sym (k.0 x here), latest-max g.first g.others x here)
newest-IsCovered (g ∷ gs) x k (inr later) =
    let (r, chosen, same, le) = newest-IsCovered gs x k.2 later in (r, inr chosen, same, le)

newest-InGroups : (gs : List Group) (r : RunResult) → Member r (map newest gs) → InGroups r gs
newest-InGroups [] r m = absurd m
newest-InGroups (g ∷ gs) r (inl same) =
    inl (subst (λ x. Member x (members g)) (sym same) (latest-Member g.first g.others))
newest-InGroups (g ∷ gs) r (inr later) = inr (newest-InGroups gs r later)

pub record IsNewest (results : List RunResult) (experiment_id : String) (selected : List RunResult)
    : Type 0 where
  pub chosen :
      (r : RunResult)
      → Member r selected
      → Member r results × (r.experiment_id == experiment_id ≡ true)
  pub covers :
      (x : RunResult)
      → Member x results
      → x.experiment_id == experiment_id ≡ true
      → IsCovered selected x
  pub one_each : HasDistinctKeys selected
  pub in_order : IsSorted selected

-- Without a given attempt, the selection returns results of the experiment alone, one for each case
-- and adapter of which there is any, such that no result of that case and adapter has a higher
-- attempt, or the same attempt and a later timestamp. They stand in the order of adapter and case.
pub select_attempts-IsNewest :
    (results selected : List RunResult) (experiment_id : String)
    → select_attempts results experiment_id none ≡ ok selected
    → IsNewest results experiment_id selected
unfolding select_attempts
select_attempts-IsNewest results selected experiment_id h =
    let in_experiment : RunResult → Bool = λ r. r.experiment_id == experiment_id in
    let gs = group_from [] (filtered in_experiment results) in
    let keyed = groups-Keyed (filtered in_experiment results) in
    let same : sorted_results (map newest gs) ≡ selected = ground arith in
    subst (IsNewest results experiment_id) same (record {
      chosen = λ r m.
          elim (group_from-only [] (filtered in_experiment results) r
            (newest-InGroups gs r ((sorted_results-Member r (map newest gs)).0 m))) [
              | inl nowhere ↦ absurd nowhere
              | inr found ↦ (filtered-Member in_experiment results r).0 found
            ];
      covers = λ x m e.
          let inside =
            group_from-keeps [] (filtered in_experiment results) x
              (inr ((filtered-Member in_experiment results x).1 (m, e))) in
          let (r, chosen, key, le) = newest-IsCovered gs x keyed inside in
          (r, (sorted_results-Member r (map newest gs)).1 chosen, key, le);
      one_each = sorted_results-HasDistinctKeys (map newest gs) (newest-HasDistinctKeys gs keyed);
      in_order = sorted_results-IsSorted (map newest gs);
    })
