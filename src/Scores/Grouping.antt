-- ===== src/Scores/Grouping.antt =====
-- The groups that `select_attempts` forms hold exactly the results, each under its own key.
use mathlib.Core.Path.{subst}
use firm_arbiter.Prelude.{
  ◌≡◌, sym, ap, ◌∙◌, ◌≢◌, ◌↔◌, ◌⊎◌, inl, inr, true, List, [], ◌∷◌, arith, Bool-cases, ℕ-Eq,
  String-Eq, ◌==◌, pair_eq_iff, pair-Eq, Option-Eq, All,
}
use firm_arbiter.Scores.{RunResult, Key, key_of, Group, add_to_group, group_from}
use firm_arbiter.Scores.Latest.{Member, InGroups, Keyed, Member-split, added, add_to_group-keeps}

add_to_group-only :
    (x r : RunResult) (gs : List Group) → InGroups x (add_to_group r gs) → (x ≡ r) ⊎ InGroups x gs
unfolding add_to_group
add_to_group-only x r [] (inl (inl same)) = inl same
add_to_group-only x r [] (inl (inr m)) = absurd m
add_to_group-only x r [] (inr m) = absurd m
add_to_group-only x r (g ∷ gs) m = elim (Bool-cases (g.key == key_of r)) [
  | inl same ↦ elim (rw same at m) [
    | inl (inl e) ↦ inr (inl (inl e))
    | inl (inr here) ↦ elim (Member-split x r g.others here) [
      | inl e ↦ inl e
      | inr earlier ↦ inr (inl (inr earlier))
    ]
    | inr later ↦ inr (inr later)
  ]
  | inr other ↦ elim (rw other at m) [
    | inl here ↦ inr (inl here)
    | inr later ↦ elim (add_to_group-only x r gs later) [
      | inl e ↦ inl e
      | inr found ↦ inr (inr found)
    ]
  ]
]

key_iff : (k l : Key) → (k == l ≡ true) ↔ (k ≡ l)
key_iff k l = pair_eq_iff k l

-- No group has a key.
abbrev Fresh : Key → List Group → Type 0
Fresh k = All (λ h. k ≢ h.key)

Fresh-add :
    (k : Key) (r : RunResult) (gs : List Group)
    → k ≢ key_of r
    → Fresh k gs
    → Fresh k (add_to_group r gs)
unfolding add_to_group
Fresh-add k r [] new f = (new, tt)
Fresh-add k r (g ∷ gs) new f = elim (Bool-cases (g.key == key_of r)) [
  | inl same ↦ rw same f
  | inr other ↦ rw other (f.0, Fresh-add k r gs new f.1)
]

add_to_group-Keyed : (r : RunResult) (gs : List Group) → Keyed gs → Keyed (add_to_group r gs)
unfolding add_to_group
add_to_group-Keyed r [] k =
    (λ x m. elim m [ inl same ↦ ap key_of same | inr none_left ↦ absurd none_left ], tt, tt)
add_to_group-Keyed r (g ∷ gs) k = elim (Bool-cases (g.key == key_of r)) [
  | inl same ↦
      let here : g.key ≡ key_of r = (key_iff g.key (key_of r)).0 same in
      rw same (
        λ x m. elim m [
          | inl first ↦ k.0 x (inl first)
          | inr rest ↦ elim (Member-split x r g.others rest) [
            | inl last ↦ ap key_of last ∙ sym here
            | inr earlier ↦ k.0 x (inr earlier)
          ]
        ],
        k.1,
        k.2,
      )
  | inr other ↦
      let differ : g.key ≢ key_of r =
        λ same. absurd (ground (arith, (key_iff g.key (key_of r)).1 same)) in
      rw other (k.0, Fresh-add g.key r gs differ k.1, add_to_group-Keyed r gs k.2)
]

group_from-Keyed : (gs : List Group) (rs : List RunResult) → Keyed gs → Keyed (group_from gs rs)
unfolding group_from
group_from-Keyed gs [] k = k
group_from-Keyed gs (r ∷ rs) k = group_from-Keyed (add_to_group r gs) rs (add_to_group-Keyed r gs k)

pub group_from-keeps :
    (gs : List Group) (rs : List RunResult) (x : RunResult)
    → InGroups x gs ⊎ Member x rs
    → InGroups x (group_from gs rs)
unfolding group_from
group_from-keeps gs [] x (inl m) = m
group_from-keeps gs [] x (inr m) = absurd m
group_from-keeps gs (r ∷ rs) x (inl m) =
    group_from-keeps (add_to_group r gs) rs x (inl (add_to_group-keeps x r gs m))
group_from-keeps gs (r ∷ rs) x (inr (inl same)) =
    group_from-keeps (add_to_group r gs) rs x
      (inl (subst (λ y. InGroups y (add_to_group r gs)) (sym same) (added r gs)))
group_from-keeps gs (r ∷ rs) x (inr (inr m)) = group_from-keeps (add_to_group r gs) rs x (inr m)

pub group_from-only :
    (gs : List Group) (rs : List RunResult) (x : RunResult)
    → InGroups x (group_from gs rs)
    → InGroups x gs ⊎ Member x rs
unfolding group_from
group_from-only gs [] x m = inl m
group_from-only gs (r ∷ rs) x m = elim (group_from-only (add_to_group r gs) rs x m) [
  | inr later ↦ inr (inr later)
  | inl found ↦ elim (add_to_group-only x r gs found) [
    | inl same ↦ inr (inl same)
    | inr before ↦ inl before
  ]
]

pub groups-Keyed : (rs : List RunResult) → Keyed (group_from [] rs)
groups-Keyed rs = group_from-Keyed [] rs tt
