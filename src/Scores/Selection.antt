-- ===== src/Scores/Selection.antt =====
-- What `select_attempts` selects.
use firm_arbiter.Prelude.{
  ◌≡◌, ap, ◌∙◌, ◌↔◌, ◌⊎◌, inl, inr, Bool, true, List, [], ◌∷◌, arith, Bool-cases, ℕ-Eq, String-Eq,
  pair-Eq, Option-Eq, All, All-imp,
}
use firm_arbiter.Scores.{RunResult, place_le, place, sorted_results, filtered}
use firm_arbiter.Scores.Latest.{Member, place_le_total, place_le_trans}

pub filtered-Member :
    (p : RunResult → Bool) (rs : List RunResult) (x : RunResult)
    → Member x (filtered p rs) ↔ (Member x rs × (p x ≡ true))
unfolding filtered
filtered-Member p [] x = (λ m. absurd m, λ m. absurd m.0)
filtered-Member p (r ∷ rs) x =
    let ih = filtered-Member p rs x in
    elim (Bool-cases (p r)) [
      | inl keep ↦ (
        λ m. elim (rw keep at m) [
          | inl same ↦ (inl same, ap p same ∙ keep)
          | inr later ↦ let (found, holds) = ih.0 later in (inr found, holds)
        ],
        λ m. rw keep (elim m.0 [ inl same ↦ inl same | inr later ↦ inr (ih.1 (later, m.1)) ]),
      )
      | inr out ↦ (
        λ m. let (found, holds) = ih.0 (rw out at m) in (inr found, holds),
        λ m. rw out (elim m.0 [
          | inl same ↦ absurd (ground (arith, ap p same))
          | inr later ↦ ih.1 (later, m.1)
        ]),
      )
    ]

place-Member :
    (x r : RunResult) (ss : List RunResult) → Member x (place r ss) ↔ ((x ≡ r) ⊎ Member x ss)
unfolding place
place-Member x r [] = (λ m. m, λ m. m)
place-Member x r (s ∷ ss) =
    let ih = place-Member x r ss in
    elim (Bool-cases (place_le r s)) [
      | inl before ↦ (λ m. rw before at m, λ m. rw before m)
      | inr behind ↦ (
        λ m. elim (rw behind at m) [
          | inl same ↦ inr (inl same)
          | inr later ↦ elim (ih.0 later) [ inl e ↦ inl e | inr found ↦ inr (inr found) ]
        ],
        λ m. rw behind (elim m [
          | inl e ↦ inr (ih.1 (inl e))
          | inr rest ↦ elim rest [ inl same ↦ inl same | inr found ↦ inr (ih.1 (inr found)) ]
        ]),
      )
    ]

pub sorted_results-Member :
    (x : RunResult) (rs : List RunResult) → Member x (sorted_results rs) ↔ Member x rs
unfolding sorted_results
sorted_results-Member x [] = (λ m. m, λ m. m)
sorted_results-Member x (r ∷ rs) =
    let ih = sorted_results-Member x rs in
    let here = place-Member x r (sorted_results rs) in
    (
      λ m. elim (here.0 m) [ inl same ↦ inl same | inr later ↦ inr (ih.0 later) ],
      λ m. here.1 (elim m [ inl same ↦ inl same | inr later ↦ inr (ih.1 later) ]),
    )

-- A list in the order of adapter and case.
abbrev pub IsSorted : List RunResult → Type 0
IsSorted [] = Unit
IsSorted (r ∷ rs) = All (λ s. place_le r s ≡ true) rs × IsSorted rs

pub place-All :
    (P : RunResult → Type 0) (r : RunResult) (ss : List RunResult)
    → P r
    → All P ss
    → All P (place r ss)
unfolding place
place-All P r [] h f = (h, tt)
place-All P r (s ∷ ss) h f = elim (Bool-cases (place_le r s)) [
  | inl before ↦ rw before (h, f)
  | inr behind ↦ rw behind (f.0, place-All P r ss h f.1)
]

place-IsSorted : (r : RunResult) (ss : List RunResult) → IsSorted ss → IsSorted (place r ss)
unfolding place
place-IsSorted r [] h = (tt, tt)
place-IsSorted r (s ∷ ss) h = elim (Bool-cases (place_le r s)) [
  | inl before ↦ rw before (
    (
      before,
      All-imp (λ u. place_le s u ≡ true) (λ u. place_le r u ≡ true) ss
          (λ u le. place_le_trans r s u before le) h.0,
    ),
    h,
  )
  | inr behind ↦ rw behind (
    place-All (λ u. place_le s u ≡ true) r ss (place_le_total r s behind) h.0,
    place-IsSorted r ss h.1,
  )
]

pub sorted_results-IsSorted : (rs : List RunResult) → IsSorted (sorted_results rs)
unfolding sorted_results
sorted_results-IsSorted [] = tt
sorted_results-IsSorted (r ∷ rs) = place-IsSorted r (sorted_results rs) (sorted_results-IsSorted rs)
