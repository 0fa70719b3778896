-- ===== src/Residue/Difference.antt =====
-- The difference of two snapshots is the difference of their sets of identities.
use firm_arbiter.Prelude.{◌≡◌, refl, not, ◌&&◌, List, [], ◌∷◌, arith, Eq}
use firm_arbiter.Residue.{listed, unlisted, added_records, removed_records}

module _ {ℓ κ} {A : Type ℓ} {K : Type κ} ⦃e : Eq K⦄ (identity : A → K) where
  listed-unlisted :
      (known rs : List A) (k : K)
      → listed identity k (unlisted identity known rs)
        ≡ (listed identity k rs && not (listed identity k known))
  unfolding listed unlisted
  listed-unlisted known [] k = refl
  listed-unlisted known (r ∷ rs) k =
      ground (arith, listed-unlisted known rs k, e.agrees (identity r) k)

  -- An identity is added exactly if it is listed after and not before, and removed exactly if it is
  -- listed before and not after.
  pub listed-difference :
      (before after : List A) (k : K)
      → (listed identity k (added_records identity before after)
          ≡ (listed identity k after && not (listed identity k before)))
        × (listed identity k (removed_records identity before after)
            ≡ (listed identity k before && not (listed identity k after)))
  unfolding added_records removed_records
  listed-difference before after k =
      (listed-unlisted before after k, listed-unlisted after before k)
