-- ===== src/Prelude/Texts.antt =====
-- The order of texts by their code points, as Python compares them.
use Prim.Native.Nat.{Ordering, compare as compare_ℕ}
use Prim.Native.Char.{Char, code}
use Prim.Native.String.compare
use Prim.Native.String.{String, [], ◌∷◌, then, compare}
use mathlib.Core.Path.{◌≡◌, refl, ap, ◌∙◌}
use mathlib.Core.Bool.{Bool, true, false}
use native.Mathlib.Omega.{arith}
use text.Mathlib.TextEquality.{codes_equal}

abbrev not_greater : Ordering → Bool
not_greater Ordering.gt = false
not_greater _ = true

-- `s <= t`
abbrev pub text_le : String → String → Bool
text_le s t = not_greater (compare s t)

-- The first characters that differ decide.
head_le : Char → Char → Bool → Bool
head_le c d rest = elim (compare_ℕ (code c) (code d)) [
  | Ordering.lt ↦ true
  | Ordering.eq ↦ rest
  | Ordering.gt ↦ false
]

text_le-cons : (c d : Char) (s t : String) → text_le (c ∷ s) (d ∷ t) ≡ head_le c d (text_le s t)
unfolding head_le
text_le-cons c d s t =
    ap not_greater (compare.cons-cons c d s t) ∙ go (compare_ℕ (code c) (code d)) (compare s t)
  where
    go :
        (o p : Ordering)
        → not_greater (then o p)
          ≡ elim o [ Ordering.lt ↦ true | Ordering.eq ↦ not_greater p | Ordering.gt ↦ false ]
    go Ordering.lt p = refl
    go Ordering.eq p = refl
    go Ordering.gt p = refl

text_le-nil : (d : Char) (t : String) → text_le [] (d ∷ t) ≡ true
text_le-nil d t = ap not_greater (compare.nil-cons d t)

text_le-cons_nil : (c : Char) (s : String) → text_le (c ∷ s) [] ≡ false
text_le-cons_nil c s = ap not_greater (compare.cons-nil c s)

pub text_le_refl : (s : String) → text_le s s ≡ true
unfolding head_le
text_le_refl [] = ap not_greater compare.nil-nil
text_le_refl (c ∷ s) = ground (arith, text_le-cons c c s s, text_le_refl s)

pub text_le_total : (s t : String) → text_le s t ≡ false → text_le t s ≡ true
unfolding head_le
text_le_total [] [] h = text_le_refl []
text_le_total [] (d ∷ t) h = absurd (ground (arith, text_le-nil d t))
text_le_total (c ∷ s) [] h = text_le-nil c s
text_le_total (c ∷ s) (d ∷ t) h =
    ground (arith, text_le-cons c d s t, text_le-cons d c t s, text_le_total s t)

pub text_le_trans : (s t u : String) → text_le s t ≡ true → text_le t u ≡ true → text_le s u ≡ true
unfolding head_le
text_le_trans [] [] u h k = k
text_le_trans [] (d ∷ t) [] h k = text_le_refl []
text_le_trans [] (d ∷ t) (e ∷ u) h k = text_le-nil e u
text_le_trans (c ∷ s) [] u h k = absurd (ground (arith, text_le-cons_nil c s))
text_le_trans (c ∷ s) (d ∷ t) [] h k = absurd (ground (arith, text_le-cons_nil d t))
text_le_trans (c ∷ s) (d ∷ t) (e ∷ u) h k =
    ground
      (arith, text_le-cons c d s t, text_le-cons d e t u, text_le-cons c e s u, text_le_trans s t u)

pub text_le_antisym : (s t : String) → text_le s t ≡ true → text_le t s ≡ true → s ≡ t
unfolding head_le
text_le_antisym [] [] h k = refl
text_le_antisym [] (d ∷ t) h k = absurd (ground (arith, text_le-cons_nil d t))
text_le_antisym (c ∷ s) [] h k = absurd (ground (arith, text_le-cons_nil c s))
text_le_antisym (c ∷ s) (d ∷ t) h k =
    let same : c ≡ d =
      codes_equal c d (ground (arith, text_le-cons c d s t, text_le-cons d c t s)) in
    let rest : s ≡ t =
      text_le_antisym s t (ground (arith, text_le-cons c d s t, text_le-cons d c t s))
        (ground (arith, text_le-cons c d s t, text_le-cons d c t s)) in
    rw (same, rest) refl
