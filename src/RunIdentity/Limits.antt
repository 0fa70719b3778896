-- ===== src/RunIdentity/Limits.antt =====
-- The length of a run id, what it keeps of its parts, and when there is none.
use Prim.Native.Nat.{min}
use firm_arbiter.Prelude.{
  ℕ, ◌+◌, ◌≤◌, ◌<◌, ◌≡◌, refl, sym, ap, ◌∙◌, ◌↔◌, inl, inr, List, [], ◌∷◌, ◌++◌, arith, ltb, leb,
  Bool-cases, ℕ-Eq, String-Eq, pair-Eq, Option-Eq, length, drop, take, length-append,
  drop-length-append, length-take, ok, err,
}
use firm_arbiter.RunIdentity.{
  no_room, RunIdTexts, suffix, full_run_id, short_digest, prefix_budget, shortened_run_id,
  build_run_id,
}

module _ {ℓ} {A : Type ℓ} where
  take-length-append : (xs ys : List A) → take (length xs) (xs ++ ys) ≡ xs
  take-length-append [] ys = refl
  take-length-append (x ∷ xs) ys = ap (λ l. x ∷ l) (take-length-append xs ys)

  -- Equal texts whose first parts are equally long have equal parts.
  append-injective :
      (xs ys us vs : List A) → length xs ≡ length ys → xs ++ us ≡ ys ++ vs → (xs ≡ ys) × (us ≡ vs)
  append-injective xs ys us vs same h = (
    sym (take-length-append xs us)
        ∙ ap (take (length xs)) h
        ∙ ap (λ n. take n (ys ++ vs)) same
        ∙ take-length-append ys vs,
    sym (drop-length-append xs us)
        ∙ ap (drop (length xs)) h
        ∙ ap (λ n. drop n (ys ++ vs)) same
        ∙ drop-length-append ys vs,
  )

module _ (texts : RunIdTexts) (safe_experiment safe_case adapter_id : List ℕ) (attempt : ℕ) where
  abbrev end : List ℕ
  end = suffix texts adapter_id attempt

  abbrev digest : List ℕ
  digest = short_digest texts safe_case

  length-full_run_id :
      length (full_run_id texts safe_experiment safe_case adapter_id attempt)
      ≡ length safe_experiment + length safe_case + length end + 1
  length-full_run_id =
      omega
        (arith, length-append safe_experiment (46 ∷ safe_case ++ end), length-append safe_case end)

  length-shortened_run_id :
      length (shortened_run_id safe_experiment safe_case digest end)
      ≡ length safe_experiment
        + min (prefix_budget safe_experiment end digest) (length safe_case)
        + length digest
        + length end
        + 2
  length-shortened_run_id =
      let kept = take (prefix_budget safe_experiment end digest) safe_case in
      omega (
        arith,
        length-append safe_experiment (46 ∷ kept ++ (45 ∷ digest ++ end)),
        length-append kept (45 ∷ digest ++ end),
        length-append digest end,
        length-take (prefix_budget safe_experiment end digest) safe_case,
      )

  -- A run id is never longer than 128 characters.
  pub build_run_id_fits :
      (id : List ℕ)
      → build_run_id texts safe_experiment safe_case adapter_id attempt ≡ ok id
      → length id ≤ 128
  unfolding build_run_id
  build_run_id_fits id h =
      let whole = length-full_run_id in
      let short = length-shortened_run_id in
      elim (Bool-cases
        (leb (length (full_run_id texts safe_experiment safe_case adapter_id attempt)) 128)) [
          | inl fits ↦ ground (arith, whole)
          | inr long ↦ elim (Bool-cases (ltb (prefix_budget safe_experiment end digest) 8)) [
            | inl tight ↦ absurd (ground arith)
            | inr room ↦
                let same : shortened_run_id safe_experiment safe_case digest end ≡ id =
                  ground arith in
                let wide : 8 ≤ prefix_budget safe_experiment end digest = ground arith in
                omega (arith, ap length same, short, wide)
          ]
        ]

  -- With a digest of 64 characters, there is no run id exactly if the full one is too long and the
  -- experiment and the suffix have more than 108 characters, which leaves none for the case's name.
  pub build_run_id_raises :
      length (texts.hexdigest safe_case) ≡ 64
      → (build_run_id texts safe_experiment safe_case adapter_id attempt ≡ err no_room) ↔ (
          (128 < length (full_run_id texts safe_experiment safe_case adapter_id attempt))
          × (108 < length safe_experiment + length (suffix texts adapter_id attempt)))
  unfolding build_run_id
  build_run_id_raises h =
      let short = length-take 10 (texts.hexdigest safe_case) in
      (ground (arith, short, h), ground (arith, short, h))

  shortened_lem :
      (id : List ℕ)
      → 128 < length (full_run_id texts safe_experiment safe_case adapter_id attempt)
      → build_run_id texts safe_experiment safe_case adapter_id attempt ≡ ok id
      → shortened_run_id safe_experiment safe_case digest end ≡ id
  unfolding build_run_id
  shortened_lem id long h = ground arith

  -- The part of the case's name that is kept is as long as the budget.
  length-kept :
      128 < length (full_run_id texts safe_experiment safe_case adapter_id attempt)
      → length (take (prefix_budget safe_experiment end digest) safe_case)
        ≡ prefix_budget safe_experiment end digest
  length-kept long = omega (
    arith,
    long,
    length-full_run_id,
    length-take (prefix_budget safe_experiment end digest) safe_case,
  )

module _ (texts : RunIdTexts) (safe_experiment a b adapter_id : List ℕ) (attempt : ℕ) where
  -- Two cases whose ids are shortened, with digests of 64 characters, get the same id only if the
  -- digests of their full names agree in the characters that an id shows.
  pub build_run_id-same :
      (id : List ℕ)
      → length (texts.hexdigest a) ≡ 64
      → length (texts.hexdigest b) ≡ 64
      → 128 < length (full_run_id texts safe_experiment a adapter_id attempt)
      → 128 < length (full_run_id texts safe_experiment b adapter_id attempt)
      → build_run_id texts safe_experiment a adapter_id attempt ≡ ok id
      → build_run_id texts safe_experiment b adapter_id attempt ≡ ok id
      → short_digest texts a ≡ short_digest texts b
  build_run_id-same id ha hb la lb ea eb =
      let da = length-take 10 (texts.hexdigest a) in
      let db = length-take 10 (texts.hexdigest b) in
      let end = suffix texts adapter_id attempt in
      let na = prefix_budget safe_experiment end (short_digest texts a) in
      let nb = prefix_budget safe_experiment end (short_digest texts b) in
      let whole =
        shortened_lem texts safe_experiment a adapter_id attempt id la ea
        ∙ sym (shortened_lem texts safe_experiment b adapter_id attempt id lb eb) in
      let named = (append-injective safe_experiment safe_experiment _ _ refl whole).1 in
      let kept : length (46 ∷ take na a) ≡ length (46 ∷ take nb b) = omega (
        arith,
        da,
        db,
        ha,
        hb,
        length-kept texts safe_experiment a adapter_id attempt la,
        length-kept texts safe_experiment b adapter_id attempt lb,
      ) in
      let tails = (append-injective (46 ∷ take na a) (46 ∷ take nb b) _ _ kept named).1 in
      let digests : length (45 ∷ short_digest texts a) ≡ length (45 ∷ short_digest texts b) =
        omega (arith, da, db, ha, hb) in
      ap (drop 1)
        (append-injective (45 ∷ short_digest texts a) (45 ∷ short_digest texts b) end end digests
          tails).0
