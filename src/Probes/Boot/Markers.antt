-- ===== src/Probes/Boot/Markers.antt =====
-- What of the guest console is examined, and what its markers are.
use Prim.Native.Nat.{Ordering, min}
use Prim.Native.String.{compare as compare_text}
use mathlib.Core.List.{append_assoc, append-nil}
use text.Mathlib.TextEquality.{path_by_compare}
use firm_arbiter.Prelude.{
  ℕ, zero, suc, ◌-◌, ◌<◌, String, ◌≡◌, refl, ap, ◌∙◌, ◌↔◌, ◌⊎◌, inl, inr, true, some, List, [], ◌∷◌,
  ◌++◌, arith, ltb, Bool-cases, ℕ-Eq, String-Eq, pair-Eq, Option-Eq, length, take, length-append,
  length-take,
}
use firm_arbiter.Probes.Boot.{
  insert, Python, match_patterns, read_blocks, readable, console_evidence, kernel_patterns,
  userspace_patterns, failure_patterns,
}

-- All the bytes of the blocks.
abbrev pub joined : List (List ℕ) → List ℕ
joined [] = []
joined (block ∷ blocks) = block ++ joined blocks

module _ {ℓ} {A : Type ℓ} where
  take-nil : (n : ℕ) → take {A = A} n [] ≡ []
  take-nil zero = refl
  take-nil (suc n) = refl

  take-append : (n : ℕ) (xs ys : List A) → take n (xs ++ ys) ≡ take n xs ++ take (n - length xs) ys
  take-append zero xs ys = let e : 0 - length xs ≡ 0 = omega arith in rw e refl
  take-append (suc n) [] ys = let e : suc n - 0 ≡ suc n = omega arith in rw e refl
  take-append (suc n) (x ∷ xs) ys =
      let e : suc n - length (x ∷ xs) ≡ n - length xs = omega arith in
      rw e (ap (λ l. x ∷ l) (take-append n xs ys))

read_blocks-eq :
    (limit : ℕ) (examined digested : List ℕ) (blocks : List (List ℕ))
    → read_blocks limit examined digested blocks
      ≡ (examined ++ take (limit - length examined) (joined blocks), digested ++ joined blocks)
unfolding read_blocks
read_blocks-eq limit examined digested [] =
    rw (take-nil {A = ℕ} (limit - length examined), append-nil examined, append-nil digested) refl
read_blocks-eq limit examined digested (block ∷ blocks) =
    elim (Bool-cases (ltb 0 (limit - length examined))) [
      | inl room ↦
          let left : limit - length (examined ++ take (limit - length examined) block)
              ≡ limit - length examined - length block =
            omega (
              arith,
              length-append examined (take (limit - length examined) block),
              length-take (limit - length examined) block,
            ) in
          let rest =
            read_blocks-eq limit (examined ++ take (limit - length examined) block)
              (digested ++ block) blocks in
          rw (room, take-append (limit - length examined) block (joined blocks))
            (rw (left, append_assoc examined _ _, append_assoc digested block (joined blocks)) at
              rest)
      | inr full ↦
          let none_left : limit - length examined ≡ 0 = ground arith in
          let rest = read_blocks-eq limit examined (digested ++ block) blocks in
          rw none_left (rw (none_left, append_assoc digested block (joined blocks)) at rest)
    ]

-- A console that can be read is digested as a whole, and its markers are looked for in the first
-- bytes up to the limit, which are as many as the file has or the limit allows. It counts as
-- truncated exactly if its size is over the limit.
pub console_evidence-prefix :
    (py : Python) (path : String) (size limit : ℕ) (blocks : List (List ℕ))
    → let e = console_evidence py path (readable size blocks) limit in
      let s = py.decode (take limit (joined blocks)) in
      (e.sha256 ≡ some (py.sha256 (joined blocks)))
      × (e.bytes_examined ≡ min limit (length (joined blocks)))
      × ((e.truncated ≡ true) ↔ (limit < size))
      × (e.kernel_markers ≡ match_patterns py s kernel_patterns)
      × (e.userspace_markers ≡ match_patterns py s userspace_patterns)
      × (e.failure_markers ≡ match_patterns py s failure_patterns)
unfolding console_evidence
console_evidence-prefix py path size limit blocks =
    let whole : limit - 0 ≡ limit = omega arith in
    rw (read_blocks-eq limit [] [] blocks, whole)
      (refl, length-take limit (joined blocks), ground arith, refl, refl, refl)

-- `name in names`
abbrev pub Listed : String → List String → Type 0
Listed name [] = ⊥
Listed name (n ∷ names) = (name ≡ n) ⊎ Listed name names

-- Some entry of the table with that name has a pattern that is found in the text.
abbrev pub Found : Python → String → String → List (String × String) → Type 0
Found py s name [] = ⊥
Found py s name ((n, pattern) ∷ patterns) =
    ((name ≡ n) × (py.search pattern s ≡ true)) ⊎ Found py s name patterns

insert-Listed :
    (name n : String) (names : List String)
    → Listed name (insert n names) ↔ ((name ≡ n) ⊎ Listed name names)
unfolding insert
insert-Listed name n [] = (λ l. l, λ l. l)
insert-Listed name n (m ∷ names) = by_order (insert-Listed name n names) (compare_text n m) refl
  where
    by_order :
        Listed name (insert n names) ↔ ((name ≡ n) ⊎ Listed name names)
        → (o : Ordering) → compare_text n m ≡ o
        → Listed name (insert n (m ∷ names)) ↔ ((name ≡ n) ⊎ Listed name (m ∷ names))
    by_order rest Ordering.lt c = rw (c, Listed) (λ l. l, λ l. l)
    by_order rest Ordering.eq c =
        rw (c, Listed)
          (inr, λ l. elim l [ inl e ↦ inl (e ∙ path_by_compare n m c) | inr old ↦ old ])
    by_order rest Ordering.gt c =
        rw (c, Listed)
          (
            λ l. elim l [
              | inl e ↦ inr (inl e)
              | inr r ↦ elim (rest.0 r) [ inl e ↦ inl e | inr old ↦ inr (inr old) ]
            ],
            λ l. elim l [
              | inl e ↦ inr (rest.1 (inl e))
              | inr (inl e) ↦ inl e
              | inr (inr old) ↦ inr (rest.1 (inr old))
            ],
          )

-- The markers are the names of the table's patterns that are found in the text, and no other.
pub match_patterns-Found :
    (py : Python) (s name : String) (patterns : List (String × String))
    → Listed name (match_patterns py s patterns) ↔ Found py s name patterns
unfolding match_patterns
match_patterns-Found py s name [] = (λ l. l, λ l. l)
match_patterns-Found py s name ((n, pattern) ∷ patterns) =
    let (there, back) = match_patterns-Found py s name patterns in
    let (out, into) = insert-Listed name n (match_patterns py s patterns) in
    elim (Bool-cases (py.search pattern s)) [
      | inl hit ↦ rw hit (
        λ l. elim (out l) [ inl e ↦ inl (e, refl) | inr old ↦ inr (there old) ],
        λ f. elim f [ inl (e, _) ↦ into (inl e) | inr old ↦ into (inr (back old)) ],
      )
      | inr miss ↦ rw miss (
        λ l. inr (there l),
        λ f. elim f [ inl (_, bad) ↦ absurd (ground arith) | inr old ↦ back old ],
      )
    ]
