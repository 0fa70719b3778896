-- ===== src/Probes/Authenticity/Evidence.antt =====
-- What the evidence of an authenticity observation is.
use firm_arbiter.Prelude.{
  eq_iff, ℕ, suc, String, ◌≡◌, refl, ◌≢◌, ◌↔◌, inl, inr, true, false, some, List, [], ◌∷◌, arith,
  Bool-cases, Option-cases, ◌==◌, ℕ-Eq, String-Eq, pair-Eq, Option-Eq, any_of, get_elem?,
}
use firm_arbiter.Json.{Json, text}
use firm_arbiter.Probes.Authenticity.{
  HttpServiceSnapshot, attributed, not_attributed, inconclusive, trusted_hashes, trusted_match,
  evaluate_http_authenticity,
}

different : (a b : String) → (a == b) ≡ false → a ≢ b
different a b d h = ground (arith, (eq_iff a b).1 h)

module _ (lower : String → String) where
  -- A hash with the same letters, whatever their case, is among the trusted values.
  pub record IsTrusted (hash : String) (trusted : List Json) : Type 0 where
    pub index : ℕ
    pub value : String
    pub listed : get_elem? trusted index ≡ some (text value)
    pub same : lower value ≡ lower hash

  IsTrusted-cons :
      (hash : String) (v : Json) (trusted : List Json)
      → IsTrusted hash trusted
      → IsTrusted hash (v ∷ trusted)
  IsTrusted-cons hash v trusted t = record {
    index = suc t.index;
    value = t.value;
    listed = t.listed;
    same = t.same;
  }

  trusted_hashes-IsTrusted :
      (hash : String) (trusted : List Json)
      → any_of (λ h. h == lower hash) (trusted_hashes lower trusted) ≡ true
      → IsTrusted hash trusted
  unfolding trusted_hashes
  trusted_hashes-IsTrusted hash [] h = cc
  trusted_hashes-IsTrusted hash (text v ∷ trusted) h = elim (Bool-cases (lower v == lower hash)) [
    | inl here ↦ record {
      index = 0;
      value = v;
      listed = refl;
      same = (eq_iff (lower v) (lower hash)).0 here;
    }
    | inr other ↦
        IsTrusted-cons hash (text v) trusted (trusted_hashes-IsTrusted hash trusted (ground arith))
  ]
  trusted_hashes-IsTrusted hash (v ∷ trusted) h =
      IsTrusted-cons hash v trusted (trusted_hashes-IsTrusted hash trusted h)

  trusted_match-parts :
      (active : HttpServiceSnapshot) (trusted : List Json)
      → trusted_match lower active trusted ≡ true
      → (hash : String) × (active.body_sha256 ≡ some hash)
        × (active.body_truncated ≢ some true)
        × IsTrusted hash trusted
  unfolding trusted_match
  trusted_match-parts active trusted h = elim (Option-cases active.body_sha256) [
    | inl missing ↦ absurd (ground arith)
    | inr (hash, found) ↦
        (hash, found, ground arith, trusted_hashes-IsTrusted hash trusted (ground arith))
  ]

  -- A response is attributed to the candidate only if it was captured while the candidate ran, its
  -- body was not truncated, the hash of its body is a trusted one, the endpoint was unreachable
  -- after the shutdown, and that hash is the one reported.
  pub attributed_means :
      (active post_shutdown : HttpServiceSnapshot) (trusted : List Json) (now : String)
      → (evaluate_http_authenticity lower active post_shutdown trusted now).status ≡ attributed
      → let o = evaluate_http_authenticity lower active post_shutdown trusted now in
        (active.status ≡ "captured")
        × (post_shutdown.status ≡ "unreachable")
        × (o.endpoint_disappeared_after_shutdown ≡ some true)
        × ((hash : String) × (active.body_sha256 ≡ some hash)
            × (o.matched_sha256 ≡ some hash)
            × (active.body_truncated ≢ some true)
            × IsTrusted hash trusted)
  unfolding evaluate_http_authenticity
  attributed_means active post_shutdown trusted now h =
      let matched : trusted_match lower active trusted ≡ true = ground arith in
      let (hash, found, whole, trusty) = trusted_match-parts active trusted matched in
      (
        ground (arith, eq_iff active.status "captured"),
        ground (arith, eq_iff post_shutdown.status "unreachable"),
        ground arith,
        (hash, found, ground arith, whole, trusty),
      )

  -- A response that was captured while the candidate ran is attributed, not attributed or
  -- inconclusive by the state after the shutdown and the match: not attributed exactly if the
  -- endpoint still answered, whatever the body; attributed exactly if it was unreachable and the
  -- body matched; and inconclusive exactly if it was unreachable and the body did not match.
  pub captured_table :
      (active post_shutdown : HttpServiceSnapshot) (trusted : List Json) (now : String)
      → active.status ≡ "captured"
      → let o = evaluate_http_authenticity lower active post_shutdown trusted now in
        let matched = trusted_match lower active trusted in
        ((o.status ≡ not_attributed) ↔ (post_shutdown.status ≡ "captured"))
        × ((o.status ≡ attributed) ↔ ((post_shutdown.status ≡ "unreachable") × (matched ≡ true)))
        × ((o.status ≡ inconclusive) ↔ ((post_shutdown.status ≡ "unreachable") × (matched ≡ false)))
  unfolding evaluate_http_authenticity
  captured_table active post_shutdown trusted now h =
      let still_up = eq_iff post_shutdown.status "captured" in
      let gone = eq_iff post_shutdown.status "unreachable" in
      let broken = eq_iff post_shutdown.status "probe_error" in
      let a = different "captured" "unreachable" refl in
      let b = different "captured" "probe_error" refl in
      let c = different "unreachable" "probe_error" refl in
      rw h (
        (
          ground (arith, still_up, gone, broken, a, b, c),
          ground (arith, still_up, gone, broken, a, b, c),
        ),
        (
          ground (arith, still_up, gone, broken, a, b, c),
          ground (arith, still_up, gone, broken, a, b, c),
        ),
        (
          ground (arith, still_up, gone, broken, a, b, c),
          ground (arith, still_up, gone, broken, a, b, c),
        ),
      )
