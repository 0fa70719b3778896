-- ===== src/EventStream/Loop.antt =====
-- One round of the loop of `read_new`, and what `readline` cuts off.
use firm_arbiter.Prelude.{
  ℕ, zero, suc, ◌+◌, ◌<◌, ◌≡◌, refl, sym, ap, ◌∙◌, inl, inr, true, false, List, [], ◌∷◌, ◌++◌,
  arith, nat_eq, Bool-cases, length, length-append, Result-cases, ok,
}
use mathlib.Core.List.{append_assoc}
use firm_arbiter.Json.{Fields}
use firm_arbiter.EventStream.{
  Codec, Stream, readline, ends_with_newline, take_line, read_loop, validate_document, start_order,
}

-- A successful loop either stops at an incomplete line or admits a line and goes on.
pub data Round (lib : Codec) (fuel : ℕ) (s t : Stream) (bytes : List ℕ) (records out : List Fields)
    : Type 0 where
  stops :
      ends_with_newline (readline bytes).0 ≡ false
      → t ≡ s
      → out ≡ records
      → Round lib fuel s t bytes records out
  goes :
      (u : Stream) (doc : Fields)
      → ends_with_newline (readline bytes).0 ≡ true
      → take_line lib s (readline bytes).0 ≡ (u, ok doc)
      → read_loop lib fuel u (readline bytes).1 (records ++ doc ∷ []) ≡ (t, ok out)
      → Round lib fuel s t bytes records out

module _ (lib : Codec) (fuel : ℕ) (s t : Stream) (bytes : List ℕ) (records out : List Fields) where
  pub read_loop-Round :
      read_loop lib (suc fuel) s bytes records ≡ (t, ok out) → Round lib fuel s t bytes records out
  unfolding read_loop
  read_loop-Round h = elim (Bool-cases (ends_with_newline (readline bytes).0)) [
    | inl more ↦ elim (Result-cases (take_line lib s (readline bytes).0).1) [
      | inl (e, failed) ↦ absurd (ground arith)
      | inr (doc, done) ↦
          Round.goes (take_line lib s (readline bytes).0).0 doc more (ground arith) (ground arith)
    ]
    | inr last ↦ Round.stops last (ground arith) (ground arith)
  ]

-- `readline` splits the bytes.
pub readline_split : (bytes : List ℕ) → bytes ≡ (readline bytes).0 ++ (readline bytes).1
unfolding readline
readline_split [] = refl
readline_split (b ∷ bytes) = ground (arith, readline_split bytes)

pub ends_with_newline-tail :
    (b : ℕ) (line : List ℕ)
    → nat_eq b 10 ≡ false
    → ends_with_newline (b ∷ line) ≡ true
    → ends_with_newline line ≡ true
unfolding ends_with_newline
ends_with_newline-tail b [] other h = ground arith
ends_with_newline-tail b (c ∷ line) other h = h

-- A complete line has a byte, so the rest is shorter.
pub readline_shrinks :
    (bytes : List ℕ)
    → ends_with_newline (readline bytes).0 ≡ true
    → length (readline bytes).1 < length bytes
unfolding readline ends_with_newline
readline_shrinks [] h = cc
readline_shrinks (b ∷ bytes) h = elim (Bool-cases (nat_eq b 10)) [
  | inl e ↦ rw e (omega arith)
  | inr e ↦
      let ih = readline_shrinks bytes (ends_with_newline-tail b (readline bytes).0 e (rw e at h)) in
      rw e (omega arith)
]

-- More bytes behind a complete line do not change it.
pub readline-append :
    (bytes more : List ℕ)
    → ends_with_newline (readline bytes).0 ≡ true
    → readline (bytes ++ more) ≡ ((readline bytes).0, (readline bytes).1 ++ more)
unfolding readline ends_with_newline
readline-append [] more h = cc
readline-append (b ∷ bytes) more h = elim (Bool-cases (nat_eq b 10)) [
  | inl e ↦ rw e
  | inr e ↦
      let ih =
        readline-append bytes more (ends_with_newline-tail b (readline bytes).0 e (rw e at h)) in
      rw (e, ih)
]

module _ (lib : Codec) where
  -- A loop that returns has cut its bytes in two: complete lines, which the offset passes, and a
  -- tail with no complete line. Going on with more bytes is going on from the tail.
  pub record Cut (s t : Stream) (bytes more : List ℕ) (g : ℕ) (records out : List Fields)
      : Type 0 where
    pub used : List ℕ
    pub tail : List ℕ
    pub split : bytes ≡ used ++ tail
    pub offset : t.offset ≡ s.offset + length used
    pub incomplete : ends_with_newline (readline tail).0 ≡ false
    pub fuel : ℕ
    pub enough : length (tail ++ more) < fuel
    pub resumes :
        read_loop lib g s (bytes ++ more) records ≡ read_loop lib fuel t (tail ++ more) out

  pub take_line-offset :
      (s u : Stream) (line : List ℕ) (doc : Fields)
      → take_line lib s line ≡ (u, ok doc)
      → u.offset ≡ s.offset + length line
  unfolding take_line validate_document start_order
  take_line-offset s u line doc h = ground arith

  pub read_loop_goes :
      (g : ℕ) (s u : Stream) (bytes line after : List ℕ) (records : List Fields) (doc : Fields)
      → readline bytes ≡ (line, after)
      → ends_with_newline line ≡ true
      → take_line lib s line ≡ (u, ok doc)
      → read_loop lib (suc g) s bytes records ≡ read_loop lib g u after (records ++ doc ∷ [])
  unfolding read_loop
  read_loop_goes g s u bytes line after records doc e full taken = ground arith

  module _ (f g : ℕ) (s t : Stream) (bytes more : List ℕ) (records out : List Fields) where
    Round-Cut :
        ((u : Stream) (doc : Fields)
          → length ((readline bytes).1 ++ more) < g
          → read_loop lib f u (readline bytes).1 (records ++ doc ∷ []) ≡ (t, ok out)
          → Cut u t (readline bytes).1 more g (records ++ doc ∷ []) out)
        → length (bytes ++ more) < suc g
        → Round lib f s t bytes records out
        → Cut s t bytes more (suc g) records out
    Round-Cut ih e (Round.stops last same none_read) = record {
      used = [];
      tail = bytes;
      split = refl;
      offset = omega (arith, ap (λ (r : Stream). r.offset) same);
      incomplete = last;
      fuel = suc g;
      enough = e;
      resumes = rw (same, none_read) refl;
    }
    Round-Cut ih e (Round.goes u doc full taken rest) =
        let (line, after) = readline bytes in
        let short : length (after ++ more) < g = omega (
          arith,
          readline_shrinks bytes full,
          length-append bytes more,
          length-append (readline bytes).1 more,
        ) in
        let c = ih u doc short rest in
        record {
          used = line ++ c.used;
          tail = c.tail;
          split =
              readline_split bytes
              ∙ ap (λ l. line ++ l) c.split
              ∙ sym (append_assoc line c.used c.tail);
          offset =
              omega
                (arith, take_line-offset s u line doc taken, c.offset, length-append line c.used);
          incomplete = c.incomplete;
          fuel = c.fuel;
          enough = c.enough;
          resumes =
              read_loop_goes g s u (bytes ++ more) line (after ++ more) records doc
                (readline-append bytes more full) full taken
              ∙ c.resumes;
        }

  pub read_loop-Cut :
      (f g : ℕ) (s t : Stream) (bytes more : List ℕ) (records out : List Fields)
      → length (bytes ++ more) < g
      → read_loop lib f s bytes records ≡ (t, ok out)
      → Cut s t bytes more g records out
  read_loop-Cut zero g s t bytes more records out e h = absurd (unfold read_loop in ground arith)
  read_loop-Cut (suc f) zero s t bytes more records out e h = absurd (omega arith)
  read_loop-Cut (suc f) (suc g) s t bytes more records out e h =
      Round-Cut f g s t bytes more records out
        (λ u doc. read_loop-Cut f g u t (readline bytes).1 more (records ++ doc ∷ []) out) e
        (read_loop-Round lib f s t bytes records out h)

  -- With a round for each byte and one more, the fuel makes no difference.
  pub read_loop-fuel :
      (f g : ℕ) (s : Stream) (bytes : List ℕ) (records : List Fields)
      → length bytes < f
      → length bytes < g
      → read_loop lib f s bytes records ≡ read_loop lib g s bytes records
  unfolding read_loop
  read_loop-fuel zero g s bytes records hf hg = absurd (omega arith)
  read_loop-fuel (suc f) zero s bytes records hf hg = absurd (omega arith)
  read_loop-fuel (suc f) (suc g) s bytes records hf hg =
      elim (Bool-cases (ends_with_newline (readline bytes).0)) [
        | inl full ↦ elim (Result-cases (take_line lib s (readline bytes).0).1) [
          | inl (e, failed) ↦ ground arith
          | inr (doc, done) ↦ ground (
            arith,
            readline_shrinks bytes full,
            read_loop-fuel f g (take_line lib s (readline bytes).0).0 (readline bytes).1
                (records ++ doc ∷ []),
          )
        ]
        | inr last ↦ ground arith
      ]
