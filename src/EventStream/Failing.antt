-- ===== src/EventStream/Failing.antt =====
-- A call of `read_new` that raises: which line it does so at, and what the next call starts with.
use firm_arbiter.Prelude.{
  ℕ, zero, suc, ◌+◌, ◌≤◌, ◌<◌, ◌≡◌, refl, sym, ap, ◌∙◌, ◌≢◌, inl, inr, true, some, List, [], ◌∷◌,
  ◌++◌, arith, nat_eq, Bool-cases, ℕ-Eq, String-Eq, pair-Eq, Option-Eq, length, drop, take,
  length-append, drop-add, length-take, Result-cases, ok, err,
}
use mathlib.Core.List.{append-nil, append_assoc}
use firm_arbiter.Json.{Fields}
use firm_arbiter.EventStream.{
  Codec, EventError, Stream, readline, ends_with_newline, take_line, read_loop, read_new,
  out_of_fuel,
}
use firm_arbiter.EventStream.Loop.{
  readline_split, readline_shrinks, readline-append, read_loop_goes, take_line-offset,
  ends_with_newline-tail,
}
use firm_arbiter.EventStream.Chunks.{take_line_raises}

take-append-drop : (n : ℕ) (xs : List ℕ) → take n xs ++ drop n xs ≡ xs
take-append-drop zero xs = refl
take-append-drop (suc n) [] = refl
take-append-drop (suc n) (x ∷ xs) = ap (λ l. x ∷ l) (take-append-drop n xs)

drop-take-append : (n : ℕ) (xs ys : List ℕ) → n ≤ length xs → drop n (take n xs ++ ys) ≡ ys
drop-take-append zero xs ys h = refl
drop-take-append (suc n) [] ys h = absurd (omega arith)
drop-take-append (suc n) (x ∷ xs) ys h = drop-take-append n xs ys (omega arith)

-- A complete line that is cut off is a complete line by itself.
readline_again :
    (bytes : List ℕ)
    → ends_with_newline (readline bytes).0 ≡ true
    → readline (readline bytes).0 ≡ ((readline bytes).0, [])
unfolding readline ends_with_newline
readline_again [] h = cc
readline_again (b ∷ bytes) h = elim (Bool-cases (nat_eq b 10)) [
  | inl e ↦ rw (e, e) refl
  | inr e ↦
      let ih = readline_again bytes (ends_with_newline-tail b (readline bytes).0 e (rw e at h)) in
      rw (e, ih, e) refl
]

readline_before :
    (bytes more : List ℕ)
    → ends_with_newline (readline bytes).0 ≡ true
    → readline ((readline bytes).0 ++ more) ≡ ((readline bytes).0, more)
readline_before bytes more full =
    let again = readline_again bytes full in
    readline-append (readline bytes).0 more (rw again full) ∙ rw again refl

line-split :
    (bytes used line tail : List ℕ)
    → (readline bytes).1 ≡ used ++ (line ++ tail)
    → bytes ≡ (readline bytes).0 ++ used ++ (line ++ tail)
line-split bytes used line tail h =
    readline_split bytes
    ∙ ap (λ x. (readline bytes).0 ++ x) h
    ∙ sym (append_assoc (readline bytes).0 used (line ++ tail))

module _ (lib : Codec) where
  -- The lines before the one that raises are read, and their records stay with the loop.
  record Raise (s t : Stream) (bytes : List ℕ) (e : EventError) : Type 0 where
    used : List ℕ
    line : List ℕ
    tail : List ℕ
    m : Stream
    found : List Fields
    split : bytes ≡ used ++ (line ++ tail)
    offset : m.offset ≡ s.offset + length used
    earlier :
        (f : ℕ) (records : List Fields)
        → length used < f
        → read_loop lib f s used records ≡ (m, ok (records ++ found))
    full : ends_with_newline line ≡ true
    whole : readline (line ++ tail) ≡ (line, tail)
    refused : take_line lib m line ≡ (t, err e)

  read_loop-nil :
      (f : ℕ) (s : Stream) (records : List Fields)
      → 0 < f
      → read_loop lib f s [] records ≡ (s, ok records)
  unfolding read_loop readline ends_with_newline
  read_loop-nil zero s records h = absurd (omega arith)
  read_loop-nil (suc f) s records h = refl

  earlier-cons :
      (s u m : Stream) (bytes used : List ℕ) (found : List Fields) (doc : Fields)
      → ends_with_newline (readline bytes).0 ≡ true
      → take_line lib s (readline bytes).0 ≡ (u, ok doc)
      → ((f : ℕ) (records : List Fields)
          → length used < f
          → read_loop lib f u used records ≡ (m, ok (records ++ found)))
      → (f : ℕ) (records : List Fields) → length ((readline bytes).0 ++ used) < f
      → read_loop lib f s ((readline bytes).0 ++ used) records ≡ (m, ok (records ++ doc ∷ found))
  earlier-cons s u m bytes used found doc full taken later zero records h = absurd (omega arith)
  earlier-cons s u m bytes used found doc full taken later (suc f) records h =
      let enough : length used < f = omega (
        arith,
        readline_shrinks bytes full,
        ap length (readline_split bytes),
        length-append (readline bytes).0 (readline bytes).1,
        length-append (readline bytes).0 used,
      ) in
      read_loop_goes lib f s u ((readline bytes).0 ++ used) (readline bytes).0 used records doc
        (readline_before bytes used full) full taken
      ∙ later f (records ++ doc ∷ []) enough
      ∙ ap (λ l. (m, ok l)) (append_assoc records (doc ∷ []) found)

  read_loop-Raise :
      (f : ℕ) (s t : Stream) (bytes : List ℕ) (records : List Fields) (e : EventError)
      → length bytes < f
      → read_loop lib f s bytes records ≡ (t, err e)
      → Raise s t bytes e
  unfolding read_loop
  read_loop-Raise zero s t bytes records e enough h = absurd (omega arith)
  read_loop-Raise (suc f) s t bytes records e enough h =
      let (l, rest) = readline bytes in
      elim (Bool-cases (ends_with_newline (readline bytes).0)) [
        | inl full ↦ elim (Result-cases (take_line lib s (readline bytes).0).1) [
          | inl (c, failed) ↦ record {
            used = [];
            line = (readline bytes).0;
            tail = (readline bytes).1;
            m = s;
            found = [];
            split = readline_split bytes;
            offset = omega arith;
            earlier = λ g records' some_fuel.
                read_loop-nil g s records' some_fuel
                ∙ ap (λ l. (s, ok l)) (sym (append-nil records'));
            full = full;
            whole = ap readline (sym (readline_split bytes));
            refused = ground arith;
          }
          | inr (doc, done) ↦
              let u = (take_line lib s (readline bytes).0).0 in
              let c =
                read_loop-Raise f u t (readline bytes).1 (records ++ doc ∷ []) e
                  (omega (arith, readline_shrinks bytes full)) (ground arith) in
              record {
                used = (readline bytes).0 ++ c.used;
                line = c.line;
                tail = c.tail;
                m = c.m;
                found = doc ∷ c.found;
                split = line-split bytes c.used c.line c.tail c.split;
                offset = omega (
                  arith,
                  take_line-offset lib s u (readline bytes).0 doc (ground arith),
                  c.offset,
                  length-append (readline bytes).0 c.used,
                );
                earlier = λ g records' some_fuel.
                    earlier-cons s u c.m bytes c.used c.found doc full (ground arith) c.earlier g
                      records' some_fuel;
                full = c.full;
                whole = c.whole;
                refused = c.refused;
              }
        ]
        | inr last ↦ absurd (ground arith)
      ]

  -- Where a read of the content raised: the complete line, what is before it, and what behind.
  pub record Failed (s t : Stream) (content : List ℕ) (e : EventError) : Type 0 where
    pub before : List ℕ
    pub line : List ℕ
    pub tail : List ℕ
    pub m : Stream
    pub found : List Fields
    pub split : content ≡ before ++ (line ++ tail)
    pub earlier : read_new lib s (some before) ≡ (m, ok found)
    pub full : ends_with_newline line ≡ true
    pub whole : readline (line ++ tail) ≡ (line, tail)
    pub refused : take_line lib m line ≡ (t, err e)
    pub offset : t.offset ≡ length before + length line
    pub next : drop t.offset content ≡ tail

  Raise-Failed :
      (s t : Stream) (content : List ℕ) (e : EventError)
      → s.offset ≤ length content
      → Raise s t (drop s.offset content) e
      → (e ≢ out_of_fuel) × Failed s t content e
  unfolding read_new
  Raise-Failed s t content e inside c =
      let front = take s.offset content in
      let parted : content ≡ front ++ drop s.offset content =
        sym (take-append-drop s.offset content) in
      let size : length front ≡ s.offset = omega (arith, length-take s.offset content) in
      let (proper, passed) = take_line_raises lib c.m t c.line e c.refused in
      let rest : drop s.offset (front ++ c.used) ≡ c.used =
        drop-take-append s.offset content c.used inside in
      let end : t.offset ≡ length (front ++ c.used) + length c.line =
        omega (arith, passed, c.offset, size, length-append front c.used) in
      let whole : content ≡ front ++ c.used ++ (c.line ++ c.tail) =
        parted
        ∙ ap (λ l. front ++ l) c.split
        ∙ sym (append_assoc front c.used (c.line ++ c.tail)) in
      (
        proper,
        record {
          before = front ++ c.used;
          line = c.line;
          tail = c.tail;
          m = c.m;
          found = c.found;
          split = whole;
          earlier = rw rest (c.earlier (suc (length c.used)) [] (omega arith));
          full = c.full;
          whole = c.whole;
          refused = c.refused;
          offset = end;
          next =
              drop-add s.offset t.offset content (c.used ++ c.line) c.tail
                (c.split ∙ sym (append_assoc c.used c.line c.tail))
                (omega (arith, passed, c.offset, length-append c.used c.line));
        },
      )

  -- A read that raises, at an offset within the file, has read the lines before some complete line,
  -- as a read of the file up to that line would return them with their records, and raises what
  -- taking that line raises. The offset is the end of that line: the next read starts behind it, so
  -- neither it nor the records before it in this call are ever returned. The fuel never runs out.
  pub read_new_raises :
      (s t : Stream) (content : List ℕ) (e : EventError)
      → s.offset ≤ length content
      → read_new lib s (some content) ≡ (t, err e)
      → (e ≢ out_of_fuel) × Failed s t content e
  unfolding read_new
  read_new_raises s t content e inside h =
      Raise-Failed s t content e inside
        (read_loop-Raise _ s t (drop s.offset content) [] e (omega arith) h)
