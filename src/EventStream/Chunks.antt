-- ===== src/EventStream/Chunks.antt =====
-- Reading a growing file in pieces is reading it once, and a read leaves only an incomplete line.
use firm_arbiter.Prelude.{
  ℕ, zero, suc, ◌+◌, ◌≤◌, String, ◌≡◌, refl, sym, ap, ◌∙◌, ◌≢◌, inl, inr, false, some, List, [],
  ◌∷◌, ◌++◌, arith, Bool-cases, ℕ-Eq, String-Eq, pair-Eq, Option-Eq, length, drop, length-append,
  drop-append_of_le, drop-add, length-drop, Result, Result-cases, ok, err,
}
use mathlib.Core.List.{append-nil, append_assoc}
use firm_arbiter.Json.{Json, Fields}
use firm_arbiter.EventStream.{
  Codec, EventError, Stream, readline, ends_with_newline, take_line, read_loop, read_new,
  out_of_fuel, parse_line, checks, misplaced_field, validate_document, event_specific_fields,
  start_order,
}
use firm_arbiter.EventStream.Loop.{Cut, read_loop-Cut, read_loop-fuel}

-- The records of an earlier read in front of those of a later one.
abbrev pub prepend : List Fields → Result EventError (List Fields) → Result EventError (List Fields)
prepend first (ok records) = ok (first ++ records)
prepend first (err e) = err e

module _ (lib : Codec) where
  -- What was read before is only carried along.
  read_loop-prepend :
      (f : ℕ) (s : Stream) (bytes : List ℕ) (first records : List Fields)
      → read_loop lib f s bytes (first ++ records)
        ≡ ((read_loop lib f s bytes records).0, prepend first (read_loop lib f s bytes records).1)
  unfolding read_loop
  read_loop-prepend zero s bytes first records = refl
  read_loop-prepend (suc f) s bytes first records =
      elim (Bool-cases (ends_with_newline (readline bytes).0)) [
        | inl full ↦ elim (Result-cases (take_line lib s (readline bytes).0).1) [
          | inl (e, failed) ↦ ground arith
          | inr (doc, done) ↦ ground (
            arith,
            append_assoc first records (doc ∷ []),
            read_loop-prepend f (take_line lib s (readline bytes).0).0 (readline bytes).1 first
                (records ++ doc ∷ []),
          )
        ]
        | inr last ↦ ground arith
      ]

  module _ (s t : Stream) (content more : List ℕ) (first : List Fields) where
    read_new-Cut :
        read_new lib s (some content) ≡ (t, ok first)
        → Cut lib s t
            (drop s.offset content)
            more
            (suc (length (drop s.offset content ++ more)))
            []
            first
    unfolding read_new
    read_new-Cut h = read_loop-Cut lib _ _ s t (drop s.offset content) more [] first (omega arith) h

    -- If a read of the file's content returned some records, then reading the same stream after the
    -- file has grown gives those records and those of a second read, or the error of the second
    -- read, and leaves the stream that the second read leaves. The offset lies within the file.
    pub read_new-append :
        s.offset ≤ length content
        → read_new lib s (some content) ≡ (t, ok first)
        → let second = read_new lib t (some (content ++ more)) in
          read_new lib s (some (content ++ more)) ≡ (second.0, prepend first second.1)
    unfolding read_new
    read_new-append inside h =
        let c = read_new-Cut h in
        let e : drop t.offset (content ++ more) ≡ c.tail ++ more =
          drop-add s.offset t.offset (content ++ more) c.used (c.tail ++ more)
            (drop-append_of_le s.offset content more inside
              ∙ ap (λ l. l ++ more) c.split
              ∙ append_assoc c.used c.tail more)
            c.offset in
        rw (drop-append_of_le s.offset content more inside, e)
          (c.resumes
            ∙ read_loop-fuel lib c.fuel (suc (length (c.tail ++ more))) t (c.tail ++ more) first
                c.enough (omega arith)
            ∙ ap (read_loop lib (suc (length (c.tail ++ more))) t (c.tail ++ more))
                (sym (append-nil first))
            ∙ read_loop-prepend (suc (length (c.tail ++ more))) t (c.tail ++ more) first [])

  -- After a read that returns, the offset is within the file and what lies behind it holds no
  -- complete line: every complete line was read, and a partial last line is left for later.
  pub read_new-rest :
      (s t : Stream) (content : List ℕ) (records : List Fields)
      → s.offset ≤ length content
      → read_new lib s (some content) ≡ (t, ok records)
      → (t.offset ≤ length content)
        × (ends_with_newline (readline (drop t.offset content)).0 ≡ false)
  read_new-rest s t content records inside h =
      let c = read_new-Cut s t content [] records h in
      let e : drop t.offset content ≡ c.tail =
        drop-add s.offset t.offset content c.used c.tail c.split c.offset in
      (
        omega (
          arith,
          c.offset,
          ap length c.split,
          length-append c.used c.tail,
          length-drop s.offset content,
        ),
        rw e c.incomplete,
      )

  parse_line_raises :
      (line : List ℕ) (e : EventError) → parse_line lib line ≡ err e → e ≢ out_of_fuel
  unfolding parse_line
  parse_line_raises line e h = ground arith

  checks_raise :
      (s : Stream) (doc : Fields) (e : EventError) → checks lib s doc ≡ err e → e ≢ out_of_fuel
  unfolding checks
  checks_raise s doc e h = ground arith

  misplaced_field_raises :
      (doc : Fields) (name : Json) (table : List (String × String)) (e : EventError)
      → misplaced_field doc name table ≡ err e
      → e ≢ out_of_fuel
  unfolding misplaced_field
  misplaced_field_raises doc name [] e h = cc
  misplaced_field_raises doc name ((f, p) ∷ table) e h =
      ground (arith, misplaced_field_raises doc name table e)

  validate_document_raises :
      (s t : Stream) (doc : Fields) (e : EventError)
      → validate_document lib s doc ≡ (t, err e)
      → (e ≢ out_of_fuel) × (t.offset ≡ s.offset)
  unfolding validate_document start_order
  validate_document_raises s t doc e h = elim (Result-cases (checks lib s doc)) [
    | inl (c, failed) ↦ ground (arith, checks_raise s doc c failed)
    | inr (name, passed) ↦ ground (arith, misplaced_field_raises doc name event_specific_fields e)
  ]

  pub take_line_raises :
      (s t : Stream) (line : List ℕ) (e : EventError)
      → take_line lib s line ≡ (t, err e)
      → (e ≢ out_of_fuel) × (t.offset ≡ s.offset + length line)
  unfolding take_line
  take_line_raises s t line e h = elim (Result-cases (parse_line lib line)) [
    | inl (c, failed) ↦ ground (arith, parse_line_raises line c failed)
    | inr (doc, passed) ↦
        ground
          (arith, validate_document_raises (record s { offset = s.offset + length line }) t doc e)
  ]
