-- ===== src/EventStream/Protocol.antt =====
-- The event protocol that `AdapterEventStream` enforces, as a phase automaton over documents that
-- are numbered from 1, and that the reader implements it.
use firm_arbiter.Prelude.{
  ℕ, zero, suc, ◌+◌, String, ◌≡◌, refl, sym, ◌∙◌, inl, inr, Bool, true, false, Option, none, some,
  List, [], ◌∷◌, ◌++◌, arith, eq_iff, if◌then◌else◌, Bool-cases, length, drop, All, ok,
}
use mathlib.Core.Path.{subst₃}
use mathlib.Core.List.{append-nil, append_assoc}
use firm_arbiter.EventStream.Loop.{Round, read_loop-Round}
use firm_arbiter.Json.{Json, Fields, get, has, is_text, is_number}
use firm_arbiter.EventStream.{
  Codec, Stream, checks, start_order, misplaced_field, event_specific_fields, accepted,
  validate_document, take_line, read_loop, read_new, readline,
}

pub data Phase : Type 0 where
  waiting running finished : Phase

abbrev pub phase : Stream → Phase
phase s = if s.adapter_stopped then finished else if s.adapter_started then running else waiting

-- The value of a key that satisfies a test.
abbrev pub holds : Fields → String → (Json → Bool) → Bool
holds doc key test = elim (get doc key) [ none ↦ false | some v ↦ test v ]

abbrev pub is_event : Fields → String → Bool
is_event doc name = holds doc "event" (λ v. is_text v name)

-- One document's move of the automaton.
pub data Move (p : Phase) (doc : Fields) (q : Phase) : Type 0 where
  start : p ≡ waiting → is_event doc "adapter_started" ≡ true → q ≡ running → Move p doc q
  work :
      p ≡ running
      → is_event doc "adapter_started" ≡ false
      → is_event doc "adapter_stopped" ≡ false
      → q ≡ running
      → Move p doc q
  stop : p ≡ running → is_event doc "adapter_stopped" ≡ true → q ≡ finished → Move p doc q

-- What a document must be in itself: of this run and adapter, of this number, with no field of
-- another event.
pub record IsProper (lib : Codec) (run_id adapter_id : String) (n : ℕ) (doc : Fields) : Type 0 where
  pub schema : lib.accepts doc ≡ true
  pub run : holds doc "run_id" (λ v. is_text v run_id) ≡ true
  pub adapter : holds doc "adapter_id" (λ v. is_text v adapter_id) ≡ true
  pub numbered : holds doc "sequence" (λ v. is_number v n) ≡ true
  pub placed : All (λ e. has doc e.0 ≡ true → is_event doc e.1 ≡ true) event_specific_fields

not-started-and-stopped :
    (v : Json) → is_text v "adapter_started" ≡ true → is_text v "adapter_stopped" ≡ false
unfolding is_text
not-started-and-stopped (Json.text t) h = ground (
  arith,
  eq_iff t "adapter_started",
  eq_iff t "adapter_stopped",
  eq_iff "adapter_started" "adapter_stopped",
)
not-started-and-stopped _ h = ground arith

-- `start_order` and the last assignments make the automaton's move.
module _ (s t : Stream) (doc : Fields) (name : Json) (named : get doc "event" ≡ some name) where
  start_order-Move :
      s.adapter_stopped ≡ false
      → start_order s name ≡ ok t
      → Move (phase s) doc (phase (accepted t name))
  unfolding start_order
  start_order-Move open_stream h = elim (Bool-cases s.adapter_started) [
    | inl e ↦ elim (Bool-cases (is_text name "adapter_stopped")) [
      | inl d ↦ Move.stop (ground arith) (ground arith) (ground arith)
      | inr d ↦ Move.work (ground arith) (ground arith) (ground arith) (ground arith)
    ]
    | inr e ↦
        Move.start (ground arith) (ground arith) (ground (arith, not-started-and-stopped name))
  ]

  misplaced_field-All :
      (table : List (String × String))
      → misplaced_field doc name table ≡ ok tt
      → All (λ e. has doc e.0 ≡ true → is_event doc e.1 ≡ true) table
  unfolding misplaced_field
  misplaced_field-All [] h = tt
  misplaced_field-All ((f, p) ∷ rest) h =
      (λ present. ground arith, misplaced_field-All rest (ground arith))

checks-ok :
    (lib : Codec) (s : Stream) (doc : Fields) {name : Json}
    → checks lib s doc ≡ ok name
    → (get doc "event" ≡ some name)
      × (s.adapter_stopped ≡ false)
      × (lib.accepts doc ≡ true)
      × (holds doc "run_id" (λ v. is_text v s.expected_run_id) ≡ true)
      × (holds doc "adapter_id" (λ v. is_text v s.expected_adapter_id) ≡ true)
      × (holds doc "sequence" (λ v. is_number v s.next_sequence) ≡ true)
unfolding checks
checks-ok lib s doc h = ground arith

-- What an admitted document is, and what it does to the stream.
pub record Admits (lib : Codec) (s t : Stream) (doc : Fields) : Type 0 where
  pub proper : IsProper lib s.expected_run_id s.expected_adapter_id s.next_sequence doc
  pub move : Move (phase s) doc (phase t)
  pub next : t.next_sequence ≡ s.next_sequence + 1
  pub same_run : t.expected_run_id ≡ s.expected_run_id
  pub same_adapter : t.expected_adapter_id ≡ s.expected_adapter_id

start_order-same :
    (s : Stream) (name : Json) {t : Stream}
    → start_order s name ≡ ok t
    → (t.next_sequence ≡ s.next_sequence)
      × (t.expected_run_id ≡ s.expected_run_id)
      × (t.expected_adapter_id ≡ s.expected_adapter_id)
      × (t.adapter_stopped ≡ s.adapter_stopped)
      × (t.offset ≡ s.offset)
unfolding start_order
start_order-same s name h = ground arith

-- The parts of a validation that returns.
validate_document-parts :
    (lib : Codec) (s t : Stream) (doc : Fields)
    → validate_document lib s doc ≡ (t, ok tt)
    → (name : Json) × (u : Stream) × (checks lib s doc ≡ ok name)
      × (start_order s name ≡ ok u)
      × (misplaced_field doc name event_specific_fields ≡ ok tt)
      × (t ≡ accepted u name)
unfolding validate_document
validate_document-parts lib s t doc h = ground arith

validate_document-Admits :
    (lib : Codec) (s t : Stream) (doc : Fields)
    → validate_document lib s doc ≡ (t, ok tt)
    → Admits lib s t doc
validate_document-Admits lib s t doc h =
    let (name, u, checked, ordered, placed, e) = validate_document-parts lib s t doc h in
    let (named, open_stream, schema, run, adapter, numbered) = checks-ok lib s doc checked in
    let (next, same_run, same_adapter, _, _) = start_order-same s name ordered in
    record {
      proper = record {
        schema = schema;
        run = run;
        adapter = adapter;
        numbered = numbered;
        placed = misplaced_field-All s u doc name named event_specific_fields placed;
      };
      move = rw e (start_order-Move s u doc name named open_stream ordered);
      next = rw e (omega arith);
      same_run = rw e same_run;
      same_adapter = rw e same_adapter;
    }

take_line-parts :
    (lib : Codec) (s t : Stream) (line : List ℕ) (doc : Fields)
    → take_line lib s line ≡ (t, ok doc)
    → validate_document lib (record s { offset = s.offset + length line }) doc ≡ (t, ok tt)
unfolding take_line
take_line-parts lib s t line doc h = ground arith

-- The documents lead from one phase and number to another, each proper and each a move.
abbrev pub Follows : Codec → String → String → Phase → ℕ → List Fields → Phase → ℕ → Type 0
Follows lib run_id adapter_id p n [] q m = (p ≡ q) × (n ≡ m)
Follows lib run_id adapter_id p n (doc ∷ docs) q m =
    (r : Phase) × IsProper lib run_id adapter_id n doc
    × Move p doc r
    × Follows lib run_id adapter_id r (n + 1) docs q m

module _ (lib : Codec) where
  abbrev Leads : Stream → List Fields → Stream → Type 0
  Leads s docs t =
      Follows lib s.expected_run_id s.expected_adapter_id (phase s) s.next_sequence docs (phase t)
        t.next_sequence

  Leads-step :
      (s u t : Stream) (line : List ℕ) (doc : Fields) (docs : List Fields)
      → take_line lib s line ≡ (u, ok doc)
      → Leads u docs t
      → Leads s (doc ∷ docs) t
  Leads-step s u t line doc docs taken rest =
      let a = validate_document-Admits lib _ u doc (take_line-parts lib s u line doc taken) in
      (
        phase u,
        a.proper,
        a.move,
        subst₃ (λ r i n. Follows lib r i (phase u) n docs (phase t) t.next_sequence) a.same_run
            a.same_adapter a.next rest,
      )

  read_loop-Leads :
      (fuel : ℕ) (s t : Stream) (bytes : List ℕ) (records out : List Fields)
      → read_loop lib fuel s bytes records ≡ (t, ok out)
      → (docs : List Fields) × (out ≡ records ++ docs) × Leads s docs t
  read_loop-Leads zero s t bytes records out h = absurd (unfold read_loop in ground arith)
  read_loop-Leads (suc fuel) s t bytes records out h =
      go (read_loop-Leads fuel) (read_loop-Round lib fuel s t bytes records out h)
    where
      go :
          ((u t : Stream) (bytes : List ℕ) (records out : List Fields)
            → read_loop lib fuel u bytes records ≡ (t, ok out)
            → (docs : List Fields) × (out ≡ records ++ docs) × Leads u docs t)
          → Round lib fuel s t bytes records out
          → (docs : List Fields) × (out ≡ records ++ docs) × Leads s docs t
      go ih (Round.stops last same e) = ([], e ∙ sym (append-nil records), rw same (refl, refl))
      go ih (Round.goes u doc full taken rest) =
          let (docs, e, l) = ih u t (readline bytes).1 (records ++ doc ∷ []) out rest in
          (
            doc ∷ docs,
            e ∙ append_assoc records (doc ∷ []) docs,
            Leads-step s u t (readline bytes).0 doc docs taken l,
          )

  -- The records that one read returns follow the event protocol from the stream's phase and number
  -- to those of the stream that it leaves: each is accepted by the schema, names the expected run
  -- and adapter, bears the next number, carries no field of another event, and is a move of the
  -- automaton, where `adapter_started` alone leads out of `waiting`, is no move later, and
  -- `adapter_stopped` leads to `finished`, which no move leaves.
  pub read_new-Follows :
      (s t : Stream) (content : Option (List ℕ)) (docs : List Fields)
      → read_new lib s content ≡ (t, ok docs)
      → Follows lib s.expected_run_id s.expected_adapter_id
          (phase s)
          s.next_sequence
          docs
          (phase t)
          t.next_sequence
  unfolding read_new
  read_new-Follows s t none docs h =
      let same : s ≡ t = cc in let empty : [] ≡ docs = cc in rw (same, ← empty) (refl, refl)
  read_new-Follows s t (some content) docs h =
      let (found, e, l) = read_loop-Leads _ s t (drop s.offset content) [] docs h in rw e l
