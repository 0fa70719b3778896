-- ===== src/EventStream.antt =====
-- `AdapterEventStream` of firmarbiter_core/event_protocol.py: the incremental reader of an
-- adapter's JSONL event file, and the order that it imposes on the events.
mod Loop
pub mod Protocol
pub mod Chunks
pub mod Failing
mod Examples
use firm_arbiter.Prelude.{
  ℕ, zero, suc, ◌+◌, String, Bool, true, false, not, ◌&&◌, Option, none, some, List, [], ◌∷◌, ◌++◌,
  ◌==◌, ℕ-Eq, if◌then◌else◌, length, drop, Result, ok, err, ◌>>=◌, ◌>>◌, raise_if,
}
use firm_arbiter.Json.{Json, Fields, object, get, has, is_text, is_number}

-- What the reader takes from the standard library and from jsonschema: UTF-8 decoding, the JSON
-- parser, and whether the event schema accepts a document.
pub record Codec : Type 0 where
  pub decode : List ℕ → Option String
  pub loads : String → Option Json
  pub accepts : Fields → Bool

pub data EventError : Type 0 where
  invalid_event run_id_mismatch adapter_id_mismatch bad_sequence after_stopped : EventError
  first_not_started started_twice not_utf8 not_json not_object out_of_fuel : EventError
  key_error : String → EventError
  misplaced : String → String → EventError

pub record Stream : Type 0 where
  pub expected_run_id : String
  pub expected_adapter_id : String
  pub offset : ℕ
  pub next_sequence : ℕ
  pub adapter_started : Bool
  pub adapter_stopped : Bool

-- `__init__`
abbrev pub init : String → String → Stream
init run_id adapter_id = record {
  expected_run_id = run_id;
  expected_adapter_id = adapter_id;
  offset = 0;
  next_sequence = 1;
  adapter_started = false;
  adapter_stopped = false;
}

-- `document[key]`
unfoldable pub item : Fields → String → Result EventError Json
item doc key = elim (get doc key) [ none ↦ err (key_error key) | some v ↦ ok v ]

-- The checks that change nothing; they return the event's name.
unfoldable pub checks : Codec → Stream → Fields → Result EventError Json
unfolding item
checks lib s doc = do
  raise_if (not (lib.accepts doc)) invalid_event
  run_id ← item doc "run_id"
  raise_if (not (is_text run_id s.expected_run_id)) run_id_mismatch
  adapter_id ← item doc "adapter_id"
  raise_if (not (is_text adapter_id s.expected_adapter_id)) adapter_id_mismatch
  sequence ← item doc "sequence"
  raise_if (not (is_number sequence s.next_sequence)) bad_sequence
  name ← item doc "event"
  raise_if s.adapter_stopped after_stopped
  ok name

-- The place of `adapter_started`.
unfoldable pub start_order : Stream → Json → Result EventError Stream
start_order s name =
    if not s.adapter_started
    then (if not (is_text name "adapter_started")
        then err first_not_started
        else ok (record s { adapter_started = true }))
    else if is_text name "adapter_started"
    then err started_twice
    else ok s

abbrev pub event_specific_fields : List (String × String)
event_specific_fields =
    ("endpoint", "endpoint_reported")
    ∷ ("error", "error")
    ∷ ("outcome", "adapter_stopped")
    ∷ ("stage", "stage_completed")
    ∷ ("stage_outcome", "stage_completed")
    ∷ []

-- The loop over `event_specific_fields`: the first field that the event may not carry.
unfoldable pub misplaced_field :
    Fields → Json → List (String × String) → Result EventError (Unit {0})
misplaced_field doc name [] = ok tt
misplaced_field doc name ((field_name, permitted) ∷ rest) =
    if has doc field_name && not (is_text name permitted)
    then err (misplaced field_name permitted)
    else misplaced_field doc name rest

abbrev pub accepted : Stream → Json → Stream
accepted s name = record s {
  adapter_stopped = if is_text name "adapter_stopped" then true else s.adapter_stopped;
  next_sequence = s.next_sequence + 1;
}

-- `_validate_document`. What was assigned before an exception stays assigned.
unfoldable pub validate_document : Codec → Stream → Fields → Stream × Result EventError (Unit {0})
validate_document lib s doc = elim (checks lib s doc) [
  | err e ↦ (s, err e)
  | ok name ↦ elim (start_order s name) [
    | err e ↦ (s, err e)
    | ok t ↦ elim (misplaced_field doc name event_specific_fields) [
      | err e ↦ (t, err e)
      | ok _ ↦ (accepted t name, ok tt)
    ]
  ]
]

-- `handle.readline()`: the bytes up to and with the next newline, and what follows.
unfoldable pub readline : List ℕ → List ℕ × List ℕ
readline [] = ([], [])
readline (b ∷ bs) =
    let (line, rest) = readline bs in if b == 10 then (b ∷ [], bs) else (b ∷ line, rest)

-- `raw_line.endswith(b"\n")`
unfoldable pub ends_with_newline : List ℕ → Bool
ends_with_newline [] = false
ends_with_newline (b ∷ []) = b == 10
ends_with_newline (b ∷ c ∷ bs) = ends_with_newline (c ∷ bs)

-- `decode`, `json.loads` and the test for an object.
unfoldable pub parse_line : Codec → List ℕ → Result EventError Fields
parse_line lib line = elim (lib.decode line) [
  | none ↦ err not_utf8
  | some decoded ↦ elim (lib.loads decoded) [
    | none ↦ err not_json
    | some (object doc) ↦ ok doc
    | some _ ↦ err not_object
  ]
]

-- One complete line: the offset moves past it first.
unfoldable pub take_line : Codec → Stream → List ℕ → Stream × Result EventError Fields
take_line lib s line =
    let t : Stream = record s { offset = s.offset + length line } in
    elim (parse_line lib line) [
      | err e ↦ (t, err e)
      | ok doc ↦ let (u, done) = validate_document lib t doc in (u, do done; ok doc)
    ]

-- The `while True` of `read_new` over the bytes from the offset on.
unfoldable pub read_loop :
    Codec → ℕ → Stream → List ℕ → List Fields → Stream × Result EventError (List Fields)
read_loop lib zero s bytes records = (s, err out_of_fuel)
read_loop lib (suc fuel) s bytes records =
    let (line, rest) = readline bytes in
    elim (ends_with_newline line) [
      | false ↦ (s, ok records)
      | true ↦
          let (t, r) = take_line lib s line in
          elim r [ err e ↦ (t, err e) | ok doc ↦ read_loop lib fuel t rest (records ++ doc ∷ []) ]
    ]

-- `read_new` on the file's present content, `none` if there is no file. A line has a byte, so one
-- round more than there are bytes is enough.
unfoldable pub read_new :
    Codec → Stream → Option (List ℕ) → Stream × Result EventError (List Fields)
read_new lib s none = (s, ok [])
read_new lib s (some content) =
    let bytes = drop s.offset content in read_loop lib (suc (length bytes)) s bytes []
