-- ===== src/EventStream/Examples.antt =====
-- Runs of the event reader at concrete inputs.
use firm_arbiter.Prelude.{
  ℕ, String, ◌≡◌, refl, ◌≢◌, true, Option, none, some, List, [], ◌∷◌, ◌++◌, arith, if◌then◌else◌,
  ℕ-Eq, String-Eq, ◌==◌, pair-Eq, Option-Eq, ok, err,
}
use firm_arbiter.Json.{
  Json, Fields, end, field, text, integer, object, get, has, is_text, is_number,
}
use firm_arbiter.EventStream.{
  Codec, EventError, run_id_mismatch, Stream, init, item, checks, start_order, misplaced_field,
  validate_document, readline, ends_with_newline, parse_line, take_line, read_loop, read_new,
}
use firm_arbiter.EventStream.Protocol.{Follows, phase, read_new-Follows}
use firm_arbiter.EventStream.Chunks.{prepend, read_new-append}
use firm_arbiter.EventStream.Failing.{Failed, read_new_raises}

abbrev event : String → ℕ → String → Fields
event run n name = field "run_id" (text run) (
    field "adapter_id" (text "firmae")
      (field "sequence" (integer n) (field "event" (text name) end)))

-- Lines that begin with `s`, `h` and `x` hold the start, a heartbeat, and a start of another run.
abbrev decode_line : List ℕ → Option String
decode_line [] = none
decode_line (b ∷ bs) = if b == 115 then some "s" else if b == 104 then some "h" else some "x"

abbrev load_line : String → Option Json
load_line s =
    if s == "s"
    then some (object (event "run-1" 1 "adapter_started"))
    else if s == "h"
    then some (object (event "run-1" 2 "heartbeat"))
    else some (object (event "run-2" 1 "adapter_started"))

abbrev codec : Codec
codec = record { decode = decode_line; loads = load_line; accepts = λ doc. true }

abbrev fresh : Stream
fresh = init "run-1" "firmae"

-- A start, a heartbeat and the first byte of another line.
abbrev content : List ℕ
content = 115 ∷ 10 ∷ 104 ∷ 10 ∷ 104 ∷ []

abbrev later : Stream
later = record fresh { offset = 4; next_sequence = 3; adapter_started = true }

abbrev two_events : List Fields
two_events = event "run-1" 1 "adapter_started" ∷ event "run-1" 2 "heartbeat" ∷ []

two_events_read : read_new codec fresh (some content) ≡ (later, ok two_events)
unfolding read_new read_loop take_line parse_line validate_document checks item start_order
    misplaced_field readline ends_with_newline get has is_text is_number
two_events_read = refl

-- A line of another run behind a start.
foreign_event_raises :
    read_new codec fresh (some (115 ∷ 10 ∷ 120 ∷ 10 ∷ 104 ∷ []))
    ≡ (record fresh { offset = 4; next_sequence = 2; adapter_started = true }, err run_id_mismatch)
unfolding read_new read_loop take_line parse_line validate_document checks item start_order
    misplaced_field readline ends_with_newline get has is_text is_number
foreign_event_raises = refl

read_new-Follows_example : Follows codec "run-1" "firmae" (phase fresh) 1 two_events (phase later) 3
read_new-Follows_example =
    read_new-Follows codec fresh later (some content) two_events two_events_read

read_new-append_example : read_new codec fresh (some (content ++ 10 ∷ [])) ≡ (
  (read_new codec later (some (content ++ 10 ∷ []))).0,
  prepend two_events (read_new codec later (some (content ++ 10 ∷ []))).1,
)
read_new-append_example =
    read_new-append codec fresh later content (10 ∷ []) two_events (omega arith) two_events_read

read_new_raises_example :
    (run_id_mismatch ≢ EventError.out_of_fuel)
    × Failed codec fresh
        (record fresh { offset = 4; next_sequence = 2; adapter_started = true })
        (115 ∷ 10 ∷ 120 ∷ 10 ∷ 104 ∷ [])
        run_id_mismatch
read_new_raises_example =
    read_new_raises codec fresh
      (record fresh { offset = 4; next_sequence = 2; adapter_started = true })
      (115 ∷ 10 ∷ 120 ∷ 10 ∷ 104 ∷ []) run_id_mismatch (omega arith) foreign_event_raises
