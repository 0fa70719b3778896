-- ===== src/Supervisor/Draining.antt =====
-- The supervisor's events over any number of drains of a growing file.
use firm_arbiter.Prelude.{
  ℕ, String, ◌≡◌, refl, ap, ◌∙◌, inl, inr, some, List, [], ◌∷◌, ◌++◌, arith, ℕ-Eq, String-Eq,
  pair-Eq, Option-Eq, Result, Result-cases, ok,
}
use mathlib.Core.Path.{subst}
use firm_arbiter.Json.{Fields}
use firm_arbiter.EventStream.{Codec, init, read_new, read_loop, readline, ends_with_newline}
use firm_arbiter.EventStream.Protocol.{waiting, phase, Follows, read_new-Follows}
use firm_arbiter.EventStream.Chunks.{read_new-append}
use firm_arbiter.Docker.{Host}
use firm_arbiter.Supervisor.{SupervisorError, World, Method, return, ◌>>=◌, drain_events}

module _ (h : Host) (lib : Codec) where
  -- A drain behind each growth of the file.
  abbrev pub drain_growing : List ℕ → List (List ℕ) → Method (Unit {0})
  drain_growing content [] = return tt
  drain_growing content (more ∷ rest) = do
    docs ← drain_events h lib (some (content ++ more))
    drain_growing (content ++ more) rest

  abbrev pub grown : List ℕ → List (List ℕ) → List ℕ
  grown content [] = content
  grown content (more ∷ rest) = grown (content ++ more) rest

  -- The supervisor's stream and events are what one read of the content by a new stream gives.
  pub record Agrees (run_id adapter_id : String) (content : List ℕ) (w : World) : Type 0 where
    pub whole :
        read_new lib (init run_id adapter_id) (some content) ≡ (w.self.stream, ok w.self.events)

  drain_events-ok :
      (w v : World) (content : List ℕ) (docs : List Fields)
      → drain_events h lib (some content) w ≡ (v, ok docs)
      → (read_new lib w.self.stream (some content) ≡ (v.self.stream, ok docs))
        × (v.self.events ≡ w.self.events ++ docs)
        × (v.self.container ≡ w.self.container)
        × (v.trace ≡ w.trace)
  unfolding drain_events
  drain_events-ok w v content docs e =
      elim (Result-cases (read_new lib w.self.stream (some content)).1) [
        | inl (x, failed) ↦ absurd (ground arith)
        | inr (read, done) ↦ ground arith
      ]

  drain_events-Agrees :
      (run_id adapter_id : String) (content more : List ℕ) (w v : World) (docs : List Fields)
      → Agrees run_id adapter_id content w
      → drain_events h lib (some (content ++ more)) w ≡ (v, ok docs)
      → Agrees run_id adapter_id (content ++ more) v
  drain_events-Agrees run_id adapter_id content more w v docs a e =
      let (read, events, _, _) = drain_events-ok w v (content ++ more) docs e in
      record {
        whole =
            read_new-append lib (init run_id adapter_id) w.self.stream content more w.self.events
              (omega arith) a.whole
            ∙ rw (read, events) refl;
      }

  drain_growing-Agrees :
      (run_id adapter_id : String) (content : List ℕ) (pieces : List (List ℕ)) (w v : World)
      → Agrees run_id adapter_id content w
      → drain_growing content pieces w ≡ (v, ok tt)
      → Agrees run_id adapter_id (grown content pieces) v
  drain_growing-Agrees run_id adapter_id content [] w v a e =
      let same : w ≡ v = ap (λ (p : World × Result SupervisorError (Unit {0})). p.0) e in
      subst (Agrees run_id adapter_id content) same a
  drain_growing-Agrees run_id adapter_id content (more ∷ pieces) w v a e =
      elim (Result-cases (drain_events h lib (some (content ++ more)) w).1) [
        | inl (x, failed) ↦ absurd (ground arith)
        | inr (docs, done) ↦
            let u = (drain_events h lib (some (content ++ more)) w).0 in
            drain_growing-Agrees run_id adapter_id (content ++ more) pieces u v
              (drain_events-Agrees run_id adapter_id content more w u docs a (ground arith))
              (ground arith)
      ]

  read_new-empty :
      (run_id adapter_id : String)
      → read_new lib (init run_id adapter_id) (some []) ≡ (init run_id adapter_id, ok [])
  unfolding read_new read_loop readline ends_with_newline
  read_new-empty run_id adapter_id = refl

  -- If a new supervisor has drained its file after each of any number of growths, and no drain
  -- raised, then its stream and events are those of one read of the whole file by a new stream, and
  -- the events follow the event protocol from its start.
  pub drain_growing-refines :
      (run_id adapter_id : String) (pieces : List (List ℕ)) (w v : World)
      → w.self.stream ≡ init run_id adapter_id
      → w.self.events ≡ []
      → drain_growing [] pieces w ≡ (v, ok tt)
      → (read_new lib (init run_id adapter_id) (some (grown [] pieces))
          ≡ (v.self.stream, ok v.self.events))
        × Follows lib run_id adapter_id waiting 1 v.self.events
            (phase v.self.stream)
            v.self.stream.next_sequence
  drain_growing-refines run_id adapter_id pieces w v new_stream no_events e =
      let start : Agrees run_id adapter_id [] w = record {
        whole = rw (new_stream, no_events) (read_new-empty run_id adapter_id);
      } in
      let whole = (drain_growing-Agrees run_id adapter_id [] pieces w v start e).whole in
      (
        whole,
        read_new-Follows lib (init run_id adapter_id) v.self.stream (some (grown [] pieces))
            v.self.events whole,
      )
