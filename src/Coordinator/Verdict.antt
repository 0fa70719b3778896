-- ===== src/Coordinator/Verdict.antt =====
-- The status of a run, and what it means with the watchdog's and the boot validation's results.
use firm_arbiter.Prelude.{
  ℕ, String, ◌≡◌, refl, ◌≢◌, ◌⊎◌, inl, inr, Bool, true, false, Option, none, some, List, arith,
  Bool-cases, ℕ-Eq, String-Eq, pair-Eq, Option-Eq, any_of, count_of, Result, Result-cases, ok, err,
}
use firm_arbiter.Json.{Json, Fields, text, pos, says}
use firm_arbiter.Watchdog.{returned, Watchdog, Poll, benchmark_complete}
use firm_arbiter.Watchdog.Ending.{
  Ending, Observation, graceful_shutdown, completed, Thread, run, wait,
}
use firm_arbiter.Watchdog.Verdict.{run-completed, run-persisted}
use firm_arbiter.Probes.Boot.{Python, ConsoleFile, console_evidence, inspect_guest_console}
use firm_arbiter.Probes.Boot.Judging.{
  Lifecycle, AuthenticityRecord, BootObservation, boot_not_attempted, booted, judge_boot,
  validate_boot_evidence, is_boot_claim, is_authenticated, lifecycle_outcome,
}
use firm_arbiter.Probes.Boot.Verdict.{booted_exact}
use firm_arbiter.Coordinator.{
  lifecycle, overall_status, boot_requested, member, derive_candidate_stage_results,
}
use firm_arbiter.Coordinator.Stages.{completions}
use firm_arbiter.Coordinator.Blocking.{first_outcome, boot_requested_exact}

-- The observation that `wait` returns, if it returns; an exception is a runtime error.
abbrev pub returned_value {ℓ κ} : {E : Type κ} {A : Type ℓ} → Result E A → Option A
returned_value (ok a) = some a
returned_value (err e) = none

module _ (started : ℕ) (started_at : String) (w : Watchdog) (polls : List Poll) (e : Ending) where
  abbrev ran : Thread
  ran = run started started_at w polls e

  abbrev observation : Option Observation
  observation = returned_value (wait (some ran))

  -- If the coordinator, with the observation that the watchdog's `wait` returns, gives a run the
  -- status of a completed lifecycle, then there was no runtime error and `wait` returned: the core
  -- asked for the end, the adapter was asked to shut down, did so gracefully and without force, observed
  -- events say that cleanup is complete and that it has stopped, its last outcome is "completed", its
  -- container exited with code 0, and the observation was persisted.
  pub overall_status-completed :
      (runtime_error : Bool)
      → overall_status runtime_error observation ≡ lifecycle completed
      → (runtime_error ≡ false)
        × (e.persist ≡ returned)
        × ((o : Observation) × (wait (some ran) ≡ ok o)
            × (o.trigger ≡ benchmark_complete)
            × (o.termination_mode ≡ graceful_shutdown)
            × (o.shutdown_requested ≡ true)
            × (o.force_termination_used ≡ false)
            × (any_of (λ d. says d "event" "cleanup_complete") ran.watchdog.observed_events ≡ true)
            × (any_of (λ d. says d "event" "adapter_stopped") ran.watchdog.observed_events ≡ true)
            × (o.final_adapter_outcome ≡ some "completed")
            × (e.exit_code ≡ some (pos 0)))
  unfolding overall_status wait
  overall_status-completed true h = absurd (ground arith)
  overall_status-completed false h = elim (Result-cases (wait (some ran))) [
    | inl (x, failed) ↦ absurd (ground arith)
    | inr (o, waited) ↦
        let held : ran.result ≡ some o = ground arith in
        let outcome : o.run_outcome ≡ completed = ground arith in
        let c = run-completed started started_at w polls e o held outcome in
        (
          refl,
          run-persisted started started_at w polls e o waited,
          (o, waited, c.0, c.1, c.2, c.3, c.4, c.5, c.6, c.7),
        )
  ]

module _ (py : Python) (path : String) (file : ConsoleFile) (requested_stages : List String)
    (parse : String → Option ℕ) (events : List Fields) (outcome : Lifecycle)
    (records : List AuthenticityRecord) (reason : Option String) (now : String)
    (o : BootObservation) where
  -- If emulation was requested but the first completion of the unpack stage among the events has
  -- another outcome than "succeeded", or none, then the boot is reported as not attempted, whatever
  -- the console and the probes show. A boot is reported as confirmed only if emulation was requested
  -- and the first completion of the unpack stage, if there is one, says "succeeded".
  pub validate_boot_evidence-unblocked :
      validate_boot_evidence py path file
          (boot_requested requested_stages (derive_candidate_stage_results parse events))
          events
          outcome
          records
          reason
          now
        ≡ ok o
      → ((found : Option Json)
          → member "emulate" requested_stages ≡ true
          → first_outcome "unpack" (completions events) ≡ some found
          → found ≢ some (text "succeeded")
          → o.status ≡ boot_not_attempted)
        × (o.status ≡ booted
            → (member "emulate" requested_stages ≡ true)
              × ((first_outcome "unpack" (completions events) ≡ none)
                  ⊎ (first_outcome "unpack" (completions events) ≡ some (some (text "succeeded")))))
  unfolding validate_boot_evidence inspect_guest_console
  validate_boot_evidence-unblocked h =
      let requested =
        boot_requested requested_stages (derive_candidate_stage_results parse events) in
      let same : judge_boot (console_evidence py path file 33554432) requested
            (any_of is_boot_claim events) (count_of is_authenticated records)
            (lifecycle_outcome outcome) reason now
          ≡ o =
        ground arith in
      let exact = boot_requested_exact parse requested_stages events in
      (
        λ found emulate first other. elim (Bool-cases requested) [
          | inl asked ↦ absurd (ground (arith, exact.0 asked))
          | inr b ↦ rw (← same, b) (ground arith)
        ],
        λ confirmed.
            exact.0
              ((booted_exact py path file requested outcome records reason now events o h).0
                confirmed).0,
      )
