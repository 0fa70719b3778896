-- ===== src/Janitor/Accounting.antt =====
-- Every action of a plan is accounted for once, and what the verdict says of the results.
use firm_arbiter.Prelude.{
  ℕ, ◌+◌, ◌<◌, String, ◌≡◌, refl, ◌∙◌, ◌↔◌, true, none, List, [], ◌∷◌, arith, ℕ-Eq, String-Eq,
  pair-Eq, Option-Eq, length, count_of, All, err,
}
use firm_arbiter.Janitor.{docker_container, remove, RemediationPlan, RemediationAction, Texts}
use firm_arbiter.Janitor.Execution.{
  Exception, execute_action, remediate_container, JanitorBackend, RemediationActionResult, removed,
  preserved, missing, failed, execute_actions, is_status, verdict, partial_failure,
  manual_review_required, remediated, already_clean, no_action_required, execute,
}

module _ (texts : Texts) (backend : JanitorBackend) (run_id : String) where
  length-execute_actions :
      (step : ℕ) (actions : List RemediationAction)
      → length (execute_actions texts backend run_id step actions).0 ≡ length actions
  unfolding execute_actions
  length-execute_actions step [] = refl
  length-execute_actions step (a ∷ actions) =
      omega (arith, length-execute_actions (step + 1) actions)

status_counts :
    (results : List RemediationActionResult)
    → count_of (is_status removed) results
        + count_of (is_status preserved) results
        + count_of (is_status missing) results
        + count_of (is_status failed) results
      ≡ length results
status_counts [] = omega arith
status_counts (r ∷ results) = ground (arith, status_counts results)

-- The execution attempts each action of the plan once, and its four counters add up to that number.
pub execute_accounts :
    (texts : Texts) (backend : JanitorBackend) (plan : RemediationPlan) (t u : String)
    → let o = (execute texts backend plan t u).0 in
      (o.attempted_actions ≡ length plan.actions)
      × (o.removed_resources + o.preserved_resources + o.missing_resources + o.failed_actions
          ≡ length plan.actions)
unfolding execute
execute_accounts texts backend plan t u =
    let e = length-execute_actions texts backend plan.run_id 0 plan.actions in
    (e, status_counts _ ∙ e)

verdict_table :
    (r p m f n : ℕ)
    → r + p + m + f ≡ n
    → ((verdict r p m f ≡ partial_failure) ↔ (0 < f))
      × ((verdict r p m f ≡ manual_review_required) ↔ ((f ≡ 0) × (0 < p)))
      × ((verdict r p m f ≡ remediated) ↔ ((0 < r) × (r + m ≡ n)))
      × ((verdict r p m f ≡ already_clean) ↔ ((0 < n) × (m ≡ n)))
      × ((verdict r p m f ≡ no_action_required) ↔ (n ≡ 0))
unfolding verdict
verdict_table r p m f n h = (
  (ground arith, ground arith),
  (ground arith, ground arith),
  (ground arith, ground arith),
  (ground arith, ground arith),
  (ground arith, ground arith),
)

-- The status in terms of the counters: a failure if any action failed; else a manual review exactly
-- if something was preserved; and a remediated or already clean host only if every action of the
-- plan removed its resource or found it gone.
pub execute_verdict :
    (texts : Texts) (backend : JanitorBackend) (plan : RemediationPlan) (t u : String)
    → let o = (execute texts backend plan t u).0 in
      ((o.status ≡ partial_failure) ↔ (0 < o.failed_actions))
      × ((o.status ≡ manual_review_required)
          ↔ ((o.failed_actions ≡ 0) × (0 < o.preserved_resources)))
      × ((o.status ≡ remediated) ↔ (
          (0 < o.removed_resources)
          × (o.removed_resources + o.missing_resources ≡ length plan.actions)))
      × ((o.status ≡ already_clean)
          ↔ ((0 < length plan.actions) × (o.missing_resources ≡ length plan.actions)))
      × ((o.status ≡ no_action_required) ↔ (length plan.actions ≡ 0))
unfolding execute
execute_verdict texts backend plan t u =
    verdict_table _ _ _ _ _ (execute_accounts texts backend plan t u).1

abbrev pub IsRemoval : RemediationAction → Type 0
IsRemoval a = (a.authorised ≡ true) × (a.action ≡ remove) × (a.resource_type ≡ docker_container)

module _ (texts : Texts) (backend : JanitorBackend)
    (down : (step : ℕ) (id : String)
      → (x : Exception) × (backend.inspect_container step id ≡ err x)) where
  execute_action-down :
      (run_id : String) (step : ℕ) (a : RemediationAction)
      → IsRemoval a
      → (is_status missing (execute_action texts backend run_id step a).0 ≡ true)
        × ((execute_action texts backend run_id step a).1 ≡ none)
  unfolding execute_action remediate_container
  execute_action-down run_id step a h =
      let (x, failed_call) = down step a.resource_identity in ground (arith, h, failed_call)

  execute_actions-down :
      (run_id : String) (step : ℕ) (actions : List RemediationAction)
      → All IsRemoval actions
      → (count_of (is_status missing) (execute_actions texts backend run_id step actions).0
          ≡ length actions)
        × ((execute_actions texts backend run_id step actions).1 ≡ [])
  unfolding execute_actions
  execute_actions-down run_id step [] h = (refl, refl)
  execute_actions-down run_id step (a ∷ actions) (h, hs) =
      let (m, no_call) = execute_action-down run_id step a h in
      let (ms, no_calls) = execute_actions-down run_id (step + 1) actions hs in
      (ground (arith, m, ms), ground (arith, no_call, no_calls))

  -- A backend whose every inspection raises lets a plan of authorised removals end as already clean:
  -- each container is counted as missing, and none is removed.
  pub down_already_clean :
      (plan : RemediationPlan) (t u : String)
      → All IsRemoval plan.actions
      → 0 < length plan.actions
      → ((execute texts backend plan t u).0.status ≡ already_clean)
        × ((execute texts backend plan t u).0.missing_resources ≡ length plan.actions)
        × ((execute texts backend plan t u).1 ≡ [])
  unfolding execute
  down_already_clean plan t u h some_action =
      let (all, no_calls) = execute_actions-down plan.run_id 0 plan.actions h in
      ((execute_verdict texts backend plan t u).3.1 (some_action, all), all, no_calls)
