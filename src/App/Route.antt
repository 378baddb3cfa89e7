-- ===== src/App/Route.antt =====
-- `_execute_route` of sifter/src/aa_sifter/app.py: the work along a route.
use aa.Prelude.{
  ℕ, zero, suc, ◌+◌, List, [], ◌∷◌, ◌++◌, String, false, not, ◌&&◌, Option, none, some, is_empty,
  if◌then◌else◌,
}
use aa.Prelude.Float.{Float}
use aa.Prelude.Text.{◌⧺◌, join}
use aa.Context.Packet.{bulleted}
use aa.Models.Provider.{local, expert, Message, system_message, user_message, assistant_message}
use aa.Routing.Policy.{RouteKind, local_route, hybrid_route, cloud_route}
use aa.App.State.{ComputeSifter, VerificationResult}
use aa.App.Exec.{Exec, pure, catch_budget, catch_provider, ◌>>=◌, ◌>>◌}
use aa.App.Calls.{call_tier, verify, tally}
use aa.App.Decision.{given}

authoritative : List String → List String → List String
authoritative constraints approved =
    bulleted "HUMAN CONSTRAINTS (authoritative, must not be reinterpreted as optional):" constraints
    ++ bulleted "APPROVED DECISIONS (authoritative):" approved

instructions : List String → List String → String
unfolding authoritative join
instructions constraints approved =
    let base =
      "You are a capable local software engineer. Follow existing project patterns. "
      ⧺ "Return a complete, coherent answer." in
    if is_empty constraints && is_empty approved
    then base
    else base ⧺ ("\n\n" ⧺ join "\n\n" (authoritative constraints approved))

context_messages : Option String → List Message
context_messages context = elim (given context) [
  | none ↦ []
  | some s ↦ user_message ("Context:\n" ⧺ s) ∷ []
]

-- `_execution_messages`
unfoldable pub execution_messages :
    String → Option String → List String → List String → List Message
unfolding instructions context_messages
execution_messages prompt context constraints approved =
    system_message (instructions constraints approved)
    ∷ (context_messages context ++ user_message prompt ∷ [])

-- The answer, its verification, and the count of the failed attempts.
pub record Work : Type 0 where
  pub answer : String
  pub verification : VerificationResult
  pub failed_attempts : ℕ

-- `VerificationResult(passed=False)`
abbrev unverified : VerificationResult
unverified = record { passed = false; summary = "no checks were run" }

review_messages : String → String → List Message
review_messages plan answer =
    system_message "Review the implementation against the plan. Point out concrete issues only."
    ∷ user_message ("Plan:\n" ⧺ (plan ⧺ ("\n\nImplementation:\n" ⧺ answer)))
    ∷ []

plan_messages : String → List Message
plan_messages prompt =
    system_message (
      "Produce a concise implementation plan with acceptance criteria and "
      ⧺ "likely files. Do NOT write the final answer yet. Respect human constraints.")
    ∷ user_message prompt
    ∷ []

unfoldable pub repair_messages : List Message → ℕ → String → List Message
repair_messages base_messages zero answer = base_messages
repair_messages base_messages (suc attempts) answer =
    base_messages
    ++ assistant_message answer
      ∷ user_message (
          "The previous attempt did not pass verification. Fix the specific "
          ⧺ "problem and return a corrected complete answer.")
      ∷ []

module _ {F : Type 0} ⦃fl : Float F⦄ where
  -- `_execute_route` on a cloud route
  unfoldable pub run_cloud : ComputeSifter F → List Message → Exec F Work
  run_cloud app base_messages = do
    answer ← call_tier app expert base_messages
    verification ← verify app answer
    pure (record { answer = answer; verification = verification; failed_attempts = 0 })

  -- The expert's review of work that passed, left out where the budget does not allow it.
  unfoldable pub review : ComputeSifter F → String → String → Exec F String
  unfolding review_messages
  review app plan answer =
      catch_budget
        (do
          comments ← call_tier app expert (review_messages plan answer)
          pure (answer ⧺ ("\n\n---\nExpert review:\n" ⧺ comments)))
        (λ _. pure answer)

  unfoldable pub reviewed : ComputeSifter F → String → String → VerificationResult → Exec F Work
  unfolding review
  reviewed app plan answer verification =
      if not verification.passed
      then pure (record { answer = answer; verification = verification; failed_attempts = 1 })
      else do
        text ← review app plan answer
        pure (record { answer = text; verification = verification; failed_attempts = 0 })

  -- `_execute_route` on a hybrid route
  unfoldable pub run_hybrid :
      ComputeSifter F → String → Option String → List String → List String → Exec F Work
  unfolding plan_messages execution_messages reviewed
  run_hybrid app prompt context constraints approved = do
    plan ← call_tier app expert (plan_messages prompt)
    answer ←
        call_tier app local
          (execution_messages prompt context constraints (approved ++ ("Plan: " ⧺ plan) ∷ []))
    verification ← verify app answer
    reviewed app plan answer verification

  -- One attempt: the new state of the work, with whether an answer was verified at all.
  unfoldable pub attempt : ComputeSifter F → List Message → Work → Exec F Work
  attempt app messages work =
      catch_provider
        (do
          answer ← call_tier app local messages
          verification ← verify app answer
          if verification.passed
              then pure (record work { answer = answer; verification = verification })
              else do
                tally λ u. record u { retries = u.retries + 1 }
                pure (record {
                  answer = answer;
                  verification = verification;
                  failed_attempts = work.failed_attempts + 1;
                }))
        (λ error. pure (record work {
          answer = "Local model error: " ⧺ error;
          failed_attempts = work.failed_attempts + 1;
        }))

  -- The attempts that are left, after so many; the loop ends with the first that passes.
  unfoldable pub attempts : ComputeSifter F → List Message → (left made : ℕ) → Work → Exec F Work
  unfolding attempt repair_messages
  attempts app base_messages zero made work = pure work
  attempts app base_messages (suc left) made work = do
    next ← attempt app (repair_messages base_messages made work.answer) work
    if next.verification.passed then pure next else attempts app base_messages left (suc made) next

  -- `_execute_route` on a local route
  unfoldable pub run_local : ComputeSifter F → List Message → Exec F Work
  unfolding attempts
  run_local app base_messages =
      attempts app base_messages (app.config.local_max_retries + 1) 0
        (record { answer = ""; verification = unverified; failed_attempts = 0 })

  -- `_execute_route`
  unfoldable pub execute_route :
      ComputeSifter F → String → Option String → RouteKind → List String → List String → Exec F Work
  unfolding run_cloud run_hybrid run_local execution_messages
  execute_route app prompt context cloud_route constraints approved =
      run_cloud app (execution_messages prompt context constraints approved)
  execute_route app prompt context hybrid_route constraints approved =
      run_hybrid app prompt context constraints approved
  execute_route app prompt context local_route constraints approved =
      run_local app (execution_messages prompt context constraints approved)
