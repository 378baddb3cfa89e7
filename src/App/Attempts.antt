-- ===== src/App/Attempts.antt =====
-- How many calls of models a route makes.
use aa.Prelude.{ℕ, zero, suc, ◌+◌, ◌≤◌, List, String, Option, arith}
use aa.Prelude.Float.{Float}
use aa.Models.Provider.{Tier, local, expert, Message}
use aa.Metrics.{UsageMetrics}
use aa.Routing.Policy.{RouteKind, local_route, hybrid_route, cloud_route}
use aa.App.State.{ComputeSifter, Run, VerificationResult}
use aa.App.Exec.{Exec}
use aa.App.Exec.Costs.{
  count_calls, Costs, Costs-pure, Costs-if, Costs-catch_budget, Costs-catch_provider, Costs-bind,
}
use aa.App.Calls.{call_tier, verify, tally}
use aa.App.Calls.Sent.{Sent, unsent, sent, call_tier-Sent}
use aa.App.Route.{
  Work, repair_messages, attempt, attempts, run_local, run_cloud, run_hybrid, review, reviewed,
  execute_route,
}

module _ {F : Type 0} ⦃fl : Float F⦄ (app : ComputeSifter F) where
  Sent-count :
      (tier : Tier) (messages : List Message) (s s' : Run F)
      → Sent app tier messages s s'
      → count_calls s'.log ≤ count_calls s.log + 1
  Sent-count tier messages s s' (unsent same) = rw same (omega arith)
  Sent-count tier messages s s' (sent provider more allowed) = rw more (omega arith)

  call-Costs : (tier : Tier) (messages : List Message) → Costs 1 (call_tier app tier messages)
  call-Costs tier messages = record {
    at = λ s. Sent-count tier messages s _ (call_tier-Sent app tier messages s);
  }

  verify-Costs : (answer : String) → Costs 0 (verify app answer)
  unfolding verify
  verify-Costs answer = record { at = λ s. omega arith }

  tally-Costs : (f : UsageMetrics F → UsageMetrics F) → Costs 0 (tally f)
  tally-Costs f = record { at = λ s. omega arith }

  attempt-Costs : (messages : List Message) (work : Work) → Costs 1 (attempt app messages work)
  unfolding attempt
  attempt-Costs messages work =
      Costs-catch_provider 1 0 _ _
        (Costs-bind 1 0 _ _ (call-Costs local messages) λ answer.
          Costs-bind 0 0 _ _ (verify-Costs answer) λ v.
            Costs-if 0 v.passed _ _ (Costs-pure _)
              (Costs-bind 0 0 _ _ (tally-Costs _) λ _. Costs-pure _))
        (λ e. Costs-pure _)

  more-Costs : {A : Type 0} (n k : ℕ) (m : Exec F A) → n ≤ k → Costs n m → Costs k m
  more-Costs n k m h c = record { at = λ s. omega (arith, h, c.at s) }

  attempts-Costs :
      (messages : List Message) (left made : ℕ) (work : Work)
      → Costs left (attempts app messages left made work)
  unfolding attempts
  attempts-Costs messages zero made work = Costs-pure _
  attempts-Costs messages (suc left) made work = more-Costs (1 + left) (suc left) _ (omega arith) (
      Costs-bind 1 left _ _ (attempt-Costs (repair_messages messages made work.answer) work) λ next.
        Costs-if left next.verification.passed _ _
          (more-Costs 0 left _ (omega arith) (Costs-pure _))
          (attempts-Costs messages left (suc made) next))

  review-Costs : (plan answer : String) → Costs 1 (review app plan answer)
  unfolding review
  review-Costs plan answer =
      Costs-catch_budget 1 0 _ _ (Costs-bind 1 0 _ _ (call-Costs expert _) λ comments. Costs-pure _)
        (λ e. Costs-pure _)

  reviewed-Costs :
      (plan answer : String) (v : VerificationResult) → Costs 1 (reviewed app plan answer v)
  unfolding reviewed
  reviewed-Costs plan answer v =
      Costs-if 1 _ _ _ (more-Costs 0 1 _ (omega arith) (Costs-pure _))
        (Costs-bind 1 0 _ _ (review-Costs plan answer) λ text. Costs-pure _)

  -- The calls that a route makes at most.
  abbrev pub calls_of : RouteKind → ℕ
  calls_of local_route = app.config.local_max_retries + 1
  calls_of hybrid_route = 3
  calls_of cloud_route = 1

  execute_route-Costs :
      (prompt : String) (context : Option String) (route : RouteKind)
      (constraints approved : List String)
      → Costs (calls_of route) (execute_route app prompt context route constraints approved)
  unfolding execute_route run_local run_cloud run_hybrid
  execute_route-Costs prompt context local_route constraints approved = attempts-Costs _ _ _ _
  execute_route-Costs prompt context cloud_route constraints approved =
      Costs-bind 1 0 _ _ (call-Costs expert _)
        λ answer. Costs-bind 0 0 _ _ (verify-Costs answer) λ v. Costs-pure _
  execute_route-Costs prompt context hybrid_route constraints approved =
      Costs-bind 1 2 _ _ (call-Costs expert _) λ plan.
        Costs-bind 1 1 _ _ (call-Costs local _)
          λ answer. Costs-bind 0 1 _ _ (verify-Costs answer) λ v. reviewed-Costs plan answer v

  -- Along a route the models are called at most so often, whatever they and the verifier answer: a local
  -- route as often as the configured retries and once more, a hybrid route three times, a cloud route
  -- once.
  pub execute_route-calls :
      (prompt : String) (context : Option String) (route : RouteKind)
      (constraints approved : List String) (s : Run F)
      → count_calls (execute_route app prompt context route constraints approved s).1.log
        ≤ count_calls s.log + calls_of route
  execute_route-calls prompt context route constraints approved s =
      (execute_route-Costs prompt context route constraints approved).at s
