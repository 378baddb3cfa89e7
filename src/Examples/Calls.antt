-- ===== src/Examples/Calls.antt =====
-- The service of other modules and the order of a task graph, at concrete inputs.
use aa.Prelude.{
  List, All, ℕ, [], ◌∷◌, String, true, false, none, some, ◌⊎◌, inl, inr, ◌≡◌, refl, ◌<◌, arith,
  if◌then◌else◌, Bool-cases, is_some, eq_iff,
}
use mathlib.Core.Path.{subst}
use aa.Prelude.Text.{◌≟◌, ends_with}
use aa.Prelude.Float.{nat_float}
use aa.Models.Provider.{provider_for, tier_value}
use aa.Models.Config.{local_model_config}
use aa.Decisions.Approval.Types.{approve}
use aa.App.State.{ComputeSifter}
use aa.Rpc.Envelope.{response_id, is_compatible, failure, incompatible}
use aa.Rpc.Contracts.{RouteRequest}
use aa.Rpc.Service.{
  Host, State, health, RpcMessage, GenerateParams, Payload, rpc_generate, route, handle,
}
use aa.Rpc.Service.Promises.{
  serve, rpc_generate-repeated, RoutesLocally, route-RoutesLocally, handle_lem,
}
use aa.Tasks.Graph.{TaskGraph, get}
use aa.Tasks.Graph.Order.{topological_order}
use aa.Tasks.Graph.Order.Sound.{Ordered, topological_order-Ordered}
use aa.Tasks.Graph.Order.Fuel.{Ends, topological_order-Ends}
use aa.Tasks.Graph.Order.Acyclic.{IsRanked, is_reached, topological_order-reached}
use aa.Examples.Sample.{sample_config, sample_app, sample_result}
use aa.Examples.Work.{task_of}

abbrev private_sifter : ComputeSifter ℕ
private_sifter = record (sample_app approve true) {
  config = record sample_config { cloud_allowed = false };
}

abbrev sample_host : Host ℕ
sample_host = record {
  sifter = private_sifter;
  check_request = λ request. none;
  check_response = λ response. none;
  new_id = "resp_1";
  answer = λ calls call. inr (sample_result call.tier call.model);
  temperature = 0;
  max_tokens = 4096;
}

abbrev sample_params : GenerateParams
sample_params = record {
  idempotency_key = some "k";
  messages = record { role = none; content = some "hello" } ∷ [];
  tier = none;
}

abbrev changed_params : GenerateParams
changed_params = record { idempotency_key = some "k"; messages = []; tier = some "cloud" }

abbrev start : State ℕ
start = record { idempotent = []; calls = [] }

abbrev sample_payload : Payload
sample_payload = record {
  text = "qwen3.5:9b";
  model = "qwen3.5:9b";
  tier = "local";
  input_tokens = 3;
  output_tokens = 5;
}

abbrev answered : State ℕ
answered = (rpc_generate sample_host sample_params start).1

answers : rpc_generate sample_host sample_params start ≡ (inr sample_payload, answered)
unfolding rpc_generate provider_for local_model_config ends_with tier_value
answers = refl

-- A call under another key, which is answered and kept.
abbrev other_calls : List (Host ℕ × GenerateParams)
other_calls =
    (sample_host, record sample_params { idempotency_key = some "other" })
    ∷ (sample_host, changed_params)
    ∷ []

rpc_generate-repeated_example :
    rpc_generate sample_host changed_params (serve other_calls answered)
    ≡ (inr sample_payload, serve other_calls answered)
rpc_generate-repeated_example =
    rpc_generate-repeated sample_host sample_host "k" sample_params changed_params start answered
      sample_payload other_calls refl refl answers

abbrev sample_request : RouteRequest ℕ
sample_request = record {
  id = "r1";
  prompt = "say hello";
  context = none;
  policy = some "cloud_only";
  max_cloud_cost = none;
}

route-RoutesLocally_example : RoutesLocally (route sample_host sample_request)
route-RoutesLocally_example = route-RoutesLocally sample_host sample_request refl

abbrev advise : ℕ → String ⊎ ℕ
advise n = inr n

abbrev sample_message : RpcMessage ℕ ℕ ℕ
sample_message = record { id = some 7; rpc_version = some "2.0"; request = health }

handle_lem_example :
    (response_id (handle sample_host advise sample_message start).0 ≡ some 7)
    × ((is_compatible sample_message.rpc_version ≡ true)
        ⊎ (handle sample_host advise sample_message start
            ≡ (failure (some 7) incompatible "unsupported RPC major", start)))
handle_lem_example = handle_lem sample_host advise sample_message start

abbrev sample_graph : TaskGraph ℕ
sample_graph = task_of "b" ("a" ∷ []) ∷ task_of "a" [] ∷ []

abbrev sample_rank : String → ℕ
sample_rank id = if id ≟ "b" then 1 else 0

-- What IsRanked says of one task.
abbrev Below : String → List String → Type 0
Below task_id ds =
    All (λ d. (sample_rank d < sample_rank task_id) × (is_some (get sample_graph d) ≡ true)) ds

sample_graph-IsRanked : IsRanked sample_rank sample_graph
unfolding get
sample_graph-IsRanked task_id t e = elim (Bool-cases ("b" ≟ task_id)) [
  | inl b ↦
      (let found : some (task_of "b" ("a" ∷ [])) ≡ some t = rw b at e in
        let there : task_of "b" ("a" ∷ []) ≡ t = cc found in
        let id : "b" ≡ task_id = (eq_iff "b" task_id).0 b in
        subst (λ u. Below task_id u.dependencies) there
          (subst (λ name. Below name ("a" ∷ [])) id ((omega arith, refl), tt)))
  | inr not_b ↦ elim (Bool-cases ("a" ≟ task_id)) [
    | inl a ↦
        (let found : some (task_of "a" []) ≡ some t = rw (not_b, a) at e in
          let there : task_of "a" [] ≡ t = cc found in
          subst (λ u. Below task_id u.dependencies) there tt)
    | inr not_a ↦ (let found : none ≡ some t = rw (not_b, not_a) at e in absurd (cc found))
  ]
]

topological_order-Ordered_example : Ordered sample_graph (topological_order sample_graph)
topological_order-Ordered_example = topological_order-Ordered sample_graph

topological_order-Ends_example : Ends (topological_order sample_graph)
topological_order-Ends_example = topological_order-Ends sample_graph

topological_order-reached_example : is_reached (topological_order sample_graph) ≡ true
topological_order-reached_example =
    topological_order-reached sample_graph sample_rank sample_graph-IsRanked
