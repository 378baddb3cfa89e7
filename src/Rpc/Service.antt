-- ===== src/Rpc/Service.antt =====
-- `SifterService` of sifter/src/aa_sifter/rpc/service.py. The checks of the contracts, the new identifiers,
-- the answers of the providers and the recommendation are arguments.
use aa.Prelude.{
  ℕ, max, List, [], ◌∷◌, ◌++◌, String, Bool, true, false, not, ◌&&◌, Option, none, some, ◌⊎◌, inl,
  inr, is_empty, get_or, ◌==◌, if◌then◌else◌,
}
use aa.Prelude.Text.{◌⧺◌, ◌≟◌, elem}
use aa.Prelude.Dict.{lookup, insert}
use aa.Prelude.Float.{Float}
use aa.Models.Provider.{
  Tier, tier_value, Role, system, user, assistant, tool, Message, GenerationResult,
}
use aa.Models.Config.{SifterConfig, cloud_model_config, estimate_cost}
use aa.Models.Defaults.{default_expert_max_output}
use aa.Decisions.Level.{level_value}
use aa.Decisions.Classifier.{DecisionClassification, classify}
use aa.Routing.Preflight.{PreflightAssessment, assess}
use aa.Routing.Policy.{RouteDecision, decide, kind_value, uses_cloud, or_configured}
use aa.App.State.{ComputeSifter, Call}
use aa.App.Generate.{generate}
use aa.Rpc.Envelope.{
  ErrorCode, invalid_params, method_not_found, internal_error, incompatible, unavailable, Response,
  success, failure, is_compatible,
}
use aa.Rpc.Contracts.{RouteRequest, RouteResponse, make_route_response}
pub mod Promises

-- `Role(role)`; none is the ValueError.
unfoldable pub role_of : String → Option Role
role_of s =
    if s ≟ "system"
    then some system
    else if s ≟ "user"
    then some user
    else if s ≟ "assistant"
    then some assistant
    else if s ≟ "tool"
    then some tool
    else none

-- A message of the request, of which either part may be missing.
pub record RawMessage : Type 0 where
  pub role : Option String
  pub content : Option String

-- `_message`
unfoldable pub message_of : RawMessage → String ⊎ Message
unfolding role_of
message_of item = elim item.content [
  | none ↦ inl "messages: each message needs role and content"
  | some content ↦ elim (role_of (get_or item.role "user")) [
    | none ↦ inl ("messages: invalid role '" ⧺ (get_or item.role "user" ⧺ "'"))
    | some role ↦ inr record { role = role; content = content }
  ]
]

unfoldable pub messages_of : List RawMessage → String ⊎ List Message
unfolding message_of
messages_of [] = inr []
messages_of (item ∷ items) = elim (message_of item) [
  | inl error ↦ inl error
  | inr message ↦ elim (messages_of items) [
    | inl error ↦ inl error
    | inr messages ↦ inr (message ∷ messages)
  ]
]

pub record GenerateParams : Type 0 where
  pub idempotency_key : Option String
  pub messages : List RawMessage
  pub tier : Option String

-- The payload of `generate`
pub record Payload : Type 0 where
  pub text : String
  pub model : String
  pub tier : String
  pub input_tokens : ℕ
  pub output_tokens : ℕ

-- The payloads under their keys, and the calls of providers that were made, newest first.
pub record State (F : Type 0) : Type 0 where
  pub idempotent : List (String × Payload)
  pub calls : List (Call F)

-- The methods with their parameters; any other method has its name alone.
pub data Request (F R : Type 0) : Type 0 where
  routing : RouteRequest F → Request F R
  generating : GenerateParams → Request F R
  health : Request F R
  recommending : R → Request F R
  other : (method : String) → Request F R

-- A message: its identifier, the version that it names, and its request.
pub record RpcMessage (J F R : Type 0) : Type 0 where
  pub id : Option J
  pub rpc_version : Option String
  pub request : Request F R

pub record ProviderHealth : Type 0 where
  pub name : String
  pub tier : String
  pub available : Bool
  pub endpoint : Option String
  pub key_env : Option String

-- The results of the methods
pub data Result (F A : Type 0) : Type 0 where
  routed : RouteResponse F → Result F A
  generated : Payload → Result F A
  healthy : List ProviderHealth → Result F A
  recommended : A → Result F A

-- The errors that `handle` tells apart.
pub data Failure : Type 0 where
  contract_error provider_error : (message : String) → Failure

-- What the service stands on: the sifter, the checks of the two contracts, the new identifier, and the
-- provider's answer after the calls so far.
pub record Host (F : Type 0) : Type 0 where
  pub sifter : ComputeSifter F
  pub check_request : RouteRequest F → Option String
  pub check_response : RouteResponse F → Option String
  pub new_id : String
  pub answer : List (Call F) → Call F → String ⊎ GenerationResult F
  pub temperature : F
  pub max_tokens : ℕ

abbrev pub tier_name : Option Tier → String
tier_name none = "none"
tier_name (some tier) = tier_value tier

abbrev pub contract_failure : {A : Type 0} → String ⊎ A → Failure ⊎ A
contract_failure (inl error) = inl (contract_error error)
contract_failure (inr a) = inr a

unfoldable pub advised : {F J A : Type 0} → Option J → String ⊎ A → Response J (Result F A)
advised request_id (inl error) = failure request_id internal_error error
advised request_id (inr a) = success request_id (recommended a)

module _ {F : Type 0} ⦃fl : Float F⦄ where
  -- `_estimate_cost`
  unfoldable pub cost_of : SifterConfig F → ℕ → F
  unfolding estimate_cost cloud_model_config
  cost_of config input_tokens =
      estimate_cost (cloud_model_config config) input_tokens (elim config.expert_max_output_tokens [
        | none ↦ default_expert_max_output
        | some n ↦ if n == 0 then default_expert_max_output else n
      ])

  -- The policy of a request, and "local_only" where the cloud is not allowed.
  unfoldable pub effective : SifterConfig F → Option String → String
  effective config policy =
      if not config.cloud_allowed then "local_only" else or_configured policy config.routing_policy

  unfoldable pub route_fields :
      (new_id : String)
      → SifterConfig F
      → RouteRequest F
      → DecisionClassification
      → (estimated_cost : F) → RouteDecision
      → RouteResponse F
  unfolding kind_value level_value
  route_fields new_id config request classification cost decision =
      let blocked = uses_cloud decision && not config.cloud_allowed in
      record {
        id = new_id;
        request_id = request.id;
        route = if blocked then "blocked" else kind_value decision.kind;
        decision_level = level_value classification.level;
        requires_human_approval = classification.requires_human_approval;
        reasons = decision.reasons ++ classification.reasons;
        planner_tier = some (tier_name decision.planner_tier);
        executor_tier = some (tier_name (some decision.executor_tier));
        review_tier = some (tier_name decision.review_tier);
        blocked_reason = if blocked then some "cloud is disabled by the active profile" else none;
        estimated_cost = some cost;
      }

  -- `route` for a request that was checked
  unfoldable pub route_checked : Host F → RouteRequest F → Option String → Failure ⊎ RouteResponse F
  unfolding route_fields make_route_response effective cost_of classify assess decide
  route_checked host request (some error) = inl (contract_error error)
  route_checked host request none =
      let config = host.sifter.config in
      let classification = classify request.prompt none none [] in
      let assessment = assess config request.prompt request.context 0 0 classification in
      contract_failure (
        make_route_response host.check_response (
          route_fields host.new_id config request classification
            (cost_of config assessment.context_requirement)
            (decide config assessment (some (effective config request.policy)) 0 true)))

  -- `route`
  unfoldable pub route : Host F → RouteRequest F → Failure ⊎ RouteResponse F
  unfolding route_checked
  route host request = route_checked host request (host.check_request request)

  abbrev pub payload_of : GenerationResult F → Payload
  payload_of result = record {
    text = result.text;
    model = result.model;
    tier = tier_value result.tier;
    input_tokens = result.input_tokens;
    output_tokens = result.output_tokens;
  }

  abbrev pub remember : Option String → Payload → State F → State F
  remember none payload s = s
  remember (some key) payload s = record s { idempotent = insert key payload s.idempotent }

  -- The answer of a provider, and what is kept of it
  unfoldable pub kept_answer :
      Option String → State F → String ⊎ GenerationResult F → (Failure ⊎ Payload) × State F
  kept_answer key s (inl error) = (inl (provider_error error), s)
  kept_answer key s (inr result) = (inr (payload_of result), remember key (payload_of result) s)

  -- The call of a provider
  unfoldable pub called :
      Host F → Option String → State F → String ⊎ Call F → (Failure ⊎ Payload) × State F
  unfolding kept_answer
  called host key s (inl error) = (inl (provider_error error), s)
  called host key s (inr call) =
      kept_answer key (record s { calls = call ∷ s.calls }) (host.answer s.calls call)

  -- `generate` for the messages that were read
  unfoldable pub generate_parsed :
      Host F → GenerateParams → State F → String ⊎ List Message → (Failure ⊎ Payload) × State F
  unfolding generate called
  generate_parsed host params s (inl error) = (inl (contract_error error), s)
  generate_parsed host params s (inr messages) =
      called host params.idempotency_key s (
        generate host.sifter messages (get_or params.tier "local") host.temperature host.max_tokens)

  -- `generate` behind the look at the keys
  unfoldable pub generate_anew : Host F → GenerateParams → State F → (Failure ⊎ Payload) × State F
  unfolding messages_of generate_parsed
  generate_anew host params s =
      if is_empty params.messages
      then (inl (contract_error "messages: at least one message is required"), s)
      else generate_parsed host params s (messages_of params.messages)

  abbrev pub known : Option String → State F → Option Payload
  known none s = none
  known (some key) s = lookup s.idempotent key

  -- A payload that is known is given again.
  unfoldable pub generate_known :
      Host F → GenerateParams → State F → Option Payload → (Failure ⊎ Payload) × State F
  unfolding generate_anew
  generate_known host params s (some payload) = (inr payload, s)
  generate_known host params s none = generate_anew host params s

  -- `generate`
  unfoldable pub rpc_generate : Host F → GenerateParams → State F → (Failure ⊎ Payload) × State F
  unfolding generate_known lookup
  rpc_generate host params s = generate_known host params s (known params.idempotency_key s)

  -- `health`, its providers
  unfoldable pub health_of : SifterConfig F → List ProviderHealth
  health_of config =
      record {
        name = config.local_provider;
        tier = "local";
        available = true;
        endpoint = some (or_configured config.local_endpoint config.ollama_host);
        key_env = none;
      }
      ∷ record {
        name = config.expert_provider;
        tier = "expert";
        available = config.cloud_allowed;
        endpoint = none;
        key_env = config.expert_api_key_env;
      }
      ∷ []

  -- The handlers of `handle`
  abbrev pub replied :
      {J A B : Type 0} → Option J → (A → Result F B) → Failure ⊎ A → Response J (Result F B)
  replied request_id f (inl (contract_error message)) = failure request_id invalid_params message
  replied request_id f (inl (provider_error message)) = failure request_id unavailable message
  replied request_id f (inr a) = success request_id (f a)

  unfoldable pub dispatch :
      {J R A : Type 0}
      → Host F
      → (R → String ⊎ A)
      → Option J
      → Request F R
      → State F
      → Response J (Result F A) × State F
  unfolding route rpc_generate health_of advised
  dispatch host recommend request_id (routing request) s =
      (replied request_id routed (route host request), s)
  dispatch host recommend request_id (generating params) s =
      let (result, after) = rpc_generate host params s in
      (replied request_id generated result, after)
  dispatch host recommend request_id health s =
      (success request_id (healthy (health_of host.sifter.config)), s)
  dispatch host recommend request_id (recommending params) s =
      (advised request_id (recommend params), s)
  dispatch host recommend request_id (other method) s =
      (failure request_id method_not_found ("unknown method '" ⧺ (method ⧺ "'")), s)

  -- `handle`
  unfoldable pub handle :
      {J R A : Type 0}
      → Host F
      → (R → String ⊎ A)
      → RpcMessage J F R
      → State F
      → Response J (Result F A) × State F
  unfolding is_compatible dispatch
  handle host recommend message s =
      if not (is_compatible message.rpc_version)
      then (failure message.id incompatible "unsupported RPC major", s)
      else dispatch host recommend message.id message.request s
