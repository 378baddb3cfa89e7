-- ===== src/Rpc/Service/Promises.antt =====
-- What callers of sifter/src/aa_sifter/rpc/service.py may rely on.
use aa.Prelude.{
  List, [], ◌∷◌, String, true, false, not, ◌||◌, ◌&&◌, Option, none, some, ◌⊎◌, inl, inr, is_empty,
  get_or, if◌then◌else◌, ◌≡◌, ◌∙◌, sym, ap, refl, eq_refl, eq_iff, Bool-cases,
}
use mathlib.Core.Path.{subst}
use aa.Prelude.Text.{◌≟◌, elem}
use aa.Prelude.Dict.{lookup, lookup-insert}
use aa.Prelude.Float.{Float}
use aa.Models.Provider.{Tier, tier_value, local, expert, Message, GenerationResult}
use aa.App.State.{Call}
use aa.App.Generate.{generate}
use aa.Routing.Policy.{decide, kind_value, uses_cloud, is_expert, RouteDecision, local_route}
use aa.Routing.Policy.Cloud.{IsCoherent, CoherentAs, decide-IsCoherent, decide-local_only}
use aa.Rpc.Envelope.{failure, response_id, is_compatible, incompatible}
use aa.Models.Config.{SifterConfig}
use aa.Decisions.Classifier.{DecisionClassification, classify}
use aa.Routing.Preflight.{assess}
use aa.Rpc.Contracts.{
  checked, floored, route_values, decision_levels, RouteRequest, RouteResponse, make_route_response,
}
use aa.Rpc.Service.{
  Host, State, Request, routing, generating, health, recommending, other, RpcMessage, Result,
  Failure, contract_error, provider_error, GenerateParams, Payload, known, remember, called,
  kept_answer, payload_of, generate_parsed, generate_known, routed, generated, advised,
  route_checked, tier_name, cost_of, contract_failure, generate_anew, rpc_generate, messages_of,
  handle, dispatch, replied, route, route_fields, effective,
}

executor-local :
    (d : RouteDecision) (t : Tier)
    → (is_expert (some t) || (is_expert d.planner_tier || is_expert d.review_tier)) ≡ false
    → tier_name (some t) ≡ "local"
unfolding tier_value
executor-local d local h = refl
executor-local d expert h = absurd (cc h)

advised-response_id :
    {J A : Type 0} (F : Type 0) (id : Option J) (o : String ⊎ A)
    → response_id (advised {F = F} id o) ≡ id
unfolding advised
advised-response_id F id (inl e) = refl
advised-response_id F id (inr a) = refl

module _ {F : Type 0} ⦃fl : Float F⦄ where
  -- After a payload under a key, the key is known with it.
  abbrev Remembers : String → (Failure ⊎ Payload) × State F → Type 0
  Remembers key (inl e, s) = Unit
  Remembers key (inr payload, s) = lookup s.idempotent key ≡ some payload

  kept_answer-Remembers :
      (key : String) (s : State F) (r : String ⊎ GenerationResult F)
      → Remembers key (kept_answer (some key) s r)
  unfolding kept_answer
  kept_answer-Remembers key s (inl e) = tt
  kept_answer-Remembers key s (inr result) =
      lookup-insert key key (payload_of result) s.idempotent
      ∙ ap (λ b. if b then some (payload_of result) else lookup s.idempotent key) (eq_refl key)

  called-Remembers :
      (host : Host F) (key : String) (s : State F) (c : String ⊎ Call F)
      → Remembers key (called host (some key) s c)
  unfolding called
  called-Remembers host key s (inl e) = tt
  called-Remembers host key s (inr call) =
      kept_answer-Remembers key (record s { calls = call ∷ s.calls }) (host.answer s.calls call)

  generate_parsed-Remembers :
      (host : Host F) (key : String) (params : GenerateParams) (s : State F)
      (m : String ⊎ List Message)
      → params.idempotency_key ≡ some key
      → Remembers key (generate_parsed host params s m)
  unfolding generate_parsed
  generate_parsed-Remembers host key params s (inl e) k = tt
  generate_parsed-Remembers host key params s (inr messages) k =
      let c =
        generate host.sifter messages (get_or params.tier "local") host.temperature
          host.max_tokens in
      subst (λ o. Remembers key (called host o s c)) (sym k) (called-Remembers host key s c)

  generate_anew-Remembers :
      (host : Host F) (key : String) (params : GenerateParams) (s : State F)
      → params.idempotency_key ≡ some key
      → Remembers key (generate_anew host params s)
  unfolding generate_anew
  generate_anew-Remembers host key params s k = elim (Bool-cases (is_empty params.messages)) [
    | inl e ↦ rw (e, Remembers) tt
    | inr e ↦ rw e (generate_parsed-Remembers host key params s (messages_of params.messages) k)
  ]

  generate_known-Remembers :
      (host : Host F) (key : String) (params : GenerateParams) (s : State F) (o : Option Payload)
      → params.idempotency_key ≡ some key
      → lookup s.idempotent key ≡ o
      → Remembers key (generate_known host params s o)
  unfolding generate_known
  generate_known-Remembers host key params s none k e = generate_anew-Remembers host key params s k
  generate_known-Remembers host key params s (some payload) k e = e

  rpc_generate-Remembers :
      (host : Host F) (key : String) (params : GenerateParams) (s : State F)
      → params.idempotency_key ≡ some key
      → Remembers key (rpc_generate host params s)
  unfolding rpc_generate
  rpc_generate-Remembers host key params s k =
      subst (λ o. Remembers key (generate_known host params s o)) (ap (λ o. known o s) (sym k))
        (generate_known-Remembers host key params s (lookup s.idempotent key) k refl)

  -- A key that is known with a payload stays so.
  abbrev pub Knows : String → Payload → State F → Type 0
  Knows key payload s = lookup s.idempotent key ≡ some payload

  remember-Knows :
      (name : Option String) (key : String) (mine payload : Payload) (s : State F)
      → known name s ≡ none
      → Knows key payload s
      → Knows key payload (remember name mine s)
  remember-Knows none key mine payload s new there = there
  remember-Knows (some name) key mine payload s new there = elim (Bool-cases (name ≟ key)) [
    | inl same ↦
        (let lost : lookup s.idempotent key ≡ none =
            subst (λ k. lookup s.idempotent k ≡ none) ((eq_iff name key).0 same) new in
          absurd (cc (lost, there)))
    | inr different ↦
        lookup-insert name key mine s.idempotent
        ∙ (ap (λ b. if b then some mine else lookup s.idempotent key) different ∙ there)
  ]

  kept_answer-Knows :
      (name : Option String) (key : String) (payload : Payload) (s : State F)
      (r : String ⊎ GenerationResult F)
      → known name s ≡ none
      → Knows key payload s
      → Knows key payload (kept_answer name s r).1
  unfolding kept_answer
  kept_answer-Knows name key payload s (inl e) new there = there
  kept_answer-Knows name key payload s (inr result) new there =
      remember-Knows name key (payload_of result) payload s new there

  called-Knows :
      (host : Host F) (name : Option String) (key : String) (payload : Payload) (s : State F)
      (c : String ⊎ Call F)
      → known name s ≡ none
      → Knows key payload s
      → Knows key payload (called host name s c).1
  unfolding called
  called-Knows host name key payload s (inl e) new there = there
  called-Knows host none key payload s (inr call) new there =
      kept_answer-Knows none key payload (record s { calls = call ∷ s.calls })
        (host.answer s.calls call) refl there
  called-Knows host (some name) key payload s (inr call) new there =
      kept_answer-Knows (some name) key payload (record s { calls = call ∷ s.calls })
        (host.answer s.calls call) new there

  generate_parsed-Knows :
      (host : Host F) (params : GenerateParams) (key : String) (payload : Payload) (s : State F)
      (m : String ⊎ List Message)
      → known params.idempotency_key s ≡ none
      → Knows key payload s
      → Knows key payload (generate_parsed host params s m).1
  unfolding generate_parsed
  generate_parsed-Knows host params key payload s (inl e) new there = there
  generate_parsed-Knows host params key payload s (inr messages) new there =
      called-Knows host params.idempotency_key key payload s
        (generate host.sifter messages (get_or params.tier "local") host.temperature
          host.max_tokens)
        new there

  generate_known-Knows :
      (host : Host F) (params : GenerateParams) (key : String) (payload : Payload) (s : State F)
      (o : Option Payload)
      → known params.idempotency_key s ≡ o
      → Knows key payload s
      → Knows key payload (generate_known host params s o).1
  unfolding generate_known generate_anew
  generate_known-Knows host params key payload s (some given) new there = there
  generate_known-Knows host params key payload s none new there =
      elim (Bool-cases (is_empty params.messages)) [
        | inl e ↦ rw e there
        | inr e ↦ rw e (
            generate_parsed-Knows host params key payload s (messages_of params.messages) new there)
      ]

  -- Calls of `generate`, one after the other, each with the host that it finds.
  unfoldable pub serve : List (Host F × GenerateParams) → State F → State F
  unfolding rpc_generate
  serve [] s = s
  serve ((host, params) ∷ calls) s = serve calls (rpc_generate host params s).1

  serve-Knows :
      (calls : List (Host F × GenerateParams)) (key : String) (payload : Payload) (s : State F)
      → Knows key payload s
      → Knows key payload (serve calls s)
  unfolding serve rpc_generate
  serve-Knows [] key payload s there = there
  serve-Knows ((host, params) ∷ calls) key payload s there =
      serve-Knows calls key payload (rpc_generate host params s).1
        (generate_known-Knows host params key payload s (known params.idempotency_key s) refl there)

  -- Once a call of `generate` has succeeded under a key, each later call under this key gives the same payload,
  -- whatever its messages and tier are and whatever calls, under any keys, come in between; and it neither
  -- calls a provider nor changes what is kept.
  pub rpc_generate-repeated :
      (host later : Host F) (key : String) (first again : GenerateParams) (s after : State F)
      (payload : Payload) (between : List (Host F × GenerateParams))
      → first.idempotency_key ≡ some key
      → again.idempotency_key ≡ some key
      → rpc_generate host first s ≡ (inr payload, after)
      → rpc_generate later again (serve between after) ≡ (inr payload, serve between after)
  unfolding rpc_generate generate_known
  rpc_generate-repeated host later key first again s after payload between k l e =
      let there : lookup after.idempotent key ≡ some payload =
        subst (Remembers key) e (rpc_generate-Remembers host key first s k) in
      ap (generate_known later again (serve between after))
        (ap (λ o. known o (serve between after)) l ∙ serve-Knows between key payload after there)

  replied-response_id :
      {J A B : Type 0} (id : Option J) (f : A → Result F B) (o : Failure ⊎ A)
      → response_id (replied id f o) ≡ id
  replied-response_id id f (inl (contract_error e)) = refl
  replied-response_id id f (inl (provider_error e)) = refl
  replied-response_id id f (inr a) = refl

  dispatch-response_id :
      {J R A : Type 0} (host : Host F) (recommend : R → String ⊎ A) (id : Option J)
      (request : Request F R) (s : State F)
      → response_id (dispatch host recommend id request s).0 ≡ id
  unfolding dispatch
  dispatch-response_id host recommend id (routing request) s =
      replied-response_id id routed (route host request)
  dispatch-response_id host recommend id (generating params) s =
      replied-response_id id generated (rpc_generate host params s).0
  dispatch-response_id host recommend id health s = refl
  dispatch-response_id host recommend id (recommending r) s = advised-response_id F id (recommend r)
  dispatch-response_id host recommend id (other m) s = refl

  -- What a route says where the cloud is not allowed.
  abbrev pub RoutesLocally : Failure ⊎ RouteResponse F → Type 0
  RoutesLocally (inl e) = Unit
  RoutesLocally (inr r) =
      (r.route ≡ "local") × (r.executor_tier ≡ some "local") × (r.blocked_reason ≡ none)

  checked-RoutesLocally :
      (r : RouteResponse F) (o : Option String)
      → RoutesLocally (inr r)
      → RoutesLocally (contract_failure (checked r o))
  unfolding checked
  checked-RoutesLocally r none h = h
  checked-RoutesLocally r (some e) h = tt

  make_route_response-RoutesLocally :
      (validate : RouteResponse F → Option String) (r : RouteResponse F)
      → RoutesLocally (inr r)
      → RoutesLocally (contract_failure (make_route_response validate r))
  unfolding make_route_response
  make_route_response-RoutesLocally validate r h =
      let built = record r { estimated_cost = floored r.estimated_cost } in
      elim (Bool-cases (not (elem r.route route_values))) [
        | inl e ↦ rw (e, RoutesLocally) tt
        | inr e ↦ rw e (elim (Bool-cases (not (elem r.decision_level decision_levels))) [
          | inl e ↦ rw (e, RoutesLocally) tt
          | inr e ↦ rw e (checked-RoutesLocally built (validate built) h)
        ])
      ]

  route_fields-RoutesLocally :
      (new_id : String) (config : SifterConfig F) (request : RouteRequest F)
      (c : DecisionClassification) (cost : F) (d : RouteDecision)
      → d.kind ≡ local_route
      → IsCoherent d
      → RoutesLocally (inr (route_fields new_id config request c cost d))
  unfolding route_fields kind_value
  route_fields-RoutesLocally new_id config request c cost d k h =
      let cloudless : uses_cloud d ≡ false = subst (λ kind. CoherentAs kind d) k h in
      (
        ap (λ b. if b && not config.cloud_allowed then "blocked" else kind_value d.kind) cloudless
            ∙ ap kind_value k,
        ap some (executor-local d d.executor_tier cloudless),
        ap
            (λ b.
              if b && not config.cloud_allowed
              then some "cloud is disabled by the active profile"
              else none)
            cloudless,
      )

  effective-local_only :
      (config : SifterConfig F) (policy : Option String)
      → config.cloud_allowed ≡ false
      → effective config policy ≡ "local_only"
  unfolding effective
  effective-local_only config policy h = rw h refl

  route_checked-RoutesLocally :
      (host : Host F) (request : RouteRequest F) (o : Option String)
      → host.sifter.config.cloud_allowed ≡ false
      → RoutesLocally (route_checked host request o)
  unfolding route_checked
  route_checked-RoutesLocally host request (some e) h = tt
  route_checked-RoutesLocally host request none h =
      let config = host.sifter.config in
      let classification = classify request.prompt none none [] in
      let assessment = assess config request.prompt request.context 0 0 classification in
      let d = decide config assessment (some (effective config request.policy)) 0 true in
      make_route_response-RoutesLocally host.check_response
        (route_fields host.new_id config request classification
          (cost_of config assessment.context_requirement) d)
        (route_fields-RoutesLocally host.new_id config request classification
          (cost_of config assessment.context_requirement) d
          (subst (λ p. (decide config assessment (some p) 0 true).kind ≡ local_route)
            (sym (effective-local_only config request.policy h))
            (decide-local_only config assessment 0 true))
          (decide-IsCoherent config assessment (some (effective config request.policy)) 0 true))

  -- Where the configuration does not allow the cloud, each route that the service answers with is local,
  -- executes on the local tier and is not blocked, whatever policy the request names.
  pub route-RoutesLocally :
      (host : Host F) (request : RouteRequest F)
      → host.sifter.config.cloud_allowed ≡ false
      → RoutesLocally (route host request)
  unfolding route
  route-RoutesLocally host request h =
      route_checked-RoutesLocally host request (host.check_request request) h

  -- Whatever a message asks for, and whether it succeeds or fails, its answer has its identifier; and one with an
  -- incompatible version changes nothing and has the error for that.
  pub handle_lem :
      {J R A : Type 0} (host : Host F) (recommend : R → String ⊎ A) (message : RpcMessage J F R)
      (s : State F)
      → (response_id (handle host recommend message s).0 ≡ message.id)
        × ((is_compatible message.rpc_version ≡ true)
            ⊎ (handle host recommend message s
                ≡ (failure message.id incompatible "unsupported RPC major", s)))
  unfolding handle
  handle_lem host recommend message s = elim (Bool-cases (is_compatible message.rpc_version)) [
    | inl e ↦ (rw e (dispatch-response_id host recommend message.id message.request s), inl e)
    | inr e ↦ (rw e refl, inr (rw e refl))
  ]
