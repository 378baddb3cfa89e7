-- ===== src/Desktop/Service.antt =====
-- `ComputeSifterService` of sifter/src/aa_sifter/desktop/service.py: its tasks, its profiles and what it
-- says of the providers. What Ollama has installed, the environment and the file are arguments.
use aa.Prelude.{
  ℕ, zero, ◌+◌, List, [], ◌∷◌, ◌++◌, map, String, Bool, true, false, not, ◌&&◌, ◌||◌, Option, none,
  some, ◌⊎◌, inl, inr, is_some, is_none, get_or, length, filter, if◌then◌else◌,
}
use aa.Prelude.Text.{◌≟◌, elem, is_blank}
use aa.Prelude.Dict.{lookup, insert, has, or_text, truthy}
use aa.Prelude.Float.{Float}
use aa.Models.Config.{SifterConfig}
use aa.Metrics.{UsageMetrics}
use aa.Catalog.{ModelMetadata}
use aa.Config.Schema.{ApplicationConfig, ComputeProfile, ModelTierConfig, active}
use aa.Config.Store.{Document, load_runtime_config}
use aa.Config.Profiles.{ProfileError, activate_profile, delete_profile}
use aa.Decisions.Approval.Types.{
  ApprovalAction, approve, reject, modify, choose_option, more_local_analysis,
  allow_expert_analysis, continue_current, stop, HumanDecision,
}
use aa.Desktop.Record.{TaskRecord}
use aa.Desktop.Task.{Task, scheduled}
use aa.Desktop.Task.Steps.{answered, cancel_task}
pub mod Frame

pub record Service (F : Type 0) : Type 0 where
  -- The configuration of the sifter that runs the tasks, and the service's own.
  pub sifter_config : SifterConfig F
  pub config : SifterConfig F
  pub app_config : ApplicationConfig F
  pub profile_name : String
  pub tasks : List (String × Task F)
  pub status_cache : Option (F × (String × String))

-- `_policy_for_mode`
unfoldable pub policy_for_mode :
    (execution_mode : String) → (policy : Option String) → Option String
policy_for_mode execution_mode policy =
    if truthy policy
    then policy
    else if execution_mode ≟ "local_only"
    then some "local_only"
    else if execution_mode ≟ "expert_only"
    then some "expert_first"
    else none

-- `ApprovalAction(action)`; none is the ValueError.
unfoldable pub action_of : String → Option ApprovalAction
action_of s =
    if s ≟ "approve"
    then some approve
    else if s ≟ "reject"
    then some reject
    else if s ≟ "modify"
    then some modify
    else if s ≟ "choose_option"
    then some choose_option
    else if s ≟ "ask_for_more_local_analysis"
    then some more_local_analysis
    else if s ≟ "allow_expert_analysis"
    then some allow_expert_analysis
    else if s ≟ "continue_with_current_architecture"
    then some continue_current
    else if s ≟ "stop_task"
    then some stop
    else none

-- The decision that `resolve_approval` makes of its arguments.
unfoldable pub decision_of :
    Option ApprovalAction → List String → List String → String → Option HumanDecision
decision_of none options constraints note = none
decision_of (some a) options constraints note =
    some record { action = a; selected_options = options; constraints = constraints; note = note }

-- What follows a value that is there.
abbrev pub and_then : {A B : Type 0} → Option A → (A → Option B) → Option B
and_then none f = none
and_then (some a) f = f a

module _ {F : Type 0} where
  -- `submit`, with the identifier that `uuid4` gives.
  unfoldable pub new_record :
      (id : String)
      → (now : F) → (prompt : String) → (context : Option String) → (policy : Option String)
      → (execution_mode : String) → TaskRecord F
  unfolding policy_for_mode
  new_record id now prompt context policy execution_mode = record {
    id = id;
    prompt = prompt;
    context = context;
    policy = policy_for_mode execution_mode policy;
    execution_mode = execution_mode;
    status = "queued";
    created_at = now;
    started_at = none;
    finished_at = none;
    route = none;
    decision_level = none;
    result = none;
    error = none;
    usage = none;
    events = [];
    approval_request = none;
    subscribers = [];
  }

  unfoldable pub new_task : TaskRecord F → Task F
  new_task r = record {
    record_ = r;
    phase = scheduled;
    questions = 0;
    callbacks = [];
    cancelling = false;
  }

  unfoldable pub submit : TaskRecord F → Service F → Service F
  unfolding insert new_task
  submit r service = record service { tasks = insert r.id (new_task r) service.tasks }

  -- `get`
  unfoldable pub get : Service F → String → Option (Task F)
  unfolding lookup
  get service task_id = lookup service.tasks task_id

  -- A task is changed, and the call returns True; or nothing is, and it returns False.
  unfoldable pub changed : String → Option (Task F) → Service F → Bool × Service F
  unfolding insert
  changed task_id none service = (false, service)
  changed task_id (some t) service =
      (true, record service { tasks = insert task_id t service.tasks })

  -- `bool(future.cancel())`: a future that had its result before is not cancelled.
  unfoldable pub is_cancelling : Option (Task F) → Bool
  is_cancelling none = false
  is_cancelling (some t) = t.cancelling

  -- `cancel`
  unfoldable pub cancel : F → String → Service F → Bool × Service F
  unfolding changed get cancel_task is_cancelling
  cancel now task_id service =
      let after = and_then (get service task_id) (cancel_task now) in
      (is_cancelling after, (changed task_id after service).1)

  -- `resolve_approval`
  unfoldable pub resolve_approval :
      (task_id : String)
      → (action : String) → (selected_options : List String) → (constraints : List String)
      → (note : String) → Service F
      → Bool × Service F
  unfolding changed get answered action_of decision_of
  resolve_approval task_id action selected_options constraints note service =
      changed task_id
        (and_then (get service task_id) (λ t.
          and_then (decision_of (action_of action) selected_options constraints note)
            (λ d. answered d t)))
        service

  -- The profile of `app_config.profiles.get(app_config.active_profile)`
  unfoldable pub active_profile : Service F → Option (ComputeProfile F)
  unfolding active
  active_profile service = active service.app_config

  -- `_local_status`
  unfoldable pub tier_status :
      (installed : Option (List String)) → Option (ModelTierConfig F) → String
  tier_status installed none = "not_configured"
  tier_status none (some local) =
      if not local.enabled
      then "not_configured"
      else if not (local.provider ≟ "ollama")
      then "configured"
      else "unavailable"
  tier_status (some models) (some local) =
      if not local.enabled
      then "not_configured"
      else if not (local.provider ≟ "ollama")
      then "configured"
      else if elem local.model models
      then "ready"
      else "model_missing"

  unfoldable pub local_status :
      (installed : Option (List String)) → Option (ComputeProfile F) → String
  unfolding tier_status
  local_status installed none = "not_configured"
  local_status installed (some profile) = tier_status installed profile.local

  -- `_expert_status`
  unfoldable pub lacks_key : (environ : List (String × String)) → ModelTierConfig F → Bool
  unfolding lookup
  lacks_key environ expert =
      elem expert.provider ("deepseek" ∷ "openai-compatible" ∷ [])
      && not (truthy expert.api_key_env && truthy (lookup environ (get_or expert.api_key_env "")))

  unfoldable pub expert_tier_status :
      (environ : List (String × String)) → ComputeProfile F → Option (ModelTierConfig F) → String
  unfolding lacks_key
  expert_tier_status environ profile none = "not_configured"
  expert_tier_status environ profile (some expert) =
      if not expert.enabled
      then "not_configured"
      else if not profile.preferences.cloud_allowed
      then "not_configured"
      else if lacks_key environ expert
      then "missing_credentials"
      else "configured"

  unfoldable pub expert_status :
      (environ : List (String × String)) → Option (ComputeProfile F) → String
  unfolding expert_tier_status
  expert_status environ none = "not_configured"
  expert_status environ (some profile) = expert_tier_status environ profile profile.expert

  -- `_reload`, where the file can be read: the service takes the new configuration. The sifter keeps its own.
  unfoldable pub reload :
      (loads : String → Option (Document F))
      → (file : Option String) → (env : SifterConfig F) → ⦃fl : Float F⦄ → Service F
      → Option (Service F)
  unfolding load_runtime_config
  reload loads file env service =
      and_then
        (load_runtime_config loads file env (some service.app_config.active_profile) none none)
        (λ config. some (record service {
          status_cache = none;
          profile_name = service.app_config.active_profile;
          config = config;
        }))

module _ {F : Type 0} ⦃fl : Float F⦄ where
  -- `_provider_status`: the two texts, from the cache for five seconds.
  unfoldable pub provider_status :
      (now : F)
      → (installed : Option (List String)) → (environ : List (String × String)) → Service F
      → (String × String) × Service F
  unfolding local_status expert_status active_profile
  provider_status now installed environ service =
      let fresh : String × String = (
        local_status installed (active_profile service),
        expert_status environ (active_profile service),
      ) in
      let read = record service { status_cache = some (now, fresh) } in
      elim service.status_cache [
        | none ↦ (fresh, read)
        | some (at_, texts) ↦
            if fl.lt (fl.sub now at_) (fl.decimal 50 1) then (texts, service) else (fresh, read)
      ]

  -- `metrics`, the sums over the tasks
  unfoldable pub usage_sum : (UsageMetrics F → ℕ) → List (String × Task F) → ℕ
  usage_sum count [] = 0
  usage_sum count ((id, t) ∷ rest) =
      (elim t.record_.usage [ none ↦ 0 | some usage ↦ count usage ]) + usage_sum count rest

  unfoldable pub cost_sum : F → List (String × Task F) → F
  cost_sum total [] = total
  cost_sum total ((id, t) ∷ rest) =
      cost_sum
        (elim t.record_.usage [
          | none ↦ fl.add total (fl.of_ℕ 0)
          | some usage ↦ fl.add total usage.cloud_cost
        ])
        rest
