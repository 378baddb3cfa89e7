-- ===== src/Contracts/V1.antt =====
-- `validate` of contracts/python/aa_contracts/v1.py, with the check of a workflow's steps.
pub mod Distinct
pub mod Passed
use aa.Prelude.{ℕ, suc, List, [], ◌∷◌, String, Bool, true, false, Option, none, some, if◌then◌else◌}
use aa.Prelude.Text.{◌⧺◌, ◌≟◌, elem, show_ℕ}
use aa.Prelude.Dict.{lookup}
use aa.Prelude.Float.{Float}
use aa.Contracts.Json.{
  Json, Jsons, Fields, null, bool, num, str, arr, obj, nil, cons, Check, passed, value_error,
  other_error, elements, get_field, with_field, ◌and_then◌,
}
use aa.Contracts.Fields.{check_identifier, check_version, check_enum, check_required}
use aa.Contracts.Kinds.{
  check_event, check_work_package, check_task_graph, check_execution_contract, check_result,
  check_memory_record, check_issue, check_optional_enum, check_route_request, check_route_response,
  check_tool_manifest,
}

-- `_REQUIRED`
abbrev pub required_fields : List (String × List String)
required_fields =
    ("event", "sequence" ∷ "occurredAt" ∷ "type" ∷ "aggregate" ∷ "actor" ∷ [])
    ∷ ("work_package", "title" ∷ "state" ∷ "acceptance" ∷ [])
    ∷ ("task_graph", "projectId" ∷ "nodes" ∷ "revision" ∷ [])
    ∷ ("execution_contract", "workPackageId" ∷ "assignmentId" ∷ "capabilities" ∷ "budget" ∷ [])
    ∷ ("result_envelope", "attemptId" ∷ "assignmentId" ∷ "workPackageId" ∷ "status" ∷ [])
    ∷ ("telemetry", "attemptId" ∷ "metricVersion" ∷ "outcome" ∷ [])
    ∷ ("project_record", "name" ∷ "state" ∷ "layoutVersion" ∷ [])
    ∷ ("memory_record", "level" ∷ "lifecycle" ∷ "content" ∷ [])
    ∷ ("issue", "title" ∷ "type" ∷ "status" ∷ [])
    ∷ ("strategy", "title" ∷ "lifecycle" ∷ "guidance" ∷ [])
    ∷ ("route_request", "prompt" ∷ [])
    ∷ ("route_response", "requestId" ∷ "route" ∷ "decisionLevel" ∷ "requiresHumanApproval" ∷ [])
    ∷ ("tool_manifest", "name" ∷ "toolKind" ∷ "version" ∷ "capabilities" ∷ [])
    ∷ ("workflow", "version" ∷ "steps" ∷ [])
    ∷ []

-- `PROJECT_STATES`
abbrev pub project_states : List String
project_states =
    "CREATED" ∷ "DISCOVERY" ∷ "PLANNING" ∷ "EXECUTING" ∷ "VERIFYING" ∷ "COMPLETE" ∷ "BLOCKED"
    ∷ "FAILED" ∷ "CANCELLED" ∷ "PAUSED" ∷ []

-- `WORK_PACKAGE_STATES`
abbrev pub work_package_states : List String
work_package_states =
    "PROPOSED" ∷ "READY" ∷ "QUEUED" ∷ "RUNNING" ∷ "COMPLETE" ∷ "VERIFYING" ∷ "VERIFIED"
    ∷ "DEFICIENT" ∷ []

-- `ISSUE_STATES`
abbrev pub issue_states : List String
issue_states = "open" ∷ "in_progress" ∷ "review" ∷ "closed" ∷ "deferred" ∷ "cancelled" ∷ []

-- `MEMORY_LIFECYCLES`
abbrev pub memory_lifecycles : List String
memory_lifecycles =
    "EPHEMERAL" ∷ "CANDIDATE" ∷ "VALIDATED" ∷ "ACTIVE" ∷ "SUPERSEDED" ∷ "ARCHIVED" ∷ []

-- `EVENT_TYPES`
abbrev pub event_types : List String
event_types =
    "PROJECT_REGISTERED" ∷ "PROJECT_UPDATED" ∷ "WORK_PACKAGE_CREATED" ∷ "WORK_PACKAGE_READY"
    ∷ "WORK_PACKAGE_COMPLETED" ∷ "DEPENDENCY_GRAPH_REVISED" ∷ "EXECUTION_PLANNED"
    ∷ "EXECUTION_LEASED" ∷ "EXECUTION_STARTED" ∷ "EXECUTION_PAUSED" ∷ "EXECUTION_RESUMED"
    ∷ "EXECUTION_COMPLETED" ∷ "EXECUTION_FAILED" ∷ "EXECUTION_EXPIRED" ∷ "RESULT_RECORDED"
    ∷ "TEST_RECORDED" ∷ "REVIEW_RECORDED" ∷ "HANDOFF_CREATED" ∷ "ARTIFACT_RECORDED"
    ∷ "WORK_ACCEPTED" ∷ "WORK_REJECTED" ∷ "DEFICIENCY_RAISED" ∷ "TELEMETRY_RECORDED"
    ∷ "MEMORY_CANDIDATE_CREATED" ∷ "MEMORY_VALIDATED" ∷ "MEMORY_PROMOTED" ∷ "MEMORY_SUPERSEDED"
    ∷ "MEMORY_ARCHIVED" ∷ []

-- `_ENUMS`
abbrev pub enums : List (String × List (String × List String))
enums =
    ("event", ("type", event_types) ∷ [])
    ∷ (
      "work_package",
      ("state", work_package_states) ∷ ("risk", "low" ∷ "moderate" ∷ "high" ∷ "critical" ∷ []) ∷ [],
    )
    ∷ ("execution_contract", [])
    ∷ (
      "result_envelope",
      ("status", "succeeded" ∷ "failed" ∷ "partial" ∷ "blocked" ∷ "cancelled" ∷ []) ∷ [],
    )
    ∷ (
      "telemetry",
      ("outcome", "succeeded" ∷ "failed" ∷ "partial" ∷ "blocked" ∷ "cancelled" ∷ "unknown" ∷ [])
          ∷ [],
    )
    ∷ ("project_record", ("state", project_states) ∷ [])
    ∷ ("memory_record", ("lifecycle", memory_lifecycles) ∷ [])
    ∷ (
      "issue",
      ("status", issue_states) ∷ ("severity", "P0" ∷ "P1" ∷ "P2" ∷ "P3" ∷ "none" ∷ []) ∷ [],
    )
    ∷ ("strategy", ("lifecycle", memory_lifecycles) ∷ [])
    ∷ (
      "route_response",
      ("route", "local" ∷ "hybrid" ∷ "cloud" ∷ "blocked" ∷ [])
          ∷ ("decisionLevel", "routine" ∷ "significant" ∷ "major" ∷ "critical" ∷ [])
          ∷ [],
    )
    ∷ []

module _ {F : Type 0} ⦃fl : Float F⦄ where
  -- The kind of a step of a workflow, which is checked after its id.
  unfoldable pub check_step_kind : String → Json F → Check
  unfolding with_field check_enum
  check_step_kind name step = with_field step "kind" (λ kind.
      check_enum (name ⧺ ".kind") kind
        ("task" ∷ "tool" ∷ "gate" ∷ "human_approval" ∷ "parallel" ∷ "conditional" ∷ []))

  -- The id of a step: a text, once it has passed as an identifier.
  unfoldable pub check_new : String → Json F → List String → Check
  check_new name (str id) seen =
      if elem id seen then value_error (name ⧺ ".id") "duplicate id" else passed
  check_new name _ seen = passed

  unfoldable pub with_id : Json F → List String → List String
  with_id (str id) seen = id ∷ seen
  with_id _ seen = seen

  -- `step.get("id")`, once it has been read
  unfoldable pub id_of : Json F → Json F
  unfolding get_field
  id_of (obj fields) = get_field fields "id"
  id_of _ = null

  -- The loop over the steps of a workflow, with the ids seen.
  unfoldable pub check_steps : List String → ℕ → Jsons F → Check
  unfolding with_field check_identifier check_step_kind check_new with_id id_of
  check_steps seen i nil = passed
  check_steps seen i (cons step rest) =
      let name = "steps[" ⧺ (show_ℕ i ⧺ "]") in
      with_field step "id" (check_identifier (name ⧺ ".id"))
      and_then (check_new name (id_of step) seen
          and_then (check_step_kind name step
              and_then check_steps (with_id (id_of step) seen) (suc i) rest))

  unfoldable pub check_some_steps : Option (Jsons F) → Check
  unfolding check_steps
  check_some_steps none = other_error
  check_some_steps (some nil) = value_error "steps" "at least one step is required"
  check_some_steps (some (cons step rest)) = check_steps [] 0 (cons step rest)

  -- `_validate_workflow`
  unfoldable pub check_workflow : Fields F → Check
  unfolding get_field elements check_required check_some_steps
  check_workflow fields =
      check_required "version" (get_field fields "version")
      and_then check_some_steps (elements (get_field fields "steps"))

  -- `_EXTRA.get(kind, …)(data)`
  unfoldable pub check_extra : String → Fields F → Check
  unfolding check_event check_work_package check_task_graph check_execution_contract check_result
      check_memory_record check_issue check_route_request check_route_response check_tool_manifest
      check_workflow
  check_extra kind fields =
      if kind ≟ "event"
      then check_event fields
      else if kind ≟ "work_package"
      then check_work_package fields
      else if kind ≟ "task_graph"
      then check_task_graph fields
      else if kind ≟ "execution_contract"
      then check_execution_contract fields
      else if kind ≟ "result_envelope"
      then check_result fields
      else if kind ≟ "memory_record"
      then check_memory_record fields
      else if kind ≟ "issue"
      then check_issue fields
      else if kind ≟ "route_request"
      then check_route_request fields
      else if kind ≟ "route_response"
      then check_route_response fields
      else if kind ≟ "tool_manifest"
      then check_tool_manifest fields
      else if kind ≟ "workflow"
      then check_workflow fields
      else passed

  unfoldable pub check_all_required : Fields F → List String → Check
  unfolding get_field check_required
  check_all_required fields [] = passed
  check_all_required fields (name ∷ names) =
      check_required name (get_field fields name) and_then check_all_required fields names

  unfoldable pub check_enums : Fields F → Option (List (String × List String)) → Check
  unfolding get_field check_optional_enum
  check_enums fields none = passed
  check_enums fields (some []) = passed
  check_enums fields (some ((name, allowed) ∷ others)) =
      check_optional_enum name (get_field fields name) allowed
      and_then check_enums fields (some others)

  -- The checks of a known kind with these required fields.
  unfoldable pub check_known : String → Fields F → Option (List String) → Check
  unfolding get_field lookup check_version check_identifier check_all_required check_enums
      check_extra
  check_known kind fields none = value_error "kind" "unknown contract kind"
  check_known kind fields (some names) =
      check_version "contractVersion" (get_field fields "contractVersion")
      and_then (check_identifier "id" (get_field fields "id")
          and_then (check_all_required fields names
              and_then (check_enums fields (lookup enums kind) and_then check_extra kind fields)))

  -- A list or an object as the kind is not hashable.
  unfoldable pub check_kind : Json F → Fields F → Check
  unfolding lookup check_known
  check_kind (str kind) fields = check_known kind fields (lookup required_fields kind)
  check_kind (arr values) fields = other_error
  check_kind (obj others) fields = other_error
  check_kind _ fields = value_error "kind" "unknown contract kind"

  unfoldable pub validate : Json F → Check
  unfolding get_field check_kind
  validate (obj fields) = check_kind (get_field fields "kind") fields
  validate _ = value_error "" "contract object must be a mapping"
