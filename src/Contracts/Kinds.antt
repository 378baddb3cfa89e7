-- ===== src/Contracts/Kinds.antt =====
-- The kinds of contracts/python/aa_contracts/v1.py: their required fields, the values that a field may have, and
-- the checks that stand for one kind only.
use aa.Prelude.{List, [], ◌∷◌, String, ◌&&◌, if◌then◌else◌}
use aa.Prelude.Text.{◌⧺◌}
use aa.Prelude.Float.{Float}
use aa.Contracts.Json.{
  Json, Fields, null, bool, num, obj, end, Check, passed, value_error, other_error, is_null,
  is_truthy, elements, get_field, with_field, ◌and_then◌,
}
use aa.Contracts.Fields.{check_identifier, check_enum, check_required, check_hash, check_elements}

-- `READINESS_STATES`
abbrev pub readiness_states : List String
readiness_states = "blocked" ∷ "ready" ∷ "dispatched" ∷ "satisfied" ∷ []

-- `CAPABILITIES`
abbrev pub capabilities : List String
capabilities =
    "read_project" ∷ "write_workspace" ∷ "execute_command" ∷ "run_tests" ∷ "network_access"
    ∷ "install_dependencies" ∷ "call_model" ∷ "read_secrets" ∷ "create_artifact"
    ∷ "open_pull_request" ∷ "merge" ∷ "deploy" ∷ []

-- `ROUTING_POLICIES`
abbrev pub routing_policies : List String
routing_policies =
    "local_only" ∷ "cloud_only" ∷ "local_first" ∷ "expert_first" ∷ "adaptive" ∷ "budget_constrained"
    ∷ []

-- `ACTOR_KINDS`
abbrev pub actor_kinds : List String
actor_kinds = "human" ∷ "agent" ∷ "system" ∷ "service" ∷ []

module _ {F : Type 0} ⦃fl : Float F⦄ where
  -- `_validate_event`
  unfoldable pub check_event : Fields F → Check
  unfolding get_field with_field check_identifier check_enum
  check_event fields =
      let aggregate = get_field fields "aggregate" in
      let actor = get_field fields "actor" in
      with_field aggregate "id" (check_identifier "aggregate.id")
      and_then (with_field aggregate "kind" (λ kind. check_enum "aggregate.kind" kind (
            "project" ∷ "work_package" ∷ "assignment" ∷ "attempt" ∷ "artifact" ∷ "issue"
            ∷ "strategy" ∷ "memory" ∷ "tool" ∷ "workflow" ∷ []))
          and_then (with_field actor "kind" (λ kind. check_enum "actor.kind" kind actor_kinds)
              and_then with_field actor "id" (check_identifier "actor.id")))

  -- `_validate_work_package`
  unfoldable pub check_work_package : Fields F → Check
  unfolding get_field is_truthy
  check_work_package fields =
      if is_truthy (get_field fields "acceptance")
      then passed
      else value_error "acceptance" "at least one criterion is required"

  -- `revision < 0`, with -1 where the required field is missing
  unfoldable pub check_revision : Json F → Check
  check_revision null = value_error "revision" "is required and must be >= 0"
  check_revision (bool b) = passed
  check_revision (num x) =
      if fl.lt x (fl.of_ℕ 0) then value_error "revision" "is required and must be >= 0" else passed
  check_revision _ = other_error

  unfoldable pub check_node : String → Json F → Check
  unfolding with_field check_identifier check_enum
  check_node name node =
      with_field node "workPackageId" (check_identifier (name ⧺ ".workPackageId"))
      and_then with_field node "readiness"
          (λ state. check_enum (name ⧺ ".readiness") state readiness_states)

  -- `_validate_task_graph`
  unfoldable pub check_task_graph : Fields F → Check
  unfolding get_field check_revision check_node elements check_elements
  check_task_graph fields =
      check_revision (get_field fields "revision")
      and_then check_elements check_node "nodes" (elements (get_field fields "nodes"))

  unfoldable pub check_capability : String → Json F → Check
  unfolding check_enum
  check_capability name cap = check_enum name cap capabilities

  -- `_validate_execution_contract`
  unfoldable pub check_execution_contract : Fields F → Check
  unfolding get_field check_capability elements check_elements
  check_execution_contract fields =
      check_elements check_capability "capabilities" (elements (get_field fields "capabilities"))
      and_then check_elements check_capability "denied" (elements (get_field fields "denied"))

  -- `_validate_result`
  unfoldable pub check_result : Fields F → Check
  unfolding get_field with_field check_enum check_hash elements check_elements
  check_result fields =
      check_elements (λ name artifact. with_field artifact "hash" (check_hash (name ⧺ ".hash")))
        "artifacts" (elements (get_field fields "artifacts"))
      and_then check_elements
          (λ name test. with_field test "outcome" (λ outcome.
            check_enum (name ⧺ ".outcome") outcome
              ("passed" ∷ "failed" ∷ "skipped" ∷ "error" ∷ [])))
          "tests" (elements (get_field fields "tests"))

  -- `0 <= confidence <= 1`, of a value that is not None
  unfoldable pub check_confidence : Json F → Check
  check_confidence null = passed
  check_confidence (bool b) = passed
  check_confidence (num x) =
      if fl.le (fl.of_ℕ 0) x && fl.le x (fl.of_ℕ 1)
      then passed
      else value_error "confidence" "must be between 0 and 1"
  check_confidence _ = other_error

  -- `value or {}`
  unfoldable pub or_empty : Json F → Json F
  unfolding is_truthy
  or_empty value = if is_truthy value then value else obj end

  -- `_validate_memory_record`
  unfoldable pub check_memory_record : Fields F → Check
  unfolding get_field with_field or_empty check_enum check_required check_confidence
  check_memory_record fields =
      check_enum "level" (get_field fields "level")
        ("session" ∷ "task" ∷ "project" ∷ "role" ∷ "workforce" ∷ [])
      and_then (with_field (or_empty (get_field fields "content")) "summary"
            (check_required "content.summary")
          and_then check_confidence (get_field fields "confidence"))

  -- `_validate_issue`
  unfoldable pub check_issue : Fields F → Check
  unfolding get_field check_enum
  check_issue fields = check_enum "type" (get_field fields "type") (
      "feature" ∷ "user_story" ∷ "bug" ∷ "tech_debt" ∷ "refactor" ∷ "test" ∷ "documentation"
      ∷ "audit" ∷ "investigation" ∷ "deficiency" ∷ [])

  -- A field of a set of values, where it is not None.
  unfoldable pub check_optional_enum : String → Json F → List String → Check
  unfolding is_null check_enum
  check_optional_enum name value allowed =
      if is_null value then passed else check_enum name value allowed

  -- `_validate_route_request`
  unfoldable pub check_route_request : Fields F → Check
  unfolding get_field check_required check_optional_enum
  check_route_request fields =
      check_required "prompt" (get_field fields "prompt")
      and_then check_optional_enum "policy" (get_field fields "policy") routing_policies

  -- `_validate_route_response`
  unfoldable pub check_route_response : Fields F → Check
  unfolding get_field check_required check_enum
  check_route_response fields =
      check_required "requestId" (get_field fields "requestId")
      and_then (check_enum "route" (get_field fields "route")
            ("local" ∷ "hybrid" ∷ "cloud" ∷ "blocked" ∷ [])
          and_then check_enum "decisionLevel" (get_field fields "decisionLevel")
              ("routine" ∷ "significant" ∷ "major" ∷ "critical" ∷ []))

  -- `_validate_tool_manifest`
  unfoldable pub check_tool_manifest : Fields F → Check
  unfolding get_field is_truthy check_enum
  check_tool_manifest fields =
      check_enum "toolKind" (get_field fields "toolKind")
        ("tool" ∷ "plugin" ∷ "mcp" ∷ "builtin" ∷ [])
      and_then (if is_truthy (get_field fields "capabilities")
          then passed
          else value_error "capabilities" "at least one is required")
