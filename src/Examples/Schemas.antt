-- ===== src/Examples/Schemas.antt =====
-- The validation of contracts, at concrete inputs.
use aa.Prelude.{ℕ, List, String, true, false, some, ◌≡◌, refl, ltb, length}
use aa.Prelude.Text.{elem, show_ℕ}
use aa.Prelude.Dict.{lookup}
use aa.Prelude.Float.{nat_float}
use aa.Contracts.Json.{
  Json, Jsons, Fields, str, arr, obj, nil, cons, field, end, get_field, elements, count_values,
  value_error, is_null, passed,
}
use aa.Contracts.V1.{validate, required_fields}
use aa.Contracts.V1.Passed.{validate-required_fields}
use aa.Contracts.V1.Distinct.{validate-workflow_ids, ids_of, all_distinct}
use aa.Contracts.Fields.{matches_identifier}

abbrev step_of : String → String → Json ℕ
step_of id kind = obj (field "id" (str id) (field "kind" (str kind) end))

abbrev steps_of : String → String → Jsons ℕ
steps_of first second = cons (step_of first "task") (cons (step_of second "gate") nil)

abbrev workflow_of : String → String → Fields ℕ
workflow_of first second = field "kind" (str "workflow") (
    field "contractVersion" (str "1.0") (
      field "id" (str "wf-1")
        (field "version" (str "2") (field "steps" (arr (steps_of first second)) end))))

workflow-passes : validate (obj (workflow_of "build" "review")) ≡ passed
unfolding validate
workflow-passes = refl

-- An id twice is refused.
workflow-repeated :
    validate (obj (workflow_of "build" "build")) ≡ value_error "steps[1].id" "duplicate id"
unfolding validate show_ℕ
workflow-repeated = refl

-- A line feed at the end of an identifier is accepted, since `$` matches before it.
identifier-line_feed : matches_identifier "a\n" ≡ true
unfolding matches_identifier
identifier-line_feed = refl

validate-workflow_ids_example :
    (ltb 0 2 ≡ true)
    × ((length (ids_of (steps_of "build" "review")) ≡ 2)
        × (all_distinct (ids_of (steps_of "build" "review")) ≡ true))
unfolding get_field elements validate count_values
validate-workflow_ids_example =
    validate-workflow_ids (workflow_of "build" "review") (steps_of "build" "review") refl refl refl

validate-required_fields_example :
    (kind : String) × (names : List String) × ((get_field (workflow_of "build" "review") "kind"
        ≡ str kind)
      × ((lookup required_fields kind ≡ some names)
          × ((key : String)
              → elem key names ≡ true
              → is_null (get_field (workflow_of "build" "review") key) ≡ false)))
unfolding validate
validate-required_fields_example = validate-required_fields (workflow_of "build" "review") refl
