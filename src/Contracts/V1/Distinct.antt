-- ===== src/Contracts/V1/Distinct.antt =====
-- The ids of a workflow's steps, in contracts/python/aa_contracts/v1.py.
use aa.Prelude.{
  ℕ, suc, List, [], ◌∷◌, String, Bool, true, false, not, ◌&&◌, some, ltb, ◌≡◌, refl, sym, ap, ◌∙◌,
  length, arith, eq_iff, Bool-cases, inl, inr,
}
use mathlib.Core.Path.{subst}
use mathlib.Core.Bool.{false≢true}
use aa.Prelude.Text.{◌≟◌, ◌⧺◌, elem, show_ℕ}
use aa.Prelude.Float.{Float}
use aa.Contracts.Json.{
  Json, Jsons, Fields, null, bool, num, str, arr, obj, nil, cons, count_values, elements, get_field,
  has_passed, with_field, is_truthy,
}
use aa.Contracts.Fields.{check_identifier, check_required}
use aa.Prelude.Dict.{lookup}
use aa.Contracts.V1.{
  validate, check_kind, check_extra, check_workflow, check_some_steps, check_steps, check_new,
  check_step_kind, with_id, id_of,
}
use aa.Contracts.V1.Passed.{and_then-passed, known-passed}

-- No text stands in the list twice.
unfoldable pub all_distinct : List String → Bool
all_distinct [] = true
all_distinct (s ∷ texts) = not (elem s texts) && all_distinct texts

-- The ids of these steps, none of which is among those seen.
abbrev AreNew : List String → ℕ → List String → Type 0
AreNew seen n ids =
    ((length ids ≡ n) × (all_distinct ids ≡ true))
    × ((s : String) → elem s seen ≡ true → elem s ids ≡ false)

elem-head : (s : String) (texts : List String) → elem s (s ∷ texts) ≡ true
elem-head s texts = ground (arith, eq_iff s s)

elem-tail : (t s : String) (texts : List String) → elem t texts ≡ true → elem t (s ∷ texts) ≡ true
elem-tail t s texts e = ground arith

elem-other :
    (t s : String) (seen ids : List String)
    → elem s seen ≡ false
    → elem t seen ≡ true
    → elem t ids ≡ false
    → elem t (s ∷ ids) ≡ false
elem-other t s seen ids out within h = elim (Bool-cases (t ≟ s)) [
  | inl same ↦
      absurd (false≢true (sym out ∙ (sym (ap (λ x. elem x seen) ((eq_iff t s).0 same)) ∙ within)))
  | inr other ↦ rw (other, h)
]

new-step :
    (seen ids : List String) (n : ℕ) (s : String)
    → elem s seen ≡ false
    → AreNew (s ∷ seen) n ids
    → AreNew seen (suc n) (s ∷ ids)
unfolding all_distinct
new-step seen ids n s e ((count, distinct), out) = (
  (ap suc count, ground (arith, distinct, out s (elem-head s seen))),
  λ t within. elem-other t s seen ids e within (out t (elem-tail t s seen within)),
)

module _ {F : Type 0} ⦃fl : Float F⦄ where
  -- The ids of the steps, where they are texts.
  unfoldable pub ids_of : Jsons F → List String
  unfolding with_id id_of
  ids_of nil = []
  ids_of (cons step rest) = with_id (id_of step) (ids_of rest)

  identifier-text :
      (name : String) (value : Json F)
      → has_passed (check_identifier name value) ≡ true
      → (s : String) × (value ≡ str s)
  unfolding check_identifier is_truthy
  identifier-text name (str s) e = (s, refl)
  identifier-text name null e = ground arith
  identifier-text name (bool b) e = ground arith
  identifier-text name (num x) e = ground arith
  identifier-text name (arr values) e = ground arith
  identifier-text name (obj fields) e = ground arith

  step-text :
      (name : String) (step : Json F)
      → has_passed (with_field step "id" (check_identifier name)) ≡ true
      → (s : String) × (id_of step ≡ str s)
  unfolding with_field id_of
  step-text name (obj fields) e = identifier-text name (get_field fields "id") e
  step-text name null e = ground arith
  step-text name (bool b) e = ground arith
  step-text name (num x) e = ground arith
  step-text name (str s) e = ground arith
  step-text name (arr values) e = ground arith

  fresh-id :
      (name s : String) (seen : List String) (id : Json F)
      → id ≡ str s
      → has_passed (check_new name id seen) ≡ true
      → elem s seen ≡ false
  unfolding check_new
  fresh-id name s seen id same e =
      ground (arith, subst (λ id. has_passed (check_new name id seen) ≡ true) same e)

  -- The step is read with the text of its id.
  new-id :
      (seen ids : List String) (n : ℕ) (id : Json F) (s : String)
      → id ≡ str s
      → elem s seen ≡ false
      → AreNew (with_id id seen) n ids
      → AreNew seen (suc n) (with_id id ids)
  unfolding with_id
  new-id seen ids n id s same fresh =
      subst (λ id. AreNew (with_id id seen) n ids → AreNew seen (suc n) (with_id id ids)) (sym same)
        (new-step seen ids n s fresh)

  steps-AreNew :
      (seen : List String) (i : ℕ) (steps : Jsons F)
      → has_passed (check_steps seen i steps) ≡ true
      → AreNew seen (count_values steps) (ids_of steps)
  unfolding check_steps ids_of count_values all_distinct
  steps-AreNew seen i nil e = ((refl, refl), λ s within. refl)
  steps-AreNew seen i (cons step rest) e =
      let name = "steps[" ⧺ (show_ℕ i ⧺ "]") in
      let (read, later) =
        and_then-passed (with_field step "id" (check_identifier (name ⧺ ".id"))) _ e in
      let (fresh, last) = and_then-passed (check_new name (id_of step) seen) _ later in
      let (kind, others) = and_then-passed (check_step_kind name step) _ last in
      let (s, same) = step-text (name ⧺ ".id") step read in
      new-id seen (ids_of rest) (count_values rest) (id_of step) s same
        (fresh-id name s seen (id_of step) same fresh)
        (steps-AreNew (with_id (id_of step) seen) (suc i) rest others)

  some_steps-AreNew :
      (steps : Jsons F)
      → has_passed (check_some_steps (some steps)) ≡ true
      → (ltb 0 (count_values steps) ≡ true) × AreNew [] (count_values steps) (ids_of steps)
  unfolding check_some_steps count_values
  some_steps-AreNew nil e = ground arith
  some_steps-AreNew (cons step rest) e = (ground arith, steps-AreNew [] 0 (cons step rest) e)

  workflow-passed :
      (fields : Fields F)
      → has_passed (check_kind (str "workflow") fields) ≡ true
      → has_passed (check_some_steps (elements (get_field fields "steps"))) ≡ true
  unfolding check_kind check_extra check_workflow lookup
  workflow-passed fields e =
      let (_, extra) = known-passed "workflow" fields ("version" ∷ "steps" ∷ []) e in
      (and_then-passed (check_required "version" (get_field fields "version")) _ extra).1

  -- A workflow that is valid has a step at least, and each of its steps has an id, which no other step has.
  pub validate-workflow_ids :
      (fields : Fields F) (steps : Jsons F)
      → get_field fields "kind" ≡ str "workflow"
      → elements (get_field fields "steps") ≡ some steps
      → has_passed (validate (obj fields)) ≡ true
      → (ltb 0 (count_values steps) ≡ true)
        × ((length (ids_of steps) ≡ count_values steps) × (all_distinct (ids_of steps) ≡ true))
  unfolding validate
  validate-workflow_ids fields steps is_workflow has_steps e =
      let passes =
        workflow-passed fields
          (subst (λ kind. has_passed (check_kind kind fields) ≡ true) is_workflow e) in
      let (some_step, (ids, _)) =
        some_steps-AreNew steps
          (subst (λ found. has_passed (check_some_steps found) ≡ true) has_steps passes) in
      (some_step, ids)
