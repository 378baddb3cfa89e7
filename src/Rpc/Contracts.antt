-- ===== src/Rpc/Contracts.antt =====
-- sifter/src/aa_sifter/contracts.py: the objects of a route. The check against the contract's schema is an
-- argument, which gives the text of an error, and so is the new identifier.
use aa.Prelude.{List, [], ◌∷◌, String, Bool, not, Option, none, some, ◌⊎◌, inl, inr, if◌then◌else◌}
use aa.Prelude.Text.{◌⧺◌, elem}
use aa.Prelude.Float.{Float, max_float}

-- `ROUTE_VALUES` and `DECISION_LEVELS`
abbrev pub route_values : List String
route_values = "local" ∷ "hybrid" ∷ "cloud" ∷ "blocked" ∷ []

abbrev pub decision_levels : List String
decision_levels = "routine" ∷ "significant" ∷ "major" ∷ "critical" ∷ []

-- What `route_request_kwargs` reads of a request.
pub record RouteRequest (F : Type 0) : Type 0 where
  pub id : String
  pub prompt : String
  pub context : Option String
  pub policy : Option String
  pub max_cloud_cost : Option F

pub record RouteResponse (F : Type 0) : Type 0 where
  pub id : String
  pub request_id : String
  pub route : String
  pub decision_level : String
  pub requires_human_approval : Bool
  pub reasons : List String
  pub planner_tier : Option String
  pub executor_tier : Option String
  pub review_tier : Option String
  pub blocked_reason : Option String
  pub estimated_cost : Option F

-- `validate`: the object as it is, or a ContractError
unfoldable pub checked : {A : Type 0} → A → Option String → String ⊎ A
checked a none = inr a
checked a (some error) = inl error

module _ {F : Type 0} ⦃fl : Float F⦄ where
  unfoldable pub floored : Option F → Option F
  floored none = none
  floored (some cost) = some (max_float (fl.of_ℕ 0) cost)

  -- `make_route_response`, for the fields of a response: the two checks of its values and that of the schema.
  unfoldable pub make_route_response :
      (RouteResponse F → Option String) → RouteResponse F → String ⊎ RouteResponse F
  unfolding floored checked
  make_route_response validate response =
      let built = record response { estimated_cost = floored response.estimated_cost } in
      if not (elem response.route route_values)
      then inl ("route: invalid value '" ⧺ (response.route ⧺ "'"))
      else if not (elem response.decision_level decision_levels)
      then inl ("decisionLevel: invalid value '" ⧺ (response.decision_level ⧺ "'"))
      else checked built (validate built)
