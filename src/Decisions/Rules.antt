-- ===== src/Decisions/Rules.antt =====
-- sifter/src/aa_sifter/decisions/policy.py: standing rules that the human has set, the technologies
-- that they bind, and the conflicts of a proposal with them.
pub mod Metadata
pub mod Own
use aa.Prelude.{
  ℕ, List, [], ◌∷◌, ◌++◌, String, Bool, true, false, not, ◌&&◌, ◌||◌, Option, none, some, any,
  is_empty, map, if◌then◌else◌,
}
use aa.Prelude.Text.{lower, contains, elem}
use aa.Decisions.Rules.Metadata.{
  RuleMetadata, derive_rule_metadata, Family, tech_families, family_for,
}

pub record StandingRule : Type 0 where
  pub id : Option ℕ
  pub text : String
  pub forbid_terms : List String
  pub grants : List String
  pub tags : List String
  pub active : Bool

-- The part of `__init__` for one given rule: metadata is derived for a rule that has none.
unfoldable pub complete_rule : StandingRule → StandingRule
complete_rule rule =
    if is_empty rule.forbid_terms && is_empty rule.grants
    then (let metadata = derive_rule_metadata rule.text in
        record rule { forbid_terms = metadata.forbid_terms; grants = metadata.grants })
    else rule

-- `StandingRuleEngine(rules=…)`
unfoldable pub engine_of : List StandingRule → List StandingRule
unfolding complete_rule
engine_of rules = map complete_rule rules

abbrev given_or : Option (List String) → List String → List String
given_or none derived = derived
given_or (some given) derived = given

-- `add_rule`: the engine's rules and the new rule. The store, if there is one, gives the id.
unfoldable pub add_rule :
    List StandingRule
    → (assigned_id : Option ℕ) (text : String) (forbid_terms grants : Option (List String))
      (tags : List String)
    → List StandingRule × StandingRule
add_rule rules assigned_id text forbid_terms grants tags =
    let metadata = derive_rule_metadata text in
    let rule : StandingRule = record {
      id = assigned_id;
      text = text;
      forbid_terms = given_or forbid_terms metadata.forbid_terms;
      grants = given_or grants metadata.grants;
      tags = tags;
      active = true;
    } in
    (rules ++ rule ∷ [], rule)

-- `families` and `allowed`: of the rule's terms, those of a known family, and these families.
unfoldable pub bound_families : List String → List Family
bound_families [] = []
bound_families (term ∷ terms) =
    let rest = bound_families terms in
    elim (family_for tech_families term) [ none ↦ rest | some family ↦ family ∷ rest ]

unfoldable pub allowed_terms : List String → List String
allowed_terms [] = []
allowed_terms (term ∷ terms) =
    let rest = allowed_terms terms in
    elim (family_for tech_families term) [ none ↦ rest | some family ↦ term ∷ rest ]

-- Whether the lowered proposal mentions another technology of a family that the rule binds.
unfoldable pub rule_conflicts : String → StandingRule → Bool
unfolding bound_families allowed_terms
rule_conflicts lowered rule =
    let allowed = allowed_terms rule.forbid_terms in
    any
      (λ (f : Family).
        any (λ candidate. contains lowered candidate && not (elem candidate allowed)) f.terms)
      (bound_families rule.forbid_terms)

conflicts_from : String → List StandingRule → List String
unfolding rule_conflicts
conflicts_from lowered [] = []
conflicts_from lowered (rule ∷ rules) =
    let rest = conflicts_from lowered rules in
    if rule.active && rule_conflicts lowered rule then rule.text ∷ rest else rest

-- `detect_conflicts(proposal_text)`
unfoldable pub detect_conflicts : List StandingRule → String → List String
unfolding conflicts_from
detect_conflicts rules proposal = conflicts_from (lower proposal) rules

-- `has_grant(grant)`
unfoldable pub has_grant : List StandingRule → String → Bool
has_grant rules grant = any (λ (rule : StandingRule). rule.active && elem grant rule.grants) rules
