-- ===== src/Decisions/Rules/Own.antt =====
-- A rule that is added with derived metadata does not conflict with its own text.
use text.Mathlib.TextEquality.{path_by_compare}
use aa.Prelude.{
  ℕ, List, [], ◌∷◌, ◌++◌, String, Bool, true, false, not, ◌&&◌, Option, none, some, any, filter,
  All, ◌≡◌, refl, inl, inr, Bool-cases, Option-cases, arith, eq_iff, eq_refl, any-All,
}
use aa.Prelude.Text.{lower, contains, elem}
use aa.Prelude.Regex.{search}
use aa.Decisions.Rules.Metadata.{
  derive_rule_metadata, Family, tech_families, family_for, insert_unique, sorted_set, all_terms,
  approval_framing,
}
use aa.Decisions.Rules.{StandingRule, add_rule, bound_families, allowed_terms, rule_conflicts}

elem-append_left : (s : String) (xs ys : List String) → elem s xs ≡ true → elem s (xs ++ ys) ≡ true
elem-append_left s [] ys h = cc
elem-append_left s (x ∷ xs) ys h = ground (arith, elem-append_left s xs ys)

elem-append_right : (s : String) (xs ys : List String) → elem s ys ≡ true → elem s (xs ++ ys) ≡ true
elem-append_right s [] ys h = h
elem-append_right s (x ∷ xs) ys h = ground (arith, elem-append_right s xs ys h)

elem-filter :
    (test : String → Bool) (s : String) (xs : List String)
    → elem s xs ≡ true
    → test s ≡ true
    → elem s (filter test xs) ≡ true
elem-filter test s [] h t = cc
elem-filter test s (x ∷ xs) h t = ground (arith, elem-filter test s xs, eq_iff s x)

elem-insert_unique_self : (s : String) (ts : List String) → elem s (insert_unique s ts) ≡ true
unfolding insert_unique
elem-insert_unique_self s [] = ground (arith, eq_iff s s)
elem-insert_unique_self s (t ∷ ts) =
    ground (arith, elem-insert_unique_self s ts, eq_iff s s, eq_iff s t, path_by_compare s t)

elem-insert_unique :
    (s c : String) (ts : List String) → elem c ts ≡ true → elem c (insert_unique s ts) ≡ true
unfolding insert_unique
elem-insert_unique s c [] h = cc
elem-insert_unique s c (t ∷ ts) h = ground (arith, elem-insert_unique s c ts)

elem-sorted_set : (c : String) (ts : List String) → elem c ts ≡ true → elem c (sorted_set ts) ≡ true
unfolding sorted_set
elem-sorted_set c [] h = cc
elem-sorted_set c (t ∷ ts) h = ground (
  arith,
  elem-sorted_set c ts,
  elem-insert_unique t c (sorted_set ts),
  elem-insert_unique_self t (sorted_set ts),
  eq_iff c t,
)

elem-of_append :
    (s : String) (xs ys : List String)
    → elem s (xs ++ ys) ≡ true
    → elem s xs ≡ false
    → elem s ys ≡ true
elem-of_append s [] ys h k = h
elem-of_append s (x ∷ xs) ys h k = ground (arith, elem-of_append s xs ys)

-- A term of some family is found by `family_for`.
family_for-is_some :
    (fs : List Family) (c : String)
    → elem c (all_terms fs) ≡ true
    → (f : Family) × (family_for fs c ≡ some f)
unfolding family_for all_terms
family_for-is_some [] c h = cc
family_for-is_some (f ∷ fs) c h = elim (Bool-cases (elem c f.terms)) [
  | inl here ↦ (f, rw here)
  | inr there ↦
      let (g, found) = family_for-is_some fs c (elem-of_append c f.terms (all_terms fs) h there) in
      (g, rw there found)
]

elem-allowed_terms :
    (c : String) (f : Family) (terms : List String)
    → elem c terms ≡ true
    → family_for tech_families c ≡ some f
    → elem c (allowed_terms terms) ≡ true
unfolding allowed_terms
elem-allowed_terms c f [] h found = cc
elem-allowed_terms c f (t ∷ ts) h found = ground (arith, eq_iff c t, elem-allowed_terms c f ts)

-- Each family of `bound_families` is one of the table, so its terms are terms of the table.
abbrev IsListed : Family → Type 0
IsListed f = (c : String) → elem c f.terms ≡ true → elem c (all_terms tech_families) ≡ true

family_for-listed :
    (fs : List Family) (t : String) (f : Family) (c : String)
    → family_for fs t ≡ some f
    → elem c f.terms ≡ true
    → elem c (all_terms fs) ≡ true
unfolding family_for all_terms
family_for-listed [] t f c found h = cc
family_for-listed (g ∷ gs) t f c found h = ground (
  arith,
  family_for-listed gs t f c,
  elem-append_left c g.terms (all_terms gs),
  elem-append_right c g.terms (all_terms gs),
)

bound_families-IsListed : (terms : List String) → All IsListed (bound_families terms)
unfolding bound_families
bound_families-IsListed [] = tt
bound_families-IsListed (t ∷ ts) = elim (Option-cases (family_for tech_families t)) [
  | inl unknown ↦ rw (unknown, bound_families) (bound_families-IsListed ts)
  | inr (f, known) ↦
      rw (known, bound_families)
        (λ c. family_for-listed tech_families t f c known, bound_families-IsListed ts)
]

module _ (lowered : String) (forbid : List String) where
  -- The rule's terms hold each term of the table that the text mentions.
  abbrev Covers : Type 0
  Covers =
      (c : String)
      → elem c (all_terms tech_families) ≡ true
      → contains lowered c ≡ true
      → elem c forbid ≡ true

  candidate-covered :
      Covers
      → (c : String) → elem c (all_terms tech_families) ≡ true
      → (contains lowered c && not (elem c (allowed_terms forbid))) ≡ false
  candidate-covered covers c listed = elim (Bool-cases (contains lowered c)) [
    | inl found ↦
        let (f, known) = family_for-is_some tech_families c listed in
        rw (elem-allowed_terms c f forbid (covers c listed found) known) (ground arith)
    | inr absent ↦ rw absent
  ]

  abbrev mentions_other : String → Bool
  mentions_other c = contains lowered c && not (elem c (allowed_terms forbid))

  terms_covered :
      Covers
      → (cs : List String)
      → ((c : String) → elem c cs ≡ true → elem c (all_terms tech_families) ≡ true)
      → All (λ c. mentions_other c ≡ false) cs
  terms_covered covers [] listed = tt
  terms_covered covers (c ∷ cs) listed = (
    candidate-covered covers c (listed c (rw eq_refl)),
    terms_covered covers cs (λ d h. listed d (ground arith)),
  )

  families_covered :
      Covers
      → (fs : List Family) → All IsListed fs
      → any (λ (f : Family). any mentions_other f.terms) fs ≡ false
  families_covered covers [] listed = refl
  families_covered covers (f ∷ fs) listed =
      rw (any-All mentions_other f.terms (terms_covered covers f.terms listed.0))
        (families_covered covers fs listed.1)

-- With the framing, what `derive_rule_metadata` forbids covers the text.
derived_covers :
    (text : String)
    → search approval_framing text ≡ true
    → Covers (lower text) (derive_rule_metadata text).forbid_terms
unfolding derive_rule_metadata
derived_covers text framed c listed found = rw framed (
    elem-sorted_set c (filter (λ term. contains (lower text) term) (all_terms tech_families))
      (elem-filter (λ term. contains (lower text) term) c (all_terms tech_families) listed found))

-- Without it, nothing is forbidden.
derived_none :
    (text : String)
    → search approval_framing text ≡ false
    → (derive_rule_metadata text).forbid_terms ≡ []
unfolding derive_rule_metadata sorted_set
derived_none text plain = rw plain

-- A rule that is added with derived terms does not conflict with a proposal that is its own text.
pub rule_conflicts-own_text :
    (rules : List StandingRule) (id : Option ℕ) (text : String) (grants : Option (List String))
    (tags : List String)
    → rule_conflicts (lower text) (add_rule rules id text none grants tags).1 ≡ false
unfolding rule_conflicts add_rule
rule_conflicts-own_text rules id text grants tags =
    let forbid = (derive_rule_metadata text).forbid_terms in
    elim (Bool-cases (search approval_framing text)) [
      | inl framed ↦
          families_covered (lower text) forbid (derived_covers text framed) (bound_families forbid)
            (bound_families-IsListed forbid)
      | inr plain ↦ rw (derived_none text plain) (unfold bound_families in refl)
    ]
