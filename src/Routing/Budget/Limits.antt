-- ===== src/Routing/Budget/Limits.antt =====
-- What a check that passes guarantees of the call that follows it.
use aa.Prelude.{
  ℕ, ◌+◌, ◌≤◌, ◌<◌, true, false, Option, none, some, ◌≡◌, ◌⊎◌, inl, inr, arith, ap, Option-cases,
}
use aa.Prelude.Float.{Float}
use aa.Models.Config.{ModelConfig, SifterConfig}
use aa.Models.Provider.{GenerationResult}
use aa.Routing.Budget.{
  Limit, max_cloud_calls, max_cloud_tokens, max_cloud_cost, Budget, BudgetTracker, BudgetExceeded,
  would_exceed, denied, limit_of, used_of, check, record_call, new_tracker,
}

-- The calls that were made are within the limit.
pub record IsWithin {F : Type 0} (t : BudgetTracker F) : Type 0 where
  pub calls_within : t.budget.calls ≤ t.budget.max_calls

module _ {F : Type 0} ⦃fl : Float F⦄ where
  pub new_tracker-IsWithin :
      (config : SifterConfig F) (max_cost waiver : Option F)
      → IsWithin (new_tracker config max_cost waiver)
  unfolding new_tracker
  new_tracker-IsWithin config max_cost waiver = record { calls_within = ground arith }

  -- The call is one that the given limit rules out.
  abbrev pub Breaks : Budget F → Limit → (tokens : ℕ) → (cost : F) → Type 0
  Breaks b max_cloud_calls tokens cost = b.max_calls < b.calls + 1
  Breaks b max_cloud_tokens tokens cost = b.max_tokens < b.tokens + tokens
  Breaks b max_cloud_cost tokens cost = fl.lt b.max_cost (fl.add b.cost cost) ≡ true

  -- One more call, the tokens and the cost keep to every limit.
  abbrev pub Fits : Budget F → (tokens : ℕ) → (cost : F) → Type 0
  Fits b tokens cost =
      (b.calls + 1 ≤ b.max_calls)
      × (b.tokens + tokens ≤ b.max_tokens)
      × (fl.lt b.max_cost (fl.add b.cost cost) ≡ false)

  would_exceed-none :
      (b : Budget F) (tokens : ℕ) (cost : F)
      → would_exceed b tokens cost ≡ none
      → Fits b tokens cost
  unfolding would_exceed
  would_exceed-none b tokens cost h = ground arith

  would_exceed-some :
      (b : Budget F) (tokens : ℕ) (cost : F) (kind : Limit)
      → would_exceed b tokens cost ≡ some kind
      → Breaks b kind tokens cost
  unfolding would_exceed
  would_exceed-some b tokens cost max_cloud_calls h = ground arith
  would_exceed-some b tokens cost max_cloud_tokens h = ground arith
  would_exceed-some b tokens cost max_cloud_cost h = ground arith

  -- A check either raises nothing and changes nothing, and then the call fits every limit; or it raises a
  -- limit that the call breaks, and then the tracker is exhausted for that reason and has counted
  -- nothing.
  pub check_lem :
      (t : BudgetTracker F) (tokens : ℕ) (cost : F)
      → ((check t tokens cost ≡ (none, t)) × Fits t.budget tokens cost)
        ⊎ ((e : BudgetExceeded F) × (check t tokens cost
              ≡ (some e, record t { exhausted = true; exhausted_reason = some e.kind }))
            × Breaks t.budget e.kind tokens cost)
  unfolding check
  check_lem t tokens cost = elim (Option-cases (would_exceed t.budget tokens cost)) [
    | inl fits ↦ inl (rw (fits, denied), would_exceed-none t.budget tokens cost fits)
    | inr (kind, breaks) ↦ inr (
      record { kind = kind; limit = limit_of t.budget kind; used = used_of t.budget kind },
      rw (breaks, denied),
      would_exceed-some t.budget tokens cost kind breaks,
    )
  ]

  -- A call that is made after a check that passed leaves the count of calls within its limit.
  pub record_call-IsWithin :
      (t : BudgetTracker F) (tokens : ℕ) (cost : F) (result : GenerationResult F)
      (model : ModelConfig F)
      → (check t tokens cost).0 ≡ none
      → IsWithin (record_call (check t tokens cost).1 result model)
  unfolding record_call
  record_call-IsWithin t tokens cost result model h = elim (check_lem t tokens cost) [
    | inl (passed, fits) ↦ rw passed (record { calls_within = fits.0 })
    | inr (e, raised, breaks) ↦
        absurd (cc (ap (λ (p : Option (BudgetExceeded F) × BudgetTracker F). p.0) raised))
  ]
