-- ===== src/App/Exec/Costs.antt =====
-- How many calls of models a method makes at most, whether it returns or raises.
use aa.Prelude.{ℕ, ◌+◌, ◌≤◌, List, [], ◌∷◌, String, Bool, true, false, if◌then◌else◌, arith}
use aa.Routing.Budget.{BudgetExceeded}
use aa.App.State.{Run, Event, called, asked, verified}
use aa.App.Exec.{
  Outcome, done, over_budget, provider_failed, Exec, pure, catch_budget, catch_budget_of,
  catch_provider, catch_provider_of, continue, ◌>>=◌,
}

-- The calls among the events.
abbrev pub count_calls : {F : Type 0} → List (Event F) → ℕ
count_calls [] = 0
count_calls (called c ∷ l) = count_calls l + 1
count_calls (asked r d ∷ l) = count_calls l
count_calls (verified a ∷ l) = count_calls l

pub record Costs {F A : Type 0} (n : ℕ) (m : Exec F A) : Type 0 where
  pub at : (s : Run F) → count_calls (m s).1.log ≤ count_calls s.log + n

module _ {F A : Type 0} where
  pub Costs-pure : (a : A) → Costs 0 (pure {F = F} a)
  Costs-pure a = record { at = λ s. omega arith }

  pub Costs-if :
      (n : ℕ) (b : Bool) (m k : Exec F A) → Costs n m → Costs n k → Costs n (if b then m else k)
  Costs-if n true m k cm ck = cm
  Costs-if n false m k cm ck = ck

  caught-budget :
      (k : ℕ) (r : Outcome F A) (handler : BudgetExceeded F → Exec F A)
      → ((e : BudgetExceeded F) → Costs k (handler e))
      → Costs k (catch_budget_of r handler)
  unfolding catch_budget_of
  caught-budget k (done a) handler h = record { at = λ s. omega arith }
  caught-budget k (over_budget e) handler h = record { at = (h e).at }
  caught-budget k (provider_failed e) handler h = record { at = λ s. omega arith }

  pub Costs-catch_budget :
      (n k : ℕ) (m : Exec F A) (handler : BudgetExceeded F → Exec F A)
      → Costs n m
      → ((e : BudgetExceeded F) → Costs k (handler e))
      → Costs (n + k) (catch_budget m handler)
  unfolding catch_budget
  Costs-catch_budget n k m handler cm ch = record {
    at = λ s. let (r, s') = m s in omega (arith, cm.at s, (caught-budget k r handler ch).at s');
  }

  caught-provider :
      (k : ℕ) (r : Outcome F A) (handler : String → Exec F A)
      → ((e : String) → Costs k (handler e))
      → Costs k (catch_provider_of r handler)
  unfolding catch_provider_of
  caught-provider k (done a) handler h = record { at = λ s. omega arith }
  caught-provider k (over_budget e) handler h = record { at = λ s. omega arith }
  caught-provider k (provider_failed e) handler h = record { at = (h e).at }

  pub Costs-catch_provider :
      (n k : ℕ) (m : Exec F A) (handler : String → Exec F A)
      → Costs n m
      → ((e : String) → Costs k (handler e))
      → Costs (n + k) (catch_provider m handler)
  unfolding catch_provider
  Costs-catch_provider n k m handler cm ch = record {
    at = λ s. let (r, s') = m s in omega (arith, cm.at s, (caught-provider k r handler ch).at s');
  }

module _ {F A B : Type 0} where
  continued :
      (k : ℕ) (r : Outcome F A) (f : A → Exec F B)
      → ((a : A) → Costs k (f a))
      → Costs k (continue r f)
  unfolding continue
  continued k (done a) f h = record { at = (h a).at }
  continued k (over_budget e) f h = record { at = λ s. omega arith }
  continued k (provider_failed e) f h = record { at = λ s. omega arith }

  pub Costs-bind :
      (n k : ℕ) (m : Exec F A) (f : A → Exec F B)
      → Costs n m
      → ((a : A) → Costs k (f a))
      → Costs (n + k) (m >>= f)
  unfolding ◌>>=◌
  Costs-bind n k m f cm cf = record {
    at = λ s. let (r, s') = m s in omega (arith, cm.at s, (continued k r f cf).at s');
  }
