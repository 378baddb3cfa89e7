-- ===== src/App/Exec/Keeps.antt =====
-- What a method keeps, whether it returns or raises: one rule for each way to build a method. An
-- invariant speaks of the budget and of the events.
use aa.Prelude.{List, String, Bool, true, false, if◌then◌else◌, ◌≡◌, refl}
use aa.Routing.Budget.{BudgetTracker, BudgetExceeded}
use aa.App.State.{Run, Event}
use aa.App.Exec.{
  Outcome, done, over_budget, provider_failed, Exec, pure, raise_budget, raise_provider, change,
  catch_budget, catch_budget_of, catch_provider, catch_provider_of, continue, ◌>>=◌,
}

abbrev pub Invariant : Type 0 → Type 1
Invariant F = BudgetTracker F → List (Event F) → Type 0

abbrev pub Holds : {F : Type 0} → Invariant F → Run F → Type 0
Holds I s = I s.budget s.log

pub record Keeps {F A : Type 0} (I : Invariant F) (m : Exec F A) : Type 0 where
  pub at : (s : Run F) → Holds I s → Holds I (m s).1

module _ {F A : Type 0} {I : Invariant F} where
  pub Keeps-pure : (a : A) → Keeps I (pure a)
  Keeps-pure a = record { at = λ s h. h }

  pub Keeps-raise_budget : (e : BudgetExceeded F) → Keeps I (raise_budget {A = A} e)
  Keeps-raise_budget e = record { at = λ s h. h }

  pub Keeps-raise_provider : (e : String) → Keeps I (raise_provider {A = A} e)
  Keeps-raise_provider e = record { at = λ s h. h }

  pub Keeps-if :
      (b : Bool) (m n : Exec F A)
      → (b ≡ true → Keeps I m)
      → (b ≡ false → Keeps I n)
      → Keeps I (if b then m else n)
  Keeps-if true m n km kn = km refl
  Keeps-if false m n km kn = kn refl

  catch_budget_of-Keeps :
      (r : Outcome F A) (handler : BudgetExceeded F → Exec F A)
      → ((e : BudgetExceeded F) → Keeps I (handler e))
      → Keeps I (catch_budget_of r handler)
  unfolding catch_budget_of
  catch_budget_of-Keeps (done a) handler k = record { at = λ s h. h }
  catch_budget_of-Keeps (over_budget e) handler k = record { at = (k e).at }
  catch_budget_of-Keeps (provider_failed e) handler k = record { at = λ s h. h }

  pub Keeps-catch_budget :
      (m : Exec F A) (handler : BudgetExceeded F → Exec F A)
      → Keeps I m
      → ((e : BudgetExceeded F) → Keeps I (handler e))
      → Keeps I (catch_budget m handler)
  unfolding catch_budget
  Keeps-catch_budget m handler km k = record {
    at = λ s h. let (r, s') = m s in (catch_budget_of-Keeps r handler k).at s' (km.at s h);
  }

  catch_provider_of-Keeps :
      (r : Outcome F A) (handler : String → Exec F A)
      → ((e : String) → Keeps I (handler e))
      → Keeps I (catch_provider_of r handler)
  unfolding catch_provider_of
  catch_provider_of-Keeps (done a) handler k = record { at = λ s h. h }
  catch_provider_of-Keeps (over_budget e) handler k = record { at = λ s h. h }
  catch_provider_of-Keeps (provider_failed e) handler k = record { at = (k e).at }

  pub Keeps-catch_provider :
      (m : Exec F A) (handler : String → Exec F A)
      → Keeps I m
      → ((e : String) → Keeps I (handler e))
      → Keeps I (catch_provider m handler)
  unfolding catch_provider
  Keeps-catch_provider m handler km k = record {
    at = λ s h. let (r, s') = m s in (catch_provider_of-Keeps r handler k).at s' (km.at s h);
  }

module _ {F A B : Type 0} {I : Invariant F} where
  continue-Keeps :
      (r : Outcome F A) (f : A → Exec F B) → ((a : A) → Keeps I (f a)) → Keeps I (continue r f)
  unfolding continue
  continue-Keeps (done a) f k = record { at = (k a).at }
  continue-Keeps (over_budget e) f k = record { at = λ s h. h }
  continue-Keeps (provider_failed e) f k = record { at = λ s h. h }

  pub Keeps-bind :
      (m : Exec F A) (f : A → Exec F B) → Keeps I m → ((a : A) → Keeps I (f a)) → Keeps I (m >>= f)
  unfolding ◌>>=◌
  Keeps-bind m f km kf = record {
    at = λ s h. let (r, s') = m s in (continue-Keeps r f kf).at s' (km.at s h);
  }

-- A change that leaves the budget and the events alone keeps every invariant.
pub Keeps-change :
    {F : Type 0} {I : Invariant F} (f : Run F → Run F)
    → ((s : Run F) → Holds I s → Holds I (f s))
    → Keeps I (change f)
Keeps-change f k = record { at = k }

pub ruleset keeps_rules = (
  Keeps-pure, Keeps-raise_budget, Keeps-raise_provider, Keeps-if, Keeps-catch_budget,
  Keeps-catch_provider, Keeps-bind,
)
