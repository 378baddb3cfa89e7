-- ===== src/App/Exec.antt =====
-- Methods that change the state of a run and may raise `BudgetExceeded` or `ProviderError`. What was
-- changed before a raise stays changed.
pub mod Keeps
pub mod Costs
use aa.Prelude.{String}
use aa.Routing.Budget.{BudgetExceeded}
use aa.App.State.{Run}

pub data Outcome (F A : Type 0) : Type 0 where
  done : A → Outcome F A
  over_budget : BudgetExceeded F → Outcome F A
  provider_failed : String → Outcome F A

abbrev pub Exec : Type 0 → Type 0 → Type 0
Exec F A = Run F → Outcome F A × Run F

module _ {F A : Type 0} where
  abbrev pub pure : A → Exec F A
  pure a s = (done a, s)

  abbrev pub raise_budget : BudgetExceeded F → Exec F A
  raise_budget e s = (over_budget e, s)

  abbrev pub raise_provider : String → Exec F A
  raise_provider e s = (provider_failed e, s)

  catch_budget_of : Outcome F A → (BudgetExceeded F → Exec F A) → Exec F A
  catch_budget_of (over_budget e) handler s = handler e s
  catch_budget_of r handler s = (r, s)

  -- `try: … except BudgetExceeded as exc: …`
  unfoldable pub catch_budget : Exec F A → (BudgetExceeded F → Exec F A) → Exec F A
  unfolding catch_budget_of
  catch_budget m handler s = let (r, s') = m s in catch_budget_of r handler s'

  catch_provider_of : Outcome F A → (String → Exec F A) → Exec F A
  catch_provider_of (provider_failed e) handler s = handler e s
  catch_provider_of r handler s = (r, s)

  -- `try: … except ProviderError as exc: …`
  unfoldable pub catch_provider : Exec F A → (String → Exec F A) → Exec F A
  unfolding catch_provider_of
  catch_provider m handler s = let (r, s') = m s in catch_provider_of r handler s'

-- A change of the state.
abbrev pub change : {F : Type 0} → (Run F → Run F) → Exec F (Unit {0})
change f s = (done tt, f s)

module _ {F A B : Type 0} where
  unfoldable pub continue : Outcome F A → (A → Exec F B) → Exec F B
  continue (done a) f s = f a s
  continue (over_budget e) f s = (over_budget e, s)
  continue (provider_failed e) f s = (provider_failed e, s)

  infixl 10 ◌>>=◌ ◌>>◌
  unfoldable pub ◌>>=◌ : Exec F A → (A → Exec F B) → Exec F B
  unfolding continue
  ◌>>=◌ m f s = let (r, s') = m s in continue r f s'

  abbrev pub ◌>>◌ : Exec F A → Exec F B → Exec F B
  m >> n = m >>= λ _. n
