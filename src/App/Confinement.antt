-- ===== src/App/Confinement.antt =====
-- What may leave the machine during a run.
use aa.Prelude.{List, String, Bool, false, not, ◌&&◌, ◌||◌, ◌≡◌, refl, if◌then◌else◌}
use aa.Prelude.Float.{Float}
use aa.Prelude.Text.{ends_with}
use aa.Models.Provider.{Tier, local, expert, is_local, Message}
use aa.Context.Redaction.{redact_model_messages}
use aa.App.State.{Call, ComputeSifter}
use aa.App.Calls.{
  model_of, is_cloud_bound, call_of, outbound_messages, fit_to_context, max_output_of,
}
use aa.App.Guard.{run-Keeps}
use aa.App.Log.{EachCall, Logged-IsPassive, call_tier-Logged}
use aa.App.Run.{Task, start, run}

-- The call leaves the machine.
abbrev pub leaves : {F : Type 0} → Call F → Bool
leaves c = not (is_local c.tier) || ends_with c.model ":cloud"

-- A call that leaves the machine is one that the configuration allows, and its messages went through the
-- redactor.
pub record IsConfined {F : Type 0} (app : ComputeSifter F) (c : Call F) : Type 0 where
  pub allowed : (leaves c && not app.config.cloud_allowed) ≡ false
  pub prepared : List Message
  pub redacted :
      c.messages
      ≡ (if leaves c then redact_model_messages app.config.redact_secrets prepared else prepared)

module _ {F : Type 0} ⦃fl : Float F⦄ where
  call_of-IsConfined :
      (app : ComputeSifter F) (tier : Tier) (provider : String) (messages : List Message)
      → (is_cloud_bound tier (model_of app.config tier) && not app.config.cloud_allowed) ≡ false
      → IsConfined app (call_of app.config tier provider messages)
  unfolding call_of is_cloud_bound outbound_messages
  call_of-IsConfined app tier provider messages h = record {
    allowed = h;
    prepared = fit_to_context messages (model_of app.config tier) (max_output_of app.config tier);
    redacted = refl;
  }

  -- Each call of a run, whatever the models and the human answer, is confined: one that leaves the
  -- machine, which is one of the expert tier or of a model whose name ends in ":cloud", is made only
  -- where the configuration allows the cloud, and its messages are the redactor's image of the prepared
  -- ones; any other call has the prepared messages.
  pub run-IsConfined :
      (app : ComputeSifter F) (task : Task F)
      → EachCall (λ c l. IsConfined app c) (run app task).1.log
  unfolding start
  run-IsConfined app task =
      (run-Keeps app
        (Logged-IsPassive app (λ c l. IsConfined app c) (λ l. Unit) (λ e l u. tt)
          (λ provider messages l h q. call_of-IsConfined app local provider messages h))
        (call_tier-Logged app (λ c l. IsConfined app c) (λ l. Unit) (λ e l u. tt) expert
          (λ provider messages l h q. call_of-IsConfined app expert provider messages h))
        task (tt, tt)).0
