-- ===== src/App/Log.antt =====
-- Properties of each call of a run and of the events before it.
use aa.Prelude.{List, [], ◌∷◌, String, false, not, ◌&&◌, ◌≡◌}
use aa.Prelude.Float.{Float}
use aa.Models.Provider.{Tier, local, Message}
use aa.App.State.{Call, Event, called, asked, verified, ComputeSifter, Run}
use aa.App.Exec.Keeps.{Invariant, Holds, Keeps}
use aa.App.Calls.{model_of, is_cloud_bound, call_of, call_tier, require_approval, verify}
use aa.App.Calls.Sent.{Sent, unsent, sent, call_tier-Sent}
use aa.App.Guard.{IsPassive}

-- `P` holds of each call and of the events before it.
abbrev pub EachCall : {F : Type 0} → (Call F → List (Event F) → Type 0) → List (Event F) → Type 0
EachCall P [] = Unit
EachCall P (called c ∷ l) = P c l × EachCall P l
EachCall P (asked r d ∷ l) = EachCall P l
EachCall P (verified a ∷ l) = EachCall P l

-- Each call so far is as `P` says, and the events are as `Q` says.
abbrev pub Logged :
    {F : Type 0} → (Call F → List (Event F) → Type 0) → (List (Event F) → Type 0) → Invariant F
Logged P Q budget l = EachCall P l × Q l

module _ {F : Type 0} ⦃fl : Float F⦄ (app : ComputeSifter F) (P : Call F → List (Event F) → Type 0)
    (Q : List (Event F) → Type 0)
    (grow : (e : Event F) (l : List (Event F)) → Q l → Q (e ∷ l)) where
  -- Where the calls of a tier are as `P` says, the rest goes on.
  abbrev pub Admits : Tier → Type 0
  Admits tier =
      (provider : String) (messages : List Message) (l : List (Event F))
      → (is_cloud_bound tier (model_of app.config tier) && not app.config.cloud_allowed) ≡ false
      → Q l
      → P (call_of app.config tier provider messages) l

  after-Logged :
      (tier : Tier) (messages : List Message) (s s' : Run F)
      → Admits tier
      → Sent app tier messages s s'
      → Holds (Logged P Q) s
      → Holds (Logged P Q) s'
  after-Logged tier messages s s' admits (unsent same) h = rw same h
  after-Logged tier messages s s' admits (sent provider more allowed) h =
      rw more ((admits provider messages s.log allowed h.1, h.0), grow _ s.log h.1)

  pub call_tier-Logged :
      (tier : Tier)
      → Admits tier
      → (messages : List Message) → Keeps (Logged P Q) (call_tier app tier messages)
  call_tier-Logged tier admits messages = record {
    at = λ s h. after-Logged tier messages s _ admits (call_tier-Sent app tier messages s) h;
  }

  pub Logged-IsPassive : Admits local → IsPassive app (Logged P Q)
  unfolding require_approval verify
  Logged-IsPassive admits = record {
    on_ask = λ request. record { at = λ s h. (h.0, grow _ s.log h.1) };
    on_verify = λ answer. record { at = λ s h. (h.0, grow _ s.log h.1) };
    on_local = call_tier-Logged local admits;
  }
