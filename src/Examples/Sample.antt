-- ===== src/Examples/Sample.antt =====
-- A sample of the program's objects, with whole numbers for the floats.
use aa.Prelude.{ℕ, [], ◌∷◌, String, Bool, none, inr}
use aa.Prelude.Float.{nat_float}
use aa.Models.Config.{SifterConfig, default_config}
use aa.Models.Provider.{Tier, GenerationResult}
use aa.Decisions.Approval.Types.{ApprovalAction, decide_on}
use aa.App.State.{World, ComputeSifter}
use aa.App.Run.{Task}

abbrev pub sample_config : SifterConfig ℕ
sample_config = default_config

-- The model of a tier answers with its own name.
abbrev pub sample_result : Tier → String → GenerationResult ℕ
sample_result tier model = record {
  text = model;
  model = model;
  tier = tier;
  input_tokens = 3;
  output_tokens = 5;
  duration_ms = 7;
}

-- A world whose human gives one answer, and whose verifier does too.
abbrev pub sample_world : ApprovalAction → Bool → World ℕ
sample_world action passed = record {
  generate = λ events call. inr (sample_result call.tier call.model);
  decide = λ events request. decide_on action;
  verify = λ events answer. record { passed = passed; summary = "sample" };
  elapsed_ms = λ events. 11;
  show_budget = λ e. "over budget";
}

abbrev pub sample_app : ApprovalAction → Bool → ComputeSifter ℕ
sample_app action passed = record {
  config = sample_config;
  providers = "ollama" ∷ "deepseek" ∷ [];
  rules = [];
  world = sample_world action passed;
}

abbrev pub sample_task : String → Task ℕ
sample_task prompt = record {
  prompt = prompt;
  context = none;
  policy = none;
  max_cloud_cost = none;
  waiver = none;
}
