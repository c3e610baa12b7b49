-- ===== src/Governance/Tests.antt =====
-- Runs of src/orama_system/model_governance.py on the pinned configuration, config/model-governance.yml.
use orama_system.Base.{
  String, ◌≡◌, ◌⊎◌, refl, true, false, none, some, [], ◌∷◌, lstrip, rstrip, strip,
}
use orama_system.Governance.{
  denied, LaunchSpec, EscalationProof, LaunchPlan, Row, Policy, Config, named_effort,
  require_consistent_effort, proof_is_token, token_covers, assert_gated_params,
  is_anthropic_ungated, assert_anthropic_launch, policy_of, assert_listed, conclude, plan_with,
  plan_launch, assert_path, assert_with, assert_launch_allowed,
}
use orama_system.Governance.Forbidden.{is_allowed}
use orama_system.Governance.Proofs.{IsProven}
use orama_system.Governance.Free.{is_free}
use orama_system.Governance.Allowed.{allowed-IsProven}
use orama_system.Governance.Ends.{is_cut}
use orama_system.Governance.Rounds.{calls_end, IsPlain}

abbrev row : String → Row
row id = record {
  launch_id = id;
  effort = some "medium";
  allowed_efforts = none;
  fast = some false;
  reasoning_effort = none;
  legacy_pin = none;
  requires = [];
}

abbrev only : String → Policy
only id = record {
  default = row id;
  controller = none;
  planning = none;
  gated = [];
  allowed_ungated = [];
}

abbrev fable : Row
fable = record (row "claude-fable-5-1") {
  fast = none;
  requires = "escalation_token" ∷ "budget_cap" ∷ [];
}

abbrev opus : Row
opus = record (row "claude-opus-5-5") {
  allowed_efforts = some ("medium" ∷ "high" ∷ []);
  requires = "escalation_token" ∷ [];
}

abbrev claude : Policy
claude = record {
  default = record (row "claude-sonnet-5-5") { fast = none; legacy_pin = some "claude-sonnet-5" };
  controller = some (row "claude-haiku-5-5");
  planning = some (record (row "claude-opus-5-5") {
    effort = some "high";
    allowed_efforts = some ("medium" ∷ "high" ∷ []);
  });
  gated = ("claude-opus-5-5", opus) ∷ ("claude-fable-5-1", fable) ∷ [];
  allowed_ungated = [];
}

abbrev pinned : Config
pinned = record {
  banned_launch_ids = "gpt-6-astra" ∷ "grok-4.5" ∷ "grok-4.6" ∷ [];
  anthropic = claude;
  openai = record (only "gpt-5.6-terra") {
    controller = some (row "gpt-6-luna");
    planning = some (row "gpt-6.1-sol");
  };
  google = only "gemini-3.8-flash";
  cursor_grok_bot = record (only "grok-4.7") {
    allowed_ungated = record (row "composer-2.5") { effort = none } ∷ row "gpt-5.6-terra" ∷ [];
  };
  direct_xai = record (only "grok-4.7") {
    default = record (row "grok-4.7") { reasoning_effort = some "medium" };
  };
}

abbrev spec : String → String → LaunchSpec
spec path id = record {
  path = path;
  launch_id = id;
  effort = some "medium";
  fast = some false;
  reasoning_effort = none;
  agent = true;
}

abbrev signed : EscalationProof
signed = record {
  kind = "offline_gpg";
  reference = "sig";
  model_id = "claude-fable-5-1";
  expires_at = 2000;
  effort = some "medium";
  fast = none;
  budget_cap = some "5 USD";
  path = none;
  scope = none;
}

fable_test :
    is_allowed (
      assert_launch_allowed 2 1000 none
        (spec "anthropic" "claude-fable-5-1")
        (some signed)
        none
        pinned)
    ≡ true
unfolding assert_launch_allowed assert_with assert_path assert_anthropic_launch assert_gated_params
    is_anthropic_ungated named_effort require_consistent_effort proof_is_token token_covers strip
    lstrip rstrip
fable_test = refl

fable_refused_test :
    assert_launch_allowed 2 1000 none (spec "anthropic" "claude-fable-5-1") none none pinned
    ≡ denied "cloud escalation default-deny: escalation token required"
unfolding assert_launch_allowed assert_with assert_path assert_anthropic_launch is_anthropic_ungated
    named_effort require_consistent_effort token_covers
fable_refused_test = refl

-- The planning model is gated too, and is launched without a proof in a planning task only.
opus_test :
    is_allowed (
      assert_launch_allowed 2 1000 none
        (spec "anthropic" "claude-opus-5-5")
        none
        (some "planning")
        pinned)
    ≡ true
unfolding assert_launch_allowed assert_with assert_path assert_anthropic_launch assert_gated_params
    is_anthropic_ungated named_effort require_consistent_effort plan_launch plan_with policy_of
    assert_listed conclude
opus_test = refl

opus_refused_test :
    assert_launch_allowed 2 1000 none (spec "anthropic" "claude-opus-5-5") none none pinned
    ≡ denied "cloud escalation default-deny: escalation token required"
unfolding assert_launch_allowed assert_with assert_path assert_anthropic_launch is_anthropic_ungated
    named_effort require_consistent_effort token_covers
opus_refused_test = refl

allowed-IsProven_example :
    (is_free none (spec "anthropic" "claude-fable-5-1") pinned ≡ true)
    ⊎ ((p : EscalationProof) × (some signed ≡ some p)
        × IsProven 1000 none (spec "anthropic" "claude-fable-5-1") p)
allowed-IsProven_example =
    allowed-IsProven 2 1000 none (spec "anthropic" "claude-fable-5-1") (some signed) none pinned
      fable_test

abbrev sol_plan : LaunchPlan
sol_plan = record {
  requested = spec "openai" "gpt-6.1-sol";
  effective = spec "openai" "gpt-5.6-terra";
  requires_human_approval = true;
  reason = "human_approval_required";
  requested_mode = "standard";
  effective_mode = "standard";
  approval_candidate = some (spec "openai" "gpt-6.1-sol");
}

calls_end_example :
    (is_cut (
        assert_launch_allowed 2 1000 none
          (spec "cursor_grok_bot" "claude-haiku-5-5")
          none
          none
          pinned)
      ≡ false)
    × (is_cut
          (plan_launch 1 1000 (spec "cursor_grok_bot" "claude-haiku-5-5") none "standard" pinned)
        ≡ false)
calls_end_example =
    calls_end 0 1000 none (spec "cursor_grok_bot" "claude-haiku-5-5") none none "standard" pinned
      refl

abbrev renamed : Config
renamed = record pinned { anthropic = record claude { controller = some (row "haiku-5-5") } }

haiku-IsPlain : IsPlain (spec "cursor_grok_bot" "haiku-5-5") renamed
unfolding require_consistent_effort
haiku-IsPlain = record {
  consistent = refl;
  not_banned = refl;
  not_auto = refl;
  no_role = refl;
  not_gated = refl;
}
