-- ===== src/Governance/Plans.antt =====
-- The plans of src/orama_system/model_governance.py, their agreement with the check, and the cost gate.
use orama_system.Base.{
  ℕ, zero, suc, String, ◌≡◌, refl, Bool, true, false, Option, none, some, arith, ◌↔◌, ◌≢◌, lookup,
  ℤ, pos, negsuc,
}
use orama_system.Governance.{
  allowed, LaunchSpec, LaunchPlan, Policy, Config, default_launch, provider_of, evaluate_cost_gate,
  has_id, Row,
}
use orama_system.Governance.Forbidden.{is_allowed}

-- Why a launch waits for a human: the mode asks for it, the planning model is wanted for no planning task, or
-- the model is gated and is not the planning model.
pub data NeedsHuman (spec : LaunchSpec) (kind : Option String) (mode : String) (policy : Policy)
    : Type 0 where
  in_ultracode : mode ≡ "ultracode" → NeedsHuman spec kind mode policy
  plans_outside :
      has_id spec.launch_id policy.planning ≡ true
      → kind ≢ some "planning"
      → NeedsHuman spec kind mode policy
  is_gated :
      (row : Row)
      → lookup spec.launch_id policy.gated ≡ some row
      → has_id spec.launch_id policy.planning ≡ false
      → NeedsHuman spec kind mode policy

-- What a plan lets be launched at once: the request itself, or the provider's default on the request's path
-- with the requested model as the candidate for an approval.
pub data IsSafe (spec : LaunchSpec) (kind : Option String) (mode : String) (policy : Policy)
    (cfg : Config) (p : LaunchPlan) : Type 0 where
  direct :
      ¬ NeedsHuman spec kind mode policy
      → p.requires_human_approval ≡ false
      → p.effective ≡ spec
      → p.approval_candidate ≡ none
      → IsSafe spec kind mode policy cfg p
  fallback :
      (d c : LaunchSpec)
      → NeedsHuman spec kind mode policy
      → p.requires_human_approval ≡ true
      → default_launch (provider_of spec) cfg ≡ allowed d
      → p.effective ≡ record d { path = spec.path }
      → p.approval_candidate ≡ some c
      → c.launch_id ≡ spec.launch_id
      → c.path ≡ spec.path
      → IsSafe spec kind mode policy cfg p

module _ (spec : LaunchSpec) (kind : Option String) (mode : String) (policy : Policy) where
  -- Both ways of a plan.
  abbrev Decides : Config → LaunchPlan → Type 0
  Decides cfg p = IsSafe spec kind mode policy cfg p × (p.requested ≡ spec)

-- The cost gate opens exactly when the cap can be evaluated and a positive number of units remains.
pub evaluate_cost_gate_iff :
    (cap_evaluable : Bool) (remaining : Option ℤ)
    → (is_allowed (evaluate_cost_gate cap_evaluable remaining) ≡ true)
      ↔ ((cap_evaluable ≡ true) × ((n : ℕ) × (remaining ≡ some (pos (suc n)))))
unfolding evaluate_cost_gate
evaluate_cost_gate_iff c none = (λ h. absurd (ground arith), λ h. absurd (ground arith))
evaluate_cost_gate_iff c (some (pos zero)) =
    (λ h. absurd (ground arith), λ h. absurd (ground arith))
evaluate_cost_gate_iff c (some (pos (suc n))) = (λ h. (ground arith, (n, refl)), λ h. ground arith)
evaluate_cost_gate_iff c (some (negsuc n)) =
    (λ h. absurd (ground arith), λ h. absurd (ground arith))
