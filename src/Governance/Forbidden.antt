-- ===== src/Governance/Forbidden.antt =====
-- What src/orama_system/model_governance.py allows no one.
use orama_system.Base.{
  ℕ, zero, suc, String, ◌≡◌, Bool, true, false, not, ◌&&◌, ◌||◌, Option, none, arith, ◌==◌, is_some,
}
use orama_system.Governance.{
  Ruling, allowed, LaunchSpec, EscalationProof, LaunchPlan, Config, is_one_of, is_forbidden_effort,
  require_consistent_effort, token_covers, assert_path, assert_with, assert_launch_allowed,
  plan_with,
}

abbrev pub is_allowed : {A : Type 0} → Ruling A → Bool
is_allowed (allowed _) = true
is_allowed _ = false

-- What every allowed launch has passed.
pub record IsChecked (now : ℕ) (scope : Option String) (spec : LaunchSpec)
    (proof : Option EscalationProof) (cfg : Config) : Type 0 where
  pub not_banned : is_one_of spec.launch_id cfg.banned_launch_ids ≡ false
  pub not_auto :
      (((spec.launch_id == "auto") || (spec.launch_id == "default")) && spec.agent) ≡ false
  pub effort_permitted : is_forbidden_effort spec.effort ≡ false
  pub reasoning_permitted : is_forbidden_effort spec.reasoning_effort ≡ false
  pub proof_covers : (not (is_some proof) || token_covers now scope spec proof) ≡ true

consistent-permitted :
    (spec : LaunchSpec)
    → is_allowed (require_consistent_effort spec) ≡ true
    → (is_forbidden_effort spec.effort ≡ false)
      × (is_forbidden_effort spec.reasoning_effort ≡ false)
unfolding require_consistent_effort
consistent-permitted spec h = ground arith

pub assert_with-IsChecked :
    (plan : LaunchSpec → Option String → Ruling LaunchPlan) (now : ℕ) (scope : Option String)
    (spec : LaunchSpec) (proof : Option EscalationProof) (kind : Option String) (cfg : Config)
    → is_allowed (assert_with plan now scope spec proof kind cfg) ≡ true
    → IsChecked now scope spec proof cfg
      × (is_allowed (assert_path plan now scope spec proof kind cfg) ≡ true)
unfolding assert_with
assert_with-IsChecked plan now scope spec proof kind cfg h =
    ground (arith, consistent-permitted spec)

-- An allowed launch has no banned id, no effort `xhigh` or `max` in either field, and is not an agent's
-- choice of `auto` or `default`; and a proof that was presented covers it, whether or not one was needed.
pub allowed-IsChecked :
    (n now : ℕ) (scope : Option String) (spec : LaunchSpec) (proof : Option EscalationProof)
    (kind : Option String) (cfg : Config)
    → is_allowed (assert_launch_allowed n now scope spec proof kind cfg) ≡ true
    → IsChecked now scope spec proof cfg
unfolding assert_launch_allowed
allowed-IsChecked zero now scope spec proof kind cfg h = absurd (ground arith)
allowed-IsChecked (suc n) now scope spec proof kind cfg h =
    (assert_with-IsChecked
      (λ s k.
        plan_with (λ s'. assert_launch_allowed n now none s' none none cfg) s k "standard" cfg)
      now scope spec proof kind cfg h).0

-- A plan is made of no banned id and of no such effort.
pub plan_with-permitted :
    (check : LaunchSpec → Ruling (Unit {0})) (spec : LaunchSpec) (kind : Option String)
    (mode : String) (cfg : Config)
    → is_allowed (plan_with check spec kind mode cfg) ≡ true
    → (is_one_of spec.launch_id cfg.banned_launch_ids ≡ false)
      × (is_forbidden_effort spec.effort ≡ false)
      × (is_forbidden_effort spec.reasoning_effort ≡ false)
unfolding plan_with
plan_with-permitted check spec kind mode cfg h = ground (arith, consistent-permitted spec)
