-- ===== src/Governance/Free.antt =====
-- The models that src/orama_system/model_governance.py allows without a proof, and the planner's part in it.
use orama_system.Base.{
  ℕ, String, ◌≡◌, refl, sym, ◌∙◌, ap, subst, Bool, true, false, not, ◌&&◌, ◌||◌, Option, some, List,
  ◌∷◌, arith, if◌then◌else◌, ◌==◌, eq_iff, ◌⊎◌, inl, inr, Option-cases,
}
use orama_system.Governance.{
  Ruling, ◌>>=◌, require, allowed, denied, key_error, recursion_error, LaunchSpec, EscalationProof,
  LaunchPlan, Policy, Config, is_one_of, token_covers, has_id, ungated_cursor_ids,
  is_anthropic_ungated, assert_anthropic_launch, assert_cursor_launch, assert_direct_xai_launch,
  is_planning_kind, provider_of, policy_of, assert_listed, needs_approval, conclude, plan_with,
}
use orama_system.Governance.Forbidden.{is_allowed}

-- The default of a policy, its controller, or its planning model in a planning task.
abbrev pub free_under : Policy → Option String → String → Bool
free_under policy kind id =
    (id == policy.default.launch_id)
    || has_id id policy.controller
    || (has_id id policy.planning && is_planning_kind kind)

-- Which models are free on Anthropic's path: the default, the older pin, and the roles.
abbrev pub free_anthropic : Option String → Config → String → Bool
free_anthropic kind cfg id =
    is_anthropic_ungated cfg id
    || has_id id cfg.anthropic.controller
    || (has_id id cfg.anthropic.planning && is_planning_kind kind)

-- Which models are free on Cursor's path: Anthropic's as on its own, and the ungated ones.
abbrev pub free_cursor : Option String → Config → String → Bool
free_cursor kind cfg id = free_anthropic kind cfg id || is_one_of id (ungated_cursor_ids cfg)

-- Which models need no proof, by path.
unfoldable pub is_free : Option String → LaunchSpec → Config → Bool
is_free kind spec cfg =
    if spec.path == "openai"
    then free_under cfg.openai kind spec.launch_id
    else if spec.path == "google"
    then free_under cfg.google kind spec.launch_id
    else if spec.path == "anthropic"
    then free_anthropic kind cfg spec.launch_id
    else if spec.path == "cursor_grok_bot"
    then free_cursor kind cfg spec.launch_id
    else spec.launch_id == cfg.direct_xai.default.launch_id

-- A launch that no proof covers is free.
abbrev pub IsFreeOr : Bool → Bool → Type 0
IsFreeOr free covers = (free ≡ true) ⊎ (covers ≡ true)

pub anthropic-free :
    (now : ℕ) (scope : Option String) (spec : LaunchSpec) (proof : Option EscalationProof)
    (cfg : Config)
    → is_allowed (assert_anthropic_launch now scope spec proof cfg) ≡ true
    → IsFreeOr (is_anthropic_ungated cfg spec.launch_id) (token_covers now scope spec proof)
unfolding assert_anthropic_launch
anthropic-free now scope spec proof cfg h = ground arith

is_one_of_head :
    (id s : String) (ss : List String) → (id == s) ≡ true → is_one_of id (s ∷ ss) ≡ true
is_one_of_head id s ss h = ground (arith, eq_iff id s, eq_iff s id)

pub cursor-free :
    (now : ℕ) (scope : Option String) (spec : LaunchSpec) (proof : Option EscalationProof)
    (cfg : Config)
    → is_allowed (assert_cursor_launch now scope spec proof cfg) ≡ true
    → IsFreeOr
        (is_anthropic_ungated cfg spec.launch_id
          || is_one_of spec.launch_id (ungated_cursor_ids cfg))
        (token_covers now scope spec proof)
unfolding assert_cursor_launch ungated_cursor_ids
cursor-free now scope spec proof cfg h = ground (
  arith,
  anthropic-free now scope spec proof cfg,
  eq_iff spec.launch_id cfg.cursor_grok_bot.default.launch_id,
  eq_iff cfg.cursor_grok_bot.default.launch_id spec.launch_id,
)

pub xai-free :
    (spec : LaunchSpec) (cfg : Config)
    → is_allowed (assert_direct_xai_launch spec cfg) ≡ true
    → (spec.launch_id == cfg.direct_xai.default.launch_id) ≡ true
unfolding assert_direct_xai_launch
xai-free spec cfg h = ground arith

listed-free :
    (check : LaunchSpec → Ruling (Unit {0})) (spec : LaunchSpec) (kind : Option String)
    (provider : String) (policy : Policy)
    → ((provider == "openai") || (provider == "google")) ≡ true
    → is_allowed (assert_listed check spec provider policy) ≡ true
    → needs_approval spec kind "standard" policy ≡ false
    → free_under policy kind spec.launch_id ≡ true
unfolding assert_listed
listed-free check spec kind provider policy o h n = ground arith

conclude-approval :
    (spec : LaunchSpec) (kind : Option String) (mode provider : String) (policy : Policy)
    (cfg : Config) (p : LaunchPlan)
    → conclude spec kind mode provider policy cfg ≡ allowed p
    → p.requires_human_approval ≡ needs_approval spec kind mode policy
unfolding conclude
conclude-approval spec kind mode provider policy cfg p h = ground arith

pub plan_with-allowed :
    (check : LaunchSpec → Ruling (Unit {0})) (spec : LaunchSpec) (kind : Option String)
    (mode : String) (cfg : Config) (p : LaunchPlan)
    → plan_with check spec kind mode cfg ≡ allowed p
    → (policy : Policy) × (policy_of (provider_of spec) cfg ≡ some policy)
      × (is_allowed (assert_listed check spec (provider_of spec) policy) ≡ true)
      × (conclude spec kind mode (provider_of spec) policy cfg ≡ allowed p)
unfolding plan_with
plan_with-allowed check spec kind mode cfg p h =
    elim (Option-cases (policy_of (provider_of spec) cfg)) [
      | inl e ↦ absurd (ground arith)
      | inr (policy, e) ↦ (policy, e, ground arith, ground arith)
    ]

planned_and_covered :
    (r : Ruling LaunchPlan) (covers : Bool) (m : String)
    → is_allowed
        (r >>= λ p. require (not (p.requires_human_approval && not covers)) m (allowed (tt {0})))
      ≡ true
    → (p : LaunchPlan) × (r ≡ allowed p) × ((p.requires_human_approval ≡ false) ⊎ (covers ≡ true))
planned_and_covered (allowed p) covers m h = (p, refl, ground arith)
planned_and_covered (denied m') covers m h = absurd (ground arith)
planned_and_covered key_error covers m h = absurd (ground arith)
planned_and_covered recursion_error covers m h = absurd (ground arith)

-- What the planner allows of the models of one provider without an approval is free.
pub planned-free :
    (check : LaunchSpec → Ruling (Unit {0})) (spec : LaunchSpec) (kind : Option String)
    (policy : Policy) (cfg : Config) (covers : Bool) (m : String)
    → ((provider_of spec == "openai") || (provider_of spec == "google")) ≡ true
    → policy_of (provider_of spec) cfg ≡ some policy
    → is_allowed (
        plan_with check spec kind "standard" cfg >>= λ p.
        require (not (p.requires_human_approval && not covers)) m (allowed (tt {0})))
      ≡ true
    → IsFreeOr (free_under policy kind spec.launch_id) covers
planned-free check spec kind policy cfg covers m o f h =
    let (p, made, done) =
      planned_and_covered (plan_with check spec kind "standard" cfg) covers m h in
    let (policy', f', listed, concluded) =
      plan_with-allowed check spec kind "standard" cfg p made in
    let same : policy' ≡ policy = ground arith in
    let needs = conclude-approval spec kind "standard" (provider_of spec) policy' cfg p concluded in
    elim done [
      | inr c ↦ inr c
      | inl n ↦ inl (
          subst (λ x. free_under x kind spec.launch_id ≡ true) same
            (listed-free check spec kind (provider_of spec) policy' o listed (sym needs ∙ n)))
    ]

-- The provider of a launch, and its policy, on the two paths that the planner decides.
pub provider_at :
    (spec : LaunchSpec) (path : String)
    → spec.path ≡ path
    → (path == "cursor_grok_bot") ≡ false
    → provider_of spec ≡ path
provider_at spec path e c =
    ground (arith, eq_iff spec.path "cursor_grok_bot", eq_iff path "cursor_grok_bot")

pub openai_policy :
    (cfg : Config) (provider : String)
    → provider ≡ "openai"
    → policy_of provider cfg ≡ some cfg.openai
unfolding policy_of
openai_policy cfg provider e = ap (λ x. policy_of x cfg) e

pub google_policy :
    (cfg : Config) (provider : String)
    → provider ≡ "google"
    → policy_of provider cfg ≡ some cfg.google
unfolding policy_of
google_policy cfg provider e = ap (λ x. policy_of x cfg) e

pub is_free_elsewhere :
    (kind : Option String) (spec : LaunchSpec) (cfg : Config)
    → (spec.path == "openai") ≡ false
    → (spec.path == "google") ≡ false
    → is_free kind spec cfg ≡ (
        if spec.path == "anthropic"
        then free_anthropic kind cfg spec.launch_id
        else if spec.path == "cursor_grok_bot"
        then free_cursor kind cfg spec.launch_id
        else spec.launch_id == cfg.direct_xai.default.launch_id)
unfolding is_free
is_free_elsewhere kind spec cfg o g = ground arith

pub role-free :
    (kind : Option String) (cfg : Config) (id : String)
    → has_id id cfg.anthropic.controller
        || (has_id id cfg.anthropic.planning && is_planning_kind kind)
      ≡ true
    → free_anthropic kind cfg id ≡ true
role-free kind cfg id h = ground arith
