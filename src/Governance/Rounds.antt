-- ===== src/Governance/Rounds.antt =====
-- How often plan_launch and assert_launch_allowed of src/orama_system/model_governance.py call each other.
use orama_system.Base.{
  ℕ, zero, suc, String, ◌≡◌, refl, sym, ◌∙◌, ap, subst, Bool, true, false, ◌&&◌, ◌||◌, Option, none,
  some, arith, ◌==◌, eq_iff, lookup, inl, inr, Bool-cases,
}
use orama_system.Governance.{
  Ruling, allowed, recursion_error, LaunchSpec, EscalationProof, LaunchPlan, Row, Policy, Config,
  require_consistent_effort, has_id, is_claude, provider_of, policy_of, role_row, assert_listed,
  plan_with, plan_launch, assert_path, assert_with, assert_launch_allowed, is_one_of,
}
use orama_system.Governance.Ends.{is_cut, Ends, plan_with-uncut, calls_check}
use orama_system.Governance.Checks.{assert_with-uncut, assert_path-uncut, calls_plan}

-- The id of Anthropic's controller, if there is one, names a Claude model.
abbrev pub controller_is_claude : Config → Bool
controller_is_claude cfg = elim cfg.anthropic.controller [
  | none ↦ true
  | some row ↦ is_claude row.launch_id
]

no_call_elsewhere :
    (spec : LaunchSpec) (provider : String) (policy : Policy)
    → ((provider == "openai") || (provider == "google")) ≡ true
    → calls_check spec provider policy ≡ false
no_call_elsewhere spec provider policy h = ground arith

no_call_of_role :
    (spec : LaunchSpec) (provider : String) (policy : Policy)
    → has_id spec.launch_id policy.controller ≡ true
    → calls_check spec provider policy ≡ false
no_call_of_role spec provider policy h = ground arith

controller_claude :
    (cfg : Config) (id : String) (o : Option Row)
    → elim o [ none ↦ true | some row ↦ is_claude row.launch_id ] ≡ true
    → has_id id o ≡ true
    → is_claude id ≡ true
controller_claude cfg id none c h = absurd (ground arith)
controller_claude cfg id (some row) c h = ap is_claude ((eq_iff id row.launch_id).0 h) ∙ c

provider_anthropic :
    (spec : LaunchSpec)
    → ((spec.path == "anthropic") || (spec.path == "cursor_grok_bot")) ≡ true
    → is_claude spec.launch_id ≡ true
    → provider_of spec ≡ "anthropic"
provider_anthropic spec h c = ground (arith, eq_iff spec.path "anthropic")

anthropic_policy :
    (cfg : Config) (provider : String) (policy : Policy)
    → provider ≡ "anthropic"
    → policy_of provider cfg ≡ some policy
    → cfg.anthropic ≡ policy
unfolding policy_of
anthropic_policy cfg provider policy e h =
    let here : some cfg.anthropic ≡ some policy = sym (ap (λ x. policy_of x cfg) e) ∙ h in
    ground arith

-- Without a task kind, the check leaves to the planner only what the planner does not give back.
elsewhere :
    (spec : LaunchSpec)
    → ((spec.path == "openai") || (spec.path == "google")) ≡ true
    → (spec.path == "cursor_grok_bot") ≡ false
elsewhere spec h = elim (Bool-cases (spec.path == "openai")) [
  | inl o ↦ ap (λ x. x == "cursor_grok_bot") ((eq_iff spec.path "openai").0 o)
  | inr o ↦
      let google : (spec.path == "google") ≡ true = ground arith in
      ap (λ x. x == "cursor_grok_bot") ((eq_iff spec.path "google").0 google)
]

no_call :
    (spec : LaunchSpec) (cfg : Config) (policy : Policy)
    → controller_is_claude cfg ≡ true
    → calls_plan spec none cfg ≡ true
    → policy_of (provider_of spec) cfg ≡ some policy
    → calls_check spec (provider_of spec) policy ≡ false
no_call spec cfg policy c h f =
    elim (Bool-cases ((spec.path == "openai") || (spec.path == "google"))) [
      | inl o ↦
          let not_cursor : (spec.path == "cursor_grok_bot") ≡ false = elsewhere spec o in
          let same : provider_of spec ≡ spec.path = ground arith in
          no_call_elsewhere spec (provider_of spec) policy
            (ap (λ x. (x == "openai") || (x == "google")) same ∙ o)
      | inr o ↦
          let role : has_id spec.launch_id cfg.anthropic.controller ≡ true = ground arith in
          let claude = controller_claude cfg spec.launch_id cfg.anthropic.controller c role in
          let provider = provider_anthropic spec (ground arith) claude in
          let same = anthropic_policy cfg (provider_of spec) policy provider f in
          no_call_of_role spec (provider_of spec) policy
            (subst (λ (x : Policy). has_id spec.launch_id x.controller ≡ true) same role)
    ]

kindless-Ends :
    (n now : ℕ) (scope : Option String) (spec : LaunchSpec) (proof : Option EscalationProof)
    (cfg : Config)
    → controller_is_claude cfg ≡ true
    → Ends (assert_launch_allowed (suc n) now scope spec proof none cfg)
unfolding assert_launch_allowed
kindless-Ends n now scope spec proof cfg c =
    let check = λ (s : LaunchSpec). assert_launch_allowed n now none s none none cfg in
    let plan = λ (s : LaunchSpec) (k : Option String). plan_with check s k "standard" cfg in
    assert_with-uncut plan now scope spec proof none cfg (
      assert_path-uncut plan now scope spec proof none cfg (λ h.
        plan_with-uncut check spec none "standard" cfg
          (λ policy f. inl (no_call spec cfg policy c h f))))

-- The two functions call each other twice at most, for every configuration in which the id of Anthropic's
-- controller names a Claude model: with that many rounds neither is cut off, whatever is asked.
pub calls_end :
    (n now : ℕ) (scope : Option String) (spec : LaunchSpec) (proof : Option EscalationProof)
    (kind : Option String) (mode : String) (cfg : Config)
    → controller_is_claude cfg ≡ true
    → (is_cut (assert_launch_allowed (suc (suc n)) now scope spec proof kind cfg) ≡ false)
      × (is_cut (plan_launch (suc n) now spec kind mode cfg) ≡ false)
unfolding assert_launch_allowed plan_launch
calls_end n now scope spec proof kind mode cfg c =
    let check = λ (s : LaunchSpec). assert_launch_allowed (suc n) now none s none none cfg in
    let plan = λ (s : LaunchSpec) (k : Option String). plan_with check s k "standard" cfg in
    let planned = λ (m : String).
      plan_with-uncut check spec kind m cfg
        (λ policy f. inr (kindless-Ends n now none spec none cfg c)) in
    (
      (assert_with-uncut plan now scope spec proof kind cfg
          (assert_path-uncut plan now scope spec proof kind cfg (λ h. planned "standard"))).uncut,
      (planned mode).uncut,
    )

role_goes_to_plan :
    (plan : LaunchSpec → Option String → Ruling LaunchPlan) (now : ℕ) (spec : LaunchSpec)
    (cfg : Config)
    → spec.path ≡ "cursor_grok_bot"
    → has_id spec.launch_id cfg.anthropic.controller ≡ true
    → plan spec none ≡ recursion_error
    → assert_path plan now none spec none none cfg ≡ recursion_error
unfolding assert_path
role_goes_to_plan plan now spec cfg p c h =
    let off = λ (q : String) (e : ("cursor_grok_bot" == q) ≡ false). ap (λ x. x == q) p ∙ e in
    let openai = off "openai" refl in
    let google = off "google" refl in
    let cursor : (spec.path == "cursor_grok_bot") ≡ true = ap (λ x. x == "cursor_grok_bot") p in
    ground arith

-- What stops no launch before it comes to its path.
pub record IsPlain (spec : LaunchSpec) (cfg : Config) : Type 0 where
  pub consistent : require_consistent_effort spec ≡ allowed tt
  pub not_banned : is_one_of spec.launch_id cfg.banned_launch_ids ≡ false
  pub not_auto :
      (((spec.launch_id == "auto") || (spec.launch_id == "default")) && spec.agent) ≡ false
  pub no_role : role_row spec.launch_id cfg.cursor_grok_bot ≡ none
  pub not_gated : lookup spec.launch_id cfg.cursor_grok_bot.gated ≡ none

check_goes_on :
    (plan : LaunchSpec → Option String → Ruling LaunchPlan) (now : ℕ) (spec : LaunchSpec)
    (cfg : Config)
    → IsPlain spec cfg
    → assert_path plan now none spec none none cfg ≡ recursion_error
    → assert_with plan now none spec none none cfg ≡ recursion_error
unfolding assert_with
check_goes_on plan now spec cfg h e =
    let a = h.consistent in let b = h.not_banned in let c = h.not_auto in ground arith

cursor_policy :
    (cfg : Config) (provider : String)
    → provider ≡ "cursor_grok_bot"
    → policy_of provider cfg ≡ some cfg.cursor_grok_bot
unfolding policy_of
cursor_policy cfg provider e = ap (λ x. policy_of x cfg) e

plan_goes_back :
    (check : LaunchSpec → Ruling (Unit {0})) (spec : LaunchSpec) (cfg : Config)
    → spec.path ≡ "cursor_grok_bot"
    → is_claude spec.launch_id ≡ false
    → IsPlain spec cfg
    → check spec ≡ recursion_error
    → plan_with check spec none "standard" cfg ≡ recursion_error
unfolding plan_with assert_listed
plan_goes_back check spec cfg p c h e =
    let provider : provider_of spec ≡ "cursor_grok_bot" = ground arith in
    let policy : policy_of (provider_of spec) cfg ≡ some cfg.cursor_grok_bot =
      cursor_policy cfg (provider_of spec) provider in
    let openai = ap (λ x. x == "openai") provider in
    let google = ap (λ x. x == "google") provider in
    let a = h.consistent in
    let b = h.not_banned in let d = h.no_role in let g = h.not_gated in ground arith

-- On Cursor's path, a launch of Anthropic's controller whose id does not name a Claude model is never
-- decided: with any number of rounds, the check and the planner go on calling each other.
pub controller_loops :
    (n now : ℕ) (spec : LaunchSpec) (cfg : Config)
    → spec.path ≡ "cursor_grok_bot"
    → has_id spec.launch_id cfg.anthropic.controller ≡ true
    → is_claude spec.launch_id ≡ false
    → IsPlain spec cfg
    → (assert_launch_allowed n now none spec none none cfg ≡ recursion_error)
      × (plan_launch n now spec none "standard" cfg ≡ recursion_error)
unfolding assert_launch_allowed plan_launch
controller_loops zero now spec cfg p c k h = (
  refl,
  plan_goes_back (λ s. assert_launch_allowed zero now none s none none cfg) spec cfg p k h refl,
)
controller_loops (suc n) now spec cfg p c k h =
    let inner = λ (s : LaunchSpec). assert_launch_allowed n now none s none none cfg in
    let plan = λ (s : LaunchSpec) (k' : Option String). plan_with inner s k' "standard" cfg in
    let (_, planned) = controller_loops n now spec cfg p c k h in
    let checked =
      check_goes_on plan now spec cfg h (role_goes_to_plan plan now spec cfg p c planned) in
    (
      checked,
      plan_goes_back (λ s. assert_launch_allowed (suc n) now none s none none cfg) spec cfg p k h
          checked,
    )
