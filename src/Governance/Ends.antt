-- ===== src/Governance/Ends.antt =====
-- Calls of src/orama_system/model_governance.py that come to an end: the planner.
use orama_system.Base.{
  String, ◌≡◌, refl, sym, subst, Bool, true, false, not, ◌||◌, Option, none, some, arith,
  if◌then◌else◌, ◌==◌, lookup, ◌⊎◌, inl, inr, Option-cases,
}
use orama_system.Governance.{
  Ruling, ◌>>=◌, require, allowed, denied, key_error, recursion_error, LaunchSpec, Row, Policy,
  Config, require_consistent_effort, named_effort, assert_gated_params, default_launch, provider_of,
  policy_of, role_row, assert_role, assert_listed, needs_approval, conclude, plan_with, is_one_of,
  is_task_kind,
}

-- The call did not come to an end within the rounds given.
abbrev pub is_cut : {A : Type 0} → Ruling A → Bool
is_cut recursion_error = true
is_cut _ = false

pub record Ends {A : Type 0} (r : Ruling A) : Type 0 where
  pub uncut : is_cut r ≡ false

pub allowed-Ends : {A : Type 0} (a : A) → Ends (allowed a)
allowed-Ends a = record { uncut = refl }

pub denied-Ends : {A : Type 0} (m : String) → Ends {A = A} (denied m)
denied-Ends m = record { uncut = refl }

pub gated-uncut : (spec : LaunchSpec) (row : Row) → Ends (assert_gated_params spec row)
unfolding assert_gated_params
gated-uncut spec row = record { uncut = ground arith }

pub consistent-uncut : (spec : LaunchSpec) → Ends (require_consistent_effort spec)
unfolding require_consistent_effort
consistent-uncut spec = record { uncut = ground arith }

default-uncut : (path : String) (cfg : Config) → Ends (default_launch path cfg)
unfolding default_launch
default-uncut path cfg = record { uncut = ground arith }

pub require-uncut :
    {A : Type 0} (b : Bool) (m : String) (r : Ruling A) → Ends r → Ends (require b m r)
require-uncut true m r h = h
require-uncut false m r h = denied-Ends m

pub bind-uncut :
    {A B : Type 0} (r : Ruling A) (f : A → Ruling B)
    → Ends r
    → ((a : A) → Ends (f a))
    → Ends (r >>= f)
bind-uncut (allowed a) f h g = g a
bind-uncut (denied m) f h g = denied-Ends m
bind-uncut key_error f h g = record { uncut = refl }
bind-uncut recursion_error f h g = record { uncut = h.uncut }

pub if-uncut :
    {A : Type 0} (b : Bool) (r r' : Ruling A) → Ends r → Ends r' → Ends (if b then r else r')
if-uncut true r r' h h' = h
if-uncut false r r' h h' = h'

role-uncut : (spec : LaunchSpec) (row : Row) → Ends (assert_role spec row)
role-uncut spec row =
    require-uncut _ _ _ (gated-uncut spec (record row { effort = named_effort spec }))

conclude-uncut :
    (spec : LaunchSpec) (kind : Option String) (mode provider : String) (policy : Policy)
    (cfg : Config)
    → Ends (conclude spec kind mode provider policy cfg)
unfolding conclude
conclude-uncut spec kind mode provider policy cfg =
    if-uncut (not (needs_approval spec kind mode policy)) _ _ (allowed-Ends _) (
      bind-uncut (default_launch provider cfg) _ (default-uncut provider cfg) (λ d. allowed-Ends _))

-- The planner calls the check only of a model that has no role and is not gated, of three providers.
abbrev pub calls_check : LaunchSpec → String → Policy → Bool
calls_check spec provider policy = elim (role_row spec.launch_id policy) [
  | some row ↦ false
  | none ↦ elim (lookup spec.launch_id policy.gated) [
    | some row ↦ false
    | none ↦ not ((provider == "openai") || (provider == "google"))
  ]
]

listed_role :
    (check : LaunchSpec → Ruling (Unit {0})) (spec : LaunchSpec) (provider : String)
    (policy : Policy) (row : Row)
    → role_row spec.launch_id policy ≡ some row
    → Ends (assert_listed check spec provider policy)
unfolding assert_listed
listed_role check spec provider policy row e =
    subst
      (λ o. Ends (elim o [
        | some r ↦ assert_role spec r
        | none ↦ elim (lookup spec.launch_id policy.gated) [
          | some r ↦ assert_gated_params spec r
          | none ↦
              if (provider == "openai") || (provider == "google")
              then require (spec.launch_id == policy.default.launch_id) "unlisted role model"
                  (assert_gated_params spec policy.default)
              else check spec
        ]
      ]))
      (sym e) (role-uncut spec row)

listed_gated :
    (check : LaunchSpec → Ruling (Unit {0})) (spec : LaunchSpec) (provider : String)
    (policy : Policy) (row : Row)
    → role_row spec.launch_id policy ≡ none
    → lookup spec.launch_id policy.gated ≡ some row
    → Ends (assert_listed check spec provider policy)
unfolding assert_listed
listed_gated check spec provider policy row e g = record {
  uncut = ground (arith, (gated-uncut spec row).uncut);
}

listed_other :
    (check : LaunchSpec → Ruling (Unit {0})) (spec : LaunchSpec) (provider : String)
    (policy : Policy)
    → role_row spec.launch_id policy ≡ none
    → lookup spec.launch_id policy.gated ≡ none
    → assert_listed check spec provider policy ≡ (
        if (provider == "openai") || (provider == "google")
        then require
            (spec.launch_id == policy.default.launch_id)
            "unlisted role model"
            (assert_gated_params spec policy.default)
        else check spec)
unfolding assert_listed
listed_other check spec provider policy e g = ground arith

other-Ends :
    (check : LaunchSpec → Ruling (Unit {0})) (spec : LaunchSpec) (provider : String)
    (policy : Policy)
    → role_row spec.launch_id policy ≡ none
    → lookup spec.launch_id policy.gated ≡ none
    → (calls_check spec provider policy ≡ false) ⊎ Ends (check spec)
    → Ends (
        if (provider == "openai") || (provider == "google")
        then require
            (spec.launch_id == policy.default.launch_id)
            "unlisted role model"
            (assert_gated_params spec policy.default)
        else check spec)
other-Ends check spec provider policy e g (inr c) =
    if-uncut ((provider == "openai") || (provider == "google")) _ _
      (require-uncut _ _ _ (gated-uncut spec policy.default)) c
other-Ends check spec provider policy e g (inl n) =
    let default_ends =
      require-uncut (spec.launch_id == policy.default.launch_id) "unlisted role model"
        (assert_gated_params spec policy.default) (gated-uncut spec policy.default) in
    record { uncut = ground (arith, default_ends.uncut) }

listed-uncut :
    (check : LaunchSpec → Ruling (Unit {0})) (spec : LaunchSpec) (provider : String)
    (policy : Policy)
    → (calls_check spec provider policy ≡ false) ⊎ (Ends (check spec))
    → Ends (assert_listed check spec provider policy)
unfolding assert_listed
listed-uncut check spec provider policy h = elim (Option-cases (role_row spec.launch_id policy)) [
  | inr (row, e) ↦ listed_role check spec provider policy row e
  | inl e ↦ elim (Option-cases (lookup spec.launch_id policy.gated)) [
    | inr (row, g) ↦ listed_gated check spec provider policy row e g
    | inl g ↦
        subst Ends (sym (listed_other check spec provider policy e g))
          (other-Ends check spec provider policy e g h)
  ]
]

policy_uncut :
    (check : LaunchSpec → Ruling (Unit {0})) (spec : LaunchSpec) (kind : Option String)
    (mode : String) (cfg : Config) (o : Option Policy)
    → ((policy : Policy)
        → o ≡ some policy
        → (calls_check spec (provider_of spec) policy ≡ false) ⊎ (Ends (check spec)))
    → Ends (elim o [
      | none ↦ denied "unknown harness path"
      | some policy ↦ assert_listed check spec (provider_of spec) policy >>= λ _.
          conclude spec kind mode (provider_of spec) policy cfg
    ])
policy_uncut check spec kind mode cfg none h = denied-Ends _
policy_uncut check spec kind mode cfg (some policy) h =
    bind-uncut (assert_listed check spec (provider_of spec) policy) _
      (listed-uncut check spec (provider_of spec) policy (h policy refl))
      (λ u. conclude-uncut spec kind mode (provider_of spec) policy cfg)

pub plan_with-uncut :
    (check : LaunchSpec → Ruling (Unit {0})) (spec : LaunchSpec) (kind : Option String)
    (mode : String) (cfg : Config)
    → ((policy : Policy)
        → policy_of (provider_of spec) cfg ≡ some policy
        → (calls_check spec (provider_of spec) policy ≡ false) ⊎ (Ends (check spec)))
    → Ends (plan_with check spec kind mode cfg)
unfolding plan_with
plan_with-uncut check spec kind mode cfg h = require-uncut (is_task_kind kind) _ _ (
    require-uncut ((mode == "standard") || (mode == "ultracode")) _ _ (
      bind-uncut (require_consistent_effort spec) _ (consistent-uncut spec) (λ u.
        require-uncut (not (is_one_of spec.launch_id cfg.banned_launch_ids)) _ _
          (policy_uncut check spec kind mode cfg (policy_of (provider_of spec) cfg) h))))
