-- ===== src/Governance/Allowed.antt =====
-- What holds of every launch that src/orama_system/model_governance.py allows, by path.
use orama_system.Base.{
  ℕ, zero, suc, String, ◌≡◌, refl, sym, ◌∙◌, ap, subst, Bool, true, false, ◌||◌, Option, none, some,
  arith, if◌then◌else◌, ◌==◌, eq_iff, ◌⊎◌, inl, inr, lookup, Bool-cases,
}
use orama_system.Governance.{
  Ruling, LaunchSpec, EscalationProof, LaunchPlan, Row, Config, is_one_of, token_covers,
  ungated_cursor_ids, is_anthropic_ungated, has_budget_cap, assert_anthropic_launch, is_claude,
  assert_cursor_launch, assert_direct_xai_launch, provider_of, policy_of, plan_with, is_role_launch,
  assert_path, assert_launch_allowed,
}
use orama_system.Governance.Forbidden.{is_allowed, assert_with-IsChecked}
use orama_system.Governance.Proofs.{IsProven, token_covers-IsProven}
use orama_system.Governance.Free.{
  free_anthropic, free_cursor, IsFreeOr, anthropic-free, cursor-free, xai-free, planned-free,
  provider_at, openai_policy, google_policy, is_free_elsewhere, role-free, is_free,
}

or_role :
    (kind : Option String) (cfg : Config) (id : String) (covers : Bool)
    → IsFreeOr (is_anthropic_ungated cfg id) covers
    → IsFreeOr (free_anthropic kind cfg id) covers
or_role kind cfg id covers (inl u) = inl (ground arith)
or_role kind cfg id covers (inr c) = inr c

free_cursor_left :
    (kind : Option String) (cfg : Config) (id : String)
    → free_anthropic kind cfg id ≡ true
    → free_cursor kind cfg id ≡ true
free_cursor_left kind cfg id h = ap (λ b. b || is_one_of id (ungated_cursor_ids cfg)) h

or_ungated :
    (kind : Option String) (cfg : Config) (id : String) (covers : Bool)
    → IsFreeOr (is_anthropic_ungated cfg id || is_one_of id (ungated_cursor_ids cfg)) covers
    → IsFreeOr (free_cursor kind cfg id) covers
or_ungated kind cfg id covers (inl u) = inl (ground arith)
or_ungated kind cfg id covers (inr c) = inr c

at_anthropic :
    (plan : LaunchSpec → Option String → Ruling LaunchPlan) (now : ℕ) (scope : Option String)
    (spec : LaunchSpec) (proof : Option EscalationProof) (kind : Option String) (cfg : Config)
    → (spec.path == "openai") ≡ false
    → (spec.path == "google") ≡ false
    → (spec.path == "anthropic") ≡ true
    → (spec.path == "cursor_grok_bot") ≡ false
    → is_role_launch spec kind cfg ≡ false
    → assert_path plan now scope spec proof kind cfg
      ≡ assert_anthropic_launch now scope spec proof cfg
unfolding assert_path
at_anthropic plan now scope spec proof kind cfg o g a c r = rw (o, g, a, c, r) refl

at_cursor :
    (plan : LaunchSpec → Option String → Ruling LaunchPlan) (now : ℕ) (scope : Option String)
    (spec : LaunchSpec) (proof : Option EscalationProof) (kind : Option String) (cfg : Config)
    → (spec.path == "openai") ≡ false
    → (spec.path == "google") ≡ false
    → (spec.path == "cursor_grok_bot") ≡ true
    → (spec.path == "anthropic") ≡ false
    → is_role_launch spec kind cfg ≡ false
    → assert_path plan now scope spec proof kind cfg ≡ assert_cursor_launch now scope spec proof cfg
unfolding assert_path
at_cursor plan now scope spec proof kind cfg o g c a r = rw (o, g, a, c, r) refl

at_xai :
    (plan : LaunchSpec → Option String → Ruling LaunchPlan) (now : ℕ) (scope : Option String)
    (spec : LaunchSpec) (proof : Option EscalationProof) (kind : Option String) (cfg : Config)
    → (spec.path == "openai") ≡ false
    → (spec.path == "google") ≡ false
    → (spec.path == "anthropic") ≡ false
    → (spec.path == "cursor_grok_bot") ≡ false
    → is_allowed (assert_path plan now scope spec proof kind cfg) ≡ true
    → is_allowed (assert_direct_xai_launch spec cfg) ≡ true
unfolding assert_path
at_xai plan now scope spec proof kind cfg o g a c h = ground arith

other_path-free :
    (plan : LaunchSpec → Option String → Ruling LaunchPlan) (now : ℕ) (scope : Option String)
    (spec : LaunchSpec) (proof : Option EscalationProof) (kind : Option String) (cfg : Config)
    → (spec.path == "openai") ≡ false
    → (spec.path == "google") ≡ false
    → is_allowed (assert_path plan now scope spec proof kind cfg) ≡ true
    → IsFreeOr (is_free kind spec cfg) (token_covers now scope spec proof)
other_path-free plan now scope spec proof kind cfg o g h =
    let covers = token_covers now scope spec proof in
    let id = spec.launch_id in
    let other =
      λ (b : Bool). if b then free_cursor kind cfg id else id == cfg.direct_xai.default.launch_id in
    let goal = λ (a : Bool) (c : Bool).
      IsFreeOr (if a then free_anthropic kind cfg id else other c) covers in
    subst (λ (b : Bool). IsFreeOr b covers) (sym (is_free_elsewhere kind spec cfg o g))
      (elim (Bool-cases (spec.path == "anthropic")) [
        | inl a ↦
            subst (λ x. goal x (spec.path == "cursor_grok_bot")) (sym a)
              (elim (Bool-cases (is_role_launch spec kind cfg)) [
                | inl r ↦ inl (role-free kind cfg id r)
                | inr r ↦
                    let not_cursor : (spec.path == "cursor_grok_bot") ≡ false =
                      ap (λ x. x == "cursor_grok_bot") ((eq_iff spec.path "anthropic").0 a) in
                    let same = at_anthropic plan now scope spec proof kind cfg o g a not_cursor r in
                    or_role kind cfg id covers
                      (anthropic-free now scope spec proof cfg (sym (ap is_allowed same) ∙ h))
              ])
        | inr a ↦
            subst (λ x. goal x (spec.path == "cursor_grok_bot")) (sym a)
              (elim (Bool-cases (spec.path == "cursor_grok_bot")) [
                | inr c ↦
                    subst (λ x. IsFreeOr (other x) covers) (sym c)
                      (inl
                        (xai-free spec cfg (at_xai plan now scope spec proof kind cfg o g a c h)))
                | inl c ↦
                    subst (λ x. IsFreeOr (other x) covers) (sym c)
                      (elim (Bool-cases (is_role_launch spec kind cfg)) [
                        | inl r ↦ inl (free_cursor_left kind cfg id (role-free kind cfg id r))
                        | inr r ↦
                            let same = at_cursor plan now scope spec proof kind cfg o g c a r in
                            or_ungated kind cfg id covers
                              (cursor-free now scope spec proof cfg (sym (ap is_allowed same) ∙ h))
                      ])
              ])
      ])

path-free :
    (check : LaunchSpec → Ruling (Unit {0})) (now : ℕ) (scope : Option String) (spec : LaunchSpec)
    (proof : Option EscalationProof) (kind : Option String) (cfg : Config)
    → is_allowed
        (assert_path (λ s k. plan_with check s k "standard" cfg) now scope spec proof kind cfg)
      ≡ true
    → IsFreeOr (is_free kind spec cfg) (token_covers now scope spec proof)
unfolding assert_path is_free
path-free check now scope spec proof kind cfg h = elim (Bool-cases (spec.path == "openai")) [
  | inl e ↦
      let here = (eq_iff spec.path "openai").0 e in
      let provider : provider_of spec ≡ "openai" = provider_at spec "openai" here refl in
      let policy : policy_of (provider_of spec) cfg ≡ some cfg.openai =
        openai_policy cfg (provider_of spec) provider in
      ground (
        arith,
        planned-free check spec kind cfg.openai cfg (token_covers now scope spec proof)
            "cloud escalation default-deny: escalation token required"
            (ap (λ x. (x == "openai") || (x == "google")) provider) policy,
      )
  | inr e ↦ elim (Bool-cases (spec.path == "google")) [
    | inl g ↦
        let here = (eq_iff spec.path "google").0 g in
        let provider : provider_of spec ≡ "google" = provider_at spec "google" here refl in
        let policy : policy_of (provider_of spec) cfg ≡ some cfg.google =
          google_policy cfg (provider_of spec) provider in
        ground (
          arith,
          planned-free check spec kind cfg.google cfg (token_covers now scope spec proof)
              "cloud escalation default-deny: escalation token required"
              (ap (λ x. (x == "openai") || (x == "google")) provider) policy,
        )
    | inr g ↦
        other_path-free (λ s k. plan_with check s k "standard" cfg) now scope spec proof kind cfg e
          g h
  ]
]

proven :
    (now : ℕ) (scope : Option String) (spec : LaunchSpec) (proof : Option EscalationProof)
    → token_covers now scope spec proof ≡ true
    → (p : EscalationProof) × (proof ≡ some p) × IsProven now scope spec p
unfolding token_covers
proven now scope spec none c = absurd (ground arith)
proven now scope spec (some p) c = (p, refl, token_covers-IsProven now scope spec p c)

-- A launch that is allowed is of a model that its path takes as free for the task, or it comes with a proof of
-- an accepted kind that is valid now and for a day at most and is of this launch. Free are, by the path, the
-- provider's default with its older pin, the models listed as ungated, the controller, and in a planning task
-- the planning model, each of them also when it is listed as gated. Any other model, gated or unlisted, is
-- launched only with such a proof, and an expired or forbidden proof opens nothing.
pub allowed-IsProven :
    (n now : ℕ) (scope : Option String) (spec : LaunchSpec) (proof : Option EscalationProof)
    (kind : Option String) (cfg : Config)
    → is_allowed (assert_launch_allowed n now scope spec proof kind cfg) ≡ true
    → (is_free kind spec cfg ≡ true)
      ⊎ ((p : EscalationProof) × (proof ≡ some p) × IsProven now scope spec p)
unfolding assert_launch_allowed
allowed-IsProven zero now scope spec proof kind cfg h = absurd (ground arith)
allowed-IsProven (suc n) now scope spec proof kind cfg h =
    let check = λ (s : LaunchSpec). assert_launch_allowed n now none s none none cfg in
    let plan = λ (s : LaunchSpec) (k : Option String). plan_with check s k "standard" cfg in
    elim (path-free check now scope spec proof kind cfg
      (assert_with-IsChecked plan now scope spec proof kind cfg h).1) [
        | inl f ↦ inl f
        | inr c ↦ inr (proven now scope spec proof c)
      ]

anthropic_capped :
    (now : ℕ) (scope : Option String) (spec : LaunchSpec) (proof : Option EscalationProof)
    (cfg : Config) (row : Row)
    → is_anthropic_ungated cfg spec.launch_id ≡ false
    → lookup spec.launch_id cfg.anthropic.gated ≡ some row
    → is_one_of "budget_cap" row.requires ≡ true
    → is_allowed (assert_anthropic_launch now scope spec proof cfg) ≡ true
    → has_budget_cap proof ≡ true
unfolding assert_anthropic_launch
anthropic_capped now scope spec proof cfg row u f b h = ground arith

claude_on_cursor :
    (now : ℕ) (scope : Option String) (spec : LaunchSpec) (proof : Option EscalationProof)
    (cfg : Config)
    → is_claude spec.launch_id ≡ true
    → assert_cursor_launch now scope spec proof cfg
      ≡ assert_anthropic_launch now scope spec proof cfg
unfolding assert_cursor_launch
claude_on_cursor now scope spec proof cfg h = ground arith

-- A gated Anthropic model that requires a budget cap is launched only with a proof that has one, on
-- Anthropic's path and on Cursor's, unless the model is the default or has a role in the task.
pub allowed-has_budget_cap :
    (n now : ℕ) (scope : Option String) (spec : LaunchSpec) (proof : Option EscalationProof)
    (kind : Option String) (cfg : Config) (row : Row)
    → (spec.path ≡ "anthropic")
      ⊎ ((spec.path ≡ "cursor_grok_bot") × (is_claude spec.launch_id ≡ true))
    → is_role_launch spec kind cfg ≡ false
    → is_anthropic_ungated cfg spec.launch_id ≡ false
    → lookup spec.launch_id cfg.anthropic.gated ≡ some row
    → is_one_of "budget_cap" row.requires ≡ true
    → is_allowed (assert_launch_allowed n now scope spec proof kind cfg) ≡ true
    → has_budget_cap proof ≡ true
unfolding assert_launch_allowed
allowed-has_budget_cap zero now scope spec proof kind cfg row w r u f b h = absurd (ground arith)
allowed-has_budget_cap (suc n) now scope spec proof kind cfg row w r u f b h =
    let check = λ (s : LaunchSpec). assert_launch_allowed n now none s none none cfg in
    let plan = λ (s : LaunchSpec) (k : Option String). plan_with check s k "standard" cfg in
    let passed = (assert_with-IsChecked plan now scope spec proof kind cfg h).1 in
    let capped = anthropic_capped now scope spec proof cfg row u f b in
    elim w [
      | inl a ↦
          let off = λ (p : String) (e : ("anthropic" == p) ≡ false). ap (λ x. x == p) a ∙ e in
          capped (
            sym (
              ap is_allowed (
                at_anthropic plan now scope spec proof kind cfg (off "openai" refl)
                  (off "google" refl) (ap (λ x. x == "anthropic") a) (off "cursor_grok_bot" refl)
                  r))
            ∙ passed)
      | inr (c, k) ↦
          let off = λ (p : String) (e : ("cursor_grok_bot" == p) ≡ false). ap (λ x. x == p) c ∙ e in
          capped (
            sym (
              ap is_allowed (
                at_cursor plan now scope spec proof kind cfg (off "openai" refl) (off "google" refl)
                  (ap (λ x. x == "cursor_grok_bot") c) (off "anthropic" refl) r
                ∙ claude_on_cursor now scope spec proof cfg k))
            ∙ passed)
    ]
