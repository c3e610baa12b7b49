-- ===== src/Governance/Checks.antt =====
-- Calls of src/orama_system/model_governance.py that come to an end: the check.
use orama_system.Base.{
  ℕ, String, ◌≡◌, refl, Bool, true, false, not, ◌&&◌, ◌||◌, Option, none, some, List, [], ◌∷◌,
  arith, if◌then◌else◌, ◌==◌, lookup, is_some,
}
use orama_system.Governance.{
  Ruling, ◌>>=◌, require, allowed, denied, LaunchSpec, EscalationProof, LaunchPlan, Row, Config,
  is_true, text_eq, is_medium_or_none, ungated_cursor_ids, require_consistent_effort, named_effort,
  token_covers, assert_gated_params, ungated_cursor_row, row_with_id, is_anthropic_ungated,
  has_budget_cap, assert_anthropic_launch, is_claude, assert_cursor_launch,
  assert_direct_xai_launch, is_role_launch, assert_path, assert_with, is_one_of,
}
use orama_system.Governance.Ends.{
  Ends, gated-uncut, consistent-uncut, require-uncut, bind-uncut, if-uncut, allowed-Ends,
  denied-Ends,
}

row-uncut : (rows : List Row) (id : String) → Ends (row_with_id id rows)
row-uncut [] id = denied-Ends _
row-uncut (row ∷ rows) id =
    if-uncut (row.launch_id == id) _ _ (allowed-Ends row) (row-uncut rows id)

gated_launch_uncut :
    (now : ℕ) (scope : Option String) (spec : LaunchSpec) (proof : Option EscalationProof)
    (o : Option Row)
    → Ends (elim o [
      | none ↦ denied "cloud escalation default-deny: unlisted Anthropic model"
      | some row ↦
          require
            (token_covers now scope spec proof)
            "cloud escalation default-deny: escalation token required"
            (assert_gated_params spec row >>= λ _.
              require
                (not (is_one_of "budget_cap" row.requires) || has_budget_cap proof)
                "Fable requires a hard budget cap on the escalation approval"
                (allowed (tt {0})))
    ])
gated_launch_uncut now scope spec proof none = denied-Ends _
gated_launch_uncut now scope spec proof (some row) = require-uncut _ _ _ (
    bind-uncut _ _ (gated-uncut spec row) (λ u.
      require-uncut (not (is_one_of "budget_cap" row.requires) || has_budget_cap proof)
        "Fable requires a hard budget cap on the escalation approval" (allowed (tt {0}))
        (allowed-Ends _)))

cursor_gated_uncut :
    (now : ℕ) (scope : Option String) (spec : LaunchSpec) (proof : Option EscalationProof)
    (o : Option Row)
    → Ends (elim o [
      | some row ↦
          require
            (token_covers now scope spec proof)
            "cloud escalation default-deny: escalation token required"
            (assert_gated_params spec row)
      | none ↦
          require
            (token_covers now scope spec proof)
            "cloud escalation default-deny: unlisted Cursor model"
            (allowed (tt {0}))
    ])
cursor_gated_uncut now scope spec proof none =
    require-uncut (token_covers now scope spec proof)
      "cloud escalation default-deny: unlisted Cursor model" (allowed (tt {0})) (allowed-Ends _)
cursor_gated_uncut now scope spec proof (some row) = require-uncut _ _ _ (gated-uncut spec row)

anthropic-uncut :
    (now : ℕ) (scope : Option String) (spec : LaunchSpec) (proof : Option EscalationProof)
    (cfg : Config)
    → Ends (assert_anthropic_launch now scope spec proof cfg)
unfolding assert_anthropic_launch
anthropic-uncut now scope spec proof cfg = if-uncut (is_true spec.fast) _ _ (denied-Ends _) (
    if-uncut (is_anthropic_ungated cfg spec.launch_id) _ _
      (require-uncut (text_eq (named_effort spec) (some "medium")) _ _ (allowed-Ends tt))
      (gated_launch_uncut now scope spec proof (lookup spec.launch_id cfg.anthropic.gated)))

ungated-uncut : (cfg : Config) (id : String) → Ends (ungated_cursor_row cfg id)
unfolding ungated_cursor_row
ungated-uncut cfg id =
    if-uncut (cfg.cursor_grok_bot.default.launch_id == id) _ _ (allowed-Ends _)
      (row-uncut cfg.cursor_grok_bot.allowed_ungated id)

cursor-uncut :
    (now : ℕ) (scope : Option String) (spec : LaunchSpec) (proof : Option EscalationProof)
    (cfg : Config)
    → Ends (assert_cursor_launch now scope spec proof cfg)
unfolding assert_cursor_launch
cursor-uncut now scope spec proof cfg =
    let id = spec.launch_id in
    let covers = token_covers now scope spec proof in
    if-uncut (is_claude id) _ _ (anthropic-uncut now scope spec proof cfg) (
      if-uncut (id == cfg.cursor_grok_bot.default.launch_id) _ _
        (gated-uncut spec cfg.cursor_grok_bot.default)
        (if-uncut (is_true spec.fast) _ _
          (require-uncut ((id == "composer-2.5") && covers) _ _ (allowed-Ends tt))
          (if-uncut (not (is_medium_or_none (named_effort spec)) && not covers) _ _ (denied-Ends _)
            (if-uncut (is_one_of id (ungated_cursor_ids cfg)) _ _
              (bind-uncut (ungated_cursor_row cfg id) _ (ungated-uncut cfg id)
                (λ row. gated-uncut spec row))
              (cursor_gated_uncut now scope spec proof (lookup id cfg.cursor_grok_bot.gated))))))

xai-uncut : (spec : LaunchSpec) (cfg : Config) → Ends (assert_direct_xai_launch spec cfg)
unfolding assert_direct_xai_launch
xai-uncut spec cfg = record { uncut = ground arith }

if-uncut_when :
    {A : Type 0} (b : Bool) (r r' : Ruling A)
    → (b ≡ true → Ends r)
    → Ends r'
    → Ends (if b then r else r')
if-uncut_when true r r' h h' = h refl
if-uncut_when false r r' h h' = h'

-- The launches that the check leaves to the planner.
abbrev pub calls_plan : LaunchSpec → Option String → Config → Bool
calls_plan spec kind cfg =
    ((spec.path == "openai") || (spec.path == "google"))
    || (((spec.path == "anthropic") || (spec.path == "cursor_grok_bot"))
        && is_role_launch spec kind cfg)

pub assert_path-uncut :
    (plan : LaunchSpec → Option String → Ruling LaunchPlan) (now : ℕ) (scope : Option String)
    (spec : LaunchSpec) (proof : Option EscalationProof) (kind : Option String) (cfg : Config)
    → (calls_plan spec kind cfg ≡ true → Ends (plan spec kind))
    → Ends (assert_path plan now scope spec proof kind cfg)
unfolding assert_path
assert_path-uncut plan now scope spec proof kind cfg h =
    let path = spec.path in
    let covers = token_covers now scope spec proof in
    if-uncut_when ((path == "openai") || (path == "google")) _ _
      (λ e.
        bind-uncut (plan spec kind) _ (h (ground arith)) (λ p.
          require-uncut (not (p.requires_human_approval && not covers)) _ _ (allowed-Ends tt)))
      (if-uncut_when
        (((path == "anthropic") || (path == "cursor_grok_bot")) && is_role_launch spec kind cfg) _ _
        (λ e. bind-uncut (plan spec kind) _ (h (ground arith)) (λ p. allowed-Ends tt))
        (if-uncut (path == "cursor_grok_bot") _ _ (cursor-uncut now scope spec proof cfg) (
          if-uncut (path == "anthropic") _ _ (anthropic-uncut now scope spec proof cfg)
            (if-uncut (path == "direct_xai") _ _ (xai-uncut spec cfg) (denied-Ends _)))))

abbrev proof_required :
    ℕ → Option String → LaunchSpec → Option EscalationProof → Ruling (Unit {0}) → Ruling (Unit {0})
proof_required now scope spec proof rest =
    require (not (is_some proof) || token_covers now scope spec proof)
      "cloud escalation default-deny: proof expired or model/effort/fast/path/scope mismatch" rest

abbrev auto_refused : LaunchSpec → Ruling (Unit {0}) → Ruling (Unit {0})
auto_refused spec rest =
    require (not (((spec.launch_id == "auto") || (spec.launch_id == "default")) && spec.agent))
      "auto is editor-only; never for agents" rest

pub assert_with-uncut :
    (plan : LaunchSpec → Option String → Ruling LaunchPlan) (now : ℕ) (scope : Option String)
    (spec : LaunchSpec) (proof : Option EscalationProof) (kind : Option String) (cfg : Config)
    → Ends (assert_path plan now scope spec proof kind cfg)
    → Ends (assert_with plan now scope spec proof kind cfg)
unfolding assert_with
assert_with-uncut plan now scope spec proof kind cfg h =
    let rest = assert_path plan now scope spec proof kind cfg in
    let covered : Ends (proof_required now scope spec proof rest) =
      require-uncut (not (is_some proof) || token_covers now scope spec proof) _ rest h in
    let not_auto : Ends (auto_refused spec (proof_required now scope spec proof rest)) =
      require-uncut _ _ (proof_required now scope spec proof rest) covered in
    require-uncut _ _ _ (
      bind-uncut (require_consistent_effort spec) _ (consistent-uncut spec) (λ u.
        require-uncut (not (is_one_of spec.launch_id cfg.banned_launch_ids)) _
          (auto_refused spec (proof_required now scope spec proof rest)) not_auto))
