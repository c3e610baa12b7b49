-- ===== src/Governance.antt =====
-- The model governance of src/orama_system/model_governance.py: which launches of a model a harness may
-- make, and with what proof.
use orama_system.Base.{
  ℕ, zero, suc, ◌+◌, String, Bool, true, false, not, ◌&&◌, ◌||◌, Option, none, some, List, [], ◌∷◌,
  map, ltb, leb, bool_eq, if◌then◌else◌, ◌==◌, Dict, lookup, concat, codes, starts_with, is_blank,
  strip, any, is_some, ℤ, pos, negsuc,
}
pub mod Forbidden
pub mod Proofs
pub mod Free
pub mod Allowed
pub mod Plans
pub mod Ends
pub mod Checks
pub mod Rounds
mod Tests

-- What a check returns, or how it raises: a ModelGovernanceError with its text, a KeyError for a row of the
-- configuration that lacks a key, and a RecursionError.
pub data Ruling (A : Type 0) : Type 0 where
  allowed : A → Ruling A
  denied : String → Ruling A
  key_error : Ruling A
  recursion_error : Ruling A

infixl 5 ◌>>=◌
abbrev pub ◌>>=◌ : {A B : Type 0} → Ruling A → (A → Ruling B) → Ruling B
allowed a >>= f = f a
denied m >>= f = denied m
key_error >>= f = key_error
recursion_error >>= f = recursion_error

abbrev pub require : {A : Type 0} → Bool → String → Ruling A → Ruling A
require true m rest = rest
require false m rest = denied m

pub record LaunchSpec : Type 0 where
  pub path : String
  pub launch_id : String
  pub effort : Option String
  pub fast : Option Bool
  pub reasoning_effort : Option String
  pub agent : Bool

-- Times are in seconds.
pub record EscalationProof : Type 0 where
  pub kind : String
  pub reference : String
  pub model_id : String
  pub expires_at : ℕ
  pub effort : Option String
  pub fast : Option Bool
  pub budget_cap : Option String
  pub path : Option String
  pub scope : Option String

pub record LaunchPlan : Type 0 where
  pub requested : LaunchSpec
  pub effective : LaunchSpec
  pub requires_human_approval : Bool
  pub reason : String
  pub requested_mode : String
  pub effective_mode : String
  pub approval_candidate : Option LaunchSpec

-- A row of the configuration, with the keys that the module reads.
pub record Row : Type 0 where
  pub launch_id : String
  pub effort : Option String
  pub allowed_efforts : Option (List String)
  pub fast : Option Bool
  pub reasoning_effort : Option String
  pub legacy_pin : Option String
  pub requires : List String

pub record Policy : Type 0 where
  pub default : Row
  pub controller : Option Row
  pub planning : Option Row
  pub gated : Dict Row
  pub allowed_ungated : List Row

pub record Config : Type 0 where
  pub banned_launch_ids : List String
  pub anthropic : Policy
  pub openai : Policy
  pub google : Policy
  pub cursor_grok_bot : Policy
  pub direct_xai : Policy

abbrev pub text_eq : Option String → Option String → Bool
text_eq none none = true
text_eq (some s) (some t) = s == t
text_eq _ _ = false

abbrev pub is_true : Option Bool → Bool
is_true none = false
is_true (some b) = b

abbrev pub allowed_proof_kinds : List String
allowed_proof_kinds = "github_verified_signoff" ∷ "offline_gpg" ∷ "control_plane_online_signer" ∷ []

abbrev pub forbidden_proof_kinds : List String
forbidden_proof_kinds = "config_flag" ∷ "env_var" ∷ "agent_writable_file" ∷ "cached_approval" ∷ []

abbrev pub max_token_ttl : ℕ
max_token_ttl = 86400

abbrev pub is_one_of : String → List String → Bool
is_one_of s ts = any (λ t. t == s) ts

unfoldable pub named_effort : LaunchSpec → Option String
named_effort spec = elim spec.effort [
  | some e ↦ if is_blank e then spec.reasoning_effort else some e
  | none ↦ spec.reasoning_effort
]

abbrev pub is_forbidden_effort : Option String → Bool
is_forbidden_effort none = false
is_forbidden_effort (some e) = (e == "xhigh") || (e == "max")

abbrev conflicting : Option String → Option String → Bool
conflicting (some e) (some r) = not (e == r)
conflicting _ _ = false

unfoldable pub require_consistent_effort : LaunchSpec → Ruling (Unit {0})
require_consistent_effort spec =
    require (not (is_forbidden_effort spec.effort || is_forbidden_effort spec.reasoning_effort))
      "effort is forbidden"
      (require (not (conflicting spec.effort spec.reasoning_effort)) "conflicting effort fields"
        (allowed tt))

abbrev pub is_fresh : ℕ → EscalationProof → Bool
is_fresh now p =
    if is_one_of p.kind forbidden_proof_kinds
    then false
    else if not (is_one_of p.kind allowed_proof_kinds)
    then false
    else if is_blank (strip p.reference)
    then false
    else if ltb (now + max_token_ttl) p.expires_at
    then false
    else not (leb p.expires_at now)

unfoldable pub proof_is_token : ℕ → Option EscalationProof → Bool
proof_is_token now none = false
proof_is_token now (some p) = is_fresh now p

abbrev pub path_covers : Option String → String → Bool
path_covers none path = true
path_covers (some p) path = p == path

unfoldable pub token_covers : ℕ → Option String → LaunchSpec → Option EscalationProof → Bool
unfolding proof_is_token
token_covers now approval_scope spec none = false
token_covers now approval_scope spec (some p) =
    proof_is_token now (some p)
    && (p.model_id == spec.launch_id)
    && text_eq p.effort (named_effort spec)
    && bool_eq (is_true p.fast) (is_true spec.fast)
    && path_covers p.path spec.path
    && text_eq p.scope approval_scope

-- `row.get("allowed_efforts", [wanted])`
abbrev efforts_or : Option String → Option (List String) → List (Option String)
efforts_or wanted none = wanted ∷ []
efforts_or wanted (some es) = map some es

abbrev pub effort_in : Option String → List (Option String) → Bool
effort_in e es = any (λ x. text_eq x e) es

abbrev effort_right : Option String → Option (List String) → Option String → Bool
effort_right none efforts e = true
effort_right (some wanted) efforts e = effort_in e (efforts_or (some wanted) efforts)

abbrev fast_right : Option Bool → Option Bool → Bool
fast_right none f = true
fast_right (some b) none = false
fast_right (some b) (some c) = bool_eq b c

unfoldable pub assert_gated_params : LaunchSpec → Row → Ruling (Unit {0})
assert_gated_params spec row =
    require (effort_right row.effort row.allowed_efforts (named_effort spec)) "effort is required"
      (require (fast_right row.fast spec.fast) "fast is required" (allowed tt))

-- `str(row[key])`, where the key may be missing
abbrev key : {A : Type 0} → Option A → Ruling A
key none = key_error
key (some a) = allowed a

abbrev plain_launch : String → Row → LaunchSpec
plain_launch path row = record {
  path = path;
  launch_id = row.launch_id;
  effort = none;
  fast = none;
  reasoning_effort = none;
  agent = true;
}

abbrev named_default : String → Row → Ruling LaunchSpec
named_default path row = do
  effort ← key row.effort
  allowed (record (plain_launch path row) { effort = some effort; fast = row.fast })

unfoldable pub default_launch : String → Config → Ruling LaunchSpec
default_launch path cfg =
    if path == "cursor_grok_bot"
    then (do
      effort ← key cfg.cursor_grok_bot.default.effort
      fast ← key cfg.cursor_grok_bot.default.fast
      allowed (record (plain_launch path cfg.cursor_grok_bot.default) {
        effort = some effort;
        fast = some fast;
      }))
    else if path == "anthropic"
    then named_default path cfg.anthropic.default
    else if path == "openai"
    then named_default path cfg.openai.default
    else if path == "google"
    then named_default path cfg.google.default
    else if path == "direct_xai"
    then (do
      effort ← key cfg.direct_xai.default.reasoning_effort
      allowed (record (plain_launch path cfg.direct_xai.default) {
        reasoning_effort = some effort;
        fast = some (is_true cfg.direct_xai.default.fast);
      }))
    else denied "unknown harness path"

abbrev pub has_id : String → Option Row → Bool
has_id id none = false
has_id id (some row) = id == row.launch_id

unfoldable pub ungated_cursor_ids : Config → List String
ungated_cursor_ids cfg =
    cfg.cursor_grok_bot.default.launch_id
    ∷ map (λ (row : Row). row.launch_id) cfg.cursor_grok_bot.allowed_ungated

abbrev pub row_with_id : String → List Row → Ruling Row
row_with_id id [] = denied "unlisted Cursor model"
row_with_id id (row ∷ rows) = if row.launch_id == id then allowed row else row_with_id id rows

unfoldable pub ungated_cursor_row : Config → String → Ruling Row
ungated_cursor_row cfg id =
    if cfg.cursor_grok_bot.default.launch_id == id
    then allowed cfg.cursor_grok_bot.default
    else row_with_id id cfg.cursor_grok_bot.allowed_ungated

-- Whether the id is the default one, or the older one that is still pinned.
unfoldable pub is_anthropic_ungated : Config → String → Bool
is_anthropic_ungated cfg id =
    (id == cfg.anthropic.default.launch_id) || elim cfg.anthropic.default.legacy_pin [
      | none ↦ false
      | some pin ↦ not (is_blank pin) && (id == pin)
    ]

abbrev pub has_budget_cap : Option EscalationProof → Bool
has_budget_cap none = false
has_budget_cap (some p) = elim p.budget_cap [ none ↦ false | some cap ↦ not (is_blank cap) ]

unfoldable pub assert_anthropic_launch :
    ℕ → Option String → LaunchSpec → Option EscalationProof → Config → Ruling (Unit {0})
assert_anthropic_launch now scope spec proof cfg =
    if is_true spec.fast
    then denied "fast mode is unsupported for this Anthropic policy"
    else if is_anthropic_ungated cfg spec.launch_id
    then require (text_eq (named_effort spec) (some "medium"))
        "Sonnet default is medium effort, set explicitly" (allowed tt)
    else elim (lookup spec.launch_id cfg.anthropic.gated) [
      | none ↦ denied "cloud escalation default-deny: unlisted Anthropic model"
      | some row ↦
          require (token_covers now scope spec proof)
            "cloud escalation default-deny: escalation token required"
            (assert_gated_params spec row >>= λ _.
              require (not (is_one_of "budget_cap" row.requires) || has_budget_cap proof)
                "Fable requires a hard budget cap on the escalation approval" (allowed tt))
    ]

abbrev pub is_claude : String → Bool
is_claude id = starts_with (codes "claude-") (codes id)

-- `effort in (None, "medium")`
abbrev pub is_medium_or_none : Option String → Bool
is_medium_or_none none = true
is_medium_or_none (some e) = e == "medium"

unfoldable pub assert_cursor_launch :
    ℕ → Option String → LaunchSpec → Option EscalationProof → Config → Ruling (Unit {0})
assert_cursor_launch now scope spec proof cfg =
    if is_claude spec.launch_id
    then assert_anthropic_launch now scope spec proof cfg
    else if spec.launch_id == cfg.cursor_grok_bot.default.launch_id
    then assert_gated_params spec cfg.cursor_grok_bot.default
    else if is_true spec.fast
    then require ((spec.launch_id == "composer-2.5") && token_covers now scope spec proof)
        "fast mode requires an operator request plus a real escalation token" (allowed tt)
    else if not (is_medium_or_none (named_effort spec)) && not (token_covers now scope spec proof)
    then denied "non-medium effort requires an escalation token"
    else if is_one_of spec.launch_id (ungated_cursor_ids cfg)
    then (ungated_cursor_row cfg spec.launch_id >>= λ row. assert_gated_params spec row)
    else elim (lookup spec.launch_id cfg.cursor_grok_bot.gated) [
      | some row ↦
          require (token_covers now scope spec proof)
            "cloud escalation default-deny: escalation token required"
            (assert_gated_params spec row)
      | none ↦
          require (token_covers now scope spec proof)
            "cloud escalation default-deny: unlisted Cursor model" (allowed tt)
    ]

unfoldable pub assert_direct_xai_launch : LaunchSpec → Config → Ruling (Unit {0})
assert_direct_xai_launch spec cfg =
    let row = cfg.direct_xai.default in
    if not (spec.launch_id == row.launch_id)
    then denied "direct-xAI launch is default-deny without a listed default"
    else key row.reasoning_effort >>= λ effort.
        require (text_eq (named_effort spec) (some effort))
          "direct-xAI default is grok-4.7 with reasoning_effort medium"
          (require (not (is_true spec.fast)) "direct-xAI fast mode is refused here" (allowed tt))

-- `task_kind in (None, "planning", "execution")`
abbrev pub is_task_kind : Option String → Bool
is_task_kind none = true
is_task_kind (some k) = (k == "planning") || (k == "execution")

abbrev pub is_planning_kind : Option String → Bool
is_planning_kind kind = text_eq kind (some "planning")

abbrev pub provider_of : LaunchSpec → String
provider_of spec =
    if (spec.path == "cursor_grok_bot") && is_claude spec.launch_id then "anthropic" else spec.path

unfoldable pub policy_of : String → Config → Option Policy
policy_of provider cfg =
    if provider == "anthropic"
    then some cfg.anthropic
    else if provider == "openai"
    then some cfg.openai
    else if provider == "google"
    then some cfg.google
    else if provider == "cursor_grok_bot"
    then some cfg.cursor_grok_bot
    else if provider == "direct_xai"
    then some cfg.direct_xai
    else none

-- The row of the role that the model has: planning before controller.
abbrev pub role_row : String → Policy → Option Row
role_row id policy =
    if has_id id policy.planning
    then policy.planning
    else if has_id id policy.controller
    then policy.controller
    else none

abbrev pub assert_role : LaunchSpec → Row → Ruling (Unit {0})
assert_role spec row =
    require (effort_in (named_effort spec) (efforts_or row.effort row.allowed_efforts))
      "role requires an explicitly permitted effort"
      (assert_gated_params spec (record row { effort = named_effort spec }))

-- What the planner checks of a model, by its role, as a gated one, as the default, or as any launch.
unfoldable pub assert_listed :
    (LaunchSpec → Ruling (Unit {0})) → LaunchSpec → String → Policy → Ruling (Unit {0})
assert_listed check spec provider policy = elim (role_row spec.launch_id policy) [
  | some row ↦ assert_role spec row
  | none ↦ elim (lookup spec.launch_id policy.gated) [
    | some row ↦ assert_gated_params spec row
    | none ↦
        if (provider == "openai") || (provider == "google")
        then require (spec.launch_id == policy.default.launch_id) "unlisted role model"
            (assert_gated_params spec policy.default)
        else check spec
  ]
]

abbrev pub needs_approval : LaunchSpec → Option String → String → Policy → Bool
needs_approval spec kind mode policy =
    (mode == "ultracode")
    || (has_id spec.launch_id policy.planning && not (is_planning_kind kind))
    || (is_some (lookup spec.launch_id policy.gated) && not (has_id spec.launch_id policy.planning))

abbrev pub candidate_of : LaunchSpec → Option String → Policy → LaunchSpec
candidate_of spec kind policy =
    if has_id spec.launch_id policy.planning && not (is_planning_kind kind)
    then record spec { effort = some "medium"; reasoning_effort = none }
    else spec

unfoldable pub conclude :
    LaunchSpec → Option String → String → String → Policy → Config → Ruling LaunchPlan
conclude spec kind mode provider policy cfg =
    if not (needs_approval spec kind mode policy)
    then allowed (record {
      requested = spec;
      effective = spec;
      requires_human_approval = false;
      reason = if has_id spec.launch_id policy.planning then "planning" else "allowed";
      requested_mode = "standard";
      effective_mode = "standard";
      approval_candidate = none;
    })
    else default_launch provider cfg >>= λ fallback. allowed (record {
      requested = spec;
      effective = record fallback { path = spec.path };
      requires_human_approval = true;
      reason = "human_approval_required";
      requested_mode = mode;
      effective_mode = "standard";
      approval_candidate = some (candidate_of spec kind policy);
    })

-- `plan_launch`, with the call of `assert_launch_allowed` that it makes without a proof.
unfoldable pub plan_with :
    (LaunchSpec → Ruling (Unit {0}))
    → LaunchSpec
    → Option String
    → String
    → Config
    → Ruling LaunchPlan
plan_with check spec kind mode cfg = require (is_task_kind kind) "unsupported harness task kind" (
    require ((mode == "standard") || (mode == "ultracode")) "unsupported orchestration mode" (
      require_consistent_effort spec >>= λ _.
      require (not (is_one_of spec.launch_id cfg.banned_launch_ids)) "banned launch id"
        (elim (policy_of (provider_of spec) cfg) [
          | none ↦ denied "unknown harness path"
          | some policy ↦ assert_listed check spec (provider_of spec) policy >>= λ _.
              conclude spec kind mode (provider_of spec) policy cfg
        ])))

-- Whether the launch is left to the planner on the paths that reach Anthropic's models.
abbrev pub is_role_launch : LaunchSpec → Option String → Config → Bool
is_role_launch spec kind cfg =
    has_id spec.launch_id cfg.anthropic.controller
    || (has_id spec.launch_id cfg.anthropic.planning && is_planning_kind kind)

-- The checks of `assert_launch_allowed` by path.
unfoldable pub assert_path :
    (LaunchSpec → Option String → Ruling LaunchPlan)
    → ℕ
    → Option String
    → LaunchSpec
    → Option EscalationProof
    → Option String
    → Config
    → Ruling (Unit {0})
assert_path plan now scope spec proof kind cfg =
    if (spec.path == "openai") || (spec.path == "google")
    then (plan spec kind >>= λ p.
        require (not (p.requires_human_approval && not (token_covers now scope spec proof)))
          "cloud escalation default-deny: escalation token required" (allowed tt))
    else if ((spec.path == "anthropic") || (spec.path == "cursor_grok_bot"))
        && is_role_launch spec kind cfg
    then (plan spec kind >>= λ _. allowed tt)
    else if spec.path == "cursor_grok_bot"
    then assert_cursor_launch now scope spec proof cfg
    else if spec.path == "anthropic"
    then assert_anthropic_launch now scope spec proof cfg
    else if spec.path == "direct_xai"
    then assert_direct_xai_launch spec cfg
    else denied "unknown harness path"

-- `assert_launch_allowed`, with the call of `plan_launch` that it makes.
unfoldable pub assert_with :
    (LaunchSpec → Option String → Ruling LaunchPlan)
    → ℕ
    → Option String
    → LaunchSpec
    → Option EscalationProof
    → Option String
    → Config
    → Ruling (Unit {0})
assert_with plan now scope spec proof kind cfg =
    require (is_task_kind kind) "unsupported harness task kind" (
      require_consistent_effort spec >>= λ _.
      require (not (is_one_of spec.launch_id cfg.banned_launch_ids)) "banned launch id" (
        require (not (((spec.launch_id == "auto") || (spec.launch_id == "default")) && spec.agent))
          "auto is editor-only; never for agents"
          (require (not (is_some proof) || token_covers now scope spec proof)
            "cloud escalation default-deny: proof expired or model/effort/fast/path/scope mismatch"
            (assert_path plan now scope spec proof kind cfg))))

-- The two functions call each other; the first argument bounds how often they may.
unfoldable pub assert_launch_allowed :
    ℕ
    → ℕ
    → Option String
    → LaunchSpec
    → Option EscalationProof
    → Option String
    → Config
    → Ruling (Unit {0})
assert_launch_allowed zero now scope spec proof kind cfg = recursion_error
assert_launch_allowed (suc n) now scope spec proof kind cfg =
    assert_with
      (λ s k.
        plan_with (λ s'. assert_launch_allowed n now none s' none none cfg) s k "standard" cfg)
      now scope spec proof kind cfg

unfoldable pub plan_launch :
    ℕ → ℕ → LaunchSpec → Option String → String → Config → Ruling LaunchPlan
plan_launch n now spec kind mode cfg =
    plan_with (λ s. assert_launch_allowed n now none s none none cfg) spec kind mode cfg

-- `remaining` is `None` or a signed number.
abbrev is_exhausted : ℤ → Bool
is_exhausted (pos zero) = true
is_exhausted (pos (suc n)) = false
is_exhausted (negsuc n) = true

unfoldable pub evaluate_cost_gate : Bool → Option ℤ → Ruling (Unit {0})
evaluate_cost_gate cap_evaluable none = denied "cost gate fail-closed: cap cannot be evaluated"
evaluate_cost_gate cap_evaluable (some remaining) =
    require cap_evaluable "cost gate fail-closed: cap cannot be evaluated"
      (require (not (is_exhausted remaining)) "cost gate fail-closed: cap hit" (allowed tt))
