-- ===== src/Oramaclaw/Merge.antt =====
-- src/oramaclaw/merge.py: the three-way merge planner. `fingerprint` stands for `_fingerprint` of
-- src/oramaclaw/store.py, the SHA-256 of the canonical JSON text.
pub mod Shape
pub mod Policy
pub mod Drift
use orama_system.Base.{
  String, Bool, true, false, not, ◌&&◌, ◌||◌, Option, none, some, List, [], ◌∷◌, ◌++◌,
  if◌then◌else◌, ◌==◌, concat, prefix,
}
use orama_system.Oramaclaw.Json.{Value, null, value_eq}
use orama_system.Oramaclaw.Pointer.{extract_field, spec_value}
use orama_system.Oramaclaw.Types.{
  ResourceKind, delegation, execution_policy, MergePolicy, strict, cooperative, kind_value,
  Resource, Conflict,
}
use orama_system.Oramaclaw.Store.{
  ControlStore, Override, field_fingerprint, get_auto_weave_override,
}

pub data ActionKind : Type 0 where
  apply skip auto_weave conflict : ActionKind

-- `desired_value` is `None` for a skip or a conflict.
pub record FieldAction : Type 0 where
  pub managed_path : String
  pub kind : ActionKind
  pub desired_value : Value
  pub fingerprint : String

pub record MergePlan : Type 0 where
  pub resource_key : String
  pub actions : List FieldAction
  pub conflicts : List Conflict
  pub auto_woven : List String

-- `_SECURITY_KINDS`
abbrev pub is_security_kind : ResourceKind → Bool
is_security_kind delegation = true
is_security_kind execution_policy = true
is_security_kind _ = false

abbrev pub conflict_choices : List String
conflict_choices = "apply-desired" ∷ "keep-current" ∷ "show-diff" ∷ []

-- `f"{rkey}{managed_path}#{desired_fp[:12]}"`
unfoldable pub resolution_id_of : String → String → String → String
resolution_id_of rkey managed_path fp =
    concat rkey (concat managed_path (concat "#" (prefix 12 fp)))

unfoldable pub resource_key_of : Resource → String
resource_key_of r = concat (kind_value r.kind) (concat ":" r.identifier)

-- `_conflict`
unfoldable pub make_conflict :
    String → Resource → String → String → String → String → Bool → Conflict
make_conflict rkey resource managed_path base_fp observed_fp desired_fp security = record {
  resource_key = rkey;
  manager = resource.manager;
  managed_path = managed_path;
  base_fingerprint = some base_fp;
  observed_fingerprint = some observed_fp;
  desired_fingerprint = desired_fp;
  security_topology = security;
  choices = conflict_choices;
  resolution_id = resolution_id_of rkey managed_path desired_fp;
}

abbrev pub is_strict : MergePolicy → Bool
is_strict strict = true
is_strict _ = false

abbrev pub is_conflict_policy : MergePolicy → Bool
is_conflict_policy MergePolicy.conflict = true
is_conflict_policy _ = false

abbrev pub is_cooperative : MergePolicy → Bool
is_cooperative cooperative = true
is_cooperative _ = false

-- What one round of the loop of `plan_resource` appends to its three lists.
pub record FieldPlan : Type 0 where
  pub action : FieldAction
  pub conflicts : List Conflict
  pub auto_woven : List String

module _ (fingerprint : Value → String) (resource : Resource) (path : String) where
  abbrev pub quiet : ActionKind → Value → String → FieldPlan
  quiet kind value fp = record {
    action = record { managed_path = path; kind = kind; desired_value = value; fingerprint = fp };
    conflicts = [];
    auto_woven = [];
  }

  -- A conflict appends to `conflicts` and to `actions`.
  abbrev pub clash : String → String → String → Bool → FieldPlan
  clash base_fp observed_fp desired_fp security = record {
    action = record {
      managed_path = path;
      kind = ActionKind.conflict;
      desired_value = null;
      fingerprint = desired_fp;
    };
    conflicts =
        make_conflict (resource_key_of resource) resource path base_fp observed_fp desired_fp
          security
        ∷ [];
    auto_woven = [];
  }

  abbrev pub weave : Value → String → FieldPlan
  weave observed observed_fp = record {
    action = record {
      managed_path = path;
      kind = auto_weave;
      desired_value = observed;
      fingerprint = observed_fp;
    };
    conflicts = [];
    auto_woven = path ∷ [];
  }

  -- Rule 6: an override counts if it was recorded for this desired value.
  unfoldable pub plan_cooperative : String → Value → Value → Option Override → FieldPlan
  plan_cooperative base_fp desired observed none = weave observed (fingerprint observed)
  plan_cooperative base_fp desired observed (some o) =
      if o.source_field_fingerprint == fingerprint desired
      then (if value_eq o.observed_value observed
          then quiet skip null (fingerprint desired)
          else clash base_fp (fingerprint observed) (fingerprint desired) false)
      else weave observed (fingerprint observed)

  -- Rules 4 to 7: the field has drifted from its recorded base.
  unfoldable pub plan_drift : String → Value → Value → Option Override → FieldPlan
  unfolding plan_cooperative
  plan_drift base_fp desired observed override =
      if is_strict resource.policy
      then clash base_fp (fingerprint observed) (fingerprint desired) false
      else if is_security_kind resource.kind || is_conflict_policy resource.policy
      then clash base_fp (fingerprint observed) (fingerprint desired)
          (is_security_kind resource.kind)
      else if is_cooperative resource.policy
      then plan_cooperative base_fp desired observed override
      else clash base_fp (fingerprint observed) (fingerprint desired)
          (is_security_kind resource.kind)

  -- Rules 2 and 3.
  unfoldable pub plan_changed : Option String → Value → Value → Option Override → FieldPlan
  plan_changed none desired observed override = quiet apply desired (fingerprint desired)
  plan_changed (some base_fp) desired observed override =
      if fingerprint observed == base_fp
      then quiet apply desired (fingerprint desired)
      else plan_drift base_fp desired observed override

  -- One round of the loop; rule 1 comes first.
  unfoldable pub plan_field : Value → ControlStore → FieldPlan
  plan_field live_config store =
      let desired = spec_value resource.spec path in
      let observed = extract_field live_config path in
      let rkey = resource_key_of resource in
      if value_eq desired observed
      then quiet skip null (fingerprint desired)
      else plan_changed (field_fingerprint rkey path store) desired observed
          (get_auto_weave_override rkey path store)

module _ (fingerprint : Value → String) where
  -- The loop over the managed paths.
  unfoldable pub plan_paths : Resource → List String → Value → ControlStore → MergePlan → MergePlan
  plan_paths resource [] live_config store plan = plan
  plan_paths resource (path ∷ paths) live_config store plan =
      let f = plan_field fingerprint resource path live_config store in
      plan_paths resource paths live_config store (record plan {
        actions = plan.actions ++ f.action ∷ [];
        conflicts = plan.conflicts ++ f.conflicts;
        auto_woven = plan.auto_woven ++ f.auto_woven;
      })

  unfoldable pub plan_resource : Resource → Value → ControlStore → MergePlan
  unfolding plan_paths
  plan_resource resource live_config store =
      plan_paths resource resource.managed_paths live_config store (record {
        resource_key = resource_key_of resource;
        actions = [];
        conflicts = [];
        auto_woven = [];
      })
