-- ===== src/Oramaclaw/Merge/Policy.antt =====
-- When the planner of src/oramaclaw/merge.py may weave, write or escalate.
use orama_system.Base.{
  String, ◌≡◌, refl, ◌∙◌, Bool, true, false, not, ◌||◌, inl, inr, Option, none, some, List, [], ◌∷◌,
  arith, Bool-cases, append-nil, ◌↔◌, eq_iff,
}
use orama_system.Oramaclaw.Json.{Value, value_eq}
use orama_system.Oramaclaw.Pointer.{extract_field, spec_value}
use orama_system.Oramaclaw.Types.{Resource}
use orama_system.Oramaclaw.Store.{
  ControlStore, Override, field_fingerprint, get_auto_weave_override,
}
use orama_system.Oramaclaw.Merge.{
  ActionKind, apply, MergePlan, plan_field, plan_changed, plan_drift, plan_paths, plan_resource,
  resource_key_of, is_security_kind, is_cooperative,
}

module _ (fingerprint : Value → String) where
  -- Whether a resource is one whose drift must go to an operator.
  abbrev pub escalates : Resource → Bool
  escalates r = is_security_kind r.kind || not (is_cooperative r.policy)

  plan_field-never_weaves :
      (r : Resource) (path : String) (live : Value) (s : ControlStore)
      → escalates r ≡ true
      → (plan_field fingerprint r path live s).auto_woven ≡ []
  unfolding plan_field plan_changed plan_drift
  plan_field-never_weaves r path live s h = ground arith

  plan_paths-never_weaves :
      (r : Resource) (ps : List String) (live : Value) (s : ControlStore) (plan : MergePlan)
      → escalates r ≡ true
      → (plan_paths fingerprint r ps live s plan).auto_woven ≡ plan.auto_woven
  unfolding plan_paths
  plan_paths-never_weaves r [] live s plan h = refl
  plan_paths-never_weaves r (p ∷ ps) live s plan h =
      plan_paths-never_weaves r ps live s _ h
      ∙ rw (plan_field-never_weaves r p live s h) (append-nil _)

  -- Resources of the security topology, and all whose policy is not cooperative, are never auto-woven.
  pub plan_resource-never_weaves :
      (r : Resource) (live : Value) (s : ControlStore)
      → escalates r ≡ true
      → (plan_resource fingerprint r live s).auto_woven ≡ []
  unfolding plan_resource
  plan_resource-never_weaves r live s h = plan_paths-never_weaves r r.managed_paths live s _ h

  module _ (r : Resource) (path : String) (live : Value) (s : ControlStore) where
    abbrev desired : Value
    desired = spec_value r.spec path

    abbrev observed : Value
    observed = extract_field live path

    abbrev base : Option String
    base = field_fingerprint (resource_key_of r) path s

    abbrev kind_of_plan : ActionKind
    kind_of_plan = (plan_field fingerprint r path live s).action.kind

    -- The manager has recorded nothing for the field, or what it recorded is the live value.
    abbrev pub IsClean : Option String → Type 0
    IsClean none = Unit
    IsClean (some fp) = fingerprint observed ≡ fp

    plan_changed-apply :
        (b : Option String) (o : Option Override)
        → ((plan_changed fingerprint r path b desired observed o).action.kind ≡ apply) ↔ IsClean b
    unfolding plan_changed plan_drift
    plan_changed-apply none o = (λ h. tt, λ h. refl)
    plan_changed-apply (some fp) o =
        (λ h. ground (arith, eq_iff (fingerprint observed) fp), λ h. rw ((eq_iff _ fp).1 h) refl)

    -- A desired value is planned to be written exactly when it differs from the live value and the field
    -- is unclaimed or still holds what was last recorded for it: drift is never overwritten.
    pub apply_iff : (kind_of_plan ≡ apply) ↔ ((value_eq desired observed ≡ false) × IsClean base)
    unfolding plan_field
    apply_iff =
        let changed =
          plan_changed-apply base (get_auto_weave_override (resource_key_of r) path s) in
        elim (Bool-cases (value_eq desired observed)) [
          | inl same ↦ (λ h. cc (rw (same, kind_of_plan) at h), λ h. cc (h.0, same))
          | inr differs ↦ (
            λ h. (differs, changed.0 (rw (differs, kind_of_plan) at h)),
            λ h. rw (differs, kind_of_plan) (changed.1 h.1),
          )
        ]
