-- ===== src/Oramaclaw/Merge/Drift.antt =====
-- What a recorded write does to the next plan of the same field in src/oramaclaw/merge.py.
use orama_system.Base.{
  String, ◌≡◌, ◌≢◌, refl, ◌∙◌, false, inl, inr, none, some, arith, if◌then◌else◌, ◌==◌, eq_iff,
  eq_refl, Bool-cases,
}
use orama_system.Oramaclaw.Json.{Value, value_eq}
use orama_system.Oramaclaw.Pointer.{extract_field, spec_value}
use orama_system.Oramaclaw.Types.{Resource}
use orama_system.Oramaclaw.Store.{
  ControlStore, field_fingerprint, get_auto_weave_override, record_ownership, entry_key,
}
use orama_system.Oramaclaw.Store.Registry.{
  field_fingerprint-record_ownership, override-record_ownership,
}
use orama_system.Oramaclaw.Merge.Policy.{escalates}
use orama_system.Oramaclaw.Merge.{
  ActionKind, apply, auto_weave, plan_field, plan_changed, plan_drift, resource_key_of, quiet,
}

module _ (fingerprint : Value → String) (r : Resource) (path : String) where
  -- The store after the engine has recorded `v` for the field.
  abbrev pub recorded : Value → String → ControlStore → ControlStore
  recorded v stamp s = record_ownership fingerprint r.manager (resource_key_of r) path v stamp s

  field_fingerprint-recorded :
      (v : Value) (stamp : String) (s : ControlStore)
      → field_fingerprint (resource_key_of r) path (recorded v stamp s) ≡ some (fingerprint v)
  field_fingerprint-recorded v stamp s =
      let k = entry_key (resource_key_of r) path in
      field_fingerprint-record_ownership fingerprint r.manager (resource_key_of r) path v stamp
        (resource_key_of r) path s
      ∙ rw (eq_refl k) refl

  -- After a field was auto-woven to its live value, the next plan against the same live document writes the
  -- desired value over that value.
  pub woven_then_overwritten :
      (live : Value) (stamp : String) (s : ControlStore)
      → value_eq (spec_value r.spec path) (extract_field live path) ≡ false
      → plan_field fingerprint r path live (recorded (extract_field live path) stamp s)
        ≡ quiet fingerprint r path apply
            (spec_value r.spec path)
            (fingerprint (spec_value r.spec path))
  unfolding plan_field plan_changed
  woven_then_overwritten live stamp s differs =
      rw
        (
          differs,
          field_fingerprint-recorded (extract_field live path) stamp s,
          eq_refl (fingerprint (extract_field live path)),
        )
        refl

  override-recorded :
      (v : Value) (stamp : String) (s : ControlStore)
      → get_auto_weave_override (resource_key_of r) path (recorded v stamp s) ≡ none
  override-recorded v stamp s =
      let k = entry_key (resource_key_of r) path in
      override-record_ownership fingerprint r.manager (resource_key_of r) path v stamp
        (resource_key_of r) path s
      ∙ rw (eq_refl k) refl

  fingerprints_differ : (a b : String) → a ≢ b → (a == b) ≡ false
  fingerprints_differ a b ne = elim (Bool-cases (a == b)) [
    | inl same ↦ absurd (ne ((eq_iff a b).0 same))
    | inr differs ↦ differs
  ]

  -- How the planner answers a drift with no override.
  abbrev pub drift_kind : ActionKind
  drift_kind = if escalates fingerprint r then ActionKind.conflict else auto_weave

  plan_drift-kind :
      (base : String) (desired observed : Value)
      → (plan_drift fingerprint r path base desired observed none).action.kind ≡ drift_kind
  unfolding plan_drift
  plan_drift-kind base desired observed = ground arith

  -- Once the engine has recorded a desired value that never reached the live document, the field is never
  -- written again while the two differ: the next plan escalates it, or weaves the old live value.
  pub recorded_then_drifts :
      (live : Value) (stamp : String) (s : ControlStore)
      → value_eq (spec_value r.spec path) (extract_field live path) ≡ false
      → fingerprint (extract_field live path) ≢ fingerprint (spec_value r.spec path)
      → (plan_field fingerprint r path live (recorded (spec_value r.spec path) stamp s)).action.kind
        ≡ drift_kind
  unfolding plan_field plan_changed
  recorded_then_drifts live stamp s differs ne =
      rw
        (
          differs,
          field_fingerprint-recorded (spec_value r.spec path) stamp s,
          override-recorded (spec_value r.spec path) stamp s,
          fingerprints_differ _ _ ne,
        )
        (plan_drift-kind _ _ _)
