-- ===== src/Oramaclaw/Tests/Engine.antt =====
-- Runs of an apply of src/oramaclaw/engine.py.
use orama_system.Base.{◌≡◌, refl, false, some, [], ◌∷◌}
use orama_system.Oramaclaw.Json.{text, obj, end, value_eq, get_field, put_field, is_empty}
use orama_system.Oramaclaw.Pointer.{
  extract_field, spec_value, set_path, set_parts, unescape, walk, step, tokens_of, leaf_of,
}
use orama_system.Oramaclaw.Types.{strict, needs_input}
use orama_system.Oramaclaw.Store.{
  last_transaction, field_fingerprint, get_ownership, get_auto_weave_override, sweep_orphan_pending,
  append_journal, record_ownership,
}
use orama_system.Oramaclaw.Merge.{
  ActionKind, apply, plan_field, plan_resource, plan_paths, plan_changed, plan_drift,
  resource_key_of,
}
use orama_system.Oramaclaw.Merge.Drift.{recorded}
use orama_system.Oramaclaw.Engine.Transport.{unavailable, stale, ok, raised}
use orama_system.Oramaclaw.Engine.Walk.{
  Pass, run_resource, run_resources, run_actions, run_action, write, run_conflicts, finish_resource,
}
use orama_system.Oramaclaw.Engine.{apply_manifest, fresh_pass, log}
use orama_system.Oramaclaw.Engine.Staged.{AllStaged, apply_manifest-AllStaged}
use orama_system.Oramaclaw.Engine.Outcome.{summarised, of_result, IsTrue, apply_manifest-IsLogged}
use orama_system.Oramaclaw.Engine.Reported.{first_walk, Reports, first_write-Reports}
use orama_system.Oramaclaw.Engine.Unwoven.{apply_manifest-never_weaves}
use orama_system.Oramaclaw.Engine.Retry.{offline_walk, stale_apply_asks}
use orama_system.Oramaclaw.Tests.Data.{
  print_of, empty_store, mixed_store, model_field, live_fields, live_config, answering, gone,
  env_of, manifest_of,
}
use orama_system.Oramaclaw.Tests.Plans.{values_differ, prints_differ}

apply_manifest-AllStaged_example :
    let (result, s') =
      apply_manifest (env_of (answering (ok tt))) (manifest_of strict) mixed_store in
    AllStaged result.conflicts s'
apply_manifest-AllStaged_example =
    apply_manifest-AllStaged (env_of (answering (ok tt))) (manifest_of strict) mixed_store

apply_manifest-IsLogged_example :
    let (result, s') = apply_manifest (env_of gone) (manifest_of strict) mixed_store in
    summarised (last_transaction s') ≡ some (of_result result)
apply_manifest-IsLogged_example =
    apply_manifest-IsLogged (env_of gone) (manifest_of strict) mixed_store

apply_manifest-never_weaves_example :
    (apply_manifest
      (env_of (answering (raised (stale "moved"))))
      (manifest_of strict)
      mixed_store).0.auto_woven
    ≡ []
apply_manifest-never_weaves_example =
    apply_manifest-never_weaves (env_of (answering (raised (stale "moved")))) (manifest_of strict)
      mixed_store refl

-- The new value is planned to be written over the old one.
planned_write :
    (plan_field print_of (model_field strict) "/model" (obj live_fields) empty_store).action.kind
    ≡ apply
unfolding plan_field plan_changed value_eq spec_value extract_field walk step tokens_of leaf_of
    unescape get_field field_fingerprint get_ownership get_auto_weave_override
planned_write = refl

patch_written :
    is_empty (set_path end "/model" (spec_value (model_field strict).spec "/model")) ≡ false
unfolding set_path set_parts put_field
patch_written = refl

stale_apply_asks_example :
    let (result, _) =
      apply_manifest
        (env_of (answering (raised (stale "moved"))))
        (record { resources = model_field strict ∷ [] })
        empty_store in
    (result.state ≡ needs_input) × (result.applied ≡ []) × (result.auto_woven ≡ [])
stale_apply_asks_example =
    stale_apply_asks (env_of (answering (raised (stale "moved")))) (model_field strict) "/model"
      "moved" live_config live_config empty_store refl refl refl (λ patch h. refl) patch_written
      refl planned_write values_differ prints_differ

first_write_written :
    is_empty
      (first_walk
        (env_of (answering (raised (unavailable "down"))))
        (manifest_of strict)
        empty_store
        live_config).patch
    ≡ false
unfolding run_resources run_resource run_actions run_action write run_conflicts finish_resource
    plan_resource plan_paths plan_field plan_changed value_eq spec_value extract_field walk step
    tokens_of leaf_of unescape get_field field_fingerprint get_ownership get_auto_weave_override
    sweep_orphan_pending log append_journal set_path set_parts put_field
first_write_written = refl

first_write-Reports_example :
    let env = env_of (answering (raised (unavailable "down"))) in
    let m = manifest_of strict in
    Reports env m
      (raised (unavailable "down"))
      (first_walk env m empty_store live_config)
      (apply_manifest env m empty_store).0
    × IsTrue (apply_manifest env m empty_store).0
first_write-Reports_example =
    first_write-Reports (env_of (answering (raised (unavailable "down")))) (manifest_of strict)
      empty_store live_config refl first_write_written

offline_writes :
    is_empty (offline_walk (env_of gone) (manifest_of strict) empty_store).patch ≡ false
unfolding run_resources run_resource run_actions run_action write run_conflicts finish_resource
    plan_resource plan_paths plan_field plan_changed value_eq spec_value extract_field walk step
    tokens_of leaf_of unescape get_field field_fingerprint get_ownership get_auto_weave_override
    sweep_orphan_pending log append_journal set_path set_parts put_field
offline_writes = refl

-- A pass whose store has recorded another value than the live one for the field.
abbrev drifted : Pass
drifted =
    fresh_pass (env_of gone) [] 0
      (recorded print_of (model_field strict) "/model" (text "base") "then" empty_store)

drift_planned :
    (plan_field print_of (model_field strict) "/model" (obj live_fields) drifted.store).action.kind
    ≡ ActionKind.conflict
unfolding plan_field plan_changed plan_drift value_eq spec_value extract_field walk step tokens_of
    leaf_of unescape get_field field_fingerprint get_ownership get_auto_weave_override
    record_ownership resource_key_of
drift_planned = refl
