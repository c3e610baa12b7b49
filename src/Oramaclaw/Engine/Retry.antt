-- ===== src/Oramaclaw/Engine/Retry.antt =====
-- What the fallbacks of src/oramaclaw/engine.py lead to: the offline transport, and the plan after a stale
-- hash, which reads a registry that the first plan has already written.
use orama_system.Base.{
  ℕ, ◌+◌, String, ◌≡◌, ◌≢◌, refl, ◌∙◌, ap, Bool, true, false, [], ◌∷◌, arith, length, is_nonempty,
}
use orama_system.Oramaclaw.Json.{Value, value_eq, Fields, obj, is_empty, field, end, num}
use orama_system.Base.{pos}
use orama_system.Oramaclaw.Types.{failed, prepared, needs_input, Resource, ControlManifest}
use orama_system.Oramaclaw.Store.{
  ControlStore, sweep_orphan_pending, field_fingerprint, get_ownership, get_auto_weave_override,
  append_journal, clear_pending_for_transaction, archive_pending_records,
}
use orama_system.Base.{load_json}
use orama_system.Oramaclaw.Engine.Transport.{
  stale, unavailable, ok, raised, Gateway, GatewayConfig, Env, offline,
}
use orama_system.Oramaclaw.Pointer.{extract_field, spec_value, set_path}
use orama_system.Oramaclaw.Merge.{ActionKind, apply, FieldPlan, plan_field}
use orama_system.Oramaclaw.Merge.Policy.{escalates}
use orama_system.Oramaclaw.Merge.Drift.{recorded_then_drifts}
use orama_system.Oramaclaw.Engine.Single.{after_write, run_resource-apply, run_resource-conflict}
use orama_system.Oramaclaw.Engine.Walk.{Pass, write, run_resource, run_resources}
use orama_system.Oramaclaw.Engine.{
  determine_state, log, Ending, finish, first_apply, after_apply, second_apply, replan,
  plan_and_apply, after_offline_get, after_get, apply_locked, settle, apply_manifest, fresh_pass,
}

module _ (env : Env) (m : ControlManifest) where
  -- The walk of the fallback, over the document of the configuration file.
  abbrev pub offline_walk : ControlStore → Pass
  offline_walk s =
      let swept = (sweep_orphan_pending (env.iso_now 1) s).1 in
      let count = field "resource_count" (num (pos (length m.resources))) end in
      run_resources env (env.clock 0) (obj (load_json env.config_file end)) m.resources (
        fresh_pass env ("gateway unavailable; offline fallback engaged" ∷ []) 3
          (log env prepared [] [] [] count 2 swept))

  -- If the gateway cannot be read, then an apply that plans to write anything fails, and nothing is
  -- reported as applied.
  pub offline_apply_fails :
      (s : ControlStore) (why : String)
      → env.transport.config_get 0 ≡ raised (unavailable why)
      → is_empty (offline_walk s).patch ≡ false
      → let (result, _) = apply_manifest env m s in
        (result.state ≡ failed) × (result.applied ≡ []) × (result.auto_woven ≡ [])
  unfolding apply_manifest apply_locked after_get after_offline_get plan_and_apply first_apply
      offline after_apply settle
  offline_apply_fails s why e w = rw e (rw w (refl, refl, refl))

-- The planner reads the store through its registry alone.
plan_field-registry :
    (fp : Value → String) (r : Resource) (path : String) (live : Value) (s t : ControlStore)
    → s.registry ≡ t.registry
    → plan_field fp r path live s ≡ plan_field fp r path live t
unfolding plan_field field_fingerprint get_ownership get_auto_weave_override
plan_field-registry fp r path live s t e = rw e refl

registry-clear_pending :
    (tx stamp : String) (s : ControlStore)
    → (clear_pending_for_transaction tx stamp s).registry ≡ s.registry
unfolding clear_pending_for_transaction archive_pending_records
registry-clear_pending tx stamp s = ground arith

module _ (env : Env) (r : Resource) (path : String) (one : r.managed_paths ≡ path ∷ []) where
  module _ (started : ℕ) (base_hash : String) (live fresh : GatewayConfig) (p : Pass) where
    abbrev desired : Value
    desired = spec_value r.spec path

    -- What the first walk leaves when the gateway answers that the hash is stale.
    abbrev cleared : Pass → ControlStore
    cleared q = clear_pending_for_transaction env.transaction_id (env.iso_now q.reads) q.store

    replanned_kind :
        escalates env.fingerprint r ≡ true
        → value_eq desired (extract_field (obj fresh.configuration) path) ≡ false
        → env.fingerprint (extract_field (obj fresh.configuration) path) ≢ env.fingerprint desired
        → (plan_field env.fingerprint r path
            (obj fresh.configuration)
            (cleared (after_write env started (obj live.configuration) r path one p))).action.kind
          ≡ ActionKind.conflict
    unfolding write
    replanned_kind esc differs ne =
        let q = after_write env started (obj live.configuration) r path one p in
        ap (λ (f : FieldPlan). f.action.kind)
          (plan_field-registry env.fingerprint r path (obj fresh.configuration) (cleared q) q.store
            (registry-clear_pending env.transaction_id (env.iso_now q.reads) q.store))
        ∙ recorded_then_drifts env.fingerprint r path (obj fresh.configuration)
            (env.iso_now p.reads) p.store differs ne
        ∙ rw esc refl

    -- The result asks for input and reports nothing as applied.
    abbrev Asks : Ending env → Type 0
    Asks e =
        let (result, _) = settle env e in
        (result.state ≡ needs_input) × (result.applied ≡ []) × (result.auto_woven ≡ [])

    finish-Asks :
        (u : Bool) (q : Pass)
        → q.applied ≡ []
        → q.auto_woven ≡ []
        → is_nonempty q.conflicts ≡ true
        → Asks (finish env u q)
    unfolding finish settle determine_state
    finish-Asks u q a w c = rw (a, w, c) (refl, refl, refl)

    module _ (gateway : Gateway) (u : Bool) where
      abbrev m : ControlManifest
      m = record { resources = r ∷ [] }

      second_apply-Asks :
          (q : Pass)
          → q.patch ≡ end
          → q.applied ≡ []
          → q.auto_woven ≡ []
          → is_nonempty q.conflicts ≡ true
          → Asks (second_apply env m gateway started u fresh.base_hash q)
      unfolding second_apply
      second_apply-Asks q empty a w c = rw (ap is_empty empty) (finish-Asks u q a w c)

      stale_handler-Asks :
          (why : String)
          → gateway.config_get 1 ≡ ok fresh
          → escalates env.fingerprint r ≡ true
          → value_eq desired (extract_field (obj fresh.configuration) path) ≡ false
          → env.fingerprint (extract_field (obj fresh.configuration) path) ≢ env.fingerprint desired
          → Asks (
              after_apply env m gateway started u
                (raised (stale why))
                (after_write env started (obj live.configuration) r path one p))
      unfolding after_apply replan run_resources
      stale_handler-Asks why get esc differs ne =
          let q = after_write env started (obj live.configuration) r path one p in
          let p' = fresh_pass env q.warnings (q.reads + 1) (cleared q) in
          let w =
            run_resource-conflict env started (obj fresh.configuration) r path one p'
              (replanned_kind esc differs ne) in
          rw get (
            second_apply-Asks (run_resource env started (obj fresh.configuration) r p') w.0 w.1 w.2
              w.3)

registry-sweep :
    (stamp : String) (s : ControlStore) → (sweep_orphan_pending stamp s).1.registry ≡ s.registry
unfolding sweep_orphan_pending
registry-sweep stamp s = ground arith

-- A resource that must escalate its drift, with one field that is free to be written, and a fresh document in
-- which that field still differs from the desired value, in its value and in its fingerprint: if the gateway
-- calls the first write stale and then answers with this document, the apply ends by asking for input and
-- applies nothing. So it does even if the fresh document holds the same value as before, since the first walk
-- has already recorded the desired value.
pub stale_apply_asks :
    (env : Env) (r : Resource) (path why : String) (live fresh : GatewayConfig) (s : ControlStore)
    → r.managed_paths ≡ path ∷ []
    → env.transport.config_get 0 ≡ ok live
    → env.transport.config_get 1 ≡ ok fresh
    → ((patch : Fields) (h : String) → env.transport.config_apply 0 patch h ≡ raised (stale why))
    → is_empty (set_path end path (spec_value r.spec path)) ≡ false
    → escalates env.fingerprint r ≡ true
    → (plan_field env.fingerprint r path (obj live.configuration) s).action.kind ≡ apply
    → value_eq (spec_value r.spec path) (extract_field (obj fresh.configuration) path) ≡ false
    → env.fingerprint (extract_field (obj fresh.configuration) path)
      ≢ env.fingerprint (spec_value r.spec path)
    → let (result, _) = apply_manifest env (record { resources = r ∷ [] }) s in
      (result.state ≡ needs_input) × (result.applied ≡ []) × (result.auto_woven ≡ [])
unfolding apply_manifest apply_locked after_get plan_and_apply first_apply run_resources log
    append_journal write
stale_apply_asks env r path why live fresh s one get get' refused written esc free differs ne =
    let swept = (sweep_orphan_pending (env.iso_now 1) s).1 in
    let p0 =
      fresh_pass env [] 3
        (log env prepared [] [] [] (field "resource_count" (num (pos 1)) end) 2 swept) in
    let first = run_resource-apply env (env.clock 0) (obj live.configuration) r path one p0 (
      ap (λ (f : FieldPlan). f.action.kind)
        (plan_field-registry env.fingerprint r path (obj live.configuration) p0.store s
          (registry-sweep (env.iso_now 1) s))
      ∙ free) in
    rw get (
      rw first (
        rw written (
          rw (refused _ _) (
            stale_handler-Asks env r path one (env.clock 0) "" live fresh p0 env.transport false why
              get' esc differs ne))))
