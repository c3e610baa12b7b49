-- ===== src/Oramaclaw/Engine/Walk.antt =====
-- Step 4 of `_apply_locked` in src/oramaclaw/engine.py, one walk over the resources. The stale handler
-- repeats the same code, so one definition serves both.
use orama_system.Base.{
  ℕ, ◌+◌, ◌-◌, String, Bool, true, false, List, [], ◌∷◌, ◌++◌, none, any, ltb, if◌then◌else◌,
  concat,
}
use orama_system.Oramaclaw.Json.{Value, Fields}
use orama_system.Oramaclaw.Pointer.{set_path}
use orama_system.Oramaclaw.Types.{Conflict, conflict_eq, Resource}
use orama_system.Oramaclaw.Store.{ControlStore, record_ownership, add_pending}
use orama_system.Oramaclaw.Merge.{
  ActionKind, apply, skip, auto_weave, FieldAction, conflict_choices, resolution_id_of,
  plan_resource,
}
use orama_system.Oramaclaw.Engine.Transport.{Env}

-- `COOPERATIVE_TIMEOUT_SECONDS`, in milliseconds.
abbrev pub cooperative_timeout : ℕ
cooperative_timeout = 90000

-- The variables of the loop; `touched` is `applied_this_resource`.
pub record Pass : Type 0 where
  pub store : ControlStore
  pub reads : ℕ
  pub patch : Fields
  pub applied : List String
  pub auto_woven : List String
  pub conflicts : List Conflict
  pub warnings : List String
  pub touched : Bool

-- `_conflict_from_action`
unfoldable pub conflict_from_action : String → String → FieldAction → Conflict
conflict_from_action resource_key manager action = record {
  resource_key = resource_key;
  manager = manager;
  managed_path = action.managed_path;
  base_fingerprint = none;
  observed_fingerprint = none;
  desired_fingerprint = action.fingerprint;
  security_topology = false;
  choices = conflict_choices;
  resolution_id = resolution_id_of resource_key action.managed_path action.fingerprint;
}

module _ (env : Env) where
  -- `conflicts.append(conflict)` and `store.add_pending(PendingResolution(…))`
  unfoldable pub report : Conflict → Pass → Pass
  report c p = record p {
    conflicts = p.conflicts ++ c ∷ [];
    store =
        add_pending
          (record {
            resolution_id = c.resolution_id;
            conflict = c;
            transaction_id = env.transaction_id;
            created_at = env.iso_now p.reads;
            resolved_at = none;
            chosen = none;
          })
          p.store;
    reads = p.reads + 1;
  }

  -- `_set_path` into the patch, and `store.record_ownership`.
  unfoldable pub write : Resource → String → FieldAction → Pass → Pass
  write r key action p = record p {
    patch = set_path p.patch action.managed_path action.desired_value;
    store =
        record_ownership env.fingerprint r.manager key action.managed_path action.desired_value
          (env.iso_now p.reads) p.store;
    reads = p.reads + 1;
    touched = true;
  }

  -- An auto-weave action, after the reading of the clock: past the budget it becomes a conflict.
  unfoldable pub run_weave : ℕ → Resource → String → FieldAction → Pass → Pass
  unfolding report write
  run_weave started r key action p =
      if ltb cooperative_timeout (env.clock p.reads - started)
      then (let q =
            report (conflict_from_action key r.manager action) (record p { reads = p.reads + 1 }) in
          record q {
            warnings =
                q.warnings
                ++ concat "auto-weave downgraded to conflict (>90s): "
                    (concat key action.managed_path)
                  ∷ [];
          })
      else (let q = write r key action (record p { reads = p.reads + 1 }) in
          record q { auto_woven = q.auto_woven ++ concat key action.managed_path ∷ [] })

  -- The branches on `action.kind`.
  unfoldable pub run_kind : ActionKind → ℕ → Resource → String → FieldAction → Pass → Pass
  run_kind apply started r key action p = write r key action p
  run_kind auto_weave started r key action p = run_weave started r key action p
  run_kind ActionKind.conflict started r key action p =
      report (conflict_from_action key r.manager action) p
  run_kind skip started r key action p = p

  -- One round of the loop over the actions of a plan.
  unfoldable pub run_action : ℕ → Resource → String → FieldAction → Pass → Pass
  unfolding run_kind
  run_action started r key action p = run_kind action.kind started r key action p

  unfoldable pub run_actions : ℕ → Resource → String → List FieldAction → Pass → Pass
  run_actions started r key [] p = p
  run_actions started r key (a ∷ as_) p =
      run_actions started r key as_ (run_action started r key a p)

  -- `for conflict in plan.conflicts: if conflict not in conflicts: …`
  unfoldable pub run_conflicts : List Conflict → Pass → Pass
  run_conflicts [] p = p
  run_conflicts (c ∷ cs) p =
      run_conflicts cs (if any (conflict_eq c) p.conflicts then p else report c p)

  unfoldable pub finish_resource : String → Pass → Pass
  finish_resource key p = if p.touched then record p { applied = p.applied ++ key ∷ [] } else p

  unfoldable pub run_resource : ℕ → Value → Resource → Pass → Pass
  unfolding finish_resource
  run_resource started live_config r p =
      let plan = plan_resource env.fingerprint r live_config p.store in
      finish_resource plan.resource_key (
        run_conflicts plan.conflicts
          (run_actions started r plan.resource_key plan.actions (record p { touched = false })))

  unfoldable pub run_resources : ℕ → Value → List Resource → Pass → Pass
  run_resources started live_config [] p = p
  run_resources started live_config (r ∷ rs) p =
      run_resources started live_config rs (run_resource started live_config r p)
