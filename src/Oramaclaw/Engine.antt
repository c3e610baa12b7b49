-- ===== src/Oramaclaw/Engine.antt =====
-- src/oramaclaw/engine.py: one apply transaction, under the lock of the target (Oramaclaw/Lock.antt).
-- The gateway, the clock, the time stamps and the hash are the fields of `Env`.
pub mod Transport
pub mod Walk
pub mod Rule
pub mod Staged
pub mod Outcome
pub mod Reported
pub mod Single
pub mod Retry
pub mod Unwoven
use orama_system.Base.{
  ℕ, zero, suc, ◌+◌, String, Bool, true, false, ◌||◌, ◌&&◌, not, List, [], ◌∷◌, ◌++◌, map, some,
  is_nonempty, length, if◌then◌else◌, concat,
}
use orama_system.Oramaclaw.Json.{Value, Fields, field, end, is_empty, num, text, obj}
use orama_system.Base.{pos}
use orama_system.Oramaclaw.Types.{
  Conflict, TxState, prepared, applied_unverified, committed, auto_woven, conflicted, needs_input,
  gateway_unavailable, failed, ControlResult, ControlManifest,
}
use orama_system.Oramaclaw.Store.{
  ControlStore, JournalRecord, append_journal, clear_pending_for_transaction, sweep_orphan_pending,
}
use orama_system.Oramaclaw.Engine.Transport.{
  Failure, stale, unavailable, other, message, Reply, ok, raised, GatewayConfig, Gateway, Env,
  offline,
}
use orama_system.Oramaclaw.Engine.Walk.{Pass, run_resources}

-- `_determine_state`
unfoldable pub determine_state : List String → List String → List Conflict → Bool → TxState
determine_state applied_keys woven conflicts unreachable =
    let any_progress = is_nonempty applied_keys || is_nonempty woven in
    if is_nonempty conflicts
    then (if any_progress then conflicted else needs_input)
    else if unreachable && not any_progress
    then gateway_unavailable
    else if is_nonempty woven
    then auto_woven
    else if is_nonempty applied_keys
    then committed
    else committed

abbrev pub conflict_id : Conflict → String
conflict_id c = c.resolution_id

module _ (env : Env) where
  -- `store.append_journal(transaction_id, …)`
  unfoldable pub log :
      TxState → List String → List String → List String → Fields → ℕ → ControlStore → ControlStore
  log state applied woven conflicts extra reads s =
      append_journal
        (record {
          transaction_id = env.transaction_id;
          state = state;
          applied = applied;
          auto_woven = woven;
          conflicts = conflicts;
          timestamp = env.iso_now reads;
          extra = extra;
        })
        s

  -- How `_apply_locked` ends: its result or the exception, the number of readings, and the store.
  pub record Ending : Type 0 where
    pub reply : Reply ControlResult
    pub reads : ℕ
    pub store : ControlStore

  abbrev pub raise : Failure → ℕ → ControlStore → Ending
  raise f reads s = record { reply = raised f; reads = reads; store = s }

  -- Step 7: the final state, its journal record and the result.
  unfoldable pub finish : Bool → Pass → Ending
  unfolding log
  finish unreachable p =
      let state = determine_state p.applied p.auto_woven p.conflicts unreachable in
      record {
        reply = ok (record {
          transaction_id = env.transaction_id;
          state = state;
          applied = p.applied;
          auto_woven = p.auto_woven;
          conflicts = p.conflicts;
          warnings = p.warnings;
        });
        reads = p.reads + 1;
        store = log state p.applied p.auto_woven (map conflict_id p.conflicts) end p.reads p.store;
      }

  abbrev pub fresh_pass : List String → ℕ → ControlStore → Pass
  fresh_pass warnings reads s = record {
    store = s;
    reads = reads;
    patch = end;
    applied = [];
    auto_woven = [];
    conflicts = [];
    warnings = warnings;
    touched = false;
  }

  module _ (manifest : ControlManifest) (gateway : Gateway) (started : ℕ) (unreachable : Bool) where
    -- The end of the stale handler: an exception of the second call is not caught here.
    unfoldable pub after_second_apply : Reply (Unit {0}) → Pass → Ending
    after_second_apply (ok _) p = finish unreachable p
    after_second_apply (raised f) p = raise f p.reads p.store

    unfoldable pub second_apply : String → Pass → Ending
    second_apply base_hash p =
        if is_empty p.patch
        then finish unreachable p
        else after_second_apply (gateway.config_apply 1 p.patch base_hash) p

    -- The stale handler: the transaction's pending records are dropped, and all is planned again.
    unfoldable pub replan : Reply GatewayConfig → List String → ℕ → ControlStore → Ending
    replan (raised f) warnings reads s = raise f reads s
    replan (ok fresh) warnings reads s = second_apply fresh.base_hash (
        run_resources env started (obj fresh.configuration) manifest.resources
          (fresh_pass warnings reads s))

    -- Step 5, after the first `gateway_config_apply`, and step 6.
    unfoldable pub after_apply : Reply (Unit {0}) → Pass → Ending
    unfolding log
    after_apply (ok _) p = finish unreachable (record p {
      store = log applied_unverified p.applied p.auto_woven [] end p.reads p.store;
      reads = p.reads + 1;
    })
    after_apply (raised (stale _)) p =
        replan (gateway.config_get 1) p.warnings (p.reads + 1)
          (clear_pending_for_transaction env.transaction_id (env.iso_now p.reads) p.store)
    after_apply (raised (unavailable m)) p = finish true (record p {
      applied = [];
      auto_woven = [];
      warnings = p.warnings ++ concat "gateway unavailable on apply: " m ∷ [];
    })
    after_apply (raised (other m)) p = raise (other m) p.reads p.store

    unfoldable pub first_apply : String → Pass → Ending
    first_apply base_hash p =
        if is_empty p.patch
        then finish unreachable p
        else after_apply (gateway.config_apply 0 p.patch base_hash) p

    -- Steps 3 and 4.
    unfoldable pub plan_and_apply : GatewayConfig → List String → ℕ → ControlStore → Ending
    unfolding log
    plan_and_apply live warnings reads s =
        let s' =
          log prepared [] [] [] (field "resource_count" (num (pos (length manifest.resources))) end)
            reads s in
        first_apply live.base_hash (
          run_resources env started (obj live.configuration) manifest.resources
            (fresh_pass warnings (reads + 1) s'))

  -- Step 2, after the fallback's `gateway_config_get`.
  unfoldable pub after_offline_get :
      ControlManifest → ℕ → Reply GatewayConfig → ℕ → ControlStore → Ending
  after_offline_get manifest started (raised f) reads s = raise f reads s
  after_offline_get manifest started (ok live) reads s =
      plan_and_apply manifest (offline env) started true live
        ("gateway unavailable; offline fallback engaged" ∷ []) reads s

  -- Step 2, after the injected transport's `gateway_config_get`.
  unfoldable pub after_get : ControlManifest → ℕ → Reply GatewayConfig → ℕ → ControlStore → Ending
  after_get manifest started (ok live) reads s =
      plan_and_apply manifest env.transport started false live [] reads s
  after_get manifest started (raised (unavailable m)) reads s =
      after_offline_get manifest started ((offline env).config_get 0) reads s
  after_get manifest started (raised (stale m)) reads s = raise (stale m) reads s
  after_get manifest started (raised (other m)) reads s = raise (other m) reads s

  unfoldable pub apply_locked : ControlManifest → ℕ → ℕ → ControlStore → Ending
  apply_locked manifest started reads s =
      after_get manifest started (env.transport.config_get 0) reads s

  -- The handler of `apply_manifest`, which turns any exception into a result and a journal record.
  unfoldable pub settle : Ending → ControlResult × ControlStore
  unfolding log
  settle e = elim e.reply [
    | ok r ↦ (r, e.store)
    | raised f ↦ (
      record {
        transaction_id = env.transaction_id;
        state = failed;
        applied = [];
        auto_woven = [];
        conflicts = [];
        warnings = concat "apply failed: " (message f) ∷ [];
      },
      log failed [] [] [] (field "error" (text (message f)) end) e.reads e.store,
    )
  ]

  -- `apply_manifest`, once `ControlStore.open` has the lock: `open` sweeps first. The readings of the clock
  -- are counted from `started`.
  unfoldable pub apply_manifest : ControlManifest → ControlStore → ControlResult × ControlStore
  apply_manifest manifest s =
      settle (apply_locked manifest (env.clock 0) 2 (sweep_orphan_pending (env.iso_now 1) s).1)
