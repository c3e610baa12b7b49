-- ===== src/Oramaclaw/Engine/Rule.antt =====
-- The rule for properties of a whole apply of src/oramaclaw/engine.py: what holds of every exception and of
-- every regular end holds of the result, by the branches of `_apply_locked` and its handlers.
use orama_system.Base.{ℕ, ◌+◌, String, Bool, true, false, List, [], inl, inr, Bool-cases}
use orama_system.Oramaclaw.Json.{Value, end, is_empty}
use orama_system.Oramaclaw.Types.{ControlManifest, ControlResult, applied_unverified}
use orama_system.Oramaclaw.Store.{ControlStore}
use orama_system.Oramaclaw.Engine.Transport.{
  Failure, stale, unavailable, other, Reply, ok, raised, Gateway, GatewayConfig, Env, offline,
}
use orama_system.Oramaclaw.Engine.Walk.{Pass, run_resources}
use orama_system.Oramaclaw.Engine.{
  log, Ending, finish, after_second_apply, second_apply, replan, after_apply, first_apply,
  plan_and_apply, after_offline_get, after_get, apply_locked, settle, apply_manifest, fresh_pass,
}

-- `P` is the property of a result and the store beside it, and `Q` what the walks over the resources ensure.
pub record Rule (env : Env) (m : ControlManifest) (P : ControlResult → ControlStore → Type 0)
    (Q : Pass → Type 0) : Type 0 where
  pub walked :
      (started : ℕ) (live : Value) (w : List String) (n : ℕ) (s : ControlStore)
      → Q (run_resources env started live m.resources (fresh_pass env w n s))
  pub journalled :
      (p : Pass)
      → Q p
      → Q (record p {
        store = log env applied_unverified p.applied p.auto_woven [] end p.reads p.store;
        reads = p.reads + 1;
      })
  pub emptied :
      (p : Pass) (w : List String)
      → Q p
      → Q (record p { applied = []; auto_woven = []; warnings = w })
  pub finished : (u : Bool) (p : Pass) → Q p → let d = settle env (finish env u p) in P d.0 d.1
  pub excepted :
      (f : Failure) (n : ℕ) (s : ControlStore)
      → let d = settle env (record { reply = raised f; reads = n; store = s }) in P d.0 d.1

module _ (env : Env) (m : ControlManifest) (P : ControlResult → ControlStore → Type 0)
    (Q : Pass → Type 0) (rule : Rule env m P Q) where
  abbrev Good : Ending env → Type 0
  Good e = let d = settle env e in P d.0 d.1

  module _ (g : Gateway) (started : ℕ) (u : Bool) where
    after_second_apply-Good :
        (r : Reply (Unit {0})) (p : Pass) → Q p → Good (after_second_apply env m g started u r p)
    unfolding after_second_apply
    after_second_apply-Good (ok _) p h = rule.finished u p h
    after_second_apply-Good (raised f) p h = rule.excepted _ _ _

    second_apply-Good : (b : String) (p : Pass) → Q p → Good (second_apply env m g started u b p)
    unfolding second_apply
    second_apply-Good b p h = elim (Bool-cases (is_empty p.patch)) [
      | inl e ↦ rw e (rule.finished u p h)
      | inr e ↦ rw e (after_second_apply-Good (g.config_apply 1 p.patch b) p h)
    ]

    replan-Good :
        (r : Reply GatewayConfig) (w : List String) (n : ℕ) (s : ControlStore)
        → Good (replan env m g started u r w n s)
    unfolding replan
    replan-Good (raised f) w n s = rule.excepted _ _ _
    replan-Good (ok c) w n s = second_apply-Good c.base_hash _ (rule.walked started _ _ _ _)

    after_apply-Good :
        (r : Reply (Unit {0})) (p : Pass) → Q p → Good (after_apply env m g started u r p)
    unfolding after_apply log
    after_apply-Good (ok _) p h = rule.finished u _ (rule.journalled p h)
    after_apply-Good (raised (stale _)) p h = replan-Good (g.config_get 1) _ _ _
    after_apply-Good (raised (unavailable _)) p h = rule.finished true _ (rule.emptied p _ h)
    after_apply-Good (raised (other _)) p h = rule.excepted _ _ _

    first_apply-Good : (b : String) (p : Pass) → Q p → Good (first_apply env m g started u b p)
    unfolding first_apply
    first_apply-Good b p h = elim (Bool-cases (is_empty p.patch)) [
      | inl e ↦ rw e (rule.finished u p h)
      | inr e ↦ rw e (after_apply-Good (g.config_apply 0 p.patch b) p h)
    ]

    plan_and_apply-Good :
        (c : GatewayConfig) (w : List String) (n : ℕ) (s : ControlStore)
        → Good (plan_and_apply env m g started u c w n s)
    unfolding plan_and_apply
    plan_and_apply-Good c w n s = first_apply-Good c.base_hash _ (rule.walked started _ _ _ _)

  after_offline_get-Good :
      (started : ℕ) (r : Reply GatewayConfig) (n : ℕ) (s : ControlStore)
      → Good (after_offline_get env m started r n s)
  unfolding after_offline_get
  after_offline_get-Good started (ok c) n s = plan_and_apply-Good (offline env) started true c _ n s
  after_offline_get-Good started (raised f) n s = rule.excepted _ _ _

  after_get-Good :
      (started : ℕ) (r : Reply GatewayConfig) (n : ℕ) (s : ControlStore)
      → Good (after_get env m started r n s)
  unfolding after_get
  after_get-Good started (ok c) n s = plan_and_apply-Good env.transport started false c [] n s
  after_get-Good started (raised (unavailable _)) n s =
      after_offline_get-Good started ((offline env).config_get 0) n s
  after_get-Good started (raised (stale _)) n s = rule.excepted _ _ _
  after_get-Good started (raised (other _)) n s = rule.excepted _ _ _

  pub apply_manifest_rule : (s : ControlStore) → let d = apply_manifest env m s in P d.0 d.1
  unfolding apply_manifest apply_locked
  apply_manifest_rule s = after_get-Good (env.clock 0) (env.transport.config_get 0) 2 _
