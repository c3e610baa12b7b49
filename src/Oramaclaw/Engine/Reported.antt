-- ===== src/Oramaclaw/Engine/Reported.antt =====
-- What an apply of src/oramaclaw/engine.py reports, by the gateway's reply to its first write.
use orama_system.Base.{
  ℕ, String, ◌≡◌, ◌≢◌, refl, true, false, List, [], ◌∷◌, arith, length, is_nonempty, if◌then◌else◌,
  pos,
}
use orama_system.Oramaclaw.Json.{obj, is_empty, field, end, num}
use orama_system.Oramaclaw.Types.{
  Conflict, TxState, prepared, needs_input, gateway_unavailable, failed, ControlResult,
  ControlManifest,
}
use orama_system.Oramaclaw.Store.{ControlStore, sweep_orphan_pending}
use orama_system.Oramaclaw.Engine.Transport.{
  stale, unavailable, other, Reply, ok, raised, Gateway, GatewayConfig, Env,
}
use orama_system.Oramaclaw.Engine.Walk.{Pass, run_resources}
use orama_system.Oramaclaw.Engine.Outcome.{IsTrue, apply_manifest-IsTrue}
use orama_system.Oramaclaw.Engine.{
  determine_state, log, finish, after_apply, first_apply, plan_and_apply, after_get, apply_locked,
  settle, apply_manifest, fresh_pass,
}

module _ (env : Env) (m : ControlManifest) where
  -- The first walk over the resources, on what the gateway answered.
  abbrev pub first_walk : ControlStore → GatewayConfig → Pass
  first_walk s live =
      let swept = (sweep_orphan_pending (env.iso_now 1) s).1 in
      let count = field "resource_count" (num (pos (length m.resources))) end in
      run_resources env (env.clock 0) (obj live.configuration) m.resources
        (fresh_pass env [] 3 (log env prepared [] [] [] count 2 swept))

  -- What the result says, given the reply to the first write and the walk that planned it.
  abbrev pub Reports : Reply (Unit {0}) → Pass → ControlResult → Type 0
  Reports (ok _) p r =
      (r.applied ≡ p.applied)
      × (r.auto_woven ≡ p.auto_woven)
      × (r.conflicts ≡ p.conflicts)
      × (r.state ≢ gateway_unavailable)
      × (r.state ≢ failed)
  Reports (raised (unavailable _)) p r =
      (r.applied ≡ [])
      × (r.auto_woven ≡ [])
      × (r.conflicts ≡ p.conflicts)
      × (r.state ≡ (if is_nonempty p.conflicts then needs_input else gateway_unavailable))
  Reports (raised (other _)) p r =
      (r.applied ≡ []) × (r.auto_woven ≡ []) × (r.conflicts ≡ []) × (r.state ≡ failed)
  Reports (raised (stale _)) p r = Unit

  reached :
      (a w : List String) (c : List Conflict) (t : TxState)
      → t ≡ determine_state a w c false
      → (t ≢ gateway_unavailable) × (t ≢ failed)
  unfolding determine_state
  reached a w [] t e = (λ h. ground arith, λ h. ground arith)
  reached a w (x ∷ c) t e = (λ h. ground arith, λ h. ground arith)

  lost :
      (c : List Conflict)
      → determine_state [] [] c true ≡ (if is_nonempty c then needs_input else gateway_unavailable)
  unfolding determine_state
  lost [] = refl
  lost (x ∷ c) = refl

  after_apply-Reports :
      (g : Gateway) (started : ℕ) (reply : Reply (Unit {0})) (p : Pass)
      → Reports reply p (settle env (after_apply env m g started false reply p)).0
  unfolding after_apply finish settle
  after_apply-Reports g started (ok _) p =
      let d = reached p.applied p.auto_woven p.conflicts _ refl in (refl, refl, refl, d.0, d.1)
  after_apply-Reports g started (raised (unavailable why)) p = (refl, refl, refl, lost p.conflicts)
  after_apply-Reports g started (raised (other why)) p = (refl, refl, refl, refl)
  after_apply-Reports g started (raised (stale why)) p = tt

  -- An apply that reads the gateway's document and plans to write. If the gateway accepts the write, then
  -- what was planned is reported, and the state is neither gateway_unavailable nor failed; if the gateway is
  -- unavailable, then nothing is reported as written, the conflicts are those planned, and the state is
  -- needs_input with conflicts and gateway_unavailable without; on any other exception but a stale hash the
  -- state is failed and the result is empty. After every reply, a stale one too, the state fits the result:
  -- committed has no woven field and no conflict, auto_woven has woven fields and no conflict, conflicted has
  -- conflicts and progress, needs_input has conflicts and no progress, gateway_unavailable and failed have
  -- nothing, and there is no other state.
  pub first_write-Reports :
      (s : ControlStore) (live : GatewayConfig)
      → env.transport.config_get 0 ≡ ok live
      → is_empty (first_walk s live).patch ≡ false
      → let (result, _) = apply_manifest env m s in
        let p = first_walk s live in
        Reports (env.transport.config_apply 0 p.patch live.base_hash) p result × IsTrue result
  unfolding apply_manifest apply_locked after_get plan_and_apply first_apply
  first_write-Reports s live get written =
      let p = first_walk s live in
      let reply = env.transport.config_apply 0 p.patch live.base_hash in
      let t = apply_manifest-IsTrue env m s in
      (rw get (rw written (after_apply-Reports env.transport (env.clock 0) reply p)), t)
