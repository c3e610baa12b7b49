-- ===== src/Oramaclaw/Engine/Staged.antt =====
-- The conflicts that an apply of src/oramaclaw/engine.py reports, and the pending records beside them.
use orama_system.Base.{
  ℕ, ◌+◌, ◌-◌, String, ◌≡◌, refl, Bool, true, false, List, [], ◌∷◌, ◌++◌, inl, inr, arith, any, ltb,
  if◌then◌else◌, eq_refl, Bool-cases, is_some,
}
use orama_system.Oramaclaw.Json.{Value}
use orama_system.Oramaclaw.Types.{
  Conflict, conflict_eq, PendingResolution, Resource, ControlManifest,
}
use orama_system.Oramaclaw.Store.{
  ControlStore, JournalRecord, append_journal, record_ownership, add_pending, pending_by_id,
}
use orama_system.Oramaclaw.Store.Pending.{pending_by_id-add_pending}
use orama_system.Oramaclaw.Merge.{ActionKind, apply, skip, auto_weave, FieldAction, plan_resource}
use orama_system.Oramaclaw.Engine.Transport.{Env}
use orama_system.Oramaclaw.Engine.Walk.{
  Pass, conflict_from_action, report, write, run_weave, run_kind, run_action, run_actions,
  run_conflicts, finish_resource, run_resource, run_resources, cooperative_timeout,
}
use orama_system.Oramaclaw.Engine.Rule.{Rule, apply_manifest_rule}
use orama_system.Oramaclaw.Engine.{log, finish, settle, apply_manifest}

-- A pending record has the id.
abbrev pub is_staged : String → ControlStore → Bool
is_staged i s = is_some (pending_by_id i s)

abbrev pub AllStaged : List Conflict → ControlStore → Type 0
AllStaged [] s = Unit
AllStaged (c ∷ cs) s = (is_staged c.resolution_id s ≡ true) × AllStaged cs s

is_staged-add_pending :
    (i : String) (p : PendingResolution) (s : ControlStore)
    → is_staged i s ≡ true
    → is_staged i (add_pending p s) ≡ true
is_staged-add_pending i p s h = rw (pending_by_id-add_pending p i s) (ground arith)

is_staged_self :
    (p : PendingResolution) (s : ControlStore) → is_staged p.resolution_id (add_pending p s) ≡ true
is_staged_self p s =
    rw (pending_by_id-add_pending p p.resolution_id s, eq_refl p.resolution_id) refl

AllStaged-add_pending :
    (cs : List Conflict) (p : PendingResolution) (s : ControlStore)
    → AllStaged cs s
    → AllStaged cs (add_pending p s)
AllStaged-add_pending [] p s h = tt
AllStaged-add_pending (c ∷ cs) p s h =
    (is_staged-add_pending c.resolution_id p s h.0, AllStaged-add_pending cs p s h.1)

AllStaged-snoc :
    (cs : List Conflict) (c : Conflict) (s : ControlStore)
    → AllStaged cs s
    → is_staged c.resolution_id s ≡ true
    → AllStaged (cs ++ c ∷ []) s
AllStaged-snoc [] c s h e = (e, tt)
AllStaged-snoc (d ∷ cs) c s h e = (h.0, AllStaged-snoc cs c s h.1 e)

-- The registry and the journal play no part.
AllStaged-record_ownership :
    (cs : List Conflict) (f : Value → String) (m k p : String) (v : Value) (t : String)
    (s : ControlStore)
    → AllStaged cs s
    → AllStaged cs (record_ownership f m k p v t s)
unfolding record_ownership pending_by_id
AllStaged-record_ownership [] f m k p v t s h = tt
AllStaged-record_ownership (c ∷ cs) f m k p v t s h =
    (h.0, AllStaged-record_ownership cs f m k p v t s h.1)

AllStaged-append_journal :
    (cs : List Conflict) (r : JournalRecord) (s : ControlStore)
    → AllStaged cs s
    → AllStaged cs (append_journal r s)
unfolding append_journal pending_by_id
AllStaged-append_journal [] r s h = tt
AllStaged-append_journal (c ∷ cs) r s h = (h.0, AllStaged-append_journal cs r s h.1)

abbrev IsStaged : Pass → Type 0
IsStaged p = AllStaged p.conflicts p.store

module _ (env : Env) where
  report-IsStaged : (c : Conflict) (p : Pass) → IsStaged p → IsStaged (report env c p)
  unfolding report
  report-IsStaged c p h =
      AllStaged-snoc p.conflicts c (report env c p).store
        (AllStaged-add_pending p.conflicts _ p.store h) (is_staged_self _ p.store)

  write-IsStaged :
      (r : Resource) (k : String) (a : FieldAction) (p : Pass)
      → IsStaged p
      → IsStaged (write env r k a p)
  unfolding write
  write-IsStaged r k a p h =
      AllStaged-record_ownership p.conflicts env.fingerprint r.manager k a.managed_path
        a.desired_value (env.iso_now p.reads) p.store h

  run_weave-IsStaged :
      (started : ℕ) (r : Resource) (k : String) (a : FieldAction) (p : Pass)
      → IsStaged p
      → IsStaged (run_weave env started r k a p)
  run_weave-IsStaged started r k a p h =
      let p' = record p { reads = p.reads + 1 } in
      elim (Bool-cases (ltb cooperative_timeout (env.clock p.reads - started))) [
        | inl late ↦
            unfold run_weave in rw late (report-IsStaged (conflict_from_action k r.manager a) p' h)
        | inr early ↦ unfold run_weave in rw early (write-IsStaged r k a p' h)
      ]

  run_kind-IsStaged :
      (kind : ActionKind) (started : ℕ) (r : Resource) (k : String) (a : FieldAction) (p : Pass)
      → IsStaged p
      → IsStaged (run_kind env kind started r k a p)
  unfolding run_kind
  run_kind-IsStaged apply started r k a p h = write-IsStaged r k a p h
  run_kind-IsStaged auto_weave started r k a p h = run_weave-IsStaged started r k a p h
  run_kind-IsStaged ActionKind.conflict started r k a p h =
      report-IsStaged (conflict_from_action k r.manager a) p h
  run_kind-IsStaged skip started r k a p h = h

  run_actions-IsStaged :
      (started : ℕ) (r : Resource) (k : String) (as_ : List FieldAction) (p : Pass)
      → IsStaged p
      → IsStaged (run_actions env started r k as_ p)
  unfolding run_actions run_action
  run_actions-IsStaged started r k [] p h = h
  run_actions-IsStaged started r k (a ∷ as_) p h =
      run_actions-IsStaged started r k as_ (run_kind env a.kind started r k a p)
        (run_kind-IsStaged a.kind started r k a p h)

  unless_known-IsStaged :
      (known : Bool) (c : Conflict) (p : Pass)
      → IsStaged p
      → IsStaged (if known then p else report env c p)
  unless_known-IsStaged true c p h = h
  unless_known-IsStaged false c p h = report-IsStaged c p h

  run_conflicts-IsStaged :
      (cs : List Conflict) (p : Pass) → IsStaged p → IsStaged (run_conflicts env cs p)
  unfolding run_conflicts
  run_conflicts-IsStaged [] p h = h
  run_conflicts-IsStaged (c ∷ cs) p h =
      run_conflicts-IsStaged cs _ (unless_known-IsStaged (any (conflict_eq c) p.conflicts) c p h)

  finish_resource-IsStaged :
      (k : String) (p : Pass) → IsStaged p → IsStaged (finish_resource env k p)
  unfolding finish_resource
  finish_resource-IsStaged k p h = elim (Bool-cases p.touched) [ inl t ↦ rw t h | inr t ↦ rw t h ]

  run_resource-IsStaged :
      (started : ℕ) (live : Value) (r : Resource) (p : Pass)
      → IsStaged p
      → IsStaged (run_resource env started live r p)
  unfolding run_resource
  run_resource-IsStaged started live r p h =
      let plan = plan_resource env.fingerprint r live p.store in
      let p' = record p { touched = false } in
      finish_resource-IsStaged plan.resource_key _ (
        run_conflicts-IsStaged plan.conflicts _
          (run_actions-IsStaged started r plan.resource_key plan.actions p' h))

  run_resources-IsStaged :
      (started : ℕ) (live : Value) (rs : List Resource) (p : Pass)
      → IsStaged p
      → IsStaged (run_resources env started live rs p)
  unfolding run_resources
  run_resources-IsStaged started live [] p h = h
  run_resources-IsStaged started live (r ∷ rs) p h =
      run_resources-IsStaged started live rs _ (run_resource-IsStaged started live r p h)

  StagedRule : (m : ControlManifest) → Rule env m (λ r s. AllStaged r.conflicts s) IsStaged
  unfolding finish log settle
  StagedRule m = record {
    walked = λ started live w n s. run_resources-IsStaged started live m.resources _ tt;
    journalled = λ p h. AllStaged-append_journal p.conflicts _ p.store h;
    emptied = λ p w h. h;
    finished = λ u p h. AllStaged-append_journal p.conflicts _ p.store h;
    excepted = λ f n s. tt;
  }

  -- Whatever the gateway does, every conflict in the result of an apply has a pending record under its
  -- resolution id in the store that the apply leaves.
  pub apply_manifest-AllStaged :
      (m : ControlManifest) (s : ControlStore)
      → let (result, s') = apply_manifest env m s in AllStaged result.conflicts s'
  apply_manifest-AllStaged m s =
      apply_manifest_rule env m (λ r s. AllStaged r.conflicts s) IsStaged (StagedRule m) s
