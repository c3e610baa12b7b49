-- ===== src/Oramaclaw/Engine/Single.antt =====
-- The walk of src/oramaclaw/engine.py over a resource with one managed path, by the kind of its action.
use orama_system.Base.{
  ℕ, String, ◌≡◌, refl, ◌∙◌, ap, Bool, true, false, none, List, [], ◌∷◌, ◌++◌, arith, any, length,
  is_some, is_nonempty, if◌then◌else◌,
}
use orama_system.Oramaclaw.Json.{Value}
use orama_system.Oramaclaw.Pointer.{spec_value}
use orama_system.Oramaclaw.Types.{Conflict, conflict_eq, Resource}
use orama_system.Oramaclaw.Store.{ControlStore}
use orama_system.Oramaclaw.Merge.{
  ActionKind, apply, FieldPlan, plan_field, plan_changed, plan_drift, plan_resource,
  resource_key_of, quiet, make_conflict,
}
use orama_system.Oramaclaw.Engine.Transport.{Env}
use orama_system.Oramaclaw.Engine.Walk.{
  Pass, conflict_from_action, report, write, run_action, run_actions, run_conflicts,
  finish_resource, run_resource,
}

-- A planned write holds the desired value, and comes with no conflict.
pub plan_field-apply :
    (fp : Value → String) (r : Resource) (path : String) (live : Value) (s : ControlStore)
    → (plan_field fp r path live s).action.kind ≡ apply
    → plan_field fp r path live s
      ≡ quiet fp r path apply (spec_value r.spec path) (fp (spec_value r.spec path))
unfolding plan_field plan_changed plan_drift
plan_field-apply fp r path live s h = ground arith

-- One conflict, with the base fingerprint that it was planned on.
abbrev OneBased : List Conflict → Type 0
OneBased [] = ⊥
OneBased (c ∷ []) = is_some c.base_fingerprint ≡ true
OneBased (c ∷ d ∷ cs) = ⊥

plan_field-conflict :
    (fp : Value → String) (r : Resource) (path : String) (live : Value) (s : ControlStore)
    → (plan_field fp r path live s).action.kind ≡ ActionKind.conflict
    → OneBased (plan_field fp r path live s).conflicts
unfolding plan_field plan_changed plan_drift make_conflict
plan_field-conflict fp r path live s h = ground arith

conflict_eq-unbased :
    (c d : Conflict)
    → is_some c.base_fingerprint ≡ true
    → d.base_fingerprint ≡ none
    → conflict_eq c d ≡ false
unfolding conflict_eq
conflict_eq-unbased c d h e = ground arith

module _ (env : Env) where
  -- What a walk over planned conflicts leaves alone.
  pub record OnlyReports (p q : Pass) : Type 0 where
    pub patch : q.patch ≡ p.patch
    pub applied : q.applied ≡ p.applied
    pub auto_woven : q.auto_woven ≡ p.auto_woven
    pub touched : q.touched ≡ p.touched
    pub kept : is_nonempty p.conflicts ≡ true → is_nonempty q.conflicts ≡ true

  nonempty-snoc : (cs : List Conflict) (c : Conflict) → is_nonempty (cs ++ c ∷ []) ≡ true
  nonempty-snoc [] c = refl
  nonempty-snoc (d ∷ cs) c = refl

  one_conflict :
      (known : Bool) (c : Conflict) (p : Pass) → OnlyReports p (if known then p else report env c p)
  unfolding report
  one_conflict true c p = record {
    patch = refl;
    applied = refl;
    auto_woven = refl;
    touched = refl;
    kept = λ h. h;
  }
  one_conflict false c p = record {
    patch = refl;
    applied = refl;
    auto_woven = refl;
    touched = refl;
    kept = λ h. nonempty-snoc p.conflicts c;
  }

  run_conflicts-OnlyReports :
      (cs : List Conflict) (p : Pass) → OnlyReports p (run_conflicts env cs p)
  unfolding run_conflicts
  run_conflicts-OnlyReports [] p = record {
    patch = refl;
    applied = refl;
    auto_woven = refl;
    touched = refl;
    kept = λ h. h;
  }
  run_conflicts-OnlyReports (c ∷ cs) p =
      let first = one_conflict (any (conflict_eq c) p.conflicts) c p in
      let rest =
        run_conflicts-OnlyReports cs
          (if any (conflict_eq c) p.conflicts then p else report env c p) in
      record {
        patch = rest.patch ∙ first.patch;
        applied = rest.applied ∙ first.applied;
        auto_woven = rest.auto_woven ∙ first.auto_woven;
        touched = rest.touched ∙ first.touched;
        kept = λ h. rest.kept (first.kept h);
      }

  finish_untouched : (k : String) (p : Pass) → p.touched ≡ false → finish_resource env k p ≡ p
  unfolding finish_resource
  finish_untouched k p h = rw h refl

  one_more :
      (cs : List Conflict) (p : Pass) (d : Conflict)
      → OneBased cs
      → d.base_fingerprint ≡ none
      → p.conflicts ≡ d ∷ []
      → length (run_conflicts env cs p).conflicts ≡ 2
  unfolding run_conflicts report
  one_more [] p d o free e = elim o [ ]
  one_more (c ∷ []) p d o free e = rw (e, conflict_eq-unbased c d o free) refl
  one_more (c ∷ c' ∷ cs) p d o free e = elim o [ ]

  module _ (started : ℕ) (live : Value) (r : Resource) (path : String)
      (one : r.managed_paths ≡ path ∷ []) where
    abbrev planned : Pass → FieldPlan
    planned p = plan_field env.fingerprint r path live p.store

    abbrev untouched : Pass → Pass
    untouched p = record p { touched = false }

    pub run_resource_one :
        (p : Pass)
        → run_resource env started live r p
          ≡ finish_resource env (resource_key_of r) (
              run_conflicts env
                (planned p).conflicts
                (run_action env started r (resource_key_of r) (planned p).action (untouched p)))
    unfolding run_resource plan_resource run_actions
    run_resource_one p = rw one refl

    -- The pass after a planned write.
    abbrev pub after_write : Pass → Pass
    after_write p =
        let q =
          write env r (resource_key_of r)
            (record {
              managed_path = path;
              kind = apply;
              desired_value = spec_value r.spec path;
              fingerprint = env.fingerprint (spec_value r.spec path);
            })
            (untouched p) in
        record q { applied = q.applied ++ resource_key_of r ∷ [] }

    pub run_resource-apply :
        (p : Pass)
        → (planned p).action.kind ≡ apply
        → run_resource env started live r p ≡ after_write p
    unfolding run_conflicts run_action finish_resource write
    run_resource-apply p h =
        run_resource_one p ∙ rw (plan_field-apply env.fingerprint r path live p.store h) refl

    -- The pass after the report of a conflict action.
    abbrev reported : Pass → Pass
    reported p =
        report env (conflict_from_action (resource_key_of r) r.manager (planned p).action)
          (untouched p)

    run_resource_conflict_eq :
        (p : Pass)
        → (planned p).action.kind ≡ ActionKind.conflict
        → run_resource env started live r p ≡ run_conflicts env (planned p).conflicts (reported p)
    unfolding run_action report
    run_resource_conflict_eq p h =
        run_resource_one p
        ∙ rw h (
            finish_untouched (resource_key_of r) _
              (run_conflicts-OnlyReports (planned p).conflicts (reported p)).touched)

    -- A planned conflict is reported, and nothing is written.
    pub run_resource-conflict :
        (p : Pass)
        → (planned p).action.kind ≡ ActionKind.conflict
        → let q = run_resource env started live r p in
          (q.patch ≡ p.patch)
          × (q.applied ≡ p.applied)
          × (q.auto_woven ≡ p.auto_woven)
          × (is_nonempty q.conflicts ≡ true)
    unfolding report
    run_resource-conflict p h =
        let w = run_conflicts-OnlyReports (planned p).conflicts (reported p) in
        rw (run_resource_conflict_eq p h)
          (w.patch, w.applied, w.auto_woven, w.kept (nonempty-snoc p.conflicts _))

    -- A conflict is reported twice: once from its action, without the fingerprints that it was planned on,
    -- and once as planned.
    pub conflict_reported_twice :
        (p : Pass)
        → (planned p).action.kind ≡ ActionKind.conflict
        → p.conflicts ≡ []
        → length (run_resource env started live r p).conflicts ≡ 2
    unfolding report run_conflicts conflict_from_action
    conflict_reported_twice p h e = rw (run_resource_conflict_eq p h) (
        one_more (planned p).conflicts (reported p)
          (conflict_from_action (resource_key_of r) r.manager (planned p).action)
          (plan_field-conflict env.fingerprint r path live p.store h) refl
          (ap
            (λ (cs : List Conflict).
              cs ++ conflict_from_action (resource_key_of r) r.manager (planned p).action ∷ [])
            e))
