-- ===== src/Oramaclaw/Engine/Unwoven.antt =====
-- An apply of src/oramaclaw/engine.py on resources whose drift must go to an operator.
use orama_system.Base.{
  ℕ, String, ◌≡◌, refl, sym, ◌∙◌, Bool, true, false, not, ◌&&◌, List, [], ◌∷◌, arith, any, every,
  if◌then◌else◌, Bool-cases, inl, inr, and-true,
}
use orama_system.Oramaclaw.Json.{Value}
use orama_system.Oramaclaw.Types.{Conflict, conflict_eq, Resource, ControlManifest, ControlResult}
use orama_system.Oramaclaw.Store.{ControlStore}
use orama_system.Oramaclaw.Merge.{ActionKind, apply, skip, auto_weave, FieldAction, plan_resource}
use orama_system.Oramaclaw.Merge.Shape.{is_weave, paths_of, plan_resource-IsCoherent}
use orama_system.Oramaclaw.Merge.Policy.{escalates, plan_resource-never_weaves}
use orama_system.Oramaclaw.Engine.Transport.{Env}
use orama_system.Oramaclaw.Engine.Walk.{
  Pass, report, write, run_kind, run_action, run_actions, run_conflicts, finish_resource,
  run_resource, run_resources,
}
use orama_system.Oramaclaw.Engine.Rule.{Rule, apply_manifest_rule}
use orama_system.Oramaclaw.Engine.{finish, settle, apply_manifest, fresh_pass}

-- No action of the list weaves.
no_weave : List FieldAction → Bool
no_weave [] = true
no_weave (a ∷ as_) = not (is_weave a.kind) && no_weave as_

paths_woven :
    (a : FieldAction) (as_ : List FieldAction)
    → is_weave a.kind ≡ true
    → (path : String) × ((rest : List String) × (paths_of is_weave (a ∷ as_) ≡ path ∷ rest))
paths_woven a as_ w = (a.managed_path, (paths_of is_weave as_, rw w refl))

paths_left :
    (a : FieldAction) (as_ : List FieldAction)
    → is_weave a.kind ≡ false
    → paths_of is_weave (a ∷ as_) ≡ paths_of is_weave as_
paths_left a as_ n = rw n refl

cons_is_no_nil : (path : String) (rest : List String) → path ∷ rest ≡ [] → ⊥
cons_is_no_nil path rest e = cc e

no_weave_of_paths : (as_ : List FieldAction) → paths_of is_weave as_ ≡ [] → no_weave as_ ≡ true
unfolding no_weave
no_weave_of_paths [] e = refl
no_weave_of_paths (a ∷ as_) e = elim (Bool-cases (is_weave a.kind)) [
  | inl w ↦
      (let (path, (rest, f)) = paths_woven a as_ w in absurd (cons_is_no_nil path rest (sym f ∙ e)))
  | inr n ↦ rw n (no_weave_of_paths as_ (sym (paths_left a as_ n) ∙ e))
]

module _ (env : Env) where
  run_kind-unwoven :
      (kind : ActionKind) (started : ℕ) (r : Resource) (k : String) (a : FieldAction) (p : Pass)
      → is_weave kind ≡ false
      → (run_kind env kind started r k a p).auto_woven ≡ p.auto_woven
  unfolding run_kind report write
  run_kind-unwoven apply started r k a p n = refl
  run_kind-unwoven auto_weave started r k a p n = ground (arith, n)
  run_kind-unwoven ActionKind.conflict started r k a p n = refl
  run_kind-unwoven skip started r k a p n = refl

  run_actions-unwoven :
      (started : ℕ) (r : Resource) (k : String) (as_ : List FieldAction) (p : Pass)
      → no_weave as_ ≡ true
      → (run_actions env started r k as_ p).auto_woven ≡ p.auto_woven
  unfolding run_actions run_action no_weave
  run_actions-unwoven started r k [] p n = refl
  run_actions-unwoven started r k (a ∷ as_) p n =
      run_actions-unwoven started r k as_ (run_kind env a.kind started r k a p) (ground (arith, n))
      ∙ run_kind-unwoven a.kind started r k a p (ground (arith, n))

  unless_known-unwoven :
      (known : Bool) (c : Conflict) (p : Pass)
      → (if known then p else report env c p).auto_woven ≡ p.auto_woven
  unfolding report
  unless_known-unwoven true c p = refl
  unless_known-unwoven false c p = refl

  run_conflicts-unwoven :
      (cs : List Conflict) (p : Pass) → (run_conflicts env cs p).auto_woven ≡ p.auto_woven
  unfolding run_conflicts
  run_conflicts-unwoven [] p = refl
  run_conflicts-unwoven (c ∷ cs) p =
      run_conflicts-unwoven cs (if any (conflict_eq c) p.conflicts then p else report env c p)
      ∙ unless_known-unwoven (any (conflict_eq c) p.conflicts) c p

  finish_resource-unwoven :
      (k : String) (p : Pass) → (finish_resource env k p).auto_woven ≡ p.auto_woven
  unfolding finish_resource
  finish_resource-unwoven k p = elim (Bool-cases p.touched) [
    | inl t ↦ rw t refl
    | inr t ↦ rw t refl
  ]

  run_resource-unwoven :
      (started : ℕ) (live : Value) (r : Resource) (p : Pass)
      → escalates env.fingerprint r ≡ true
      → (run_resource env started live r p).auto_woven ≡ p.auto_woven
  unfolding run_resource
  run_resource-unwoven started live r p esc =
      let plan = plan_resource env.fingerprint r live p.store in
      let p' = record p { touched = false } in
      let q = run_actions env started r plan.resource_key plan.actions p' in
      let none_woven =
        sym (plan_resource-IsCoherent env.fingerprint r live p.store).woven
        ∙ plan_resource-never_weaves env.fingerprint r live p.store esc in
      finish_resource-unwoven plan.resource_key (run_conflicts env plan.conflicts q)
      ∙ run_conflicts-unwoven plan.conflicts q
      ∙ run_actions-unwoven started r plan.resource_key plan.actions p'
          (no_weave_of_paths plan.actions none_woven)

  run_resources-unwoven :
      (started : ℕ) (live : Value) (rs : List Resource) (p : Pass)
      → every (escalates env.fingerprint) rs ≡ true
      → (run_resources env started live rs p).auto_woven ≡ p.auto_woven
  unfolding run_resources
  run_resources-unwoven started live [] p esc = refl
  run_resources-unwoven started live (r ∷ rs) p esc =
      let (a, b) =
        and-true (escalates env.fingerprint r) (every (escalates env.fingerprint) rs) esc in
      run_resources-unwoven started live rs (run_resource env started live r p) b
      ∙ run_resource-unwoven started live r p a

  abbrev IsUnwoven : ControlResult → ControlStore → Type 0
  IsUnwoven r s = r.auto_woven ≡ []

  UnwovenRule :
      (m : ControlManifest)
      → every (escalates env.fingerprint) m.resources ≡ true
      → Rule env m IsUnwoven (λ p. p.auto_woven ≡ [])
  unfolding finish settle
  UnwovenRule m esc = record {
    walked = λ started live w n s.
        run_resources-unwoven started live m.resources (fresh_pass env w n s) esc;
    journalled = λ p h. h;
    emptied = λ p w h. refl;
    finished = λ u p h. h;
    excepted = λ f n s. refl;
  }

  -- If every resource of the manifest belongs to the security topology or has another policy than cooperative,
  -- then an apply weaves nothing, whatever the gateway does, the retry and the fallback included.
  pub apply_manifest-never_weaves :
      (m : ControlManifest) (s : ControlStore)
      → every (escalates env.fingerprint) m.resources ≡ true
      → (apply_manifest env m s).0.auto_woven ≡ []
  apply_manifest-never_weaves m s esc =
      apply_manifest_rule env m IsUnwoven (λ p. p.auto_woven ≡ []) (UnwovenRule m esc) s
