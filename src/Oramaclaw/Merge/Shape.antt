-- ===== src/Oramaclaw/Merge/Shape.antt =====
-- The shape of a plan of src/oramaclaw/merge.py: its actions, its conflicts and its auto-woven paths.
use orama_system.Base.{
  String, ◌≡◌, refl, sym, ◌∙◌, ap, Bool, true, false, List, [], ◌∷◌, ◌++◌, map, arith, append_assoc,
  append-nil, select, select-append, subst,
}
use mathlib.Core.Path.{ap₂}
use mathlib.Core.List.{map-append}
use orama_system.Oramaclaw.Json.{Value}
use orama_system.Oramaclaw.Types.{Resource, Conflict}
use orama_system.Oramaclaw.Store.{ControlStore}
use orama_system.Oramaclaw.Merge.{
  ActionKind, auto_weave, FieldAction, FieldPlan, MergePlan, plan_field, plan_changed, plan_drift,
  plan_paths, plan_resource, make_conflict,
}

abbrev pub is_conflict : ActionKind → Bool
is_conflict ActionKind.conflict = true
is_conflict _ = false

abbrev pub is_weave : ActionKind → Bool
is_weave auto_weave = true
is_weave _ = false

-- The paths of the actions of one kind.
abbrev pub paths_of : (ActionKind → Bool) → List FieldAction → List String
paths_of test actions = map (λ a. a.managed_path) (select (λ a. test a.kind) actions)

abbrev pub conflict_path : Conflict → String
conflict_path c = c.managed_path

-- What a round appends agrees with its action.
pub record Agrees (path : String) (f : FieldPlan) : Type 0 where
  pub at_path : f.action.managed_path ≡ path
  pub conflicts : map conflict_path f.conflicts ≡ paths_of is_conflict (f.action ∷ [])
  pub woven : f.auto_woven ≡ paths_of is_weave (f.action ∷ [])

module _ (fingerprint : Value → String) where
  plan_field-Agrees :
      (r : Resource) (path : String) (live : Value) (s : ControlStore)
      → Agrees path (plan_field fingerprint r path live s)
  unfolding plan_field plan_changed plan_drift make_conflict
  plan_field-Agrees r path live s = ground arith

-- The three lists of a plan agree, for the managed paths that are planned.
pub record IsCoherent (done : List String) (plan : MergePlan) : Type 0 where
  pub paths : map (λ (a : FieldAction). a.managed_path) plan.actions ≡ done
  pub conflicts : map conflict_path plan.conflicts ≡ paths_of is_conflict plan.actions
  pub woven : plan.auto_woven ≡ paths_of is_weave plan.actions

abbrev extend : MergePlan → FieldPlan → MergePlan
extend plan f = record plan {
  actions = plan.actions ++ f.action ∷ [];
  conflicts = plan.conflicts ++ f.conflicts;
  auto_woven = plan.auto_woven ++ f.auto_woven;
}

paths_of-append :
    (test : ActionKind → Bool) (xs ys : List FieldAction)
    → paths_of test (xs ++ ys) ≡ paths_of test xs ++ paths_of test ys
paths_of-append test xs ys =
    ap (map (λ a. a.managed_path)) (select-append (λ a. test a.kind) xs ys) ∙ map-append _ _ _

extend-IsCoherent :
    (done : List String) (path : String) (plan : MergePlan) (f : FieldPlan)
    → IsCoherent done plan
    → Agrees path f
    → IsCoherent (done ++ path ∷ []) (extend plan f)
extend-IsCoherent done path plan f c a = record {
  paths = map-append _ _ _ ∙ ap₂ ◌++◌ c.paths (ap (λ (p : String). p ∷ []) a.at_path);
  conflicts =
      map-append _ _ _
      ∙ ap₂ ◌++◌ c.conflicts a.conflicts
      ∙ sym (paths_of-append is_conflict plan.actions (f.action ∷ []));
  woven = ap₂ ◌++◌ c.woven a.woven ∙ sym (paths_of-append is_weave plan.actions (f.action ∷ []));
}

module _ (fingerprint : Value → String) where
  plan_paths-IsCoherent :
      (r : Resource) (done ps : List String) (live : Value) (s : ControlStore) (plan : MergePlan)
      → IsCoherent done plan
      → IsCoherent (done ++ ps) (plan_paths fingerprint r ps live s plan)
  unfolding plan_paths
  plan_paths-IsCoherent r done [] live s plan c = rw append-nil c
  plan_paths-IsCoherent r done (p ∷ ps) live s plan c =
      let f = plan_field fingerprint r p live s in
      subst (λ (l : List String). IsCoherent l (plan_paths fingerprint r ps live s (extend plan f)))
        (append_assoc done (p ∷ []) ps)
        (plan_paths-IsCoherent r (done ++ p ∷ []) ps live s (extend plan f)
          (extend-IsCoherent done p plan f c (plan_field-Agrees fingerprint r p live s)))

-- A plan has one action for each managed path, in their order. Its conflicts are those of its conflict
-- actions, and its auto-woven paths those of its auto-weave actions, each in order.
pub plan_resource-IsCoherent :
    (fingerprint : Value → String) (r : Resource) (live : Value) (s : ControlStore)
    → IsCoherent r.managed_paths (plan_resource fingerprint r live s)
unfolding plan_resource
plan_resource-IsCoherent fingerprint r live s =
    plan_paths-IsCoherent fingerprint r [] r.managed_paths live s _
      (record { paths = refl; conflicts = refl; woven = refl })
