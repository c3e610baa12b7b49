-- ===== src/Agents/Plan.antt =====
-- bin/agents/orchestrator/task_schema.py, the plan of a request, and `_group_workers` of
-- bin/agents/orchestrator/dispatch_loop.py.
pub mod Groups
pub mod Order
use orama_system.Base.{
  ℕ, suc, String, Bool, true, false, Option, none, some, List, [], ◌∷◌, ◌++◌, if◌then◌else◌, ltb,
  ◌==◌,
}

-- The metadata and the constraints of a worker are handed to the runtime unread, and left out.
pub record WorkerSpec : Type 0 where
  pub role : String
  pub intent : String
  pub prompt : String
  pub specialization : Option String
  pub backend_hint : Option String
  pub parallel_group : Option String

pub data StageName : Type 0 where
  context architecture refinement execution verification crystallization : StageName

abbrev pub stage_name : StageName → String
stage_name context = "context"
stage_name architecture = "architecture"
stage_name refinement = "refinement"
stage_name execution = "execution"
stage_name verification = "verification"
stage_name crystallization = "crystallization"

pub record StageSpec : Type 0 where
  pub stage : StageName
  pub workers : List WorkerSpec
  pub rubric : Option String

-- `name in _order` and `_order.index(name)`
abbrev pub index : String → List String → Option ℕ
index name [] = none
index name (x ∷ xs) =
    if x == name then some 0 else elim (index name xs) [ none ↦ none | some i ↦ some (suc i) ]

abbrev pub order : List String
order =
    "context" ∷ "architecture" ∷ "refinement" ∷ "execution" ∷ "verification" ∷ "crystallization"
    ∷ []

-- The loop of `stages_must_be_ordered`: `false` where it raises. The bound is `prev_idx + 1`, as `prev_idx`
-- begins at -1.
unfoldable pub in_order : ℕ → List String → Bool
in_order bound [] = true
in_order bound (name ∷ names) = elim (index name order) [
  | none ↦ in_order bound names
  | some i ↦ (let rest = in_order (suc i) names in if ltb (suc i) bound then false else rest)
]

unfoldable pub stages_must_be_ordered : List String → Bool
stages_must_be_ordered names = in_order 0 names

-- `if batch: yield batch`
abbrev pub flush : List WorkerSpec → List (List WorkerSpec)
flush [] = []
flush (w ∷ ws) = (w ∷ ws) ∷ []

-- `w.parallel_group == current_group` for a group that is set.
abbrev pub is_group : String → Option String → Bool
is_group g none = false
is_group g (some h) = g == h

-- What the group is after `if batch: ...; current_group = None`.
abbrev pub reset : List WorkerSpec → Option String → Option String
reset [] current_group = current_group
reset (_ ∷ _) current_group = none

-- The loop of `_group_workers`, with its two variables.
unfoldable pub grouping : List WorkerSpec → Option String → List WorkerSpec → List (List WorkerSpec)
grouping batch current_group [] = flush batch
grouping batch current_group (w ∷ ws) = elim w.parallel_group [
  | some g ↦
      (let same = grouping (batch ++ w ∷ []) current_group ws in
        let other = grouping (w ∷ []) (some g) ws in
        if is_group g current_group then same else flush batch ++ other)
  | none ↦ flush batch ++ (w ∷ []) ∷ grouping [] (reset batch current_group) ws
]

unfoldable pub group_workers : List WorkerSpec → List (List WorkerSpec)
group_workers workers = grouping [] none workers
