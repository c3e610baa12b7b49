-- ===== src/Agents/Core.antt =====
-- bin/shared/oramasys_core.py: the data that the agents share. Scores and confidences are in thousandths, to
-- which `calculate_elegance_score` rounds.
use orama_system.Base.{ℕ, String, Bool, true, false, ◌&&◌, Option, List, [], ◌∷◌, ltb, Dict, pos}
use orama_system.Oramaclaw.Json.{Value, boolean, text, num, arr, obj, Items, nil, cons, end, field}

pub data Stage : Type 0 where
  context architecture refinement execution verification crystallization done : Stage

-- `stage.value`
abbrev pub stage_value : Stage → String
stage_value context = "context_immersion"
stage_value architecture = "architecture"
stage_value refinement = "refinement"
stage_value execution = "execution"
stage_value verification = "verification"
stage_value crystallization = "crystallization"
stage_value done = "done"

pub data Verdict : Type 0 where
  pass fail warning : Verdict

abbrev pub verdict_value : Verdict → String
verdict_value pass = "PASS"
verdict_value fail = "FAIL"
verdict_value warning = "WARNING"

pub data OptimizeFor : Type 0 where
  reliability creativity speed : OptimizeFor

-- The fields that the stage machine reads or writes; ids, descriptions and lists of agents and lessons are
-- carried along unread by the source and left out.
pub record TaskState : Type 0 where
  pub optimize_for : OptimizeFor
  pub current_stage : Stage
  pub iteration_count : ℕ
  pub max_iterations : ℕ
  pub elegance_score : ℕ
  pub elegance_threshold : ℕ
  pub stage_outputs : Dict Value
  pub completed_at : Option String

unfoldable pub needs_refinement : TaskState → Bool
needs_refinement s =
    ltb s.elegance_score s.elegance_threshold && ltb s.iteration_count s.max_iterations

unfoldable pub is_done : TaskState → Bool
is_done s = elim s.current_stage [ done ↦ true | _ ↦ false ]

pub record ValidationResult : Type 0 where
  pub valid : Bool
  pub verdict : Verdict
  pub confidence : ℕ
  pub issues : List String
  pub warnings : List String

abbrev pub texts : List String → Items
texts [] = nil
texts (t ∷ ts) = cons (text t) (texts ts)

-- `to_dict`, with the confidence in thousandths.
unfoldable pub validation_to_dict : ValidationResult → Value
validation_to_dict v = obj (
    field "valid" (boolean v.valid) (
      field "verdict" (text (verdict_value v.verdict)) (
        field "confidence" (num (pos v.confidence))
          (field "issues" (arr (texts v.issues)) (field "warnings" (arr (texts v.warnings)) end)))))
