-- ===== src/Agents/Stages.antt =====
-- bin/agents/orchestrator/orchestrator_logic.py: the stage machine of a task.
pub mod Progress
pub mod Gate
use orama_system.Base.{
  ℕ, ◌+◌, String, Bool, true, false, Option, none, some, if◌then◌else◌, insert, ◌==◌, [],
}
use orama_system.Oramaclaw.Json.{Value}
use orama_system.Agents.Core.{
  Stage, context, architecture, refinement, execution, verification, crystallization, done,
  stage_value, Verdict, fail, OptimizeFor, TaskState, needs_refinement, ValidationResult,
  validation_to_dict,
}

-- `create_task_state`, with the defaults of the dataclass.
unfoldable pub create_task_state : OptimizeFor → TaskState
create_task_state optimize_for = record {
  optimize_for = optimize_for;
  current_stage = context;
  iteration_count = 0;
  max_iterations = 3;
  elegance_score = 0;
  elegance_threshold = 800;
  stage_outputs = [];
  completed_at = none;
}

unfoldable pub record_stage_output : Stage → Value → TaskState → TaskState
record_stage_output stage output s = record s {
  stage_outputs = insert (stage_value stage) output s.stage_outputs;
}

-- The optional arguments of `advance_stage`, and what `utc_now_iso()` would return.
pub record Advance : Type 0 where
  pub stage_output : Option Value
  pub elegance_score : Option ℕ
  pub validation : Option ValidationResult
  pub now : String

with_output : Option Value → TaskState → TaskState
unfolding record_stage_output
with_output none s = s
with_output (some o) s = record_stage_output s.current_stage o s

with_score : Option ℕ → TaskState → TaskState
with_score none s = s
with_score (some e) s = record s { elegance_score = e }

-- `state.completed_at or utc_now_iso()`: an empty text counts as none.
abbrev or_now : Option String → String → Option String
or_now none now = some now
or_now (some t) now = if t == "" then some now else some t

refine : TaskState → TaskState
refine s =
    if needs_refinement s
    then record s { iteration_count = s.iteration_count + 1; current_stage = refinement }
    else record s { current_stage = execution }

abbrev pub is_fail : Verdict → Bool
is_fail fail = true
is_fail _ = false

verify : Option ValidationResult → TaskState → TaskState
unfolding record_stage_output
verify none s = record s { current_stage = crystallization }
verify (some v) s =
    let s' = record_stage_output verification (validation_to_dict v) s in
    if is_fail v.verdict
    then record s' { current_stage = execution }
    else record s' { current_stage = crystallization }

-- The branches on the stage at which the call began.
move : Stage → Advance → TaskState → TaskState
unfolding refine verify
move context a s = record s { current_stage = architecture }
move architecture a s = refine s
move refinement a s = refine s
move execution a s = record s { current_stage = verification }
move verification a s = verify a.validation s
move crystallization a s = record s {
  current_stage = done;
  completed_at = or_now s.completed_at a.now;
}
move done a s = s

unfoldable pub advance_stage : Advance → TaskState → TaskState
unfolding with_output with_score move
advance_stage a s =
    move s.current_stage a (with_score a.elegance_score (with_output a.stage_output s))
