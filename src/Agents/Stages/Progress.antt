-- ===== src/Agents/Stages/Progress.antt =====
-- How far the stage machine of bin/agents/orchestrator/orchestrator_logic.py still has to go, and its refinements.
use orama_system.Base.{
  ℕ, ◌+◌, ◌-◌, ◌≤◌, ◌≡◌, refl, Bool, false, Option, none, some, List, [], ◌∷◌, arith, length, ap₂,
}
use orama_system.Agents.Core.{
  Stage, context, architecture, refinement, execution, verification, crystallization, done,
  TaskState, needs_refinement, ValidationResult,
}
use orama_system.Agents.Stages.{Advance, advance_stage, is_fail, move, with_output, with_score}

-- No more refinements than allowed.
abbrev pub InBudget : TaskState → Type 0
InBudget s = s.iteration_count ≤ s.max_iterations

abbrev pub is_failed : Option ValidationResult → Bool
is_failed none = false
is_failed (some v) = is_fail v.verdict

-- The number of calls that can still follow, as long as no verification fails.
abbrev rank : Stage → ℕ → ℕ
rank context left = 6 + left
rank architecture left = 5 + left
rank refinement left = 4 + left
rank execution left = 3
rank verification left = 2
rank crystallization left = 1
rank done left = 0

abbrev pub calls_left : TaskState → ℕ
calls_left s = rank s.current_stage (s.max_iterations - s.iteration_count)

-- Recording the optional arguments leaves the stage and the counters alone.
prepared : Advance → TaskState → TaskState
unfolding with_output with_score
prepared a s = with_score a.elegance_score (with_output a.stage_output s)

record SameCounters (s t : TaskState) : Type 0 where
  stage : t.current_stage ≡ s.current_stage
  count : t.iteration_count ≡ s.iteration_count
  limit : t.max_iterations ≡ s.max_iterations

prepared-SameCounters : (a : Advance) (s : TaskState) → SameCounters s (prepared a s)
unfolding prepared
prepared-SameCounters a s = ground arith

prepared-left :
    (st : Stage) (a : Advance) (s : TaskState)
    → rank st ((prepared a s).max_iterations - (prepared a s).iteration_count)
      ≡ rank st (s.max_iterations - s.iteration_count)
prepared-left st a s =
    let c = prepared-SameCounters a s in ap₂ (λ m n. rank st (m - n)) c.limit c.count

move-InBudget : (st : Stage) (a : Advance) (s : TaskState) → InBudget s → InBudget (move st a s)
unfolding move needs_refinement
move-InBudget verification a s h = ground arith
move-InBudget _ a s h = ground arith

-- The refinements never pass their limit.
pub advance_stage-InBudget :
    (a : Advance) (s : TaskState) → InBudget s → InBudget (advance_stage a s)
unfolding advance_stage prepared
advance_stage-InBudget a s h =
    let c = prepared-SameCounters a s in
    move-InBudget s.current_stage a (prepared a s) (omega (arith, c.count, c.limit))

move-calls_left :
    (st : Stage) (a : Advance) (s : TaskState)
    → s.current_stage ≡ st
    → is_failed a.validation ≡ false
    → calls_left (move st a s) ≤ rank st (s.max_iterations - s.iteration_count) - 1
unfolding move needs_refinement
move-calls_left context a s e v = ground arith
move-calls_left architecture a s e v = ground arith
move-calls_left refinement a s e v = ground arith
move-calls_left verification a s e v = ground arith
move-calls_left _ a s e v = ground arith

advance_stage-calls_left :
    (a : Advance) (s : TaskState)
    → is_failed a.validation ≡ false
    → calls_left (advance_stage a s) ≤ calls_left s - 1
unfolding advance_stage prepared
advance_stage-calls_left a s v =
    let c = prepared-SameCounters a s in
    omega (
      arith,
      move-calls_left s.current_stage a (prepared a s) c.stage v,
      prepared-left s.current_stage a s,
    )

-- The calls of `advance_stage` on one task, in order.
unfoldable pub advance_all : List Advance → TaskState → TaskState
advance_all [] s = s
advance_all (a ∷ as_) s = advance_all as_ (advance_stage a s)

-- No call of the list is given a failed validation.
pub data NoneFailed : List Advance → Type 0 where
  nothing : NoneFailed []
  more :
      {a : Advance} {as_ : List Advance}
      → is_failed a.validation ≡ false
      → NoneFailed as_
      → NoneFailed (a ∷ as_)

rank-done : (st : Stage) (left : ℕ) → rank st left ≤ 0 → st ≡ done
rank-done done left h = refl
rank-done context left h = ground arith
rank-done architecture left h = ground arith
rank-done refinement left h = ground arith
rank-done execution left h = ground arith
rank-done verification left h = ground arith
rank-done crystallization left h = ground arith

rank_at_most : (st : Stage) (left : ℕ) → rank st left ≤ 6 + left
rank_at_most st left = ground arith

reaches_done :
    (as_ : List Advance) (s : TaskState)
    → NoneFailed as_
    → calls_left s ≤ length as_
    → (advance_all as_ s).current_stage ≡ done
unfolding advance_all
reaches_done [] s nothing h =
    rank-done s.current_stage (s.max_iterations - s.iteration_count) (omega arith)
reaches_done (a ∷ as_) s (more v vs) h =
    let c = advance_stage-calls_left a s v in reaches_done as_ (advance_stage a s) vs (omega arith)

-- As long as no verification fails, every task is done after six calls and one more for each refinement that is
-- left, whatever scores and outputs the calls are given.
pub advance_all-done :
    (as_ : List Advance) (s : TaskState)
    → NoneFailed as_
    → 6 + (s.max_iterations - s.iteration_count) ≤ length as_
    → (advance_all as_ s).current_stage ≡ done
advance_all-done as_ s vs h =
    reaches_done as_ s vs
      (omega (arith, rank_at_most s.current_stage (s.max_iterations - s.iteration_count)))
