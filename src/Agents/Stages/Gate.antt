-- ===== src/Agents/Stages/Gate.antt =====
-- What bin/agents/orchestrator/orchestrator_logic.py asks for before a task is crystallized and done.
use orama_system.Base.{◌≡◌, refl, Bool, true, false, arith, List, [], ◌∷◌, ◌⊎◌, inl, inr}
use orama_system.Agents.Core.{
  Stage, context, architecture, refinement, execution, verification, crystallization, done,
  TaskState, needs_refinement,
}
use orama_system.Agents.Stages.{Advance, advance_stage, move, with_output, with_score}
use orama_system.Agents.Stages.Progress.{is_failed, advance_all}

-- A call of the list, made on `s` and its successors, was made in verification with no failed validation.
pub data Verified : List Advance → TaskState → Type 0 where
  here :
      {a : Advance} {as_ : List Advance} {s : TaskState}
      → s.current_stage ≡ verification
      → is_failed a.validation ≡ false
      → Verified (a ∷ as_) s
  later :
      {a : Advance} {as_ : List Advance} {s : TaskState}
      → Verified as_ (advance_stage a s)
      → Verified (a ∷ as_) s

-- The stages before the work is accepted.
abbrev pub is_open : Stage → Bool
is_open crystallization = false
is_open done = false
is_open _ = true

move-is_open :
    (st : Stage) (a : Advance) (s : TaskState)
    → is_open st ≡ true
    → (is_open (move st a s).current_stage ≡ true)
      ⊎ ((st ≡ verification) × (is_failed a.validation ≡ false))
unfolding move needs_refinement
move-is_open context a s o = inl refl
move-is_open architecture a s o = ground arith
move-is_open refinement a s o = ground arith
move-is_open execution a s o = inl refl
move-is_open verification a s o = ground arith
move-is_open crystallization a s o = ground arith
move-is_open done a s o = ground arith

advance_stage-is_open :
    (a : Advance) (s : TaskState)
    → is_open s.current_stage ≡ true
    → (is_open (advance_stage a s).current_stage ≡ true)
      ⊎ ((s.current_stage ≡ verification) × (is_failed a.validation ≡ false))
unfolding advance_stage with_output with_score
advance_stage-is_open a s o =
    move-is_open s.current_stage a (with_score a.elegance_score (with_output a.stage_output s)) o

-- A task in a stage before crystallization that a list of calls brings to `done` was in verification at one of
-- these calls, and that call was not given a failed validation: it was given none, or one that passes or warns.
pub done-Verified :
    (as_ : List Advance) (s : TaskState)
    → is_open s.current_stage ≡ true
    → (advance_all as_ s).current_stage ≡ done
    → Verified as_ s
unfolding advance_all
done-Verified [] s o d = ground arith
done-Verified (a ∷ as_) s o d = elim (advance_stage-is_open a s o) [
  | inl o' ↦ later (done-Verified as_ (advance_stage a s) o' d)
  | inr (v, f) ↦ here v f
]
