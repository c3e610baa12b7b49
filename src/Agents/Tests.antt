-- ===== src/Agents/Tests.antt =====
-- Runs of the agent network's stage machine and dispatch on concrete inputs.
use orama_system.Base.{Dict, String, ◌≡◌, refl, true, Option, none, some, List, [], ◌∷◌, arith, ◌↔◌}
use orama_system.Oramaclaw.Json.{value_eq, text, obj, field, end}
use orama_system.Agents.Core.{done, creativity}
use orama_system.Agents.Stages.{Advance, create_task_state}
use orama_system.Agents.Stages.Progress.{advance_all, advance_all-done, NoneFailed, nothing, more}
use orama_system.Agents.Stages.Gate.{Verified, done-Verified}
use orama_system.Agents.Plan
use orama_system.Agents.Plan.{
  WorkerSpec, StageSpec, group_workers, grouping, stages_must_be_ordered,
}
use orama_system.Agents.Plan.Groups.{IsGrouping, group_workers-IsGrouping}
use orama_system.Agents.Plan.Order.{Ordered, stages_must_be_ordered_iff}
use orama_system.Agents.Dispatch.{
  Output, plain, Runtime, returned, failed, raised, Run, fresh_run, crystallizer, prompt_of,
  run_stage, run_stages, run_plan, going, stopped, call_of, ended, continue, Entry, Trace, Progress,
  run_batches, run_batch, dispatch_worker,
}
use orama_system.Agents.Dispatch.Gate.{run_plan-gated}
use orama_system.Agents.Dispatch.Batches.{is_gated}
use orama_system.Agents.Dispatch.Calls.{trace_of, calls_of}
use orama_system.Agents.Dispatch.Stale.{stale_approval}

abbrev call : Advance
call = record { stage_output = none; elegance_score = none; validation = none; now = "now" }

abbrev nine : List Advance
nine = call ∷ call ∷ call ∷ call ∷ call ∷ call ∷ call ∷ call ∷ call ∷ []

none_failed : NoneFailed nine
none_failed = more refl (
    more refl
      (more refl (more refl (more refl (more refl (more refl (more refl (more refl nothing))))))))

advance_all-done_example : (advance_all nine (create_task_state creativity)).current_stage ≡ done
unfolding create_task_state
advance_all-done_example =
    advance_all-done nine (create_task_state creativity) none_failed (omega arith)

nine_done : (advance_all nine (create_task_state creativity)).current_stage ≡ done
unfolding create_task_state
nine_done = advance_all-done nine (create_task_state creativity) none_failed (omega arith)

done-Verified_example : Verified nine (create_task_state creativity)
unfolding create_task_state
done-Verified_example = done-Verified nine (create_task_state creativity) refl nine_done

abbrev worker : String → Option String → WorkerSpec
worker role group = record {
  role = role;
  intent = "work";
  prompt = "go";
  specialization = none;
  backend_hint = none;
  parallel_group = group;
}

abbrev team : List WorkerSpec
team = worker "a" (some "g") ∷ worker "b" (some "g") ∷ worker "c" none ∷ worker "d" (some "g") ∷ []

group_workers-IsGrouping_example : IsGrouping team (group_workers team)
group_workers-IsGrouping_example = group_workers-IsGrouping team

stages_must_be_ordered_iff_example :
    (stages_must_be_ordered ("context" ∷ "execution" ∷ "execution" ∷ "verification" ∷ []) ≡ true)
    ↔ Ordered ("context" ∷ "execution" ∷ "execution" ∷ "verification" ∷ [])
stages_must_be_ordered_iff_example =
    stages_must_be_ordered_iff ("context" ∷ "execution" ∷ "execution" ∷ "verification" ∷ [])

-- A runtime in which every worker approves.
abbrev approving : Runtime
approving = record {
  answer = λ calls c. returned (plain (obj (field "verdict" (text "approved") end)));
  earliest = λ f fs. f;
}

abbrev refusing : Runtime
refusing = record { answer = λ calls c. failed (raised "down"); earliest = λ f fs. f }

abbrev verify_stage : StageSpec
verify_stage = record {
  stage = Plan.verification;
  workers = worker "verifier" none ∷ [];
  rubric = none;
}

abbrev crystal_stage : StageSpec
crystal_stage = record { stage = Plan.crystallization; workers = []; rubric = none }

run_plan-gated_example :
    is_gated (run_plan approving (crystal_stage ∷ verify_stage ∷ crystal_stage ∷ [])).trace ≡ true
run_plan-gated_example =
    run_plan-gated approving (crystal_stage ∷ verify_stage ∷ crystal_stage ∷ [])

abbrev team_stage : StageSpec
team_stage = record { stage = Plan.execution; workers = team; rubric = none }

abbrev team_trace : Trace
team_trace = trace_of (run_stage approving team_stage none [])

abbrev results_of : Progress → Dict Output
results_of (going calls out) = out
results_of (stopped calls f) = []

abbrev team_results : Dict Output
team_results = results_of (run_stage approving team_stage none [])

-- A run in which the first verification approved.
abbrev approved_run : Run
approved_run = record fresh_run { verification_verdict = some (text "approved") }

abbrev failed_call : Entry
failed_call = record {
  call = call_of Plan.verification (worker "verifier" none);
  reply = failed (raised "down");
}

stale_approval_example :
    calls_of
      (ended
        (run_stages refusing (verify_stage ∷ crystal_stage ∷ []) (continue approved_run))).trace
    ≡ crystallizer (prompt_of crystal_stage) ∷ calls_of (failed_call ∷ [])
unfolding run_stage run_batches run_batch dispatch_worker group_workers grouping value_eq
stale_approval_example =
    stale_approval refusing verify_stage crystal_stage approved_run (failed_call ∷ []) "down" refl
      refl refl
