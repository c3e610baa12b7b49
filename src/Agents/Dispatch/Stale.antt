-- ===== src/Agents/Dispatch/Stale.antt =====
-- What is left of an approval in bin/agents/orchestrator/dispatch_loop.py when a later verification raises.
use orama_system.Base.{◌≡◌, refl, String, true, none, some, [], ◌∷◌, Dict, ◌∙◌, ap, insert, lookup}
use orama_system.Oramaclaw.Json.{obj}
use orama_system.Agents.Plan.{StageName, StageSpec, verification, crystallization, stage_name}
use orama_system.Agents.Dispatch.{
  Output, Reply, returned, failed, denied, raised, Trace, Runtime, dispatch_worker, crystallizer,
  is_approved, dispatch_crystallization, Progress, going, stopped, prompt_of, after_crystallization,
  is_crystallization, run_stage, Run, continue, after_stage, run_stages, ended, note_error,
  structured, plain, take_output, take_verdict, read_stage, first_verdict,
}
use orama_system.Agents.Dispatch.Calls.{calls_of, trace_of}

read_stage-trace :
    (stage : StageName) (out : Dict Output) (r : Run) → (read_stage stage out r).trace ≡ r.trace
read_stage-trace verification out r =
    elim (first_verdict out) as (λ v. (take_verdict verification v r).trace ≡ r.trace) [
      | none ↦ refl
      | some v ↦ refl
    ]
read_stage-trace crystallization out r =
    elim (lookup "crystallization" out)
      as (λ o. (take_output crystallization o r).trace ≡ r.trace) [
        | none ↦ refl
        | some (structured v) ↦ refl
        | some (plain (obj d)) ↦ refl
        | some (plain _) ↦ refl
      ]
read_stage-trace _ out r = refl

after_stage-trace :
    (stage : StageName) (r : Run) (p : Progress)
    → (ended (after_stage stage r p)).trace ≡ trace_of p
unfolding after_stage
after_stage-trace stage r (going calls out) =
    read_stage-trace stage out
      (record r { trace = calls; stage_outputs = insert (stage_name stage) out r.stage_outputs })
after_stage-trace stage r (stopped calls (denied e)) = refl
after_stage-trace stage r (stopped calls (raised e)) = refl

trace_of-after_crystallization :
    (calls : Trace) (reply : Reply Output)
    → trace_of (after_crystallization (record { trace = calls; result = reply })) ≡ calls
trace_of-after_crystallization calls (returned o) = refl
trace_of-after_crystallization calls (failed f) = refl

crystallize_approved :
    (rt : Runtime) (s : StageSpec) (r : Run)
    → is_crystallization s.stage ≡ true
    → is_approved r.verification_verdict ≡ true
    → run_stage rt s r.verification_verdict r.trace
      ≡ after_crystallization (dispatch_worker rt (crystallizer (prompt_of s)) r.trace)
unfolding run_stage dispatch_crystallization
crystallize_approved rt s r c a = rw (c, a) refl

-- A stage that raises an exception other than PermissionError, RuntimeError included, also one of verification,
-- leaves an approval given before it in force: if the next stage is crystallization, the crystallizer is called.
pub stale_approval :
    (rt : Runtime) (v s : StageSpec) (r : Run) (calls : Trace) (e : String)
    → is_approved r.verification_verdict ≡ true
    → run_stage rt v r.verification_verdict r.trace ≡ stopped calls (raised e)
    → is_crystallization s.stage ≡ true
    → calls_of (ended (run_stages rt (v ∷ s ∷ []) (continue r))).trace
      ≡ crystallizer (prompt_of s) ∷ calls_of calls
unfolding run_stages after_stage dispatch_worker
stale_approval rt v s r calls e a f c =
    let r1 = note_error v.stage e (record r { trace = calls }) in
    let d = dispatch_worker rt (crystallizer (prompt_of s)) calls in
    ap (λ p. calls_of (ended (run_stages rt (s ∷ []) (after_stage v.stage r p))).trace) f
    ∙ ap calls_of (
        after_stage-trace s.stage r1 (run_stage rt s r1.verification_verdict r1.trace)
        ∙ ap trace_of (crystallize_approved rt s r1 c a)
        ∙ trace_of-after_crystallization d.trace d.result)
