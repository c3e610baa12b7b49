-- ===== src/Agents/Dispatch/Gate.antt =====
-- The verifier gate of bin/agents/dispatcher.py and bin/agents/orchestrator/dispatch_loop.py.
use orama_system.Base.{
  ◌≡◌, refl, String, true, false, Option, none, some, List, [], ◌∷◌, Dict, insert, lookup, any,
  arith, Bool-cases, inl, inr,
}
use orama_system.Oramaclaw.Json.{Value, obj, value_eq}
use orama_system.Agents.Plan.{
  stage_name, StageName, crystallization, verification, StageSpec, group_workers,
}
use orama_system.Agents.Dispatch.{
  Output, Failure, Reply, returned, failed, Trace, Runtime, dispatch_worker, crystallizer,
  is_approved, dispatch_crystallization, Progress, going, stopped, run_batches, prompt_of,
  after_crystallization, is_crystallization, run_stage, Run, first_verdict, note_error,
  take_verdict, take_output, read_stage, structured, plain, Next, continue, break, after_stage,
  run_stages, ended, fresh_run, run_plan, denied, raised,
}
use orama_system.Agents.Dispatch.Batches.{
  Implies, is_verification, is_gated, approves, any_good, Backed, Sound, is_going, is_stopped,
  run_batches-Sound,
}

record IsGuarded (r : Run) : Type 0 where
  gated : is_gated r.trace ≡ true
  approved : Implies (is_approved r.verification_verdict) (any approves r.trace)

-- The stage of a run, begun with the calls and the verdict of a guarded run.
data StageSound (stage : StageName) (before : Trace) : Progress → Type 0 where
  went :
      {calls : Trace} {out : Dict Output}
      → is_gated calls ≡ true
      → Implies (any approves before) (any approves calls)
      → Backed stage calls out
      → StageSound stage before (going calls out)
  ceased :
      {calls : Trace} {f : Failure}
      → is_gated calls ≡ true
      → Implies (any approves before) (any approves calls)
      → StageSound stage before (stopped calls f)

Sound-StageSound :
    (stage : StageName) (before : Trace) (p : Progress)
    → is_gated before ≡ true
    → Sound stage before p
    → StageSound stage before p
Sound-StageSound stage before _ g (is_going g' k b) = went (g' g) k b
Sound-StageSound stage before _ g (is_stopped g' k) = ceased (g' g) k

after_crystallization-StageSound :
    (stage : StageName) (before calls : Trace) (r : Reply Output)
    → is_verification stage ≡ false
    → is_gated calls ≡ true
    → Implies (any approves before) (any approves calls)
    → StageSound stage before (after_crystallization (record { trace = calls; result = r }))
after_crystallization-StageSound stage before calls (returned o) v g k =
    went g k (λ h. ground (arith, v, h))
after_crystallization-StageSound stage before calls (failed f) v g k = ceased g k

dispatch_crystallization-StageSound :
    (rt : Runtime) (stage : StageName) (prompt : String) (r : Run)
    → is_verification stage ≡ false
    → IsGuarded r
    → StageSound stage r.trace
        (after_crystallization (dispatch_crystallization rt prompt r.verification_verdict r.trace))
unfolding dispatch_crystallization dispatch_worker
dispatch_crystallization-StageSound rt stage prompt r v g =
    elim (Bool-cases (is_approved r.verification_verdict)) [
      | inl a ↦ rw a (
          after_crystallization-StageSound stage r.trace
            (dispatch_worker rt (crystallizer prompt) r.trace).trace
            (rt.answer r.trace (crystallizer prompt)) v (ground (arith, g.gated, g.approved a))
            (λ h. h))
      | inr n ↦ rw n (
          after_crystallization-StageSound stage r.trace r.trace
            (failed (denied "Crystallization blocked")) v g.gated (λ h. h))
    ]

crystallization_unverified :
    (st : StageName) → is_crystallization st ≡ true → is_verification st ≡ false
crystallization_unverified crystallization c = refl
crystallization_unverified _ c = ground arith

run_stage-StageSound :
    (rt : Runtime) (s : StageSpec) (r : Run)
    → IsGuarded r
    → StageSound s.stage r.trace (run_stage rt s r.verification_verdict r.trace)
unfolding run_stage
run_stage-StageSound rt s r g = elim (Bool-cases (is_crystallization s.stage)) [
  | inl c ↦ rw c (
      dispatch_crystallization-StageSound rt s.stage (prompt_of s) r
        (crystallization_unverified s.stage c) g)
  | inr n ↦ rw n (
      Sound-StageSound s.stage r.trace
        (run_batches rt s.stage (group_workers s.workers) (going r.trace [])) g.gated
        (run_batches-Sound rt s.stage (group_workers s.workers) r.trace (going r.trace []) n
          (is_going (λ h. h) (λ h. h) (λ h. ground (arith, h)))))
]

note_error-IsGuarded :
    (stage : StageName) (e : String) (r : Run) → IsGuarded r → IsGuarded (note_error stage e r)
note_error-IsGuarded stage e r g = record { gated = g.gated; approved = g.approved }

take_verdict-IsGuarded :
    (v : Option Value) (r : Run)
    → IsGuarded r
    → Implies (is_approved v) (any approves r.trace)
    → IsGuarded (take_verdict verification v r)
take_verdict-IsGuarded none r g h = record { gated = g.gated; approved = g.approved }
take_verdict-IsGuarded (some v) r g h = record { gated = g.gated; approved = h }

take_output-IsGuarded :
    (o : Option Output) (r : Run) → IsGuarded r → IsGuarded (take_output crystallization o r)
take_output-IsGuarded none r g = record { gated = g.gated; approved = g.approved }
take_output-IsGuarded (some (structured v)) r g = record { gated = g.gated; approved = g.approved }
take_output-IsGuarded (some (plain (obj d))) r g = record { gated = g.gated; approved = g.approved }
take_output-IsGuarded (some (plain _)) r g = record { gated = g.gated; approved = g.approved }

first_verdict-any_good :
    (out : Dict Output) → Implies (is_approved (first_verdict out)) (any_good out)
unfolding value_eq
first_verdict-any_good [] h = ground (arith, h)
first_verdict-any_good ((k, o) ∷ out) h = ground (arith, h)

read_stage-IsGuarded :
    (stage : StageName) (out : Dict Output) (r : Run)
    → IsGuarded r
    → Backed stage r.trace out
    → IsGuarded (read_stage stage out r)
read_stage-IsGuarded verification out r g b =
    take_verdict-IsGuarded (first_verdict out) r g (λ h. b (first_verdict-any_good out h))
read_stage-IsGuarded crystallization out r g b =
    take_output-IsGuarded (lookup "crystallization" out) r g
read_stage-IsGuarded _ out r g b = g

after_stage-IsGuarded :
    (stage : StageName) (r : Run) (p : Progress)
    → IsGuarded r
    → StageSound stage r.trace p
    → IsGuarded (ended (after_stage stage r p))
unfolding after_stage
after_stage-IsGuarded stage r (going calls out) g (went t k b) =
    read_stage-IsGuarded stage out
      (record r { trace = calls; stage_outputs = insert (stage_name stage) out r.stage_outputs })
      (record { gated = t; approved = λ h. k (g.approved h) }) b
after_stage-IsGuarded stage r (stopped calls (denied e)) g (ceased t k) = record {
  gated = t;
  approved = λ h. k (g.approved h);
}
after_stage-IsGuarded stage r (stopped calls (raised e)) g (ceased t k) = record {
  gated = t;
  approved = λ h. k (g.approved h);
}

run_stages-IsGuarded :
    (rt : Runtime) (ss : List StageSpec) (n : Next)
    → IsGuarded (ended n)
    → IsGuarded (ended (run_stages rt ss n))
unfolding run_stages
run_stages-IsGuarded rt [] n g = g
run_stages-IsGuarded rt (s ∷ ss) (break r) g = g
run_stages-IsGuarded rt (s ∷ ss) (continue r) g =
    let p = run_stage rt s r.verification_verdict r.trace in
    run_stages-IsGuarded rt ss (after_stage s.stage r p)
      (after_stage-IsGuarded s.stage r p g (run_stage-StageSound rt s r g))

-- Whatever the plan and whatever the runtime answers, among the calls of a run every call of a crystallization
-- stage was made after a worker of a verification stage had returned the verdict "approved".
pub run_plan-gated :
    (rt : Runtime) (stages : List StageSpec) → is_gated (run_plan rt stages).trace ≡ true
unfolding run_plan
run_plan-gated rt stages =
    (run_stages-IsGuarded rt stages (continue fresh_run)
      (record { gated = refl; approved = λ h. ground (arith, h) })).gated
