-- ===== src/Agents/Dispatch/Calls.antt =====
-- The calls that a stage of bin/agents/orchestrator/dispatch_loop.py makes.
use orama_system.Base.{
  ◌≡◌, refl, false, Option, List, [], ◌∷◌, ◌++◌, Dict, map, sym, ◌∙◌, ap, subst,
}
use orama_system.Oramaclaw.Json.{Value}
use orama_system.Agents.Plan.{WorkerSpec, StageName, StageSpec, group_workers}
use orama_system.Agents.Plan.Groups.{flatten, group_workers-IsGrouping}
use orama_system.Agents.Dispatch.{
  Call, Output, Failure, Reply, returned, failed, Trace, Runtime, dispatch_worker, begin_all,
  replies_of, gather, dispatch_parallel, call_of, Progress, going, stopped, after_solo, after_batch,
  run_batch, run_batches, is_crystallization, run_stage,
}

abbrev pub calls_of : Trace → List Call
calls_of [] = []
calls_of (e ∷ t) = e.call ∷ calls_of t

-- The calls `cs` made one after the other after those of a list, the newest first.
abbrev pub after_calls : List Call → List Call → List Call
after_calls [] made = made
after_calls (c ∷ cs) made = after_calls cs (c ∷ made)

after_calls-append :
    (stage : StageName) (xs ys : List WorkerSpec) (made : List Call)
    → after_calls (map (call_of stage) (xs ++ ys)) made
      ≡ after_calls (map (call_of stage) ys) (after_calls (map (call_of stage) xs) made)
after_calls-append stage [] ys made = refl
after_calls-append stage (x ∷ xs) ys made = after_calls-append stage xs ys (call_of stage x ∷ made)

abbrev pub trace_of : Progress → Trace
trace_of (going calls out) = calls
trace_of (stopped calls f) = calls

begin_all-calls :
    (rt : Runtime) (cs : List Call) (calls : Trace)
    → calls_of (begin_all rt cs calls) ≡ after_calls cs (calls_of calls)
unfolding begin_all dispatch_worker
begin_all-calls rt [] calls = refl
begin_all-calls rt (c ∷ cs) calls = begin_all-calls rt cs (dispatch_worker rt c calls).trace

trace_of-after_solo :
    (w : WorkerSpec) (out : Dict Output) (calls : Trace) (r : Reply Output)
    → trace_of (after_solo w out (record { trace = calls; result = r })) ≡ calls
trace_of-after_solo w out calls (returned o) = refl
trace_of-after_solo w out calls (failed f) = refl

trace_of-after_batch :
    (ws : List WorkerSpec) (out : Dict Output) (calls : Trace) (r : Reply (List Output))
    → trace_of (after_batch ws out (record { trace = calls; result = r })) ≡ calls
trace_of-after_batch ws out calls (returned o) = refl
trace_of-after_batch ws out calls (failed f) = refl

run_batch-calls :
    (rt : Runtime) (stage : StageName) (b : List WorkerSpec) (out : Dict Output) (calls : Trace)
    → calls_of (trace_of (run_batch rt stage b out calls))
      ≡ after_calls (map (call_of stage) b) (calls_of calls)
unfolding run_batch dispatch_parallel dispatch_worker
run_batch-calls rt stage [] out calls =
    ap calls_of
      (trace_of-after_batch [] out (begin_all rt [] calls) (gather rt (replies_of rt [] calls)))
    ∙ begin_all-calls rt [] calls
run_batch-calls rt stage (w ∷ []) out calls =
    let d = dispatch_worker rt (call_of stage w) calls in
    ap calls_of (trace_of-after_solo w out d.trace d.result)
run_batch-calls rt stage (w ∷ x ∷ ws) out calls =
    let cs = map (call_of stage) (w ∷ x ∷ ws) in
    ap calls_of (
      trace_of-after_batch (w ∷ x ∷ ws) out (begin_all rt cs calls)
        (gather rt (replies_of rt cs calls)))
    ∙ begin_all-calls rt cs calls

-- If every batch returned, each of their workers was called once, in order.
data Complete (stage : StageName) (ws : List WorkerSpec) (made : List Call)
    : Progress → Type 0 where
  complete :
      {calls : Trace} {out : Dict Output}
      → calls_of calls ≡ after_calls (map (call_of stage) ws) made
      → Complete stage ws made (going calls out)
  cut_short : {calls : Trace} {f : Failure} → Complete stage ws made (stopped calls f)

rebase :
    (stage : StageName) (xs ys : List WorkerSpec) (made now : List Call) (p : Progress)
    → now ≡ after_calls (map (call_of stage) xs) made
    → Complete stage ys now p
    → Complete stage (xs ++ ys) made p
rebase stage xs ys made now _ h (complete e) =
    complete
      (e ∙ ap (after_calls (map (call_of stage) ys)) h ∙ sym (after_calls-append stage xs ys made))
rebase stage xs ys made now _ h cut_short = cut_short

run_batches-Complete :
    (rt : Runtime) (stage : StageName) (bs : List (List WorkerSpec)) (p : Progress)
    → Complete stage (flatten bs) (calls_of (trace_of p)) (run_batches rt stage bs p)
unfolding run_batches
run_batches-Complete rt stage [] (going calls out) = complete refl
run_batches-Complete rt stage [] (stopped calls f) = cut_short
run_batches-Complete rt stage (b ∷ bs) (stopped calls f) = cut_short
run_batches-Complete rt stage (b ∷ bs) (going calls out) =
    let q = run_batch rt stage b out calls in
    rebase stage b (flatten bs) (calls_of calls) (calls_of (trace_of q)) (run_batches rt stage bs q)
      (run_batch-calls rt stage b out calls) (run_batches-Complete rt stage bs q)

Complete-calls :
    (stage : StageName) (ws : List WorkerSpec) (made : List Call) (calls : Trace)
    (out : Dict Output)
    → Complete stage ws made (going calls out)
    → calls_of calls ≡ after_calls (map (call_of stage) ws) made
Complete-calls stage ws made calls out (complete e) = e

run_stage-ordinary :
    (rt : Runtime) (s : StageSpec) (verdict : Option Value) (before : Trace)
    → is_crystallization s.stage ≡ false
    → run_stage rt s verdict before
      ≡ run_batches rt s.stage (group_workers s.workers) (going before [])
unfolding run_stage
run_stage-ordinary rt s verdict before n = rw n refl

-- A stage other than crystallization that returns its results has called each of its workers exactly once, in
-- the order of the plan, however they are grouped.
pub run_stage-calls :
    (rt : Runtime) (s : StageSpec) (verdict : Option Value) (before after : Trace)
    (out : Dict Output)
    → is_crystallization s.stage ≡ false
    → run_stage rt s verdict before ≡ going after out
    → calls_of after ≡ after_calls (map (call_of s.stage) s.workers) (calls_of before)
run_stage-calls rt s verdict before after out n e =
    let g = group_workers-IsGrouping s.workers in
    let c = run_batches-Complete rt s.stage (group_workers s.workers) (going before []) in
    rw⁻¹ g.same_order (
      Complete-calls s.stage (flatten (group_workers s.workers)) (calls_of before) after out (
        subst (Complete s.stage (flatten (group_workers s.workers)) (calls_of before))
          (sym (run_stage-ordinary rt s verdict before n) ∙ e) c))
