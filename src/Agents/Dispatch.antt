-- ===== src/Agents/Dispatch.antt =====
-- bin/agents/orchestrator/dispatch_loop.py, and the dispatching methods of bin/agents/dispatcher.py. The runtime
-- that answers a call is a parameter. The texts of the two exceptions that these files raise are cut short.
pub mod Batches
pub mod Gate
pub mod Calls
pub mod Stale
use orama_system.Base.{
  ℕ, String, Bool, true, false, Option, none, some, List, [], ◌∷◌, ◌++◌, if◌then◌else◌, ◌==◌,
  concat, Dict, lookup, insert, map, is_some,
}
use orama_system.Oramaclaw.Json.{Value, text, obj, get_field, value_eq}
use orama_system.Agents.Plan.{
  WorkerSpec, StageName, crystallization, verification, stage_name, StageSpec, group_workers,
}

-- What is handed to the runtime: the worker's spec, with the stage that makes the call.
pub record Call : Type 0 where
  pub stage : StageName
  pub worker : WorkerSpec

-- A result: an object with a `verdict`, or a plain JSON value.
pub data Output : Type 0 where
  structured : String → Output
  plain : Value → Output

-- What is raised: a `PermissionError`, or any other exception.
pub data Failure : Type 0 where
  denied raised : String → Failure

pub data Reply (A : Type 0) : Type 0 where
  returned : A → Reply A
  failed : Failure → Reply A

pub record Entry : Type 0 where
  pub call : Call
  pub reply : Reply Output

-- The calls made so far, the newest first.
abbrev pub Trace : Type 0
Trace = List Entry

-- The runtime: its answer to a call after the calls of a trace, and which of several failures of a batch comes
-- first in time.
pub record Runtime : Type 0 where
  pub answer : Trace → Call → Reply Output
  pub earliest : Failure → List Failure → Failure

-- A result, after the calls of the trace.
pub record Done (A : Type 0) : Type 0 where
  pub trace : Trace
  pub result : Reply A

unfoldable pub dispatch_worker : Runtime → Call → Trace → Done Output
dispatch_worker rt c calls =
    let r = rt.answer calls c in
    record { trace = record { call = c; reply = r } ∷ calls; result = r }

-- The tasks of `dispatch_parallel`: each is begun, whatever the others return.
unfoldable pub begin_all : Runtime → List Call → Trace → Trace
begin_all rt [] calls = calls
begin_all rt (c ∷ cs) calls = begin_all rt cs (dispatch_worker rt c calls).trace

unfoldable pub replies_of : Runtime → List Call → Trace → List (Reply Output)
replies_of rt [] calls = []
replies_of rt (c ∷ cs) calls =
    let d = dispatch_worker rt c calls in d.result ∷ replies_of rt cs d.trace

abbrev pub failures : List (Reply Output) → List Failure
failures [] = []
failures (returned o ∷ rs) = failures rs
failures (failed f ∷ rs) = f ∷ failures rs

abbrev pub outputs : List (Reply Output) → List Output
outputs [] = []
outputs (returned o ∷ rs) = o ∷ outputs rs
outputs (failed f ∷ rs) = outputs rs

-- `asyncio.gather`: the results in order, or the exception that was raised first.
unfoldable pub gather : Runtime → List (Reply Output) → Reply (List Output)
gather rt rs = elim (failures rs) [
  | [] ↦ returned (outputs rs)
  | f ∷ fs ↦ failed (rt.earliest f fs)
]

unfoldable pub dispatch_parallel : Runtime → List Call → Trace → Done (List Output)
dispatch_parallel rt cs calls = record {
  trace = begin_all rt cs calls;
  result = gather rt (replies_of rt cs calls);
}

-- The call that `dispatch_crystallization` makes.
abbrev pub crystallizer : String → Call
crystallizer prompt = record {
  stage = crystallization;
  worker = record {
    role = "crystallizer-agent";
    intent = "crystallize";
    prompt = prompt;
    specialization = none;
    backend_hint = none;
    parallel_group = none;
  };
}

abbrev pub is_approved : Option Value → Bool
is_approved none = false
is_approved (some v) = value_eq v (text "approved")

-- `dispatch_crystallization`, given the verdict of the verification result, if there is one.
unfoldable pub dispatch_crystallization : Runtime → String → Option Value → Trace → Done Output
dispatch_crystallization rt prompt verdict calls =
    let go = dispatch_worker rt (crystallizer prompt) calls in
    if is_approved verdict
    then go
    else record { trace = calls; result = failed (denied "Crystallization blocked") }

abbrev pub call_of : StageName → WorkerSpec → Call
call_of stage w = record { stage = stage; worker = w }

-- `for w, result in zip(batch, results): stage_output[w.role] = result`
abbrev pub store_all : List WorkerSpec → List Output → Dict Output → Dict Output
store_all [] rs out = out
store_all (w ∷ ws) [] out = out
store_all (w ∷ ws) (r ∷ rs) out = store_all ws rs (insert w.role r out)

pub data Progress : Type 0 where
  going : Trace → Dict Output → Progress
  stopped : Trace → Failure → Progress

abbrev pub after_solo : WorkerSpec → Dict Output → Done Output → Progress
after_solo w out d = elim d.result [
  | returned o ↦ going d.trace (insert w.role o out)
  | failed f ↦ stopped d.trace f
]

abbrev pub after_batch : List WorkerSpec → Dict Output → Done (List Output) → Progress
after_batch ws out d = elim d.result [
  | returned os ↦ going d.trace (store_all ws os out)
  | failed f ↦ stopped d.trace f
]

-- One batch: `dispatch_worker` for one worker, `dispatch_parallel` otherwise.
unfoldable pub run_batch : Runtime → StageName → List WorkerSpec → Dict Output → Trace → Progress
run_batch rt stage [] out calls = after_batch [] out (dispatch_parallel rt [] calls)
run_batch rt stage (w ∷ []) out calls =
    after_solo w out (dispatch_worker rt (call_of stage w) calls)
run_batch rt stage (w ∷ x ∷ ws) out calls =
    after_batch (w ∷ x ∷ ws) out (dispatch_parallel rt (map (call_of stage) (w ∷ x ∷ ws)) calls)

unfoldable pub run_batches : Runtime → StageName → List (List WorkerSpec) → Progress → Progress
run_batches rt stage [] p = p
run_batches rt stage (b ∷ bs) (stopped calls f) = stopped calls f
run_batches rt stage (b ∷ bs) (going calls out) =
    run_batches rt stage bs (run_batch rt stage b out calls)

-- `stage.rubric or "Crystallize and present the final output."`
abbrev pub rubric_or_default : Option String → String
rubric_or_default none = "Crystallize and present the final output."
rubric_or_default (some r) = if r == "" then "Crystallize and present the final output." else r

abbrev pub prompt_of : StageSpec → String
prompt_of stage = elim stage.workers [ [] ↦ rubric_or_default stage.rubric | w ∷ ws ↦ w.prompt ]

abbrev pub after_crystallization : Done Output → Progress
after_crystallization d = elim d.result [
  | returned o ↦ going d.trace (insert "crystallization" o [])
  | failed f ↦ stopped d.trace f
]

abbrev pub is_crystallization : StageName → Bool
is_crystallization crystallization = true
is_crystallization _ = false

-- `_run_stage`
unfoldable pub run_stage : Runtime → StageSpec → Option Value → Trace → Progress
run_stage rt stage verdict calls =
    let batches = run_batches rt stage.stage (group_workers stage.workers) (going calls []) in
    if is_crystallization stage.stage
    then after_crystallization (dispatch_crystallization rt (prompt_of stage) verdict calls)
    else batches

-- The variables of `run_plan`. The verification result is read only for its verdict.
pub record Run : Type 0 where
  pub trace : Trace
  pub stage_outputs : Dict (Dict Output)
  pub verification_verdict : Option Value
  pub verdict : Option Value
  pub final_output : Option Value
  pub errors : List String

-- `verifier_output.verdict`, `d.get("verdict", "needs_revision")`, or an `AttributeError`.
abbrev pub verdict_of : Output → Option Value
verdict_of (structured v) = some (text v)
verdict_of (plain (obj d)) = elim (get_field "verdict" d) [
  | some v ↦ some v
  | none ↦ some (text "needs_revision")
]
verdict_of (plain _) = none

-- `next(iter(stage_out.values()), {})` and its verdict.
abbrev pub first_verdict : Dict Output → Option Value
first_verdict [] = some (text "needs_revision")
first_verdict ((_, o) ∷ _) = verdict_of o

-- `errors.append(f"[{stage.stage}] {exc}")`
abbrev pub note_error : StageName → String → Run → Run
note_error stage e r = record r {
  errors = r.errors ++ concat "[" (concat (stage_name stage) (concat "] " e)) ∷ [];
}

abbrev pub take_verdict : StageName → Option Value → Run → Run
take_verdict stage none r = note_error stage "no attribute 'get'" r
take_verdict stage (some v) r = record r { verification_verdict = some v; verdict = some v }

-- `crystal_out.get("output")` of `stage_out.get("crystallization", {})`, or an `AttributeError`.
abbrev pub take_output : StageName → Option Output → Run → Run
take_output stage none r = record r { final_output = none }
take_output stage (some (plain (obj d))) r = record r { final_output = get_field "output" d }
take_output stage (some _) r = note_error stage "no attribute 'get'" r

abbrev pub read_stage : StageName → Dict Output → Run → Run
read_stage verification out r = take_verdict verification (first_verdict out) r
read_stage crystallization out r = take_output crystallization (lookup "crystallization" out) r
read_stage _ out r = r

pub data Next : Type 0 where
  continue break : Run → Next

-- The body of the loop over the stages, after `_run_stage`.
unfoldable pub after_stage : StageName → Run → Progress → Next
after_stage stage r (going calls out) = continue (
    read_stage stage out
      (record r { trace = calls; stage_outputs = insert (stage_name stage) out r.stage_outputs }))
after_stage stage r (stopped calls (denied e)) =
    break (record r { trace = calls; errors = r.errors ++ concat "[GATE BLOCKED] " e ∷ [] })
after_stage stage r (stopped calls (raised e)) =
    continue (note_error stage e (record r { trace = calls }))

unfoldable pub run_stages : Runtime → List StageSpec → Next → Next
run_stages rt [] n = n
run_stages rt (s ∷ ss) (break r) = break r
run_stages rt (s ∷ ss) (continue r) =
    run_stages rt ss (after_stage s.stage r (run_stage rt s r.verification_verdict r.trace))

abbrev pub ended : Next → Run
ended (continue r) = r
ended (break r) = r

abbrev pub fresh_run : Run
fresh_run = record {
  trace = [];
  stage_outputs = [];
  verification_verdict = none;
  verdict = none;
  final_output = none;
  errors = [];
}

-- `run_plan`, up to the PlanResult that it builds from the run: the check of the field types, which raises on a
-- verdict or an output that is no text, is not part of it.
unfoldable pub run_plan : Runtime → List StageSpec → Run
run_plan rt stages = ended (run_stages rt stages (continue fresh_run))
