-- ===== src/Agents/Dispatch/Batches.antt =====
-- What the batches of a stage in bin/agents/orchestrator/dispatch_loop.py do to the calls made and to the results.
use orama_system.Base.{
  ◌≡◌, refl, String, Bool, true, false, ◌&&◌, ◌||◌, not, List, [], ◌∷◌, Dict, insert, any, arith,
  map, ◌⊎◌, inl, inr, ap,
}
use orama_system.Agents.Plan.{WorkerSpec, StageName, verification}
use orama_system.Agents.Dispatch.{
  Output, Failure, Reply, returned, failed, Entry, Trace, Runtime, dispatch_worker, begin_all,
  replies_of, outputs, failures, gather, dispatch_parallel, is_approved, call_of, store_all,
  Progress, going, stopped, after_solo, after_batch, run_batch, run_batches, is_crystallization,
  verdict_of,
}

abbrev pub is_verification : StageName → Bool
is_verification verification = true
is_verification _ = false

abbrev pub is_good : Output → Bool
is_good o = is_approved (verdict_of o)

abbrev pub has_good : Reply Output → Bool
has_good (returned o) = is_good o
has_good (failed f) = false

-- A worker of a verification stage returned the verdict "approved".
abbrev pub approves : Entry → Bool
approves e = is_verification e.call.stage && has_good e.reply

-- Every call of a crystallization stage was made after a verification worker returned "approved".
abbrev pub is_gated : Trace → Bool
is_gated [] = true
is_gated (e ∷ t) = (not (is_crystallization e.call.stage) || any approves t) && is_gated t

abbrev pub Implies : Bool → Bool → Type 0
Implies a b = a ≡ true → b ≡ true

-- What holds of the calls `after`, made after those of `before`, and of results with a good one among them or not.
record Keeps (stage : StageName) (before after : Trace) (good : Bool) : Type 0 where
  gated : Implies (is_gated before) (is_gated after)
  kept : Implies (any approves before) (any approves after)
  backed : Implies (is_verification stage && good) (any approves after)

split_or : (v a b : Bool) → (v && (a || b)) ≡ true → ((v && a) ≡ true) ⊎ ((v && b) ≡ true)
split_or true true b h = inl refl
split_or true false b h = inr h
split_or false a b h = ground arith

dispatch_worker-Keeps :
    (rt : Runtime) (stage : StageName) (w : WorkerSpec) (calls : Trace)
    → is_crystallization stage ≡ false
    → Keeps stage calls
        (dispatch_worker rt (call_of stage w) calls).trace
        (has_good (dispatch_worker rt (call_of stage w) calls).result)
unfolding dispatch_worker
dispatch_worker-Keeps rt stage w calls n =
    let r = rt.answer calls (call_of stage w) in
    record {
      gated = λ h. ground (arith, n, h);
      kept = λ h. ground (arith, h);
      backed = λ h. ground (arith, h);
    }

begin_all-Keeps :
    (rt : Runtime) (stage : StageName) (ws : List WorkerSpec) (calls : Trace)
    → is_crystallization stage ≡ false
    → Keeps stage calls
        (begin_all rt (map (call_of stage) ws) calls)
        (any has_good (replies_of rt (map (call_of stage) ws) calls))
unfolding begin_all replies_of
begin_all-Keeps rt stage [] calls n = record {
  gated = λ h. h;
  kept = λ h. h;
  backed = λ h. ground (arith, h);
}
begin_all-Keeps rt stage (w ∷ ws) calls n =
    let d = dispatch_worker-Keeps rt stage w calls n in
    let r = begin_all-Keeps rt stage ws (dispatch_worker rt (call_of stage w) calls).trace n in
    record {
      gated = λ h. r.gated (d.gated h);
      kept = λ h. r.kept (d.kept h);
      backed = λ h.
          elim (split_or (is_verification stage)
            (has_good (dispatch_worker rt (call_of stage w) calls).result)
            (any has_good (
              replies_of rt (map (call_of stage) ws)
                (dispatch_worker rt (call_of stage w) calls).trace))
            h) [ inl a ↦ r.kept (d.backed a) | inr b ↦ r.backed b ];
    }

abbrev pub any_good : Dict Output → Bool
any_good [] = false
any_good ((_, o) ∷ out) = is_good o || any_good out

any_good-insert :
    (k : String) (o : Output) (out : Dict Output)
    → Implies (any_good (insert k o out)) (is_good o || any_good out)
any_good-insert k o [] h = ground (arith, h)
any_good-insert k o ((j, p) ∷ out) h = ground (arith, h, any_good-insert k o out)

any_good-store_all :
    (ws : List WorkerSpec) (os : List Output) (out : Dict Output)
    → Implies (any_good (store_all ws os out)) (any is_good os || any_good out)
any_good-store_all [] os out h = ground (arith, h)
any_good-store_all (w ∷ ws) [] out h = h
any_good-store_all (w ∷ ws) (o ∷ os) out h =
    ground (arith, any_good-store_all ws os (insert w.role o out) h, any_good-insert w.role o out)

any_good-outputs : (rs : List (Reply Output)) → any is_good (outputs rs) ≡ any has_good rs
any_good-outputs [] = refl
any_good-outputs (returned o ∷ rs) = ap (λ b. is_good o || b) (any_good-outputs rs)
any_good-outputs (failed f ∷ rs) = any_good-outputs rs

-- The good results of a stage so far are among its calls.
abbrev pub Backed : StageName → Trace → Dict Output → Type 0
Backed stage calls out = Implies (is_verification stage && any_good out) (any approves calls)

pub data Sound (stage : StageName) (before : Trace) : Progress → Type 0 where
  is_going :
      {calls : Trace} {out : Dict Output}
      → Implies (is_gated before) (is_gated calls)
      → Implies (any approves before) (any approves calls)
      → Backed stage calls out
      → Sound stage before (going calls out)
  is_stopped :
      {calls : Trace} {f : Failure}
      → Implies (is_gated before) (is_gated calls)
      → Implies (any approves before) (any approves calls)
      → Sound stage before (stopped calls f)

after_solo-Sound :
    (stage : StageName) (before : Trace) (w : WorkerSpec) (out : Dict Output) (calls : Trace)
    (r : Reply Output)
    → Keeps stage before calls (has_good r)
    → Backed stage before out
    → Sound stage before (after_solo w out (record { trace = calls; result = r }))
after_solo-Sound stage before w out calls (returned o) k b =
    is_going {calls = calls} k.gated k.kept (λ h.
      elim (split_or (is_verification stage) (is_good o) (any_good out)
        (ground (arith, h, any_good-insert w.role o out))) [
          | inl a ↦ k.backed a
          | inr c ↦ k.kept (b c)
        ])
after_solo-Sound stage before w out calls (failed f) k b = is_stopped k.gated k.kept

after_batch-Sound :
    (rt : Runtime) (stage : StageName) (before calls : Trace) (ws : List WorkerSpec)
    (out : Dict Output) (rs : List (Reply Output))
    → Keeps stage before calls (any has_good rs)
    → Backed stage before out
    → Sound stage before (after_batch ws out (record { trace = calls; result = gather rt rs }))
unfolding gather
after_batch-Sound rt stage before calls ws out rs k b =
    elim (failures rs)
      as (λ fs. Sound stage before (
        after_batch ws out (record {
          trace = calls;
          result = elim fs [ [] ↦ returned (outputs rs) | f ∷ gs ↦ failed (rt.earliest f gs) ];
        }))) [
          | [] ↦ is_going k.gated k.kept (λ h.
              elim (split_or (is_verification stage) (any is_good (outputs rs)) (any_good out)
                (ground (arith, h, any_good-store_all ws (outputs rs) out))) [
                  | inl a ↦ k.backed (rw⁻¹ (any_good-outputs rs) a)
                  | inr c ↦ k.kept (b c)
                ])
          | f ∷ gs ↦ is_stopped k.gated k.kept
        ]

run_batch-Sound :
    (rt : Runtime) (stage : StageName) (ws : List WorkerSpec) (out : Dict Output) (calls : Trace)
    → is_crystallization stage ≡ false
    → Backed stage calls out
    → Sound stage calls (run_batch rt stage ws out calls)
unfolding run_batch dispatch_parallel
run_batch-Sound rt stage [] out calls n b =
    after_batch-Sound rt stage calls (begin_all rt [] calls) [] out (replies_of rt [] calls)
      (begin_all-Keeps rt stage [] calls n) b
run_batch-Sound rt stage (w ∷ []) out calls n b =
    let d = dispatch_worker rt (call_of stage w) calls in
    after_solo-Sound stage calls w out d.trace d.result (dispatch_worker-Keeps rt stage w calls n) b
run_batch-Sound rt stage (w ∷ x ∷ ws) out calls n b =
    let cs = map (call_of stage) (w ∷ x ∷ ws) in
    after_batch-Sound rt stage calls (begin_all rt cs calls) (w ∷ x ∷ ws) out
      (replies_of rt cs calls) (begin_all-Keeps rt stage (w ∷ x ∷ ws) calls n) b

Sound-trans :
    (stage : StageName) (before middle : Trace) (p : Progress)
    → Implies (is_gated before) (is_gated middle)
    → Implies (any approves before) (any approves middle)
    → Sound stage middle p
    → Sound stage before p
Sound-trans stage before middle _ g k (is_going g' k' b) =
    is_going (λ h. g' (g h)) (λ h. k' (k h)) b
Sound-trans stage before middle _ g k (is_stopped g' k') =
    is_stopped (λ h. g' (g h)) (λ h. k' (k h))

pub run_batches-Sound :
    (rt : Runtime) (stage : StageName) (bs : List (List WorkerSpec)) (before : Trace) (p : Progress)
    → is_crystallization stage ≡ false
    → Sound stage before p
    → Sound stage before (run_batches rt stage bs p)
unfolding run_batches
run_batches-Sound rt stage [] before p n s = s
run_batches-Sound rt stage (b ∷ bs) before (stopped calls f) n s = s
run_batches-Sound rt stage (b ∷ bs) before (going calls out) n (is_going g k h) =
    run_batches-Sound rt stage bs before (run_batch rt stage b out calls) n (
      Sound-trans stage before calls (run_batch rt stage b out calls) g k
        (run_batch-Sound rt stage b out calls n h))
