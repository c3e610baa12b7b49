-- ===== src/Swarm/Ticket/Steps.antt =====
-- Every call of src/orama_system/swarm_approval.py at one preview id.
use orama_system.Base.{String, inl, inr, refl, sym, subst, Bool, if◌then◌else◌, lookup, Bool-cases}
use orama_system.Swarm.{
  Environ, Approvals, cached_preview, check_launch, consume_launch, claim_launch_for_dispatch,
  finalize_launch_claim, release_launch_claim, verify_launch, then_consume, normalized, is_attempt,
  land,
}
use orama_system.Swarm.Calls.{
  Call, issue, look, check, consume, claim, finalize, release, verify, apply,
}
use orama_system.Swarm.Sound.{IsSound, check_launch-cases}
use orama_system.Swarm.Ticket.{
  ticket, Moves, IsApart, IsFresh, Fades-refl, Fades-trans, Fades-check, Fades-consume, Fades-look,
  Fades-then_consume, Goes, Fades-Goes,
}
use orama_system.Swarm.Ticket.Attempts.{land-Goes, checked_Goes}
use orama_system.Swarm.Ticket.Entries.{release-Goes, issue-Goes}

-- Every call moves the approval of every preview id as one ticket: it is issued when there is none, taken by
-- one claim at a time with the payload that was issued, put back only by that attempt's release, and else
-- ended. The id stays either in the cache or in flight. The random ids that are issued must be in no use.
pub apply-Moves :
    (env : Environ) (call : Call) (id : String) (s : Approvals)
    → IsSound s
    → IsApart id s
    → IsFresh id call s
    → Moves id call (ticket id s) (ticket id (apply env call s)) × IsApart id (apply env call s)
unfolding apply claim_launch_for_dispatch verify_launch finalize_launch_claim release_launch_claim
apply-Moves env (issue t t' t'' i p) id s h a f = issue-Goes id env t t' t'' i p s h.unique a f
apply-Moves env (look t i) id s h a f =
    Fades-Goes id (look t i) s (cached_preview t i s).1 (Fades-look t i id s) a
apply-Moves env (check t q) id s h a f =
    Fades-Goes id (check t q) s (check_launch env t q s).1 (Fades-check env t q id s) a
apply-Moves env (consume t i) id s h a f =
    Fades-Goes id (consume t i) s (consume_launch t i s).1 (Fades-consume t i id s) a
apply-Moves env (claim t t' b q) id s h a f =
    let (o, s') = check_launch env t q s in
    checked_Goes id t t' b q o s s' a (check_launch-cases env t q s)
apply-Moves env (finalize i b) id s h a f =
    let call = finalize i b in
    let n = normalized i in
    let result = λ (x : Bool). Goes id call s (if x then land n s else s) in
    elim (Bool-cases (is_attempt b (lookup n s.in_flight))) [
      | inl e ↦ subst result (sym e) (land-Goes id n call s a)
      | inr e ↦ subst result (sym e) (Fades-Goes id call s s (Fades-refl id s) a)
    ]
apply-Moves env (release t i b r) id s h a f =
    release-Goes id t i b r (lookup (normalized i) s.in_flight) s h.unique a refl
apply-Moves env (verify t t' q) id s h a f =
    let (o, s') = check_launch env t q s in
    let s'' = (then_consume env t' q o s').1 in
    Fades-Goes id (verify t t' q) s s''
      (Fades-trans id s s' s'' (Fades-check env t q id s) (Fades-then_consume env t' q o id s')) a
