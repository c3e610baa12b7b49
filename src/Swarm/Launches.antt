-- ===== src/Swarm/Launches.antt =====
-- How often one preview is launched in a history of calls of src/orama_system/swarm_approval.py.
use orama_system.Base.{
  ℕ, ◌+◌, ◌≤◌, String, ◌≡◌, Bool, not, ◌&&◌, Option, none, some, List, [], inl, inr, ◌∷◌, arith,
  if◌then◌else◌, ◌==◌, eq_iff, lookup, insert, lookup-remove, lookup-insert, is_blank, UniqueKeys,
  UniqueKeys-insert, Option-cases,
}
use orama_system.Oramaclaw.Json.{Fields}
use orama_system.Swarm.{
  Environ, Entry, Approvals, Outcome, ok, refused, Request, Claim, secret, prune_cache,
  cached_preview, issue_approval, check_launch, consume_launch, reserve, after_check,
  claim_launch_for_dispatch, finalize_launch_claim, release_launch_claim, restore, verify_launch,
  normalized, is_legacy, is_attempt, uncache, land, fingerprint,
}
use orama_system.Swarm.Calls.{
  Call, issue, look, check, consume, claim, finalize, release, verify, apply, run, is_ok, bit,
  cached, minted, restored, launched, issues, restores, launches,
}
use orama_system.Swarm.Sound.{IsSound, apply-IsSound, check_launch-cases}
use orama_system.Swarm.Prune.{lookup-prune_cache, UniqueKeys-prune_cache}

uncache-cached :
    (i j : String) (s : Approvals) → cached j (uncache i s) ≡ (if i == j then 0 else cached j s)
uncache-cached i j s = ground (arith, lookup-remove i j s.cache)

consume-cached :
    (t : ℕ) (p : Option String) (j : String) (s : Approvals)
    → bit (is_ok (consume_launch t p s).0 && (normalized p == j))
        + cached j (consume_launch t p s).1
      ≤ cached j s
unfolding consume_launch
consume-cached t p j s =
    ground (arith, lookup-remove (normalized p) j s.cache, eq_iff (normalized p) j)

pub check-cached :
    (env : Environ) (t : ℕ) (q : Request) (j : String) (s : Approvals)
    → cached j (check_launch env t q s).1 ≤ cached j s
check-cached env t q j s =
    ground (arith, check_launch-cases env t q s, uncache-cached (normalized q.preview_id) j s)

after_check-cached :
    (t : ℕ) (a id j : String) (o : Outcome (Unit {0})) (s : Approvals)
    → bit (is_ok (after_check t a id o s).0 && (id == j)) + cached j (after_check t a id o s).1
      ≤ cached j s
unfolding after_check reserve
after_check-cached t a id j (refused m) s = omega arith
after_check-cached t a id j (ok _) s = ground (arith, lookup-remove id j s.cache, eq_iff id j)

claim-cached :
    (env : Environ) (t t' : ℕ) (a j : String) (q : Request) (s : Approvals)
    → bit (is_ok (claim_launch_for_dispatch env t t' a q s).0 && (normalized q.preview_id == j))
        + cached j (claim_launch_for_dispatch env t t' a q s).1
      ≤ cached j s
unfolding claim_launch_for_dispatch
claim-cached env t t' a j q s =
    let (o, s') = check_launch env t q s in
    omega
      (arith, check-cached env t q j s, after_check-cached t' a (normalized q.preview_id) j o s')

verify-cached :
    (env : Environ) (t t' : ℕ) (j : String) (q : Request) (s : Approvals)
    → bit (
          is_ok (verify_launch env t t' q s).0
          && not (is_legacy env q)
          && (normalized q.preview_id == j))
        + cached j (verify_launch env t t' q s).1
      ≤ cached j s
unfolding verify_launch
verify-cached env t t' j q s =
    let s' = (check_launch env t q s).1 in
    ground (arith, check-cached env t q j s, consume-cached t' q.preview_id j s')

look-cached :
    (t : ℕ) (p : Option String) (j : String) (s : Approvals)
    → cached j (cached_preview t p s).1 ≤ cached j s
unfolding cached_preview
look-cached t none j s = omega arith
look-cached t (some p) j s = ground (arith, lookup-remove p j s.cache, eq_iff p j)

prune-cached :
    (t : ℕ) (j : String) (s : Approvals)
    → UniqueKeys s.cache
    → cached j (prune_cache t s) ≤ cached j s
prune-cached t j s u = elim (Option-cases (lookup j (prune_cache t s).cache)) [
  | inl e ↦ ground arith
  | inr (f, e) ↦ ground (arith, lookup-prune_cache t s j f u e)
]

insert-cached :
    (i j : String) (e : Entry) (s : Approvals)
    → cached j (record s { cache = insert i e s.cache }) ≤ cached j s + bit (i == j)
insert-cached i j e s = ground (arith, lookup-insert i j e s.cache)

returned-cached :
    (t : ℕ) (i j : String) (e : Entry) (s : Approvals)
    → UniqueKeys s.cache
    → cached j (prune_cache t (record s { cache = insert i e s.cache })) ≤ cached j s + bit (i == j)
returned-cached t i j e s u =
    let s' = record s { cache = insert i e s.cache } in
    omega (arith, insert-cached i j e s, prune-cached t j s' (UniqueKeys-insert i e s.cache u))

restore-cached :
    (t : ℕ) (i a : String) (b : Bool) (j : String) (o : Option Claim) (s : Approvals)
    → UniqueKeys s.cache
    → cached j (restore t i a b o s) ≤ cached j s + bit (b && (i == j) && is_attempt a o)
unfolding restore
restore-cached t i a b j none s u = omega arith
restore-cached t i a b j (some c) s u = ground (arith, returned-cached t i j c.entry s u)

release-cached :
    (t : ℕ) (p : Option String) (a : String) (b : Bool) (j : String) (s : Approvals)
    → UniqueKeys s.cache
    → cached j (release_launch_claim t p a b s)
      ≤ cached j s
        + bit (b && (normalized p == j) && is_attempt a (lookup (normalized p) s.in_flight))
unfolding release_launch_claim
release-cached t p a b j s u =
    let i = normalized p in restore-cached t i a b j (lookup i s.in_flight) (land i s) u

issue-cached :
    (env : Environ) (t t' t'' : ℕ) (i j : String) (p : Fields) (s : Approvals)
    → UniqueKeys s.cache
    → cached j (issue_approval env t t' t'' i p s).1
      ≤ cached j s + bit (not (is_blank (secret env)) && (i == j))
unfolding issue_approval
issue-cached env t t' t'' i j p s u =
    let e : Entry = record { fp = fingerprint env p; ts = t'; stored = p } in
    let pruned = prune_cache t s in
    ground
      (arith, returned-cached t'' i j e pruned (UniqueKeys-prune_cache t s u), prune-cached t j s u)

finalize-cached :
    (p : Option String) (a j : String) (s : Approvals)
    → cached j (finalize_launch_claim p a s) ≤ cached j s
unfolding finalize_launch_claim
finalize-cached p a j s = ground arith

-- What one call launches, it takes from the cache, or from what it issues or restores.
launched-cached :
    (env : Environ) (c : Call) (j : String) (s : Approvals)
    → IsSound s
    → launched env j c s + cached j (apply env c s) ≤ cached j s + (minted env j c + restored j c s)
unfolding launched apply minted restored
launched-cached env (issue t t' t'' i p) j s h =
    omega (arith, issue-cached env t t' t'' i j p s h.unique)
launched-cached env (look t i) j s h = omega (arith, look-cached t i j s)
launched-cached env (check t q) j s h = omega (arith, check-cached env t q j s)
launched-cached env (consume t i) j s h = omega (arith, consume-cached t i j s)
launched-cached env (claim t t' a q) j s h = omega (arith, claim-cached env t t' a j q s)
launched-cached env (finalize i a) j s h = omega (arith, finalize-cached i a j s)
launched-cached env (release t i a b) j s h = omega (arith, release-cached t i a b j s h.unique)
launched-cached env (verify t t' q) j s h = omega (arith, verify-cached env t t' j q s)

-- Over any history of calls, with any clock and any credentials, a preview is launched at most as often as
-- it is issued, given back for a retry by the attempt that had it, or was in the cache at the start: an
-- approval is good for one launch.
pub launches-le :
    (env : Environ) (calls : List Call) (id : String) (s : Approvals)
    → IsSound s
    → launches env id calls s + cached id (run env calls s)
      ≤ cached id s + (issues env id calls + restores env id calls s)
unfolding launches run issues restores
launches-le env [] id s h = omega arith
launches-le env (c ∷ calls) id s h = omega (
  arith,
  launched-cached env c id s h,
  launches-le env calls id (apply env c s) (apply-IsSound env c s h),
)
