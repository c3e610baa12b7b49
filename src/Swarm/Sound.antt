-- ===== src/Swarm/Sound.antt =====
-- What every call of src/orama_system/swarm_approval.py keeps of the cache.
use orama_system.Base.{
  ℕ, ◌≤◌, String, ◌≡◌, Bool, false, not, Option, none, some, ◌⊎◌, inl, inr, arith, ◌==◌, lookup,
  insert, UniqueKeys, UniqueKeys-insert, UniqueKeys-select, length, length-remove-le, subst, sym,
}
use orama_system.Oramaclaw.Json.{Fields}
use orama_system.Swarm.{
  Environ, Entry, Approvals, Outcome, ok, refused, Request, Claim, prune_cache, cached_preview,
  issue_approval, check_launch, check_entry, consume_launch, reserve, after_check,
  claim_launch_for_dispatch, finalize_launch_claim, release_launch_claim, restore, verify_launch,
  normalized, then_consume, uncache, land, fingerprint, max_cache_size,
}
use orama_system.Swarm.Calls.{
  Call, issue, look, check, consume, claim, finalize, release, verify, apply, is_ok,
}
use orama_system.Swarm.Prune.{UniqueKeys-prune_cache, length-prune_cache-le}

pub check_launch-cases :
    (env : Environ) (t : ℕ) (q : Request) (s : Approvals)
    → ((check_launch env t q s).1 ≡ s)
      ⊎ ((check_launch env t q s).1 ≡ uncache (normalized q.preview_id) s)
        × (is_ok (check_launch env t q s).0 ≡ false)
unfolding check_launch check_entry
check_launch-cases env t q s = ground arith

-- The cache has every id once, and is not over its size.
pub record IsSound (s : Approvals) : Type 0 where
  pub unique : UniqueKeys s.cache
  pub small : length s.cache ≤ max_cache_size

uncache-IsSound : (i : String) (s : Approvals) → IsSound s → IsSound (uncache i s)
uncache-IsSound i s h = record {
  unique = UniqueKeys-select (λ e. not (e.0 == i)) s.cache h.unique;
  small = omega (arith, h.small, length-remove-le i s.cache);
}

prune-IsSound : (t : ℕ) (s : Approvals) → UniqueKeys s.cache → IsSound (prune_cache t s)
prune-IsSound t s u = record {
  unique = UniqueKeys-prune_cache t s u;
  small = length-prune_cache-le t s u;
}

returned-IsSound :
    (t : ℕ) (i : String) (e : Entry) (s : Approvals)
    → UniqueKeys s.cache
    → IsSound (prune_cache t (record s { cache = insert i e s.cache }))
returned-IsSound t i e s u =
    prune-IsSound t (record s { cache = insert i e s.cache }) (UniqueKeys-insert i e s.cache u)

check-IsSound :
    (env : Environ) (t : ℕ) (q : Request) (s : Approvals)
    → IsSound s
    → IsSound (check_launch env t q s).1
check-IsSound env t q s h = elim (check_launch-cases env t q s) [
  | inl e ↦ subst IsSound (sym e) h
  | inr (e, _) ↦ subst IsSound (sym e) (uncache-IsSound (normalized q.preview_id) s h)
]

consume-IsSound :
    (t : ℕ) (p : Option String) (s : Approvals) → IsSound s → IsSound (consume_launch t p s).1
unfolding consume_launch
consume-IsSound t p s h = let gone = uncache-IsSound (normalized p) s h in ground arith

after_check-IsSound :
    (t : ℕ) (a id : String) (o : Outcome (Unit {0})) (s : Approvals)
    → IsSound s
    → IsSound (after_check t a id o s).1
unfolding after_check reserve
after_check-IsSound t a id (refused m) s h = h
after_check-IsSound t a id (ok _) s h = let gone = uncache-IsSound id s h in ground arith

look-IsSound :
    (t : ℕ) (p : Option String) (s : Approvals) → IsSound s → IsSound (cached_preview t p s).1
unfolding cached_preview
look-IsSound t none s h = h
look-IsSound t (some p) s h = let gone = uncache-IsSound p s h in ground arith

then_consume-IsSound :
    (env : Environ) (t : ℕ) (q : Request) (o : Outcome (Unit {0})) (s : Approvals)
    → IsSound s
    → IsSound (then_consume env t q o s).1
then_consume-IsSound env t q (refused m) s h = h
then_consume-IsSound env t q (ok _) s h =
    let done = consume-IsSound t q.preview_id s h in ground arith

restore-IsSound :
    (t : ℕ) (i a : String) (b : Bool) (o : Option Claim) (s : Approvals)
    → IsSound s
    → IsSound (restore t i a b o s)
unfolding restore
restore-IsSound t i a b none s h = h
restore-IsSound t i a b (some c) s h =
    let back = returned-IsSound t i c.entry s h.unique in ground arith

issue-IsSound :
    (env : Environ) (t t' t'' : ℕ) (i : String) (p : Fields) (s : Approvals)
    → IsSound s
    → IsSound (issue_approval env t t' t'' i p s).1
unfolding issue_approval
issue-IsSound env t t' t'' i p s h =
    let e : Entry = record { fp = fingerprint env p; ts = t'; stored = p } in
    let unique = UniqueKeys-prune_cache t s h.unique in
    let stamped = returned-IsSound t'' i e (prune_cache t s) unique in ground arith

land-IsSound : (i : String) (s : Approvals) → IsSound s → IsSound (land i s)
land-IsSound i s h = record { unique = h.unique; small = h.small }

-- Every call, whatever it is given and whatever the clock shows, keeps the cache within 32 previews that
-- have different ids.
pub apply-IsSound : (env : Environ) (c : Call) (s : Approvals) → IsSound s → IsSound (apply env c s)
unfolding apply claim_launch_for_dispatch verify_launch finalize_launch_claim release_launch_claim
apply-IsSound env (issue t t' t'' i p) s h = issue-IsSound env t t' t'' i p s h
apply-IsSound env (look t i) s h = look-IsSound t i s h
apply-IsSound env (check t q) s h = check-IsSound env t q s h
apply-IsSound env (consume t i) s h = consume-IsSound t i s h
apply-IsSound env (claim t t' a q) s h =
    let (o, s') = check_launch env t q s in
    after_check-IsSound t' a (normalized q.preview_id) o s' (check-IsSound env t q s h)
apply-IsSound env (finalize i a) s h = let gone = land-IsSound (normalized i) s h in ground arith
apply-IsSound env (release t i a b) s h =
    let id = normalized i in
    restore-IsSound t id a b (lookup id s.in_flight) (land id s) (land-IsSound id s h)
apply-IsSound env (verify t t' q) s h =
    let (o, s') = check_launch env t q s in
    then_consume-IsSound env t' q o s' (check-IsSound env t q s h)
