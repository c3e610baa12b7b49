-- ===== src/Swarm/Calls.antt =====
-- Histories of calls of src/orama_system/swarm_approval.py, and how often they issue, launch and restore a
-- preview.
use orama_system.Base.{
  ℕ, ◌+◌, String, Bool, true, false, not, ◌&&◌, Option, none, some, List, [], ◌∷◌, ◌==◌, lookup,
  is_blank,
}
use orama_system.Oramaclaw.Json.{Fields}
use orama_system.Swarm.{
  Environ, Approvals, Outcome, ok, refused, Request, secret, cached_preview, issue_approval,
  check_launch, consume_launch, claim_launch_for_dispatch, finalize_launch_claim,
  release_launch_claim, verify_launch, normalized, is_legacy, is_attempt,
}

-- The calls of the module, with the readings of the clock and the random ids that each call draws.
pub data Call : Type 0 where
  issue : ℕ → ℕ → ℕ → String → Fields → Call
  look : ℕ → Option String → Call
  check : ℕ → Request → Call
  consume : ℕ → Option String → Call
  claim : ℕ → ℕ → String → Request → Call
  finalize : Option String → String → Call
  release : ℕ → Option String → String → Bool → Call
  verify : ℕ → ℕ → Request → Call

unfoldable pub apply : Environ → Call → Approvals → Approvals
apply env (issue t t' t'' id p) s = (issue_approval env t t' t'' id p s).1
apply env (look t id) s = (cached_preview t id s).1
apply env (check t q) s = (check_launch env t q s).1
apply env (consume t id) s = (consume_launch t id s).1
apply env (claim t t' a q) s = (claim_launch_for_dispatch env t t' a q s).1
apply env (finalize id a) s = finalize_launch_claim id a s
apply env (release t id a b) s = release_launch_claim t id a b s
apply env (verify t t' q) s = (verify_launch env t t' q s).1

unfoldable pub run : Environ → List Call → Approvals → Approvals
run env [] s = s
run env (c ∷ calls) s = run env calls (apply env c s)

abbrev pub is_ok : {A : Type 0} → Outcome A → Bool
is_ok (ok _) = true
is_ok (refused _) = false

abbrev pub bit : Bool → ℕ
bit true = 1
bit false = 0

-- Whether the preview is in the cache, as a number.
abbrev pub cached : String → Approvals → ℕ
cached id s = elim (lookup id s.cache) [ none ↦ 0 | some _ ↦ 1 ]

-- Whether the call issues the preview.
unfoldable pub minted : Environ → String → Call → ℕ
minted env id (issue t t' t'' i p) = bit (not (is_blank (secret env)) && (i == id))
minted env id _ = 0

-- Whether the call gives the preview back for a retry.
unfoldable pub restored : String → Call → Approvals → ℕ
restored id (release t p a b) s =
    bit (b && (normalized p == id) && is_attempt a (lookup (normalized p) s.in_flight))
restored id _ s = 0

-- Whether the call lets a launch through on the preview.
unfoldable pub launched : Environ → String → Call → Approvals → ℕ
launched env id (consume t p) s = bit (is_ok (consume_launch t p s).0 && (normalized p == id))
launched env id (claim t t' a q) s =
    bit (is_ok (claim_launch_for_dispatch env t t' a q s).0 && (normalized q.preview_id == id))
launched env id (verify t t' q) s = bit (
    is_ok (verify_launch env t t' q s).0
    && not (is_legacy env q)
    && (normalized q.preview_id == id))
launched env id _ s = 0

-- The sums over a history.
unfoldable pub issues : Environ → String → List Call → ℕ
issues env id [] = 0
issues env id (c ∷ calls) = minted env id c + issues env id calls

unfoldable pub restores : Environ → String → List Call → Approvals → ℕ
restores env id [] s = 0
restores env id (c ∷ calls) s = restored id c s + restores env id calls (apply env c s)

unfoldable pub launches : Environ → String → List Call → Approvals → ℕ
launches env id [] s = 0
launches env id (c ∷ calls) s = launched env id c s + launches env id calls (apply env c s)
