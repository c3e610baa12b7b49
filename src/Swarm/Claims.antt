-- ===== src/Swarm/Claims.antt =====
-- Which claims src/orama_system/swarm_approval.py accepts, and how an attempt ends.
use orama_system.Base.{
  ℕ, ◌<◌, String, ◌≡◌, inl, inr, refl, sym, ◌∙◌, ap, ap₂, subst, Bool, true, false, Option, none,
  some, arith, ◌==◌, eq_iff, eq_refl, lookup, contains, insert, length, lookup-remove,
  lookup-insert, length-insert-le, is_blank, strip, Bool-cases,
}
use orama_system.Oramaclaw.Json.{Fields}
use orama_system.Swarm.{
  Environ, Entry, Approvals, Outcome, ok, refused, Request, Claim, Approval, sign, fingerprint,
  prune_cache, issue_approval, token_ok, check_launch, check_entry, reserve, after_check,
  claim_launch_for_dispatch, finalize_launch_claim, release_launch_claim, restore, normalized,
  is_legacy, is_expired, uncache, land, max_cache_size,
}
use orama_system.Swarm.Calls.{is_ok}
use orama_system.Swarm.Sound.{check_launch-cases}
use orama_system.Swarm.Prune.{prune_cache_small}

-- The entry and the credentials are right for the request at that time.
pub record IsApproved (env : Environ) (now : ℕ) (q : Request) (e : Entry) : Type 0 where
  pub approved : q.approved ≡ true
  pub has_token : is_blank (normalized q.approval_token) ≡ false
  pub right_token : normalized q.approval_token ≡ sign env (normalized q.preview_id) e.fp
  pub no_drift : fingerprint env q.preview ≡ e.fp
  pub fresh : is_expired now e.ts ≡ false

token_ok-eq : (s t : String) → token_ok s t ≡ true → t ≡ s
unfolding token_ok
token_ok-eq s t h = ground (arith, eq_iff s t)

check_entry-IsApproved :
    (env : Environ) (t : ℕ) (q : Request) (e : Entry) (s : Approvals)
    → q.approved ≡ true
    → is_blank (normalized q.approval_token) ≡ false
    → is_ok (check_entry env t q (some e) s).0 ≡ true
    → IsApproved env t q e
unfolding check_entry
check_entry-IsApproved env t q e s a b h = ground (
  arith,
  eq_iff (fingerprint env q.preview) e.fp,
  token_ok-eq (sign env (normalized q.preview_id) e.fp) (normalized q.approval_token),
)

check_launch-IsApproved :
    (env : Environ) (t : ℕ) (q : Request) (e : Entry) (s : Approvals)
    → is_legacy env q ≡ false
    → lookup (normalized q.preview_id) s.cache ≡ some e
    → is_ok (check_launch env t q s).0 ≡ true
    → IsApproved env t q e
unfolding check_launch
check_launch-IsApproved env t q e s l f h = ground (arith, check_entry-IsApproved env t q e s)

legacy_omits :
    (env : Environ) (q : Request) → is_legacy env q ≡ true → normalized q.preview_id ≡ strip ""
legacy_omits env q h = ground arith

reserve-ok :
    (t : ℕ) (a i : String) (o : Option Entry) (s : Approvals) (p : Fields) (b : String)
    → (reserve t a i o s).0 ≡ ok (p, b)
    → (e : Entry) × (o ≡ some e)
      × (is_expired t e.ts ≡ false)
      × (e.stored ≡ p)
      × (a ≡ b)
      × ((reserve t a i o s).1
          ≡ record s { in_flight = insert i (record { entry = e; attempt = a }) s.in_flight })
unfolding reserve
reserve-ok t a i none s p b h = absurd (ground arith)
reserve-ok t a i (some e) s p b h =
    (e, refl, ground arith, ground arith, ground arith, ground arith)

after_check-ok :
    (t : ℕ) (a i : String) (o : Outcome (Unit {0})) (s : Approvals) (p : Fields) (b : String)
    → (after_check t a i o s).0 ≡ ok (p, b)
    → (is_ok o ≡ true)
      × (contains i s.in_flight ≡ false)
      × ((reserve t a i (lookup i s.cache) (uncache i s)).0 ≡ ok (p, b))
unfolding after_check
after_check-ok t a i (refused m) s p b h = absurd (ground arith)
after_check-ok t a i (ok _) s p b h = ground arith

check_ok_same :
    (env : Environ) (t : ℕ) (q : Request) (s : Approvals)
    → is_ok (check_launch env t q s).0 ≡ true
    → (check_launch env t q s).1 ≡ s
check_ok_same env t q s h = ground (arith, check_launch-cases env t q s)

no_entry :
    (s : Approvals) (e : Entry)
    → lookup (strip "") s.cache ≡ none
    → lookup (strip "") s.cache ≡ some e
    → ⊥
no_entry s e z h = ground arith

-- A claim that succeeds was approved explicitly, with the token that signs this id and the fingerprint that
-- was issued, for a preview that has that fingerprint, within 300 seconds at both readings of the clock; it
-- hands out the payload that was issued, and no other attempt had the id. No id is empty in the cache.
pub claim-IsApproved :
    (env : Environ) (t t' : ℕ) (a : String) (q : Request) (s : Approvals) (p : Fields) (b : String)
    → lookup (strip "") s.cache ≡ none
    → (claim_launch_for_dispatch env t t' a q s).0 ≡ ok (p, b)
    → (e : Entry) × (lookup (normalized q.preview_id) s.cache ≡ some e)
      × IsApproved env t q e
      × (is_expired t' e.ts ≡ false)
      × (e.stored ≡ p)
      × (contains (normalized q.preview_id) s.in_flight ≡ false)
unfolding claim_launch_for_dispatch
claim-IsApproved env t t' a q s p b z h =
    let i = normalized q.preview_id in
    let (o, s') = check_launch env t q s in
    let (good, alone, taken) = after_check-ok t' a i o s' p b h in
    let same : s' ≡ s = check_ok_same env t q s good in
    let (e, found, fresh, payload, _, _) =
      reserve-ok t' a i (lookup i s'.cache) (uncache i s') p b taken in
    let here : lookup i s.cache ≡ some e =
      subst (λ (x : Approvals). lookup i x.cache ≡ some e) same found in
    let alone' = subst (λ (x : Approvals). contains i x.in_flight ≡ false) same alone in
    let strict : is_legacy env q ≡ false = elim (Bool-cases (is_legacy env q)) [
      | inr l ↦ l
      | inl l ↦
          absurd
            (no_entry s e z (subst (λ x. lookup x s.cache ≡ some e) (legacy_omits env q l) here))
    ] in
    (e, here, check_launch-IsApproved env t q e s strict here good, fresh, payload, alone')

check_launch_accepts :
    (env : Environ) (t : ℕ) (q : Request) (e : Entry) (s : Approvals)
    → lookup (normalized q.preview_id) s.cache ≡ some e
    → is_blank (normalized q.preview_id) ≡ false
    → IsApproved env t q e
    → token_ok (sign env (normalized q.preview_id) e.fp) (normalized q.approval_token) ≡ true
    → check_launch env t q s ≡ (ok tt, s)
unfolding check_launch check_entry
check_launch_accepts env t q e s f b h k =
    ground
      (arith, h.approved, h.has_token, h.no_drift, h.fresh, eq_iff (fingerprint env q.preview) e.fp)

pub claim_accepts :
    (env : Environ) (t t' : ℕ) (a : String) (q : Request) (e : Entry) (s : Approvals)
    → lookup (normalized q.preview_id) s.cache ≡ some e
    → is_blank (normalized q.preview_id) ≡ false
    → IsApproved env t q e
    → token_ok (sign env (normalized q.preview_id) e.fp) (normalized q.approval_token) ≡ true
    → is_expired t' e.ts ≡ false
    → contains (normalized q.preview_id) s.in_flight ≡ false
    → (claim_launch_for_dispatch env t t' a q s).0 ≡ ok (e.stored, a)
unfolding claim_launch_for_dispatch after_check reserve
claim_accepts env t t' a q e s f b h k x c =
    ap
      (λ (r : Outcome (Unit {0}) × Approvals).
        (after_check t' a (normalized q.preview_id) r.0 r.1).0)
      (check_launch_accepts env t q e s f b h k)
    ∙ ground arith

issue_stores :
    (env : Environ) (t t' t'' : ℕ) (id : String) (p : Fields) (s : Approvals) (r : Approval)
    → length (prune_cache t s).cache < max_cache_size
    → is_expired t'' t' ≡ false
    → (issue_approval env t t' t'' id p s).0 ≡ ok r
    → (lookup id (issue_approval env t t' t'' id p s).1.cache
        ≡ some (record { fp = fingerprint env p; ts = t'; stored = p }))
      × (r.preview_id ≡ id)
      × (r.approval_token ≡ sign env id (fingerprint env p))
      × (is_blank r.approval_token ≡ false)
unfolding issue_approval
issue_stores env t t' t'' id p s r room x h =
    let e : Entry = record { fp = fingerprint env p; ts = t'; stored = p } in
    let pruned = prune_cache t s in
    let s' = record pruned { cache = insert id e pruned.cache } in
    let there : lookup id s'.cache ≡ some e =
      lookup-insert id id e pruned.cache ∙ rw (eq_refl id) refl in
    ground (
      arith,
      prune_cache_small t'' s' id e (omega (arith, length-insert-le id e pruned.cache)) there x,
    )

-- The request that hands an approval back.
abbrev pub approve : Approval → Fields → Request
approve r p = record {
  approved = true;
  preview_id = some r.preview_id;
  approval_token = some r.approval_token;
  preview = p;
}

-- What an issue hands out lets a claim through, which gets the issued payload, when both readings of the
-- claim's clock are within 300 seconds of the issue, the preview has the issued fingerprint, and no attempt
-- has the id. There must be room in the cache, the id and the token are texts without surrounding white
-- space, and the token is ASCII.
pub claim-issue_approval :
    (env : Environ) (t t' t'' u u' : ℕ) (id a : String) (p p' : Fields) (s : Approvals)
    (r : Approval)
    → length (prune_cache t s).cache < max_cache_size
    → is_expired t'' t' ≡ false
    → is_expired u t' ≡ false
    → is_expired u' t' ≡ false
    → (issue_approval env t t' t'' id p s).0 ≡ ok r
    → fingerprint env p' ≡ fingerprint env p
    → strip id ≡ id
    → is_blank id ≡ false
    → strip r.approval_token ≡ r.approval_token
    → token_ok r.approval_token r.approval_token ≡ true
    → contains id (issue_approval env t t' t'' id p s).1.in_flight ≡ false
    → (claim_launch_for_dispatch env u u' a (approve r p') (issue_approval env t t' t'' id p s).1).0
      ≡ ok (p, a)
claim-issue_approval env t t' t'' u u' id a p p' s r room x y z h d n b w k c =
    let s₁ = (issue_approval env t t' t'' id p s).1 in
    let e : Entry = record { fp = fingerprint env p; ts = t'; stored = p } in
    let (there, same, token, solid) = issue_stores env t t' t'' id p s r room x h in
    let i : strip r.preview_id ≡ id = ap strip same ∙ n in
    let sign_i : sign env (strip r.preview_id) e.fp ≡ r.approval_token =
      ap (λ j. sign env j e.fp) i ∙ sym token in
    claim_accepts env u u' a (approve r p') e s₁ (ap (λ j. lookup j s₁.cache) i ∙ there)
      (ap is_blank i ∙ b)
      (record {
        approved = refl;
        has_token = ap is_blank w ∙ solid;
        right_token = w ∙ sym sign_i;
        no_drift = d;
        fresh = y;
      })
      (ap₂ token_ok sign_i w ∙ k) z (ap (λ j. contains j s₁.in_flight) i ∙ c)

foreign_lands :
    (t : ℕ) (p : Option String) (a : String) (r : Bool) (c : Claim) (s : Approvals)
    → lookup (normalized p) s.in_flight ≡ some c
    → (c.attempt == a) ≡ false
    → release_launch_claim t p a r s ≡ land (normalized p) s
unfolding release_launch_claim restore
foreign_lands t p a r c s f h =
    ap (λ o. restore t (normalized p) a r o (land (normalized p) s)) f ∙ ground arith

absent_finalize :
    (p : Option String) (a : String) (s : Approvals)
    → lookup (normalized p) s.in_flight ≡ none
    → finalize_launch_claim p a s ≡ s
unfolding finalize_launch_claim
absent_finalize p a s e = ground arith

absent_release :
    (t : ℕ) (p : Option String) (a : String) (r : Bool) (s : Approvals)
    → lookup (normalized p) s.in_flight ≡ none
    → (release_launch_claim t p a r s).cache ≡ s.cache
unfolding release_launch_claim restore
absent_release t p a r s e =
    ap (λ o. (restore t (normalized p) a r o (land (normalized p) s)).cache) e

-- A release by an attempt that does not have the preview takes it from the one that has: the claim is
-- dropped, so neither a restore nor an end by its own attempt changes anything, and the preview does not
-- come back to the cache.
pub foreign_release :
    (t t' : ℕ) (p : Option String) (a : String) (r r' : Bool) (c : Claim) (s : Approvals)
    → lookup (normalized p) s.in_flight ≡ some c
    → (c.attempt == a) ≡ false
    → let s' = release_launch_claim t p a r s in
      (s'.cache ≡ s.cache)
      × (lookup (normalized p) s'.in_flight ≡ none)
      × (finalize_launch_claim p c.attempt s' ≡ s')
      × ((release_launch_claim t' p c.attempt r' s').cache ≡ s.cache)
foreign_release t t' p a r r' c s f h =
    let i = normalized p in
    let s' = land i s in
    let gone : lookup i s'.in_flight ≡ none = lookup-remove i i s.in_flight ∙ rw (eq_refl i) refl in
    let here : release_launch_claim t p a r s ≡ s' = foreign_lands t p a r c s f h in
    subst
      (λ (x : Approvals).
        (x.cache ≡ s.cache)
        × (lookup i x.in_flight ≡ none)
        × (finalize_launch_claim p c.attempt x ≡ x)
        × ((release_launch_claim t' p c.attempt r' x).cache ≡ s.cache))
      (sym here)
      (refl, gone, absent_finalize p c.attempt s' gone, absent_release t' p c.attempt r' s' gone)
