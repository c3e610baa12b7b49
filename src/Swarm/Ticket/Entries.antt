-- ===== src/Swarm/Ticket/Entries.antt =====
-- The issue of a preview and its return to the cache, src/orama_system/swarm_approval.py, at one id.
use orama_system.Base.{
  ℕ, String, ◌≡◌, ◌⊎◌, inl, inr, refl, sym, ◌∙◌, ap, subst, Bool, true, false, ◌&&◌, Option, none,
  some, arith, if◌then◌else◌, ◌==◌, eq_iff, lookup, insert, lookup-remove, lookup-insert, is_blank,
  UniqueKeys, UniqueKeys-insert, Bool-cases,
}
use orama_system.Oramaclaw.Json.{Fields}
use orama_system.Swarm.{
  Environ, Entry, Approvals, Claim, secret, fingerprint, prune_cache, issue_approval, restore,
  normalized, land,
}
use orama_system.Swarm.Calls.{Call, issue, release}
use orama_system.Swarm.Prune.{UniqueKeys-prune_cache}
use orama_system.Swarm.Ticket.{
  absent, waiting, taken, view, ticket, Moves, stays, issued, closed, reopened, IsApart, IsFresh,
  Fades, Fades-refl, Fades-trans, Fades-prune, prune_flight, Goes, Fades-Goes,
}
use orama_system.Swarm.Ticket.Attempts.{Fades-land, land-Goes}

abbrev with_entry : ℕ → String → Entry → Approvals → Approvals
with_entry t i e s = prune_cache t (record s { cache = insert i e s.cache })

Fades-with_entry :
    (id : String) (t : ℕ) (i : String) (e : Entry) (s : Approvals)
    → UniqueKeys s.cache
    → (i == id) ≡ false
    → Fades id s (with_entry t i e s)
Fades-with_entry id t i e s u h =
    let s' = record s { cache = insert i e s.cache } in
    let other : Fades id s s' = record {
      flight = refl;
      cache = inl (lookup-insert i id e s.cache ∙ rw h refl);
    } in
    Fades-trans id s s' (with_entry t i e s) other
      (Fades-prune t id s' (UniqueKeys-insert i e s.cache u))

-- The entry is there afterwards unless it was pruned at once.
with_entry-cases :
    (id : String) (t : ℕ) (i : String) (e : Entry) (s : Approvals)
    → UniqueKeys s.cache
    → (i == id) ≡ true
    → (lookup id (with_entry t i e s).cache ≡ some e)
      ⊎ (lookup id (with_entry t i e s).cache ≡ none)
with_entry-cases id t i e s u h =
    let s' = record s { cache = insert i e s.cache } in
    let put : lookup id s'.cache ≡ some e = lookup-insert i id e s.cache ∙ rw h refl in
    let faded = Fades-prune t id s' (UniqueKeys-insert i e s.cache u) in
    elim faded.cache [ inl p ↦ inl (p ∙ put) | inr p ↦ inr p ]

flight-with_entry :
    (t : ℕ) (i : String) (e : Entry) (s : Approvals) → (with_entry t i e s).in_flight ≡ s.in_flight
flight-with_entry t i e s = prune_flight t (record s { cache = insert i e s.cache })

-- From a state in which the id has no claim to one in which it has none either.
Goes-views :
    (id : String) (call : Call) (s s' : Approvals) (e : Option Entry)
    → lookup id s'.in_flight ≡ none
    → lookup id s'.cache ≡ e
    → Moves id call (ticket id s) (view none e)
    → Goes id call s s'
Goes-views id call s s' e f k m = (
  subst (λ x. Moves id call (ticket id s) (view x (lookup id s'.cache))) (sym f)
      (subst (λ x. Moves id call (ticket id s) (view none x)) (sym k) m),
  inl f,
)

restored_Goes :
    (id : String) (t : ℕ) (p : Option String) (c : Claim) (s : Approvals)
    → UniqueKeys s.cache
    → (normalized p == id) ≡ true
    → lookup (normalized p) s.in_flight ≡ some c
    → Goes id
        (release t p c.attempt true)
        s
        (with_entry t (normalized p) c.entry (land (normalized p) s))
restored_Goes id t p c s u d f =
    let i = normalized p in
    let call = release t p c.attempt true in
    let after = with_entry t i c.entry (land i s) in
    let out : lookup id after.in_flight ≡ none =
      ap (λ x. lookup id x) (flight-with_entry t i c.entry (land i s))
      ∙ (lookup-remove i id s.in_flight ∙ rw d refl) in
    let was : lookup id s.in_flight ≡ some c = ground (arith, eq_iff i id) in
    let from = λ (e : Option Entry) (m : Moves id call (taken c) (view none e)).
      subst (λ x. Moves id call (view x (lookup id s.cache)) (view none e)) (sym was) m in
    elim (with_entry-cases id t i c.entry (land i s) u d) [
      | inl k ↦
          Goes-views id call s after (some c.entry) out k
            (from (some c.entry) (reopened t p c refl))
      | inr k ↦ Goes-views id call s after none out k (from none (closed c))
    ]

pub release-Goes :
    (id : String) (t : ℕ) (p : Option String) (a : String) (b : Bool) (o : Option Claim)
    (s : Approvals)
    → UniqueKeys s.cache
    → IsApart id s
    → lookup (normalized p) s.in_flight ≡ o
    → Goes id (release t p a b) s (restore t (normalized p) a b o (land (normalized p) s))
unfolding restore
release-Goes id t p a b none s u h f = land-Goes id (normalized p) (release t p a b) s h
release-Goes id t p a b (some c) s u h f =
    let i = normalized p in
    let back = with_entry t i c.entry (land i s) in
    let result = λ (x : Bool). Goes id (release t p a b) s (if x then back else land i s) in
    elim (Bool-cases ((c.attempt == a) && b)) [
      | inr x ↦ subst result (sym x) (land-Goes id i (release t p a b) s h)
      | inl x ↦ subst result (sym x) (elim (Bool-cases (i == id)) [
        | inr d ↦
            Fades-Goes id (release t p a b) s back
              (Fades-trans id s (land i s) back (Fades-land id i s d)
                (Fades-with_entry id t i c.entry (land i s) u d))
              h
        | inl d ↦
            let same : c.attempt ≡ a = ground (arith, eq_iff c.attempt a) in
            let true_b : true ≡ b = ground arith in
            subst (λ y. Goes id (release t p a y) s back) true_b
              (subst (λ y. Goes id (release t p y true) s back) same
                (restored_Goes id t p c s u d f))
      ])
    ]

issue-after :
    (env : Environ) (t t' t'' : ℕ) (i : String) (p : Fields) (s : Approvals)
    → let e : Entry = record { fp = fingerprint env p; ts = t'; stored = p } in
      (issue_approval env t t' t'' i p s).1
      ≡ (if is_blank (secret env) then s else with_entry t'' i e (prune_cache t s))
unfolding issue_approval
issue-after env t t' t'' i p s = ground arith

issued_Goes :
    (id : String) (t t' t'' : ℕ) (i : String) (p : Fields) (e : Entry) (pruned s : Approvals)
    → UniqueKeys pruned.cache
    → (i == id) ≡ true
    → Fades id s pruned
    → IsFresh id (issue t t' t'' i p) s
    → (e.ts ≡ t') × (e.stored ≡ p)
    → Goes id (issue t t' t'' i p) s (with_entry t'' i e pruned)
issued_Goes id t t' t'' i p e pruned s unique d faded (inl other) stamp = absurd (ground arith)
issued_Goes id t t' t'' i p e pruned s unique d faded (inr (f, k)) stamp =
    let call = issue t t' t'' i p in
    let after = with_entry t'' i e pruned in
    let same : i ≡ id = ground (arith, eq_iff i id) in
    let here : call ≡ issue t t' t'' id p = ap (λ x. issue t t' t'' x p) same in
    let out : lookup id after.in_flight ≡ none =
      ap (λ x. lookup id x) (flight-with_entry t'' i e pruned) ∙ (faded.flight ∙ f) in
    let start : absent ≡ ticket id s = ground arith in
    elim (with_entry-cases id t'' i e pruned unique d) [
      | inl put ↦
          Goes-views id call s after (some e) out put
            (subst (λ x. Moves id call x (waiting e)) start (issued t t' t'' p e here stamp))
      | inr put ↦
          Goes-views id call s after none out put
            (subst (λ x. Moves id call x absent) start (stays absent))
    ]

pub issue-Goes :
    (id : String) (env : Environ) (t t' t'' : ℕ) (i : String) (p : Fields) (s : Approvals)
    → UniqueKeys s.cache
    → IsApart id s
    → IsFresh id (issue t t' t'' i p) s
    → Goes id (issue t t' t'' i p) s (issue_approval env t t' t'' i p s).1
issue-Goes id env t t' t'' i p s u h fresh =
    let call = issue t t' t'' i p in
    let e : Entry = record { fp = fingerprint env p; ts = t'; stored = p } in
    let pruned = prune_cache t s in
    let faded = Fades-prune t id s u in
    let after = with_entry t'' i e pruned in
    let unique = UniqueKeys-prune_cache t s u in
    subst (Goes id call s) (sym (issue-after env t t' t'' i p s))
      (elim (Bool-cases (is_blank (secret env))) [
        | inl b ↦
            subst (λ x. Goes id call s (if x then s else after)) (sym b)
              (Fades-Goes id call s s (Fades-refl id s) h)
        | inr b ↦
            subst (λ x. Goes id call s (if x then s else after)) (sym b)
              (elim (Bool-cases (i == id)) [
                | inr d ↦
                    Fades-Goes id call s after
                      (Fades-trans id s pruned after faded
                        (Fades-with_entry id t'' i e pruned unique d))
                      h
                | inl d ↦ issued_Goes id t t' t'' i p e pruned s unique d faded fresh (refl, refl)
              ])
      ])
