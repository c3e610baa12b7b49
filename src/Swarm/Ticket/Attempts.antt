-- ===== src/Swarm/Ticket/Attempts.antt =====
-- The claim of a preview and the end of its attempt, src/orama_system/swarm_approval.py, at one id.
use orama_system.Base.{
  ℕ, String, ◌≡◌, ◌⊎◌, inl, inr, refl, sym, ◌∙◌, subst, Bool, false, Option, none, some, arith,
  if◌then◌else◌, ◌==◌, eq_iff, eq_refl, lookup, contains, insert, remove, lookup-remove,
  lookup-insert, Bool-cases,
}
use orama_system.Oramaclaw.Json.{Fields}
use orama_system.Swarm.{
  Entry, Approvals, Outcome, ok, refused, Request, Claim, reserve, after_check, normalized, uncache,
  land, is_expired, unknown,
}
use orama_system.Swarm.Calls.{Call, claim, is_ok}
use orama_system.Swarm.Ticket.{
  taken, view, ticket, Moves, stays, claimed, closed, IsApart, Fades, Fades-refl, Fades-uncache,
  Goes, Fades-Goes,
}

-- What taking the entry of `i` does to another id.
pub Fades-reserved :
    (id i : String) (c : Claim) (s : Approvals)
    → (i == id) ≡ false
    → Fades id s (record (uncache i s) { in_flight = insert i c s.in_flight })
Fades-reserved id i c s h = record {
  flight = lookup-insert i id c s.in_flight ∙ rw h refl;
  cache = inl (lookup-remove i id s.cache ∙ rw h refl);
}

pub Moves-claimed :
    (id : String) (t t' : ℕ) (a : String) (q : Request) (e : Entry) (s : Approvals)
    → normalized q.preview_id ≡ id
    → lookup id s.in_flight ≡ none
    → lookup id s.cache ≡ some e
    → Moves id (claim t t' a q) (ticket id s) (
        ticket id (record (uncache id s) {
          in_flight = insert id (record { entry = e; attempt = a }) s.in_flight;
        }))
Moves-claimed id t t' a q e s n f k =
    let c : Claim = record { entry = e; attempt = a } in
    let there : lookup id (insert id c s.in_flight) ≡ some c =
      lookup-insert id id c s.in_flight ∙ rw (eq_refl id) refl in
    let k' = lookup id (remove id s.cache) in
    subst (λ x. Moves id (claim t t' a q) (ticket id s) (view x k')) (sym there)
      (subst (λ x. Moves id (claim t t' a q) (view x (lookup id s.cache)) (taken c)) (sym f)
        (subst (λ x. Moves id (claim t t' a q) (view none x) (taken c)) (sym k)
          (claimed t t' a q e refl n)))

pub IsApart-reserved :
    (id : String) (c : Claim) (s : Approvals)
    → IsApart id (record (uncache id s) { in_flight = insert id c s.in_flight })
IsApart-reserved id c s = inr (lookup-remove id id s.cache ∙ rw (eq_refl id) refl)

reserved_Goes :
    (id i : String) (t t' : ℕ) (a : String) (q : Request) (e : Entry) (s : Approvals)
    → i ≡ id
    → normalized q.preview_id ≡ i
    → lookup i s.in_flight ≡ none
    → lookup i s.cache ≡ some e
    → Goes id (claim t t' a q) s (record (uncache i s) {
      in_flight = insert i (record { entry = e; attempt = a }) s.in_flight;
    })
reserved_Goes id i t t' a q e s d n f k =
    let c : Claim = record { entry = e; attempt = a } in
    subst
      (λ j. Goes j (claim t t' a q) s (record (uncache i s) { in_flight = insert i c s.in_flight }))
      d (Moves-claimed i t t' a q e s n f k, IsApart-reserved i c s)

reserve-Goes :
    (id : String) (t t' : ℕ) (a : String) (q : Request) (o : Option Entry) (s : Approvals)
    → IsApart id s
    → lookup (normalized q.preview_id) s.in_flight ≡ none
    → lookup (normalized q.preview_id) s.cache ≡ o
    → Goes id
        (claim t t' a q)
        s
        (reserve t' a (normalized q.preview_id) o (uncache (normalized q.preview_id) s)).1
unfolding reserve
reserve-Goes id t t' a q none s h f k =
    let i = normalized q.preview_id in
    Fades-Goes id (claim t t' a q) s (uncache i s) (Fades-uncache id i s) h
reserve-Goes id t t' a q (some e) s h f k =
    let i = normalized q.preview_id in
    let call = claim t t' a q in
    let gone = uncache i s in
    let c : Claim = record { entry = e; attempt = a } in
    let took = record gone { in_flight = insert i c s.in_flight } in
    let stop : Outcome (Fields × String) × Approvals = (refused "preview expired", gone) in
    let take : Outcome (Fields × String) × Approvals = (ok (e.stored, a), took) in
    let result = λ (b : Bool). Goes id call s (if b then stop else take).1 in
    elim (Bool-cases (is_expired t' e.ts)) [
      | inl b ↦ subst result (sym b) (Fades-Goes id call s gone (Fades-uncache id i s) h)
      | inr b ↦ subst result (sym b) (elim (Bool-cases (i == id)) [
        | inr d ↦ Fades-Goes id call s took (Fades-reserved id i c s d) h
        | inl d ↦ reserved_Goes id i t t' a q e s (ground (arith, eq_iff i id)) refl f k
      ])
    ]

after_check-Goes :
    (id : String) (t t' : ℕ) (a : String) (q : Request) (o : Outcome (Unit {0})) (s : Approvals)
    → IsApart id s
    → Goes id (claim t t' a q) s (after_check t' a (normalized q.preview_id) o s).1
unfolding after_check
after_check-Goes id t t' a q (refused m) s h =
    Fades-Goes id (claim t t' a q) s s (Fades-refl id s) h
after_check-Goes id t t' a q (ok _) s h =
    let i = normalized q.preview_id in
    let call = claim t t' a q in
    let stop : Outcome (Fields × String) × Approvals = (refused unknown, s) in
    let take = reserve t' a i (lookup i s.cache) (uncache i s) in
    let result = λ (b : Bool). Goes id call s (if b then stop else take).1 in
    elim (Bool-cases (contains i s.in_flight)) [
      | inl b ↦ subst result (sym b) (Fades-Goes id call s s (Fades-refl id s) h)
      | inr b ↦
          subst result (sym b) (reserve-Goes id t t' a q (lookup i s.cache) s h (ground arith) refl)
    ]

pub checked_Goes :
    (id : String) (t t' : ℕ) (a : String) (q : Request) (o : Outcome (Unit {0})) (s s' : Approvals)
    → IsApart id s
    → (s' ≡ s) ⊎ (s' ≡ uncache (normalized q.preview_id) s) × (is_ok o ≡ false)
    → Goes id (claim t t' a q) s (after_check t' a (normalized q.preview_id) o s').1
unfolding after_check
checked_Goes id t t' a q o s s' h (inl e) =
    subst (λ x. Goes id (claim t t' a q) s (after_check t' a (normalized q.preview_id) o x).1)
      (sym e) (after_check-Goes id t t' a q o s h)
checked_Goes id t t' a q (refused m) s s' h (inr (e, _)) =
    subst (Goes id (claim t t' a q) s) (sym e) (
      Fades-Goes id (claim t t' a q) s (uncache (normalized q.preview_id) s)
        (Fades-uncache id (normalized q.preview_id) s) h)
checked_Goes id t t' a q (ok _) s s' h (inr (e, n)) = absurd (ground arith)

-- What ending the attempt at `i` does to another id.
pub Fades-land : (id i : String) (s : Approvals) → (i == id) ≡ false → Fades id s (land i s)
Fades-land id i s h = record {
  flight = lookup-remove i id s.in_flight ∙ rw h refl;
  cache = inl refl;
}

pub Moves-gone :
    (id : String) (call : Call) (f : Option Claim) (e : Option Entry)
    → (f ≡ none) ⊎ (e ≡ none)
    → Moves id call (view f e) (view none e)
Moves-gone id call none e h = stays (view none e)
Moves-gone id call (some c) none h = closed c
Moves-gone id call (some c) (some e) h = absurd (ground arith)

pub land-Goes :
    (id i : String) (call : Call) (s : Approvals) → IsApart id s → Goes id call s (land i s)
land-Goes id i call s h = elim (Bool-cases (i == id)) [
  | inr d ↦ Fades-Goes id call s (land i s) (Fades-land id i s d) h
  | inl d ↦
      let out : lookup id (remove i s.in_flight) ≡ none =
        lookup-remove i id s.in_flight ∙ rw d refl in
      (
        subst (λ f. Moves id call (ticket id s) (view f (lookup id s.cache))) (sym out)
            (Moves-gone id call (lookup id s.in_flight) (lookup id s.cache) h),
        inl out,
      )
]
