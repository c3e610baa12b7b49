-- ===== src/Swarm/Ticket.antt =====
-- The approvals of src/orama_system/swarm_approval.py, seen at one preview id.
use orama_system.Base.{
  ℕ, String, ◌≡◌, ◌⊎◌, inl, inr, refl, sym, ◌∙◌, ap, subst, Bool, true, false, not, ◌&&◌, Option,
  none, some, arith, if◌then◌else◌, ◌==◌, eq_iff, eq_refl, lookup, contains, insert, remove,
  lookup-remove, lookup-insert, is_blank, is_some, UniqueKeys, UniqueKeys-insert, Bool-cases,
  Option-cases,
}
use orama_system.Oramaclaw.Json.{Fields}
use orama_system.Swarm.{
  Environ, Entry, Approvals, Outcome, ok, refused, Request, Claim, secret, sign, fingerprint,
  prune_cache, cached_preview, issue_approval, check_launch, consume_launch, reserve, after_check,
  claim_launch_for_dispatch, finalize_launch_claim, release_launch_claim, restore, verify_launch,
  then_consume, normalized, is_legacy, is_attempt, uncache, land, is_expired, unknown,
}
use orama_system.Swarm.Calls.{
  Call, issue, look, check, consume, claim, finalize, release, verify, apply, is_ok,
}
use orama_system.Swarm.Sound.{IsSound, check_launch-cases}
use orama_system.Swarm.Prune.{lookup-prune_cache, UniqueKeys-prune_cache}
pub mod Attempts
pub mod Entries
pub mod Steps

-- A preview's approval: there is none, it waits for a launch, or a dispatch attempt has it.
pub data Ticket : Type 0 where
  absent : Ticket
  waiting : Entry → Ticket
  taken : Claim → Ticket

abbrev pub view : Option Claim → Option Entry → Ticket
view (some c) e = taken c
view none (some e) = waiting e
view none none = absent

abbrev pub ticket : String → Approvals → Ticket
ticket id s = view (lookup id s.in_flight) (lookup id s.cache)

-- What a call may do to the approval of one id. Only an issue makes one, only a claim takes one, with the
-- entry that was waiting, and only its own attempt's release puts it back, again with that entry.
pub data Moves (id : String) (call : Call) : Ticket → Ticket → Type 0 where
  stays : (t : Ticket) → Moves id call t t
  issued :
      (t t' t'' : ℕ) (p : Fields) (e : Entry)
      → call ≡ issue t t' t'' id p
      → (e.ts ≡ t') × (e.stored ≡ p)
      → Moves id call absent (waiting e)
  dropped : (e : Entry) → Moves id call (waiting e) absent
  claimed :
      (t t' : ℕ) (a : String) (q : Request) (e : Entry)
      → call ≡ claim t t' a q
      → normalized q.preview_id ≡ id
      → Moves id call (waiting e) (taken (record { entry = e; attempt = a }))
  closed : (c : Claim) → Moves id call (taken c) absent
  reopened :
      (t : ℕ) (p : Option String) (c : Claim)
      → call ≡ release t p c.attempt true
      → Moves id call (taken c) (waiting c.entry)

-- An id is not both in the cache and in flight.
abbrev pub IsApart : String → Approvals → Type 0
IsApart id s = (lookup id s.in_flight ≡ none) ⊎ (lookup id s.cache ≡ none)

-- The random id that an issue draws is in no use.
abbrev pub IsFresh : String → Call → Approvals → Type 0
IsFresh id (issue t t' t'' i p) s =
    ((i == id) ≡ false) ⊎ ((lookup id s.in_flight ≡ none) × (lookup id s.cache ≡ none))
IsFresh id _ s = Unit

-- Nothing happens to an id but that its preview may leave the cache.
pub record Fades (id : String) (s s' : Approvals) : Type 0 where
  pub flight : lookup id s'.in_flight ≡ lookup id s.in_flight
  pub cache : (lookup id s'.cache ≡ lookup id s.cache) ⊎ (lookup id s'.cache ≡ none)

pub Fades-refl : (id : String) (s : Approvals) → Fades id s s
Fades-refl id s = record { flight = refl; cache = inl refl }

pub Fades-trans :
    (id : String) (s s' s'' : Approvals) → Fades id s s' → Fades id s' s'' → Fades id s s''
Fades-trans id s s' s'' h k = record {
  flight = k.flight ∙ h.flight;
  cache = ground (arith, h.cache, k.cache);
}

pub Fades-uncache : (id i : String) (s : Approvals) → Fades id s (uncache i s)
Fades-uncache id i s = record { flight = refl; cache = ground (arith, lookup-remove i id s.cache) }

pub Fades-check :
    (env : Environ) (t : ℕ) (q : Request) (id : String) (s : Approvals)
    → Fades id s (check_launch env t q s).1
Fades-check env t q id s = elim (check_launch-cases env t q s) [
  | inl e ↦ subst (Fades id s) (sym e) (Fades-refl id s)
  | inr (e, _) ↦ subst (Fades id s) (sym e) (Fades-uncache id (normalized q.preview_id) s)
]

pub Fades-consume :
    (t : ℕ) (p : Option String) (id : String) (s : Approvals) → Fades id s (consume_launch t p s).1
unfolding consume_launch
Fades-consume t p id s = let h = Fades-uncache id (normalized p) s in ground arith

pub Fades-look :
    (t : ℕ) (p : Option String) (id : String) (s : Approvals) → Fades id s (cached_preview t p s).1
unfolding cached_preview
Fades-look t none id s = Fades-refl id s
Fades-look t (some p) id s = let h = Fades-uncache id p s in let k = Fades-refl id s in ground arith

pub Fades-then_consume :
    (env : Environ) (t : ℕ) (q : Request) (o : Outcome (Unit {0})) (id : String) (s : Approvals)
    → Fades id s (then_consume env t q o s).1
Fades-then_consume env t q (refused m) id s = Fades-refl id s
Fades-then_consume env t q (ok _) id s =
    let h = Fades-consume t q.preview_id id s in let k = Fades-refl id s in ground arith

pub prune_flight : (t : ℕ) (s : Approvals) → (prune_cache t s).in_flight ≡ s.in_flight
unfolding prune_cache
prune_flight t s = refl

pub Fades-prune :
    (t : ℕ) (id : String) (s : Approvals) → UniqueKeys s.cache → Fades id s (prune_cache t s)
Fades-prune t id s u = record {
  flight = ap (λ d. lookup id d) (prune_flight t s);
  cache = elim (Option-cases (lookup id (prune_cache t s).cache)) [
    | inl e ↦ inr e
    | inr (f, e) ↦ inl (e ∙ sym (lookup-prune_cache t s id f u e).0)
  ];
}

pub Moves-view :
    (id : String) (call : Call) (f : Option Claim) (e e' : Option Entry)
    → (e' ≡ e) ⊎ (e' ≡ none)
    → Moves id call (view f e) (view f e')
Moves-view id call (some c) e e' h = stays (taken c)
Moves-view id call none none none h = stays absent
Moves-view id call none none (some e') h = absurd (ground arith)
Moves-view id call none (some e) none h = dropped e
Moves-view id call none (some e) (some e') h =
    subst (λ x. Moves id call (waiting e) (waiting x)) (ground arith) (stays (waiting e))

pub Fades-Moves :
    (id : String) (call : Call) (s s' : Approvals)
    → Fades id s s'
    → Moves id call (ticket id s) (ticket id s')
Fades-Moves id call s s' h =
    subst (λ f. Moves id call (ticket id s) (view f (lookup id s'.cache))) (sym h.flight)
      (Moves-view id call (lookup id s.in_flight) (lookup id s.cache) (lookup id s'.cache) h.cache)

pub Fades-IsApart : (id : String) (s s' : Approvals) → Fades id s s' → IsApart id s → IsApart id s'
Fades-IsApart id s s' h (inl p) = inl (h.flight ∙ p)
Fades-IsApart id s s' h (inr p) = elim h.cache [ inl q ↦ inr (q ∙ p) | inr q ↦ inr q ]

-- A move that keeps the id apart.
abbrev pub Goes : String → Call → Approvals → Approvals → Type 0
Goes id call s s' = Moves id call (ticket id s) (ticket id s') × IsApart id s'

pub Fades-Goes :
    (id : String) (call : Call) (s s' : Approvals)
    → Fades id s s'
    → IsApart id s
    → Goes id call s s'
Fades-Goes id call s s' h a = (Fades-Moves id call s s' h, Fades-IsApart id s s' h a)
