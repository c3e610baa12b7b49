-- ===== src/Fleet/Recovery/Transitions.antt =====
-- The changes of a peer's state in src/orama_system/fleet_recovery_manager.py and the events beside them.
use mathlib.Core.Path.{ap₂}
use orama_system.Base.{
  ℕ, String, ◌≡◌, refl, sym, ◌∙◌, ap, Bool, true, false, not, Option, none, some, List, [], ◌∷◌,
  ◌++◌, arith, inl, inr, if◌then◌else◌, is_some, is_nonempty, bool_eq, Dict, lookup, lookup-insert,
  lookup-insert_self, sub_ℕ, ◌==◌, eq_iff, Bool-cases,
}
use orama_system.Fleet.Recovery.{
  PeerState, Event, Change, fleet_topology_stale, fleet_topology_recovered, FleetRecoveryManager,
  load_state, save_state, old_is_stale, transition, written, update_peer,
}

-- A peer is stale exactly when the start of its outage is known.
abbrev pub IsWellFormed : Option PeerState → Type 0
IsWellFormed none = Unit
IsWellFormed (some s) = s.is_stale ≡ is_some s.stale_since

abbrev pub after : Option PeerState → Option PeerState → Option PeerState
after old none = old
after old (some s) = some s

transition_lem :
    (now : ℕ) (id : String) (stale : Bool) (seen : ℕ) (old : Option PeerState)
    → IsWellFormed old
    → let c = transition now id stale seen old in
      IsWellFormed (after old c.state)
      × (old_is_stale (after old c.state) ≡ stale)
      × (is_nonempty c.events ≡ not (bool_eq stale (old_is_stale old)))
unfolding transition
transition_lem now id true seen none w = (refl, refl, refl)
transition_lem now id false seen none w = (refl, refl, refl)
transition_lem now id stale seen (some s) w = ground arith

peer_states-save_state : (m : FleetRecoveryManager) → (save_state m).peer_states ≡ m.peer_states
unfolding save_state
peer_states-save_state m = ground arith

lookup-written_self :
    (id : String) (new : Option PeerState) (peers : Dict PeerState)
    → lookup id (written id new peers) ≡ after (lookup id peers) new
lookup-written_self id none peers = refl
lookup-written_self id (some s) peers = lookup-insert_self id s peers

lookup-written_ne :
    (id j : String) (new : Option PeerState) (peers : Dict PeerState)
    → (id == j) ≡ false
    → lookup j (written id new peers) ≡ lookup j peers
lookup-written_ne id j none peers e = refl
lookup-written_ne id j (some s) peers e = lookup-insert id j s peers ∙ rw e refl

module _ (now : ℕ) (id : String) (stale : Bool) (seen : ℕ) (m : FleetRecoveryManager) where
  abbrev change : Change
  change = transition now id stale seen (lookup id m.peer_states)

  lookup-update_peer_self :
      lookup id (update_peer now id stale seen m).0.peer_states
      ≡ after (lookup id m.peer_states) change.state
  unfolding update_peer
  lookup-update_peer_self =
      ap (lookup id)
        (peer_states-save_state (record m { peer_states = written id change.state m.peer_states }))
      ∙ lookup-written_self id change.state m.peer_states

  lookup-update_peer_other :
      (j : String)
      → (id == j) ≡ false
      → lookup j (update_peer now id stale seen m).0.peer_states ≡ lookup j m.peer_states
  unfolding update_peer
  lookup-update_peer_other j e =
      ap (lookup j)
        (peer_states-save_state (record m { peer_states = written id change.state m.peer_states }))
      ∙ lookup-written_ne id j change.state m.peer_states e

  -- For a peer whose record is well formed, an update makes it stale or fresh as told, keeps its record well
  -- formed, emits events exactly if its state changes, and touches no other peer.
  pub update_peer_lem :
      (j : String)
      → IsWellFormed (lookup id m.peer_states)
      → let (m', events) = update_peer now id stale seen m in
        IsWellFormed (lookup id m'.peer_states)
        × (old_is_stale (lookup id m'.peer_states) ≡ stale)
        × (is_nonempty events ≡ not (bool_eq stale (old_is_stale (lookup id m.peer_states))))
        × (lookup j m'.peer_states
            ≡ (if id == j then lookup id m'.peer_states else lookup j m.peer_states))
  update_peer_lem j w =
      let t = transition_lem now id stale seen (lookup id m.peer_states) w in
      (
        rw lookup-update_peer_self t.0,
        rw lookup-update_peer_self t.1,
        unfold update_peer in t.2,
        elim (Bool-cases (id == j)) [
          | inl same ↦ rw same (
              ap (λ i. lookup i (update_peer now id stale seen m).0.peer_states)
                (sym ((eq_iff id j).0 same)))
          | inr other ↦ rw other (lookup-update_peer_other j other)
        ],
      )

  -- With a writable state file, a restart after an update finds the peers as the update left them.
  pub restart_lem :
      m.writable ≡ true → let (m', _) = update_peer now id stale seen m in load_state m' ≡ m'
  unfolding update_peer load_state save_state
  restart_lem h = rw h refl

-- ------------------------------------------------------------------ an outage

-- Updates that find the peer stale, at the given readings of the clock and times of last contact.
pub stay_stale : String → List (ℕ × ℕ) → FleetRecoveryManager → FleetRecoveryManager × List Event
stay_stale id [] m = (m, [])
stay_stale id ((now, seen) ∷ rest) m =
    let (m', events) = update_peer now id true seen m in
    let (m'', more) = stay_stale id rest m' in (m'', events ++ more)

-- The peer has been stale since then.
abbrev pub IsStaleSince : ℕ → Option PeerState → Type 0
IsStaleSince since none = ⊥
IsStaleSince since (some s) = (s.is_stale ≡ true) × (s.stale_since ≡ some since)

transition-stale :
    (now since : ℕ) (id : String) (seen : ℕ) (old : Option PeerState)
    → IsStaleSince since old
    → let c = transition now id true seen old in
      IsStaleSince since (after old c.state) × (c.events ≡ [])
unfolding transition
transition-stale now since id seen none h = elim h [ ]
transition-stale now since id seen (some s) h = ground arith

transition-recovers :
    (now since : ℕ) (id : String) (seen : ℕ) (old : Option PeerState)
    → IsStaleSince since old
    → (transition now id false seen old).events
      ≡ fleet_topology_recovered id (sub_ℕ now since) (sub_ℕ now seen) now ∷ []
unfolding transition
transition-recovers now since id seen none h = elim h [ ]
transition-recovers now since id seen (some s) h = ground arith

transition-begins :
    (now : ℕ) (id : String) (seen : ℕ) (old : Option PeerState)
    → old_is_stale old ≡ false
    → let c = transition now id true seen old in
      IsStaleSince now (after old c.state)
      × (c.events ≡ fleet_topology_stale id now (sub_ℕ now seen) now ∷ [])
unfolding transition
transition-begins now id seen none h = ((refl, refl), refl)
transition-begins now id seen (some s) h = ground arith

events_of :
    (now : ℕ) (id : String) (stale : Bool) (seen : ℕ) (m : FleetRecoveryManager)
    → (update_peer now id stale seen m).1
      ≡ (transition now id stale seen (lookup id m.peer_states)).events
unfolding update_peer
events_of now id stale seen m = refl

stay_stale_lem :
    (since : ℕ) (id : String) (turns : List (ℕ × ℕ)) (m : FleetRecoveryManager)
    → IsStaleSince since (lookup id m.peer_states)
    → let (m', events) = stay_stale id turns m in
      IsStaleSince since (lookup id m'.peer_states) × (events ≡ [])
unfolding stay_stale
stay_stale_lem since id [] m h = (h, refl)
stay_stale_lem since id ((now, seen) ∷ rest) m h =
    let t = transition-stale now since id seen (lookup id m.peer_states) h in
    let m' = (update_peer now id true seen m).0 in
    let r = stay_stale_lem since id rest m' (rw (lookup-update_peer_self now id true seen m) t.0) in
    (r.0, ap₂ ◌++◌ (events_of now id true seen m ∙ t.1) r.1)

-- An outage of any length has two events: one as the peer turns stale, and, at its end, one that reports the
-- time since then, however many updates found it stale in between.
pub outage_events :
    (begin end seen seen' : ℕ) (id : String) (turns : List (ℕ × ℕ)) (m : FleetRecoveryManager)
    → old_is_stale (lookup id m.peer_states) ≡ false
    → let (m₁, first) = update_peer begin id true seen m in
      let (m₂, between) = stay_stale id turns m₁ in
      let (m₃, last) = update_peer end id false seen' m₂ in
      first ++ (between ++ last)
      ≡ fleet_topology_stale id begin (sub_ℕ begin seen) begin
        ∷ fleet_topology_recovered id (sub_ℕ end begin) (sub_ℕ end seen') end
        ∷ []
outage_events begin end seen seen' id turns m fresh =
    let t = transition-begins begin id seen (lookup id m.peer_states) fresh in
    let m₁ = (update_peer begin id true seen m).0 in
    let s =
      stay_stale_lem begin id turns m₁ (rw (lookup-update_peer_self begin id true seen m) t.0) in
    let m₂ = (stay_stale id turns m₁).0 in
    let last = transition-recovers end begin id seen' (lookup id m₂.peer_states) s.0 in
    ap₂ ◌++◌ (events_of begin id true seen m ∙ t.1)
      (ap₂ ◌++◌ s.1 (events_of end id false seen' m₂ ∙ last))
