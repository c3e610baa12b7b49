-- ===== src/Fleet/Recovery.antt =====
-- src/orama_system/fleet_recovery_manager.py: the states of the peers, their transitions and the events.
-- Times are in milliseconds; `now` is the reading of the clock in a call.
pub mod Transitions
use orama_system.Base.{
  ℕ, ◌+◌, ◌-◌, String, Bool, true, false, not, ◌&&◌, Option, none, some, List, [], ◌∷◌,
  if◌then◌else◌, is_some, Dict, lookup, insert, contains, ℤ, pos, sub_ℕ, JsonFile, document,
  load_json, nat_eq,
}

pub record PeerState : Type 0 where
  pub is_stale : Bool
  pub stale_since : Option ℕ
  pub stale_duration : ℤ
  pub last_recovery : Option ℕ

pub data Event : Type 0 where
  fleet_topology_stale : String → ℕ → ℤ → ℕ → Event
  fleet_topology_recovered : String → ℤ → ℤ → ℕ → Event

-- `writable` is whether the state file can be written.
pub record FleetRecoveryManager : Type 0 where
  pub peer_states : Dict PeerState
  pub state_file : JsonFile (Dict PeerState)
  pub writable : Bool

-- `_load_state`
unfoldable pub load_state : FleetRecoveryManager → FleetRecoveryManager
load_state m = record m { peer_states = load_json m.state_file [] }

-- `_save_state`
unfoldable pub save_state : FleetRecoveryManager → FleetRecoveryManager
save_state m = if m.writable then record m { state_file = document m.peer_states } else m

abbrev pub old_is_stale : Option PeerState → Bool
old_is_stale none = false
old_is_stale (some s) = s.is_stale

abbrev pub old_stale_since : Option PeerState → Option ℕ
old_stale_since none = none
old_stale_since (some s) = s.stale_since

abbrev pub old_last_recovery : Option PeerState → Option ℕ
old_last_recovery none = none
old_last_recovery (some s) = s.last_recovery

-- What a branch of `update_peer` does: the peer's new state, if it writes one, and its events.
pub record Change : Type 0 where
  pub state : Option PeerState
  pub events : List Event

became_stale : ℕ → String → ℕ → Option PeerState → Change
became_stale now peer_id last_seen old = record {
  state = some (record {
    is_stale = true;
    stale_since = some now;
    stale_duration = pos 0;
    last_recovery = old_last_recovery old;
  });
  events = fleet_topology_stale peer_id now (sub_ℕ now last_seen) now ∷ [];
}

recovered : ℕ → String → ℕ → ℕ → Change
recovered now peer_id last_seen since = record {
  state = some (record {
    is_stale = false;
    stale_since = none;
    stale_duration = sub_ℕ now since;
    last_recovery = some now;
  });
  events = fleet_topology_recovered peer_id (sub_ℕ now since) (sub_ℕ now last_seen) now ∷ [];
}

still_stale : ℕ → ℕ → Option PeerState → Change
still_stale now since old = record {
  state = some (record {
    is_stale = true;
    stale_since = some since;
    stale_duration = sub_ℕ now since;
    last_recovery = old_last_recovery old;
  });
  events = [];
}

-- The last branch writes only for a peer that is not known.
no_change : ℕ → Bool → Option PeerState → Change
no_change now stale (some s) = record { state = none; events = [] }
no_change now stale none = record {
  state = some (record {
    is_stale = stale;
    stale_since = if stale then some now else none;
    stale_duration = pos 0;
    last_recovery = none;
  });
  events = [];
}

-- The branches for a peer that was stale, by `old_stale_since`.
was_stale : ℕ → String → Bool → ℕ → Option PeerState → Option ℕ → Change
was_stale now peer_id stale last_seen old none = no_change now stale old
was_stale now peer_id stale last_seen old (some since) =
    if stale then still_stale now since old else recovered now peer_id last_seen since

unfoldable pub transition : ℕ → String → Bool → ℕ → Option PeerState → Change
unfolding became_stale recovered still_stale no_change was_stale
transition now peer_id stale last_seen old =
    if stale && not (old_is_stale old)
    then became_stale now peer_id last_seen old
    else if old_is_stale old
    then was_stale now peer_id stale last_seen old (old_stale_since old)
    else no_change now stale old

abbrev written : String → Option PeerState → Dict PeerState → Dict PeerState
written peer_id none peers = peers
written peer_id (some s) peers = insert peer_id s peers

unfoldable pub update_peer :
    ℕ → String → Bool → ℕ → FleetRecoveryManager → FleetRecoveryManager × List Event
unfolding save_state
update_peer now peer_id stale last_seen m =
    let c = transition now peer_id stale last_seen (lookup peer_id m.peer_states) in
    (save_state (record m { peer_states = written peer_id c.state m.peer_states }), c.events)

pub record PeerRecoveryState : Type 0 where
  pub peer_id : String
  pub is_stale : Bool
  pub stale_since : Option ℕ
  pub stale_duration : ℤ
  pub recovered : Bool
  pub last_recovery : Option ℕ

-- `(now - stale_since) if stale_since else 0.0`: a time stamp of 0 counts as none.
since_duration : ℕ → Option ℕ → ℤ
since_duration now none = pos 0
since_duration now (some since) = if nat_eq since 0 then pos 0 else sub_ℕ now since

unfoldable pub get_peer_recovery_state : ℕ → String → FleetRecoveryManager → PeerRecoveryState
unfolding since_duration
get_peer_recovery_state now peer_id m =
    let old = lookup peer_id m.peer_states in
    record {
      peer_id = peer_id;
      is_stale = old_is_stale old;
      stale_since = old_stale_since old;
      stale_duration = since_duration now (old_stale_since old);
      recovered = is_some (old_last_recovery old);
      last_recovery = old_last_recovery old;
    }
