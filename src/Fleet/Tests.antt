-- ===== src/Fleet/Tests.antt =====
-- Runs of the fleet monitors of src/orama_system/ on concrete inputs.
use orama_system.Base.{
  ◌≡◌, refl, Bool, true, false, none, [], ◌∷◌, ◌++◌, Dict, sub_ℕ, pos, document,
}
use orama_system.Fleet.Recovery.{
  PeerState, fleet_topology_stale, fleet_topology_recovered, FleetRecoveryManager, update_peer,
}
use orama_system.Fleet.Recovery.Transitions.{stay_stale, outage_events}
use orama_system.Fleet.SplitBrain.{PeerObservation, ReporterObs, plain}

abbrev mac : PeerState
mac = record { is_stale = false; stale_since = none; stale_duration = pos 0; last_recovery = none }

abbrev fleet : FleetRecoveryManager
fleet = record { peer_states = ("mac", mac) ∷ []; state_file = document []; writable = true }

outage_events_example :
    let (m₁, first) = update_peer 5000 "mac" true 1000 fleet in
    let (m₂, between) = stay_stale "mac" ((6000, 1000) ∷ (7000, 1000) ∷ []) m₁ in
    let (m₃, last) = update_peer 9000 "mac" false 8500 m₂ in
    first ++ (between ++ last)
    ≡ fleet_topology_stale "mac" 5000 (sub_ℕ 5000 1000) 5000
      ∷ fleet_topology_recovered "mac" (sub_ℕ 9000 5000) (sub_ℕ 9000 8500) 9000
      ∷ []
outage_events_example =
    outage_events 5000 9000 1000 8500 "mac" ((6000, 1000) ∷ (7000, 1000) ∷ []) fleet refl

abbrev report : Bool → PeerObservation
report reachable = record {
  observer_id = "win";
  target_id = "mac";
  reachable = reachable;
  confidence = 800;
  last_probed = 0;
  age = 0;
}

abbrev reports : Dict (Dict ReporterObs)
reports = ("win", ("mac", plain false) ∷ []) ∷ []
