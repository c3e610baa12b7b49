-- ===== src/Fleet/SplitBrain/Consensus.antt =====
-- The verdicts of src/orama_system/split_brain_resolver.py on one peer.
use orama_system.Base.{
  ℕ, ◌+◌, ◌-◌, ◌≤◌, ◌≡◌, refl, Bool, List, [], ◌∷◌, arith, if◌then◌else◌, length,
}
use orama_system.Fleet.SplitBrain.{
  PeerObservation, agree_count, resolve_peer_reachability, detect_split_brain, consensus,
  direct_observation_only, Reason, direct_overrides_relayed_due_to_freshness,
  direct_observation_overrides_stale_relayed,
}

agree_count-le : (os : List PeerObservation) → agree_count os ≤ length os
unfolding agree_count
agree_count-le [] = omega arith
agree_count-le (o ∷ os) = ground (arith, agree_count-le os)

-- In every branch the node's own observation is the verdict: reports of others change only the counts, the
-- confidence and the reason.
pub direct_observation_wins :
    (mine : Bool) (os : List PeerObservation) → (resolve_peer_reachability mine os).reachable ≡ mine
unfolding resolve_peer_reachability
direct_observation_wins mine [] = refl
direct_observation_wins mine (o ∷ os) = ground arith

-- `resolve_peer_reachability` and `detect_split_brain` call the same inputs a split brain, although one
-- compares two counts and the other a count with half of the reports.
pub split_brain_agrees :
    (mine : Bool) (os : List PeerObservation)
    → (resolve_peer_reachability mine os).split_brain ≡ (detect_split_brain mine os).split_brain
unfolding resolve_peer_reachability detect_split_brain
split_brain_agrees mine [] = refl
split_brain_agrees mine (o ∷ os) = ground (arith, agree_count-le (o ∷ os))

-- How many observers the two counts stand for, by the reason of the verdict.
abbrev pub counted : Reason → Bool → List PeerObservation → ℕ
counted direct_observation_only mine os = 1
counted consensus mine os = length os + 1
counted direct_overrides_relayed_due_to_freshness mine os =
    1 + (if mine then length os - agree_count os else agree_count os)
counted direct_observation_overrides_stale_relayed mine os = 1

-- The two counts together are all observers where the verdict is a consensus. In a split brain the reports
-- on the node's own side are left out of them, and over stale reports only the node itself counts.
pub counts_lem :
    (mine : Bool) (os : List PeerObservation)
    → let r = resolve_peer_reachability mine os in
      r.agreement_count + r.disagreement_count ≡ counted r.resolution_reason mine os
unfolding resolve_peer_reachability
counts_lem mine [] = refl
counts_lem mine (o ∷ os) = ground (arith, agree_count-le (o ∷ os))
