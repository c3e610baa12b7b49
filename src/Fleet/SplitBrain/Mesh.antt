-- ===== src/Fleet/SplitBrain/Mesh.antt =====
-- `merge_observations` of src/orama_system/split_brain_resolver.py, peer by peer.
use orama_system.Base.{
  ℕ, String, ◌≡◌, refl, ◌∙◌, Bool, Option, none, some, [], ◌∷◌, ◌==◌, eq_iff, Dict, lookup, insert,
  lookup-insert, Bool-cases, inl, inr,
}
use orama_system.Fleet.SplitBrain.{
  ConsensusResult, ReporterObs, resolve_peer_reachability, collect, merge_from, merge_observations,
}

-- No peer is listed twice.
abbrev pub UniqueKeys : Dict Bool → Type 0
UniqueKeys [] = Unit
UniqueKeys ((k, _) ∷ d) = (lookup k d ≡ none) × UniqueKeys d

module _ (now : ℕ) (reports : Dict (Dict ReporterObs)) where
  -- The verdict on a peer by the node's own observation, or what was there before.
  abbrev verdict : String → Option Bool → Option ConsensusResult → Option ConsensusResult
  verdict peer none before = before
  verdict peer (some mine) before = some (resolve_peer_reachability mine (collect now peer reports))

  at_key :
      (k peer : String) (mine : Bool) (topology : Dict Bool) (results : Dict ConsensusResult)
      → lookup k topology ≡ none
      → k ≡ peer
      → verdict peer
          (lookup peer topology)
          (some (resolve_peer_reachability mine (collect now k reports)))
        ≡ verdict peer (some mine) (lookup peer results)
  at_key k peer mine topology results absent same = rw (← same) (rw absent refl)

  lookup-merge_from :
      (peer : String) (topology : Dict Bool) (results : Dict ConsensusResult)
      → UniqueKeys topology
      → lookup peer (merge_from now topology reports results)
        ≡ verdict peer (lookup peer topology) (lookup peer results)
  unfolding merge_from
  lookup-merge_from peer [] results u = refl
  lookup-merge_from peer ((k, mine) ∷ topology) results u =
      lookup-merge_from peer topology
        (insert k (resolve_peer_reachability mine (collect now k reports)) results) u.1
      ∙ rw (lookup-insert k peer (resolve_peer_reachability mine (collect now k reports)) results)
          (elim (Bool-cases (k == peer)) [
            | inl same ↦ rw same (at_key k peer mine topology results u.0 ((eq_iff k peer).0 same))
            | inr other ↦ rw other refl
          ])

  -- For a topology without repeated peers, the result has exactly the peers of the node's own topology, each
  -- with the verdict on it from the node's observation and all reports that name it.
  pub lookup-merge_observations :
      (peer : String) (topology : Dict Bool)
      → UniqueKeys topology
      → lookup peer (merge_observations now topology reports)
        ≡ verdict peer (lookup peer topology) none
  unfolding merge_observations
  lookup-merge_observations peer topology u = lookup-merge_from peer topology [] u
