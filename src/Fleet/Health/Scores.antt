-- ===== src/Fleet/Health/Scores.antt =====
-- The scores of src/orama_system/fleet_health_monitor.py and the two verdicts beside them.
use orama_system.Base.{
  ℕ, ◌+◌, ◌-◌, ◌≤◌, ◌<◌, String, ◌≡◌, Bool, true, false, arith, ltb, Bool-cases, inl, inr, refl,
}
use orama_system.Fleet.Health.{
  calculate_freshness_score, is_peer_stale, is_peer_fresh, assess_peer_health, grace_period, one,
  fresh_threshold, freshness_window, recent_threshold, stale_threshold,
}

-- An older peer never has a higher score, and no score is above 1.0.
pub score_antitone :
    (a b : ℕ)
    → a ≤ b
    → (calculate_freshness_score b ≤ calculate_freshness_score a)
      × (calculate_freshness_score a ≤ one)
unfolding calculate_freshness_score
score_antitone a b h = ground arith

-- How a peer's age, its two verdicts and its score go together.
pub data Agree (now last_seen : ℕ) (score : ℕ) : Bool → Bool → Type 0 where
  in_future : now < last_seen → score ≡ one → Agree now last_seen score false false
  is_fresh :
      last_seen ≤ now
      → now - last_seen < fresh_threshold
      → score ≡ one
      → Agree now last_seen score true false
  is_aging :
      fresh_threshold ≤ now - last_seen
      → now - last_seen ≤ freshness_window + grace_period
      → score ≤ one
      → Agree now last_seen score false false
  is_stale :
      freshness_window + grace_period < now - last_seen
      → score ≡ 0
      → Agree now last_seen score false true

-- A peer is fresh exactly below 300 s, with score 1.0, and stale exactly above 1230 s, with score 0, and never
-- both. In between it is neither, and so is one whose time stamp lies in the future, which has score 1.0.
pub assess_verdicts :
    (now last_seen : ℕ) (id : String) (reachable : Bool)
    → let h = assess_peer_health now id last_seen reachable in
      Agree now last_seen h.freshness_score (is_peer_fresh now last_seen) h.is_stale
unfolding assess_peer_health is_peer_fresh calculate_freshness_score is_peer_stale
assess_verdicts now last_seen id reachable = elim (Bool-cases (ltb now last_seen)) [
  | inl future ↦ rw future (in_future (ground (arith, future)) (ground (arith, future)))
  | inr past ↦ elim (Bool-cases (ltb (now - last_seen) fresh_threshold)) [
    | inl fresh ↦
        (let kept : ltb (freshness_window + grace_period) (now - last_seen) ≡ false =
            ground (arith, fresh) in
          rw (past, fresh, kept) (is_fresh (ground (arith, past)) (ground (arith, fresh)) refl))
    | inr old ↦ elim (Bool-cases (ltb (freshness_window + grace_period) (now - last_seen))) [
      | inl stale ↦
          (let a : ltb (now - last_seen) recent_threshold ≡ false = ground (arith, stale) in
            let b : ltb (now - last_seen) stale_threshold ≡ false = ground (arith, stale) in
            rw (past, old, stale, a, b) (is_stale (ground (arith, stale)) refl))
      | inr aging ↦
          rw (past, old, aging)
            (is_aging (ground (arith, old)) (ground (arith, aging)) (ground (arith, old)))
    ]
  ]
]
