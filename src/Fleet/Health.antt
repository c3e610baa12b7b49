-- ===== src/Fleet/Health.antt =====
-- src/orama_system/fleet_health_monitor.py. Times are in milliseconds. A score is a number of
-- three-millionths, in which every value of the source is a whole number.
pub mod Scores
use orama_system.Base.{ℕ, ◌+◌, ◌-◌, String, Bool, true, false, ltb, if◌then◌else◌}

abbrev pub freshness_window : ℕ
freshness_window = 1200000

abbrev pub grace_period : ℕ
grace_period = 30000

abbrev pub fresh_threshold : ℕ
fresh_threshold = 300000

abbrev pub recent_threshold : ℕ
recent_threshold = 900000

abbrev pub stale_threshold : ℕ
stale_threshold = 1200000

-- The score 1.0.
abbrev pub one : ℕ
one = 3000000

-- 0.8 is 2400000, 0.4 is 1200000, and a second over 3000 is a millisecond's worth of three-millionths.
unfoldable pub calculate_freshness_score : ℕ → ℕ
calculate_freshness_score age =
    if ltb age fresh_threshold
    then one
    else if ltb age recent_threshold
    then 2400000 + (recent_threshold - age)
    else if ltb age stale_threshold
    then 1200000
    else 0

-- A negative age is a time stamp in the future.
unfoldable pub is_peer_stale : ℕ → ℕ → ℕ → Bool
is_peer_stale now last_seen grace =
    if ltb now last_seen then false else ltb (freshness_window + grace) (now - last_seen)

unfoldable pub is_peer_fresh : ℕ → ℕ → Bool
is_peer_fresh now last_seen =
    if ltb now last_seen then false else ltb (now - last_seen) fresh_threshold

pub record FleetPeerHealth : Type 0 where
  pub peer_id : String
  pub last_seen : ℕ
  pub reachable : Bool
  pub freshness_score : ℕ
  pub is_stale : Bool
  pub age : ℕ

-- The subtraction stops at 0, as `max(0.0, …)` does.
unfoldable pub assess_peer_health : ℕ → String → ℕ → Bool → FleetPeerHealth
unfolding calculate_freshness_score is_peer_stale
assess_peer_health now peer_id last_seen reachable =
    let age = now - last_seen in
    record {
      peer_id = peer_id;
      last_seen = last_seen;
      reachable = reachable;
      freshness_score = calculate_freshness_score age;
      is_stale = is_peer_stale now last_seen grace_period;
      age = age;
    }
