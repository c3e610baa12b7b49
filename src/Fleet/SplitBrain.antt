-- ===== src/Fleet/SplitBrain.antt =====
-- src/orama_system/split_brain_resolver.py. A confidence is a fraction: reports carry thousandths, and their
-- average is a sum over a count of thousandths.
pub mod Consensus
pub mod Mesh
use orama_system.Base.{
  ℕ, suc, ◌+◌, ◌-◌, ◌*◌, String, Bool, true, false, not, ◌&&◌, Option, none, some, List, [], ◌∷◌,
  if◌then◌else◌, ltb, leb, bool_eq, length, Dict, lookup, insert, is_some,
}

pub record PeerObservation : Type 0 where
  pub observer_id : String
  pub target_id : String
  pub reachable : Bool
  pub confidence : ℕ
  pub last_probed : ℕ
  pub age : ℕ

pub record Fraction : Type 0 where
  pub over : ℕ
  pub under : ℕ

abbrev pub whole : Fraction
whole = record { over = 1; under = 1 }

pub data Reason : Type 0 where
  direct_observation_only consensus : Reason
  direct_overrides_relayed_due_to_freshness direct_observation_overrides_stale_relayed : Reason

pub record ConsensusResult : Type 0 where
  pub target_id : String
  pub reachable : Bool
  pub confidence : Fraction
  pub agreement_count : ℕ
  pub disagreement_count : ℕ
  pub split_brain : Bool
  pub resolution_reason : Reason

-- `sum(1 for obs in peer_observations if obs.reachable)`
unfoldable pub agree_count : List PeerObservation → ℕ
agree_count [] = 0
agree_count (o ∷ os) = (if o.reachable then 1 else 0) + agree_count os

unfoldable pub confidence_sum : List PeerObservation → ℕ
confidence_sum [] = 0
confidence_sum (o ∷ os) = o.confidence + confidence_sum os

-- The average confidence, and the threshold 0.5.
abbrev pub average : List PeerObservation → Fraction
average os = record { over = confidence_sum os; under = 1000 * length os }

abbrev pub above_half : Fraction → Bool
above_half f = ltb f.under (2 * f.over)

-- `min(1.0, f)`
abbrev pub at_most_one : Fraction → Fraction
at_most_one f = if leb f.under f.over then whole else f

abbrev pub first_target : List PeerObservation → String
first_target [] = "unknown"
first_target (o ∷ os) = o.target_id

abbrev pub one_if : Bool → ℕ
one_if b = if b then 1 else 0

-- The three returns after the counting, for at least one report.
resolve_counted : Bool → List PeerObservation → ℕ → ℕ → ConsensusResult
resolve_counted mine os agree disagree =
    let trusted = above_half (average os) in
    if bool_eq mine (leb disagree agree)
    then record {
      target_id = first_target os;
      reachable = mine;
      confidence = at_most_one (average os);
      agreement_count = agree + one_if mine;
      disagreement_count = disagree + one_if (not mine);
      split_brain = false;
      resolution_reason = consensus;
    }
    else if trusted
    then record {
      target_id = first_target os;
      reachable = mine;
      confidence = whole;
      agreement_count = if mine then 1 else agree;
      disagreement_count = if mine then disagree else 1;
      split_brain = true;
      resolution_reason = direct_overrides_relayed_due_to_freshness;
    }
    else record {
      target_id = first_target os;
      reachable = mine;
      confidence = whole;
      agreement_count = one_if mine;
      disagreement_count = one_if (not mine);
      split_brain = false;
      resolution_reason = direct_observation_overrides_stale_relayed;
    }

unfoldable pub resolve_peer_reachability : Bool → List PeerObservation → ConsensusResult
unfolding resolve_counted
resolve_peer_reachability mine [] = record {
  target_id = "unknown";
  reachable = mine;
  confidence = whole;
  agreement_count = 1;
  disagreement_count = 0;
  split_brain = false;
  resolution_reason = direct_observation_only;
}
resolve_peer_reachability mine (o ∷ os) =
    let agree = agree_count (o ∷ os) in
    resolve_counted mine (o ∷ os) agree (length (o ∷ os) - agree)

-- The dict that `detect_split_brain` returns; its fields but the first are `None` with no reports.
pub record Detection : Type 0 where
  pub split_brain : Bool
  pub peer_consensus : Option Bool
  pub peer_agree : Option ℕ
  pub peer_disagree : Option ℕ

-- `peer_agree_count >= len(peer_observations) / 2`, a true division.
unfoldable pub detect_split_brain : Bool → List PeerObservation → Detection
detect_split_brain mine [] = record {
  split_brain = false;
  peer_consensus = none;
  peer_agree = none;
  peer_disagree = none;
}
detect_split_brain mine (o ∷ os) =
    let agree = agree_count (o ∷ os) in
    let n = length (o ∷ os) in
    let peers = leb n (2 * agree) in
    record {
      split_brain = not (bool_eq mine peers) && above_half (average (o ∷ os));
      peer_consensus = some peers;
      peer_agree = some agree;
      peer_disagree = some (n - agree);
    }

-- What a reporter says of a peer: a dict whose keys may be missing, or any other value, read by `bool`.
pub data ReporterObs : Type 0 where
  plain : Bool → ReporterObs
  detailed : Option Bool → Option ℕ → Option ℕ → ReporterObs

abbrev pub or_else {ℓ} : {A : Type ℓ} → A → Option A → A
or_else d none = d
or_else d (some a) = a

observation : ℕ → String → String → ReporterObs → PeerObservation
observation now reporter peer (plain b) = record {
  observer_id = reporter;
  target_id = peer;
  reachable = b;
  confidence = 800;
  last_probed = now;
  age = 0;
}
observation now reporter peer (detailed r probed age) = record {
  observer_id = reporter;
  target_id = peer;
  reachable = or_else false r;
  confidence = 800;
  last_probed = or_else now probed;
  age = or_else 0 age;
}

-- The inner loop of `merge_observations`.
unfoldable pub collect : ℕ → String → Dict (Dict ReporterObs) → List PeerObservation
unfolding observation
collect now peer [] = []
collect now peer ((reporter, topology) ∷ reports) = elim (lookup peer topology) [
  | none ↦ collect now peer reports
  | some o ↦ observation now reporter peer o ∷ collect now peer reports
]

-- The outer loop, which fills `results`.
unfoldable pub merge_from :
    ℕ → Dict Bool → Dict (Dict ReporterObs) → Dict ConsensusResult → Dict ConsensusResult
merge_from now [] reports results = results
merge_from now ((peer, mine) ∷ topology) reports results =
    merge_from now topology reports
      (insert peer (resolve_peer_reachability mine (collect now peer reports)) results)

unfoldable pub merge_observations : ℕ → Dict Bool → Dict (Dict ReporterObs) → Dict ConsensusResult
unfolding merge_from
merge_observations now topology reports = merge_from now topology reports []
