-- ===== src/Mesh/Audience.antt =====
-- The durable record of this node's own move with its audience, scripts/mesh/discovery_trust.py.
use orama_system.Base.{
  ℕ, ◌+◌, String, Bool, true, false, not, ◌&&◌, ◌||◌, Option, none, some, List, [], ◌∷◌, ◌++◌,
  nat_eq, if◌then◌else◌, ◌==◌, select, is_blank, is_nonempty,
}
use orama_system.Mesh.{Surroundings, TrustState, is_in, is_local, load_known_peer_ips, revoke}

-- The peers that are to hear of a move, and those that have not acknowledged it yet.
pub record PendingMigration : Type 0 where
  pub new_ip : String
  pub all_recipients : Option (List String)
  pub recipients : Option (List String)

-- An address that this node had, with the one before it.
pub record HistoryEntry : Type 0 where
  pub ip : String
  pub previous_ip : Option String
  pub timestamp : ℕ

pub record SelfIdentity : Type 0 where
  pub last_known_ip : String
  pub history : List HistoryEntry
  pub migration_generation : Option ℕ
  pub pending_migration : Option PendingMigration

abbrev pub remove_all : List String → List String → List String
remove_all removed peers = select (λ p. not (is_in p removed)) peers

abbrev pub remove_from : List String → Option (List String) → Option (List String)
remove_from removed none = none
remove_from removed (some peers) = some (remove_all removed peers)

-- `_remove_recipients`, for its effect
abbrev pub remove_recipients : List String → PendingMigration → PendingMigration
remove_recipients removed p = record p {
  all_recipients = remove_from removed p.all_recipients;
  recipients = remove_from removed p.recipients;
}

abbrev pub remove_pending : List String → Option PendingMigration → Option PendingMigration
remove_pending removed none = none
remove_pending removed (some p) = some (remove_recipients removed p)

-- Both stores that the module keeps.
pub record Node : Type 0 where
  pub trust : TrustState
  pub self : SelfIdentity

-- A revoked peer is taken out of the pending audience too.
unfoldable pub forget_peer : String → Node → Node
forget_peer ip node = if is_blank ip then node else record {
  trust = revoke ip node.trust;
  self = record (node.self) {
    pending_migration = remove_pending (ip ∷ []) node.self.pending_migration;
  };
}

abbrev pub list_or : Option (List String) → List String
list_or none = []
list_or (some xs) = xs

abbrev pub or_else : List String → List String → List String
or_else [] ys = ys
or_else (x ∷ xs) ys = x ∷ xs

-- The audience of a move that is not finished: all of it, or else those left.
abbrev pub stale_audience : Option PendingMigration → List String
stale_audience none = []
stale_audience (some p) = or_else (list_or p.all_recipients) (list_or p.recipients)

abbrev pub dedupe : List String → List String
dedupe [] = []
dedupe (x ∷ xs) = let rest = dedupe xs in if is_in x rest then rest else x ∷ rest

-- A set, whose order the file sorts.
unfoldable pub delivery_targets : String → String → List String → List String → List String
delivery_targets current last revoked peers =
    dedupe (
      select (λ p. not ((p == current) || (p == last) || is_local p) && not (is_in p revoked))
        peers)

-- What a run has to deliver: to whom, and under which generation.
pub record Delivery : Type 0 where
  pub last_ip : String
  pub targets : List String
  pub generation : ℕ

abbrev pub generation_or : ℕ → Option ℕ → ℕ
generation_or d none = d
generation_or d (some g) = g

abbrev pub first_run : ℕ → String → SelfIdentity → SelfIdentity
first_run now current self = record self {
  last_known_ip = current;
  history = record { ip = current; previous_ip = none; timestamp = now } ∷ [];
}

-- The peers that the caller names, or all that are known.
abbrev given_or : List String → Option (List String) → List String
given_or known none = known
given_or known (some peers) = peers

abbrev pub start_move : Surroundings → String → Option (List String) → Node → Option Delivery × Node
start_move env current peer_ips node =
    let revoked = node.trust.revoked_ips in
    let self = node.self in
    let peers = given_or (load_known_peer_ips env node.trust) peer_ips in
    let targets =
      delivery_targets current self.last_known_ip revoked
        (peers ++ stale_audience self.pending_migration) in
    let generation = generation_or 0 self.migration_generation + 1 in
    (
      some (record { last_ip = self.last_known_ip; targets = targets; generation = generation }),
      record node {
        self = record self {
          migration_generation = some generation;
          pending_migration = some (record {
            new_ip = current;
            all_recipients = some targets;
            recipients = some targets;
          });
        };
      },
    )

-- A move that is pending: to this address, or superseded by a move to this address.
abbrev pub go_on :
    Surroundings
    → String
    → Option (List String)
    → Option PendingMigration
    → Node
    → Option Delivery × Node
go_on env current peer_ips none node =
    if current == node.self.last_known_ip
    then (none, node)
    else start_move env current peer_ips node
go_on env current peer_ips (some p) node =
    if p.new_ip == current
    then (
      some (record {
        last_ip = node.self.last_known_ip;
        targets = list_or p.recipients;
        generation = generation_or 1 node.self.migration_generation;
      }),
      record node {
        self = record (node.self) {
          migration_generation = some (generation_or 1 node.self.migration_generation);
        };
      },
    )
    else start_move env current peer_ips node

abbrev pub lacks_audience : Option PendingMigration → Bool
lacks_audience none = false
lacks_audience (some p) = elim p.all_recipients [ none ↦ true | some _ ↦ false ]

unfoldable pub prepare_self_migration :
    Surroundings → ℕ → String → Option (List String) → Node → Option Delivery × Node
prepare_self_migration env now current peer_ips node =
    if is_blank node.self.last_known_ip
    then (none, record node { self = first_run now current node.self })
    else if lacks_audience node.self.pending_migration
    then (none, node)
    else let pending = remove_pending node.trust.revoked_ips node.self.pending_migration in
      go_on env current peer_ips pending
        (record node { self = record (node.self) { pending_migration = pending } })

abbrev pub same_generation : ℕ → Option ℕ → Bool
same_generation g none = false
same_generation g (some h) = nat_eq h g

-- `recipients.remove(peer)`: the first one.
abbrev pub remove_first : String → List String → List String
remove_first p [] = []
remove_first p (x ∷ xs) = if x == p then xs else x ∷ remove_first p xs

abbrev pub settle : String → String → ℕ → Option PendingMigration → Node → Bool × Node
settle current peer generation none node = (false, node)
settle current peer generation (some p) node =
    let self = node.self in
    if not (p.new_ip == current) || not (same_generation generation self.migration_generation)
    then (false, node)
    else if is_in peer node.trust.revoked_ips
    then (
      false,
      record node {
        self = record self { pending_migration = some (remove_recipients (peer ∷ []) p) };
      },
    )
    else if not (is_in peer (list_or p.recipients))
    then (false, node)
    else (
      true,
      record node {
        self = record self {
          pending_migration =
              some (record p { recipients = some (remove_first peer (list_or p.recipients)) });
        };
      },
    )

-- An acknowledgement of one peer for one generation of the move to one address.
unfoldable pub settle_migration_ack : String → String → ℕ → Node → Bool × Node
settle_migration_ack current peer generation node =
    settle current peer generation node.self.pending_migration node

abbrev pub commit : ℕ → String → String → ℕ → Option PendingMigration → Node → Bool × Node
commit now current last generation none node = (false, node)
commit now current last generation (some p) node =
    let self = node.self in
    if not (p.new_ip == current) || not (same_generation generation self.migration_generation)
    then (false, node)
    else if is_nonempty (list_or p.recipients)
    then (false, node)
    else (
      true,
      record node {
        self = record self {
          pending_migration = none;
          last_known_ip = current;
          history =
              self.history
              ++ record { ip = current; previous_ip = some last; timestamp = now } ∷ [];
        };
      },
    )

unfoldable pub commit_migration_if_complete : ℕ → String → String → ℕ → Node → Bool × Node
commit_migration_if_complete now current last generation node =
    commit now current last generation node.self.pending_migration node
