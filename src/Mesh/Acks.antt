-- ===== src/Mesh/Acks.antt =====
-- The audience of a node's own move and its acknowledgements, scripts/mesh/discovery_trust.py.
use orama_system.Base.{
  ℕ, String, ◌≡◌, inl, inr, refl, sym, ◌∙◌, ap, subst, Bool, true, false, not, ◌&&◌, ◌||◌, Option,
  none, some, List, [], ◌∷◌, arith, if◌then◌else◌, ◌==◌, nat_eq, eq_iff, eq_refl, is_nonempty,
  Bool-cases,
}
use orama_system.Mesh.{Surroundings, is_in, revoke}
use orama_system.Mesh.Known.{is_in-select, is_in-with_ip}
use orama_system.Mesh.Audience.{
  PendingMigration, Node, list_or, remove_from, remove_recipients, remove_pending, remove_first,
  forget_peer, settle, settle_migration_ack, commit, commit_migration_if_complete, go_on,
  prepare_self_migration,
}
use orama_system.Mesh.Pending.{
  is_move, settled-is_move, settle-is_move, forget-is_move, resume-is_move,
}

-- Whether an address is among the recipients that have not acknowledged yet.
abbrev pub is_waiting : String → Option PendingMigration → Bool
is_waiting i none = false
is_waiting i (some p) = is_in i (list_or p.recipients)

-- What may happen between the start of the move to an address under a generation and its end, with the peers
-- that sent an acknowledgement of just this address and generation: acknowledgements of any address and
-- generation, right or stale, revocations, and further runs for the address that is pending.
pub data Course (ip : String) (generation : ℕ) (m : Node) : List String → Node → Type 0 where
  begun : Course ip generation m [] m
  acknowledged :
      (acked : List String) (n : Node) (current peer : String) (under : ℕ)
      → Course ip generation m acked n
      → Course ip generation m
          (if (current == ip) && nat_eq under generation then peer ∷ acked else acked)
          (settle_migration_ack current peer under n).1
  revoked :
      (acked : List String) (n : Node) (peer : String)
      → Course ip generation m acked n
      → Course ip generation m acked (forget_peer peer n)
  resumed :
      (acked : List String) (n : Node) (env : Surroundings) (now : ℕ) (current : String)
      (peer_ips : Option (List String)) (p : PendingMigration)
      → n.self.pending_migration ≡ some p
      → (p.new_ip == current) ≡ true
      → Course ip generation m acked n
      → Course ip generation m acked (prepare_self_migration env now current peer_ips n).1

-- Still waiting, acknowledged, or revoked.
abbrev is_accounted : String → List String → Node → Bool
is_accounted i acked n =
    is_in i n.trust.revoked_ips || is_in i acked || is_waiting i n.self.pending_migration

is_in-remove_from :
    (i : String) (removed : List String) (o : Option (List String))
    → is_in i (list_or (remove_from removed o)) ≡ (not (is_in i removed) && is_in i (list_or o))
is_in-remove_from i removed none = ground arith
is_in-remove_from i removed (some xs) = is_in-select (λ p. not (is_in p removed)) i xs

waiting-remove_pending :
    (i : String) (removed : List String) (o : Option PendingMigration)
    → is_waiting i (remove_pending removed o) ≡ (not (is_in i removed) && is_waiting i o)
waiting-remove_pending i removed none = ground arith
waiting-remove_pending i removed (some p) = is_in-remove_from i removed p.recipients

is_in-remove_first :
    (i p : String) (xs : List String) → (p == i) ≡ false → is_in i (remove_first p xs) ≡ is_in i xs
is_in-remove_first i p [] h = refl
is_in-remove_first i p (x ∷ xs) h = elim (Bool-cases (x == p)) [
  | inl e ↦
      subst (λ y. is_in i (remove_first p (y ∷ xs)) ≡ is_in i (y ∷ xs)) (sym ((eq_iff x p).0 e))
        (ground (arith, eq_refl p))
  | inr e ↦ ground (arith, is_in-remove_first i p xs h)
]

settle_accounted :
    (i current peer : String) (generation : ℕ) (acked : List String) (o : Option PendingMigration)
    (n : Node)
    → n.self.pending_migration ≡ o
    → is_accounted i acked n ≡ true
    → is_accounted i
        (if (settle current peer generation o n).0 then peer ∷ acked else acked)
        (settle current peer generation o n).1
      ≡ true
settle_accounted i current peer generation acked none n e h = h
settle_accounted i current peer generation acked (some p) n e h =
    let w : is_waiting i n.self.pending_migration ≡ is_in i (list_or p.recipients) =
      ap (is_waiting i) e in
    ground (
      arith,
      is_in-remove_from i (peer ∷ []) p.recipients,
      is_in-remove_first i peer (list_or p.recipients),
      eq_iff peer i,
    )

more_acked :
    (i peer : String) (revoked waiting settled matches : Bool) (acked : List String)
    → (settled ≡ true → matches ≡ true)
    → (revoked || is_in i (if settled then peer ∷ acked else acked) || waiting) ≡ true
    → (revoked || is_in i (if matches then peer ∷ acked else acked) || waiting) ≡ true
more_acked i peer r w true m acked f h = rw (f refl) h
more_acked i peer r w false true acked f h = ground arith
more_acked i peer r w false false acked f h = h

forget_accounted :
    (i ip : String) (acked : List String) (n : Node)
    → is_accounted i acked n ≡ true
    → is_accounted i acked (forget_peer ip n) ≡ true
unfolding forget_peer revoke
forget_accounted i ip acked n h = ground (
  arith,
  waiting-remove_pending i (ip ∷ []) n.self.pending_migration,
  is_in-with_ip ip i n.trust.revoked_ips,
)

go_on_waiting :
    (i : String) (env : Surroundings) (current : String) (peer_ips : Option (List String))
    (o : Option PendingMigration) (p : PendingMigration) (n : Node)
    → o ≡ some p
    → n.self.pending_migration ≡ o
    → (p.new_ip == current) ≡ true
    → is_waiting i (go_on env current peer_ips o n).1.self.pending_migration ≡ is_waiting i o
go_on_waiting i env current peer_ips none p n e q h = cc
go_on_waiting i env current peer_ips (some r) p n e q h =
    let same : (r.new_ip == current) ≡ true =
      ap (λ x. elim x [ none ↦ false | some y ↦ y.new_ip == current ]) e ∙ h in
    ground (arith, ap (is_waiting i) q)

go_on_trust :
    (env : Surroundings) (current : String) (peer_ips : Option (List String))
    (o : Option PendingMigration) (n : Node)
    → (go_on env current peer_ips o n).1.trust ≡ n.trust
go_on_trust env current peer_ips none n = ground arith
go_on_trust env current peer_ips (some p) n = ground arith

-- A further run on an audience that is whole.
pruned_accounted :
    (i : String) (acked : List String) (env : Surroundings) (current : String)
    (peer_ips : Option (List String)) (p : PendingMigration) (n : Node)
    → n.self.pending_migration ≡ some p
    → (p.new_ip == current) ≡ true
    → is_accounted i acked n ≡ true
    → let pending = remove_pending n.trust.revoked_ips n.self.pending_migration in
      is_accounted i acked
        (go_on env current peer_ips pending
          (record n { self = record (n.self) { pending_migration = pending } })).1
      ≡ true
pruned_accounted i acked env current peer_ips p n e h a =
    let pending = remove_pending n.trust.revoked_ips n.self.pending_migration in
    let n' : Node = record n { self = record (n.self) { pending_migration = pending } } in
    let w =
      go_on_waiting i env current peer_ips pending (remove_recipients n.trust.revoked_ips p) n'
        (ap (remove_pending n.trust.revoked_ips) e) refl h in
    let t : (go_on env current peer_ips pending n').1.trust.revoked_ips ≡ n.trust.revoked_ips =
      ap (λ x. x.revoked_ips) (go_on_trust env current peer_ips pending n') in
    let g = waiting-remove_pending i n.trust.revoked_ips n.self.pending_migration in
    ap
      (λ x.
        is_in i x
        || is_in i acked
        || is_waiting i (go_on env current peer_ips pending n').1.self.pending_migration)
      t
    ∙ ap (λ x. is_in i n.trust.revoked_ips || is_in i acked || x) (w ∙ g)
    ∙ ground arith

resume_accounted :
    (i : String) (acked : List String) (env : Surroundings) (now : ℕ) (current : String)
    (peer_ips : Option (List String)) (p : PendingMigration) (n : Node)
    → n.self.pending_migration ≡ some p
    → (p.new_ip == current) ≡ true
    → is_accounted i acked n ≡ true
    → is_accounted i acked (prepare_self_migration env now current peer_ips n).1 ≡ true
unfolding prepare_self_migration
resume_accounted i acked env now current peer_ips p n e h a =
    let g = pruned_accounted i acked env current peer_ips p n e h a in ground arith

module _ (ip : String) (generation : ℕ) (m : Node) (start : is_move ip generation m ≡ true) where
  same_move :
      (acked : List String) (n : Node)
      → Course ip generation m acked n
      → is_move ip generation n ≡ true
  unfolding settle_migration_ack
  same_move _ _ begun = start
  same_move _ _ (acknowledged acked n current peer under c) =
      settle-is_move ip current peer generation under n.self.pending_migration n refl
        (same_move acked n c)
  same_move _ _ (revoked acked n peer c) = forget-is_move ip peer generation n (same_move acked n c)
  same_move _ _ (resumed acked n env now current peer_ips p e h c) =
      resume-is_move ip generation env now current peer_ips p n e h (same_move acked n c)

  accounted_after :
      (i : String) (acked : List String) (n : Node)
      → is_waiting i m.self.pending_migration ≡ true
      → Course ip generation m acked n
      → is_accounted i acked n ≡ true
  unfolding settle_migration_ack
  accounted_after i _ _ w begun = ground arith
  accounted_after i _ _ w (acknowledged acked n current peer under c) =
      let o = n.self.pending_migration in
      let d = settle current peer under o n in
      more_acked i peer (is_in i d.1.trust.revoked_ips) (is_waiting i d.1.self.pending_migration)
        d.0 ((current == ip) && nat_eq under generation) acked
        (settled-is_move ip current peer generation under o n refl (same_move acked n c))
        (settle_accounted i current peer under acked o n refl (accounted_after i acked n w c))
  accounted_after i _ _ w (revoked acked n peer c) =
      forget_accounted i peer acked n (accounted_after i acked n w c)
  accounted_after i _ _ w (resumed acked n env now current peer_ips p e h c) =
      resume_accounted i acked env now current peer_ips p n e h (accounted_after i acked n w c)

waits_for_nobody : (i : String) (xs : List String) → is_nonempty xs ≡ false → is_in i xs ≡ false
waits_for_nobody i [] h = refl
waits_for_nobody i (x ∷ xs) h = absurd (ground arith)

commit_empty :
    (i : String) (now : ℕ) (current last : String) (generation : ℕ) (o : Option PendingMigration)
    (n : Node)
    → (commit now current last generation o n).0 ≡ true
    → is_waiting i o ≡ false
commit_empty i now current last generation none n h = refl
commit_empty i now current last generation (some p) n h =
    let e : is_nonempty (list_or p.recipients) ≡ false = ground arith in
    waits_for_nobody i (list_or p.recipients) e

-- The move of a node to one address under one generation is committed only when every peer that was waiting
-- to be told has sent an acknowledgement of just this address and generation, or was revoked. In between may
-- come any acknowledgements, of which those of another address or generation do not count, revocations, and
-- further runs for the pending address.
pub commit_needs_audience :
    (i ip : String) (generation : ℕ) (m : Node) (acked : List String) (n : Node) (now : ℕ)
    (current last : String) (under : ℕ)
    → is_move ip generation m ≡ true
    → is_waiting i m.self.pending_migration ≡ true
    → Course ip generation m acked n
    → (commit_migration_if_complete now current last under n).0 ≡ true
    → (is_in i n.trust.revoked_ips || is_in i acked) ≡ true
unfolding commit_migration_if_complete
commit_needs_audience i ip generation m acked n now current last under start w c h =
    let a = accounted_after ip generation m start i acked n w c in
    let e = commit_empty i now current last under n.self.pending_migration n h in ground arith
