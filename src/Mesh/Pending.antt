-- ===== src/Mesh/Pending.antt =====
-- The move that is pending stays the same one under the calls of scripts/mesh/discovery_trust.py that settle it.
use orama_system.Base.{
  ℕ, String, ◌≡◌, refl, sym, ◌∙◌, ap, Bool, true, false, ◌&&◌, Option, none, some, List, [], ◌∷◌,
  arith, ◌==◌, nat_eq, eq_iff,
}
use orama_system.Mesh.{Surroundings}
use orama_system.Mesh.Audience.{
  PendingMigration, Node, remove_recipients, remove_pending, forget_peer, settle, go_on,
  prepare_self_migration, same_generation, generation_or,
}

-- The generation is this one, and a move that is pending is one to this address.
abbrev pub is_move : String → ℕ → Node → Bool
is_move ip generation n =
    same_generation generation n.self.migration_generation
    && elim n.self.pending_migration [ none ↦ true | some p ↦ p.new_ip == ip ]

same_address : (a b c : String) → (a == b) ≡ true → (a == c) ≡ true → (b == c) ≡ true
same_address a b c p q = sym (ap (λ x. x == c) ((eq_iff a b).0 p)) ∙ q

same_number :
    (g h : ℕ) (o : Option ℕ)
    → same_generation h o ≡ true
    → same_generation g o ≡ true
    → nat_eq h g ≡ true
same_number g h none p q = absurd (ground arith)
same_number g h (some k) p q = ground arith

-- Only an acknowledgement of the pending move is taken.
pub settled-is_move :
    (ip current peer : String) (generation under : ℕ) (o : Option PendingMigration) (n : Node)
    → n.self.pending_migration ≡ o
    → is_move ip generation n ≡ true
    → (settle current peer under o n).0 ≡ true
    → ((current == ip) && nat_eq under generation) ≡ true
settled-is_move ip current peer generation under none n e m h = absurd (ground arith)
settled-is_move ip current peer generation under (some p) n e m h =
    let fits : (p.new_ip == ip) ≡ true =
      sym (ap (λ x. elim x [ none ↦ true | some y ↦ y.new_ip == ip ]) e) ∙ ground arith in
    let here : (p.new_ip == current) ≡ true = ground arith in
    let now_ : same_generation under n.self.migration_generation ≡ true = ground arith in
    let then_ : same_generation generation n.self.migration_generation ≡ true = ground arith in
    let a = same_address p.new_ip current ip here fits in
    let b = same_number generation under n.self.migration_generation now_ then_ in rw (a, b) refl

pub settle-is_move :
    (ip current peer : String) (generation under : ℕ) (o : Option PendingMigration) (n : Node)
    → n.self.pending_migration ≡ o
    → is_move ip generation n ≡ true
    → is_move ip generation (settle current peer under o n).1 ≡ true
settle-is_move ip current peer generation under none n e m = m
settle-is_move ip current peer generation under (some p) n e m =
    let fits : (p.new_ip == ip) ≡ true =
      sym (ap (λ x. elim x [ none ↦ true | some y ↦ y.new_ip == ip ]) e) ∙ ground arith in
    ground arith

fits-remove_pending :
    (ip : String) (removed : List String) (o : Option PendingMigration)
    → elim (remove_pending removed o) [ none ↦ true | some p ↦ p.new_ip == ip ]
      ≡ elim o [ none ↦ true | some p ↦ p.new_ip == ip ]
fits-remove_pending ip removed none = refl
fits-remove_pending ip removed (some p) = refl

pub forget-is_move :
    (ip peer : String) (generation : ℕ) (n : Node)
    → is_move ip generation n ≡ true
    → is_move ip generation (forget_peer peer n) ≡ true
unfolding forget_peer
forget-is_move ip peer generation n m =
    ground (arith, fits-remove_pending ip (peer ∷ []) n.self.pending_migration)

some_generation :
    (g : ℕ) (o : Option ℕ)
    → same_generation g o ≡ true
    → same_generation g (some (generation_or 1 o)) ≡ true
some_generation g none h = absurd (ground arith)
some_generation g (some k) h = h

go_on-is_move :
    (ip current : String) (generation : ℕ) (env : Surroundings) (peer_ips : Option (List String))
    (o : Option PendingMigration) (p : PendingMigration) (n : Node)
    → o ≡ some p
    → n.self.pending_migration ≡ o
    → (p.new_ip == current) ≡ true
    → is_move ip generation n ≡ true
    → is_move ip generation (go_on env current peer_ips o n).1 ≡ true
go_on-is_move ip current generation env peer_ips none p n e q h m = cc
go_on-is_move ip current generation env peer_ips (some r) p n e q h m =
    let same : (r.new_ip == current) ≡ true =
      ap (λ x. elim x [ none ↦ false | some y ↦ y.new_ip == current ]) e ∙ h in
    let k : same_generation generation n.self.migration_generation ≡ true = ground arith in
    ground (arith, some_generation generation n.self.migration_generation k)

pub resume-is_move :
    (ip : String) (generation : ℕ) (env : Surroundings) (now : ℕ) (current : String)
    (peer_ips : Option (List String)) (p : PendingMigration) (n : Node)
    → n.self.pending_migration ≡ some p
    → (p.new_ip == current) ≡ true
    → is_move ip generation n ≡ true
    → is_move ip generation (prepare_self_migration env now current peer_ips n).1 ≡ true
unfolding prepare_self_migration
resume-is_move ip generation env now current peer_ips p n e h m =
    let removed = n.trust.revoked_ips in
    let pending = remove_pending removed n.self.pending_migration in
    let n' : Node = record n { self = record (n.self) { pending_migration = pending } } in
    let m' : is_move ip generation n' ≡ true =
      ground (arith, fits-remove_pending ip removed n.self.pending_migration) in
    let g =
      go_on-is_move ip current generation env peer_ips pending (remove_recipients removed p) n'
        (ap (remove_pending removed) e) refl h m' in
    ground arith
