-- ===== src/Mesh/Revoked.antt =====
-- Revocations over time, scripts/mesh/discovery_trust.py: the operations on the trust in peers as steps.
use orama_system.Base.{
  ℕ, String, ◌≡◌, inl, inr, refl, sym, ◌∙◌, ap, subst, Bool, true, false, ◌||◌, Option, none, some,
  arith, ◌==◌, eq_iff, eq_refl, is_blank, Bool-cases,
}
use orama_system.Mesh.{
  Surroundings, Challenge, TrustState, is_in, is_local, remember_peer, revoke, approve_peer,
  prompt_confirm_peer, fresh_entry, pending_entry, check_signature, verify_handshake,
  initiate_handshake, peer_trusted, then_remember, ack_peer,
}
use orama_system.Mesh.Known.{is_in-with_ip, is_in-without_ip}

-- One call on the trust in peers. The surroundings may change from one call to the next.
pub data Call (ip : String) : TrustState → TrustState → Type 0 where
  remembers :
      (env : Surroundings) (p : String) (s : TrustState) → Call ip s (remember_peer env p s).1
  revokes : (p : String) (s : TrustState) → Call ip s (revoke p s)
  challenges :
      (env : Surroundings) (now : ℕ) (nonce p : String) (s : TrustState)
      → Call ip s (initiate_handshake env now nonce p s).1
  acknowledges :
      (env : Surroundings) (now : ℕ) (p nonce signature : String) (s : TrustState)
      → Call ip s (ack_peer env now p nonce signature s).1
  asks : (env : Surroundings) (p : String) (s : TrustState) → Call ip s (peer_trusted env p s).1
  approves :
      (env : Surroundings) (p : String) (s : TrustState)
      → (p == ip) ≡ false
      → Call ip s (approve_peer env p s).1

-- A history of such calls, none of which approves the address itself.
pub data Calls (ip : String) : TrustState → TrustState → Type 0 where
  done : (s : TrustState) → Calls ip s s
  then_call : (s t u : TrustState) → Calls ip s t → Call ip t u → Calls ip s u

remember-revoked :
    (env : Surroundings) (p : String) (s : TrustState)
    → (remember_peer env p s).1.revoked_ips ≡ s.revoked_ips
unfolding remember_peer
remember-revoked env p s = ground arith

fresh-revoked :
    (now : ℕ) (p : String) (o : Option Challenge) (s : TrustState)
    → (fresh_entry now p o s).1.revoked_ips ≡ s.revoked_ips
fresh-revoked now p none s = refl
fresh-revoked now p (some c) s = ground arith

check-revoked :
    (env : Surroundings) (p nonce signature : String) (o : Option Challenge) (s : TrustState)
    → (check_signature env p nonce signature o s).1.revoked_ips ≡ s.revoked_ips
unfolding check_signature
check-revoked env p nonce signature none s = refl
check-revoked env p nonce signature (some c) s = ground arith

verify-revoked :
    (env : Surroundings) (now : ℕ) (p nonce signature : String) (s : TrustState)
    → (verify_handshake env now p nonce signature s).1.revoked_ips ≡ s.revoked_ips
unfolding verify_handshake pending_entry
verify-revoked env now p nonce signature s =
    check-revoked env p nonce signature (pending_entry now p s).0 (pending_entry now p s).1
    ∙ fresh-revoked now p _ s

then-revoked :
    (env : Surroundings) (p : String) (o : Option Bool × TrustState)
    → (then_remember env p o).1.revoked_ips ≡ o.1.revoked_ips
then-revoked env p (some true, s) = remember-revoked env p s
then-revoked env p (some false, s) = refl
then-revoked env p (none, s) = refl

ack-revoked :
    (env : Surroundings) (now : ℕ) (p nonce signature : String) (s : TrustState)
    → (ack_peer env now p nonce signature s).1.revoked_ips ≡ s.revoked_ips
unfolding ack_peer
ack-revoked env now p nonce signature s =
    then-revoked env p (verify_handshake env now p nonce signature s)
    ∙ verify-revoked env now p nonce signature s

approve_other :
    (env : Surroundings) (p ip : String) (s : TrustState)
    → (p == ip) ≡ false
    → is_in ip s.revoked_ips ≡ true
    → is_in ip (approve_peer env p s).1.revoked_ips ≡ true
unfolding approve_peer
approve_other env p ip s ne h =
    ground (arith, is_in-without_ip p ip s.revoked_ips, eq_iff ip p, eq_iff p ip)

prompt_other :
    (env : Surroundings) (p ip : String) (s : TrustState)
    → (p == ip) ≡ false
    → is_in ip s.revoked_ips ≡ true
    → is_in ip (prompt_confirm_peer env p s).1.revoked_ips ≡ true
unfolding prompt_confirm_peer
prompt_other env p ip s ne h = ground (arith, approve_other env p ip s ne h)

-- A revoked address that is neither empty nor local is not trusted, and asking changes nothing.
revoked_refused :
    (env : Surroundings) (ip : String) (s : TrustState)
    → (is_blank ip || is_local ip) ≡ false
    → is_in ip s.revoked_ips ≡ true
    → peer_trusted env ip s ≡ (false, s)
unfolding peer_trusted
revoked_refused env ip s l h = ground arith

trusted_other :
    (env : Surroundings) (p ip : String) (s : TrustState)
    → (p == ip) ≡ false
    → is_in ip s.revoked_ips ≡ true
    → is_in ip (peer_trusted env p s).1.revoked_ips ≡ true
unfolding peer_trusted
trusted_other env p ip s ne h =
    ground (arith, prompt_other env p ip s ne h, remember-revoked env p s)

trusted_kept :
    (env : Surroundings) (p ip : String) (s : TrustState)
    → (is_blank ip || is_local ip) ≡ false
    → is_in ip s.revoked_ips ≡ true
    → is_in ip (peer_trusted env p s).1.revoked_ips ≡ true
trusted_kept env p ip s l h = elim (Bool-cases (p == ip)) [
  | inl e ↦
      subst (λ q. is_in ip (peer_trusted env q s).1.revoked_ips ≡ true) (sym ((eq_iff p ip).0 e))
        (ap (λ o. is_in ip o.1.revoked_ips) (revoked_refused env ip s l h) ∙ h)
  | inr e ↦ trusted_other env p ip s e h
]

revoke_kept :
    (p ip : String) (s : TrustState)
    → is_in ip s.revoked_ips ≡ true
    → is_in ip (revoke p s).revoked_ips ≡ true
unfolding revoke
revoke_kept p ip s h = ground (arith, is_in-with_ip p ip s.revoked_ips)

still_revoked :
    (ip : String) (s t : TrustState)
    → (is_blank ip || is_local ip) ≡ false
    → Call ip s t
    → is_in ip s.revoked_ips ≡ true
    → is_in ip t.revoked_ips ≡ true
unfolding initiate_handshake
still_revoked ip _ _ l (remembers env p s) h = ap (is_in ip) (remember-revoked env p s) ∙ h
still_revoked ip _ _ l (revokes p s) h = revoke_kept p ip s h
still_revoked ip _ _ l (challenges env now nonce p s) h = h
still_revoked ip _ _ l (acknowledges env now p nonce signature s) h =
    ap (is_in ip) (ack-revoked env now p nonce signature s) ∙ h
still_revoked ip _ _ l (asks env p s) h = trusted_kept env p ip s l h
still_revoked ip _ _ l (approves env p s ne) h = approve_other env p ip s ne h

stays_revoked :
    (ip : String) (s t : TrustState)
    → (is_blank ip || is_local ip) ≡ false
    → Calls ip s t
    → is_in ip s.revoked_ips ≡ true
    → is_in ip t.revoked_ips ≡ true
stays_revoked ip _ _ l (done s) h = h
stays_revoked ip _ _ l (then_call s t u cs c) h =
    still_revoked ip t u l c (stays_revoked ip s t l cs h)

-- Once an address that is neither empty nor local is revoked, whatever calls follow, in whatever
-- surroundings, as long as none of them approves this very address, it is not trusted, and asking for it
-- changes nothing.
pub revoked_stays :
    (ip : String) (s t : TrustState) (env : Surroundings)
    → (is_blank ip || is_local ip) ≡ false
    → Calls ip (revoke ip s) t
    → peer_trusted env ip t ≡ (false, t)
unfolding revoke
revoked_stays ip s t env l cs = revoked_refused env ip t l (
    stays_revoked ip (revoke ip s) t l cs
      (ground (arith, is_in-with_ip ip ip s.revoked_ips, eq_refl ip)))
