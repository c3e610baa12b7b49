-- ===== src/Mesh/Handshake.antt =====
-- Challenges and their answers, scripts/mesh/discovery_trust.py.
use orama_system.Base.{
  ℕ, ◌+◌, ◌≤◌, String, ◌≡◌, inl, inr, refl, sym, ◌∙◌, ap, subst, Bool, true, false, Option, none,
  some, arith, ltb, if◌then◌else◌, ◌==◌, eq_iff, eq_refl, lookup, insert, remove, lookup-insert,
  lookup-remove, strip, is_blank, is_ascii, Bool-cases,
}
use orama_system.Mesh.{
  Surroundings, Challenge, TrustState, handshake_ttl, is_in, is_local, remember_peer,
  handshake_signature, drop_challenge, fresh_entry, pending_entry, check_signature,
  verify_handshake, initiate_handshake, peer_trusted, then_remember, ack_peer,
}
use orama_system.Mesh.Known.{is_known, known_iff}
use orama_system.Mesh.Cleared.{remember_known}

-- A challenge that an answer meets: it is pending and not expired, and the answer has its nonce and the
-- signature that the secret gives.
pub record Answers (env : Surroundings) (now : ℕ) (ip nonce signature : String) (s : TrustState)
    : Type 0 where
  pub challenge : Challenge
  pub pending : lookup ip s.handshakes ≡ some challenge
  pub fresh : now ≤ challenge.ts + handshake_ttl
  pub drawn : is_blank challenge.nonce ≡ false
  pub same_nonce : challenge.nonce ≡ strip nonce
  pub has_secret : is_blank env.secret ≡ false
  pub signed : handshake_signature env ip nonce ≡ strip signature

has_secret_of :
    (env : Surroundings) (ip nonce : String)
    → is_blank (handshake_signature env ip nonce) ≡ false
    → is_blank env.secret ≡ false
unfolding handshake_signature
has_secret_of env ip nonce h = elim (Bool-cases (is_blank env.secret)) [
  | inl e ↦ absurd (ground arith)
  | inr e ↦ e
]

check-true :
    (env : Surroundings) (now : ℕ) (ip nonce signature : String) (o : Option Challenge)
    (s : TrustState)
    → lookup ip s.handshakes ≡ o
    → (check_signature env ip nonce signature
        (fresh_entry now ip o s).0
        (fresh_entry now ip o s).1).0
      ≡ some true
    → Answers env now ip nonce signature s
unfolding check_signature
check-true env now ip nonce signature none s e h = absurd (ground arith)
check-true env now ip nonce signature (some c) s e h =
    let fresh : ltb (c.ts + handshake_ttl) now ≡ false = ground arith in
    let drawn : is_blank c.nonce ≡ false = ground arith in
    let same : (c.nonce == strip nonce) ≡ true = ground arith in
    let made : is_blank (handshake_signature env ip nonce) ≡ false = ground arith in
    let right : (handshake_signature env ip nonce == strip signature) ≡ true = ground arith in
    record {
      challenge = c;
      pending = e;
      fresh = ground arith;
      drawn = drawn;
      same_nonce = (eq_iff c.nonce (strip nonce)).0 same;
      has_secret = has_secret_of env ip nonce made;
      signed = (eq_iff (handshake_signature env ip nonce) (strip signature)).0 right;
    }

check-drops :
    (env : Surroundings) (now : ℕ) (ip nonce signature : String) (o : Option Challenge)
    (s : TrustState)
    → (check_signature env ip nonce signature
        (fresh_entry now ip o s).0
        (fresh_entry now ip o s).1).0
      ≡ some true
    → (check_signature env ip nonce signature
        (fresh_entry now ip o s).0
        (fresh_entry now ip o s).1).1
      ≡ drop_challenge ip s
unfolding check_signature
check-drops env now ip nonce signature none s h = absurd (ground arith)
check-drops env now ip nonce signature (some c) s h = ground arith

no_challenge :
    (env : Surroundings) (now : ℕ) (ip nonce signature : String) (o : Option Challenge)
    (s : TrustState)
    → o ≡ none
    → (check_signature env ip nonce signature
        (fresh_entry now ip o s).0
        (fresh_entry now ip o s).1).0
      ≡ some false
unfolding check_signature
no_challenge env now ip nonce signature none s e = refl
no_challenge env now ip nonce signature (some c) s e = cc

-- An answer is accepted only against a pending challenge of the same address that is at most 600 seconds
-- old, with the nonce of that challenge and the signature that the shared secret, which is not empty, gives;
-- and then no answer for this address is accepted again before a new challenge.
pub verify_handshake_once :
    (env : Surroundings) (now : ℕ) (ip nonce signature : String) (s : TrustState)
    → (verify_handshake env now ip nonce signature s).0 ≡ some true
    → Answers env now ip nonce signature s
      × ((later : ℕ) (nonce' signature' : String)
          → (verify_handshake env later ip nonce' signature'
              (verify_handshake env now ip nonce signature s).1).0
            ≡ some false)
unfolding verify_handshake pending_entry
verify_handshake_once env now ip nonce signature s h = (
  check-true env now ip nonce signature (lookup ip s.handshakes) s refl h,
  λ later nonce' signature'.
      subst (λ t. (verify_handshake env later ip nonce' signature' t).0 ≡ some false)
        (sym (check-drops env now ip nonce signature (lookup ip s.handshakes) s h))
        (no_challenge env later ip nonce' signature' (lookup ip (remove ip s.handshakes))
          (drop_challenge ip s)
          (lookup-remove ip ip s.handshakes
            ∙ ap (λ b. if b then none else lookup ip s.handshakes) (eq_refl ip))),
)

check_right :
    (env : Surroundings) (later : ℕ) (ip nonce signature : String) (c : Challenge)
    (o : Option Challenge) (s : TrustState)
    → o ≡ some c
    → later ≤ c.ts + handshake_ttl
    → is_blank c.nonce ≡ false
    → c.nonce ≡ strip nonce
    → is_blank (handshake_signature env ip nonce) ≡ false
    → is_ascii (strip signature) ≡ true
    → handshake_signature env ip nonce ≡ strip signature
    → (check_signature env ip nonce signature
        (fresh_entry later ip o s).0
        (fresh_entry later ip o s).1).0
      ≡ some true
unfolding check_signature
check_right env later ip nonce signature c o s e f b n hb ha hs =
    subst
      (λ x.
        (check_signature env ip nonce signature (fresh_entry later ip x s).0
          (fresh_entry later ip x s).1).0
        ≡ some true)
      (sym e)
      (ground (
        arith,
        (eq_iff c.nonce (strip nonce)).1 n,
        (eq_iff (handshake_signature env ip nonce) (strip signature)).1 hs,
      ))

-- What is asked of a text that goes into an answer: it is not empty and has no blanks around it.
abbrev pub IsWord : String → Type 0
IsWord t = (is_blank t ≡ false) × (strip t ≡ t)

remember_relaxed :
    (env : Surroundings) (ip : String) (s : TrustState)
    → is_in ip s.revoked_ips ≡ false
    → env.is_strict_config_mode ≡ false
    → (remember_peer env ip s).0 ≡ true
unfolding remember_peer
remember_relaxed env ip s r m = ground arith

known_trusted :
    (env : Surroundings) (ip : String) (s : TrustState)
    → env.is_address ip ≡ true
    → is_known env s ip ≡ true
    → peer_trusted env ip s ≡ (true, s)
unfolding peer_trusted
known_trusted env ip s a k = ground (arith, known_iff env s ip)

remembered_trusted :
    (env : Surroundings) (ip : String) (s : TrustState)
    → env.is_address ip ≡ true
    → is_blank ip ≡ false
    → (remember_peer env ip s).0 ≡ true
    → (peer_trusted env ip (remember_peer env ip s).1).0 ≡ true
unfolding peer_trusted
remembered_trusted env ip s a b r = elim (Bool-cases (is_local ip)) [
  | inl l ↦ ground arith
  | inr l ↦
      ap (λ o. o.0)
        (known_trusted env ip (remember_peer env ip s).1 a (remember_known env ip s b l r))
]

remember_after :
    (env : Surroundings) (ip : String) (t : TrustState) (o : Option Bool × TrustState)
    → o.0 ≡ some true
    → o.1 ≡ t
    → then_remember env ip o ≡ (some (remember_peer env ip t).0, (remember_peer env ip t).1)
remember_after env ip t (some true, s) h e =
    ap (λ x. (some (remember_peer env ip x).0, (remember_peer env ip x).1)) e
remember_after env ip t (some false, s) h e = absurd (ground arith)
remember_after env ip t (none, s) h e = absurd (ground arith)

-- A peer with an address that is not revoked and a challenge of which the nonce and the signature are
-- proper texts, the signature in ASCII as hexadecimal digits are: outside strict mode, the answer that the challenge itself dictates, given within 600
-- seconds, admits the peer, and the next question in the same surroundings finds it trusted.
pub answer_admits :
    (env : Surroundings) (now later : ℕ) (ip nonce : String) (s : TrustState)
    → env.is_address ip ≡ true
    → is_blank ip ≡ false
    → is_in ip s.revoked_ips ≡ false
    → env.is_strict_config_mode ≡ false
    → IsWord nonce
    → IsWord (handshake_signature env ip nonce)
    → is_ascii (handshake_signature env ip nonce) ≡ true
    → later ≤ now + handshake_ttl
    → let (signature, challenged) = initiate_handshake env now nonce ip s in
      let answered = ack_peer env later ip nonce signature challenged in
      (answered.0 ≡ some true) × ((peer_trusted env ip answered.1).0 ≡ true)
unfolding initiate_handshake ack_peer verify_handshake pending_entry
answer_admits env now later ip nonce s a b r m n g asc t =
    let c : Challenge = record { nonce = nonce; ts = now } in
    let s₁ : TrustState = record s { handshakes = insert ip c s.handshakes } in
    let sig = handshake_signature env ip nonce in
    let there : lookup ip s₁.handshakes ≡ some c =
      lookup-insert ip ip c s.handshakes
      ∙ ap (λ (x : Bool). if x then some c else lookup ip s.handshakes) (eq_refl ip) in
    let right =
      check_right env later ip nonce sig c (lookup ip s₁.handshakes) s₁ there t n.0 (sym n.1) g.0
        (ap is_ascii g.1 ∙ asc) (sym g.1) in
    let drops = check-drops env later ip nonce sig (lookup ip s₁.handshakes) s₁ right in
    let t' = drop_challenge ip s₁ in
    let e : ack_peer env later ip nonce sig s₁
        ≡ (some (remember_peer env ip t').0, (remember_peer env ip t').1) =
      remember_after env ip (drop_challenge ip s₁) (verify_handshake env later ip nonce sig s₁)
        right drops in
    let ok = remember_relaxed env ip (drop_challenge ip s₁) r m in
    (
      ap (λ o. o.0) e ∙ ap some ok,
      ap (λ o. (peer_trusted env ip o.1).0) e
          ∙ remembered_trusted env ip (drop_challenge ip s₁) a b ok,
    )
