-- ===== src/Mesh/Moves.antt =====
-- What applying an announced migration takes, scripts/mesh/discovery_trust.py.
use orama_system.Base.{
  ℕ, zero, suc, ltb, ◌<◌, ◌/◌, ◌%◌, ◌+◌, ◌≤◌, String, ◌≡◌, inl, inr, refl, sym, ◌∙◌, ap, subst,
  Bool, true, false, not, ◌||◌, arith, if◌then◌else◌, eq_iff, eq_refl, strip, is_blank, Option,
  none, some, Bool-cases,
}
use orama_system.Mesh.{Surroundings, TrustState, is_in, load_known_peer_ips, remember_peer}
use orama_system.Mesh.Known.{is_in-with_ip, is_known, known_iff}
use orama_system.Mesh.Cleared.{sources_iff}
use orama_system.Mesh.Migration.{
  Announcement, digit, digits_before, signed_text, is_drifted, is_signed, migration_window,
  check_membership, verify_migration_announcement, accepted, applied, after_verification,
  apply_migration_announcement,
}

-- A migration that may be believed.
pub record Believable (env : Surroundings) (now : ℕ) (a : Announcement) (s : TrustState)
    : Type 0 where
  pub has_secret : is_blank env.secret ≡ false
  pub signed :
      env.hmac_hex env.secret (
        signed_text
          (strip a.node_id)
          (strip a.previous_ip)
          (strip a.new_ip)
          a.timestamp
          (strip a.nonce))
      ≡ strip a.signature
  pub not_late : now ≤ a.timestamp + migration_window
  pub not_early : a.timestamp ≤ now + migration_window
  pub previous_known : is_known env s (strip a.previous_ip) ≡ true
  pub not_revoked : is_in (strip a.new_ip) s.revoked_ips ≡ false
  pub strict : (not env.is_strict_config_mode || is_known env s (strip a.new_ip)) ≡ true

module _ (env : Surroundings) (now : ℕ) (a : Announcement) (s : TrustState) where
  verified_signed :
      (verify_migration_announcement env now a s).0 ≡ some true → is_signed env a ≡ true
  unfolding verify_migration_announcement
  verified_signed h = ground arith

  verified_secret :
      (verify_migration_announcement env now a s).0 ≡ some true → is_blank env.secret ≡ false
  unfolding verify_migration_announcement
  verified_secret h = ground arith

  verified_drift :
      (verify_migration_announcement env now a s).0 ≡ some true
      → is_drifted migration_window now a.timestamp ≡ false
  unfolding verify_migration_announcement
  verified_drift h = ground arith

  verified_known :
      (verify_migration_announcement env now a s).0 ≡ some true
      → (check_membership env a s).0 ≡ some true
  unfolding verify_migration_announcement
  verified_known h = ground arith

  verified_member :
      (check_membership env a s).0 ≡ some true
      → is_in (strip a.previous_ip) (load_known_peer_ips env s) ≡ true
  unfolding check_membership
  verified_member h = ground arith

  verified_free :
      (check_membership env a s).0 ≡ some true → is_in (strip a.new_ip) s.revoked_ips ≡ false
  unfolding check_membership
  verified_free h = ground arith

  verified_strict :
      (check_membership env a s).0 ≡ some true
      → (not env.is_strict_config_mode || is_in (strip a.new_ip) (load_known_peer_ips env s)) ≡ true
  unfolding check_membership
  verified_strict h = ground arith

  verified-Believable :
      (verify_migration_announcement env now a s).0 ≡ some true → Believable env now a s
  verified-Believable h =
      let drift = verified_drift h in
      record {
        has_secret = verified_secret h;
        signed = (eq_iff _ _).0 (verified_signed h);
        not_late = ground arith;
        not_early = ground arith;
        previous_known =
            sym (known_iff env s (strip a.previous_ip)) ∙ verified_member (verified_known h);
        not_revoked = verified_free (verified_known h);
        strict =
            sym (ap (λ x. not env.is_strict_config_mode || x) (known_iff env s (strip a.new_ip)))
            ∙ verified_strict (verified_known h);
      }

applied_accepted : (o : Bool × TrustState) → o.0 ≡ true → (applied o).0 ≡ accepted
applied_accepted (true, s) h = refl
applied_accepted (false, s) h = absurd (ground arith)

applied_state : (o : Bool × TrustState) → (applied o).1 ≡ o.1
applied_state (true, s) = refl
applied_state (false, s) = refl

accepted-verified :
    (env : Surroundings) (ip : String) (o : Option Bool) (s : TrustState)
    → (after_verification env ip o s).0 ≡ accepted
    → o ≡ some true
accepted-verified env ip none s h = absurd (ground arith)
accepted-verified env ip (some false) s h = absurd (ground arith)
accepted-verified env ip (some true) s h = refl

applied_believable :
    (env : Surroundings) (now : ℕ) (a : Announcement) (s : TrustState)
    → (apply_migration_announcement env now a s).0 ≡ accepted
    → (verify_migration_announcement env now a s).0 ≡ some true
unfolding apply_migration_announcement
applied_believable env now a s h =
    accepted-verified env a.new_ip (verify_migration_announcement env now a s).0 s h

-- An announced migration is accepted only when it is signed with the shared secret, which is not empty, is
-- at most 300 seconds from the clock either way, comes from an address that is known and not revoked, and
-- leads to one that is not revoked and, in strict mode, is known.
pub apply_migration-Believable :
    (env : Surroundings) (now : ℕ) (a : Announcement) (s : TrustState)
    → (apply_migration_announcement env now a s).0 ≡ accepted
    → Believable env now a s
apply_migration-Believable env now a s h =
    verified-Believable env now a s (applied_believable env now a s h)

remember_verified :
    (env : Surroundings) (ip : String) (s : TrustState)
    → is_blank ip ≡ false
    → is_in ip s.revoked_ips ≡ false
    → (not env.is_strict_config_mode || is_known env s ip) ≡ true
    → ((remember_peer env ip s).0 ≡ true) × (is_in ip (remember_peer env ip s).1.ips ≡ true)
unfolding remember_peer
remember_verified env ip s b r k = (
  ground (arith, sources_iff env s ip),
  ground (arith, sources_iff env s ip, is_in-with_ip ip ip s.ips, eq_refl ip),
)

not_blank :
    (env : Surroundings) (now : ℕ) (a : Announcement) (s : TrustState)
    → (verify_migration_announcement env now a s).0 ≡ some true
    → is_blank (strip a.new_ip) ≡ false
unfolding verify_migration_announcement
not_blank env now a s h = ground arith

-- A verified migration to an address without blanks around it is accepted, nothing raises, and the new
-- address is among the remembered ones.
pub apply_verified :
    (env : Surroundings) (now : ℕ) (a : Announcement) (s : TrustState)
    → strip a.new_ip ≡ a.new_ip
    → (verify_migration_announcement env now a s).0 ≡ some true
    → ((apply_migration_announcement env now a s).0 ≡ accepted)
      × (is_in a.new_ip (apply_migration_announcement env now a s).1.ips ≡ true)
unfolding apply_migration_announcement
apply_verified env now a s e h =
    let v = verified-Believable env now a s h in
    let r =
      remember_verified env a.new_ip s (sym (ap is_blank e) ∙ not_blank env now a s h)
        (sym (ap (λ x. is_in x s.revoked_ips) e) ∙ v.not_revoked)
        (sym (ap (λ x. not env.is_strict_config_mode || is_known env s x) e) ∙ v.strict) in
    let f : apply_migration_announcement env now a s ≡ applied (remember_peer env a.new_ip s) =
      ap (λ o. after_verification env a.new_ip o s) h in
    (
      ap (λ o. o.0) f ∙ applied_accepted (remember_peer env a.new_ip s) r.0,
      ap (λ o. is_in a.new_ip o.1.ips) f
          ∙ ap (λ x. is_in a.new_ip x.ips) (applied_state (remember_peer env a.new_ip s))
          ∙ r.1,
    )

div_ten-lt : (n : ℕ) → ltb n 10 ≡ false → n / 10 < n
div_ten-lt n h = let big : 10 ≤ n = ground arith in omega arith

-- Any fuel above the number prints all its digits.
digits_before_enough :
    (f g n : ℕ) (s : String) → n < f → n < g → digits_before f n s ≡ digits_before g n s
unfolding digits_before
digits_before_enough zero g n s p q = absurd (omega arith)
digits_before_enough (suc f) zero n s p q = absurd (omega arith)
digits_before_enough (suc f) (suc g) n s p q = elim (Bool-cases (ltb n 10)) [
  | inl e ↦ ground arith
  | inr e ↦
      let less = div_ten-lt n e in
      let i : (t : String) → digits_before f (n / 10) t ≡ digits_before g (n / 10) t =
        λ t. digits_before_enough f g (n / 10) t (omega arith) (omega arith) in
      subst
        (λ (x : Bool).
          (if x
            then String.◌∷◌ (digit n) s
            else digits_before f (n / 10) (String.◌∷◌ (digit (n % 10)) s))
          ≡ (if x
              then String.◌∷◌ (digit n) s
              else digits_before g (n / 10) (String.◌∷◌ (digit (n % 10)) s)))
        (sym e) (i (String.◌∷◌ (digit (n % 10)) s))
]
