-- ===== src/Mesh/Known.antt =====
-- Membership in the sets of addresses of scripts/mesh/discovery_trust.py, and what makes a peer trusted.
use orama_system.Base.{
  String, ◌≡◌, inl, inr, refl, sym, ◌∙◌, subst, Bool, true, false, not, ◌&&◌, ◌||◌, List, [], ◌∷◌,
  ◌++◌, arith, ◌==◌, eq_iff, eq_refl, select, is_blank, Bool-cases,
}
use orama_system.Mesh.{
  Surroundings, TrustState, is_in, with_ip, without_ip, is_local, sources, load_known_peer_ips,
  prompt_confirm_peer, peer_trusted,
}

pub is_in-append :
    (i : String) (xs ys : List String) → is_in i (xs ++ ys) ≡ (is_in i xs || is_in i ys)
is_in-append i [] ys = refl
is_in-append i (x ∷ xs) ys = ground (arith, is_in-append i xs ys)

pub is_in-with_ip :
    (j i : String) (xs : List String) → is_in i (with_ip j xs) ≡ ((j == i) || is_in i xs)
is_in-with_ip j i xs = ground (arith, eq_iff j i)

is_in-select_hit :
    (keep : String → Bool) (i x : String) (xs : List String)
    → x ≡ i
    → is_in i (select keep xs) ≡ (keep i && is_in i xs)
    → is_in i (select keep (x ∷ xs)) ≡ (keep i && is_in i (x ∷ xs))
is_in-select_hit keep i x xs e h =
    subst (λ y. is_in i (select keep (y ∷ xs)) ≡ (keep i && is_in i (y ∷ xs))) (sym e)
      (ground (arith, eq_refl i))

pub is_in-select :
    (keep : String → Bool) (i : String) (xs : List String)
    → is_in i (select keep xs) ≡ (keep i && is_in i xs)
is_in-select keep i [] = ground arith
is_in-select keep i (x ∷ xs) = elim (Bool-cases (x == i)) [
  | inl e ↦ is_in-select_hit keep i x xs ((eq_iff x i).0 e) (is_in-select keep i xs)
  | inr e ↦ ground (arith, is_in-select keep i xs)
]

pub is_in-without_ip :
    (j i : String) (xs : List String) → is_in i (without_ip j xs) ≡ (not (i == j) && is_in i xs)
is_in-without_ip j i xs = is_in-select (λ x. not (x == j)) i xs

-- Whether an address is known: it is in a source, is no local name, and is not revoked.
abbrev pub is_known : Surroundings → TrustState → String → Bool
is_known env s ip =
    (not (is_blank ip) && not (is_local ip) && not (is_in ip s.revoked_ips))
    && is_in ip (sources env s)

pub known_iff :
    (env : Surroundings) (s : TrustState) (ip : String)
    → is_in ip (load_known_peer_ips env s) ≡ is_known env s ip
unfolding load_known_peer_ips
known_iff env s ip =
    is_in-select (λ x. not (is_blank x) && not (is_local x) && not (is_in x s.revoked_ips)) ip
      (sources env s)

-- Why a peer is trusted.
pub data Cause (env : Surroundings) (s : TrustState) (ip : String) : Type 0 where
  empty_or_local : (is_blank ip || is_local ip) ≡ true → Cause env s ip
  known : is_in ip s.revoked_ips ≡ false → is_in ip (sources env s) ≡ true → Cause env s ip
  confirmed :
      is_in ip s.revoked_ips ≡ false
      → env.is_address ip ≡ true
      → env.operator_confirms ip ≡ true
      → Cause env s ip
  admitted :
      is_in ip s.revoked_ips ≡ false
      → env.is_address ip ≡ true
      → env.is_strict_config_mode ≡ false
      → (env.approve_discovery || env.discovery_relaxed || env.verify_peer_shibboleth ip) ≡ true
      → Cause env s ip

in_sources :
    (env : Surroundings) (s : TrustState) (ip : String)
    → is_known env s ip ≡ true
    → is_in ip (sources env s) ≡ true
in_sources env s ip h = ground arith

confirm-cases :
    (env : Surroundings) (ip : String) (s : TrustState)
    → (prompt_confirm_peer env ip s).0 ≡ true
    → (is_blank ip || is_local ip) ≡ false
    → (env.is_address ip ≡ true) × (env.operator_confirms ip ≡ true)
unfolding prompt_confirm_peer
confirm-cases env ip s h l = ground arith

-- A peer that is found trusted has an empty address or a local one, or it is not revoked and is known, or
-- confirmed by the operator, or, outside strict mode only, admitted by one of the two switches or by the probe.
pub peer_trusted-Cause :
    (env : Surroundings) (ip : String) (s : TrustState)
    → (peer_trusted env ip s).0 ≡ true
    → Cause env s ip
unfolding peer_trusted
peer_trusted-Cause env ip s h = elim (Bool-cases (is_blank ip || is_local ip)) [
  | inl l ↦ empty_or_local l
  | inr l ↦ elim (Bool-cases (is_in ip s.revoked_ips)) [
    | inl r ↦ absurd (ground arith)
    | inr r ↦ elim (Bool-cases (is_in ip (load_known_peer_ips env s))) [
      | inl k ↦ known r (in_sources env s ip (sym (known_iff env s ip) ∙ k))
      | inr k ↦ elim (Bool-cases env.is_strict_config_mode) [
        | inl c ↦ let (a, o) = confirm-cases env ip s (ground arith) l in confirmed r a o
        | inr c ↦
            elim (Bool-cases
              (env.approve_discovery || env.discovery_relaxed || env.verify_peer_shibboleth ip)) [
                | inl w ↦ admitted r (ground arith) c w
                | inr w ↦ let (a, o) = confirm-cases env ip s (ground arith) l in confirmed r a o
              ]
      ]
    ]
  ]
]
