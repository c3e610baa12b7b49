-- ===== src/Mesh/Cleared.antt =====
-- What the filter of scripts/mesh/discovery_trust.py does with one endpoint.
use orama_system.Base.{
  ℕ, String, ◌≡◌, inl, inr, refl, sym, subst, Bool, true, false, not, ◌&&◌, ◌||◌, Option, none,
  some, List, [], ◌∷◌, ◌++◌, arith, if◌then◌else◌, eq_refl, strip, is_blank, Bool-cases,
}
use orama_system.Mesh.{
  Surroundings, TrustState, is_in, is_local, ips_from_env, sources, remember_peer, approve_peer,
  prompt_confirm_peer, initiate_handshake, peer_trusted,
}
use orama_system.Mesh.Endpoints.{
  Endpoint, Endpoints, Fate, passes, blocked, unaddressed, keep_trusted, fate_of, judge,
}
use orama_system.Mesh.Known.{is_in-append, is_in-with_ip, is_in-without_ip, is_known}

-- An address that needs no trust, or that is known.
abbrev pub is_cleared : Surroundings → TrustState → String → Bool
is_cleared env s ip = is_blank ip || is_local ip || is_known env s ip

abbrev pub all_cleared : Surroundings → TrustState → List Endpoint → Bool
all_cleared env s [] = true
all_cleared env s (e ∷ es) = is_cleared env s (strip e.ip) && all_cleared env s es

abbrev pub role_list : Option Endpoint → List Endpoint
role_list none = []
role_list (some e) = e ∷ []

-- All the endpoints, of the two roles and of the peers.
abbrev pub endpoint_list : Endpoints → List Endpoint
endpoint_list es = role_list es.mac ++ (role_list es.win ++ es.win_peers)

-- Whether an address is in one of the sources that a mode reads.
pub sources_iff :
    (env : Surroundings) (s : TrustState) (i : String)
    → is_in i (sources env s) ≡ (
        is_in i s.approved_ips
        || (is_in i (ips_from_env env)
            || (not env.is_strict_config_mode
                && (is_in i s.ips
                    || (is_in i env.ips_from_archive || is_in i env.ips_from_last_discovery)))))
sources_iff env s i = ground (
  arith,
  is_in-append i s.approved_ips (
      ips_from_env env
      ++ (if env.is_strict_config_mode
          then []
          else s.ips ++ (env.ips_from_archive ++ env.ips_from_last_discovery))),
  is_in-append i (ips_from_env env) (
      if env.is_strict_config_mode
      then []
      else s.ips ++ (env.ips_from_archive ++ env.ips_from_last_discovery)),
  is_in-append i s.ips (env.ips_from_archive ++ env.ips_from_last_discovery),
  is_in-append i env.ips_from_archive env.ips_from_last_discovery,
)

-- ------------------------------------------------------------------ known addresses stay known

-- Every step of the filter keeps what is known.
abbrev pub Keeps : Surroundings → String → TrustState → TrustState → Type 0
Keeps env i s t = is_known env s i ≡ true → is_known env t i ≡ true

remember-Keeps :
    (env : Surroundings) (i p : String) (s : TrustState) → Keeps env i s (remember_peer env p s).1
unfolding remember_peer
remember-Keeps env i p s h = ground (
  arith,
  sources_iff env s i,
  sources_iff env (remember_peer env p s).1 i,
  is_in-with_ip p i s.ips,
)

approve-Keeps :
    (env : Surroundings) (i p : String) (s : TrustState) → Keeps env i s (approve_peer env p s).1
unfolding approve_peer
approve-Keeps env i p s h = ground (
  arith,
  sources_iff env s i,
  sources_iff env (approve_peer env p s).1 i,
  is_in-with_ip p i s.ips,
  is_in-with_ip p i s.approved_ips,
  is_in-without_ip p i s.revoked_ips,
)

prompt-Keeps :
    (env : Surroundings) (i p : String) (s : TrustState)
    → Keeps env i s (prompt_confirm_peer env p s).1
unfolding prompt_confirm_peer
prompt-Keeps env i p s h = ground (arith, approve-Keeps env i p s h)

trusted-Keeps :
    (env : Surroundings) (i p : String) (s : TrustState) → Keeps env i s (peer_trusted env p s).1
unfolding peer_trusted
trusted-Keeps env i p s h = ground (arith, prompt-Keeps env i p s h, remember-Keeps env i p s h)

keep_trusted-Keeps :
    (env : Surroundings) (i p : String) (s : TrustState) (o : Bool × TrustState)
    → Keeps env i s o.1
    → Keeps env i s (keep_trusted env p o).1
keep_trusted-Keeps env i p s (false, t) k h = k h
keep_trusted-Keeps env i p s (true, t) k h =
    let h' : is_known env t i ≡ true = k h in ground (arith, remember-Keeps env i p t h')

fate-Keeps :
    (env : Surroundings) (i p nonce : String) (now : ℕ) (s : TrustState) (o : Bool × TrustState)
    → Keeps env i s o.1
    → Keeps env i s (fate_of env now nonce p o).1
unfolding initiate_handshake
fate-Keeps env i p nonce now s (true, t) k h = k h
fate-Keeps env i p nonce now s (false, t) k h = k h

pub judge-Keeps :
    (env : Surroundings) (now : ℕ) (nonce i : String) (e : Endpoint) (s : TrustState)
    → Keeps env i s (judge env now nonce e s).1
unfolding judge
judge-Keeps env now nonce i e s h = elim (Bool-cases (is_blank (strip e.ip))) [
  | inl b ↦ ground arith
  | inr b ↦
      subst
        (λ (x : Bool).
          is_known env
            (if x
              then (unaddressed, s)
              else fate_of env now nonce (strip e.ip)
                  (keep_trusted env (strip e.ip) (peer_trusted env (strip e.ip) s))).1
            i
          ≡ true)
        (sym b)
        (fate-Keeps env i (strip e.ip) nonce now s
          (keep_trusted env (strip e.ip) (peer_trusted env (strip e.ip) s))
          (keep_trusted-Keeps env i (strip e.ip) s (peer_trusted env (strip e.ip) s)
            (trusted-Keeps env i (strip e.ip) s))
          h)
]

cleared-Keeps :
    (env : Surroundings) (i : String) (s t : TrustState)
    → Keeps env i s t
    → is_cleared env s i ≡ true
    → is_cleared env t i ≡ true
cleared-Keeps env i s t k h = elim (Bool-cases (is_known env s i)) [
  | inl e ↦ let e' : is_known env t i ≡ true = k e in ground arith
  | inr e ↦ ground arith
]

pub all_cleared-Keeps :
    (env : Surroundings) (s t : TrustState)
    → ((i : String) → Keeps env i s t)
    → (es : List Endpoint) → all_cleared env s es ≡ true
    → all_cleared env t es ≡ true
all_cleared-Keeps env s t k [] h = refl
all_cleared-Keeps env s t k (e ∷ es) h =
    let here : is_cleared env s (strip e.ip) ≡ true = ground arith in
    let there : all_cleared env s es ≡ true = ground arith in
    let here' = cleared-Keeps env (strip e.ip) s t (k (strip e.ip)) here in
    let there' = all_cleared-Keeps env s t k es there in ground arith

pub all_cleared-append :
    (env : Surroundings) (s : TrustState) (xs ys : List Endpoint)
    → all_cleared env s (xs ++ ys) ≡ (all_cleared env s xs && all_cleared env s ys)
all_cleared-append env s [] ys = refl
all_cleared-append env s (x ∷ xs) ys = ground (arith, all_cleared-append env s xs ys)

-- ------------------------------------------------------------------ what passes is cleared

pub remember_known :
    (env : Surroundings) (i : String) (s : TrustState)
    → is_blank i ≡ false
    → is_local i ≡ false
    → (remember_peer env i s).0 ≡ true
    → is_known env (remember_peer env i s).1 i ≡ true
unfolding remember_peer
remember_known env i s b l h =
    ground (arith, sources_iff env (remember_peer env i s).1 i, is_in-with_ip i i s.ips, eq_refl i)

keep_trusted_cleared :
    (env : Surroundings) (i : String) (o : Bool × TrustState)
    → is_blank i ≡ false
    → (keep_trusted env i o).0 ≡ true
    → is_cleared env (keep_trusted env i o).1 i ≡ true
keep_trusted_cleared env i (false, s) b h = absurd (ground arith)
keep_trusted_cleared env i (true, s) b h = elim (Bool-cases (is_local i)) [
  | inl l ↦ ground arith
  | inr l ↦
      let k : (remember_peer env i s).0 ≡ true = ground arith in
      let r = remember_known env i s b l k in ground arith
]

-- Not blocked.
abbrev pub stays : Fate → Bool
stays passes = true
stays unaddressed = true
stays blocked = false

fate_cleared :
    (env : Surroundings) (now : ℕ) (nonce i : String) (o : Bool × TrustState)
    → (o.0 ≡ true → is_cleared env o.1 i ≡ true)
    → stays (fate_of env now nonce i o).0 ≡ true
    → is_cleared env (fate_of env now nonce i o).1 i ≡ true
fate_cleared env now nonce i (true, s) k h = k refl
fate_cleared env now nonce i (false, s) k h = absurd (ground arith)

pub judge_cleared :
    (env : Surroundings) (now : ℕ) (nonce : String) (e : Endpoint) (s : TrustState)
    → stays (judge env now nonce e s).0 ≡ true
    → is_cleared env (judge env now nonce e s).1 (strip e.ip) ≡ true
unfolding judge
judge_cleared env now nonce e s h = elim (Bool-cases (is_blank (strip e.ip))) [
  | inl b ↦ ground arith
  | inr b ↦
      let o = keep_trusted env (strip e.ip) (peer_trusted env (strip e.ip) s) in
      let k : stays (fate_of env now nonce (strip e.ip) o).0 ≡ true = ground arith in
      let c =
        fate_cleared env now nonce (strip e.ip) o
          (keep_trusted_cleared env (strip e.ip) (peer_trusted env (strip e.ip) s) b) k in
      subst
        (λ (x : Bool).
          is_cleared env (if x then (unaddressed, s) else fate_of env now nonce (strip e.ip) o).1
            (strip e.ip)
          ≡ true)
        (sym b) c
]
