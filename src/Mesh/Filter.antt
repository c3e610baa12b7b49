-- ===== src/Mesh/Filter.antt =====
-- The filter over all discovered endpoints, scripts/mesh/discovery_trust.py.
use orama_system.Base.{
  ℕ, ◌+◌, String, ◌≡◌, refl, sym, ◌∙◌, ap, subst, true, ◌&&◌, Option, none, some, List, [], ◌∷◌,
  ◌++◌, arith, strip,
}
use orama_system.Mesh.{Surroundings, TrustState}
use orama_system.Mesh.Endpoints.{
  Endpoint, Endpoints, Fate, passes, blocked, unaddressed, judge, role_out, filter_role, peer_out,
  filter_peers, filter_endpoints_for_trust,
}
use orama_system.Mesh.Known.{is_known}
use orama_system.Mesh.Cleared.{
  is_cleared, all_cleared, role_list, endpoint_list, Keeps, judge-Keeps, judge_cleared,
  all_cleared-Keeps, all_cleared-append, stays,
}

role_out_cleared :
    (env : Surroundings) (e : Endpoint) (out : List String) (o : Fate × TrustState)
    → (stays o.0 ≡ true → is_cleared env o.1 (strip e.ip) ≡ true)
    → all_cleared env (role_out e out o).1.1 (role_list (role_out e out o).0) ≡ true
role_out_cleared env e out (passes, s) c = let h = c refl in ground arith
role_out_cleared env e out (unaddressed, s) c = let h = c refl in ground arith
role_out_cleared env e out (blocked, s) c = refl

role_out_state :
    (e : Endpoint) (out : List String) (o : Fate × TrustState) → (role_out e out o).1.1 ≡ o.1
role_out_state e out (passes, s) = refl
role_out_state e out (unaddressed, s) = refl
role_out_state e out (blocked, s) = refl

role_cleared :
    (env : Surroundings) (now : ℕ) (nonce : String) (o : Option Endpoint) (out : List String)
    (s : TrustState)
    → all_cleared env
        (filter_role env now nonce o out s).1.1
        (role_list (filter_role env now nonce o out s).0)
      ≡ true
unfolding filter_role
role_cleared env now nonce none out s = refl
role_cleared env now nonce (some e) out s =
    role_out_cleared env e out (judge env now nonce e s) (judge_cleared env now nonce e s)

role-Keeps :
    (env : Surroundings) (now : ℕ) (nonce : String) (o : Option Endpoint) (out : List String)
    (s : TrustState) (i : String)
    → Keeps env i s (filter_role env now nonce o out s).1.1
unfolding filter_role
role-Keeps env now nonce none out s i h = h
role-Keeps env now nonce (some e) out s i h =
    subst (λ t. is_known env t i ≡ true) (sym (role_out_state e out (judge env now nonce e s)))
      (judge-Keeps env now nonce i e s h)

peer_out_state :
    (e : Endpoint) (kept : List Endpoint) (out : List String) (o : Fate × TrustState)
    → (peer_out e kept out o).1.1 ≡ o.1
peer_out_state e kept out (passes, s) = refl
peer_out_state e kept out (unaddressed, s) = refl
peer_out_state e kept out (blocked, s) = refl

peer_out_cleared :
    (env : Surroundings) (e : Endpoint) (kept : List Endpoint) (out : List String)
    (o : Fate × TrustState)
    → (stays o.0 ≡ true → is_cleared env o.1 (strip e.ip) ≡ true)
    → all_cleared env o.1 kept ≡ true
    → all_cleared env (peer_out e kept out o).1.1 (peer_out e kept out o).0 ≡ true
peer_out_cleared env e kept out (passes, s) c k =
    let h = c refl in ground (arith, all_cleared-append env s kept (e ∷ []))
peer_out_cleared env e kept out (unaddressed, s) c k = k
peer_out_cleared env e kept out (blocked, s) c k = k

peers_keep :
    (env : Surroundings) (now : ℕ) (nonces : ℕ → String) (n : ℕ) (es kept : List Endpoint)
    (out : List String) (s : TrustState) (i : String)
    → Keeps env i s (filter_peers env now nonces n es kept out s).1.1
unfolding filter_peers
peers_keep env now nonces n [] kept out s i h = h
peers_keep env now nonces n (e ∷ es) kept out s i h =
    let o = peer_out e kept out (judge env now (nonces n) e s) in
    peers_keep env now nonces (n + 1) es o.0 o.1.0 o.1.1 i (
      subst (λ t. is_known env t i ≡ true)
        (sym (peer_out_state e kept out (judge env now (nonces n) e s)))
        (judge-Keeps env now (nonces n) i e s h))

peers_cleared :
    (env : Surroundings) (now : ℕ) (nonces : ℕ → String) (n : ℕ) (es kept : List Endpoint)
    (out : List String) (s : TrustState)
    → all_cleared env s kept ≡ true
    → all_cleared env
        (filter_peers env now nonces n es kept out s).1.1
        (filter_peers env now nonces n es kept out s).0
      ≡ true
unfolding filter_peers
peers_cleared env now nonces n [] kept out s k = k
peers_cleared env now nonces n (e ∷ es) kept out s k =
    let j = judge env now (nonces n) e s in
    let o = peer_out e kept out j in
    peers_cleared env now nonces (n + 1) es o.0 o.1.0 o.1.1 (
      peer_out_cleared env e kept out j (judge_cleared env now (nonces n) e s)
        (all_cleared-Keeps env s j.1 (λ i. judge-Keeps env now (nonces n) i e s) kept k))

-- Whatever the filter over discovered endpoints keeps, of the two roles and of the Windows peers, has no
-- address, a local one, or one that the state left by the filter knows as a peer that is not revoked.
pub filter_endpoints_for_trust-cleared :
    (env : Surroundings) (now : ℕ) (nonces : ℕ → String) (endpoints : Endpoints) (s : TrustState)
    → all_cleared env
        (filter_endpoints_for_trust env now nonces endpoints s).1.1
        (endpoint_list (filter_endpoints_for_trust env now nonces endpoints s).0)
      ≡ true
unfolding filter_endpoints_for_trust
filter_endpoints_for_trust-cleared env now nonces endpoints s =
    let a = filter_role env now (nonces 0) endpoints.mac [] s in
    let b = filter_role env now (nonces 1) endpoints.win a.1.0 a.1.1 in
    let c = filter_peers env now nonces 2 endpoints.win_peers [] b.1.0 b.1.1 in
    let keep_peers : (i : String) → Keeps env i b.1.1 c.1.1 =
      λ i. peers_keep env now nonces 2 endpoints.win_peers [] b.1.0 b.1.1 i in
    let mac = all_cleared-Keeps env b.1.1 c.1.1 keep_peers (role_list a.0) (
      all_cleared-Keeps env a.1.1 b.1.1 (role-Keeps env now (nonces 1) endpoints.win a.1.0 a.1.1)
        (role_list a.0) (role_cleared env now (nonces 0) endpoints.mac [] s)) in
    let win =
      all_cleared-Keeps env b.1.1 c.1.1 keep_peers (role_list b.0)
        (role_cleared env now (nonces 1) endpoints.win a.1.0 a.1.1) in
    let peers = peers_cleared env now nonces 2 endpoints.win_peers [] b.1.0 b.1.1 refl in
    all_cleared-append env c.1.1 (role_list a.0) (role_list b.0 ++ c.0)
    ∙ ap (λ x. x && all_cleared env c.1.1 (role_list b.0 ++ c.0)) mac
    ∙ all_cleared-append env c.1.1 (role_list b.0) c.0
    ∙ ap (λ x. x && all_cleared env c.1.1 c.0) win
    ∙ peers
