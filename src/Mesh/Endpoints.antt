-- ===== src/Mesh/Endpoints.antt =====
-- The filter over discovered endpoints, scripts/mesh/discovery_trust.py.
use orama_system.Base.{
  ℕ, ◌+◌, String, Bool, true, false, Option, none, some, List, [], ◌∷◌, ◌++◌, if◌then◌else◌, strip,
  is_blank,
}
use orama_system.Oramaclaw.Json.{Fields}
use orama_system.Mesh.{
  Surroundings, TrustState, is_local, remember_peer, initiate_handshake, peer_trusted,
}

-- A discovered endpoint: its address and whatever else it has.
pub record Endpoint : Type 0 where
  pub ip : String
  pub other : Fields

-- The callers give a dict for a role or nothing; a role that is anything else would be passed through.
pub record Endpoints : Type 0 where
  pub mac : Option Endpoint
  pub win : Option Endpoint
  pub win_peers : List Endpoint

-- The endpoint passes, is blocked, or has no address.
pub data Fate : Type 0 where
  passes blocked unaddressed : Fate

-- Whether a trusted peer can also be remembered; a local one need not be.
abbrev pub keep_trusted : Surroundings → String → Bool × TrustState → Bool × TrustState
keep_trusted env ip (false, s) = (false, s)
keep_trusted env ip (true, s) = if is_local ip then (true, s) else remember_peer env ip s

abbrev pub fate_of : Surroundings → ℕ → String → String → Bool × TrustState → Fate × TrustState
fate_of env now nonce ip (true, s) = (passes, s)
fate_of env now nonce ip (false, s) = (blocked, (initiate_handshake env now nonce ip s).1)

-- What the filter does with one endpoint; a blocked one gets a challenge.
unfoldable pub judge : Surroundings → ℕ → String → Endpoint → TrustState → Fate × TrustState
judge env now nonce e s =
    let ip = strip e.ip in
    if is_blank ip
    then (unaddressed, s)
    else fate_of env now nonce ip (keep_trusted env ip (peer_trusted env ip s))

-- What is left of a role's endpoint, the blocked addresses so far, and the state.
abbrev pub role_out :
    Endpoint → List String → Fate × TrustState → Option Endpoint × (List String × TrustState)
role_out e out (passes, s) = (some e, (out, s))
role_out e out (unaddressed, s) = (some e, (out, s))
role_out e out (blocked, s) = (none, (out ++ strip e.ip ∷ [], s))

unfoldable pub filter_role :
    Surroundings
    → ℕ
    → String
    → Option Endpoint
    → List String
    → TrustState
    → Option Endpoint × (List String × TrustState)
filter_role env now nonce none out s = (none, (out, s))
filter_role env now nonce (some e) out s = role_out e out (judge env now nonce e s)

-- The peers that pass, the blocked addresses, and the state.
abbrev pub peer_out :
    Endpoint
    → List Endpoint
    → List String
    → Fate × TrustState
    → List Endpoint × (List String × TrustState)
peer_out e kept out (passes, s) = (kept ++ e ∷ [], (out, s))
peer_out e kept out (unaddressed, s) = (kept, (out, s))
peer_out e kept out (blocked, s) = (kept, (out ++ strip e.ip ∷ [], s))

-- The loop over the Windows peers; every endpoint has its own random nonce.
unfoldable pub filter_peers :
    Surroundings
    → ℕ
    → (ℕ → String)
    → ℕ
    → List Endpoint
    → List Endpoint
    → List String
    → TrustState
    → List Endpoint × (List String × TrustState)
filter_peers env now nonces n [] kept out s = (kept, (out, s))
filter_peers env now nonces n (e ∷ es) kept out s =
    let (kept', (out', s')) = peer_out e kept out (judge env now (nonces n) e s) in
    filter_peers env now nonces (n + 1) es kept' out' s'

unfoldable pub filter_endpoints_for_trust :
    Surroundings
    → ℕ
    → (ℕ → String)
    → Endpoints
    → TrustState
    → Endpoints × (List String × TrustState)
filter_endpoints_for_trust env now nonces endpoints s =
    let (mac, (out₁, s₁)) = filter_role env now (nonces 0) endpoints.mac [] s in
    let (win, (out₂, s₂)) = filter_role env now (nonces 1) endpoints.win out₁ s₁ in
    let (peers, (out₃, s₃)) = filter_peers env now nonces 2 endpoints.win_peers [] out₂ s₂ in
    (record { mac = mac; win = win; win_peers = peers }, (out₃, s₃))
