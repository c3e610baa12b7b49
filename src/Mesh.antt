-- ===== src/Mesh.antt =====
-- The trust in peers of a mesh, scripts/mesh/discovery_trust.py: known and revoked addresses, challenges,
-- and the filter over discovered endpoints. A set of addresses is a list whose order does not matter.
use orama_system.Base.{
  ℕ, ◌+◌, String, Bool, true, false, not, ◌&&◌, ◌||◌, Option, none, some, List, [], ◌∷◌, ◌++◌, ltb,
  if◌then◌else◌, ◌==◌, Dict, lookup, insert, remove, select, any, concat, split, strip, is_blank,
  is_ascii,
}
pub mod Migration
pub mod Revoked
pub mod Known
pub mod Endpoints
pub mod Cleared
pub mod Filter
pub mod Handshake
pub mod Moves
pub mod Audience
pub mod Pending
pub mod Acks
mod Tests

-- The environment, the files that other programs write, and the answers from outside: whether a text is an
-- address, whether it is a loopback one, what the probe of a peer finds, and what the operator says.
pub record Surroundings : Type 0 where
  pub peer_variables : List String
  pub is_strict_config_mode : Bool
  pub approve_discovery : Bool
  pub discovery_relaxed : Bool
  pub ips_from_archive : List String
  pub ips_from_last_discovery : List String
  pub secret : String
  pub hmac_hex : String → String → String
  pub is_address : String → Bool
  pub is_loopback : String → Bool
  pub verify_peer_shibboleth : String → Bool
  pub operator_confirms : String → Bool

-- A pending challenge of a handshake.
pub record Challenge : Type 0 where
  pub nonce : String
  pub ts : ℕ

pub record TrustState : Type 0 where
  pub ips : List String
  pub approved_ips : List String
  pub revoked_ips : List String
  pub handshakes : Dict Challenge

abbrev pub handshake_ttl : ℕ
handshake_ttl = 600

-- `ip in ips`
abbrev pub is_in : String → List String → Bool
is_in ip ips = any (λ x. x == ip) ips

-- `ips | {ip}`
abbrev pub with_ip : String → List String → List String
with_ip ip ips = if is_in ip ips then ips else ip ∷ ips

-- `ips - {ip}`
abbrev pub without_ip : String → List String → List String
without_ip ip ips = select (λ x. not (x == ip)) ips

abbrev nonblank_parts : List String → List String
nonblank_parts [] = []
nonblank_parts (part ∷ parts) =
    let rest = nonblank_parts parts in if is_blank (strip part) then rest else strip part ∷ rest

-- The addresses in the four variables, parted by commas.
abbrev parts_of : List String → List String
parts_of [] = []
parts_of (raw ∷ raws) = nonblank_parts (split 44 raw) ++ parts_of raws

unfoldable pub ips_from_env : Surroundings → List String
ips_from_env env = parts_of env.peer_variables

-- `ip in (_LOOPBACK_V4, "localhost")`
abbrev pub is_local : String → Bool
is_local ip = (ip == "127.0.0.1") || (ip == "localhost")

abbrev pub sources : Surroundings → TrustState → List String
sources env s =
    s.approved_ips
    ++ (ips_from_env env
        ++ (if env.is_strict_config_mode
            then []
            else s.ips ++ (env.ips_from_archive ++ env.ips_from_last_discovery)))

-- Revocations are subtracted last.
unfoldable pub load_known_peer_ips : Surroundings → TrustState → List String
load_known_peer_ips env s =
    select (λ ip. not (is_blank ip) && not (is_local ip) && not (is_in ip s.revoked_ips))
      (sources env s)

-- Whether the peer could be remembered, or else the ValueError is raised, and the state.
unfoldable pub remember_peer : Surroundings → String → TrustState → Bool × TrustState
remember_peer env ip s =
    if is_blank ip
    then (true, s)
    else if is_in ip s.revoked_ips
    then (false, s)
    else if env.is_strict_config_mode
        && not (is_in ip s.approved_ips || is_in ip (ips_from_env env))
    then (false, s)
    else (true, record s { ips = with_ip ip s.ips })

-- What `forget_peer` does to the peers; the pending migration is Migration's.
unfoldable pub revoke : String → TrustState → TrustState
revoke ip s =
    if is_blank ip
    then s
    else record s { ips = without_ip ip s.ips; revoked_ips = with_ip ip s.revoked_ips }

-- The operator's approval. It raises a ValueError, with no effect, on what is no address.
unfoldable pub approve_peer : Surroundings → String → TrustState → Bool × TrustState
approve_peer env ip s = if not (env.is_address ip) then (false, s) else (
  true,
  record s {
    ips = with_ip ip s.ips;
    approved_ips = with_ip ip s.approved_ips;
    revoked_ips = without_ip ip s.revoked_ips;
  },
)

-- An operator who is not there does not confirm.
unfoldable pub prompt_confirm_peer : Surroundings → String → TrustState → Bool × TrustState
prompt_confirm_peer env ip s =
    if is_blank ip || is_local ip
    then (true, s)
    else if not (env.is_address ip)
    then (false, s)
    else if env.operator_confirms ip
    then approve_peer env ip s
    else (false, s)

unfoldable pub handshake_signature : Surroundings → String → String → String
handshake_signature env ip nonce =
    if is_blank env.secret
    then ""
    else env.hmac_hex env.secret (concat "discovery-handshake:" (concat ip (concat ":" nonce)))

abbrev pub drop_challenge : String → TrustState → TrustState
drop_challenge ip s = record s { handshakes = remove ip s.handshakes }

abbrev fresh_entry : ℕ → String → Option Challenge → TrustState → Option Challenge × TrustState
fresh_entry now ip none s = (none, s)
fresh_entry now ip (some e) s =
    if ltb (e.ts + handshake_ttl) now then (none, drop_challenge ip s) else (some e, s)

unfoldable pub pending_entry : ℕ → String → TrustState → Option Challenge × TrustState
pending_entry now ip s = fresh_entry now ip (lookup ip s.handshakes) s

-- Whether the answer is accepted, or nothing if `compare_digest` raises a TypeError, as it does on a signature
-- that is not ASCII. The digest that is expected is one of hexadecimal digits.
unfoldable pub check_signature :
    Surroundings
    → String
    → String
    → String
    → Option Challenge
    → TrustState
    → Option Bool × TrustState
check_signature env ip nonce signature none s = (some false, s)
check_signature env ip nonce signature (some e) s =
    if is_blank e.nonce || not (e.nonce == strip nonce)
    then (some false, s)
    else if is_blank (handshake_signature env ip nonce)
    then (some false, s)
    else if not (is_ascii (strip signature))
    then (none, s)
    else if not (handshake_signature env ip nonce == strip signature)
    then (some false, s)
    else (some true, drop_challenge ip s)

unfoldable pub verify_handshake :
    Surroundings → ℕ → String → String → String → TrustState → Option Bool × TrustState
unfolding check_signature
verify_handshake env now ip nonce signature s =
    let (entry, s') = pending_entry now ip s in check_signature env ip nonce signature entry s'

-- The nonce is drawn at random.
unfoldable pub initiate_handshake :
    Surroundings → ℕ → String → String → TrustState → String × TrustState
initiate_handshake env now nonce ip s = (
  handshake_signature env ip nonce,
  record s { handshakes = insert ip (record { nonce = nonce; ts = now }) s.handshakes },
)

unfoldable pub peer_trusted : Surroundings → String → TrustState → Bool × TrustState
peer_trusted env ip s =
    if is_blank ip || is_local ip
    then (true, s)
    else if not (env.is_address ip)
    then (false, s)
    else if is_in ip s.revoked_ips
    then (false, s)
    else if is_in ip (load_known_peer_ips env s)
    then (true, s)
    else if env.is_strict_config_mode
    then prompt_confirm_peer env ip s
    else if env.approve_discovery || env.discovery_relaxed || env.verify_peer_shibboleth ip
    then remember_peer env ip s
    else prompt_confirm_peer env ip s

abbrev pub then_remember :
    Surroundings → String → Option Bool × TrustState → Option Bool × TrustState
then_remember env ip (none, s) = (none, s)
then_remember env ip (some false, s) = (some false, s)
then_remember env ip (some true, s) =
    let (remembered, s') = remember_peer env ip s in (some remembered, s')

-- The TypeError goes through, the ValueError of the peer that cannot be remembered does not.
unfoldable pub ack_peer :
    Surroundings → ℕ → String → String → String → TrustState → Option Bool × TrustState
ack_peer env now ip nonce signature s =
    then_remember env ip (verify_handshake env now ip nonce signature s)
