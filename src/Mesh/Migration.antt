-- ===== src/Mesh/Migration.antt =====
-- Announcements of a peer's new address, scripts/mesh/discovery_trust.py.
use Prim.Native.Char.{Char}
use orama_system.Base.{
  ℕ, zero, suc, ◌+◌, ◌/◌, ◌%◌, String, Bool, true, false, not, ◌&&◌, ◌||◌, ltb, nat_eq,
  if◌then◌else◌, ◌==◌, concat, strip, is_blank, is_ascii, Option, none, some,
}
use orama_system.Mesh.{Surroundings, TrustState, is_in, load_known_peer_ips, remember_peer}

pub record Announcement : Type 0 where
  pub kind : String
  pub node_id : String
  pub role : String
  pub previous_ip : String
  pub new_ip : String
  pub timestamp : ℕ
  pub nonce : String
  pub signature : String

abbrev pub digit : ℕ → Char
digit n =
    if nat_eq n 0
    then "0"
    else if nat_eq n 1
    then "1"
    else if nat_eq n 2
    then "2"
    else if nat_eq n 3
    then "3"
    else if nat_eq n 4
    then "4"
    else if nat_eq n 5
    then "5"
    else if nat_eq n 6
    then "6"
    else if nat_eq n 7
    then "7"
    else if nat_eq n 8
    then "8"
    else "9"

-- The digits of a number in front of a text; a number has no more digits than its value and one.
unfoldable pub digits_before : ℕ → ℕ → String → String
digits_before zero n s = s
digits_before (suc fuel) n s =
    let more = digits_before fuel (n / 10) (String.◌∷◌ (digit (n % 10)) s) in
    if ltb n 10 then String.◌∷◌ (digit n) s else more

-- `str(n)`
abbrev pub decimal : ℕ → String
decimal n = digits_before (suc n) n ""

-- The text that a migration's signature covers.
abbrev pub signed_text : String → String → String → ℕ → String → String
signed_text node previous new ts nonce = concat "mesh-ip-migration:" (
    concat node (
      concat ":" (
        concat previous
          (concat ":" (concat new (concat ":" (concat (decimal ts) (concat ":" nonce))))))))

unfoldable pub create_migration_announcement :
    Surroundings → ℕ → String → String → String → String → String → Announcement
unfolding digits_before
create_migration_announcement env now nonce node previous new role = record {
  kind = "mesh_ip_migration_announcement";
  node_id = node;
  role = if is_blank role then node else role;
  previous_ip = previous;
  new_ip = new;
  timestamp = now;
  nonce = nonce;
  signature =
      if is_blank env.secret
      then ""
      else env.hmac_hex env.secret (signed_text node previous new now nonce);
}

-- `abs(time.time() - ts) > window`
abbrev pub is_drifted : ℕ → ℕ → ℕ → Bool
is_drifted window now ts = ltb (ts + window) now || ltb (now + window) ts

abbrev pub migration_window : ℕ
migration_window = 300

abbrev pub is_complete : Announcement → Bool
is_complete a =
    not (is_blank (strip a.node_id))
    && not (is_blank (strip a.previous_ip))
    && not (is_blank (strip a.new_ip))
    && not (nat_eq a.timestamp 0)
    && not (is_blank (strip a.nonce))
    && not (is_blank (strip a.signature))

abbrev pub is_signed : Surroundings → Announcement → Bool
is_signed env a =
    env.hmac_hex env.secret (
      signed_text (strip a.node_id) (strip a.previous_ip) (strip a.new_ip) a.timestamp
        (strip a.nonce))
    == strip a.signature

-- The last checks of `verify_migration_announcement`, on the addresses that this node knows.
unfoldable pub check_membership : Surroundings → Announcement → TrustState → Option Bool × String
check_membership env a s =
    if not (is_in (strip a.previous_ip) (load_known_peer_ips env s))
    then (some false, "previous IP was never an acknowledged mesh fleet member")
    else if is_in (strip a.new_ip) s.revoked_ips
    then (some false, "destination explicitly revoked")
    else if env.is_strict_config_mode && not (is_in (strip a.new_ip) (load_known_peer_ips env s))
    then (some false, "strict configuration requires explicit destination approval")
    else (some true, "verified")

-- Whether the announcement is verified, with the reason, or nothing if `compare_digest` raises a TypeError on a
-- signature that is not ASCII.
unfoldable pub verify_migration_announcement :
    Surroundings → ℕ → Announcement → TrustState → Option Bool × String
unfolding digits_before
verify_migration_announcement env now a s =
    if not (a.kind == "mesh_ip_migration_announcement")
    then (some false, "unexpected event type")
    else if not (is_complete a)
    then (some false, "missing required migration fields")
    else if not (env.is_address (strip a.previous_ip))
    then (some false, "invalid previous_ip address format")
    else if env.is_loopback (strip a.previous_ip)
    then (some false, "previous_ip cannot be a loopback address")
    else if not (env.is_address (strip a.new_ip))
    then (some false, "invalid new_ip address format")
    else if env.is_loopback (strip a.new_ip)
    then (some false, "new_ip cannot be a loopback address")
    else if is_drifted migration_window now a.timestamp
    then (some false, "announcement expired or clock drift exceeded")
    else if is_blank env.secret
    then (some false, "no cluster secret configured")
    else if not (is_ascii (strip a.signature))
    then (none, "comparing strings with non-ASCII characters is not supported")
    else if not (is_signed env a)
    then (some false, "invalid cryptographic signature")
    else check_membership env a s

-- What applying an announcement comes to: it is refused, accepted, or an exception is raised, by the comparison
-- of the signatures or because the address cannot be remembered.
pub data Applied : Type 0 where
  rejected accepted raised : Applied

abbrev pub applied : Bool × TrustState → Applied × TrustState
applied (true, s) = (accepted, s)
applied (false, s) = (raised, s)

-- What follows the verification. The address is remembered as it stands in the announcement.
abbrev pub after_verification :
    Surroundings → String → Option Bool → TrustState → Applied × TrustState
after_verification env ip none s = (raised, s)
after_verification env ip (some false) s = (rejected, s)
after_verification env ip (some true) s = applied (remember_peer env ip s)

unfoldable pub apply_migration_announcement :
    Surroundings → ℕ → Announcement → TrustState → Applied × TrustState
apply_migration_announcement env now a s =
    after_verification env a.new_ip (verify_migration_announcement env now a s).0 s
