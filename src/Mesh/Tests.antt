-- ===== src/Mesh/Tests.antt =====
-- Tests and examples for scripts/mesh/discovery_trust.py.
use orama_system.Base.{
  ℕ, String, ◌≡◌, refl, true, false, not, ◌||◌, none, some, [], ◌∷◌, arith, ◌==◌, strip, lstrip,
  rstrip,
}
use orama_system.Oramaclaw.Json.{end}
use orama_system.Mesh.{
  Surroundings, TrustState, is_in, ips_from_env, load_known_peer_ips, remember_peer, revoke,
  approve_peer, prompt_confirm_peer, handshake_signature, pending_entry, check_signature,
  verify_handshake, initiate_handshake, peer_trusted, ack_peer,
}
use orama_system.Mesh.Endpoints.{
  Endpoints, judge, filter_role, filter_peers, filter_endpoints_for_trust,
}
use orama_system.Mesh.Known.{Cause, peer_trusted-Cause}
use orama_system.Mesh.Cleared.{all_cleared, endpoint_list}
use orama_system.Mesh.Filter.{filter_endpoints_for_trust-cleared}
use orama_system.Mesh.Handshake.{Answers, verify_handshake_once, answer_admits}
use orama_system.Mesh.Revoked.{remembers, done, then_call, revoked_stays}
use orama_system.Mesh.Migration.{
  Announcement, digits_before, create_migration_announcement, verify_migration_announcement,
  check_membership, accepted, raised, apply_migration_announcement,
}
use orama_system.Mesh.Moves.{Believable, apply_migration-Believable, apply_verified}
use orama_system.Mesh.Audience.{
  Node, delivery_targets, prepare_self_migration, settle_migration_ack,
  commit_migration_if_complete,
}
use orama_system.Mesh.Acks.{begun, acknowledged, commit_needs_audience}

abbrev env : Surroundings
env = record {
  peer_variables = "10.0.0.2, 10.0.0.3" ∷ "" ∷ [];
  is_strict_config_mode = false;
  approve_discovery = false;
  discovery_relaxed = false;
  ips_from_archive = [];
  ips_from_last_discovery = [];
  secret = "key";
  hmac_hex = λ key message. "c0de";
  is_address = λ ip. not (ip == "peer");
  is_loopback = λ ip. ip == "127.0.0.1";
  verify_peer_shibboleth = λ ip. false;
  operator_confirms = λ ip. ip == "10.0.0.9";
}

abbrev strict : Surroundings
strict = record env { is_strict_config_mode = true }

abbrev empty : TrustState
empty = record { ips = []; approved_ips = []; revoked_ips = []; handshakes = [] }

known_test : load_known_peer_ips env empty ≡ "10.0.0.2" ∷ "10.0.0.3" ∷ []
unfolding load_known_peer_ips ips_from_env strip lstrip rstrip
known_test = refl

strict_test : remember_peer strict "10.0.0.7" empty ≡ (false, empty)
unfolding remember_peer ips_from_env strip lstrip rstrip
strict_test = refl

confirmed_test : (peer_trusted strict "10.0.0.9" empty).1.approved_ips ≡ "10.0.0.9" ∷ []
unfolding peer_trusted load_known_peer_ips ips_from_env strip lstrip rstrip prompt_confirm_peer
    approve_peer
confirmed_test = refl

peer_trusted-Cause_example : Cause env empty "10.0.0.2"
unfolding peer_trusted load_known_peer_ips ips_from_env strip lstrip rstrip
peer_trusted-Cause_example = peer_trusted-Cause env "10.0.0.2" empty refl

revoked_stays_example :
    peer_trusted env "10.0.0.2" (remember_peer env "10.0.0.2" (revoke "10.0.0.2" empty)).1
    ≡ (false, (remember_peer env "10.0.0.2" (revoke "10.0.0.2" empty)).1)
revoked_stays_example =
    revoked_stays "10.0.0.2" empty (remember_peer env "10.0.0.2" (revoke "10.0.0.2" empty)).1 env
      refl
      (then_call (revoke "10.0.0.2" empty) (revoke "10.0.0.2" empty)
        (remember_peer env "10.0.0.2" (revoke "10.0.0.2" empty)).1 (done (revoke "10.0.0.2" empty))
        (remembers env "10.0.0.2" (revoke "10.0.0.2" empty)))

abbrev challenged : TrustState
challenged = (initiate_handshake env 1000 "ab12" "10.0.0.7" empty).1

verify_handshake_once_example :
    Answers env 1600 "10.0.0.7" "ab12" "c0de" challenged
    × ((later : ℕ) (nonce' signature' : String)
        → (verify_handshake env later "10.0.0.7" nonce' signature'
            (verify_handshake env 1600 "10.0.0.7" "ab12" "c0de" challenged).1).0
          ≡ some false)
unfolding initiate_handshake verify_handshake pending_entry check_signature handshake_signature
    strip lstrip rstrip
verify_handshake_once_example =
    verify_handshake_once env 1600 "10.0.0.7" "ab12" "c0de" challenged refl

answer_admits_example :
    let (signature, s') = initiate_handshake env 1000 "ab12" "10.0.0.7" empty in
    let answered = ack_peer env 1600 "10.0.0.7" "ab12" signature s' in
    (answered.0 ≡ some true) × ((peer_trusted env "10.0.0.7" answered.1).0 ≡ true)
unfolding handshake_signature strip lstrip rstrip
answer_admits_example =
    answer_admits env 1000 1600 "10.0.0.7" "ab12" empty refl refl refl refl (refl, refl)
      (refl, refl) refl (omega arith)

abbrev endpoints : Endpoints
endpoints = record {
  mac = some (record { ip = " 10.0.0.2 "; other = end });
  win = some (record { ip = "10.0.0.7"; other = end });
  win_peers = record { ip = ""; other = end } ∷ record { ip = "10.0.0.3"; other = end } ∷ [];
}

filter_test :
    (filter_endpoints_for_trust env 1000 (λ n. "ab12") endpoints empty).1.0 ≡ "10.0.0.7" ∷ []
unfolding filter_endpoints_for_trust filter_role filter_peers judge initiate_handshake peer_trusted
    load_known_peer_ips ips_from_env prompt_confirm_peer remember_peer strip lstrip rstrip
filter_test = refl

filter_endpoints_for_trust-cleared_example :
    all_cleared env
      (filter_endpoints_for_trust env 1000 (λ n. "ab12") endpoints empty).1.1
      (endpoint_list (filter_endpoints_for_trust env 1000 (λ n. "ab12") endpoints empty).0)
    ≡ true
filter_endpoints_for_trust-cleared_example =
    filter_endpoints_for_trust-cleared env 1000 (λ n. "ab12") endpoints empty

abbrev announcement : Announcement
announcement = create_migration_announcement env 1200 "ab12" "mac" "10.0.0.2" "10.0.0.8" ""

apply_migration-Believable_example : Believable env 1500 announcement empty
unfolding create_migration_announcement digits_before apply_migration_announcement
    verify_migration_announcement check_membership load_known_peer_ips ips_from_env remember_peer
    strip lstrip rstrip
apply_migration-Believable_example = apply_migration-Believable env 1500 announcement empty refl

apply_verified_example :
    ((apply_migration_announcement env 1500 announcement empty).0 ≡ accepted)
    × (is_in announcement.new_ip (apply_migration_announcement env 1500 announcement empty).1.ips
        ≡ true)
unfolding create_migration_announcement digits_before verify_migration_announcement check_membership
    load_known_peer_ips ips_from_env strip lstrip rstrip
apply_verified_example = apply_verified env 1500 announcement empty refl refl

-- An address with a blank before it is verified, and then refused by the strict mode.
padded_test :
    (apply_migration_announcement strict 1500
      (create_migration_announcement env 1200 "ab12" "mac" "10.0.0.2" " 10.0.0.3" "")
      empty).0
    ≡ raised
unfolding create_migration_announcement digits_before apply_migration_announcement
    verify_migration_announcement check_membership load_known_peer_ips ips_from_env remember_peer
    strip lstrip rstrip
padded_test = refl

-- A signature with a letter that is not ASCII raises, in an answer and in an announcement.
non_ascii_answer_test : (verify_handshake env 1600 "10.0.0.7" "ab12" "cödé" challenged).0 ≡ none
unfolding initiate_handshake verify_handshake pending_entry check_signature handshake_signature
    strip lstrip rstrip
non_ascii_answer_test = refl

non_ascii_migration_test :
    (apply_migration_announcement env 1500 (record announcement { signature = "cödé" }) empty).0
    ≡ raised
unfolding create_migration_announcement digits_before apply_migration_announcement
    verify_migration_announcement check_membership strip lstrip rstrip
non_ascii_migration_test = refl

abbrev node : Node
node = record {
  trust = empty;
  self = record {
    last_known_ip = "10.0.0.1";
    history = [];
    migration_generation = none;
    pending_migration = none;
  };
}

abbrev moving : Node
moving = (prepare_self_migration env 100 "10.0.0.5" (some ("10.0.0.2" ∷ [])) node).1

abbrev told : Node
told = (settle_migration_ack "10.0.0.5" "10.0.0.2" 1 moving).1

stale_ack_test : settle_migration_ack "10.0.0.5" "10.0.0.2" 2 moving ≡ (false, moving)
unfolding prepare_self_migration delivery_targets settle_migration_ack
stale_ack_test = refl

early_commit_test :
    commit_migration_if_complete 200 "10.0.0.5" "10.0.0.1" 1 moving ≡ (false, moving)
unfolding prepare_self_migration delivery_targets commit_migration_if_complete
early_commit_test = refl

commit_needs_audience_example :
    (is_in "10.0.0.2" told.trust.revoked_ips || is_in "10.0.0.2" ("10.0.0.2" ∷ [])) ≡ true
unfolding prepare_self_migration delivery_targets settle_migration_ack commit_migration_if_complete
commit_needs_audience_example =
    commit_needs_audience "10.0.0.2" "10.0.0.5" 1 moving ("10.0.0.2" ∷ []) told 200 "10.0.0.5"
      "10.0.0.1" 1 refl refl (acknowledged [] moving "10.0.0.5" "10.0.0.2" 1 begun) refl
