-- ===== src/Swarm/Tests.antt =====
-- Runs of src/orama_system/swarm_approval.py on concrete inputs.
use orama_system.Base.{
  ℕ, zero, suc, ◌+◌, ◌≤◌, String, ◌≡◌, refl, true, false, inl, none, some, List, [], ◌∷◌, arith,
  Dict, lookup, contains, concat, strip, lstrip, rstrip,
}
use orama_system.Oramaclaw.Json.{text, Fields, field, end}
use orama_system.Swarm.{
  Environ, Entry, Approvals, Approval, secret, sign, fingerprint, evict, prune_cache, is_expired,
  issue_approval, check_launch, check_entry, reserve, after_check, claim_launch_for_dispatch,
  restore, finalize_launch_claim, release_launch_claim, token_ok, strict_mode, grandfather_legacy,
}
use orama_system.Swarm.Calls.{
  Call, issue, claim, finalize, release, apply, run, cached, launches, issues, restores, launched,
}
use orama_system.Swarm.Sound.{IsSound}
use orama_system.Swarm.Launches.{launches-le}
use orama_system.Swarm.Ticket.{Moves, ticket, IsApart}
use orama_system.Swarm.Ticket.Steps.{apply-Moves}
use orama_system.Swarm.Claims.{IsApproved, approve, claim-IsApproved, foreign_release}

abbrev env : Environ
env = record {
  orama_swarm_approval_secret = " key ";
  orama_control_plane_token = "";
  gossip_shared_secret = "other";
  orama_swarm_strict = "";
  orama_swarm_legacy_approve = "0";
  digest = λ v. "print";
  hmac_hex = λ k m. concat k m;
}

abbrev empty : Approvals
empty = record { cache = []; in_flight = [] }

empty-IsSound : IsSound empty
empty-IsSound = record { unique = tt; small = omega arith }

abbrev swarm : Fields
swarm = field "objective" (text "ship") end

abbrev token : String
token = "keyswarm:p1:print"

abbrev granted : Approval
granted = record { preview_id = "p1"; approval_token = token; is_strict = false }

abbrev launch : Call
launch = claim 20 20 "a1" (approve granted swarm)

-- One approval, a launch that is given back, a second that is finished, and a third that is refused.
abbrev history : List Call
history =
    issue 10 10 10 "p1" swarm
    ∷ launch
    ∷ release 30 (some " p1 ") "a1" true
    ∷ launch
    ∷ finalize (some "p1") "a1"
    ∷ launch
    ∷ []

launches_test : launches env "p1" history empty ≡ 2
unfolding launches run apply issue_approval prune_cache evict secret sign fingerprint strip lstrip
    rstrip claim_launch_for_dispatch check_launch check_entry after_check reserve token_ok
    release_launch_claim restore finalize_launch_claim strict_mode launched grandfather_legacy
launches_test = refl

launches-le_example :
    launches env "p1" history empty + cached "p1" (run env history empty)
    ≤ cached "p1" empty + (issues env "p1" history + restores env "p1" history empty)
launches-le_example = launches-le env history "p1" empty empty-IsSound

abbrev issued_state : Approvals
issued_state = record {
  cache = ("p1", record { fp = "print"; ts = 10; stored = swarm }) ∷ [];
  in_flight = [];
}

apply-Moves_example :
    Moves "p1" launch (ticket "p1" issued_state) (ticket "p1" (apply env launch issued_state))
    × IsApart "p1" (apply env launch issued_state)
apply-Moves_example =
    apply-Moves env launch "p1" issued_state (record { unique = (refl, tt); small = omega arith })
      (inl refl) tt

claim-IsApproved_example :
    (e : Entry) × (lookup (strip "p1") issued_state.cache ≡ some e)
    × IsApproved env 20 (approve granted swarm) e
    × (is_expired 20 e.ts ≡ false)
    × (e.stored ≡ swarm)
    × (contains (strip "p1") issued_state.in_flight ≡ false)
unfolding issue_approval secret sign fingerprint strip lstrip rstrip claim_launch_for_dispatch
    check_launch check_entry after_check reserve token_ok grandfather_legacy strict_mode
claim-IsApproved_example =
    claim-IsApproved env 20 20 "a1" (approve granted swarm) issued_state swarm "a1" refl refl

abbrev flying : Approvals
flying = record {
  cache = [];
  in_flight =
      ("p1", record { entry = record { fp = "print"; ts = 10; stored = swarm }; attempt = "a1" })
      ∷ [];
}

foreign_release_example :
    let s' = release_launch_claim 30 (some "p1") "a2" true flying in
    (s'.cache ≡ [])
    × (lookup (strip "p1") s'.in_flight ≡ none)
    × (finalize_launch_claim (some "p1") "a1" s' ≡ s')
    × ((release_launch_claim 40 (some "p1") "a1" true s').cache ≡ [])
unfolding strip lstrip rstrip
foreign_release_example =
    foreign_release 30 40 (some "p1") "a2" true true
      (record { entry = record { fp = "print"; ts = 10; stored = swarm }; attempt = "a1" }) flying
      refl refl

-- A cache of n previews that were issued one second after another.
abbrev name : ℕ → String
name zero = ""
name (suc n) = concat "x" (name n)

abbrev stamped : ℕ → Entry
stamped n = record { fp = "print"; ts = n; stored = swarm }

abbrev full : ℕ → Dict Entry
full zero = []
full (suc n) = (name n, stamped n) ∷ full n

abbrev crowded : Approvals
crowded = record { cache = full 33; in_flight = [] }
