-- ===== src/Governance/Proofs.antt =====
-- What a proof has to show, src/orama_system/model_governance.py.
use orama_system.Base.{
  ℕ, ◌+◌, ◌≤◌, ◌<◌, String, ◌≡◌, refl, Bool, true, false, not, ◌&&◌, Option, none, some, arith,
  if◌then◌else◌, eq_iff, ◌⊎◌, inl, inr, bool_eq, ltb, leb, is_blank, strip,
}
use orama_system.Governance.{
  LaunchSpec, EscalationProof, text_eq, is_true, is_one_of, allowed_proof_kinds,
  forbidden_proof_kinds, max_token_ttl, named_effort, proof_is_token, token_covers, path_covers,
}

-- The proof is of an accepted kind, is valid now and for a day at most, and is of this launch: the same
-- model, effort, speed and scope, and the same path where it names one.
pub record IsProven (now : ℕ) (scope : Option String) (spec : LaunchSpec) (p : EscalationProof)
    : Type 0 where
  pub accepted : is_one_of p.kind allowed_proof_kinds ≡ true
  pub not_refused : is_one_of p.kind forbidden_proof_kinds ≡ false
  pub not_expired : now < p.expires_at
  pub not_long : p.expires_at ≤ now + max_token_ttl
  pub same_model : p.model_id ≡ spec.launch_id
  pub same_effort : text_eq p.effort (named_effort spec) ≡ true
  pub same_speed : bool_eq (is_true p.fast) (is_true spec.fast) ≡ true
  pub same_path : (p.path ≡ none) ⊎ (p.path ≡ some spec.path)
  pub same_scope : text_eq p.scope scope ≡ true

path_same :
    (o : Option String) (path : String) → path_covers o path ≡ true → (o ≡ none) ⊎ (o ≡ some path)
path_same none path h = inl refl
path_same (some p) path h = inr (ground (arith, eq_iff p path))

all_hold :
    (a b c d e f : Bool)
    → (a && b && c && d && e && f) ≡ true
    → (a ≡ true) × (b ≡ true) × (c ≡ true) × (d ≡ true) × (e ≡ true) × (f ≡ true)
all_hold a b c d e f h = ground arith

fresh_holds :
    (refused accepted blank : Bool) (now expires : ℕ)
    → (if refused
        then false
        else if not accepted
        then false
        else if blank
        then false
        else if ltb (now + max_token_ttl) expires
        then false
        else not (leb expires now))
      ≡ true
    → (refused ≡ false) × (accepted ≡ true) × (now < expires) × (expires ≤ now + max_token_ttl)
fresh_holds true accepted blank now expires h = absurd (ground arith)
fresh_holds false false blank now expires h = absurd (ground arith)
fresh_holds false true true now expires h = absurd (ground arith)
fresh_holds false true false now expires h = (refl, refl, ground arith, ground arith)

pub token_covers-IsProven :
    (now : ℕ) (scope : Option String) (spec : LaunchSpec) (p : EscalationProof)
    → token_covers now scope spec (some p) ≡ true
    → IsProven now scope spec p
unfolding token_covers proof_is_token
token_covers-IsProven now scope spec p h =
    let (fresh, model, effort, speed, path, same) = all_hold _ _ _ _ _ _ h in
    let (refused, accepted, later, soon) =
      fresh_holds (is_one_of p.kind forbidden_proof_kinds) (is_one_of p.kind allowed_proof_kinds)
        (is_blank (strip p.reference)) now p.expires_at fresh in
    record {
      accepted = accepted;
      not_refused = refused;
      not_expired = later;
      not_long = soon;
      same_model = (eq_iff p.model_id spec.launch_id).0 model;
      same_effort = effort;
      same_speed = speed;
      same_path = path_same p.path spec.path path;
      same_scope = same;
    }
