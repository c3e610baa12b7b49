-- ===== src/Oramaclaw/Types.antt =====
-- src/oramaclaw/types.py: the public types. Paths of the file system are not modelled.
use orama_system.Base.{
  String, Bool, true, false, ◌&&◌, Option, none, some, List, [], ◌∷◌, bool_eq, ◌==◌,
}
use orama_system.Oramaclaw.Json.{Fields}

pub data ResourceKind : Type 0 where
  provider binding agent delegation execution_policy profile : ResourceKind

-- `kind.value`
abbrev pub kind_value : ResourceKind → String
kind_value provider = "provider"
kind_value binding = "binding"
kind_value agent = "agent"
kind_value delegation = "delegation"
kind_value execution_policy = "execution_policy"
kind_value profile = "profile"

pub data MergePolicy : Type 0 where
  strict cooperative conflict : MergePolicy

pub record Resource : Type 0 where
  pub kind : ResourceKind
  pub identifier : String
  pub manager : String
  pub spec : Fields
  pub managed_paths : List String
  pub policy : MergePolicy

-- `choices` is the same constant wherever a conflict is made.
pub record Conflict : Type 0 where
  pub resource_key : String
  pub manager : String
  pub managed_path : String
  pub base_fingerprint : Option String
  pub observed_fingerprint : Option String
  pub desired_fingerprint : String
  pub security_topology : Bool
  pub choices : List String
  pub resolution_id : String

abbrev pub opt_eq : Option String → Option String → Bool
opt_eq none none = true
opt_eq (some a) (some b) = a == b
opt_eq _ _ = false

abbrev pub texts_eq : List String → List String → Bool
texts_eq [] [] = true
texts_eq (a ∷ as_) (b ∷ bs) = (a == b) && texts_eq as_ bs
texts_eq _ _ = false

-- The equality of the frozen dataclass, field by field.
unfoldable pub conflict_eq : Conflict → Conflict → Bool
conflict_eq c d =
    (c.resource_key == d.resource_key)
    && (c.manager == d.manager)
    && (c.managed_path == d.managed_path)
    && opt_eq c.base_fingerprint d.base_fingerprint
    && opt_eq c.observed_fingerprint d.observed_fingerprint
    && (c.desired_fingerprint == d.desired_fingerprint)
    && bool_eq c.security_topology d.security_topology
    && texts_eq c.choices d.choices
    && (c.resolution_id == d.resolution_id)

pub record PendingResolution : Type 0 where
  pub resolution_id : String
  pub conflict : Conflict
  pub transaction_id : String
  pub created_at : String
  pub resolved_at : Option String
  pub chosen : Option String

-- The states of a journal record; the last six are those of a `ControlResult`.
pub data TxState : Type 0 where
  prepared applied_unverified : TxState
  committed auto_woven conflicted needs_input gateway_unavailable failed : TxState

pub record ControlResult : Type 0 where
  pub transaction_id : String
  pub state : TxState
  pub applied : List String
  pub auto_woven : List String
  pub conflicts : List Conflict
  pub warnings : List String

pub record ControlManifest : Type 0 where
  pub resources : List Resource
