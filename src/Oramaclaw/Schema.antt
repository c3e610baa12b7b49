-- ===== src/Oramaclaw/Schema.antt =====
-- src/oramaclaw/schema.py: what a manifest must satisfy. A check
-- returns `false` where the source raises; the messages are left out. `shown` is the text that Python's format
-- gives for a value that is no text.
pub mod Credentials
pub mod Accepted
use orama_system.Base.{
  String, Bool, true, false, not, ◌&&◌, ◌||◌, Option, none, some, List, [], ◌∷◌, if◌then◌else◌, any,
  every, ◌==◌, concat, is_some, ℤ, pos, int_eq,
}
use orama_system.Oramaclaw.Json.{
  Value, null, boolean, num, text, arr, obj, Items, nil, cons, Fields, end, field, get_field,
  value_eq,
}
use orama_system.Oramaclaw.Types.{
  ResourceKind, provider, binding, agent, delegation, execution_policy, profile, kind_value,
  MergePolicy, strict, cooperative, Resource,
}

-- `_FORBIDDEN_SPEC_KEYS`
abbrev pub forbidden_spec_keys : List String
forbidden_spec_keys =
    "apiKey" ∷ "api_key" ∷ "token" ∷ "secret" ∷ "password" ∷ "bearer" ∷ "credential" ∷ "auth_token"
    ∷ "access_token" ∷ []

unfoldable pub is_forbidden : String → Bool
is_forbidden key = any (λ k. k == key) forbidden_spec_keys

-- `_check_no_raw_credentials`
unfoldable mutual
  pub has_no_credentials : Value → Bool
  has_no_credentials (obj fs) = fields_clean fs
  has_no_credentials (arr xs) = items_clean xs
  has_no_credentials _ = true

  pub fields_clean : Fields → Bool
  fields_clean end = true
  fields_clean (field k v fs) = not (is_forbidden k) && (has_no_credentials v && fields_clean fs)

  pub items_clean : Items → Bool
  items_clean nil = true
  items_clean (cons x xs) = has_no_credentials x && items_clean xs

-- `bool(value)`
abbrev pub is_truthy : Value → Bool
is_truthy null = false
is_truthy (boolean b) = b
is_truthy (num z) = not (int_eq z (pos 0))
is_truthy (text t) = not (t == "")
is_truthy (arr nil) = false
is_truthy (arr (cons _ _)) = true
is_truthy (obj end) = false
is_truthy (obj (field _ _ _)) = true

abbrev pub truthy_field : String → Fields → Bool
truthy_field k fs = elim (get_field k fs) [ none ↦ false | some v ↦ is_truthy v ]

abbrev pub required : List String
required = "kind" ∷ "id" ∷ "manager" ∷ "policy" ∷ "spec" ∷ "managed_paths" ∷ []

abbrev pub is_conflict_value : Option Value → Bool
is_conflict_value none = false
is_conflict_value (some v) = value_eq v (text "conflict")

abbrev pub spec_of : Fields → Value
spec_of fs = elim (get_field "spec" fs) [ none ↦ obj end | some v ↦ v ]

-- `version == 1`
abbrev pub is_one : Option Value → Bool
is_one none = false
is_one (some v) = value_eq v (num (pos 1))

module _ (shown : Value → String) where
  abbrev pub text_of : Option Value → String
  text_of none = ""
  text_of (some (text t)) = t
  text_of (some v) = shown v

  -- `f"{res['kind']}:{res['id']}"`
  abbrev pub raw_key : Fields → String
  raw_key fs = concat (text_of (get_field "kind" fs)) (concat ":" (text_of (get_field "id" fs)))

  -- One round of the loop of `_validate_schema`, given the keys seen before.
  unfoldable pub resource_valid : List String → Fields → Bool
  resource_valid seen fs =
      every (λ k. is_some (get_field k fs)) required
      && truthy_field "manager" fs
      && not (any (λ k. k == raw_key fs) seen)
      && not
          (truthy_field "security_topology" fs && not (is_conflict_value (get_field "policy" fs)))
      && has_no_credentials (spec_of fs)

  unfoldable pub resources_valid : List String → Items → Bool
  resources_valid seen nil = true
  resources_valid seen (cons (obj fs) xs) =
      resource_valid seen fs && resources_valid (raw_key fs ∷ seen) xs
  resources_valid seen (cons _ xs) = false

  -- A non-empty list.
  abbrev pub list_valid : Option Value → Bool
  list_valid (some (arr (cons x xs))) = resources_valid [] (cons x xs)
  list_valid _ = false

  -- `_validate_schema`
  unfoldable pub validate_schema : Value → Bool
  validate_schema (obj fs) =
      is_one (get_field "version" fs) && list_valid (get_field "resources" fs)
  validate_schema _ = false
