-- ===== src/Oramaclaw/Schema/Accepted.antt =====
-- What holds of the resources of a manifest that src/oramaclaw/schema.py accepts.
use orama_system.Base.{
  String, ◌≡◌, refl, Bool, true, false, not, ◌&&◌, some, List, [], ◌∷◌, any, every, ◌==◌, is_some,
  Option, none, arith, and-true, ◌≢◌,
}
use orama_system.Oramaclaw.Json.{Value, arr, obj, Items, nil, cons, Fields, get_field}
use orama_system.Oramaclaw.Schema.{
  has_no_credentials, truthy_field, required, is_conflict_value, spec_of, raw_key, resource_valid,
  resources_valid, list_valid, is_one, validate_schema,
}

-- No text stands twice.
abbrev pub Unique : List String → Type 0
Unique [] = Unit
Unique (k ∷ ks) = (any (λ j. k == j) ks ≡ false) × Unique ks

module _ (shown : Value → String) where
  abbrev pub keys_of : Items → List String
  keys_of nil = []
  keys_of (cons (obj fs) xs) = raw_key shown fs ∷ keys_of xs
  keys_of (cons _ xs) = keys_of xs

-- The resource has all fields that are read later, a manager, no credential in its spec, and the conflict
-- policy if it belongs to the security topology.
pub record IsSafe (fs : Fields) : Type 0 where
  pub complete : every (λ k. is_some (get_field k fs)) required ≡ true
  pub managed : truthy_field "manager" fs ≡ true
  pub no_secret : has_no_credentials (spec_of fs) ≡ true
  pub escalated :
      (truthy_field "security_topology" fs && not (is_conflict_value (get_field "policy" fs)))
      ≡ false

-- The items are resources, and each is safe.
pub data AllSafe : Items → Type 0 where
  none_left : AllSafe nil
  safe_and : {fs : Fields} {xs : Items} → IsSafe fs → AllSafe xs → AllSafe (cons (obj fs) xs)

record Valid (shown : Value → String) (seen : List String) (fs : Fields) : Type 0 where
  safe : IsSafe fs
  unseen : any (λ k. k == raw_key shown fs) seen ≡ false

five_true :
    (a b c d e : Bool)
    → (a && b && not c && not d && e) ≡ true
    → (a ≡ true) × (b ≡ true) × (c ≡ false) × (d ≡ false) × (e ≡ true)
five_true a b c d e h = ground (arith, h)

module _ (shown : Value → String) where
  resource_valid-Valid :
      (seen : List String) (fs : Fields) → resource_valid shown seen fs ≡ true → Valid shown seen fs
  unfolding resource_valid
  resource_valid-Valid seen fs h =
      let t =
        five_true (every (λ k. is_some (get_field k fs)) required) (truthy_field "manager" fs)
          (any (λ k. k == raw_key shown fs) seen)
          (truthy_field "security_topology" fs && not (is_conflict_value (get_field "policy" fs)))
          (has_no_credentials (spec_of fs)) h in
      record {
        safe = record { complete = t.0; managed = t.1; no_secret = t.4; escalated = t.3 };
        unseen = t.2;
      }

  -- None of the keys was seen.
  abbrev all_unseen : List String → List String → Bool
  all_unseen seen ks = every (λ k. not (any (λ j. j == k) seen)) ks

  unseen-tail :
      (j : String) (seen ks : List String)
      → all_unseen (j ∷ seen) ks ≡ true
      → all_unseen seen ks ≡ true
  unseen-tail j seen [] h = refl
  unseen-tail j seen (k ∷ ks) h = ground (arith, h, unseen-tail j seen ks)

  unseen-head :
      (j : String) (seen ks : List String)
      → all_unseen (j ∷ seen) ks ≡ true
      → any (λ k. j == k) ks ≡ false
  unseen-head j seen [] h = refl
  unseen-head j seen (k ∷ ks) h = ground (arith, h, unseen-head j seen ks)

  resources_valid-unseen :
      (seen : List String) (xs : Items)
      → resources_valid shown seen xs ≡ true
      → all_unseen seen (keys_of shown xs) ≡ true
  unfolding resources_valid
  resources_valid-unseen seen nil h = refl
  resources_valid-unseen seen (cons (obj fs) xs) h =
      let (a, b) =
        and-true (resource_valid shown seen fs) (resources_valid shown (raw_key shown fs ∷ seen) xs)
          h in
      let v = resource_valid-Valid seen fs a in
      let r = resources_valid-unseen (raw_key shown fs ∷ seen) xs b in
      ground (arith, v.unseen, unseen-tail (raw_key shown fs) seen (keys_of shown xs) r)
  resources_valid-unseen seen (cons _ xs) h = ground (arith, h)

  resources_valid-Unique :
      (seen : List String) (xs : Items)
      → resources_valid shown seen xs ≡ true
      → Unique (keys_of shown xs)
  unfolding resources_valid
  resources_valid-Unique seen nil h = tt
  resources_valid-Unique seen (cons (obj fs) xs) h =
      let (a, b) =
        and-true (resource_valid shown seen fs) (resources_valid shown (raw_key shown fs ∷ seen) xs)
          h in
      (
        unseen-head (raw_key shown fs) seen (keys_of shown xs)
            (resources_valid-unseen (raw_key shown fs ∷ seen) xs b),
        resources_valid-Unique (raw_key shown fs ∷ seen) xs b,
      )
  resources_valid-Unique seen (cons _ xs) h = ground (arith, h)

  resources_valid-AllSafe :
      (seen : List String) (xs : Items) → resources_valid shown seen xs ≡ true → AllSafe xs
  unfolding resources_valid
  resources_valid-AllSafe seen nil h = none_left
  resources_valid-AllSafe seen (cons (obj fs) xs) h =
      let (a, b) =
        and-true (resource_valid shown seen fs) (resources_valid shown (raw_key shown fs ∷ seen) xs)
          h in
      safe_and (resource_valid-Valid seen fs a).safe
        (resources_valid-AllSafe (raw_key shown fs ∷ seen) xs b)
  resources_valid-AllSafe seen (cons _ xs) h = ground (arith, h)

  -- An accepted manifest has version 1 and at least one resource, no two resources with one key, and every
  -- resource is safe.
  pub record IsAccepted (fs : Fields) (xs : Items) : Type 0 where
    pub version : is_one (get_field "version" fs) ≡ true
    pub nonempty : xs ≢ nil
    pub unique : Unique (keys_of shown xs)
    pub all_safe : AllSafe xs

  listed :
      (o : Option Value)
      → list_valid shown o ≡ true
      → (x : Value) × (xs : Items) × (o ≡ some (arr (cons x xs)))
        × (resources_valid shown [] (cons x xs) ≡ true)
  listed (some (arr (cons x xs))) h = (x, xs, refl, h)
  listed (some (arr nil)) h = absurd (ground (arith, h))
  listed (some (obj fs)) h = absurd (ground (arith, h))
  listed (some _) h = absurd (ground (arith, h))
  listed none h = absurd (ground (arith, h))

  -- A manifest that passes the checks has version 1, a non-empty list of resources with pairwise different keys,
  -- and each of these has all required fields, a manager and no forbidden key in its spec, and the policy
  -- "conflict" if it sets `security_topology`.
  pub validate_schema-IsAccepted :
      (fs : Fields)
      → validate_schema shown (obj fs) ≡ true
      → (xs : Items) × (get_field "resources" fs ≡ some (arr xs)) × IsAccepted fs xs
  unfolding validate_schema
  validate_schema-IsAccepted fs h =
      let (a, b) =
        and-true (is_one (get_field "version" fs)) (list_valid shown (get_field "resources" fs))
          h in
      let (x, xs, e, c) = listed (get_field "resources" fs) b in
      (
        cons x xs,
        e,
        record {
          version = a;
          nonempty = λ n. cc n;
          unique = resources_valid-Unique [] (cons x xs) c;
          all_safe = resources_valid-AllSafe [] (cons x xs) c;
        },
      )
