-- ===== src/Oramaclaw/Schema/Credentials.antt =====
-- The credential guard of src/oramaclaw/schema.py.
use orama_system.Base.{String, ◌≡◌, true, false, arith, ◌↔◌, inl, inr, Bool-cases}
use orama_system.Oramaclaw.Json.{
  Value, null, boolean, num, text, arr, obj, Items, nil, cons, Fields, end, field,
}
use orama_system.Oramaclaw.Schema.{is_forbidden, has_no_credentials, fields_clean, items_clean}

-- A key of the document, at any depth of its dicts and lists.
mutual
  pub data KeyIn (k : String) : Value → Type 0 where
    in_dict : {fs : Fields} → KeyInFields k fs → KeyIn k (obj fs)
    in_list : {xs : Items} → KeyInItems k xs → KeyIn k (arr xs)

  pub data KeyInFields (k : String) : Fields → Type 0 where
    at_key : {v : Value} {fs : Fields} → KeyInFields k (field k v fs)
    under : {j : String} {v : Value} {fs : Fields} → KeyIn k v → KeyInFields k (field j v fs)
    later : {j : String} {v : Value} {fs : Fields} → KeyInFields k fs → KeyInFields k (field j v fs)

  pub data KeyInItems (k : String) : Items → Type 0 where
    in_item : {x : Value} {xs : Items} → KeyIn k x → KeyInItems k (cons x xs)
    beyond : {x : Value} {xs : Items} → KeyInItems k xs → KeyInItems k (cons x xs)

-- A document that passes has no forbidden key.
mutual
  unfolding has_no_credentials

  clean-KeyIn :
      (k : String) (v : Value) → has_no_credentials v ≡ true → KeyIn k v → is_forbidden k ≡ false
  clean-KeyIn k (obj fs) h (in_dict o) = clean-KeyInFields k fs h o
  clean-KeyIn k (arr xs) h (in_list o) = clean-KeyInItems k xs h o
  clean-KeyIn k (text _) h o = elim o [ ]
  clean-KeyIn k (boolean _) h o = elim o [ ]
  clean-KeyIn k (num _) h o = elim o [ ]
  clean-KeyIn k null h o = elim o [ ]

  clean-KeyInFields :
      (k : String) (fs : Fields)
      → fields_clean fs ≡ true
      → KeyInFields k fs
      → is_forbidden k ≡ false
  clean-KeyInFields k end h o = elim o [ ]
  clean-KeyInFields k (field _ v fs) h at_key = ground (arith, h)
  clean-KeyInFields k (field j v fs) h (under o) = clean-KeyIn k v (ground (arith, h)) o
  clean-KeyInFields k (field j v fs) h (later o) = clean-KeyInFields k fs (ground (arith, h)) o

  clean-KeyInItems :
      (k : String) (xs : Items) → items_clean xs ≡ true → KeyInItems k xs → is_forbidden k ≡ false
  clean-KeyInItems k nil h o = elim o [ ]
  clean-KeyInItems k (cons x xs) h (in_item o) = clean-KeyIn k x (ground (arith, h)) o
  clean-KeyInItems k (cons x xs) h (beyond o) = clean-KeyInItems k xs (ground (arith, h)) o

-- A forbidden key of a document.
abbrev pub Leak : Value → Type 0
Leak v = (k : String) × ((is_forbidden k ≡ true) × KeyIn k v)

abbrev LeakFields : Fields → Type 0
LeakFields fs = (k : String) × ((is_forbidden k ≡ true) × KeyInFields k fs)

abbrev LeakItems : Items → Type 0
LeakItems xs = (k : String) × ((is_forbidden k ≡ true) × KeyInItems k xs)

-- A document that does not pass has a forbidden key.
mutual
  unfolding has_no_credentials

  leak : (v : Value) → has_no_credentials v ≡ false → Leak v
  leak (obj fs) h = let (k, (f, o)) = leak_fields fs h in (k, (f, in_dict o))
  leak (arr xs) h = let (k, (f, o)) = leak_items xs h in (k, (f, in_list o))
  leak null h = ground (arith, h)
  leak (boolean b) h = ground (arith, h)
  leak (num z) h = ground (arith, h)
  leak (text t) h = ground (arith, h)

  leak_fields : (fs : Fields) → fields_clean fs ≡ false → LeakFields fs
  leak_fields end h = ground (arith, h)
  leak_fields (field k v fs) h = elim (Bool-cases (is_forbidden k)) [
    | inl f ↦ (k, (f, at_key))
    | inr f ↦ elim (Bool-cases (has_no_credentials v)) [
      | inl c ↦ (let (j, (g, o)) = leak_fields fs (ground (arith, h, f, c)) in (j, (g, later o)))
      | inr c ↦ (let (j, (g, o)) = leak v c in (j, (g, under o)))
    ]
  ]

  leak_items : (xs : Items) → items_clean xs ≡ false → LeakItems xs
  leak_items nil h = ground (arith, h)
  leak_items (cons x xs) h = elim (Bool-cases (has_no_credentials x)) [
    | inl c ↦ (let (j, (g, o)) = leak_items xs (ground (arith, h, c)) in (j, (g, beyond o)))
    | inr c ↦ (let (j, (g, o)) = leak x c in (j, (g, in_item o)))
  ]

-- The guard raises exactly if a forbidden key stands in the document, at any depth of its dicts and lists.
pub has_no_credentials_iff : (v : Value) → (has_no_credentials v ≡ false) ↔ Leak v
has_no_credentials_iff v = (
  leak v,
  λ l. elim (Bool-cases (has_no_credentials v)) [
    | inl c ↦ (let f = clean-KeyIn l.0 v c l.1.1 in ground (arith, f, l.1.0))
    | inr c ↦ c
  ],
)
