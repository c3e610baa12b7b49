-- ===== src/Oramaclaw/Store/Registry.antt =====
-- The ownership ledger of src/oramaclaw/store.py: what a write to one field does to every field, and when
-- two fields share an entry.
use Prim.Native.Char.{Char}
use mathlib.Core.Path.{ap₂}
use text.Mathlib.TextLemmas.{nil-append, cons-append, cons-eq-cons}
use mathlib.Core.Bool.{false≢true}
use orama_system.Base.{
  String, ◌≡◌, refl, sym, ◌∙◌, true, inl, inr, Option, none, some, arith, if◌then◌else◌, ◌==◌,
  eq_iff, concat, lacks, lookup-insert, Bool-cases, subst,
}
use orama_system.Oramaclaw.Json.{Value}
use orama_system.Oramaclaw.Pointer.{slash, slash_char}
use orama_system.Oramaclaw.Store.{
  ControlStore, Ownership, entry_key, new_entry, load_registry, record_ownership, field_fingerprint,
  get_auto_weave_override,
}

abbrev fingerprint? : Option Ownership → Option String
fingerprint? none = none
fingerprint? (some e) = some e.fingerprint

module _ (fingerprint : Value → String) where
  -- A recorded write gives its own entry the fingerprint of the value, and leaves the fingerprints of all
  -- other entries as they were.
  pub field_fingerprint-record_ownership :
      (m k p : String) (v : Value) (stamp k' p' : String) (s : ControlStore)
      → field_fingerprint k' p' (record_ownership fingerprint m k p v stamp s) ≡ (
          if entry_key k p == entry_key k' p'
          then some (fingerprint v)
          else field_fingerprint k' p' s)
  unfolding field_fingerprint record_ownership
  field_fingerprint-record_ownership m k p v stamp k' p' s = ground (
    arith,
    lookup-insert (entry_key k p) (entry_key k' p') (new_entry fingerprint m k p v stamp)
        (load_registry s),
  )

  -- A recorded write forgets the auto-weave override of its entry, and keeps all others.
  pub override-record_ownership :
      (m k p : String) (v : Value) (stamp k' p' : String) (s : ControlStore)
      → get_auto_weave_override k' p' (record_ownership fingerprint m k p v stamp s)
        ≡ (if entry_key k p == entry_key k' p' then none else get_auto_weave_override k' p' s)
  unfolding get_auto_weave_override record_ownership
  override-record_ownership m k p v stamp k' p' s = ground (
    arith,
    lookup-insert (entry_key k p) (entry_key k' p') (new_entry fingerprint m k p v stamp)
        (load_registry s),
  )

slash_clash : (c : Char) (k : String) → lacks slash (String.◌∷◌ c k) ≡ true → slash_char ≡ c → ⊥
slash_clash c k l e =
    false≢true (subst (λ (d : Char). lacks slash (String.◌∷◌ d k) ≡ true) (sym e) l)

lacks_tail : (c : Char) (k : String) → lacks slash (String.◌∷◌ c k) ≡ true → lacks slash k ≡ true
lacks_tail c k l = ground arith

-- A key that two resources can share only if they agree: no slash in the resource key, and a path that
-- begins with a slash.
head_split :
    (k k' p p' : String)
    → lacks slash k ≡ true
    → lacks slash k' ≡ true
    → concat k (String.◌∷◌ slash_char p) ≡ concat k' (String.◌∷◌ slash_char p')
    → (k ≡ k') × (p ≡ p')
head_split String.[] String.[] p p' l l' e =
    (refl, (cons-eq-cons.0 (sym (nil-append _) ∙ e ∙ nil-append _)).1)
head_split String.[] (String.◌∷◌ c k') p p' l l' e =
    absurd (slash_clash c k' l' (cons-eq-cons.0 (sym (nil-append _) ∙ e ∙ cons-append c k' _)).0)
head_split (String.◌∷◌ c k) String.[] p p' l l' e =
    absurd (slash_clash c k l (cons-eq-cons.0 (sym (nil-append _) ∙ sym e ∙ cons-append c k _)).0)
head_split (String.◌∷◌ c k) (String.◌∷◌ d k') p p' l l' e =
    let (same, rest) = cons-eq-cons.0 (sym (cons-append c k _) ∙ e ∙ cons-append d k' _) in
    let (keys, paths) = head_split k k' p p' (lacks_tail c k l) (lacks_tail d k' l') rest in
    (ap₂ String.◌∷◌ same keys, paths)

-- Two well-formed fields have one entry only if they are one field.
entry_key_injective :
    (k k' p p' : String)
    → lacks slash k ≡ true
    → lacks slash k' ≡ true
    → entry_key k (String.◌∷◌ slash_char p) ≡ entry_key k' (String.◌∷◌ slash_char p')
    → (k ≡ k') × (p ≡ p')
entry_key_injective = head_split

-- A write to one field of one resource leaves the recorded fingerprint of every other field as it was, if
-- no resource key holds a slash and both pointers begin with one.
pub record_ownership_frame :
    (fingerprint : Value → String) (m k p : String) (v : Value) (stamp k' p' : String)
    (s : ControlStore)
    → lacks slash k ≡ true
    → lacks slash k' ≡ true
    → ¬ ((k ≡ k') × (p ≡ p'))
    → field_fingerprint k'
        (String.◌∷◌ slash_char p')
        (record_ownership fingerprint m k (String.◌∷◌ slash_char p) v stamp s)
      ≡ field_fingerprint k' (String.◌∷◌ slash_char p') s
record_ownership_frame fingerprint m k p v stamp k' p' s l l' ne =
    let here = entry_key k (String.◌∷◌ slash_char p) in
    let there = entry_key k' (String.◌∷◌ slash_char p') in
    field_fingerprint-record_ownership fingerprint m k (String.◌∷◌ slash_char p) v stamp k'
      (String.◌∷◌ slash_char p') s
    ∙ elim (Bool-cases (here == there)) [
      | inl same ↦ absurd (ne (head_split k k' p p' l l' ((eq_iff here there).0 same)))
      | inr differs ↦ rw differs refl
    ]
