-- ===== src/Oramaclaw/Pointer/Roundtrip.antt =====
-- `_set_path` of src/oramaclaw/engine.py and `extract_field` of src/oramaclaw/merge.py at one pointer.
use text.Mathlib.TextLemmas.{nil-append, cons-append, append-nil, cons≢nil}
use orama_system.Base.{
  String, ◌≡◌, ◌≢◌, refl, sym, ap, true, false, inl, inr, List, [], ◌∷◌, arith, ◌==◌, eq_iff,
  concat, split, lacks, select, replace_of_lacks, Bool-cases,
}
use orama_system.Oramaclaw.Json.{
  Value, null, obj, Fields, end, get_field, put_field, get_field-put_field_self,
}
use orama_system.Oramaclaw.Pointer.{
  slash, tilde, slash_char, unescape, step, walk, tokens_of, extract_field, child, set_parts,
  is_part, set_path, starts_with_slash, or_null,
}

-- The pointer with these tokens.
unfoldable pub pointer : List String → String
pointer [] = ""
pointer (t ∷ ts) = String.◌∷◌ slash_char (concat t (pointer ts))

-- A token that is not empty and holds no slash.
pub record IsToken (t : String) : Type 0 where
  pub nonempty : (t == "") ≡ false
  pub no_slash : lacks slash t ≡ true

abbrev pub AllTokens : List String → Type 0
AllTokens [] = Unit
AllTokens (t ∷ ts) = IsToken t × AllTokens ts

-- No token holds an escape.
abbrev pub Unescaped : List String → Type 0
Unescaped [] = Unit
Unescaped (t ∷ ts) = (lacks tilde t ≡ true) × Unescaped ts

split-concat :
    (t r h : String) (hs : List String)
    → lacks slash t ≡ true
    → split slash r ≡ h ∷ hs
    → split slash (concat t r) ≡ concat t h ∷ hs
split-concat String.[] r h hs l e = rw (nil-append r, nil-append h) e
split-concat (String.◌∷◌ c t) r h hs l e =
    rw (cons-append c t r, cons-append c t h) (ground (arith, split-concat t r h hs))

split-pointer : (ts : List String) → AllTokens ts → split slash (pointer ts) ≡ "" ∷ ts
unfolding pointer
split-pointer [] a = refl
split-pointer (t ∷ ts) a =
    rw (split-concat t (pointer ts) "" ts a.0.no_slash (split-pointer ts a.1))
      (rw (append-nil t) refl)

select-is_part : (ts : List String) → AllTokens ts → select is_part ts ≡ ts
select-is_part [] a = refl
select-is_part (t ∷ ts) a = rw (a.0.nonempty, select-is_part ts a.1) refl

unescape_of_lacks : (t : String) → lacks tilde t ≡ true → unescape t ≡ t
unfolding unescape
unescape_of_lacks t l = rw (replace_of_lacks _ _ _ t l) (replace_of_lacks _ _ _ t l)

step-put_field :
    (t : String) (v : Value) (fs : Fields)
    → lacks tilde t ≡ true
    → step (obj (put_field t v fs)) t ≡ v
unfolding step
step-put_field t v fs l = rw (unescape_of_lacks t l) (ap or_null (get_field-put_field_self t v fs))

walk-set_parts :
    (t : String) (ts : List String) (v : Value) (fs : Fields)
    → Unescaped (t ∷ ts)
    → walk (obj (set_parts (t ∷ ts) v fs)) (t ∷ ts) ≡ v
unfolding walk set_parts
walk-set_parts t [] v fs u = step-put_field t v fs u.0
walk-set_parts t (s ∷ ts) v fs u =
    rw (step-put_field t (obj (set_parts (s ∷ ts) v (child t fs))) fs u.0)
      (walk-set_parts s ts v (child t fs) u.1)

starts_with_slash-pointer :
    (t : String) (ts : List String) → starts_with_slash (pointer (t ∷ ts)) ≡ true
unfolding starts_with_slash pointer
starts_with_slash-pointer t ts = refl

tokens_of-pointer :
    (t : String) (ts : List String) → AllTokens (t ∷ ts) → tokens_of (pointer (t ∷ ts)) ≡ t ∷ ts
tokens_of-pointer t ts a =
    unfold tokens_of in rw (starts_with_slash-pointer t ts) (rw (split-pointer (t ∷ ts) a) refl)

pointer-ne-empty : (t : String) (ts : List String) → (pointer (t ∷ ts) == "") ≡ false
unfolding pointer
pointer-ne-empty t ts = elim (Bool-cases (pointer (t ∷ ts) == "")) [
  | inl same ↦ absurd (cons≢nil ((eq_iff (pointer (t ∷ ts)) "").0 same))
  | inr differs ↦ differs
]

extract_field-pointer :
    (config : Value) (t : String) (ts : List String)
    → AllTokens (t ∷ ts)
    → extract_field config (pointer (t ∷ ts)) ≡ walk config (t ∷ ts)
unfolding extract_field
extract_field-pointer config t ts a =
    rw (pointer-ne-empty t ts) (rw (tokens_of-pointer t ts a) refl)

set_path-pointer :
    (patch : Fields) (t : String) (ts : List String) (v : Value)
    → AllTokens (t ∷ ts)
    → set_path patch (pointer (t ∷ ts)) v ≡ set_parts (t ∷ ts) v patch
unfolding set_path
set_path-pointer patch t ts v a =
    rw (split-pointer (t ∷ ts) a) (ap (λ ps. set_parts ps v patch) (select-is_part (t ∷ ts) a))

-- A value written into the patch at a pointer of one or more non-empty tokens, which hold no `/` and no
-- `~`, is the value that is read back at that pointer, whatever the patch held before.
pub extract_field-set_path :
    (patch : Fields) (t : String) (ts : List String) (v : Value)
    → AllTokens (t ∷ ts)
    → Unescaped (t ∷ ts)
    → extract_field (obj (set_path patch (pointer (t ∷ ts)) v)) (pointer (t ∷ ts)) ≡ v
extract_field-set_path patch t ts v a u =
    rw (set_path-pointer patch t ts v a, extract_field-pointer _ t ts a)
      (walk-set_parts t ts v patch u)

step_unwritten : (t : String) (v : Value) → unescape t ≢ t → step (obj (put_field t v end)) t ≡ null
unfolding step get_field put_field
step_unwritten t v ne = elim (Bool-cases (t == unescape t)) [
  | inl same ↦ absurd (ne (sym ((eq_iff t (unescape t)).0 same)))
  | inr differs ↦ rw differs refl
]

-- `_set_path` does not unescape: a pointer of one token that an escape changes is written under its
-- escaped spelling, so reading it back from the patch finds nothing.
pub escaped_is_lost :
    (t : String) (v : Value)
    → IsToken t
    → unescape t ≢ t
    → extract_field (obj (set_path end (pointer (t ∷ [])) v)) (pointer (t ∷ [])) ≡ null
unfolding walk set_parts
escaped_is_lost t v a ne =
    rw (set_path-pointer end t [] v (a, tt), extract_field-pointer _ t [] (a, tt))
      (step_unwritten t v ne)
