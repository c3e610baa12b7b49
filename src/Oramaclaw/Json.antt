-- ===== src/Oramaclaw/Json.antt =====
-- The JSON documents that src/oramaclaw/*.py read and write, as Python values: `null` is `None`, and a
-- dict keeps its order of insertion. Numbers are integers.
use orama_system.Base.{
  ℕ, zero, suc, String, ◌≡◌, Bool, true, false, ◌&&◌, Option, none, some, arith, nat_eq,
  if◌then◌else◌, ◌==◌, ℤ, pos, int_eq, eq_iff, eq_refl,
}

mutual
  pub data Fields : Type 0 where
    field : String → Value → Fields → Fields
    end : Fields

  pub data Value : Type 0 where
    text : String → Value
    boolean : Bool → Value
    obj : Fields → Value
    arr : Items → Value
    num : ℤ → Value
    null : Value

  pub data Items : Type 0 where
    cons : Value → Items → Items
    nil : Items

-- `d.get(k)`, with the key's absence kept apart from a `null`.
unfoldable pub get_field : String → Fields → Option Value
get_field k end = none
get_field k (field j v fs) = if j == k then some v else get_field k fs

-- `d[k] = v`
unfoldable pub put_field : String → Value → Fields → Fields
put_field k v end = field k v end
put_field k v (field j w fs) = if j == k then field j v fs else field j w (put_field k v fs)

abbrev pub is_empty : Fields → Bool
is_empty end = true
is_empty (field _ _ _) = false

abbrev pub size : Fields → ℕ
size end = 0
size (field _ _ fs) = suc (size fs)

-- `xs[i]` for an index in range.
unfoldable pub get_item : ℕ → Items → Option Value
get_item i nil = none
get_item zero (cons x xs) = some x
get_item (suc i) (cons x xs) = get_item i xs

-- Python compares booleans as the integers 0 and 1.
abbrev pub number? : Value → Option ℤ
number? (boolean true) = some (pos 1)
number? (boolean false) = some (pos 0)
number? (num z) = some z
number? _ = none

abbrev pub number_eq : ℤ → Option ℤ → Bool
number_eq z none = false
number_eq z (some w) = int_eq z w

-- Python's `==`: dicts are equal if they have as many keys, and equal values at each.
unfoldable mutual
  pub value_eq : Value → Value → Bool
  value_eq null w = elim w [ null ↦ true | _ ↦ false ]
  value_eq (boolean b) w = number_eq (if b then pos 1 else pos 0) (number? w)
  value_eq (num z) w = number_eq z (number? w)
  value_eq (text s) w = elim w [ text t ↦ s == t | _ ↦ false ]
  value_eq (arr xs) w = elim w [ arr ys ↦ items_eq xs ys | _ ↦ false ]
  value_eq (obj fs) w = elim w [
    | obj gs ↦ nat_eq (size fs) (size gs) && fields_in fs gs
    | _ ↦ false
  ]

  pub items_eq : Items → Items → Bool
  items_eq nil ys = elim ys [ nil ↦ true | _ ↦ false ]
  items_eq (cons x xs) ys = elim ys [ cons y zs ↦ value_eq x y && items_eq xs zs | _ ↦ false ]

  pub fields_in : Fields → Fields → Bool
  fields_in end gs = true
  fields_in (field k v fs) gs = elim (get_field k gs) [
    | some w ↦ value_eq v w && fields_in fs gs
    | none ↦ false
  ]

pub get_field-put_field :
    (k j : String) (v : Value) (fs : Fields)
    → get_field j (put_field k v fs) ≡ (if k == j then some v else get_field j fs)
unfolding get_field put_field
get_field-put_field k j v end = ground arith
get_field-put_field k j v (field i w fs) =
    ground (arith, eq_iff k j, eq_iff i k, eq_iff i j, get_field-put_field k j v fs)

pub get_field-put_field_self :
    (k : String) (v : Value) (fs : Fields) → get_field k (put_field k v fs) ≡ some v
get_field-put_field_self k v fs = simp (get_field-put_field, eq_refl)
