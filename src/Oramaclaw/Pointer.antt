-- ===== src/Oramaclaw/Pointer.antt =====
-- JSON pointers: `extract_field` and `_spec_value` of src/oramaclaw/merge.py, which read a document,
-- and `_set_path` of src/oramaclaw/engine.py, which writes into the patch.
pub mod Roundtrip
use Prim.Native.Char.{Char, code}
use Prim.Native.String
use orama_system.Base.{
  ℕ, zero, suc, ◌+◌, ◌-◌, ◌*◌, String, Bool, true, false, not, ◌&&◌, ◌||◌, Option, none, some, List,
  [], ◌∷◌, ltb, leb, nat_eq, if◌then◌else◌, ◌==◌, concat, split, replace, codes, drop, select,
  get_last?, is_nonempty, prefix,
}
use orama_system.Oramaclaw.Json.{
  Value, null, arr, obj, Items, Fields, end, get_field, put_field, get_item,
}
use orama_system.Base.{ℤ, pos, negsuc}

abbrev pub slash : ℕ
slash = b'/'

abbrev pub tilde : ℕ
tilde = b'~'

is_space : ℕ → Bool
is_space c = nat_eq c 32 || (leb 9 c && leb c 13)

is_digit : ℕ → Bool
is_digit c = leb b'0' c && leb c b'9'

lstrip : List ℕ → List ℕ
lstrip [] = []
lstrip (c ∷ cs) = if is_space c then lstrip cs else c ∷ cs

rstrip : List ℕ → List ℕ
rstrip [] = []
rstrip (c ∷ cs) =
    let rest = rstrip cs in if is_space c && not (is_nonempty rest) then [] else c ∷ rest

-- Digits, with single underscores between them; `after` is whether a digit stands just before.
digit_run : ℕ → Bool → List ℕ → Option ℕ
digit_run acc after [] = if after then some acc else none
digit_run acc after (c ∷ cs) =
    let next = digit_run (acc * 10 + (c - b'0')) true cs in
    let skipped = digit_run acc false cs in
    if is_digit c then next else if nat_eq c b'_' && after then skipped else none

negate : ℕ → ℤ
negate zero = pos 0
negate (suc n) = negsuc n

signed : List ℕ → Option ℤ
signed [] = none
signed (c ∷ cs) =
    if nat_eq c b'-'
    then elim (digit_run 0 false cs) [ none ↦ none | some n ↦ some (negate n) ]
    else elim (digit_run 0 false (if nat_eq c b'+' then cs else c ∷ cs)) [
      | none ↦ none
      | some n ↦ some (pos n)
    ]

-- Python's `int(token)` on ASCII text; `none` is `ValueError`.
unfoldable pub int_of : String → Option ℤ
unfolding is_space is_digit lstrip rstrip digit_run negate signed
int_of token = signed (rstrip (lstrip (codes token)))

abbrev pub slash_char : Char
slash_char = "/"

abbrev pub tilde_char : Char
tilde_char = "~"

-- `raw_token.replace("~1", "/").replace("~0", "~")`
unfoldable pub unescape : String → String
unescape raw = replace tilde b'0' tilde_char (replace tilde b'1' slash_char raw)

abbrev pub or_null : Option Value → Value
or_null none = null
or_null (some v) = v

-- `current[int(token)]`, with `None` for what is no index of the list.
item_at : Option ℤ → Items → Value
item_at none xs = null
item_at (some (negsuc _)) xs = null
item_at (some (pos i)) xs = or_null (get_item i xs)

-- One round of the loop of `extract_field`: the value under a token.
unfoldable pub step : Value → String → Value
unfolding item_at
step (obj fs) raw = or_null (get_field (unescape raw) fs)
step (arr xs) raw = item_at (int_of (unescape raw)) xs
step _ raw = null

-- The loop. A `return None` inside it is a `null` that every later step keeps.
unfoldable pub walk : Value → List String → Value
walk current [] = current
walk current (raw ∷ tokens) = walk (step current raw) tokens

starts_with_slash : String → Bool
starts_with_slash p = prefix 1 p == "/"

-- `json_pointer.split("/")[1:]` of a pointer that gets a leading slash if it has none.
unfoldable pub tokens_of : String → List String
unfolding starts_with_slash
tokens_of p = drop 1 (split slash (if starts_with_slash p then p else concat "/" p))

unfoldable pub extract_field : Value → String → Value
extract_field config json_pointer =
    if json_pointer == "" then config else walk config (tokens_of json_pointer)

-- `s.rstrip("/")`
rstrip_slash : String → String
rstrip_slash String.[] = ""
rstrip_slash (String.◌∷◌ c s) =
    let rest = rstrip_slash s in
    if nat_eq (code c) slash && (rest == "") then "" else String.◌∷◌ c rest

-- `json_pointer.rstrip("/").split("/")[-1]`
unfoldable pub leaf_of : String → String
unfolding rstrip_slash
leaf_of p = elim (get_last? (split slash (rstrip_slash p))) [ none ↦ "" | some t ↦ t ]

abbrev pub is_null : Value → Bool
is_null null = true
is_null _ = false

-- `_spec_value`: the nested layout, or the value under the pointer's last token.
unfoldable pub spec_value : Fields → String → Value
spec_value spec json_pointer =
    let nested = extract_field (obj spec) json_pointer in
    if is_null nested && not (json_pointer == "")
    then elim (get_field (leaf_of json_pointer) spec) [ none ↦ nested | some v ↦ v ]
    else nested

-- `cursor.get(part)` if that is a dict, and a new dict otherwise.
child : String → Fields → Fields
child part fs = elim (get_field part fs) [ some (obj gs) ↦ gs | _ ↦ end ]

unfoldable pub set_parts : List String → Value → Fields → Fields
unfolding child
set_parts [] value patch = patch
set_parts (part ∷ []) value patch = put_field part value patch
set_parts (part ∷ next ∷ parts) value patch =
    put_field part (obj (set_parts (next ∷ parts) value (child part patch))) patch

abbrev is_part : String → Bool
is_part p = not (p == "")

-- `_set_path`: empty parts are left out, and nothing is unescaped.
unfoldable pub set_path : Fields → String → Value → Fields
set_path patch managed_path value =
    set_parts (select is_part (split slash managed_path)) value patch
