-- ===== src/Base/Text.antt =====
-- Python strings: concatenation, `split`, `replace` and prefixes of a given length.
use Prim.Native.Nat.{ℕ, zero, suc}
use Prim.Native.Char.{Char, code}
use Prim.Native.String
use Prim.Native.String.{String}
use mathlib.Core.Path.{◌≡◌, refl}
use mathlib.Core.Bool.{Bool, true, false, ◌&&◌}
use mathlib.Core.List.{List, [], ◌∷◌}
use native.Mathlib.Omega.{arith}
use orama_system.Base.Tests.{nat_eq, if◌then◌else◌}

-- `s + t`
abbrev pub concat : String → String → String
concat s t = String.◌++◌ s t

-- `s[:n]`
abbrev pub prefix : ℕ → String → String
prefix zero s = ""
prefix (suc n) String.[] = ""
prefix (suc n) (String.◌∷◌ c s) = String.◌∷◌ c (prefix n s)

abbrev pub onto_head : Char → List String → List String
onto_head c [] = String.◌∷◌ c "" ∷ []
onto_head c (t ∷ ts) = String.◌∷◌ c t ∷ ts

-- `s.split(sep)` for a separator of one character.
abbrev pub split : ℕ → String → List String
split sep String.[] = "" ∷ []
split sep (String.◌∷◌ c s) =
    let rest = split sep s in if nat_eq (code c) sep then "" ∷ rest else onto_head c rest

-- Whether no character of the text has that code.
abbrev pub lacks : ℕ → String → Bool
lacks sep String.[] = true
lacks sep (String.◌∷◌ c s) = if nat_eq (code c) sep then false else lacks sep s

-- `s.replace(p, r)` for a pattern of two characters and a replacement of one.
abbrev pub replace : ℕ → ℕ → Char → String → String
replace a b r String.[] = ""
replace a b r (String.◌∷◌ c String.[]) = String.◌∷◌ c ""
replace a b r (String.◌∷◌ c (String.◌∷◌ d s)) =
    let after = replace a b r s in
    let along = replace a b r (String.◌∷◌ d s) in
    if nat_eq (code c) a && nat_eq (code d) b then String.◌∷◌ r after else String.◌∷◌ c along

abbrev pub codes : String → List ℕ
codes String.[] = []
codes (String.◌∷◌ c s) = code c ∷ codes s

-- A text without the pattern's first character is not changed.
pub replace_of_lacks : (a b : ℕ) (r : Char) (s : String) → lacks a s ≡ true → replace a b r s ≡ s
replace_of_lacks a b r String.[] h = refl
replace_of_lacks a b r (String.◌∷◌ c String.[]) h = refl
replace_of_lacks a b r (String.◌∷◌ c (String.◌∷◌ d s)) h =
    ground (arith, replace_of_lacks a b r (String.◌∷◌ d s))

pub split_of_lacks : (sep : ℕ) (s : String) → lacks sep s ≡ true → split sep s ≡ s ∷ []
split_of_lacks sep String.[] h = refl
split_of_lacks sep (String.◌∷◌ c s) h = ground (arith, split_of_lacks sep s)
