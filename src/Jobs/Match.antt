-- ===== src/Jobs/Match.antt =====
-- The regular expressions of bin/orama-system/skills/hermes-harness/scripts/mac_job_queue.py and
-- win_job_queue.py, on the codes of ASCII texts.
use orama_system.Base.{
  ℕ, ◌+◌, ◌*◌, ◌-◌, String, Bool, false, ◌&&◌, ◌||◌, Option, none, some, List, [], ◌∷◌, leb, nat_eq,
  if◌then◌else◌, codes, is_space, starts_with, occurs_in, any,
}

abbrev is_digit : ℕ → Bool
is_digit c = leb 48 c && leb c 57

-- What follows a literal at the start of a text.
abbrev after : List ℕ → List ℕ → Option (List ℕ)
after [] s = some s
after (a ∷ p) [] = none
after (a ∷ p) (b ∷ s) = if nat_eq a b then after p s else none

-- `\d+` and then the literal
unfoldable pub digits_then : List ℕ → List ℕ → Bool
digits_then p [] = false
digits_then p (c ∷ s) = let more = digits_then p s in is_digit c && (starts_with p s || more)

-- A literal, `\d+` and a literal, somewhere in the text.
unfoldable pub search_numbered : List ℕ → List ℕ → List ℕ → Bool
unfolding digits_then
search_numbered p p' [] = false
search_numbered p p' (b ∷ s) =
    elim (after p (b ∷ s)) [ some rest ↦ digits_then p' rest | none ↦ false ]
    || search_numbered p p' s

-- One of the literals, somewhere in the text.
abbrev pub search_any : List String → List ℕ → Bool
search_any words s = any (λ w. occurs_in (codes w) s) words

abbrev skip_star : List ℕ → List ℕ
skip_star [] = []
skip_star (c ∷ s) = if nat_eq c 42 then s else c ∷ s

unfoldable pub skip_spaces : List ℕ → List ℕ
skip_spaces [] = []
skip_spaces (c ∷ s) = let rest = skip_spaces s in if is_space c then rest else c ∷ s

-- The number that the digits at the start go on to, after those read so far.
unfoldable pub read_digits : ℕ → List ℕ → ℕ
read_digits n [] = n
read_digits n (c ∷ s) =
    let more = read_digits (n * 10 + (c - 48)) s in if is_digit c then more else n

abbrev read_int : List ℕ → Option ℕ
read_int [] = none
read_int (c ∷ s) = if is_digit c then some (read_digits 0 (c ∷ s)) else none

abbrev after_colon : List ℕ → Option ℕ
after_colon [] = none
after_colon (c ∷ s) = if nat_eq c 58 then read_int (skip_spaces s) else none

-- `Priority\*?\*?:\s*(\d+)` at the start of the text
abbrev priority_here : Option (List ℕ) → Option ℕ
priority_here none = none
priority_here (some s) = after_colon (skip_star (skip_star s))

-- Its first match; two stars may stand before it, or none.
unfoldable pub search_priority : List ℕ → Option ℕ
unfolding skip_spaces read_digits
search_priority [] = none
search_priority (c ∷ s) = elim (priority_here (after (codes "Priority") (c ∷ s))) [
  | some n ↦ some n
  | none ↦ search_priority s
]
