-- ===== src/Base/Dicts.antt =====
-- A Python dict with text keys, in insertion order.
use Prim.Native.String.{String}
use Prim.Native.Nat.{suc, ◌≤◌, ◌<◌}
use mathlib.Core.Path.{◌≡◌, refl}
use mathlib.Core.Logic.{inl, inr}
use mathlib.Core.Bool.{Bool, false, not}
use mathlib.Core.Option.{Option, none, some}
use mathlib.Core.List.{List, [], ◌∷◌}
use native.Mathlib.Omega.{arith}
use text.Mathlib.Text.{◌==◌}
use text.Mathlib.TextEquality.{eq_iff}
use text.Mathlib.TextPositions.{eq_refl}
use orama_system.Base.Tests.{if◌then◌else◌, is_some, Bool-cases}
use orama_system.Base.Lists.{length, select}

abbrev pub Dict {ℓ} : Type ℓ → Type ℓ
Dict V = List (String × V)

module _ {ℓ} {V : Type ℓ} where
  -- `d.get(k)`
  abbrev pub lookup : String → Dict V → Option V
  lookup k [] = none
  lookup k ((j, v) ∷ d) = if j == k then some v else lookup k d

  -- `k in d`
  abbrev pub contains : String → Dict V → Bool
  contains k d = is_some (lookup k d)

  -- `d[k] = v`: a key that is there keeps its place.
  abbrev pub insert : String → V → Dict V → Dict V
  insert k v [] = (k, v) ∷ []
  insert k v ((j, w) ∷ d) = if j == k then (j, v) ∷ d else (j, w) ∷ insert k v d

  pub lookup-insert :
      (k j : String) (v : V) (d : Dict V)
      → lookup j (insert k v d) ≡ (if k == j then some v else lookup j d)
  lookup-insert k j v [] = refl
  lookup-insert k j v ((i, w) ∷ d) =
      ground (arith, eq_iff k j, eq_iff i k, eq_iff i j, lookup-insert k j v d)

module _ {ℓ} {V : Type ℓ} where
  pub lookup-insert_self : (k : String) (v : V) (d : Dict V) → lookup k (insert k v d) ≡ some v
  lookup-insert_self k v d = simp (lookup-insert, eq_refl)

module _ {ℓ} {V : Type ℓ} where
  -- `d.pop(k, None)`, for its effect: a dict has a key once.
  abbrev pub remove : String → Dict V → Dict V
  remove k d = select (λ e. not (e.0 == k)) d

  pub lookup-remove :
      (k j : String) (d : Dict V) → lookup j (remove k d) ≡ (if k == j then none else lookup j d)
  lookup-remove k j [] = ground arith
  lookup-remove k j ((i, v) ∷ d) =
      ground (arith, lookup-remove k j d, eq_iff i k, eq_iff i j, eq_iff k j)

  -- No key stands twice.
  abbrev pub UniqueKeys : Dict V → Type ℓ
  UniqueKeys [] = Unit
  UniqueKeys ((k, v) ∷ d) = (lookup k d ≡ none) × UniqueKeys d

  pub lookup-select :
      (keep : String × V → Bool) (k : String) (d : Dict V)
      → lookup k d ≡ none
      → lookup k (select keep d) ≡ none
  lookup-select keep k [] e = refl
  lookup-select keep k ((j, v) ∷ d) e = ground (arith, lookup-select keep k d)

  pub UniqueKeys-select :
      (keep : String × V → Bool) (d : Dict V) → UniqueKeys d → UniqueKeys (select keep d)
  UniqueKeys-select keep [] u = tt
  UniqueKeys-select keep ((j, v) ∷ d) u = elim (Bool-cases (keep (j, v))) [
    | inl e ↦ rw e (lookup-select keep j d u.0, UniqueKeys-select keep d u.1)
    | inr e ↦ rw e (UniqueKeys-select keep d u.1)
  ]

module _ {ℓ} {V : Type ℓ} where
  lookup-insert_other :
      (k j : String) (v : V) (d : Dict V)
      → lookup j d ≡ none
      → k == j ≡ false
      → lookup j (insert k v d) ≡ none
  lookup-insert_other k j v d e h = ground (arith, lookup-insert k j v d)

  pub UniqueKeys-insert :
      (k : String) (v : V) (d : Dict V) → UniqueKeys d → UniqueKeys (insert k v d)
  UniqueKeys-insert k v [] u = (refl, tt)
  UniqueKeys-insert k v ((j, w) ∷ d) u = elim (Bool-cases (j == k)) [
    | inl e ↦ rw e u
    | inr e ↦ rw e (
      lookup-insert_other k j v d u.0 (ground (arith, eq_iff j k, eq_iff k j)),
      UniqueKeys-insert k v d u.1,
    )
  ]

  -- Every lookup in a selection is one in the whole.
  pub lookup-select-some :
      (keep : String × V → Bool) (k : String) (v : V) (d : Dict V)
      → UniqueKeys d
      → lookup k (select keep d) ≡ some v
      → lookup k d ≡ some v
  lookup-select-some keep k v [] u e = e
  lookup-select-some keep k v ((j, w) ∷ d) u e =
      ground (arith, lookup-select-some keep k v d, lookup-select keep j d, eq_iff j k, u.0, u.1)

  pub length-remove-le : (k : String) (d : Dict V) → length (remove k d) ≤ length d
  length-remove-le k [] = omega arith
  length-remove-le k ((j, v) ∷ d) = ground (arith, length-remove-le k d)

  -- Taking out a key that is there makes the dict smaller.
  pub length-remove :
      (k : String) (v : V) (d : Dict V) → lookup k d ≡ some v → length (remove k d) < length d
  length-remove k v [] e = cc
  length-remove k v ((j, w) ∷ d) e = ground (arith, length-remove k v d, length-remove-le k d)

  pub length-insert-le : (k : String) (v : V) (d : Dict V) → length (insert k v d) ≤ suc (length d)
  length-insert-le k v [] = omega arith
  length-insert-le k v ((j, w) ∷ d) = ground (arith, length-insert-le k v d)
