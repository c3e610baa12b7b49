-- ===== src/Oramaclaw/Store/Pending.antt =====
-- The pending resolutions of src/oramaclaw/store.py: staging and resolving them by id.
use orama_system.Base.{
  String, ◌≡◌, refl, ◌∙◌, Bool, not, inl, inr, Option, none, some, List, [], ◌∷◌, ◌++◌, arith,
  if◌then◌else◌, ◌==◌, eq_iff, eq_refl, select, any, Bool-cases, is_some,
}
use orama_system.Oramaclaw.Types.{PendingResolution}
use orama_system.Oramaclaw.Store.{
  ControlStore, PendingRecord, load_pending, serialise_pending, has_id, find_id, add_pending,
  mark_resolved, resolve_pending, pending_by_id,
}

-- No resolution id stands twice.
abbrev pub UniqueIds : List PendingRecord → Type 0
UniqueIds [] = Unit
UniqueIds (r ∷ rs) = (find_id r.resolution_id rs ≡ none) × UniqueIds rs

find_id-others :
    (i j : String) (rs : List PendingRecord)
    → find_id j (select (λ r. not (has_id i r)) rs) ≡ (if i == j then none else find_id j rs)
find_id-others i j [] = ground arith
find_id-others i j (r ∷ rs) =
    ground
      (arith, find_id-others i j rs, eq_iff r.resolution_id i, eq_iff r.resolution_id j, eq_iff i j)

find_id-snoc :
    (j : String) (rs : List PendingRecord) (r : PendingRecord)
    → find_id j (rs ++ r ∷ [])
      ≡ elim (find_id j rs) [ some x ↦ some x | none ↦ if has_id j r then some r else none ]
find_id-snoc j [] r = refl
find_id-snoc j (x ∷ rs) r = ground (arith, find_id-snoc j rs r)

-- Staging a resolution makes it the record of its id, whatever was staged under that id before, and leaves
-- the records of all other ids alone.
pub pending_by_id-add_pending :
    (p : PendingResolution) (j : String) (s : ControlStore)
    → pending_by_id j (add_pending p s)
      ≡ (if p.resolution_id == j then some (serialise_pending p) else pending_by_id j s)
unfolding pending_by_id add_pending
pending_by_id-add_pending p j s =
    find_id-snoc j (select (λ r. not (has_id p.resolution_id r)) (load_pending s))
      (serialise_pending p)
    ∙ ground (arith, find_id-others p.resolution_id j (load_pending s))

pub find_id-select :
    (keep : PendingRecord → Bool) (i : String) (rs : List PendingRecord)
    → find_id i rs ≡ none
    → find_id i (select keep rs) ≡ none
find_id-select keep i [] e = refl
find_id-select keep i (r ∷ rs) e = ground (arith, find_id-select keep i rs)

UniqueIds-select :
    (keep : PendingRecord → Bool) (rs : List PendingRecord)
    → UniqueIds rs
    → UniqueIds (select keep rs)
UniqueIds-select keep [] u = tt
UniqueIds-select keep (r ∷ rs) u = elim (Bool-cases (keep r)) [
  | inl k ↦ rw k (find_id-select keep r.resolution_id rs u.0, UniqueIds-select keep rs u.1)
  | inr k ↦ rw k (UniqueIds-select keep rs u.1)
]

UniqueIds-snoc :
    (rs : List PendingRecord) (r : PendingRecord)
    → UniqueIds rs
    → find_id r.resolution_id rs ≡ none
    → UniqueIds (rs ++ r ∷ [])
UniqueIds-snoc [] r u e = (refl, tt)
UniqueIds-snoc (x ∷ rs) r u e = (
  find_id-snoc x.resolution_id rs r
      ∙ ground
          (arith, eq_iff r.resolution_id x.resolution_id, eq_iff x.resolution_id r.resolution_id),
  UniqueIds-snoc rs r u.1 (ground arith),
)

-- Staging a resolution keeps the ids unique.
pub add_pending-UniqueIds :
    (p : PendingResolution) (s : ControlStore)
    → UniqueIds (load_pending s)
    → UniqueIds (load_pending (add_pending p s))
unfolding add_pending
add_pending-UniqueIds p s u =
    let kept = select (λ r. not (has_id p.resolution_id r)) (load_pending s) in
    UniqueIds-snoc kept (serialise_pending p)
      (UniqueIds-select (λ r. not (has_id p.resolution_id r)) (load_pending s) u)
      (find_id-others p.resolution_id p.resolution_id (load_pending s)
        ∙ rw (eq_refl p.resolution_id) refl)

-- ------------------------------------------------------------------ resolve

abbrev pub resolved : String → String → Option PendingRecord → Option PendingRecord
resolved choice stamp none = none
resolved choice stamp (some r) = some (record r { resolved_at = some stamp; chosen = some choice })

find_id-mark_resolved :
    (i choice stamp j : String) (rs : List PendingRecord)
    → find_id j (mark_resolved i choice stamp rs)
      ≡ (if i == j then resolved choice stamp (find_id j rs) else find_id j rs)
unfolding mark_resolved
find_id-mark_resolved i choice stamp j [] = ground arith
find_id-mark_resolved i choice stamp j (r ∷ rs) = ground (
  arith,
  find_id-mark_resolved i choice stamp j rs,
  eq_iff i j,
  eq_iff r.resolution_id i,
  eq_iff r.resolution_id j,
)

pub any-has_id : (i : String) (rs : List PendingRecord) → any (has_id i) rs ≡ is_some (find_id i rs)
any-has_id i [] = refl
any-has_id i (r ∷ rs) = ground (arith, any-has_id i rs)

-- Resolving an id reports whether a record has it. The choice and the time go to that record, and every
-- other id keeps its record.
pub resolve_pending_lem :
    (i choice stamp j : String) (s : ControlStore)
    → let (found, s') = resolve_pending i choice stamp s in
      (found ≡ is_some (pending_by_id i s))
      × (pending_by_id j s'
          ≡ (if i == j then resolved choice stamp (pending_by_id j s) else pending_by_id j s))
unfolding resolve_pending pending_by_id
resolve_pending_lem i choice stamp j s = (
  ground (arith, any-has_id i (load_pending s)),
  ground (
    arith,
    any-has_id i (load_pending s),
    find_id-mark_resolved i choice stamp j (load_pending s),
    eq_iff i j,
  ),
)
