-- ===== src/Swarm/Prune.antt =====
-- What `_prune_cache` of src/orama_system/swarm_approval.py keeps.
use orama_system.Base.{
  ℕ, zero, suc, ◌≤◌, String, ◌≡◌, refl, sym, ◌∙◌, ap, subst, Bool, true, false, not, none, some, [],
  ◌∷◌, inl, inr, ◌⊎◌, ltb, arith, if◌then◌else◌, ◌==◌, eq_iff, Dict, lookup, remove, length,
  length-remove, lookup-remove, UniqueKeys, UniqueKeys-select, lookup-select-some, length-select-le,
  select, Bool-cases,
}
use orama_system.Swarm.{
  Entry, Approvals, max_cache_size, is_expired, oldest_from, evict, prune_cache,
}

-- The least time among `t` and the entries'.
abbrev least : ℕ → Dict Entry → ℕ
least t [] = t
least t ((j, e) ∷ rest) = least (if ltb e.ts t then e.ts else t) rest

least-le : (t : ℕ) (d : Dict Entry) → least t d ≤ t
least-le t [] = omega arith
least-le t ((j, e) ∷ rest) = ground (arith, least-le (if ltb e.ts t then e.ts else t) rest)

least-le_entry :
    (t : ℕ) (d : Dict Entry) (j : String) (f : Entry) → lookup j d ≡ some f → least t d ≤ f.ts
least-le_entry t [] j f e = cc
least-le_entry t ((i, g) ∷ rest) j f e =
    let t' = if ltb g.ts t then g.ts else t in
    ground (arith, least-le_entry t' rest j f, least-le t' rest)

lookup_cons :
    (j k : String) (g v : Entry) (d : Dict Entry)
    → lookup j d ≡ none
    → lookup k d ≡ some v
    → lookup k ((j, g) ∷ d) ≡ some v
lookup_cons j k g v d e f = ground (arith, eq_iff j k)

-- The id `o` and its time `l` are those of the start, or of an entry.
abbrev IsFound : String → ℕ → Dict Entry → String → ℕ → Type 0
IsFound k t d o l = ((o ≡ k) × (l ≡ t)) ⊎ ((v : Entry) × (lookup o d ≡ some v) × (v.ts ≡ l))

IsFound-cons_hit :
    (k : String) (t : ℕ) (j : String) (g : Entry) (d : Dict Entry) (o : String) (l : ℕ)
    → lookup j d ≡ none
    → IsFound j g.ts d o l
    → IsFound k t ((j, g) ∷ d) o l
IsFound-cons_hit k t j g d o l e (inl (p, q)) = inr (g, ground (arith, eq_iff j o), sym q)
IsFound-cons_hit k t j g d o l e (inr (v, p, q)) = inr (v, lookup_cons j o g v d e p, q)

IsFound-cons_miss :
    (k : String) (t : ℕ) (j : String) (g : Entry) (d : Dict Entry) (o : String) (l : ℕ)
    → lookup j d ≡ none
    → IsFound k t d o l
    → IsFound k t ((j, g) ∷ d) o l
IsFound-cons_miss k t j g d o l e (inl p) = inl p
IsFound-cons_miss k t j g d o l e (inr (v, p, q)) = inr (v, lookup_cons j o g v d e p, q)

oldest_from-IsFound :
    (k : String) (t : ℕ) (d : Dict Entry)
    → UniqueKeys d
    → lookup k d ≡ none
    → IsFound k t d (oldest_from k t d) (least t d)
oldest_from-IsFound k t [] u e = inl (refl, refl)
oldest_from-IsFound k t ((j, g) ∷ rest) u e =
    let P = λ (b : Bool).
      IsFound k t ((j, g) ∷ rest) (oldest_from (if b then j else k) (if b then g.ts else t) rest)
        (least (if b then g.ts else t) rest) in
    elim (Bool-cases (ltb g.ts t)) [
      | inl b ↦
          subst P (sym b)
            (IsFound-cons_hit k t j g rest _ _ u.0 (oldest_from-IsFound j g.ts rest u.1 u.0))
      | inr b ↦
          subst P (sym b) (
            IsFound-cons_miss k t j g rest _ _ u.0
              (oldest_from-IsFound k t rest u.1 (ground arith)))
    ]

-- The oldest entry is one of the cache, and none is older.
oldest-Entry :
    (k : String) (e : Entry) (d : Dict Entry)
    → UniqueKeys ((k, e) ∷ d)
    → (v : Entry) × (lookup (oldest_from k e.ts d) ((k, e) ∷ d) ≡ some v) × (v.ts ≡ least e.ts d)
oldest-Entry k e d u = elim (oldest_from-IsFound k e.ts d u.1 u.0) [
  | inl (o, l) ↦ (e, ground (arith, eq_iff k (oldest_from k e.ts d)), sym l)
  | inr (v, f, l) ↦ (v, lookup_cons k (oldest_from k e.ts d) e v d u.0 f, l)
]

least-le_lookup :
    (k : String) (e : Entry) (d : Dict Entry) (j : String) (f : Entry)
    → lookup j ((k, e) ∷ d) ≡ some f
    → least e.ts d ≤ f.ts
least-le_lookup k e d j f h = ground (arith, least-le e.ts d, least-le_entry e.ts d j f)

-- The rounds given are enough for the loop to end.
length-evict-le :
    (n : ℕ) (c : Dict Entry) → UniqueKeys c → length c ≤ n → length (evict n c) ≤ max_cache_size
unfolding evict
length-evict-le n [] u h = omega arith
length-evict-le zero ((k, e) ∷ d) u h = elim h [ ]
length-evict-le (suc n) ((k, e) ∷ d) u h =
    let o = oldest_from k e.ts d in
    let c = (k, e) ∷ d in
    let (v, f, _) = oldest-Entry k e d u in
    let shorter = length-remove o v c f in
    ground (
      arith,
      length-evict-le n (remove o c) (UniqueKeys-select (λ x. not (x.0 == o)) c u) (omega arith),
    )

UniqueKeys-evict : (n : ℕ) (c : Dict Entry) → UniqueKeys c → UniqueKeys (evict n c)
unfolding evict
UniqueKeys-evict n [] u = tt
UniqueKeys-evict zero ((k, e) ∷ d) u = u
UniqueKeys-evict (suc n) ((k, e) ∷ d) u =
    let o = oldest_from k e.ts d in
    let c : Dict Entry = (k, e) ∷ d in
    let rest = evict n (remove o c) in
    let kept : UniqueKeys rest =
      UniqueKeys-evict n (remove o c) (UniqueKeys-select (λ x. not (x.0 == o)) c u) in
    elim (Bool-cases (ltb max_cache_size (length c))) [
      | inl b ↦ subst (λ (t : Bool). UniqueKeys (if t then rest else c)) (sym b) kept
      | inr b ↦ subst (λ (t : Bool). UniqueKeys (if t then rest else c)) (sym b) u
    ]

keep_through :
    (o j : String) (c : Dict Entry) (f : Entry)
    → lookup j (remove o c) ≡ (if o == j then none else lookup j c)
    → lookup j (remove o c) ≡ some f
    → lookup j c ≡ some f
keep_through o j c f r h = ground arith

-- What is left was there.
lookup-evict :
    (n : ℕ) (c : Dict Entry) (j : String) (f : Entry)
    → lookup j (evict n c) ≡ some f
    → lookup j c ≡ some f
unfolding evict
lookup-evict n [] j f h = h
lookup-evict zero ((k, e) ∷ d) j f h = h
lookup-evict (suc n) ((k, e) ∷ d) j f h =
    let o = oldest_from k e.ts d in
    let c : Dict Entry = (k, e) ∷ d in
    let ih = lookup-evict n (remove o c) j f in
    let r = lookup-remove o j c in
    elim (Bool-cases (ltb max_cache_size (length c))) [
      | inl b ↦
          keep_through o j c f r (
            ih
              (subst (λ (t : Bool). lookup j (if t then evict n (remove o c) else c) ≡ some f) b h))
      | inr b ↦ subst (λ (t : Bool). lookup j (if t then evict n (remove o c) else c) ≡ some f) b h
    ]

pub evict_small : (n : ℕ) (c : Dict Entry) → length c ≤ max_cache_size → evict n c ≡ c
unfolding evict
evict_small n [] h = refl
evict_small zero ((k, e) ∷ d) h = refl
evict_small (suc n) ((k, e) ∷ d) h = ground arith

not_found :
    (i : String) (e f : Entry) (c : Dict Entry)
    → lookup i c ≡ some e
    → lookup i c ≡ none
    → e.ts ≤ f.ts
not_found i e f c h g = cc

same_entry :
    (o i : String) (v e : Entry) (c : Dict Entry)
    → o == i ≡ true
    → lookup o c ≡ some v
    → lookup i c ≡ some e
    → v ≡ e
same_entry o i v e c p h g = ground (arith, eq_iff o i)

-- An evicted entry is no newer than any that stays.
evict_newest :
    (n : ℕ) (c : Dict Entry) (i : String) (e : Entry) (j : String) (f : Entry)
    → UniqueKeys c
    → lookup i c ≡ some e
    → lookup i (evict n c) ≡ none
    → lookup j (evict n c) ≡ some f
    → e.ts ≤ f.ts
unfolding evict
evict_newest n [] i e j f u h g k = not_found i e f [] h g
evict_newest zero ((k₀, e₀) ∷ d) i e j f u h g k = not_found i e f ((k₀, e₀) ∷ d) h g
evict_newest (suc n) ((k₀, e₀) ∷ d) i e j f u h g k =
    let o = oldest_from k₀ e₀.ts d in
    let c : Dict Entry = (k₀, e₀) ∷ d in
    let rest = evict n (remove o c) in
    let (v, found, time) = oldest-Entry k₀ e₀ d u in
    let unique = UniqueKeys-select (λ x. not (x.0 == o)) c u in
    elim (Bool-cases (ltb max_cache_size (length c))) [
      | inl b ↦
          let g' = subst (λ (t : Bool). lookup i (if t then rest else c) ≡ none) b g in
          let k' = subst (λ (t : Bool). lookup j (if t then rest else c) ≡ some f) b k in
          let was =
            keep_through o j c f (lookup-remove o j c) (lookup-evict n (remove o c) j f k') in
          elim (Bool-cases (o == i)) [
            | inl same ↦ ground (
              arith,
              least-le_lookup k₀ e₀ d j f was,
              eq_iff o i,
              ap (λ (x : Entry). x.ts) (same_entry o i v e c same found h),
            )
            | inr other ↦
                evict_newest n (remove o c) i e j f unique
                  (lookup-remove o i c ∙ rw (other, h) refl) g' k'
          ]
      | inr b ↦
          not_found i e f c h (subst (λ (t : Bool). lookup i (if t then rest else c) ≡ none) b g)
    ]

abbrev fresh_at : ℕ → String × Entry → Bool
fresh_at now item = not (is_expired now item.1.ts)

lookup-fresh :
    (now : ℕ) (d : Dict Entry) (j : String) (f : Entry)
    → lookup j (select (fresh_at now) d) ≡ some f
    → is_expired now f.ts ≡ false
lookup-fresh now [] j f h = cc
lookup-fresh now ((i, g) ∷ d) j f h = ground (arith, lookup-fresh now d j f, eq_iff i j)

fresh-lookup :
    (now : ℕ) (d : Dict Entry) (j : String) (f : Entry)
    → lookup j d ≡ some f
    → is_expired now f.ts ≡ false
    → lookup j (select (fresh_at now) d) ≡ some f
fresh-lookup now [] j f h e = cc
fresh-lookup now ((i, g) ∷ d) j f h e = ground (arith, fresh-lookup now d j f, eq_iff i j)

pub lookup-prune_cache :
    (now : ℕ) (s : Approvals) (j : String) (f : Entry)
    → UniqueKeys s.cache
    → lookup j (prune_cache now s).cache ≡ some f
    → (lookup j s.cache ≡ some f) × (is_expired now f.ts ≡ false)
unfolding prune_cache
lookup-prune_cache now s j f u h =
    let fresh = select (fresh_at now) s.cache in
    let kept = lookup-evict (length fresh) fresh j f h in
    (lookup-select-some (fresh_at now) j f s.cache u kept, lookup-fresh now s.cache j f kept)

pub UniqueKeys-prune_cache :
    (now : ℕ) (s : Approvals) → UniqueKeys s.cache → UniqueKeys (prune_cache now s).cache
unfolding prune_cache
UniqueKeys-prune_cache now s u =
    let fresh = select (fresh_at now) s.cache in
    UniqueKeys-evict (length fresh) fresh (UniqueKeys-select (fresh_at now) s.cache u)

-- What pruning leaves was in the cache as it is and has not expired. A preview that goes though it has not
-- expired is no newer than any that stays.
pub prune_cache_lem :
    (now : ℕ) (s : Approvals) (i : String) (e : Entry) (j : String) (f : Entry)
    → UniqueKeys s.cache
    → lookup i s.cache ≡ some e
    → is_expired now e.ts ≡ false
    → lookup i (prune_cache now s).cache ≡ none
    → lookup j (prune_cache now s).cache ≡ some f
    → (lookup j s.cache ≡ some f) × (is_expired now f.ts ≡ false) × (e.ts ≤ f.ts)
unfolding prune_cache
prune_cache_lem now s i e j f u h x g k =
    let fresh = select (fresh_at now) s.cache in
    let unique = UniqueKeys-select (fresh_at now) s.cache u in
    let kept = lookup-evict (length fresh) fresh j f k in
    (
      lookup-select-some (fresh_at now) j f s.cache u kept,
      lookup-fresh now s.cache j f kept,
      evict_newest (length fresh) fresh i e j f unique (fresh-lookup now s.cache i e h x) g k,
    )

pub length-prune_cache-le :
    (now : ℕ) (s : Approvals)
    → UniqueKeys s.cache
    → length (prune_cache now s).cache ≤ max_cache_size
unfolding prune_cache
length-prune_cache-le now s u =
    let fresh = select (fresh_at now) s.cache in
    length-evict-le (length fresh) fresh (UniqueKeys-select (fresh_at now) s.cache u) (omega arith)

-- A cache that is not over its size loses its expired previews and no other.
pub prune_cache_small :
    (now : ℕ) (s : Approvals) (j : String) (f : Entry)
    → length s.cache ≤ max_cache_size
    → lookup j s.cache ≡ some f
    → is_expired now f.ts ≡ false
    → lookup j (prune_cache now s).cache ≡ some f
unfolding prune_cache
prune_cache_small now s j f h e x =
    let fresh = select (fresh_at now) s.cache in
    let small : length fresh ≤ max_cache_size =
      omega (arith, length-select-le (fresh_at now) s.cache) in
    rw (evict_small (length fresh) fresh small) (fresh-lookup now s.cache j f e x)
