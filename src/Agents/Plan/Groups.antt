-- ===== src/Agents/Plan/Groups.antt =====
-- The batches of `_group_workers` in bin/agents/orchestrator/dispatch_loop.py.
use orama_system.Base.{
  ◌≡◌, refl, String, Bool, true, false, not, ◌&&◌, Option, none, some, List, [], ◌∷◌, ◌++◌,
  if◌then◌else◌, arith, append_assoc, append-nil, eq_iff, sym, ap, subst, ◌∙◌, Option-cases,
  Bool-cases, inl, inr,
}
use orama_system.Agents.Plan.{WorkerSpec, flush, is_group, reset, grouping, group_workers}

abbrev pub flatten : List (List WorkerSpec) → List WorkerSpec
flatten [] = []
flatten (b ∷ bs) = b ++ flatten bs

flatten-append : (xs ys : List (List WorkerSpec)) → flatten (xs ++ ys) ≡ flatten xs ++ flatten ys
flatten-append [] ys = refl
flatten-append (b ∷ xs) ys =
    rw (flatten-append xs ys) (sym (append_assoc b (flatten xs) (flatten ys)))

flatten-flush : (batch : List WorkerSpec) → flatten (flush batch) ≡ batch
flatten-flush [] = refl
flatten-flush (w ∷ ws) = append-nil (w ∷ ws)

grouping-none :
    (b : List WorkerSpec) (g : Option String) (w : WorkerSpec) (ws : List WorkerSpec)
    → w.parallel_group ≡ none
    → grouping b g (w ∷ ws) ≡ flush b ++ (w ∷ []) ∷ grouping [] (reset b g) ws
unfolding grouping
grouping-none b g w ws e = simp (grouping, e)

grouping-some :
    (b : List WorkerSpec) (g : Option String) (w : WorkerSpec) (ws : List WorkerSpec) (k : String)
    → w.parallel_group ≡ some k
    → grouping b g (w ∷ ws) ≡ (
        if is_group k g
        then grouping (b ++ w ∷ []) g ws
        else flush b ++ grouping (w ∷ []) (some k) ws)
unfolding grouping
grouping-some b g w ws k e = simp (grouping, e)

flatten-grouping :
    (batch : List WorkerSpec) (g : Option String) (ws : List WorkerSpec)
    → flatten (grouping batch g ws) ≡ batch ++ ws
unfolding grouping
flatten-grouping batch g [] = flatten-flush batch ∙ sym (append-nil batch)
flatten-grouping batch g (w ∷ ws) = elim (Option-cases w.parallel_group) [
  | inl e ↦
      rw
        (
          grouping-none batch g w ws e,
          flatten-append (flush batch) ((w ∷ []) ∷ grouping [] (reset batch g) ws),
          flatten-flush batch,
          flatten-grouping [] (reset batch g) ws,
        )
        refl
  | inr (k, e) ↦ elim (Bool-cases (is_group k g)) [
    | inl t ↦
        rw (grouping-some batch g w ws k e, t, flatten-grouping (batch ++ w ∷ []) g ws)
          (append_assoc batch (w ∷ []) ws)
    | inr f ↦
        rw
          (
            grouping-some batch g w ws k e,
            f,
            flatten-append (flush batch) (grouping (w ∷ []) (some k) ws),
            flatten-flush batch,
            flatten-grouping (w ∷ []) (some k) ws,
          )
          refl
  ]
]

-- Every worker of a group belongs to it.
pub data AllIn (g : String) : List WorkerSpec → Type 0 where
  nobody : AllIn g []
  also :
      {w : WorkerSpec} {ws : List WorkerSpec}
      → w.parallel_group ≡ some g
      → AllIn g ws
      → AllIn g (w ∷ ws)

-- A batch: one worker without a group, or workers of one group.
pub data IsBatch : List WorkerSpec → Type 0 where
  solo : {w : WorkerSpec} → w.parallel_group ≡ none → IsBatch (w ∷ [])
  shared :
      {w : WorkerSpec} {ws : List WorkerSpec} (g : String) → AllIn g (w ∷ ws) → IsBatch (w ∷ ws)

pub data AllBatches : List (List WorkerSpec) → Type 0 where
  no_batch : AllBatches []
  batch_and :
      {b : List WorkerSpec} {bs : List (List WorkerSpec)}
      → IsBatch b
      → AllBatches bs
      → AllBatches (b ∷ bs)

-- What the loop knows of its variables.
data Ready : List WorkerSpec → Option String → Type 0 where
  unset : Ready [] none
  gathered : {b : List WorkerSpec} (g : String) → AllIn g b → Ready b (some g)

AllIn-snoc :
    {g : String} (b : List WorkerSpec) (w : WorkerSpec)
    → AllIn g b
    → w.parallel_group ≡ some g
    → AllIn g (b ++ w ∷ [])
AllIn-snoc [] w nobody e = also e nobody
AllIn-snoc (x ∷ b) w (also f fs) e = also f (AllIn-snoc b w fs e)

flush-AllBatches :
    (b : List WorkerSpec) (g : Option String) (rest : List (List WorkerSpec))
    → Ready b g
    → AllBatches rest
    → AllBatches (flush b ++ rest)
flush-AllBatches [] g rest r h = h
flush-AllBatches (w ∷ b) none rest r h = elim r [ ]
flush-AllBatches (w ∷ b) (some _) rest (gathered g a) h = batch_and (shared g a) h

reset-Ready : (b : List WorkerSpec) (g : Option String) → Ready b g → Ready [] (reset b g)
reset-Ready [] g r = r
reset-Ready (w ∷ b) none r = elim r [ ]
reset-Ready (w ∷ b) (some g) r = unset

snoc-Ready :
    (b : List WorkerSpec) (w : WorkerSpec) (g : Option String) (k : String)
    → Ready b g
    → w.parallel_group ≡ some k
    → is_group k g ≡ true
    → Ready (b ++ w ∷ []) g
snoc-Ready b w (some _) k (gathered g a) e t =
    gathered g (AllIn-snoc b w a (e ∙ ap some ((eq_iff k g).0 t)))
snoc-Ready b w none k r e t = ground arith

grouping-AllBatches :
    (b : List WorkerSpec) (g : Option String) (ws : List WorkerSpec)
    → Ready b g
    → AllBatches (grouping b g ws)
unfolding grouping
grouping-AllBatches b g [] r =
    subst AllBatches (append-nil (flush b)) (flush-AllBatches b g [] r no_batch)
grouping-AllBatches b g (w ∷ ws) r = elim (Option-cases w.parallel_group) [
  | inl e ↦ rw (grouping-none b g w ws e) (
      flush-AllBatches b g ((w ∷ []) ∷ grouping [] (reset b g) ws) r
        (batch_and (solo e) (grouping-AllBatches [] (reset b g) ws (reset-Ready b g r))))
  | inr (k, e) ↦
      (let fresh = grouping-AllBatches (w ∷ []) (some k) ws (gathered k (also e nobody)) in
        elim (Bool-cases (is_group k g)) [
          | inl t ↦
              rw (grouping-some b g w ws k e, t)
                (grouping-AllBatches (b ++ w ∷ []) g ws (snoc-Ready b w g k r e t))
          | inr f ↦
              rw (grouping-some b g w ws k e, f)
                (flush-AllBatches b g (grouping (w ∷ []) (some k) ws) r fresh)
        ])
]

-- Two neighbouring batches of one group, which should be one batch.
abbrev pub are_split : List WorkerSpec → List WorkerSpec → Bool
are_split (v ∷ _) (w ∷ _) = elim w.parallel_group [
  | none ↦ false
  | some g ↦ is_group g v.parallel_group
]
are_split _ _ = false

-- Whether a batch goes before batches of which the first is not of its group.
abbrev pub is_apart : List WorkerSpec → List (List WorkerSpec) → Bool
is_apart b [] = true
is_apart b (c ∷ cs) = not (are_split b c)

-- No two neighbouring batches are of one group.
abbrev pub is_maximal : List (List WorkerSpec) → Bool
is_maximal [] = true
is_maximal (b ∷ bs) = is_apart b bs && is_maximal bs

are_split-head :
    (c : List WorkerSpec) (v : WorkerSpec) (b : List WorkerSpec)
    → not (are_split c (v ∷ b)) ≡ not (are_split c (v ∷ []))
are_split-head [] v b = refl
are_split-head (x ∷ c) v b = refl

-- What the loop has gathered stands at the head of what it still yields.
is_apart-grouping :
    (c : List WorkerSpec) (v : WorkerSpec) (b : List WorkerSpec) (g : Option String)
    (ws : List WorkerSpec)
    → is_apart c (grouping (v ∷ b) g ws) ≡ not (are_split c (v ∷ []))
unfolding grouping
is_apart-grouping c v b g [] = are_split-head c v b
is_apart-grouping c v b g (w ∷ ws) = elim (Option-cases w.parallel_group) [
  | inl e ↦ rw (grouping-none (v ∷ b) g w ws e) (are_split-head c v b)
  | inr (k, e) ↦ elim (Bool-cases (is_group k g)) [
    | inl t ↦ rw (grouping-some (v ∷ b) g w ws k e, t) (is_apart-grouping c v (b ++ w ∷ []) g ws)
    | inr f ↦ rw (grouping-some (v ∷ b) g w ws k e, f) (are_split-head c v b)
  ]
]

solo-apart :
    (w : WorkerSpec) (bs : List (List WorkerSpec))
    → w.parallel_group ≡ none
    → is_apart (w ∷ []) bs ≡ true
solo-apart w [] e = refl
solo-apart w ([] ∷ bs) e = refl
solo-apart w ((c ∷ cs) ∷ bs) e = elim (Option-cases c.parallel_group) [
  | inl n ↦ rw n refl
  | inr (k, n) ↦ rw (n, e) refl
]

flush-maximal :
    (b : List WorkerSpec) (rest : List (List WorkerSpec))
    → is_apart b rest ≡ true
    → is_maximal rest ≡ true
    → is_maximal (flush b ++ rest) ≡ true
flush-maximal [] rest a m = m
flush-maximal (w ∷ b) rest a m = rw (a, m) refl

-- A worker without a group, or of another one, is apart from what was gathered.
gathered-apart :
    (b : List WorkerSpec) (g : Option String) (w : WorkerSpec) (k : String)
    → Ready b g
    → w.parallel_group ≡ some k
    → is_group k g ≡ false
    → not (are_split b (w ∷ [])) ≡ true
gathered-apart [] g w k r e f = refl
gathered-apart (v ∷ b) none w k r e f = elim r [ ]
gathered-apart (v ∷ b) (some _) w k (gathered g (also h hs)) e f = rw (e, h, f) refl

alone-apart :
    (b : List WorkerSpec) (w : WorkerSpec) (rest : List (List WorkerSpec))
    → w.parallel_group ≡ none
    → is_apart b ((w ∷ []) ∷ rest) ≡ true
alone-apart [] w rest e = refl
alone-apart (v ∷ b) w rest e = rw e refl

grouping-maximal :
    (b : List WorkerSpec) (g : Option String) (ws : List WorkerSpec)
    → Ready b g
    → is_maximal (grouping b g ws) ≡ true
unfolding grouping
grouping-maximal [] g [] r = refl
grouping-maximal (v ∷ b) g [] r = refl
grouping-maximal b g (w ∷ ws) r = elim (Option-cases w.parallel_group) [
  | inl e ↦
      let rest = grouping [] (reset b g) ws in
      let m = grouping-maximal [] (reset b g) ws (reset-Ready b g r) in
      let solo : is_maximal ((w ∷ []) ∷ rest) ≡ true = rw (solo-apart w rest e, m) refl in
      rw (grouping-none b g w ws e)
        (flush-maximal b ((w ∷ []) ∷ rest) (alone-apart b w rest e) solo)
  | inr (k, e) ↦
      let m = grouping-maximal (w ∷ []) (some k) ws (gathered k (also e nobody)) in
      elim (Bool-cases (is_group k g)) [
        | inl t ↦
            rw (grouping-some b g w ws k e, t)
              (grouping-maximal (b ++ w ∷ []) g ws (snoc-Ready b w g k r e t))
        | inr f ↦
            rw (grouping-some b g w ws k e, f)
              (flush-maximal b (grouping (w ∷ []) (some k) ws)
                (is_apart-grouping b w [] (some k) ws ∙ gathered-apart b g w k r e f) m)
      ]
]

pub record IsGrouping (workers : List WorkerSpec) (batches : List (List WorkerSpec)) : Type 0 where
  pub same_order : flatten batches ≡ workers
  pub all_batches : AllBatches batches
  pub maximal : is_maximal batches ≡ true

-- The batches, put together, are the workers in their order, each exactly once, every batch is one worker
-- without a group or a non-empty list of workers of one and the same group, and no two neighbouring batches
-- are of one group: workers of a group that stand next to each other are yielded together.
pub group_workers-IsGrouping :
    (workers : List WorkerSpec) → IsGrouping workers (group_workers workers)
unfolding group_workers
group_workers-IsGrouping workers = record {
  same_order = flatten-grouping [] none workers;
  all_batches = grouping-AllBatches [] none workers unset;
  maximal = grouping-maximal [] none workers unset;
}
