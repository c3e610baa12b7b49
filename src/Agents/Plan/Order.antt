-- ===== src/Agents/Plan/Order.antt =====
-- The order of the stages that `stages_must_be_ordered` in bin/agents/orchestrator/task_schema.py accepts.
use orama_system.Base.{
  ℕ, ◌≤◌, suc, ◌≡◌, refl, sym, ap, ◌∙◌, String, Bool, true, false, Option, none, some, List, [],
  ◌∷◌, if◌then◌else◌, ltb, arith, ◌↔◌, Option-cases, inl, inr,
}
use orama_system.Agents.Plan.{index, order, in_order, stages_must_be_ordered}

pub data Occurs (b : String) : List String → Type 0 where
  here : {names : List String} → Occurs b (b ∷ names)
  there : {name : String} {names : List String} → Occurs b names → Occurs b (name ∷ names)

-- `a` occurs, and `b` occurs after it.
pub data Before (a b : String) : List String → Type 0 where
  first : {names : List String} → Occurs b names → Before a b (a ∷ names)
  next : {name : String} {names : List String} → Before a b names → Before a b (name ∷ names)

abbrev AllFrom : ℕ → List String → Type 0
AllFrom bound names = (b : String) (j : ℕ) → Occurs b names → index b order ≡ some j → bound ≤ suc j

-- No stage of the list stands before one that comes earlier in `order`, where other names do not count.
abbrev pub Ordered : List String → Type 0
Ordered names =
    (a b : String) (i j : ℕ)
    → Before a b names
    → index a order ≡ some i
    → index b order ≡ some j
    → i ≤ j

accepts : ℕ → List String → Option ℕ → Bool
accepts bound names none = in_order bound names
accepts bound names (some i) = if ltb (suc i) bound then false else in_order (suc i) names

in_order-step :
    (bound : ℕ) (name : String) (names : List String)
    → in_order bound (name ∷ names) ≡ accepts bound names (index name order)
unfolding in_order accepts
in_order-step bound name names = ground arith

-- The first name is no stage, or it stands at the bound or after it and bounds the rest.
data Accepted (bound : ℕ) (name : String) (names : List String) : Type 0 where
  unknown : index name order ≡ none → in_order bound names ≡ true → Accepted bound name names
  known :
      (i : ℕ)
      → index name order ≡ some i
      → bound ≤ suc i
      → in_order (suc i) names ≡ true
      → Accepted bound name names

accepts-some :
    (bound i : ℕ) (names : List String)
    → accepts bound names (some i) ≡ true
    → (bound ≤ suc i) × (in_order (suc i) names ≡ true)
unfolding accepts
accepts-some bound i names h = ground arith

in_order-Accepted :
    (bound : ℕ) (name : String) (names : List String)
    → in_order bound (name ∷ names) ≡ true
    → Accepted bound name names
unfolding accepts
in_order-Accepted bound name names h =
    let a = sym (in_order-step bound name names) ∙ h in
    elim (Option-cases (index name order)) [
      | inl e ↦ unknown e (ap (accepts bound names) (sym e) ∙ a)
      | inr (i, e) ↦
          (let l = accepts-some bound i names (ap (accepts bound names) (sym e) ∙ a) in
            known i e l.0 l.1)
    ]

Accepted-in_order :
    (bound : ℕ) (name : String) (names : List String)
    → Accepted bound name names
    → in_order bound (name ∷ names) ≡ true
unfolding accepts
Accepted-in_order bound name names (unknown e h) =
    in_order-step bound name names ∙ ap (accepts bound names) e ∙ h
Accepted-in_order bound name names (known i e l h) =
    in_order-step bound name names ∙ ap (accepts bound names) e ∙ ground (arith, l, h)

-- What a name's index is, it is once.
index_unique :
    (name : String) (i j : ℕ) → index name order ≡ some i → index name order ≡ some j → i ≡ j
index_unique name i j e f = let g : some i ≡ some j = sym e ∙ f in ground arith

index_is_none : (name : String) (j : ℕ) → index name order ≡ none → index name order ≡ some j → ⊥
index_is_none name j e f = let g : none ≡ some j = sym e ∙ f in ground arith

in_order-AllFrom :
    (bound : ℕ) (names : List String) → in_order bound names ≡ true → AllFrom bound names
in_order-AllFrom bound [] h b j o e = elim o [ ]
in_order-AllFrom bound (name ∷ names) h b j here e = elim (in_order-Accepted bound name names h) [
  | unknown n r ↦ elim (index_is_none name j n e) [ ]
  | known i n l r ↦ omega (arith, index_unique name i j n e)
]
in_order-AllFrom bound (name ∷ names) h b j (there o) e =
    elim (in_order-Accepted bound name names h) [
      | unknown n r ↦ in_order-AllFrom bound names r b j o e
      | known i n l r ↦ omega (arith, in_order-AllFrom (suc i) names r b j o e)
    ]

in_order-Ordered : (bound : ℕ) (names : List String) → in_order bound names ≡ true → Ordered names
in_order-Ordered bound [] h a b i j p ea eb = elim p [ ]
in_order-Ordered bound (name ∷ names) h a b i j (first o) ea eb =
    elim (in_order-Accepted bound name names h) [
      | unknown n r ↦ elim (index_is_none name i n ea) [ ]
      | known k n l r ↦
          omega (arith, index_unique name k i n ea, in_order-AllFrom (suc k) names r b j o eb)
    ]
in_order-Ordered bound (name ∷ names) h a b i j (next p) ea eb =
    elim (in_order-Accepted bound name names h) [
      | unknown n r ↦ in_order-Ordered bound names r a b i j p ea eb
      | known k n l r ↦ in_order-Ordered (suc k) names r a b i j p ea eb
    ]

Ordered-in_order :
    (bound : ℕ) (names : List String)
    → AllFrom bound names
    → Ordered names
    → in_order bound names ≡ true
unfolding in_order
Ordered-in_order bound [] f o = refl
Ordered-in_order bound (name ∷ names) f o =
    let tail : Ordered names = λ a b i j p. o a b i j (next p) in
    elim (Option-cases (index name order)) [
      | inl e ↦
          Accepted-in_order bound name names
            (unknown e (Ordered-in_order bound names (λ b j q. f b j (there q)) tail))
      | inr (i, e) ↦ Accepted-in_order bound name names (
          known i e (f name i here e) (
            Ordered-in_order (suc i) names (λ b j q eb. omega (arith, o name b i j (first q) e eb))
              tail))
    ]

-- A plan's list of stages is accepted exactly if no stage of it stands after one that comes later in the order
-- of the stages; a stage may be repeated or left out, and names that are no stage are passed over.
pub stages_must_be_ordered_iff :
    (names : List String) → (stages_must_be_ordered names ≡ true) ↔ Ordered names
unfolding stages_must_be_ordered
stages_must_be_ordered_iff names =
    (λ h. in_order-Ordered 0 names h, λ o. Ordered-in_order 0 names (λ b j q e. omega arith) o)
