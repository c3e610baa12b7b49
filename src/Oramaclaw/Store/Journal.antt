-- ===== src/Oramaclaw/Store/Journal.antt =====
-- The journal of src/oramaclaw/store.py, beside the history of all records that were appended.
use orama_system.Base.{
  ℕ, ◌+◌, ◌-◌, ◌≡◌, refl, sym, ◌∙◌, ap, false, inl, inr, some, List, [], ◌∷◌, ◌++◌, arith, ltb,
  length, drop, length-append, length-drop, drop-append, drop-drop, get_last?, get_last?-snoc,
  append_assoc, append-nil, Bool-cases,
}
use orama_system.Oramaclaw.Store.{
  ControlStore, JournalRecord, journal_cap, load_journal, trim, append_journal, last_transaction,
}

-- The last 200 records of a history.
abbrev pub newest : List JournalRecord → List JournalRecord
newest h = drop (length h - journal_cap) h

pub append_all : List JournalRecord → ControlStore → ControlStore
append_all [] s = s
append_all (r ∷ rs) s = append_all rs (append_journal r s)

fits : (h : List JournalRecord) → ltb journal_cap (length h) ≡ false → length h - journal_cap ≡ 0
fits h short = ground arith

trim-newest : (h : List JournalRecord) → trim h ≡ newest h
unfolding trim
trim-newest h = elim (Bool-cases (ltb journal_cap (length h))) [
  | inl long ↦ rw long refl
  | inr short ↦ rw (short, fits h short) refl
]

sizes :
    (h : List JournalRecord) (r : JournalRecord)
    → let n = length h - journal_cap in
      n + (length h - n + 1 - journal_cap) ≡ length (h ++ r ∷ []) - journal_cap
sizes h r = omega (arith, length-append {0} h (r ∷ []))

-- Trimming after each record drops what trimming the whole history drops.
newest-append :
    (h : List JournalRecord) (r : JournalRecord)
    → newest (newest h ++ r ∷ []) ≡ newest (h ++ r ∷ [])
newest-append h r =
    let n = length h - journal_cap in
    let tail = newest h ++ r ∷ [] in
    let moved : tail ≡ drop n (h ++ r ∷ []) = sym (drop-append n h (r ∷ []) (omega arith)) in
    let count : length tail ≡ length h - n + 1 =
      omega (arith, length-append {0} (newest h) (r ∷ []), length-drop {0} n h) in
    rw count (
      rw moved (
        drop-drop (length h - n + 1 - journal_cap) n (h ++ r ∷ [])
        ∙ ap (λ (k : ℕ). drop k (h ++ r ∷ [])) (sizes h r)))

-- If the journal holds the newest records of a history, then after any appends it holds the newest
-- records of the longer history: at most 200, and none of the last 200 is lost.
pub load_journal-append_all :
    (h rs : List JournalRecord) (s : ControlStore)
    → load_journal s ≡ newest h
    → load_journal (append_all rs s) ≡ newest (h ++ rs)
unfolding append_all append_journal
load_journal-append_all h [] s e = rw append-nil e
load_journal-append_all h (r ∷ rs) s e =
    load_journal-append_all (h ++ r ∷ []) rs (append_journal r s)
      (rw (trim-newest _, e) (newest-append h r))
    ∙ ap newest (append_assoc h (r ∷ []) rs)

-- The last transaction is the record that was appended last.
pub last_transaction-append_journal :
    (r : JournalRecord) (s : ControlStore) → last_transaction (append_journal r s) ≡ some r
unfolding last_transaction append_journal
last_transaction-append_journal r s =
    let j = load_journal s in
    ap get_last? (trim-newest (j ++ r ∷ []))
    ∙ ap get_last? (
        drop-append (length (j ++ r ∷ []) - journal_cap) j (r ∷ [])
          (omega (arith, length-append {0} j (r ∷ []))))
    ∙ get_last?-snoc (drop (length (j ++ r ∷ []) - journal_cap) j) r
