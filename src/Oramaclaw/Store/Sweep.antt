-- ===== src/Oramaclaw/Store/Sweep.antt =====
-- `sweep_orphan_pending` of src/oramaclaw/store.py.
use orama_system.Base.{
  String, ◌≡◌, Bool, not, ◌&&◌, none, List, [], ◌∷◌, select, length, is_nonempty, Option, some,
  if◌then◌else◌, ◌==◌, ◌++◌,
}
use orama_system.Oramaclaw.Types.{TxState}
use orama_system.Oramaclaw.Store.{
  ControlStore, PendingRecord, JournalRecord, load_pending, is_open, is_failed, tx_failed,
  sweep_orphan_pending,
}

-- The state in the newest record of a transaction.
abbrev pub last_state : String → List JournalRecord → Option TxState
last_state tx [] = none
last_state tx (r ∷ rs) = elim (last_state tx rs) [
  | some t ↦ some t
  | none ↦ if r.transaction_id == tx then some r.state else none
]

-- Open, and of a transaction whose newest record says that it failed.
abbrev pub is_orphan : List JournalRecord → PendingRecord → Bool
is_orphan journal r = is_open r && is_failed (last_state r.transaction_id journal)

-- An open record whose transaction has failed by the dict that the code fills.
abbrev is_swept : List JournalRecord → PendingRecord → Bool
is_swept journal r = is_open r && tx_failed journal r

-- What the sweep leaves when it takes out the records that a test picks.
abbrev pub Sweeps : String → ControlStore → (PendingRecord → Bool) → Type 0
Sweeps stamp s p =
    let orphans = select p (load_pending s) in
    let (n, s') = sweep_orphan_pending stamp s in
    (n ≡ length orphans)
    × (load_pending s' ≡ select (λ r. not (p r)) (load_pending s))
    × (s'.archives ≡ (
        if is_nonempty orphans
        then s.archives
          ++ record { reason = "sweep_orphan_pending"; archived_at = stamp; records = orphans } ∷ []
        else s.archives))
