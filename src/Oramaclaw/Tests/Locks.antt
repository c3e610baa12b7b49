-- ===== src/Oramaclaw/Tests/Locks.antt =====
-- Runs of the lock and of the files of src/oramaclaw/store.py.
use orama_system.Base.{
  String, ◌≡◌, ◌≢◌, refl, Bool, true, false, not, Option, some, [], ◌∷◌, ◌++◌, arith, nat_eq,
  eq_iff,
}
use mathlib.Core.Bool.{false≢true}
use orama_system.Oramaclaw.Store.{load_journal}
use orama_system.Oramaclaw.Store.Journal.{newest, append_all, load_journal-append_all}
use orama_system.Oramaclaw.Types.{committed, failed}
use orama_system.Oramaclaw.Lock.{
  LockInfo, absent, held, overwrite, holding, should_overwrite_existing, Probe, created, delivered,
}
use orama_system.Oramaclaw.Lock.Exclusion.{run, entering, race, stale_lock_race, mutual_exclusion}
use orama_system.Oramaclaw.Tests.Data.{empty_store, journal_record, holder}

-- Only the process 9 is dead.
abbrev judge : LockInfo → Option Bool
judge i = some (not (nat_eq i.pid 9))

absent_kept : should_overwrite_existing judge 10 absent ≢ overwrite
unfolding should_overwrite_existing
absent_kept e = ground (arith, e)

one_ne_two : (holder 1).pid ≢ (holder 2).pid
one_ne_two e = omega (arith, e)

mutual_exclusion_example :
    let turns = true ∷ false ∷ true ∷ false ∷ false ∷ true ∷ [] in
    let w =
      run judge 10 (holder 1) (holder 2) turns (entering judge 10 (holder 1) (holder 2) absent) in
    ¬ ((w.phase_a ≡ holding) × (w.phase_b ≡ holding))
mutual_exclusion_example =
    mutual_exclusion judge 10 (holder 1) (holder 2) refl refl one_ne_two absent
      (true ∷ false ∷ true ∷ false ∷ false ∷ true ∷ []) absent_kept

stale_lock_race_example :
    let w =
      run judge 10
        (holder 1)
        (holder 2)
        (race judge 10 (holder 1) (holder 2))
        (entering judge 10 (holder 1) (holder 2) (held (holder 9))) in
    (w.phase_a ≡ holding) × (w.phase_b ≡ holding)
unfolding should_overwrite_existing
stale_lock_race_example = stale_lock_race judge 10 (holder 1) (holder 2) (holder 9) refl

-- The PID runs, but began 7 seconds after the lock's process.
abbrev reused : Probe
reused = record { win32 = false; win_pid_exists = false; kill = delivered; psutil = created 9000 }

load_journal-append_all_example :
    load_journal
      (append_all (journal_record "a" committed ∷ journal_record "b" failed ∷ []) empty_store)
    ≡ newest ([] ++ journal_record "a" committed ∷ journal_record "b" failed ∷ [])
load_journal-append_all_example =
    load_journal-append_all [] (journal_record "a" committed ∷ journal_record "b" failed ∷ [])
      empty_store refl

abbrev model : String
model = "model"

abbrev tools : String
tools = "tools"

abbrev agent_key : String
agent_key = "agent:a"

other_field : ¬ ((agent_key ≡ agent_key) × (model ≡ tools))
other_field h = absurd (false≢true ((eq_iff model tools).1 h.1))
