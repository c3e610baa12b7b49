-- ===== src/Oramaclaw/Lock/Alone.antt =====
-- One process and the lock file of src/oramaclaw/store.py, with nobody interfering.
use orama_system.Base.{
  ℕ, ◌≡◌, refl, Bool, true, false, Option, none, some, arith, if◌then◌else◌, ◌⊎◌, inl, inr,
}
use orama_system.Oramaclaw.Lock.{
  LockInfo, LockFile, absent, garbled, held, Check, overwrite, refuse, Phase, holding, lock_held,
  should_overwrite_existing, step, start, acquire, Probe, pid_is_alive, same_start, after_signal,
  KillReply, no_process, delivered, not_permitted, kill_failed, PsutilReply, no_such_process,
  created, not_importable, access_denied, psutil_failed,
}

module _ (judge : LockInfo → Option Bool) (now : ℕ) (me : LockInfo) where
  -- What `_acquire_lock` is to do with each file.
  abbrev pub taken_over : Check → LockFile → Phase × LockFile
  taken_over overwrite file = (holding, held me)
  taken_over (refuse who) file = (lock_held who, file)

  abbrev pub acquired : LockFile → Phase × LockFile
  acquired absent = (holding, held me)
  acquired garbled = (lock_held none, garbled)
  acquired (held i) = taken_over (should_overwrite_existing judge now (held i)) (held i)

  -- With nobody interfering, `_acquire_lock` ends within four operations: it takes a lock file that is
  -- absent or judged stale, and raises `LockHeld` on any other, which it leaves as it was.
  pub acquire_alone :
      (file : LockFile) → acquire judge now 4 me (start judge now) file ≡ acquired file
  unfolding acquire step
  acquire_alone absent = refl
  acquire_alone garbled = refl
  acquire_alone (held i) = ground arith

-- What the operating system said of a process that counts as dead.
abbrev pub OtherStart : PsutilReply → Option ℕ → Type 0
OtherStart (created actual) expected = same_start actual expected ≡ false
OtherStart no_such_process expected = Unit
OtherStart _ expected = ⊥

abbrev pub NoSuchPid : Probe → Type 0
NoSuchPid p = if p.win32 then p.win_pid_exists ≡ false else p.kill ≡ no_process

by_start :
    (u : PsutilReply) (failed : Bool) (e : Option ℕ)
    → after_signal u failed e ≡ some false
    → OtherStart u e
unfolding after_signal
by_start (created actual) failed none h = ground arith
by_start (created actual) failed (some x) h = ground arith
by_start no_such_process failed e h = tt
by_start not_importable failed e h = ground arith
by_start access_denied failed e h = ground arith
by_start psutil_failed failed e h = ground arith

-- A process counts as dead only on evidence: the system knows no such PID, or `psutil` does not, or the
-- process with that PID started at another time than the one that took the lock.
pub dead_only_on_evidence :
    (p : Probe) (expected : Option ℕ)
    → pid_is_alive p expected ≡ some false
    → NoSuchPid p ⊎ OtherStart p.psutil expected
unfolding pid_is_alive
dead_only_on_evidence p expected h = evidence p.win32 p.win_pid_exists p.kill p.psutil expected h
  where
    evidence :
        (win there : Bool) (k : KillReply) (u : PsutilReply) (e : Option ℕ)
        → pid_is_alive (record { win32 = win; win_pid_exists = there; kill = k; psutil = u }) e
          ≡ some false
        → NoSuchPid (record { win32 = win; win_pid_exists = there; kill = k; psutil = u })
          ⊎ OtherStart u e
    evidence true false k u e h = inl refl
    evidence true true k u e h = inr (by_start u false e h)
    evidence false there no_process u e h = inl refl
    evidence false there delivered u e h = inr (by_start u false e h)
    evidence false there not_permitted u e h = inr (by_start u false e h)
    evidence false there kill_failed u e h = inr (by_start u true e h)
