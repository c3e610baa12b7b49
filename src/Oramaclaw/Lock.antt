-- ===== src/Oramaclaw/Lock.antt =====
-- The PID lock of src/oramaclaw/store.py: `_pid_is_alive`, `_acquire_lock` and `_release_lock`. One step of
-- a process is one operation on the lock file, so that two processes can be interleaved. Times are in
-- milliseconds; what the operating system answers is an argument.
pub mod Alone
pub mod Exclusion
use orama_system.Base.{
  ℕ, zero, suc, ◌+◌, ◌-◌, Bool, true, false, not, ◌&&◌, Option, none, some, ltb, nat_eq,
  if◌then◌else◌,
}

-- `os.kill(pid, 0)`: it returns, or raises `ProcessLookupError`, `PermissionError` or something else.
pub data KillReply : Type 0 where
  delivered no_process not_permitted kill_failed : KillReply

-- `psutil`: not there, the process's `create_time()`, or one of the exceptions told apart.
pub data PsutilReply : Type 0 where
  not_importable no_such_process access_denied psutil_failed : PsutilReply
  created : ℕ → PsutilReply

pub record Probe : Type 0 where
  pub win32 : Bool
  pub win_pid_exists : Bool
  pub kill : KillReply
  pub psutil : PsutilReply

abbrev distance : ℕ → ℕ → ℕ
distance a b = (a - b) + (b - a)

-- The same process, up to two seconds.
abbrev pub same_start : ℕ → Option ℕ → Bool
same_start actual none = true
same_start actual (some expected) = ltb (distance actual expected) 2000

-- `True` if the signal proved that the process is there, and `None` otherwise.
abbrev unless_failed : Bool → Option Bool
unless_failed os_kill_failed = if os_kill_failed then none else some true

ask_psutil : PsutilReply → Bool → Option ℕ → Option Bool
ask_psutil not_importable os_kill_failed expected = unless_failed os_kill_failed
ask_psutil (created actual) os_kill_failed expected = some (same_start actual expected)
ask_psutil no_such_process os_kill_failed expected = some false
ask_psutil access_denied os_kill_failed expected = some true
ask_psutil psutil_failed os_kill_failed expected = unless_failed os_kill_failed

abbrev is_none : Option ℕ → Bool
is_none none = true
is_none (some _) = false

pub after_signal : PsutilReply → Bool → Option ℕ → Option Bool
unfolding ask_psutil
after_signal psutil os_kill_failed expected =
    if is_none expected && not os_kill_failed
    then some true
    else ask_psutil psutil os_kill_failed expected

by_kill : KillReply → PsutilReply → Option ℕ → Option Bool
unfolding after_signal
by_kill no_process psutil expected = some false
by_kill delivered psutil expected = after_signal psutil false expected
by_kill not_permitted psutil expected = after_signal psutil false expected
by_kill kill_failed psutil expected = after_signal psutil true expected

unfoldable pub pid_is_alive : Probe → Option ℕ → Option Bool
unfolding by_kill
pid_is_alive p expected =
    if p.win32
    then (if p.win_pid_exists then after_signal p.psutil false expected else some false)
    else by_kill p.kill p.psutil expected

-- ------------------------------------------------------------------ the lock file

pub record LockInfo : Type 0 where
  pub pid : ℕ
  pub acquired_at : ℕ
  pub create_time : Option ℕ

pub data LockFile : Type 0 where
  absent : LockFile
  garbled : LockFile
  held : LockInfo → LockFile

abbrev pub lock_stale_ms : ℕ
lock_stale_ms = 300000

-- The argument of `LockHeld`; `none` is -1.
pub data Check : Type 0 where
  overwrite : Check
  refuse : Option ℕ → Check

-- Where a process stands in `_acquire_lock`; the number is the attempts that are left after this one.
pub data Phase : Type 0 where
  creating checking unlinking : ℕ → Phase
  holding released : Phase
  lock_held : Option ℕ → Phase

-- `judge` is `_pid_is_alive` on the processes that run now.
module _ (judge : LockInfo → Option Bool) (now : ℕ) where
  check_info : LockInfo → Option Bool → Check
  check_info i (some true) = refuse (some i.pid)
  check_info i (some false) = overwrite
  check_info i none =
      if ltb lock_stale_ms (now - i.acquired_at) then overwrite else refuse (some i.pid)

  -- `_should_overwrite_existing`: a file that is gone or garbled cannot be read, and counts as held.
  unfoldable pub should_overwrite_existing : LockFile → Check
  unfolding check_info
  should_overwrite_existing absent = refuse none
  should_overwrite_existing garbled = refuse none
  should_overwrite_existing (held i) = check_info i (judge i)

  after_check : ℕ → Check → Phase
  after_check left overwrite = unlinking left
  after_check left (refuse who) = lock_held who

  -- `os.open(…, O_CREAT | O_EXCL)`, with the payload written.
  create : LockInfo → ℕ → LockFile → Phase × LockFile
  create me left absent = (holding, held me)
  create me zero file = (lock_held none, file)
  create me (suc left) file = (checking left, file)

  -- `_release_lock`
  unfoldable pub release_lock : LockInfo → LockFile → LockFile
  release_lock me absent = absent
  release_lock me garbled = garbled
  release_lock me (held i) = if nat_eq i.pid me.pid then absent else held i

  -- The next operation of a process.
  unfoldable pub step : LockInfo → Phase → LockFile → Phase × LockFile
  unfolding create after_check should_overwrite_existing release_lock
  step me (creating left) file = create me left file
  step me (checking left) file = (after_check left (should_overwrite_existing file), file)
  step me (unlinking left) file = (creating left, absent)
  step me holding file = (released, release_lock me file)
  step me released file = (released, file)
  step me (lock_held who) file = (lock_held who, file)

  -- `for attempt in range(3)`
  abbrev pub start : Phase
  start = creating 2

  -- A process alone, until it holds the lock or has raised, or for so many steps.
  unfoldable pub acquire : ℕ → LockInfo → Phase → LockFile → Phase × LockFile
  acquire n me holding file = (holding, file)
  acquire n me (lock_held who) file = (lock_held who, file)
  acquire n me released file = (released, file)
  acquire zero me phase file = (phase, file)
  acquire (suc n) me phase file =
      let (phase', file') = step me phase file in acquire n me phase' file'
