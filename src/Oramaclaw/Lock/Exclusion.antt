-- ===== src/Oramaclaw/Lock/Exclusion.antt =====
-- Two processes at the lock of src/oramaclaw/store.py, interleaved operation by operation.
use orama_system.Base.{
  ℕ, zero, suc, ◌≡◌, ◌≢◌, refl, sym, Bool, true, false, Option, some, List, [], ◌∷◌, arith,
}
use orama_system.Oramaclaw.Lock.{
  LockInfo, LockFile, absent, held, overwrite, Phase, creating, checking, unlinking, holding,
  released, lock_held, should_overwrite_existing, step, start,
}

-- Both processes and the lock file.
pub record World : Type 0 where
  pub file : LockFile
  pub phase_a : Phase
  pub phase_b : Phase

abbrev is_unlinking : Phase → Bool
is_unlinking (unlinking _) = true
is_unlinking _ = false

module _ (judge : LockInfo → Option Bool) (now : ℕ) (a b : LockInfo) where
  pub step_a : World → World
  step_a w = let (p, f) = step judge now a w.phase_a w.file in record w { file = f; phase_a = p }

  pub step_b : World → World
  step_b w = let (p, f) = step judge now b w.phase_b w.file in record w { file = f; phase_b = p }

  -- A schedule says who does the next operation: `true` is the first process.
  pub run : List Bool → World → World
  run [] w = w
  run (true ∷ turns) w = run turns (step_a w)
  run (false ∷ turns) w = run turns (step_b w)

  pub entering : LockFile → World
  entering file = record { file = file; phase_a = start judge now; phase_b = start judge now }

  -- Both processes find a lock that is to be overwritten, then the first replaces it, and the second removes the
  -- lock that the first has just taken.
  abbrev pub race : List Bool
  race = true ∷ false ∷ true ∷ false ∷ true ∷ true ∷ false ∷ false ∷ []

  -- Whenever a lock file is there that is judged fit to be overwritten, because its owner is dead or because
  -- its owner's life cannot be told and it is older than 300 seconds, two processes can both end up holding
  -- the lock.
  pub stale_lock_race :
      (old : LockInfo)
      → should_overwrite_existing judge now (held old) ≡ overwrite
      → let w = run race (entering (held old)) in (w.phase_a ≡ holding) × (w.phase_b ≡ holding)
  unfolding run entering step_a step_b step
  stale_lock_race old h = rw h (refl, refl)

module _ (judge : LockInfo → Option Bool) (now : ℕ) where
  -- No process is about to remove the file, the file is no lock to be overwritten, and it names the holder.
  pub record IsSafe (x y : LockInfo) (file : LockFile) (p q : Phase) : Type 0 where
    pub no_unlink_x : is_unlinking p ≡ false
    pub no_unlink_y : is_unlinking q ≡ false
    pub kept : should_overwrite_existing judge now file ≢ overwrite
    pub holder_x : p ≡ holding → file ≡ held x
    pub holder_y : q ≡ holding → file ≡ held y

  swap : (x y : LockInfo) (f : LockFile) (p q : Phase) → IsSafe x y f p q → IsSafe y x f q p
  swap x y f p q s = record {
    no_unlink_x = s.no_unlink_y;
    no_unlink_y = s.no_unlink_x;
    kept = s.kept;
    holder_x = s.holder_y;
    holder_y = s.holder_x;
  }

  step-IsSafe :
      (x y : LockInfo) (p q : Phase) (f : LockFile)
      → judge x ≡ some true
      → x.pid ≢ y.pid
      → IsSafe x y f p q
      → let (p', f') = step judge now x p f in IsSafe x y f' p' q
  unfolding step
  step-IsSafe x y (creating n) q absent alive ne s = ground arith
  step-IsSafe x y (creating zero) q f alive ne s = ground arith
  step-IsSafe x y (creating (suc n)) q f alive ne s = ground arith
  step-IsSafe x y (checking n) q f alive ne s = ground arith
  step-IsSafe x y (unlinking n) q f alive ne s = cc s.no_unlink_x
  step-IsSafe x y holding q f alive ne s = ground arith
  step-IsSafe x y released q f alive ne s = s
  step-IsSafe x y (lock_held who) q f alive ne s = s

module _ (judge : LockInfo → Option Bool) (now : ℕ) (a b : LockInfo) (alive_a : judge a ≡ some true)
    (alive_b : judge b ≡ some true) (differ : a.pid ≢ b.pid) where
  abbrev Safe : World → Type 0
  Safe w = IsSafe judge now a b w.file w.phase_a w.phase_b

  run-IsSafe : (turns : List Bool) (w : World) → Safe w → Safe (run judge now a b turns w)
  unfolding run step_a step_b
  run-IsSafe [] w s = s
  run-IsSafe (true ∷ turns) w s =
      run-IsSafe turns (step_a judge now a b w)
        (step-IsSafe judge now a b w.phase_a w.phase_b w.file alive_a differ s)
  run-IsSafe (false ∷ turns) w s = run-IsSafe turns (step_b judge now a b w) (
      swap judge now b a _ _ _ (
        step-IsSafe judge now b a w.phase_b w.phase_a w.file alive_b (λ e. differ (sym e))
          (swap judge now a b _ _ _ s)))

  entering-IsSafe :
      (file : LockFile)
      → should_overwrite_existing judge now file ≢ overwrite
      → Safe (entering judge now a b file)
  unfolding entering
  entering-IsSafe file fresh = record {
    no_unlink_x = refl;
    no_unlink_y = refl;
    kept = fresh;
    holder_x = λ h. cc h;
    holder_y = λ h. cc h;
  }

  one_holder : (w : World) → Safe w → ¬ ((w.phase_a ≡ holding) × (w.phase_b ≡ holding))
  one_holder w s h = differ (cc (s.holder_x h.0, s.holder_y h.1))

  -- If the lock file is not one to be overwritten when two live processes with different PIDs come, then in
  -- no interleaving of their operations, releases included, do both hold the lock, as long as the same
  -- processes live and no lock's age passes the stale limit meanwhile.
  pub mutual_exclusion :
      (file : LockFile) (turns : List Bool)
      → should_overwrite_existing judge now file ≢ overwrite
      → let w = run judge now a b turns (entering judge now a b file) in
        ¬ ((w.phase_a ≡ holding) × (w.phase_b ≡ holding))
  mutual_exclusion file turns fresh =
      one_holder (run judge now a b turns (entering judge now a b file))
        (run-IsSafe turns (entering judge now a b file) (entering-IsSafe file fresh))
