-- ===== src/Jobs/Order.antt =====
-- Which job mac_job_queue.py and win_job_queue.py claim: order by priority and time, and blocked jobs.
use orama_system.Base.{
  ℕ, String, ◌≡◌, refl, sym, ◌∙◌, ap, ap₂, subst, Bool, true, false, not, ◌&&◌, ◌||◌, Option, none,
  some, List, [], ◌∷◌, ◌++◌, arith, every, Bool-cases, Option-cases, inl, inr,
}
use orama_system.Jobs.{
  Job, Role, first_role, second_role, Lane, Queue, lane, Meta, Rules, comes_before, insert_job,
  sort_jobs, is_blocked, start_job, Next, claimed, occupied, nothing, enqueue_from_inbox,
  first_unblocked, first_actionable_pending, actionable, cmd_pulse_gate,
}
use orama_system.Jobs.Mac
use orama_system.Jobs.Win

-- `j` may stand before `k` in the order of the queue.
abbrev pub not_after : Job → Job → Bool
not_after j k = not (comes_before k j)

abbrev pub IsSorted : List Job → Type 0
IsSorted [] = Unit
IsSorted (j ∷ js) = (every (not_after j) js ≡ true) × IsSorted js

not_after_trans : (i j k : Job) → not_after i j ≡ true → not_after j k ≡ true → not_after i k ≡ true
not_after_trans i j k h g = ground arith

every_later :
    (i j : Job) (ks : List Job)
    → not_after i j ≡ true
    → every (not_after j) ks ≡ true
    → every (not_after i) ks ≡ true
every_later i j [] h g = refl
every_later i j (k ∷ ks) h g = ground (arith, every_later i j ks, not_after_trans i j k)

every-insert_job :
    (p : Job → Bool) (j : Job) (js : List Job) → every p (insert_job j js) ≡ (p j && every p js)
unfolding insert_job
every-insert_job p j [] = refl
every-insert_job p j (k ∷ ks) = ground (arith, every-insert_job p j ks)

insert_job-IsSorted : (j : Job) (js : List Job) → IsSorted js → IsSorted (insert_job j js)
unfolding insert_job
insert_job-IsSorted j [] h = (refl, tt)
insert_job-IsSorted j (k ∷ ks) h = elim (Bool-cases (comes_before k j)) [
  | inl b ↦
      rw b (every-insert_job (not_after k) j ks ∙ ground (arith, h.0), insert_job-IsSorted j ks h.1)
  | inr b ↦ rw b (ground (arith, every_later j k ks, h.0), h)
]

sort_jobs-IsSorted : (js : List Job) → IsSorted (sort_jobs js)
unfolding sort_jobs
sort_jobs-IsSorted [] = tt
sort_jobs-IsSorted (j ∷ js) = insert_job-IsSorted j (sort_jobs js) (sort_jobs-IsSorted js)

enqueue-IsSorted :
    (r : Role) (rules : Rules) (read_inbox_file : String → Option String) (inbox : List (ℕ × Meta))
    (q : Queue)
    → IsSorted (lane r (enqueue_from_inbox rules read_inbox_file inbox q).1).pending
unfolding enqueue_from_inbox
enqueue-IsSorted first_role rules read_inbox_file inbox q = sort_jobs-IsSorted _
enqueue-IsSorted second_role rules read_inbox_file inbox q = sort_jobs-IsSorted _

-- Every job of the list is blocked, or may stand after `j`.
abbrev pub none_before : Job → List Job → Bool
none_before j js = every (λ k. is_blocked k || not_after j k) js

unblocked_later :
    (j : Job) (js : List Job) → every (not_after j) js ≡ true → none_before j js ≡ true
unblocked_later j [] h = refl
unblocked_later j (k ∷ ks) h = ground (arith, unblocked_later j ks)

not_after_refl : (j : Job) → not_after j j ≡ true
not_after_refl j = ground arith

found_first :
    (j k : Job) (ks : List Job)
    → IsSorted (k ∷ ks)
    → is_blocked k ≡ false
    → k ≡ j
    → (none_before j (k ∷ ks) ≡ true) × (is_blocked j ≡ false)
found_first j k ks h b e =
    subst (λ x. (none_before x (k ∷ ks) ≡ true) × (is_blocked x ≡ false)) e
      (ground (arith, not_after_refl k, unblocked_later k ks, h.0), b)

first_unblocked-first :
    (j : Job) (js : List Job)
    → IsSorted js
    → first_unblocked js ≡ some j
    → (none_before j js ≡ true) × (is_blocked j ≡ false)
first_unblocked-first j [] h e = absurd (ground arith)
first_unblocked-first j (k ∷ ks) h e = elim (Bool-cases (is_blocked k)) [
  | inl b ↦ let later = first_unblocked-first j ks h.1 (ground arith) in ground arith
  | inr b ↦ found_first j k ks h b (ground arith)
]

skip_blocked-first : (js done : List Job) → (Mac.skip_blocked js done).0 ≡ first_unblocked js
unfolding Mac.skip_blocked
skip_blocked-first [] done = refl
skip_blocked-first (j ∷ js) done =
    ground (arith, skip_blocked-first js (done ++ record j { note = some "skipped-blocked" } ∷ []))

claim_next_pending-first : (js : List Job) → (Win.claim_next_pending js).0 ≡ first_unblocked js
unfolding Win.claim_next_pending
claim_next_pending-first [] = refl
claim_next_pending-first (j ∷ js) = ground (arith, claim_next_pending-first js)

-- What `next` reports of a lane.
abbrev report : ℕ → Option Job → Option Job → Next
report now (some j) o = occupied j
report now none (some j) = claimed (start_job now j)
report now none none = nothing

take_next-report :
    (now : ℕ) (t : Option Job × (List Job × List Job)) (l : Lane)
    → (Mac.take_next now t l).0 ≡ report now none t.0
take_next-report now (none, (pending, done)) l = refl
take_next-report now (some j, (pending, done)) l = refl

take_claimed-report :
    (now : ℕ) (t : Option Job × List Job) (l : Lane)
    → (Win.take_claimed now t l).0 ≡ report now none t.0
take_claimed-report now (none, pending) l = refl
take_claimed-report now (some j, pending) l = refl

pub mac_next-report :
    (now : ℕ) (r : Role) (q : Queue)
    → (Mac.cmd_next now r q).0 ≡ report now (lane r q).active (first_unblocked (lane r q).pending)
unfolding Mac.cmd_next
mac_next-report now r q = elim (Option-cases (lane r q).active) [
  | inl e ↦ rw e (
      take_next-report now (Mac.skip_blocked (lane r q).pending (lane r q).done) (lane r q)
      ∙ ap (report now none) (skip_blocked-first (lane r q).pending (lane r q).done))
  | inr (j, e) ↦ rw e refl
]

pub win_next-report :
    (now : ℕ) (r : Role) (q : Queue)
    → (Win.cmd_next now r q).0 ≡ report now (lane r q).active (first_unblocked (lane r q).pending)
unfolding Win.cmd_next
win_next-report now r q = elim (Option-cases (lane r q).active) [
  | inl e ↦ rw e (
      take_claimed-report now (Win.claim_next_pending (lane r q).pending) (lane r q)
      ∙ ap (report now none) (claim_next_pending-first (lane r q).pending))
  | inr (j, e) ↦ rw e refl
]

report-claimed :
    (now : ℕ) (a o : Option Job) (j : Job)
    → report now a o ≡ claimed j
    → (k : Job) × (o ≡ some k) × (j ≡ start_job now k)
report-claimed now (some a) o j e = absurd (ground arith)
report-claimed now none none j e = absurd (ground arith)
report-claimed now none (some k) j e = (k, refl, ground arith)

-- After the inbox is taken in, what `next` claims for a role is not blocked, and no pending job of the role
-- that is not blocked comes before it in the order of priority and time, in either script; both claim the
-- same job.
pub next_claims_first :
    (rules : Rules) (read_inbox_file : String → Option String) (inbox : List (ℕ × Meta)) (q : Queue)
    (now : ℕ) (r : Role) (j : Job)
    → (Mac.cmd_next now r (enqueue_from_inbox rules read_inbox_file inbox q).1).0 ≡ claimed j
    → (is_blocked j ≡ false)
      × (none_before j (lane r (enqueue_from_inbox rules read_inbox_file inbox q).1).pending ≡ true)
      × ((Win.cmd_next now r (enqueue_from_inbox rules read_inbox_file inbox q).1).0 ≡ claimed j)
next_claims_first rules read_inbox_file inbox q now r j e =
    let q' = (enqueue_from_inbox rules read_inbox_file inbox q).1 in
    let told = sym (mac_next-report now r q') ∙ e in
    let (k, first, same) =
      report-claimed now (lane r q').active (first_unblocked (lane r q').pending) j told in
    let (before, open') =
      first_unblocked-first k (lane r q').pending (enqueue-IsSorted r rules read_inbox_file inbox q)
        first in
    (
      ap is_blocked same ∙ open',
      ap (λ x. none_before x (lane r q').pending) same ∙ before,
      win_next-report now r q' ∙ told,
    )

gate-idle :
    (rules : Rules) (read_inbox_file : String → Option String) (inbox : List (ℕ × Meta)) (q : Queue)
    (r : Role) (j : Job)
    → (cmd_pulse_gate rules read_inbox_file inbox q).0 ≡ actionable r j
    → let q' = (cmd_pulse_gate rules read_inbox_file inbox q).1 in
      ((lane first_role q').active ≡ none)
      × ((lane second_role q').active ≡ none)
      × (first_unblocked (lane r q').pending ≡ some j)
unfolding cmd_pulse_gate first_actionable_pending
gate-idle rules read_inbox_file inbox q first_role j e = ground arith
gate-idle rules read_inbox_file inbox q second_role j e = ground arith

idle_lane :
    (r : Role) (q : Queue)
    → (lane first_role q).active ≡ none
    → (lane second_role q).active ≡ none
    → (lane r q).active ≡ none
idle_lane first_role q a b = a
idle_lane second_role q a b = b

-- The job that the pulse gate picks is the job that `next` then claims for its role, in either script, and
-- no role had an active job.
pub pick_is_next :
    (rules : Rules) (read_inbox_file : String → Option String) (inbox : List (ℕ × Meta)) (q : Queue)
    (now : ℕ) (r : Role) (j : Job)
    → (cmd_pulse_gate rules read_inbox_file inbox q).0 ≡ actionable r j
    → let q' = (cmd_pulse_gate rules read_inbox_file inbox q).1 in
      ((Mac.cmd_next now r q').0 ≡ claimed (start_job now j))
      × ((Win.cmd_next now r q').0 ≡ claimed (start_job now j))
      × ((lane first_role q').active ≡ none)
      × ((lane second_role q').active ≡ none)
pick_is_next rules read_inbox_file inbox q now r j e =
    let q' = (cmd_pulse_gate rules read_inbox_file inbox q).1 in
    let (a, b, first) = gate-idle rules read_inbox_file inbox q r j e in
    let idle : (lane r q').active ≡ none = idle_lane r q' a b in
    let told : report now (lane r q').active (first_unblocked (lane r q').pending)
        ≡ claimed (start_job now j) =
      ap₂ (report now) idle first in
    (mac_next-report now r q' ∙ told, win_next-report now r q' ∙ told, a, b)
