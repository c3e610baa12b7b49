-- ===== src/Jobs/Drain.antt =====
-- Rounds of `next` and `complete` of mac_job_queue.py and win_job_queue.py, and blocked jobs.
use orama_system.Base.{
  ℕ, zero, suc, ◌-◌, ◌≤◌, String, ◌≡◌, refl, sym, ◌∙◌, ap, subst, not, Option, none, some, List, [],
  ◌∷◌, ◌++◌, arith, select, length, length-select-le,
}
use orama_system.Jobs.{
  Job, Role, first_role, second_role, Lane, Queue, lane, with_lane, is_blocked, complete_lane,
  cmd_complete,
}
use orama_system.Jobs.Counts.{
  queue_count, queue_count-mac_next, queue_count-win_next, queue_count-cmd_complete,
}
use orama_system.Jobs.Mac
use orama_system.Jobs.Mac.{mac_rules}
use orama_system.Jobs.Win

-- `next` and then `complete` for one role, n times.
unfoldable pub mac_rounds : ℕ → (ℕ → ℕ) → String → Role → Queue → Queue
mac_rounds zero clock note r q = q
mac_rounds (suc n) clock note r q =
    mac_rounds n clock note r (cmd_complete (clock n) note r (Mac.cmd_next (clock n) r q).1).1

unfoldable pub win_rounds : ℕ → (ℕ → ℕ) → String → Role → Queue → Queue
win_rounds zero clock note r q = q
win_rounds (suc n) clock note r q =
    win_rounds n clock note r (cmd_complete (clock n) note r (Win.cmd_next (clock n) r q).1).1

pub lane-with_lane : (r : Role) (l : Lane) (q : Queue) → lane r (with_lane r l q) ≡ l
lane-with_lane first_role l q = refl
lane-with_lane second_role l q = refl

-- A lane without an active job, and what is pending in it.
abbrev IsResting : List Job → Lane → Type 0
IsResting js l = (l.active ≡ none) × (l.pending ≡ js)

completed-IsResting :
    (now : ℕ) (note : String) (r : Role) (l : Lane) (q : Queue) (js : List Job)
    → lane r q ≡ l
    → IsResting js (complete_lane now note l.active l).1
    → IsResting js (lane r (cmd_complete now note r q).1)
unfolding cmd_complete
completed-IsResting now note r l q js e h =
    subst (IsResting js)
      (sym (lane-with_lane r (complete_lane now note (lane r q).active (lane r q)).1 q))
      (subst (λ x. IsResting js (complete_lane now note x.active x).1) (sym e) h)

take_next-IsResting :
    (now : ℕ) (note : String) (t : Option Job × (List Job × List Job)) (l : Lane)
    → l.active ≡ none
    → let l' = (Mac.take_next now t l).1 in IsResting t.1.0 (complete_lane now note l'.active l').1
take_next-IsResting now note (none, (pending, done)) l e = ground arith
take_next-IsResting now note (some j, (pending, done)) l e = (refl, refl)

-- What is pending after a round, in a lane that starts without an active job.
abbrev after_claimed : Option Job × List Job → List Job → List Job
after_claimed (none, rest) js = js
after_claimed (some j, rest) js = rest

take_claimed-IsResting :
    (now : ℕ) (note : String) (t : Option Job × List Job) (l : Lane)
    → l.active ≡ none
    → let l' = (Win.take_claimed now t l).1 in
      IsResting (after_claimed t l.pending) (complete_lane now note l'.active l').1
take_claimed-IsResting now note (none, pending) l e = ground arith
take_claimed-IsResting now note (some j, pending) l e = (refl, refl)

mac_round :
    (now : ℕ) (note : String) (r : Role) (q : Queue)
    → (lane r q).active ≡ none
    → IsResting
        (Mac.skip_blocked (lane r q).pending (lane r q).done).1.0
        (lane r (cmd_complete now note r (Mac.cmd_next now r q).1).1)
unfolding Mac.cmd_next
mac_round now note r q e =
    let l = lane r q in
    let t = Mac.skip_blocked l.pending l.done in
    let next : (Mac.next_lane now l.active l).1 ≡ (Mac.take_next now t l).1 =
      ap (λ o. (Mac.next_lane now o l).1) e in
    completed-IsResting now note r (Mac.take_next now t l).1
      (with_lane r (Mac.next_lane now l.active l).1 q) t.1.0
      (lane-with_lane r (Mac.next_lane now l.active l).1 q ∙ next)
      (take_next-IsResting now note t l e)

win_round :
    (now : ℕ) (note : String) (r : Role) (q : Queue)
    → (lane r q).active ≡ none
    → IsResting
        (after_claimed (Win.claim_next_pending (lane r q).pending) (lane r q).pending)
        (lane r (cmd_complete now note r (Win.cmd_next now r q).1).1)
unfolding Win.cmd_next
win_round now note r q e =
    let l = lane r q in
    let t = Win.claim_next_pending l.pending in
    let next : (Win.next_lane now l.active l).1 ≡ (Win.take_claimed now t l).1 =
      ap (λ o. (Win.next_lane now o l).1) e in
    completed-IsResting now note r (Win.take_claimed now t l).1
      (with_lane r (Win.next_lane now l.active l).1 q) (after_claimed t l.pending)
      (lane-with_lane r (Win.next_lane now l.active l).1 q ∙ next)
      (take_claimed-IsResting now note t l e)

length-skip_blocked : (js done : List Job) → length (Mac.skip_blocked js done).1.0 ≤ length js - 1
unfolding Mac.skip_blocked
length-skip_blocked [] done = omega arith
length-skip_blocked (j ∷ js) done =
    ground (arith, length-skip_blocked js (done ++ record j { note = some "skipped-blocked" } ∷ []))

-- How many jobs of the list are not blocked, and those that are.
abbrev open_count : List Job → ℕ
open_count js = length (select (λ j. not (is_blocked j)) js)

abbrev pub blocked_only : List Job → List Job
blocked_only js = select is_blocked js

claimed_rest :
    (js : List Job)
    → let rest = after_claimed (Win.claim_next_pending js) js in
      (blocked_only rest ≡ blocked_only js) × (open_count rest ≡ open_count js - 1)
unfolding Win.claim_next_pending
claimed_rest [] = (refl, refl)
claimed_rest (j ∷ js) = ground (arith, claimed_rest js)

none_open : (js : List Job) → open_count js ≤ 0 → js ≡ blocked_only js
none_open [] h = refl
none_open (j ∷ js) h = ground (arith, none_open js)

nil_of_length : (js : List Job) → length js ≤ 0 → js ≡ []
nil_of_length [] h = refl
nil_of_length (j ∷ js) h = elim h [ ]

mac_rounds-IsResting :
    (n : ℕ) (clock : ℕ → ℕ) (note : String) (r : Role) (q : Queue)
    → (lane r q).active ≡ none
    → length (lane r q).pending ≤ n
    → IsResting [] (lane r (mac_rounds n clock note r q))
unfolding mac_rounds
mac_rounds-IsResting zero clock note r q e h = (e, nil_of_length (lane r q).pending h)
mac_rounds-IsResting (suc n) clock note r q e h =
    let q' = (cmd_complete (clock n) note r (Mac.cmd_next (clock n) r q).1).1 in
    let (rest, left) = mac_round (clock n) note r q e in
    let less = length-skip_blocked (lane r q).pending (lane r q).done in
    mac_rounds-IsResting n clock note r q' rest (omega (arith, ap length left, less))

win_rounds-IsResting :
    (n : ℕ) (clock : ℕ → ℕ) (note : String) (r : Role) (q : Queue)
    → (lane r q).active ≡ none
    → open_count (lane r q).pending ≤ n
    → IsResting (blocked_only (lane r q).pending) (lane r (win_rounds n clock note r q))
unfolding win_rounds
win_rounds-IsResting zero clock note r q e h = (e, none_open (lane r q).pending h)
win_rounds-IsResting (suc n) clock note r q e h =
    let q' = (cmd_complete (clock n) note r (Win.cmd_next (clock n) r q).1).1 in
    let (rest, left) = win_round (clock n) note r q e in
    let (same, less) = claimed_rest (lane r q).pending in
    let ih =
      win_rounds-IsResting n clock note r q' rest (omega (arith, ap open_count left, less)) in
    (ih.0, ih.1 ∙ (ap blocked_only left ∙ same))

mac_rounds_count :
    (i : String) (n : ℕ) (clock : ℕ → ℕ) (note : String) (r : Role) (q : Queue)
    → queue_count i (mac_rounds n clock note r q) ≡ queue_count i q
unfolding mac_rounds
mac_rounds_count i zero clock note r q = refl
mac_rounds_count i (suc n) clock note r q =
    let q₁ = (Mac.cmd_next (clock n) r q).1 in
    let q₂ = (cmd_complete (clock n) note r q₁).1 in
    mac_rounds_count i n clock note r q₂
    ∙ (queue_count-cmd_complete i (clock n) note r q₁ ∙ queue_count-mac_next i (clock n) r q)

win_rounds_count :
    (i : String) (n : ℕ) (clock : ℕ → ℕ) (note : String) (r : Role) (q : Queue)
    → queue_count i (win_rounds n clock note r q) ≡ queue_count i q
unfolding win_rounds
win_rounds_count i zero clock note r q = refl
win_rounds_count i (suc n) clock note r q =
    let q₁ = (Win.cmd_next (clock n) r q).1 in
    let q₂ = (cmd_complete (clock n) note r q₁).1 in
    win_rounds_count i n clock note r q₂
    ∙ (queue_count-cmd_complete i (clock n) note r q₁ ∙ queue_count-win_next i (clock n) r q)

-- A role without an active job is drained by rounds of `next` and `complete`, as many as it has pending jobs:
-- then nothing is active, nothing is pending on the first script, only the blocked jobs are pending on the
-- second, and every id stands in the queue as often as before.
pub rounds_drain :
    (n : ℕ) (clock : ℕ → ℕ) (note : String) (r : Role) (q : Queue) (i : String)
    → (lane r q).active ≡ none
    → length (lane r q).pending ≤ n
    → let m = mac_rounds n clock note r q in
      let w = win_rounds n clock note r q in
      ((lane r m).active ≡ none)
      × ((lane r m).pending ≡ [])
      × (queue_count i m ≡ queue_count i q)
      × ((lane r w).active ≡ none)
      × ((lane r w).pending ≡ blocked_only (lane r q).pending)
      × (queue_count i w ≡ queue_count i q)
rounds_drain n clock note r q i e h =
    let (a, b) = mac_rounds-IsResting n clock note r q e h in
    let open' = length-select-le (λ j. not (is_blocked j)) (lane r q).pending in
    let (c, d) = win_rounds-IsResting n clock note r q e (omega (arith, open')) in
    (a, b, mac_rounds_count i n clock note r q, c, d, win_rounds_count i n clock note r q)
