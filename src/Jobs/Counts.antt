-- ===== src/Jobs/Counts.antt =====
-- How often an id stands in the queues of mac_job_queue.py and win_job_queue.py, and what moving jobs
-- between the lists of a role does to it.
use orama_system.Base.{
  ℕ, ◌+◌, ◌≤◌, String, ◌≡◌, refl, Bool, true, false, not, Option, none, some, List, [], ◌∷◌, ◌++◌,
  arith, ◌==◌, eq_iff, select,
}
use orama_system.Jobs.{
  Job, Role, first_role, second_role, Lane, Queue, lane, with_lane, insert_job, sort_jobs,
  finish_job, complete_lane, cmd_complete, Rules, prune_pending, stays_pending,
}
use orama_system.Jobs.Mac
use orama_system.Jobs.Win

abbrev pub bit : Bool → ℕ
bit true = 1
bit false = 0

abbrev pub count : String → List Job → ℕ
count i [] = 0
count i (j ∷ js) = bit (j.id == i) + count i js

abbrev pub count_active : String → Option Job → ℕ
count_active i none = 0
count_active i (some j) = bit (j.id == i)

abbrev pub lane_count : String → Lane → ℕ
lane_count i l = count_active i l.active + (count i l.pending + count i l.done)

-- How often an id stands in the queue, active, pending or done, under either role.
unfoldable pub queue_count : String → Queue → ℕ
queue_count i q = lane_count i q.first + lane_count i q.second

pub count-append : (i : String) (js ks : List Job) → count i (js ++ ks) ≡ count i js + count i ks
count-append i [] ks = omega arith
count-append i (j ∷ js) ks = omega (arith, count-append i js ks)

pub count-select-le :
    (i : String) (keep : Job → Bool) (js : List Job) → count i (select keep js) ≤ count i js
count-select-le i keep [] = omega arith
count-select-le i keep (j ∷ js) = ground (arith, count-select-le i keep js)

count-insert_job :
    (i : String) (j : Job) (js : List Job) → count i (insert_job j js) ≡ count i (j ∷ js)
unfolding insert_job
count-insert_job i j [] = refl
count-insert_job i j (k ∷ ks) = ground (arith, count-insert_job i j ks)

pub count-sort_jobs : (i : String) (js : List Job) → count i (sort_jobs js) ≡ count i js
unfolding sort_jobs
count-sort_jobs i [] = refl
count-sort_jobs i (j ∷ js) =
    omega (arith, count-insert_job i j (sort_jobs js), count-sort_jobs i js)

pub queue_count-with_lane :
    (i : String) (r : Role) (l : Lane) (q : Queue)
    → queue_count i (with_lane r l q) + lane_count i (lane r q) ≡ queue_count i q + lane_count i l
unfolding queue_count
queue_count-with_lane i first_role l q = omega arith
queue_count-with_lane i second_role l q = omega arith

-- ------------------------------------------------------------------ next

count-skip_blocked :
    (i : String) (js done : List Job)
    → let (out, (pending, done')) = Mac.skip_blocked js done in
      count_active i out + (count i pending + count i done') ≡ count i js + count i done
unfolding Mac.skip_blocked
count-skip_blocked i [] done = omega arith
count-skip_blocked i (j ∷ js) done =
    let noted = record j { note = some "skipped-blocked" } in
    ground (arith, count-skip_blocked i js (done ++ noted ∷ []), count-append i done (noted ∷ []))

count-claim_next_pending :
    (i : String) (js : List Job)
    → let (out, rest) = Win.claim_next_pending js in count_active i out + count i rest ≡ count i js
unfolding Win.claim_next_pending
count-claim_next_pending i [] = omega arith
count-claim_next_pending i (j ∷ js) = ground (arith, count-claim_next_pending i js)

lane_count-take_next :
    (i : String) (now : ℕ) (t : Option Job × (List Job × List Job)) (l : Lane)
    → l.active ≡ none
    → lane_count i (Mac.take_next now t l).1 ≡ count_active i t.0 + (count i t.1.0 + count i t.1.1)
lane_count-take_next i now (none, (pending, done)) l e = ground arith
lane_count-take_next i now (some j, (pending, done)) l e = omega arith

lane_count-mac_next :
    (i : String) (now : ℕ) (o : Option Job) (l : Lane)
    → l.active ≡ o
    → lane_count i (Mac.next_lane now o l).1 ≡ lane_count i l
lane_count-mac_next i now (some j) l e = refl
lane_count-mac_next i now none l e = ground (
  arith,
  lane_count-take_next i now (Mac.skip_blocked l.pending l.done) l,
  count-skip_blocked i l.pending l.done,
)

pub lane_count-win_next :
    (i : String) (now : ℕ) (o : Option Job) (l : Lane)
    → l.active ≡ o
    → lane_count i (Win.next_lane now o l).1 ≡ lane_count i l
lane_count-win_next i now (some j) l e = refl
lane_count-win_next i now none l e = ground (arith, count-claim_next_pending i l.pending)

pub queue_count-mac_next :
    (i : String) (now : ℕ) (r : Role) (q : Queue)
    → queue_count i (Mac.cmd_next now r q).1 ≡ queue_count i q
unfolding Mac.cmd_next
queue_count-mac_next i now r q =
    let l = lane r q in
    let (out, l') = Mac.next_lane now l.active l in
    omega (arith, queue_count-with_lane i r l' q, lane_count-mac_next i now l.active l refl)

pub queue_count-win_next :
    (i : String) (now : ℕ) (r : Role) (q : Queue)
    → queue_count i (Win.cmd_next now r q).1 ≡ queue_count i q
unfolding Win.cmd_next
queue_count-win_next i now r q =
    let l = lane r q in
    let (out, l') = Win.next_lane now l.active l in
    omega (arith, queue_count-with_lane i r l' q, lane_count-win_next i now l.active l refl)

-- ------------------------------------------------------------------ the other commands

lane_count-complete_lane :
    (i : String) (now : ℕ) (note : String) (o : Option Job) (l : Lane)
    → l.active ≡ o
    → lane_count i (complete_lane now note o l).1 ≡ lane_count i l
lane_count-complete_lane i now note none l e = refl
lane_count-complete_lane i now note (some j) l e =
    ground (arith, count-append i l.done (finish_job now note j ∷ []))

pub queue_count-cmd_complete :
    (i : String) (now : ℕ) (note : String) (r : Role) (q : Queue)
    → queue_count i (cmd_complete now note r q).1 ≡ queue_count i q
unfolding cmd_complete
queue_count-cmd_complete i now note r q =
    let l = lane r q in
    let (out, l') = complete_lane now note l.active l in
    omega
      (arith, queue_count-with_lane i r l' q, lane_count-complete_lane i now note l.active l refl)

pub lane_count-claim_head :
    (i : String) (now : ℕ) (o : Option Job) (js : List Job) (l : Lane)
    → l.active ≡ o
    → l.pending ≡ js
    → lane_count i (Mac.claim_head now o js l).1 ≡ lane_count i l
lane_count-claim_head i now (some j) js l e f = refl
lane_count-claim_head i now none [] l e f = refl
lane_count-claim_head i now none (j ∷ js) l e f = ground arith

count-find_job :
    (i k : String) (js : List Job) (j : Job)
    → Win.find_job k js ≡ some j
    → bit (j.id == i) + count i (select (λ x. not (Win.has_job_id k x)) js) ≤ count i js
count-find_job i k [] j e = cc
count-find_job i k (x ∷ xs) j e = ground (
  arith,
  count-find_job i k xs j,
  count-select-le i (λ y. not (Win.has_job_id k y)) xs,
  eq_iff x.id k,
)

lane_count-reconcile :
    (i : String) (now : ℕ) (note k : String) (o : Option Job) (l : Lane)
    → Win.find_job k l.pending ≡ o
    → lane_count i (Win.reconcile now note k o l).1 ≤ lane_count i l
lane_count-reconcile i now note k none l e = omega arith
lane_count-reconcile i now note k (some j) l e =
    ground
      (arith, count-find_job i k l.pending j, count-append i l.done (finish_job now note j ∷ []))

pub queue_count-cmd_complete_pending :
    (i : String) (now : ℕ) (note : String) (r : Role) (k : String) (q : Queue)
    → queue_count i (Win.cmd_complete_pending now note r k q).1 ≤ queue_count i q
unfolding Win.cmd_complete_pending
queue_count-cmd_complete_pending i now note r k q =
    let l = lane r q in
    let o = Win.find_job k l.pending in
    let (out, l') = Win.reconcile now note k o l in
    omega (arith, queue_count-with_lane i r l' q, lane_count-reconcile i now note k o l refl)

pub queue_count-prune_pending :
    (i : String) (rules : Rules) (q : Queue)
    → queue_count i (prune_pending rules q).1 ≤ queue_count i q
unfolding queue_count prune_pending
queue_count-prune_pending i rules q = omega (
  arith,
  count-select-le i (stays_pending rules) q.first.pending,
  count-select-le i (stays_pending rules) q.second.pending,
)
