-- ===== src/Jobs/Blocked.antt =====
-- What mac_job_queue.py and win_job_queue.py do with a blocked job at the head of a role.
use mathlib.Core.Bool.{true≢false}
use orama_system.Base.{
  ℕ, ◌≤◌, String, ◌≡◌, refl, sym, ◌∙◌, ap, ap₂, subst, ◌≢◌, true, Option, none, some, List, [], ◌∷◌,
  ◌++◌, arith, eq_refl,
}
use orama_system.Jobs.{
  Job, Role, first_role, Lane, Queue, lane, with_lane, Meta, is_blocked, start_job, claimed,
  enqueue_from_inbox,
}
use orama_system.Jobs.Counts.{count, count-append}
use orama_system.Jobs.Order.{next_claims_first}
use orama_system.Jobs.Mac
use orama_system.Jobs.Mac.{mac_rules}
use orama_system.Jobs.Win
use orama_system.Jobs.Drain.{lane-with_lane}

count-skip_blocked_done :
    (i : String) (js done : List Job) → count i done ≤ count i (Mac.skip_blocked js done).1.1
unfolding Mac.skip_blocked
count-skip_blocked_done i [] done = omega arith
count-skip_blocked_done i (j ∷ js) done =
    let noted = record j { note = some "skipped-blocked" } in
    ground
      (arith, count-skip_blocked_done i js (done ++ noted ∷ []), count-append i done (noted ∷ []))

skipped_head :
    (j : Job) (js done : List Job)
    → is_blocked j ≡ true
    → 1 ≤ count j.id (Mac.skip_blocked (j ∷ js) done).1.1
unfolding Mac.skip_blocked
skipped_head j js done h =
    let noted = record j { note = some "skipped-blocked" } in
    ground (
      arith,
      count-skip_blocked_done j.id js (done ++ noted ∷ []),
      count-append j.id done (noted ∷ []),
      eq_refl j.id,
    )

kept_head :
    (j : Job) (js : List Job)
    → is_blocked j ≡ true
    → 1 ≤ count j.id (Win.claim_next_pending (j ∷ js)).1
unfolding Win.claim_next_pending
kept_head j js h = ground (arith, eq_refl j.id)

take_next-done :
    (now : ℕ) (t : Option Job × (List Job × List Job)) (l : Lane)
    → (Mac.take_next now t l).1.done ≡ t.1.1
take_next-done now (none, (pending, done)) l = refl
take_next-done now (some j, (pending, done)) l = refl

take_claimed-pending :
    (i : String) (now : ℕ) (t : Option Job × List Job) (l : Lane)
    → 1 ≤ count i l.pending
    → 1 ≤ count i t.1
    → 1 ≤ count i (Win.take_claimed now t l).1.pending
take_claimed-pending i now (none, pending) l h g = h
take_claimed-pending i now (some j, pending) l h g = g

-- A blocked job at the head of a role's pending jobs: `next` of the first script counts it among the done
-- ones, where nothing takes it up again, and `next` of the second leaves it pending.
pub next_on_blocked :
    (now : ℕ) (r : Role) (q : Queue) (j : Job) (js : List Job)
    → (lane r q).active ≡ none
    → (lane r q).pending ≡ j ∷ js
    → is_blocked j ≡ true
    → (1 ≤ count j.id (lane r (Mac.cmd_next now r q).1).done)
      × (1 ≤ count j.id (lane r (Win.cmd_next now r q).1).pending)
unfolding Mac.cmd_next Win.cmd_next
next_on_blocked now r q j js e f b =
    let l = lane r q in
    let m : lane r (with_lane r (Mac.next_lane now l.active l).1 q)
        ≡ (Mac.take_next now (Mac.skip_blocked l.pending l.done) l).1 =
      lane-with_lane r (Mac.next_lane now l.active l).1 q ∙ ap (λ o. (Mac.next_lane now o l).1) e in
    let w : lane r (with_lane r (Win.next_lane now l.active l).1 q)
        ≡ (Win.take_claimed now (Win.claim_next_pending l.pending) l).1 =
      lane-with_lane r (Win.next_lane now l.active l).1 q ∙ ap (λ o. (Win.next_lane now o l).1) e in
    let head : 1 ≤ count j.id l.pending = ground (arith, eq_refl j.id) in
    (
      subst (λ x. 1 ≤ count j.id x.done) (sym m)
          (subst (λ x. 1 ≤ count j.id x)
            (sym (take_next-done now (Mac.skip_blocked l.pending l.done) l))
            (subst (λ x. 1 ≤ count j.id (Mac.skip_blocked x l.done).1.1) (sym f)
              (skipped_head j js l.done b))),
      subst (λ x. 1 ≤ count j.id x.pending) (sym w)
          (take_claimed-pending j.id now (Win.claim_next_pending l.pending) l head
            (subst (λ x. 1 ≤ count j.id (Win.claim_next_pending x).1) (sym f) (kept_head j js b))),
    )

-- A blocked job at the head of the first role once the inbox is taken in: `run-once` of the first script
-- makes it the active job, though `next` of the script does not claim it.
pub run_once_on_blocked :
    (read_inbox_file : String → Option String) (inbox : List (ℕ × Meta)) (now now' : ℕ) (q : Queue)
    (j : Job) (js : List Job)
    → (enqueue_from_inbox mac_rules read_inbox_file inbox q).1.first.active ≡ none
    → (enqueue_from_inbox mac_rules read_inbox_file inbox q).1.first.pending ≡ j ∷ js
    → is_blocked j ≡ true
    → ((Mac.cmd_run_once read_inbox_file inbox now now' q).1.first.active ≡ some (start_job now j))
      × ((Mac.cmd_next now first_role (enqueue_from_inbox mac_rules read_inbox_file inbox q).1).0
          ≢ claimed (start_job now j))
unfolding Mac.cmd_run_once
run_once_on_blocked read_inbox_file inbox now now' q j js e f b =
    let q' = (enqueue_from_inbox mac_rules read_inbox_file inbox q).1 in
    (
      ap₂ (λ o ks. (Mac.claim_head now o ks q'.first).1.active) e f,
      λ h. true≢false (
          sym b
          ∙ (next_claims_first mac_rules read_inbox_file inbox q now first_role (start_job now j)
              h).0),
    )
