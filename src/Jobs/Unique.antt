-- ===== src/Jobs/Unique.antt =====
-- The commands of mac_job_queue.py and win_job_queue.py, and the ids of the queue under any of them.
use orama_system.Base.{
  ℕ, ◌+◌, ◌≤◌, String, ◌≡◌, refl, Bool, true, false, ◌||◌, Option, none, some, List, [], ◌∷◌, ◌++◌,
  map, arith, ◌==◌, eq_iff, any, Bool-cases, Option-cases, inl, inr, ◌⊎◌,
}
use orama_system.Jobs.{
  Job, Role, Lane, Queue, lane, lane_ids, known_ids, sort_jobs, Meta, Rules, prune_pending,
  role_for, new_job, Intake, admit, take_in, append_pending, enqueue_from_inbox, cmd_complete,
  cmd_pulse_gate,
}
use orama_system.Jobs.Mac
use orama_system.Jobs.Mac.{mac_rules}
use orama_system.Jobs.Win
use orama_system.Jobs.Win.{win_rules}
use orama_system.Jobs.Counts.{
  bit, count, lane_count, queue_count, count-append, count-sort_jobs, queue_count-with_lane,
  queue_count-mac_next, queue_count-win_next, queue_count-cmd_complete, lane_count-claim_head,
  lane_count-win_next, queue_count-cmd_complete_pending, queue_count-prune_pending,
}

abbrev is_member : String → List String → Bool
is_member i ks = any (λ k. k == i) ks

is_member-append :
    (i : String) (xs ys : List String) → is_member i (xs ++ ys) ≡ (is_member i xs || is_member i ys)
is_member-append i [] ys = refl
is_member-append i (x ∷ xs) ys = ground (arith, is_member-append i xs ys)

is_member-count :
    (i : String) (js : List Job) → 1 ≤ count i js → is_member i (map (λ (j : Job). j.id) js) ≡ true
is_member-count i [] h = elim h [ ]
is_member-count i (j ∷ js) h = ground (arith, is_member-count i js)

is_member-pending :
    (i : String) (js ks : List Job)
    → 1 ≤ count i js + count i ks
    → is_member i (map (λ (j : Job). j.id) js ++ map (λ (j : Job). j.id) ks) ≡ true
is_member-pending i js ks h = ground (
  arith,
  is_member-append i (map (λ (j : Job). j.id) js) (map (λ (j : Job). j.id) ks),
  is_member-count i js,
  is_member-count i ks,
)

is_member-lane :
    (i : String) (o : Option Job) (l : Lane)
    → l.active ≡ o
    → 1 ≤ lane_count i l
    → is_member i (lane_ids l) ≡ true
is_member-lane i none l e h = ground (arith, is_member-pending i l.pending l.done)
is_member-lane i (some j) l e h = ground (arith, is_member-pending i l.pending l.done)

-- Every id of the queue is known.
is_member-known_ids :
    (i : String) (q : Queue) → 1 ≤ queue_count i q → is_member i (known_ids q) ≡ true
unfolding queue_count known_ids
is_member-known_ids i q h = ground (
  arith,
  is_member-append i (lane_ids q.first) (lane_ids q.second),
  is_member-lane i q.first.active q.first refl,
  is_member-lane i q.second.active q.second refl,
)

lane_count-append_pending :
    (i : String) (j : Job) (l : Lane)
    → lane_count i (append_pending j l) ≡ bit (j.id == i) + lane_count i l
lane_count-append_pending i j l = omega (arith, count-append i l.pending (j ∷ []))

role_for-unknown :
    (rules : Rules) (known : List String) (m : Meta) (r : Role)
    → role_for rules known m ≡ some r
    → is_member m.filename known ≡ false
unfolding role_for
role_for-unknown rules known m r h = ground arith

-- An id stands in the queue once at most, and only if it is known.
abbrev IsKnown : String → Intake → Type 0
IsKnown i t = queue_count i t.queue ≤ bit (is_member i t.known)

admit-IsKnown :
    (i : String) (j : Job) (o : Option Role) (t : Intake)
    → IsKnown i t
    → (o ≡ none) ⊎ (is_member j.id t.known ≡ false)
    → IsKnown i (admit j o t)
admit-IsKnown i j none t h k = h
admit-IsKnown i j (some r) t h k =
    let l = lane r t.queue in
    ground (
      arith,
      queue_count-with_lane i r (append_pending j l) t.queue,
      lane_count-append_pending i j l,
      eq_iff j.id i,
      k,
    )

take_in-IsKnown :
    (i : String) (rules : Rules) (read_inbox_file : String → Option String)
    (inbox : List (ℕ × Meta)) (t : Intake)
    → IsKnown i t
    → IsKnown i (take_in rules read_inbox_file inbox t)
unfolding take_in new_job
take_in-IsKnown i rules read_inbox_file [] t h = h
take_in-IsKnown i rules read_inbox_file ((now, m) ∷ inbox) t h =
    let j = new_job rules read_inbox_file now m in
    let o = role_for rules t.known m in
    let fresh : (o ≡ none) ⊎ (is_member m.filename t.known ≡ false) = elim (Option-cases o) [
      | inl e ↦ inl e
      | inr (r, e) ↦ inr (role_for-unknown rules t.known m r e)
    ] in
    take_in-IsKnown i rules read_inbox_file inbox (admit j o t) (admit-IsKnown i j o t h fresh)

sorted_count :
    (i : String) (q : Queue)
    → queue_count i (record {
      first = record (q.first) { pending = sort_jobs q.first.pending };
      second = record (q.second) { pending = sort_jobs q.second.pending };
    })
      ≡ queue_count i q
unfolding queue_count
sorted_count i q =
    omega (arith, count-sort_jobs i q.first.pending, count-sort_jobs i q.second.pending)

bit-le : (b : Bool) → bit b ≤ 1
bit-le true = omega arith
bit-le false = omega arith

known_start :
    (i : String) (q : Queue)
    → queue_count i q ≤ 1
    → queue_count i q ≤ bit (is_member i (known_ids q))
known_start i q h = elim (Bool-cases (is_member i (known_ids q))) [
  | inl e ↦ ground arith
  | inr e ↦ ground (arith, is_member-known_ids i q)
]

pub enqueue-once :
    (i : String) (rules : Rules) (read_inbox_file : String → Option String)
    (inbox : List (ℕ × Meta)) (q : Queue)
    → queue_count i q ≤ 1
    → queue_count i (enqueue_from_inbox rules read_inbox_file inbox q).1 ≤ 1
unfolding enqueue_from_inbox
enqueue-once i rules read_inbox_file inbox q h =
    let pruned = (prune_pending rules q).1 in
    let less = queue_count-prune_pending i rules q in
    let start : Intake = record { known = known_ids pruned; added = []; queue = pruned } in
    let t = take_in rules read_inbox_file inbox start in
    let known =
      take_in-IsKnown i rules read_inbox_file inbox start (known_start i pruned (omega arith)) in
    omega (arith, sorted_count i t.queue, known, bit-le (is_member i t.known))

-- ------------------------------------------------------------------ commands

-- The commands of either script that save the queue. `status` saves nothing.
pub data Command : Type 0 where
  enqueue : List (ℕ × Meta) → Command
  pulse_gate : List (ℕ × Meta) → Command
  prune : Command
  next : ℕ → Role → Command
  complete : ℕ → String → Role → Command
  complete_pending : ℕ → String → Role → String → Command
  run_once : List (ℕ × Meta) → ℕ → ℕ → Command

-- The first script has no `prune` and no `complete-pending`.
unfoldable pub mac : (String → Option String) → Command → Queue → Queue
mac read_inbox_file (enqueue inbox) q = (enqueue_from_inbox mac_rules read_inbox_file inbox q).1
mac read_inbox_file (pulse_gate inbox) q = (cmd_pulse_gate mac_rules read_inbox_file inbox q).1
mac read_inbox_file prune q = q
mac read_inbox_file (next now r) q = (Mac.cmd_next now r q).1
mac read_inbox_file (complete now note r) q = (cmd_complete now note r q).1
mac read_inbox_file (complete_pending now note r i) q = q
mac read_inbox_file (run_once inbox now now') q =
    (Mac.cmd_run_once read_inbox_file inbox now now' q).1

unfoldable pub win : (String → Option String) → Command → Queue → Queue
win read_inbox_file (enqueue inbox) q = (enqueue_from_inbox win_rules read_inbox_file inbox q).1
win read_inbox_file (pulse_gate inbox) q = (cmd_pulse_gate win_rules read_inbox_file inbox q).1
win read_inbox_file prune q = (prune_pending win_rules q).1
win read_inbox_file (next now r) q = (Win.cmd_next now r q).1
win read_inbox_file (complete now note r) q = (cmd_complete now note r q).1
win read_inbox_file (complete_pending now note r i) q = (Win.cmd_complete_pending now note r i q).1
win read_inbox_file (run_once inbox now now') q =
    (Win.cmd_run_once read_inbox_file inbox now now' q).1

mac_run_once_count :
    (i : String) (read_inbox_file : String → Option String) (inbox : List (ℕ × Meta)) (now now' : ℕ)
    (q : Queue)
    → queue_count i (Mac.cmd_run_once read_inbox_file inbox now now' q).1
      ≡ queue_count i (enqueue_from_inbox mac_rules read_inbox_file inbox q).1
unfolding Mac.cmd_run_once queue_count
mac_run_once_count i read_inbox_file inbox now now' q =
    let q' = (enqueue_from_inbox mac_rules read_inbox_file inbox q).1 in
    omega (
      arith,
      lane_count-claim_head i now q'.first.active q'.first.pending q'.first refl refl,
      lane_count-claim_head i now' q'.second.active q'.second.pending q'.second refl refl,
    )

win_run_once_count :
    (i : String) (read_inbox_file : String → Option String) (inbox : List (ℕ × Meta)) (now now' : ℕ)
    (q : Queue)
    → queue_count i (Win.cmd_run_once read_inbox_file inbox now now' q).1
      ≡ queue_count i (enqueue_from_inbox win_rules read_inbox_file inbox q).1
unfolding Win.cmd_run_once queue_count
win_run_once_count i read_inbox_file inbox now now' q =
    let q' = (enqueue_from_inbox win_rules read_inbox_file inbox q).1 in
    omega (
      arith,
      lane_count-win_next i now q'.first.active q'.first refl,
      lane_count-win_next i now' q'.second.active q'.second refl,
    )

mac-once :
    (i : String) (read_inbox_file : String → Option String) (c : Command) (q : Queue)
    → queue_count i q ≤ 1
    → queue_count i (mac read_inbox_file c q) ≤ 1
unfolding mac cmd_pulse_gate
mac-once i f (enqueue inbox) q h = enqueue-once i mac_rules f inbox q h
mac-once i f (pulse_gate inbox) q h = enqueue-once i mac_rules f inbox q h
mac-once i f prune q h = h
mac-once i f (next now r) q h = omega (arith, queue_count-mac_next i now r q)
mac-once i f (complete now note r) q h = omega (arith, queue_count-cmd_complete i now note r q)
mac-once i f (complete_pending now note r k) q h = h
mac-once i f (run_once inbox now now') q h =
    omega (arith, mac_run_once_count i f inbox now now' q, enqueue-once i mac_rules f inbox q h)

win-once :
    (i : String) (read_inbox_file : String → Option String) (c : Command) (q : Queue)
    → queue_count i q ≤ 1
    → queue_count i (win read_inbox_file c q) ≤ 1
unfolding win cmd_pulse_gate
win-once i f (enqueue inbox) q h = enqueue-once i win_rules f inbox q h
win-once i f (pulse_gate inbox) q h = enqueue-once i win_rules f inbox q h
win-once i f prune q h = omega (arith, queue_count-prune_pending i win_rules q)
win-once i f (next now r) q h = omega (arith, queue_count-win_next i now r q)
win-once i f (complete now note r) q h = omega (arith, queue_count-cmd_complete i now note r q)
win-once i f (complete_pending now note r k) q h =
    omega (arith, queue_count-cmd_complete_pending i now note r k q)
win-once i f (run_once inbox now now') q h =
    omega (arith, win_run_once_count i f inbox now now' q, enqueue-once i win_rules f inbox q h)

-- No command of either script that saves the queue puts an id into the queue that is in it, whatever the inbox holds: a job is
-- active, pending or done under one role only. `next` and `complete` neither lose nor add a job.
pub commands-once :
    (i : String) (read_inbox_file : String → Option String) (c : Command) (now : ℕ) (note : String)
    (r : Role) (q : Queue)
    → queue_count i q ≤ 1
    → (queue_count i (mac read_inbox_file c q) ≤ 1)
      × (queue_count i (win read_inbox_file c q) ≤ 1)
      × (queue_count i (mac read_inbox_file (next now r) q) ≡ queue_count i q)
      × (queue_count i (win read_inbox_file (next now r) q) ≡ queue_count i q)
      × (queue_count i (cmd_complete now note r q).1 ≡ queue_count i q)
unfolding mac win
commands-once i read_inbox_file c now note r q h = (
  mac-once i read_inbox_file c q h,
  win-once i read_inbox_file c q h,
  queue_count-mac_next i now r q,
  queue_count-win_next i now r q,
  queue_count-cmd_complete i now note r q,
)
