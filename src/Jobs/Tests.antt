-- ===== src/Jobs/Tests.antt =====
-- Runs of mac_job_queue.py and win_job_queue.py on concrete inputs.
use orama_system.Base.{
  ℕ, String, ◌≡◌, ◌≢◌, ◌≤◌, refl, true, false, Option, none, some, List, [], ◌∷◌, arith, codes,
}
use orama_system.Jobs.{
  Job, first_role, second_role, empty_lane, Queue, lane, Meta, is_blocked, start_job, claimed,
  enqueue_from_inbox, take_in, new_job, role_for, prune_pending, known_ids, sort_jobs, insert_job,
  cmd_complete, cmd_pulse_gate, first_actionable_pending,
}
use orama_system.Jobs.Match.{
  search_priority, skip_spaces, read_digits, search_numbered, digits_then,
}
use orama_system.Jobs.Mac
use orama_system.Jobs.Mac.{mac_rules, skip_files}
use orama_system.Jobs.Win
use orama_system.Jobs.Win.{win_rules}
use orama_system.Jobs.Counts.{queue_count}
use orama_system.Jobs.Unique.{enqueue, next, mac, win, commands-once}
use orama_system.Jobs.Order.{none_before, next_claims_first, pick_is_next}
use orama_system.Jobs.Drain.{mac_rounds, win_rounds, rounds_drain}
use orama_system.Jobs.Blocked.{run_once_on_blocked}

abbrev card : String → String → Meta
card name source = record {
  filename = name;
  topic = "";
  source = source;
  fanout_id = "";
  assignee = "";
}

abbrev read : String → Option String
read name = some "**Priority**: 3"

abbrev inbox : List (ℕ × Meta)
inbox =
    (7, card "win-report.md" "win")
    ∷ (8, card "win-cycle-12-ack.md" "win")
    ∷ (9, card "win-report.md" "win")
    ∷ (9, card "mac-orchestrator-plan.md" "pc")
    ∷ []

abbrev no_jobs : Queue
no_jobs = record { first = empty_lane; second = empty_lane }

abbrev job : String → ℕ → Job
job name at = record {
  id = name;
  filename = name;
  topic = "";
  source = "win";
  fanout_id = "";
  priority = 3;
  enqueued_at = at;
  started_at = none;
  completed_at = none;
  note = none;
}

priority_test : search_priority (codes "a *Priority*:  12 b") ≡ some 12
unfolding search_priority skip_spaces read_digits
priority_test = refl

skip_files_test : skip_files "Win-Cycle-12-ACK.md" ≡ true
unfolding search_numbered digits_then
skip_files_test = refl

actionable_test : Win.is_actionable_assignment "mac-Hypothesis-h6-real-task.md" "" "mac" ≡ true
unfolding Win.is_actionable_assignment
actionable_test = refl

enqueue_test :
    (enqueue_from_inbox mac_rules read inbox no_jobs).1.first.pending
    ≡ job "win-report.md" 7 ∷ record (job "mac-orchestrator-plan.md" 9) { source = "pc" } ∷ []
unfolding enqueue_from_inbox prune_pending take_in new_job role_for known_ids sort_jobs insert_job
    Mac.is_actionable_assignment Mac.classify_role Mac.priority search_numbered digits_then
    search_priority skip_spaces read_digits
enqueue_test = refl

commands-once_example :
    (queue_count "win-report.md" (mac read (enqueue inbox) no_jobs) ≤ 1)
    × (queue_count "win-report.md" (win read (enqueue inbox) no_jobs) ≤ 1)
    × (queue_count "win-report.md" (mac read (next 9 first_role) no_jobs)
        ≡ queue_count "win-report.md" no_jobs)
    × (queue_count "win-report.md" (win read (next 9 first_role) no_jobs)
        ≡ queue_count "win-report.md" no_jobs)
    × (queue_count "win-report.md" (cmd_complete 9 "" first_role no_jobs).1
        ≡ queue_count "win-report.md" no_jobs)
unfolding queue_count
commands-once_example =
    commands-once "win-report.md" read (enqueue inbox) 9 "" first_role no_jobs (omega arith)

next_claims_first_example :
    let q = (enqueue_from_inbox mac_rules read inbox no_jobs).1 in
    (is_blocked (start_job 10 (job "win-report.md" 7)) ≡ false)
    × (none_before (start_job 10 (job "win-report.md" 7)) (lane first_role q).pending ≡ true)
    × ((Win.cmd_next 10 first_role q).0 ≡ claimed (start_job 10 (job "win-report.md" 7)))
unfolding enqueue_from_inbox prune_pending take_in new_job role_for known_ids sort_jobs insert_job
    Mac.is_actionable_assignment Mac.classify_role Mac.priority search_numbered digits_then
    search_priority skip_spaces read_digits Mac.cmd_next Mac.skip_blocked
next_claims_first_example =
    next_claims_first mac_rules read inbox no_jobs 10 first_role
      (start_job 10 (job "win-report.md" 7)) refl

pick_is_next_example :
    let q = (cmd_pulse_gate mac_rules read inbox no_jobs).1 in
    ((Mac.cmd_next 10 first_role q).0 ≡ claimed (start_job 10 (job "win-report.md" 7)))
    × ((Win.cmd_next 10 first_role q).0 ≡ claimed (start_job 10 (job "win-report.md" 7)))
    × ((lane first_role q).active ≡ none)
    × ((lane second_role q).active ≡ none)
unfolding cmd_pulse_gate first_actionable_pending enqueue_from_inbox prune_pending take_in new_job
    role_for known_ids sort_jobs insert_job Mac.is_actionable_assignment Mac.classify_role
    Mac.priority search_numbered digits_then search_priority skip_spaces read_digits
pick_is_next_example =
    pick_is_next mac_rules read inbox no_jobs 10 first_role (job "win-report.md" 7) refl

abbrev blocked_job : Job
blocked_job = job "win-coder-l1-comms-autoplan-backlog.md" 1

abbrev held : Queue
held = record {
  first = record { active = none; pending = blocked_job ∷ job "win-report.md" 7 ∷ []; done = [] };
  second = empty_lane;
}

rounds_drain_example :
    let m = mac_rounds 2 (λ n. n) "" first_role held in
    let w = win_rounds 2 (λ n. n) "" first_role held in
    ((lane first_role m).active ≡ none)
    × ((lane first_role m).pending ≡ [])
    × (queue_count "win-report.md" m ≡ queue_count "win-report.md" held)
    × ((lane first_role w).active ≡ none)
    × ((lane first_role w).pending ≡ blocked_job ∷ [])
    × (queue_count "win-report.md" w ≡ queue_count "win-report.md" held)
rounds_drain_example = rounds_drain 2 (λ n. n) "" first_role held "win-report.md" refl (omega arith)

run_once_on_blocked_example :
    ((Mac.cmd_run_once read [] 10 11 held).1.first.active ≡ some (start_job 10 blocked_job))
    × ((Mac.cmd_next 10 first_role (enqueue_from_inbox mac_rules read [] held).1).0
        ≢ claimed (start_job 10 blocked_job))
unfolding enqueue_from_inbox prune_pending take_in known_ids sort_jobs insert_job
    Mac.is_actionable_assignment search_numbered digits_then
run_once_on_blocked_example =
    run_once_on_blocked read [] 10 11 held blocked_job (job "win-report.md" 7 ∷ []) refl refl refl
