-- ===== src/Jobs/Win.antt =====
-- bin/orama-system/skills/hermes-harness/scripts/win_job_queue.py: its rules, and the commands that differ
-- from those of the other queue.
use orama_system.Base.{
  ℕ, String, Bool, true, false, not, ◌&&◌, ◌||◌, Option, none, some, List, [], ◌∷◌, ◌++◌,
  if◌then◌else◌, ◌==◌, concat, codes, lower, same_codes, strip, starts_with, occurs_in, select,
}
use orama_system.Jobs.{
  Job, Role, first_role, second_role, Lane, Queue, lane, with_lane, Meta, Rules, is_blocked,
  start_job, finish_job, Next, claimed, occupied, nothing, enqueue_from_inbox,
}
use orama_system.Jobs.Match.{search_any, search_priority}

abbrev pub autoresearcher : Role
autoresearcher = first_role

abbrev pub coder : Role
coder = second_role

abbrev name_starts : String → String → Bool
name_starts p name = starts_with (codes p) (lower name)

abbrev name_has : String → String → Bool
name_has p name = occurs_in (codes p) (lower name)

unfoldable pub is_actionable_assignment : String → String → String → Bool
is_actionable_assignment filename topic source =
    if name_starts "win-autoresearcher-" filename || name_starts "win-coder-" filename
    then true
    else if name_starts "win-autoresearch-" filename && occurs_in (codes "gpu") (codes topic)
    then true
    else if name_starts "hypothesis-" filename || name_starts "code-review-win" filename
    then false
    else if (source == "mac") && name_starts "mac-" filename
    then name_has "hypothesis" filename && name_has "real-task" filename
    else false

-- `_SKIP_TOPICS.search`
abbrev pub skip_topics : String → Bool
skip_topics s =
    search_any
      ("self-improve/" ∷ "ops/co-orchestration-active" ∷ "ops/warmup" ∷ "ops/peer-file"
        ∷ "where_to_look" ∷ [])
      (lower s)

-- The rules of `_ROLE_RULES` in their order, over `f"{filename} {topic}"`.
unfoldable pub classify_role : String → String → Option Role
classify_role filename topic =
    let blob = lower (concat filename (concat " " topic)) in
    if skip_topics topic || skip_topics filename
    then none
    else if search_any
        ("autoresearch/" ∷ "gpu-run" ∷ "gpu-done" ∷ "h5-" ∷ "h4-" ∷ "hypothesis" ∷ []) blob
    then some autoresearcher
    else if search_any
        ("code-review/" ∷ "bridge" ∷ "portal-fix" ∷ "branch-policy" ∷ "frugal-spawn" ∷ "coder" ∷ [])
        blob
    then some coder
    else none

unfoldable pub priority : Meta → String → ℕ
priority m body = elim (search_priority (codes body)) [
  | some n ↦ n
  | none ↦
      if occurs_in (codes "coord-004") (codes m.fanout_id)
      then 1
      else if occurs_in (codes "coord-003") (codes m.fanout_id)
      then 2
      else 10
]

-- Only entries that are assigned to this machine, or to none.
unfoldable pub is_for_win : Meta → Bool
is_for_win m =
    same_codes (lower (strip m.assignee)) (codes "win") || same_codes (lower (strip m.assignee)) []

abbrev pub win_rules : Rules
win_rules = record {
  is_for_us = is_for_win;
  is_actionable_assignment = is_actionable_assignment;
  classify_role = classify_role;
  priority_of = priority;
}

-- The first job that is not blocked, and the others in their order.
unfoldable pub claim_next_pending : List Job → Option Job × List Job
claim_next_pending [] = (none, [])
claim_next_pending (j ∷ js) =
    let (out, rest) = claim_next_pending js in
    if is_blocked j then (out, j ∷ rest) else (some j, js)

abbrev pub take_claimed : ℕ → Option Job × List Job → Lane → Next × Lane
take_claimed now (none, pending) l = (nothing, l)
take_claimed now (some j, pending) l =
    (claimed (start_job now j), record l { active = some (start_job now j); pending = pending })

abbrev pub next_lane : ℕ → Option Job → Lane → Next × Lane
next_lane now (some j) l = (occupied j, l)
next_lane now none l = take_claimed now (claim_next_pending l.pending) l

-- After the queue is saved the script reads the inbox file for what it prints, which may raise: the queue is
-- this one then too.
unfoldable pub cmd_next : ℕ → Role → Queue → Next × Queue
cmd_next now r q =
    let (out, l) = next_lane now (lane r q).active (lane r q) in (out, with_lane r l q)

abbrev pub has_job_id : String → Job → Bool
has_job_id i j = j.id == i

abbrev pub find_job : String → List Job → Option Job
find_job i [] = none
find_job i (j ∷ js) = if has_job_id i j then some j else find_job i js

abbrev pub reconcile : ℕ → String → String → Option Job → Lane → Option Job × Lane
reconcile now note i none l = (none, l)
reconcile now note i (some j) l =
    let j' = finish_job now note j in
    (
      some j',
      record l { pending = select (λ k. not (has_job_id i k)) l.pending; done = l.done ++ j' ∷ [] },
    )

-- The reconciled job, or nothing where the command exits because the id is not pending.
unfoldable pub cmd_complete_pending : ℕ → String → Role → String → Queue → Option Job × Queue
cmd_complete_pending now note r i q =
    let (out, l) = reconcile now note i (find_job i (lane r q).pending) (lane r q) in
    (out, with_lane r l q)

unfoldable pub cmd_run_once :
    (String → Option String) → List (ℕ × Meta) → ℕ → ℕ → Queue → (Next × Next) × Queue
cmd_run_once read_inbox_file inbox now now' q =
    let (_, q') = enqueue_from_inbox win_rules read_inbox_file inbox q in
    let (a, l) = next_lane now q'.first.active q'.first in
    let (b, l') = next_lane now' q'.second.active q'.second in
    ((a, b), record { first = l; second = l' })
