-- ===== src/Jobs/Mac.antt =====
-- bin/orama-system/skills/hermes-harness/scripts/mac_job_queue.py: its rules, and the commands that differ
-- from those of the other queue.
use orama_system.Base.{
  ℕ, String, Bool, true, false, ◌&&◌, ◌||◌, Option, none, some, List, [], ◌∷◌, ◌++◌, if◌then◌else◌,
  ◌==◌, concat, codes, lower, starts_with,
}
use orama_system.Jobs.{
  Job, Role, first_role, second_role, Lane, Queue, lane, with_lane, Meta, Rules, is_blocked,
  start_job, Next, claimed, occupied, nothing, enqueue_from_inbox,
}
use orama_system.Jobs.Match.{search_numbered, search_any, search_priority}

abbrev pub orchestrator : Role
orchestrator = first_role

abbrev pub researcher : Role
researcher = second_role

-- `_SKIP_TOPICS.search`
abbrev pub skip_topics : String → Bool
skip_topics s =
    search_any
      ("ops/co-orchestration-active" ∷ "ops/warmup" ∷ "ops/peer-file" ∷ "where_to_look" ∷ [])
      (lower s)

-- `_SKIP_FILES.search`
abbrev pub skip_files : String → Bool
skip_files s =
    search_numbered (codes "win-cycle-") (codes "-ack") (lower s)
    || search_any ("win-bucket-drain-ack" ∷ []) (lower s)
    || search_numbered (codes "mac-cycle-") (codes "-ack") (lower s)

abbrev name_starts : String → String → Bool
name_starts p name = starts_with (codes p) (lower name)

unfoldable pub is_actionable_assignment : String → String → String → Bool
is_actionable_assignment filename topic source =
    if skip_files filename
    then false
    else if skip_topics topic || skip_topics filename
    then false
    else if (source == "win") && name_starts "win-" filename
    then true
    else if name_starts "mac-orchestrator-" filename || name_starts "mac-researcher-" filename
    then true
    else if name_starts "mac-autoresearch-" filename || name_starts "mac-hypothesis-" filename
    then true
    else false

-- `_RESEARCHER.search`, over `f"{filename} {topic}"`
unfoldable pub classify_role : String → String → Option Role
classify_role filename topic =
    if search_any ("autoresearch/" ∷ "gpu-" ∷ "hypothesis" ∷ "h4-" ∷ "h5-" ∷ [])
      (lower (concat filename (concat " " topic)))
    then some researcher
    else some orchestrator

unfoldable pub priority : Meta → String → ℕ
priority m body = elim (search_priority (codes body)) [ some n ↦ n | none ↦ 10 ]

abbrev pub mac_rules : Rules
mac_rules = record {
  is_for_us = λ m. true;
  is_actionable_assignment = is_actionable_assignment;
  classify_role = classify_role;
  priority_of = priority;
}

-- The loop of `next`: blocked jobs go to the done ones with a note.
unfoldable pub skip_blocked : List Job → List Job → Option Job × (List Job × List Job)
skip_blocked [] done = (none, ([], done))
skip_blocked (j ∷ js) done =
    let skipped = skip_blocked js (done ++ record j { note = some "skipped-blocked" } ∷ []) in
    if is_blocked j then skipped else (some j, (js, done))

abbrev pub take_next : ℕ → Option Job × (List Job × List Job) → Lane → Next × Lane
take_next now (none, (pending, done)) l = (nothing, record l { pending = pending; done = done })
take_next now (some j, (pending, done)) l = (
  claimed (start_job now j),
  record { active = some (start_job now j); pending = pending; done = done },
)

abbrev pub next_lane : ℕ → Option Job → Lane → Next × Lane
next_lane now (some j) l = (occupied j, l)
next_lane now none l = take_next now (skip_blocked l.pending l.done) l

-- After the queue is saved the script reads the inbox file for what it prints, which may raise: the queue is
-- this one then too.
unfoldable pub cmd_next : ℕ → Role → Queue → Next × Queue
cmd_next now r q =
    let (out, l) = next_lane now (lane r q).active (lane r q) in (out, with_lane r l q)

-- Claiming the head, whatever it is.
abbrev pub claim_head : ℕ → Option Job → List Job → Lane → Option Job × Lane
claim_head now (some j) pending l = (none, l)
claim_head now none [] l = (none, l)
claim_head now none (j ∷ js) l =
    (some (start_job now j), record l { active = some (start_job now j); pending = js })

-- What is claimed for each role, and the queue; the jobs of both roles are stamped by their own reading of
-- the clock.
unfoldable pub cmd_run_once :
    (String → Option String) → List (ℕ × Meta) → ℕ → ℕ → Queue → (Option Job × Option Job) × Queue
cmd_run_once read_inbox_file inbox now now' q =
    let (_, q') = enqueue_from_inbox mac_rules read_inbox_file inbox q in
    let (a, l) = claim_head now q'.first.active q'.first.pending q'.first in
    let (b, l') = claim_head now' q'.second.active q'.second.pending q'.second in
    ((a, b), record { first = l; second = l' })
