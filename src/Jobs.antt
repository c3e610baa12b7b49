-- ===== src/Jobs.antt =====
-- The job queues of bin/orama-system/skills/hermes-harness/scripts/: what mac_job_queue.py and
-- win_job_queue.py have in common. A queue has two roles, each with one active job.
use orama_system.Base.{
  ℕ, suc, String, Bool, true, false, not, ◌&&◌, ◌||◌, Option, none, some, List, [], ◌∷◌, ◌++◌, map,
  ltb, leb, nat_eq, if◌then◌else◌, ◌==◌, is_some, is_blank, is_nonempty, length, select, any,
}
pub mod Match
pub mod Mac
pub mod Win
pub mod Counts
pub mod Unique
pub mod Order
pub mod Drain
pub mod Blocked
mod Tests

pub record Job : Type 0 where
  pub id : String
  pub filename : String
  pub topic : String
  pub source : String
  pub fanout_id : String
  pub priority : ℕ
  pub enqueued_at : ℕ
  pub started_at : Option ℕ
  pub completed_at : Option ℕ
  pub note : Option String

-- The two entries of `ROLES`, in their order.
pub data Role : Type 0 where
  first_role second_role : Role

pub record Lane : Type 0 where
  pub active : Option Job
  pub pending : List Job
  pub done : List Job

pub record Queue : Type 0 where
  pub first : Lane
  pub second : Lane

-- `state[role]`
abbrev pub lane : Role → Queue → Lane
lane first_role q = q.first
lane second_role q = q.second

abbrev pub with_lane : Role → Lane → Queue → Queue
with_lane first_role l q = record q { first = l }
with_lane second_role l q = record q { second = l }

abbrev pub empty_lane : Lane
empty_lane = record { active = none; pending = []; done = [] }

-- The queue's file, which may lack a role.
pub record QueueFile : Type 0 where
  pub first_lane : Option Lane
  pub second_lane : Option Lane

abbrev pub get_or : {A : Type 0} → A → Option A → A
get_or d none = d
get_or d (some x) = x

unfoldable pub load_queue : Option QueueFile → Queue
load_queue none = record { first = empty_lane; second = empty_lane }
load_queue (some f) = record {
  first = get_or empty_lane f.first_lane;
  second = get_or empty_lane f.second_lane;
}

-- An entry of the inbox, with "" for what it lacks.
pub record Meta : Type 0 where
  pub filename : String
  pub topic : String
  pub source : String
  pub fanout_id : String
  pub assignee : String

-- What differs between the two scripts when the inbox is read.
pub record Rules : Type 0 where
  pub is_for_us : Meta → Bool
  pub is_actionable_assignment : String → String → String → Bool
  pub classify_role : String → String → Option Role
  pub priority_of : Meta → String → ℕ

abbrev pub blocked_pending : List String
blocked_pending = "win-coder-l1-comms-autoplan-backlog.md" ∷ []

-- `job["id"] in BLOCKED_PENDING`
abbrev pub is_blocked : Job → Bool
is_blocked j = any (λ b. b == j.id) blocked_pending

-- `str(job.get("filename") or job.get("id") or "")`
abbrev pub name_of : Job → String
name_of j = if is_blank j.filename then j.id else j.filename

abbrev pub stays_pending : Rules → Job → Bool
stays_pending rules j = rules.is_actionable_assignment (name_of j) j.topic j.source

abbrev prune_lane : Rules → Lane → Lane
prune_lane rules l = record l { pending = select (stays_pending rules) l.pending }

abbrev pruned_names : Rules → Lane → List String
pruned_names rules l = map name_of (select (λ j. not (stays_pending rules j)) l.pending)

-- The names that are dropped, and the queue without them.
unfoldable pub prune_pending : Rules → Queue → List String × Queue
prune_pending rules q = (
  pruned_names rules q.first ++ pruned_names rules q.second,
  record { first = prune_lane rules q.first; second = prune_lane rules q.second },
)

abbrev job_ids : Option Job → List String
job_ids none = []
job_ids (some j) = j.id ∷ []

abbrev pub lane_ids : Lane → List String
lane_ids l =
    job_ids l.active ++ (map (λ (j : Job). j.id) l.pending ++ map (λ (j : Job). j.id) l.done)

unfoldable pub known_ids : Queue → List String
known_ids q = lane_ids q.first ++ lane_ids q.second

abbrev pub append_pending : Job → Lane → Lane
append_pending j l = record l { pending = l.pending ++ j ∷ [] }

-- The role that an entry of the inbox is queued for, if it is.
unfoldable pub role_for : Rules → List String → Meta → Option Role
role_for rules known m =
    if not (rules.is_for_us m)
      || not (rules.is_actionable_assignment m.filename m.topic m.source)
      || any (λ k. k == m.filename) known
    then none
    else rules.classify_role m.filename m.topic

-- The body of an inbox file, "" where reading it raises.
abbrev body_of : Option String → String
body_of none = ""
body_of (some b) = b

unfoldable pub new_job : Rules → (String → Option String) → ℕ → Meta → Job
new_job rules read_inbox_file now m = record {
  id = m.filename;
  filename = m.filename;
  topic = m.topic;
  source = m.source;
  fanout_id = m.fanout_id;
  priority = rules.priority_of m (body_of (read_inbox_file m.filename));
  enqueued_at = now;
  started_at = none;
  completed_at = none;
  note = none;
}

-- What is known so far, what is added, and the queue. Every entry of the inbox has a reading of the clock.
pub record Intake : Type 0 where
  pub known : List String
  pub added : List (Role × Job)
  pub queue : Queue

abbrev pub admit : Job → Option Role → Intake → Intake
admit j none t = t
admit j (some r) t = record {
  known = j.id ∷ t.known;
  added = t.added ++ (r, j) ∷ [];
  queue = with_lane r (append_pending j (lane r t.queue)) t.queue;
}

-- The loop over the inbox.
unfoldable pub take_in : Rules → (String → Option String) → List (ℕ × Meta) → Intake → Intake
take_in rules read_inbox_file [] t = t
take_in rules read_inbox_file ((now, m) ∷ inbox) t =
    take_in rules read_inbox_file inbox
      (admit (new_job rules read_inbox_file now m) (role_for rules t.known m) t)

-- The order of `(job["priority"], job["enqueued_at"])`
abbrev pub comes_before : Job → Job → Bool
comes_before a b =
    ltb a.priority b.priority || (nat_eq a.priority b.priority && ltb a.enqueued_at b.enqueued_at)

unfoldable pub insert_job : Job → List Job → List Job
insert_job j [] = j ∷ []
insert_job j (k ∷ ks) =
    let rest = insert_job j ks in if comes_before k j then k ∷ rest else j ∷ k ∷ ks

-- A stable sort.
unfoldable pub sort_jobs : List Job → List Job
sort_jobs [] = []
sort_jobs (j ∷ js) = insert_job j (sort_jobs js)

abbrev sort_lane : Lane → Lane
sort_lane l = record l { pending = sort_jobs l.pending }

unfoldable pub enqueue_from_inbox :
    Rules → (String → Option String) → List (ℕ × Meta) → Queue → List (Role × Job) × Queue
enqueue_from_inbox rules read_inbox_file inbox q =
    let (_, pruned) = prune_pending rules q in
    let start : Intake = record { known = known_ids pruned; added = []; queue = pruned } in
    let t = take_in rules read_inbox_file inbox start in
    (t.added, record { first = sort_lane t.queue.first; second = sort_lane t.queue.second })

abbrev lane_idle : Lane → Bool
lane_idle l = not (is_some l.active) && not (is_nonempty l.pending)

unfoldable pub is_idle : Queue → Bool
is_idle q = lane_idle q.first && lane_idle q.second

pub record LaneStatus : Type 0 where
  pub active : Option Job
  pub pending_count : ℕ
  pub pending : List String
  pub done_count : ℕ

abbrev lane_status : Lane → LaneStatus
lane_status l = record {
  active = l.active;
  pending_count = length l.pending;
  pending = map (λ (j : Job). j.id) l.pending;
  done_count = length l.done;
}

abbrev pub first_unblocked : List Job → Option Job
first_unblocked [] = none
first_unblocked (j ∷ js) = if is_blocked j then first_unblocked js else some j

-- With its role, the first pending job that is not blocked, when no role has an active job.
unfoldable pub first_actionable_pending : Queue → Option (Role × Job)
first_actionable_pending q =
    if is_some q.first.active || is_some q.second.active
    then none
    else elim (first_unblocked q.first.pending) [
      | some j ↦ some (first_role, j)
      | none ↦ elim (first_unblocked q.second.pending) [
        | some j ↦ some (second_role, j)
        | none ↦ none
      ]
    ]

-- What the pulse gate prints, but for the new files and the status.
pub data Pulse : Type 0 where
  busy : Role → Job → Pulse
  idle : Pulse
  actionable : Role → Job → Pulse

abbrev picked : Option (Role × Job) → Pulse
picked none = idle
picked (some (r, j)) = actionable r j

abbrev gate : Option Job → Option Job → Option (Role × Job) → Pulse
gate (some j) _ pick = busy first_role j
gate none (some j) pick = busy second_role j
gate none none pick = picked pick

-- The gate takes the inbox in and saves the queue; it claims nothing.
unfoldable pub cmd_pulse_gate :
    Rules → (String → Option String) → List (ℕ × Meta) → Queue → Pulse × Queue
cmd_pulse_gate rules read_inbox_file inbox q =
    let (_, q') = enqueue_from_inbox rules read_inbox_file inbox q in
    (gate q'.first.active q'.second.active (first_actionable_pending q'), q')

-- What `next` reports.
pub data Next : Type 0 where
  claimed : Job → Next
  occupied : Job → Next
  nothing : Next

abbrev pub start_job : ℕ → Job → Job
start_job now j = record j { started_at = some now }

abbrev finish_job : ℕ → String → Job → Job
finish_job now note j = record j {
  completed_at = some now;
  note = if is_blank note then j.note else some note;
}

abbrev pub complete_lane : ℕ → String → Option Job → Lane → Option Job × Lane
complete_lane now note none l = (none, l)
complete_lane now note (some j) l =
    let j' = finish_job now note j in
    (some j', record l { done = l.done ++ j' ∷ []; active = none })

-- The finished job, or nothing where the command exits because no job is active.
unfoldable pub cmd_complete : ℕ → String → Role → Queue → Option Job × Queue
cmd_complete now note r q =
    let (out, l) = complete_lane now note (lane r q).active (lane r q) in (out, with_lane r l q)
