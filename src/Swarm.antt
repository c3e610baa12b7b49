-- ===== src/Swarm.antt =====
-- The approval of swarm launches, src/orama_system/swarm_approval.py: previews are issued with a token, and
-- a launch hands the token back with the same preview.
use Prim.Native.Char.{code}
use orama_system.Base.{
  ℕ, zero, suc, ◌+◌, String, Bool, true, false, not, ◌&&◌, ◌||◌, Option, none, some, List, [], ◌∷◌,
  ltb, if◌then◌else◌, ◌==◌, Dict, lookup, contains, insert, remove, length, select, concat, codes,
  every, is_blank, strip, lower, same_codes,
}
use orama_system.Oramaclaw.Json.{Value, null, text, obj, Fields, field, end, get_field}
pub mod Prune
pub mod Calls
pub mod Sound
pub mod Launches
pub mod Ticket
pub mod Claims
mod Tests

-- The environment variables that the module reads, empty where one is not set, and the hashes.
pub record Environ : Type 0 where
  pub orama_swarm_approval_secret : String
  pub orama_control_plane_token : String
  pub gossip_shared_secret : String
  pub orama_swarm_strict : String
  pub orama_swarm_legacy_approve : String
  pub digest : Value → String
  pub hmac_hex : String → String → String

abbrev pub preview_ttl : ℕ
preview_ttl = 300

abbrev pub max_cache_size : ℕ
max_cache_size = 32

-- A cached preview: its fingerprint, the time of issue and the payload.
pub record Entry : Type 0 where
  pub fp : String
  pub ts : ℕ
  pub stored : Fields

-- A preview that a dispatch has claimed.
pub record Claim : Type 0 where
  pub entry : Entry
  pub attempt : String

pub record Approvals : Type 0 where
  pub cache : Dict Entry
  pub in_flight : Dict Claim

-- What a call returns, or the text of its ValueError.
pub data Outcome (A : Type 0) : Type 0 where
  ok : A → Outcome A
  refused : String → Outcome A

abbrev first_set : List String → String
first_set [] = ""
first_set (raw ∷ rest) =
    let val = strip raw in let others = first_set rest in if is_blank val then others else val

unfoldable pub secret : Environ → String
secret env = first_set (
    env.orama_swarm_approval_secret ∷ env.orama_control_plane_token ∷ env.gossip_shared_secret ∷ [])

abbrev pub is_truthy : String → Bool
is_truthy raw =
    let word = lower (strip raw) in
    same_codes word (codes "1") || same_codes word (codes "true") || same_codes word (codes "yes")

unfoldable pub strict_mode : Environ → Bool
strict_mode env = is_truthy env.orama_swarm_strict

unfoldable pub grandfather_legacy : Environ → Bool
unfolding strict_mode
grandfather_legacy env = if strict_mode env then false else is_truthy env.orama_swarm_legacy_approve

-- `preview.get(k)`
abbrev pub get_or_null : String → Fields → Value
get_or_null k fs = elim (get_field k fs) [ some v ↦ v | none ↦ null ]

unfoldable pub fingerprint : Environ → Fields → String
fingerprint env preview = env.digest (
    obj (
      field "objective" (get_or_null "objective" preview) (
        field "assignments" (get_or_null "assignments" preview) (
          field "task_type" (get_or_null "task_type" preview) (
            field "optimize_for" (get_or_null "optimize_for" preview)
              (field "preferred_device" (get_or_null "preferred_device" preview) end))))))

unfoldable pub sign : Environ → String → String → String
sign env preview_id fp =
    if is_blank (secret env)
    then ""
    else env.hmac_hex (secret env) (concat "swarm:" (concat preview_id (concat ":" fp)))

-- `now - ts > _PREVIEW_TTL_SEC`
abbrev pub is_expired : ℕ → ℕ → Bool
is_expired now ts = ltb (ts + preview_ttl) now

-- The id of the first entry with the least time, after an entry with id `k` and time `t`.
abbrev pub oldest_from : String → ℕ → Dict Entry → String
oldest_from k t [] = k
oldest_from k t ((j, e) ∷ rest) =
    oldest_from (if ltb e.ts t then j else k) (if ltb e.ts t then e.ts else t) rest

-- The `while` loop of `_prune_cache`, with as many rounds as the cache has entries.
unfoldable pub evict : ℕ → Dict Entry → Dict Entry
evict fuel [] = []
evict zero cache = cache
evict (suc fuel) ((k, e) ∷ cache) =
    let rest = evict fuel (remove (oldest_from k e.ts cache) ((k, e) ∷ cache)) in
    if ltb max_cache_size (length ((k, e) ∷ cache)) then rest else (k, e) ∷ cache

unfoldable pub prune_cache : ℕ → Approvals → Approvals
unfolding evict
prune_cache now s =
    let fresh = select (λ item. not (is_expired now item.1.ts)) s.cache in
    record s { cache = evict (length fresh) fresh }

-- `_cache.pop(preview_id, None)`
abbrev pub uncache : String → Approvals → Approvals
uncache preview_id s = record s { cache = remove preview_id s.cache }

abbrev look : ℕ → String → Option Entry → Approvals → Option Fields × Approvals
look now preview_id none s = (none, s)
look now preview_id (some e) s =
    if is_expired now e.ts then (none, uncache preview_id s) else (some e.stored, s)

unfoldable pub cached_preview : ℕ → Option String → Approvals → Option Fields × Approvals
cached_preview now none s = (none, s)
cached_preview now (some preview_id) s =
    if is_blank preview_id then (none, s) else look now preview_id (lookup preview_id s.cache) s

pub record Approval : Type 0 where
  pub preview_id : String
  pub approval_token : String
  pub is_strict : Bool

abbrev pub no_secret : String
no_secret = "swarm approval secret is not configured"

abbrev pub unknown : String
unknown = "preview expired or unknown — call /api/swarm/preview again"

-- Issuing reads the clock three times: to prune, to stamp the entry, and to prune again.
unfoldable pub issue_approval :
    Environ → ℕ → ℕ → ℕ → String → Fields → Approvals → Outcome Approval × Approvals
issue_approval env t t' t'' preview_id preview s =
    if is_blank (secret env)
    then (refused no_secret, s)
    else let fp = fingerprint env preview in
      let pruned = prune_cache t s in
      let entry : Entry = record { fp = fp; ts = t'; stored = preview } in
      let after =
        prune_cache t'' (record pruned { cache = insert preview_id entry pruned.cache }) in
      let token = sign env preview_id fp in
      if is_blank token then (refused no_secret, after) else (
        ok (record {
          preview_id = preview_id;
          approval_token = token;
          is_strict = strict_mode env;
        }),
        after,
      )

-- The credentials and the preview of a launch.
pub record Request : Type 0 where
  pub approved : Bool
  pub preview_id : Option String
  pub approval_token : Option String
  pub preview : Fields

-- `(preview_id or "").strip()`
abbrev pub normalized : Option String → String
normalized none = strip ""
normalized (some s) = strip s

abbrev pub is_omitted : Request → Bool
is_omitted q = elim q.preview_id [
  | none ↦ elim q.approval_token [ none ↦ true | some _ ↦ false ]
  | some _ ↦ false
]

abbrev pub is_legacy : Environ → Request → Bool
is_legacy env q = grandfather_legacy env && q.approved && is_omitted q

abbrev is_ascii : String → Bool
is_ascii token = every (λ c. ltb c 128) (codes token)

-- `hmac.compare_digest`, with its TypeError on a text that is not ASCII taken for a mismatch.
unfoldable pub token_ok : String → String → Bool
token_ok expected token = is_ascii expected && is_ascii token && (expected == token)

unfoldable pub check_entry :
    Environ → ℕ → Request → Option Entry → Approvals → Outcome (Unit {0}) × Approvals
check_entry env now q none s = (refused unknown, s)
check_entry env now q (some e) s =
    let preview_id = normalized q.preview_id in
    if is_expired now e.ts
    then (refused "preview expired", uncache preview_id s)
    else if not (fingerprint env q.preview == e.fp)
    then (refused "preview drift — regenerate preview", s)
    else if token_ok (sign env preview_id e.fp) (normalized q.approval_token)
    then (ok tt, s)
    else (refused "invalid approval_token", s)

unfoldable pub check_launch : Environ → ℕ → Request → Approvals → Outcome (Unit {0}) × Approvals
unfolding check_entry
check_launch env now q s =
    if is_legacy env q
    then (ok tt, s)
    else if is_blank (normalized q.preview_id) || is_blank (normalized q.approval_token)
    then (refused "preview_id and approval_token required (call /api/swarm/preview first)", s)
    else if not q.approved
    then (refused "explicit approval required for swarm launch", s)
    else check_entry env now q (lookup (normalized q.preview_id) s.cache) s

abbrev consume_entry : ℕ → Option Entry → Approvals → Outcome (Unit {0}) × Approvals
consume_entry now none s = (refused unknown, s)
consume_entry now (some e) s =
    if is_expired now e.ts then (refused "preview expired", s) else (ok tt, s)

unfoldable pub consume_launch : ℕ → Option String → Approvals → Outcome (Unit {0}) × Approvals
consume_launch now preview_id s =
    let id = normalized preview_id in consume_entry now (lookup id s.cache) (uncache id s)

-- The entry that `pop` took out of the cache: it goes in flight unless it has expired by now.
unfoldable pub reserve :
    ℕ → String → String → Option Entry → Approvals → Outcome (Fields × String) × Approvals
reserve now attempt id none s = (refused unknown, s)
reserve now attempt id (some e) s =
    if is_expired now e.ts then (refused "preview expired", s) else (
      ok (e.stored, attempt),
      record s { in_flight = insert id (record { entry = e; attempt = attempt }) s.in_flight },
    )

unfoldable pub after_check :
    ℕ → String → String → Outcome (Unit {0}) → Approvals → Outcome (Fields × String) × Approvals
unfolding reserve
after_check now attempt id (refused m) s = (refused m, s)
after_check now attempt id (ok _) s =
    if contains id s.in_flight
    then (refused unknown, s)
    else reserve now attempt id (lookup id s.cache) (uncache id s)

-- A claim reads the clock twice: to check, and after the entry is taken.
unfoldable pub claim_launch_for_dispatch :
    Environ → ℕ → ℕ → String → Request → Approvals → Outcome (Fields × String) × Approvals
unfolding after_check
claim_launch_for_dispatch env t t' attempt q s =
    let (checked, s') = check_launch env t q s in
    after_check t' attempt (normalized q.preview_id) checked s'

-- Whether the claim is there and is that attempt's.
abbrev pub is_attempt : String → Option Claim → Bool
is_attempt attempt none = false
is_attempt attempt (some c) = c.attempt == attempt

-- `_in_flight.pop(id, None)`
abbrev pub land : String → Approvals → Approvals
land id s = record s { in_flight = remove id s.in_flight }

unfoldable pub finalize_launch_claim : Option String → String → Approvals → Approvals
finalize_launch_claim preview_id attempt s =
    let id = normalized preview_id in
    if is_attempt attempt (lookup id s.in_flight) then land id s else s

unfoldable pub restore : ℕ → String → String → Bool → Option Claim → Approvals → Approvals
restore now id attempt restore_to_cache none s = s
restore now id attempt restore_to_cache (some c) s =
    if c.attempt == attempt && restore_to_cache
    then prune_cache now (record s { cache = insert id c.entry s.cache })
    else s

unfoldable pub release_launch_claim : ℕ → Option String → String → Bool → Approvals → Approvals
unfolding restore
release_launch_claim now preview_id attempt restore_to_cache s =
    let id = normalized preview_id in
    restore now id attempt restore_to_cache (lookup id s.in_flight) (land id s)

abbrev pub then_consume :
    Environ → ℕ → Request → Outcome (Unit {0}) → Approvals → Outcome (Unit {0}) × Approvals
then_consume env now q (refused m) s = (refused m, s)
then_consume env now q (ok _) s =
    if is_legacy env q then (ok tt, s) else consume_launch now q.preview_id s

unfoldable pub verify_launch :
    Environ → ℕ → ℕ → Request → Approvals → Outcome (Unit {0}) × Approvals
verify_launch env t t' q s =
    let (checked, s') = check_launch env t q s in then_consume env t' q checked s'
