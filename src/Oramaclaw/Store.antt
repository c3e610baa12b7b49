-- ===== src/Oramaclaw/Store.antt =====
-- src/oramaclaw/store.py: `ControlStore`, without its lock (Oramaclaw/Lock.antt). Each file of the state
-- directory is a value, each method a function of the store. Time stamps and archive names are arguments.
pub mod Registry
pub mod Journal
pub mod Pending
pub mod Sweep
use orama_system.Base.{
  ℕ, ◌+◌, ◌-◌, String, Bool, true, false, not, ◌&&◌, Option, none, some, List, [], ◌∷◌, ◌++◌, ltb,
  if◌then◌else◌, ◌==◌, concat, Dict, lookup, insert, length, drop, get_last?, is_nonempty, is_some,
  select, any, map, JsonFile, document, load_json,
}
use orama_system.Oramaclaw.Json.{Value, Fields}
use orama_system.Oramaclaw.Types.{Conflict, PendingResolution, TxState, failed}

abbrev pub journal_cap : ℕ
journal_cap = 200

pub record Override : Type 0 where
  pub source_field_fingerprint : String
  pub observed_value : Value
  pub observed_fingerprint : String
  pub auto_woven_at : String

pub record Ownership : Type 0 where
  pub manager : String
  pub resource_key : String
  pub managed_path : String
  pub fingerprint : String
  pub timestamp : String
  pub auto_weave_override : Option Override

-- `extra` holds the keys that `record.update(extra)` adds.
pub record JournalRecord : Type 0 where
  pub transaction_id : String
  pub state : TxState
  pub applied : List String
  pub auto_woven : List String
  pub conflicts : List String
  pub timestamp : String
  pub extra : Fields

pub record PendingRecord : Type 0 where
  pub resolution_id : String
  pub transaction_id : String
  pub created_at : String
  pub resolved_at : Option String
  pub chosen : Option String
  pub conflict : Conflict

-- One file under registry/orphan-conflicts/.
pub record Archive : Type 0 where
  pub reason : String
  pub archived_at : String
  pub records : List PendingRecord

pub record ControlStore : Type 0 where
  pub registry : JsonFile (Dict Ownership)
  pub journal : JsonFile (List JournalRecord)
  pub pending : JsonFile (List PendingRecord)
  pub archives : List Archive

-- ------------------------------------------------------------------ registry

abbrev pub load_registry : ControlStore → Dict Ownership
load_registry s = load_json s.registry []

-- `f"{resource_key}{managed_path}"`
abbrev pub entry_key : String → String → String
entry_key resource_key managed_path = concat resource_key managed_path

-- `fingerprint` is the SHA-256 of the canonical JSON text of a value.
module _ (fingerprint : Value → String) where
  abbrev pub new_entry : String → String → String → Value → String → Ownership
  new_entry manager resource_key managed_path value stamp = record {
    manager = manager;
    resource_key = resource_key;
    managed_path = managed_path;
    fingerprint = fingerprint value;
    timestamp = stamp;
    auto_weave_override = none;
  }

  unfoldable pub record_ownership :
      String → String → String → Value → String → ControlStore → ControlStore
  record_ownership manager resource_key managed_path value stamp s = record s {
    registry = document (
        insert (entry_key resource_key managed_path)
          (new_entry manager resource_key managed_path value stamp) (load_registry s));
  }

  unfoldable pub set_auto_weave_override :
      String → String → String → Value → String → String → ControlStore → ControlStore
  set_auto_weave_override manager resource_key managed_path observed_value source stamp s =
      let key = entry_key resource_key managed_path in
      let found = lookup key (load_registry s) in
      let entry : Ownership = elim found [
        | none ↦ new_entry manager resource_key managed_path observed_value stamp
        | some e ↦ e
      ] in
      record s {
        registry = document (
            insert key
              (record entry {
                auto_weave_override = some (record {
                  source_field_fingerprint = source;
                  observed_value = observed_value;
                  observed_fingerprint = fingerprint observed_value;
                  auto_woven_at = stamp;
                });
              })
              (load_registry s));
      }

unfoldable pub get_ownership : String → String → ControlStore → Option Ownership
get_ownership resource_key managed_path s =
    lookup (entry_key resource_key managed_path) (load_registry s)

unfoldable pub field_fingerprint : String → String → ControlStore → Option String
unfolding get_ownership
field_fingerprint resource_key managed_path s = elim (get_ownership resource_key managed_path s) [
  | none ↦ none
  | some e ↦ some e.fingerprint
]

unfoldable pub get_auto_weave_override : String → String → ControlStore → Option Override
get_auto_weave_override resource_key managed_path s =
    elim (lookup (entry_key resource_key managed_path) (load_registry s)) [
      | none ↦ none
      | some e ↦ e.auto_weave_override
    ]

-- ------------------------------------------------------------------ journal

abbrev pub load_journal : ControlStore → List JournalRecord
load_journal s = load_json s.journal []

-- `if len(journal) > JOURNAL_CAP: journal = journal[-JOURNAL_CAP:]`
unfoldable pub trim : List JournalRecord → List JournalRecord
trim journal =
    if ltb journal_cap (length journal)
    then drop (length journal - journal_cap) journal
    else journal

unfoldable pub append_journal : JournalRecord → ControlStore → ControlStore
unfolding trim
append_journal r s = record s { journal = document (trim (load_journal s ++ r ∷ [])) }

unfoldable pub last_transaction : ControlStore → Option JournalRecord
last_transaction s = get_last? (load_journal s)

-- ------------------------------------------------------------------ pending resolutions

abbrev pub load_pending : ControlStore → List PendingRecord
load_pending s = load_json s.pending []

-- `_serialise_pending`
unfoldable pub serialise_pending : PendingResolution → PendingRecord
serialise_pending p = record {
  resolution_id = p.resolution_id;
  transaction_id = p.transaction_id;
  created_at = p.created_at;
  resolved_at = p.resolved_at;
  chosen = p.chosen;
  conflict = p.conflict;
}

abbrev pub has_id : String → PendingRecord → Bool
has_id i r = r.resolution_id == i

unfoldable pub add_pending : PendingResolution → ControlStore → ControlStore
unfolding serialise_pending
add_pending resolution s = record s {
  pending = document (
      select (λ r. not (has_id resolution.resolution_id r)) (load_pending s)
      ++ serialise_pending resolution ∷ []);
}

-- The loop of `resolve_pending`, over the records.
unfoldable pub mark_resolved : String → String → String → List PendingRecord → List PendingRecord
mark_resolved i choice stamp [] = []
mark_resolved i choice stamp (r ∷ rs) =
    (if has_id i r then record r { resolved_at = some stamp; chosen = some choice } else r)
    ∷ mark_resolved i choice stamp rs

unfoldable pub resolve_pending : String → String → String → ControlStore → Bool × ControlStore
unfolding mark_resolved
resolve_pending i choice stamp s =
    if any (has_id i) (load_pending s)
    then (true, record s { pending = document (mark_resolved i choice stamp (load_pending s)) })
    else (false, s)

-- `_archive_pending_records`
unfoldable pub archive_pending_records :
    List PendingRecord → String → String → ControlStore → ControlStore
archive_pending_records records reason stamp s =
    if is_nonempty records
    then record s {
      archives =
          s.archives ++ record { reason = reason; archived_at = stamp; records = records } ∷ [];
    }
    else s

abbrev pub in_transaction : String → PendingRecord → Bool
in_transaction tx r = r.transaction_id == tx

unfoldable pub clear_pending_for_transaction : String → String → ControlStore → ControlStore
unfolding archive_pending_records
clear_pending_for_transaction tx stamp s =
    let removed = select (in_transaction tx) (load_pending s) in
    let filtered = select (λ r. not (in_transaction tx r)) (load_pending s) in
    if is_nonempty removed
    then record (archive_pending_records removed (concat "clear_pending_for_transaction:" tx) stamp
        s) { pending = document filtered }
    else s

abbrev pub is_open : PendingRecord → Bool
is_open r = not (is_some r.resolved_at)

-- The loop that fills `tx_state`: a later record of a transaction replaces an earlier one.
unfoldable pub tx_states : List JournalRecord → Dict TxState → Dict TxState
tx_states [] seen = seen
tx_states (r ∷ rs) seen = tx_states rs (insert r.transaction_id r.state seen)

abbrev pub is_failed : Option TxState → Bool
is_failed (some failed) = true
is_failed _ = false

abbrev pub tx_failed : List JournalRecord → PendingRecord → Bool
tx_failed journal r = is_failed (lookup r.transaction_id (tx_states journal []))

-- `resolution_id in orphan_ids`
abbrev pub id_among : List PendingRecord → PendingRecord → Bool
id_among orphans r = any (has_id r.resolution_id) orphans

-- The early returns, for no open record and for no orphan, both change nothing and return 0.
unfoldable pub sweep_orphan_pending : String → ControlStore → ℕ × ControlStore
unfolding archive_pending_records
sweep_orphan_pending stamp s =
    let records = load_pending s in
    let open_records = select is_open records in
    let orphans = select (tx_failed (load_journal s)) open_records in
    if is_nonempty open_records && is_nonempty orphans
    then (
      length orphans,
      record (archive_pending_records orphans "sweep_orphan_pending" stamp s) {
        pending = document (select (λ r. not (id_among orphans r)) records);
      },
    )
    else (0, s)

-- The loop of `pending_by_id`.
abbrev pub find_id : String → List PendingRecord → Option PendingRecord
find_id i [] = none
find_id i (r ∷ rs) = if has_id i r then some r else find_id i rs

unfoldable pub pending_by_id : String → ControlStore → Option PendingRecord
pending_by_id i s = find_id i (load_pending s)

unfoldable pub open_conflicts : ControlStore → List PendingRecord
open_conflicts s = select is_open (load_pending s)
