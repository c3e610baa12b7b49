-- ===== src/Oramaclaw/Tests/Data.antt =====
-- The inputs of the runs: a fingerprint, stores, resources, gateways and lock holders.
use orama_system.Base.{ℕ, String, false, none, [], ◌∷◌, absent, document}
use orama_system.Oramaclaw.Json.{Value, text, Fields, field, end}
use orama_system.Oramaclaw.Types.{
  agent, MergePolicy, Resource, Conflict, PendingResolution, TxState, failed, committed,
  ControlManifest,
}
use orama_system.Oramaclaw.Store.{ControlStore, JournalRecord, PendingRecord}
use orama_system.Oramaclaw.Lock.{LockInfo}
use orama_system.Oramaclaw.Engine.Transport.{
  unavailable, Reply, ok, raised, GatewayConfig, Gateway, Env,
}

-- A fingerprint that keeps texts apart.
abbrev pub print_of : Value → String
print_of (text t) = t
print_of _ = "-"

abbrev pub empty_store : ControlStore
empty_store = record { registry = absent; journal = absent; pending = absent; archives = [] }

abbrev pub model_field : MergePolicy → Resource
model_field policy = record {
  kind = agent;
  identifier = "main";
  manager = "orama";
  spec = field "model" (text "new") end;
  managed_paths = "/model" ∷ [];
  policy = policy;
}

abbrev pub live_fields : Fields
live_fields = field "model" (text "old") end

abbrev pub live_config : GatewayConfig
live_config = record { configuration = live_fields; base_hash = "h" }

-- A gateway that answers every read, and the apply as told.
abbrev pub answering : Reply (Unit {0}) → Gateway
answering r = record { config_get = λ n. ok live_config; config_apply = λ n patch h. r }

abbrev pub gone : Gateway
gone = record {
  config_get = λ n. raised (unavailable "down");
  config_apply = λ n patch h. raised (unavailable "down");
}

abbrev pub env_of : Gateway → Env
env_of g = record {
  fingerprint = print_of;
  clock = λ n. n;
  iso_now = λ n. "now";
  transaction_id = "tx";
  transport = g;
  config_file = document live_fields;
}

abbrev pub manifest_of : MergePolicy → ControlManifest
manifest_of policy = record { resources = model_field policy ∷ [] }

abbrev pub sample_conflict : Conflict
sample_conflict = record {
  resource_key = "agent:main";
  manager = "orama";
  managed_path = "/model";
  base_fingerprint = none;
  observed_fingerprint = none;
  desired_fingerprint = "new";
  security_topology = false;
  choices = [];
  resolution_id = "r1";
}

abbrev pub staged : String → String → PendingResolution
staged i tx = record {
  resolution_id = i;
  conflict = sample_conflict;
  transaction_id = tx;
  created_at = "then";
  resolved_at = none;
  chosen = none;
}

abbrev pub pending_record : String → String → PendingRecord
pending_record i tx = record {
  resolution_id = i;
  transaction_id = tx;
  created_at = "then";
  resolved_at = none;
  chosen = none;
  conflict = sample_conflict;
}

abbrev pub journal_record : String → TxState → JournalRecord
journal_record tx state = record {
  transaction_id = tx;
  state = state;
  applied = [];
  auto_woven = [];
  conflicts = [];
  timestamp = "then";
  extra = end;
}

-- One record of a failed transaction and one of a committed one.
abbrev pub mixed_store : ControlStore
mixed_store = record {
  registry = absent;
  journal = document (journal_record "bad" failed ∷ journal_record "good" committed ∷ []);
  pending = document (pending_record "r1" "bad" ∷ pending_record "r2" "good" ∷ []);
  archives = [];
}

abbrev pub holder : ℕ → LockInfo
holder pid = record { pid = pid; acquired_at = 0; create_time = none }
