-- ===== src/Oramaclaw/Engine/Transport.antt =====
-- What src/oramaclaw/engine.py takes from its surroundings. The gateway's replies are the environment's,
-- one function for each call; `offline` is `OfflineTransport` of src/oramaclaw/transport.py, as far as the
-- engine calls it.
use orama_system.Base.{ℕ, String}
use orama_system.Oramaclaw.Json.{Value, Fields, end}
use orama_system.Base.{JsonFile, load_json}

-- The exceptions that the engine tells apart: `StaleConfiguration`, `GatewayUnavailable`, and all others,
-- each with its text.
pub data Failure : Type 0 where
  stale : String → Failure
  unavailable : String → Failure
  other : String → Failure

abbrev pub message : Failure → String
message (stale m) = m
message (unavailable m) = m
message (other m) = m

pub data Reply (A : Type 0) : Type 0 where
  ok : A → Reply A
  raised : Failure → Reply A

pub record GatewayConfig : Type 0 where
  pub configuration : Fields
  pub base_hash : String

-- The replies to the n-th call of each method, counted from 0.
pub record Gateway : Type 0 where
  pub config_get : ℕ → Reply GatewayConfig
  pub config_apply : ℕ → Fields → String → Reply (Unit {0})

-- `clock` gives milliseconds and `iso_now` a time stamp, for each reading; `config_file` is the document at
-- `target.config_path`.
pub record Env : Type 0 where
  pub fingerprint : Value → String
  pub clock : ℕ → ℕ
  pub iso_now : ℕ → String
  pub transaction_id : String
  pub transport : Gateway
  pub config_file : JsonFile Fields

-- `OfflineTransport`: it reads the file, and refuses every generic apply.
unfoldable pub offline : Env → Gateway
offline env = record {
  config_get =
      λ n. ok (record { configuration = load_json env.config_file end; base_hash = "offline" });
  config_apply = λ n patch base_hash. raised (
      other
        "offline mutations are only allowed for provider registration and new-agent creation; rejected: generic config apply");
}
