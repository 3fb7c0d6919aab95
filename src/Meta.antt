-- ===== src/Meta.antt =====
-- src/babeltower/routes/meta.py: the limits that the server tells its clients, and its health.
use babeltower.Prelude.{ℕ, String}
use babeltower.Embeddings.{embedding_dimensions}

pub record ServerInfoResponse : Type 0 where
  pub version : String
  pub embedding_model : String
  pub embedding_dimensions : ℕ
  pub max_intent_chars : ℕ
  pub max_active_intents_per_agent : ℕ
  pub session_message_cap : ℕ
  pub session_duration_minutes : ℕ
  pub connection_request_ttl_hours : ℕ

pub record HealthResponse : Type 0 where
  pub status : String
  pub version : String
  pub time : ℕ

-- GET /health
abbrev pub health : String → ℕ → HealthResponse
health version now = record { status = "ok"; version = version; time = now }

-- GET /server/info; `version` is the package's.
abbrev pub server_info : String → ServerInfoResponse
server_info version = record {
  version = version;
  embedding_model = "voyage-4-lite";
  embedding_dimensions = embedding_dimensions;
  max_intent_chars = 4500;
  max_active_intents_per_agent = 10;
  session_message_cap = 50;
  session_duration_minutes = 30;
  connection_request_ttl_hours = 72;
}
