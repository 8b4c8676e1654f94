-- ===== src/Event.antt =====
-- event.rs: uncommitted events, committed events and their envelope.
use weavatrix_memory.Base.{ℕ, String, Option, none, some, Result, ok, reject, ◌>>◌, invalid_value}
use weavatrix_memory.Time.{Timestamp, before}
use weavatrix_memory.Text.{is_padded, must_be_text}
use weavatrix_memory.Domain.{EventId, StreamId, AgentId, SessionId}

pub record NewEvent (E : Type 0) : Type 0 where
  pub id : EventId
  pub event_type : String
  pub occurred_at : Timestamp
  pub recorded_at : Timestamp
  pub agent_id : AgentId
  pub session_id : SessionId
  pub correlation_id : Option EventId
  pub causation_id : Option EventId
  pub payload : E

pub record EventMetadata : Type 0 where
  pub id : EventId
  pub stream_id : StreamId
  pub stream_version : ℕ
  pub global_position : ℕ
  pub event_type : String
  pub occurred_at : Timestamp
  pub recorded_at : Timestamp
  pub agent_id : AgentId
  pub session_id : SessionId
  pub correlation_id : Option EventId
  pub causation_id : Option EventId

pub record StoredEvent (E : Type 0) : Type 0 where
  pub metadata : EventMetadata
  pub open metadata use *
  pub payload : E

module _ {E : Type 0} where
  unfoldable pub new_event :
      (id : EventId) (event_type : String) (occurred_at recorded_at : Timestamp)
      (agent_id : AgentId) (session_id : SessionId) (payload : E)
      → Result (NewEvent E)
  new_event id event_type occurred_at recorded_at agent_id session_id payload = do
    reject (is_padded event_type) (invalid_value "event_type" must_be_text)
    reject (before recorded_at occurred_at)
        (invalid_value "occurred_at" "must not be later than recorded_at")
    ok (record {
      id = id;
      event_type = event_type;
      occurred_at = occurred_at;
      recorded_at = recorded_at;
      agent_id = agent_id;
      session_id = session_id;
      correlation_id = none;
      causation_id = none;
      payload = payload;
    })

  pub correlated_with : NewEvent E → EventId → NewEvent E
  correlated_with event id = record event { correlation_id = some id }

  pub caused_by : NewEvent E → EventId → NewEvent E
  caused_by event id = record event { causation_id = some id }
