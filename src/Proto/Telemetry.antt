-- ===== src/Proto/Telemetry.antt =====
-- The messages of proto/zte_telemetry/zte_telemetry.proto that the parser reads, less the
-- `data_gpbkv` of `Telemetry`, which it does not read.
use ztelem.Prelude.{Bytes, List, ℕ, ℤ}

pub record NotificationGpb : Type 0 where
  pub timestamp : ℕ  -- uint64
  pub content : Bytes

pub record Telemetry : Type 0 where
  pub system_id : Bytes
  pub subscription_id : Bytes
  pub mng_ipv4 : Bytes
  pub mng_ipv6 : Bytes
  pub data_type : ℤ  -- TelemetryDataType
  pub sensor_path : Bytes
  pub proto_path : Bytes
  pub collection_id : ℕ  -- uint64
  pub collection_start_time : ℕ  -- uint64
  pub msg_timestamp : ℕ  -- uint64
  pub collection_end_time : ℕ  -- uint64
  pub current_period : ℕ  -- uint32
  pub data_gpb : List NotificationGpb
  pub json_ietf_val : Bytes
