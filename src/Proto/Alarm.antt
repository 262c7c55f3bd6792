-- ===== src/Proto/Alarm.antt =====
-- The messages of proto/zxr10_alarm/zxr10_alarm.proto.
use ztelem.Prelude.{Bytes, List, ℕ}

pub record CurrentAlarm : Type 0 where
  pub flow_id : ℕ  -- uint32
  pub timestamp : ℕ  -- uint32
  pub code : ℕ  -- uint32
  pub occurrence_time : ℕ  -- uint32
  pub update_time : ℕ  -- uint32
  pub disappeared_time : ℕ  -- uint32
  pub occurrence_ms : ℕ  -- uint32
  pub update_ms : ℕ  -- uint32
  pub disappeared_ms : ℕ  -- uint32
  pub alarm_class : Bytes
  pub alarm_type : Bytes
  pub alarm_status : Bytes
  pub sort : ℕ  -- uint32
  pub severity : Bytes
  pub tpid_type : ℕ  -- uint32
  pub tpid_length : ℕ  -- uint32
  pub tpid : Bytes
  pub protect_group_work_status : ℕ  -- uint32
  pub protect_type : ℕ  -- uint32
  pub reason : ℕ  -- uint32
  pub return_mode : Bytes
  pub protect_tpid_type : ℕ  -- uint32
  pub protect_tpid_length : ℕ  -- uint32
  pub protect_tpid : Bytes
  pub source_tpid_type : ℕ  -- uint32
  pub source_tpid_length : ℕ  -- uint32
  pub source_tpid : Bytes
  pub swtich_tpid_type : ℕ  -- uint32
  pub previous_tpid_length : ℕ  -- uint32
  pub current_tpid_length : ℕ  -- uint32
  pub previous_tpid : Bytes
  pub current_tpid : Bytes
  pub perf_alarm_period : Bytes
  pub perf_alarm_type : Bytes
  pub perf_alarm_value : Bytes
  pub description : Bytes
  pub caption : Bytes

pub record Notification : Type 0 where
  pub flow_id : ℕ  -- uint32
  pub timestamp : ℕ  -- uint32
  pub code : ℕ  -- uint32
  pub occur_time : ℕ  -- uint32
  pub occur_ms : ℕ  -- uint32
  pub classification : Bytes
  pub sort : ℕ  -- uint32
  pub severity : Bytes
  pub tpid_type : ℕ  -- uint32
  pub tpid_length : ℕ  -- uint32
  pub tpid : Bytes
  pub description : Bytes
  pub caption : Bytes

pub record AlarmInfo : Type 0 where
  pub alarm_report : List CurrentAlarm
  pub notification_report : List Notification
