-- ===== src/Models/Alarm.antt =====
-- The records of alarm and notification reports of internal/models/models.go. A nil pointer is
-- `none`.
use ztelem.Prelude.{ℕ, Bytes, Option}
use ztelem.Models.Values.{Time}

pub record AlarmReportMetric : Type 0 where
  pub timestamp : Time
  pub system_id : Bytes
  pub flow_id : ℕ  -- uint32
  pub alarm_timestamp : ℕ  -- uint32
  pub code : ℕ  -- uint32
  pub occurrence_time : Option Time
  pub update_time : Option Time
  pub disappeared_time : Option Time
  pub occurrence_ms : ℕ  -- uint32
  pub update_ms : ℕ  -- uint32
  pub disappeared_ms : ℕ  -- uint32
  pub alarm_class : Option Bytes
  pub alarm_type : Option Bytes
  pub alarm_status : Option Bytes
  pub sort : Option ℕ  -- *uint32
  pub severity : Option Bytes
  pub tpid_type : Option ℕ  -- *uint32
  pub tpid_length : Option ℕ  -- *uint32
  pub tpid : Option Bytes
  pub protect_group_work_status : Option ℕ  -- *uint32
  pub protect_type : Option ℕ  -- *uint32
  pub reason : Option ℕ  -- *uint32
  pub return_mode : Option Bytes
  pub protect_tpid_type : Option ℕ  -- *uint32
  pub protect_tpid_length : Option ℕ  -- *uint32
  pub protect_tpid : Option Bytes
  pub source_tpid_type : Option ℕ  -- *uint32
  pub source_tpid_length : Option ℕ  -- *uint32
  pub source_tpid : Option Bytes
  pub switch_tpid_type : Option ℕ  -- *uint32
  pub previous_tpid_length : Option ℕ  -- *uint32
  pub current_tpid_length : Option ℕ  -- *uint32
  pub previous_tpid : Option Bytes
  pub current_tpid : Option Bytes
  pub perf_alarm_period : Option Bytes
  pub perf_alarm_type : Option Bytes
  pub perf_alarm_value : Option Bytes
  pub description : Option Bytes
  pub caption : Option Bytes

pub record NotificationReportMetric : Type 0 where
  pub timestamp : Time
  pub system_id : Bytes
  pub flow_id : ℕ  -- uint32
  pub notification_timestamp : ℕ  -- uint32
  pub code : ℕ  -- uint32
  pub occur_time : Option Time
  pub occur_ms : ℕ  -- uint32
  pub classification : Option Bytes
  pub sort : Option ℕ  -- *uint32
  pub severity : Option Bytes
  pub tpid_type : Option ℕ  -- *uint32
  pub tpid_length : Option ℕ  -- *uint32
  pub tpid : Option Bytes
  pub description : Option Bytes
  pub caption : Option Bytes
