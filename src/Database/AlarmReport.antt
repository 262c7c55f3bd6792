-- ===== src/Database/AlarmReport.antt =====
-- The COPY of internal/database/database.go into the table alarm_report.
use ztelem.Prelude.{Bytes, List, [], ◌∷◌, map, codes}
use ztelem.Database.Tables.{Table}
use ztelem.Models.Values.{Value, string_value, time_ptr, time_value, uint32_value}
use ztelem.Models.Alarm.{AlarmReportMetric}
use ztelem.Database.Cells.{safe_string, safe_uint32}

unfoldable pub alarm_report_columns : List Bytes
alarm_report_columns = map codes (
    "timestamp" ∷ "system_id" ∷ "flow_id" ∷ "code" ∷ "occurrence_time" ∷ "update_time"
    ∷ "disappeared_time" ∷ "occurrence_ms" ∷ "update_ms" ∷ "disappeared_ms" ∷ "alarm_class"
    ∷ "alarm_type" ∷ "alarm_status" ∷ "sort" ∷ "severity" ∷ "tpid_type" ∷ "tpid_length" ∷ "tpid"
    ∷ "protect_group_work_status" ∷ "protect_type" ∷ "reason" ∷ "return_mode" ∷ "protect_tpid_type"
    ∷ "protect_tpid_length" ∷ "protect_tpid" ∷ "source_tpid_type" ∷ "source_tpid_length"
    ∷ "source_tpid" ∷ "switch_tpid_type" ∷ "previous_tpid_length" ∷ "current_tpid_length"
    ∷ "previous_tpid" ∷ "current_tpid" ∷ "perf_alarm_period" ∷ "perf_alarm_type"
    ∷ "perf_alarm_value" ∷ "description" ∷ "caption" ∷ [])

unfoldable pub alarm_report_row : AlarmReportMetric → List Value
alarm_report_row m =
    time_value m.timestamp
    ∷ string_value m.system_id
    ∷ uint32_value m.flow_id
    ∷ uint32_value m.code
    ∷ time_ptr m.occurrence_time
    ∷ time_ptr m.update_time
    ∷ time_ptr m.disappeared_time
    ∷ uint32_value m.occurrence_ms
    ∷ uint32_value m.update_ms
    ∷ uint32_value m.disappeared_ms
    ∷ safe_string m.alarm_class
    ∷ safe_string m.alarm_type
    ∷ safe_string m.alarm_status
    ∷ safe_uint32 m.sort
    ∷ safe_string m.severity
    ∷ safe_uint32 m.tpid_type
    ∷ safe_uint32 m.tpid_length
    ∷ safe_string m.tpid
    ∷ safe_uint32 m.protect_group_work_status
    ∷ safe_uint32 m.protect_type
    ∷ safe_uint32 m.reason
    ∷ safe_string m.return_mode
    ∷ safe_uint32 m.protect_tpid_type
    ∷ safe_uint32 m.protect_tpid_length
    ∷ safe_string m.protect_tpid
    ∷ safe_uint32 m.source_tpid_type
    ∷ safe_uint32 m.source_tpid_length
    ∷ safe_string m.source_tpid
    ∷ safe_uint32 m.switch_tpid_type
    ∷ safe_uint32 m.previous_tpid_length
    ∷ safe_uint32 m.current_tpid_length
    ∷ safe_string m.previous_tpid
    ∷ safe_string m.current_tpid
    ∷ safe_string m.perf_alarm_period
    ∷ safe_string m.perf_alarm_type
    ∷ safe_string m.perf_alarm_value
    ∷ safe_string m.description
    ∷ safe_string m.caption
    ∷ []

unfoldable pub alarm_report_table : Table AlarmReportMetric
alarm_report_table = record {
  name = codes "telemetry" ∷ codes "alarm_report" ∷ [];
  columns = alarm_report_columns;
  row = alarm_report_row;
}
