-- ===== src/Database/NotificationReport.antt =====
-- The COPY of internal/database/database.go into the table notification_report.
use ztelem.Prelude.{Bytes, List, [], ◌∷◌, map, codes}
use ztelem.Database.Tables.{Table}
use ztelem.Models.Values.{Value, string_value, time_ptr, time_value, uint32_value}
use ztelem.Models.Alarm.{NotificationReportMetric}
use ztelem.Database.Cells.{safe_string, safe_uint32}

unfoldable pub notification_report_columns : List Bytes
notification_report_columns = map codes (
    "timestamp" ∷ "system_id" ∷ "flow_id" ∷ "code" ∷ "occur_time" ∷ "occur_ms" ∷ "classification"
    ∷ "sort" ∷ "severity" ∷ "tpid_type" ∷ "tpid_length" ∷ "tpid" ∷ "description" ∷ "caption" ∷ [])

unfoldable pub notification_report_row : NotificationReportMetric → List Value
notification_report_row m =
    time_value m.timestamp
    ∷ string_value m.system_id
    ∷ uint32_value m.flow_id
    ∷ uint32_value m.code
    ∷ time_ptr m.occur_time
    ∷ uint32_value m.occur_ms
    ∷ safe_string m.classification
    ∷ safe_uint32 m.sort
    ∷ safe_string m.severity
    ∷ safe_uint32 m.tpid_type
    ∷ safe_uint32 m.tpid_length
    ∷ safe_string m.tpid
    ∷ safe_string m.description
    ∷ safe_string m.caption
    ∷ []

unfoldable pub notification_report_table : Table NotificationReportMetric
notification_report_table = record {
  name = codes "telemetry" ∷ codes "notification_report" ∷ [];
  columns = notification_report_columns;
  row = notification_report_row;
}
