-- ===== src/Models/Tags/Alarm.antt =====
-- The fields of the reports under their `db` tags in internal/models/models.go.
use ztelem.Prelude.{[], ◌∷◌, codes}
use ztelem.GoMap.{GoMap}
use ztelem.Models.Values.{
  Value, string_ptr, string_value, time_ptr, time_value, uint32_ptr, uint32_value,
}
use ztelem.Models.Alarm.{AlarmReportMetric, NotificationReportMetric}

unfoldable pub alarm_report_fields : AlarmReportMetric → GoMap Value
alarm_report_fields m =
    (codes "timestamp", time_value m.timestamp)
    ∷ (codes "system_id", string_value m.system_id)
    ∷ (codes "flow_id", uint32_value m.flow_id)
    ∷ (codes "alarm_timestamp", uint32_value m.alarm_timestamp)
    ∷ (codes "code", uint32_value m.code)
    ∷ (codes "occurrence_time", time_ptr m.occurrence_time)
    ∷ (codes "update_time", time_ptr m.update_time)
    ∷ (codes "disappeared_time", time_ptr m.disappeared_time)
    ∷ (codes "occurrence_ms", uint32_value m.occurrence_ms)
    ∷ (codes "update_ms", uint32_value m.update_ms)
    ∷ (codes "disappeared_ms", uint32_value m.disappeared_ms)
    ∷ (codes "alarm_class", string_ptr m.alarm_class)
    ∷ (codes "alarm_type", string_ptr m.alarm_type)
    ∷ (codes "alarm_status", string_ptr m.alarm_status)
    ∷ (codes "sort", uint32_ptr m.sort)
    ∷ (codes "severity", string_ptr m.severity)
    ∷ (codes "tpid_type", uint32_ptr m.tpid_type)
    ∷ (codes "tpid_length", uint32_ptr m.tpid_length)
    ∷ (codes "tpid", string_ptr m.tpid)
    ∷ (codes "protect_group_work_status", uint32_ptr m.protect_group_work_status)
    ∷ (codes "protect_type", uint32_ptr m.protect_type)
    ∷ (codes "reason", uint32_ptr m.reason)
    ∷ (codes "return_mode", string_ptr m.return_mode)
    ∷ (codes "protect_tpid_type", uint32_ptr m.protect_tpid_type)
    ∷ (codes "protect_tpid_length", uint32_ptr m.protect_tpid_length)
    ∷ (codes "protect_tpid", string_ptr m.protect_tpid)
    ∷ (codes "source_tpid_type", uint32_ptr m.source_tpid_type)
    ∷ (codes "source_tpid_length", uint32_ptr m.source_tpid_length)
    ∷ (codes "source_tpid", string_ptr m.source_tpid)
    ∷ (codes "switch_tpid_type", uint32_ptr m.switch_tpid_type)
    ∷ (codes "previous_tpid_length", uint32_ptr m.previous_tpid_length)
    ∷ (codes "current_tpid_length", uint32_ptr m.current_tpid_length)
    ∷ (codes "previous_tpid", string_ptr m.previous_tpid)
    ∷ (codes "current_tpid", string_ptr m.current_tpid)
    ∷ (codes "perf_alarm_period", string_ptr m.perf_alarm_period)
    ∷ (codes "perf_alarm_type", string_ptr m.perf_alarm_type)
    ∷ (codes "perf_alarm_value", string_ptr m.perf_alarm_value)
    ∷ (codes "description", string_ptr m.description)
    ∷ (codes "caption", string_ptr m.caption)
    ∷ []

unfoldable pub notification_report_fields : NotificationReportMetric → GoMap Value
notification_report_fields m =
    (codes "timestamp", time_value m.timestamp)
    ∷ (codes "system_id", string_value m.system_id)
    ∷ (codes "flow_id", uint32_value m.flow_id)
    ∷ (codes "notification_timestamp", uint32_value m.notification_timestamp)
    ∷ (codes "code", uint32_value m.code)
    ∷ (codes "occur_time", time_ptr m.occur_time)
    ∷ (codes "occur_ms", uint32_value m.occur_ms)
    ∷ (codes "classification", string_ptr m.classification)
    ∷ (codes "sort", uint32_ptr m.sort)
    ∷ (codes "severity", string_ptr m.severity)
    ∷ (codes "tpid_type", uint32_ptr m.tpid_type)
    ∷ (codes "tpid_length", uint32_ptr m.tpid_length)
    ∷ (codes "tpid", string_ptr m.tpid)
    ∷ (codes "description", string_ptr m.description)
    ∷ (codes "caption", string_ptr m.caption)
    ∷ []
