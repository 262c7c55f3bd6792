-- ===== src/Parser/Alarms.antt =====
-- internal/parser/alarm_parser.go: alarm and notification reports.
use ztelem.Prelude.{
  ℕ, ◌+◌, ◌/◌, ◌%◌, ◌||◌, Bool, Bytes, List, [], ◌∷◌, ◌++◌, Option, none, some, map, codes, beq,
  ltb, if◌then◌else◌,
}
use ztelem.Models.{Time, AlarmReportMetric, NotificationReportMetric, unix_milli, to_int64}
use ztelem.Proto.Telemetry.{Telemetry, NotificationGpb}
use ztelem.Proto.Alarm.{CurrentAlarm, Notification}
use ztelem.Parser.Helpers.{string_ptr, uint32_ptr, convert_unix_timestamp}
use ztelem.Parser.Packets.{Decoders, Decoded, decoded, malformed, Result, ok, err, alarm_error}

unfoldable pub hex_digit : ℕ → ℕ
hex_digit n = if ltb n 10 then b'0' + n else b'W' + n

-- `fmt.Sprintf("%x", b)`
unfoldable pub hex : Bytes → Bytes
unfolding hex_digit
hex [] = []
hex (b ∷ s) = hex_digit (b / 16) ∷ hex_digit (b % 16) ∷ hex s

-- It does not make base64.
unfoldable pub bytes_to_base64_ptr : Bytes → Option Bytes
unfolding hex
bytes_to_base64_ptr [] = none
bytes_to_base64_ptr (b ∷ s) = some (hex (b ∷ s))

unfoldable pub alarm_metric : Bytes → Time → CurrentAlarm → AlarmReportMetric
alarm_metric system_id timestamp x = record {
  timestamp = timestamp;
  system_id = system_id;
  flow_id = x.flow_id;
  alarm_timestamp = x.timestamp;
  code = x.code;
  occurrence_time = convert_unix_timestamp x.occurrence_time;
  update_time = convert_unix_timestamp x.update_time;
  disappeared_time = convert_unix_timestamp x.disappeared_time;
  occurrence_ms = x.occurrence_ms;
  update_ms = x.update_ms;
  disappeared_ms = x.disappeared_ms;
  alarm_class = string_ptr x.alarm_class;
  alarm_type = string_ptr x.alarm_type;
  alarm_status = string_ptr x.alarm_status;
  sort = uint32_ptr x.sort;
  severity = string_ptr x.severity;
  tpid_type = uint32_ptr x.tpid_type;
  tpid_length = uint32_ptr x.tpid_length;
  tpid = bytes_to_base64_ptr x.tpid;
  description = string_ptr x.description;
  caption = string_ptr x.caption;
  protect_group_work_status = none;
  protect_type = none;
  reason = none;
  return_mode = none;
  protect_tpid_type = none;
  protect_tpid_length = none;
  protect_tpid = none;
  source_tpid_type = none;
  source_tpid_length = none;
  source_tpid = none;
  switch_tpid_type = none;
  previous_tpid_length = none;
  current_tpid_length = none;
  previous_tpid = none;
  current_tpid = none;
  perf_alarm_period = none;
  perf_alarm_type = none;
  perf_alarm_value = none;
}

unfoldable pub notification_metric : Bytes → Time → Notification → NotificationReportMetric
notification_metric system_id timestamp x = record {
  timestamp = timestamp;
  system_id = system_id;
  flow_id = x.flow_id;
  notification_timestamp = x.timestamp;
  code = x.code;
  occur_time = convert_unix_timestamp x.occur_time;
  occur_ms = x.occur_ms;
  classification = string_ptr x.classification;
  sort = uint32_ptr x.sort;
  severity = string_ptr x.severity;
  tpid_type = none;
  tpid_length = none;
  tpid = none;
  description = none;
  caption = none;
}

-- The second attempt: the packet as a single alarm.
unfoldable pub read_current_alarm :
    Bytes → Time → Decoded CurrentAlarm → Result (List AlarmReportMetric)
read_current_alarm system_id timestamp (malformed e) = err (alarm_error e)
read_current_alarm system_id timestamp (decoded x) = ok (alarm_metric system_id timestamp x ∷ [])

unfoldable pub parse_current_alarm_report_from_gpb :
    Decoders → NotificationGpb → Bytes → ℕ → Result (List AlarmReportMetric)
parse_current_alarm_report_from_gpb d gpb system_id msg_timestamp =
    let timestamp = unix_milli (to_int64 msg_timestamp) in
    let single = read_current_alarm system_id timestamp (d.current_alarm gpb.content) in
    elim (d.alarm_info gpb.content) [
      | malformed e ↦ single
      | decoded info ↦ elim info.alarm_report [
        | [] ↦ single
        | x ∷ xs ↦ ok (map (alarm_metric system_id timestamp) (x ∷ xs))
      ]
    ]

unfoldable pub parse_notification_report_from_gpb :
    Decoders → NotificationGpb → Bytes → ℕ → Result (List NotificationReportMetric)
parse_notification_report_from_gpb d gpb system_id msg_timestamp = elim (d.alarm_info gpb.content) [
  | malformed e ↦ err (alarm_error e)
  | decoded info ↦ ok (
      map (notification_metric system_id (unix_milli (to_int64 msg_timestamp)))
        info.notification_report)
]

-- The two lists that `parseAlarmData` appends to.
abbrev pub Reports : Type 0
Reports = List AlarmReportMetric × List NotificationReportMetric

unfoldable pub is_alarm_report : Telemetry → Bool
is_alarm_report msg =
    beq msg.sensor_path (codes "alm:current-alarm-report")
    || beq msg.proto_path (codes "zxr10.alarm.AlarmReport")

unfoldable pub is_notification_report : Telemetry → Bool
is_notification_report msg =
    beq msg.sensor_path (codes "alm:notification-report")
    || beq msg.proto_path (codes "zxr10.alarm.NotificationReport")

-- A failure is logged.
unfoldable pub append_alarms : Result (List AlarmReportMetric) → Reports → Reports
append_alarms (err e) r = r
append_alarms (ok alarms) r = (r.0 ++ alarms, r.1)

unfoldable pub append_notifications : Result (List NotificationReportMetric) → Reports → Reports
append_notifications (err e) r = r
append_notifications (ok notifications) r = (r.0, r.1 ++ notifications)

-- The default case: the packet is read as notifications where it gives no alarms.
unfoldable pub append_either :
    Result (List AlarmReportMetric) → Result (List NotificationReportMetric) → Reports → Reports
unfolding append_alarms append_notifications
append_either (ok (x ∷ xs)) notifications r = append_alarms (ok (x ∷ xs)) r
append_either (ok []) notifications r = append_notifications notifications r
append_either (err e) notifications r = append_notifications notifications r

unfoldable pub append_packet : Decoders → Telemetry → NotificationGpb → Reports → Reports
append_packet d msg gpb r =
    let alarms = parse_current_alarm_report_from_gpb d gpb msg.system_id msg.msg_timestamp in
    let notifications = parse_notification_report_from_gpb d gpb msg.system_id msg.msg_timestamp in
    if is_alarm_report msg
    then append_alarms alarms r
    else (if is_notification_report msg
        then append_notifications notifications r
        else append_either alarms notifications r)

unfoldable pub append_packets : Decoders → Telemetry → List NotificationGpb → Reports → Reports
append_packets d msg [] r = r
append_packets d msg (gpb ∷ gpbs) r = append_packets d msg gpbs (append_packet d msg gpb r)

-- It returns no error.
unfoldable pub parse_alarm_data : Decoders → Telemetry → Reports
parse_alarm_data d msg = append_packets d msg msg.data_gpb ([], [])
