-- ===== src/Parser/Stamps/Alarms.antt =====
-- The records of alarm data carry the device and the time of the message.
use ztelem.Prelude.{Bool, true, false, List, [], ◌∷◌, map, refl, All, All-append, if◌then◌else◌}
use ztelem.Models.{AlarmReportMetric, NotificationReportMetric}
use ztelem.Proto.Telemetry.{Telemetry, NotificationGpb}
use ztelem.Proto.Alarm.{CurrentAlarm}
use ztelem.Parser.Packets.{Decoders, Decoded, decoded, malformed, Result, ok, err, alarm_error}
use ztelem.Parser.Alarms.{
  Reports, alarm_metric, notification_metric, read_current_alarm,
  parse_current_alarm_report_from_gpb, parse_notification_report_from_gpb, is_alarm_report,
  is_notification_report, append_alarms, append_notifications, append_either, append_packet,
  append_packets, parse_alarm_data,
}
use ztelem.Parser.Stamps.{AlarmStamped, NotificationStamped, OnOk, sent_at, map-All}

module _ (d : Decoders) (msg : Telemetry) where
  abbrev EachAlarm : List AlarmReportMetric → Type 0
  EachAlarm = All (AlarmStamped msg)

  abbrev EachNotification : List NotificationReportMetric → Type 0
  EachNotification = All (NotificationStamped msg)

  abbrev pub ReportsStamped : Reports → Type 0
  ReportsStamped r = EachAlarm r.0 × EachNotification r.1

  current-Stamped :
      (single : Decoded CurrentAlarm)
      → OnOk EachAlarm (read_current_alarm msg.system_id (sent_at msg) single)
  unfolding read_current_alarm alarm_metric
  current-Stamped (malformed e) = tt
  current-Stamped (decoded x) = ((refl, refl), tt)

  read_alarms-Stamped :
      (gpb : NotificationGpb)
      → OnOk EachAlarm (parse_current_alarm_report_from_gpb d gpb msg.system_id msg.msg_timestamp)
  unfolding parse_current_alarm_report_from_gpb alarm_metric
  read_alarms-Stamped gpb =
      let single = current-Stamped (d.current_alarm gpb.content) in
      elim (d.alarm_info gpb.content)
        as (λ p. OnOk EachAlarm (elim p [
          | malformed e ↦
              read_current_alarm msg.system_id (sent_at msg) (d.current_alarm gpb.content)
          | decoded info ↦ elim info.alarm_report [
            | [] ↦ read_current_alarm msg.system_id (sent_at msg) (d.current_alarm gpb.content)
            | x ∷ xs ↦ ok (map (alarm_metric msg.system_id (sent_at msg)) (x ∷ xs))
          ]
        ])) [
          | malformed e ↦ single
          | decoded info ↦
              elim info.alarm_report
                as (λ l. OnOk EachAlarm (elim l [
                  | [] ↦
                      read_current_alarm msg.system_id (sent_at msg) (d.current_alarm gpb.content)
                  | x ∷ xs ↦ ok (map (alarm_metric msg.system_id (sent_at msg)) (x ∷ xs))
                ])) [
                  | [] ↦ single
                  | x ∷ xs ↦ map-All (AlarmStamped msg) _ (λ a. (refl, refl)) (x ∷ xs)
                ]
        ]

  read_notifications-Stamped :
      (gpb : NotificationGpb)
      → OnOk EachNotification
          (parse_notification_report_from_gpb d gpb msg.system_id msg.msg_timestamp)
  unfolding parse_notification_report_from_gpb notification_metric
  read_notifications-Stamped gpb =
      elim (d.alarm_info gpb.content)
        as (λ p. OnOk EachNotification (elim p [
          | malformed e ↦ err (alarm_error e)
          | decoded info ↦
              ok (map (notification_metric msg.system_id (sent_at msg)) info.notification_report)
        ])) [
          | malformed e ↦ tt
          | decoded info ↦
              map-All (NotificationStamped msg) _ (λ a. (refl, refl)) info.notification_report
        ]

  append_alarms-Stamped :
      (a : Result (List AlarmReportMetric)) (r : Reports)
      → OnOk EachAlarm a
      → ReportsStamped r
      → ReportsStamped (append_alarms a r)
  unfolding append_alarms
  append_alarms-Stamped (err e) r ha hr = hr
  append_alarms-Stamped (ok v) r ha hr = (All-append (AlarmStamped msg) r.0 v hr.0 ha, hr.1)

  append_notifications-Stamped :
      (n : Result (List NotificationReportMetric)) (r : Reports)
      → OnOk EachNotification n
      → ReportsStamped r
      → ReportsStamped (append_notifications n r)
  unfolding append_notifications
  append_notifications-Stamped (err e) r hn hr = hr
  append_notifications-Stamped (ok v) r hn hr =
      (hr.0, All-append (NotificationStamped msg) r.1 v hr.1 hn)

  append_either-Stamped :
      (a : Result (List AlarmReportMetric)) (n : Result (List NotificationReportMetric))
      (r : Reports)
      → OnOk EachAlarm a
      → OnOk EachNotification n
      → ReportsStamped r
      → ReportsStamped (append_either a n r)
  unfolding append_either
  append_either-Stamped (ok (x ∷ xs)) n r ha hn hr = append_alarms-Stamped (ok (x ∷ xs)) r ha hr
  append_either-Stamped (ok []) n r ha hn hr = append_notifications-Stamped n r hn hr
  append_either-Stamped (err e) n r ha hn hr = append_notifications-Stamped n r hn hr

  choice-Stamped :
      (b : Bool) (x y : Reports)
      → ReportsStamped x
      → ReportsStamped y
      → ReportsStamped (if b then x else y)
  choice-Stamped true x y hx hy = hx
  choice-Stamped false x y hx hy = hy

  append_packet-Stamped :
      (gpb : NotificationGpb) (r : Reports)
      → ReportsStamped r
      → ReportsStamped (append_packet d msg gpb r)
  unfolding append_packet
  append_packet-Stamped gpb r h =
      let a = read_alarms-Stamped gpb in
      let n = read_notifications-Stamped gpb in
      choice-Stamped (is_alarm_report msg) _ _ (append_alarms-Stamped _ r a h) (
        choice-Stamped (is_notification_report msg) _ _ (append_notifications-Stamped _ r n h)
          (append_either-Stamped _ _ r a n h))

  append_packets-Stamped :
      (gpbs : List NotificationGpb) (r : Reports)
      → ReportsStamped r
      → ReportsStamped (append_packets d msg gpbs r)
  unfolding append_packets
  append_packets-Stamped [] r h = h
  append_packets-Stamped (gpb ∷ gpbs) r h =
      append_packets-Stamped gpbs _ (append_packet-Stamped gpb r h)

  pub parse_alarm_data-Stamped : ReportsStamped (parse_alarm_data d msg)
  unfolding parse_alarm_data
  parse_alarm_data-Stamped = append_packets-Stamped msg.data_gpb ([], []) (tt, tt)
