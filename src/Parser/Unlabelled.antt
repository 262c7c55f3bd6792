-- ===== src/Parser/Unlabelled.antt =====
-- Alarm data whose paths name neither alarms nor notifications, in internal/parser/alarm_parser.go.
use ztelem.Prelude.{
  ◌+◌, ◌≤◌, suc, Bool, true, false, Bytes, List, [], ◌∷◌, map, length, length-append, ◌≡◌, refl,
  ◌∙◌, All, arith,
}
use ztelem.Models.{AlarmReportMetric, unix_milli, to_int64}
use ztelem.Proto.Telemetry.{Telemetry, NotificationGpb}
use ztelem.Proto.Alarm.{CurrentAlarm}
use ztelem.Parser.Packets.{Decoders, Decoded, decoded, malformed, Result, ok, err}
use ztelem.Parser.Alarms.{
  Reports, alarm_metric, read_current_alarm, parse_current_alarm_report_from_gpb, is_alarm_report,
  is_notification_report, append_alarms, append_either, append_packet, append_packets,
  parse_alarm_data,
}

abbrev pub is_decoded {ℓ} : {A : Type ℓ} → Decoded A → Bool
is_decoded (decoded x) = true
is_decoded (malformed e) = false

-- A list of alarms with an element.
abbrev IsSome : Result (List AlarmReportMetric) → Type 0
IsSome (ok []) = ⊥
IsSome (ok (x ∷ xs)) = Unit
IsSome (err e) = ⊥

module _ (d : Decoders) (msg : Telemetry) where
  single-IsSome :
      (system_id : Bytes) (t : _) (single : Decoded CurrentAlarm)
      → is_decoded single ≡ true
      → IsSome (read_current_alarm system_id t single)
  unfolding read_current_alarm
  single-IsSome system_id t (decoded x) h = tt
  single-IsSome system_id t (malformed e) h = absurd (ground arith)

  alarms-IsSome :
      (gpb : NotificationGpb)
      → is_decoded (d.current_alarm gpb.content) ≡ true
      → IsSome (parse_current_alarm_report_from_gpb d gpb msg.system_id msg.msg_timestamp)
  unfolding parse_current_alarm_report_from_gpb
  alarms-IsSome gpb h =
      let t = unix_milli (to_int64 msg.msg_timestamp) in
      let single = single-IsSome msg.system_id t (d.current_alarm gpb.content) h in
      elim (d.alarm_info gpb.content)
        as (λ p. IsSome (elim p [
          | malformed e ↦ read_current_alarm msg.system_id t (d.current_alarm gpb.content)
          | decoded info ↦ elim info.alarm_report [
            | [] ↦ read_current_alarm msg.system_id t (d.current_alarm gpb.content)
            | x ∷ xs ↦ ok (map (alarm_metric msg.system_id t) (x ∷ xs))
          ]
        ])) [
          | malformed e ↦ single
          | decoded info ↦
              elim info.alarm_report
                as (λ l. IsSome (elim l [
                  | [] ↦ read_current_alarm msg.system_id t (d.current_alarm gpb.content)
                  | x ∷ xs ↦ ok (map (alarm_metric msg.system_id t) (x ∷ xs))
                ])) [ [] ↦ single | x ∷ xs ↦ tt ]
        ]

  either_lem :
      (a : Result (List AlarmReportMetric)) (n : _) (r : Reports)
      → IsSome a
      → ((append_either a n r).1 ≡ r.1) × (suc (length r.0) ≤ length (append_either a n r).0)
  unfolding append_either append_alarms
  either_lem (ok []) n r h = absurd h
  either_lem (ok (x ∷ xs)) n r h = (refl, omega (arith, length-append r.0 (x ∷ xs)))
  either_lem (err e) n r h = absurd h

  packet_lem :
      (gpb : NotificationGpb) (r : Reports)
      → is_alarm_report msg ≡ false
      → is_notification_report msg ≡ false
      → is_decoded (d.current_alarm gpb.content) ≡ true
      → ((append_packet d msg gpb r).1 ≡ r.1)
        × (suc (length r.0) ≤ length (append_packet d msg gpb r).0)
  unfolding append_packet
  packet_lem gpb r ha hn h = rw (ha, hn, append_packet) (either_lem _ _ r (alarms-IsSome gpb h))

  packets_lem :
      (gpbs : List NotificationGpb) (r : Reports)
      → is_alarm_report msg ≡ false
      → is_notification_report msg ≡ false
      → All (λ (gpb : NotificationGpb). is_decoded (d.current_alarm gpb.content) ≡ true) gpbs
      → ((append_packets d msg gpbs r).1 ≡ r.1)
        × (length r.0 + length gpbs ≤ length (append_packets d msg gpbs r).0)
  unfolding append_packets
  packets_lem [] r ha hn h = (refl, omega arith)
  packets_lem (gpb ∷ gpbs) r ha hn h =
      let (n1, a1) = packet_lem gpb r ha hn h.0 in
      let (n2, a2) = packets_lem gpbs (append_packet d msg gpb r) ha hn h.1 in
      (n2 ∙ n1, omega (arith, a1, a2))

-- In alarm data whose sensor path and protocol path name neither alarms nor notifications, a packet that
-- can be decoded as a single alarm is never read as notifications: if all packets can, the message gives
-- no notification and at least one alarm for each packet.
pub parse_alarm_data-unlabelled :
    (d : Decoders) (msg : Telemetry)
    → is_alarm_report msg ≡ false
    → is_notification_report msg ≡ false
    → All (λ (gpb : NotificationGpb). is_decoded (d.current_alarm gpb.content) ≡ true) msg.data_gpb
    → ((parse_alarm_data d msg).1 ≡ []) × (length msg.data_gpb ≤ length (parse_alarm_data d msg).0)
unfolding parse_alarm_data
parse_alarm_data-unlabelled d msg ha hn h =
    let (no_notifications, alarms) = packets_lem d msg msg.data_gpb ([], []) ha hn h in
    (no_notifications, omega (arith, alarms))
