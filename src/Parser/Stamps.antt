-- ===== src/Parser/Stamps.antt =====
-- The device and the time that the records of a message carry: what they have to be, for every handler
-- of internal/parser.
use ztelem.Prelude.{
  Bytes, List, [], ◌∷◌, ◌++◌, Option, none, some, map, concat, ◌≡◌, All, All-append,
}
use ztelem.Models.{
  Time, PlatformMetric, InterfaceMetric, SubinterfaceMetric, AlarmReportMetric,
  NotificationReportMetric, unix_milli, to_int64,
}
use ztelem.Proto.Telemetry.{Telemetry, NotificationGpb}
use ztelem.Parser.Packets.{Decoded, decoded, malformed, ParseError, empty_data_gpb, Result, ok, err}
use ztelem.Parser.Loops.{readable, first_error, emitted, or_error, tolerated, required}
use ztelem.Parser.Messages.{ParseResult}
pub mod Platform
pub mod Interfaces
pub mod Alarms
pub mod Messages

-- The time of a message.
abbrev pub sent_at : Telemetry → Time
sent_at msg = unix_milli (to_int64 msg.msg_timestamp)

abbrev pub PlatformStamped : Telemetry → PlatformMetric → Type 0
PlatformStamped msg m = (m.system_id ≡ msg.system_id) × (m.timestamp ≡ sent_at msg)

abbrev pub InterfaceStamped : Telemetry → InterfaceMetric → Type 0
InterfaceStamped msg m = (m.system_id ≡ msg.system_id) × (m.timestamp ≡ sent_at msg)

abbrev pub SubinterfaceStamped : Telemetry → SubinterfaceMetric → Type 0
SubinterfaceStamped msg m = (m.system_id ≡ msg.system_id) × (m.timestamp ≡ sent_at msg)

abbrev pub AlarmStamped : Telemetry → AlarmReportMetric → Type 0
AlarmStamped msg m = (m.system_id ≡ msg.system_id) × (m.timestamp ≡ sent_at msg)

abbrev pub NotificationStamped : Telemetry → NotificationReportMetric → Type 0
NotificationStamped msg m = (m.system_id ≡ msg.system_id) × (m.timestamp ≡ sent_at msg)

-- Every record of a result carries the device and the time of the message, and so does the result.
pub record Stamped (msg : Telemetry) (r : ParseResult) : Type 0 where
  pub result : (r.system_id ≡ msg.system_id) × (r.timestamp ≡ sent_at msg)
  pub platforms : All (PlatformStamped msg) r.platform_metrics
  pub interfaces : All (InterfaceStamped msg) r.interface_metrics
  pub subinterfaces : All (SubinterfaceStamped msg) r.subinterface_metrics
  pub alarms : All (AlarmStamped msg) r.alarm_report_metrics
  pub notifications : All (NotificationStamped msg) r.notification_report_metrics

-- A predicate on what an answer holds, if it is no error.
abbrev pub OnOk {ℓ κ} : {A : Type ℓ} → (A → Type κ) → Result A → Type κ
OnOk P (ok v) = P v
OnOk P (err e) = Unit

module _ {ℓ κ μ} {I : Type ℓ} {M : Type κ} (P : M → Type μ) (decode : Bytes → Decoded I)
    (emit : I → List M) (each : (info : I) → All P (emit info)) where
  emitted-All : (gpbs : List NotificationGpb) → All P (emitted decode emit gpbs)
  emitted-All [] = tt
  emitted-All (gpb ∷ gpbs) =
      elim (decode gpb.content)
        as (λ p. All P (
          concat (
            map emit (elim p [
              | malformed e ↦ readable decode gpbs
              | decoded info ↦ info ∷ readable decode gpbs
            ])))) [
              | malformed e ↦ emitted-All gpbs
              | decoded info ↦ All-append P (emit info) _ (each info) (emitted-All gpbs)
            ]

  or_error-OnOk :
      (wrap : Bytes → ParseError) (metrics : List M) (e : Option Bytes)
      → All P metrics
      → OnOk (All P) (or_error wrap metrics e)
  or_error-OnOk wrap metrics none h = h
  or_error-OnOk wrap metrics (some e) h = tt

  pub tolerated-OnOk : (msg : Telemetry) → OnOk (All P) (tolerated decode emit msg)
  tolerated-OnOk msg =
      elim msg.data_gpb
        as (λ g. OnOk (All P) (elim g [
          | [] ↦ err empty_data_gpb
          | gpb ∷ gpbs ↦ ok (emitted decode emit (gpb ∷ gpbs))
        ])) [ [] ↦ tt | gpb ∷ gpbs ↦ emitted-All (gpb ∷ gpbs) ]

  pub required-OnOk :
      (wrap : Bytes → ParseError) (msg : Telemetry) → OnOk (All P) (required decode emit wrap msg)
  required-OnOk wrap msg =
      elim msg.data_gpb
        as (λ g. OnOk (All P) (elim g [
          | [] ↦ err empty_data_gpb
          | gpb ∷ gpbs ↦
              or_error wrap (emitted decode emit (gpb ∷ gpbs)) (first_error decode (gpb ∷ gpbs))
        ])) [
          | [] ↦ tt
          | gpb ∷ gpbs ↦
              or_error-OnOk wrap (emitted decode emit (gpb ∷ gpbs))
                (first_error decode (gpb ∷ gpbs)) (emitted-All (gpb ∷ gpbs))
        ]

module _ {ℓ κ μ} {X : Type ℓ} {M : Type κ} (P : M → Type μ) (make : X → M)
    (each : (x : X) → P (make x)) where
  -- A part that may be missing.
  pub optional-All : (o : Option X) → All P (elim o [ none ↦ [] | some part ↦ make part ∷ [] ])
  optional-All none = tt
  optional-All (some part) = (each part, tt)

  -- The first part of a list.
  pub first-All : (o : List X) → All P (elim o [ [] ↦ [] | part ∷ parts ↦ make part ∷ [] ])
  first-All [] = tt
  first-All (part ∷ parts) = (each part, tt)

  -- The first part of a list, or a value without it.
  pub first_or_lem : (m : M) → P m → (o : List X) → P (elim o [ [] ↦ m | part ∷ parts ↦ make part ])
  first_or_lem m h [] = h
  first_or_lem m h (part ∷ parts) = each part

  pub map-All : (xs : List X) → All P (map make xs)
  map-All [] = tt
  map-All (x ∷ xs) = (each x, map-All xs)
