-- ===== src/Parser/Packets.antt =====
-- What the handlers of internal/parser/telemetry_parser.go share: their errors and their loops over the
-- GPB packets of a message.
use ztelem.Prelude.{Bytes, List, [], ◌∷◌, ◌++◌}
use ztelem.Proto.Telemetry.{Telemetry, NotificationGpb}
use ztelem.Proto.Platform.{ComponentInfo}
use ztelem.Proto.Interfaces.{InterfaceInfo}
use ztelem.Proto.Alarm.{AlarmInfo, CurrentAlarm}

-- What `proto.Unmarshal` answers: a message, which it has reset first, or its error.
pub data Decoded {ℓ} (A : Type ℓ) : Type ℓ where
  decoded : A → Decoded A
  malformed : Bytes → Decoded A

-- `proto.Unmarshal` for each type that the parser decodes. The package is not part of the repository,
-- so these are arguments.
pub record Decoders : Type 0 where
  pub telemetry : Bytes → Decoded Telemetry
  pub component_info : Bytes → Decoded ComponentInfo
  pub interface_info : Bytes → Decoded InterfaceInfo
  pub alarm_info : Bytes → Decoded AlarmInfo
  pub current_alarm : Bytes → Decoded CurrentAlarm

pub data ParseError : Type 0 where
  telemetry_error : Bytes → ParseError
  empty_data_gpb : ParseError
  component_error : Bytes → ParseError
  interface_error : Bytes → ParseError
  alarm_error : Bytes → ParseError

pub data Result {ℓ} (A : Type ℓ) : Type ℓ where
  ok : A → Result A
  err : ParseError → Result A

-- The loop of a handler that logs a packet that it cannot decode and goes on. `emit` is the body of the
-- loop after the decoding: the metrics that it appends.
unfoldable pub skip_packets {ℓ κ} :
    {I : Type ℓ} {M : Type κ}
    → (Bytes → Decoded I)
    → (I → List M)
    → List NotificationGpb
    → List M
    → List M
skip_packets decode emit [] metrics = metrics
skip_packets decode emit (gpb ∷ gpbs) metrics = elim (decode gpb.content) [
  | malformed e ↦ skip_packets decode emit gpbs metrics
  | decoded info ↦ skip_packets decode emit gpbs (metrics ++ emit info)
]

-- The loop of a handler that returns an error for a packet that it cannot decode.
unfoldable pub require_packets {ℓ κ} :
    {I : Type ℓ} {M : Type κ}
    → (Bytes → ParseError)
    → (Bytes → Decoded I)
    → (I → List M)
    → List NotificationGpb
    → List M
    → Result (List M)
require_packets wrap decode emit [] metrics = ok metrics
require_packets wrap decode emit (gpb ∷ gpbs) metrics = elim (decode gpb.content) [
  | malformed e ↦ err (wrap e)
  | decoded info ↦ require_packets wrap decode emit gpbs (metrics ++ emit info)
]

-- `if len(msg.DataGpb) == 0 { return nil, fmt.Errorf("DataGpb为空") }`
unfoldable pub with_packets {ℓ} :
    {A : Type ℓ} → Telemetry → (List NotificationGpb → Result A) → Result A
with_packets msg body = elim msg.data_gpb [
  | [] ↦ err empty_data_gpb
  | gpb ∷ gpbs ↦ body (gpb ∷ gpbs)
]
