-- ===== src/Parser/Messages.antt =====
-- `ParseTelemetryData` of internal/parser/telemetry_parser.go.
use ztelem.Prelude.{Bytes, List, [], Option, none, some, if◌then◌else◌}
use ztelem.Models.{
  Time, PlatformMetric, InterfaceMetric, SubinterfaceMetric, AlarmReportMetric,
  NotificationReportMetric, unix_milli, to_int64, is,
}
use ztelem.Proto.Telemetry.{Telemetry}
use ztelem.Parser.Helpers.{FloatFormat}
use ztelem.Parser.Packets.{Decoders, decoded, malformed, Result, ok, err, telemetry_error}
use ztelem.Parser.Routes.{Route, Handler, find_route, routes}
use ztelem.Parser.Platform.Handlers as Components
use ztelem.Parser.Interfaces.Handlers as Interfaces
use ztelem.Parser.Interfaces.SubHandlers as Subinterfaces
use ztelem.Parser.Alarms.{parse_alarm_data}

pub record ParseResult : Type 0 where
  pub system_id : Bytes
  pub sensor_path : Bytes
  pub timestamp : Time
  pub platform_metrics : List PlatformMetric
  pub interface_metrics : List InterfaceMetric
  pub subinterface_metrics : List SubinterfaceMetric
  pub alarm_report_metrics : List AlarmReportMetric
  pub notification_report_metrics : List NotificationReportMetric

-- `&ParseResult{SystemID: …, SensorPath: …, Timestamp: …}`
unfoldable pub empty_result : Telemetry → ParseResult
empty_result msg = record {
  system_id = msg.system_id;
  sensor_path = msg.sensor_path;
  timestamp = unix_milli (to_int64 msg.msg_timestamp);
  platform_metrics = [];
  interface_metrics = [];
  subinterface_metrics = [];
  alarm_report_metrics = [];
  notification_report_metrics = [];
}

-- The cases of the type switch on what a handler returned.
unfoldable pub put_platform : Result (List PlatformMetric) → ParseResult → Result ParseResult
put_platform (err e) r = err e
put_platform (ok v) r = ok (record r { platform_metrics = v })

unfoldable pub put_interface : Result (List InterfaceMetric) → ParseResult → Result ParseResult
put_interface (err e) r = err e
put_interface (ok v) r = ok (record r { interface_metrics = v })

unfoldable pub put_subinterface :
    Result (List SubinterfaceMetric) → ParseResult → Result ParseResult
put_subinterface (err e) r = err e
put_subinterface (ok v) r = ok (record r { subinterface_metrics = v })

-- The call of `route.handler`, and the switch.
unfoldable pub run_handler :
    Decoders → FloatFormat → Telemetry → ParseResult → Handler → Result ParseResult
unfolding put_platform put_interface put_subinterface
run_handler d f msg r Handler.parse_components_data =
    put_platform (Components.parse_components_data d msg) r
run_handler d f msg r Handler.parse_component_transceiver_state =
    put_platform (Components.parse_component_transceiver_state d msg) r
run_handler d f msg r Handler.parse_component_cpu_state =
    put_platform (Components.parse_component_cpu_state d msg) r
run_handler d f msg r Handler.parse_component_linecard_state =
    put_platform (Components.parse_component_linecard_state d msg) r
run_handler d f msg r Handler.parse_component_power_supply_state =
    put_platform (Components.parse_component_power_supply_state d msg) r
run_handler d f msg r Handler.parse_component_fan_state =
    put_platform (Components.parse_component_fan_state d msg) r
run_handler d f msg r Handler.parse_component_memory_state =
    put_platform (Components.parse_component_memory_state d msg) r
run_handler d f msg r Handler.parse_component_storage_state =
    put_platform (Components.parse_component_storage_state d msg) r
run_handler d f msg r Handler.parse_component_temperature_state =
    put_platform (Components.parse_component_temperature_state d msg) r
run_handler d f msg r Handler.parse_component_state =
    put_platform (Components.parse_component_state d msg) r
run_handler d f msg r Handler.parse_subinterface_counters =
    put_subinterface (Subinterfaces.parse_subinterface_counters d f msg) r
run_handler d f msg r Handler.parse_subinterface_zte_state =
    put_subinterface (Subinterfaces.parse_subinterface_zte_state d msg) r
run_handler d f msg r Handler.parse_subinterface_state =
    put_subinterface (Subinterfaces.parse_subinterface_state d msg) r
run_handler d f msg r Handler.parse_interface_counters =
    put_interface (Interfaces.parse_interface_counters d f msg) r
run_handler d f msg r Handler.parse_interface_zte_state =
    put_interface (Interfaces.parse_interface_zte_state d msg) r
run_handler d f msg r Handler.parse_interface_state =
    put_interface (Interfaces.parse_interface_state d msg) r

unfoldable pub route_message :
    Decoders → FloatFormat → Telemetry → Option Route → Result ParseResult
route_message d f msg none = ok (empty_result msg)
route_message d f msg (some route) = run_handler d f msg (empty_result msg) route.handler

-- Alarm data, with data type 1, goes before the table.
unfoldable pub parse_message : Decoders → FloatFormat → Telemetry → Result ParseResult
parse_message d f msg =
    let (alarms, notifications) = parse_alarm_data d msg in
    if is 1 msg.data_type
    then ok (record (empty_result msg) {
      alarm_report_metrics = alarms;
      notification_report_metrics = notifications;
    })
    else route_message d f msg (find_route msg.sensor_path routes)

unfoldable pub parse_telemetry_data : Decoders → FloatFormat → Bytes → Result ParseResult
parse_telemetry_data d f bytes = elim (d.telemetry bytes) [
  | malformed e ↦ err (telemetry_error e)
  | decoded msg ↦ parse_message d f msg
]
