-- ===== src/Parser/Kinds.antt =====
-- In which lists of its result `ParseTelemetryData` of internal/parser/telemetry_parser.go puts the
-- records of a message.
use ztelem.Prelude.{
  Bool, true, false, Bytes, List, [], Option, none, some, ◌≡◌, refl, sym, ◌∙◌, subst, if◌then◌else◌,
}
use ztelem.Models.{PlatformMetric, InterfaceMetric, SubinterfaceMetric, is}
use ztelem.Proto.Telemetry.{Telemetry}
use ztelem.Parser.Helpers.{FloatFormat}
use ztelem.Parser.Packets.{Decoders, decoded, Result, ok, err}
use ztelem.Parser.Routes.{Route, Handler, find_route, routes}
use ztelem.Parser.Messages.{
  ParseResult, empty_result, put_platform, put_interface, put_subinterface, run_handler,
  route_message, parse_message, parse_telemetry_data,
}
use ztelem.Parser.Stamps.{OnOk}

-- What a message is about.
pub data Content : Type 0 where
  nothing : Content
  components : Content
  interfaces : Content
  subinterfaces : Content
  alarms : Content

-- The lists of a result that are not for `c` are empty.
abbrev pub Holds : Content → ParseResult → Type 0
Holds c r = elim c [
  | nothing ↦
      (r.platform_metrics ≡ [])
      × (r.interface_metrics ≡ [])
      × (r.subinterface_metrics ≡ [])
      × (r.alarm_report_metrics ≡ [])
      × (r.notification_report_metrics ≡ [])
  | components ↦
      (r.interface_metrics ≡ [])
      × (r.subinterface_metrics ≡ [])
      × (r.alarm_report_metrics ≡ [])
      × (r.notification_report_metrics ≡ [])
  | interfaces ↦
      (r.platform_metrics ≡ [])
      × (r.subinterface_metrics ≡ [])
      × (r.alarm_report_metrics ≡ [])
      × (r.notification_report_metrics ≡ [])
  | subinterfaces ↦
      (r.platform_metrics ≡ [])
      × (r.interface_metrics ≡ [])
      × (r.alarm_report_metrics ≡ [])
      × (r.notification_report_metrics ≡ [])
  | alarms ↦ (r.platform_metrics ≡ []) × (r.interface_metrics ≡ []) × (r.subinterface_metrics ≡ [])
]

abbrev handled : Handler → Content
handled Handler.parse_component_storage_state = components
handled Handler.parse_component_temperature_state = components
handled Handler.parse_component_power_supply_state = components
handled Handler.parse_component_linecard_state = components
handled Handler.parse_component_cpu_state = components
handled Handler.parse_component_transceiver_state = components
handled Handler.parse_interface_state = interfaces
handled Handler.parse_interface_zte_state = interfaces
handled Handler.parse_subinterface_state = subinterfaces
handled Handler.parse_subinterface_zte_state = subinterfaces
handled Handler.parse_subinterface_counters = subinterfaces
handled Handler.parse_component_state = components
handled Handler.parse_components_data = components
handled Handler.parse_component_fan_state = components
handled Handler.parse_component_memory_state = components
handled Handler.parse_interface_counters = interfaces

abbrev routed : Option Route → Content
routed none = nothing
routed (some route) = handled route.handler

-- By the data type, and then by the sensor path.
abbrev pub content_of : Telemetry → Content
content_of msg = if is 1 msg.data_type then alarms else routed (find_route msg.sensor_path routes)

module _ (msg : Telemetry) where
  put_platform-Holds :
      (x : Result (List PlatformMetric))
      → OnOk (Holds components) (put_platform x (empty_result msg))
  unfolding put_platform empty_result
  put_platform-Holds (err e) = tt
  put_platform-Holds (ok v) = (refl, refl, refl, refl)

  put_interface-Holds :
      (x : Result (List InterfaceMetric))
      → OnOk (Holds interfaces) (put_interface x (empty_result msg))
  unfolding put_interface empty_result
  put_interface-Holds (err e) = tt
  put_interface-Holds (ok v) = (refl, refl, refl, refl)

  put_subinterface-Holds :
      (x : Result (List SubinterfaceMetric))
      → OnOk (Holds subinterfaces) (put_subinterface x (empty_result msg))
  unfolding put_subinterface empty_result
  put_subinterface-Holds (err e) = tt
  put_subinterface-Holds (ok v) = (refl, refl, refl, refl)

  run_handler-Holds :
      (d : Decoders) (f : FloatFormat) (h : Handler)
      → OnOk (Holds (handled h)) (run_handler d f msg (empty_result msg) h)
  unfolding run_handler
  run_handler-Holds d f Handler.parse_component_storage_state = put_platform-Holds _
  run_handler-Holds d f Handler.parse_component_temperature_state = put_platform-Holds _
  run_handler-Holds d f Handler.parse_component_power_supply_state = put_platform-Holds _
  run_handler-Holds d f Handler.parse_component_linecard_state = put_platform-Holds _
  run_handler-Holds d f Handler.parse_component_cpu_state = put_platform-Holds _
  run_handler-Holds d f Handler.parse_component_transceiver_state = put_platform-Holds _
  run_handler-Holds d f Handler.parse_interface_state = put_interface-Holds _
  run_handler-Holds d f Handler.parse_interface_zte_state = put_interface-Holds _
  run_handler-Holds d f Handler.parse_subinterface_state = put_subinterface-Holds _
  run_handler-Holds d f Handler.parse_subinterface_zte_state = put_subinterface-Holds _
  run_handler-Holds d f Handler.parse_subinterface_counters = put_subinterface-Holds _
  run_handler-Holds d f Handler.parse_component_state = put_platform-Holds _
  run_handler-Holds d f Handler.parse_components_data = put_platform-Holds _
  run_handler-Holds d f Handler.parse_component_fan_state = put_platform-Holds _
  run_handler-Holds d f Handler.parse_component_memory_state = put_platform-Holds _
  run_handler-Holds d f Handler.parse_interface_counters = put_interface-Holds _

  route_message-Holds :
      (d : Decoders) (f : FloatFormat) (route : Option Route)
      → OnOk (Holds (routed route)) (route_message d f msg route)
  unfolding route_message empty_result
  route_message-Holds d f none = (refl, refl, refl, refl, refl)
  route_message-Holds d f (some route) = run_handler-Holds d f route.handler

  choice-OnOk :
      (b : Bool) (x y : Result ParseResult) (c e : Content)
      → OnOk (Holds c) x
      → OnOk (Holds e) y
      → OnOk (Holds (if b then c else e)) (if b then x else y)
  choice-OnOk true x y c e hx hy = hx
  choice-OnOk false x y c e hx hy = hy

  parse_message-Holds :
      (d : Decoders) (f : FloatFormat) → OnOk (Holds (content_of msg)) (parse_message d f msg)
  unfolding parse_message empty_result
  parse_message-Holds d f =
      choice-OnOk (is 1 msg.data_type) _ _ alarms (routed (find_route msg.sensor_path routes))
        (refl, refl, refl) (route_message-Holds d f (find_route msg.sensor_path routes))

-- The records of a parsed message stand only in the lists for what the message is about: alarms and
-- notifications for the data type 1; otherwise components, interfaces or subinterfaces by the handler
-- of its sensor path, and nothing for a path without a handler.
pub parse_telemetry_data-Holds :
    (d : Decoders) (f : FloatFormat) (bytes : Bytes) (msg : Telemetry) (r : ParseResult)
    → d.telemetry bytes ≡ decoded msg
    → parse_telemetry_data d f bytes ≡ ok r
    → Holds (content_of msg) r
unfolding parse_telemetry_data
parse_telemetry_data-Holds d f bytes msg r hd hr =
    let e : parse_message d f msg ≡ ok r = sym (rw (hd, parse_telemetry_data) refl) ∙ hr in
    subst (OnOk (Holds (content_of msg))) e (parse_message-Holds msg d f)
