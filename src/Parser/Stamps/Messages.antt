-- ===== src/Parser/Stamps/Messages.antt =====
-- What `ParseTelemetryData` of internal/parser/telemetry_parser.go answers carries the device and the
-- time of the message.
use ztelem.Prelude.{
  Bool, true, false, Bytes, List, Option, none, some, ◌≡◌, refl, sym, ◌∙◌, subst, All,
  if◌then◌else◌,
}
use ztelem.Models.{PlatformMetric, InterfaceMetric, SubinterfaceMetric, is}
use ztelem.Proto.Telemetry.{Telemetry}
use ztelem.Parser.Helpers.{FloatFormat}
use ztelem.Parser.Packets.{Decoders, decoded, Result, ok, err}
use ztelem.Parser.Routes.{Route, Handler, find_route, routes}
use ztelem.Parser.Messages.{
  ParseResult, empty_result, put_platform, put_interface, put_subinterface, run_handler,
  route_message, parse_message, parse_telemetry_data,
}
use ztelem.Parser.Stamps.{PlatformStamped, InterfaceStamped, SubinterfaceStamped, Stamped, OnOk}
use ztelem.Parser.Stamps.Platform.{
  parse_component_state-Stamped, parse_components_data-Stamped, parse_component_fan_state-Stamped,
  parse_component_memory_state-Stamped, parse_component_storage_state-Stamped,
  parse_component_temperature_state-Stamped, parse_component_power_supply_state-Stamped,
  parse_component_linecard_state-Stamped, parse_component_cpu_state-Stamped,
  parse_component_transceiver_state-Stamped,
}
use ztelem.Parser.Stamps.Interfaces.{
  parse_interface_counters-Stamped, parse_interface_state-Stamped,
  parse_interface_zte_state-Stamped, parse_subinterface_state-Stamped,
  parse_subinterface_zte_state-Stamped, parse_subinterface_counters-Stamped,
}
use ztelem.Parser.Stamps.Alarms.{parse_alarm_data-Stamped}

module _ (msg : Telemetry) where
  empty-Stamped : Stamped msg (empty_result msg)
  unfolding empty_result
  empty-Stamped = record {
    result = (refl, refl);
    platforms = tt;
    interfaces = tt;
    subinterfaces = tt;
    alarms = tt;
    notifications = tt;
  }

  put_platform-Stamped :
      (x : Result (List PlatformMetric))
      → OnOk (All (PlatformStamped msg)) x
      → OnOk (Stamped msg) (put_platform x (empty_result msg))
  unfolding put_platform empty_result
  put_platform-Stamped (err e) h = tt
  put_platform-Stamped (ok v) h = record {
    result = (refl, refl);
    platforms = h;
    interfaces = tt;
    subinterfaces = tt;
    alarms = tt;
    notifications = tt;
  }

  put_interface-Stamped :
      (x : Result (List InterfaceMetric))
      → OnOk (All (InterfaceStamped msg)) x
      → OnOk (Stamped msg) (put_interface x (empty_result msg))
  unfolding put_interface empty_result
  put_interface-Stamped (err e) h = tt
  put_interface-Stamped (ok v) h = record {
    result = (refl, refl);
    platforms = tt;
    interfaces = h;
    subinterfaces = tt;
    alarms = tt;
    notifications = tt;
  }

  put_subinterface-Stamped :
      (x : Result (List SubinterfaceMetric))
      → OnOk (All (SubinterfaceStamped msg)) x
      → OnOk (Stamped msg) (put_subinterface x (empty_result msg))
  unfolding put_subinterface empty_result
  put_subinterface-Stamped (err e) h = tt
  put_subinterface-Stamped (ok v) h = record {
    result = (refl, refl);
    platforms = tt;
    interfaces = tt;
    subinterfaces = h;
    alarms = tt;
    notifications = tt;
  }

  run_handler-Stamped :
      (d : Decoders) (f : FloatFormat) (h : Handler)
      → OnOk (Stamped msg) (run_handler d f msg (empty_result msg) h)
  unfolding run_handler
  run_handler-Stamped d f Handler.parse_component_state =
      put_platform-Stamped _ (parse_component_state-Stamped d f msg)
  run_handler-Stamped d f Handler.parse_components_data =
      put_platform-Stamped _ (parse_components_data-Stamped d f msg)
  run_handler-Stamped d f Handler.parse_component_fan_state =
      put_platform-Stamped _ (parse_component_fan_state-Stamped d f msg)
  run_handler-Stamped d f Handler.parse_component_memory_state =
      put_platform-Stamped _ (parse_component_memory_state-Stamped d f msg)
  run_handler-Stamped d f Handler.parse_interface_counters =
      put_interface-Stamped _ (parse_interface_counters-Stamped d f msg)
  run_handler-Stamped d f Handler.parse_component_storage_state =
      put_platform-Stamped _ (parse_component_storage_state-Stamped d f msg)
  run_handler-Stamped d f Handler.parse_component_temperature_state =
      put_platform-Stamped _ (parse_component_temperature_state-Stamped d f msg)
  run_handler-Stamped d f Handler.parse_component_power_supply_state =
      put_platform-Stamped _ (parse_component_power_supply_state-Stamped d f msg)
  run_handler-Stamped d f Handler.parse_component_linecard_state =
      put_platform-Stamped _ (parse_component_linecard_state-Stamped d f msg)
  run_handler-Stamped d f Handler.parse_component_cpu_state =
      put_platform-Stamped _ (parse_component_cpu_state-Stamped d f msg)
  run_handler-Stamped d f Handler.parse_component_transceiver_state =
      put_platform-Stamped _ (parse_component_transceiver_state-Stamped d f msg)
  run_handler-Stamped d f Handler.parse_interface_state =
      put_interface-Stamped _ (parse_interface_state-Stamped d f msg)
  run_handler-Stamped d f Handler.parse_interface_zte_state =
      put_interface-Stamped _ (parse_interface_zte_state-Stamped d f msg)
  run_handler-Stamped d f Handler.parse_subinterface_state =
      put_subinterface-Stamped _ (parse_subinterface_state-Stamped d f msg)
  run_handler-Stamped d f Handler.parse_subinterface_zte_state =
      put_subinterface-Stamped _ (parse_subinterface_zte_state-Stamped d f msg)
  run_handler-Stamped d f Handler.parse_subinterface_counters =
      put_subinterface-Stamped _ (parse_subinterface_counters-Stamped d f msg)

  route_message-Stamped :
      (d : Decoders) (f : FloatFormat) (route : Option Route)
      → OnOk (Stamped msg) (route_message d f msg route)
  unfolding route_message
  route_message-Stamped d f none = empty-Stamped
  route_message-Stamped d f (some route) = run_handler-Stamped d f route.handler

  choice-OnOk :
      (b : Bool) (x y : Result ParseResult)
      → OnOk (Stamped msg) x
      → OnOk (Stamped msg) y
      → OnOk (Stamped msg) (if b then x else y)
  choice-OnOk true x y hx hy = hx
  choice-OnOk false x y hx hy = hy

  parse_message-Stamped :
      (d : Decoders) (f : FloatFormat) → OnOk (Stamped msg) (parse_message d f msg)
  unfolding parse_message empty_result
  parse_message-Stamped d f =
      let h = parse_alarm_data-Stamped d msg in
      choice-OnOk (is 1 msg.data_type) _ _
        (record {
          result = (refl, refl);
          platforms = tt;
          interfaces = tt;
          subinterfaces = tt;
          alarms = h.0;
          notifications = h.1;
        })
        (route_message-Stamped d f (find_route msg.sensor_path routes))

-- Each record of a parsed message, of all five kinds, carries the system id of the message and the time
-- at which the device sent it; so does the result.
pub parse_telemetry_data-Stamped :
    (d : Decoders) (f : FloatFormat) (bytes : Bytes) (msg : Telemetry) (r : ParseResult)
    → d.telemetry bytes ≡ decoded msg
    → parse_telemetry_data d f bytes ≡ ok r
    → Stamped msg r
unfolding parse_telemetry_data
parse_telemetry_data-Stamped d f bytes msg r hd hr =
    let e : parse_message d f msg ≡ ok r = sym (rw (hd, parse_telemetry_data) refl) ∙ hr in
    subst (OnOk (Stamped msg)) e (parse_message-Stamped msg d f)
