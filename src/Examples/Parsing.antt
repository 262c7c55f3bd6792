-- ===== src/Examples/Parsing.antt =====
-- Messages, parsed with decoders that read a few packets.
use ztelem.Prelude.{
  Bytes, List, [], ◌∷◌, none, some, map, concat, codes, beq, if◌then◌else◌, pos, ◌≡◌, refl,
}
use ztelem.Proto.Telemetry.{Telemetry, NotificationGpb}
use ztelem.Proto.Platform.{ComponentInfo, FanInfo}
use ztelem.Parser.Helpers.{FloatFormat}
use ztelem.Models.{unix_milli}
use ztelem.Parser.Packets.{
  Decoders, decoded, malformed, ok, component_error, interface_error, skip_packets, with_packets,
}
use ztelem.Parser.Routes.{find_route, matches, has_prefix, routes}
use ztelem.Parser.Loops.{tolerated, required}
use ztelem.Parser.Answers.{tolerant_handlers, strict_handlers}
use ztelem.Parser.Failures.{error_of, telemetry_failure, parse_telemetry_data-error}
use ztelem.Parser.Stamps.{Stamped}
use ztelem.Parser.Stamps.Messages.{parse_telemetry_data-Stamped}
use ztelem.Parser.Kinds.{Holds, content_of, parse_telemetry_data-Holds}
use ztelem.Parser.Messages.{
  ParseResult, parse_telemetry_data, parse_message, route_message, run_handler, put_platform,
  empty_result,
}
use ztelem.Parser.Platform.Handlers.{
  parse_component_state, emit_component_state, parse_components_data, emit_components_data,
  parse_component_fan_state, emit_component_fan_state, parse_component_memory_state,
  emit_component_memory_state, parse_component_storage_state, emit_component_storage_state,
  parse_component_temperature_state, emit_component_temperature_state,
  parse_component_power_supply_state, emit_component_power_supply_state,
  parse_component_linecard_state, emit_component_linecard_state, parse_component_cpu_state,
  emit_component_cpu_state, parse_component_transceiver_state, emit_component_transceiver_state,
}
use ztelem.Parser.Interfaces.Handlers.{
  parse_interface_counters, emit_interface_counters, parse_interface_state, emit_interface_state,
  parse_interface_zte_state, emit_interface_zte_state,
}
use ztelem.Parser.Interfaces.SubHandlers.{
  parse_subinterface_state, emit_subinterface_state, parse_subinterface_zte_state,
  emit_subinterface_zte_state, parse_subinterface_counters, emit_subinterface_counters,
}

abbrev pub gpb : Bytes → NotificationGpb
gpb content = record { timestamp = 1700000000000; content = content }

abbrev pub message : Bytes → List NotificationGpb → Telemetry
message sensor_path gpbs = record {
  system_id = codes "ne1";
  subscription_id = codes "s1";
  mng_ipv4 = codes "10.0.0.1";
  mng_ipv6 = [];
  data_type = pos 0;
  sensor_path = sensor_path;
  proto_path = [];
  collection_id = 1;
  collection_start_time = 0;
  msg_timestamp = 1700000000000;
  collection_end_time = 0;
  current_period = 0;
  data_gpb = gpbs;
  json_ietf_val = [];
}

abbrev pub fan : FanInfo
fan = record {
  speed = 3000;
  state = codes "UP";
  phy_status = [];
  work_mode = codes "AUTO";
  current_power = [];
  current_voltage = [];
  current_current = [];
  speed_percent = codes "40";
}

-- A component with a fan and a store.
abbrev pub component : Bytes → ComponentInfo
component name = record {
  name = name;
  common_state = none;
  temp_info = none;
  mem_info = none;
  cpu_info = none;
  power_admin_state = none;
  fan_info = some fan;
  power_info = none;
  storage_info = some (record { availability = 70 });
  optical_info = none;
  opticalchan_info = [];
}

-- The packet "x" is damaged; another holds the component of that name.
abbrev pub decoders : Telemetry → Decoders
decoders msg = record {
  telemetry =
      λ bytes. if beq bytes (codes "msg") then decoded msg else malformed (codes "no message");
  component_info = λ bytes.
      if beq bytes (codes "x") then malformed (codes "damaged") else decoded (component bytes);
  interface_info = λ bytes. malformed (codes "no interface");
  alarm_info = λ bytes. decoded (record { alarm_report = []; notification_report = [] });
  current_alarm = λ bytes. malformed (codes "no alarm");
}

abbrev pub float_format : FloatFormat
float_format = record {
  times = λ a b. a;
  fixed2 = λ v. codes "0.00";
  fixed2_32 = λ v. codes "0.00";
}

-- Two good packets around a damaged one.
abbrev pub fans : Telemetry
fans =
    message (codes "oc-platform:components/component/fan/state")
      (gpb (codes "fan-1") ∷ gpb (codes "x") ∷ gpb (codes "fan-2") ∷ [])

abbrev pub stores : Telemetry
stores =
    message (codes "oc-platform:components/component/state/storage")
      (gpb (codes "cf-1") ∷ gpb (codes "x") ∷ [])

-- The good packets give metrics; the damaged one is passed over.
fans_result :
    parse_component_fan_state (decoders fans) fans
    ≡ ok (
        concat (
          map
            (emit_component_fan_state fans)
            (component (codes "fan-1") ∷ component (codes "fan-2") ∷ [])))
unfolding parse_component_fan_state skip_packets with_packets beq emit_component_fan_state
fans_result = refl

stores_error :
    telemetry_failure (decoders stores) (codes "msg") ≡ some (component_error (codes "damaged"))
unfolding find_route matches has_prefix routes beq
stores_error = refl

tolerant_handlers_example :
    (parse_component_state (decoders fans) fans
      ≡ tolerated (decoders fans).component_info (emit_component_state fans) fans)
    × (parse_components_data (decoders fans) fans
        ≡ tolerated (decoders fans).component_info (emit_components_data fans) fans)
    × (parse_component_fan_state (decoders fans) fans
        ≡ tolerated (decoders fans).component_info (emit_component_fan_state fans) fans)
    × (parse_component_memory_state (decoders fans) fans
        ≡ tolerated (decoders fans).component_info (emit_component_memory_state fans) fans)
    × (parse_interface_counters (decoders fans) float_format fans
        ≡ tolerated (decoders fans).interface_info (emit_interface_counters float_format fans) fans)
tolerant_handlers_example = tolerant_handlers (decoders fans) float_format fans

parse_telemetry_data-error_example :
    error_of (parse_telemetry_data (decoders stores) float_format (codes "msg"))
    ≡ telemetry_failure (decoders stores) (codes "msg")
parse_telemetry_data-error_example =
    parse_telemetry_data-error (decoders stores) float_format (codes "msg")

abbrev fans_parsed : ParseResult
fans_parsed = record {
  system_id = codes "ne1";
  sensor_path = codes "oc-platform:components/component/fan/state";
  timestamp = pos 1700000000000000000;
  platform_metrics = concat (
      map (emit_component_fan_state fans)
        (component (codes "fan-1") ∷ component (codes "fan-2") ∷ []));
  interface_metrics = [];
  subinterface_metrics = [];
  alarm_report_metrics = [];
  notification_report_metrics = [];
}

fans_decoded : (decoders fans).telemetry (codes "msg") ≡ decoded fans
unfolding beq
fans_decoded = refl

fans_ok : parse_telemetry_data (decoders fans) float_format (codes "msg") ≡ ok fans_parsed
unfolding parse_telemetry_data parse_message route_message run_handler put_platform empty_result
    parse_component_fan_state skip_packets with_packets beq find_route matches has_prefix routes
    unix_milli emit_component_fan_state
fans_ok = refl

parse_telemetry_data-Stamped_example : Stamped fans fans_parsed
parse_telemetry_data-Stamped_example =
    parse_telemetry_data-Stamped (decoders fans) float_format (codes "msg") fans fans_parsed
      fans_decoded fans_ok

parse_telemetry_data-Holds_example : Holds (content_of fans) fans_parsed
parse_telemetry_data-Holds_example =
    parse_telemetry_data-Holds (decoders fans) float_format (codes "msg") fans fans_parsed
      fans_decoded fans_ok

strict_handlers_example :
    (parse_component_storage_state (decoders stores) stores
      ≡ required
          (decoders stores).component_info
          (emit_component_storage_state stores)
          component_error
          stores)
    × (parse_component_temperature_state (decoders stores) stores
        ≡ required
            (decoders stores).component_info
            (emit_component_temperature_state stores)
            component_error
            stores)
    × (parse_component_power_supply_state (decoders stores) stores
        ≡ required
            (decoders stores).component_info
            (emit_component_power_supply_state stores)
            component_error
            stores)
    × (parse_component_linecard_state (decoders stores) stores
        ≡ required
            (decoders stores).component_info
            (emit_component_linecard_state stores)
            component_error
            stores)
    × (parse_component_cpu_state (decoders stores) stores
        ≡ required
            (decoders stores).component_info
            (emit_component_cpu_state stores)
            component_error
            stores)
    × (parse_component_transceiver_state (decoders stores) stores
        ≡ required
            (decoders stores).component_info
            (emit_component_transceiver_state stores)
            component_error
            stores)
    × (parse_interface_state (decoders stores) stores
        ≡ required
            (decoders stores).interface_info
            (emit_interface_state stores)
            interface_error
            stores)
    × (parse_interface_zte_state (decoders stores) stores
        ≡ required
            (decoders stores).interface_info
            (emit_interface_zte_state stores)
            interface_error
            stores)
    × (parse_subinterface_state (decoders stores) stores
        ≡ required
            (decoders stores).interface_info
            (emit_subinterface_state stores)
            interface_error
            stores)
    × (parse_subinterface_zte_state (decoders stores) stores
        ≡ required
            (decoders stores).interface_info
            (emit_subinterface_zte_state stores)
            interface_error
            stores)
    × (parse_subinterface_counters (decoders stores) float_format stores
        ≡ required
            (decoders stores).interface_info
            (emit_subinterface_counters float_format stores)
            interface_error
            stores)
strict_handlers_example = strict_handlers (decoders stores) float_format stores
