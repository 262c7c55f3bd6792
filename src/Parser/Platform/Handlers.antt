-- ===== src/Parser/Platform/Handlers.antt =====
-- The handlers for components, in internal/parser/telemetry_parser.go. The pool that `componentInfo`
-- comes from only saves allocations, since `proto.Unmarshal` resets its target.
use mathlib.Core.Option
use ztelem.Prelude.{List, [], ◌∷◌, Option, none, some}
use ztelem.Models.{
  PlatformMetric, MemData, PowerData, unix_milli, to_int64, or_empty, empty_common_state,
  empty_mem_data, empty_power_data,
}
use ztelem.Proto.Telemetry.{Telemetry}
use ztelem.Proto.Platform.{ComponentInfo, StorageInfo, LinecardInfo}
use ztelem.Parser.Helpers.{float64_ptr, string_ptr}
use ztelem.Models.Floats.{float64_of_uint32}
use ztelem.Parser.Packets.{
  Decoders, Result, ok, component_error, skip_packets, require_packets, with_packets,
}
use ztelem.Parser.Platform.Components.{
  components_common_state, components_cpu, components_mem, components_temp, components_fan,
  components_power_supply, components_optical,
}
use ztelem.Parser.Platform.Aspects.{
  common_state_fields, cpu_state_fields, memory_state_fields, storage_state_fields,
  temperature_state_fields, fan_state_fields, power_supply_state_fields, linecard_state_fields,
  transceiver_optical,
}

-- `models.PlatformMetric{Timestamp: …, SystemID: …, ComponentName: …}`
unfoldable pub component_metric : Telemetry → ComponentInfo → PlatformMetric
component_metric msg info = record {
  timestamp = unix_milli (to_int64 msg.msg_timestamp);
  system_id = msg.system_id;
  component_name = info.name;
  common_state = none;
  cpu_data = none;
  mem_data = none;
  temp_data = none;
  fan_data = none;
  power_data = none;
  optical_data = none;
}

unfoldable pub emit_component_state : Telemetry → ComponentInfo → List PlatformMetric
emit_component_state msg info = elim info.common_state [
  | none ↦ []
  | some part ↦
      record (component_metric msg info) { common_state = some (common_state_fields part) } ∷ []
]

unfoldable pub parse_component_state : Decoders → Telemetry → Result (List PlatformMetric)
parse_component_state d msg =
    with_packets msg (λ gpbs. ok (skip_packets d.component_info (emit_component_state msg) gpbs []))

unfoldable pub emit_component_fan_state : Telemetry → ComponentInfo → List PlatformMetric
emit_component_fan_state msg info = elim info.fan_info [
  | none ↦ []
  | some part ↦ record (component_metric msg info) { fan_data = some (fan_state_fields part) } ∷ []
]

unfoldable pub parse_component_fan_state : Decoders → Telemetry → Result (List PlatformMetric)
parse_component_fan_state d msg =
    with_packets msg
      (λ gpbs. ok (skip_packets d.component_info (emit_component_fan_state msg) gpbs []))

unfoldable pub emit_component_memory_state : Telemetry → ComponentInfo → List PlatformMetric
emit_component_memory_state msg info = elim info.mem_info [
  | none ↦ []
  | some part ↦
      record (component_metric msg info) { mem_data = some (memory_state_fields part) } ∷ []
]

unfoldable pub parse_component_memory_state : Decoders → Telemetry → Result (List PlatformMetric)
parse_component_memory_state d msg =
    with_packets msg
      (λ gpbs. ok (skip_packets d.component_info (emit_component_memory_state msg) gpbs []))

unfoldable pub emit_component_storage_state : Telemetry → ComponentInfo → List PlatformMetric
emit_component_storage_state msg info = elim info.storage_info [
  | none ↦ []
  | some part ↦
      record (component_metric msg info) { mem_data = some (storage_state_fields part) } ∷ []
]

unfoldable pub parse_component_storage_state : Decoders → Telemetry → Result (List PlatformMetric)
parse_component_storage_state d msg = with_packets msg (λ gpbs.
    require_packets component_error d.component_info (emit_component_storage_state msg) gpbs [])

unfoldable pub emit_component_temperature_state : Telemetry → ComponentInfo → List PlatformMetric
emit_component_temperature_state msg info = elim info.temp_info [
  | none ↦ []
  | some part ↦
      record (component_metric msg info) { temp_data = some (temperature_state_fields part) } ∷ []
]

unfoldable pub parse_component_temperature_state :
    Decoders → Telemetry → Result (List PlatformMetric)
parse_component_temperature_state d msg = with_packets msg (λ gpbs.
    require_packets component_error d.component_info (emit_component_temperature_state msg) gpbs [])

unfoldable pub emit_component_power_supply_state : Telemetry → ComponentInfo → List PlatformMetric
emit_component_power_supply_state msg info = elim info.power_info [
  | none ↦ []
  | some part ↦
      record (component_metric msg info) { power_data = some (power_supply_state_fields part) } ∷ []
]

unfoldable pub parse_component_power_supply_state :
    Decoders → Telemetry → Result (List PlatformMetric)
parse_component_power_supply_state d msg = with_packets msg (λ gpbs.
    require_packets component_error d.component_info (emit_component_power_supply_state msg) gpbs
      [])

unfoldable pub emit_component_linecard_state : Telemetry → ComponentInfo → List PlatformMetric
emit_component_linecard_state msg info = elim info.power_admin_state [
  | none ↦ []
  | some part ↦
      record (component_metric msg info) { power_data = some (linecard_state_fields part) } ∷ []
]

unfoldable pub parse_component_linecard_state : Decoders → Telemetry → Result (List PlatformMetric)
parse_component_linecard_state d msg = with_packets msg (λ gpbs.
    require_packets component_error d.component_info (emit_component_linecard_state msg) gpbs [])

unfoldable pub emit_component_cpu_state : Telemetry → ComponentInfo → List PlatformMetric
emit_component_cpu_state msg info = elim info.cpu_info [
  | none ↦ []
  | some part ↦ record (component_metric msg info) { cpu_data = some (cpu_state_fields part) } ∷ []
]

unfoldable pub parse_component_cpu_state : Decoders → Telemetry → Result (List PlatformMetric)
parse_component_cpu_state d msg = with_packets msg (λ gpbs.
    require_packets component_error d.component_info (emit_component_cpu_state msg) gpbs [])

unfoldable pub emit_component_transceiver_state : Telemetry → ComponentInfo → List PlatformMetric
emit_component_transceiver_state msg info = elim info.optical_info [
  | none ↦ []
  | some part ↦
      record (component_metric msg info) { optical_data = some (transceiver_optical part) } ∷ []
]

unfoldable pub parse_component_transceiver_state :
    Decoders → Telemetry → Result (List PlatformMetric)
parse_component_transceiver_state d msg = with_packets msg (λ gpbs.
    require_packets component_error d.component_info (emit_component_transceiver_state msg) gpbs [])

-- The memory data with the availability of the storage.
unfoldable pub components_storage : Option StorageInfo → Option MemData → Option MemData
components_storage none m = m
components_storage (some s) m = some (record (or_empty empty_mem_data m) {
  storage_availability = float64_ptr (float64_of_uint32 s.availability);
})

-- The power data with the power state of the linecard.
unfoldable pub components_linecard : Option LinecardInfo → Option PowerData → Option PowerData
components_linecard none p = p
components_linecard (some l) p = some (record (or_empty empty_power_data p) {
  linecard_power_admin_state = string_ptr l.power_admin_state;
})

-- One metric for each component, with all that the packet holds.
unfoldable pub emit_components_data : Telemetry → ComponentInfo → List PlatformMetric
emit_components_data msg info =
    record (component_metric msg info) {
      common_state =
          some (or_empty empty_common_state (Option.map components_common_state info.common_state));
      cpu_data = Option.map components_cpu info.cpu_info;
      mem_data = components_storage info.storage_info (Option.map components_mem info.mem_info);
      temp_data = Option.map components_temp info.temp_info;
      fan_data = Option.map components_fan info.fan_info;
      power_data =
          components_linecard info.power_admin_state
            (Option.map components_power_supply info.power_info);
      optical_data = Option.map components_optical info.optical_info;
    }
    ∷ []

unfoldable pub parse_components_data : Decoders → Telemetry → Result (List PlatformMetric)
parse_components_data d msg =
    with_packets msg (λ gpbs. ok (skip_packets d.component_info (emit_components_data msg) gpbs []))
