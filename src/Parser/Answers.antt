-- ===== src/Parser/Answers.antt =====
-- What each handler of internal/parser/telemetry_parser.go answers for a message, its errors included.
use ztelem.Prelude.{◌≡◌}
use ztelem.Proto.Telemetry.{Telemetry}
use ztelem.Parser.Helpers.{FloatFormat}
use ztelem.Parser.Packets.{Decoders, component_error, interface_error}
use ztelem.Parser.Loops.{tolerated, required, skip-tolerated, require-required}
use ztelem.Parser.Platform.Handlers.{
  parse_component_state, emit_component_state, parse_components_data, emit_components_data,
  parse_component_fan_state, emit_component_fan_state, parse_component_memory_state,
  emit_component_memory_state, parse_component_storage_state, emit_component_storage_state,
  parse_component_temperature_state, emit_component_temperature_state,
  parse_component_power_supply_state, emit_component_power_supply_state,
  parse_component_linecard_state, emit_component_linecard_state, parse_component_cpu_state,
  emit_component_cpu_state, parse_component_transceiver_state, emit_component_transceiver_state,
}
use ztelem.Parser.Interfaces.Handlers.{
  parse_interface_counters, emit_interface_counters, parse_interface_state, emit_interface_state,
  parse_interface_zte_state, emit_interface_zte_state,
}
use ztelem.Parser.Interfaces.SubHandlers.{
  parse_subinterface_state, emit_subinterface_state, parse_subinterface_zte_state,
  emit_subinterface_zte_state, parse_subinterface_counters, emit_subinterface_counters,
}

-- The handlers of five paths (the general data and state of components, fans, memory, the counters of
-- interfaces) answer with the metrics of the packets that can be decoded, in order, and pass over the
-- others. They fail for a message without packets alone.
pub tolerant_handlers :
    (d : Decoders) (f : FloatFormat) (msg : Telemetry)
    → (parse_component_state d msg ≡ tolerated d.component_info (emit_component_state msg) msg)
      × (parse_components_data d msg ≡ tolerated d.component_info (emit_components_data msg) msg)
      × (parse_component_fan_state d msg
          ≡ tolerated d.component_info (emit_component_fan_state msg) msg)
      × (parse_component_memory_state d msg
          ≡ tolerated d.component_info (emit_component_memory_state msg) msg)
      × (parse_interface_counters d f msg
          ≡ tolerated d.interface_info (emit_interface_counters f msg) msg)
unfolding parse_component_state parse_components_data parse_component_fan_state
    parse_component_memory_state parse_interface_counters
tolerant_handlers d f msg = (
  skip-tolerated d.component_info (emit_component_state msg) msg,
  skip-tolerated d.component_info (emit_components_data msg) msg,
  skip-tolerated d.component_info (emit_component_fan_state msg) msg,
  skip-tolerated d.component_info (emit_component_memory_state msg) msg,
  skip-tolerated d.interface_info (emit_interface_counters f msg) msg,
)

-- The other eleven handlers answer with the metrics of all packets, in order, or with the error of the
-- first packet that cannot be decoded, and nothing of the packets before it. They fail too for a
-- message without packets.
pub strict_handlers :
    (d : Decoders) (f : FloatFormat) (msg : Telemetry)
    → (parse_component_storage_state d msg
        ≡ required d.component_info (emit_component_storage_state msg) component_error msg)
      × (parse_component_temperature_state d msg
          ≡ required d.component_info (emit_component_temperature_state msg) component_error msg)
      × (parse_component_power_supply_state d msg
          ≡ required d.component_info (emit_component_power_supply_state msg) component_error msg)
      × (parse_component_linecard_state d msg
          ≡ required d.component_info (emit_component_linecard_state msg) component_error msg)
      × (parse_component_cpu_state d msg
          ≡ required d.component_info (emit_component_cpu_state msg) component_error msg)
      × (parse_component_transceiver_state d msg
          ≡ required d.component_info (emit_component_transceiver_state msg) component_error msg)
      × (parse_interface_state d msg
          ≡ required d.interface_info (emit_interface_state msg) interface_error msg)
      × (parse_interface_zte_state d msg
          ≡ required d.interface_info (emit_interface_zte_state msg) interface_error msg)
      × (parse_subinterface_state d msg
          ≡ required d.interface_info (emit_subinterface_state msg) interface_error msg)
      × (parse_subinterface_zte_state d msg
          ≡ required d.interface_info (emit_subinterface_zte_state msg) interface_error msg)
      × (parse_subinterface_counters d f msg
          ≡ required d.interface_info (emit_subinterface_counters f msg) interface_error msg)
unfolding parse_component_storage_state parse_component_temperature_state
    parse_component_power_supply_state parse_component_linecard_state parse_component_cpu_state
    parse_component_transceiver_state parse_interface_state parse_interface_zte_state
    parse_subinterface_state parse_subinterface_zte_state parse_subinterface_counters
strict_handlers d f msg = (
  require-required d.component_info (emit_component_storage_state msg) component_error msg,
  require-required d.component_info (emit_component_temperature_state msg) component_error msg,
  require-required d.component_info (emit_component_power_supply_state msg) component_error msg,
  require-required d.component_info (emit_component_linecard_state msg) component_error msg,
  require-required d.component_info (emit_component_cpu_state msg) component_error msg,
  require-required d.component_info (emit_component_transceiver_state msg) component_error msg,
  require-required d.interface_info (emit_interface_state msg) interface_error msg,
  require-required d.interface_info (emit_interface_zte_state msg) interface_error msg,
  require-required d.interface_info (emit_subinterface_state msg) interface_error msg,
  require-required d.interface_info (emit_subinterface_zte_state msg) interface_error msg,
  require-required d.interface_info (emit_subinterface_counters f msg) interface_error msg,
)
