-- ===== src/Parser/Stamps/Platform.antt =====
-- The records of a component carry the device and the time of the message.
use ztelem.Prelude.{refl, sym, subst, All}
use ztelem.Proto.Telemetry.{Telemetry}
use ztelem.Proto.Platform.{ComponentInfo}
use ztelem.Parser.Helpers.{FloatFormat}
use ztelem.Parser.Packets.{Decoders, component_error}
use ztelem.Parser.Answers.{tolerant_handlers, strict_handlers}
use ztelem.Parser.Platform.Handlers.{
  component_metric, emit_component_state, parse_component_state, emit_components_data,
  parse_components_data, emit_component_fan_state, parse_component_fan_state,
  emit_component_memory_state, parse_component_memory_state, emit_component_storage_state,
  parse_component_storage_state, emit_component_temperature_state,
  parse_component_temperature_state, emit_component_power_supply_state,
  parse_component_power_supply_state, emit_component_linecard_state, parse_component_linecard_state,
  emit_component_cpu_state, parse_component_cpu_state, emit_component_transceiver_state,
  parse_component_transceiver_state,
}
use ztelem.Parser.Stamps.{PlatformStamped, OnOk, tolerated-OnOk, required-OnOk, optional-All}

emit_component_state-Stamped :
    (msg : Telemetry) (info : ComponentInfo)
    → All (PlatformStamped msg) (emit_component_state msg info)
unfolding emit_component_state component_metric
emit_component_state-Stamped msg info =
    optional-All (PlatformStamped msg) _ (λ part. (refl, refl)) info.common_state

emit_components_data-Stamped :
    (msg : Telemetry) (info : ComponentInfo)
    → All (PlatformStamped msg) (emit_components_data msg info)
unfolding emit_components_data component_metric
emit_components_data-Stamped msg info = ((refl, refl), tt)

emit_component_fan_state-Stamped :
    (msg : Telemetry) (info : ComponentInfo)
    → All (PlatformStamped msg) (emit_component_fan_state msg info)
unfolding emit_component_fan_state component_metric
emit_component_fan_state-Stamped msg info =
    optional-All (PlatformStamped msg) _ (λ part. (refl, refl)) info.fan_info

emit_component_memory_state-Stamped :
    (msg : Telemetry) (info : ComponentInfo)
    → All (PlatformStamped msg) (emit_component_memory_state msg info)
unfolding emit_component_memory_state component_metric
emit_component_memory_state-Stamped msg info =
    optional-All (PlatformStamped msg) _ (λ part. (refl, refl)) info.mem_info

emit_component_storage_state-Stamped :
    (msg : Telemetry) (info : ComponentInfo)
    → All (PlatformStamped msg) (emit_component_storage_state msg info)
unfolding emit_component_storage_state component_metric
emit_component_storage_state-Stamped msg info =
    optional-All (PlatformStamped msg) _ (λ part. (refl, refl)) info.storage_info

emit_component_temperature_state-Stamped :
    (msg : Telemetry) (info : ComponentInfo)
    → All (PlatformStamped msg) (emit_component_temperature_state msg info)
unfolding emit_component_temperature_state component_metric
emit_component_temperature_state-Stamped msg info =
    optional-All (PlatformStamped msg) _ (λ part. (refl, refl)) info.temp_info

emit_component_power_supply_state-Stamped :
    (msg : Telemetry) (info : ComponentInfo)
    → All (PlatformStamped msg) (emit_component_power_supply_state msg info)
unfolding emit_component_power_supply_state component_metric
emit_component_power_supply_state-Stamped msg info =
    optional-All (PlatformStamped msg) _ (λ part. (refl, refl)) info.power_info

emit_component_linecard_state-Stamped :
    (msg : Telemetry) (info : ComponentInfo)
    → All (PlatformStamped msg) (emit_component_linecard_state msg info)
unfolding emit_component_linecard_state component_metric
emit_component_linecard_state-Stamped msg info =
    optional-All (PlatformStamped msg) _ (λ part. (refl, refl)) info.power_admin_state

emit_component_cpu_state-Stamped :
    (msg : Telemetry) (info : ComponentInfo)
    → All (PlatformStamped msg) (emit_component_cpu_state msg info)
unfolding emit_component_cpu_state component_metric
emit_component_cpu_state-Stamped msg info =
    optional-All (PlatformStamped msg) _ (λ part. (refl, refl)) info.cpu_info

emit_component_transceiver_state-Stamped :
    (msg : Telemetry) (info : ComponentInfo)
    → All (PlatformStamped msg) (emit_component_transceiver_state msg info)
unfolding emit_component_transceiver_state component_metric
emit_component_transceiver_state-Stamped msg info =
    optional-All (PlatformStamped msg) _ (λ part. (refl, refl)) info.optical_info

pub parse_component_state-Stamped :
    (d : Decoders) (f : FloatFormat) (msg : Telemetry)
    → OnOk (All (PlatformStamped msg)) (parse_component_state d msg)
parse_component_state-Stamped d f msg =
    subst (OnOk (All (PlatformStamped msg))) (sym (tolerant_handlers d f msg).0) (
      tolerated-OnOk (PlatformStamped msg) d.component_info (emit_component_state msg)
        (emit_component_state-Stamped msg) msg)

pub parse_components_data-Stamped :
    (d : Decoders) (f : FloatFormat) (msg : Telemetry)
    → OnOk (All (PlatformStamped msg)) (parse_components_data d msg)
parse_components_data-Stamped d f msg =
    subst (OnOk (All (PlatformStamped msg))) (sym (tolerant_handlers d f msg).1) (
      tolerated-OnOk (PlatformStamped msg) d.component_info (emit_components_data msg)
        (emit_components_data-Stamped msg) msg)

pub parse_component_fan_state-Stamped :
    (d : Decoders) (f : FloatFormat) (msg : Telemetry)
    → OnOk (All (PlatformStamped msg)) (parse_component_fan_state d msg)
parse_component_fan_state-Stamped d f msg =
    subst (OnOk (All (PlatformStamped msg))) (sym (tolerant_handlers d f msg).2) (
      tolerated-OnOk (PlatformStamped msg) d.component_info (emit_component_fan_state msg)
        (emit_component_fan_state-Stamped msg) msg)

pub parse_component_memory_state-Stamped :
    (d : Decoders) (f : FloatFormat) (msg : Telemetry)
    → OnOk (All (PlatformStamped msg)) (parse_component_memory_state d msg)
parse_component_memory_state-Stamped d f msg =
    subst (OnOk (All (PlatformStamped msg))) (sym (tolerant_handlers d f msg).3) (
      tolerated-OnOk (PlatformStamped msg) d.component_info (emit_component_memory_state msg)
        (emit_component_memory_state-Stamped msg) msg)

pub parse_component_storage_state-Stamped :
    (d : Decoders) (f : FloatFormat) (msg : Telemetry)
    → OnOk (All (PlatformStamped msg)) (parse_component_storage_state d msg)
parse_component_storage_state-Stamped d f msg =
    subst (OnOk (All (PlatformStamped msg))) (sym (strict_handlers d f msg).0) (
      required-OnOk (PlatformStamped msg) d.component_info (emit_component_storage_state msg)
        (emit_component_storage_state-Stamped msg) component_error msg)

pub parse_component_temperature_state-Stamped :
    (d : Decoders) (f : FloatFormat) (msg : Telemetry)
    → OnOk (All (PlatformStamped msg)) (parse_component_temperature_state d msg)
parse_component_temperature_state-Stamped d f msg =
    subst (OnOk (All (PlatformStamped msg))) (sym (strict_handlers d f msg).1) (
      required-OnOk (PlatformStamped msg) d.component_info (emit_component_temperature_state msg)
        (emit_component_temperature_state-Stamped msg) component_error msg)

pub parse_component_power_supply_state-Stamped :
    (d : Decoders) (f : FloatFormat) (msg : Telemetry)
    → OnOk (All (PlatformStamped msg)) (parse_component_power_supply_state d msg)
parse_component_power_supply_state-Stamped d f msg =
    subst (OnOk (All (PlatformStamped msg))) (sym (strict_handlers d f msg).2) (
      required-OnOk (PlatformStamped msg) d.component_info (emit_component_power_supply_state msg)
        (emit_component_power_supply_state-Stamped msg) component_error msg)

pub parse_component_linecard_state-Stamped :
    (d : Decoders) (f : FloatFormat) (msg : Telemetry)
    → OnOk (All (PlatformStamped msg)) (parse_component_linecard_state d msg)
parse_component_linecard_state-Stamped d f msg =
    subst (OnOk (All (PlatformStamped msg))) (sym (strict_handlers d f msg).3) (
      required-OnOk (PlatformStamped msg) d.component_info (emit_component_linecard_state msg)
        (emit_component_linecard_state-Stamped msg) component_error msg)

pub parse_component_cpu_state-Stamped :
    (d : Decoders) (f : FloatFormat) (msg : Telemetry)
    → OnOk (All (PlatformStamped msg)) (parse_component_cpu_state d msg)
parse_component_cpu_state-Stamped d f msg =
    subst (OnOk (All (PlatformStamped msg))) (sym (strict_handlers d f msg).4) (
      required-OnOk (PlatformStamped msg) d.component_info (emit_component_cpu_state msg)
        (emit_component_cpu_state-Stamped msg) component_error msg)

pub parse_component_transceiver_state-Stamped :
    (d : Decoders) (f : FloatFormat) (msg : Telemetry)
    → OnOk (All (PlatformStamped msg)) (parse_component_transceiver_state d msg)
parse_component_transceiver_state-Stamped d f msg =
    subst (OnOk (All (PlatformStamped msg))) (sym (strict_handlers d f msg).5) (
      required-OnOk (PlatformStamped msg) d.component_info (emit_component_transceiver_state msg)
        (emit_component_transceiver_state-Stamped msg) component_error msg)
