-- ===== src/Parser/Stamps/Interfaces.antt =====
-- The records of an interface and of a subinterface carry the device and the time of the message.
use ztelem.Prelude.{refl, sym, subst, All}
use ztelem.Proto.Telemetry.{Telemetry}
use ztelem.Proto.Interfaces.{InterfaceInfo, SubinterfaceInfo}
use ztelem.Parser.Helpers.{FloatFormat}
use ztelem.Parser.Packets.{Decoders, interface_error}
use ztelem.Parser.Answers.{tolerant_handlers, strict_handlers}
use ztelem.Parser.Interfaces.Fields.{
  interface_state_fields, interface_zte_state_fields, interface_counters_fields,
}
use ztelem.Parser.Interfaces.SubFields.{
  subinterface_state_fields, subinterface_zte_state_fields, subinterface_counters_fields,
}
use ztelem.Parser.Interfaces.Handlers.{
  interface_metric, emit_interface_counters, parse_interface_counters, emit_interface_state,
  parse_interface_state, emit_interface_zte_state, parse_interface_zte_state,
}
use ztelem.Parser.Interfaces.SubHandlers.{
  subinterface_metric, emit_subinterface_state, parse_subinterface_state,
  emit_subinterface_zte_state, parse_subinterface_zte_state, emit_subinterface_counters,
  parse_subinterface_counters, read_subinterface_state, read_subinterface_zte_state,
  read_subinterface_counters,
}
use ztelem.Parser.Stamps.{
  InterfaceStamped, SubinterfaceStamped, OnOk, tolerated-OnOk, required-OnOk, first-All,
  first_or_lem, map-All,
}

emit_interface_counters-Stamped :
    (f : FloatFormat) (msg : Telemetry) (info : InterfaceInfo)
    → All (InterfaceStamped msg) (emit_interface_counters f msg info)
unfolding emit_interface_counters interface_metric interface_counters_fields
emit_interface_counters-Stamped f msg info =
    first-All (InterfaceStamped msg) _ (λ part. (refl, refl)) info.counters

emit_interface_state-Stamped :
    (msg : Telemetry) (info : InterfaceInfo)
    → All (InterfaceStamped msg) (emit_interface_state msg info)
unfolding emit_interface_state interface_metric interface_state_fields
emit_interface_state-Stamped msg info =
    first-All (InterfaceStamped msg) _ (λ part. (refl, refl)) info.state

emit_interface_zte_state-Stamped :
    (msg : Telemetry) (info : InterfaceInfo)
    → All (InterfaceStamped msg) (emit_interface_zte_state msg info)
unfolding emit_interface_zte_state interface_metric interface_zte_state_fields
emit_interface_zte_state-Stamped msg info =
    first-All (InterfaceStamped msg) _ (λ part. (refl, refl)) info.state_period

read_subinterface_state-Stamped :
    (msg : Telemetry) (info : InterfaceInfo) (sub : SubinterfaceInfo)
    → SubinterfaceStamped msg (read_subinterface_state sub (subinterface_metric msg info sub))
unfolding read_subinterface_state subinterface_state_fields subinterface_metric
read_subinterface_state-Stamped msg info sub =
    first_or_lem (SubinterfaceStamped msg) _ (λ part. (refl, refl))
      (subinterface_metric msg info sub) (refl, refl) sub.state

emit_subinterface_state-Stamped :
    (msg : Telemetry) (info : InterfaceInfo)
    → All (SubinterfaceStamped msg) (emit_subinterface_state msg info)
unfolding emit_subinterface_state
emit_subinterface_state-Stamped msg info =
    map-All (SubinterfaceStamped msg) _ (λ sub. read_subinterface_state-Stamped msg info sub)
      info.subinterface

read_subinterface_zte_state-Stamped :
    (msg : Telemetry) (info : InterfaceInfo) (sub : SubinterfaceInfo)
    → SubinterfaceStamped msg (read_subinterface_zte_state sub (subinterface_metric msg info sub))
unfolding read_subinterface_zte_state subinterface_zte_state_fields subinterface_metric
read_subinterface_zte_state-Stamped msg info sub =
    first_or_lem (SubinterfaceStamped msg) _ (λ part. (refl, refl))
      (subinterface_metric msg info sub) (refl, refl) sub.sub_state_period

emit_subinterface_zte_state-Stamped :
    (msg : Telemetry) (info : InterfaceInfo)
    → All (SubinterfaceStamped msg) (emit_subinterface_zte_state msg info)
unfolding emit_subinterface_zte_state
emit_subinterface_zte_state-Stamped msg info =
    map-All (SubinterfaceStamped msg) _ (λ sub. read_subinterface_zte_state-Stamped msg info sub)
      info.subinterface

read_subinterface_counters-Stamped :
    (f : FloatFormat) (msg : Telemetry) (info : InterfaceInfo) (sub : SubinterfaceInfo)
    → SubinterfaceStamped msg (read_subinterface_counters f sub (subinterface_metric msg info sub))
unfolding read_subinterface_counters subinterface_counters_fields subinterface_metric
read_subinterface_counters-Stamped f msg info sub =
    first_or_lem (SubinterfaceStamped msg) _ (λ part. (refl, refl))
      (subinterface_metric msg info sub) (refl, refl) sub.counters

emit_subinterface_counters-Stamped :
    (f : FloatFormat) (msg : Telemetry) (info : InterfaceInfo)
    → All (SubinterfaceStamped msg) (emit_subinterface_counters f msg info)
unfolding emit_subinterface_counters
emit_subinterface_counters-Stamped f msg info =
    map-All (SubinterfaceStamped msg) _ (λ sub. read_subinterface_counters-Stamped f msg info sub)
      info.subinterface

pub parse_interface_counters-Stamped :
    (d : Decoders) (f : FloatFormat) (msg : Telemetry)
    → OnOk (All (InterfaceStamped msg)) (parse_interface_counters d f msg)
parse_interface_counters-Stamped d f msg =
    subst (OnOk (All (InterfaceStamped msg))) (sym (tolerant_handlers d f msg).4) (
      tolerated-OnOk (InterfaceStamped msg) d.interface_info (emit_interface_counters f msg)
        (emit_interface_counters-Stamped f msg) msg)

pub parse_interface_state-Stamped :
    (d : Decoders) (f : FloatFormat) (msg : Telemetry)
    → OnOk (All (InterfaceStamped msg)) (parse_interface_state d msg)
parse_interface_state-Stamped d f msg =
    subst (OnOk (All (InterfaceStamped msg))) (sym (strict_handlers d f msg).6) (
      required-OnOk (InterfaceStamped msg) d.interface_info (emit_interface_state msg)
        (emit_interface_state-Stamped msg) interface_error msg)

pub parse_interface_zte_state-Stamped :
    (d : Decoders) (f : FloatFormat) (msg : Telemetry)
    → OnOk (All (InterfaceStamped msg)) (parse_interface_zte_state d msg)
parse_interface_zte_state-Stamped d f msg =
    subst (OnOk (All (InterfaceStamped msg))) (sym (strict_handlers d f msg).7) (
      required-OnOk (InterfaceStamped msg) d.interface_info (emit_interface_zte_state msg)
        (emit_interface_zte_state-Stamped msg) interface_error msg)

pub parse_subinterface_state-Stamped :
    (d : Decoders) (f : FloatFormat) (msg : Telemetry)
    → OnOk (All (SubinterfaceStamped msg)) (parse_subinterface_state d msg)
parse_subinterface_state-Stamped d f msg =
    subst (OnOk (All (SubinterfaceStamped msg))) (sym (strict_handlers d f msg).8) (
      required-OnOk (SubinterfaceStamped msg) d.interface_info (emit_subinterface_state msg)
        (emit_subinterface_state-Stamped msg) interface_error msg)

pub parse_subinterface_zte_state-Stamped :
    (d : Decoders) (f : FloatFormat) (msg : Telemetry)
    → OnOk (All (SubinterfaceStamped msg)) (parse_subinterface_zte_state d msg)
parse_subinterface_zte_state-Stamped d f msg =
    subst (OnOk (All (SubinterfaceStamped msg))) (sym (strict_handlers d f msg).9) (
      required-OnOk (SubinterfaceStamped msg) d.interface_info (emit_subinterface_zte_state msg)
        (emit_subinterface_zte_state-Stamped msg) interface_error msg)

pub parse_subinterface_counters-Stamped :
    (d : Decoders) (f : FloatFormat) (msg : Telemetry)
    → OnOk (All (SubinterfaceStamped msg)) (parse_subinterface_counters d f msg)
parse_subinterface_counters-Stamped d f msg =
    subst (OnOk (All (SubinterfaceStamped msg))) (sym (strict_handlers d f msg).10) (
      required-OnOk (SubinterfaceStamped msg) d.interface_info (emit_subinterface_counters f msg)
        (emit_subinterface_counters-Stamped f msg) interface_error msg)
