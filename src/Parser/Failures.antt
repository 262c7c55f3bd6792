-- ===== src/Parser/Failures.antt =====
-- When `ParseTelemetryData` of internal/parser/telemetry_parser.go fails, and with which error.
use ztelem.Prelude.{Bytes, List, [], ◌∷◌, Option, none, some, ◌≡◌, refl, ap, ◌∙◌, if◌then◌else◌}
use mathlib.Core.Option
use native.Mathlib.Omega.{arith}
use ztelem.Models.{is}
use ztelem.Proto.Telemetry.{Telemetry, NotificationGpb}
use ztelem.Parser.Helpers.{FloatFormat}
use ztelem.Parser.Packets.{
  Decoders, Decoded, decoded, malformed, ParseError, empty_data_gpb, component_error,
  interface_error, telemetry_error, Result, ok, err,
}
use ztelem.Parser.Loops.{first_error, tolerated, required}
use ztelem.Parser.Answers.{tolerant_handlers, strict_handlers}
use ztelem.Parser.Routes.{Handler, find_route, routes}
use ztelem.Parser.Messages.{
  ParseResult, run_handler, put_platform, put_interface, put_subinterface, route_message,
  parse_message, parse_telemetry_data,
}

-- The error of an answer.
abbrev pub error_of {ℓ} : {A : Type ℓ} → Result A → Option ParseError
error_of (ok v) = none
error_of (err e) = some e

-- The error of the first packet that cannot be decoded.
abbrev undecodable {ℓ} :
    {I : Type ℓ}
    → (Bytes → ParseError)
    → (Bytes → Decoded I)
    → List NotificationGpb
    → Option ParseError
undecodable wrap decode gpbs = Option.map wrap (first_error decode gpbs)

-- The error of a handler that needs its packets `gpbs`.
abbrev handler_failure : Decoders → List NotificationGpb → Handler → Option ParseError
handler_failure d gpbs Handler.parse_component_state = none
handler_failure d gpbs Handler.parse_components_data = none
handler_failure d gpbs Handler.parse_component_fan_state = none
handler_failure d gpbs Handler.parse_component_memory_state = none
handler_failure d gpbs Handler.parse_interface_counters = none
handler_failure d gpbs Handler.parse_component_storage_state =
    undecodable component_error d.component_info gpbs
handler_failure d gpbs Handler.parse_component_temperature_state =
    undecodable component_error d.component_info gpbs
handler_failure d gpbs Handler.parse_component_power_supply_state =
    undecodable component_error d.component_info gpbs
handler_failure d gpbs Handler.parse_component_linecard_state =
    undecodable component_error d.component_info gpbs
handler_failure d gpbs Handler.parse_component_cpu_state =
    undecodable component_error d.component_info gpbs
handler_failure d gpbs Handler.parse_component_transceiver_state =
    undecodable component_error d.component_info gpbs
handler_failure d gpbs Handler.parse_interface_state =
    undecodable interface_error d.interface_info gpbs
handler_failure d gpbs Handler.parse_interface_zte_state =
    undecodable interface_error d.interface_info gpbs
handler_failure d gpbs Handler.parse_subinterface_state =
    undecodable interface_error d.interface_info gpbs
handler_failure d gpbs Handler.parse_subinterface_zte_state =
    undecodable interface_error d.interface_info gpbs
handler_failure d gpbs Handler.parse_subinterface_counters =
    undecodable interface_error d.interface_info gpbs

-- Every handler needs a packet.
abbrev needs_packets : Option ParseError → Telemetry → Option ParseError
needs_packets e msg = elim msg.data_gpb [ [] ↦ some empty_data_gpb | gpb ∷ gpbs ↦ e ]

-- The error that is due to a message: none for alarm data and for a path without a handler.
abbrev message_failure : Decoders → Telemetry → Option ParseError
message_failure d msg =
    if is 1 msg.data_type then none else elim (find_route msg.sensor_path routes) [
      | none ↦ none
      | some route ↦ needs_packets (handler_failure d msg.data_gpb route.handler) msg
    ]

abbrev pub telemetry_failure : Decoders → Bytes → Option ParseError
telemetry_failure d bytes = elim (d.telemetry bytes) [
  | malformed e ↦ some (telemetry_error e)
  | decoded msg ↦ message_failure d msg
]

module _ {ℓ κ} {I : Type ℓ} {M : Type κ} (decode : Bytes → Decoded I) (emit : I → List M) where
  tolerated-error :
      (msg : Telemetry) → error_of (tolerated decode emit msg) ≡ needs_packets none msg
  tolerated-error msg = ground arith

  required-error :
      (wrap : Bytes → ParseError) (msg : Telemetry)
      → error_of (required decode emit wrap msg)
        ≡ needs_packets (undecodable wrap decode msg.data_gpb) msg
  required-error wrap msg = ground arith

-- Filing a list in the result does not change the error.
file_error :
    (r : ParseResult)
    → ((x : _) → error_of (put_platform x r) ≡ error_of x)
      × ((x : _) → error_of (put_interface x r) ≡ error_of x)
      × ((x : _) → error_of (put_subinterface x r) ≡ error_of x)
unfolding put_platform put_interface put_subinterface
file_error r = (
  λ x. elim x as (λ p. error_of (put_platform p r) ≡ error_of p) [ ok v ↦ refl | err e ↦ refl ],
  λ x. elim x as (λ p. error_of (put_interface p r) ≡ error_of p) [ ok v ↦ refl | err e ↦ refl ],
  λ x. elim x as (λ p. error_of (put_subinterface p r) ≡ error_of p) [ ok v ↦ refl | err e ↦ refl ],
)

run_handler-error :
    (d : Decoders) (f : FloatFormat) (msg : Telemetry) (r : ParseResult) (h : Handler)
    → error_of (run_handler d f msg r h) ≡ needs_packets (handler_failure d msg.data_gpb h) msg
unfolding run_handler
run_handler-error d f msg r Handler.parse_component_state =
    (file_error r).0 _
    ∙ ap error_of (tolerant_handlers d f msg).0
    ∙ tolerated-error d.component_info _ msg
run_handler-error d f msg r Handler.parse_components_data =
    (file_error r).0 _
    ∙ ap error_of (tolerant_handlers d f msg).1
    ∙ tolerated-error d.component_info _ msg
run_handler-error d f msg r Handler.parse_component_fan_state =
    (file_error r).0 _
    ∙ ap error_of (tolerant_handlers d f msg).2
    ∙ tolerated-error d.component_info _ msg
run_handler-error d f msg r Handler.parse_component_memory_state =
    (file_error r).0 _
    ∙ ap error_of (tolerant_handlers d f msg).3
    ∙ tolerated-error d.component_info _ msg
run_handler-error d f msg r Handler.parse_interface_counters =
    (file_error r).1 _
    ∙ ap error_of (tolerant_handlers d f msg).4
    ∙ tolerated-error d.interface_info _ msg
run_handler-error d f msg r Handler.parse_component_storage_state =
    (file_error r).0 _
    ∙ ap error_of (strict_handlers d f msg).0
    ∙ required-error d.component_info _ component_error msg
run_handler-error d f msg r Handler.parse_component_temperature_state =
    (file_error r).0 _
    ∙ ap error_of (strict_handlers d f msg).1
    ∙ required-error d.component_info _ component_error msg
run_handler-error d f msg r Handler.parse_component_power_supply_state =
    (file_error r).0 _
    ∙ ap error_of (strict_handlers d f msg).2
    ∙ required-error d.component_info _ component_error msg
run_handler-error d f msg r Handler.parse_component_linecard_state =
    (file_error r).0 _
    ∙ ap error_of (strict_handlers d f msg).3
    ∙ required-error d.component_info _ component_error msg
run_handler-error d f msg r Handler.parse_component_cpu_state =
    (file_error r).0 _
    ∙ ap error_of (strict_handlers d f msg).4
    ∙ required-error d.component_info _ component_error msg
run_handler-error d f msg r Handler.parse_component_transceiver_state =
    (file_error r).0 _
    ∙ ap error_of (strict_handlers d f msg).5
    ∙ required-error d.component_info _ component_error msg
run_handler-error d f msg r Handler.parse_interface_state =
    (file_error r).1 _
    ∙ ap error_of (strict_handlers d f msg).6
    ∙ required-error d.interface_info _ interface_error msg
run_handler-error d f msg r Handler.parse_interface_zte_state =
    (file_error r).1 _
    ∙ ap error_of (strict_handlers d f msg).7
    ∙ required-error d.interface_info _ interface_error msg
run_handler-error d f msg r Handler.parse_subinterface_state =
    (file_error r).2 _
    ∙ ap error_of (strict_handlers d f msg).8
    ∙ required-error d.interface_info _ interface_error msg
run_handler-error d f msg r Handler.parse_subinterface_zte_state =
    (file_error r).2 _
    ∙ ap error_of (strict_handlers d f msg).9
    ∙ required-error d.interface_info _ interface_error msg
run_handler-error d f msg r Handler.parse_subinterface_counters =
    (file_error r).2 _
    ∙ ap error_of (strict_handlers d f msg).10
    ∙ required-error d.interface_info _ interface_error msg

-- ParseTelemetryData fails for three reasons only, and then with the error of the first of them: the
-- message cannot be decoded; it is routed to a handler and has no packets; or that handler is one of
-- the eleven strict ones and a packet cannot be decoded. Alarm data and a path without a handler never
-- fail.
pub parse_telemetry_data-error :
    (d : Decoders) (f : FloatFormat) (bytes : Bytes)
    → error_of (parse_telemetry_data d f bytes) ≡ telemetry_failure d bytes
unfolding parse_telemetry_data parse_message route_message
parse_telemetry_data-error d f bytes = grind (arith, run_handler-error)
