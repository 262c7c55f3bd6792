-- ===== src/Parser/Interfaces/Handlers.antt =====
-- The handlers for interfaces, in internal/parser/telemetry_parser.go.
use ztelem.Prelude.{List, [], ◌∷◌, none}
use ztelem.Models.{InterfaceMetric, unix_milli, to_int64}
use ztelem.Proto.Telemetry.{Telemetry}
use ztelem.Proto.Interfaces.{InterfaceInfo}
use ztelem.Parser.Helpers.{FloatFormat}
use ztelem.Parser.Packets.{
  Decoders, Result, ok, interface_error, skip_packets, require_packets, with_packets,
}
use ztelem.Parser.Interfaces.Fields.{
  interface_state_fields, interface_zte_state_fields, interface_counters_fields,
}

unfoldable pub interface_metric : Telemetry → InterfaceInfo → InterfaceMetric
interface_metric msg info = record {
  timestamp = unix_milli (to_int64 msg.msg_timestamp);
  system_id = msg.system_id;
  interface_name = info.name;
  ifindex = none;
  admin_status_str = none;
  oper_status_str = none;
  last_change = none;
  logical = none;
  type = none;
  phy_status_str = none;
  ipv4_oper_status_str = none;
  zteif_type = none;
  zteif_ifindex = none;
  zteif_admin_status_str = none;
  zteif_oper_status_str = none;
  zteif_phy_status_str = none;
  zteif_ipv4_oper_status_str = none;
  zteif_ipv6_oper_status_str = none;
  in_octets = none;
  in_unicast_pkts = none;
  in_broadcast_pkts = none;
  in_multicast_pkts = none;
  in_discards = none;
  in_errors = none;
  in_unknown_protos = none;
  in_fcs_errors = none;
  out_octets = none;
  out_unicast_pkts = none;
  out_broadcast_pkts = none;
  out_multicast_pkts = none;
  out_discards = none;
  out_errors = none;
  carrier_transitions = none;
  last_clear = none;
  in_pkts = none;
  out_pkts = none;
  input_utilization = none;
  output_utilization = none;
  in_traffic_rate = none;
  in_packet_rate = none;
  out_traffic_rate = none;
  out_packet_rate = none;
  in_v4_octets = none;
  out_v4_octets = none;
  in_v4_pkts = none;
  out_v4_pkts = none;
  in_v6_octets = none;
  out_v6_octets = none;
  in_v6_pkts = none;
  out_v6_pkts = none;
  in_v4_traffic_rate = none;
  in_v4_packet_rate = none;
  out_v4_traffic_rate = none;
  out_v4_packet_rate = none;
  in_v6_traffic_rate = none;
  in_v6_packet_rate = none;
  out_v6_traffic_rate = none;
  out_v6_packet_rate = none;
  input_v4_utilization = none;
  output_v4_utilization = none;
  input_v6_utilization = none;
  output_v6_utilization = none;
  in_bier_octets = none;
  in_bier_pkts = none;
  out_bier_octets = none;
  out_bier_pkts = none;
}

-- Of a repeated part only the first is read.
unfoldable pub emit_interface_state : Telemetry → InterfaceInfo → List InterfaceMetric
emit_interface_state msg info = elim info.state [
  | [] ↦ []
  | part ∷ parts ↦ interface_state_fields part (interface_metric msg info) ∷ []
]

unfoldable pub parse_interface_state : Decoders → Telemetry → Result (List InterfaceMetric)
parse_interface_state d msg =
    with_packets msg
      (λ gpbs. require_packets interface_error d.interface_info (emit_interface_state msg) gpbs [])

-- Of a repeated part only the first is read.
unfoldable pub emit_interface_zte_state : Telemetry → InterfaceInfo → List InterfaceMetric
emit_interface_zte_state msg info = elim info.state_period [
  | [] ↦ []
  | part ∷ parts ↦ interface_zte_state_fields part (interface_metric msg info) ∷ []
]

unfoldable pub parse_interface_zte_state : Decoders → Telemetry → Result (List InterfaceMetric)
parse_interface_zte_state d msg = with_packets msg (λ gpbs.
    require_packets interface_error d.interface_info (emit_interface_zte_state msg) gpbs [])

-- Of a repeated part only the first is read.
unfoldable pub emit_interface_counters :
    FloatFormat → Telemetry → InterfaceInfo → List InterfaceMetric
emit_interface_counters f msg info = elim info.counters [
  | [] ↦ []
  | part ∷ parts ↦ interface_counters_fields f part (interface_metric msg info) ∷ []
]

unfoldable pub parse_interface_counters :
    Decoders → FloatFormat → Telemetry → Result (List InterfaceMetric)
parse_interface_counters d f msg =
    with_packets msg
      (λ gpbs. ok (skip_packets d.interface_info (emit_interface_counters f msg) gpbs []))
