-- ===== src/Parser/Interfaces/SubHandlers.antt =====
-- The handlers for subinterfaces, in internal/parser/telemetry_parser.go.
use ztelem.Prelude.{List, [], ◌∷◌, none, map, format_int, pos}
use ztelem.Models.{SubinterfaceMetric, unix_milli, to_int64}
use ztelem.Proto.Telemetry.{Telemetry}
use ztelem.Proto.Interfaces.{InterfaceInfo, SubinterfaceInfo}
use ztelem.Parser.Helpers.{FloatFormat}
use ztelem.Parser.Packets.{Decoders, Result, interface_error, require_packets, with_packets}
use ztelem.Parser.Interfaces.SubFields.{
  subinterface_state_fields, subinterface_zte_state_fields, subinterface_counters_fields,
}

unfoldable pub subinterface_metric :
    Telemetry → InterfaceInfo → SubinterfaceInfo → SubinterfaceMetric
subinterface_metric msg info sub = record {
  timestamp = unix_milli (to_int64 msg.msg_timestamp);
  system_id = msg.system_id;
  interface_name = info.name;
  subinterface_name = format_int (pos sub.sub_port);
  ifindex = none;
  admin_status_str = none;
  oper_status_str = none;
  last_change = none;
  logical = none;
  ipv4_oper_status_str = none;
  zteif_ifindex = none;
  zteif_admin_status_str = none;
  zteif_oper_status_str = none;
  zteif_phy_status_str = none;
  zteif_ipv4_oper_status_str = none;
  zteif_ipv6_oper_status_str = none;
  in_octets = none;
  in_unicast_pkts = none;
  in_broadcast_pkts = none;
  in_multicast_pkts = none;
  in_discards = none;
  in_errors = none;
  in_unknown_protos = none;
  in_fcs_errors = none;
  out_octets = none;
  out_unicast_pkts = none;
  out_broadcast_pkts = none;
  out_multicast_pkts = none;
  out_discards = none;
  out_errors = none;
  carrier_transitions = none;
  last_clear = none;
  in_pkts = none;
  out_pkts = none;
  input_utilization = none;
  output_utilization = none;
  in_traffic_rate = none;
  in_packet_rate = none;
  out_traffic_rate = none;
  out_packet_rate = none;
  in_v4_octets = none;
  out_v4_octets = none;
  in_v4_pkts = none;
  out_v4_pkts = none;
  in_v6_octets = none;
  out_v6_octets = none;
  in_v6_pkts = none;
  out_v6_pkts = none;
  in_v4_traffic_rate = none;
  in_v4_packet_rate = none;
  out_v4_traffic_rate = none;
  out_v4_packet_rate = none;
  in_v6_traffic_rate = none;
  in_v6_packet_rate = none;
  out_v6_traffic_rate = none;
  out_v6_packet_rate = none;
  input_v4_utilization = none;
  output_v4_utilization = none;
  input_v6_utilization = none;
  output_v6_utilization = none;
  in_bier_octets = none;
  in_bier_pkts = none;
  out_bier_octets = none;
  out_bier_pkts = none;
}

unfoldable pub read_subinterface_state : SubinterfaceInfo → SubinterfaceMetric → SubinterfaceMetric
read_subinterface_state sub metric = elim sub.state [
  | [] ↦ metric
  | part ∷ parts ↦ subinterface_state_fields part metric
]

-- A subinterface without the part gets a metric too.
unfoldable pub emit_subinterface_state : Telemetry → InterfaceInfo → List SubinterfaceMetric
emit_subinterface_state msg info =
    map (λ sub. read_subinterface_state sub (subinterface_metric msg info sub)) info.subinterface

unfoldable pub parse_subinterface_state : Decoders → Telemetry → Result (List SubinterfaceMetric)
parse_subinterface_state d msg =
    with_packets msg (λ gpbs.
      require_packets interface_error d.interface_info (emit_subinterface_state msg) gpbs [])

unfoldable pub read_subinterface_zte_state :
    SubinterfaceInfo → SubinterfaceMetric → SubinterfaceMetric
read_subinterface_zte_state sub metric = elim sub.sub_state_period [
  | [] ↦ metric
  | part ∷ parts ↦ subinterface_zte_state_fields part metric
]

-- A subinterface without the part gets a metric too.
unfoldable pub emit_subinterface_zte_state : Telemetry → InterfaceInfo → List SubinterfaceMetric
emit_subinterface_zte_state msg info =
    map (λ sub. read_subinterface_zte_state sub (subinterface_metric msg info sub))
      info.subinterface

unfoldable pub parse_subinterface_zte_state :
    Decoders → Telemetry → Result (List SubinterfaceMetric)
parse_subinterface_zte_state d msg = with_packets msg (λ gpbs.
    require_packets interface_error d.interface_info (emit_subinterface_zte_state msg) gpbs [])

unfoldable pub read_subinterface_counters :
    FloatFormat → SubinterfaceInfo → SubinterfaceMetric → SubinterfaceMetric
read_subinterface_counters f sub metric = elim sub.counters [
  | [] ↦ metric
  | part ∷ parts ↦ subinterface_counters_fields f part metric
]

-- A subinterface without the part gets a metric too.
unfoldable pub emit_subinterface_counters :
    FloatFormat → Telemetry → InterfaceInfo → List SubinterfaceMetric
emit_subinterface_counters f msg info =
    map (λ sub. read_subinterface_counters f sub (subinterface_metric msg info sub))
      info.subinterface

unfoldable pub parse_subinterface_counters :
    Decoders → FloatFormat → Telemetry → Result (List SubinterfaceMetric)
parse_subinterface_counters d f msg = with_packets msg (λ gpbs.
    require_packets interface_error d.interface_info (emit_subinterface_counters f msg) gpbs [])
