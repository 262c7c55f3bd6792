-- ===== src/Parser/Interfaces/SubFields.antt =====
-- The fields of the handlers for subinterfaces, in internal/parser/telemetry_parser.go.
use ztelem.Prelude.{◌++◌, codes, some}
use ztelem.Models.{SubinterfaceMetric}
use ztelem.Proto.Interfaces.{SubinterfaceState, SubStatePeriodInfo, SubinterfaceCounters}
use ztelem.Parser.Helpers.{
  FloatFormat, bool_ptr, nanos_to_timestamp, string_ptr, time_ptr, uint32_ptr, uint64_ptr,
  utilization_to_numeric,
}
use ztelem.Parser.Enums.{
  convert_admin_status, convert_ipv4_oper_status, convert_ipv6_oper_status, convert_oper_status,
  convert_phy_status,
}

unfoldable pub subinterface_state_fields :
    SubinterfaceState → SubinterfaceMetric → SubinterfaceMetric
subinterface_state_fields x m = record m {
  ifindex = uint32_ptr x.ifindex;
  admin_status_str = some (convert_admin_status x.admin_status);
  oper_status_str = some (convert_oper_status x.oper_status);
  last_change = time_ptr (nanos_to_timestamp x.last_change);
  logical = bool_ptr x.logical;
  ipv4_oper_status_str = some (convert_ipv4_oper_status x.ipv4_oper_status);
}

unfoldable pub subinterface_zte_state_fields :
    SubStatePeriodInfo → SubinterfaceMetric → SubinterfaceMetric
subinterface_zte_state_fields x m = record m {
  zteif_ifindex = uint32_ptr x.ifindex;
  zteif_admin_status_str = some (convert_admin_status x.admin_status);
  zteif_oper_status_str = some (convert_oper_status x.oper_status);
  zteif_phy_status_str = some (convert_phy_status x.phy_status);
  zteif_ipv4_oper_status_str = some (convert_ipv4_oper_status x.ipv4_oper_status);
  zteif_ipv6_oper_status_str = some (convert_ipv6_oper_status x.ipv6_oper_status);
}

unfoldable pub subinterface_counters_fields :
    FloatFormat → SubinterfaceCounters → SubinterfaceMetric → SubinterfaceMetric
subinterface_counters_fields f x m = record m {
  in_octets = uint64_ptr x.in_octets;
  in_unicast_pkts = uint64_ptr x.in_unicast_pkts;
  in_broadcast_pkts = uint64_ptr x.in_broadcast_pkts;
  in_multicast_pkts = uint64_ptr x.in_multicast_pkts;
  in_discards = uint64_ptr x.in_discards;
  in_errors = uint64_ptr x.in_errors;
  in_unknown_protos = uint64_ptr x.in_unknown_protos;
  in_fcs_errors = uint64_ptr x.in_fcs_errors;
  out_octets = uint64_ptr x.out_octets;
  out_unicast_pkts = uint64_ptr x.out_unicast_pkts;
  out_broadcast_pkts = uint64_ptr x.out_broadcast_pkts;
  out_multicast_pkts = uint64_ptr x.out_multicast_pkts;
  out_discards = uint64_ptr x.out_discards;
  out_errors = uint64_ptr x.out_errors;
  carrier_transitions = uint64_ptr x.carrier_transitions;
  last_clear = time_ptr (nanos_to_timestamp x.last_clear);
  in_pkts = uint64_ptr x.in_pkts;
  out_pkts = uint64_ptr x.out_pkts;
  input_utilization = string_ptr (f.fixed2 (utilization_to_numeric f x.input_utilization));
  output_utilization = string_ptr (f.fixed2 (utilization_to_numeric f x.output_utilization));
  in_traffic_rate = string_ptr (f.fixed2_32 x.in_traffic_rate ++ codes " Mbps");
  in_packet_rate = string_ptr (f.fixed2_32 x.in_packet_rate ++ codes " Kfps");
  out_traffic_rate = string_ptr (f.fixed2_32 x.out_traffic_rate ++ codes " Mbps");
  out_packet_rate = string_ptr (f.fixed2_32 x.out_packet_rate ++ codes " Kfps");
  in_v4_octets = uint64_ptr x.in_v4_octets;
  out_v4_octets = uint64_ptr x.out_v4_octets;
  in_v4_pkts = uint64_ptr x.in_v4_pkts;
  out_v4_pkts = uint64_ptr x.out_v4_pkts;
  in_v6_octets = uint64_ptr x.in_v6_octets;
  out_v6_octets = uint64_ptr x.out_v6_octets;
  in_v6_pkts = uint64_ptr x.in_v6_pkts;
  out_v6_pkts = uint64_ptr x.out_v6_pkts;
  in_v4_traffic_rate = string_ptr (f.fixed2_32 x.in_v4_traffic_rate ++ codes " Mbps");
  in_v4_packet_rate = string_ptr (f.fixed2_32 x.in_v4_packet_rate ++ codes " Kfps");
  out_v4_traffic_rate = string_ptr (f.fixed2_32 x.out_v4_traffic_rate ++ codes " Mbps");
  out_v4_packet_rate = string_ptr (f.fixed2_32 x.out_v4_packet_rate ++ codes " Kfps");
  in_v6_traffic_rate = string_ptr (f.fixed2_32 x.in_v6_traffic_rate ++ codes " Mbps");
  in_v6_packet_rate = string_ptr (f.fixed2_32 x.in_v6_packet_rate ++ codes " Kfps");
  out_v6_traffic_rate = string_ptr (f.fixed2_32 x.out_v6_traffic_rate ++ codes " Mbps");
  out_v6_packet_rate = string_ptr (f.fixed2_32 x.out_v6_packet_rate ++ codes " Kfps");
  input_v4_utilization = string_ptr (f.fixed2 (utilization_to_numeric f x.input_v4_utilization));
  output_v4_utilization = string_ptr (f.fixed2 (utilization_to_numeric f x.output_v4_utilization));
  input_v6_utilization = string_ptr (f.fixed2 (utilization_to_numeric f x.input_v6_utilization));
  output_v6_utilization = string_ptr (f.fixed2 (utilization_to_numeric f x.output_v6_utilization));
  in_bier_octets = uint64_ptr x.in_bier_octets;
  in_bier_pkts = uint64_ptr x.in_bier_pkts;
  out_bier_octets = uint64_ptr x.out_bier_octets;
  out_bier_pkts = uint64_ptr x.out_bier_pkts;
}
