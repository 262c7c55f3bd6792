-- ===== src/Database/Interface.antt =====
-- The COPY of internal/database/database.go into the table interface_metrics.
use ztelem.Prelude.{Bytes, List, [], ◌∷◌, Option, map, codes}
use ztelem.Database.Tables.{Table}
use ztelem.Models.Values.{
  Value, Float64, bool_ptr, string_ptr, string_value, time_ptr, time_value, uint32_ptr, uint64_ptr,
}
use ztelem.Models.Interface.{InterfaceMetric}
use ztelem.Database.Cells.{safe_numeric_string}

unfoldable pub interface_columns : List Bytes
interface_columns = map codes (
    "timestamp" ∷ "system_id" ∷ "interface_name" ∷ "in_octets" ∷ "out_octets" ∷ "in_unicast_pkts"
    ∷ "out_unicast_pkts" ∷ "in_discards" ∷ "out_discards" ∷ "in_errors" ∷ "out_errors"
    ∷ "in_unknown_protos" ∷ "in_multicast_pkts" ∷ "out_multicast_pkts" ∷ "in_broadcast_pkts"
    ∷ "out_broadcast_pkts" ∷ "admin_status" ∷ "oper_status" ∷ "last_change" ∷ "ifindex" ∷ "type"
    ∷ "phy_status" ∷ "ipv4_oper_status" ∷ "logical" ∷ "zteif_type" ∷ "zteif_ifindex"
    ∷ "zteif_admin_status" ∷ "zteif_oper_status" ∷ "zteif_phy_status" ∷ "zteif_ipv4_oper_status"
    ∷ "zteif_ipv6_oper_status" ∷ "in_fcs_errors" ∷ "carrier_transitions" ∷ "last_clear" ∷ "in_pkts"
    ∷ "out_pkts" ∷ "input_utilization" ∷ "output_utilization" ∷ "in_traffic_rate" ∷ "in_packet_rate"
    ∷ "out_traffic_rate" ∷ "out_packet_rate" ∷ "in_v4_octets" ∷ "out_v4_octets" ∷ "in_v4_pkts"
    ∷ "out_v4_pkts" ∷ "in_v6_octets" ∷ "out_v6_octets" ∷ "in_v6_pkts" ∷ "out_v6_pkts"
    ∷ "in_v4_traffic_rate" ∷ "in_v4_packet_rate" ∷ "out_v4_traffic_rate" ∷ "out_v4_packet_rate"
    ∷ "in_v6_traffic_rate" ∷ "in_v6_packet_rate" ∷ "out_v6_traffic_rate" ∷ "out_v6_packet_rate"
    ∷ "input_v4_utilization" ∷ "output_v4_utilization" ∷ "input_v6_utilization"
    ∷ "output_v6_utilization" ∷ "in_bier_octets" ∷ "in_bier_pkts" ∷ "out_bier_octets"
    ∷ "out_bier_pkts" ∷ [])

unfoldable pub interface_row : (Bytes → Option Float64) → InterfaceMetric → List Value
interface_row parse_float m =
    time_value m.timestamp
    ∷ string_value m.system_id
    ∷ string_value m.interface_name
    ∷ uint64_ptr m.in_octets
    ∷ uint64_ptr m.out_octets
    ∷ uint64_ptr m.in_unicast_pkts
    ∷ uint64_ptr m.out_unicast_pkts
    ∷ uint64_ptr m.in_discards
    ∷ uint64_ptr m.out_discards
    ∷ uint64_ptr m.in_errors
    ∷ uint64_ptr m.out_errors
    ∷ uint64_ptr m.in_unknown_protos
    ∷ uint64_ptr m.in_multicast_pkts
    ∷ uint64_ptr m.out_multicast_pkts
    ∷ uint64_ptr m.in_broadcast_pkts
    ∷ uint64_ptr m.out_broadcast_pkts
    ∷ string_ptr m.admin_status_str
    ∷ string_ptr m.oper_status_str
    ∷ time_ptr m.last_change
    ∷ uint32_ptr m.ifindex
    ∷ uint32_ptr m.type
    ∷ string_ptr m.phy_status_str
    ∷ string_ptr m.ipv4_oper_status_str
    ∷ bool_ptr m.logical
    ∷ uint32_ptr m.zteif_type
    ∷ uint32_ptr m.zteif_ifindex
    ∷ string_ptr m.zteif_admin_status_str
    ∷ string_ptr m.zteif_oper_status_str
    ∷ string_ptr m.zteif_phy_status_str
    ∷ string_ptr m.zteif_ipv4_oper_status_str
    ∷ string_ptr m.zteif_ipv6_oper_status_str
    ∷ uint64_ptr m.in_fcs_errors
    ∷ uint64_ptr m.carrier_transitions
    ∷ time_ptr m.last_clear
    ∷ uint64_ptr m.in_pkts
    ∷ uint64_ptr m.out_pkts
    ∷ safe_numeric_string parse_float m.input_utilization
    ∷ safe_numeric_string parse_float m.output_utilization
    ∷ string_ptr m.in_traffic_rate
    ∷ string_ptr m.in_packet_rate
    ∷ string_ptr m.out_traffic_rate
    ∷ string_ptr m.out_packet_rate
    ∷ uint64_ptr m.in_v4_octets
    ∷ uint64_ptr m.out_v4_octets
    ∷ uint64_ptr m.in_v4_pkts
    ∷ uint64_ptr m.out_v4_pkts
    ∷ uint64_ptr m.in_v6_octets
    ∷ uint64_ptr m.out_v6_octets
    ∷ uint64_ptr m.in_v6_pkts
    ∷ uint64_ptr m.out_v6_pkts
    ∷ string_ptr m.in_v4_traffic_rate
    ∷ string_ptr m.in_v4_packet_rate
    ∷ string_ptr m.out_v4_traffic_rate
    ∷ string_ptr m.out_v4_packet_rate
    ∷ string_ptr m.in_v6_traffic_rate
    ∷ string_ptr m.in_v6_packet_rate
    ∷ string_ptr m.out_v6_traffic_rate
    ∷ string_ptr m.out_v6_packet_rate
    ∷ safe_numeric_string parse_float m.input_v4_utilization
    ∷ safe_numeric_string parse_float m.output_v4_utilization
    ∷ safe_numeric_string parse_float m.input_v6_utilization
    ∷ safe_numeric_string parse_float m.output_v6_utilization
    ∷ uint64_ptr m.in_bier_octets
    ∷ uint64_ptr m.in_bier_pkts
    ∷ uint64_ptr m.out_bier_octets
    ∷ uint64_ptr m.out_bier_pkts
    ∷ []

unfoldable pub interface_table : (Bytes → Option Float64) → Table InterfaceMetric
interface_table parse_float = record {
  name = codes "interface_metrics" ∷ [];
  columns = interface_columns;
  row = interface_row parse_float;
}
