-- ===== src/Models/Tags/Interface.antt =====
-- The fields of `InterfaceMetric` under their `db` tags in internal/models/models.go.
use ztelem.Prelude.{[], ◌∷◌, codes}
use ztelem.GoMap.{GoMap}
use ztelem.Models.Values.{
  Value, bool_ptr, string_ptr, string_value, time_ptr, time_value, uint32_ptr, uint64_ptr,
}
use ztelem.Models.Interface.{InterfaceMetric}

unfoldable pub interface_fields : InterfaceMetric → GoMap Value
interface_fields m =
    (codes "timestamp", time_value m.timestamp)
    ∷ (codes "system_id", string_value m.system_id)
    ∷ (codes "interface_name", string_value m.interface_name)
    ∷ (codes "ifindex", uint32_ptr m.ifindex)
    ∷ (codes "admin_status", string_ptr m.admin_status_str)
    ∷ (codes "oper_status", string_ptr m.oper_status_str)
    ∷ (codes "last_change", time_ptr m.last_change)
    ∷ (codes "logical", bool_ptr m.logical)
    ∷ (codes "type", uint32_ptr m.type)
    ∷ (codes "phy_status", string_ptr m.phy_status_str)
    ∷ (codes "ipv4_oper_status", string_ptr m.ipv4_oper_status_str)
    ∷ (codes "zteif_type", uint32_ptr m.zteif_type)
    ∷ (codes "zteif_ifindex", uint32_ptr m.zteif_ifindex)
    ∷ (codes "zteif_admin_status", string_ptr m.zteif_admin_status_str)
    ∷ (codes "zteif_oper_status", string_ptr m.zteif_oper_status_str)
    ∷ (codes "zteif_phy_status", string_ptr m.zteif_phy_status_str)
    ∷ (codes "zteif_ipv4_oper_status", string_ptr m.zteif_ipv4_oper_status_str)
    ∷ (codes "zteif_ipv6_oper_status", string_ptr m.zteif_ipv6_oper_status_str)
    ∷ (codes "in_octets", uint64_ptr m.in_octets)
    ∷ (codes "in_unicast_pkts", uint64_ptr m.in_unicast_pkts)
    ∷ (codes "in_broadcast_pkts", uint64_ptr m.in_broadcast_pkts)
    ∷ (codes "in_multicast_pkts", uint64_ptr m.in_multicast_pkts)
    ∷ (codes "in_discards", uint64_ptr m.in_discards)
    ∷ (codes "in_errors", uint64_ptr m.in_errors)
    ∷ (codes "in_unknown_protos", uint64_ptr m.in_unknown_protos)
    ∷ (codes "in_fcs_errors", uint64_ptr m.in_fcs_errors)
    ∷ (codes "out_octets", uint64_ptr m.out_octets)
    ∷ (codes "out_unicast_pkts", uint64_ptr m.out_unicast_pkts)
    ∷ (codes "out_broadcast_pkts", uint64_ptr m.out_broadcast_pkts)
    ∷ (codes "out_multicast_pkts", uint64_ptr m.out_multicast_pkts)
    ∷ (codes "out_discards", uint64_ptr m.out_discards)
    ∷ (codes "out_errors", uint64_ptr m.out_errors)
    ∷ (codes "carrier_transitions", uint64_ptr m.carrier_transitions)
    ∷ (codes "last_clear", time_ptr m.last_clear)
    ∷ (codes "in_pkts", uint64_ptr m.in_pkts)
    ∷ (codes "out_pkts", uint64_ptr m.out_pkts)
    ∷ (codes "input_utilization", string_ptr m.input_utilization)
    ∷ (codes "output_utilization", string_ptr m.output_utilization)
    ∷ (codes "in_traffic_rate", string_ptr m.in_traffic_rate)
    ∷ (codes "in_packet_rate", string_ptr m.in_packet_rate)
    ∷ (codes "out_traffic_rate", string_ptr m.out_traffic_rate)
    ∷ (codes "out_packet_rate", string_ptr m.out_packet_rate)
    ∷ (codes "in_v4_octets", uint64_ptr m.in_v4_octets)
    ∷ (codes "out_v4_octets", uint64_ptr m.out_v4_octets)
    ∷ (codes "in_v4_pkts", uint64_ptr m.in_v4_pkts)
    ∷ (codes "out_v4_pkts", uint64_ptr m.out_v4_pkts)
    ∷ (codes "in_v6_octets", uint64_ptr m.in_v6_octets)
    ∷ (codes "out_v6_octets", uint64_ptr m.out_v6_octets)
    ∷ (codes "in_v6_pkts", uint64_ptr m.in_v6_pkts)
    ∷ (codes "out_v6_pkts", uint64_ptr m.out_v6_pkts)
    ∷ (codes "in_v4_traffic_rate", string_ptr m.in_v4_traffic_rate)
    ∷ (codes "in_v4_packet_rate", string_ptr m.in_v4_packet_rate)
    ∷ (codes "out_v4_traffic_rate", string_ptr m.out_v4_traffic_rate)
    ∷ (codes "out_v4_packet_rate", string_ptr m.out_v4_packet_rate)
    ∷ (codes "in_v6_traffic_rate", string_ptr m.in_v6_traffic_rate)
    ∷ (codes "in_v6_packet_rate", string_ptr m.in_v6_packet_rate)
    ∷ (codes "out_v6_traffic_rate", string_ptr m.out_v6_traffic_rate)
    ∷ (codes "out_v6_packet_rate", string_ptr m.out_v6_packet_rate)
    ∷ (codes "input_v4_utilization", string_ptr m.input_v4_utilization)
    ∷ (codes "output_v4_utilization", string_ptr m.output_v4_utilization)
    ∷ (codes "input_v6_utilization", string_ptr m.input_v6_utilization)
    ∷ (codes "output_v6_utilization", string_ptr m.output_v6_utilization)
    ∷ (codes "in_bier_octets", uint64_ptr m.in_bier_octets)
    ∷ (codes "in_bier_pkts", uint64_ptr m.in_bier_pkts)
    ∷ (codes "out_bier_octets", uint64_ptr m.out_bier_octets)
    ∷ (codes "out_bier_pkts", uint64_ptr m.out_bier_pkts)
    ∷ []
