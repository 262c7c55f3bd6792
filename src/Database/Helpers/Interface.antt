-- ===== src/Database/Helpers/Interface.antt =====
-- `getInterfaceFieldValue` of internal/database/helpers.go.
use ztelem.Prelude.{ℕ, List, [], ◌∷◌}
use ztelem.Models.Values.{Value, nil_value, bool_ptr, string_ptr, time_ptr, uint32_ptr, uint64_ptr}
use ztelem.Models.Interface.{InterfaceMetric}
use ztelem.Database.Helpers.{switch}

-- The cases of the switch.
unfoldable pub interface_cases : InterfaceMetric → List (ℕ × Value)
interface_cases metric =
    (4, uint32_ptr metric.ifindex)
    ∷ (5, string_ptr metric.admin_status_str)
    ∷ (6, string_ptr metric.oper_status_str)
    ∷ (7, time_ptr metric.last_change)
    ∷ (8, bool_ptr metric.logical)
    ∷ (9, uint32_ptr metric.type)
    ∷ (10, string_ptr metric.phy_status_str)
    ∷ (11, string_ptr metric.ipv4_oper_status_str)
    ∷ (12, uint32_ptr metric.zteif_type)
    ∷ (13, uint32_ptr metric.zteif_ifindex)
    ∷ (14, string_ptr metric.zteif_admin_status_str)
    ∷ (15, string_ptr metric.zteif_oper_status_str)
    ∷ (16, string_ptr metric.zteif_phy_status_str)
    ∷ (17, string_ptr metric.zteif_ipv4_oper_status_str)
    ∷ (18, string_ptr metric.zteif_ipv6_oper_status_str)
    ∷ (19, uint64_ptr metric.in_octets)
    ∷ (20, uint64_ptr metric.in_unicast_pkts)
    ∷ (21, uint64_ptr metric.in_broadcast_pkts)
    ∷ (22, uint64_ptr metric.in_multicast_pkts)
    ∷ (23, uint64_ptr metric.in_discards)
    ∷ (24, uint64_ptr metric.in_errors)
    ∷ (25, uint64_ptr metric.in_unknown_protos)
    ∷ (26, uint64_ptr metric.in_fcs_errors)
    ∷ (27, uint64_ptr metric.out_octets)
    ∷ (28, uint64_ptr metric.out_unicast_pkts)
    ∷ (29, uint64_ptr metric.out_broadcast_pkts)
    ∷ (30, uint64_ptr metric.out_multicast_pkts)
    ∷ (31, uint64_ptr metric.out_discards)
    ∷ (32, uint64_ptr metric.out_errors)
    ∷ (33, uint64_ptr metric.carrier_transitions)
    ∷ (34, time_ptr metric.last_clear)
    ∷ (35, uint64_ptr metric.in_pkts)
    ∷ (36, uint64_ptr metric.out_pkts)
    ∷ (37, string_ptr metric.input_utilization)
    ∷ (38, string_ptr metric.output_utilization)
    ∷ (39, string_ptr metric.in_traffic_rate)
    ∷ (40, string_ptr metric.in_packet_rate)
    ∷ (41, string_ptr metric.out_traffic_rate)
    ∷ (42, string_ptr metric.out_packet_rate)
    ∷ (43, uint64_ptr metric.in_v4_octets)
    ∷ (44, uint64_ptr metric.out_v4_octets)
    ∷ (45, uint64_ptr metric.in_v4_pkts)
    ∷ (46, uint64_ptr metric.out_v4_pkts)
    ∷ (47, uint64_ptr metric.in_v6_octets)
    ∷ (48, uint64_ptr metric.out_v6_octets)
    ∷ (49, uint64_ptr metric.in_v6_pkts)
    ∷ (50, uint64_ptr metric.out_v6_pkts)
    ∷ (51, string_ptr metric.in_v4_traffic_rate)
    ∷ (52, string_ptr metric.in_v4_packet_rate)
    ∷ (53, string_ptr metric.out_v4_traffic_rate)
    ∷ (54, string_ptr metric.out_v4_packet_rate)
    ∷ (55, string_ptr metric.in_v6_traffic_rate)
    ∷ (56, string_ptr metric.in_v6_packet_rate)
    ∷ (57, string_ptr metric.out_v6_traffic_rate)
    ∷ (58, string_ptr metric.out_v6_packet_rate)
    ∷ (59, string_ptr metric.input_v4_utilization)
    ∷ (60, string_ptr metric.output_v4_utilization)
    ∷ (61, string_ptr metric.input_v6_utilization)
    ∷ (62, string_ptr metric.output_v6_utilization)
    ∷ (63, uint64_ptr metric.in_bier_octets)
    ∷ (64, uint64_ptr metric.in_bier_pkts)
    ∷ (65, uint64_ptr metric.out_bier_octets)
    ∷ (66, uint64_ptr metric.out_bier_pkts)
    ∷ []

unfoldable pub get_interface_field_value : InterfaceMetric → ℕ → Value
unfolding interface_cases
get_interface_field_value metric field_index = switch field_index (interface_cases metric) nil_value
