-- ===== src/Database/Helpers/Subinterface.antt =====
-- `getSubinterfaceFieldValue` of internal/database/helpers.go.
use ztelem.Prelude.{ℕ, List, [], ◌∷◌}
use ztelem.Models.Values.{Value, nil_value, bool_ptr, string_ptr, time_ptr, uint32_ptr, uint64_ptr}
use ztelem.Models.Interface.{SubinterfaceMetric}
use ztelem.Database.Helpers.{switch}

-- The cases of the switch.
unfoldable pub subinterface_cases : SubinterfaceMetric → List (ℕ × Value)
subinterface_cases metric =
    (5, uint32_ptr metric.ifindex)
    ∷ (6, string_ptr metric.admin_status_str)
    ∷ (7, string_ptr metric.oper_status_str)
    ∷ (8, time_ptr metric.last_change)
    ∷ (9, bool_ptr metric.logical)
    ∷ (10, string_ptr metric.ipv4_oper_status_str)
    ∷ (11, uint32_ptr metric.zteif_ifindex)
    ∷ (12, string_ptr metric.zteif_admin_status_str)
    ∷ (13, string_ptr metric.zteif_oper_status_str)
    ∷ (14, string_ptr metric.zteif_phy_status_str)
    ∷ (15, string_ptr metric.zteif_ipv4_oper_status_str)
    ∷ (16, string_ptr metric.zteif_ipv6_oper_status_str)
    ∷ (17, uint64_ptr metric.in_octets)
    ∷ (18, uint64_ptr metric.in_unicast_pkts)
    ∷ (19, uint64_ptr metric.in_broadcast_pkts)
    ∷ (20, uint64_ptr metric.in_multicast_pkts)
    ∷ (21, uint64_ptr metric.in_discards)
    ∷ (22, uint64_ptr metric.in_errors)
    ∷ (23, uint64_ptr metric.in_unknown_protos)
    ∷ (24, uint64_ptr metric.in_fcs_errors)
    ∷ (25, uint64_ptr metric.out_octets)
    ∷ (26, uint64_ptr metric.out_unicast_pkts)
    ∷ (27, uint64_ptr metric.out_broadcast_pkts)
    ∷ (28, uint64_ptr metric.out_multicast_pkts)
    ∷ (29, uint64_ptr metric.out_discards)
    ∷ (30, uint64_ptr metric.out_errors)
    ∷ (31, uint64_ptr metric.carrier_transitions)
    ∷ (32, time_ptr metric.last_clear)
    ∷ (33, uint64_ptr metric.in_pkts)
    ∷ (34, uint64_ptr metric.out_pkts)
    ∷ (35, string_ptr metric.input_utilization)
    ∷ (36, string_ptr metric.output_utilization)
    ∷ (37, string_ptr metric.in_traffic_rate)
    ∷ (38, string_ptr metric.in_packet_rate)
    ∷ (39, string_ptr metric.out_traffic_rate)
    ∷ (40, string_ptr metric.out_packet_rate)
    ∷ (41, uint64_ptr metric.in_v4_octets)
    ∷ (42, uint64_ptr metric.out_v4_octets)
    ∷ (43, uint64_ptr metric.in_v4_pkts)
    ∷ (44, uint64_ptr metric.out_v4_pkts)
    ∷ (45, uint64_ptr metric.in_v6_octets)
    ∷ (46, uint64_ptr metric.out_v6_octets)
    ∷ (47, uint64_ptr metric.in_v6_pkts)
    ∷ (48, uint64_ptr metric.out_v6_pkts)
    ∷ (49, string_ptr metric.in_v4_traffic_rate)
    ∷ (50, string_ptr metric.in_v4_packet_rate)
    ∷ (51, string_ptr metric.out_v4_traffic_rate)
    ∷ (52, string_ptr metric.out_v4_packet_rate)
    ∷ (53, string_ptr metric.in_v6_traffic_rate)
    ∷ (54, string_ptr metric.in_v6_packet_rate)
    ∷ (55, string_ptr metric.out_v6_traffic_rate)
    ∷ (56, string_ptr metric.out_v6_packet_rate)
    ∷ (57, string_ptr metric.input_v4_utilization)
    ∷ (58, string_ptr metric.output_v4_utilization)
    ∷ (59, string_ptr metric.input_v6_utilization)
    ∷ (60, string_ptr metric.output_v6_utilization)
    ∷ (61, uint64_ptr metric.in_bier_octets)
    ∷ (62, uint64_ptr metric.in_bier_pkts)
    ∷ (63, uint64_ptr metric.out_bier_octets)
    ∷ (64, uint64_ptr metric.out_bier_pkts)
    ∷ []

unfoldable pub get_subinterface_field_value : SubinterfaceMetric → ℕ → Value
unfolding subinterface_cases
get_subinterface_field_value metric field_index =
    switch field_index (subinterface_cases metric) nil_value
