-- ===== src/Models/Interface.antt =====
-- The records of interfaces and subinterfaces of internal/models/models.go. A nil pointer is `none`.
use ztelem.Prelude.{ℕ, Bool, Bytes, Option}
use ztelem.Models.Values.{Time}

pub record InterfaceMetric : Type 0 where
  pub timestamp : Time
  pub system_id : Bytes
  pub interface_name : Bytes
  pub ifindex : Option ℕ  -- *uint32
  pub admin_status_str : Option Bytes
  pub oper_status_str : Option Bytes
  pub last_change : Option Time
  pub logical : Option Bool
  pub type : Option ℕ  -- *uint32
  pub phy_status_str : Option Bytes
  pub ipv4_oper_status_str : Option Bytes
  pub zteif_type : Option ℕ  -- *uint32
  pub zteif_ifindex : Option ℕ  -- *uint32
  pub zteif_admin_status_str : Option Bytes
  pub zteif_oper_status_str : Option Bytes
  pub zteif_phy_status_str : Option Bytes
  pub zteif_ipv4_oper_status_str : Option Bytes
  pub zteif_ipv6_oper_status_str : Option Bytes
  pub in_octets : Option ℕ  -- *uint64
  pub in_unicast_pkts : Option ℕ  -- *uint64
  pub in_broadcast_pkts : Option ℕ  -- *uint64
  pub in_multicast_pkts : Option ℕ  -- *uint64
  pub in_discards : Option ℕ  -- *uint64
  pub in_errors : Option ℕ  -- *uint64
  pub in_unknown_protos : Option ℕ  -- *uint64
  pub in_fcs_errors : Option ℕ  -- *uint64
  pub out_octets : Option ℕ  -- *uint64
  pub out_unicast_pkts : Option ℕ  -- *uint64
  pub out_broadcast_pkts : Option ℕ  -- *uint64
  pub out_multicast_pkts : Option ℕ  -- *uint64
  pub out_discards : Option ℕ  -- *uint64
  pub out_errors : Option ℕ  -- *uint64
  pub carrier_transitions : Option ℕ  -- *uint64
  pub last_clear : Option Time
  pub in_pkts : Option ℕ  -- *uint64
  pub out_pkts : Option ℕ  -- *uint64
  pub input_utilization : Option Bytes
  pub output_utilization : Option Bytes
  pub in_traffic_rate : Option Bytes
  pub in_packet_rate : Option Bytes
  pub out_traffic_rate : Option Bytes
  pub out_packet_rate : Option Bytes
  pub in_v4_octets : Option ℕ  -- *uint64
  pub out_v4_octets : Option ℕ  -- *uint64
  pub in_v4_pkts : Option ℕ  -- *uint64
  pub out_v4_pkts : Option ℕ  -- *uint64
  pub in_v6_octets : Option ℕ  -- *uint64
  pub out_v6_octets : Option ℕ  -- *uint64
  pub in_v6_pkts : Option ℕ  -- *uint64
  pub out_v6_pkts : Option ℕ  -- *uint64
  pub in_v4_traffic_rate : Option Bytes
  pub in_v4_packet_rate : Option Bytes
  pub out_v4_traffic_rate : Option Bytes
  pub out_v4_packet_rate : Option Bytes
  pub in_v6_traffic_rate : Option Bytes
  pub in_v6_packet_rate : Option Bytes
  pub out_v6_traffic_rate : Option Bytes
  pub out_v6_packet_rate : Option Bytes
  pub input_v4_utilization : Option Bytes
  pub output_v4_utilization : Option Bytes
  pub input_v6_utilization : Option Bytes
  pub output_v6_utilization : Option Bytes
  pub in_bier_octets : Option ℕ  -- *uint64
  pub in_bier_pkts : Option ℕ  -- *uint64
  pub out_bier_octets : Option ℕ  -- *uint64
  pub out_bier_pkts : Option ℕ  -- *uint64

pub record SubinterfaceMetric : Type 0 where
  pub timestamp : Time
  pub system_id : Bytes
  pub interface_name : Bytes
  pub subinterface_name : Bytes
  pub ifindex : Option ℕ  -- *uint32
  pub admin_status_str : Option Bytes
  pub oper_status_str : Option Bytes
  pub last_change : Option Time
  pub logical : Option Bool
  pub ipv4_oper_status_str : Option Bytes
  pub zteif_ifindex : Option ℕ  -- *uint32
  pub zteif_admin_status_str : Option Bytes
  pub zteif_oper_status_str : Option Bytes
  pub zteif_phy_status_str : Option Bytes
  pub zteif_ipv4_oper_status_str : Option Bytes
  pub zteif_ipv6_oper_status_str : Option Bytes
  pub in_octets : Option ℕ  -- *uint64
  pub in_unicast_pkts : Option ℕ  -- *uint64
  pub in_broadcast_pkts : Option ℕ  -- *uint64
  pub in_multicast_pkts : Option ℕ  -- *uint64
  pub in_discards : Option ℕ  -- *uint64
  pub in_errors : Option ℕ  -- *uint64
  pub in_unknown_protos : Option ℕ  -- *uint64
  pub in_fcs_errors : Option ℕ  -- *uint64
  pub out_octets : Option ℕ  -- *uint64
  pub out_unicast_pkts : Option ℕ  -- *uint64
  pub out_broadcast_pkts : Option ℕ  -- *uint64
  pub out_multicast_pkts : Option ℕ  -- *uint64
  pub out_discards : Option ℕ  -- *uint64
  pub out_errors : Option ℕ  -- *uint64
  pub carrier_transitions : Option ℕ  -- *uint64
  pub last_clear : Option Time
  pub in_pkts : Option ℕ  -- *uint64
  pub out_pkts : Option ℕ  -- *uint64
  pub input_utilization : Option Bytes
  pub output_utilization : Option Bytes
  pub in_traffic_rate : Option Bytes
  pub in_packet_rate : Option Bytes
  pub out_traffic_rate : Option Bytes
  pub out_packet_rate : Option Bytes
  pub in_v4_octets : Option ℕ  -- *uint64
  pub out_v4_octets : Option ℕ  -- *uint64
  pub in_v4_pkts : Option ℕ  -- *uint64
  pub out_v4_pkts : Option ℕ  -- *uint64
  pub in_v6_octets : Option ℕ  -- *uint64
  pub out_v6_octets : Option ℕ  -- *uint64
  pub in_v6_pkts : Option ℕ  -- *uint64
  pub out_v6_pkts : Option ℕ  -- *uint64
  pub in_v4_traffic_rate : Option Bytes
  pub in_v4_packet_rate : Option Bytes
  pub out_v4_traffic_rate : Option Bytes
  pub out_v4_packet_rate : Option Bytes
  pub in_v6_traffic_rate : Option Bytes
  pub in_v6_packet_rate : Option Bytes
  pub out_v6_traffic_rate : Option Bytes
  pub out_v6_packet_rate : Option Bytes
  pub input_v4_utilization : Option Bytes
  pub output_v4_utilization : Option Bytes
  pub input_v6_utilization : Option Bytes
  pub output_v6_utilization : Option Bytes
  pub in_bier_octets : Option ℕ  -- *uint64
  pub in_bier_pkts : Option ℕ  -- *uint64
  pub out_bier_octets : Option ℕ  -- *uint64
  pub out_bier_pkts : Option ℕ  -- *uint64
