-- ===== src/Proto/Interfaces.antt =====
-- The messages of proto/zxr10_interfaces/zxr10_interfaces.proto.
use ztelem.Prelude.{Bool, Bytes, List, ℕ, ℤ}
use ztelem.Models.Values.{Float32}

pub record InterfaceState : Type 0 where
  pub ifindex : ℕ  -- uint32
  pub admin_status : ℤ  -- AdminStatus
  pub oper_status : ℤ  -- OperStatus
  pub last_change : ℕ  -- uint64
  pub logical : Bool
  pub type : ℕ  -- uint32
  pub phy_status : ℤ  -- PhyStatus
  pub ipv4_oper_status : ℤ  -- IPv4OperStatus

pub record InterfaceCounters : Type 0 where
  pub in_octets : ℕ  -- uint64
  pub in_unicast_pkts : ℕ  -- uint64
  pub in_broadcast_pkts : ℕ  -- uint64
  pub in_multicast_pkts : ℕ  -- uint64
  pub in_discards : ℕ  -- uint64
  pub in_errors : ℕ  -- uint64
  pub in_unknown_protos : ℕ  -- uint64
  pub in_fcs_errors : ℕ  -- uint64
  pub out_octets : ℕ  -- uint64
  pub out_unicast_pkts : ℕ  -- uint64
  pub out_broadcast_pkts : ℕ  -- uint64
  pub out_multicast_pkts : ℕ  -- uint64
  pub out_discards : ℕ  -- uint64
  pub out_errors : ℕ  -- uint64
  pub carrier_transitions : ℕ  -- uint64
  pub last_clear : ℕ  -- uint64
  pub in_pkts : ℕ  -- uint64
  pub out_pkts : ℕ  -- uint64
  pub input_utilization : Float32
  pub output_utilization : Float32
  pub in_traffic_rate : Float32
  pub in_packet_rate : Float32
  pub out_traffic_rate : Float32
  pub out_packet_rate : Float32
  pub in_v4_octets : ℕ  -- uint64
  pub out_v4_octets : ℕ  -- uint64
  pub in_v4_pkts : ℕ  -- uint64
  pub out_v4_pkts : ℕ  -- uint64
  pub in_v6_octets : ℕ  -- uint64
  pub out_v6_octets : ℕ  -- uint64
  pub in_v6_pkts : ℕ  -- uint64
  pub out_v6_pkts : ℕ  -- uint64
  pub in_v4_traffic_rate : Float32
  pub in_v4_packet_rate : Float32
  pub out_v4_traffic_rate : Float32
  pub out_v4_packet_rate : Float32
  pub in_v6_traffic_rate : Float32
  pub in_v6_packet_rate : Float32
  pub out_v6_traffic_rate : Float32
  pub out_v6_packet_rate : Float32
  pub input_v4_utilization : Float32
  pub output_v4_utilization : Float32
  pub input_v6_utilization : Float32
  pub output_v6_utilization : Float32
  pub in_bier_octets : ℕ  -- uint64
  pub in_bier_pkts : ℕ  -- uint64
  pub out_bier_octets : ℕ  -- uint64
  pub out_bier_pkts : ℕ  -- uint64

pub record SubinterfaceState : Type 0 where
  pub ifindex : ℕ  -- uint32
  pub admin_status : ℤ  -- AdminStatus
  pub oper_status : ℤ  -- OperStatus
  pub last_change : ℕ  -- uint64
  pub logical : Bool
  pub ipv4_oper_status : ℤ  -- IPv4OperStatus

pub record SubinterfaceCounters : Type 0 where
  pub in_octets : ℕ  -- uint64
  pub in_unicast_pkts : ℕ  -- uint64
  pub in_broadcast_pkts : ℕ  -- uint64
  pub in_multicast_pkts : ℕ  -- uint64
  pub in_discards : ℕ  -- uint64
  pub in_errors : ℕ  -- uint64
  pub in_unknown_protos : ℕ  -- uint64
  pub in_fcs_errors : ℕ  -- uint64
  pub out_octets : ℕ  -- uint64
  pub out_unicast_pkts : ℕ  -- uint64
  pub out_broadcast_pkts : ℕ  -- uint64
  pub out_multicast_pkts : ℕ  -- uint64
  pub out_discards : ℕ  -- uint64
  pub out_errors : ℕ  -- uint64
  pub carrier_transitions : ℕ  -- uint64
  pub last_clear : ℕ  -- uint64
  pub in_pkts : ℕ  -- uint64
  pub out_pkts : ℕ  -- uint64
  pub input_utilization : Float32
  pub output_utilization : Float32
  pub in_traffic_rate : Float32
  pub in_packet_rate : Float32
  pub out_traffic_rate : Float32
  pub out_packet_rate : Float32
  pub in_v4_octets : ℕ  -- uint64
  pub out_v4_octets : ℕ  -- uint64
  pub in_v4_pkts : ℕ  -- uint64
  pub out_v4_pkts : ℕ  -- uint64
  pub in_v6_octets : ℕ  -- uint64
  pub out_v6_octets : ℕ  -- uint64
  pub in_v6_pkts : ℕ  -- uint64
  pub out_v6_pkts : ℕ  -- uint64
  pub in_v4_traffic_rate : Float32
  pub in_v4_packet_rate : Float32
  pub out_v4_traffic_rate : Float32
  pub out_v4_packet_rate : Float32
  pub in_v6_traffic_rate : Float32
  pub in_v6_packet_rate : Float32
  pub out_v6_traffic_rate : Float32
  pub out_v6_packet_rate : Float32
  pub input_v4_utilization : Float32
  pub output_v4_utilization : Float32
  pub input_v6_utilization : Float32
  pub output_v6_utilization : Float32
  pub in_bier_octets : ℕ  -- uint64
  pub in_bier_pkts : ℕ  -- uint64
  pub out_bier_octets : ℕ  -- uint64
  pub out_bier_pkts : ℕ  -- uint64

pub record SubStatePeriodInfo : Type 0 where
  pub ifindex : ℕ  -- uint32
  pub admin_status : ℤ  -- AdminStatus
  pub oper_status : ℤ  -- OperStatus
  pub phy_status : ℤ  -- PhyStatus
  pub ipv4_oper_status : ℤ  -- IPv4OperStatus
  pub ipv6_oper_status : ℤ  -- IPv6OperStatus

pub record SubinterfaceInfo : Type 0 where
  pub sub_port : ℕ  -- uint32
  pub state : List SubinterfaceState
  pub counters : List SubinterfaceCounters
  pub sub_state_period : List SubStatePeriodInfo

pub record StatePeriodInfo : Type 0 where
  pub type : ℕ  -- uint32
  pub ifindex : ℕ  -- uint32
  pub admin_status : ℤ  -- AdminStatus
  pub oper_status : ℤ  -- OperStatus
  pub phy_status : ℤ  -- PhyStatus
  pub ipv4_oper_status : ℤ  -- IPv4OperStatus
  pub ipv6_oper_status : ℤ  -- IPv6OperStatus

pub record InterfaceInfo : Type 0 where
  pub name : Bytes
  pub state : List InterfaceState
  pub counters : List InterfaceCounters
  pub subinterface : List SubinterfaceInfo
  pub state_period : List StatePeriodInfo
