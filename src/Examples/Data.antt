-- ===== src/Examples/Data.antt =====
-- The records that the examples use.
use ztelem.Prelude.{ℕ, zero, suc, ◌*◌, true, Bytes, [], ◌∷◌, none, some, codes, pos}
use ztelem.Models.{
  Time, PlatformMetric, AlarmReportMetric, SubinterfaceMetric, empty_common_state, empty_fan_data,
  second,
}
use ztelem.Config.{default_buffer_config, default_database_writer_config}
use ztelem.Buffer.Retry.{Outcome, succeeded, failed, timed_out}
use ztelem.Buffer.Lane.{Environment, receives, finishes}
use ztelem.Buffer.Manager.{FixedBufferManager, new_fixed_buffer_manager}

abbrev pub platform_metric : Time → Bytes → Bytes → PlatformMetric
platform_metric t system component = record {
  timestamp = t;
  system_id = system;
  component_name = component;
  common_state = none;
  cpu_data = none;
  mem_data = none;
  temp_data = none;
  fan_data = none;
  power_data = none;
  optical_data = none;
}

abbrev pub noon : Time
noon = pos (1700000000 * second)

abbrev pub fan_metric : PlatformMetric
fan_metric = record (platform_metric noon (codes "ne1") (codes "fan-1")) {
  fan_data = some empty_fan_data;
}

abbrev pub state_metric : PlatformMetric
state_metric = record (platform_metric noon (codes "ne1") (codes "fan-1")) {
  common_state = some (record empty_common_state { oper_status = some (codes "UP") });
}

abbrev pub subinterface_metric : Bytes → SubinterfaceMetric
subinterface_metric name = record {
  timestamp = noon;
  system_id = codes "ne1";
  interface_name = codes "xgei-1/1";
  subinterface_name = name;
  ifindex = none;
  admin_status_str = none;
  oper_status_str = none;
  last_change = none;
  logical = none;
  ipv4_oper_status_str = none;
  zteif_ifindex = none;
  zteif_admin_status_str = none;
  zteif_oper_status_str = none;
  zteif_phy_status_str = none;
  zteif_ipv4_oper_status_str = none;
  zteif_ipv6_oper_status_str = none;
  in_octets = none;
  in_unicast_pkts = none;
  in_broadcast_pkts = none;
  in_multicast_pkts = none;
  in_discards = none;
  in_errors = none;
  in_unknown_protos = none;
  in_fcs_errors = none;
  out_octets = none;
  out_unicast_pkts = none;
  out_broadcast_pkts = none;
  out_multicast_pkts = none;
  out_discards = none;
  out_errors = none;
  carrier_transitions = none;
  last_clear = none;
  in_pkts = none;
  out_pkts = none;
  input_utilization = none;
  output_utilization = none;
  in_traffic_rate = none;
  in_packet_rate = none;
  out_traffic_rate = none;
  out_packet_rate = none;
  in_v4_octets = none;
  out_v4_octets = none;
  in_v4_pkts = none;
  out_v4_pkts = none;
  in_v6_octets = none;
  out_v6_octets = none;
  in_v6_pkts = none;
  out_v6_pkts = none;
  in_v4_traffic_rate = none;
  in_v4_packet_rate = none;
  out_v4_traffic_rate = none;
  out_v4_packet_rate = none;
  in_v6_traffic_rate = none;
  in_v6_packet_rate = none;
  out_v6_traffic_rate = none;
  out_v6_packet_rate = none;
  input_v4_utilization = none;
  output_v4_utilization = none;
  input_v6_utilization = none;
  output_v6_utilization = none;
  in_bier_octets = none;
  in_bier_pkts = none;
  out_bier_octets = none;
  out_bier_pkts = none;
}

abbrev pub alarm : Bytes → ℕ → ℕ → AlarmReportMetric
alarm system flow stamp = record {
  timestamp = noon;
  system_id = system;
  flow_id = flow;
  alarm_timestamp = stamp;
  code = 0;
  occurrence_time = none;
  update_time = none;
  disappeared_time = none;
  occurrence_ms = 0;
  update_ms = 0;
  disappeared_ms = 0;
  alarm_class = none;
  alarm_type = none;
  alarm_status = none;
  sort = none;
  severity = none;
  tpid_type = none;
  tpid_length = none;
  tpid = none;
  protect_group_work_status = none;
  protect_type = none;
  reason = none;
  return_mode = none;
  protect_tpid_type = none;
  protect_tpid_length = none;
  protect_tpid = none;
  source_tpid_type = none;
  source_tpid_length = none;
  source_tpid = none;
  switch_tpid_type = none;
  previous_tpid_length = none;
  current_tpid_length = none;
  previous_tpid = none;
  current_tpid = none;
  perf_alarm_period = none;
  perf_alarm_type = none;
  perf_alarm_value = none;
  description = none;
  caption = none;
}

abbrev pub manager : FixedBufferManager
manager = new_fixed_buffer_manager default_buffer_config default_database_writer_config

-- No writer receives; the database fails once, answers once too late, and works from then on.
abbrev pub db : ℕ → Outcome
db zero = failed (codes "connection refused")
db (suc zero) = timed_out true
db (suc (suc n)) = succeeded

abbrev pub environment : Environment
environment = record { writers = λ j. receives ∷ finishes 0 ∷ []; db = db }
