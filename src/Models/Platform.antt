-- ===== src/Models/Platform.antt =====
-- The records of one component: `PlatformMetric` of internal/models/models.go and the structs that
-- it embeds by pointer. A nil pointer is `none`.
use ztelem.Prelude.{ℕ, Bool, Bytes, Option, none}
use ztelem.Models.Values.{Time, Float64}

pub record CommonState : Type 0 where
  pub oper_status : Option Bytes
  pub uptime : Option Bytes
  pub used_power : Option ℕ  -- *uint32
  pub allocated_power : Option ℕ  -- *uint32
  pub current_voltage : Option Bytes
  pub current_current : Option Bytes
  pub total_capacity : Option Bytes
  pub used_capacity : Option Bytes
  pub type : Option Bytes
  pub redundancy_type : Option Bytes
  pub modules : Option Bytes
  pub total_input_power : Option Bytes

pub record CpuData : Type 0 where
  pub cpu_instant : Option Float64
  pub cpu_avg : Option Float64
  pub cpu_min : Option Float64
  pub cpu_max : Option Float64
  pub cpu_interval : Option ℕ  -- *uint64
  pub cpu_min_time : Option Time
  pub cpu_max_time : Option Time
  pub cpu_alarm_status : Option Bytes

pub record MemData : Type 0 where
  pub mem_available : Option ℕ  -- *uint64
  pub mem_utilized : Option ℕ  -- *uint64
  pub mem_free : Option ℕ  -- *uint64
  pub mem_usage : Option Float64
  pub mem_alarm_status : Option Bytes
  pub storage_availability : Option Float64

pub record TempData : Type 0 where
  pub temp_instant : Option Float64
  pub temp_avg : Option Float64
  pub temp_min : Option Float64
  pub temp_max : Option Float64
  pub temp_interval : Option ℕ  -- *uint64
  pub temp_min_time : Option Time
  pub temp_max_time : Option Time
  pub alarm_status : Option Bool
  pub temp_alarm_threshold : Option Float64
  pub temp_alarm_severity : Option Bytes
  pub temp_minor_threshold : Option Float64
  pub temp_major_threshold : Option Float64
  pub temp_fatal_threshold : Option Float64
  pub temp_instant_string : Option Bytes
  pub temp_status : Option Bytes
  pub temp_description : Option Bytes

pub record FanData : Type 0 where
  pub fan_speed : Option ℕ  -- *uint32
  pub fan_state : Option Bytes
  pub fan_phy_status : Option Bytes
  pub fan_work_mode : Option Bytes
  pub fan_current_power : Option Bytes
  pub fan_current_voltage : Option Bytes
  pub fan_current_current : Option Bytes
  pub fan_speed_percent : Option Bytes

pub record PowerData : Type 0 where
  pub power_enable : Option Bool
  pub power_capacity : Option Float64
  pub power_input_current : Option Float64
  pub power_input_voltage : Option Float64
  pub power_output_current : Option Float64
  pub power_output_voltage : Option Float64
  pub power_output_power : Option Float64
  pub power_work_state : Option Bytes
  pub power_name : Option Bytes
  pub power_phy_state : Option Bytes
  pub power_state : Option Bytes
  pub power_com_state : Option Bytes
  pub power_temperature : Option Bytes
  pub power_available : Option Bytes
  pub power_capacity_string : Option Bytes
  pub power_input_power : Option Bytes
  pub power_input2_current : Option Float64
  pub power_input2_voltage : Option Float64
  pub power_output2_current : Option Float64
  pub power_output2_voltage : Option Float64
  pub linecard_power_admin_state : Option Bytes

pub record OpticalData : Type 0 where
  pub optical_in_power : Option Float64
  pub optical_out_power : Option Float64
  pub optical_bias_current : Option Float64
  pub optical_temperature : Option Float64
  pub optical_voltage_vol33 : Option Float64
  pub optical_voltage_vol5 : Option Float64
  pub optical_alarm_los_status : Option Bytes
  pub optical_alarm_los_info_event_id : Option ℕ  -- *uint32
  pub optical_alarm_los_info_event_interval : Option ℕ  -- *uint32
  pub optical_alarm_los_info_in_power : Option Float64
  pub optical_alarm_los_info_out_power : Option Float64
  pub optical_online_status : Option Bytes
  pub optical_rx_threshold_high_alarm : Option Float64
  pub optical_rx_threshold_pre_high_alarm : Option Float64
  pub optical_rx_threshold_low_alarm : Option Float64
  pub optical_rx_threshold_pre_low_alarm : Option Float64

pub record PlatformMetric : Type 0 where
  pub timestamp : Time
  pub system_id : Bytes
  pub component_name : Bytes
  pub common_state : Option CommonState
  pub cpu_data : Option CpuData
  pub mem_data : Option MemData
  pub temp_data : Option TempData
  pub fan_data : Option FanData
  pub power_data : Option PowerData
  pub optical_data : Option OpticalData

-- `&CommonState{}`: every pointer is nil
abbrev pub empty_common_state : CommonState
empty_common_state = record {
  oper_status = none;
  uptime = none;
  used_power = none;
  allocated_power = none;
  current_voltage = none;
  current_current = none;
  total_capacity = none;
  used_capacity = none;
  type = none;
  redundancy_type = none;
  modules = none;
  total_input_power = none;
}

-- `&CpuData{}`: every pointer is nil
abbrev pub empty_cpu_data : CpuData
empty_cpu_data = record {
  cpu_instant = none;
  cpu_avg = none;
  cpu_min = none;
  cpu_max = none;
  cpu_interval = none;
  cpu_min_time = none;
  cpu_max_time = none;
  cpu_alarm_status = none;
}

-- `&MemData{}`: every pointer is nil
abbrev pub empty_mem_data : MemData
empty_mem_data = record {
  mem_available = none;
  mem_utilized = none;
  mem_free = none;
  mem_usage = none;
  mem_alarm_status = none;
  storage_availability = none;
}

-- `&TempData{}`: every pointer is nil
abbrev pub empty_temp_data : TempData
empty_temp_data = record {
  temp_instant = none;
  temp_avg = none;
  temp_min = none;
  temp_max = none;
  temp_interval = none;
  temp_min_time = none;
  temp_max_time = none;
  alarm_status = none;
  temp_alarm_threshold = none;
  temp_alarm_severity = none;
  temp_minor_threshold = none;
  temp_major_threshold = none;
  temp_fatal_threshold = none;
  temp_instant_string = none;
  temp_status = none;
  temp_description = none;
}

-- `&FanData{}`: every pointer is nil
abbrev pub empty_fan_data : FanData
empty_fan_data = record {
  fan_speed = none;
  fan_state = none;
  fan_phy_status = none;
  fan_work_mode = none;
  fan_current_power = none;
  fan_current_voltage = none;
  fan_current_current = none;
  fan_speed_percent = none;
}

-- `&PowerData{}`: every pointer is nil
abbrev pub empty_power_data : PowerData
empty_power_data = record {
  power_enable = none;
  power_capacity = none;
  power_input_current = none;
  power_input_voltage = none;
  power_output_current = none;
  power_output_voltage = none;
  power_output_power = none;
  power_work_state = none;
  power_name = none;
  power_phy_state = none;
  power_state = none;
  power_com_state = none;
  power_temperature = none;
  power_available = none;
  power_capacity_string = none;
  power_input_power = none;
  power_input2_current = none;
  power_input2_voltage = none;
  power_output2_current = none;
  power_output2_voltage = none;
  linecard_power_admin_state = none;
}

-- `&OpticalData{}`: every pointer is nil
abbrev pub empty_optical_data : OpticalData
empty_optical_data = record {
  optical_in_power = none;
  optical_out_power = none;
  optical_bias_current = none;
  optical_temperature = none;
  optical_voltage_vol33 = none;
  optical_voltage_vol5 = none;
  optical_alarm_los_status = none;
  optical_alarm_los_info_event_id = none;
  optical_alarm_los_info_event_interval = none;
  optical_alarm_los_info_in_power = none;
  optical_alarm_los_info_out_power = none;
  optical_online_status = none;
  optical_rx_threshold_high_alarm = none;
  optical_rx_threshold_pre_high_alarm = none;
  optical_rx_threshold_low_alarm = none;
  optical_rx_threshold_pre_low_alarm = none;
}
