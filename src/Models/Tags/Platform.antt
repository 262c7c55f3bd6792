-- ===== src/Models/Tags/Platform.antt =====
-- The fields of one component under their column tags in internal/models/models.go: the `db` tag, or
-- the name of the `json` tag where the struct has no other.
use ztelem.Prelude.{[], ◌∷◌, ◌++◌, codes}
use ztelem.GoMap.{GoMap}
use ztelem.Models.Values.{
  Value, bool_ptr, float64_ptr, string_ptr, string_value, time_ptr, time_value, uint32_ptr,
  uint64_ptr,
}
use ztelem.Models.Platform.{
  PlatformMetric, CommonState, CpuData, MemData, TempData, FanData, PowerData, OpticalData,
  empty_common_state, empty_cpu_data, empty_mem_data, empty_temp_data, empty_fan_data,
  empty_power_data, empty_optical_data,
}
use ztelem.Models.Values.{or_empty}

unfoldable pub common_state_fields : CommonState → GoMap Value
common_state_fields m =
    (codes "oper_status", string_ptr m.oper_status)
    ∷ (codes "uptime", string_ptr m.uptime)
    ∷ (codes "used_power", uint32_ptr m.used_power)
    ∷ (codes "allocated_power", uint32_ptr m.allocated_power)
    ∷ (codes "current_voltage", string_ptr m.current_voltage)
    ∷ (codes "current_current", string_ptr m.current_current)
    ∷ (codes "total_capacity", string_ptr m.total_capacity)
    ∷ (codes "used_capacity", string_ptr m.used_capacity)
    ∷ (codes "type", string_ptr m.type)
    ∷ (codes "redundancy_type", string_ptr m.redundancy_type)
    ∷ (codes "modules", string_ptr m.modules)
    ∷ (codes "total_input_power", string_ptr m.total_input_power)
    ∷ []

unfoldable pub cpu_data_fields : CpuData → GoMap Value
cpu_data_fields m =
    (codes "cpu_instant", float64_ptr m.cpu_instant)
    ∷ (codes "cpu_avg", float64_ptr m.cpu_avg)
    ∷ (codes "cpu_min", float64_ptr m.cpu_min)
    ∷ (codes "cpu_max", float64_ptr m.cpu_max)
    ∷ (codes "cpu_interval", uint64_ptr m.cpu_interval)
    ∷ (codes "cpu_min_time", time_ptr m.cpu_min_time)
    ∷ (codes "cpu_max_time", time_ptr m.cpu_max_time)
    ∷ (codes "cpu_alarm_status", string_ptr m.cpu_alarm_status)
    ∷ []

unfoldable pub mem_data_fields : MemData → GoMap Value
mem_data_fields m =
    (codes "mem_available", uint64_ptr m.mem_available)
    ∷ (codes "mem_utilized", uint64_ptr m.mem_utilized)
    ∷ (codes "mem_free", uint64_ptr m.mem_free)
    ∷ (codes "mem_usage", float64_ptr m.mem_usage)
    ∷ (codes "mem_alarm_status", string_ptr m.mem_alarm_status)
    ∷ (codes "storage_availability", float64_ptr m.storage_availability)
    ∷ []

unfoldable pub temp_data_fields : TempData → GoMap Value
temp_data_fields m =
    (codes "temp_instant", float64_ptr m.temp_instant)
    ∷ (codes "temp_avg", float64_ptr m.temp_avg)
    ∷ (codes "temp_min", float64_ptr m.temp_min)
    ∷ (codes "temp_max", float64_ptr m.temp_max)
    ∷ (codes "temp_interval", uint64_ptr m.temp_interval)
    ∷ (codes "temp_min_time", time_ptr m.temp_min_time)
    ∷ (codes "temp_max_time", time_ptr m.temp_max_time)
    ∷ (codes "alarm_status", bool_ptr m.alarm_status)
    ∷ (codes "temp_alarm_threshold", float64_ptr m.temp_alarm_threshold)
    ∷ (codes "temp_alarm_severity", string_ptr m.temp_alarm_severity)
    ∷ (codes "temp_minor_threshold", float64_ptr m.temp_minor_threshold)
    ∷ (codes "temp_major_threshold", float64_ptr m.temp_major_threshold)
    ∷ (codes "temp_fatal_threshold", float64_ptr m.temp_fatal_threshold)
    ∷ (codes "temp_instant_string", string_ptr m.temp_instant_string)
    ∷ (codes "temp_status", string_ptr m.temp_status)
    ∷ (codes "temp_description", string_ptr m.temp_description)
    ∷ []

unfoldable pub fan_data_fields : FanData → GoMap Value
fan_data_fields m =
    (codes "fan_speed", uint32_ptr m.fan_speed)
    ∷ (codes "fan_state", string_ptr m.fan_state)
    ∷ (codes "fan_phy_status", string_ptr m.fan_phy_status)
    ∷ (codes "fan_work_mode", string_ptr m.fan_work_mode)
    ∷ (codes "fan_current_power", string_ptr m.fan_current_power)
    ∷ (codes "fan_current_voltage", string_ptr m.fan_current_voltage)
    ∷ (codes "fan_current_current", string_ptr m.fan_current_current)
    ∷ (codes "fan_speed_percent", string_ptr m.fan_speed_percent)
    ∷ []

unfoldable pub power_data_fields : PowerData → GoMap Value
power_data_fields m =
    (codes "power_enable", bool_ptr m.power_enable)
    ∷ (codes "power_capacity", float64_ptr m.power_capacity)
    ∷ (codes "power_input_current", float64_ptr m.power_input_current)
    ∷ (codes "power_input_voltage", float64_ptr m.power_input_voltage)
    ∷ (codes "power_output_current", float64_ptr m.power_output_current)
    ∷ (codes "power_output_voltage", float64_ptr m.power_output_voltage)
    ∷ (codes "power_output_power", float64_ptr m.power_output_power)
    ∷ (codes "power_work_state", string_ptr m.power_work_state)
    ∷ (codes "power_name", string_ptr m.power_name)
    ∷ (codes "power_phy_state", string_ptr m.power_phy_state)
    ∷ (codes "power_state", string_ptr m.power_state)
    ∷ (codes "power_com_state", string_ptr m.power_com_state)
    ∷ (codes "power_temperature", string_ptr m.power_temperature)
    ∷ (codes "power_available", string_ptr m.power_available)
    ∷ (codes "power_capacity_string", string_ptr m.power_capacity_string)
    ∷ (codes "power_input_power", string_ptr m.power_input_power)
    ∷ (codes "power_input2_current", float64_ptr m.power_input2_current)
    ∷ (codes "power_input2_voltage", float64_ptr m.power_input2_voltage)
    ∷ (codes "power_output2_current", float64_ptr m.power_output2_current)
    ∷ (codes "power_output2_voltage", float64_ptr m.power_output2_voltage)
    ∷ (codes "linecard_power_admin_state", string_ptr m.linecard_power_admin_state)
    ∷ []

unfoldable pub optical_data_fields : OpticalData → GoMap Value
optical_data_fields m =
    (codes "optical_in_power", float64_ptr m.optical_in_power)
    ∷ (codes "optical_out_power", float64_ptr m.optical_out_power)
    ∷ (codes "optical_bias_current", float64_ptr m.optical_bias_current)
    ∷ (codes "optical_temperature", float64_ptr m.optical_temperature)
    ∷ (codes "optical_voltage_vol33", float64_ptr m.optical_voltage_vol33)
    ∷ (codes "optical_voltage_vol5", float64_ptr m.optical_voltage_vol5)
    ∷ (codes "optical_alarm_los_status", string_ptr m.optical_alarm_los_status)
    ∷ (codes "optical_alarm_los_info_event_id", uint32_ptr m.optical_alarm_los_info_event_id)
    ∷ (
      codes "optical_alarm_los_info_event_interval",
      uint32_ptr m.optical_alarm_los_info_event_interval,
    )
    ∷ (codes "optical_alarm_los_info_in_power", float64_ptr m.optical_alarm_los_info_in_power)
    ∷ (codes "optical_alarm_los_info_out_power", float64_ptr m.optical_alarm_los_info_out_power)
    ∷ (codes "optical_online_status", string_ptr m.optical_online_status)
    ∷ (codes "optical_rx_threshold_high_alarm", float64_ptr m.optical_rx_threshold_high_alarm)
    ∷ (
      codes "optical_rx_threshold_pre_high_alarm",
      float64_ptr m.optical_rx_threshold_pre_high_alarm,
    )
    ∷ (codes "optical_rx_threshold_low_alarm", float64_ptr m.optical_rx_threshold_low_alarm)
    ∷ (codes "optical_rx_threshold_pre_low_alarm", float64_ptr m.optical_rx_threshold_pre_low_alarm)
    ∷ []

unfoldable pub platform_own_fields : PlatformMetric → GoMap Value
platform_own_fields m =
    (codes "timestamp", time_value m.timestamp)
    ∷ (codes "system_id", string_value m.system_id)
    ∷ (codes "component_name", string_value m.component_name)
    ∷ []

-- A nil struct shows the fields of an empty one.
unfoldable pub platform_fields : PlatformMetric → GoMap Value
platform_fields m =
    platform_own_fields m
    ++ (common_state_fields (or_empty empty_common_state m.common_state)
        ++ (cpu_data_fields (or_empty empty_cpu_data m.cpu_data)
            ++ (mem_data_fields (or_empty empty_mem_data m.mem_data)
                ++ (temp_data_fields (or_empty empty_temp_data m.temp_data)
                    ++ (fan_data_fields (or_empty empty_fan_data m.fan_data)
                        ++ (power_data_fields (or_empty empty_power_data m.power_data)
                            ++ (optical_data_fields
                                (or_empty empty_optical_data m.optical_data))))))))
