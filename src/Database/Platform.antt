-- ===== src/Database/Platform.antt =====
-- The COPY of internal/database/database.go into the table platform_metrics.
use ztelem.Prelude.{Bytes, List, [], ◌∷◌, map, codes}
use ztelem.Database.Tables.{Table}
use ztelem.Models.Values.{Value, string_value, time_value}
use ztelem.Models.Platform.{PlatformMetric}
use ztelem.Database.Cells.{
  safe_bool, safe_float64, safe_string, safe_time, safe_uint32, safe_uint64, safe_common, safe_cpu,
  safe_mem, safe_temp, safe_fan, safe_power, safe_optical,
}

unfoldable pub platform_columns : List Bytes
platform_columns = map codes (
    "timestamp" ∷ "system_id" ∷ "component_name" ∷ "oper_status" ∷ "uptime" ∷ "used_power"
    ∷ "allocated_power" ∷ "current_voltage" ∷ "current_current" ∷ "total_capacity" ∷ "used_capacity"
    ∷ "type" ∷ "redundancy_type" ∷ "modules" ∷ "total_input_power" ∷ "fan_speed" ∷ "fan_state"
    ∷ "fan_phy_status" ∷ "fan_work_mode" ∷ "fan_current_power" ∷ "fan_current_voltage"
    ∷ "fan_current_current" ∷ "fan_speed_percent" ∷ "mem_available" ∷ "mem_utilized" ∷ "mem_free"
    ∷ "mem_usage" ∷ "mem_alarm_status" ∷ "storage_availability" ∷ "temp_instant" ∷ "temp_avg"
    ∷ "temp_min" ∷ "temp_max" ∷ "temp_interval" ∷ "temp_min_time" ∷ "temp_max_time" ∷ "alarm_status"
    ∷ "temp_alarm_threshold" ∷ "temp_alarm_severity" ∷ "temp_minor_threshold"
    ∷ "temp_major_threshold" ∷ "temp_fatal_threshold" ∷ "temp_instant_string" ∷ "temp_status"
    ∷ "temp_description" ∷ "power_enable" ∷ "power_capacity" ∷ "power_input_current"
    ∷ "power_input_voltage" ∷ "power_output_current" ∷ "power_output_voltage" ∷ "power_output_power"
    ∷ "power_work_state" ∷ "power_name" ∷ "power_phy_state" ∷ "power_state" ∷ "power_com_state"
    ∷ "power_temperature" ∷ "power_available" ∷ "power_capacity_string" ∷ "power_input_power"
    ∷ "power_input2_current" ∷ "power_input2_voltage" ∷ "power_output2_current"
    ∷ "power_output2_voltage" ∷ "linecard_power_admin_state" ∷ "cpu_instant" ∷ "cpu_avg" ∷ "cpu_min"
    ∷ "cpu_max" ∷ "cpu_interval" ∷ "cpu_min_time" ∷ "cpu_max_time" ∷ "cpu_alarm_status"
    ∷ "optical_in_power" ∷ "optical_out_power" ∷ "optical_bias_current" ∷ "optical_temperature"
    ∷ "optical_voltage_vol33" ∷ "optical_voltage_vol5" ∷ "optical_alarm_los_status"
    ∷ "optical_alarm_los_info_event_id" ∷ "optical_alarm_los_info_event_interval"
    ∷ "optical_alarm_los_info_in_power" ∷ "optical_alarm_los_info_out_power"
    ∷ "optical_online_status" ∷ "optical_rx_threshold_high_alarm"
    ∷ "optical_rx_threshold_pre_high_alarm" ∷ "optical_rx_threshold_low_alarm"
    ∷ "optical_rx_threshold_pre_low_alarm" ∷ [])

unfoldable pub platform_row : PlatformMetric → List Value
platform_row m =
    let c = safe_common m in
    let cpu = safe_cpu m in
    let mem = safe_mem m in
    let tmp = safe_temp m in
    let fan = safe_fan m in
    let pwr = safe_power m in
    let opt = safe_optical m in
    time_value m.timestamp
    ∷ string_value m.system_id
    ∷ string_value m.component_name
    ∷ safe_string c.oper_status
    ∷ safe_string c.uptime
    ∷ safe_uint32 c.used_power
    ∷ safe_uint32 c.allocated_power
    ∷ safe_string c.current_voltage
    ∷ safe_string c.current_current
    ∷ safe_string c.total_capacity
    ∷ safe_string c.used_capacity
    ∷ safe_string c.type
    ∷ safe_string c.redundancy_type
    ∷ safe_string c.modules
    ∷ safe_string c.total_input_power
    ∷ safe_uint32 fan.fan_speed
    ∷ safe_string fan.fan_state
    ∷ safe_string fan.fan_phy_status
    ∷ safe_string fan.fan_work_mode
    ∷ safe_string fan.fan_current_power
    ∷ safe_string fan.fan_current_voltage
    ∷ safe_string fan.fan_current_current
    ∷ safe_string fan.fan_speed_percent
    ∷ safe_uint64 mem.mem_available
    ∷ safe_uint64 mem.mem_utilized
    ∷ safe_uint64 mem.mem_free
    ∷ safe_float64 mem.mem_usage
    ∷ safe_string mem.mem_alarm_status
    ∷ safe_float64 mem.storage_availability
    ∷ safe_float64 tmp.temp_instant
    ∷ safe_float64 tmp.temp_avg
    ∷ safe_float64 tmp.temp_min
    ∷ safe_float64 tmp.temp_max
    ∷ safe_uint64 tmp.temp_interval
    ∷ safe_time tmp.temp_min_time
    ∷ safe_time tmp.temp_max_time
    ∷ safe_bool tmp.alarm_status
    ∷ safe_float64 tmp.temp_alarm_threshold
    ∷ safe_string tmp.temp_alarm_severity
    ∷ safe_float64 tmp.temp_minor_threshold
    ∷ safe_float64 tmp.temp_major_threshold
    ∷ safe_float64 tmp.temp_fatal_threshold
    ∷ safe_string tmp.temp_instant_string
    ∷ safe_string tmp.temp_status
    ∷ safe_string tmp.temp_description
    ∷ safe_bool pwr.power_enable
    ∷ safe_float64 pwr.power_capacity
    ∷ safe_float64 pwr.power_input_current
    ∷ safe_float64 pwr.power_input_voltage
    ∷ safe_float64 pwr.power_output_current
    ∷ safe_float64 pwr.power_output_voltage
    ∷ safe_float64 pwr.power_output_power
    ∷ safe_string pwr.power_work_state
    ∷ safe_string pwr.power_name
    ∷ safe_string pwr.power_phy_state
    ∷ safe_string pwr.power_state
    ∷ safe_string pwr.power_com_state
    ∷ safe_string pwr.power_temperature
    ∷ safe_string pwr.power_available
    ∷ safe_string pwr.power_capacity_string
    ∷ safe_string pwr.power_input_power
    ∷ safe_float64 pwr.power_input2_current
    ∷ safe_float64 pwr.power_input2_voltage
    ∷ safe_float64 pwr.power_output2_current
    ∷ safe_float64 pwr.power_output2_voltage
    ∷ safe_string pwr.linecard_power_admin_state
    ∷ safe_float64 cpu.cpu_instant
    ∷ safe_float64 cpu.cpu_avg
    ∷ safe_float64 cpu.cpu_min
    ∷ safe_float64 cpu.cpu_max
    ∷ safe_uint64 cpu.cpu_interval
    ∷ safe_time cpu.cpu_min_time
    ∷ safe_time cpu.cpu_max_time
    ∷ safe_string cpu.cpu_alarm_status
    ∷ safe_float64 opt.optical_in_power
    ∷ safe_float64 opt.optical_out_power
    ∷ safe_float64 opt.optical_bias_current
    ∷ safe_float64 opt.optical_temperature
    ∷ safe_float64 opt.optical_voltage_vol33
    ∷ safe_float64 opt.optical_voltage_vol5
    ∷ safe_string opt.optical_alarm_los_status
    ∷ safe_uint32 opt.optical_alarm_los_info_event_id
    ∷ safe_uint32 opt.optical_alarm_los_info_event_interval
    ∷ safe_float64 opt.optical_alarm_los_info_in_power
    ∷ safe_float64 opt.optical_alarm_los_info_out_power
    ∷ safe_string opt.optical_online_status
    ∷ safe_float64 opt.optical_rx_threshold_high_alarm
    ∷ safe_float64 opt.optical_rx_threshold_pre_high_alarm
    ∷ safe_float64 opt.optical_rx_threshold_low_alarm
    ∷ safe_float64 opt.optical_rx_threshold_pre_low_alarm
    ∷ []

unfoldable pub platform_table : Table PlatformMetric
platform_table = record {
  name = codes "platform_metrics" ∷ [];
  columns = platform_columns;
  row = platform_row;
}
