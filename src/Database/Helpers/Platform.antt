-- ===== src/Database/Helpers/Platform.antt =====
-- `getFieldValue` of internal/database/helpers.go.
use ztelem.Prelude.{ℕ, List, [], ◌∷◌, Option, some}
use ztelem.Models.Values.{
  Value, nil_value, bool_ptr, float64_ptr, string_ptr, time_ptr, uint32_ptr, uint64_ptr,
}
use ztelem.Models.Platform.{PlatformMetric}
use ztelem.Database.Helpers.{switch, field, string_or_nil}

-- The cases of the switch.
unfoldable pub platform_cases : PlatformMetric → List (ℕ × Option Value)
platform_cases metric =
    (4, field metric.common_state (λ s. string_ptr s.oper_status))
    ∷ (5, field metric.common_state (λ s. string_ptr s.uptime))
    ∷ (6, field metric.common_state (λ s. uint32_ptr s.used_power))
    ∷ (7, field metric.common_state (λ s. uint32_ptr s.allocated_power))
    ∷ (8, field metric.common_state (λ s. string_ptr s.current_voltage))
    ∷ (9, field metric.common_state (λ s. string_ptr s.current_current))
    ∷ (10, field metric.common_state (λ s. string_ptr s.total_capacity))
    ∷ (11, field metric.common_state (λ s. string_ptr s.used_capacity))
    ∷ (12, field metric.common_state (λ s. string_ptr s.type))
    ∷ (13, field metric.common_state (λ s. string_ptr s.redundancy_type))
    ∷ (14, field metric.common_state (λ s. string_ptr s.modules))
    ∷ (15, field metric.common_state (λ s. string_ptr s.total_input_power))
    ∷ (16, field metric.fan_data (λ s. uint32_ptr s.fan_speed))
    ∷ (17, field metric.fan_data (λ s. string_ptr s.fan_state))
    ∷ (18, field metric.fan_data (λ s. string_ptr s.fan_phy_status))
    ∷ (19, field metric.fan_data (λ s. string_ptr s.fan_work_mode))
    ∷ (20, field metric.fan_data (λ s. string_ptr s.fan_current_power))
    ∷ (21, field metric.fan_data (λ s. string_ptr s.fan_current_voltage))
    ∷ (22, field metric.fan_data (λ s. string_ptr s.fan_current_current))
    ∷ (23, field metric.fan_data (λ s. string_ptr s.fan_speed_percent))
    ∷ (24, field metric.mem_data (λ s. uint64_ptr s.mem_available))
    ∷ (25, field metric.mem_data (λ s. uint64_ptr s.mem_utilized))
    ∷ (26, field metric.mem_data (λ s. uint64_ptr s.mem_free))
    ∷ (27, field metric.mem_data (λ s. float64_ptr s.mem_usage))
    ∷ (28, field metric.mem_data (λ s. string_or_nil s.mem_alarm_status))
    ∷ (29, field metric.mem_data (λ s. float64_ptr s.storage_availability))
    ∷ (30, field metric.temp_data (λ s. float64_ptr s.temp_instant))
    ∷ (31, field metric.temp_data (λ s. float64_ptr s.temp_avg))
    ∷ (32, field metric.temp_data (λ s. float64_ptr s.temp_min))
    ∷ (33, field metric.temp_data (λ s. float64_ptr s.temp_max))
    ∷ (34, field metric.temp_data (λ s. uint64_ptr s.temp_interval))
    ∷ (35, field metric.temp_data (λ s. time_ptr s.temp_min_time))
    ∷ (36, field metric.temp_data (λ s. time_ptr s.temp_max_time))
    ∷ (37, field metric.temp_data (λ s. bool_ptr s.alarm_status))
    ∷ (38, field metric.temp_data (λ s. float64_ptr s.temp_alarm_threshold))
    ∷ (39, field metric.temp_data (λ s. string_ptr s.temp_alarm_severity))
    ∷ (40, field metric.temp_data (λ s. float64_ptr s.temp_minor_threshold))
    ∷ (41, field metric.temp_data (λ s. float64_ptr s.temp_major_threshold))
    ∷ (42, field metric.temp_data (λ s. float64_ptr s.temp_fatal_threshold))
    ∷ (43, field metric.temp_data (λ s. string_ptr s.temp_instant_string))
    ∷ (44, field metric.temp_data (λ s. string_ptr s.temp_status))
    ∷ (45, field metric.temp_data (λ s. string_ptr s.temp_description))
    ∷ (46, field metric.power_data (λ s. bool_ptr s.power_enable))
    ∷ (47, field metric.power_data (λ s. float64_ptr s.power_capacity))
    ∷ (48, field metric.power_data (λ s. float64_ptr s.power_input_current))
    ∷ (49, field metric.power_data (λ s. float64_ptr s.power_input_voltage))
    ∷ (50, field metric.power_data (λ s. float64_ptr s.power_output_current))
    ∷ (51, field metric.power_data (λ s. float64_ptr s.power_output_voltage))
    ∷ (52, field metric.power_data (λ s. float64_ptr s.power_output_power))
    ∷ (53, field metric.power_data (λ s. string_ptr s.power_work_state))
    ∷ (54, field metric.power_data (λ s. string_ptr s.power_name))
    ∷ (55, field metric.power_data (λ s. string_ptr s.power_phy_state))
    ∷ (56, field metric.power_data (λ s. string_ptr s.power_state))
    ∷ (57, field metric.power_data (λ s. string_ptr s.power_com_state))
    ∷ (58, field metric.power_data (λ s. string_ptr s.power_temperature))
    ∷ (59, field metric.power_data (λ s. string_ptr s.power_available))
    ∷ (60, field metric.power_data (λ s. string_ptr s.power_capacity_string))
    ∷ (61, field metric.power_data (λ s. string_ptr s.power_input_power))
    ∷ (62, field metric.power_data (λ s. float64_ptr s.power_input2_current))
    ∷ (63, field metric.power_data (λ s. float64_ptr s.power_input2_voltage))
    ∷ (64, field metric.power_data (λ s. float64_ptr s.power_output2_current))
    ∷ (65, field metric.power_data (λ s. float64_ptr s.power_output2_voltage))
    ∷ (66, field metric.power_data (λ s. string_ptr s.linecard_power_admin_state))
    ∷ (67, field metric.cpu_data (λ s. float64_ptr s.cpu_instant))
    ∷ (68, field metric.cpu_data (λ s. float64_ptr s.cpu_avg))
    ∷ (69, field metric.cpu_data (λ s. float64_ptr s.cpu_min))
    ∷ (70, field metric.cpu_data (λ s. float64_ptr s.cpu_max))
    ∷ (71, field metric.cpu_data (λ s. uint64_ptr s.cpu_interval))
    ∷ (72, field metric.cpu_data (λ s. time_ptr s.cpu_min_time))
    ∷ (73, field metric.cpu_data (λ s. time_ptr s.cpu_max_time))
    ∷ (74, field metric.cpu_data (λ s. string_or_nil s.cpu_alarm_status))
    ∷ (75, field metric.optical_data (λ s. float64_ptr s.optical_in_power))
    ∷ (76, field metric.optical_data (λ s. float64_ptr s.optical_out_power))
    ∷ (77, field metric.optical_data (λ s. float64_ptr s.optical_bias_current))
    ∷ (78, field metric.optical_data (λ s. float64_ptr s.optical_temperature))
    ∷ (79, field metric.optical_data (λ s. float64_ptr s.optical_voltage_vol33))
    ∷ (80, field metric.optical_data (λ s. float64_ptr s.optical_voltage_vol5))
    ∷ (81, field metric.optical_data (λ s. string_or_nil s.optical_alarm_los_status))
    ∷ (82, field metric.optical_data (λ s. uint32_ptr s.optical_alarm_los_info_event_id))
    ∷ (83, field metric.optical_data (λ s. uint32_ptr s.optical_alarm_los_info_event_interval))
    ∷ (84, field metric.optical_data (λ s. float64_ptr s.optical_alarm_los_info_in_power))
    ∷ (85, field metric.optical_data (λ s. float64_ptr s.optical_alarm_los_info_out_power))
    ∷ (86, field metric.optical_data (λ s. string_ptr s.optical_online_status))
    ∷ (87, field metric.optical_data (λ s. float64_ptr s.optical_rx_threshold_high_alarm))
    ∷ (88, field metric.optical_data (λ s. float64_ptr s.optical_rx_threshold_pre_high_alarm))
    ∷ (89, field metric.optical_data (λ s. float64_ptr s.optical_rx_threshold_low_alarm))
    ∷ (90, field metric.optical_data (λ s. float64_ptr s.optical_rx_threshold_pre_low_alarm))
    ∷ []

unfoldable pub get_field_value : PlatformMetric → ℕ → Option Value
unfolding platform_cases
get_field_value metric field_index = switch field_index (platform_cases metric) (some nil_value)
