-- ===== src/Parser/Platform/Components.antt =====
-- The fields of a component in `parseComponentsData` of internal/parser/telemetry_parser.go.
use ztelem.Prelude.{if◌then◌else◌, none, some, Option, [], List, ◌∷◌, true, false}
use ztelem.Models.Values.{is}
use ztelem.Models.Floats.{float64_of_float32, float64_of_uint32}
use ztelem.Models.{
  Float64, CommonState, CpuData, MemData, TempData, FanData, PowerData, OpticalData,
  empty_optical_data,
}
use ztelem.Proto.Platform
use ztelem.Proto.Platform.{
  Temperature, MemoryInfo, CpuInfo, FanInfo, PowerInfo, OpticalInfo, OpticalPower, OpticalAlarm,
  LosAlarmInfo, Voltage, OpticalPowerThres,
}
use ztelem.Parser.Helpers.{
  bool_ptr, bytes_to_mb, float64_ptr, nanos_to_seconds, nanos_to_timestamp, optical_power_ptr,
  string_ptr, time_ptr, uint32_ptr, uint64_ptr,
}
use ztelem.Parser.Uptime.{format_uptime}
use ztelem.Parser.Enums.{convert_alarm_status}

unfoldable pub components_common_state : Platform.CommonState → CommonState
components_common_state x = record {
  oper_status = string_ptr x.oper_status;
  uptime = string_ptr (format_uptime x.uptime);
  used_power = uint32_ptr x.used_power;
  allocated_power = uint32_ptr x.allocated_power;
  current_voltage = string_ptr x.current_voltage;
  current_current = string_ptr x.current_current;
  total_capacity = string_ptr x.total_capacity;
  used_capacity = string_ptr x.used_capacity;
  type = string_ptr x.type;
  redundancy_type = string_ptr x.redundancy_type;
  modules = string_ptr x.modules;
  total_input_power = string_ptr x.total_input_power;
}

unfoldable pub components_cpu : CpuInfo → CpuData
components_cpu x = record {
  cpu_instant = float64_ptr (float64_of_uint32 x.instant);
  cpu_avg = float64_ptr (float64_of_uint32 x.avg);
  cpu_min = float64_ptr (float64_of_uint32 x.min);
  cpu_max = float64_ptr (float64_of_uint32 x.max);
  cpu_interval = uint64_ptr (nanos_to_seconds x.interval);
  cpu_min_time = time_ptr (nanos_to_timestamp x.min_time);
  cpu_max_time = time_ptr (nanos_to_timestamp x.max_time);
  cpu_alarm_status =
      if is 0 x.alarm_status then none else some (convert_alarm_status x.alarm_status);
}

unfoldable pub components_mem : MemoryInfo → MemData
components_mem x = record {
  mem_available = uint64_ptr (bytes_to_mb x.available);
  mem_utilized = uint64_ptr (bytes_to_mb x.utilized);
  mem_free = uint64_ptr (bytes_to_mb x.free);
  mem_usage = float64_ptr (float64_of_float32 x.usage);
  mem_alarm_status = some (convert_alarm_status x.alarm_status);
  storage_availability = none;
}

unfoldable pub components_temp : Temperature → TempData
components_temp x = record {
  temp_instant = float64_ptr (float64_of_float32 x.instant);
  temp_avg = float64_ptr (float64_of_float32 x.avg);
  temp_min = float64_ptr (float64_of_float32 x.min);
  temp_max = float64_ptr (float64_of_float32 x.max);
  temp_interval = uint64_ptr (nanos_to_seconds x.interval);
  temp_min_time = time_ptr (nanos_to_timestamp x.min_time);
  temp_max_time = time_ptr (nanos_to_timestamp x.max_time);
  alarm_status = bool_ptr x.alarm_status;
  temp_alarm_threshold = float64_ptr (float64_of_uint32 x.alarm_threshold);
  temp_alarm_severity = string_ptr x.alarm_severity;
  temp_minor_threshold = float64_ptr (float64_of_uint32 x.minor_threshold);
  temp_major_threshold = float64_ptr (float64_of_uint32 x.major_threshold);
  temp_fatal_threshold = float64_ptr (float64_of_uint32 x.fatal_threshold);
  temp_instant_string = string_ptr x.instant_string;
  temp_status = string_ptr x.status;
  temp_description = string_ptr x.description;
}

unfoldable pub components_fan : FanInfo → FanData
components_fan x = record {
  fan_speed = uint32_ptr x.speed;
  fan_state = string_ptr x.state;
  fan_phy_status = string_ptr x.phy_status;
  fan_work_mode = string_ptr x.work_mode;
  fan_current_power = string_ptr x.current_power;
  fan_current_voltage = string_ptr x.current_voltage;
  fan_current_current = string_ptr x.current_current;
  fan_speed_percent = string_ptr x.speed_percent;
}

unfoldable pub components_power_supply : PowerInfo → PowerData
components_power_supply x = record {
  power_enable = bool_ptr x.enable;
  power_capacity = float64_ptr (float64_of_float32 x.capacity);
  power_input_current = float64_ptr (float64_of_float32 x.input_current);
  power_input_voltage = float64_ptr (float64_of_float32 x.input_voltage);
  power_output_current = float64_ptr (float64_of_float32 x.output_current);
  power_output_voltage = float64_ptr (float64_of_float32 x.output_voltage);
  power_output_power = float64_ptr (float64_of_float32 x.output_power);
  power_work_state = string_ptr x.work_state;
  power_phy_state = string_ptr x.phy_state;
  power_com_state = string_ptr x.com_state;
  power_temperature = string_ptr x.temperature;
  power_available = string_ptr x.available;
  power_capacity_string = string_ptr x.capacity_string;
  power_input_power = string_ptr x.input_power;
  power_input2_current = float64_ptr (float64_of_float32 x.input2_current);
  power_input2_voltage = float64_ptr (float64_of_float32 x.input2_voltage);
  power_output2_current = float64_ptr (float64_of_float32 x.output2_current);
  power_output2_voltage = float64_ptr (float64_of_float32 x.output2_voltage);
  power_name = none;
  power_state = none;
  linecard_power_admin_state = none;
}

-- `opticalPowerPtr(…)` of a reading that may be missing.
unfoldable pub components_power : Option OpticalPower → Option Float64
components_power none = optical_power_ptr 0 false
components_power (some p) = optical_power_ptr (float64_of_float32 p.instant) true

-- The same for the first of several readings.
unfoldable pub components_first_power : List OpticalPower → Option Float64
components_first_power [] = optical_power_ptr 0 false
components_first_power (p ∷ ps) = optical_power_ptr (float64_of_float32 p.instant) true

unfoldable pub components_los_info : Option LosAlarmInfo → OpticalData → OpticalData
unfolding components_first_power
components_los_info none m = m
components_los_info (some los) m = record m {
  optical_alarm_los_info_event_id = uint32_ptr los.event_id;
  optical_alarm_los_info_event_interval = uint32_ptr los.event_interval;
  optical_alarm_los_info_in_power = components_first_power los.opt_in_power;
  optical_alarm_los_info_out_power = components_first_power los.opt_out_power;
}

unfoldable pub components_alarm : Option OpticalAlarm → OpticalData → OpticalData
unfolding components_los_info
components_alarm none m = m
components_alarm (some alarm) m = components_los_info alarm.los_info (record m {
  optical_alarm_los_status =
      if is 0 alarm.los_status then none else some (convert_alarm_status alarm.los_status);
})

unfoldable pub components_voltage : Option Voltage → OpticalData → OpticalData
components_voltage none m = m
components_voltage (some v) m = record m {
  optical_voltage_vol33 = float64_ptr (float64_of_float32 v.vol33);
  optical_voltage_vol5 = float64_ptr (float64_of_float32 v.vol5);
}

unfoldable pub components_thresholds : Option OpticalPowerThres → OpticalData → OpticalData
components_thresholds none m = m
components_thresholds (some t) m = record m {
  optical_rx_threshold_high_alarm = float64_ptr (float64_of_float32 t.high_alarm);
  optical_rx_threshold_pre_high_alarm = float64_ptr (float64_of_float32 t.pre_high_alarm);
  optical_rx_threshold_low_alarm = float64_ptr (float64_of_float32 t.low_alarm);
  optical_rx_threshold_pre_low_alarm = float64_ptr (float64_of_float32 t.pre_low_alarm);
}

unfoldable pub components_optical : OpticalInfo → OpticalData
unfolding components_power components_alarm components_voltage components_thresholds
components_optical x = components_thresholds x.rx_threshold (
    components_alarm x.alarm (
      components_voltage x.voltage (record empty_optical_data {
        optical_in_power = components_power x.in_power;
        optical_out_power = components_power x.out_power;
        optical_bias_current = elim x.bias_current [
          | none ↦ none
          | some b ↦ float64_ptr (float64_of_float32 b.instant)
        ];
        optical_temperature = elim x.temperature [
          | none ↦ none
          | some t ↦ float64_ptr (float64_of_float32 t.instant)
        ];
        optical_online_status = elim x.online_status [
          | none ↦ none
          | some o ↦ string_ptr o.online_status
        ];
      })))
