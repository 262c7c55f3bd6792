-- ===== src/Examples/Fields.antt =====
-- The fields of components, and alarm data, at concrete values.
use ztelem.Prelude.{
  ◌≤◌, ◌<◌, ◌*◌, get_elem?, true, false, [], ◌∷◌, none, some, pos, codes, beq, drop, take, map,
  length, ◌↔◌, ◌≡◌, refl,
}
use ztelem.Models.Values.{nil_value, float64_value, float64_is_zero}
use ztelem.Models.{
  InterfaceMetric, empty_common_state, empty_cpu_data, empty_mem_data, empty_temp_data,
  empty_fan_data, empty_power_data, empty_optical_data,
}
use ztelem.Proto.Platform
use ztelem.Proto.Platform.{Temperature, OpticalInfo, CpuInfo, MemoryInfo, PowerInfo}
use ztelem.Proto.Interfaces.{InterfaceInfo}
use ztelem.Proto.Telemetry.{Telemetry}
use ztelem.Proto.Alarm.{CurrentAlarm}
use ztelem.Parser.Packets.{Decoders, decoded}
use ztelem.Parser.Interfaces.Handlers.{interface_metric}
use ztelem.Parser.Alarms.{parse_alarm_data, is_alarm_report, is_notification_report}
use ztelem.Parser.Enums.{
  convert_alarm_status, convert_admin_status, convert_oper_status, convert_ipv4_oper_status,
  convert_ipv6_oper_status, convert_phy_status,
}
use ztelem.Models.Floats.{float64_of_float32}
use ztelem.Parser.Stored.{component_row, light, stored_absent}
use ztelem.Parser.Names.{status_names}
use ztelem.Parser.Unlabelled.{parse_alarm_data-unlabelled}
use ztelem.Database.Platform.{platform_row}
use ztelem.Database.Interface.{interface_row, interface_columns}
use ztelem.Models.Tags.Interface.{interface_fields}
use ztelem.Database.Subinterface.{subinterface_row}
use ztelem.Database.Helpers.Platform.{get_field_value}
use ztelem.Database.Helpers.Interface.{get_interface_field_value}
use ztelem.Database.Helpers.Subinterface.{get_subinterface_field_value}
use ztelem.Database.Helpers.Columns.{Numbered, numbers, apart, whole, columns_by_index}
use ztelem.Examples.Data.{fan_metric, subinterface_metric}
use ztelem.Examples.Parsing.{component, decoders, message, gpb, fan, fans}

abbrev common : Platform.CommonState
common = record {
  oper_status = codes "UP";
  uptime = 93784;
  used_power = 20;
  allocated_power = 40;
  current_voltage = [];
  current_current = [];
  total_capacity = [];
  used_capacity = [];
  type = codes "FAN";
  redundancy_type = [];
  modules = [];
  total_input_power = [];
}

abbrev temperature : Temperature
temperature = record {
  instant = 0x42000000;
  avg = 0x42000000;
  min = 0;
  max = 0x42000000;
  interval = 300000000000;
  min_time = 0;
  max_time = 1700000000000000000;
  alarm_status = false;
  alarm_threshold = 80;
  alarm_severity = [];
  minor_threshold = 70;
  major_threshold = 80;
  fatal_threshold = 90;
  instant_string = codes "32";
  status = codes "NORMAL";
  description = [];
}

abbrev cpu : CpuInfo
cpu = record {
  instant = 10;
  avg = 12;
  min = 0;
  max = 60;
  interval = 0;
  min_time = 0;
  max_time = 0;
  alarm_status = pos 0;
}

abbrev memory : MemoryInfo
memory = record {
  available = 4294967296;
  utilized = 1048576;
  free = 0;
  usage = 0;
  alarm_status = pos 0;
}

abbrev optical : OpticalInfo
optical = record {
  in_power = some (record { instant = 0xC0000000 });
  out_power = none;
  bias_current = none;
  temperature = none;
  voltage = some (record { vol33 = 0x40533333; vol5 = 0 });
  alarm = some (record {
    los_status = pos 2;
    los_info =
        some (record { event_id = 1; event_interval = 5; opt_in_power = []; opt_out_power = [] });
  });
  online_status = some (record { online_status = codes "ONLINE" });
  rx_threshold = none;
  tx_threshold = none;
}

abbrev power : PowerInfo
power = record {
  enable = true;
  capacity = 0;
  input_current = 0;
  input_voltage = 0x43660000;
  output_current = 0;
  output_voltage = 0;
  output_power = 0;
  work_state = codes "WORK";
  power_name = codes "PM1";
  phy_state = [];
  power_state = codes "ON";
  com_state = [];
  temperature = [];
  available = [];
  capacity_string = [];
  input_power = [];
  input2_current = 0;
  input2_voltage = 0;
  output2_current = 0;
  output2_voltage = 0;
}

abbrev zero_alarm : CurrentAlarm
zero_alarm = record {
  flow_id = 0;
  timestamp = 0;
  code = 0;
  occurrence_time = 0;
  update_time = 0;
  disappeared_time = 0;
  occurrence_ms = 0;
  update_ms = 0;
  disappeared_ms = 0;
  alarm_class = [];
  alarm_type = [];
  alarm_status = [];
  sort = 0;
  severity = [];
  tpid_type = 0;
  tpid_length = 0;
  tpid = [];
  protect_group_work_status = 0;
  protect_type = 0;
  reason = 0;
  return_mode = [];
  protect_tpid_type = 0;
  protect_tpid_length = 0;
  protect_tpid = [];
  source_tpid_type = 0;
  source_tpid_length = 0;
  source_tpid = [];
  swtich_tpid_type = 0;
  previous_tpid_length = 0;
  current_tpid_length = 0;
  previous_tpid = [];
  current_tpid = [];
  perf_alarm_period = [];
  perf_alarm_type = [];
  perf_alarm_value = [];
  description = [];
  caption = [];
}

-- A packet with one notification, whose fields a single alarm does not know.
abbrev notified : Telemetry
notified = record (message (codes "alm:events") (gpb (codes "n1") ∷ [])) { data_type = pos 1 }

abbrev notifying : Decoders
notifying = record (decoders notified) {
  alarm_info = λ bytes. decoded (record {
    alarm_report = [];
    notification_report =
        record {
          flow_id = 7;
          timestamp = 0;
          code = 3;
          occur_time = 1700000000;
          occur_ms = 0;
          classification = [];
          sort = 0;
          severity = [];
          tpid_type = 0;
          tpid_length = 0;
          tpid = [];
          description = [];
          caption = [];
        }
        ∷ [];
  });
  current_alarm = λ bytes. decoded zero_alarm;
}

notified_paths : (is_alarm_report notified ≡ false) × (is_notification_report notified ≡ false)
unfolding is_alarm_report is_notification_report beq
notified_paths = (refl, refl)

parse_alarm_data-unlabelled_example :
    ((parse_alarm_data notifying notified).1 ≡ [])
    × (1 ≤ length (parse_alarm_data notifying notified).0)
parse_alarm_data-unlabelled_example =
    parse_alarm_data-unlabelled notifying notified notified_paths.0 notified_paths.1 (refl, tt)

abbrev port : InterfaceInfo
port = record {
  name = codes "xgei-1/1";
  state = [];
  counters = [];
  subinterface = [];
  state_period = [];
}

abbrev eth : InterfaceMetric
eth = record (interface_metric fans port) { ifindex = some 5; in_octets = some 1500 }

columns_by_index_example :
    let w =
      whole fan_metric empty_common_state empty_cpu_data empty_mem_data empty_temp_data
        empty_fan_data empty_power_data empty_optical_data in
    Numbered (λ s. none) (get_field_value w) 4 (drop 3 (platform_row w))
    × Numbered
        (λ s. none)
        (λ n. some (get_subinterface_field_value (subinterface_metric (codes "1")) n))
        5
        (drop 4 (subinterface_row (λ s. none) (subinterface_metric (codes "1"))))
    × Numbered
        (λ s. none)
        (λ n. some (get_interface_field_value eth n))
        33
        (drop 32 (interface_row (λ s. none) eth))
    × (map (get_interface_field_value eth) (numbers 4 63)
        ≡ map (λ f. f.1) (drop 3 (interface_fields eth)))
    × (apart
          (take 29 (drop 3 interface_columns))
          (take 29 (drop 3 (map (λ f. f.0) (interface_fields eth))))
        ≡ true)
columns_by_index_example =
    columns_by_index (λ s. none) fan_metric empty_common_state empty_cpu_data empty_mem_data
      empty_temp_data empty_fan_data empty_power_data empty_optical_data eth
      (subinterface_metric (codes "1"))

-- A number of the protocol and one that it does not define.
status_names_example :
    ((convert_alarm_status (pos 2) ≡ convert_alarm_status (pos 9)) ↔ (pos 2 ≡ pos 9))
    × ((convert_admin_status (pos 2) ≡ convert_admin_status (pos 9)) ↔ (pos 2 ≡ pos 9))
    × ((convert_oper_status (pos 2) ≡ convert_oper_status (pos 9)) ↔ (pos 2 ≡ pos 9))
    × ((convert_ipv4_oper_status (pos 2) ≡ convert_ipv4_oper_status (pos 9)) ↔ (pos 2 ≡ pos 9))
    × ((convert_ipv6_oper_status (pos 2) ≡ convert_ipv6_oper_status (pos 9)) ↔ (pos 2 ≡ pos 9))
    × ((convert_phy_status (pos 2) ≡ convert_phy_status (pos 9)) ↔ (pos 2 ≡ pos 9))
status_names_example = status_names (pos 2) (pos 9)

stored_absent_example :
    let row = component_row fans (component (codes "fan-1")) fan memory temperature optical none in
    ((get_elem? row 16 ≡ some nil_value) ↔ (fan.state ≡ []))
    × ((get_elem? row 15 ≡ some nil_value) ↔ (fan.speed ≡ 0))
    × ((get_elem? row 23 ≡ some nil_value) ↔ (memory.available < 1024 * 1024))
    × ((get_elem? row 29 ≡ some nil_value)
        ↔ (float64_is_zero (float64_of_float32 temperature.instant) ≡ true))
    × (get_elem? row 74 ≡ some (float64_value (light optical.in_power)))
stored_absent_example =
    stored_absent fans (component (codes "fan-1")) fan memory temperature optical none
