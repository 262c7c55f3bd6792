-- ===== src/Database/Alignment.antt =====
-- The columns of each COPY of internal/database/database.go beside the tags of the fields in
-- internal/models/models.go.
use ztelem.Prelude.{ℕ, Bool, Bytes, List, Option, some, beq, All, zip, length, ◌≡◌, refl}
use ztelem.GoMap.{GoMap, lookup}
use ztelem.Models.Values.{
  Value, Time, Float64, string_ptr, uint32_ptr, uint64_ptr, float64_ptr, bool_ptr, time_ptr,
}
use ztelem.Models.Tags.Platform.{
  platform_fields, platform_own_fields, common_state_fields, cpu_data_fields, mem_data_fields,
  temp_data_fields, fan_data_fields, power_data_fields, optical_data_fields,
}
use ztelem.Models.Tags.Interface.{interface_fields}
use ztelem.Models.Tags.Subinterface.{subinterface_fields}
use ztelem.Models.Tags.Alarm.{alarm_report_fields, notification_report_fields}
use ztelem.Models.{
  PlatformMetric, InterfaceMetric, SubinterfaceMetric, AlarmReportMetric, NotificationReportMetric,
}
use ztelem.Database.Cells.{
  safe_string, safe_uint32, safe_uint64, safe_float64, safe_bool, safe_time, safe_numeric_string,
}
use ztelem.Database.Platform.{platform_table, platform_columns, platform_row}
use ztelem.Database.Interface.{interface_table, interface_columns, interface_row}
use ztelem.Database.Subinterface.{subinterface_table, subinterface_columns, subinterface_row}
use ztelem.Database.AlarmReport.{alarm_report_table, alarm_report_columns, alarm_report_row}
use ztelem.Database.NotificationReport.{
  notification_report_table, notification_report_columns, notification_report_row,
}

-- A cell stores a field: as the Go value itself, or through the conversion for its type.
pub data Stores (parse_float : Bytes → Option Float64) : Option Value → Value → Type 0 where
  as_is : (v : Value) → Stores parse_float (some v) v
  as_string : (p : Option Bytes) → Stores parse_float (some (string_ptr p)) (safe_string p)
  as_uint32 : (p : Option ℕ) → Stores parse_float (some (uint32_ptr p)) (safe_uint32 p)
  as_uint64 : (p : Option ℕ) → Stores parse_float (some (uint64_ptr p)) (safe_uint64 p)
  as_float64 : (p : Option Float64) → Stores parse_float (some (float64_ptr p)) (safe_float64 p)
  as_bool : (p : Option Bool) → Stores parse_float (some (bool_ptr p)) (safe_bool p)
  as_time : (p : Option Time) → Stores parse_float (some (time_ptr p)) (safe_time p)
  as_number :
      (p : Option Bytes)
      → Stores parse_float (some (string_ptr p)) (safe_numeric_string parse_float p)

pub ruleset stores =
    (as_is, as_string, as_uint32, as_uint64, as_float64, as_bool, as_time, as_number)

-- Every column of a row stores the field that its name tags, and a row has one cell for each column.
abbrev pub Aligned : (Bytes → Option Float64) → List Bytes → GoMap Value → List Value → Type 0
Aligned parse_float columns fields row =
    All (λ (e : Bytes × Value). Stores parse_float (lookup e.0 fields) e.1) (zip columns row)
    × (length row ≡ length columns)

platform-Aligned :
    (parse_float : Bytes → Option Float64) (m : PlatformMetric)
    → Aligned parse_float (platform_table).columns (platform_fields m) ((platform_table).row m)
unfolding platform_table platform_columns platform_row platform_fields lookup beq
    platform_own_fields common_state_fields cpu_data_fields mem_data_fields temp_data_fields
    fan_data_fields power_data_fields optical_data_fields
platform-Aligned parse_float m = (search stores, refl)

interface-Aligned :
    (parse_float : Bytes → Option Float64) (m : InterfaceMetric)
    → Aligned parse_float
        (interface_table parse_float).columns
        (interface_fields m)
        ((interface_table parse_float).row m)
unfolding interface_table interface_columns interface_row interface_fields lookup beq
interface-Aligned parse_float m = (search stores, refl)

subinterface-Aligned :
    (parse_float : Bytes → Option Float64) (m : SubinterfaceMetric)
    → Aligned parse_float
        (subinterface_table parse_float).columns
        (subinterface_fields m)
        ((subinterface_table parse_float).row m)
unfolding subinterface_table subinterface_columns subinterface_row subinterface_fields lookup beq
subinterface-Aligned parse_float m = (search stores, refl)

alarm_report-Aligned :
    (parse_float : Bytes → Option Float64) (m : AlarmReportMetric)
    → Aligned parse_float
        (alarm_report_table).columns
        (alarm_report_fields m)
        ((alarm_report_table).row m)
unfolding alarm_report_table alarm_report_columns alarm_report_row alarm_report_fields lookup beq
alarm_report-Aligned parse_float m = (search stores, refl)

notification_report-Aligned :
    (parse_float : Bytes → Option Float64) (m : NotificationReportMetric)
    → Aligned parse_float
        (notification_report_table).columns
        (notification_report_fields m)
        ((notification_report_table).row m)
unfolding notification_report_table notification_report_columns notification_report_row
    notification_report_fields lookup beq
notification_report-Aligned parse_float m = (search stores, refl)

-- In each of the five COPYs every column of the list gets the field of the record that carries the
-- column's name as its tag, as the Go value or through the conversion for its type, and every row has
-- exactly one cell for each column, whatever `strconv.ParseFloat` answers.
pub rows-Aligned :
    (parse_float : Bytes → Option Float64)
    → ((m : PlatformMetric)
        → Aligned parse_float platform_table.columns (platform_fields m) (platform_table.row m))
      × ((m : InterfaceMetric)
          → Aligned parse_float
              (interface_table parse_float).columns
              (interface_fields m)
              ((interface_table parse_float).row m))
      × ((m : SubinterfaceMetric)
          → Aligned parse_float
              (subinterface_table parse_float).columns
              (subinterface_fields m)
              ((subinterface_table parse_float).row m))
      × ((m : AlarmReportMetric)
          → Aligned parse_float alarm_report_table.columns
              (alarm_report_fields m)
              (alarm_report_table.row m))
      × ((m : NotificationReportMetric)
          → Aligned parse_float notification_report_table.columns
              (notification_report_fields m)
              (notification_report_table.row m))
rows-Aligned parse_float = (
  platform-Aligned parse_float,
  interface-Aligned parse_float,
  subinterface-Aligned parse_float,
  alarm_report-Aligned parse_float,
  notification_report-Aligned parse_float,
)
