-- ===== src/Examples/Storing.antt =====
-- Rows and batch inserts at concrete records.
use ztelem.Prelude.{ℕ, ◌<◌, ◌^◌, Bytes, Option, none, some, ◌≡◌, ◌↔◌, arith, pos}
use ztelem.Database.Platform.{platform_table}
use ztelem.Models.{Float64, int32_value, int64_value, PlatformMetric}
use ztelem.Database.Cells.{safe_uint32, safe_uint64}
use ztelem.Database.Integers.{stored_integers}
use ztelem.Database.Alignment.{rows-Aligned, Aligned}
use ztelem.Models.Tags.Platform.{platform_fields}
use ztelem.Models.Tags.Interface.{interface_fields}
use ztelem.Models.Tags.Subinterface.{subinterface_fields}
use ztelem.Models.Tags.Alarm.{alarm_report_fields, notification_report_fields}
use ztelem.Models.{InterfaceMetric, SubinterfaceMetric, AlarmReportMetric, NotificationReportMetric}
use ztelem.Database.Interface.{interface_table}
use ztelem.Database.Subinterface.{subinterface_table}
use ztelem.Database.AlarmReport.{alarm_report_table}
use ztelem.Database.NotificationReport.{notification_report_table}

stored_integers_example :
    let big : ℕ = 3000000000 in
    let five : ℕ = 5 in
    (safe_uint32 (some big) ≡ safe_uint32 (some 7) → big ≡ 7)
    × ((safe_uint32 (some big) ≡ int32_value (pos big)) ↔ (big < 2 ^ 31))
    × (safe_uint64 (some five) ≡ safe_uint64 (some 6) → five ≡ 6)
    × ((safe_uint64 (some five) ≡ int64_value (pos five)) ↔ (five < 2 ^ 63))
stored_integers_example =
    stored_integers 3000000000 7 5 6 (omega arith) (omega arith) (omega arith) (omega arith)

rows-Aligned_example :
    let no_number : Bytes → Option Float64 = λ s. none in
    ((m : PlatformMetric)
      → Aligned no_number platform_table.columns (platform_fields m) (platform_table.row m))
    × ((m : InterfaceMetric)
        → Aligned no_number
            (interface_table no_number).columns
            (interface_fields m)
            ((interface_table no_number).row m))
    × ((m : SubinterfaceMetric)
        → Aligned no_number
            (subinterface_table no_number).columns
            (subinterface_fields m)
            ((subinterface_table no_number).row m))
    × ((m : AlarmReportMetric)
        → Aligned no_number alarm_report_table.columns
            (alarm_report_fields m)
            (alarm_report_table.row m))
    × ((m : NotificationReportMetric)
        → Aligned no_number notification_report_table.columns
            (notification_report_fields m)
            (notification_report_table.row m))
rows-Aligned_example = rows-Aligned (λ s. none)
