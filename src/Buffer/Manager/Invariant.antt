-- ===== src/Buffer/Manager/Invariant.antt =====
-- The invariant of the manager and the methods that add records.
use ztelem.Prelude.{Bytes, List}
use ztelem.Models.{
  PlatformMetric, InterfaceMetric, SubinterfaceMetric, AlarmReportMetric, NotificationReportMetric,
}
use ztelem.Config.{BufferConfig, DatabaseWriterConfig}
use ztelem.Buffer.Sharded.{new_sharded_map}
use ztelem.Buffer.Sharded.Index.{new-IsSharded}
use ztelem.Buffer.Sharded.Laws.{get-new}
use ztelem.Buffer.Keys.{platform_key, interface_key, subinterface_key, alarm_key, notification_key}
use ztelem.Buffer.Merge.{merge_platform_metric, merge_interface_metric, merge_subinterface_metric}
use ztelem.Buffer.Merge.Laws.{platform_key-merge, interface_key-merge, subinterface_key-merge}
use ztelem.Buffer.Lane.{new_lane}
use ztelem.Buffer.Lane.Buffering.{IsKeyed, add_merging-IsKeyed, add_replacing-IsKeyed}
use ztelem.Buffer.Manager.{
  FixedBufferManager, new_fixed_buffer_manager, add_platform_metrics, add_interface_metrics,
  add_subinterface_metrics, add_alarm_report_metrics, add_notification_report_metrics,
}

-- In each of the five buffers every record stands once, in the shard of its key and under its own key.
pub record IsWellFormed (bm : FixedBufferManager) : Type 0 where
  pub platform_keyed : IsKeyed platform_key bm.platform.buffer
  pub interface_keyed : IsKeyed interface_key bm.interface.buffer
  pub subinterface_keyed : IsKeyed subinterface_key bm.subinterface.buffer
  pub alarm_report_keyed : IsKeyed alarm_key bm.alarm_report.buffer
  pub notification_report_keyed : IsKeyed notification_key bm.notification_report.buffer

pub new-IsKeyed {ℓ} : {V : Type ℓ} (key : V → Bytes) → IsKeyed key new_sharded_map
new-IsKeyed {V = V} key = record {
  sharded = new-IsSharded;
  own_key = λ k v e. absurd (let q = get-new V k in cc);
}

pub new-IsWellFormed :
    (config : BufferConfig) (writer_config : DatabaseWriterConfig)
    → IsWellFormed (new_fixed_buffer_manager config writer_config)
unfolding new_fixed_buffer_manager new_lane
new-IsWellFormed config writer_config = record {
  platform_keyed = new-IsKeyed platform_key;
  interface_keyed = new-IsKeyed interface_key;
  subinterface_keyed = new-IsKeyed subinterface_key;
  alarm_report_keyed = new-IsKeyed alarm_key;
  notification_report_keyed = new-IsKeyed notification_key;
}

platform-IsWellFormed :
    (bm : FixedBufferManager) (xs : List PlatformMetric)
    → IsWellFormed bm
    → IsWellFormed (add_platform_metrics xs bm).0
unfolding add_platform_metrics
platform-IsWellFormed bm xs h = record {
  platform_keyed =
      add_merging-IsKeyed platform_key merge_platform_metric platform_key-merge xs
        bm.platform.buffer bm.stats.key_collisions h.platform_keyed;
  interface_keyed = h.interface_keyed;
  subinterface_keyed = h.subinterface_keyed;
  alarm_report_keyed = h.alarm_report_keyed;
  notification_report_keyed = h.notification_report_keyed;
}

interface-IsWellFormed :
    (bm : FixedBufferManager) (xs : List InterfaceMetric)
    → IsWellFormed bm
    → IsWellFormed (add_interface_metrics xs bm).0
unfolding add_interface_metrics
interface-IsWellFormed bm xs h = record {
  platform_keyed = h.platform_keyed;
  interface_keyed =
      add_merging-IsKeyed interface_key merge_interface_metric interface_key-merge xs
        bm.interface.buffer bm.stats.key_collisions h.interface_keyed;
  subinterface_keyed = h.subinterface_keyed;
  alarm_report_keyed = h.alarm_report_keyed;
  notification_report_keyed = h.notification_report_keyed;
}

subinterface-IsWellFormed :
    (bm : FixedBufferManager) (xs : List SubinterfaceMetric)
    → IsWellFormed bm
    → IsWellFormed (add_subinterface_metrics xs bm).0
unfolding add_subinterface_metrics
subinterface-IsWellFormed bm xs h = record {
  platform_keyed = h.platform_keyed;
  interface_keyed = h.interface_keyed;
  subinterface_keyed =
      add_merging-IsKeyed subinterface_key merge_subinterface_metric subinterface_key-merge xs
        bm.subinterface.buffer bm.stats.key_collisions h.subinterface_keyed;
  alarm_report_keyed = h.alarm_report_keyed;
  notification_report_keyed = h.notification_report_keyed;
}

alarm_report-IsWellFormed :
    (bm : FixedBufferManager) (xs : List AlarmReportMetric)
    → IsWellFormed bm
    → IsWellFormed (add_alarm_report_metrics xs bm).0
unfolding add_alarm_report_metrics
alarm_report-IsWellFormed bm xs h = record {
  platform_keyed = h.platform_keyed;
  interface_keyed = h.interface_keyed;
  subinterface_keyed = h.subinterface_keyed;
  alarm_report_keyed =
      add_replacing-IsKeyed alarm_key xs bm.alarm_report.buffer h.alarm_report_keyed;
  notification_report_keyed = h.notification_report_keyed;
}

notification_report-IsWellFormed :
    (bm : FixedBufferManager) (xs : List NotificationReportMetric)
    → IsWellFormed bm
    → IsWellFormed (add_notification_report_metrics xs bm).0
unfolding add_notification_report_metrics
notification_report-IsWellFormed bm xs h = record {
  platform_keyed = h.platform_keyed;
  interface_keyed = h.interface_keyed;
  subinterface_keyed = h.subinterface_keyed;
  alarm_report_keyed = h.alarm_report_keyed;
  notification_report_keyed =
      add_replacing-IsKeyed notification_key xs bm.notification_report.buffer
        h.notification_report_keyed;
}

-- Each of the five methods that add records keeps a well-formed manager well formed: the merge of two
-- records with one key stays under that key.
pub add-IsWellFormed :
    (bm : FixedBufferManager)
    → IsWellFormed bm
    → ((xs : List PlatformMetric) → IsWellFormed (add_platform_metrics xs bm).0)
      × ((xs : List InterfaceMetric) → IsWellFormed (add_interface_metrics xs bm).0)
      × ((xs : List SubinterfaceMetric) → IsWellFormed (add_subinterface_metrics xs bm).0)
      × ((xs : List AlarmReportMetric) → IsWellFormed (add_alarm_report_metrics xs bm).0)
      × ((xs : List NotificationReportMetric)
          → IsWellFormed (add_notification_report_metrics xs bm).0)
add-IsWellFormed bm h = (
  λ xs. platform-IsWellFormed bm xs h,
  λ xs. interface-IsWellFormed bm xs h,
  λ xs. subinterface-IsWellFormed bm xs h,
  λ xs. alarm_report-IsWellFormed bm xs h,
  λ xs. notification_report-IsWellFormed bm xs h,
)
