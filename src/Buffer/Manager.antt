-- ===== src/Buffer/Manager.antt =====
-- The state of `FixedBufferManager` of internal/buffer/buffer_manager.go and the methods that add
-- records. Each `Add…` has the loop of its kind, the counters, and the test that starts a flush.
pub mod Flushing
pub mod Invariant
pub mod Ends
pub mod Shutdown
pub mod Accounts
use ztelem.Prelude.{ℕ, ◌+◌, Bool, true, false, List, [], length}
use ztelem.Models.{
  Time, PlatformMetric, InterfaceMetric, SubinterfaceMetric, AlarmReportMetric,
  NotificationReportMetric, zero_time,
}
use ztelem.Config.{Duration, BufferConfig, DatabaseWriterConfig, seconds}
use ztelem.Buffer.Sharded
use ztelem.Buffer.Keys.{platform_key, interface_key, subinterface_key, alarm_key, notification_key}
use ztelem.Buffer.Merge.{merge_platform_metric, merge_interface_metric, merge_subinterface_metric}
use ztelem.Buffer.Lane.{Lane, Added, new_lane, add_merging, add_replacing, reaches}

-- The counters are int64; no run reaches 2^63 records.
pub record FixedBufferStats : Type 0 where
  pub platform_buffer_size : ℕ
  pub interface_buffer_size : ℕ
  pub subinterface_buffer_size : ℕ
  pub alarm_report_buffer_size : ℕ
  pub notification_report_buffer_size : ℕ
  pub total_records_processed : ℕ
  pub total_records_written : ℕ
  pub total_errors : ℕ
  pub last_flush_time : Time
  pub flush_duration : Duration
  pub key_collisions : ℕ

abbrev pub empty_stats : FixedBufferStats
empty_stats = record {
  platform_buffer_size = 0;
  interface_buffer_size = 0;
  subinterface_buffer_size = 0;
  alarm_report_buffer_size = 0;
  notification_report_buffer_size = 0;
  total_records_processed = 0;
  total_records_written = 0;
  total_errors = 0;
  last_flush_time = zero_time;
  flush_duration = seconds 0;
  key_collisions = 0;
}

-- `stopped` says that `stopChan` is closed; `next_call` numbers the calls of the database.
pub record FixedBufferManager : Type 0 where
  pub config : BufferConfig
  pub writer_config : DatabaseWriterConfig
  pub platform : Lane PlatformMetric
  pub interface : Lane InterfaceMetric
  pub subinterface : Lane SubinterfaceMetric
  pub alarm_report : Lane AlarmReportMetric
  pub notification_report : Lane NotificationReportMetric
  pub stats : FixedBufferStats
  pub stopped : Bool
  pub next_call : ℕ

unfoldable pub new_fixed_buffer_manager : BufferConfig → DatabaseWriterConfig → FixedBufferManager
new_fixed_buffer_manager config writer_config = record {
  config = config;
  writer_config = writer_config;
  platform = new_lane;
  interface = new_lane;
  subinterface = new_lane;
  alarm_report = new_lane;
  notification_report = new_lane;
  stats = empty_stats;
  stopped = false;
  next_call = 0;
}

-- The manager after an `Add…`, and whether a flush is started.
unfoldable pub add_platform_metrics :
    List PlatformMetric → FixedBufferManager → FixedBufferManager × Bool
add_platform_metrics metrics bm =
    let s = bm.stats in
    let r =
      add_merging platform_key merge_platform_metric metrics bm.platform.buffer s.key_collisions in
    (
      record bm {
        platform = record bm.platform { buffer = r.added_buffer };
        stats = record s {
          key_collisions = r.collisions;
          total_records_processed = s.total_records_processed + length metrics;
        };
      },
      reaches r.added_buffer bm.config.flush_threshold,
    )

unfoldable pub add_interface_metrics :
    List InterfaceMetric → FixedBufferManager → FixedBufferManager × Bool
add_interface_metrics metrics bm =
    let s = bm.stats in
    let r =
      add_merging interface_key merge_interface_metric metrics bm.interface.buffer
        s.key_collisions in
    (
      record bm {
        interface = record bm.interface { buffer = r.added_buffer };
        stats = record s {
          key_collisions = r.collisions;
          total_records_processed = s.total_records_processed + length metrics;
        };
      },
      reaches r.added_buffer bm.config.flush_threshold,
    )

unfoldable pub add_subinterface_metrics :
    List SubinterfaceMetric → FixedBufferManager → FixedBufferManager × Bool
add_subinterface_metrics metrics bm =
    let s = bm.stats in
    let r =
      add_merging subinterface_key merge_subinterface_metric metrics bm.subinterface.buffer
        s.key_collisions in
    (
      record bm {
        subinterface = record bm.subinterface { buffer = r.added_buffer };
        stats = record s {
          key_collisions = r.collisions;
          total_records_processed = s.total_records_processed + length metrics;
        };
      },
      reaches r.added_buffer bm.config.flush_threshold,
    )

unfoldable pub add_alarm_report_metrics :
    List AlarmReportMetric → FixedBufferManager → FixedBufferManager × Bool
add_alarm_report_metrics metrics bm =
    let s = bm.stats in
    let b = add_replacing alarm_key metrics bm.alarm_report.buffer in
    (
      record bm {
        alarm_report = record bm.alarm_report { buffer = b };
        stats = record s { total_records_processed = s.total_records_processed + length metrics };
      },
      reaches b bm.config.flush_threshold,
    )

unfoldable pub add_notification_report_metrics :
    List NotificationReportMetric → FixedBufferManager → FixedBufferManager × Bool
add_notification_report_metrics metrics bm =
    let s = bm.stats in
    let b = add_replacing notification_key metrics bm.notification_report.buffer in
    (
      record bm {
        notification_report = record bm.notification_report { buffer = b };
        stats = record s { total_records_processed = s.total_records_processed + length metrics };
      },
      reaches b bm.config.flush_threshold,
    )

-- The sizes are read from the buffers.
unfoldable pub get_stats : FixedBufferManager → FixedBufferStats
get_stats bm = record bm.stats {
  platform_buffer_size = Sharded.len bm.platform.buffer;
  interface_buffer_size = Sharded.len bm.interface.buffer;
  subinterface_buffer_size = Sharded.len bm.subinterface.buffer;
  alarm_report_buffer_size = Sharded.len bm.alarm_report.buffer;
  notification_report_buffer_size = Sharded.len bm.notification_report.buffer;
}
