-- ===== src/Config/Types.antt =====
-- The configuration structs of internal/config/config.go.
use ztelem.Prelude.{ℕ, ◌*◌, Bool, Bytes, ℤ, pos}

abbrev pub Duration : Type 0
Duration = ℤ

abbrev pub seconds : ℕ → Duration
seconds n = pos (n * 1_000_000_000)

abbrev pub minutes : ℕ → Duration
minutes n = pos (n * 60_000_000_000)

pub record DatabaseConfig : Type 0 where
  pub host : Bytes
  pub port : ℤ
  pub user : Bytes
  pub password : Bytes
  pub database : Bytes
  pub schema : Bytes
  pub ssl_mode : Bytes
  pub max_open_conns : ℤ
  pub max_idle_conns : ℤ
  pub conn_max_lifetime : Duration
  pub conn_max_idle_time : Duration

pub record ServerConfig : Type 0 where
  pub port : ℤ
  pub max_recv_msg_size : ℤ
  pub max_send_msg_size : ℤ
  pub max_concurrent_streams : ℕ  -- uint32
  pub keepalive_time : Duration
  pub keepalive_timeout : Duration

pub record BufferConfig : Type 0 where
  pub max_size : ℤ
  pub flush_interval : Duration
  pub batch_size : ℤ
  pub flush_threshold : ℤ
  pub platform_buffer_size : ℤ
  pub interface_buffer_size : ℤ
  pub subinterface_buffer_size : ℤ

pub record DatabaseWriterConfig : Type 0 where
  pub batch_timeout : Duration
  pub retry_attempts : ℤ
  pub retry_delay : Duration
  pub parallel_writers : ℤ
  pub max_batch_size : ℤ
  pub enable_parallel_table_writes : Bool
  pub platform_writer_count : ℤ
  pub interface_writer_count : ℤ
  pub subinterface_writer_count : ℤ

pub record MemoryConfig : Type 0 where
  pub max_memory_usage : Bytes
  pub gc_target_percent : ℤ
  pub buffer_pool_size : ℤ

pub record LoggingConfig : Type 0 where
  pub level : Bytes
  pub format : Bytes
  pub output : Bytes
  pub file_path : Bytes
  pub max_size : ℤ
  pub max_age : ℤ
  pub max_backups : ℤ
  pub compress : Bool

pub record AlertThresholdsConfig : Type 0 where
  pub buffer_usage_percent : ℤ
  pub db_connection_usage_percent : ℤ
  pub memory_usage_percent : ℤ
  pub error_rate_per_minute : ℤ

pub record MonitoringConfig : Type 0 where
  pub enabled : Bool
  pub metrics_interval : Duration
  pub health_check_port : ℤ
  pub prometheus_enabled : Bool
  pub prometheus_port : ℤ
  pub alert_thresholds : AlertThresholdsConfig

pub record PerformanceConfig : Type 0 where
  pub gc_percent : ℤ
  pub max_procs : ℤ
  pub enable_pprof : Bool
  pub pprof_port : ℤ
  pub tcp_keepalive : Bool
  pub tcp_no_delay : Bool
  pub read_buffer_size : ℤ
  pub write_buffer_size : ℤ

pub record CompressionConfig : Type 0 where
  pub enabled : Bool
  pub algorithm : Bytes
  pub level : ℤ

pub record RecoveryConfig : Type 0 where
  pub enable_data_persistence : Bool
  pub persistence_path : Bytes
  pub max_recovery_time : Duration
  pub checkpoint_interval : Duration

pub record DebugConfig : Type 0 where
  pub enabled : Bool
  pub log_raw_data : Bool
  pub metrics_enabled : Bool
  pub profile_enabled : Bool
  pub slow_query_threshold : Duration

pub record Config : Type 0 where
  pub database : DatabaseConfig
  pub server : ServerConfig
  pub buffer : BufferConfig
  pub database_writer : DatabaseWriterConfig
  pub memory : MemoryConfig
  pub logging : LoggingConfig
  pub monitoring : MonitoringConfig
  pub performance : PerformanceConfig
  pub compression : CompressionConfig
  pub recovery : RecoveryConfig
  pub debug : DebugConfig
