-- ===== src/Config/Defaults.antt =====
-- The configuration that `LoadConfig` of internal/config/config.go starts from.
use ztelem.Prelude.{◌*◌, true, false, [], pos, codes}
use ztelem.Config.Types.{
  seconds, minutes, DatabaseConfig, ServerConfig, BufferConfig, DatabaseWriterConfig, MemoryConfig,
  LoggingConfig, AlertThresholdsConfig, MonitoringConfig, PerformanceConfig, CompressionConfig,
  RecoveryConfig, DebugConfig, Config,
}

abbrev pub default_database_config : DatabaseConfig
default_database_config = record {
  host = codes "localhost";
  port = pos 5432;
  user = codes "telemetry_app";
  password = [];
  database = codes "telemetrydb";
  schema = codes "telemetry";
  ssl_mode = codes "disable";
  max_open_conns = pos 25;
  max_idle_conns = pos 5;
  conn_max_lifetime = minutes 30;
  conn_max_idle_time = minutes 5;
}

abbrev pub default_server_config : ServerConfig
default_server_config = record {
  port = pos 50051;
  max_recv_msg_size = pos (4 * 1024 * 1024);
  max_send_msg_size = pos (4 * 1024 * 1024);
  max_concurrent_streams = 100;
  keepalive_time = seconds 30;
  keepalive_timeout = seconds 5;
}

abbrev pub default_buffer_config : BufferConfig
default_buffer_config = record {
  max_size = pos 1000;
  flush_interval = seconds 30;
  batch_size = pos 100;
  flush_threshold = pos 500;
  platform_buffer_size = pos 5000;
  interface_buffer_size = pos 5000;
  subinterface_buffer_size = pos 5000;
}

abbrev pub default_database_writer_config : DatabaseWriterConfig
default_database_writer_config = record {
  batch_timeout = seconds 5;
  retry_attempts = pos 3;
  retry_delay = seconds 1;
  parallel_writers = pos 1;
  max_batch_size = pos 1000;
  enable_parallel_table_writes = false;
  platform_writer_count = pos 1;
  interface_writer_count = pos 1;
  subinterface_writer_count = pos 1;
}

abbrev pub default_memory_config : MemoryConfig
default_memory_config = record {
  max_memory_usage = codes "2GB";
  gc_target_percent = pos 100;
  buffer_pool_size = pos 100;
}

abbrev pub default_logging_config : LoggingConfig
default_logging_config = record {
  level = codes "info";
  format = codes "text";
  output = codes "stdout";
  file_path = codes "logs/telemetry.log";
  max_size = pos 100;
  max_age = pos 30;
  max_backups = pos 3;
  compress = false;
}

abbrev pub default_alert_thresholds_config : AlertThresholdsConfig
default_alert_thresholds_config = record {
  buffer_usage_percent = pos 80;
  db_connection_usage_percent = pos 85;
  memory_usage_percent = pos 90;
  error_rate_per_minute = pos 100;
}

abbrev pub default_monitoring_config : MonitoringConfig
default_monitoring_config = record {
  enabled = false;
  metrics_interval = seconds 30;
  health_check_port = pos 8080;
  prometheus_enabled = false;
  prometheus_port = pos 9090;
  alert_thresholds = default_alert_thresholds_config;
}

abbrev pub default_performance_config : PerformanceConfig
default_performance_config = record {
  gc_percent = pos 100;
  max_procs = pos 4;
  enable_pprof = false;
  pprof_port = pos 6060;
  tcp_keepalive = true;
  tcp_no_delay = true;
  read_buffer_size = pos 32768;
  write_buffer_size = pos 32768;
}

abbrev pub default_compression_config : CompressionConfig
default_compression_config = record { enabled = false; algorithm = codes "gzip"; level = pos 6 }

abbrev pub default_recovery_config : RecoveryConfig
default_recovery_config = record {
  enable_data_persistence = false;
  persistence_path = codes "data/recovery";
  max_recovery_time = minutes 5;
  checkpoint_interval = seconds 30;
}

abbrev pub default_debug_config : DebugConfig
default_debug_config = record {
  enabled = false;
  log_raw_data = false;
  metrics_enabled = true;
  profile_enabled = false;
  slow_query_threshold = seconds 1;
}

abbrev pub default_config : Config
default_config = record {
  database = default_database_config;
  server = default_server_config;
  buffer = default_buffer_config;
  database_writer = default_database_writer_config;
  memory = default_memory_config;
  logging = default_logging_config;
  monitoring = default_monitoring_config;
  performance = default_performance_config;
  compression = default_compression_config;
  recovery = default_recovery_config;
  debug = default_debug_config;
}
