-- ===== src/Buffer/Merge.antt =====
-- The merge of two metrics with the same key, of internal/buffer/buffer_manager.go. `existing` is the
-- buffered record, which the source changes in place.
pub mod Laws
use ztelem.Prelude.{Option, none, some, if◌then◌else◌}
use ztelem.Models.{
  Time, after, or_empty, CommonState, CpuData, MemData, PlatformMetric, InterfaceMetric,
  SubinterfaceMetric, empty_common_state, empty_cpu_data, empty_mem_data,
}

-- `if new.X != nil { existing.X = new.X }`
abbrev pub overwrite {ℓ} : {A : Type ℓ} → Option A → Option A → Option A
overwrite existing none = existing
overwrite existing (some x) = some x

-- `if new.Timestamp.After(existing.Timestamp) { existing.Timestamp = new.Timestamp }`
abbrev pub later : Time → Time → Time
later existing new = if after new existing then new else existing

merge_common_state : Option CommonState → Option CommonState → Option CommonState
merge_common_state existing none = existing
merge_common_state existing (some n) =
    let e = or_empty empty_common_state existing in
    some (record e {
      oper_status = overwrite e.oper_status n.oper_status;
      uptime = overwrite e.uptime n.uptime;
      used_power = overwrite e.used_power n.used_power;
      allocated_power = overwrite e.allocated_power n.allocated_power;
    })

set_mem_alarm : Option MemData → MemData → Option MemData
set_mem_alarm existing n = elim n.mem_alarm_status [
  | none ↦ existing
  | some status ↦
      some (record (or_empty empty_mem_data existing) { mem_alarm_status = some status })
]

merge_mem_data : Option MemData → Option MemData → Option MemData
unfolding set_mem_alarm
merge_mem_data existing none = existing
merge_mem_data existing (some n) = set_mem_alarm existing n

set_cpu_alarm : Option CpuData → CpuData → Option CpuData
set_cpu_alarm existing n = elim n.cpu_alarm_status [
  | none ↦ existing
  | some status ↦
      some (record (or_empty empty_cpu_data existing) { cpu_alarm_status = some status })
]

merge_cpu_data : Option CpuData → Option CpuData → Option CpuData
unfolding set_cpu_alarm
merge_cpu_data existing none = existing
merge_cpu_data existing (some n) = set_cpu_alarm existing n

unfoldable pub merge_platform_metric : PlatformMetric → PlatformMetric → PlatformMetric
unfolding merge_common_state merge_mem_data merge_cpu_data
merge_platform_metric existing new = record existing {
  common_state = merge_common_state existing.common_state new.common_state;
  mem_data = merge_mem_data existing.mem_data new.mem_data;
  cpu_data = merge_cpu_data existing.cpu_data new.cpu_data;
  timestamp = later existing.timestamp new.timestamp;
}

unfoldable pub merge_interface_metric : InterfaceMetric → InterfaceMetric → InterfaceMetric
merge_interface_metric existing new = record existing {
  admin_status_str = overwrite existing.admin_status_str new.admin_status_str;
  oper_status_str = overwrite existing.oper_status_str new.oper_status_str;
  phy_status_str = overwrite existing.phy_status_str new.phy_status_str;
  in_octets = overwrite existing.in_octets new.in_octets;
  out_octets = overwrite existing.out_octets new.out_octets;
  timestamp = later existing.timestamp new.timestamp;
}

unfoldable pub merge_subinterface_metric :
    SubinterfaceMetric → SubinterfaceMetric → SubinterfaceMetric
merge_subinterface_metric existing new = record existing {
  admin_status_str = overwrite existing.admin_status_str new.admin_status_str;
  oper_status_str = overwrite existing.oper_status_str new.oper_status_str;
  in_octets = overwrite existing.in_octets new.in_octets;
  out_octets = overwrite existing.out_octets new.out_octets;
  timestamp = later existing.timestamp new.timestamp;
}
