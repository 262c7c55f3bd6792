-- ===== src/Buffer/Merge/Laws.antt =====
-- What a merge keeps, what it takes from the new metric, and what it drops.
use ztelem.Prelude.{
  Option, none, some, ◌≡◌, refl, sym, ap, arith, ◌++◌, ◌∷◌, Bool-cases, inl, inr, format_int, ℤ,
}
use ztelem.Models.{
  Time, unix_second, CommonState, CpuData, MemData, PlatformMetric, InterfaceMetric,
  SubinterfaceMetric, empty_common_state, empty_cpu_data, empty_mem_data, after,
}
use ztelem.Buffer.Keys.{platform_key, interface_key, subinterface_key}
use ztelem.Buffer.Keys.Injective.{second_prefix}
use ztelem.Buffer.Merge.{
  overwrite, or_empty, later, merge_common_state, merge_mem_data, merge_cpu_data,
  merge_platform_metric, merge_interface_metric, merge_subinterface_metric,
}

later_second :
    (t u : Time) → unix_second t ≡ unix_second u → unix_second (later t u) ≡ unix_second t
later_second t u e = elim (Bool-cases (after u t)) [ inl h ↦ rw h (sym e) | inr h ↦ rw h refl ]

-- Merging a platform metric into a buffered one of the same key leaves a record of that key, also
-- when their system IDs or component names hold underscores and differ.
pub platform_key-merge :
    (e n : PlatformMetric)
    → platform_key e ≡ platform_key n
    → platform_key (merge_platform_metric e n) ≡ platform_key e
unfolding merge_platform_metric platform_key
platform_key-merge e n h =
    let second = (second_prefix (unix_second e.timestamp) (unix_second n.timestamp) _ _ h).0 in
    ap (λ (s : ℤ). format_int s ++ b'_' ∷ (e.system_id ++ b'_' ∷ e.component_name))
      (later_second e.timestamp n.timestamp second)

pub interface_key-merge :
    (e n : InterfaceMetric)
    → interface_key e ≡ interface_key n
    → interface_key (merge_interface_metric e n) ≡ interface_key e
unfolding merge_interface_metric interface_key
interface_key-merge e n h =
    let second = (second_prefix (unix_second e.timestamp) (unix_second n.timestamp) _ _ h).0 in
    ap (λ (s : ℤ). format_int s ++ b'_' ∷ (e.system_id ++ b'_' ∷ e.interface_name))
      (later_second e.timestamp n.timestamp second)

pub subinterface_key-merge :
    (e n : SubinterfaceMetric)
    → subinterface_key e ≡ subinterface_key n
    → subinterface_key (merge_subinterface_metric e n) ≡ subinterface_key e
unfolding merge_subinterface_metric subinterface_key
subinterface_key-merge e n h =
    let second = (second_prefix (unix_second e.timestamp) (unix_second n.timestamp) _ _ h).0 in
    ap
      (λ (s : ℤ).
        format_int s
        ++ b'_' ∷ (e.system_id ++ b'_' ∷ (e.interface_name ++ b'_' ∷ e.subinterface_name)))
      (later_second e.timestamp n.timestamp second)

-- The part of a platform metric that a merge reads.
abbrev merged_common : CommonState → CommonState
merged_common c = record empty_common_state {
  oper_status = c.oper_status;
  uptime = c.uptime;
  used_power = c.used_power;
  allocated_power = c.allocated_power;
}

abbrev merged_mem : MemData → MemData
merged_mem d = record empty_mem_data { mem_alarm_status = d.mem_alarm_status }

abbrev merged_cpu : CpuData → CpuData
merged_cpu d = record empty_cpu_data { cpu_alarm_status = d.cpu_alarm_status }

abbrev map_some {ℓ} : {A : Type ℓ} → (A → A) → Option A → Option A
map_some f none = none
map_some f (some x) = some (f x)

-- The metric with everything removed but its identity, the status, uptime and powers of its common
-- state, and the alarm statuses of its memory and CPU.
abbrev pub status_only : PlatformMetric → PlatformMetric
status_only n = record n {
  common_state = map_some merged_common n.common_state;
  cpu_data = map_some merged_cpu n.cpu_data;
  mem_data = map_some merged_mem n.mem_data;
  temp_data = none;
  fan_data = none;
  power_data = none;
  optical_data = none;
}

-- The parts of a metric, a missing one read as an empty one, less the fields that a merge writes.
abbrev pub other_common : PlatformMetric → CommonState
other_common m = record (or_empty empty_common_state m.common_state) {
  oper_status = none;
  uptime = none;
  used_power = none;
  allocated_power = none;
}

abbrev pub other_mem : PlatformMetric → MemData
other_mem m = record (or_empty empty_mem_data m.mem_data) { mem_alarm_status = none }

abbrev pub other_cpu : PlatformMetric → CpuData
other_cpu m = record (or_empty empty_cpu_data m.cpu_data) { cpu_alarm_status = none }

overwrite_twice {ℓ} : {A : Type ℓ} (e n : Option A) → overwrite (overwrite e n) n ≡ overwrite e n
overwrite_twice e none = refl
overwrite_twice e (some x) = refl

later_twice : (t u : Time) → later (later t u) u ≡ later t u
later_twice t u = ground arith

common_state_twice :
    (e n : Option CommonState)
    → merge_common_state (merge_common_state e n) n ≡ merge_common_state e n
unfolding merge_common_state
common_state_twice e none = refl
common_state_twice e (some n) =
    let o = or_empty empty_common_state e in
    λ i. some (record o {
      oper_status = overwrite_twice o.oper_status n.oper_status i;
      uptime = overwrite_twice o.uptime n.uptime i;
      used_power = overwrite_twice o.used_power n.used_power i;
      allocated_power = overwrite_twice o.allocated_power n.allocated_power i;
    })

mem_data_twice : (e n : Option MemData) → merge_mem_data (merge_mem_data e n) n ≡ merge_mem_data e n
unfolding merge_mem_data
mem_data_twice e none = refl
mem_data_twice e (some n) = ground arith

cpu_data_twice : (e n : Option CpuData) → merge_cpu_data (merge_cpu_data e n) n ≡ merge_cpu_data e n
unfolding merge_cpu_data
cpu_data_twice e none = refl
cpu_data_twice e (some n) = ground arith

-- A metric that is delivered twice changes the buffered record no more than once, of all three kinds
-- that are merged.
pub merge_twice :
    ((e n : PlatformMetric)
      → merge_platform_metric (merge_platform_metric e n) n ≡ merge_platform_metric e n)
    × ((e n : InterfaceMetric)
        → merge_interface_metric (merge_interface_metric e n) n ≡ merge_interface_metric e n)
    × ((e n : SubinterfaceMetric)
        → merge_subinterface_metric (merge_subinterface_metric e n) n
          ≡ merge_subinterface_metric e n)
unfolding merge_platform_metric merge_interface_metric merge_subinterface_metric
merge_twice = (
  λ e n i. record e {
    common_state = common_state_twice e.common_state n.common_state i;
    mem_data = mem_data_twice e.mem_data n.mem_data i;
    cpu_data = cpu_data_twice e.cpu_data n.cpu_data i;
    timestamp = later_twice e.timestamp n.timestamp i;
  },
  λ e n i. record e {
    admin_status_str = overwrite_twice e.admin_status_str n.admin_status_str i;
    oper_status_str = overwrite_twice e.oper_status_str n.oper_status_str i;
    phy_status_str = overwrite_twice e.phy_status_str n.phy_status_str i;
    in_octets = overwrite_twice e.in_octets n.in_octets i;
    out_octets = overwrite_twice e.out_octets n.out_octets i;
    timestamp = later_twice e.timestamp n.timestamp i;
  },
  λ e n i. record e {
    admin_status_str = overwrite_twice e.admin_status_str n.admin_status_str i;
    oper_status_str = overwrite_twice e.oper_status_str n.oper_status_str i;
    in_octets = overwrite_twice e.in_octets n.in_octets i;
    out_octets = overwrite_twice e.out_octets n.out_octets i;
    timestamp = later_twice e.timestamp n.timestamp i;
  },
)
