-- ===== src/Examples/Buffering.antt =====
-- Keys, the sharded map and the merge at concrete records.
use ztelem.Prelude.{
  ℕ, ◌+◌, Bytes, List, [], ◌∷◌, none, some, ◌≡◌, ◌≢◌, ◌↔◌, refl, arith, codes, beq, if◌then◌else◌,
  length,
}
use ztelem.Models.{PlatformMetric, AlarmReportMetric, SubinterfaceMetric, unix_second}
use ztelem.GoMap
use ztelem.GoMap.{GoMap, UniqueKeys}
use ztelem.Buffer.Keys.{platform_key, alarm_key, subinterface_key, notification_key}
use ztelem.Buffer.Keys.Pool.{Builds, pooled_keys}
use ztelem.Buffer.Keys.{
  generate_platform_key, generate_interface_key, generate_subinterface_key, generate_alarm_key,
  generate_notification_key, interface_key,
}
use ztelem.Models.{InterfaceMetric, NotificationReportMetric}
use ztelem.Buffer.Keys.Injective.{
  platform_key_injective, alarm_key_injective, platform_key_collides,
}
use ztelem.Buffer.Merge.{merge_platform_metric}
use ztelem.Buffer.Merge.Laws.{platform_key-merge}
use ztelem.Buffer.Sharded
use ztelem.Buffer.Sharded.{ShardedMap, new_sharded_map}
use ztelem.Buffer.Sharded.Index.{IsSharded, new-IsSharded, set-IsSharded}
use ztelem.Buffer.Sharded.Laws.{get-set, get-swap}
use ztelem.Buffer.Sharded.Drain.{swap_all_drains, values}
use ztelem.Buffer.Lane.{add_merging, add_replacing}
use ztelem.Buffer.Lane.Folding.{fold_key, get-add_merging, get-add_replacing}
use ztelem.Buffer.Manager.{add_platform_metrics, add_interface_metrics, add_subinterface_metrics}
use ztelem.Buffer.Manager.{add_alarm_report_metrics, add_notification_report_metrics}
use ztelem.Buffer.Manager.Invariant.{add-IsWellFormed, IsWellFormed, new-IsWellFormed}
use ztelem.Buffer.Manager.Accounts.{add_accounts}
use ztelem.Examples.Data.{platform_metric, noon, fan_metric, state_metric, alarm, manager}

-- A map with one entry.
abbrev one : ShardedMap ℕ
one = Sharded.set new_sharded_map (codes "a") 1

one-IsSharded : IsSharded one
one-IsSharded = set-IsSharded new_sharded_map (codes "a") 1 new-IsSharded

get-set_example :
    Sharded.get (Sharded.set one (codes "b") 2) (codes "a")
    ≡ (if beq (codes "b") (codes "a") then some 2 else Sharded.get one (codes "a"))
get-set_example = get-set one (codes "b") (codes "a") 2 one-IsSharded

get-swap_example :
    Sharded.get (Sharded.swap one (codes "a")).1 (codes "a")
    ≡ (if beq (codes "a") (codes "a") then none else Sharded.get one (codes "a"))
get-swap_example = get-swap one (codes "a") (codes "a") one-IsSharded

swap_all_drains_example :
    (entries : GoMap ℕ) × UniqueKeys entries
    × ((k : Bytes) → Sharded.get one k ≡ GoMap.lookup k entries)
    × ((Sharded.swap_all one).0 ≡ values entries)
    × (length (Sharded.swap_all one).0 ≡ Sharded.len one)
    × ((Sharded.swap_all one).1 ≡ new_sharded_map)
swap_all_drains_example = swap_all_drains one one-IsSharded

platform_key_injective_example :
    (unix_second fan_metric.timestamp ≡ unix_second state_metric.timestamp)
    × (fan_metric.system_id ≡ state_metric.system_id)
    × (fan_metric.component_name ≡ state_metric.component_name)
unfolding platform_key
platform_key_injective_example =
    platform_key_injective fan_metric state_metric (omega arith) (omega arith) refl

alarm_key_injective_example :
    let m = alarm (codes "fe80::1") 7 12 in
    let n = alarm (codes "fe80::1") 71 2 in
    (alarm_key m ≡ alarm_key n) ↔ (
      (m.system_id ≡ n.system_id)
      × (m.flow_id ≡ n.flow_id)
      × (m.alarm_timestamp ≡ n.alarm_timestamp))
alarm_key_injective_example =
    alarm_key_injective (alarm (codes "fe80::1") 7 12) (alarm (codes "fe80::1") 71 2)

platform_key_collides_example :
    let m = platform_metric noon (codes "ne_1") (codes "fan") in
    let n = platform_metric noon (codes "ne") (codes "1_fan") in
    (platform_key m ≡ platform_key n)
    × (m.system_id ≢ n.system_id)
    × (m.component_name ≢ n.component_name)
platform_key_collides_example =
    platform_key_collides (codes "ne") (codes "1") (codes "fan")
      (platform_metric noon (codes "ne_1") (codes "fan"))
      (platform_metric noon (codes "ne") (codes "1_fan")) refl refl refl refl refl

platform_key-merge_example :
    platform_key (merge_platform_metric fan_metric state_metric) ≡ platform_key fan_metric
unfolding platform_key
platform_key-merge_example = platform_key-merge fan_metric state_metric refl

get-add_merging_example :
    Sharded.get
      (add_merging platform_key merge_platform_metric
        (fan_metric ∷ state_metric ∷ [])
        new_sharded_map
        0).added_buffer
      (codes "1700000000_ne1_fan-1")
    ≡ fold_key platform_key
        (codes "1700000000_ne1_fan-1")
        merge_platform_metric
        (fan_metric ∷ state_metric ∷ [])
        (Sharded.get new_sharded_map (codes "1700000000_ne1_fan-1"))
get-add_merging_example =
    get-add_merging platform_key merge_platform_metric (codes "1700000000_ne1_fan-1")
      (fan_metric ∷ state_metric ∷ []) new_sharded_map 0 new-IsSharded

get-add_replacing_example :
    Sharded.get
      (add_replacing alarm_key (alarm (codes "ne1") 7 1 ∷ []) new_sharded_map)
      (codes "ne1:7:1")
    ≡ fold_key alarm_key
        (codes "ne1:7:1")
        (λ old new. new)
        (alarm (codes "ne1") 7 1 ∷ [])
        (Sharded.get new_sharded_map (codes "ne1:7:1"))
get-add_replacing_example =
    get-add_replacing alarm_key (codes "ne1:7:1") (alarm (codes "ne1") 7 1 ∷ []) new_sharded_map
      new-IsSharded

pooled_keys_example :
    ((m : PlatformMetric) → Builds (generate_platform_key 0 [] m) (platform_key m))
    × ((m : InterfaceMetric) → Builds (generate_interface_key 0 [] m) (interface_key m))
    × ((m : SubinterfaceMetric) → Builds (generate_subinterface_key 0 [] m) (subinterface_key m))
    × ((m : AlarmReportMetric) → Builds (generate_alarm_key 0 [] m) (alarm_key m))
    × ((m : NotificationReportMetric)
        → Builds (generate_notification_key 0 [] m) (notification_key m))
pooled_keys_example = pooled_keys 0 [] tt

add_accounts_example :
    ((xs : List PlatformMetric)
      → let after = (add_platform_metrics xs manager).0 in
        (Sharded.len after.platform.buffer + after.stats.key_collisions
          ≡ Sharded.len manager.platform.buffer + manager.stats.key_collisions + length xs)
        × (after.stats.total_records_processed ≡ manager.stats.total_records_processed + length xs))
    × ((xs : List InterfaceMetric)
        → let after = (add_interface_metrics xs manager).0 in
          (Sharded.len after.interface.buffer + after.stats.key_collisions
            ≡ Sharded.len manager.interface.buffer + manager.stats.key_collisions + length xs)
          × (after.stats.total_records_processed
              ≡ manager.stats.total_records_processed + length xs))
    × ((xs : List SubinterfaceMetric)
        → let after = (add_subinterface_metrics xs manager).0 in
          (Sharded.len after.subinterface.buffer + after.stats.key_collisions
            ≡ Sharded.len manager.subinterface.buffer + manager.stats.key_collisions + length xs)
          × (after.stats.total_records_processed
              ≡ manager.stats.total_records_processed + length xs))
add_accounts_example = add_accounts manager (new-IsWellFormed _ _)

add-IsWellFormed_example :
    ((xs : List PlatformMetric) → IsWellFormed (add_platform_metrics xs manager).0)
    × ((xs : List InterfaceMetric) → IsWellFormed (add_interface_metrics xs manager).0)
    × ((xs : List SubinterfaceMetric) → IsWellFormed (add_subinterface_metrics xs manager).0)
    × ((xs : List AlarmReportMetric) → IsWellFormed (add_alarm_report_metrics xs manager).0)
    × ((xs : List NotificationReportMetric)
        → IsWellFormed (add_notification_report_metrics xs manager).0)
add-IsWellFormed_example = add-IsWellFormed manager (new-IsWellFormed _ _)
