-- ===== src/Buffer/Manager/Accounts.antt =====
-- What the counters of the manager say about its buffers.
use ztelem.Prelude.{◌+◌, List, ◌≡◌, refl, length}
use ztelem.Models.{PlatformMetric, InterfaceMetric, SubinterfaceMetric}
use ztelem.Buffer.Sharded
use ztelem.Buffer.Sharded.{ShardedMap, new_sharded_map}
use ztelem.Buffer.Keys.{platform_key, interface_key, subinterface_key}
use ztelem.Buffer.Merge.{merge_platform_metric, merge_interface_metric, merge_subinterface_metric}
use ztelem.Buffer.Merge.Laws.{platform_key-merge, interface_key-merge, subinterface_key-merge}
use ztelem.Buffer.Lane.Buffering.{add_merging_accounts}
use ztelem.Buffer.Manager.{
  FixedBufferManager, add_platform_metrics, add_interface_metrics, add_subinterface_metrics,
}
use ztelem.Buffer.Manager.Invariant.{IsWellFormed}

platform_accounts :
    (bm : FixedBufferManager) (xs : List PlatformMetric)
    → IsWellFormed bm
    → let after = (add_platform_metrics xs bm).0 in
      (Sharded.len after.platform.buffer + after.stats.key_collisions
        ≡ Sharded.len bm.platform.buffer + bm.stats.key_collisions + length xs)
      × (after.stats.total_records_processed ≡ bm.stats.total_records_processed + length xs)
unfolding add_platform_metrics
platform_accounts bm xs h = (
  add_merging_accounts platform_key merge_platform_metric platform_key-merge xs bm.platform.buffer
      bm.stats.key_collisions h.platform_keyed,
  refl,
)

interface_accounts :
    (bm : FixedBufferManager) (xs : List InterfaceMetric)
    → IsWellFormed bm
    → let after = (add_interface_metrics xs bm).0 in
      (Sharded.len after.interface.buffer + after.stats.key_collisions
        ≡ Sharded.len bm.interface.buffer + bm.stats.key_collisions + length xs)
      × (after.stats.total_records_processed ≡ bm.stats.total_records_processed + length xs)
unfolding add_interface_metrics
interface_accounts bm xs h = (
  add_merging_accounts interface_key merge_interface_metric interface_key-merge xs
      bm.interface.buffer bm.stats.key_collisions h.interface_keyed,
  refl,
)

subinterface_accounts :
    (bm : FixedBufferManager) (xs : List SubinterfaceMetric)
    → IsWellFormed bm
    → let after = (add_subinterface_metrics xs bm).0 in
      (Sharded.len after.subinterface.buffer + after.stats.key_collisions
        ≡ Sharded.len bm.subinterface.buffer + bm.stats.key_collisions + length xs)
      × (after.stats.total_records_processed ≡ bm.stats.total_records_processed + length xs)
unfolding add_subinterface_metrics
subinterface_accounts bm xs h = (
  add_merging_accounts subinterface_key merge_subinterface_metric subinterface_key-merge xs
      bm.subinterface.buffer bm.stats.key_collisions h.subinterface_keyed,
  refl,
)

-- In a well-formed manager each of the three methods that merge turns every record that it is given
-- into one more buffered record or one more counted collision, and counts it as processed.
pub add_accounts :
    (bm : FixedBufferManager)
    → IsWellFormed bm
    → ((xs : List PlatformMetric)
        → let after = (add_platform_metrics xs bm).0 in
          (Sharded.len after.platform.buffer + after.stats.key_collisions
            ≡ Sharded.len bm.platform.buffer + bm.stats.key_collisions + length xs)
          × (after.stats.total_records_processed ≡ bm.stats.total_records_processed + length xs))
      × ((xs : List InterfaceMetric)
          → let after = (add_interface_metrics xs bm).0 in
            (Sharded.len after.interface.buffer + after.stats.key_collisions
              ≡ Sharded.len bm.interface.buffer + bm.stats.key_collisions + length xs)
            × (after.stats.total_records_processed ≡ bm.stats.total_records_processed + length xs))
      × ((xs : List SubinterfaceMetric)
          → let after = (add_subinterface_metrics xs bm).0 in
            (Sharded.len after.subinterface.buffer + after.stats.key_collisions
              ≡ Sharded.len bm.subinterface.buffer + bm.stats.key_collisions + length xs)
            × (after.stats.total_records_processed ≡ bm.stats.total_records_processed + length xs))
add_accounts bm h = (
  λ xs. platform_accounts bm xs h,
  λ xs. interface_accounts bm xs h,
  λ xs. subinterface_accounts bm xs h,
)
