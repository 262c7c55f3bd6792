-- ===== src/Examples/Collecting.antt =====
-- Sensor paths, connections and messages at concrete values.
use ztelem.Prelude.{
  ◌+◌, true, false, [], ◌∷◌, none, ◌≡◌, ◌↔◌, refl, codes, pos, beq, All, format_uint, format_int,
}
use ztelem.Config.{minutes}
use ztelem.Parser.Routes.{
  Route, has_prefix, matches, find_route, routes, parse_component_memory_state,
}
use ztelem.Parser.Uptime.{two_digits, format_uptime, format_uptime_injective}
use ztelem.Models.{time_value}
use ztelem.Database.Cells.{safe_time}
use ztelem.Parser.Helpers.{nanos_to_timestamp, time_ptr}
use ztelem.Parser.Stored.{stored_time}
use ztelem.Parser.Longest.{Longest, route-Longest, unrouted}
use ztelem.GoMap.{lookup, insert}
use ztelem.Collector.Connections.{
  Registry, new_registry, conn_id, register_connection, update_connection_activity,
  compute_connection_snapshot,
}
use ztelem.Collector.Counting.{
  Reachable, started, connected, heard, Counted, Reachable-Counted, Reachable-snapshot,
}
use ztelem.Parser.Packets.{ok}
use ztelem.Parser.Messages.{ParseResult}
use ztelem.Collector.Publishing.{process_publish_args}
use ztelem.Collector.Accounts.{Took, message_size, process_publish_args-Took}
use ztelem.Buffer.Manager.Invariant.{new-IsWellFormed}
use ztelem.Examples.Data.{noon, fan_metric, state_metric, alarm, manager}

abbrev memory_route : Route
memory_route = record {
  path = codes "oc-platform:components/component/state/memory";
  handler = parse_component_memory_state;
  exact = false;
}

route-Longest_example :
    (matches memory_route (codes "oc-platform:components/component/state/memory/1") ≡ true)
    × Longest (codes "oc-platform:components/component/state/memory/1") routes memory_route
unfolding find_route matches has_prefix routes beq
route-Longest_example =
    route-Longest (codes "oc-platform:components/component/state/memory/1") memory_route refl

unrouted_example :
    (find_route (codes "oc-if:vlans") routes ≡ none)
    ↔ All (λ (r : Route). matches r (codes "oc-if:vlans") ≡ false) routes
unrouted_example = unrouted (codes "oc-if:vlans") routes

-- One device that has connected, sent a message, and connected once more in the same nanosecond.
abbrev one_device : Registry
one_device =
    (register_connection (codes "10.0.0.1:5000") noon noon noon (
      update_connection_activity (conn_id (codes "10.0.0.1:5000") noon) noon
        (register_connection (codes "10.0.0.1:5000") noon noon noon new_registry).1)).1

one_device-Reachable : Reachable 1 one_device
unfolding new_registry lookup register_connection update_connection_activity insert beq conn_id
    format_int
one_device-Reachable = connected (codes "10.0.0.1:5000") noon noon noon (
    heard (conn_id (codes "10.0.0.1:5000") noon) noon
      (connected (codes "10.0.0.1:5000") noon noon noon started))

Reachable-Counted_example : Counted 1 one_device
Reachable-Counted_example = Reachable-Counted 1 one_device one_device-Reachable

Reachable-snapshot_example :
    let s = compute_connection_snapshot (minutes 15) noon one_device in
    (s.active + s.stale ≡ s.total) × (one_device.active_conn_count ≡ pos (s.total + 1))
Reachable-snapshot_example = Reachable-snapshot (minutes 15) noon 1 one_device one_device-Reachable

abbrev two_fans : ParseResult
two_fans = record {
  system_id = codes "ne1";
  sensor_path = codes "oc-platform:components";
  timestamp = noon;
  platform_metrics = fan_metric ∷ state_metric ∷ [];
  interface_metrics = [];
  subinterface_metrics = [];
  alarm_report_metrics = alarm (codes "ne1") 7 1 ∷ [];
  notification_report_metrics = [];
}

process_publish_args-Took_example :
    Took manager
      (message_size (λ s. ok two_fans) (codes "gpb"))
      (process_publish_args (λ s. ok two_fans) (codes "gpb") manager).buffers.0
process_publish_args-Took_example =
    process_publish_args-Took (λ s. ok two_fans) (codes "gpb") manager (new-IsWellFormed _ _)

-- One day, two hours, three minutes and four seconds.
one_day : format_uptime 93784 ≡ codes "01:02:03:04"
unfolding format_uptime two_digits format_uint
one_day = refl

format_uptime_injective_example : 93784 ≡ 86400 + 7384
unfolding format_uptime
format_uptime_injective_example = format_uptime_injective 93784 (86400 + 7384) refl

stored_time_example :
    safe_time (time_ptr (nanos_to_timestamp 1700000000123456789))
    ≡ time_value (pos 1700000000123456789)
stored_time_example = stored_time 1700000000123456789
