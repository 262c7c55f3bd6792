-- ===== src/Collector/Connections.antt =====
-- The registry of connections of internal/collector/simple_collector.go. Each function is one critical
-- section of `connectionsMux`.
use ztelem.Prelude.{
  ℕ, zero, suc, ◌+◌, Bool, true, Bytes, [], ◌∷◌, ◌++◌, none, some, ℤ, pos, negsuc, pos_part,
  neg_part, format_int, leb, if◌then◌else◌, length,
}
use ztelem.GoMap
use ztelem.GoMap.{GoMap}
use ztelem.Models.{Time}
use ztelem.Config.{Duration}

pub record ConnectionInfo : Type 0 where
  pub remote_addr : Bytes
  pub connected_at : Time
  pub last_data_time : Time
  pub data_count : ℕ
  pub is_active : Bool

-- The fields of `SimpleCollector` for the monitoring of connections.
pub record Registry : Type 0 where
  pub connections : GoMap ConnectionInfo
  pub active_conn_count : ℤ

unfoldable pub new_registry : Registry
new_registry = record { connections = []; active_conn_count = pos 0 }

-- `atomic.AddInt64(&c.activeConnCount, 1)`, and with -1.
unfoldable pub add_one : ℤ → ℤ
add_one (pos n) = pos (suc n)
add_one (negsuc zero) = pos 0
add_one (negsuc (suc n)) = negsuc n

unfoldable pub subtract_one : ℤ → ℤ
subtract_one (pos zero) = negsuc 0
subtract_one (pos (suc n)) = pos n
subtract_one (negsuc n) = negsuc (suc n)

-- `fmt.Sprintf("%s-%d", remoteAddr, time.Now().UnixNano())`
unfoldable pub conn_id : Bytes → Time → Bytes
conn_id remote_addr now = remote_addr ++ b'-' ∷ format_int now

-- The three times are those of the three calls of `time.Now`.
unfoldable pub register_connection : Bytes → Time → Time → Time → Registry → Bytes × Registry
register_connection remote_addr t u v c =
    let id = conn_id remote_addr t in
    let conn : ConnectionInfo = record {
      remote_addr = remote_addr;
      connected_at = u;
      last_data_time = v;
      data_count = 0;
      is_active = true;
    } in
    (
      id,
      record c {
        connections = GoMap.insert id conn c.connections;
        active_conn_count = add_one c.active_conn_count;
      },
    )

unfoldable pub unregister_connection : Bytes → Registry → Registry
unregister_connection id c = elim (GoMap.lookup id c.connections) [
  | none ↦ c
  | some conn ↦ record c {
    connections = GoMap.delete id c.connections;
    active_conn_count = subtract_one c.active_conn_count;
  }
]

unfoldable pub update_connection_activity : Bytes → Time → Registry → Registry
update_connection_activity id now c = elim (GoMap.lookup id c.connections) [
  | none ↦ c
  | some conn ↦ record c {
    connections =
        GoMap.insert id (record conn { last_data_time = now; data_count = suc conn.data_count })
          c.connections;
  }
]

pub record Snapshot : Type 0 where
  pub total : ℕ
  pub active : ℕ
  pub stale : ℕ
  pub total_data_count : ℕ

-- `now.Sub(last) <= timeout`
unfoldable pub within : Duration → Time → Time → Bool
within timeout now last =
    leb (pos_part now + neg_part last + neg_part timeout)
      (pos_part last + neg_part now + pos_part timeout)

-- The loop over the connections.
unfoldable pub count_connections : Duration → Time → GoMap ConnectionInfo → Snapshot → Snapshot
count_connections timeout now [] s = s
count_connections timeout now ((id, conn) ∷ connections) s =
    let counted = record s { total_data_count = s.total_data_count + conn.data_count } in
    count_connections timeout now connections (
      if within timeout now conn.last_data_time
      then record counted { active = suc s.active }
      else record counted { stale = suc s.stale })

unfoldable pub compute_connection_snapshot : Duration → Time → Registry → Snapshot
compute_connection_snapshot timeout now c =
    count_connections timeout now c.connections
      (record { total = length c.connections; active = 0; stale = 0; total_data_count = 0 })
