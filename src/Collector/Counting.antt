-- ===== src/Collector/Counting.antt =====
-- The counters and the entries of the registry of connections, over all orders of its methods.
use ztelem.Prelude.{
  ℕ, is_some, if◌then◌else◌, suc, ◌+◌, true, Bytes, [], ◌∷◌, ◌≡◌, refl, sym, ap, ◌∙◌, arith, pos,
  length, Bool-cases, Option-cases, inl, inr,
}
use ztelem.GoMap
use ztelem.GoMap.{GoMap, UniqueKeys}
use ztelem.Models.{Time}
use ztelem.Config.{Duration}
use ztelem.Collector.Connections.{
  ConnectionInfo, Registry, Snapshot, new_registry, add_one, subtract_one, conn_id,
  register_connection, unregister_connection, update_connection_activity, count_connections,
  compute_connection_snapshot, within,
}

-- 1 if the ID is in use, and 0 if it is not.
abbrev pub in_use : Bytes → Registry → ℕ
in_use id c = if is_some (GoMap.lookup id c.connections) then 1 else 0

-- The steps of the goroutines that share the registry, in any order, with the number of registrations
-- under an ID that was in use: nothing checks that it is not.
pub data Reachable : ℕ → Registry → Type 0 where
  started : Reachable 0 new_registry
  connected :
      {n : ℕ} {c : Registry} (remote_addr : Bytes) (t u v : Time)
      → Reachable n c
      → Reachable (n + in_use (conn_id remote_addr t) c) (register_connection remote_addr t u v c).1
  heard :
      {n : ℕ} {c : Registry} (id : Bytes) (now : Time)
      → Reachable n c
      → Reachable n (update_connection_activity id now c)
  disconnected :
      {n : ℕ} {c : Registry} (id : Bytes) → Reachable n c → Reachable n (unregister_connection id c)

pub record Counted (n : ℕ) (c : Registry) : Type 0 where
  pub unique : UniqueKeys c.connections
  pub count : c.active_conn_count ≡ pos (length c.connections + n)

abbrev fresh_info : Bytes → Time → Time → ConnectionInfo
fresh_info remote_addr u v = record {
  remote_addr = remote_addr;
  connected_at = u;
  last_data_time = v;
  data_count = 0;
  is_active = true;
}

register-Counted :
    (n : ℕ) (c : Registry) (remote_addr : Bytes) (t u v : Time)
    → Counted n c
    → Counted (n + in_use (conn_id remote_addr t) c) (register_connection remote_addr t u v c).1
unfolding register_connection add_one
register-Counted n c remote_addr t u v h = record {
  unique = GoMap.insert-UniqueKeys _ _ c.connections h.unique;
  count =
      let more : length
              (GoMap.insert (conn_id remote_addr t) (fresh_info remote_addr u v) c.connections)
            + (n + in_use (conn_id remote_addr t) c)
          ≡ suc (length c.connections + n) =
        ground (
          arith,
          GoMap.length-insert (conn_id remote_addr t) (fresh_info remote_addr u v) c.connections,
        ) in
      ap add_one h.count ∙ ap pos (sym more);
}

unregister-Counted :
    (n : ℕ) (c : Registry) (id : Bytes) → Counted n c → Counted n (unregister_connection id c)
unfolding unregister_connection subtract_one
unregister-Counted n c id h = elim (Option-cases (GoMap.lookup id c.connections)) [
  | inl e ↦ rw (e, unregister_connection) h
  | inr (conn, e) ↦
      let less : length c.connections + n ≡ suc (length (GoMap.delete id c.connections) + n) =
        ground (arith, GoMap.length-delete id c.connections, e) in
      rw (e, unregister_connection)
        (record {
          unique = GoMap.delete-UniqueKeys id c.connections h.unique;
          count = ap subtract_one (h.count ∙ ap pos less);
        })
]

update-Counted :
    (n : ℕ) (c : Registry) (id : Bytes) (now : Time)
    → Counted n c
    → Counted n (update_connection_activity id now c)
unfolding update_connection_activity
update-Counted n c id now h = elim (Option-cases (GoMap.lookup id c.connections)) [
  | inl e ↦ rw (e, update_connection_activity) h
  | inr (conn, e) ↦
      let conn' = record conn { last_data_time = now; data_count = suc conn.data_count } in
      let same : length (GoMap.insert id conn' c.connections) ≡ length c.connections =
        ground (arith, GoMap.length-insert id conn' c.connections, e) in
      rw (e, update_connection_activity)
        (record {
          unique = GoMap.insert-UniqueKeys id conn' c.connections h.unique;
          count = h.count ∙ ap (λ k. pos (k + n)) (sym same);
        })
]

-- In every reachable registry no two entries have the same ID, and the counter of active connections is
-- the number of entries plus the number of registrations under an ID that was in use: such a
-- registration is counted and takes the place of the entry, and the count is never taken back.
pub Reachable-Counted : (n : ℕ) (c : Registry) → Reachable n c → Counted n c
unfolding new_registry
Reachable-Counted n c started = record { unique = tt; count = refl }
Reachable-Counted n c (connected addr t u v r) =
    register-Counted _ _ addr t u v (Reachable-Counted _ _ r)
Reachable-Counted n c (heard id now r) = update-Counted _ _ id now (Reachable-Counted _ _ r)
Reachable-Counted n c (disconnected id r) = unregister-Counted _ _ id (Reachable-Counted _ _ r)

count_connections_split :
    (timeout : Duration) (now : Time) (m : GoMap ConnectionInfo) (s : Snapshot)
    → let r = count_connections timeout now m s in
      (r.total ≡ s.total) × (r.active + r.stale ≡ s.active + s.stale + length m)
unfolding count_connections
count_connections_split timeout now [] s = (refl, omega arith)
count_connections_split timeout now ((id, conn) ∷ m) s =
    elim (Bool-cases (within timeout now conn.last_data_time)) [
      | inl e ↦
          let ih = count_connections_split timeout now m (record s {
            active = suc s.active;
            total_data_count = s.total_data_count + conn.data_count;
          }) in
          rw (e, count_connections) (ih.0, omega (arith, ih.1))
      | inr e ↦
          let ih = count_connections_split timeout now m (record s {
            stale = suc s.stale;
            total_data_count = s.total_data_count + conn.data_count;
          }) in
          rw (e, count_connections) (ih.0, omega (arith, ih.1))
    ]

-- A snapshot of a reachable registry counts every connection once, as active or as stale. The counter of
-- active connections is the snapshot's total plus the number of registrations under an ID that was in
-- use, so it is the total exactly if there was none.
pub Reachable-snapshot :
    (timeout : Duration) (now : Time) (n : ℕ) (c : Registry)
    → Reachable n c
    → let s = compute_connection_snapshot timeout now c in
      (s.active + s.stale ≡ s.total) × (c.active_conn_count ≡ pos (s.total + n))
unfolding compute_connection_snapshot
Reachable-snapshot timeout now n c r =
    let split =
      count_connections_split timeout now c.connections
        (record { total = length c.connections; active = 0; stale = 0; total_data_count = 0 }) in
    (
      omega (arith, split.0, split.1),
      (Reachable-Counted n c r).count ∙ ap (λ k. pos (k + n)) (sym split.0),
    )
