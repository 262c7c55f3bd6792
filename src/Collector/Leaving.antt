-- ===== src/Collector/Leaving.antt =====
-- What `Publish` of internal/collector/simple_collector.go does to the registry of connections.
use ztelem.Prelude.{
  suc, zero, Bytes, List, [], ◌∷◌, Option, none, some, ◌≡◌, refl, ap, ◌∙◌, ℤ, pos, negsuc, arith,
  true, beq_iff,
}
use ztelem.GoMap
use ztelem.GoMap.{GoMap, lookup, UniqueKeys}
use ztelem.Models.{Time}
use ztelem.Parser.Packets.{ParseError, Result}
use ztelem.Parser.Messages.{ParseResult}
use ztelem.Collector.Connections.{
  ConnectionInfo, Registry, conn_id, add_one, subtract_one, register_connection,
  unregister_connection, update_connection_activity,
}
use ztelem.Collector.Publishing.{process_publish_args}
use ztelem.Collector.Serving.{
  PublishArgs, received, receive_failed, Round, Session, Turn, again, left, send_response, respond,
  take_published, publish_round, publish_loop, end_publish, publish,
}

-- The connection is registered, and the counter is one more than `n`.
record Open (id : Bytes) (n : ℤ) (c : Registry) : Type 0 where
  info : ConnectionInfo
  registered : lookup id c.connections ≡ some info
  unique : UniqueKeys c.connections
  counted : c.active_conn_count ≡ add_one n

-- An open stream is counted; after `Publish` has returned the counter is `n` again and the connection
-- is gone.
abbrev pub Counts : Bytes → ℤ → Turn → Type 0
Counts id n (again s) = s.registry.active_conn_count ≡ add_one n
Counts id n (left e s) =
    (s.registry.active_conn_count ≡ n) × (lookup id s.registry.connections ≡ none)

abbrev OpenTurn : Bytes → ℤ → Turn → Type 0
OpenTurn id n (again s) = Open id n s.registry
OpenTurn id n (left e s) = Open id n s.registry

subtract_one-add_one : (n : ℤ) → subtract_one (add_one n) ≡ n
unfolding subtract_one add_one
subtract_one-add_one (pos n) = refl
subtract_one-add_one (negsuc zero) = refl
subtract_one-add_one (negsuc (suc n)) = refl

lookup_inserted :
    (id : Bytes) (conn : ConnectionInfo) (m : GoMap ConnectionInfo)
    → lookup id (GoMap.insert id conn m) ≡ some conn
lookup_inserted id conn m = ground (arith, GoMap.lookup-insert id id conn m, beq_iff id id)

lookup_deleted :
    (id : Bytes) (m : GoMap ConnectionInfo) → UniqueKeys m → lookup id (GoMap.delete id m) ≡ none
lookup_deleted id m h = ground (arith, GoMap.lookup-delete id id m h, beq_iff id id)

register-Open :
    (remote_addr : Bytes) (t u v : Time) (c : Registry)
    → UniqueKeys c.connections
    → Open (conn_id remote_addr t) c.active_conn_count (register_connection remote_addr t u v c).1
unfolding register_connection
register-Open remote_addr t u v c h =
    let conn : ConnectionInfo = record {
      remote_addr = remote_addr;
      connected_at = u;
      last_data_time = v;
      data_count = 0;
      is_active = true;
    } in
    record {
      info = conn;
      registered = lookup_inserted (conn_id remote_addr t) conn c.connections;
      unique = GoMap.insert-UniqueKeys (conn_id remote_addr t) conn c.connections h;
      counted = refl;
    }

module _ (id : Bytes) (n : ℤ) where
  update-Open :
      (now : Time) (c : Registry) → Open id n c → Open id n (update_connection_activity id now c)
  unfolding update_connection_activity
  update-Open now c h =
      let conn = record h.info { last_data_time = now; data_count = suc h.info.data_count } in
      rw (h.registered, update_connection_activity)
        (record {
          info = conn;
          registered = lookup_inserted id conn c.connections;
          unique = GoMap.insert-UniqueKeys id conn c.connections h.unique;
          counted = h.counted;
        })

  respond-Open :
      (e : Option ParseError) (req : PublishArgs) (send_error : Option Bytes) (s : Session)
      → Open id n s.registry
      → OpenTurn id n (respond e req send_error s)
  unfolding respond send_response
  respond-Open none req none s h = h
  respond-Open none req (some e) s h = h
  respond-Open (some e) req send_error s h = h

  round-Open :
      (parse : Bytes → Result ParseResult) (round : Round) (s : Session)
      → Open id n s.registry
      → OpenTurn id n (publish_round parse id round s)
  unfolding publish_round take_published
  round-Open parse round s h =
      elim round.answer
        as (λ a. OpenTurn id n (elim a [
          | receive_failed e ↦ left e s
          | received req ↦
              let p = process_publish_args parse req.gpb s.manager in
              let heard = record s {
                registry = update_connection_activity id round.now s.registry;
              } in
              respond p.error req round.send_error (take_published p heard)
        ])) [
          | receive_failed e ↦ h
          | received req ↦
              respond-Open _ req round.send_error _ (update-Open round.now s.registry h)
        ]

  loop-Open :
      (parse : Bytes → Result ParseResult) (rounds : List Round) (s : Session)
      → Open id n s.registry
      → OpenTurn id n (publish_loop parse id rounds s)
  unfolding publish_loop
  loop-Open parse [] s h = h
  loop-Open parse (round ∷ rounds) s h =
      elim (publish_round parse id round s)
          as (λ turn.
            OpenTurn id n turn
            → OpenTurn id n (elim turn [
              | again s' ↦ publish_loop parse id rounds s'
              | left e' s' ↦ left e' s'
            ])) [ again s' ↦ λ k. loop-Open parse rounds s' k | left e' s' ↦ λ k. k ]
        (round-Open parse round s h)

  end-Counts : (turn : Turn) → OpenTurn id n turn → Counts id n (end_publish id turn)
  unfolding end_publish unregister_connection
  end-Counts (again s) h = h.counted
  end-Counts (left e s) h =
      rw (h.registered, unregister_connection)
        (
          ap subtract_one h.counted ∙ subtract_one-add_one n,
          lookup_deleted id s.registry.connections h.unique,
        )

-- In a registry with no ID twice, as in a Go map: while `Publish` runs, its connection is one more than the counter had before; when it has returned, for
-- whatever error and after whatever messages, the counter is as before and the connection is not
-- registered.
pub publish-Counts :
    (parse : Bytes → Result ParseResult) (remote_addr : Bytes) (t u v : Time) (rounds : List Round)
    (s : Session)
    → UniqueKeys s.registry.connections
    → Counts
        (conn_id remote_addr t)
        s.registry.active_conn_count
        (publish parse remote_addr t u v rounds s)
unfolding publish register_connection
publish-Counts parse remote_addr t u v rounds s h =
    let id = conn_id remote_addr t in
    let n = s.registry.active_conn_count in
    end-Counts id n _ (loop-Open id n parse rounds _ (register-Open remote_addr t u v s.registry h))
