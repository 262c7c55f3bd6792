-- ===== src/Collector/Serving.antt =====
-- `Publish` of internal/collector/simple_collector.go: the loop over the messages of one stream. The
-- goroutine beside it only logs a timeout.
use ztelem.Prelude.{Bytes, List, [], ◌∷◌, ◌++◌, Option, none, some, ℤ}
use ztelem.Models.{Time}
use ztelem.Buffer.Manager.{FixedBufferManager}
use ztelem.Buffer.Manager.Flushing.{Kind}
use ztelem.Parser.Packets.{ParseError, Result}
use ztelem.Parser.Messages.{ParseResult}
use ztelem.Collector.Connections.{
  Registry, register_connection, unregister_connection, update_connection_activity,
}
use ztelem.Collector.Publishing.{Published, process_publish_args}

-- Of the two cases of `MessageData` the one that is not set reads as empty.
pub record PublishArgs : Type 0 where
  pub req_id : ℤ  -- int64
  pub gpb : Bytes
  pub json_data : Bytes
  pub errors : Bytes

-- The answer of `stream.Recv`.
pub data Received : Type 0 where
  received : PublishArgs → Received
  receive_failed : Bytes → Received

-- What happens to one round of the loop from outside: the answer of `stream.Recv`, the time, and the
-- error of `stream.Send` if there is one.
pub record Round : Type 0 where
  pub answer : Received
  pub now : Time
  pub send_error : Option Bytes

-- The state that a stream changes: the registry, the manager with the kinds whose Flush method was
-- started, and the responses that it has sent.
pub record Session : Type 0 where
  pub registry : Registry
  pub manager : FixedBufferManager
  pub flushes : List Kind
  pub responses : List PublishArgs

-- The loop goes on, or `Publish` returns an error.
pub data Turn : Type 0 where
  again : Session → Turn
  left : Bytes → Session → Turn

unfoldable pub response : PublishArgs → PublishArgs
response req = record { req_id = req.req_id; gpb = []; json_data = []; errors = [] }

unfoldable pub send_response : PublishArgs → Option Bytes → Session → Turn
send_response req none s = again (record s { responses = s.responses ++ response req ∷ [] })
send_response req (some e) s = left e s

-- A message that cannot be processed gets no response.
unfoldable pub respond : Option ParseError → PublishArgs → Option Bytes → Session → Turn
unfolding send_response
respond (some e) req send_error s = again s
respond none req send_error s = send_response req send_error s

unfoldable pub take_published : Published → Session → Session
take_published p s = record s { manager = p.buffers.0; flushes = s.flushes ++ p.buffers.1 }

unfoldable pub publish_round : (Bytes → Result ParseResult) → Bytes → Round → Session → Turn
unfolding take_published respond
publish_round parse id round s = elim round.answer [
  | receive_failed e ↦ left e s
  | received req ↦
      let p = process_publish_args parse req.gpb s.manager in
      let heard = record s { registry = update_connection_activity id round.now s.registry } in
      respond p.error req round.send_error (take_published p heard)
]

-- The loop, as far as the rounds go.
unfoldable pub publish_loop : (Bytes → Result ParseResult) → Bytes → List Round → Session → Turn
publish_loop parse id [] s = again s
publish_loop parse id (round ∷ rounds) s = elim (publish_round parse id round s) [
  | again s' ↦ publish_loop parse id rounds s'
  | left e s' ↦ left e s'
]

-- The deferred call.
unfoldable pub end_publish : Bytes → Turn → Turn
end_publish id (again s) = again s
end_publish id (left e s) = left e (record s { registry = unregister_connection id s.registry })

-- The times are those of `registerConnection`.
unfoldable pub publish :
    (Bytes → Result ParseResult) → Bytes → Time → Time → Time → List Round → Session → Turn
unfolding publish_loop end_publish
publish parse remote_addr t u v rounds s =
    let (id, registry) = register_connection remote_addr t u v s.registry in
    end_publish id (publish_loop parse id rounds (record s { registry = registry }))
