-- ===== src/Collector/Streams.antt =====
-- A whole stream: what `Publish` of internal/collector/simple_collector.go answers, stores and leaves.
use ztelem.Prelude.{
  ℕ, ◌+◌, Bytes, List, [], ◌∷◌, ◌++◌, Option, none, some, append_assoc, append-nil, ◌≡◌, refl, sym,
  ap, ◌∙◌, subst, arith,
}
use ztelem.Models.{Time}
use ztelem.Buffer.Manager.{FixedBufferManager}
use ztelem.Buffer.Manager.Invariant.{IsWellFormed}
use ztelem.Parser.Packets.{ParseError, Result, ok, err}
use ztelem.Parser.Messages.{ParseResult}
use ztelem.Collector.Connections.{register_connection, update_connection_activity}
use ztelem.Collector.Publishing.{process_publish_args, take_result}
use ztelem.Collector.Accounts.{Took, message_size, process_publish_args-Took}
use ztelem.Collector.Serving.{
  PublishArgs, received, receive_failed, Round, Session, Turn, again, left, response, send_response,
  respond, take_published, publish_round, publish_loop, end_publish, publish,
}

module _ (parse : Bytes → Result ParseResult) where
  -- The error of a request: that of its GPB data, if it has any.
  abbrev pub refusal : PublishArgs → Option ParseError
  refusal req = elim req.gpb [
    | [] ↦ none
    | b ∷ bytes ↦ elim (parse (b ∷ bytes)) [ ok r ↦ none | err e ↦ some e ]
  ]

  -- The number of the request and nothing else.
  abbrev acknowledged : PublishArgs → PublishArgs
  acknowledged req = record { req_id = req.req_id; gpb = []; json_data = []; errors = [] }

  abbrev unless : Option ParseError → PublishArgs → List PublishArgs
  unless none req = acknowledged req ∷ []
  unless (some e) req = []

  -- The responses to the requests that can be processed, in order.
  abbrev pub responses_to : List (PublishArgs × Time) → List PublishArgs
  responses_to [] = []
  responses_to ((req, now) ∷ reqs) = unless (refusal req) req ++ responses_to reqs

  -- The records in all requests.
  abbrev pub records_in : List (PublishArgs × Time) → ℕ
  records_in [] = 0
  records_in ((req, now) ∷ reqs) = message_size parse req.gpb + records_in reqs

  -- Requests that come at their times, with responses that can be sent, and then the end of the stream.
  abbrev pub stream : List (PublishArgs × Time) → Bytes → Time → List Round
  stream [] e end = record { answer = receive_failed e; now = end; send_error = none } ∷ []
  stream ((req, now) ∷ reqs) e end =
      record { answer = received req; now = now; send_error = none } ∷ stream reqs e end

  -- What a session that starts with `s` has done when it ends with `e`.
  abbrev pub Served : List (PublishArgs × Time) → Bytes → Session → Turn → Type 0
  Served reqs e s (again s') = ⊥
  Served reqs e s (left e' s') =
      (e' ≡ e)
      × (s'.responses ≡ s.responses ++ responses_to reqs)
      × Took s.manager (records_in reqs) s'.manager

  refusal_lem :
      (req : PublishArgs) (bm : FixedBufferManager)
      → (process_publish_args parse req.gpb bm).error ≡ refusal req
  unfolding process_publish_args take_result
  refusal_lem req bm = ground arith

  -- The session after a round.
  abbrev next : Bytes → PublishArgs → Time → Session → Session
  next id req now s =
      let p = process_publish_args parse req.gpb s.manager in
      record {
        registry = update_connection_activity id now s.registry;
        manager = p.buffers.0;
        flushes = s.flushes ++ p.buffers.1;
        responses = s.responses ++ unless (refusal req) req;
      }

  respond_lem :
      (e : Option ParseError) (req : PublishArgs) (s : Session)
      → respond e req none s ≡ again (record s { responses = s.responses ++ unless e req })
  unfolding respond send_response response
  respond_lem none req s = refl
  respond_lem (some e) req s =
      ap (λ l. again (record s { responses = l })) (sym (append-nil s.responses))

  publish_round_lem :
      (id : Bytes) (req : PublishArgs) (now : Time) (s : Session)
      → publish_round parse id (record { answer = received req; now = now; send_error = none }) s
        ≡ again (next id req now s)
  unfolding publish_round take_published
  publish_round_lem id req now s =
      respond_lem (process_publish_args parse req.gpb s.manager).error req _
      ∙ ap (λ x. again (record (next id req now s) { responses = s.responses ++ unless x req }))
          (refusal_lem req s.manager)

  more-Served :
      (id : Bytes) (req : PublishArgs) (now : Time) (reqs : List (PublishArgs × Time)) (e : Bytes)
      (s : Session) (turn : Turn)
      → Took s.manager (message_size parse req.gpb) (next id req now s).manager
      → Served reqs e (next id req now s) turn
      → Served ((req, now) ∷ reqs) e s turn
  more-Served id req now reqs e s (again s') t h = h
  more-Served id req now reqs e s (left e' s') t (he, hr, ht) = (
    he,
    hr ∙ append_assoc s.responses (unless (refusal req) req) (responses_to reqs),
    record { well_formed = ht.well_formed; processed = omega (arith, t.processed, ht.processed) },
  )

  loop-Served :
      (id : Bytes) (reqs : List (PublishArgs × Time)) (e : Bytes) (end : Time) (s : Session)
      → IsWellFormed s.manager
      → Served reqs e s (publish_loop parse id (stream reqs e end) s)
  unfolding publish_loop publish_round
  loop-Served id [] e end s h =
      (refl, sym (append-nil s.responses), record { well_formed = h; processed = omega arith })
  loop-Served id ((req, now) ∷ reqs) e end s h =
      let t = process_publish_args-Took parse req.gpb s.manager h in
      let rest = loop-Served id reqs e end (next id req now s) t.well_formed in
      subst
        (λ turn. Served ((req, now) ∷ reqs) e s (elim turn [
          | again s' ↦ publish_loop parse id (stream reqs e end) s'
          | left e' s' ↦ left e' s'
        ]))
        (sym (publish_round_lem id req now s)) (more-Served id req now reqs e s _ t rest)

  end-Served :
      (id : Bytes) (reqs : List (PublishArgs × Time)) (e : Bytes) (s : Session) (turn : Turn)
      → Served reqs e s turn
      → Served reqs e s (end_publish id turn)
  unfolding end_publish
  end-Served id reqs e s (again s') h = h
  end-Served id reqs e s (left e' s') h = h

-- A stream that brings `reqs` and then fails with `e`, with all responses sent, ends with that error. It
-- has sent one response for each request that can be processed, in order, with the number of the
-- request, no data and no error, and none for the others; and a manager that was well formed still is, and has counted the
-- records of all requests.
pub publish-Served :
    (parse : Bytes → Result ParseResult) (remote_addr : Bytes) (t u v : Time)
    (reqs : List (PublishArgs × Time)) (e : Bytes) (end : Time) (s : Session)
    → IsWellFormed s.manager
    → Served parse reqs e s (publish parse remote_addr t u v (stream parse reqs e end) s)
unfolding publish
publish-Served parse remote_addr t u v reqs e end s h =
    let r = register_connection remote_addr t u v s.registry in
    let start = record s { registry = r.1 } in
    end-Served parse r.0 reqs e s _ (loop-Served parse r.0 reqs e end start h)
