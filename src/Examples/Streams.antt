-- ===== src/Examples/Streams.antt =====
-- Streams of messages at concrete values.
use ztelem.Prelude.{[], ◌∷◌, some, pos, codes}
use ztelem.Parser.Messages.{parse_telemetry_data}
use ztelem.Collector.Connections.{new_registry, conn_id}
use ztelem.Collector.Serving.{PublishArgs, Session, received, publish}
use ztelem.Collector.Streams.{Served, stream, publish-Served}
use ztelem.Collector.Leaving.{Counts, publish-Counts}
use ztelem.Buffer.Manager.Invariant.{new-IsWellFormed}
use ztelem.Examples.Data.{noon, manager}
use ztelem.Examples.Parsing.{decoders, float_format, fans}

abbrev request : PublishArgs
request = record { req_id = pos 1; gpb = codes "msg"; json_data = []; errors = [] }

abbrev damaged : PublishArgs
damaged = record { req_id = pos 2; gpb = codes "?"; json_data = []; errors = [] }

abbrev session : Session
session = record { registry = new_registry; manager = manager; flushes = []; responses = [] }

publish-Served_example :
    Served
      (parse_telemetry_data (decoders fans) float_format)
      ((request, noon) ∷ (damaged, noon) ∷ [])
      (codes "EOF")
      session
      (publish
        (parse_telemetry_data (decoders fans) float_format)
        (codes "10.0.0.1:5000")
        noon
        noon
        noon
        (stream
          (parse_telemetry_data (decoders fans) float_format)
          ((request, noon) ∷ (damaged, noon) ∷ [])
          (codes "EOF")
          noon)
        session)
publish-Served_example =
    publish-Served (parse_telemetry_data (decoders fans) float_format) (codes "10.0.0.1:5000") noon
      noon noon ((request, noon) ∷ (damaged, noon) ∷ []) (codes "EOF") noon session
      (new-IsWellFormed _ _)

publish-Counts_example : Counts (conn_id (codes "10.0.0.1:5000") noon) (pos 0) (
    publish
      (parse_telemetry_data (decoders fans) float_format)
      (codes "10.0.0.1:5000")
      noon
      noon
      noon
      (record { answer = received request; now = noon; send_error = some (codes "reset") } ∷ [])
      session)
unfolding new_registry
publish-Counts_example =
    publish-Counts (parse_telemetry_data (decoders fans) float_format) (codes "10.0.0.1:5000") noon
      noon noon
      (record { answer = received request; now = noon; send_error = some (codes "reset") } ∷ [])
      session tt
