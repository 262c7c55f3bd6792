-- ===== src/Collector/Publishing.antt =====
-- `processPublishArgs` of internal/collector/simple_collector.go.
use ztelem.Prelude.{Bool, Bytes, List, [], ◌∷◌, ◌++◌, Option, none, some, if◌then◌else◌}
use ztelem.Parser.Packets.{ParseError, Result, ok, err}
use ztelem.Parser.Messages.{ParseResult}
use ztelem.Buffer.Manager.Flushing.{
  Kind, platform, interface, subinterface, alarm_report, notification_report,
}
use ztelem.Buffer.Manager.{
  FixedBufferManager, add_platform_metrics, add_interface_metrics, add_subinterface_metrics,
  add_alarm_report_metrics, add_notification_report_metrics,
}

-- The manager, and the kinds whose Flush method the Add methods have started in a goroutine.
abbrev pub Buffers : Type 0
Buffers = FixedBufferManager × List Kind

-- `if len(metrics) > 0 { c.bufferManager.Add…(metrics) }`; no Add method returns an error.
unfoldable pub add_if_any {ℓ} :
    {A : Type ℓ}
    → (List A → FixedBufferManager → FixedBufferManager × Bool)
    → Kind
    → List A
    → Buffers
    → Buffers
add_if_any add kind [] b = b
add_if_any add kind (x ∷ xs) b =
    let (bm, full) = add (x ∷ xs) b.0 in (bm, if full then b.1 ++ kind ∷ [] else b.1)

-- The five additions, in the source's order.
unfoldable pub add_result : ParseResult → Buffers → Buffers
add_result r b =
    let b1 = add_if_any add_platform_metrics platform r.platform_metrics b in
    let b2 = add_if_any add_interface_metrics interface r.interface_metrics b1 in
    let b3 = add_if_any add_subinterface_metrics subinterface r.subinterface_metrics b2 in
    let b4 = add_if_any add_alarm_report_metrics alarm_report r.alarm_report_metrics b3 in
    add_if_any add_notification_report_metrics notification_report r.notification_report_metrics b4

-- The error that the call returns, and what it leaves.
pub record Published : Type 0 where
  pub error : Option ParseError
  pub buffers : Buffers

unfoldable pub take_result : Result ParseResult → FixedBufferManager → Published
take_result (err e) bm = record { error = some e; buffers = (bm, []) }
take_result (ok r) bm = record { error = none; buffers = add_result r (bm, []) }

-- `parse` is `ParseTelemetryData`. JSON data is only logged.
unfoldable pub process_publish_args :
    (Bytes → Result ParseResult) → Bytes → FixedBufferManager → Published
process_publish_args parse [] bm = record { error = none; buffers = (bm, []) }
process_publish_args parse (b ∷ bytes) bm = take_result (parse (b ∷ bytes)) bm
