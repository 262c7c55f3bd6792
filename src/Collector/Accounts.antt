-- ===== src/Collector/Accounts.antt =====
-- The records of a message and the counters of the buffer manager.
use ztelem.Prelude.{ℕ, ◌+◌, Bool, Bytes, List, [], ◌∷◌, ◌≡◌, refl, ◌∙◌, arith, length}
use ztelem.Buffer.Manager.{
  FixedBufferManager, add_platform_metrics, add_interface_metrics, add_subinterface_metrics,
  add_alarm_report_metrics, add_notification_report_metrics,
}
use ztelem.Buffer.Manager.Flushing.{
  Kind, platform, interface, subinterface, alarm_report, notification_report,
}
use ztelem.Buffer.Manager.Invariant.{IsWellFormed, add-IsWellFormed}
use ztelem.Collector.Publishing.{Buffers, add_if_any, add_result, take_result, process_publish_args}
use ztelem.Parser.Packets.{Result, ok, err}
use ztelem.Parser.Messages.{ParseResult}

-- A well-formed manager that has counted `n` records more than `before`.
pub record Took (before : FixedBufferManager) (n : ℕ) (after : FixedBufferManager) : Type 0 where
  pub well_formed : IsWellFormed after
  pub processed : after.stats.total_records_processed ≡ before.stats.total_records_processed + n

-- A method keeps the manager well formed and counts each record that it is given.
abbrev Counts {ℓ} :
    {A : Type ℓ} → (List A → FixedBufferManager → FixedBufferManager × Bool) → Type ℓ
Counts {A = A} add =
    (bm : FixedBufferManager) (xs : List A) → IsWellFormed bm → Took bm (length xs) (add xs bm).0

add_if_any-Took {ℓ} :
    {A : Type ℓ} (add : List A → FixedBufferManager → FixedBufferManager × Bool) (kind : Kind)
    (xs : List A) (start : FixedBufferManager) (n : ℕ) (b : Buffers)
    → Counts add
    → Took start n b.0
    → Took start (n + length xs) (add_if_any add kind xs b).0
unfolding add_if_any
add_if_any-Took add kind [] start n b c t = record {
  well_formed = t.well_formed;
  processed = t.processed ∙ omega arith;
}
add_if_any-Took add kind (x ∷ xs) start n b c t =
    let t' = c b.0 (x ∷ xs) t.well_formed in
    record { well_formed = t'.well_formed; processed = omega (arith, t.processed, t'.processed) }

platform-Counts : Counts add_platform_metrics
unfolding add_platform_metrics
platform-Counts bm xs h = record { well_formed = (add-IsWellFormed bm h).0 xs; processed = refl }

interface-Counts : Counts add_interface_metrics
unfolding add_interface_metrics
interface-Counts bm xs h = record { well_formed = (add-IsWellFormed bm h).1 xs; processed = refl }

subinterface-Counts : Counts add_subinterface_metrics
unfolding add_subinterface_metrics
subinterface-Counts bm xs h = record {
  well_formed = (add-IsWellFormed bm h).2 xs;
  processed = refl;
}

alarm_report-Counts : Counts add_alarm_report_metrics
unfolding add_alarm_report_metrics
alarm_report-Counts bm xs h = record {
  well_formed = (add-IsWellFormed bm h).3 xs;
  processed = refl;
}

notification_report-Counts : Counts add_notification_report_metrics
unfolding add_notification_report_metrics
notification_report-Counts bm xs h = record {
  well_formed = (add-IsWellFormed bm h).4 xs;
  processed = refl;
}

-- The number of records in a result.
abbrev pub result_size : ParseResult → ℕ
result_size r =
    length r.platform_metrics
    + length r.interface_metrics
    + length r.subinterface_metrics
    + length r.alarm_report_metrics
    + length r.notification_report_metrics

-- The number of records that a message carries: none if it has no GPB data or cannot be parsed.
abbrev pub message_size : (Bytes → Result ParseResult) → Bytes → ℕ
message_size parse [] = 0
message_size parse (b ∷ bytes) = elim (parse (b ∷ bytes)) [ ok r ↦ result_size r | err e ↦ 0 ]

add_result-Took :
    (r : ParseResult) (bm : FixedBufferManager)
    → IsWellFormed bm
    → Took bm (result_size r) (add_result r (bm, [])).0
unfolding add_result
add_result-Took r bm h =
    let t0 : Took bm 0 bm = record { well_formed = h; processed = omega arith } in
    let t1 =
      add_if_any-Took add_platform_metrics platform r.platform_metrics bm 0 (bm, []) platform-Counts
        t0 in
    let t2 =
      add_if_any-Took add_interface_metrics interface r.interface_metrics bm _ _ interface-Counts
        t1 in
    let t3 =
      add_if_any-Took add_subinterface_metrics subinterface r.subinterface_metrics bm _ _
        subinterface-Counts t2 in
    let t4 =
      add_if_any-Took add_alarm_report_metrics alarm_report r.alarm_report_metrics bm _ _
        alarm_report-Counts t3 in
    let t5 =
      add_if_any-Took add_notification_report_metrics notification_report
        r.notification_report_metrics bm _ _ notification_report-Counts t4 in
    record { well_formed = t5.well_formed; processed = t5.processed ∙ omega arith }

-- Whatever the parser answers, a message leaves a well-formed manager well formed and adds each of its
-- records to the count of processed records.
pub process_publish_args-Took :
    (parse : Bytes → Result ParseResult) (bytes : Bytes) (bm : FixedBufferManager)
    → IsWellFormed bm
    → Took bm (message_size parse bytes) (process_publish_args parse bytes bm).buffers.0
unfolding process_publish_args take_result
process_publish_args-Took parse [] bm h = record { well_formed = h; processed = omega arith }
process_publish_args-Took parse (b ∷ bytes) bm h =
    elim (parse (b ∷ bytes))
      as (λ p. Took bm (elim p [ ok r ↦ result_size r | err e ↦ 0 ]) (take_result p bm).buffers.0) [
        | ok r ↦ add_result-Took r bm h
        | err e ↦ record { well_formed = h; processed = omega arith }
      ]
