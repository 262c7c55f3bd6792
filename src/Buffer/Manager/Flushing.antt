-- ===== src/Buffer/Manager/Flushing.antt =====
-- The flushes, the writers and the shutdown of `FixedBufferManager`.
use ztelem.Prelude.{
  ℕ, suc, ◌+◌, Bool, true, false, List, [], ◌∷◌, ◌++◌, Option, none, some, take, drop, get_elem?,
}
use ztelem.Models.{Time}
use ztelem.Config.{Duration}
use ztelem.Buffer.Retry.{WriteError}
use ztelem.Buffer.Lane.{
  Progress, WriterStep, Environment, Flushed, returned, panicked, unfinished, start, run_writers,
  flush,
}
use ztelem.Buffer.Manager.{FixedBufferManager, FixedBufferStats}

pub data Kind : Type 0 where
  platform interface subinterface alarm_report notification_report : Kind

-- How a method that flushes ends: it returns an error or none, it panics, or it does not return.
pub data Run (E : Type 0) : Type 0 where
  ended : Option E → FixedBufferManager → Run E
  crashed : Run E
  running : Run E

-- What the writers have counted goes into the statistics.
abbrev pub counted {ℓ} : {V : Type ℓ} → Progress V → FixedBufferStats → FixedBufferStats
counted p s = record s {
  total_records_written = s.total_records_written + p.written;
  total_errors = s.total_errors + p.errors;
}

-- Puts the outcome of one lane back into the manager.
abbrev pub with_lane {ℓ} :
    {V : Type ℓ} → (Progress V → FixedBufferManager) → Flushed V → Run WriteError
with_lane put (returned err p) = ended err (put p)
with_lane put panicked = crashed
with_lane put unfinished = running

unfoldable pub flush_platform_metrics : Environment → FixedBufferManager → Run WriteError
flush_platform_metrics env bm =
    with_lane
      (λ p. record bm { platform = p.lane; next_call = p.next_call; stats = counted p bm.stats })
      (flush bm.writer_config env bm.next_call bm.platform)

unfoldable pub flush_interface_metrics : Environment → FixedBufferManager → Run WriteError
flush_interface_metrics env bm =
    with_lane
      (λ p. record bm { interface = p.lane; next_call = p.next_call; stats = counted p bm.stats })
      (flush bm.writer_config env bm.next_call bm.interface)

unfoldable pub flush_subinterface_metrics : Environment → FixedBufferManager → Run WriteError
flush_subinterface_metrics env bm =
    with_lane
      (λ p. record bm {
        subinterface = p.lane;
        next_call = p.next_call;
        stats = counted p bm.stats;
      })
      (flush bm.writer_config env bm.next_call bm.subinterface)

unfoldable pub flush_alarm_report_metrics : Environment → FixedBufferManager → Run WriteError
flush_alarm_report_metrics env bm =
    with_lane
      (λ p. record bm {
        alarm_report = p.lane;
        next_call = p.next_call;
        stats = counted p bm.stats;
      })
      (flush bm.writer_config env bm.next_call bm.alarm_report)

unfoldable pub flush_notification_report_metrics : Environment → FixedBufferManager → Run WriteError
flush_notification_report_metrics env bm =
    with_lane
      (λ p. record bm {
        notification_report = p.lane;
        next_call = p.next_call;
        stats = counted p bm.stats;
      })
      (flush bm.writer_config env bm.next_call bm.notification_report)

-- A step of one writer: it receives a batch, or writes one that it has received.
unfoldable pub platform_writer : Environment → WriterStep → FixedBufferManager → FixedBufferManager
platform_writer env step bm =
    let p = run_writers bm.writer_config env.db (step ∷ []) (start bm.next_call bm.platform) in
    record bm { platform = p.lane; next_call = p.next_call; stats = counted p bm.stats }

unfoldable pub interface_writer : Environment → WriterStep → FixedBufferManager → FixedBufferManager
interface_writer env step bm =
    let p = run_writers bm.writer_config env.db (step ∷ []) (start bm.next_call bm.interface) in
    record bm { interface = p.lane; next_call = p.next_call; stats = counted p bm.stats }

unfoldable pub subinterface_writer :
    Environment → WriterStep → FixedBufferManager → FixedBufferManager
subinterface_writer env step bm =
    let p = run_writers bm.writer_config env.db (step ∷ []) (start bm.next_call bm.subinterface) in
    record bm { subinterface = p.lane; next_call = p.next_call; stats = counted p bm.stats }

unfoldable pub alarm_report_writer :
    Environment → WriterStep → FixedBufferManager → FixedBufferManager
alarm_report_writer env step bm =
    let p = run_writers bm.writer_config env.db (step ∷ []) (start bm.next_call bm.alarm_report) in
    record bm { alarm_report = p.lane; next_call = p.next_call; stats = counted p bm.stats }

unfoldable pub notification_report_writer :
    Environment → WriterStep → FixedBufferManager → FixedBufferManager
notification_report_writer env step bm =
    let p =
      run_writers bm.writer_config env.db (step ∷ []) (start bm.next_call bm.notification_report) in
    record bm { notification_report = p.lane; next_call = p.next_call; stats = counted p bm.stats }

unfoldable pub flush_kind : Kind → Environment → FixedBufferManager → Run WriteError
flush_kind platform env bm = flush_platform_metrics env bm
flush_kind interface env bm = flush_interface_metrics env bm
flush_kind subinterface env bm = flush_subinterface_metrics env bm
flush_kind alarm_report env bm = flush_alarm_report_metrics env bm
flush_kind notification_report env bm = flush_notification_report_metrics env bm

-- The five goroutines of `FlushAll`, in the order in which they are started.
abbrev pub goroutines : List Kind
goroutines = platform ∷ interface ∷ subinterface ∷ alarm_report ∷ notification_report ∷ []

-- The order in which they end: each of `picks` is the place, among those that are left, of the one that
-- ends next. Those that no pick names end last.
unfoldable pub arrange : List ℕ → List Kind → List Kind
arrange [] ks = ks
arrange (n ∷ picks) ks = elim (get_elem? ks n) [
  | none ↦ arrange picks ks
  | some k ↦ k ∷ arrange picks (take n ks ++ drop (suc n) ks)
]

-- The error of a flush with the kind that its message names.
abbrev pub FlushError : Type 0
FlushError = Kind × WriteError

-- The goroutines work on lanes of their own. They are run one after the other, in the order in which
-- they end, which is also the order of `errChan`; `errs` are its errors so far.
unfoldable pub flush_kinds :
    List Kind
    → Environment
    → List FlushError
    → FixedBufferManager
    → List FlushError × Run FlushError
flush_kinds [] env errs bm = (errs, ended none bm)
flush_kinds (k ∷ ks) env errs bm = elim (flush_kind k env bm) [
  | ended none bm' ↦ flush_kinds ks env errs bm'
  | ended (some err) bm' ↦ flush_kinds ks env (errs ++ (k, err) ∷ []) bm'
  | crashed ↦ (errs, crashed)
  | running ↦ (errs, running)
]

abbrev pub first_error : List FlushError → Option FlushError
first_error [] = none
first_error (err ∷ errs) = some err

-- `errs[0]`, after the time and the duration of the flush are noted.
note_flush : List FlushError → Run FlushError → Time → Duration → Run FlushError
note_flush errs (ended err bm) now took =
    ended (first_error errs)
      (record bm { stats = record bm.stats { last_flush_time = now; flush_duration = took } })
note_flush errs crashed now took = crashed
note_flush errs running now took = running

unfoldable pub flush_all :
    List ℕ → Environment → Time → Duration → FixedBufferManager → Run FlushError
unfolding note_flush arrange
flush_all picks env now took bm =
    let (errs, r) = flush_kinds (arrange picks goroutines) env [] bm in note_flush errs r now took

-- `Stop` closes `stopChan`, if it is open, and flushes.
unfoldable pub stop_if :
    Bool → List ℕ → Environment → Time → Duration → FixedBufferManager → Run FlushError
stop_if true picks env now took bm = ended none bm
stop_if false picks env now took bm = flush_all picks env now took (record bm { stopped = true })

unfoldable pub stop : List ℕ → Environment → Time → Duration → FixedBufferManager → Run FlushError
unfolding stop_if
stop picks env now took bm = stop_if bm.stopped picks env now took bm
