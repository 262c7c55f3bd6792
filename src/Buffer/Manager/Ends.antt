-- ===== src/Buffer/Manager/Ends.antt =====
-- How the flush of one kind ends, and what it leaves.
use ztelem.Prelude.{
  ℕ, suc, List, [], ◌∷◌, Option, ◌≡◌, refl, ap, ◌∙◌, sym, subst, pos, inl, inr, ◌⊎◌,
}
use ztelem.Models.{
  PlatformMetric, InterfaceMetric, SubinterfaceMetric, AlarmReportMetric, NotificationReportMetric,
}
use ztelem.Buffer.Sharded
use ztelem.Buffer.Sharded.{new_sharded_map}
use ztelem.Buffer.Sharded.Laws.{len-new}
use ztelem.Buffer.Keys.{platform_key, interface_key, subinterface_key, alarm_key, notification_key}
use ztelem.Buffer.Retry.{WriteError}
use ztelem.Buffer.Lane.{Environment}
use ztelem.Buffer.Lane.Buffering.{IsKeyed}
use ztelem.Buffer.Lane.Flush.{flush-Delivers}
use ztelem.Buffer.Manager.{FixedBufferManager}
use ztelem.Buffer.Manager.Invariant.{IsWellFormed, new-IsKeyed}
use ztelem.Buffer.Manager.Flushing.{
  Kind, platform, interface, subinterface, alarm_report, notification_report, Run, ended, counted,
  flush_platform_metrics, flush_interface_metrics, flush_subinterface_metrics,
  flush_alarm_report_metrics, flush_notification_report_metrics,
}

-- How many records of a kind are buffered.
abbrev pub buffered : Kind → FixedBufferManager → ℕ
buffered platform bm = Sharded.len bm.platform.buffer
buffered interface bm = Sharded.len bm.interface.buffer
buffered subinterface bm = Sharded.len bm.subinterface.buffer
buffered alarm_report bm = Sharded.len bm.alarm_report.buffer
buffered notification_report bm = Sharded.len bm.notification_report.buffer

abbrev pub Among : Kind → List Kind → Type 0
Among j [] = ⊥
Among j (k ∷ ks) = (j ≡ k) ⊎ Among j ks

elsewhere : {P : Type 0} (j k : Kind) → (j ≡ k → ⊥) → Among j (k ∷ []) ⊎ P → P
elsewhere j k ne (inl (inl e)) = absurd (ne e)
elsewhere j k ne (inl (inr a)) = absurd a
elsewhere j k ne (inr p) = p

-- A flush that ends, for a manager that goes on well formed, with the same settings and no more and no less
-- stopped than before, with nothing buffered of the kinds in `emptied`, nor of those of which nothing was buffered before.
pub record Ends (emptied : List Kind) (bm : FixedBufferManager) (r : Run WriteError) : Type 0 where
  pub err : Option WriteError
  pub after : FixedBufferManager
  pub ends : r ≡ ended err after
  pub well_formed : IsWellFormed after
  pub same_config : after.writer_config ≡ bm.writer_config
  pub same_stopped : after.stopped ≡ bm.stopped
  pub empty : (j : Kind) → Among j emptied ⊎ (buffered j bm ≡ 0) → buffered j after ≡ 0

module _ (env : Environment) (b : ℕ) (bm : FixedBufferManager) (h : IsWellFormed bm)
    (size : bm.writer_config.max_batch_size ≡ pos (suc b)) where
  pub platform-Ends : Ends (platform ∷ []) bm (flush_platform_metrics env bm)
  unfolding flush_platform_metrics
  platform-Ends =
      let (d, e) =
        flush-Delivers bm.writer_config env b bm.next_call bm.platform h.platform_keyed.sharded
          size in
      let empty : Sharded.len d.after.lane.buffer ≡ 0 = ap Sharded.len e ∙ len-new PlatformMetric in
      rw d.returns (record {
        err = d.err;
        after = record bm {
          platform = d.after.lane;
          next_call = d.after.next_call;
          stats = counted d.after bm.stats;
        };
        ends = refl;
        well_formed = record {
          platform_keyed = subst (IsKeyed platform_key) (sym e) (new-IsKeyed platform_key);
          interface_keyed = h.interface_keyed;
          subinterface_keyed = h.subinterface_keyed;
          alarm_report_keyed = h.alarm_report_keyed;
          notification_report_keyed = h.notification_report_keyed;
        };
        same_config = refl;
        same_stopped = refl;
        empty = elim [
          | platform ↦ λ _. empty
          | interface ↦ elsewhere interface platform (λ e. cc)
          | subinterface ↦ elsewhere subinterface platform (λ e. cc)
          | alarm_report ↦ elsewhere alarm_report platform (λ e. cc)
          | notification_report ↦ elsewhere notification_report platform (λ e. cc)
        ];
      })

  pub interface-Ends : Ends (interface ∷ []) bm (flush_interface_metrics env bm)
  unfolding flush_interface_metrics
  interface-Ends =
      let (d, e) =
        flush-Delivers bm.writer_config env b bm.next_call bm.interface h.interface_keyed.sharded
          size in
      let empty : Sharded.len d.after.lane.buffer ≡ 0 =
        ap Sharded.len e ∙ len-new InterfaceMetric in
      rw d.returns (record {
        err = d.err;
        after = record bm {
          interface = d.after.lane;
          next_call = d.after.next_call;
          stats = counted d.after bm.stats;
        };
        ends = refl;
        well_formed = record {
          platform_keyed = h.platform_keyed;
          interface_keyed = subst (IsKeyed interface_key) (sym e) (new-IsKeyed interface_key);
          subinterface_keyed = h.subinterface_keyed;
          alarm_report_keyed = h.alarm_report_keyed;
          notification_report_keyed = h.notification_report_keyed;
        };
        same_config = refl;
        same_stopped = refl;
        empty = elim [
          | platform ↦ elsewhere platform interface (λ e. cc)
          | interface ↦ λ _. empty
          | subinterface ↦ elsewhere subinterface interface (λ e. cc)
          | alarm_report ↦ elsewhere alarm_report interface (λ e. cc)
          | notification_report ↦ elsewhere notification_report interface (λ e. cc)
        ];
      })

  pub subinterface-Ends : Ends (subinterface ∷ []) bm (flush_subinterface_metrics env bm)
  unfolding flush_subinterface_metrics
  subinterface-Ends =
      let (d, e) =
        flush-Delivers bm.writer_config env b bm.next_call bm.subinterface
          h.subinterface_keyed.sharded size in
      let empty : Sharded.len d.after.lane.buffer ≡ 0 =
        ap Sharded.len e ∙ len-new SubinterfaceMetric in
      rw d.returns (record {
        err = d.err;
        after = record bm {
          subinterface = d.after.lane;
          next_call = d.after.next_call;
          stats = counted d.after bm.stats;
        };
        ends = refl;
        well_formed = record {
          platform_keyed = h.platform_keyed;
          interface_keyed = h.interface_keyed;
          subinterface_keyed =
              subst (IsKeyed subinterface_key) (sym e) (new-IsKeyed subinterface_key);
          alarm_report_keyed = h.alarm_report_keyed;
          notification_report_keyed = h.notification_report_keyed;
        };
        same_config = refl;
        same_stopped = refl;
        empty = elim [
          | platform ↦ elsewhere platform subinterface (λ e. cc)
          | interface ↦ elsewhere interface subinterface (λ e. cc)
          | subinterface ↦ λ _. empty
          | alarm_report ↦ elsewhere alarm_report subinterface (λ e. cc)
          | notification_report ↦ elsewhere notification_report subinterface (λ e. cc)
        ];
      })

  pub alarm_report-Ends : Ends (alarm_report ∷ []) bm (flush_alarm_report_metrics env bm)
  unfolding flush_alarm_report_metrics
  alarm_report-Ends =
      let (d, e) =
        flush-Delivers bm.writer_config env b bm.next_call bm.alarm_report
          h.alarm_report_keyed.sharded size in
      let empty : Sharded.len d.after.lane.buffer ≡ 0 =
        ap Sharded.len e ∙ len-new AlarmReportMetric in
      rw d.returns (record {
        err = d.err;
        after = record bm {
          alarm_report = d.after.lane;
          next_call = d.after.next_call;
          stats = counted d.after bm.stats;
        };
        ends = refl;
        well_formed = record {
          platform_keyed = h.platform_keyed;
          interface_keyed = h.interface_keyed;
          subinterface_keyed = h.subinterface_keyed;
          alarm_report_keyed = subst (IsKeyed alarm_key) (sym e) (new-IsKeyed alarm_key);
          notification_report_keyed = h.notification_report_keyed;
        };
        same_config = refl;
        same_stopped = refl;
        empty = elim [
          | platform ↦ elsewhere platform alarm_report (λ e. cc)
          | interface ↦ elsewhere interface alarm_report (λ e. cc)
          | subinterface ↦ elsewhere subinterface alarm_report (λ e. cc)
          | alarm_report ↦ λ _. empty
          | notification_report ↦ elsewhere notification_report alarm_report (λ e. cc)
        ];
      })

  pub notification_report-Ends :
      Ends (notification_report ∷ []) bm (flush_notification_report_metrics env bm)
  unfolding flush_notification_report_metrics
  notification_report-Ends =
      let (d, e) =
        flush-Delivers bm.writer_config env b bm.next_call bm.notification_report
          h.notification_report_keyed.sharded size in
      let empty : Sharded.len d.after.lane.buffer ≡ 0 =
        ap Sharded.len e ∙ len-new NotificationReportMetric in
      rw d.returns (record {
        err = d.err;
        after = record bm {
          notification_report = d.after.lane;
          next_call = d.after.next_call;
          stats = counted d.after bm.stats;
        };
        ends = refl;
        well_formed = record {
          platform_keyed = h.platform_keyed;
          interface_keyed = h.interface_keyed;
          subinterface_keyed = h.subinterface_keyed;
          alarm_report_keyed = h.alarm_report_keyed;
          notification_report_keyed =
              subst (IsKeyed notification_key) (sym e) (new-IsKeyed notification_key);
        };
        same_config = refl;
        same_stopped = refl;
        empty = elim [
          | platform ↦ elsewhere platform notification_report (λ e. cc)
          | interface ↦ elsewhere interface notification_report (λ e. cc)
          | subinterface ↦ elsewhere subinterface notification_report (λ e. cc)
          | alarm_report ↦ elsewhere alarm_report notification_report (λ e. cc)
          | notification_report ↦ λ _. empty
        ];
      })
