-- ===== src/Buffer/Manager/Shutdown.antt =====
-- How `FlushAll` and `Stop` end, and what they leave in the buffers.
use ztelem.Prelude.{
  ℕ, zero, suc, Bool, true, List, [], ◌∷◌, ◌++◌, Option, none, some, ◌≡◌, refl, ap, sym, ◌∙◌, pos,
  take, drop, get_elem?, Bool-cases, Option-cases, inl, inr, ◌⊎◌, if◌then◌else◌,
}
use ztelem.Models.{Time}
use ztelem.Config.{Duration}
use ztelem.Buffer.Retry.{WriteError}
use ztelem.Buffer.Lane.{Environment}
use ztelem.Buffer.Manager.{FixedBufferManager, FixedBufferStats}
use ztelem.Buffer.Manager.Invariant.{IsWellFormed}
use ztelem.Buffer.Manager.Flushing.{
  Kind, platform, interface, subinterface, alarm_report, notification_report, Run, ended,
  goroutines, arrange, FlushError, flush_kind, flush_kinds, flush_all, stop, stop_if, first_error,
}
use ztelem.Buffer.Manager.Ends.{
  buffered, Among, Ends, platform-Ends, interface-Ends, subinterface-Ends, alarm_report-Ends,
  notification_report-Ends,
}

flush_kind-Ends :
    (k : Kind) (env : Environment) (b : ℕ) (bm : FixedBufferManager)
    → IsWellFormed bm
    → bm.writer_config.max_batch_size ≡ pos (suc b)
    → Ends (k ∷ []) bm (flush_kind k env bm)
unfolding flush_kind
flush_kind-Ends platform env b bm h s = platform-Ends env b bm h s
flush_kind-Ends interface env b bm h s = interface-Ends env b bm h s
flush_kind-Ends subinterface env b bm h s = subinterface-Ends env b bm h s
flush_kind-Ends alarm_report env b bm h s = alarm_report-Ends env b bm h s
flush_kind-Ends notification_report env b bm h s = notification_report-Ends env b bm h s

-- The flushes of a list of kinds end in `ended none`, with their errors listed apart.
record AllEnd (order : List Kind) (bm : FixedBufferManager) (r : List FlushError × Run FlushError)
    : Type 0 where
  errs : List FlushError
  after : FixedBufferManager
  ends : r ≡ (errs, ended none after)
  well_formed : IsWellFormed after
  same_config : after.writer_config ≡ bm.writer_config
  same_stopped : after.stopped ≡ bm.stopped
  empty : (j : Kind) → Among j order ⊎ (buffered j bm ≡ 0) → buffered j after ≡ 0

next_empty :
    (k : Kind) (ks : List Kind) (bm middle after : FixedBufferManager)
    → ((j : Kind) → Among j (k ∷ []) ⊎ (buffered j bm ≡ 0) → buffered j middle ≡ 0)
    → ((j : Kind) → Among j ks ⊎ (buffered j middle ≡ 0) → buffered j after ≡ 0)
    → (j : Kind) → Among j (k ∷ ks) ⊎ (buffered j bm ≡ 0)
    → buffered j after ≡ 0
next_empty k ks bm middle after one rest j (inl (inl e)) = rest j (inr (one j (inl (inl e))))
next_empty k ks bm middle after one rest j (inl (inr a)) = rest j (inl a)
next_empty k ks bm middle after one rest j (inr p) = rest j (inr (one j (inr p)))

AllEnd-next :
    (k : Kind) (ks : List Kind) (bm : FixedBufferManager) {r : Run WriteError}
    {all : List FlushError × Run FlushError} (one : Ends (k ∷ []) bm r)
    → AllEnd ks one.after all
    → AllEnd (k ∷ ks) bm all
AllEnd-next k ks bm one rest = record {
  errs = rest.errs;
  after = rest.after;
  ends = rest.ends;
  well_formed = rest.well_formed;
  same_config = rest.same_config ∙ one.same_config;
  same_stopped = rest.same_stopped ∙ one.same_stopped;
  empty = next_empty k ks bm one.after rest.after one.empty rest.empty;
}

flush_kinds-AllEnd :
    (order : List Kind) (env : Environment) (b : ℕ) (errs : List FlushError)
    (bm : FixedBufferManager)
    → IsWellFormed bm
    → bm.writer_config.max_batch_size ≡ pos (suc b)
    → AllEnd order bm (flush_kinds order env errs bm)
unfolding flush_kinds
flush_kinds-AllEnd [] env b errs bm h s = record {
  errs = errs;
  after = bm;
  ends = refl;
  well_formed = h;
  same_config = refl;
  same_stopped = refl;
  empty = λ j. elim [ inl a ↦ absurd a | inr p ↦ p ];
}
flush_kinds-AllEnd (k ∷ ks) env b errs bm h s =
    let one = flush_kind-Ends k env b bm h s in
    let s' = ap (λ c. c.max_batch_size) one.same_config ∙ s in
    elim (Option-cases one.err) [
      | inl q ↦
          rw (one.ends, q, flush_kinds)
            (AllEnd-next k ks bm one
              (flush_kinds-AllEnd ks env b errs one.after one.well_formed s'))
      | inr (err, q) ↦
          rw (one.ends, q, flush_kinds)
            (AllEnd-next k ks bm one
              (flush_kinds-AllEnd ks env b (errs ++ (k, err) ∷ []) one.after one.well_formed s'))
    ]

-- The statistics and the closed channel are no part of the invariant, nor of the buffers.
IsWellFormed-stats :
    (bm : FixedBufferManager) (s : FixedBufferStats)
    → IsWellFormed bm
    → IsWellFormed (record bm { stats = s })
IsWellFormed-stats bm s h = record {
  platform_keyed = h.platform_keyed;
  interface_keyed = h.interface_keyed;
  subinterface_keyed = h.subinterface_keyed;
  alarm_report_keyed = h.alarm_report_keyed;
  notification_report_keyed = h.notification_report_keyed;
}

buffered-stats :
    (j : Kind) (bm : FixedBufferManager) (s : FixedBufferStats)
    → buffered j (record bm { stats = s }) ≡ buffered j bm
buffered-stats platform bm s = refl
buffered-stats _ bm s = refl

IsWellFormed-stopped :
    (bm : FixedBufferManager) → IsWellFormed bm → IsWellFormed (record bm { stopped = true })
IsWellFormed-stopped bm h = record {
  platform_keyed = h.platform_keyed;
  interface_keyed = h.interface_keyed;
  subinterface_keyed = h.subinterface_keyed;
  alarm_report_keyed = h.alarm_report_keyed;
  notification_report_keyed = h.notification_report_keyed;
}

-- Whatever the picks, every goroutine ends.
Among-take_out :
    (j k : Kind) (n : ℕ) (ks : List Kind)
    → get_elem? ks n ≡ some k
    → Among j ks
    → Among j (k ∷ take n ks ++ drop (suc n) ks)
Among-take_out j k n [] e a = absurd a
Among-take_out j k zero (l ∷ ks) e (inl q) = let r : l ≡ k = cc e in inl (q ∙ r)
Among-take_out j k zero (l ∷ ks) e (inr a) = inr a
Among-take_out j k (suc n) (l ∷ ks) e (inl q) = inr (inl q)
Among-take_out j k (suc n) (l ∷ ks) e (inr a) = elim (Among-take_out j k n ks e a) [
  | inl q ↦ inl q
  | inr rest ↦ inr (inr rest)
]

Among-arrange :
    (j : Kind) (picks : List ℕ) (ks : List Kind) → Among j ks → Among j (arrange picks ks)
unfolding arrange
Among-arrange j [] ks a = a
Among-arrange j (n ∷ picks) ks a = elim (Option-cases (get_elem? ks n)) [
  | inl e ↦ rw (e, arrange) (Among-arrange j picks ks a)
  | inr (k, e) ↦
      rw (e, arrange)
        (elim (Among-take_out j k n ks e a) [
          | inl q ↦ inl q
          | inr rest ↦ inr (Among-arrange j picks (take n ks ++ drop (suc n) ks) rest)
        ])
]

Among-goroutines : (j : Kind) → Among j goroutines
Among-goroutines platform = inl refl
Among-goroutines interface = inr (inl refl)
Among-goroutines subinterface = inr (inr (inl refl))
Among-goroutines alarm_report = inr (inr (inr (inl refl)))
Among-goroutines notification_report = inr (inr (inr (inr (inl refl))))

-- `FlushAll` ends, in a well-formed manager with the same settings, as much stopped as before, with
-- nothing buffered of any kind.
pub record Empties (bm : FixedBufferManager) (r : Run FlushError) : Type 0 where
  err : Option FlushError
  after : FixedBufferManager
  ends : r ≡ ended err after
  well_formed : IsWellFormed after
  same_config : after.writer_config ≡ bm.writer_config
  same_stopped : after.stopped ≡ bm.stopped
  empty : (j : Kind) → buffered j after ≡ 0

-- With a positive batch size `FlushAll` ends, in whatever order its goroutines end and whatever the
-- writers and the database do, in a well-formed manager with the same settings, neither stopped nor
-- restarted by it, and leaves nothing buffered of any of the five kinds, also where it returns an error.
pub flush_all-Empties :
    (picks : List ℕ) (env : Environment) (now : Time) (took : Duration) (b : ℕ)
    (bm : FixedBufferManager)
    → IsWellFormed bm
    → bm.writer_config.max_batch_size ≡ pos (suc b)
    → Empties bm (flush_all picks env now took bm)
unfolding flush_all
flush_all-Empties picks env now took b bm h s =
    let a = flush_kinds-AllEnd (arrange picks goroutines) env b [] bm h s in
    let stats' = record a.after.stats { last_flush_time = now; flush_duration = took } in
    rw a.ends (record {
      err = first_error a.errs;
      after = record a.after { stats = stats' };
      ends = refl;
      well_formed = IsWellFormed-stats a.after stats' a.well_formed;
      same_config = a.same_config;
      same_stopped = a.same_stopped;
      empty = λ j.
          buffered-stats j a.after stats'
          ∙ a.empty j (inl (Among-arrange j picks goroutines (Among-goroutines j)));
    })

-- `Stop` ends, in a well-formed manager that is stopped, which nothing is buffered in if it was not
-- stopped before, and which every further `Stop` leaves as it is, without an error.
pub record Stops (bm : FixedBufferManager) (r : Run FlushError) : Type 0 where
  err : Option FlushError
  after : FixedBufferManager
  ends : r ≡ ended err after
  well_formed : IsWellFormed after
  closed : after.stopped ≡ true
  empty : (j : Kind) → buffered j after ≡ (if bm.stopped then buffered j bm else 0)
  again :
      (picks : List ℕ) (env : Environment) (now : Time) (took : Duration)
      → stop picks env now took after ≡ ended none after

stop-closed :
    (bm : FixedBufferManager) (picks : List ℕ) (env : Environment) (now : Time) (took : Duration)
    → bm.stopped ≡ true
    → stop picks env now took bm ≡ ended none bm
unfolding stop
stop-closed bm picks env now took e = rw e refl

-- With a positive batch size `Stop` ends, whatever the writers and the database do, in a well-formed
-- manager of which `stopChan` is closed. The first `Stop` leaves nothing buffered of any kind, also
-- where it returns an error; a `Stop` of a stopped manager leaves the buffers as they are. Every `Stop`
-- after it returns no error and changes nothing.
pub stop-Stops :
    (picks : List ℕ) (env : Environment) (now : Time) (took : Duration) (b : ℕ)
    (bm : FixedBufferManager)
    → IsWellFormed bm
    → bm.writer_config.max_batch_size ≡ pos (suc b)
    → Stops bm (stop picks env now took bm)
unfolding stop
stop-Stops picks env now took b bm h s = elim (Bool-cases bm.stopped) [
  | inl e ↦ rw (stop-closed bm picks env now took e) (record {
    err = none;
    after = bm;
    ends = refl;
    well_formed = h;
    closed = e;
    empty = λ j. sym (ap (λ (c : Bool). if c then buffered j bm else 0) e);
    again = λ picks' env' now' took'. stop-closed bm picks' env' now' took' e;
  })
  | inr e ↦
      let closed = record bm { stopped = true } in
      let f = flush_all-Empties picks env now took b closed (IsWellFormed-stopped bm h) s in
      let flushes : stop picks env now took bm ≡ ended f.err f.after =
        ap (λ (c : Bool). stop_if c picks env now took bm) e ∙ f.ends in
      rw flushes (record {
        err = f.err;
        after = f.after;
        ends = refl;
        well_formed = f.well_formed;
        closed = f.same_stopped;
        empty = λ j. f.empty j ∙ sym (ap (λ (c : Bool). if c then buffered j bm else 0) e);
        again = λ picks' env' now' took'. stop-closed f.after picks' env' now' took' f.same_stopped;
      })
]
