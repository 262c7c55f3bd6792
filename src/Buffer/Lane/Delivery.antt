-- ===== src/Buffer/Lane/Delivery.antt =====
-- Where the records of a flush go, while writers work and the database answers late or never.
use ztelem.Prelude.{
  ℕ, zero, suc, ◌+◌, ◌≤◌, Bool, List, [], ◌∷◌, ◌++◌, none, some, ◌≡◌, ◌≢◌, refl, ◌∙◌, arith, length,
  take, replicate, get_elem?, length-append, Option-cases, inl, inr, is_some, if◌then◌else◌,
  pos_part,
}
use ztelem.Config.{DatabaseWriterConfig}
use ztelem.Buffer.Retry.{Outcome, timed_out, WriteError, Written, write_with_retry}
use ztelem.Buffer.Retry.Laws.{InTime, write_with_retry-Tried}
use ztelem.Buffer.Lane.Weights.{
  weight, weights, held, weight-append, weights-append, weights-split, weights-get_elem,
  weights-copies,
}
use ztelem.Buffer.Lane.{
  Progress, WriterStep, receives, finishes, receive, send, wrote, count_write, take_out, work,
  run_writers,
}

-- No call of the database is answered after its deadline.
abbrev pub Punctual : (ℕ → Outcome) → Type 0
Punctual db = (n : ℕ) (b : Bool) → db n ≢ timed_out b

Punctual-InTime : (db : ℕ → Outcome) (call n : ℕ) → Punctual db → InTime db call n
Punctual-InTime db call zero h = tt
Punctual-InTime db call (suc n) h = (h call, Punctual-InTime db (suc call) n h)

-- What a write comes to for one batch: at least one copy if it is done, and without late answers one
-- copy if it is done and none if it is not.
pub record Landed (db : ℕ → Outcome) (w : Written) : Type 0 where
  pub at_least : w.error ≡ none → 1 ≤ w.copies
  pub exactly : Punctual db → w.copies ≡ (if is_some w.error then 0 else 1)

pub write-Landed :
    (cfg : DatabaseWriterConfig) (db : ℕ → Outcome) (call : ℕ)
    → Landed db (write_with_retry cfg db call)
write-Landed cfg db call =
    let t = write_with_retry-Tried cfg db call in
    record {
      at_least = λ e. omega (arith, t.stored e);
      exactly =
          λ h. ground (arith, t.once (Punctual-InTime db call (pos_part cfg.retry_attempts) h));
    }

module _ {ℓ} {V : Type ℓ} where
  -- From `before` to `after` the records `handed` have come in and the batches `dropped` have been given up
  -- by writers, each counted as an error. Nothing else is lost; what lands more than once is there more
  -- often, and without late answers nothing does.
  pub record Moved (db : ℕ → Outcome) (before after : Progress V) (handed : List V) : Type ℓ where
    pub dropped : List (List V)
    pub kept :
        (w : V → ℕ) → held w before.lane + weight w handed ≤ held w after.lane + weights w dropped
    pub exact :
        Punctual db
        → (w : V → ℕ) → held w before.lane + weight w handed ≡ held w after.lane + weights w dropped
    pub reported : after.errors ≡ before.errors + length dropped
    pub same_buffer : after.lane.buffer ≡ before.lane.buffer

  pub Moved-refl : (db : ℕ → Outcome) (p : Progress V) → Moved db p p []
  Moved-refl db p = record {
    dropped = [];
    kept = λ w. omega arith;
    exact = λ h w. omega arith;
    reported = omega arith;
    same_buffer = refl;
  }

  pub Moved-trans :
      (db : ℕ → Outcome) (a b c : Progress V) (xs ys : List V)
      → Moved db a b xs
      → Moved db b c ys
      → Moved db a c (xs ++ ys)
  Moved-trans db a b c xs ys m n = record {
    dropped = m.dropped ++ n.dropped;
    kept = λ w.
        omega
          (arith, m.kept w, n.kept w, weight-append w xs ys, weights-append w m.dropped n.dropped);
    exact = λ h w. omega (
      arith,
      m.exact h w,
      n.exact h w,
      weight-append w xs ys,
      weights-append w m.dropped n.dropped,
    );
    reported = omega (arith, m.reported, n.reported, length-append m.dropped n.dropped);
    same_buffer = n.same_buffer ∙ m.same_buffer;
  }

  receive-Moved : (db : ℕ → Outcome) (p : Progress V) → Moved db p (receive p) []
  unfolding receive
  receive-Moved db p =
      let c = p.lane.channel in
      let total : (w : V → ℕ) → held w p.lane ≡ held w (receive p).lane =
        λ w. omega (arith, weights-append w p.lane.in_flight (take 1 c), weights-split w 1 c) in
      record {
        dropped = [];
        kept = λ w. omega (arith, total w);
        exact = λ h w. omega (arith, total w);
        reported = omega arith;
        same_buffer = refl;
      }

  pub send-Moved : (db : ℕ → Outcome) (b : List V) (p : Progress V) → Moved db p (send b p) b
  unfolding send
  send-Moved db b p = record {
    dropped = [];
    kept = λ w. omega (arith, weights-append w p.lane.channel (b ∷ []));
    exact = λ h w. omega (arith, weights-append w p.lane.channel (b ∷ []));
    reported = omega arith;
    same_buffer = refl;
  }

  -- A write of the flush itself.
  pub wrote-Moved :
      (db : ℕ → Outcome) (r : Written) (b : List V) (p : Progress V)
      → Landed db r
      → r.error ≡ none
      → Moved db p (wrote r b p) b
  unfolding wrote
  wrote-Moved db r b p l e = record {
    dropped = [];
    kept = λ w. omega (
      arith,
      weights-append w p.lane.stored (replicate r.copies b),
      (weights-copies w r.copies b).0 (l.at_least e),
    );
    exact = λ h w. omega (
      arith,
      weights-append w p.lane.stored (replicate r.copies b),
      (weights-copies w r.copies b).1 (l.exactly h ∙ rw e refl),
    );
    reported = omega arith;
    same_buffer = refl;
  }

  pub failed-Moved :
      (db : ℕ → Outcome) (r : Written) (b : List V) (p : Progress V) (err : WriteError)
      → Landed db r
      → r.error ≡ some err
      → Moved db p (wrote r b p) []
  unfolding wrote
  failed-Moved db r b p err l e = record {
    dropped = [];
    kept = λ w. omega (arith, weights-append w p.lane.stored (replicate r.copies b));
    exact = λ h w. omega (
      arith,
      weights-append w p.lane.stored (replicate r.copies b),
      (weights-copies w r.copies b).2 (l.exactly h ∙ rw e refl),
    );
    reported = omega arith;
    same_buffer = refl;
  }

  -- A writer that finishes a batch.
  taken :
      (w : V → ℕ) (n : ℕ) (p : Progress V) (b : List V)
      → get_elem? p.lane.in_flight n ≡ some b
      → held w (take_out n p).lane + weight w b ≡ held w p.lane
  unfolding take_out
  taken w n p b e = omega (arith, weights-get_elem w n p.lane.in_flight b e)

  finished-Moved :
      (db : ℕ → Outcome) (r : Written) (n : ℕ) (b : List V) (p : Progress V)
      → Landed db r
      → get_elem? p.lane.in_flight n ≡ some b
      → Moved db p (count_write r.error (length b) (wrote r b (take_out n p))) []
  unfolding count_write wrote
  finished-Moved db r n b p l e = elim (Option-cases r.error) [
    | inl q ↦
        let m = wrote-Moved db r b (take_out n p) l q in
        rw (q, count_write)
          (record {
            dropped = m.dropped;
            kept = λ w. omega (arith, m.kept w, taken w n p b e);
            exact = λ h w. omega (arith, m.exact h w, taken w n p b e);
            reported = unfold take_out in m.reported;
            same_buffer = unfold take_out in m.same_buffer;
          })
    | inr (err, q) ↦
        let m = failed-Moved db r b (take_out n p) err l q in
        rw (q, count_write)
          (record {
            dropped = b ∷ m.dropped;
            kept = λ w. omega (arith, m.kept w, taken w n p b e);
            exact = λ h w. omega (arith, m.exact h w, taken w n p b e);
            reported = unfold take_out in omega (arith, m.reported);
            same_buffer = unfold take_out in m.same_buffer;
          })
  ]

  work-Moved :
      (cfg : DatabaseWriterConfig) (db : ℕ → Outcome) (n : ℕ) (p : Progress V)
      → Moved db p (work cfg db n p) []
  unfolding work
  work-Moved cfg db n p = elim (Option-cases (get_elem? p.lane.in_flight n)) [
    | inl e ↦ rw (e, work) (Moved-refl db p)
    | inr (b, e) ↦
        rw (e, work)
          (finished-Moved db (write_with_retry cfg db p.next_call) n b p
            (write-Landed cfg db p.next_call) e)
  ]

  pub run_writers-Moved :
      (cfg : DatabaseWriterConfig) (db : ℕ → Outcome) (steps : List WriterStep) (p : Progress V)
      → Moved db p (run_writers cfg db steps p) []
  unfolding run_writers
  run_writers-Moved cfg db [] p = Moved-refl db p
  run_writers-Moved cfg db (receives ∷ steps) p =
      Moved-trans db p (receive p) (run_writers cfg db steps (receive p)) [] [] (receive-Moved db p)
        (run_writers-Moved cfg db steps (receive p))
  run_writers-Moved cfg db (finishes n ∷ steps) p =
      Moved-trans db p (work cfg db n p) (run_writers cfg db steps (work cfg db n p)) [] []
        (work-Moved cfg db n p) (run_writers-Moved cfg db steps (work cfg db n p))
