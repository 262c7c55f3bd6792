-- ===== src/Buffer/Lane/Unreceived.antt =====
-- A flush after the writers have ended.
use ztelem.Prelude.{
  ℕ, zero, suc, ◌+◌, ◌-◌, ◌≤◌, ◌<◌, true, List, [], ◌∷◌, none, ◌≡◌, refl, ap, subst, arith, ltb,
  pos, length, length-append, Bool-cases, inl, inr,
}
use ztelem.Config.{DatabaseWriterConfig}
use ztelem.Buffer.Sharded
use ztelem.Buffer.Sharded.Index.{IsSharded}
use ztelem.Buffer.Sharded.Drain.{swap_all_drains, swap_all_empties}
use ztelem.Buffer.Lane.{
  Lane, Progress, Environment, Flushed, returned, start, send, run_writers, slice, slice_end,
  flush_loop, flush_metrics, flush, channel_capacity,
}

module _ {ℓ} {V : Type ℓ} where
  -- The flush reports success without a call of the database, and nothing is stored or received.
  pub record Strands (before : Progress V) (r : Flushed V) : Type ℓ where
    pub after : Progress V
    pub returns : r ≡ returned none after
    pub no_call : after.next_call ≡ before.next_call
    pub none_stored : after.lane.stored ≡ before.lane.stored
    pub none_received : after.lane.in_flight ≡ before.lane.in_flight
    pub same_buffer : after.lane.buffer ≡ before.lane.buffer

  Strands-refl : (p : Progress V) → Strands p (returned none p)
  Strands-refl p = record {
    after = p;
    returns = refl;
    no_call = refl;
    none_stored = refl;
    none_received = refl;
    same_buffer = refl;
  }

  Strands-send :
      (p : Progress V) (batch : List V) {r : Flushed V} → Strands (send batch p) r → Strands p r
  unfolding send
  Strands-send p batch next = record {
    after = next.after;
    returns = next.returns;
    no_call = next.no_call;
    none_stored = next.none_stored;
    none_received = next.none_received;
    same_buffer = next.same_buffer;
  }

  length-send :
      (batch : List V) (p : Progress V)
      → length (send batch p).lane.channel ≡ suc (length p.lane.channel)
  unfolding send
  length-send batch p = omega (arith, length-append p.lane.channel (batch ∷ []))

  idle_writers :
      (cfg : DatabaseWriterConfig) (env : Environment) (j : ℕ) (p : Progress V)
      → env.writers j ≡ []
      → run_writers cfg env.db (env.writers j) p ≡ p
  unfolding run_writers
  idle_writers cfg env j p e = rw e refl

  flush_loop-Strands :
      (fuel : ℕ) (cfg : DatabaseWriterConfig) (env : Environment) (b : ℕ) (metrics : List V)
      (i j : ℕ) (p : Progress V)
      → ((n : ℕ) → env.writers n ≡ [])
      → length metrics - i < fuel
      → length p.lane.channel + (length metrics - i) ≤ channel_capacity
      → Strands p (flush_loop fuel cfg env (suc b) metrics i j p)
  unfolding flush_loop
  flush_loop-Strands zero cfg env b metrics i j p idle h room = absurd (omega arith)
  flush_loop-Strands (suc fuel) cfg env b metrics i j p idle h room =
      let batch = slice i (slice_end i (suc b) metrics) metrics in
      let meanwhile = run_writers cfg env.db (env.writers j) p in
      let same = idle_writers cfg env j p (idle j) in
      let sent = send batch meanwhile in
      elim (Bool-cases (ltb i (length metrics))) [
        | inr e ↦ rw (e, flush_loop) (Strands-refl p)
        | inl e ↦
            let lt : i < length metrics = ground arith in
            let count : length meanwhile.lane.channel ≡ length p.lane.channel =
              ap (λ (q : Progress V). length q.lane.channel) same in
            let fits : ltb (length meanwhile.lane.channel) channel_capacity ≡ true = ground arith in
            rw (e, fits, flush_loop)
              (subst
                (λ q. Strands q (flush_loop fuel cfg env (suc b) metrics (i + suc b) (suc j) sent))
                same
                (Strands-send meanwhile batch (
                  flush_loop-Strands fuel cfg env b metrics (i + suc b) (suc j) sent idle
                    (omega arith) (omega (arith, length-send batch meanwhile)))))
      ]

  flush_metrics-Strands :
      (fuel : ℕ) (cfg : DatabaseWriterConfig) (env : Environment) (b : ℕ) (metrics : List V)
      (p : Progress V)
      → cfg.max_batch_size ≡ pos (suc b)
      → ((n : ℕ) → env.writers n ≡ [])
      → length metrics < fuel
      → length p.lane.channel + length metrics ≤ channel_capacity
      → Strands p (flush_metrics fuel cfg env metrics p)
  unfolding flush_metrics
  flush_metrics-Strands fuel cfg env b [] p e idle h room = Strands-refl p
  flush_metrics-Strands fuel cfg env b (m ∷ metrics) p e idle h room =
      rw (e, flush_metrics)
        (flush_loop-Strands fuel cfg env b (m ∷ metrics) 0 0 p idle (omega arith) (omega arith))

  -- Where no writer receives or finishes anything any more, as after the writers have seen `stopChan`
  -- closed and ended, a flush whose records fit into the channel reports no error and takes the records
  -- out of the buffer, but calls the database for none of them: nothing more is stored.
  pub flush-Strands :
      (cfg : DatabaseWriterConfig) (env : Environment) (b call : ℕ) (lane : Lane V)
      → IsSharded lane.buffer
      → cfg.max_batch_size ≡ pos (suc b)
      → ((n : ℕ) → env.writers n ≡ [])
      → length lane.channel + Sharded.len lane.buffer ≤ channel_capacity
      → Strands
          (start call (record lane { buffer = Sharded.new_sharded_map }))
          (flush cfg env call lane)
  unfolding flush
  flush-Strands cfg env b call lane h size idle room =
      let metrics = (Sharded.swap_all lane.buffer).0 in
      let many : length metrics ≡ Sharded.len lane.buffer = (swap_all_drains lane.buffer h).4 in
      rw (swap_all_empties lane.buffer h) (
        flush_metrics-Strands (suc (length metrics)) cfg env b metrics
          (start call (record lane { buffer = Sharded.new_sharded_map })) size idle (omega arith)
          (omega (arith, many)))
