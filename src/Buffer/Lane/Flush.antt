-- ===== src/Buffer/Lane/Flush.antt =====
-- A whole flush, from `SwapAll` on.
use ztelem.Prelude.{ℕ, suc, ◌<◌, List, [], ◌∷◌, ◌≡◌, arith, pos, length}
use ztelem.Buffer.Sharded
use ztelem.Buffer.Sharded.Index.{IsSharded}
use ztelem.Buffer.Sharded.Drain.{swap_all_empties}
use ztelem.Buffer.Lane.Rounds.{Delivers, Delivers-stop, flush_loop-Delivers}
use ztelem.Config.{DatabaseWriterConfig}
use ztelem.Buffer.Lane.{Lane, Progress, Environment, start, flush_metrics, flush}

module _ {ℓ} {V : Type ℓ} where
  flush_metrics-Delivers :
      (fuel : ℕ) (cfg : DatabaseWriterConfig) (env : Environment) (b : ℕ) (metrics : List V)
      (p : Progress V)
      → cfg.max_batch_size ≡ pos (suc b)
      → length metrics < fuel
      → Delivers env.db metrics p (flush_metrics fuel cfg env metrics p)
  unfolding flush_metrics
  flush_metrics-Delivers fuel cfg env b [] p e h = Delivers-stop env.db [] 0 p (omega arith)
  flush_metrics-Delivers fuel cfg env b (m ∷ metrics) p e h =
      rw (e, flush_metrics) (flush_loop-Delivers fuel cfg env b (m ∷ metrics) 0 0 p (omega arith))

  -- With a positive batch size a flush returns, whatever the writers and the database do. It leaves a
  -- new buffer. The buffered records fall into those handed on and those, from some point on, that are
  -- not: none if it returns no error, and at least one if it does. Counted in any way, what was stored,
  -- queued or held by writers before, together with those handed on, is no more than what is so after,
  -- copies included, together with the batches that writers have given up meanwhile, each of which they
  -- count as an error; and if the database answers no call late, it is the same, so that nothing is
  -- stored twice and nothing of what is not handed on is stored.
  pub flush-Delivers :
      (cfg : DatabaseWriterConfig) (env : Environment) (b call : ℕ) (lane : Lane V)
      → IsSharded lane.buffer
      → cfg.max_batch_size ≡ pos (suc b)
      → (d : Delivers env.db
          (Sharded.swap_all lane.buffer).0
          (start call (record lane { buffer = Sharded.new_sharded_map }))
          (flush cfg env call lane))
        × (d.after.lane.buffer ≡ Sharded.new_sharded_map)
  unfolding flush
  flush-Delivers cfg env b call lane h e =
      let emptied = swap_all_empties lane.buffer h in
      let d =
        flush_metrics-Delivers (suc (length (Sharded.swap_all lane.buffer).0)) cfg env b
          (Sharded.swap_all lane.buffer).0
          (start call (record lane { buffer = Sharded.new_sharded_map })) e (omega arith) in
      rw emptied (d, d.moved.same_buffer)
