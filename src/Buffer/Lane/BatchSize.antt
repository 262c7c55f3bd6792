-- ===== src/Buffer/Lane/BatchSize.antt =====
-- Flushes with a batch size that is not positive.
use ztelem.Prelude.{
  ℕ, zero, suc, ◌<◌, true, List, ◌∷◌, none, ◌≡◌, refl, arith, ltb, ℤ, pos, negsuc, pos_part, length,
  ◌⊎◌, Bool-cases, if◌then◌else◌, ltb_ℤ, inl, inr,
}
use ztelem.Buffer.Retry.Laws.{write_with_retry-Tried, Succeeds-first}
use ztelem.Config.{DatabaseWriterConfig}
use ztelem.Buffer.Retry.{Outcome, succeeded, write_with_retry}
use ztelem.Buffer.Lane.{
  Progress, Environment, run_writers, send, wrote, slice, slice_end, flush_loop, flush_metrics,
  channel_capacity, unfinished, panicked,
}

first_call-succeeds :
    (cfg : DatabaseWriterConfig) (db : ℕ → Outcome) (call : ℕ)
    → 0 < pos_part cfg.retry_attempts
    → db call ≡ succeeded
    → (write_with_retry cfg db call).error ≡ none
first_call-succeeds cfg db call a e =
    (write_with_retry-Tried cfg db call).complete (Succeeds-first db call _ a e)

unsized-cases : (z : ℤ) → pos_part z ≡ 0 → (z ≡ pos 0) ⊎ ((n : ℕ) × (z ≡ negsuc n))
unsized-cases (pos zero) e = inl refl
unsized-cases (pos (suc n)) e = ground (arith, e)
unsized-cases (negsuc n) e = inr (n, refl)

module _ {ℓ} {V : Type ℓ} where
  spins :
      (fuel : ℕ) (cfg : DatabaseWriterConfig) (env : Environment) (metrics : List V) (j : ℕ)
      (p : Progress V)
      → 0 < pos_part cfg.retry_attempts
      → ((n : ℕ) → env.db n ≡ succeeded)
      → ltb 0 (length metrics) ≡ true
      → flush_loop fuel cfg env 0 metrics 0 j p ≡ unfinished
  unfolding flush_loop
  spins zero cfg env metrics j p a db h = refl
  spins (suc fuel) cfg env metrics j p a db h =
      let meanwhile = run_writers cfg env.db (env.writers j) p in
      let batch = slice 0 (slice_end 0 0 metrics) metrics in
      let result = write_with_retry cfg env.db meanwhile.next_call in
      elim (Bool-cases (ltb (length meanwhile.lane.channel) channel_capacity)) [
        | inl room ↦
            rw (h, room, flush_loop)
              (spins fuel cfg env metrics (suc j) (send batch meanwhile) a db h)
        | inr full ↦
            rw
              (
                h,
                full,
                first_call-succeeds cfg env.db meanwhile.next_call a (db meanwhile.next_call),
                flush_loop,
              )
              (spins fuel cfg env metrics (suc j) (wrote result batch meanwhile) a db h)
      ]

  -- Nothing checks the configured batch size. With a size that is not positive a flush of any records
  -- never returns, whatever number of rounds it is given: with a negative size it panics, and with
  -- the size 0 it goes on for ever as long as the database accepts each empty batch.
  pub flush_batch_size :
      (cfg : DatabaseWriterConfig) (env : Environment) (m : V) (metrics : List V) (p : Progress V)
      → pos_part cfg.max_batch_size ≡ 0
      → 0 < pos_part cfg.retry_attempts
      → ((k : ℕ) → env.db k ≡ succeeded)
      → (fuel : ℕ)
      → flush_metrics fuel cfg env (m ∷ metrics) p
        ≡ (if ltb_ℤ cfg.max_batch_size (pos 0) then panicked else unfinished)
  unfolding flush_metrics
  flush_batch_size cfg env m metrics p e a db fuel = elim (unsized-cases cfg.max_batch_size e) [
    | inl h ↦ rw (h, flush_metrics) (spins fuel cfg env (m ∷ metrics) 0 p a db (ground arith))
    | inr (n, h) ↦ rw (h, flush_metrics) (ground arith)
  ]
