-- ===== src/Buffer/Lane.antt =====
-- The path of one kind of record through internal/buffer/buffer_manager.go: its sharded buffer, its
-- write channel, and the batches that its writers hold. The five kinds have the same code; Manager
-- has its five copies.
pub mod Weights
pub mod Delivery
pub mod Rounds
pub mod Flush
pub mod BatchSize
pub mod Unreceived
pub mod Buffering
pub mod Folding
use ztelem.Prelude.{
  ℕ, zero, suc, ◌+◌, ◌-◌, min, Bool, true, false, Bytes, List, [], ◌∷◌, ◌++◌, Option, none, some,
  ltb, leb, ℤ, pos, negsuc, length, take, drop, replicate, get_elem?,
}
use ztelem.Config.{DatabaseWriterConfig}
use ztelem.Buffer.Sharded
use ztelem.Buffer.Sharded.{ShardedMap}
use ztelem.Buffer.Retry.{Outcome, WriteError, Written, write_with_retry}

-- `make(chan []V, 100)`
abbrev pub channel_capacity : ℕ
channel_capacity = 100

-- `in_flight` holds the batches that writers have received and not finished, `stored` each batch as
-- often as it has landed in the table.
pub record Lane {ℓ} (V : Type ℓ) : Type ℓ where
  pub buffer : ShardedMap V
  pub channel : List (List V)
  pub in_flight : List (List V)
  pub stored : List (List V)

-- A writer receives the oldest batch of the channel, or finishes the `n`-th batch in flight.
pub data WriterStep : Type 0 where
  receives : WriterStep
  finishes : ℕ → WriterStep

-- What the other goroutines and the database do: `writers j` are the steps of the writers before the
-- `j`-th send of a flush, and the database answers its `n`-th call by `db n`.
pub record Environment : Type 0 where
  pub writers : ℕ → List WriterStep
  pub db : ℕ → Outcome

-- The lane, the next call of the database, and what the writers have counted: the records written, and
-- the batches that failed.
pub record Progress {ℓ} (V : Type ℓ) : Type ℓ where
  pub lane : Lane V
  pub next_call : ℕ
  pub written : ℕ
  pub errors : ℕ

-- A flush that returns, one that indexes out of range, or one that is still running when its fuel is
-- used up.
pub data Flushed {ℓ} (V : Type ℓ) : Type ℓ where
  returned : Option WriteError → Progress V → Flushed V
  panicked : Flushed V
  unfinished : Flushed V

-- The result of the loop over the records of one call of `Add…`.
pub record Added {ℓ} (V : Type ℓ) : Type ℓ where
  pub added_buffer : ShardedMap V
  pub collisions : ℕ

module _ {ℓ} {V : Type ℓ} where
  unfoldable pub new_lane : Lane V
  new_lane = record { buffer = Sharded.new_sharded_map; channel = []; in_flight = []; stored = [] }

  -- The loops of `AddPlatformMetrics`, `AddInterfaceMetrics` and `AddSubinterfaceMetrics`: under the
  -- lock of its shard a record is merged into the one with its key, or stored under a new key.
  pub add_merging : (V → Bytes) → (V → V → V) → List V → ShardedMap V → ℕ → Added V
  add_merging key merge [] buffer collisions = record {
    added_buffer = buffer;
    collisions = collisions;
  }
  add_merging key merge (x ∷ xs) buffer collisions = elim (Sharded.get buffer (key x)) [
    | some existing ↦
        add_merging key merge xs (Sharded.set buffer (key x) (merge existing x)) (suc collisions)
    | none ↦ add_merging key merge xs (Sharded.set buffer (key x) x) collisions
  ]

  -- The loops of `AddAlarmReportMetrics` and `AddNotificationReportMetrics`: the last record of a key
  -- stays.
  pub add_replacing : (V → Bytes) → List V → ShardedMap V → ShardedMap V
  add_replacing key [] buffer = buffer
  add_replacing key (x ∷ xs) buffer = add_replacing key xs (Sharded.set buffer (key x) x)

  -- `bm.buffer.Len() >= bm.config.FlushThreshold`
  pub reaches : ShardedMap V → ℤ → Bool
  reaches buffer (pos threshold) = leb threshold (Sharded.len buffer)
  reaches buffer (negsuc n) = true

  pub send : List V → Progress V → Progress V
  send batch p = record p { lane = record p.lane { channel = p.lane.channel ++ batch ∷ [] } }

  -- What a write leaves, whether it is reported as done or not: the copies that have landed.
  pub wrote : Written → List V → Progress V → Progress V
  wrote result batch p = record p {
    lane = record p.lane { stored = p.lane.stored ++ replicate result.copies batch };
    next_call = result.next_call;
  }

  pub count_write : Option WriteError → ℕ → Progress V → Progress V
  count_write none n p = record p { written = p.written + n }
  count_write (some err) n p = record p { errors = suc p.errors }

  pub take_out : ℕ → Progress V → Progress V
  take_out n p = record p {
    lane = record p.lane { in_flight = take n p.lane.in_flight ++ drop (suc n) p.lane.in_flight };
  }

  -- The body of a writer for the `n`-th of the batches in flight.
  unfoldable pub work : DatabaseWriterConfig → (ℕ → Outcome) → ℕ → Progress V → Progress V
  unfolding wrote count_write take_out
  work cfg db n p = elim (get_elem? p.lane.in_flight n) [
    | none ↦ p
    | some batch ↦
        let result = write_with_retry cfg db p.next_call in
        count_write result.error (length batch) (wrote result batch (take_out n p))
  ]

  pub receive : Progress V → Progress V
  receive p = record p {
    lane = record p.lane {
      channel = drop 1 p.lane.channel;
      in_flight = p.lane.in_flight ++ take 1 p.lane.channel;
    };
  }

  -- The steps of the writers, in turn.
  pub run_writers : DatabaseWriterConfig → (ℕ → Outcome) → List WriterStep → Progress V → Progress V
  unfolding receive work
  run_writers cfg db [] p = p
  run_writers cfg db (receives ∷ steps) p = run_writers cfg db steps (receive p)
  run_writers cfg db (finishes n ∷ steps) p = run_writers cfg db steps (work cfg db n p)

  -- `metrics[i:end]`
  slice : ℕ → ℕ → List V → List V
  slice i end metrics = take (end - i) (drop i metrics)

  -- `end := i + batchSize; if end > len(metrics) { end = len(metrics) }`
  slice_end : ℕ → ℕ → List V → ℕ
  slice_end i batch_size metrics = min (i + batch_size) (length metrics)

  -- `for i := 0; i < len(metrics); i += batchSize`: a batch goes into the channel if there is room, and
  -- is written by the flush itself if there is none. `j` counts the rounds.
  pub flush_loop :
      ℕ → DatabaseWriterConfig → Environment → ℕ → List V → ℕ → ℕ → Progress V → Flushed V
  unfolding run_writers send wrote slice slice_end
  flush_loop zero cfg env batch_size metrics i j p = unfinished
  flush_loop (suc fuel) cfg env batch_size metrics i j p =
      let end = slice_end i batch_size metrics in
      let batch = slice i end metrics in
      let meanwhile = run_writers cfg env.db (env.writers j) p in
      let result = write_with_retry cfg env.db meanwhile.next_call in
      elim (ltb i (length metrics)) [
        | false ↦ returned none p
        | true ↦ elim (ltb (length meanwhile.lane.channel) channel_capacity) [
          | true ↦
              flush_loop fuel cfg env batch_size metrics (i + batch_size) (suc j)
                (send batch meanwhile)
          | false ↦ elim result.error [
            | some err ↦ returned (some err) (wrote result batch meanwhile)
            | none ↦
                flush_loop fuel cfg env batch_size metrics (i + batch_size) (suc j)
                  (wrote result batch meanwhile)
          ]
        ]
      ]

  -- After `SwapAll`. A negative batch size makes the first slice end before 0, which panics. One round
  -- for each record is enough fuel where the batch size is positive.
  pub flush_metrics : ℕ → DatabaseWriterConfig → Environment → List V → Progress V → Flushed V
  unfolding flush_loop
  flush_metrics fuel cfg env [] p = returned none p
  flush_metrics fuel cfg env (m ∷ metrics) p = elim cfg.max_batch_size [
    | pos batch_size ↦ flush_loop fuel cfg env batch_size (m ∷ metrics) 0 0 p
    | negsuc n ↦ panicked
  ]

  -- A lane of which the writers have counted nothing yet.
  abbrev pub start : ℕ → Lane V → Progress V
  start call lane = record { lane = lane; next_call = call; written = 0; errors = 0 }

  pub flush : DatabaseWriterConfig → Environment → ℕ → Lane V → Flushed V
  unfolding flush_metrics
  flush cfg env call lane =
      let (metrics, emptied) = Sharded.swap_all lane.buffer in
      flush_metrics (suc (length metrics)) cfg env metrics
        (start call (record lane { buffer = emptied }))
