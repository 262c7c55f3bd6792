-- ===== src/Examples/Flushes.antt =====
-- Retries, flushes and the shutdown at concrete managers.
use ztelem.Prelude.{ℕ, List, [], ◌∷◌, none, ◌≡◌, refl, arith, codes, pos}
use ztelem.Config.{DatabaseWriterConfig, default_database_writer_config, seconds}
use ztelem.Buffer.Sharded
use ztelem.Buffer.Sharded.{new_sharded_map}
use ztelem.Buffer.Sharded.Laws.{len-set, len-new, get-new}
use ztelem.Buffer.Sharded.Index.{new-IsSharded, set-IsSharded}
use ztelem.Buffer.Retry.{succeeded, write_with_retry, retry_loop}
use ztelem.Buffer.Lane.{Lane, Environment, start, flush, flush_metrics, new_lane, unfinished}
use ztelem.Buffer.Lane.Rounds.{Delivers}
use ztelem.Buffer.Lane.Flush.{flush-Delivers}
use ztelem.Buffer.Lane.BatchSize.{flush_batch_size}
use ztelem.Buffer.Lane.Unreceived.{Strands, flush-Strands}
use ztelem.Buffer.Manager.{new_fixed_buffer_manager}
use ztelem.Buffer.Manager.Invariant.{new-IsWellFormed}
use ztelem.Buffer.Manager.Flushing.{
  platform, interface, subinterface, alarm_report, notification_report, goroutines, arrange,
  flush_all, stop,
}
use ztelem.Buffer.Manager.Shutdown.{Empties, Stops, flush_all-Empties, stop-Stops}
use ztelem.Examples.Data.{manager, noon, db, environment}

-- The third of three attempts succeeds, after one insert that came too late and was stored.
write_with_retry_run :
    write_with_retry default_database_writer_config db 0
    ≡ record { error = none; next_call = 3; copies = 2 }
unfolding write_with_retry retry_loop
write_with_retry_run = refl

-- A lane with one buffered record.
abbrev lane : Lane ℕ
lane = record new_lane { buffer = Sharded.set new_sharded_map (codes "a") 1 }

flush-Delivers_example :
    (d : Delivers environment.db
      (Sharded.swap_all lane.buffer).0
      (start 0 (record lane { buffer = new_sharded_map }))
      (flush default_database_writer_config environment 0 lane))
    × (d.after.lane.buffer ≡ new_sharded_map)
flush-Delivers_example =
    flush-Delivers default_database_writer_config environment 999 0 lane
      (set-IsSharded new_sharded_map (codes "a") 1 new-IsSharded) refl

one_record : Sharded.len lane.buffer ≡ 1
one_record = ground (
  arith,
  len-set {V = ℕ} new_sharded_map (codes "a") 1 new-IsSharded,
  get-new ℕ (codes "a"),
  len-new ℕ,
)

flush-Strands_example :
    let idle = record environment { writers = λ n. [] } in
    Strands
      (start 0 (record lane { buffer = new_sharded_map }))
      (flush default_database_writer_config idle 0 lane)
unfolding new_lane
flush-Strands_example =
    flush-Strands default_database_writer_config (record environment { writers = λ n. [] }) 999 0
      lane (set-IsSharded new_sharded_map (codes "a") 1 new-IsSharded) refl (λ n. refl)
      (omega (arith, one_record))

-- A configuration with the batch size 0, and a database that accepts every batch.
abbrev unsized : DatabaseWriterConfig
unsized = record default_database_writer_config { max_batch_size = pos 0 }

abbrev accepting : Environment
accepting = record environment { db = λ n. succeeded }

flush_batch_size_example :
    flush_metrics {V = ℕ} 50 unsized accepting (7 ∷ []) (start 0 new_lane) ≡ unfinished
flush_batch_size_example =
    flush_batch_size unsized accepting 7 [] (start 0 new_lane) refl (omega arith) (λ n. refl) 50

-- The flush of the notifications ends first, then the one of the platform metrics.
abbrev picks : List ℕ
picks = 4 ∷ 0 ∷ 9 ∷ []

arrange_run :
    arrange picks goroutines
    ≡ notification_report ∷ platform ∷ interface ∷ subinterface ∷ alarm_report ∷ []
unfolding arrange
arrange_run = refl

flush_all-Empties_example : Empties manager (flush_all picks environment noon (seconds 1) manager)
unfolding new_fixed_buffer_manager
flush_all-Empties_example =
    flush_all-Empties picks environment noon (seconds 1) 999 manager (new-IsWellFormed _ _) refl

stop-Stops_example : Stops manager (stop picks environment noon (seconds 1) manager)
unfolding new_fixed_buffer_manager
stop-Stops_example =
    stop-Stops picks environment noon (seconds 1) 999 manager (new-IsWellFormed _ _) refl
